-- ===== src/Base/Readers.antt =====
-- Code that reads a buffer from an offset on, as a chain of readers, and what it means that a reader
-- takes exactly given bytes.
use cpp17_client.Base.{
  ℕ, zero, suc, ◌+◌, ◌≤◌, ◌≡◌, refl, subst, ◌-◌, ap, ◌∙◌, arith, List, [], ◌∷◌, ◌++◌, length, drop,
}
use cpp17_client.Base.{
  Outcome, ok, err, bind_ok, length-drop, Error, append_assoc, length-append, drop-append, Bool,
  true, false, append-nil,
}
use cpp17_client.Base

abbrev pub Reader {ℓ} : Type ℓ → Type ℓ
Reader A = List ℕ → ℕ → Outcome (A × ℕ)

infixl 5 ◌>>=◌ ◌>>◌
unfoldable pub ◌>>=◌ {ℓ κ} : {A : Type ℓ} {B : Type κ} → Reader A → (A → Reader B) → Reader B
◌>>=◌ r f buffer offset = Base.◌>>=◌ (r buffer offset) (λ p. f p.0 buffer p.1)

unfoldable pub ◌>>◌ {ℓ} : {B : Type ℓ} → Reader (Unit {0}) → Reader B → Reader B
unfolding ◌>>=◌
r >> k = r >>= λ _. k

unfoldable pub return {ℓ} : {A : Type ℓ} → A → Reader A
return a buffer offset = ok (a, offset)

unfoldable pub throw_if : Bool → Error → Reader (Unit {0})
throw_if true e buffer offset = err e
throw_if false e buffer offset = ok (tt, offset)

-- `buffer[offset++]`, behind a check that throws `e`.
unfoldable pub byte_of : Error → List ℕ → ℕ → Outcome (ℕ × ℕ)
byte_of e [] offset = err e
byte_of e (b ∷ rest) offset = ok (b, offset + 1)

unfoldable pub next_byte : Error → Reader ℕ
unfolding byte_of
next_byte e buffer offset = byte_of e (drop offset buffer) offset

-- Wherever the bytes `g` stand, the reader returns `a` with the offset behind them.
pub record Takes {ℓ} {A : Type ℓ} (r : Reader A) (g : List ℕ) (a : A) : Type ℓ where
  pub apply :
      (front rest : List ℕ) → r (front ++ (g ++ rest)) (length front) ≡ ok (a, length (front ++ g))

module _ {ℓ} {A : Type ℓ} where
  pub Takes-return : (a : A) → Takes (return a) [] a
  unfolding return
  Takes-return a = record { apply = λ front rest. rw append-nil }

  pub Takes-bind {κ} :
      {B : Type κ} {r : Reader A} {g : List ℕ} {a : A} (f : A → Reader B) {g' : List ℕ} {b : B}
      → Takes r g a
      → Takes (f a) g' b
      → Takes (r >>= f) (g ++ g') b
  unfolding ◌>>=◌
  Takes-bind {r} {g} {a} f {g'} {b} t t' = record {
    apply = λ front rest.
        rw (append_assoc, t.apply front (g' ++ rest))
          (simp append_assoc at (t'.apply (front ++ g) rest));
  }

pub Takes-then {κ} :
    {B : Type κ} {r : Reader (Unit {0})} {g : List ℕ} {k : Reader B} {g' : List ℕ} {b : B}
    → Takes r g tt
    → Takes k g' b
    → Takes (r >> k) (g ++ g') b
unfolding ◌>>◌
Takes-then {k} t t' = Takes-bind (λ _. k) t t'

pub Takes-throw_if : (c : Bool) (e : Error) → c ≡ false → Takes (throw_if c e) [] tt
unfolding throw_if
Takes-throw_if c e h = record { apply = λ front rest. rw (h, append-nil) }

pub Takes-next_byte : (e : Error) (b : ℕ) → Takes (next_byte e) (b ∷ []) b
unfolding next_byte
Takes-next_byte e b = record {
  apply = λ front rest. rw (drop-append, byte_of, length-append front (b ∷ []));
}

-- Whenever the reader returns from an offset within the buffer, the value satisfies `P`, and the
-- offset moves by `lo` to `hi` and stays within the buffer.
pub record Gives {ℓ} {A : Type ℓ} (r : Reader A) (lo hi : ℕ) (P : A → Type 0) : Type ℓ where
  pub apply :
      (buffer : List ℕ) (offset : ℕ) (a : A) (offset' : ℕ)
      → offset ≤ length buffer
      → r buffer offset ≡ ok (a, offset')
      → P a × (offset + lo ≤ offset') × (offset' ≤ offset + hi) × (offset' ≤ length buffer)

module _ {ℓ} {A : Type ℓ} where
  pub Gives-return : (a : A) (P : A → Type 0) → P a → Gives (return a) 0 0 P
  unfolding return
  Gives-return a P h = record {
    apply = λ buffer offset b offset' l e.
        let same : a ≡ b = cc in
        let there : offset ≡ offset' = cc in
        (subst P same h, omega arith, omega arith, omega arith);
  }

  pub Gives-bind {κ} :
      {B : Type κ} {r : Reader A} {lo hi : ℕ} {P : A → Type 0}
      → (f : A → Reader B) {lo' hi' : ℕ} {Q : B → Type 0} → Gives r lo hi P
      → ((a : A) → P a → Gives (f a) lo' hi' Q)
      → Gives (r >>= f) (lo + lo') (hi + hi') Q
  unfolding ◌>>=◌
  Gives-bind {r} f h k = record {
    apply = λ buffer offset b offset' l e.
        let (p, first, second) = bind_ok (r buffer offset) (λ p. f p.0 buffer p.1) e in
        let (hP, lo1, hi1, in1) = h.apply buffer offset p.0 p.1 l first in
        let (hQ, lo2, hi2, in2) = (k p.0 hP).apply buffer p.1 b offset' in1 second in
        (hQ, omega arith, omega arith, in2);
  }

byte_of_moves :
    (e : Error) (xs : List ℕ) (offset b offset' : ℕ)
    → byte_of e xs offset ≡ ok (b, offset')
    → (offset' ≡ offset + 1) × (1 ≤ length xs)
unfolding byte_of
byte_of_moves e [] offset b offset' h = cc
byte_of_moves e (x ∷ xs) offset b offset' h = ground arith

pub Gives-next_byte : (e : Error) → Gives (next_byte e) 1 1 (λ _. Unit {0})
unfolding next_byte
Gives-next_byte e = record {
  apply = λ buffer offset b offset' l h.
      let (moved, nonempty) = byte_of_moves e (drop offset buffer) offset b offset' h in
      let size : length (drop offset buffer) ≡ length buffer - offset = length-drop offset buffer in
      (tt, omega arith, omega arith, omega arith);
}

pub Gives-throw_if : (c : Bool) (e : Error) → Gives (throw_if c e) 0 0 (λ _. c ≡ false)
unfolding throw_if
Gives-throw_if true e = record { apply = λ buffer offset b offset' l h. cc }
Gives-throw_if false e = record {
  apply = λ buffer offset b offset' l h.
      let there : offset ≡ offset' = cc in (refl, omega arith, omega arith, omega arith);
}

pub Gives-then {κ} :
    {B : Type κ} {r : Reader (Unit {0})} {lo hi : ℕ} {P : Type 0} {k : Reader B} {lo' hi' : ℕ}
    {Q : B → Type 0}
    → Gives r lo hi (λ _. P)
    → (P → Gives k lo' hi' Q)
    → Gives (r >> k) (lo + lo') (hi + hi') Q
unfolding ◌>>◌
Gives-then {k} h g = Gives-bind (λ _. k) h (λ _. g)

pub Takes-map {ℓ κ} :
    {A : Type ℓ} {B : Type κ} {r : Reader A} {g : List ℕ} {a : A} (f : A → B)
    → Takes r g a
    → Takes (r >>= λ x. return (f x)) g (f a)
Takes-map {r} {g} {a} f t =
    subst (λ bytes. Takes (r >>= λ x. return (f x)) bytes (f a)) (append-nil g)
      (Takes-bind (λ x. return (f x)) t (Takes-return (f a)))
