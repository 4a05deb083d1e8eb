-- ===== src/Base/Progress.antt =====
-- Readers that never move the offset back, and never past the end of the buffer.
use cpp17_client.Base.{
  ℕ, ◌+◌, ◌≤◌, ◌≡◌, arith, List, length, ok, bind_ok, Error, Bool, true, false, if◌then◌else◌,
}
use cpp17_client.Base.Readers.{
  Reader, ◌>>=◌, ◌>>◌, return, throw_if, next_byte, Gives, Gives-next_byte, Gives-throw_if,
}

-- Whenever the reader returns from an offset within the buffer, it has moved by `lo` at least and
-- stayed within the buffer.
pub record Advances {ℓ} {A : Type ℓ} (r : Reader A) (lo : ℕ) : Type ℓ where
  pub apply :
      (buffer : List ℕ) (offset : ℕ) (a : A) (offset' : ℕ)
      → offset ≤ length buffer
      → r buffer offset ≡ ok (a, offset')
      → (offset + lo ≤ offset') × (offset' ≤ length buffer)

module _ {ℓ} {A : Type ℓ} where
  pub Advances-return : (a : A) → Advances (return a) 0
  unfolding return
  Advances-return a = record {
    apply = λ buffer offset b offset' l e.
        let there : offset ≡ offset' = cc in (omega arith, omega arith);
  }

  pub Advances-bind {κ} :
      {B : Type κ} {r : Reader A} {lo : ℕ} (f : A → Reader B)
      → Advances r lo
      → ((a : A) → Advances (f a) 0)
      → Advances (r >>= f) lo
  unfolding ◌>>=◌
  Advances-bind {r} f h k = record {
    apply = λ buffer offset b offset' l e.
        let (p, first, second) = bind_ok (r buffer offset) (λ p. f p.0 buffer p.1) e in
        let (moved, inside) = h.apply buffer offset p.0 p.1 l first in
        let (onward, still) = (k p.0).apply buffer p.1 b offset' inside second in
        (omega arith, still);
  }

  pub Advances-weaken : {r : Reader A} {lo : ℕ} → Advances r lo → Advances r 0
  Advances-weaken h = record {
    apply = λ buffer offset b offset' l e.
        let (moved, inside) = h.apply buffer offset b offset' l e in (omega arith, inside);
  }

  pub Gives-Advances : {r : Reader A} {lo hi : ℕ} {P : A → Type 0} → Gives r lo hi P → Advances r lo
  Gives-Advances h = record {
    apply = λ buffer offset b offset' l e.
        let (holds, moved, near, inside) = h.apply buffer offset b offset' l e in (moved, inside);
  }

  pub Advances-if :
      (c : Bool) {r s : Reader A} {lo : ℕ}
      → Advances r lo
      → Advances s lo
      → Advances (if c then r else s) lo
  Advances-if true h k = h
  Advances-if false h k = k

pub Advances-next_byte : (e : Error) → Advances (next_byte e) 1
Advances-next_byte e = Gives-Advances (Gives-next_byte e)

pub Advances-byte : (e : Error) → Advances (next_byte e) 0
Advances-byte e = Advances-weaken (Advances-next_byte e)

pub Advances-then {κ} :
    {B : Type κ} (c : Bool) (e : Error) {k : Reader B}
    → Advances k 0
    → Advances (throw_if c e >> k) 0
unfolding ◌>>◌
Advances-then c e {k} h = Advances-bind (λ _. k) (Gives-Advances (Gives-throw_if c e)) (λ _. h)
