-- ===== src/Base/Results.antt =====
-- What a C++ call comes to: a value, an exception, or behaviour that the C++ standard leaves
-- undefined (a shift by the width of the type or more, a read outside a vector).
use Prim.Native.Nat.{ℕ, zero, suc, ◌≤◌, ◌<◌}
use native.Mathlib.Omega.{arith}
use cpp17_client.Base.Lists.{length}
use Prim.Native.String.{String}
use mathlib.Core.List.{List, [], ◌∷◌}
use mathlib.Core.Path.{◌≡◌, refl}
use mathlib.Core.Logic.{◌⊎◌, inl, inr}
use mathlib.Core.Bool.{Bool, true, false}

-- `std::runtime_error` with its message; a number that the source appends is left out.
-- `out_of_range` is what `std::vector::at` throws, and `std::stoi`, which throws `invalid_argument` too.
pub data Error : Type 0 where
  runtime_error : String → Error
  out_of_range : Error
  invalid_argument : Error

pub data Outcome {ℓ} (A : Type ℓ) : Type ℓ where
  ok : A → Outcome A
  err : Error → Outcome A
  undefined : Outcome A

-- `if (b) throw e;`
abbrev pub throw_if : Bool → Error → Outcome (Unit {0})
throw_if c e = elim c [ true ↦ err e | false ↦ ok tt ]

-- Only a value goes on to the next call.
infixl 5 ◌>>◌
module _ {ℓ κ} {A : Type ℓ} {B : Type κ} where
  infixl 5 ◌>>=◌
  abbrev pub ◌>>=◌ : Outcome A → (A → Outcome B) → Outcome B
  ok value >>= next = next value
  undefined >>= next = undefined
  err e >>= next = err e

  -- A chain that returned passed through a value of its first call.
  pub bind_ok :
      (first : Outcome A) (next : A → Outcome B) {b : B}
      → (first >>= next) ≡ ok b
      → (value : A) × (first ≡ ok value) × (next value ≡ ok b)
  bind_ok undefined next h = cc
  bind_ok (err e) next h = cc
  bind_ok (ok value) next h = (value, refl, h)

abbrev pub ◌>>◌ {ℓ} : {B : Type ℓ} → Outcome (Unit {0}) → Outcome B → Outcome B
first >> next = first >>= λ _. next

-- `v[i]` of a vector; an index past the end is undefined.
abbrev pub element {ℓ} : {A : Type ℓ} → List A → ℕ → Outcome A
element [] i = undefined
element (x ∷ xs) zero = ok x
element (x ∷ xs) (suc i) = element xs i

module _ {ℓ} {A : Type ℓ} where
  pub element_total : (xs : List A) (i : ℕ) → i < length xs → (x : A) × (element xs i ≡ ok x)
  element_total [] i h = absurd (omega arith)
  element_total (x ∷ xs) zero h = (x, refl)
  element_total (x ∷ xs) (suc i) h = element_total xs i (omega arith)

  pub element_past : (xs : List A) (i : ℕ) → length xs ≤ i → element xs i ≡ undefined
  element_past [] i h = refl
  element_past (x ∷ xs) zero h = absurd (omega arith)
  element_past (x ∷ xs) (suc i) h = element_past xs i (omega arith)

-- The call returns.
abbrev pub Returns {ℓ} : {A : Type ℓ} → Outcome A → Type ℓ
Returns {A} o = (a : A) × (o ≡ ok a)

pub Returns-bind {ℓ κ} :
    {A : Type ℓ} {B : Type κ} {first : Outcome A} (next : A → Outcome B)
    → Returns first
    → ((a : A) → Returns (next a))
    → Returns (first >>= next)
Returns-bind next (a, e) h = let (b, f) = h a in (b, rw (e, f) refl)

pub Outcome-cases {ℓ} :
    {A : Type ℓ} (o : Outcome A)
    → (o ≡ undefined) ⊎ ((e : Error) × (o ≡ err e)) ⊎ ((a : A) × (o ≡ ok a))
Outcome-cases undefined = inl refl
Outcome-cases (err e) = inr (inl (e, refl))
Outcome-cases (ok a) = inr (inr (a, refl))
