-- ===== src/Base/Bits.antt =====
-- `&`, `|` and `^` as arithmetic: masks, disjoint fields and bounds.
use Prim.Native.Nat.{min, max, digits, differ, bit_and-bitwise, bit_or-bitwise, bit_xor-bitwise}
use cpp17_client.Base.{ℕ, zero, suc, ◌+◌, ◌-◌, ◌*◌, ◌/◌, ◌%◌, ◌^◌, ◌≤◌, ◌<◌, bit_and, bit_or}
use cpp17_client.Base.{bit_xor, ◌≡◌, refl, ap, ◌∙◌, arith, lt_wf}
use mathlib.Core.WellFounded
use native.Mathlib.Nat.{pow-suc, one-le-pow, div-div-eq-div-mul, mod-eq_of_lt}

-- The native operations mean a recursion on binary digits with a count of digits to go. A higher
-- count than the first number needs changes nothing.
module _ (z : ℕ → ℕ) (f : ℕ → ℕ → ℕ) where
  one_digit_more : (n a b : ℕ) → a ≤ n → digits z f (suc n) a b ≡ digits z f n a b
  one_digit_more zero zero b h = refl
  one_digit_more zero (suc a) b h = absurd (omega arith)
  one_digit_more (suc n) zero b h = refl
  one_digit_more (suc n) (suc a) b h =
      omega (arith, one_digit_more n (suc a / 2) (b / 2) (omega arith))

  digits_more : (k a b : ℕ) → digits z f (k + a) a b ≡ digits z f a a b
  digits_more zero a b = let same : 0 + a ≡ a = omega arith in ap (λ (n : ℕ). digits z f n a b) same
  digits_more (suc k) a b =
      let same : suc k + a ≡ suc (k + a) = omega arith in
      ap (λ (n : ℕ). digits z f n a b) same
      ∙ one_digit_more (k + a) a b (omega arith)
      ∙ digits_more k a b

  lowest_digit :
      (a b : ℕ)
      → digits z f (suc a) (suc a) b
        ≡ digits z f (suc a / 2) (suc a / 2) (b / 2) * 2 + f (suc a % 2) (b % 2)
  lowest_digit a b =
      let half : ℕ = suc a / 2 in
      let count : a - half + half ≡ a = omega arith in
      omega (
        arith,
        ap (λ (n : ℕ). digits z f n half (b / 2)) count,
        digits_more (a - half) half (b / 2),
      )

pub bit_and-halves : (m n : ℕ) → bit_and m n ≡ min (m % 2) (n % 2) + 2 * bit_and (m / 2) (n / 2)
bit_and-halves zero n = omega (arith, bit_and-bitwise 0 n, bit_and-bitwise 0 (n / 2))
bit_and-halves (suc m) n = simp bit_and-bitwise (omega (arith, lowest_digit (λ y. 0) min m n))

pub bit_or-halves : (m n : ℕ) → bit_or m n ≡ max (m % 2) (n % 2) + 2 * bit_or (m / 2) (n / 2)
bit_or-halves zero n = omega (arith, bit_or-bitwise 0 n, bit_or-bitwise 0 (n / 2))
bit_or-halves (suc m) n = simp bit_or-bitwise (omega (arith, lowest_digit (λ y. y) max m n))

bit_xor-halves : (m n : ℕ) → bit_xor m n ≡ differ (m % 2) (n % 2) + 2 * bit_xor (m / 2) (n / 2)
bit_xor-halves zero n = omega (arith, bit_xor-bitwise 0 n, bit_xor-bitwise 0 (n / 2))
bit_xor-halves (suc m) n = simp bit_xor-bitwise (omega (arith, lowest_digit (λ y. y) differ m n))

double_power : (k : ℕ) → 2 ^ suc k ≡ 2 * 2 ^ k
double_power k = omega (arith, pow-suc 2 k)

scaled_power : (q k : ℕ) → q * 2 ^ suc k ≡ 2 * (q * 2 ^ k)
scaled_power q k = omega (arith, ap (λ (t : ℕ). q * t) (pow-suc 2 k))

mod_double : (a p : ℕ) → 0 < p → a % (2 * p) ≡ a / 2 % p * 2 + a % 2
mod_double a p h = grind arith

bit_and-zero : (a : ℕ) → bit_and a 0 ≡ 0
bit_and-zero a = WellFounded.induction lt_wf {C = λ n. bit_and n 0 ≡ 0} a vanish
  where
    vanish : (n : ℕ) → ((m : ℕ) → m < n → bit_and m 0 ≡ 0) → bit_and n 0 ≡ 0
    vanish zero ih = refl
    vanish (suc n) ih = omega (arith, bit_and-halves (suc n) 0, ih (suc n / 2) (omega arith))

bit_or-zero : (a : ℕ) → bit_or a 0 ≡ a
bit_or-zero a = WellFounded.induction lt_wf {C = λ n. bit_or n 0 ≡ n} a keep
  where
    keep : (n : ℕ) → ((m : ℕ) → m < n → bit_or m 0 ≡ m) → bit_or n 0 ≡ n
    keep zero ih = refl
    keep (suc n) ih = omega (arith, bit_or-halves (suc n) 0, ih (suc n / 2) (omega arith))

-- `a & (2^k - 1)` is the remainder.
pub bit_and-ones : (k a : ℕ) → bit_and a (2 ^ k - 1) ≡ a % 2 ^ k
bit_and-ones zero a = omega (arith, bit_and-zero a)
bit_and-ones (suc k) a = rw (double_power k) (
    ground (
      arith,
      one-le-pow k 2 (omega arith),
      bit_and-halves a (2 * 2 ^ k - 1),
      bit_and-ones k (a / 2),
      mod_double a (2 ^ k) (one-le-pow k 2 (omega arith)),
    ))

-- A mask that ends in zero bits reads the number shifted right.
pub bit_and-shifted : (k a m : ℕ) → bit_and a (m * 2 ^ k) ≡ bit_and (a / 2 ^ k) m * 2 ^ k
bit_and-shifted zero a m = ground arith
bit_and-shifted (suc k) a m = ground (
  arith,
  scaled_power m k,
  scaled_power (bit_and (a / 2 ^ suc k) m) k,
  bit_and-halves a (m * 2 ^ suc k),
  bit_and-shifted k (a / 2) m,
  halved a k,
)
  where
    halved : (a k : ℕ) → a / 2 / 2 ^ k ≡ a / 2 ^ suc k
    halved a k = rw (double_power k) (div-div-eq-div-mul a 2 (2 ^ k))

-- `r | (q << k)` and `(q << k) | r` are sums where `r` fits `k` bits.
pub bit_or-low : (k q r : ℕ) → r < 2 ^ k → bit_or r (q * 2 ^ k) ≡ r + q * 2 ^ k
bit_or-low zero q zero h = omega (arith, bit_or-bitwise 0 (q * 2 ^ 0))
bit_or-low zero q (suc r) h = absurd (omega arith)
bit_or-low (suc k) q r h = ground (
  arith,
  double_power k,
  scaled_power q k,
  bit_or-halves r (q * 2 ^ suc k),
  bit_or-low k q (r / 2),
)

pub bit_or-high : (k q r : ℕ) → r < 2 ^ k → bit_or (q * 2 ^ k) r ≡ q * 2 ^ k + r
bit_or-high zero q r h = ground (arith, bit_or-zero q)
bit_or-high (suc k) q r h = ground (
  arith,
  double_power k,
  scaled_power q k,
  bit_or-halves (q * 2 ^ suc k) r,
  bit_or-high k q (r / 2),
)

differ_bit : (x y : ℕ) → x < 2 → y < 2 → differ x y < 2
differ_bit zero y h l = l
differ_bit (suc x) zero h l = h
differ_bit (suc zero) (suc y) h l = omega arith
differ_bit (suc (suc x)) (suc y) h l = absurd (omega arith)

-- `^` stays within the width of its arguments.
pub bit_xor-lt : (k a b : ℕ) → a < 2 ^ k → b < 2 ^ k → bit_xor a b < 2 ^ k
bit_xor-lt zero zero zero h l = omega arith
bit_xor-lt zero zero (suc b) h l = absurd (omega arith)
bit_xor-lt zero (suc a) b h l = absurd (omega arith)
bit_xor-lt (suc k) a b h l = ground (
  arith,
  double_power k,
  bit_xor-halves a b,
  differ_bit (a % 2) (b % 2) (omega arith) (omega arith),
  bit_xor-lt k (a / 2) (b / 2),
)

-- The masks of the source, at the widths that it uses.
pub low_septet : (a : ℕ) → bit_and a 0x7f ≡ a % 128
low_septet a = bit_and-ones 7 a

pub low_byte : (a : ℕ) → bit_and a 0xff ≡ a % 256
low_byte a = bit_and-ones 8 a

pub top_bit : (b : ℕ) → b < 256 → bit_and b 0x80 ≡ b / 128 * 128
top_bit b h = omega (arith, bit_and-shifted 7 b 1, bit_and-ones 1 (b / 128))

pub set_top_bit : (b : ℕ) → b < 128 → bit_or b 0x80 ≡ b + 128
set_top_bit b h = bit_or-low 7 1 b h

-- `v & ~0x7f` of a value of `k + 7` bits.
pub high_bits : (k v : ℕ) → v < 128 * 2 ^ k → bit_and v (128 * 2 ^ k - 128) ≡ v / 128 * 128
high_bits k v h =
    let mask : (2 ^ k - 1) * 2 ^ 7 ≡ 128 * 2 ^ k - 128 = omega arith in
    rw (← mask) (
      omega (
        arith,
        bit_and-shifted 7 v (2 ^ k - 1),
        bit_and-ones k (v / 128),
        mod-eq_of_lt {n = v / 128} {m = 2 ^ k} (omega arith),
      ))

pub bit_and-zero_left : (b : ℕ) → bit_and 0 b ≡ 0
bit_and-zero_left b = bit_and-bitwise 0 b

-- `|` stays within the width of its arguments.
pub bit_or-lt : (k a b : ℕ) → a < 2 ^ k → b < 2 ^ k → bit_or a b < 2 ^ k
bit_or-lt zero zero b h l = omega (arith, bit_or-bitwise 0 b)
bit_or-lt zero (suc a) b h l = absurd (omega arith)
bit_or-lt (suc k) a b h l =
    ground (arith, double_power k, bit_or-halves a b, bit_or-lt k (a / 2) (b / 2))

pub bit_or-zero_left : (b : ℕ) → bit_or 0 b ≡ b
bit_or-zero_left b = bit_or-bitwise 0 b

-- The last digits of `^`.
differ_twice : (x y : ℕ) → x < 2 → y < 2 → (differ x y < 2) × (differ (differ x y) y ≡ x)
differ_twice zero zero h k = (omega arith, refl)
differ_twice zero (suc zero) h k = (omega arith, refl)
differ_twice zero (suc (suc y)) h k = absurd (omega arith)
differ_twice (suc zero) zero h k = (omega arith, refl)
differ_twice (suc zero) (suc zero) h k = (omega arith, refl)
differ_twice (suc zero) (suc (suc y)) h k = absurd (omega arith)
differ_twice (suc (suc x)) y h k = absurd (omega arith)

-- `(a ^ b) ^ b` is `a`, on `w` bits.
pub bit_xor-twice : (w a b : ℕ) → a < 2 ^ w → b < 2 ^ w → bit_xor (bit_xor a b) b ≡ a
bit_xor-twice zero a b h k =
    let none : a ≡ 0 = omega arith in let none_too : b ≡ 0 = omega arith in rw (none, none_too) refl
bit_xor-twice (suc w) a b h k =
    let x : ℕ = bit_xor a b in
    let y : ℕ = bit_xor (a / 2) (b / 2) in
    let digit : ℕ = differ (a % 2) (b % 2) in
    let (small, twice) = differ_twice (a % 2) (b % 2) (omega arith) (omega arith) in
    let first : x ≡ digit + 2 * y = bit_xor-halves a b in
    let high : x / 2 ≡ y = omega (arith, first, small) in
    let low : x % 2 ≡ digit = omega (arith, first, small) in
    let p : 2 ^ suc w ≡ 2 * 2 ^ w = double_power w in
    let rest : bit_xor y (b / 2) ≡ a / 2 =
      bit_xor-twice w (a / 2) (b / 2) (omega (arith, p)) (omega (arith, p)) in
    bit_xor-halves x b
    ∙ ap (λ (t : ℕ). differ t (b % 2) + 2 * bit_xor (x / 2) (b / 2)) low
    ∙ ap (λ (t : ℕ). differ digit (b % 2) + 2 * bit_xor t (b / 2)) high
    ∙ omega (arith, rest, twice)
