-- ===== src/Scram/Texts.antt =====
-- The texts that src/auth/SCRAM.cpp takes apart: tokens between commas, and numbers.
use cpp17_client.Base.{
  ℕ, ◌+◌, ◌-◌, ◌*◌, ◌%◌, ◌^◌, List, [], ◌∷◌, foldl, Bool, true, false, ◌&&◌, ◌||◌, ◌==◌, leb, ltb,
  if◌then◌else◌,
}
use cpp17_client.Base.{Outcome, ok, err, out_of_range, invalid_argument}

-- `std::getline` up to the end, with ',' between the tokens.
abbrev pub lead : ℕ → List (List ℕ) → List (List ℕ)
lead c [] = (c ∷ []) ∷ []
lead c (token ∷ tokens) = (c ∷ token) ∷ tokens

unfoldable pub tokens_of : List ℕ → List (List ℕ)
tokens_of [] = []
tokens_of (c ∷ message) = let rest = tokens_of message in if c == 44 then [] ∷ rest else lead c rest

-- `std::stoi`: white space, a sign, and as many digits as there are; what follows is not looked at.
abbrev pub is_digit : ℕ → Bool
is_digit c = leb 48 c && leb c 57

abbrev pub is_space : ℕ → Bool
is_space c = c == 32 || leb 9 c && leb c 13

unfoldable pub leading_digits : List ℕ → List ℕ
leading_digits [] = []
leading_digits (c ∷ rest) = let more = leading_digits rest in if is_digit c then c ∷ more else []

abbrev pub append_digit : ℕ → ℕ → ℕ
append_digit n c = n * 10 + (c - 48)

unfoldable pub magnitude : Bool → List ℕ → Outcome ℕ
magnitude negative [] = err invalid_argument
magnitude true (c ∷ digits) =
    let n = foldl append_digit 0 (c ∷ digits) in
    if ltb (2 ^ 31) n then err out_of_range else ok ((2 ^ 32 - n) % 2 ^ 32)
magnitude false (c ∷ digits) =
    let n = foldl append_digit 0 (c ∷ digits) in if leb (2 ^ 31) n then err out_of_range else ok n

unfoldable pub signed : List ℕ → Outcome ℕ
unfolding magnitude leading_digits
signed [] = err invalid_argument
signed (c ∷ rest) =
    if c == 45
    then magnitude true (leading_digits rest)
    else if c == 43
    then magnitude false (leading_digits rest)
    else magnitude false (leading_digits (c ∷ rest))

unfoldable pub stoi : List ℕ → Outcome ℕ
unfolding signed
stoi [] = err invalid_argument
stoi (c ∷ rest) = let later = stoi rest in if is_space c then later else signed (c ∷ rest)
