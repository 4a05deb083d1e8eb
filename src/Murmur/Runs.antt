-- ===== src/Murmur/Runs.antt =====
-- Hashes of tests/unit/MurmurHash3Test.cpp.
use cpp17_client.Base.{ℕ, ◌≡◌, refl, List, [], ◌∷◌, ok, undefined}
use cpp17_client.Murmur.{hash32}

no_key : hash32 [] 9001 ≡ ok 89125410
unfolding hash32
no_key = refl

abbrev hello_world : List ℕ
hello_world = 72 ∷ 101 ∷ 108 ∷ 108 ∷ 111 ∷ 32 ∷ 87 ∷ 111 ∷ 114 ∷ 108 ∷ 100 ∷ 33 ∷ []

hello_world_hash : hash32 hello_world 9001 ≡ ok 1398840341
unfolding hash32
hello_world_hash = refl

-- A key with bytes from 128 on, the second of which is shifted.
cafe_undefined : hash32 (99 ∷ 97 ∷ 102 ∷ 195 ∷ 169 ∷ []) 9001 ≡ undefined
unfolding hash32
cafe_undefined = refl
