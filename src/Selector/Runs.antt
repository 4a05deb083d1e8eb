-- ===== src/Selector/Runs.antt =====
-- The round-robin strategy on three servers.
use cpp17_client.Base.{◌≡◌, refl, List, [], ◌∷◌, none, some, ok}
use cpp17_client.Failure.{ServerAddress, same_address}
use cpp17_client.Selector.{round_robin_select}

abbrev host_a : ServerAddress
host_a = record { host = 97 ∷ []; port = 11222 }

abbrev host_b : ServerAddress
host_b = record { host = 98 ∷ []; port = 11222 }

abbrev host_c : ServerAddress
host_c = record { host = 99 ∷ []; port = 11222 }

abbrev hosts : List ServerAddress
hosts = host_a ∷ host_b ∷ host_c ∷ []

around_the_end : round_robin_select 1 hosts (some host_c) ≡ ok (some host_a, 0)
unfolding round_robin_select same_address
around_the_end = refl

without_current : round_robin_select 1 hosts none ≡ ok (some host_b, 2)
unfolding round_robin_select same_address
without_current = refl
