-- ===== src/Operations/Requests.antt =====
-- The bodies that src/operations/RemoteCache.cpp sends, read back by the server's side of the protocol.
use cpp17_client.Base.{
  ℕ, ◌+◌, ◌*◌, ◌/◌, ◌%◌, ◌^◌, ◌<◌, ◌≡◌, sym, subst, arith, List, [], ◌∷◌, ◌++◌, length, ok,
  runtime_error, Error, ◌==◌, if◌then◌else◌, append_assoc, append-nil, Bool-cases, inl, inr,
}
use cpp17_client.Base.Bits.{bit_or-high, bit_or-zero_left}
use cpp17_client.Base.Readers.{
  Reader, ◌>>=◌, return, next_byte, Takes, Takes-bind, Takes-return, Takes-map, Takes-next_byte,
}
use cpp17_client.Codec.{read_vlong, read_byte_array}
use cpp17_client.Codec.Septets.{septets, write_vlong-septets}
use cpp17_client.Codec.Framing.{
  counted, write_byte_array-counted, Takes-read_byte_array, Takes-read_vlong,
}
use cpp17_client.Operations.{time_units, write_duration, write_expiration, key_body, value_body}

-- A duration of unit 7 is the default, which the client writes as 0; others follow.
unfoldable pub read_duration : ℕ → Reader ℕ
read_duration unit = if unit == 7 then return 0 else read_vlong

abbrev no_units : Error
no_units = runtime_error "time units missing"

pub record StoreRequest : Type 0 where
  pub key : List ℕ
  pub lifespan : ℕ
  pub max_idle : ℕ
  pub value : List ℕ

-- The server's decoder of the body of a store.
unfoldable pub read_value_body : Reader StoreRequest
unfolding read_duration
read_value_body = do
  key ← read_byte_array
  units ← next_byte no_units
  lifespan ← read_duration (units / 16)
  max_idle ← read_duration (units % 16)
  value ← read_byte_array
  return record { key = key; lifespan = lifespan; max_idle = max_idle; value = value }

unfoldable duration_bytes : ℕ → List ℕ
duration_bytes d = if d == 0 then [] else septets 9 d

write_duration-bytes :
    (buffer : List ℕ) (d : ℕ) → d < 2 ^ 64 → write_duration buffer d ≡ buffer ++ duration_bytes d
unfolding write_duration duration_bytes
write_duration-bytes buffer d h = ground (arith, write_vlong-septets buffer d h, append-nil buffer)

abbrev unit_of : ℕ → ℕ
unit_of d = if d == 0 then 7 else 0

time_units_sum :
    (lifespan max_idle : ℕ)
    → time_units lifespan max_idle ≡ unit_of lifespan * 16 + unit_of max_idle
unfolding time_units
time_units_sum lifespan max_idle = ground (
  arith,
  bit_or-zero_left (unit_of lifespan * 2 ^ 4),
  bit_or-high 4 (unit_of lifespan) (unit_of max_idle),
)

Takes-read_duration :
    (d unit : ℕ) → d < 2 ^ 64 → unit ≡ unit_of d → Takes (read_duration unit) (duration_bytes d) d
unfolding read_duration duration_bytes
Takes-read_duration d unit h e = elim (Bool-cases (d == 0)) [
  | inl z ↦
      let none_written : d ≡ 0 = ground arith in
      rw (e, z) (subst (Takes (return 0) []) (sym none_written) (Takes-return 0))
  | inr z ↦ rw (e, z) (Takes-read_vlong d h)
]

module _ (key value : List ℕ) (lifespan max_idle : ℕ) (hk : length key < 2 ^ 32)
    (hv : length value < 2 ^ 32) (hl : lifespan < 2 ^ 64) (hm : max_idle < 2 ^ 64) where
  body_bytes : List ℕ
  body_bytes =
      counted key
      ++ ((time_units lifespan max_idle ∷ [])
          ++ (duration_bytes lifespan ++ (duration_bytes max_idle ++ counted value)))

  value_body-bytes : value_body key value lifespan max_idle ≡ body_bytes
  unfolding value_body write_expiration key_body body_bytes
  value_body-bytes =
      rw
        (
          write_byte_array-counted [] key hk,
          write_duration-bytes (counted key ++ (time_units lifespan max_idle ∷ [])) lifespan hl,
          write_duration-bytes
              ((counted key ++ (time_units lifespan max_idle ∷ [])) ++ duration_bytes lifespan)
              max_idle hm,
          write_byte_array-counted
              (((counted key ++ (time_units lifespan max_idle ∷ [])) ++ duration_bytes lifespan)
                ++ duration_bytes max_idle)
              value hv,
        )
        (simp append_assoc)

  Takes-read_value_body :
      Takes read_value_body body_bytes
        (record { key = key; lifespan = lifespan; max_idle = max_idle; value = value })
  unfolding read_value_body body_bytes
  Takes-read_value_body =
      let sum : time_units lifespan max_idle ≡ unit_of lifespan * 16 + unit_of max_idle =
        time_units_sum lifespan max_idle in
      Takes-bind _ (Takes-read_byte_array key hk) (
        Takes-bind _ (Takes-next_byte no_units (time_units lifespan max_idle)) (
          Takes-bind _
            (Takes-read_duration lifespan (time_units lifespan max_idle / 16) hl (ground arith))
            (Takes-bind _
              (Takes-read_duration max_idle (time_units lifespan max_idle % 16) hm (ground arith))
              (Takes-map _ (Takes-read_byte_array value hv)))))

  -- The server's decoder reads the key, the lifespan, the idle time and the value back from the body
  -- that `put`, `putIfAbsent` and `replace` send, whatever follows, and stops behind it. The lengths
  -- fit 32 bits, the durations 64.
  pub read_value_body-value_body :
      (rest : List ℕ)
      → read_value_body (value_body key value lifespan max_idle ++ rest) 0
        ≡ ok (
          record { key = key; lifespan = lifespan; max_idle = max_idle; value = value },
          length (value_body key value lifespan max_idle),
        )
  read_value_body-value_body rest = rw value_body-bytes (Takes-read_value_body.apply [] rest)
