-- ===== src/Stream/Metadata.antt =====
-- `Connection::receiveMetadata` against the encoding of an entry's metadata by the protocol.
use cpp17_client.Base.{
  ℕ, ◌+◌, ◌*◌, ◌/◌, ◌^◌, ◌<◌, ◌≡◌, arith, List, [], ◌∷◌, ◌++◌, length, Bool, Option, none, some, ok,
  bit_and, ◌==◌,
}
use cpp17_client.Base.Bits.{bit_and-ones, bit_and-shifted}
use cpp17_client.Base.Readers.{Takes, Takes-bind, Takes-return, Takes-map, Takes-next_byte}
use cpp17_client.Codec.Septets.{septets}
use cpp17_client.Codec.Longs.{long_bytes}
use cpp17_client.Stream.{EntryMetadata, closed, receive_limit, receive_metadata}
use cpp17_client.Stream.Receiving.{Takes-receive_long, Takes-receive_vint}

-- A limit on an entry's life or idleness: the time that it counts from and the duration.
abbrev pub Limit : Type 0
Limit = Option (ℕ × ℕ)

abbrev pub IsSendableLimit : Limit → Type 0
IsSendableLimit none = Unit {0}
IsSendableLimit (some (time, duration)) = (time < 2 ^ 64) × (duration < 2 ^ 32)

unfoldable pub limit_bytes : Limit → List ℕ
limit_bytes none = []
limit_bytes (some (time, duration)) = long_bytes time ++ septets 4 duration

abbrev pub limit_time : Limit → Option ℕ
limit_time none = none
limit_time (some (time, duration)) = some time

abbrev pub limit_duration : Limit → Option ℕ
limit_duration none = none
limit_duration (some (time, duration)) = some duration

abbrev pub unlimited : Limit → ℕ
unlimited none = 1
unlimited (some l) = 0

-- The bytes that the protocol prescribes: the two lowest bits of the flag say which limits are
-- missing, and `other` stands for the rest of it.
unfoldable pub metadata_bytes : Limit → Limit → ℕ → ℕ → List ℕ
metadata_bytes life idle other version =
    (unlimited life + 2 * unlimited idle + 4 * other)
    ∷ (limit_bytes life ++ (limit_bytes idle ++ long_bytes version))

abbrev pub metadata_of : Limit → Limit → ℕ → EntryMetadata
metadata_of life idle version = record {
  created = limit_time life;
  last_used = limit_time idle;
  lifespan = limit_duration life;
  max_idle = limit_duration idle;
  version = version;
}

Takes-receive_limit :
    (limit : Limit) (limited : Bool)
    → IsSendableLimit limit
    → limited ≡ (unlimited limit == 0)
    → Takes (receive_limit limited) (limit_bytes limit) (limit_time limit, limit_duration limit)
unfolding receive_limit limit_bytes
Takes-receive_limit none limited h e = rw e (Takes-return (none, none))
Takes-receive_limit (some (time, duration)) limited (h, k) e = rw e (
    Takes-bind _ (Takes-receive_long time h)
      (Takes-map (λ d. (some time, some d)) (Takes-receive_vint duration k)))

unlimited_bit : (limit : Limit) → unlimited limit < 2
unlimited_bit none = omega arith
unlimited_bit (some l) = omega arith

life_bit :
    (life idle : Limit) (other : ℕ)
    → (bit_and (unlimited life + 2 * unlimited idle + 4 * other) 0x01 == 0) ≡ (unlimited life == 0)
life_bit life idle other =
    ground
      (arith, unlimited_bit life, bit_and-ones 1 (unlimited life + 2 * unlimited idle + 4 * other))

idle_bit :
    (life idle : Limit) (other : ℕ)
    → (bit_and (unlimited life + 2 * unlimited idle + 4 * other) 0x02 == 0) ≡ (unlimited idle == 0)
idle_bit life idle other = ground (
  arith,
  unlimited_bit life,
  unlimited_bit idle,
  bit_and-shifted 1 (unlimited life + 2 * unlimited idle + 4 * other) 1,
  bit_and-ones 1 ((unlimited life + 2 * unlimited idle + 4 * other) / 2),
)

pub Takes-receive_metadata :
    (life idle : Limit) (other version : ℕ)
    → IsSendableLimit life
    → IsSendableLimit idle
    → version < 2 ^ 64
    → Takes receive_metadata
        (metadata_bytes life idle other version)
        (metadata_of life idle version)
unfolding receive_metadata metadata_bytes
Takes-receive_metadata life idle other version h k l = Takes-bind _ (Takes-next_byte closed _) (
    Takes-bind _ (Takes-receive_limit life _ h (life_bit life idle other)) (
      Takes-bind _ (Takes-receive_limit idle _ k (idle_bit life idle other))
        (Takes-map (metadata_of life idle) (Takes-receive_long version l))))

-- `receiveMetadata` reads every entry's metadata back from the bytes that the protocol prescribes,
-- wherever in the stream they stand, and stops behind them: a 64-bit version, and for each limit that
-- is set a 64-bit time and a 32-bit duration.
pub receive_metadata_complete :
    (life idle : Limit) (other version : ℕ) (front rest : List ℕ)
    → IsSendableLimit life
    → IsSendableLimit idle
    → version < 2 ^ 64
    → receive_metadata (front ++ (metadata_bytes life idle other version ++ rest)) (length front)
      ≡ ok (metadata_of life idle version, length (front ++ metadata_bytes life idle other version))
receive_metadata_complete life idle other version front rest h k l =
    (Takes-receive_metadata life idle other version h k l).apply front rest
