-- ===== src/Header/Request.antt =====
-- What src/codec/HeaderCodec.cpp promises of `writeRequestHeader`: the server's side of the protocol,
-- written as a reader of its own, gets back every field.
use cpp17_client.Base.{
  ℕ, zero, suc, ◌<◌, ◌≤◌, ◌^◌, ◌≡◌, ◌⊎◌, inl, inr, sym, ◌∙◌, arith, List, [], ◌∷◌, ◌++◌, length,
  All,
}
use cpp17_client.Base.{
  Bool-cases, runtime_error, leb, ◌==◌, if◌then◌else◌, append_assoc, append-nil,
}
use cpp17_client.Base.Readers.{Reader, ◌>>=◌, return, next_byte}
use cpp17_client.Codec.{
  read_vint, read_vlong, read_string, read_byte_array, write_string, write_byte_array, u32,
}
use cpp17_client.Codec.Septets.{septets, write_vint-septets, write_vlong-septets}
use cpp17_client.Codec.Framing.{counted, write_string-counted, write_byte_array-counted}
use cpp17_client.Header.{
  RequestHeader, ClientIntelligence, basic, topology_aware, hash_distribution_aware,
  intelligence_code, write_params, write_request_header,
}

-- The server's decoder, after the protocol's description of the fields.
next : Reader ℕ
unfolding next_byte
next = next_byte (runtime_error "short frame")

intelligence_of : ℕ → ClientIntelligence
intelligence_of c =
    if c == 1 then basic else if c == 2 then topology_aware else hash_distribution_aware

read_params : ℕ → Reader (List (List ℕ × List ℕ))
read_params zero = return []
read_params (suc n) = do
  key ← read_string
  value ← read_byte_array
  params ← read_params n
  return ((key, value) ∷ params)

-- Media types are sent from version 0x28 on, other parameters from version 40 on.
read_media : ℕ → Reader (ℕ × ℕ)
read_media version =
    if leb 0x28 version then (do key ← next; value ← next; return (key, value)) else return (0, 0)

read_others : ℕ → Reader (List (List ℕ × List ℕ))
read_others version =
    if leb 40 version then (do count ← read_vint; read_params count) else return []

unfoldable pub read_request_header : Reader RequestHeader
unfolding next intelligence_of read_params read_media read_others ◌>>=◌ return
read_request_header = do
  magic ← next
  message_id ← read_vlong
  version ← next
  opcode ← next
  cache_name ← read_string
  flags ← read_vint
  intelligence ← next
  topology_id ← read_vint
  media ← read_media version
  others ← read_others version
  return (record {
    magic = magic;
    message_id = message_id;
    version = version;
    opcode = opcode;
    cache_name = cache_name;
    flags = flags;
    client_intelligence = intelligence_of intelligence;
    topology_id = topology_id;
    key_media_type = media.0;
    value_media_type = media.1;
    other_params = others;
  })

abbrev IsShort : List ℕ → Type 0
IsShort bytes = length bytes < 2 ^ 32

-- Each field fits its C++ type, and what the version leaves out is absent.
pub record IsSendable (h : RequestHeader) : Type 0 where
  pub id_fits : h.message_id < 2 ^ 64
  pub flags_fit : h.flags < 2 ^ 32
  pub topology_fits : h.topology_id < 2 ^ 32
  pub name_short : IsShort h.cache_name
  pub few_params : length h.other_params < 2 ^ 32
  pub params_short : All (λ p. IsShort p.0 × IsShort p.1) h.other_params
  pub carried :
      (40 ≤ h.version) ⊎ ((h.key_media_type ≡ 0) × (h.value_media_type ≡ 0) × (h.other_params ≡ []))

-- The bytes of each part.
params_bytes : List (List ℕ × List ℕ) → List ℕ
params_bytes [] = []
params_bytes ((key, value) ∷ params) = counted key ++ (counted value ++ params_bytes params)

media_bytes : RequestHeader → List ℕ
media_bytes h = if leb 0x28 h.version then h.key_media_type ∷ h.value_media_type ∷ [] else []

others_bytes : RequestHeader → List ℕ
others_bytes h =
    if leb 40 h.version
    then septets 4 (length h.other_params) ++ params_bytes h.other_params
    else []

unfoldable pub request_bytes : RequestHeader → List ℕ
unfolding media_bytes others_bytes params_bytes
request_bytes h =
    h.magic ∷ septets 9 h.message_id
    ++ (h.version ∷ h.opcode ∷ counted h.cache_name
        ++ (septets 4 h.flags
            ++ (intelligence_code h.client_intelligence ∷ septets 4 h.topology_id
                ++ (media_bytes h ++ others_bytes h))))

write_params-bytes :
    (buffer : List ℕ) (params : List (List ℕ × List ℕ))
    → All (λ p. IsShort p.0 × IsShort p.1) params
    → write_params buffer params ≡ buffer ++ params_bytes params
unfolding write_params params_bytes
write_params-bytes buffer [] h = sym (append-nil buffer)
write_params-bytes buffer ((key, value) ∷ params) ((hk, hv), hs) =
    write_params-bytes (write_byte_array (write_string buffer key) value) params hs
    ∙ rw
        (
          write_byte_array-counted (write_string buffer key) value hv,
          write_string-counted buffer key hk,
        )
        (simp append_assoc)

-- On a sendable header `writeRequestHeader` keeps the buffer and appends the fields in order.
pub write_request_header-request_bytes :
    (buffer : List ℕ) (h : RequestHeader)
    → IsSendable h
    → write_request_header buffer h ≡ buffer ++ request_bytes h
unfolding write_request_header request_bytes
write_request_header-request_bytes buffer h s =
    rw
      (
        write_vlong-septets _ h.message_id s.id_fits,
        write_string-counted _ h.cache_name s.name_short,
        write_vint-septets _ h.flags s.flags_fit,
        write_vint-septets _ h.topology_id s.topology_fits,
      )
      (elim (Bool-cases (leb 40 h.version)) [
        | inl recent ↦
            rw
              (
                recent,
                same,
                write_vint-septets _ (length h.other_params) s.few_params,
                write_params-bytes _ h.other_params s.params_short,
              )
              (simp append_assoc)
        | inr old ↦ rw old (simp (append_assoc, append-nil))
      ])
  where
    same : u32 (length h.other_params) ≡ length h.other_params
    same = let fits : length h.other_params < 2 ^ 32 = s.few_params in omega arith
