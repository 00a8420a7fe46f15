-- ===== src/Protocol.antt =====
-- The client protocol, src/protocol/message.go: the payloads of requests and responses. A buffer is a
-- list of bytes. An int has 64 bits, so that a length of 32 bits is always one.
pub mod RoundTrip
use kvgo.Common.{
  Bool, List, [], drop, false, if◌then◌else◌, length, ltb, take, true, ℕ, ◌%◌, ◌++◌, ◌+◌, ◌==◌, ◌∷◌,
}
use kvgo.Codec.{le_bytes, u32_at, u64_at}

pub data ProtocolError : Type 0 where
  invalid_message unknown_status frame_too_large : ProtocolError

pub data Coded {ℓ} (A : Type ℓ) : Type ℓ where
  ok : A → Coded A
  err : ProtocolError → Coded A

abbrev pub request_header_size : ℕ
request_header_size = 22

abbrev pub response_header_size : ℕ
response_header_size = 13

abbrev pub cmd_get : ℕ
cmd_get = 1

abbrev pub cmd_put : ℕ
cmd_put = 2

abbrev pub status_ok : ℕ
status_ok = 0

abbrev pub status_not_found : ℕ
status_not_found = 1

abbrev pub status_error : ℕ
status_error = 2

abbrev pub status_timeout : ℕ
status_timeout = 3

abbrev pub status_max_known : ℕ
status_max_known = 4

-- A Cmd and a Status are a byte, of any value.
pub record Request : Type 0 where
  pub cmd : ℕ
  pub key : List ℕ
  pub value : List ℕ
  pub seq : ℕ

pub record Response : Type 0 where
  pub status : ℕ
  pub value : List ℕ
  pub seq : ℕ

-- `ensureU32Len`
abbrev pub fits_u32 : ℕ → Bool
fits_u32 n = ltb n 4294967296

abbrev pub request_flags : ℕ → ℕ
request_flags cmd = if cmd == cmd_put then 1 else 0

unfoldable pub request_bytes : Request → List ℕ
unfolding le_bytes
request_bytes r =
    (r.cmd % 256)
    ∷ request_flags r.cmd
    ∷ (le_bytes 8 r.seq
        ++ (le_bytes 4 0
            ++ (le_bytes 4 (length r.key) ++ (le_bytes 4 (length r.value) ++ (r.key ++ r.value)))))

unfoldable pub encode_request : Request → Coded (List ℕ)
encode_request r =
    if fits_u32 (length r.key)
    then (if fits_u32 (length r.value) then ok (request_bytes r) else err frame_too_large)
    else err frame_too_large

abbrev pub byte_at : ℕ → List ℕ → ℕ
byte_at n bytes = kvgo.Common.get_or bytes n 0

-- The reserved length in the header is skipped over.
abbrev pub parse_request : ℕ → ℕ → ℕ → List ℕ → Request
parse_request rid klen vlen payload = record {
  cmd = byte_at 0 payload;
  key = take klen (drop (request_header_size + rid) payload);
  value = take vlen (drop (request_header_size + rid + klen) payload);
  seq = if byte_at 1 payload % 2 == 1 then u64_at 2 payload else 0;
}

abbrev pub decode_sized : ℕ → ℕ → ℕ → List ℕ → Coded Request
decode_sized rid klen vlen payload =
    if length payload == request_header_size + rid + klen + vlen
    then ok (parse_request rid klen vlen payload)
    else err invalid_message

unfoldable pub decode_request : List ℕ → Coded Request
decode_request payload =
    if ltb (length payload) request_header_size
    then err invalid_message
    else decode_sized (u32_at 10 payload) (u32_at 14 payload) (u32_at 18 payload) payload

abbrev pub status_can_carry_value : ℕ → Bool
status_can_carry_value st = st == status_ok

unfoldable pub response_bytes : Response → List ℕ
unfolding le_bytes
response_bytes r = (r.status % 256) ∷ (le_bytes 8 r.seq ++ (le_bytes 4 (length r.value) ++ r.value))

-- Whether a status may come with a value of this length.
abbrev pub value_allowed : ℕ → ℕ → Bool
value_allowed st vlen = if status_can_carry_value st then true else vlen == 0

unfoldable pub encode_response : Response → Coded (List ℕ)
encode_response r =
    if fits_u32 (length r.value)
    then (if ltb status_max_known r.status
        then err unknown_status
        else if value_allowed r.status (length r.value)
        then ok (response_bytes r)
        else err invalid_message)
    else err frame_too_large

abbrev pub decode_status : ℕ → ℕ → List ℕ → Coded Response
decode_status st vlen payload =
    if length payload == response_header_size + vlen
    then (if ltb status_max_known st
        then err unknown_status
        else if value_allowed st vlen
        then ok (record {
          status = st;
          value = take vlen (drop response_header_size payload);
          seq = u64_at 1 payload;
        })
        else err invalid_message)
    else err invalid_message

unfoldable pub decode_response : List ℕ → Coded Response
decode_response payload =
    if ltb (length payload) response_header_size
    then err invalid_message
    else decode_status (byte_at 0 payload) (u32_at 9 payload) payload
