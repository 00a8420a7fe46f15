-- ===== src/Protocol/RoundTrip.antt =====
-- What is encoded is decoded.
use kvgo.Common.{
  lt→ltb, subst, List, [], ap, arith, drop, drop-append, drop-drop, take, ==_iff, if_false,
  if◌then◌else◌, le→ltb, length, length-append, ltb, refl, sym, take-append, take-length, true,
  u64_mod, ℕ, ◌%◌, ◌++◌, ◌+◌, ◌<◌, ◌==◌, ◌∙◌, ◌∷◌, ◌≡◌, ◌≤◌,
}
use mathlib.Core.Path.{ap₂}
use kvgo.Codec.{le_bytes, from_le, u64_at}
use kvgo.Codec.Words.{from_le-u32, from_le-u64}
use kvgo.Protocol.{
  byte_at, invalid_message, ok, err, Request, Response, request_flags, request_bytes,
  encode_request, decode_sized, decode_request, cmd_put, response_bytes, encode_response,
  decode_response, value_allowed,
}

-- The sequence number is kept for a put only.
abbrev pub kept_seq : Request → ℕ
kept_seq r = if r.cmd == cmd_put then r.seq else 0

-- A payload whose header says how long its key and its value are.
decode_sized_lem :
    (payload key value : List ℕ)
    → drop 22 payload ≡ key ++ value
    → length payload ≡ 22 + (length key + length value)
    → decode_sized 0 (length key) (length value) payload
      ≡ ok (record {
        cmd = byte_at 0 payload;
        key = key;
        value = value;
        seq = if byte_at 1 payload % 2 == 1 then u64_at 2 payload else 0;
      })
decode_sized_lem payload key value e len =
    let fits : (length payload == 22 + length key + length value) ≡ true =
      (==_iff (length payload) (22 + length key + length value)).1 (omega (arith, len)) in
    let key_eq : take (length key) (drop 22 payload) ≡ key =
      ap (take (length key)) e ∙ take-append key value in
    let value_eq : take (length value) (drop (22 + length key) payload) ≡ value =
      ap (take (length value))
        (sym (drop-drop 22 (length key) payload) ∙ ap (drop (length key)) e ∙ drop-append key value)
      ∙ take-length (length value) value (omega arith) in
    rw (fits, key_eq, value_eq) refl

from_le_zeros : from_le (0 ∷ 0 ∷ 0 ∷ 0 ∷ []) ≡ 0
unfolding from_le
from_le_zeros = refl

decode_request-bytes :
    (cmd flags s0 s1 s2 s3 s4 s5 s6 s7 k0 k1 k2 k3 v0 v1 v2 v3 seq : ℕ) (key value : List ℕ)
    → from_le (s0 ∷ s1 ∷ s2 ∷ s3 ∷ s4 ∷ s5 ∷ s6 ∷ s7 ∷ []) ≡ seq
    → from_le (k0 ∷ k1 ∷ k2 ∷ k3 ∷ []) ≡ length key
    → from_le (v0 ∷ v1 ∷ v2 ∷ v3 ∷ []) ≡ length value
    → decode_request (
        cmd
        ∷ flags
        ∷ s0
        ∷ s1
        ∷ s2
        ∷ s3
        ∷ s4
        ∷ s5
        ∷ s6
        ∷ s7
        ∷ 0
        ∷ 0
        ∷ 0
        ∷ 0
        ∷ k0
        ∷ k1
        ∷ k2
        ∷ k3
        ∷ v0
        ∷ v1
        ∷ v2
        ∷ v3
        ∷ (key ++ value))
      ≡ ok (record { cmd = cmd; key = key; value = value; seq = if flags % 2 == 1 then seq else 0 })
unfolding decode_request
decode_request-bytes cmd flags s0 s1 s2 s3 s4 s5 s6 s7 k0 k1 k2 k3 v0 v1 v2 v3 seq key value seq_eq
      klen_eq vlen_eq =
    let payload =
      cmd
      ∷ flags
      ∷ s0
      ∷ s1
      ∷ s2
      ∷ s3
      ∷ s4
      ∷ s5
      ∷ s6
      ∷ s7
      ∷ 0
      ∷ 0
      ∷ 0
      ∷ 0
      ∷ k0
      ∷ k1
      ∷ k2
      ∷ k3
      ∷ v0
      ∷ v1
      ∷ v2
      ∷ v3
      ∷ (key ++ value) in
    let len = length-append key value in
    rw (← seq_eq) (
      if_false (ltb (length payload) 22) (err invalid_message) _
        (le→ltb (length payload) 22 (omega arith))
      ∙ rw (from_le_zeros, klen_eq, vlen_eq)
          (decode_sized_lem payload key value refl (omega (arith, len))))

flags_seq : (r : Request) → (if request_flags r.cmd % 2 == 1 then r.seq else 0) ≡ kept_seq r
flags_seq r = ground arith

-- A request whose command is a byte, whose sequence number has 64 bits, and whose key and value have
-- less than 2 ^ 32 bytes each, is encoded without an error, to 22 bytes more than its key and value
-- have, and these are decoded to the same command, key and value; the sequence number is kept for a
-- put, and is 0 for any other command.
pub decode_request-encode_request :
    (r : Request)
    → r.cmd < 256
    → r.seq < u64_mod
    → length r.key < 4294967296
    → length r.value < 4294967296
    → (bytes : List ℕ) × (encode_request r ≡ ok bytes)
      × (length bytes ≡ 22 + (length r.key + length r.value))
      × (decode_request bytes ≡ ok (record r { seq = kept_seq r }))
unfolding request_bytes le_bytes encode_request
decode_request-encode_request r small seq_small key_small value_small =
    let byte_eq : r.cmd % 256 ≡ r.cmd = omega (arith, small) in
    (
      request_bytes r,
      rw
          (
            lt→ltb (length r.key) 4294967296 key_small,
            lt→ltb (length r.value) 4294967296 value_small,
          )
          refl,
      omega (arith, length-append r.key r.value),
      decode_request-bytes (r.cmd % 256) (request_flags r.cmd) _ _ _ _ _ _ _ _ _ _ _ _ _ _ _ _ r.seq
            r.key r.value (from_le-u64 r.seq seq_small) (from_le-u32 (length r.key) key_small)
            (from_le-u32 (length r.value) value_small)
          ∙ ap₂ (λ (c : ℕ) (n : ℕ). ok (record { cmd = c; key = r.key; value = r.value; seq = n }))
              byte_eq (flags_seq r),
    )

-- A response payload whose header has the length of its value.
decode_response-bytes :
    (st s0 s1 s2 s3 s4 s5 s6 s7 v0 v1 v2 v3 seq : ℕ) (value : List ℕ)
    → from_le (s0 ∷ s1 ∷ s2 ∷ s3 ∷ s4 ∷ s5 ∷ s6 ∷ s7 ∷ []) ≡ seq
    → from_le (v0 ∷ v1 ∷ v2 ∷ v3 ∷ []) ≡ length value
    → st ≤ 4
    → value_allowed st (length value) ≡ true
    → decode_response (st ∷ s0 ∷ s1 ∷ s2 ∷ s3 ∷ s4 ∷ s5 ∷ s6 ∷ s7 ∷ v0 ∷ v1 ∷ v2 ∷ v3 ∷ value)
      ≡ ok (record { status = st; value = value; seq = seq })
unfolding decode_response
decode_response-bytes st s0 s1 s2 s3 s4 s5 s6 s7 v0 v1 v2 v3 seq value seq_eq vlen_eq known
      allowed =
    let payload = st ∷ s0 ∷ s1 ∷ s2 ∷ s3 ∷ s4 ∷ s5 ∷ s6 ∷ s7 ∷ v0 ∷ v1 ∷ v2 ∷ v3 ∷ value in
    rw (← seq_eq) (
      if_false (ltb (length payload) 13) (err invalid_message) _
        (le→ltb (length payload) 13 (omega arith))
      ∙ rw
          (
            vlen_eq,
            (==_iff (length payload) (13 + length value)).1 (omega arith),
            le→ltb 4 st known,
            allowed,
            take-length (length value) value (omega arith),
          )
          refl)

encode_response-ok :
    (r : Response) (bytes : List ℕ)
    → encode_response r ≡ ok bytes
    → (length r.value < 4294967296)
      × (r.status ≤ 4)
      × (value_allowed r.status (length r.value) ≡ true)
      × (response_bytes r ≡ bytes)
unfolding encode_response
encode_response-ok r bytes h = ground arith

decode_response-response_bytes :
    (r : Response)
    → r.seq < u64_mod
    → length r.value < 4294967296
    → r.status ≤ 4
    → value_allowed r.status (length r.value) ≡ true
    → decode_response (response_bytes r) ≡ ok r
unfolding response_bytes le_bytes
decode_response-response_bytes r seq_small small known allowed =
    let same : r.status % 256 ≡ r.status = omega (arith, known) in
    decode_response-bytes (r.status % 256) _ _ _ _ _ _ _ _ _ _ _ _ r.seq r.value
      (from_le-u64 r.seq seq_small) (from_le-u32 (length r.value) small) (omega (arith, known))
      (subst (λ (st : ℕ). value_allowed st (length r.value) ≡ true) (sym same) allowed)
    ∙ ap (λ (st : ℕ). ok (record { status = st; value = r.value; seq = r.seq })) same

-- A response with a sequence number of 64 bits that is encoded without an error is decoded from that
-- as it was; its value has less than 2 ^ 32 bytes, its status is at most `statusMaxKnown`, and its
-- value is empty unless its status is StatusOK.
pub decode_response-encode_response :
    (r : Response) (bytes : List ℕ)
    → r.seq < u64_mod
    → encode_response r ≡ ok bytes
    → (decode_response bytes ≡ ok r)
      × (length r.value < 4294967296)
      × (r.status ≤ 4)
      × (value_allowed r.status (length r.value) ≡ true)
decode_response-encode_response r bytes seq_small h =
    let (small, known, allowed, eq) = encode_response-ok r bytes h in
    (
      subst (λ (b : List ℕ). decode_response b ≡ ok r) eq
          (decode_response-response_bytes r seq_small small known allowed),
      small,
      known,
      allowed,
    )
