-- ===== src/Server/Receiving.antt =====
-- The loop of `handleRequest` in src/server/dispatcher.go over a connection of src/transport/tcp.go:
-- which handlers it calls for the bytes that arrive. Its answers are taken to reach the client.
use kvgo.Common.{
  ==-false, All, List, Option, [], ap, arith, if_false, le→ltb, length, length-append, ltb, none,
  refl, some, suc, u64_mod, zero, ℕ, ◌+◌, ◌++◌, ◌<◌, ◌∙◌, ◌∷◌, ◌≡◌, ◌≤◌, drop-append, take-append,
}
use kvgo.Codec.{le_bytes}
use kvgo.Codec.Words.{from_le-u32}
use kvgo.Protocol.{Coded, ok, err, Request, encode_request, decode_request}
use kvgo.Protocol.RoundTrip.{decode_request-encode_request, kept_seq}
use kvgo.Transport.{
  default_max_frame_size, FrameError, end_of_stream, unexpected_end, Framed, received, failed,
  read_payload, read_frame_max, write_frame,
}
use kvgo.Server.{Dispatch, dispatch_request, handle_request}

-- How the loop ends: with the error of a read, or, which is no Go value, without fuel.
pub data StreamEnd : Type 0 where
  ended : FrameError → StreamEnd
  stuck : StreamEnd

abbrev pub after_frame : Framed → (List ℕ → List Dispatch × StreamEnd) → List Dispatch × StreamEnd
after_frame (failed e) next = ([], ended e)
after_frame (received payload rest) next =
    let (ds, end) = next rest in (handle_request payload ∷ ds, end)

unfoldable pub handle_stream : ℕ → List ℕ → List Dispatch × StreamEnd
handle_stream zero bytes =
    after_frame (read_frame_max default_max_frame_size bytes) (λ rest. ([], stuck))
handle_stream (suc fuel) bytes =
    after_frame (read_frame_max default_max_frame_size bytes) (handle_stream fuel)

-- Each round takes four bytes at least.
unfoldable pub handle_connection : List ℕ → List Dispatch × StreamEnd
handle_connection bytes = handle_stream (length bytes) bytes

-- What a client sends that writes one request after the other; none where one cannot be written.
abbrev pub and_rest : Option (List ℕ) → Option (List ℕ) → Option (List ℕ)
and_rest none rest = none
and_rest (some bytes) none = none
and_rest (some bytes) (some rest) = some (bytes ++ rest)

abbrev pub write_coded : Coded (List ℕ) → Option (List ℕ)
write_coded (err e) = none
write_coded (ok payload) = write_frame payload

abbrev pub write_requests : List Request → Option (List ℕ)
write_requests [] = some []
write_requests (r ∷ rs) = and_rest (write_coded (encode_request r)) (write_requests rs)

abbrev pub dispatches : List Request → List Dispatch
dispatches [] = []
dispatches (r ∷ rs) = dispatch_request (ok r) ∷ dispatches rs

-- A request that fits into a frame.
abbrev pub IsRequest : Request → Type 0
IsRequest r = (r.cmd < 256) × (r.seq < u64_mod) × (22 + (length r.key + length r.value) ≤ 16777216)

read_payload-whole :
    (ln : ℕ) (payload rest : List ℕ)
    → ln ≡ length payload
    → length payload ≤ 16777216
    → read_payload 16777216 ln (payload ++ rest) ≡ received payload rest
read_payload-whole ln [] rest e h = rw e refl
read_payload-whole ln (b ∷ payload) rest e h =
    let whole = b ∷ payload in
    rw
      (
        e,
        le→ltb 16777216 (length whole) h,
        ==-false (length whole) (omega arith),
        le→ltb (length (whole ++ rest)) (length whole) (omega (arith, length-append whole rest)),
        take-append whole rest,
        drop-append whole rest,
      )
      refl

read_frame-write_frame :
    (payload rest : List ℕ)
    → length payload ≤ 16777216
    → read_frame_max default_max_frame_size (le_bytes 4 (length payload) ++ (payload ++ rest))
      ≡ received payload rest
unfolding read_frame_max le_bytes
read_frame-write_frame payload rest h =
    let bytes = le_bytes 4 (length payload) ++ (payload ++ rest) in
    if_false (ltb (length bytes) 4) (failed unexpected_end) _
      (le→ltb (length bytes) 4 (omega arith))
    ∙ read_payload-whole _ payload rest (from_le-u32 (length payload) (omega (arith, h))) h

-- What the server does with the next request.
handle_stream-next :
    (fuel : ℕ) (payload rest : List ℕ)
    → length payload ≤ 16777216
    → handle_stream (suc fuel) (le_bytes 4 (length payload) ++ (payload ++ rest))
      ≡ after_frame (received payload rest) (handle_stream fuel)
unfolding handle_stream
handle_stream-next fuel payload rest h =
    ap (λ (f : Framed). after_frame f (handle_stream fuel)) (read_frame-write_frame payload rest h)

write_frame_lem :
    (payload : List ℕ)
    → length payload ≤ 16777216
    → write_frame payload ≡ some (le_bytes 4 (length payload) ++ payload)
unfolding write_frame
write_frame_lem payload h = rw (le→ltb 4294967295 (length payload) (omega (arith, h))) refl

length-le_bytes4 : (v : ℕ) → length (le_bytes 4 v) ≡ 4
unfolding le_bytes
length-le_bytes4 v = refl

handle_stream-end : (fuel : ℕ) → handle_stream fuel [] ≡ ([], ended end_of_stream)
unfolding handle_stream read_frame_max
handle_stream-end zero = refl
handle_stream-end (suc fuel) = refl

-- The request in the next frame is dispatched, and the rest is handled with one fuel less.
handle_stream-frame :
    (fuel seq : ℕ) (r : Request) (rs : List Request) (payload rest : List ℕ)
    → decode_request payload ≡ ok (record r { seq = seq })
    → length payload ≤ 16777216
    → ((n : ℕ) → length rs ≤ n → handle_stream n rest ≡ (dispatches rs, ended end_of_stream))
    → length rs + 1 ≤ fuel
    → handle_stream fuel (le_bytes 4 (length payload) ++ (payload ++ rest))
      ≡ (dispatches (r ∷ rs), ended end_of_stream)
unfolding handle_request
handle_stream-frame zero seq r rs payload rest decodes h handles enough = absurd (omega arith)
handle_stream-frame (suc n) seq r rs payload rest decodes h handles enough =
    handle_stream-next n payload rest h ∙ rw (handles n (omega arith), decodes) refl

-- The same with any fuel that is enough.
handle_stream-write_requests :
    (rs : List Request)
    → All IsRequest rs
    → (bytes : List ℕ) × (write_requests rs ≡ some bytes)
      × (length rs ≤ length bytes)
      × ((fuel : ℕ)
          → length rs ≤ fuel
          → handle_stream fuel bytes ≡ (dispatches rs, ended end_of_stream))
unfolding le_bytes
handle_stream-write_requests [] h = ([], refl, omega arith, λ fuel enough. handle_stream-end fuel)
handle_stream-write_requests (r ∷ rs) h =
    let (cmd_small, seq_small, fits) = h.0 in
    let (payload, encodes, len, decodes) =
      decode_request-encode_request r cmd_small seq_small (omega (arith, fits))
        (omega (arith, fits)) in
    let (rest, writes, more, handles) = handle_stream-write_requests rs h.1 in
    let short : length payload ≤ 16777216 = omega (arith, len, fits) in
    let frame = le_bytes 4 (length payload) ++ payload in
    (
      frame ++ rest,
      rw (encodes, write_frame_lem payload short, writes) refl,
      omega (
        arith,
        more,
        length-append frame rest,
        length-append (le_bytes 4 (length payload)) payload,
        length-le_bytes4 (length payload),
      ),
      λ fuel enough.
          handle_stream-frame fuel (kept_seq r) r rs payload rest decodes short handles
            (omega (arith, enough)),
    )

-- Let a client write requests onto a connection, one after the other, and then close it, where each
-- has a command of one byte, a sequence number of 64 bits, and a key and a value that together with
-- the header of 22 bytes fit into a frame of 16 MiB. Then all of them can be written, the server
-- calls the handlers of exactly these requests, in their order and with their keys and values, or
-- answers an error for an unknown command, and its loop ends at the end of the connection.
pub handle_connection-write_requests :
    (rs : List Request)
    → All IsRequest rs
    → (bytes : List ℕ) × (write_requests rs ≡ some bytes)
      × (handle_connection bytes ≡ (dispatches rs, ended end_of_stream))
unfolding handle_connection
handle_connection-write_requests rs h =
    let (bytes, writes, more, handles) = handle_stream-write_requests rs h in
    (bytes, writes, handles (length bytes) more)
