-- ===== src/Transport.antt =====
-- The frames of src/transport/frame.go: each payload behind its length. A connection is the list of the
-- bytes that arrive on it, to its end. Deadlines and errors of the connection itself are left out.
pub mod Multiplexed
pub mod Numbers
pub mod Slots
pub mod Routing
use kvgo.Common.{
  List, Option, [], drop, if◌then◌else◌, length, ltb, none, some, take, ℕ, ◌++◌, ◌==◌, ◌∷◌,
}
use kvgo.Codec.{le_bytes, u32_at}

abbrev pub default_max_frame_size : ℕ
default_max_frame_size = 16777216

-- The last two are io.EOF and io.ErrUnexpectedEOF.
pub data FrameError : Type 0 where
  too_large invalid_frame end_of_stream unexpected_end : FrameError

-- A payload with what is left on the connection.
pub data Framed : Type 0 where
  received : List ℕ → List ℕ → Framed
  failed : FrameError → Framed

-- What `io.ReadFull` answers where there are too few bytes.
abbrev pub cut_off : List ℕ → FrameError
cut_off [] = end_of_stream
cut_off (b ∷ bytes) = unexpected_end

abbrev pub read_payload : ℕ → ℕ → List ℕ → Framed
read_payload max_payload ln rest =
    if ltb max_payload ln
    then failed too_large
    else if ln == 0
    then received [] rest
    else if ltb (length rest) ln
    then failed (cut_off rest)
    else received (take ln rest) (drop ln rest)

unfoldable pub read_frame_max : ℕ → List ℕ → Framed
read_frame_max max_payload bytes =
    if max_payload == 0
    then failed invalid_frame
    else if ltb (length bytes) 4
    then failed (cut_off bytes)
    else read_payload max_payload (u32_at 0 bytes) (drop 4 bytes)

-- None is ErrFrameTooLarge.
unfoldable pub write_frame : List ℕ → Option (List ℕ)
write_frame payload =
    if ltb 4294967295 (length payload) then none else some (le_bytes 4 (length payload) ++ payload)
