-- ===== src/Frames.antt =====
-- One file of frames, src/raft/wal.go: each batch stands behind its length in four bytes. Opening,
-- closing and syncing a file are left out, as are errors of reads that are not at the file's end.
pub mod Reading
use kvgo.Common.{
  Bool, List, Option, [], drop, false, if◌then◌else◌, length, ltb, none, some, take, true, ℕ, ◌++◌,
  ◌+◌, ◌∷◌,
}
use kvgo.Codec.{le_bytes, from_le}

-- `content` is the file, `size` the field, `position` the offset of the next read. Writes append.
pub record Wal : Type 0 where
  pub content : List ℕ
  pub size : ℕ
  pub position : ℕ

-- A file that was just opened.
unfoldable pub new_wal : List ℕ → Wal
new_wal content = record { content = content; size = length content; position = 0 }

unfoldable pub frame : List ℕ → List ℕ
frame batch = le_bytes 4 (length batch) ++ batch

-- `torn` is the number of bytes that reach the file where the write fails.
unfoldable pub write : Option ℕ → List ℕ → Wal → Wal × Bool
write none batch w =
    (record w { content = w.content ++ frame batch; size = w.size + length (frame batch) }, true)
write (some torn) batch w =
    let part = take torn (frame batch) in
    (record w { content = w.content ++ part; size = w.size + length part }, false)

-- `tail_corruption` is ErrTailCorruption.
pub data Read : Type 0 where
  eof tail_corruption : Read
  batch : List ℕ → Read

-- The body of a frame of `size` bytes, where the file has `rest` left.
abbrev pub read_body : ℕ → List ℕ → Wal → Read × Wal
read_body size rest w =
    if ltb w.size (w.position + size)
    then (tail_corruption, w)
    else if ltb (length rest) size
    then (tail_corruption, record w { position = w.position + length rest })
    else (batch (take size rest), record w { position = w.position + size })

abbrev pub read_frame : List ℕ → Wal → Read × Wal
read_frame [] w = (eof, w)
read_frame (b ∷ bytes) w =
    let rest = b ∷ bytes in
    if ltb (length rest) 4
    then (tail_corruption, record w { position = w.position + length rest })
    else read_body (from_le (take 4 rest)) (drop 4 rest) (record w { position = w.position + 4 })

unfoldable pub read : Wal → Read × Wal
read w = read_frame (drop w.position w.content) w

-- The file is cut and opened again.
unfoldable pub truncate : ℕ → Wal → Wal
truncate offset w = record { content = take offset w.content; size = offset; position = 0 }
