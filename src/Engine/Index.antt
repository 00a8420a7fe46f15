-- ===== src/Engine/Index.antt =====
-- The two files of a shard, src/engine/wal.go. A key is its bytes. Opening, closing and syncing a
-- file are left out, and so are errors of reads other than the end of the file.
use kvgo.Common.{
  Bool, List, Option, [], drop, if◌then◌else◌, length, ltb, none, some, suc, take, zero, ℕ, ◌%◌,
  ◌++◌, ◌+◌, ◌==◌, ◌∷◌, true, false,
}
use kvgo.Codec.{le_bytes, u32_at, u64_at}

-- An offset is an int64; the bit pattern that the file has for it is taken to stay below 2 ^ 63.
pub record IndexEntry : Type 0 where
  pub key : List ℕ
  pub value_size : ℕ
  pub value_offset : ℕ

-- `value_position` is where the next read of the value file starts that does not seek.
pub record EngineWal : Type 0 where
  pub index_file : List ℕ
  pub value_file : List ℕ
  pub value_position : ℕ

-- `newWAL` on files with these bytes.
unfoldable pub new_engine_wal : List ℕ → List ℕ → EngineWal
new_engine_wal index value = record { index_file = index; value_file = value; value_position = 0 }

abbrev pub wal_index_header_bytes : ℕ
wal_index_header_bytes = 16

unfoldable pub wal_index_len : ℕ → ℕ
wal_index_len klen = wal_index_header_bytes + klen

unfoldable pub encode_into : List ℕ → ℕ → ℕ → List ℕ
unfolding le_bytes
encode_into key vsize voffset =
    le_bytes 4 (length key) ++ (le_bytes 4 vsize ++ (le_bytes 8 voffset ++ key))

-- What `readIndex` returns, with the state that its handler changed: nil; ErrCorruption, where the
-- index file is to be cut at the position; or the handler's error. `stuck`, which is no Go value,
-- says that the loop ran out of fuel.
pub data Indexed {ℓ} (S : Type ℓ) : Type ℓ where
  indexed : S → Indexed S
  corrupted : ℕ → S → Indexed S
  refused stuck : Indexed S

module _ {S : Type 0} where
  abbrev pub go_on : Option S → (S → Indexed S) → Indexed S
  go_on none next = refused
  go_on (some s) next = next s

  -- An entry whose key has `klen` bytes, where the file has `rest` behind the header. The position is
  -- added up in 32 bits.
  abbrev pub read_key :
      (IndexEntry → S → Option S)
      → ℕ
      → ℕ
      → ℕ
      → ℕ
      → List ℕ
      → S
      → (ℕ → List ℕ → S → Indexed S)
      → Indexed S
  read_key handler position klen vlen offset rest s next =
      if ltb (length rest) klen
      then corrupted position s
      else go_on
          (handler (record { key = take klen rest; value_size = vlen; value_offset = offset }) s)
          (next (position + (wal_index_header_bytes + klen) % 4294967296) (drop klen rest))

  unfoldable pub read_index : (IndexEntry → S → Option S) → ℕ → ℕ → List ℕ → S → Indexed S
  read_index handler fuel position [] s = indexed s
  read_index handler zero position (b ∷ bytes) s = stuck
  read_index handler (suc fuel) position (b ∷ bytes) s =
      if ltb (length (b ∷ bytes)) wal_index_header_bytes
      then corrupted position s
      else read_key handler position (u32_at 0 (b ∷ bytes)) (u32_at 4 (b ∷ bytes))
          (u64_at 8 (b ∷ bytes)) (drop wal_index_header_bytes (b ∷ bytes)) s
          (read_index handler fuel)

  -- Each round takes sixteen bytes at least, so the length is enough fuel.
  unfoldable pub read_index_file : (IndexEntry → S → Option S) → EngineWal → S → Indexed S
  read_index_file handler w s = read_index handler (length w.index_file) 0 w.index_file s

-- What `readValue` returns: the bytes, or an error.
pub data ValueRead : Type 0 where
  value : List ℕ → ValueRead
  invalid_read end_of_file corruption : ValueRead

-- The file has `rest` from the read position on. A short read cuts the file at the offset.
abbrev pub read_rest : ℕ → ℕ → ℕ → List ℕ → EngineWal → ValueRead × EngineWal
read_rest offset size position [] w = (end_of_file, record w { value_position = position })
read_rest offset size position (b ∷ rest) w =
    if ltb (length (b ∷ rest)) size
    then (
      corruption,
      record w {
        value_file = take offset w.value_file;
        value_position = position + length (b ∷ rest);
      },
    )
    else (value (take size (b ∷ rest)), record w { value_position = position + size })

-- The offset 0 is not sought.
unfoldable pub read_value : ℕ → ℕ → EngineWal → ValueRead × EngineWal
read_value offset size w =
    let position = if ltb 0 offset then offset else w.value_position in
    if size == 0
    then (invalid_read, w)
    else read_rest offset size position (drop position w.value_file) w

-- `torn` is the number of bytes that reach the file where the write fails. A write appends, and
-- leaves the position of the file at its end, unless there is nothing to write.
unfoldable pub write_index : Option ℕ → List ℕ → EngineWal → EngineWal × Bool
write_index none bytes w = (record w { index_file = w.index_file ++ bytes }, true)
write_index (some torn) bytes w = (record w { index_file = w.index_file ++ take torn bytes }, false)

abbrev pub append_value : List ℕ → EngineWal → EngineWal
append_value [] w = w
append_value (b ∷ bytes) w = record w {
  value_file = w.value_file ++ b ∷ bytes;
  value_position = length (w.value_file ++ b ∷ bytes);
}

unfoldable pub write_value : Option ℕ → List ℕ → EngineWal → EngineWal × Bool
write_value none bytes w = (append_value bytes w, true)
write_value (some torn) bytes w = (append_value (take torn bytes) w, false)
