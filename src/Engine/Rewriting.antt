-- ===== src/Engine/Rewriting.antt =====
-- The rewriting of a shard's files: compaction (src/engine/compaction.go), which writes the index anew,
-- and cleanup (src/engine/cleanup.go), which writes both files anew. Writes to temporary files
-- succeed; a temporary file that an earlier cleanup left behind is appended to. A key is at most as
-- long as a slice can be.
use kvgo.Common.{
  Bool, List, Option, [], bytes_eq, false, if◌then◌else◌, insert, leb, length, lookup, ltb, none,
  not, some, true, ℕ, ◌&&◌, ◌*◌, ◌++◌, ◌+◌, ◌-◌, ◌==◌, ◌||◌, ◌∷◌,
}
use kvgo.Engine.Index.{
  EngineWal, new_engine_wal, wal_index_header_bytes, wal_index_len, encode_into, ValueRead, value,
}
use kvgo.Engine.Shard.{Entries, ValueEntry, Shard, get_value}

-- Times are in nanoseconds. The threshold is a float64 in the code, 4.0 by default.
pub record CompactionPolicy : Type 0 where
  pub check_every : ℕ
  pub min_interval : ℕ
  pub max_interval : ℕ
  pub amp_threshold : ℕ

abbrev pub minute : ℕ
minute = 60000000000

abbrev pub default_compaction_policy : CompactionPolicy
default_compaction_policy = record {
  check_every = minute;
  min_interval = 10 * minute;
  max_interval = 24 * (60 * minute);
  amp_threshold = 4;
}

unfoldable pub is_reasonable : CompactionPolicy → Bool
is_reasonable p =
    leb minute p.check_every
    && (leb minute p.min_interval
        && (leb minute p.max_interval
            && (ltb 1 p.amp_threshold
                && (leb p.check_every p.min_interval && leb p.min_interval p.max_interval))))

-- Whether a time has passed since the last compaction, if there was one.
abbrev pub elapsed : ℕ → Option ℕ → ℕ → Bool
elapsed now none interval = false
elapsed now (some last) interval = leb interval (now - last)

abbrev pub too_soon : ℕ → Option ℕ → ℕ → Bool
too_soon now none interval = false
too_soon now (some last) interval = ltb (now - last) interval

-- The quotient of two float64 is compared with the threshold; below 2 ^ 52 this is the comparison of
-- the integers.
unfoldable pub should_compact : CompactionPolicy → ℕ → Option ℕ → Shard → Bool
should_compact policy now last s =
    if too_soon now last policy.min_interval
    then false
    else if s.index_bytes_on_disk == 0
    then false
    else (let max_due = elapsed now last policy.max_interval in
        let expected = s.key_bytes_in_ram + s.num_keys * wal_index_header_bytes in
        if s.key_bytes_in_ram == 0 || s.num_keys == 0
        then max_due
        else max_due || leb (policy.amp_threshold * expected) s.index_bytes_on_disk)

unfoldable pub snapshot : Entries → List ℕ
snapshot [] = []
snapshot ((k, ve) ∷ m) = encode_into k ve.size ve.offset ++ snapshot m

-- `reopenIndexFile`
abbrev pub reopen_index_file : List ℕ → Shard → Shard
reopen_index_file bytes s = record s {
  wal = record (s.wal) { index_file = bytes };
  index_bytes_on_disk = length bytes;
}

-- `written` says whether the snapshot could be written, `replaced` whether it took the place of the
-- index. The Boolean of the result is false for an error.
unfoldable pub do_compact : Bool → Bool → Shard → Shard × Bool
do_compact written replaced s =
    if length (snapshot s.entries) == 0
    then (s, true)
    else if not written
    then (s, false)
    else if replaced
    then (reopen_index_file (snapshot s.entries) s, true)
    else (reopen_index_file s.wal.index_file s, false)

abbrev pub cleanup_index_buffer_size : ℕ
cleanup_index_buffer_size = 1048576

abbrev pub cleanup_flush_threshold : ℕ
cleanup_flush_threshold = 524288

-- What `writeCleanupData` has so far: the temporary files, the buffers before them, and the offsets.
pub record Cleanup : Type 0 where
  pub temp_index : List ℕ
  pub temp_value : List ℕ
  pub index_buf : List ℕ
  pub value_buf : List ℕ
  pub new_offsets : List (List ℕ × ℕ)
  pub new_value_offset : ℕ

unfoldable pub buffer_value : List ℕ → Cleanup → Cleanup
buffer_value bytes c =
    if leb cleanup_flush_threshold (length (c.value_buf ++ bytes))
    then record c { temp_value = c.temp_value ++ (c.value_buf ++ bytes); value_buf = [] }
    else record c { value_buf = c.value_buf ++ bytes }

-- An index buffer that has no room for the entry is written out first.
unfoldable pub buffer_index : List ℕ → Cleanup → Cleanup
buffer_index entry c =
    if ltb (cleanup_index_buffer_size - length c.index_buf) (length entry)
    then record c { temp_index = c.temp_index ++ c.index_buf; index_buf = entry }
    else record c { index_buf = c.index_buf ++ entry }

-- No bytes are buffered for an empty value.
abbrev pub buffer_nonempty : List ℕ → Cleanup → Cleanup
buffer_nonempty [] c = c
buffer_nonempty (b ∷ bytes) c = buffer_value (b ∷ bytes) c

unfoldable pub clean_entry : List ℕ → List ℕ → Cleanup → Cleanup
clean_entry key bytes c =
    let c1 = buffer_nonempty bytes c in
    let c2 = record c1 { new_offsets = insert key c.new_value_offset c1.new_offsets } in
    let c3 = buffer_index (encode_into key (length bytes) c.new_value_offset) c2 in
    record c3 { new_value_offset = c.new_value_offset + length bytes }

abbrev pub flushed_index : Cleanup → Cleanup
flushed_index c = record c { temp_index = c.temp_index ++ c.index_buf; index_buf = [] }

-- The values that were read stay in memory, also where a later one cannot be read. `too_long` is the
-- panic at a key that does not fit in an empty index buffer.
pub data Cleaned : Type 0 where
  cleaned : Entries → EngineWal → Cleanup → Cleaned
  value_error too_long : Entries → EngineWal → Cleanup → Cleaned

abbrev pub keep_entry : List ℕ → ValueEntry → Cleaned → Cleaned
keep_entry k ve (cleaned m w c) = cleaned ((k, ve) ∷ m) w c
keep_entry k ve (value_error m w c) = value_error ((k, ve) ∷ m) w c
keep_entry k ve (too_long m w c) = too_long ((k, ve) ∷ m) w c

abbrev pub clean_next :
    List ℕ
    → Entries
    → Cleanup
    → (EngineWal → Cleanup → Cleaned)
    → ValueRead × (ValueEntry × EngineWal)
    → Cleaned
clean_next k m c next (value bytes, (ve, w)) =
    if ltb cleanup_index_buffer_size (wal_index_len (length k))
    then too_long ((k, ve) ∷ m) w (flushed_index (buffer_nonempty bytes c))
    else keep_entry k ve (next w (clean_entry k bytes c))
clean_next k m c next (failure, (ve, w)) = value_error ((k, ve) ∷ m) w c

unfoldable pub write_cleanup_data : Entries → EngineWal → Cleanup → Cleaned
write_cleanup_data [] w c = cleaned [] w c
write_cleanup_data ((k, ve) ∷ m) w c = clean_next k m c (write_cleanup_data m) (get_value ve w)

-- The files that `swapCleanupFiles` puts in place.
abbrev pub final_index : Cleanup → List ℕ
final_index c = c.temp_index ++ c.index_buf

abbrev pub final_value : Cleanup → List ℕ
final_value c = c.temp_value ++ c.value_buf

abbrev pub moved : Option ℕ → ValueEntry → ValueEntry
moved none ve = ve
moved (some offset) ve = record ve { offset = offset }

unfoldable pub update_offsets : List (List ℕ × ℕ) → Entries → Entries
update_offsets offsets [] = []
update_offsets offsets ((k, ve) ∷ m) = (k, moved (lookup k offsets) ve) ∷ update_offsets offsets m

unfoldable pub update_shard_after_cleanup : Entries → Cleanup → Shard → Shard
update_shard_after_cleanup m c s = record s {
  entries = update_offsets c.new_offsets m;
  wal = new_engine_wal (final_index c) (final_value c);
  value_offset = c.new_value_offset;
}

-- What `replaceWALFiles` did: both files, the index alone, or none.
pub data Swap : Type 0 where
  both index_only neither : Swap

-- How a cleanup ended, with the bytes of the temporary files that it leaves behind; where the swap
-- failed, the shard's files are closed.
pub data CleanupEnd : Type 0 where
  done : CleanupEnd
  error closed panicked : List ℕ → List ℕ → CleanupEnd

abbrev pub swap_files : Swap → Entries → EngineWal → Cleanup → Shard → Shard × CleanupEnd
swap_files both m w c s = (update_shard_after_cleanup m c s, done)
swap_files index_only m w c s = (
  record s { entries = m; wal = record w { index_file = final_index c } },
  closed [] (final_value c),
)
swap_files neither m w c s =
    (record s { entries = m; wal = w }, closed (final_index c) (final_value c))

abbrev pub end_cleanup : Swap → Shard → Cleaned → Shard × CleanupEnd
end_cleanup swap s (cleaned m w c) = swap_files swap m w c s
end_cleanup swap s (value_error m w c) =
    (record s { entries = m; wal = w }, error c.temp_index c.temp_value)
end_cleanup swap s (too_long m w c) =
    (record s { entries = m; wal = w }, panicked c.temp_index c.temp_value)

abbrev pub begin_cleanup : List ℕ → List ℕ → Cleanup
begin_cleanup left_index left_value = record {
  temp_index = left_index;
  temp_value = left_value;
  index_buf = [];
  value_buf = [];
  new_offsets = [];
  new_value_offset = 0;
}

-- `left_index` and `left_value` are the temporary files that are there before.
unfoldable pub do_cleanup : List ℕ → List ℕ → Swap → Shard → Shard × CleanupEnd
do_cleanup left_index left_value swap s =
    end_cleanup swap s (write_cleanup_data s.entries s.wal (begin_cleanup left_index left_value))
