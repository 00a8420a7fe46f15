-- ===== src/Engine/Shard.antt =====
-- One shard, src/engine/shard.go, with the flush of src/engine/group_committer.go. Locks and the
-- channels on which callers wait are left out; `WriteRequest` says whether somebody waits.
use kvgo.Common.{
  Bool, List, Option, [], bytes_eq, if◌then◌else◌, insert, length, lookup, none, some, true, false,
  ℕ, ◌++◌, ◌+◌, ◌==◌, ◌∷◌,
}
use kvgo.Engine.Index.{
  IndexEntry, EngineWal, new_engine_wal, encode_into, Indexed, indexed, corrupted, refused, stuck,
  read_index_file, ValueRead, value, read_value, write_index, write_value,
}

-- `payload` is none where the value is only in the file. The field `requested` is never used.
pub record ValueEntry : Type 0 where
  pub payload : Option (List ℕ)
  pub size : ℕ
  pub offset : ℕ

-- The map `data` is an association list; its order stands for the order of `range`.
abbrev pub Entries : Type 0
Entries = List (List ℕ × ValueEntry)

-- The counters are for the decision to compact.
pub record Shard : Type 0 where
  pub entries : Entries
  pub wal : EngineWal
  pub key_bytes_in_ram : ℕ
  pub num_keys : ℕ
  pub index_bytes_on_disk : ℕ
  pub value_offset : ℕ

unfoldable pub new_shard : List ℕ → List ℕ → Shard
new_shard index values = record {
  entries = [];
  wal = new_engine_wal index values;
  key_bytes_in_ram = 0;
  num_keys = 0;
  index_bytes_on_disk = 0;
  value_offset = length values;
}

-- The handler that `replay` hands to `readIndex`.
unfoldable pub replay_entry : IndexEntry → Entries → Option Entries
replay_entry ie m =
    some
      (insert ie.key (record { payload = none; size = ie.value_size; offset = ie.value_offset }) m)

abbrev pub key_bytes : Entries → ℕ
key_bytes [] = 0
key_bytes ((k, v) ∷ m) = length k + key_bytes m

abbrev pub counted : Shard → Entries → Shard
counted s m = record s { entries = m; key_bytes_in_ram = key_bytes m; num_keys = length m }

-- After a corrupted tail the index file is cut, and the counters are left as they were.
abbrev pub replayed : Shard → Indexed Entries → Shard × Bool
replayed s (indexed m) = (counted s m, true)
replayed s (corrupted position m) = (
  record s {
    entries = m;
    wal = record (s.wal) { index_file = kvgo.Common.take position s.wal.index_file };
  },
  false,
)
replayed s refused = (s, false)
replayed s stuck = (s, false)

-- The Boolean is false for an error.
unfoldable pub replay_shard : Shard → Shard × Bool
replay_shard s = replayed s (read_index_file replay_entry s.wal s.entries)

-- What `get` finds: the value, nothing, or the error of a read.
pub data Got : Type 0 where
  found : List ℕ → Got
  missing : Got
  unreadable : ValueRead → Got

abbrev pub loaded : ValueEntry → ValueRead × EngineWal → ValueRead × (ValueEntry × EngineWal)
loaded ve (value bytes, w) = (value bytes, (record ve { payload = some bytes }, w))
loaded ve (failure, w) = (failure, (ve, w))

abbrev pub value_of :
    Option (List ℕ) → ValueEntry → EngineWal → ValueRead × (ValueEntry × EngineWal)
value_of (some bytes) ve w = (value bytes, (ve, w))
value_of none ve w =
    if ve.size == 0
    then (value [], (record ve { payload = some [] }, w))
    else loaded ve (read_value ve.offset ve.size w)

-- A value that is read from the file stays in memory.
unfoldable pub get_value : ValueEntry → EngineWal → ValueRead × (ValueEntry × EngineWal)
get_value ve w = value_of ve.payload ve w

abbrev pub got : List ℕ → Shard → ValueRead × (ValueEntry × EngineWal) → Got × Shard
got key s (value bytes, (ve, w)) =
    (found bytes, record s { entries = insert key ve s.entries; wal = w })
got key s (failure, (ve, w)) =
    (unreadable failure, record s { entries = insert key ve s.entries; wal = w })

abbrev pub get_entry : List ℕ → Shard → Option ValueEntry → Got × Shard
get_entry key s none = (missing, s)
get_entry key s (some ve) = got key s (get_value ve s.wal)

unfoldable pub get : List ℕ → Shard → Got × Shard
get key s = get_entry key s (lookup key s.entries)

abbrev pub add_key : Option ValueEntry → List ℕ → Shard → Shard
add_key none key s = record s {
  key_bytes_in_ram = s.key_bytes_in_ram + length key;
  num_keys = s.num_keys + 1;
}
add_key (some ve) key s = s

-- The new entry has the offset 0, wherever its value is in the file.
unfoldable pub put_internal : List ℕ → List ℕ → Shard → Shard
put_internal key bytes s = record (add_key (lookup key s.entries) key s) {
  entries = insert key (record { payload = some bytes; size = length bytes; offset = 0 }) s.entries;
}

-- `waits` says whether the caller waits, `put`, or has changed the map itself, `putAsync`.
pub record WriteRequest : Type 0 where
  pub key : List ℕ
  pub bytes : List ℕ
  pub waits : Bool

unfoldable pub put_async : List ℕ → List ℕ → Shard → Shard × WriteRequest
put_async key bytes s =
    (put_internal key bytes s, record { key = key; bytes = bytes; waits = false })

-- The bytes that a flush writes, the values from an offset on.
unfoldable pub batch_index : ℕ → List WriteRequest → List ℕ
batch_index offset [] = []
batch_index offset (r ∷ rs) =
    encode_into r.key (length r.bytes) offset ++ batch_index (offset + length r.bytes) rs

unfoldable pub batch_values : List WriteRequest → List ℕ
batch_values [] = []
batch_values (r ∷ rs) = r.bytes ++ batch_values rs

unfoldable pub apply_batch : List WriteRequest → Shard → Shard
apply_batch [] s = s
apply_batch (r ∷ rs) s = apply_batch rs (if r.waits then put_internal r.key r.bytes s else s)

-- What those that wait are told: nil, or the error of the write, behind which the flush panics.
pub data Flushed : Type 0 where
  flushed value_failed index_failed : Flushed

abbrev pub flush_index : List WriteRequest → Shard → EngineWal × Bool → Shard × Flushed
flush_index batch s (w, false) = (record s { wal = w }, index_failed)
flush_index batch s (w, true) = (
  apply_batch batch (record s {
    wal = w;
    index_bytes_on_disk = s.index_bytes_on_disk + length (batch_index s.value_offset batch);
    value_offset = s.value_offset + length (batch_values batch);
  }),
  flushed,
)

abbrev pub flush_value : Option ℕ → List WriteRequest → Shard → EngineWal × Bool → Shard × Flushed
flush_value torn batch s (w, false) = (record s { wal = w }, value_failed)
flush_value torn batch s (w, true) =
    flush_index batch (record s { wal = w }) (write_index torn (batch_index s.value_offset batch) w)

-- `torn` are the bytes that reach each file where its write fails.
unfoldable pub flush : Option ℕ → Option ℕ → List WriteRequest → Shard → Shard × Flushed
flush torn_value torn_index batch s =
    flush_value torn_index batch s (write_value torn_value (batch_values batch) s.wal)
