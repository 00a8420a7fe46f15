-- ===== src/Engine/Durability.antt =====
-- Flushes of a shard, and what a restart reads from its files.
use kvgo.Common.{
  All-append, All, Bool, List, Option, [], ap, arith, bytes_beq, bytes_eq, false, if◌then◌else◌,
  length, length-append, lookup, lookup-insert, none, refl, some, sym, true, u64_mod, ℕ, ◌++◌, ◌+◌,
  ◌<◌, ◌∙◌, ◌∷◌, ◌≡◌,
}
use mathlib.Core.List.{append-nil}
use kvgo.Engine.Index.{IndexEntry, EngineWal, append_value, write_index, write_value}
use kvgo.Engine.Shard.{
  ValueEntry, Shard, Got, found, missing, put_internal, add_key, WriteRequest, batch_index,
  batch_values, apply_batch, flushed, flush,
}
use kvgo.Engine.Replaying.{encode_all, encode_all-append, IsSmall}
use kvgo.Engine.Placing.{
  Puts, last_put, puts_of, Places, batch_entries, batch_index-eq, Places-batch,
}

-- An entry in memory, against the value that was written last.
abbrev pub Loaded : Option ValueEntry → Option (List ℕ) → Type 0
Loaded none none = Unit {0}
Loaded none (some v) = ⊥
Loaded (some ve) none = ⊥
Loaded (some ve) (some v) = ve.payload ≡ some v

-- The files of a shard have these writes.
pub record IsStored (s : Shard) (puts : Puts) : Type 0 where
  pub ies : List IndexEntry
  pub index_lem : s.wal.index_file ≡ encode_all ies
  pub small : All IsSmall ies
  pub places : Places ies puts s.wal.value_file
  pub offset_lem : s.value_offset ≡ length s.wal.value_file

-- The memory of a shard has these writes.
abbrev pub IsLoaded : Shard → Puts → Type 0
IsLoaded s puts = (k : List ℕ) → Loaded (lookup k s.entries) (last_put k puts none)

-- What `get` answers where the last value of the key is known.
abbrev pub answer : Option (List ℕ) → Got
answer none = missing
answer (some v) = found v

last_put-append :
    (k : List ℕ) (ps qs : Puts) (old : Option (List ℕ))
    → last_put k (ps ++ qs) old ≡ last_put k qs (last_put k ps old)
last_put-append k [] qs old = refl
last_put-append k ((j, v) ∷ ps) qs old =
    last_put-append k ps qs (if bytes_beq j k then some v else old)

pub append_value-value_file :
    (bytes : List ℕ) (w : EngineWal) → (append_value bytes w).value_file ≡ w.value_file ++ bytes
append_value-value_file [] w = sym (append-nil w.value_file)
append_value-value_file (b ∷ bytes) w = refl

append_value-index_file :
    (bytes : List ℕ) (w : EngineWal) → (append_value bytes w).index_file ≡ w.index_file
append_value-index_file [] w = refl
append_value-index_file (b ∷ bytes) w = refl

-- Somebody waits for each of the requests.
abbrev pub AllWait : List WriteRequest → Type 0
AllWait = All (λ (r : WriteRequest). r.waits ≡ true)

pub apply_batch_files :
    (rs : List WriteRequest) (s : Shard)
    → AllWait rs
    → ((apply_batch rs s).wal ≡ s.wal) × ((apply_batch rs s).value_offset ≡ s.value_offset)
unfolding apply_batch put_internal
apply_batch_files [] s h = (refl, refl)
apply_batch_files (r ∷ rs) s h =
    let (wal_eq, offset_eq) = apply_batch_files rs (put_internal r.key r.bytes s) h.1 in
    let kept = added (lookup r.key s.entries) in rw h.0 (wal_eq ∙ kept.0, offset_eq ∙ kept.1)
  where
    added :
        (o : Option ValueEntry)
        → ((add_key o r.key s).wal ≡ s.wal) × ((add_key o r.key s).value_offset ≡ s.value_offset)
    added none = (refl, refl)
    added (some ve) = (refl, refl)

Loaded-insert :
    (b : Bool) (ve : ValueEntry) (v : List ℕ) (o : Option ValueEntry) (old : Option (List ℕ))
    → ve.payload ≡ some v
    → Loaded o old
    → Loaded (if b then some ve else o) (if b then some v else old)
Loaded-insert true ve v o old h k = h
Loaded-insert false ve v o old h k = k

apply_batch-Loaded :
    (rs : List WriteRequest) (s : Shard) (k : List ℕ) (old : Option (List ℕ))
    → AllWait rs
    → Loaded (lookup k s.entries) old
    → Loaded (lookup k (apply_batch rs s).entries) (last_put k (puts_of rs) old)
unfolding apply_batch put_internal
apply_batch-Loaded [] s k old h l = l
apply_batch-Loaded (r ∷ rs) s k old h l = rw h.0 (
    apply_batch-Loaded rs (put_internal r.key r.bytes s) k _ h.1 (
      rw
        (lookup-insert r.key k
          (record { payload = some r.bytes; size = length r.bytes; offset = 0 }) s.entries)
        (Loaded-insert (bytes_beq r.key k) _ r.bytes (lookup k s.entries) old refl l)))

-- The sizes of a request fit in 32 bits.
abbrev pub IsSized : WriteRequest → Type 0
IsSized r = (length r.key < 4294967296) × (length r.bytes < 4294967296)

pub batch_entries-IsSmall :
    (offset : ℕ) (rs : List WriteRequest)
    → All IsSized rs
    → offset + length (batch_values rs) < u64_mod
    → All IsSmall (batch_entries offset rs)
unfolding batch_values
batch_entries-IsSmall offset [] h k = tt
batch_entries-IsSmall offset (r ∷ rs) h k =
    let len = length-append r.bytes (batch_values rs) in
    (
      (h.0.0, h.0.1, omega (arith, k)),
      batch_entries-IsSmall (offset + length r.bytes) rs h.1 (omega (arith, k, len)),
    )

-- The shard after a flush, before those that wait are applied.
abbrev pub written : List WriteRequest → Shard → Shard
written rs s = record s {
  wal = record (append_value (batch_values rs) s.wal) {
    index_file = (append_value (batch_values rs) s.wal).index_file ++ batch_index s.value_offset rs;
  };
  index_bytes_on_disk = s.index_bytes_on_disk + length (batch_index s.value_offset rs);
  value_offset = s.value_offset + length (batch_values rs);
}

pub flush_eq :
    (rs : List WriteRequest) (s : Shard)
    → flush none none rs s ≡ (apply_batch rs (written rs s), flushed)
unfolding flush write_value write_index
flush_eq rs s = refl

written-IsStored :
    (rs : List WriteRequest) (s : Shard) (puts : Puts)
    → IsStored s puts
    → All IsSized rs
    → s.value_offset + length (batch_values rs) < u64_mod
    → IsStored (written rs s) (puts ++ puts_of rs)
written-IsStored rs s puts h sized fits = record {
  ies = h.ies ++ batch_entries s.value_offset rs;
  index_lem =
      rw
        (
          append_value-index_file (batch_values rs) s.wal,
          h.index_lem,
          batch_index-eq s.value_offset rs,
        )
        (sym (encode_all-append h.ies (batch_entries s.value_offset rs)));
  small =
      All-append IsSmall h.ies (batch_entries s.value_offset rs) h.small
        (batch_entries-IsSmall s.value_offset rs sized fits);
  places =
      rw (append_value-value_file (batch_values rs) s.wal)
        (Places-batch h.ies puts s.wal.value_file rs s.value_offset h.offset_lem h.places);
  offset_lem =
      rw (append_value-value_file (batch_values rs) s.wal)
        (omega (arith, h.offset_lem, length-append s.wal.value_file (batch_values rs)));
}

-- The files of a shard say what is stored, whatever is in memory.
IsStored-files :
    (s s' : Shard) (puts : Puts)
    → IsStored s puts
    → s'.wal ≡ s.wal
    → s'.value_offset ≡ s.value_offset
    → IsStored s' puts
IsStored-files s s' puts h e e' = record {
  ies = h.ies;
  index_lem = ap (λ (w : EngineWal). w.index_file) e ∙ h.index_lem;
  small = h.small;
  places = rw e h.places;
  offset_lem = rw (e, e') h.offset_lem;
}

pub flush-IsStored :
    (rs : List WriteRequest) (s : Shard) (puts : Puts)
    → IsStored s puts
    → AllWait rs
    → All IsSized rs
    → s.value_offset + length (batch_values rs) < u64_mod
    → IsStored (flush none none rs s).0 (puts ++ puts_of rs)
flush-IsStored rs s puts h wait sized fits =
    let (wal_eq, offset_eq) = apply_batch_files rs (written rs s) wait in
    rw (flush_eq rs s) (
      IsStored-files (written rs s) (apply_batch rs (written rs s)) (puts ++ puts_of rs)
        (written-IsStored rs s puts h sized fits) wal_eq offset_eq)

pub flush-IsLoaded :
    (rs : List WriteRequest) (s : Shard) (puts : Puts)
    → IsLoaded s puts
    → AllWait rs
    → IsLoaded (flush none none rs s).0 (puts ++ puts_of rs)
flush-IsLoaded rs s puts h wait = λ k.
    rw (flush_eq rs s, last_put-append k puts (puts_of rs) none)
      (apply_batch-Loaded rs (written rs s) k (last_put k puts none) wait (h k))

pub flush-value_offset :
    (rs : List WriteRequest) (s : Shard)
    → AllWait rs
    → (flush none none rs s).0.value_offset ≡ s.value_offset + length (batch_values rs)
flush-value_offset rs s wait = rw (flush_eq rs s) (apply_batch_files rs (written rs s) wait).1
