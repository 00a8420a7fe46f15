-- ===== src/Engine/Compacting.antt =====
-- What a compaction keeps of an index, and what it loses.
use kvgo.Common.{
  ==-false, All, Bool-cases, List, Option, [], ap, arith, bytes_beq, bytes_beq_iff, bytes_eq, false,
  inl, inr, insert, length, length-append, lookup, lookup-insert, none, refl, some, subst, sym,
  true, ℕ, ◌++◌, ◌==◌, ◌∙◌, ◌∷◌, ◌≡◌,
}
use kvgo.Engine.Index.{IndexEntry, read_index, read_index_file, new_engine_wal, encode_into}
use kvgo.Engine.Shard.{
  Entries, ValueEntry, Shard, new_shard, replay_entry, replay_shard, counted, found, missing, get,
}
use kvgo.Engine.Replaying.{
  encode_all, length-encode_entry, IsSmall, add_all, unloaded, read_index-encode_all,
}
use kvgo.Engine.Placing.{Holds, Finds}
use kvgo.Engine.Durability.{answer}
use kvgo.Engine.Restart.{restarted, get-Finds}
use kvgo.Engine.Rewriting.{snapshot, reopen_index_file, do_compact}
use kvgo.Engine.Cleaning.{Distinct}

-- The entries of a map, as an index has them.
abbrev pub indexes : Entries → List IndexEntry
indexes [] = []
indexes ((k, ve) ∷ m) =
    (record { key = k; value_size = ve.size; value_offset = ve.offset }) ∷ indexes m

snapshot-eq : (m : Entries) → snapshot m ≡ encode_all (indexes m)
unfolding snapshot
snapshot-eq [] = refl
snapshot-eq ((k, ve) ∷ m) =
    ap (λ (xs : List ℕ). encode_into k ve.size ve.offset ++ xs) (snapshot-eq m)

-- An entry as a restart finds it.
abbrev pub reread : Option ValueEntry → Option ValueEntry → Option ValueEntry
reread none old = old
reread (some ve) old = some (record ve { payload = none })

-- Compacting a map and replaying it gives each of its entries again, without its value.
lookup-indexes :
    (m acc : Entries) (k : List ℕ)
    → Distinct m
    → lookup k (add_all (indexes m) acc) ≡ reread (lookup k m) (lookup k acc)
lookup-indexes [] acc k d = refl
lookup-indexes ((j, ve) ∷ m) acc k d =
    let ie : IndexEntry = record { key = j; value_size = ve.size; value_offset = ve.offset } in
    lookup-indexes m (insert j (unloaded ie) acc) k d.1
    ∙ rw (lookup-insert j k (unloaded ie) acc) (elim (Bool-cases (bytes_beq j k)) [
      | inl same ↦
          let absent : lookup k m ≡ none =
            subst (λ (x : List ℕ). lookup x m ≡ none) ((bytes_beq_iff j k).0 same) d.0 in
          rw (same, absent) refl
      | inr other ↦ rw other refl
    ])

bytes_beq_flip : (j k : List ℕ) → bytes_beq j k ≡ false → bytes_beq k j ≡ false
bytes_beq_flip j k h = elim (Bool-cases (bytes_beq k j)) [
  | inl same ↦ let back = (bytes_beq_iff j k).1 (sym ((bytes_beq_iff k j).0 same)) in cc
  | inr other ↦ other
]

lookup-insert_other :
    (j k : List ℕ) (ve : ValueEntry) (m : Entries)
    → bytes_beq j k ≡ false
    → lookup j m ≡ none
    → lookup j (insert k ve m) ≡ none
lookup-insert_other j k ve m h e = rw (lookup-insert k j ve m, bytes_beq_flip j k h) e

pub Distinct-insert :
    (k : List ℕ) (ve : ValueEntry) (m : Entries) → Distinct m → Distinct (insert k ve m)
Distinct-insert k ve [] d = (refl, tt)
Distinct-insert k ve ((j, w) ∷ m) d = elim (Bool-cases (bytes_beq j k)) [
  | inl same ↦ rw same d
  | inr other ↦ rw other (lookup-insert_other j k ve m other d.0, Distinct-insert k ve m d.1)
]

-- The shard after a compaction.
abbrev pub compacted : Shard → Shard
compacted s = reopen_index_file (snapshot s.entries) s

snapshot_nonempty :
    (m : Entries) (k : List ℕ) (ve : ValueEntry)
    → lookup k m ≡ some ve
    → (length (snapshot m) == 0) ≡ false
unfolding snapshot
snapshot_nonempty [] k ve h = cc
snapshot_nonempty ((j, w) ∷ m) k ve h =
    ==-false (length (encode_into j w.size w.offset ++ snapshot m)) (
      omega (
        arith,
        length-append (encode_into j w.size w.offset) (snapshot m),
        length-encode_entry (record { key = j; value_size = w.size; value_offset = w.offset }),
      ))

do_compact_eq :
    (s : Shard) (k : List ℕ) (ve : ValueEntry)
    → lookup k s.entries ≡ some ve
    → do_compact true true s ≡ (compacted s, true)
unfolding do_compact
do_compact_eq s k ve h = rw (snapshot_nonempty s.entries k ve h) refl

compacted-restarted :
    (s : Shard)
    → All IsSmall (indexes s.entries)
    → restarted (compacted s) ≡ (
      counted (new_shard (snapshot s.entries) s.wal.value_file) (add_all (indexes s.entries) []),
      true,
    )
unfolding replay_shard read_index_file new_shard new_engine_wal
compacted-restarted s small =
    let m = s.entries in
    let read =
      ap (λ (bytes : List ℕ). read_index replay_entry (length bytes) 0 bytes []) (snapshot-eq m)
      ∙ read_index-encode_all (length (encode_all (indexes m))) 0 (indexes m) [] small
          (omega arith) in
    rw read refl

-- The first read of a key after a compaction and a restart.
compacted-get :
    (s : Shard) (k : List ℕ) (v : Option (List ℕ))
    → Distinct s.entries
    → All IsSmall (indexes s.entries)
    → Finds s.wal.value_file (reread (lookup k s.entries) none) v
    → ((restarted (compacted s)).1 ≡ true) × ((get k (restarted (compacted s)).0).0 ≡ answer v)
unfolding get new_shard new_engine_wal
compacted-get s k v d small f = rw (compacted-restarted s small) (
  refl,
  rw (lookup-indexes s.entries [] k d) (
      get-Finds
        (counted (new_shard (snapshot s.entries) s.wal.value_file) (add_all (indexes s.entries) []))
        k (reread (lookup k s.entries) none) v refl f),
)

-- Let the keys of a shard's map be different, and the numbers of its entries fit their fields. Where
-- the entry of a key has the size and the offset at which a value stands in the file of values, a
-- compaction that replaces the index succeeds, a restart after it succeeds too, and its first read
-- of the key finds that value; of a key that the map does not have, it finds none.
pub do_compact-get :
    (s : Shard) (k : List ℕ) (ve : ValueEntry) (v : List ℕ)
    → Distinct s.entries
    → All IsSmall (indexes s.entries)
    → lookup k s.entries ≡ some ve
    → Holds s.wal.value_file v ve.size ve.offset
    → (s' : Shard) × (do_compact true true s ≡ (s', true))
      × ((restarted s').1 ≡ true)
      × ((get k (restarted s').0).0 ≡ found v)
      × ((j : List ℕ) → lookup j s.entries ≡ none → (get j (restarted s').0).0 ≡ missing)
do_compact-get s k ve v d small e h =
    let (opens, reads) = compacted-get s k (some v) d small (rw e (refl, h)) in
    (
      compacted s,
      do_compact_eq s k ve e,
      opens,
      reads,
      λ j absent. (compacted-get s j none d small (rw absent tt)).1,
    )
