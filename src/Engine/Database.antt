-- ===== src/Engine/Database.antt =====
-- The database of src/engine/db.go: 256 shards, of which the hash of a key chooses one, with the
-- operations `clear` and `forEach` of src/engine/shard.go. The hash is FNV-1a of the Go library, and a
-- parameter. Shards are replayed and cleared in parallel in the code; they share nothing but an error.
use kvgo.Common.{
  Bool, List, Option, [], ap, bytes_beq, bytes_beq_iff, bytes_eq, false, if◌then◌else◌, length,
  lookup, lookup-insert, none, refl, some, suc, true, zero, ℕ, ◌%◌, ◌&&◌, ◌==◌, ◌∷◌, ◌≡◌, ◌∙◌, inl,
  inr, Bool-cases, ==_iff, sym,
}
use kvgo.Engine.Index.{
  EngineWal, new_engine_wal, ValueRead, value, invalid_read, end_of_file, corruption,
}
use kvgo.Engine.Shard.{
  Entries, ValueEntry, Shard, new_shard, replay_shard, Got, found, missing, unreadable, got, get,
  get_entry, get_value, put_internal, put_async, WriteRequest, add_key,
}

-- Both files are removed and made anew.
unfoldable pub clear : Shard → Shard
clear s = record s {
  entries = [];
  wal = new_engine_wal [] [];
  key_bytes_in_ram = 0;
  num_keys = 0;
  index_bytes_on_disk = 0;
  value_offset = 0;
}

-- What an iteration leaves: the caller's state, the entries with the values that were read, and the
-- files. `stopped` is a false answer of the caller's function, `broken` the error of a read.
pub data Visited (B : Type 0) : Type 0 where
  visited stopped : B → Entries → EngineWal → Visited B
  broken : ValueRead → B → Entries → EngineWal → Visited B

module _ {B : Type 0} where
  abbrev pub behind : List ℕ → ValueEntry → Visited B → Visited B
  behind k ve (visited b m w) = visited b ((k, ve) ∷ m) w
  behind k ve (stopped b m w) = stopped b ((k, ve) ∷ m) w
  behind k ve (broken failure b m w) = broken failure b ((k, ve) ∷ m) w

  abbrev pub visit_next :
      (List ℕ → List ℕ → B → B × Bool)
      → List ℕ
      → Entries
      → B
      → (B → EngineWal → Visited B)
      → ValueRead × (ValueEntry × EngineWal)
      → Visited B
  visit_next fn k m b next (value bytes, (ve, w)) =
      let (b1, more) = fn k bytes b in
      let rest = next b1 w in if more then behind k ve rest else stopped b1 ((k, ve) ∷ m) w
  visit_next fn k m b next (failure, (ve, w)) = broken failure b ((k, ve) ∷ m) w

  unfoldable pub for_each : (List ℕ → List ℕ → B → B × Bool) → B → Entries → EngineWal → Visited B
  for_each fn b [] w = visited b [] w
  for_each fn b ((k, ve) ∷ m) w =
      visit_next fn k m b (λ b1 w1. for_each fn b1 m w1) (get_value ve w)

abbrev pub num_shards : ℕ
num_shards = 256

-- The shard of each index below `num_shards`.
abbrev pub Database : Type 0
Database = ℕ → Shard

abbrev pub all_below : ℕ → (ℕ → Bool) → Bool
all_below zero p = true
all_below (suc n) p = p n && all_below n p

-- `NewDBWithOptions` on the files of the shards: none where the replay of a shard fails.
unfoldable pub new_database : (ℕ → List ℕ × List ℕ) → Option Database
new_database files =
    let opened : ℕ → Shard × Bool = λ i. replay_shard (new_shard (files i).0 (files i).1) in
    if all_below num_shards (λ i. (opened i).1) then some (λ i. (opened i).0) else none

unfoldable pub clear_database : Database → Database
clear_database db = λ i. clear (db i)

abbrev pub set_shard : ℕ → Shard → Database → Database
set_shard i s db = λ j. if i == j then s else db j

-- A read that fails answers as for a missing key.
abbrev pub answered : Got → Option (List ℕ)
answered (found bytes) = some bytes
answered missing = none
answered (unreadable failure) = none

add_key-wal : (o : Option ValueEntry) (k : List ℕ) (s : Shard) → (add_key o k s).wal ≡ s.wal
add_key-wal none k s = refl
add_key-wal (some ve) k s = refl

got-answer :
    (j : List ℕ) (s t : Shard) (p : ValueRead × (ValueEntry × EngineWal))
    → (got j s p).0 ≡ (got j t p).0
got-answer j s t (value bytes, (ve, w)) = refl
got-answer j s t (invalid_read, (ve, w)) = refl
got-answer j s t (end_of_file, (ve, w)) = refl
got-answer j s t (corruption, (ve, w)) = refl

-- The answer of a read depends on the entry and the files only.
get_entry-answer :
    (j : List ℕ) (s t : Shard) (o : Option ValueEntry)
    → s.wal ≡ t.wal
    → (get_entry j s o).0 ≡ (get_entry j t o).0
get_entry-answer j s t none h = refl
get_entry-answer j s t (some ve) h =
    ap (λ (w : EngineWal). (got j s (get_value ve w)).0) h ∙ got-answer j s t (get_value ve t.wal)

get-put_internal :
    (k j v : List ℕ) (s : Shard)
    → (get j (put_internal k v s)).0 ≡ (if bytes_beq k j then found v else (get j s).0)
unfolding get put_internal get_value
get-put_internal k j v s =
    rw (lookup-insert k j (record { payload = some v; size = length v; offset = 0 }) s.entries)
      (elim (Bool-cases (bytes_beq k j)) [
        | inl same ↦ rw same refl
        | inr other ↦ rw other (
            get_entry-answer j (put_internal k v s) s (lookup j s.entries)
              (add_key-wal (lookup k s.entries) k s))
      ])

answered_if :
    (b : Bool) (g h : Got) → answered (if b then g else h) ≡ (if b then answered g else answered h)
answered_if true g h = refl
answered_if false g h = refl

module _ (hash : List ℕ → ℕ) where
  abbrev pub shard_of : List ℕ → ℕ
  shard_of key = hash key % num_shards

  unfoldable pub database_get : List ℕ → Database → Option (List ℕ) × Database
  database_get key db =
      let (g, s) = get key (db (shard_of key)) in (answered g, set_shard (shard_of key) s db)

  -- The request goes to the committer of the shard.
  unfoldable pub database_put_async : List ℕ → List ℕ → Database → Database × (ℕ × WriteRequest)
  database_put_async key bytes db =
      let (s, request) = put_async key bytes (db (shard_of key)) in
      (set_shard (shard_of key) s db, (shard_of key, request))

  get-set_shard :
      (k j v : List ℕ) (db : Database) (here : Bool)
      → (shard_of k == shard_of j) ≡ here
      → (get j (set_shard (shard_of k) (put_internal k v (db (shard_of k))) db (shard_of j))).0
        ≡ (if bytes_beq k j then found v else (get j (db (shard_of j))).0)
  get-set_shard k j v db true h = rw h (
      get-put_internal k j v (db (shard_of k))
      ∙ ap (λ (i : ℕ). if bytes_beq k j then found v else (get j (db i)).0)
          ((==_iff (shard_of k) (shard_of j)).0 h))
  get-set_shard k j v db false h = elim (Bool-cases (bytes_beq k j)) [
    | inl same ↦
        let equal =
          (==_iff (shard_of k) (shard_of j)).1 (ap shard_of ((bytes_beq_iff k j).0 same)) in
        absurd (differs (sym equal ∙ h))
    | inr other ↦ rw (h, other) refl
  ]
    where
      differs : true ≡ false → ⊥
      differs e = cc

  -- After a put that does not wait, a read of its key finds its value, and a read of any other key, of
  -- the same shard or not, answers as before.
  pub database_get-database_put_async :
      (k j v : List ℕ) (db : Database)
      → (database_get j (database_put_async k v db).0).0
        ≡ (if bytes_beq k j then some v else (database_get j db).0)
  unfolding database_get database_put_async put_async
  database_get-database_put_async k j v db =
      ap answered (get-set_shard k j v db (shard_of k == shard_of j) refl)
      ∙ answered_if (bytes_beq k j) (found v) (get j (db (shard_of j))).0
