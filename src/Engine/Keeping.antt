-- ===== src/Engine/Keeping.antt =====
-- Reads after a cleanup.
use kvgo.Common.{
  All, Bool-cases, List, Option, [], ap, arith, bytes_beq, bytes_beq_iff, bytes_eq, inl, inr,
  length, lookup, none, refl, some, subst, sym, true, u64_mod, ℕ, ◌<◌, ◌∙◌, ◌∷◌, ◌≡◌,
}
use kvgo.Engine.Index.{new_engine_wal}
use kvgo.Engine.Shard.{Entries, Shard, get, WriteRequest, batch_values}
use kvgo.Engine.Placing.{last_put, Places, batch_entries, batch_index-eq, Places-batch}
use kvgo.Engine.Durability.{Loaded, IsStored, IsLoaded, IsSized, batch_entries-IsSmall}
use kvgo.Engine.Restart.{get-IsLoaded, restarted, restarted-get}
use kvgo.Engine.Rewriting.{
  moved, update_offsets, update_shard_after_cleanup, both, done, begin_cleanup, do_cleanup,
}
use kvgo.Engine.Cleaning.{
  Distinct, AllLoaded, payload_or, requests, contents, IsShort, clean_all, clean_all-Adds,
  write_cleanup_data-loaded,
}

last_put-absent :
    (k : List ℕ) (m : Entries) (old : Option (List ℕ))
    → lookup k m ≡ none
    → last_put k (contents m) old ≡ old
last_put-absent k [] old h = refl
last_put-absent k ((j, ve) ∷ m) old h = elim (Bool-cases (bytes_beq j k)) [
  | inl same ↦ absurd (differs (rw same at h))
  | inr other ↦ rw (other, last_put) (last_put-absent k m old (rw other at h))
]
  where
    differs : some ve ≡ none → ⊥
    differs e = cc

-- The contents of a map have the value of each of its keys.
contents-Loaded :
    (m : Entries) (k : List ℕ)
    → Distinct m
    → AllLoaded m
    → Loaded (lookup k m) (last_put k (contents m) none)
contents-Loaded [] k d h = tt
contents-Loaded ((j, ve) ∷ m) k d h = elim (Bool-cases (bytes_beq j k)) [
  | inl same ↦
      let (v, e) = h.0 in
      let absent : lookup k m ≡ none =
        subst (λ (x : List ℕ). lookup x m ≡ none) ((bytes_beq_iff j k).0 same) d.0 in
      rw (same, last_put, last_put-absent k m (some (payload_or ve.payload)) absent)
        (e ∙ ap some (rw e refl))
  | inr other ↦ rw (other, last_put) (contents-Loaded m k d.1 h.1)
]

-- New offsets leave the values alone.
update_offsets-Loaded :
    (offsets : List (List ℕ × ℕ)) (m : Entries) (k : List ℕ) (v : Option (List ℕ))
    → Loaded (lookup k m) v
    → Loaded (lookup k (update_offsets offsets m)) v
unfolding update_offsets
update_offsets-Loaded offsets [] k v h = h
update_offsets-Loaded offsets ((j, ve) ∷ m) k v h = elim (Bool-cases (bytes_beq j k)) [
  | inl same ↦ rw same (go (lookup j offsets) v (rw same at h))
  | inr other ↦ rw other (update_offsets-Loaded offsets m k v (rw other at h))
]
  where
    go : (o : Option ℕ) (v : Option (List ℕ)) → Loaded (some ve) v → Loaded (some (moved o ve)) v
    go none v l = l
    go (some offset) none l = l
    go (some offset) (some bytes) l = l

module _ (s : Shard) (distinct : Distinct s.entries) (loaded : AllLoaded s.entries)
    (short : All IsShort (requests s.entries)) (sized : All IsSized (requests s.entries))
    (fits : length (batch_values (requests s.entries)) < u64_mod) where
  abbrev rs : List WriteRequest
  rs = requests s.entries

  -- The shard after the cleanup.
  abbrev after : Shard
  after = update_shard_after_cleanup s.entries (clean_all rs (begin_cleanup [] [])) s

  do_cleanup_eq : do_cleanup [] [] both s ≡ (after, done)
  unfolding do_cleanup
  do_cleanup_eq =
      rw (write_cleanup_data-loaded s.entries s.wal (begin_cleanup [] []) loaded short) refl

  after-IsStored : IsStored after (contents s.entries)
  unfolding update_shard_after_cleanup new_engine_wal
  after-IsStored =
      let adds = clean_all-Adds rs (begin_cleanup [] []) in
      record {
        ies = batch_entries 0 rs;
        index_lem = adds.index_lem ∙ batch_index-eq 0 rs;
        small = batch_entries-IsSmall 0 rs sized (omega (arith, fits));
        places =
            subst (Places (batch_entries 0 rs) (contents s.entries)) (sym adds.value_lem)
              (Places-batch [] [] [] rs 0 refl tt);
        offset_lem = omega (arith, adds.offset_lem, ap length adds.value_lem);
      }

  after-IsLoaded : IsLoaded after (contents s.entries)
  unfolding update_shard_after_cleanup
  after-IsLoaded = λ k.
      update_offsets-Loaded (clean_all rs (begin_cleanup [] [])).new_offsets s.entries k _
        (contents-Loaded s.entries k distinct loaded)

  -- Let every value of a shard be in memory and its keys be different, let each key have at most
  -- 1048560 bytes, each value less than 2 ^ 32 and all values together less than 2 ^ 64, and let no
  -- temporary files be left over. Then a cleanup that swaps both files succeeds, and reads of any key
  -- answer as before the cleanup, and so does the first read after a restart, which succeeds.
  pub do_cleanup-get :
      (k : List ℕ)
      → (s' : Shard) × (do_cleanup [] [] both s ≡ (s', done))
        × ((get k s').0 ≡ (get k s).0)
        × ((restarted s').1 ≡ true)
        × ((get k (restarted s').0).0 ≡ (get k s).0)
  do_cleanup-get k =
      let before =
        get-IsLoaded s (contents s.entries) k (λ j. contents-Loaded s.entries j distinct loaded) in
      let (opens, reads) = restarted-get after (contents s.entries) k after-IsStored in
      (
        after,
        do_cleanup_eq,
        get-IsLoaded after (contents s.entries) k after-IsLoaded ∙ sym before,
        opens,
        reads ∙ sym before,
      )
