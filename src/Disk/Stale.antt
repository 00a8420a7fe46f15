-- ===== src/Disk/Stale.antt =====
-- Overwritten entries that come back after a compaction.
use kvgo.Common.{List, [], arith, insert, nat_eq, refl, ret, some, true, ℕ, ◌+◌, ◌∷◌, ◌≡◌}
use kvgo.Pb.{Entry, HardState, SnapshotMeta}
use kvgo.Codec.{encode_save_batch}
use kvgo.Segments.Scanning.{run_batches}
use kvgo.Durable.{
  DurableStorage, ok, first_index, last_index, retained, filter_retained_entries,
  truncate_and_append, compact_to, compact,
}
use kvgo.Disk.{fresh_storage, replay_batch}
use kvgo.Disk.Saves.{Fits, filter_above, replay_batch-encode}

-- Two saved batches: two entries, and one that overwrites both.
abbrev pub two_batches : HardState → HardState → Entry → Entry → Entry → List (List ℕ)
two_batches h1 h2 a1 a2 b1 =
    encode_save_batch h1 (a1 ∷ a2 ∷ []) ∷ encode_save_batch h2 (b1 ∷ []) ∷ []

abbrev pub rebuilt : ℕ → SnapshotMeta → HardState → List Entry → DurableStorage
rebuilt threshold snap hard es = record (fresh_storage threshold snap) { hd = hard; entries = es }

module _ (seq threshold : ℕ) (snap : SnapshotMeta) (h1 h2 : HardState) (a1 a2 b1 : Entry)
    (i1 : a1.index ≡ snap.last_included_index + 1) (i2 : a2.index ≡ snap.last_included_index + 2)
    (i3 : b1.index ≡ snap.last_included_index + 1) (f1 : Fits h1 (a1 ∷ a2 ∷ []))
    (f2 : Fits h2 (b1 ∷ [])) where
  start_put :
      truncate_and_append (a1 ∷ a2 ∷ []) (rebuilt threshold snap h1 [])
      ≡ ret (ok (rebuilt threshold snap h1 (a1 ∷ a2 ∷ [])))
  unfolding truncate_and_append
  start_put = ground (arith, i1)

  overwrite_put :
      truncate_and_append (b1 ∷ []) (rebuilt threshold snap h2 (a1 ∷ a2 ∷ []))
      ≡ ret (ok (rebuilt threshold snap h2 (b1 ∷ [])))
  unfolding truncate_and_append first_index last_index
  overwrite_put = ground (arith, i1, i2, i3)

  both_replayed :
      run_batches (replay_batch seq) (two_batches h1 h2 a1 a2 b1) (fresh_storage threshold snap, [])
      ≡ some (rebuilt threshold snap h2 (b1 ∷ []), insert seq b1.index (insert seq a2.index []))
  both_replayed =
      rw
        (
          replay_batch-encode seq h1 (a1 ∷ a2 ∷ []) (fresh_storage threshold snap) [] f1,
          filter_above snap.last_included_index (a1 ∷ a2 ∷ []) (omega (arith, i1)),
          start_put,
          replay_batch-encode seq h2 (b1 ∷ []) (rebuilt threshold snap h1 (a1 ∷ a2 ∷ []))
              (insert seq a2.index []) f2,
          filter_above snap.last_included_index (b1 ∷ []) (omega (arith, i3)),
          overwrite_put,
        )
        refl

  -- The snapshot that a compaction to the overwriting entry makes.
  abbrev pub next_snap : SnapshotMeta
  next_snap = record {
    last_included_index = snap.last_included_index + 1;
    last_included_term = b1.term;
  }

  compacted :
      compact true (snap.last_included_index + 1) (rebuilt threshold snap h2 (b1 ∷ []))
      ≡ ret (ok (rebuilt threshold next_snap h2 []))
  unfolding compact compact_to first_index last_index retained
  compacted = ground (arith, i3)

  kept_first : filter_retained_entries (a1 ∷ a2 ∷ []) (snap.last_included_index + 1) ≡ a2 ∷ []
  unfolding filter_retained_entries retained
  kept_first = ground (arith, i1, i2)

  kept_second : filter_retained_entries (b1 ∷ []) (snap.last_included_index + 1) ≡ []
  unfolding filter_retained_entries retained
  kept_second = ground (arith, i3)

  start_again :
      truncate_and_append (a2 ∷ []) (rebuilt threshold next_snap h1 [])
      ≡ ret (ok (rebuilt threshold next_snap h1 (a2 ∷ [])))
  unfolding truncate_and_append
  start_again = ground (arith, i2)

  -- Let the log's file hold a batch of two entries, and a batch of one that overwrites both, and let
  -- their numbers fit. Replaying these gives the overwriting entry alone, and a compaction to it
  -- succeeds and leaves no entries in memory. But replaying the same file with the new snapshot brings
  -- back the second of the overwritten entries: a restart does not find the state that was in memory.
  pub compact-stale :
      (run_batches
          (replay_batch seq)
          (two_batches h1 h2 a1 a2 b1)
          (fresh_storage threshold snap, [])
        ≡ some (rebuilt threshold snap h2 (b1 ∷ []), insert seq b1.index (insert seq a2.index [])))
      × (compact true (snap.last_included_index + 1) (rebuilt threshold snap h2 (b1 ∷ []))
          ≡ ret (ok (rebuilt threshold next_snap h2 [])))
      × (run_batches
            (replay_batch seq)
            (two_batches h1 h2 a1 a2 b1)
            (fresh_storage threshold next_snap, [])
          ≡ some (
            rebuilt threshold next_snap h2 (a2 ∷ []),
            insert seq b1.index (insert seq a2.index []),
          ))
  unfolding truncate_and_append
  compact-stale = (
    both_replayed,
    compacted,
    rw
        (
          replay_batch-encode seq h1 (a1 ∷ a2 ∷ []) (fresh_storage threshold next_snap) [] f1,
          kept_first,
          start_again,
          replay_batch-encode seq h2 (b1 ∷ []) (rebuilt threshold next_snap h1 (a2 ∷ []))
              (insert seq a2.index []) f2,
          kept_second,
        )
        refl,
  )
