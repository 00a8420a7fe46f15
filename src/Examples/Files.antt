-- ===== src/Examples/Files.antt =====
-- The files of the durable storage on concrete values.
use kvgo.Common.{List, [], arith, none, refl, ret, some, true, zero, ◌+◌, ◌∷◌, ◌≡◌, ◌≢◌}
use kvgo.Pb.{Entry, HardState, SnapshotMeta}
use kvgo.Codec.{encode_save_batch, frames_size, entry_size, le_bytes}
use kvgo.Frames.{new_wal, frame}
use kvgo.Segments.{scan_file, stuck, read_sealed}
use kvgo.Segments.Scanning.{run_batches}
use kvgo.Segments.Ending.{scan_file-ne-stuck}
use kvgo.Durable.{ok, disk, truncate_and_append, compact}
use kvgo.Disk.{Disk, fresh_storage, replay_batch, save, delete_old_segments}
use kvgo.Disk.Recovery.{IsPersisted, replay_log}
use kvgo.Disk.Saves.{Fits, save-torn, save-replay_log, with_hard_state}
use kvgo.Disk.Runs.{Run, here, completed, restarted, put_all, Run-replay_log}
use kvgo.Disk.Stale.{compact-stale, two_batches, rebuilt}
use kvgo.Disk.Forgets.{delete_old_segments-forgets}
use kvgo.Examples.Values.{entry}

abbrev no_snapshot : SnapshotMeta
no_snapshot = record { last_included_index = 0; last_included_term = 0 }

-- A directory that was just set up, with one empty segment.
abbrev new_disk : Disk
new_disk = record {
  raft_wal = record {
    segment_limit = 100;
    sealed = [];
    current_seq = 0;
    current = record { content = []; size = 0; position = 0 };
  };
  snap_wal = record { content = []; size = 0; position = 0 };
  mem = fresh_storage 5 no_snapshot;
  seg_last_idx = [];
}

new_disk-IsPersisted : IsPersisted new_disk
unfolding read_sealed
new_disk-IsPersisted = record {
  before = (fresh_storage 5 no_snapshot, []);
  sealed_lem = refl;
  batches = [];
  small = tt;
  file = record { bytes_lem = refl; size_lem = refl };
  replayed = refl;
}

abbrev two : List Entry
two = entry 1 1 ∷ entry 2 1 ∷ []

abbrev hard_one : HardState
hard_one = record { term = 1; voted_for = 2; committed_index = 0 }

two-Fits : Fits hard_one two
unfolding frames_size entry_size
two-Fits = record {
  term_fits = omega arith;
  vote_fits = omega arith;
  index_fits = omega arith;
  entries_fit = omega arith;
  size_fits = omega arith;
}

two_put :
    truncate_and_append two (with_hard_state new_disk (some hard_one))
    ≡ ret (ok (record (with_hard_state new_disk (some hard_one)) { entries = two }))
unfolding truncate_and_append
two_put = refl

save-replay_log_example :
    (d : Disk) × (save none two (some hard_one) new_disk ≡ ret (d, none))
    × (replay_log d ≡ some ((d.mem, d.seg_last_idx), d.raft_wal))
save-replay_log_example =
    let (d, eq, _, replayed, _) =
      save-replay_log new_disk two (some hard_one) new_disk-IsPersisted refl two-Fits two
        (omega arith) two_put in
    (d, eq, replayed)

-- Three bytes of the batch reach the file.
save-torn_example :
    (d : Disk) × (save (some 3) two (some hard_one) new_disk ≡ ret (d, some disk))
    × (d.mem ≡ new_disk.mem)
unfolding frame le_bytes
save-torn_example =
    let (d, _, eq, same, _, _) =
      save-torn new_disk two (some hard_one) new_disk-IsPersisted refl two-Fits 3 (omega arith)
        (omega arith) in
    (d, eq, same)

-- The state after the save, and a run that ends there.
two_saved :
    (d : Disk) × (save none two (some hard_one) new_disk ≡ ret (d, none))
    × (replay_log d ≡ some ((d.mem, d.seg_last_idx), d.raft_wal))
two_saved =
    let (d, eq, _, replayed, _) =
      save-replay_log new_disk two (some hard_one) new_disk-IsPersisted refl two-Fits two
        (omega arith) two_put in
    (d, eq, replayed)

two-Run : Run new_disk ((two, some hard_one) ∷ []) two_saved.0
two-Run =
    restarted
      (completed here two (some hard_one) two (record { something = refl; fits = two-Fits })
        (omega arith) two_put two_saved.1)
      two_saved.0.mem two_saved.0.seg_last_idx two_saved.0.raft_wal two_saved.2

Run-replay_log_example :
    (put_all ((two, some hard_one) ∷ []) new_disk.mem ≡ some two_saved.0.mem)
    × (replay_log two_saved.0
        ≡ some ((two_saved.0.mem, two_saved.0.seg_last_idx), two_saved.0.raft_wal))
Run-replay_log_example =
    Run-replay_log new_disk two_saved.0 ((two, some hard_one) ∷ []) new_disk-IsPersisted two-Run

one-Fits : Fits hard_one (entry 1 2 ∷ [])
unfolding frames_size entry_size
one-Fits = record {
  term_fits = omega arith;
  vote_fits = omega arith;
  index_fits = omega arith;
  entries_fit = omega arith;
  size_fits = omega arith;
}

-- The entries 1 and 2 of term 1, and an entry 1 of term 2 that overwrites them.
compact-stale_example :
    (run_batches
        (replay_batch 0)
        (two_batches hard_one hard_one (entry 1 1) (entry 2 1) (entry 1 2))
        (fresh_storage 5 no_snapshot, [])
      ≡ some (rebuilt 5 no_snapshot hard_one (entry 1 2 ∷ []), (0, 1) ∷ []))
    × (compact true 1 (rebuilt 5 no_snapshot hard_one (entry 1 2 ∷ []))
        ≡ ret (
            ok
              (rebuilt 5 (record { last_included_index = 1; last_included_term = 2 }) hard_one [])))
    × (run_batches
          (replay_batch 0)
          (two_batches hard_one hard_one (entry 1 1) (entry 2 1) (entry 1 2))
          (fresh_storage 5 (record { last_included_index = 1; last_included_term = 2 }), [])
        ≡ some (
          rebuilt 5
              (record { last_included_index = 1; last_included_term = 2 })
              hard_one
              (entry 2 1 ∷ []),
          (0, 1) ∷ [],
        ))
compact-stale_example =
    compact-stale 0 5 no_snapshot hard_one hard_one (entry 1 1) (entry 2 1) (entry 1 2) refl refl
      refl two-Fits one-Fits

-- One sealed segment, whose two entries are compacted.
abbrev old : Disk
old = record new_disk {
  raft_wal = record (new_disk.raft_wal) {
    sealed = (record { seq = 0; content = frame (encode_save_batch hard_one two) }) ∷ [];
    current_seq = 1;
  };
  mem = record (new_disk.mem) {
    hd = hard_one;
    snap = record { last_included_index = 2; last_included_term = 1 };
  };
  seg_last_idx = (0, 2) ∷ [];
}

delete_old_segments-forgets_example :
    replay_log (delete_old_segments old)
    ≡ some (
      (fresh_storage 5 (record { last_included_index = 2; last_included_term = 1 }), []),
      (delete_old_segments old).raft_wal,
    )
delete_old_segments-forgets_example =
    delete_old_segments-forgets old ((λ last e. ground arith), tt)
      (record { bytes_lem = refl; size_lem = refl })

-- A header that announces more bytes than there are.
scan_file-ne-stuck_example :
    scan_file (λ b n. some (n + 1)) (new_wal (9 ∷ 0 ∷ 0 ∷ 0 ∷ 1 ∷ [])) zero ≢ stuck
unfolding new_wal
scan_file-ne-stuck_example =
    scan_file-ne-stuck (λ b n. some (n + 1)) (new_wal (9 ∷ 0 ∷ 0 ∷ 0 ∷ 1 ∷ [])) zero refl
