-- ===== src/Disk.antt =====
-- `DurableStorage` of src/raft/storage.go with its files: the segments of the log, and the file of the
-- snapshot's metadata. The state in memory is `Durable`'s. Where a write of a batch succeeds, so do
-- the sync and a cut that is due; the metadata is written without failure.
pub mod Recovery
pub mod Saves
pub mod Stale
pub mod Forgets
pub mod Runs
use kvgo.Common.{
  Bool, List, Option, Outcome, [], bind_option, erase, false, get_last?, if◌then◌else◌, insert,
  lookup, ltb, nat_eq, none, panic, ret, some, true, ℕ, ◌&&◌, ◌==◌, ◌||◌, ◌∷◌,
}
use kvgo.Pb.{Entry, HardState, SnapshotMeta}
use kvgo.Codec.{
  Decoded, decoded, encode_save_batch, decode_save_batch, encode_snapshot_meta,
  decode_snapshot_meta,
}
use kvgo.Frames.{Wal, new_wal, write, truncate}
use kvgo.Segments.{
  Sealed, SegmentedWal, write_batch, maybe_cut, Scan, scanned, torn_at, failed, stuck, scan_file,
  read_all, delete_segments, new_segmented_wal,
}
use kvgo.Durable.{
  StorageError, disk, Result, ok, err, DurableStorage, is_nil, is_empty_opt, effective,
  truncate_and_append, filter_retained_entries, apply_snapshot, compact,
}

pub record Disk : Type 0 where
  pub raft_wal : SegmentedWal
  pub snap_wal : Wal
  pub mem : DurableStorage
  pub seg_last_idx : List (ℕ × ℕ)

-- `s.segLastIdx[seg] = entries[len(entries)-1].Index`, if there are entries.
abbrev pub note_last : ℕ → Option Entry → List (ℕ × ℕ) → List (ℕ × ℕ)
note_last seq none idx = idx
note_last seq (some e) idx = insert seq e.index idx

abbrev pub with_mem : Disk → Outcome (Result DurableStorage) → Outcome (Disk × Option StorageError)
with_mem d (ret (ok m)) = ret (record d { mem = m }, none)
with_mem d (ret (err e)) = ret (d, some e)
with_mem d panic = panic

-- `Save` after the batch was written.
abbrev pub save_written : List Entry → HardState → Disk → Outcome (Disk × Option StorageError)
save_written es hard d =
    let d1 = record d {
      seg_last_idx = note_last d.raft_wal.current_seq (get_last? es) d.seg_last_idx;
      raft_wal = maybe_cut d.raft_wal;
      mem = record (d.mem) { hd = hard };
    } in
    with_mem d1 (truncate_and_append es d1.mem)

-- `torn` is the number of bytes that reach the file where the write fails.
unfoldable pub save :
    Option ℕ → List Entry → Option HardState → Disk → Outcome (Disk × Option StorageError)
save torn es hard d =
    if is_nil es && is_empty_opt hard
    then ret (d, none)
    else (let hd = effective hard d.mem.hd in
        let (raft_wal, written) = write_batch torn (encode_save_batch hd es) d.raft_wal in
        if written
        then save_written es hd (record d { raft_wal = raft_wal })
        else ret (record d { raft_wal = raft_wal }, some disk))

-- What `replay` has rebuilt so far.
abbrev pub Replay : Type 0
Replay = DurableStorage × List (ℕ × ℕ)

abbrev pub replayed_to : List (ℕ × ℕ) → Outcome (Result DurableStorage) → Option Replay
replayed_to idx (ret (ok m)) = some (m, idx)
replayed_to idx (ret (err e)) = none
replayed_to idx panic = none

abbrev pub replay_decoded : ℕ → Decoded (HardState × List Entry) → Replay → Option Replay
replay_decoded seq (decoded (hd, es)) (m, idx) = replayed_to (note_last seq (get_last? es) idx) (
    truncate_and_append (filter_retained_entries es m.snap.last_included_index)
      (record m { hd = hd }))
replay_decoded seq _ s = none

-- The callback of `replayLog`; `none` for an error or a panic.
unfoldable pub replay_batch : ℕ → List ℕ → Replay → Option Replay
replay_batch seq b s = replay_decoded seq (decode_save_batch b) s

abbrev pub snapshot_read : Wal → Scan SnapshotMeta → Option (SnapshotMeta × Wal)
snapshot_read w (scanned snap) = some (snap, w)
snapshot_read w (torn_at pos snap) = some (snap, truncate pos w)
snapshot_read w failed = none
snapshot_read w stuck = none

-- The last of the file's records is the snapshot.
unfoldable pub replay_snapshot_meta : Wal → Option (SnapshotMeta × Wal)
replay_snapshot_meta w = snapshot_read w (
    scan_file (λ b snap. decode_snapshot_meta b) w
      (record { last_included_index = 0; last_included_term = 0 }))

abbrev pub default_compact_threshold : ℕ
default_compact_threshold = 10000

abbrev pub fresh_storage : ℕ → SnapshotMeta → DurableStorage
fresh_storage threshold snap = record {
  hd = record { term = 0; voted_for = 0; committed_index = 0 };
  entries = [];
  snap = snap;
  compact_threshold = threshold;
}

abbrev pub opened : Wal → Option (Replay × SegmentedWal) → Option Disk
opened snap_wal none = none
opened snap_wal (some ((m, idx), raft_wal)) =
    some (record { raft_wal = raft_wal; snap_wal = snap_wal; mem = m; seg_last_idx = idx })

-- `replay` on files that were just opened.
unfoldable pub replay : ℕ → SegmentedWal → Wal → Option Disk
replay threshold raft_wal snap_wal =
    bind_option (replay_snapshot_meta snap_wal)
      (λ p. opened p.1 (read_all replay_batch raft_wal (fresh_storage threshold p.0, [])))

-- `NewDurableStorageWithOptions` on a directory with these segments and this metadata.
unfoldable pub new_durable_storage : ℕ → ℕ → List Sealed → List ℕ → Option Disk
new_durable_storage segment_limit threshold segments snap =
    replay (if threshold == 0 then default_compact_threshold else threshold)
      (new_segmented_wal segment_limit segments) (new_wal snap)

unfoldable pub persist_snapshot_meta : SnapshotMeta → Wal → Wal
persist_snapshot_meta snap w = (write none (encode_snapshot_meta snap) (truncate 0 w)).0

abbrev pub add_old : ℕ → ℕ → Option ℕ → List ℕ → List ℕ
add_old boundary seq none rest = seq ∷ rest
add_old boundary seq (some last) rest = if ltb boundary last then [] else seq ∷ rest

-- The oldest segments with no entry above the boundary; a segment without entries counts too.
unfoldable pub old_segments : ℕ → List (ℕ × ℕ) → List Sealed → List ℕ
old_segments boundary idx [] = []
old_segments boundary idx (g ∷ gs) =
    let rest = old_segments boundary idx gs in add_old boundary g.seq (lookup g.seq idx) rest

abbrev pub contains : ℕ → List ℕ → Bool
contains n [] = false
contains n (m ∷ ms) = (m == n) || contains n ms

abbrev pub erase_all : List ℕ → List (ℕ × ℕ) → List (ℕ × ℕ)
erase_all [] idx = idx
erase_all (n ∷ ns) idx = erase_all ns (erase n idx)

unfoldable pub delete_old_segments : Disk → Disk
delete_old_segments d =
    let old = old_segments d.mem.snap.last_included_index d.seg_last_idx d.raft_wal.sealed in
    record d {
      raft_wal = delete_segments (λ seq. contains seq old) d.raft_wal;
      seg_last_idx = erase_all old d.seg_last_idx;
    }

abbrev pub compacted_to :
    Disk → Outcome (Result DurableStorage) → Outcome (Disk × Option StorageError)
compacted_to d (ret (ok m)) = ret (
  delete_old_segments (record d { mem = m; snap_wal = persist_snapshot_meta m.snap d.snap_wal }),
  none,
)
compacted_to d (ret (err e)) = ret (d, some e)
compacted_to d panic = panic

-- `compactLocked`
unfoldable pub compact_files : ℕ → Disk → Outcome (Disk × Option StorageError)
compact_files index d = compacted_to d (compact true index d.mem)

abbrev pub snapshot_applied : SnapshotMeta → Disk → DurableStorage × Bool → Disk × Bool
snapshot_applied snap d (m, true) =
    (record d { mem = m; snap_wal = persist_snapshot_meta snap d.snap_wal }, true)
snapshot_applied snap d (m, false) = (d, false)

unfoldable pub apply_snapshot_files : SnapshotMeta → Disk → Disk × Bool
apply_snapshot_files snap d = snapshot_applied snap d (apply_snapshot true snap d.mem)
