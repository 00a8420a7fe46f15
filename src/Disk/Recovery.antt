-- ===== src/Disk/Recovery.antt =====
-- What a restart finds: the state that was saved, also where the last write broke off.
use kvgo.Common.{
  Bool-cases, List, Option, [], ap, inl, inr, leb, length, none, refl, some, subst, sym, take, ℕ,
  ◌++◌, ◌+◌, ◌<◌, ◌∙◌, ◌∷◌, ◌≡◌,
}
use mathlib.Core.List.{append-nil}
use kvgo.Pb.{Entry, HardState}
use kvgo.Frames.{Wal, new_wal, frame, truncate}
use kvgo.Frames.Reading.{at_position, frame_limit}
use kvgo.Segments.{SegmentedWal, cut, maybe_cut, scanned, failed, scan_file, read_sealed, read_all}
use kvgo.Segments.Scanning.{
  frames, run_batches, AllSmall, IsFile, IsFile-append, IsFile-truncate, frames-append,
  run_batches-append, AllSmall-append, read_sealed-append, scan_file-whole, scan_file-torn,
}
use kvgo.Disk.{Disk, Replay, replay_batch, fresh_storage}

-- The files of the log hold whole batches, and replaying these gives the state in memory.
pub record IsPersisted (d : Disk) : Type 0 where
  pub before : Replay
  pub sealed_lem :
      read_sealed replay_batch d.raft_wal.sealed
        (fresh_storage d.mem.compact_threshold d.mem.snap, [])
      ≡ scanned before
  pub batches : List (List ℕ)
  pub small : AllSmall batches
  pub file : IsFile d.raft_wal.current (frames batches)
  pub replayed :
      run_batches (replay_batch d.raft_wal.current_seq) batches before
      ≡ some (d.mem, d.seg_last_idx)

-- What `replayLog` rebuilds, with the files it leaves.
abbrev pub replay_log : Disk → Option (Replay × SegmentedWal)
replay_log d =
    read_all replay_batch d.raft_wal (fresh_storage d.mem.compact_threshold d.mem.snap, [])

-- A replay of the log of a persisted state rebuilds that state, and leaves the files alone.
pub replay_log-IsPersisted :
    (d : Disk) → IsPersisted d → replay_log d ≡ some ((d.mem, d.seg_last_idx), d.raft_wal)
unfolding read_all
replay_log-IsPersisted d h =
    rw
      (
        h.sealed_lem,
        scan_file-whole (replay_batch d.raft_wal.current_seq) h.batches d.raft_wal.current h.before
            h.small h.file,
        h.replayed,
      )
      refl

-- The state with more bytes at the end of the current segment.
abbrev pub appended : Disk → List ℕ → Disk
appended d bytes = record d {
  raft_wal = record (d.raft_wal) {
    current = record (d.raft_wal.current) {
      content = d.raft_wal.current.content ++ bytes;
      size = d.raft_wal.current.size + length bytes;
    };
  };
}

-- The batches and the state in memory keep their place where a torn frame is cut off.
abbrev pub repaired : Disk → ℕ → Disk
repaired d good_pos = record d {
  raft_wal = record (d.raft_wal) { current = truncate good_pos d.raft_wal.current };
}

module _ (d : Disk) (h : IsPersisted d) where
  -- A frame that was only begun is cut off by the replay, which rebuilds the state without it.
  pub replay_log-torn :
      (k : ℕ) (b : List ℕ)
      → length b < frame_limit
      → 0 < k
      → k < length (frame b)
      → (replay_log (appended d (take k (frame b)))
          ≡ some (
            (d.mem, d.seg_last_idx),
            (repaired (appended d (take k (frame b))) (length (frames h.batches))).raft_wal,
          ))
        × IsPersisted (repaired (appended d (take k (frame b))) (length (frames h.batches)))
  unfolding read_all
  replay_log-torn k b small pos short =
      let file = IsFile-append d.raft_wal.current (frames h.batches) (take k (frame b)) h.file in
      (
        rw
            (
              h.sealed_lem,
              scan_file-torn (replay_batch d.raft_wal.current_seq) h.batches b k
                  (appended d (take k (frame b))).raft_wal.current h.before h.small small pos short
                  file,
              h.replayed,
            )
            refl,
        record {
          before = h.before;
          sealed_lem = h.sealed_lem;
          batches = h.batches;
          small = h.small;
          file = IsFile-truncate _ (frames h.batches) (take k (frame b)) file;
          replayed = h.replayed;
        },
      )

  appended-IsFile :
      (b : List ℕ) → IsFile (appended d (frame b)).raft_wal.current (frames (h.batches ++ b ∷ []))
  appended-IsFile b =
      subst (IsFile _)
        (ap (λ (xs : List ℕ). frames h.batches ++ xs) (sym (append-nil (frame b)))
          ∙ sym (frames-append h.batches (b ∷ [])))
        (IsFile-append d.raft_wal.current (frames h.batches) (frame b) h.file)

  -- A batch that was written whole, with the state that its replay leads to.
  pub IsPersisted-write :
      (b : List ℕ) (hd : HardState) (es : List Entry) (idx : List (ℕ × ℕ))
      → length b < frame_limit
      → replay_batch d.raft_wal.current_seq b (d.mem, d.seg_last_idx)
        ≡ some (record (d.mem) { hd = hd; entries = es }, idx)
      → IsPersisted (record (appended d (frame b)) {
        mem = record (d.mem) { hd = hd; entries = es };
        seg_last_idx = idx;
      })
  IsPersisted-write b hd es idx small eq = record {
    before = h.before;
    sealed_lem = h.sealed_lem;
    batches = h.batches ++ b ∷ [];
    small = AllSmall-append h.batches (b ∷ []) h.small (small, tt);
    file = appended-IsFile b;
    replayed =
        run_batches-append (replay_batch d.raft_wal.current_seq) h.batches (b ∷ []) h.before
        ∙ rw (h.replayed, eq) refl;
  }

  IsPersisted-cut : IsPersisted (record d { raft_wal = cut d.raft_wal })
  unfolding cut new_wal
  IsPersisted-cut = record {
    before = (d.mem, d.seg_last_idx);
    sealed_lem =
        read_sealed-append replay_batch d.raft_wal.sealed _ _ h.before h.sealed_lem
        ∙ rw
            (
              scan_file-whole (replay_batch d.raft_wal.current_seq) h.batches
                  (new_wal d.raft_wal.current.content) h.before h.small
                  (record { bytes_lem = h.file.bytes_lem; size_lem = ap length h.file.bytes_lem }),
              h.replayed,
            )
            refl;
    batches = [];
    small = tt;
    file = record { bytes_lem = refl; size_lem = refl };
    replayed = refl;
  }

  pub IsPersisted-maybe_cut : IsPersisted (record d { raft_wal = maybe_cut d.raft_wal })
  unfolding maybe_cut
  IsPersisted-maybe_cut = elim (Bool-cases (leb d.raft_wal.segment_limit d.raft_wal.current.size)) [
    | inl due ↦ rw due IsPersisted-cut
    | inr early ↦ rw early h
  ]

  scan-refused :
      (b : List ℕ) (w : Wal)
      → length b < frame_limit
      → replay_batch d.raft_wal.current_seq b (d.mem, d.seg_last_idx) ≡ none
      → IsFile w (frames (h.batches ++ b ∷ []))
      → scan_file (replay_batch d.raft_wal.current_seq) (at_position 0 w) h.before ≡ failed
  scan-refused b w small refused file =
      scan_file-whole (replay_batch d.raft_wal.current_seq) (h.batches ++ b ∷ []) w h.before
        (AllSmall-append h.batches (b ∷ []) h.small (small, tt)) file
      ∙ rw
          (
            run_batches-append (replay_batch d.raft_wal.current_seq) h.batches (b ∷ []) h.before,
            h.replayed,
            refused,
          )
          refl

  -- A batch that was written whole, and that the replay refuses.
  pub replay_log-refused :
      (b : List ℕ) (idx : List (ℕ × ℕ)) (hd : HardState)
      → length b < frame_limit
      → replay_batch d.raft_wal.current_seq b (d.mem, d.seg_last_idx) ≡ none
      → replay_log (record (appended d (frame b)) {
        raft_wal = maybe_cut (appended d (frame b)).raft_wal;
        seg_last_idx = idx;
        mem = record (d.mem) { hd = hd };
      })
        ≡ none
  unfolding read_all maybe_cut cut new_wal
  replay_log-refused b idx hd small refused =
      let w = (appended d (frame b)).raft_wal in
      let file = appended-IsFile b in
      let again : IsFile (new_wal w.current.content) (frames (h.batches ++ b ∷ [])) = record {
        bytes_lem = file.bytes_lem;
        size_lem = ap length file.bytes_lem;
      } in
      elim (Bool-cases (leb w.segment_limit w.current.size)) [
        | inl due ↦ rw due (
            rw
              (
                read_sealed-append replay_batch d.raft_wal.sealed
                    (record { seq = w.current_seq; content = w.current.content }) _ h.before
                    h.sealed_lem,
                scan-refused b (new_wal w.current.content) small refused again,
              )
              refl)
        | inr early ↦ rw early (rw (h.sealed_lem, scan-refused b w.current small refused file) refl)
      ]
