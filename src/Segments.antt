-- ===== src/Segments.antt =====
-- The raft log's files, src/raft/segment.go. A file's name is `segmentName` of its number; here it is
-- the number. The number has eight digits in the name, and is taken to stay below 10 ^ 8, so that the
-- order of the names is that of the numbers.
pub mod Scanning
pub mod Ending
use kvgo.Common.{
  Bool, List, Option, [], if◌then◌else◌, leb, length, none, some, suc, zero, ℕ, ◌++◌, ◌+◌, ◌==◌,
  ◌∷◌,
}
use kvgo.Frames.{Wal, new_wal, write, Read, eof, tail_corruption, batch, read, truncate}

-- A sealed segment: its number and its bytes.
pub record Sealed : Type 0 where
  pub seq : ℕ
  pub content : List ℕ

-- `sealed` are the segments before the current one, in order.
pub record SegmentedWal : Type 0 where
  pub segment_limit : ℕ
  pub sealed : List Sealed
  pub current_seq : ℕ
  pub current : Wal

unfoldable pub write_batch : Option ℕ → List ℕ → SegmentedWal → SegmentedWal × Bool
write_batch torn b sw =
    let (w, written) = write torn b sw.current in (record sw { current = w }, written)

-- The current segment is sealed, and a new one begun.
unfoldable pub cut : SegmentedWal → SegmentedWal
cut sw = record sw {
  sealed = sw.sealed ++ (record { seq = sw.current_seq; content = sw.current.content }) ∷ [];
  current_seq = sw.current_seq + 1;
  current = new_wal [];
}

unfoldable pub maybe_cut : SegmentedWal → SegmentedWal
unfolding cut
maybe_cut sw = if leb sw.segment_limit sw.current.size then cut sw else sw

-- What `readSegmentFrames` returns with the state that its callback changed: nil, a corrupted tail
-- behind `goodPos` bytes, or the callback's error. `stuck`, which is no Go value, says that the
-- loop ran out of fuel.
pub data Scan {ℓ} (S : Type ℓ) : Type ℓ where
  scanned : S → Scan S
  torn_at : ℕ → S → Scan S
  failed stuck : Scan S

module _ {S : Type 0} where
  -- The callback returns `none` for an error.
  abbrev pub scan_batch : Option S → (S → Scan S) → Scan S
  scan_batch none next = failed
  scan_batch (some s) next = next s

  abbrev pub scan_next :
      (List ℕ → S → Option S) → ℕ → S → (List ℕ → Wal → S → Scan S) → Read × Wal → Scan S
  scan_next fn good_pos s next (eof, r) = scanned s
  scan_next fn good_pos s next (tail_corruption, r) = torn_at good_pos s
  scan_next fn good_pos s next (batch b, r) = scan_batch (fn b s) (next b r)

  unfoldable pub read_segment_frames : (List ℕ → S → Option S) → ℕ → ℕ → Wal → S → Scan S
  read_segment_frames fn zero good_pos r s = stuck
  read_segment_frames fn (suc fuel) good_pos r s =
      scan_next fn good_pos s
        (λ b r' s'. read_segment_frames fn fuel (good_pos + 4 + length b) r' s') (read r)

  -- Each round but the last takes four bytes at least.
  unfoldable pub scan_file : (List ℕ → S → Option S) → Wal → S → Scan S
  scan_file fn r s = read_segment_frames fn (suc (length r.content)) 0 r s

  -- A corrupted tail in a sealed segment is an error.
  abbrev pub and_then : Scan S → (S → Scan S) → Scan S
  and_then (scanned s) next = next s
  and_then (torn_at pos s) next = failed
  and_then failed next = failed
  and_then stuck next = stuck

  unfoldable pub read_sealed : (ℕ → List ℕ → S → Option S) → List Sealed → S → Scan S
  read_sealed fn [] s = scanned s
  read_sealed fn (g ∷ gs) s =
      and_then (scan_file (fn g.seq) (new_wal g.content) s) (λ s'. read_sealed fn gs s')

  -- In the current segment, a corrupted tail is cut off.
  abbrev pub repair : SegmentedWal → Scan S → Option (S × SegmentedWal)
  repair sw (scanned s) = some (s, sw)
  repair sw (torn_at pos s) = some (s, record sw { current = truncate pos sw.current })
  repair sw failed = none
  repair sw stuck = none

  abbrev pub read_current :
      (ℕ → List ℕ → S → Option S) → SegmentedWal → Scan S → Option (S × SegmentedWal)
  read_current fn sw (scanned s) =
      repair sw (scan_file (fn sw.current_seq) (record (sw.current) { position = 0 }) s)
  read_current fn sw _ = none

  -- `none` for an error; where the current segment is read to its end, its read position is not
  -- recorded, since the next read starts from 0 again.
  -- The callback also gets the number of the segment.
  unfoldable pub read_all :
      (ℕ → List ℕ → S → Option S) → SegmentedWal → S → Option (S × SegmentedWal)
  read_all fn sw s = read_current fn sw (read_sealed fn sw.sealed s)

-- The current segment always stays.
unfoldable pub delete_sealed : (ℕ → Bool) → List Sealed → List Sealed
delete_sealed should_delete [] = []
delete_sealed should_delete (g ∷ gs) =
    let kept = delete_sealed should_delete gs in if should_delete g.seq then kept else g ∷ kept

unfoldable pub delete_segments : (ℕ → Bool) → SegmentedWal → SegmentedWal
delete_segments should_delete sw = record sw { sealed = delete_sealed should_delete sw.sealed }

-- `newSegmentedWAL` over the segments that the directory has, in order.
abbrev pub default_segment_limit : ℕ
default_segment_limit = 64000000

abbrev pub open_last : ℕ → List Sealed → Sealed → List Sealed → SegmentedWal
open_last limit before g [] = record {
  segment_limit = limit;
  sealed = before;
  current_seq = g.seq;
  current = new_wal g.content;
}
open_last limit before g (g' ∷ gs) = open_last limit (before ++ g ∷ []) g' gs

unfoldable pub new_segmented_wal : ℕ → List Sealed → SegmentedWal
new_segmented_wal segment_limit [] = record {
  segment_limit = if segment_limit == 0 then default_segment_limit else segment_limit;
  sealed = [];
  current_seq = 0;
  current = new_wal [];
}
new_segmented_wal segment_limit (g ∷ gs) =
    open_last (if segment_limit == 0 then default_segment_limit else segment_limit) [] g gs
