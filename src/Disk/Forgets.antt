-- ===== src/Disk/Forgets.antt =====
-- What the deletion of old segments can lose, and a crash while the snapshot is written.
use kvgo.Common.{
  All, Bool, List, Option, [], ap, arith, lookup, map, nat_eq, none, refl, some, true, ℕ, ◌∙◌, ◌∷◌,
  ◌≡◌, ◌≤◌,
}
use kvgo.Segments.{Sealed, read_sealed, read_all, delete_sealed, delete_segments}
use kvgo.Segments.Scanning.{IsFile, scan_file-whole}
use kvgo.Disk.{
  Disk, fresh_storage, replay_batch, add_old, old_segments, contains, delete_old_segments,
}
use kvgo.Disk.Recovery.{replay_log}

-- The last entry of a segment, if any, is within the boundary.
abbrev pub IsOld : ℕ → List (ℕ × ℕ) → Sealed → Type 0
IsOld boundary idx g = (last : ℕ) → lookup g.seq idx ≡ some last → last ≤ boundary

old_segments-All :
    (boundary : ℕ) (idx : List (ℕ × ℕ)) (gs : List Sealed)
    → All (IsOld boundary idx) gs
    → old_segments boundary idx gs ≡ map (λ (g : Sealed). g.seq) gs
unfolding old_segments
old_segments-All boundary idx [] h = refl
old_segments-All boundary idx (g ∷ gs) h =
    ap (add_old boundary g.seq (lookup g.seq idx)) (old_segments-All boundary idx gs h.1)
    ∙ is_added (lookup g.seq idx) h.0
  where
    is_added :
        (o : Option ℕ)
        → ((last : ℕ) → o ≡ some last → last ≤ boundary)
        → add_old boundary g.seq o (map (λ (g' : Sealed). g'.seq) gs)
          ≡ map (λ (g' : Sealed). g'.seq) (g ∷ gs)
    is_added none old = refl
    is_added (some last) old = ground (arith, old last refl)

delete_sealed-All :
    (p : ℕ → Bool) (gs : List Sealed)
    → All (λ (g : Sealed). p g.seq ≡ true) gs
    → delete_sealed p gs ≡ []
unfolding delete_sealed
delete_sealed-All p [] h = refl
delete_sealed-All p (g ∷ gs) h = rw (h.0, delete_sealed-All p gs h.1) refl

abbrev AllIn : List ℕ → List Sealed → Type 0
AllIn ns = All (λ (g : Sealed). contains g.seq ns ≡ true)

AllIn-cons : (n : ℕ) (ns : List ℕ) (gs : List Sealed) → AllIn ns gs → AllIn (n ∷ ns) gs
AllIn-cons n ns [] h = tt
AllIn-cons n ns (g ∷ gs) h = (ground (arith, h.0), AllIn-cons n ns gs h.1)

AllIn-seqs : (gs : List Sealed) → AllIn (map (λ (g : Sealed). g.seq) gs) gs
AllIn-seqs [] = tt
AllIn-seqs (g ∷ gs) = (ground arith, AllIn-cons g.seq _ gs (AllIn-seqs gs))

-- Let every sealed segment hold no entry above the snapshot's index, and let the current segment be
-- empty, as it is right after a cut. Then the deletion of old segments after a compaction removes
-- every segment that has a batch, and a replay of the log finds no hard state: the term and the vote
-- that were saved are 0 again.
pub delete_old_segments-forgets :
    (d : Disk)
    → All (IsOld d.mem.snap.last_included_index d.seg_last_idx) d.raft_wal.sealed
    → IsFile d.raft_wal.current []
    → replay_log (delete_old_segments d)
      ≡ some
          ((fresh_storage d.mem.compact_threshold d.mem.snap, []), (delete_old_segments d).raft_wal)
unfolding delete_old_segments delete_segments read_all read_sealed
delete_old_segments-forgets d old empty =
    let none_left = delete_sealed-All _ d.raft_wal.sealed (AllIn-seqs d.raft_wal.sealed) in
    rw
      (
        old_segments-All d.mem.snap.last_included_index d.seg_last_idx d.raft_wal.sealed old,
        none_left,
        scan_file-whole (replay_batch d.raft_wal.current_seq) [] d.raft_wal.current
            (fresh_storage d.mem.compact_threshold d.mem.snap, []) tt empty,
      )
      refl
