-- ===== src/Log/Slices.antt =====
-- What the log reads back: `slice`, the committed entries that are next, and `term`.
use kvgo.Common.{
  Bool-cases, List, Option, [], add64-eq, ap, arith, drop, get_elem?, get_elem?-append,
  get_elem?-drop, get_elem?-take, if◌then◌else◌, inl, inr, leb, length, length-append, length-drop,
  length-take, ltb, max, min, ret, take, ℕ, ◌++◌, ◌+◌, ◌-◌, ◌<◌, ◌≡◌, ◌≤◌,
}
use kvgo.Pb.{Entry}
use kvgo.Log.Interface.{Storage}
use kvgo.Log.View.{log_at, IsWellFormed, last_index_lem}
use kvgo.Log.{RaftLog, last_index, unstable_part, slice, next_committed_ents}

-- The unstable entries, which start at `off`, from `lo` up to `hi`.
abbrev tail_part : ℕ → ℕ → ℕ → List Entry → List Entry
tail_part lo hi off xs =
    take (min (hi - off) (length xs) - (max lo off - off)) (drop (max lo off - off) xs)

module _ (lo hi off : ℕ) (xs ents : List Entry) (len : length ents ≡ min hi off - lo) where
  joined-length :
      off < hi → hi ≤ off + length xs → lo < hi → length (ents ++ tail_part lo hi off xs) ≡ hi - lo
  joined-length a b c = omega (
    arith,
    length-append ents (tail_part lo hi off xs),
    length-take (min (hi - off) (length xs) - (max lo off - off)) (drop (max lo off - off) xs),
    length-drop (max lo off - off) xs,
  )

  joined-at :
      (i : ℕ)
      → off < hi
      → hi ≤ off + length xs
      → i < hi - lo
      → get_elem? (ents ++ tail_part lo hi off xs) i
        ≡ (if ltb (lo + i) off then get_elem? ents i else get_elem? xs (lo + i - off))
  joined-at i a b c = ground (
    arith,
    get_elem?-append ents (tail_part lo hi off xs) i,
    get_elem?-take (min (hi - off) (length xs) - (max lo off - off)) (drop (max lo off - off) xs)
        (i - length ents),
    get_elem?-drop (max lo off - off) xs (i - length ents),
    tail_shift,
  )
    where
      tail_shift :
          off ≤ lo + i
          → get_elem? xs (max lo off - off + (i - length ents)) ≡ get_elem? xs (lo + i - off)
      tail_shift k = ap (get_elem? xs) (omega arith)

module _ {S : Type 0} ⦃st : Storage S⦄ (l : RaftLog S) (view : ℕ → Option Entry)
    (w : IsWellFormed st l view) (lo hi : ℕ) where
  -- `es` holds the entries of the log at the indexes from `lo` up to `hi`.
  abbrev pub Holds : List Entry → Type 0
  Holds es =
      (length es ≡ hi - lo) × ((i : ℕ) → i < hi - lo → get_elem? es i ≡ log_at l view (lo + i))

  -- The part that comes from storage, with what follows it.
  module _ (above : st.first_index l.storage ≤ lo) (pos : 0 < lo) (h : lo < hi)
      (below : hi ≤ last_index l + 1) where
    Holds-unstable_part :
        (ents : List Entry)
        → length ents ≡ min hi l.unstable.offset - lo
        → ((i : ℕ) → i < min hi l.unstable.offset - lo → get_elem? ents i ≡ view (lo + i))
        → (es : List Entry) × (unstable_part lo hi l ents ≡ ret es) × Holds es
    Holds-unstable_part ents len at = elim (Bool-cases (ltb l.unstable.offset hi)) [
      | inl past ↦ (
        ents ++ tail_part lo hi l.unstable.offset l.unstable.entries,
        ground (arith, last_index_lem l view w),
        (
          joined-length lo hi l.unstable.offset l.unstable.entries ents len (ground arith)
              (omega (arith, last_index_lem l view w)) h,
          λ i k. ground (
            arith,
            at i,
            last_index_lem l view w,
            joined-at lo hi l.unstable.offset l.unstable.entries ents len i,
          ),
        ),
      )
      | inr short ↦ (ents, rw short, (ground arith, λ i k. ground (arith, at i)))
    ]

    slice-Holds : (es : List Entry) × (slice lo hi l ≡ ret es) × Holds es
    unfolding slice
    slice-Holds = elim (Bool-cases (ltb lo l.unstable.offset)) [
      | inl low ↦
          let (ents, read, len, at) =
            w.reads.entries_lem lo (min hi l.unstable.offset) pos above (ground arith)
              (ground (arith, w.joined)) in
          let (es, part, holds) = Holds-unstable_part ents len at in (es, ground arith, holds)
      | inr high ↦
          let (es, part, holds) =
            Holds-unstable_part [] (ground arith) (λ i k. absurd (ground arith)) in
          (es, ground arith, holds)
    ]

module _ {S : Type 0} ⦃st : Storage S⦄ (l : RaftLog S) (view : ℕ → Option Entry)
    (w : IsWellFormed st l view) where
  -- In a well-formed log, `slice lo hi` returns, for any non-empty range above the storage's first
  -- index and up to the last index, exactly the entries of the log at those indexes, in order,
  -- whichever layer they are in.
  pub slice_lem :
      (lo hi : ℕ)
      → st.first_index l.storage ≤ lo
      → 0 < lo
      → lo < hi
      → hi ≤ last_index l + 1
      → (es : List Entry) × (slice lo hi l ≡ ret es)
        × (length es ≡ hi - lo)
        × ((i : ℕ) → i < hi - lo → get_elem? es i ≡ log_at l view (lo + i))
  slice_lem lo hi above pos h below =
      let (es, eq, holds) = slice-Holds l view w lo hi above pos h below in
      (es, eq, holds.0, holds.1)

  -- A well-formed log whose storage still has the entry after the applied index hands out, as its
  -- next committed entries, those from the one after the applied index to the committed index: none
  -- is skipped, none repeated, and none is uncommitted.
  pub next_committed_ents_lem :
      st.first_index l.storage ≤ l.applied + 1
      → (es : List Entry) × (next_committed_ents l ≡ ret es)
        × (length es ≡ l.committed - l.applied)
        × ((i : ℕ)
            → i < l.committed - l.applied
            → get_elem? es i ≡ log_at l view (l.applied + 1 + i))
  unfolding next_committed_ents
  next_committed_ents_lem above = elim (Bool-cases (leb l.committed l.applied)) [
    | inl same ↦ ([], rw same, ground arith, λ i k. absurd (ground arith))
    | inr more ↦
        let (es, eq, len, at) =
          slice_lem (l.applied + 1) (l.committed + 1) (omega arith) (omega arith) (ground arith)
            (omega (arith, last_index_lem l view w, w.committed_le)) in
        (
          es,
          ground (
            arith,
            w.fits,
            w.committed_le,
            w.applied_le,
            add64-eq l.applied 1,
            add64-eq l.committed 1,
          ),
          omega arith,
          λ i k. at i (omega arith),
        )
  ]
