-- ===== src/Durable/Saving.antt =====
-- What `Save` does to the stored entries.
use kvgo.Common.{
  List, Option, [], ap, arith, get_elem?, get_elem?-append, get_elem?-take, if◌then◌else◌, length,
  length-append, length-take, ltb, none, refl, ret, subst, suc, take, take-length, true, u64_mod, ℕ,
  ◌++◌, ◌+◌, ◌-◌, ◌<◌, ◌∷◌, ◌≡◌, ◌≤◌,
}
use kvgo.Pb.{Entry, HardState}
use kvgo.Log.View.{Contiguous, Contiguous-append, Contiguous-take}
use kvgo.Durable.{DurableStorage, effective, last_index, truncate_and_append, save, saved, ok}
use kvgo.Durable.Reading.{IsStored, stored_at, last_index-eq, first_index-eq}

-- The entries after an overlapping append: those below the first new index, then the new ones.
abbrev overwritten : DurableStorage → Entry → List Entry → List Entry
overwritten s e es = take (e.index - (s.snap.last_included_index + 1)) s.entries ++ e ∷ es

module _ (s : DurableStorage) (w : IsStored s) (e : Entry) (es : List Entry)
    (above : s.snap.last_included_index < e.index) (no_gap : e.index ≤ last_index s + 1) where
  truncate_and_append-eq :
      truncate_and_append (e ∷ es) s ≡ ret (ok (record s { entries = overwritten s e es }))
  unfolding truncate_and_append
  truncate_and_append-eq = ground (
    arith,
    last_index-eq s w,
    first_index-eq s w,
    take-length (e.index - (s.snap.last_included_index + 1)) s.entries,
    take_none s.entries,
  )
    where
      none_kept :
          e.index ≡ s.snap.last_included_index + 1 → e.index - (s.snap.last_included_index + 1) ≡ 0
      none_kept h = omega arith

      take_none :
          (xs : List Entry)
          → e.index ≡ s.snap.last_included_index + 1
          → take (e.index - (s.snap.last_included_index + 1)) xs ≡ []
      take_none xs h = rw (none_kept h)

  saved-Contiguous :
      Contiguous e.index (e ∷ es) → Contiguous (s.snap.last_included_index + 1) (overwritten s e es)
  saved-Contiguous c =
      let n : ℕ = s.snap.last_included_index + 1 in
      Contiguous-append n (take (e.index - n) s.entries) (e ∷ es)
        (Contiguous-take n (e.index - n) s.entries w.contiguous)
        (subst (λ (k : ℕ). Contiguous k (e ∷ es))
          (omega (arith, length-take (e.index - n) s.entries, last_index-eq s w)) c)

  saved-length :
      s.snap.last_included_index + 1 + length (overwritten s e es) ≡ e.index + suc (length es)
  saved-length = omega (
    arith,
    length-append (take (e.index - (s.snap.last_included_index + 1)) s.entries) (e ∷ es),
    length-take (e.index - (s.snap.last_included_index + 1)) s.entries,
    last_index-eq s w,
  )

  saved-at :
      (i : ℕ)
      → stored_at (record s { entries = overwritten s e es }) i
        ≡ (if ltb i e.index then stored_at s i else get_elem? (e ∷ es) (i - e.index))
  saved-at i =
      let n : ℕ = s.snap.last_included_index + 1 in
      ground (
        arith,
        last_index-eq s w,
        get_elem?-append (take (e.index - n) s.entries) (e ∷ es) (i - n),
        get_elem?-take (e.index - n) s.entries (i - n),
        length-take (e.index - n) s.entries,
        shifted i,
      )
    where
      shifted :
          (i : ℕ)
          → e.index ≤ i
          → get_elem?
              (e ∷ es)
              (i - (s.snap.last_included_index + 1) - (e.index - (s.snap.last_included_index + 1)))
            ≡ get_elem? (e ∷ es) (i - e.index)
      shifted i h = ap (get_elem? (e ∷ es)) (omega arith)

-- Saving entries with consecutive indexes, the first above the snapshot's index and at most one
-- past the last, to a storage without gaps, where the disk writes succeed: the storage then holds
-- the new entries from the first of them on and nothing after the last, is as before below them,
-- has no gaps, keeps its snapshot, and has the new hard state, or the old where that is empty.
pub save_lem :
    (s : DurableStorage) (e : Entry) (es : List Entry) (hard : Option HardState)
    → IsStored s
    → s.snap.last_included_index < e.index
    → e.index ≤ last_index s + 1
    → Contiguous e.index (e ∷ es)
    → e.index + length (e ∷ es) < u64_mod
    → (s' : DurableStorage) × (save true true (e ∷ es) hard s ≡ ret (s', none))
      × IsStored s'
      × ((i : ℕ)
          → stored_at s' i
            ≡ (if ltb i e.index then stored_at s i else get_elem? (e ∷ es) (i - e.index)))
      × (last_index s' ≡ e.index + length es)
      × (s'.snap ≡ s.snap)
      × (s'.hd ≡ effective hard s.hd)
unfolding save last_index
save_lem s e es hard w above no_gap c fits =
    let q = record s { hd = effective hard s.hd } in
    let v : IsStored q = record { contiguous = w.contiguous; fits = w.fits } in
    let kept : IsStored (record q { entries = overwritten s e es }) = record {
      contiguous = saved-Contiguous s w e es above no_gap c;
      fits = omega (arith, fits, saved-length s w e es above no_gap);
    } in
    (
      record q { entries = overwritten s e es },
      ap (saved q) (truncate_and_append-eq q v e es above no_gap),
      kept,
      λ i. saved-at s w e es above no_gap i,
      omega (arith, last_index-eq _ kept, saved-length s w e es above no_gap),
      refl,
      refl,
    )
