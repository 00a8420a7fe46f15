-- ===== src/Durable/Compacting.antt =====
-- What compaction keeps.
use kvgo.Common.{
  Bool-cases, List, [], ap, arith, drop, get_elem?, get_elem?-drop, if◌then◌else◌, inl, inr, leb,
  leb→le, length-drop, none, refl, ret, some, subst, suc, sym, true, zero, ℕ, ◌+◌, ◌-◌, ◌<◌, ◌∙◌,
  ◌∷◌, ◌≡◌, ◌≤◌,
}
use kvgo.Pb.{Entry}
use kvgo.Log.View.{Contiguous, Contiguous-drop}
use kvgo.Durable.{DurableStorage, last_index, retained, compact_to, compact, ok}
use kvgo.Durable.Reading.{IsStored, stored_at, last_index-eq, first_index-eq}

drop_none : (k : ℕ) → drop {A = Entry} k [] ≡ []
drop_none zero = refl
drop_none (suc k) = refl

drop_past :
    (n i : ℕ) (e : Entry) (es : List Entry)
    → n ≤ i
    → drop (i + 1 - suc n) es ≡ drop (i + 1 - n) (e ∷ es)
drop_past n i e es h = ap (λ (k : ℕ). drop k (e ∷ es)) {x = suc (i + 1 - suc n)} (omega arith)

-- In a log without gaps, the entries above an index are a tail of it.
retained-drop :
    (n index : ℕ) (es : List Entry)
    → Contiguous n es
    → n ≤ index + 1
    → retained index es ≡ drop (index + 1 - n) es
unfolding retained
retained-drop n index [] c h = sym (drop_none (index + 1 - n))
retained-drop n index (e ∷ es) c h = elim (Bool-cases (leb e.index index)) [
  | inl low ↦ rw low (
      retained-drop (suc n) index es c.1 (ground arith)
      ∙ drop_past n index e es (omega (arith, leb→le e.index index low, c.0)))
  | inr high ↦ rw high (ap (λ (k : ℕ). drop k (e ∷ es)) {x = 0} (ground arith))
]

moved_index :
    (xs : List Entry) (n i j : ℕ)
    → n < i
    → i < j
    → get_elem? xs (i + 1 - (n + 1) + (j - (i + 1))) ≡ get_elem? xs (j - (n + 1))
moved_index xs n i j h k = ap (get_elem? xs) (omega arith)

module _ (s : DurableStorage) (w : IsStored s) (index : ℕ)
    (above : s.snap.last_included_index < index) (within : index ≤ last_index s) where
  to_entry :
      (e : Entry)
      → stored_at s index ≡ some e
      → compact true index s ≡ compact_to true index s (some e)
  unfolding compact
  to_entry e found = ground (arith, last_index-eq s w, first_index-eq s w (omega arith), found)

  -- A storage without gaps is compacted to an index above its snapshot's and up to the last one,
  -- where an entry stands at it and the snapshot is written to disk: its snapshot is then the index
  -- with the term of that entry, it has no gaps, the last index is the same, and it has every entry
  -- above the index as before, and no other.
  pub compact_lem :
      (e : Entry)
      → stored_at s index ≡ some e
      → (s' : DurableStorage) × (compact true index s ≡ ret (ok s'))
        × IsStored s'
        × (s'.snap.last_included_index ≡ index)
        × (s'.snap.last_included_term ≡ e.term)
        × ((j : ℕ) → stored_at s' j ≡ (if leb j index then none else stored_at s j))
        × (last_index s' ≡ last_index s)
  unfolding compact_to
  compact_lem e found =
      let n : ℕ = s.snap.last_included_index + 1 in
      let rest = drop (index + 1 - n) s.entries in
      let tail_eq = retained-drop n index s.entries w.contiguous (omega arith) in
      let kept : IsStored (record s {
        snap = record { last_included_index = index; last_included_term = e.term };
        entries = rest;
      }) =
        record {
          contiguous =
              subst (λ (k : ℕ). Contiguous k rest) (omega arith)
                (Contiguous-drop n (index + 1 - n) s.entries w.contiguous);
          fits = omega (arith, w.fits, last_index-eq s w, length-drop (index + 1 - n) s.entries);
        } in
      (
        record s {
          snap = record { last_included_index = index; last_included_term = e.term };
          entries = rest;
        },
        to_entry e found
            ∙ ap
                (λ (es : List Entry). ret (
                  ok (record s {
                    snap = record { last_included_index = index; last_included_term = e.term };
                    entries = es;
                  })))
                tail_eq,
        kept,
        refl,
        refl,
        λ j. ground (
          arith,
          get_elem?-drop (index + 1 - n) s.entries (j - (index + 1)),
          moved_index s.entries s.snap.last_included_index index j above,
        ),
        omega
            (arith, last_index-eq s w, last_index-eq _ kept, length-drop (index + 1 - n) s.entries),
      )
