-- ===== src/Durable/Reading.antt =====
-- A storage whose entries follow its snapshot without a gap is read as the interface promises.
use kvgo.Common.{
  Bool, List, Option, [], ap, arith, drop, false, get_elem?, get_elem?-drop, get_elem?-take,
  get_elem?_below, get_last?, if◌then◌else◌, leb, length, length-drop, length-take, none, ret, some,
  sub64-eq, take, u64_mod, ℕ, ◌+◌, ◌-◌, ◌<◌, ◌∷◌, ◌≡◌, ◌≤◌,
}
use kvgo.Pb.{Entry}
use kvgo.Log.View.{Contiguous, Contiguous-index, Contiguous-last}
use kvgo.Durable.{
  DurableStorage, first_or, last_of, first_index, last_index, read_entries, read_term, durable, ok,
  no_error, is_nil,
}
use kvgo.Log.Interface.{Reads}

pub record IsStored (s : DurableStorage) : Type 0 where
  pub contiguous : Contiguous (s.snap.last_included_index + 1) s.entries
  pub fits : s.snap.last_included_index + length s.entries + 1 < u64_mod

-- The entry at an index.
abbrev pub stored_at : DurableStorage → ℕ → Option Entry
stored_at s i =
    if leb i s.snap.last_included_index
    then none
    else get_elem? s.entries (i - (s.snap.last_included_index + 1))

last_of-entries :
    (n : ℕ) (es : List Entry) → Contiguous (n + 1) es → last_of (get_last? es) n ≡ n + length es
last_of-entries n [] c = omega arith
last_of-entries n (e ∷ es) c =
    let (last, found, at) = Contiguous-last (n + 1) e es c in rw found (omega arith)

first_or-entries :
    (n : ℕ) (es : List Entry) → Contiguous (n + 1) es → 0 < n + length es → first_or es n ≡ n + 1
first_or-entries n [] c h = ground arith
first_or-entries n (e ∷ es) c h = c.0

module _ (s : DurableStorage) (w : IsStored s) where
  pub last_index-eq : last_index s ≡ s.snap.last_included_index + length s.entries
  unfolding last_index
  last_index-eq = last_of-entries s.snap.last_included_index s.entries w.contiguous

  pub first_index-eq : 0 < last_index s → first_index s ≡ s.snap.last_included_index + 1
  unfolding first_index
  first_index-eq h =
      first_or-entries s.snap.last_included_index s.entries w.contiguous
        (omega (arith, last_index-eq))

  -- Where an index is within the log, an entry stands there.
  stored_at-held :
      (i : ℕ)
      → s.snap.last_included_index < i
      → i ≤ last_index s
      → (e : Entry) × (stored_at s i ≡ some e) × (e.index ≡ i)
  stored_at-held i lo hi =
      let (e, found) =
        get_elem?_below s.entries (i - (s.snap.last_included_index + 1))
          (omega (arith, last_index-eq)) in
      (
        e,
        ground arith,
        omega (
          arith,
          Contiguous-index (s.snap.last_included_index + 1) s.entries
              (i - (s.snap.last_included_index + 1)) e w.contiguous found,
        ),
      )

  read_term-eq :
      (i : ℕ) (e : Entry)
      → s.snap.last_included_index < i
      → i ≤ last_index s
      → stored_at s i ≡ some e
      → read_term i s ≡ ret (ok e.term)
  unfolding read_term
  read_term-eq i e lo hi found =
      ground
        (arith, first_index-eq (omega arith), last_index-eq, sub64-eq i (first_index s), w.fits)

  read_entries-eq :
      (lo hi : ℕ)
      → s.snap.last_included_index < lo
      → lo < hi
      → hi ≤ last_index s + 1
      → read_entries lo hi s
        ≡ ret (ok (take (hi - lo) (drop (lo - (s.snap.last_included_index + 1)) s.entries)))
  unfolding read_entries
  read_entries-eq lo hi above h below =
      ground (arith, first_index-eq (omega arith), last_index-eq, part_shift, nonempty)
    where
      part_shift :
          hi - (s.snap.last_included_index + 1) - (lo - (s.snap.last_included_index + 1)) ≡ hi - lo
      part_shift = omega arith

      nonempty : is_nil s.entries ≡ false
      nonempty = ground (arith, last_index-eq)

  -- A storage whose entries stand right after its snapshot's index, one after the other, keeps what
  -- the raft log relies on: from the first to the last index each entry is there, with its index,
  -- and `Entries` and `Term` read exactly these.
  pub durable-Reads : (written : Bool) → Reads (durable written) s (stored_at s)
  durable-Reads written = record {
    last_fits = omega (arith, last_index-eq, w.fits);
    held = λ i pos lo hi. stored_at-held i (above_boundary i pos lo hi) hi;
    term_lem =
        λ i e pos lo hi found. ap no_error (read_term-eq i e (above_boundary i pos lo hi) hi found);
    entries_lem = λ lo hi pos above h below.
        let high = above_boundary lo pos above (omega arith) in
        (
          take (hi - lo) (drop (lo - (s.snap.last_included_index + 1)) s.entries),
          ap no_error (read_entries-eq lo hi high h below),
          part-length lo hi high h below,
          λ i k. part-at lo hi i high k,
        );
  }
    where
      above_boundary :
          (i : ℕ) → 0 < i → first_index s ≤ i → i ≤ last_index s → s.snap.last_included_index < i
      above_boundary i pos lo hi = omega (arith, first_index-eq (omega arith))

      part-length :
          (lo hi : ℕ)
          → s.snap.last_included_index < lo
          → lo < hi
          → hi ≤ last_index s + 1
          → length (take (hi - lo) (drop (lo - (s.snap.last_included_index + 1)) s.entries))
            ≡ hi - lo
      part-length lo hi a b c = omega (
        arith,
        last_index-eq,
        length-take (hi - lo) (drop (lo - (s.snap.last_included_index + 1)) s.entries),
        length-drop (lo - (s.snap.last_included_index + 1)) s.entries,
      )

      part-at :
          (lo hi i : ℕ)
          → s.snap.last_included_index < lo
          → i < hi - lo
          → get_elem? (take (hi - lo) (drop (lo - (s.snap.last_included_index + 1)) s.entries)) i
            ≡ stored_at s (lo + i)
      part-at lo hi i a b =
          let n : ℕ = s.snap.last_included_index + 1 in
          let same : n ≤ lo → lo - n + i ≡ lo + i - n = λ k. omega arith in
          ground (
            arith,
            get_elem?-take (hi - lo) (drop (lo - n) s.entries) i,
            get_elem?-drop (lo - n) s.entries i,
            ap (get_elem? s.entries) (same (omega arith)),
          )
