-- ===== src/Log/Append.antt =====
-- `appendEntries` overwrites the log from the first new entry on, whichever layer that falls in.
use kvgo.Common.{
  Bool-cases, List, Option, add64-eq, ap, arith, get_elem?, get_elem?-append, get_elem?-take,
  if◌then◌else◌, inl, inr, leb, length, length-append, length-take, ltb, refl, ret, sub64-eq, subst,
  take, take-length, u64_mod, ℕ, ◌++◌, ◌+◌, ◌-◌, ◌<◌, ◌∷◌, ◌≡◌, ◌≤◌,
}
use kvgo.Pb.{Entry}
use kvgo.Log.Interface.{Storage}
use kvgo.Log.LogUnstable.{Unstable, splice, truncate_and_append}
use kvgo.Log.View.{
  Contiguous, Contiguous-append, Contiguous-take, log_at, IsWellFormed, last_index_lem,
}
use kvgo.Log.{RaftLog, last_index, append_entries}

-- What `splice` leaves, where it does not panic.
abbrev pub spliced : Unstable → ℕ → List Entry → Unstable
spliced u first es =
    if leb first u.offset
    then record { entries = es; offset = first }
    else record u { entries = take (first - u.offset) u.entries ++ es }

splice_lem :
    (u : Unstable) (first : ℕ) (es : List Entry)
    → u.offset + length u.entries < u64_mod
    → first ≤ u.offset + length u.entries
    → splice u first es ≡ ret (spliced u first es)
splice_lem u first es f h =
    ground (arith, add64-eq u.offset (length u.entries) f, take-length (first - u.offset) u.entries)

module _ (u : Unstable) (first : ℕ) (es : List Entry)
    (h : first ≤ u.offset + length u.entries) where
  spliced-length :
      (spliced u first es).offset + length (spliced u first es).entries ≡ first + length es
  spliced-length = ground (
    arith,
    length-append (take (first - u.offset) u.entries) es,
    length-take (first - u.offset) u.entries,
  )

  spliced-Contiguous :
      Contiguous u.offset u.entries
      → Contiguous first es
      → Contiguous (spliced u first es).offset (spliced u first es).entries
  spliced-Contiguous c k = elim (Bool-cases (leb first u.offset)) [
    | inl low ↦ rw low k
    | inr high ↦ rw high (
        Contiguous-append u.offset (take (first - u.offset) u.entries) es
          (Contiguous-take u.offset (first - u.offset) u.entries c)
          (subst (λ n. Contiguous n es) (ground (arith, length-take (first - u.offset) u.entries))
            k))
  ]

  -- Below `first` nothing changes, and from there on the new entries stand.
  spliced-at :
      (below : ℕ → Option Entry) (i : ℕ)
      → (if ltb i (spliced u first es).offset
          then below i
          else get_elem? (spliced u first es).entries (i - (spliced u first es).offset))
        ≡ (if ltb i first
            then (if ltb i u.offset then below i else get_elem? u.entries (i - u.offset))
            else get_elem? es (i - first))
  spliced-at below i = ground (
    arith,
    get_elem?-append (take (first - u.offset) u.entries) es (i - u.offset),
    get_elem?-take (first - u.offset) u.entries (i - u.offset),
    length-take (first - u.offset) u.entries,
    spliced_shift i,
  )
    where
      spliced_shift :
          (i : ℕ)
          → u.offset ≤ first
          → get_elem? es (i - u.offset - (first - u.offset)) ≡ get_elem? es (i - first)
      spliced_shift i k = ap (get_elem? es) (omega arith)

module _ {S : Type 0} ⦃st : Storage S⦄ where
  -- The log after the entries were spliced in.
  abbrev pub appended : RaftLog S → Entry → List Entry → RaftLog S
  appended l e es = record l { unstable = spliced l.unstable e.index (e ∷ es) }

  module _ (l : RaftLog S) (view : ℕ → Option Entry) (e : Entry) (es : List Entry)
      (w : IsWellFormed st l view) (c : Contiguous e.index (e ∷ es))
      (fits : e.index + length (e ∷ es) < u64_mod) (uncommitted : l.committed < e.index)
      (no_gap : e.index ≤ last_index l + 1) where
    append_entries-eq : append_entries (e ∷ es) l ≡ ret (appended l e es)
    unfolding append_entries truncate_and_append
    append_entries-eq = ground (
      arith,
      sub64-eq e.index 1,
      splice_lem l.unstable e.index (e ∷ es) w.fits,
      last_index_lem l view w,
    )

    appended-IsWellFormed : IsWellFormed st (appended l e es) view
    appended-IsWellFormed =
        let len =
          spliced-length l.unstable e.index (e ∷ es) (omega (arith, last_index_lem l view w)) in
        record {
          reads = w.reads;
          contiguous =
              spliced-Contiguous l.unstable e.index (e ∷ es)
                (omega (arith, last_index_lem l view w)) w.contiguous c;
          fits = omega (arith, len);
          joined = ground (arith, w.joined);
          tail = λ none_left. absurd (ground (arith, len, w.offset_pos));
          first_le = w.first_le;
          offset_pos = ground (arith, w.offset_pos);
          applied_le = w.applied_le;
          committed_le = omega (arith, len);
        }

    -- Appending entries with consecutive indexes, the first of them above the committed index and
    -- at most one past the last, and the last of them below 2 ^ 64 - 1, to a well-formed log returns
    -- a well-formed log with the same storage, committed and applied index. Below the first new index it holds what it held; from
    -- there on it holds the new entries and nothing else, so that its last index is that of the
    -- last new entry.
    pub append_entries_lem :
        (l' : RaftLog S) × (append_entries (e ∷ es) l ≡ ret l')
        × IsWellFormed st l' view
        × ((i : ℕ)
            → log_at l' view i
              ≡ (if ltb i e.index then log_at l view i else get_elem? (e ∷ es) (i - e.index)))
        × (last_index l' ≡ e.index + length es)
        × (l'.storage ≡ l.storage)
        × (l'.committed ≡ l.committed)
        × (l'.applied ≡ l.applied)
    append_entries_lem = (
      appended l e es,
      append_entries-eq,
      appended-IsWellFormed,
      λ i. spliced-at l.unstable e.index (e ∷ es) (omega (arith, last_index_lem l view w)) view i,
      omega (
        arith,
        last_index_lem (appended l e es) view appended-IsWellFormed,
        spliced-length l.unstable e.index (e ∷ es) (omega (arith, last_index_lem l view w)),
      ),
      refl,
      refl,
      refl,
    )
