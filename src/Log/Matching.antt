-- ===== src/Log/Matching.antt =====
-- `matchTerm` in terms of the entries that the two layers stand for.
use kvgo.Common.{
  Bool, Option, Outcome, add64-eq, ap, arith, false, get_elem?, get_elem?_above, if◌then◌else◌,
  length, ltb, none, refl, ret, some, true, Bool-cases, inl, inr, lt→ltb, le→ltb, subst, sym, ℕ,
  ◌+◌, ◌-◌, ◌<◌, ◌==◌, ◌∙◌, ◌≡◌, ◌≢◌, ◌≤◌, ◌⊎◌, ==-false, ==_iff,
}
use kvgo.Pb.{Entry}
use kvgo.Log.Interface.{Storage}
use kvgo.Log.LogUnstable.{maybe_term}
use kvgo.Log.View.{log_at, IsWellFormed}
use kvgo.Common.{◌>>=◌, ltb→lt}
use kvgo.Log.{is_term, RaftLog, term, match_term}

==-ne : (a b : ℕ) → a ≢ b → (a == b) ≡ false
==-ne a b h = elim (Bool-cases (a == b)) [
  | inl same ↦ absurd (h ((==_iff a b).0 same))
  | inr other ↦ other
]

ltb_false→le : (a b : ℕ) → ltb a b ≡ false → b ≤ a
ltb_false→le a b h = ground arith

module _ {S : Type 0} ⦃st : Storage S⦄ where
  -- The log has another term at the index, or no entry, which the storage then does not have either.
  pub data Mismatch (i t : ℕ) (l : RaftLog S) (view : ℕ → Option Entry) : Type 0 where
    other_term :
        (e : Entry)
        → st.first_index l.storage ≤ i
        → log_at l view i ≡ some e
        → e.term ≢ t
        → Mismatch i t l view
    no_entry : log_at l view i ≡ none → st.term l.storage i ≡ ret none → Mismatch i t l view

  stored_term :
      (i : ℕ) (e : Entry) (l : RaftLog S) (view : ℕ → Option Entry)
      → IsWellFormed st l view
      → 0 < i
      → st.first_index l.storage ≤ i
      → i < l.unstable.offset
      → view i ≡ some e
      → st.term l.storage i ≡ ret (some e.term)
  stored_term i e l view w pos first below at =
      w.reads.term_lem i e pos first (omega (arith, w.joined, below)) at

  unstable-none :
      (i : ℕ) (l : RaftLog S) (view : ℕ → Option Entry)
      → log_at l view i ≡ none
      → maybe_term i l.unstable ≡ none
  unfolding maybe_term
  unstable-none i l view h = ground arith

  unstable-below :
      (i : ℕ) (l : RaftLog S) → ltb i l.unstable.offset ≡ true → maybe_term i l.unstable ≡ none
  unfolding maybe_term
  unstable-below i l h = rw h refl

  unstable-some :
      (i : ℕ) (e : Entry) (l : RaftLog S)
      → l.unstable.offset + length l.unstable.entries < kvgo.Common.u64_mod
      → l.unstable.offset ≤ i
      → get_elem? l.unstable.entries (i - l.unstable.offset) ≡ some e
      → maybe_term i l.unstable ≡ some e.term
  unfolding maybe_term
  unstable-some i e l fits above at = ground (
    arith,
    add64-eq l.unstable.offset (length l.unstable.entries),
    get_elem?_above l.unstable.entries (i - l.unstable.offset),
  )

  -- The term of an entry of the log.
  term-log_at :
      (i : ℕ) (e : Entry) (l : RaftLog S) (view : ℕ → Option Entry)
      → IsWellFormed st l view
      → 0 < i
      → st.first_index l.storage ≤ i
      → log_at l view i ≡ some e
      → term i l ≡ ret (some e.term)
  unfolding term
  term-log_at i e l view w pos first at = elim (Bool-cases (ltb i l.unstable.offset)) [
    | inl below ↦
        rw (==-false i pos, unstable-below i l below)
          (stored_term i e l view w pos first (ltb→lt i l.unstable.offset below) (rw below at at))
    | inr above ↦
        rw
          (
            ==-false i pos,
            unstable-some i e l w.fits (ltb_false→le i l.unstable.offset above) (rw above at at),
          )
          refl
  ]

  -- A mismatch is found.
  pub match_term-Mismatch :
      (i t : ℕ) (l : RaftLog S) (view : ℕ → Option Entry)
      → IsWellFormed st l view
      → 0 < i
      → Mismatch i t l view
      → match_term i t l ≡ ret false
  unfolding match_term term
  match_term-Mismatch i t l view w pos (other_term e first at differs) =
      ap (λ (o : Outcome (Option ℕ)). o >>= λ found. ret (is_term t found))
        (term-log_at i e l view w pos first at)
      ∙ ap ret (==-ne e.term t differs)
  match_term-Mismatch i t l view w pos (no_entry at missing) =
      rw (==-false i pos, missing, unstable-none i l view at) refl
