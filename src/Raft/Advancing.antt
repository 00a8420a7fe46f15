-- ===== src/Raft/Advancing.antt =====
-- `Ready`, and the `Advance` that follows it, whatever happened in between.
use kvgo.Common.{
  Bool-cases, List, Option, [], ap, arith, get_elem?, get_elem?_below, get_last?, if◌then◌else◌,
  inl, inr, length, ltb, none, refl, ret, some, sym, ℕ, ◌++◌, ◌+◌, ◌-◌, ◌<◌, ◌>>=◌, ◌∙◌, ◌∷◌, ◌≡◌,
  ◌≤◌,
}
use kvgo.Pb.{Entry}
use kvgo.Log.Interface.{Storage}
use kvgo.Log.LogUnstable.{Unstable, int_limit}
use kvgo.Log.View.{
  Contiguous, Contiguous-index, Contiguous-last, log_at, IsWellFormed, last_index_lem,
}
use kvgo.Log.Slices.{next_committed_ents_lem}
use kvgo.Log.Stable.{stabilized, unstable_term, stable_to-eq}
use kvgo.Log.{RaftLog, last_index, next_unstable_ents, log_stable_to, applied_to}
use kvgo.Raft.{Raft, Ready}
use kvgo.Raft.Output.{to_others, ready, stable_up_to, applied_up_to, hard_state, advance}

get_last?-cons : (x : Entry) (xs : List Entry) → get_last? (x ∷ xs) ≡ get_elem? (x ∷ xs) (length xs)
get_last?-cons x [] = refl
get_last?-cons x (y ∷ xs) = get_last?-cons y xs

module _ {S : Type 0} ⦃st : Storage S⦄ where
  -- An entry of the log stands at its index.
  log_at-index :
      (l : RaftLog S) (view : ℕ → Option Entry) (i : ℕ) (e : Entry)
      → IsWellFormed st l view
      → 0 < i
      → st.first_index l.storage ≤ i
      → log_at l view i ≡ some e
      → e.index ≡ i
  log_at-index l view i e w pos lo found = elim (Bool-cases (ltb i l.unstable.offset)) [
    | inl low ↦
        let (e', at, index) = w.reads.held i pos lo (ground (arith, w.joined)) in
        ground (arith, at, index)
    | inr high ↦ ground (
      arith,
      Contiguous-index l.unstable.offset l.unstable.entries (i - l.unstable.offset) e w.contiguous
          (rw high at found),
    )
  ]

  -- The last of the entries from `n` on in the log has the index before their end.
  applied_up_to-last :
      (l l2 : RaftLog S) (view : ℕ → Option Entry) (n : ℕ) (es : List Entry)
      → IsWellFormed st l view
      → 0 < n
      → st.first_index l.storage ≤ n
      → ((i : ℕ) → i < length es → get_elem? es i ≡ log_at l view (n + i))
      → (applied_up_to (get_last? es) l2).applied
        ≡ (if ltb 0 (length es) then n + length es - 1 else l2.applied)
  unfolding applied_to
  applied_up_to-last l l2 view n [] w pos lo at = refl
  applied_up_to-last l l2 view n (e ∷ es) w pos lo at =
      let (last, found) = get_elem?_below (e ∷ es) (length es) (omega arith) in
      let index =
        log_at-index l view (n + length es) last w (omega arith) (omega arith)
          (sym (at (length es) (omega arith)) ∙ found) in
      rw (get_last?-cons e es ∙ found) (index ∙ ground arith)

  stable_up_to-holds :
      (es : List Entry) (n : ℕ) (l2 : RaftLog S)
      → Contiguous n es
      → n + length es ≤ int_limit
      → (u : Unstable) × (stable_up_to (get_last? es) l2 ≡ ret (record l2 { unstable = u }))
  unfolding log_stable_to
  stable_up_to-holds [] n l2 c h = (l2.unstable, refl)
  stable_up_to-holds (e ∷ es) n l2 c h =
      let (last, found, at) = Contiguous-last n e es c in
      (
        stabilized (unstable_term last.index l2.unstable) last.index last.term l2.unstable,
        rw found (
            ap (λ o. o >>= λ u. ret (record l2 { unstable = u }))
              (stable_to-eq last.index last.term l2.unstable (omega (arith, at)))),
      )

  applied_up_to-committed :
      (o : Option Entry) (l : RaftLog S) → (applied_up_to o l).committed ≡ l.committed
  unfolding applied_to
  applied_up_to-committed none l = refl
  applied_up_to-committed (some e) l = refl

  -- What `Ready` returns, with the entries to apply.
  abbrev pub ready_with : Raft S → List Entry → Ready
  ready_with r es = record {
    lead = r.lead;
    entries = r.raft_log.unstable.entries;
    committed_entries = es;
    messages = r.messages ++ to_others r.id r.msgs_after_append;
    hard_state = some (hard_state r);
    read_states = r.read_states;
  }

  -- Let a well-formed log have its last index below 2 ^ 63, and let its storage have the entry after
  -- the applied index. Then `Ready` returns, and so does the `Advance` with its result, in whatever
  -- state `r2` the node is by then: the applied index becomes the committed index of the time of
  -- `Ready` if there was anything to apply, and is that of `r2` otherwise; the committed index of
  -- `r2` and its messages that wait for an append are kept; and all other messages and read states
  -- of `r2` are gone, those that came after `Ready` included.
  pub advance-ready :
      (r r2 : Raft S) (view : ℕ → Option Entry)
      → IsWellFormed st r.raft_log view
      → st.first_index r.raft_log.storage ≤ r.raft_log.applied + 1
      → last_index r.raft_log < int_limit
      → (rd : Ready) × (r' : Raft S) × (ready r ≡ ret rd)
        × (advance rd r2 ≡ ret r')
        × (r'.raft_log.applied ≡ (
            if ltb r.raft_log.applied r.raft_log.committed
            then r.raft_log.committed
            else r2.raft_log.applied))
        × (r'.raft_log.committed ≡ r2.raft_log.committed)
        × (r'.msgs_after_append ≡ r2.msgs_after_append)
        × (r'.messages ≡ [])
        × (r'.read_states ≡ [])
  unfolding ready advance next_unstable_ents
  advance-ready r r2 view w above small =
      let (es, eq, len, at) = next_committed_ents_lem r.raft_log view w above in
      let l = r.raft_log in
      let (u, stable) =
        stable_up_to-holds l.unstable.entries l.unstable.offset r2.raft_log w.contiguous
          (omega (arith, last_index_lem l view w)) in
      let l2 = record (r2.raft_log) { unstable = u } in
      (
        ready_with r es,
        record r2 { raft_log = applied_up_to (get_last? es) l2; messages = []; read_states = [] },
        rw eq,
        rw stable,
        applied_up_to-last l l2 view (l.applied + 1) es w (omega arith) above
              (λ i h. at i (omega (arith, len)))
            ∙ ground (arith, len),
        applied_up_to-committed (get_last? es) l2,
        refl,
        refl,
        refl,
      )
