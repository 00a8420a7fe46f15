-- ===== src/Raft/Committing.antt =====
-- When a leader commits: `maybeCommit` with the index of `Committed`.
use kvgo.Common.{
  Bool, Bool-cases, Outcome, [], ap, arith, false, inl, inr, length, ltb, ltb→lt, panic, refl, ret,
  sym, true, ℕ, ◌*◌, ◌<◌, ◌>>=◌, ◌↔◌, ◌∙◌, ◌≡◌, ◌≢◌, ◌≤◌,
}
use kvgo.Quorum.Commit.{ackers, committed_index_lem}
use kvgo.Tracker.{acked_index, committed}
use kvgo.Log.Interface.{Storage}
use kvgo.Log.{match_term, commit_to}
use kvgo.Raft.{Raft}
use kvgo.Raft.Replicate.{commit_if, maybe_commit}

module _ {S : Type 0} ⦃st : Storage S⦄ where
  commit_if-true :
      (i : ℕ) (r r' : Raft S) (b : Bool)
      → r.raft_log.committed < i
      → commit_if b i r ≡ ret (r', true)
      → (b ≡ true)
        × (r'.raft_log.committed ≡ i)
        × (r' ≡ record r { raft_log = record (r.raft_log) { committed = i } })
  unfolding commit_to
  commit_if-true i r r' false h e = cc
  commit_if-true i r r' true h e = ground arith

  -- What an advance of the commit index from `r` to `r'` rests on.
  abbrev pub Commits : Raft S → Raft S → Type 0
  Commits r r' =
      (r.raft_log.committed < r'.raft_log.committed)
      × (length r.trk.voters
          < 2 * ackers r'.raft_log.committed (acked_index r.trk.progress) r.trk.voters)
      × ((j : ℕ)
          → r'.raft_log.committed < j
          → 2 * ackers j (acked_index r.trk.progress) r.trk.voters ≤ length r.trk.voters)
      × (match_term r'.raft_log.committed r.term r.raft_log ≡ ret true)
      × (r' ≡ record r { raft_log = record (r.raft_log) { committed = r'.raft_log.committed } })

  match-Commits :
      (r r' : Raft S) (o : Outcome Bool)
      → r.trk.voters ≢ []
      → r.raft_log.committed < committed r.trk
      → match_term (committed r.trk) r.term r.raft_log ≡ o
      → (o >>= λ current. commit_if current (committed r.trk) r) ≡ ret (r', true)
      → Commits r r'
  unfolding committed
  match-Commits r r' panic v more m e = cc
  match-Commits r r' (ret b) v more m e =
      let (is_true, at, eq) = commit_if-true (committed r.trk) r r' b more e in
      (
        omega (arith, at),
        rw at ((highest (committed r.trk) (omega arith)).0 (omega arith)),
        λ j h. ground (arith, highest j),
        rw (at, m, is_true),
        eq ∙ ap (λ (c : ℕ). record r { raft_log = record (r.raft_log) { committed = c } }) (sym at),
      )
    where
      highest :
          (j : ℕ)
          → 0 < j
          → (j ≤ committed r.trk)
            ↔ (length r.trk.voters < 2 * ackers j (acked_index r.trk.progress) r.trk.voters)
      highest j h = committed_index_lem r.trk.voters (acked_index r.trk.progress) j v h

  -- If a leader with at least one voter advances its commit index, it advances to the highest index
  -- that a majority of the voters has acknowledged: the new index is above the old, more than half
  -- of the voters have acknowledged it, at most half have acknowledged any index above it, and the
  -- entry there is of the leader's own term. Nothing but the commit index changes.
  pub maybe_commit_lem :
      (r r' : Raft S)
      → r.trk.voters ≢ []
      → maybe_commit (committed r.trk) r ≡ ret (r', true)
      → Commits r r'
  unfolding maybe_commit
  maybe_commit_lem r r' v e = elim (Bool-cases (ltb r.raft_log.committed (committed r.trk))) [
    | inl more ↦
        match-Commits r r' (match_term (committed r.trk) r.term r.raft_log) v
          (ltb→lt r.raft_log.committed (committed r.trk) more) refl (rw more at e)
    | inr same ↦ cc (rw same at e)
  ]
