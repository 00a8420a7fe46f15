-- ===== src/Raft/Invariant/Turns.antt =====
-- The changes of role, the changes of the log, and the campaigns.
use kvgo.Common.{
  Bool, Bool-cases, Ensures, List, Option, Outcome, [], add64-eq, arith, false, inl, inr, ltb, min,
  none, refl, some, true, u64_mod, ℕ, ◌+◌, ◌<◌, ◌∙◌, ◌∷◌, ◌≡◌, ◌≤◌,
}
use kvgo.Pb.{MessageType, Message, SnapshotMeta, msg_vote, msg_pre_vote}
use kvgo.Quorum.{VoteResult, vote_won}
use kvgo.Tracker.{Progress, set_progress, record_vote}
use kvgo.Log.Interface.{Storage}
use kvgo.Log.{RaftLog, last_index, append_entries, commit_to, restore}
use kvgo.Raft.{Raft, State, leader}
use kvgo.Raft.Become.{reset, become_follower, become_pre_candidate, become_candidate}
use kvgo.Raft.Replicate.{
  append_entry, next_entry, drain_pending_read_index_requests, activate_self, lead_self,
  become_leader,
}
use kvgo.Raft.Handle.{
  follow_commit, answer_append, handle_append_entries, handle_heartbeat, restore_if, restore_from,
  handle_snapshot,
}
use kvgo.Raft.Campaign.{
  ask_vote, bcast_vote, vote_for_self, after_election, elect, unless_leader, hup_election,
  after_pre_election, pre_elect, hup_pre_election,
}
use kvgo.Raft.Invariant.{
  Grows, Grows-trans, GrowsTo, GrowsTo-ret, GrowsTo-refl, GrowsTo-panic, GrowsTo-trans,
  GrowsTo-bind, GrowsTo-let, GrowsTo-use, GrowsTo-for_each, Same-Grows,
}
use kvgo.Raft.Invariant.Sends.{
  send-Grows, bcast_append-Grows, append_entries-kept, commit_to-grows,
  respond_read_index_req-Grows,
}

module _ {S : Type 0} where
  pub become_pre_candidate-Grows : (r : Raft S) → Grows r (become_pre_candidate r)
  unfolding become_pre_candidate
  become_pre_candidate-Grows r = ground arith

  vote_for_self-Grows : (r : Raft S) → Grows r (vote_for_self r)
  unfolding record_vote
  vote_for_self-Grows r = Same-Grows (ground arith)

  -- A new log that has at least the committed index, and the applied one, of the old.
  pub log_grown :
      (r : Raft S) (l : RaftLog S)
      → (r.raft_log.committed ≤ l.committed) × (l.applied ≡ r.raft_log.applied)
      → Grows r (record r { raft_log = l })
  log_grown r l h = ground arith

module _ {S : Type 0} ⦃st : Storage S⦄ where
  pub become_follower-Grows :
      (t lead : ℕ) (r : Raft S) → r.term ≤ t → Grows r (become_follower t lead r)
  unfolding become_follower
  become_follower-Grows t lead r h = ground arith

  pub become_candidate-Grows : (r : Raft S) → r.term + 1 < u64_mod → Grows r (become_candidate r)
  unfolding become_candidate
  become_candidate-Grows r h = ground (arith, add64-eq r.term 1)

  lead_self-Grows : (r : Raft S) → Grows r (lead_self r)
  unfolding reset
  lead_self-Grows r = ground arith

  activate_self-Grows : (p : Option Progress) (r : Raft S) → GrowsTo r (activate_self p r)
  unfolding set_progress
  activate_self-Grows none r = GrowsTo-panic r
  activate_self-Grows (some pr) r = GrowsTo-ret (Same-Grows (ground arith))

  pub append_entry-Grows : (payload : List ℕ) (r : Raft S) → GrowsTo r (append_entry payload r)
  unfolding append_entry
  append_entry-Grows payload r =
      GrowsTo-use _ r (append_entries (next_entry payload r ∷ []) r.raft_log) _
        (append_entries-kept (next_entry payload r ∷ []) r.raft_log)
        (λ l h.
          GrowsTo-trans r (record r { raft_log = l }) _ (log_grown r l (omega (arith, h.0), h.1))
            (send-Grows _ _))

  pub become_leader-Grows : (r : Raft S) → GrowsTo r (become_leader r)
  unfolding become_leader
  become_leader-Grows r = GrowsTo-trans r (lead_self r) _ (lead_self-Grows r) (
      GrowsTo-bind (lead_self r) _ _ (activate_self-Grows _ (lead_self r))
        (λ s _. GrowsTo-bind s _ _ (append_entry-Grows [] s) (λ t _. bcast_append-Grows t)))

  pub drain-Grows : (r : Raft S) → GrowsTo r (drain_pending_read_index_requests r)
  unfolding drain_pending_read_index_requests
  drain-Grows r =
      GrowsTo-trans r (record r { pending_read_index_requests = [] }) _ (Same-Grows (ground arith))
        (GrowsTo-for_each r.pending_read_index_requests _ _
          (λ m s. respond_read_index_req-Grows m s.raft_log.committed s))

  -- The log after an append on the follower, with the leader's commit index.
  follow_commit-grows :
      (i : ℕ) (l : RaftLog S)
      → Ensures
          (λ (l' : RaftLog S). (l.committed ≤ l'.committed) × (l'.applied ≡ l.applied))
          (follow_commit i l)
  follow_commit-grows i l = elim (Bool-cases (ltb l.committed i)) [
    | inl more ↦ rw more (commit_to-grows (min i (last_index l)) l)
    | inr not_more ↦ rw not_more (omega arith, refl)
  ]

  answer_append-Grows : (b : Bool) (m : Message) (r : Raft S) → GrowsTo r (answer_append b m r)
  answer_append-Grows false m r = send-Grows _ r
  answer_append-Grows true m r =
      GrowsTo-use _ r (append_entries m.entries r.raft_log) _
        (append_entries-kept m.entries r.raft_log)
        (λ l h.
          GrowsTo-use _ r (follow_commit m.commit l) _ (follow_commit-grows m.commit l) (λ l' k.
            GrowsTo-trans r (record r { raft_log = l' }) _
              (log_grown r l' (omega (arith, h.0, k.0), k.1 ∙ h.1)) (send-Grows _ _)))

  pub handle_append_entries-Grows :
      (m : Message) (r : Raft S) → GrowsTo r (handle_append_entries m r)
  unfolding handle_append_entries
  handle_append_entries-Grows m r = GrowsTo-let r _ _ (λ b. answer_append-Grows b m r)

  pub handle_heartbeat-Grows : (m : Message) (r : Raft S) → GrowsTo r (handle_heartbeat m r)
  unfolding handle_heartbeat
  handle_heartbeat-Grows m r =
      GrowsTo-use _ r (commit_to m.commit r.raft_log) _ (commit_to-grows m.commit r.raft_log)
        (λ l h. GrowsTo-trans r (record r { raft_log = l }) _ (log_grown r l h) (send-Grows _ _))

  restore_if-Grows :
      (i : ℕ) (p : S × Bool) (r : Raft S)
      → Grows r (record r { raft_log = restore_if i p r.raft_log })
  unfolding restore
  restore_if-Grows i (s, true) r = ground arith
  restore_if-Grows i (s, false) r = ground arith

  restore_from-Grows : (snap : Option SnapshotMeta) (r : Raft S) → GrowsTo r (restore_from snap r)
  restore_from-Grows none r = GrowsTo-panic r
  restore_from-Grows (some snap) r =
      GrowsTo-ret
        (restore_if-Grows snap.last_included_index (st.apply_snapshot r.raft_log.storage snap) r)

  pub handle_snapshot-Grows : (m : Message) (r : Raft S) → GrowsTo r (handle_snapshot m r)
  unfolding handle_snapshot
  handle_snapshot-Grows m r = restore_from-Grows m.snapshot r

  pub bcast_vote-Grows : (t : MessageType) (term : ℕ) (r : Raft S) → GrowsTo r (bcast_vote t term r)
  unfolding bcast_vote
  bcast_vote-Grows t term r =
      GrowsTo-let r _ _
        (λ last. GrowsTo-for_each r.peers (ask_vote t term last) r (λ pid s. send-Grows _ s))

  after_election-Grows : (v : VoteResult) (r : Raft S) → GrowsTo r (after_election v r)
  after_election-Grows vote_won r = become_leader-Grows r
  after_election-Grows _ r = bcast_vote-Grows msg_vote r.term r

  pub elected-Grows :
      (r : Raft S) → r.term + 1 < u64_mod → Grows r (vote_for_self (become_candidate r))
  elected-Grows r h =
      Grows-trans (become_candidate-Grows r h) (vote_for_self-Grows (become_candidate r))

  unless_leader-Grows :
      (s : State) (f : Raft S → Outcome (Raft S)) (r : Raft S)
      → GrowsTo r (f r)
      → GrowsTo r (unless_leader s f r)
  unless_leader-Grows leader f r h = GrowsTo-refl r
  unless_leader-Grows _ f r h = h

  pub hup_election-Grows : (r : Raft S) → r.term + 1 < u64_mod → GrowsTo r (hup_election r)
  unfolding hup_election
  hup_election-Grows r h = unless_leader-Grows r.state elect r (
      GrowsTo-trans r (vote_for_self (become_candidate r)) _ (elected-Grows r h)
        (after_election-Grows _ _))

  after_pre_election-Grows :
      (v : VoteResult) (r : Raft S) → r.term + 1 < u64_mod → GrowsTo r (after_pre_election v r)
  after_pre_election-Grows vote_won r h = hup_election-Grows r h
  after_pre_election-Grows _ r h = bcast_vote-Grows msg_pre_vote _ r

  pub hup_pre_election-Grows : (r : Raft S) → r.term + 1 < u64_mod → GrowsTo r (hup_pre_election r)
  unfolding hup_pre_election become_pre_candidate
  hup_pre_election-Grows r h = unless_leader-Grows r.state pre_elect r (
      GrowsTo-trans r (vote_for_self (become_pre_candidate r)) _
        (Grows-trans (become_pre_candidate-Grows r) (vote_for_self-Grows _))
        (after_pre_election-Grows _ _ h))
