-- ===== src/Raft/Invariant/Leads.antt =====
-- `stepLeader`.
use kvgo.Common.{
  Bool, Bool-cases, Ensures, List, Option, Outcome, [], arith, false, inl, inr, ltb, none, panic,
  ret, some, true, ℕ, ◌>>=◌, ◌∷◌, ◌≡◌, ◌≤◌,
}
use kvgo.Pb.{
  MessageType, Message, SnapshotMeta, Entry, msg_app_resp, msg_prop, msg_beat, msg_heartbeat_resp,
  msg_read_index, msg_check_quorum, msg_transfer_leader,
}
use kvgo.Quorum.{Votes}
use kvgo.Tracker.{Progress, set_progress, progress_of, quorum_active, committed}
use kvgo.ReadOnly.{recv_ack, advance}
use kvgo.Log.Interface.{Storage}
use kvgo.Log.{RaftLog, commit_to, match_term}
use kvgo.Raft.{Raft}
use kvgo.Raft.Become.{abort_leader_transfer}
use kvgo.Raft.Replicate.{commit_if, maybe_commit}
use kvgo.Raft.Leader.{
  after_app_resp, offer_snapshot, snapshot_if_behind, transfer_if_caught_up, drain_if, app_resp_of,
  leader_app_resp, propose_entries, leader_prop, respond_status, answer_acked, ack_read_index,
  heartbeat_resp_of, leader_heartbeat_resp, read_index_if, leader_read_index, leader_check_quorum,
  transfer_to, start_transfer, leader_transfer, leader_dispatch, step_leader,
}
use kvgo.Raft.Invariant.{
  Grows, Grows-refl, GrowsTo, GrowsTo-ret, GrowsTo-refl, GrowsTo-panic, GrowsTo-trans, GrowsTo-bind,
  GrowsTo-let, GrowsTo-if, GrowsTo-for_each, Same-Grows, StepsTo, StepsTo-done, StepsTo-ret,
  StepsTo-if,
}
use kvgo.Raft.Invariant.Sends.{
  send-Grows, send_append-Grows, send_timeout_now-Grows, bcast_append-Grows, bcast_heartbeat-Grows,
  respond_read_index_req-Grows, commit_to-grows,
}
use kvgo.Raft.Invariant.Turns.{append_entry-Grows, drain-Grows, become_follower-Grows, log_grown}

module _ {S : Type 0} where
  set_progress-Grows :
      (id : ℕ) (pr : Progress) (r : Raft S) → Grows r (record r { trk = set_progress id pr r.trk })
  unfolding set_progress
  set_progress-Grows id pr r = Same-Grows (ground arith)

module _ {S : Type 0} ⦃st : Storage S⦄ where
  offer_snapshot-Grows :
      (to : ℕ) (snap : Option SnapshotMeta) (r : Raft S) → GrowsTo r (offer_snapshot to snap r)
  offer_snapshot-Grows to none r = GrowsTo-refl r
  offer_snapshot-Grows to (some snap) r = send-Grows _ r

  snapshot_if_behind-Grows : (m : Message) (r : Raft S) → GrowsTo r (snapshot_if_behind m r)
  snapshot_if_behind-Grows m r =
      GrowsTo-if _ r _ _ (offer_snapshot-Grows m.from _ r) (GrowsTo-refl r)

  transfer_if_caught_up-Grows :
      (from : ℕ) (prs : Progress) (r : Raft S) → GrowsTo r (transfer_if_caught_up from prs r)
  transfer_if_caught_up-Grows from prs r =
      GrowsTo-if _ r _ _ (send_timeout_now-Grows from r) (GrowsTo-refl r)

  drain_if-Grows : (r : Raft S) (b : Bool) → GrowsTo r (drain_if (r, b))
  drain_if-Grows r false = GrowsTo-refl r
  drain_if-Grows r true = drain-Grows r

  commit_if-Grows : (b : Bool) (i : ℕ) (r : Raft S) → GrowsTo r (commit_if b i r >>= drain_if)
  commit_if-Grows false i r = GrowsTo-refl r
  commit_if-Grows true i r = commit-drain (commit_to i r.raft_log) (commit_to-grows i r.raft_log)
    where
      commit-drain :
          (o : Outcome (RaftLog S))
          → Ensures
              (λ (l : RaftLog S).
                (r.raft_log.committed ≤ l.committed) × (l.applied ≡ r.raft_log.applied))
              o
          → GrowsTo r ((o >>= λ log. ret (record r { raft_log = log }, true)) >>= drain_if)
      commit-drain (ret l) h =
          GrowsTo-trans r (record r { raft_log = l }) _ (log_grown r l h) (drain-Grows _)
      commit-drain panic h = GrowsTo-panic r

  maybe_commit-Grows : (i : ℕ) (r : Raft S) → GrowsTo r (maybe_commit i r >>= drain_if)
  unfolding maybe_commit
  maybe_commit-Grows i r = elim (Bool-cases (ltb r.raft_log.committed i)) [
    | inl more ↦ rw more (current-drain (match_term i r.term r.raft_log))
    | inr same ↦ rw same (GrowsTo-refl r)
  ]
    where
      current-drain :
          (o : Outcome Bool) → GrowsTo r ((o >>= λ current. commit_if current i r) >>= drain_if)
      current-drain (ret b) = commit_if-Grows b i r
      current-drain panic = GrowsTo-panic r

  app_resp_of-Grows :
      (p : Option Progress) (m : Message) (r : Raft S) → StepsTo r (app_resp_of p m r)
  app_resp_of-Grows none m r = StepsTo-ret r r _ (Grows-refl r)
  app_resp_of-Grows (some prs) m r = StepsTo-done r _ (
      GrowsTo-bind r _ _ (snapshot_if_behind-Grows m r) (λ s _.
        GrowsTo-trans s _ _ (set_progress-Grows m.from _ s) (
          GrowsTo-bind _ _ _ (transfer_if_caught_up-Grows m.from (after_app_resp r.term m prs) _)
            (λ t _. maybe_commit-Grows (committed t.trk) t))))

  propose_entries-Grows : (es : List Entry) (r : Raft S) → GrowsTo r (propose_entries es r)
  propose_entries-Grows [] r = GrowsTo-panic r
  propose_entries-Grows (e ∷ es) r =
      GrowsTo-bind r _ _ (append_entry-Grows e.payload r) (λ s _. bcast_append-Grows s)

  leader_prop-Grows : (m : Message) (r : Raft S) → StepsTo r (leader_prop m r)
  unfolding leader_prop
  leader_prop-Grows m r =
      StepsTo-if _ r _ _ (StepsTo-done r _ (propose_entries-Grows m.entries r))
        (StepsTo-ret r r _ (Grows-refl r))

  answer_acked-Grows : (m : Message) (acks : Votes) (r : Raft S) → GrowsTo r (answer_acked m acks r)
  answer_acked-Grows m acks r =
      GrowsTo-if _ r _ _
        (GrowsTo-let r (advance m r.read_only) _ (λ p.
          GrowsTo-trans r (record r { read_only = p.0 }) _ (Same-Grows (ground arith))
            (GrowsTo-for_each p.1 respond_status _
              (λ rs s. respond_read_index_req-Grows rs.req rs.index s))))
        (GrowsTo-refl r)

  ack_read_index-Grows : (m : Message) (r : Raft S) → GrowsTo r (ack_read_index m r)
  ack_read_index-Grows m r =
      GrowsTo-if _ r _ _
        (GrowsTo-trans r (record r { read_only = (recv_ack m.from m.context r.read_only).0 }) _
          (Same-Grows (ground arith)) (answer_acked-Grows m _ _))
        (GrowsTo-refl r)

  heartbeat_resp_of-Grows :
      (p : Option Progress) (m : Message) (r : Raft S) → GrowsTo r (heartbeat_resp_of p m r)
  heartbeat_resp_of-Grows none m r = GrowsTo-refl r
  heartbeat_resp_of-Grows (some prs) m r = GrowsTo-trans r _ _ (set_progress-Grows m.from _ r) (
      GrowsTo-bind _ _ _ (GrowsTo-if _ _ _ _ (send_append-Grows m.from _) (GrowsTo-refl _))
        (λ s _. ack_read_index-Grows m s))

  read_index_if-Grows : (b : Bool) (m : Message) (r : Raft S) → GrowsTo r (read_index_if b m r)
  read_index_if-Grows false m r = GrowsTo-ret (Same-Grows (ground arith))
  read_index_if-Grows true m r =
      GrowsTo-trans r _ _ (Same-Grows (ground arith)) (bcast_heartbeat-Grows m.context _)

  leader_read_index-Grows : (m : Message) (r : Raft S) → GrowsTo r (leader_read_index m r)
  unfolding leader_read_index
  leader_read_index-Grows m r =
      GrowsTo-if _ r _ _ (respond_read_index_req-Grows m _ r)
        (GrowsTo-let r _ _ (λ b. read_index_if-Grows b m r))

  leader_check_quorum-Grows : (r : Raft S) → Grows r (leader_check_quorum r)
  unfolding leader_check_quorum
  leader_check_quorum-Grows r = elim (Bool-cases (quorum_active r.trk)) [
    | inl active ↦ rw active (Same-Grows (ground arith))
    | inr lost ↦ rw lost (become_follower-Grows r.term 0 r (omega arith))
  ]

  start_transfer-Grows : (to : ℕ) (r : Raft S) → GrowsTo r (start_transfer to r)
  start_transfer-Grows to r = GrowsTo-if _ r _ _ (GrowsTo-refl r) (
      GrowsTo-trans r (record r { election_elapsed = 0; lead_transferee = to }) _
        (Same-Grows (ground arith)) (transfer_to-Grows (progress_of to r.trk) _))
    where
      transfer_to-Grows : (p : Option Progress) (s : Raft S) → GrowsTo s (transfer_to to p s)
      transfer_to-Grows none s = GrowsTo-panic s
      transfer_to-Grows (some prs) s =
          GrowsTo-if _ s _ _ (send_timeout_now-Grows to s) (send_append-Grows to s)

  leader_transfer-Grows : (m : Message) (r : Raft S) → GrowsTo r (leader_transfer m r)
  unfolding leader_transfer abort_leader_transfer
  leader_transfer-Grows m r = GrowsTo-if _ r _ _ (start_transfer-Grows m.from r) (
      GrowsTo-if _ r _ _ (GrowsTo-refl r) (
        GrowsTo-trans r (record r { lead_transferee = 0 }) _ (Same-Grows (ground arith))
          (start_transfer-Grows m.from _)))

  leader_dispatch-Grows :
      (t : MessageType) (m : Message) (r : Raft S) → StepsTo r (leader_dispatch t m r)
  unfolding leader_app_resp leader_heartbeat_resp
  leader_dispatch-Grows msg_app_resp m r = app_resp_of-Grows (progress_of m.from r.trk) m r
  leader_dispatch-Grows msg_prop m r = leader_prop-Grows m r
  leader_dispatch-Grows msg_beat m r = StepsTo-done r _ (bcast_heartbeat-Grows [] r)
  leader_dispatch-Grows msg_heartbeat_resp m r =
      StepsTo-done r _ (heartbeat_resp_of-Grows (progress_of m.from r.trk) m r)
  leader_dispatch-Grows msg_read_index m r = StepsTo-done r _ (leader_read_index-Grows m r)
  leader_dispatch-Grows msg_check_quorum m r = StepsTo-ret r _ _ (leader_check_quorum-Grows r)
  leader_dispatch-Grows msg_transfer_leader m r = StepsTo-done r _ (leader_transfer-Grows m r)
  leader_dispatch-Grows _ m r = StepsTo-ret r r _ (Grows-refl r)

  pub step_leader-Grows : (m : Message) (r : Raft S) → StepsTo r (step_leader m r)
  unfolding step_leader
  step_leader-Grows m r = leader_dispatch-Grows m.type m r
