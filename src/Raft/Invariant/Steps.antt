-- ===== src/Raft/Invariant/Steps.antt =====
-- `stepCandidate` and `stepFollower`, and with them `Step`.
use kvgo.Common.{
  Bool, Bool-cases, Ensures, Outcome, arith, false, inl, inr, not, panic, refl, ret, true, u64_mod,
  ℕ, ◌+◌, ◌<◌, ◌≡◌, ◌≤◌,
}
use kvgo.Pb.{
  MessageType, Message, msg_app, msg_heartbeat, msg_snap, msg_prop, msg_read_index,
  msg_transfer_leader, msg_read_index_resp, msg_timeout_now, msg_pre_vote_resp, msg_vote,
  msg_vote_resp,
}
use kvgo.Quorum.{VoteResult, vote_won, vote_lost}
use kvgo.Tracker.{record_vote}
use kvgo.Log.Interface.{Storage}
use kvgo.Raft.{Raft, State, pre_candidate, StepFunc, steps_follower, steps_candidate, steps_leader}
use kvgo.Raft.Become.{become_follower}
use kvgo.Raft.Campaign.{can_vote_for, grants_vote, is_candidate_up_to_date}
use kvgo.Raft.Step.{
  win, after_tally, count_vote_resp, candidate_dispatch, step_candidate, followed, forward,
  forward_transfer, follower_dispatch, step_follower, call_step, answer_pre_vote, voted,
  answer_vote,
}
use kvgo.Raft.Invariant.{
  Grows, Grows-refl, GrowsTo, GrowsTo-ret, GrowsTo-refl, GrowsTo-trans, GrowsTo-let, GrowsTo-use,
  GrowsTo-if, Same-Grows, StepsTo, StepsTo-done, StepsTo-ret, StepsTo-if,
}
use kvgo.Raft.Invariant.Sends.{send-Grows, respond_vote-Grows}
use kvgo.Raft.Invariant.Turns.{
  become_follower-Grows, become_leader-Grows, elected-Grows, bcast_vote-Grows, hup_election-Grows,
  handle_append_entries-Grows, handle_heartbeat-Grows, handle_snapshot-Grows,
}
use kvgo.Raft.Invariant.Leads.{step_leader-Grows}

-- What a leader sends to its followers.
abbrev pub is_from_leader : MessageType → Bool
is_from_leader msg_app = true
is_from_leader msg_heartbeat = true
is_from_leader msg_snap = true
is_from_leader _ = false

module _ {S : Type 0} where
  record_vote-Grows :
      (id : ℕ) (v : Bool) (r : Raft S) → Grows r (record r { trk = record_vote id v r.trk })
  unfolding record_vote
  record_vote-Grows id v r = Same-Grows (ground arith)

  forward-Grows : (m : Message) (r : Raft S) → StepsTo r (forward m r)
  forward-Grows m r =
      StepsTo-if _ r _ _ (StepsTo-ret r r _ (Grows-refl r)) (StepsTo-done r _ (send-Grows _ r))

  forward_transfer-Grows : (m : Message) (r : Raft S) → StepsTo r (forward_transfer m r)
  forward_transfer-Grows m r =
      StepsTo-if _ r _ _ (StepsTo-ret r r _ (Grows-refl r)) (StepsTo-done r _ (send-Grows _ r))

  -- A follower may change its leader.
  followed-Grows : (m : Message) (r : Raft S) → r.step ≡ steps_follower → Grows r (followed m r)
  followed-Grows m r h = record {
    term_le = omega arith;
    committed_le = omega arith;
    applied_le = omega arith;
    vote_kept = λ _ _. refl;
    same_id = refl;
    same_voters = refl;
    consistent = λ c. record {
      step_lem = c.step_lem;
      tick_lem = c.tick_lem;
      lead_lem = λ e. cc (h, c.step_lem);
      applied_le = c.applied_le;
    };
  }

module _ {S : Type 0} ⦃st : Storage S⦄ where
  win-Grows : (s : State) (r : Raft S) → r.term + 1 < u64_mod → GrowsTo r (win s r)
  win-Grows pre_candidate r h =
      GrowsTo-trans r _ _ (elected-Grows r h) (bcast_vote-Grows msg_vote _ _)
  win-Grows _ r h = become_leader-Grows r

  after_tally-Grows :
      (v : VoteResult) (r : Raft S) → r.term + 1 < u64_mod → GrowsTo r (after_tally v r)
  after_tally-Grows vote_won r h = win-Grows r.state r h
  after_tally-Grows vote_lost r h = GrowsTo-ret (become_follower-Grows r.term 0 r (omega arith))
  after_tally-Grows _ r h = GrowsTo-refl r

  count_vote_resp-Grows :
      (m : Message) (r : Raft S) → r.term + 1 < u64_mod → GrowsTo r (count_vote_resp m r)
  unfolding count_vote_resp
  count_vote_resp-Grows m r h = GrowsTo-if _ r _ _ (GrowsTo-refl r) (
      GrowsTo-trans r (record r { trk = record_vote m.from (not m.reject) r.trk }) _
        (record_vote-Grows m.from (not m.reject) r) (after_tally-Grows _ _ h))

  -- The leader's messages make a candidate take over their term, which must not be lower.
  candidate_dispatch-Grows :
      (t : MessageType) (m : Message) (r : Raft S)
      → (is_from_leader t ≡ true → r.term ≤ m.term)
      → StepsTo r (candidate_dispatch t m r)
  candidate_dispatch-Grows msg_prop m r h = StepsTo-ret r r _ (Grows-refl r)
  candidate_dispatch-Grows msg_app m r h = StepsTo-done r _ (
      GrowsTo-trans r (become_follower m.term m.from r) _
        (become_follower-Grows m.term m.from r (h refl)) (handle_append_entries-Grows m _))
  candidate_dispatch-Grows msg_heartbeat m r h = StepsTo-done r _ (
      GrowsTo-trans r (become_follower m.term m.from r) _
        (become_follower-Grows m.term m.from r (h refl)) (handle_heartbeat-Grows m _))
  candidate_dispatch-Grows msg_snap m r h = StepsTo-done r _ (
      GrowsTo-trans r (become_follower m.term m.from r) _
        (become_follower-Grows m.term m.from r (h refl)) (handle_snapshot-Grows m _))
  candidate_dispatch-Grows msg_read_index m r h = StepsTo-ret r r _ (Grows-refl r)
  candidate_dispatch-Grows _ m r h = StepsTo-ret r r _ (Grows-refl r)

  step_candidate-Grows :
      (m : Message) (r : Raft S)
      → r.term + 1 < u64_mod
      → (is_from_leader m.type ≡ true → r.term ≤ m.term)
      → StepsTo r (step_candidate m r)
  unfolding step_candidate
  step_candidate-Grows m r b h =
      StepsTo-if _ r _ _ (StepsTo-done r _ (count_vote_resp-Grows m r b))
        (candidate_dispatch-Grows m.type m r h)

  follower_dispatch-Grows :
      (t : MessageType) (m : Message) (r : Raft S)
      → r.term + 1 < u64_mod
      → r.step ≡ steps_follower
      → StepsTo r (follower_dispatch t m r)
  follower_dispatch-Grows msg_prop m r b h = forward-Grows m r
  follower_dispatch-Grows msg_app m r b h =
      StepsTo-done r _
        (GrowsTo-trans r (followed m r) _ (followed-Grows m r h) (handle_append_entries-Grows m _))
  follower_dispatch-Grows msg_snap m r b h =
      StepsTo-done r _
        (GrowsTo-trans r (followed m r) _ (followed-Grows m r h) (handle_snapshot-Grows m _))
  follower_dispatch-Grows msg_heartbeat m r b h =
      StepsTo-done r _
        (GrowsTo-trans r (followed m r) _ (followed-Grows m r h) (handle_heartbeat-Grows m _))
  follower_dispatch-Grows msg_read_index m r b h = forward-Grows m r
  follower_dispatch-Grows msg_read_index_resp m r b h =
      StepsTo-ret r _ _ (Same-Grows (ground arith))
  follower_dispatch-Grows msg_timeout_now m r b h = StepsTo-done r _ (hup_election-Grows r b)
  follower_dispatch-Grows msg_transfer_leader m r b h = forward_transfer-Grows m r
  follower_dispatch-Grows _ m r b h = StepsTo-ret r r _ (Grows-refl r)

  pub call_step-Grows :
      (f : StepFunc) (m : Message) (r : Raft S)
      → r.step ≡ f
      → r.term + 1 < u64_mod
      → (r.step ≡ steps_candidate → is_from_leader m.type ≡ true → r.term ≤ m.term)
      → StepsTo r (call_step f m r)
  unfolding step_follower
  call_step-Grows steps_follower m r e b h = follower_dispatch-Grows m.type m r b e
  call_step-Grows steps_candidate m r e b h = step_candidate-Grows m r b (h e)
  call_step-Grows steps_leader m r e b h = step_leader-Grows m r

  pub answer_pre_vote-Grows : (m : Message) (r : Raft S) → GrowsTo r (answer_pre_vote m r)
  unfolding answer_pre_vote
  answer_pre_vote-Grows m r =
      GrowsTo-let r (grants_vote m r) _
        (λ g. respond_vote-Grows m.from g msg_pre_vote_resp m.term r)

  -- A vote is granted only where none was given in the term, or one to the same node.
  grants_vote-allowed :
      (m : Message) (r : Raft S)
      → Ensures (λ g. g ≡ true → can_vote_for m r ≡ true) (grants_vote m r)
  unfolding grants_vote
  grants_vote-allowed m r = elim (Bool-cases (can_vote_for m r)) [
    | inl may ↦ rw may (any (is_candidate_up_to_date m r))
    | inr refused ↦ rw refused (λ e. cc)
  ]
    where
      any : (o : Outcome Bool) → Ensures (λ g. g ≡ true → true ≡ true) o
      any (ret g) = λ _. refl
      any panic = tt

  voted-Grows :
      (g : Bool) (m : Message) (r : Raft S)
      → m.term ≤ r.term
      → (g ≡ true → can_vote_for m r ≡ true)
      → Grows r (voted g m.from r)
  unfolding can_vote_for
  voted-Grows false m r b h = Grows-refl r
  voted-Grows true m r b h = record {
    term_le = omega arith;
    committed_le = omega arith;
    applied_le = omega arith;
    vote_kept = λ _ v. ground (arith, h refl);
    same_id = refl;
    same_voters = refl;
    consistent = λ c. record {
      step_lem = c.step_lem;
      tick_lem = c.tick_lem;
      lead_lem = c.lead_lem;
      applied_le = c.applied_le;
    };
  }

  pub answer_vote-Grows : (m : Message) (r : Raft S) → m.term ≤ r.term → GrowsTo r (answer_vote m r)
  unfolding answer_vote
  answer_vote-Grows m r b = GrowsTo-use _ r (grants_vote m r) _ (grants_vote-allowed m r) (λ g h.
      GrowsTo-trans r (voted g m.from r) _ (voted-Grows g m r b h)
        (respond_vote-Grows m.from g msg_vote_resp r.term (voted g m.from r)))
