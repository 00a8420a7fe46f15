-- ===== src/Raft/Step.antt =====
-- `stepCandidate`, `stepFollower` and `Step`, which checks terms and dispatches.
use kvgo.Common.{
  Bool, List, Outcome, [], false, if◌then◌else◌, ltb, none, not, ret, some, true, ℕ, ◌++◌, ◌==◌,
  ◌>>=◌, ◌∷◌,
}
use kvgo.Pb.{
  MessageType, msg_app, msg_prop, msg_heartbeat, msg_snap, msg_read_index, msg_read_index_resp,
  msg_timeout_now, msg_transfer_leader, msg_hup, msg_vote, msg_vote_resp, msg_pre_vote,
  msg_pre_vote_resp, Message, empty_message,
}
use kvgo.Quorum.{VoteResult, vote_won, vote_lost}
use kvgo.Tracker.{record_vote, tally_votes}
use kvgo.Log.Interface.{Storage}
use kvgo.Raft.{
  Raft, State, pre_candidate, candidate, StepFunc, steps_follower, steps_candidate, steps_leader,
  Stepped, proposal_dropped, done,
}
use kvgo.Raft.Send.{send, respond_vote}
use kvgo.Raft.Become.{become_follower, become_candidate}
use kvgo.Raft.Replicate.{become_leader}
use kvgo.Raft.Handle.{handle_append_entries, handle_heartbeat, handle_snapshot}
use kvgo.Raft.Campaign.{grants_vote, bcast_vote, vote_for_self, hup_election, hup_pre_election}
use kvgo.Raft.Leader.{step_leader}

-- The kind of answer that a candidate, or else a pre-candidate, counts.
abbrev pub is_vote_resp : State → MessageType → Bool
is_vote_resp candidate msg_vote_resp = true
is_vote_resp candidate _ = false
is_vote_resp _ msg_pre_vote_resp = true
is_vote_resp _ _ = false

module _ {S : Type 0} where
  abbrev pub followed : Message → Raft S → Raft S
  followed m r = record r { election_elapsed = 0; lead = m.from }

  -- A request is passed on to the leader; `From` is left as it is.
  abbrev pub forward : Message → Raft S → Stepped S
  forward m r =
      if r.lead == 0
      then ret (r, some proposal_dropped)
      else done (send (record m { to = r.lead }) r)

  abbrev pub forward_transfer : Message → Raft S → Stepped S
  forward_transfer m r =
      if r.lead == 0 then ret (r, none) else done (send (record m { to = r.lead }) r)

  abbrev pub voted : Bool → ℕ → Raft S → Raft S
  voted granted from r = if granted then record r { voted_for = from } else r

module _ {S : Type 0} ⦃st : Storage S⦄ where
  abbrev pub win : State → Raft S → Outcome (Raft S)
  win pre_candidate r = do
    let r1 = vote_for_self (become_candidate r)
    bcast_vote msg_vote r1.term r1
  win _ r = become_leader r

  abbrev pub after_tally : VoteResult → Raft S → Outcome (Raft S)
  after_tally vote_won r = win r.state r
  after_tally vote_lost r = ret (become_follower r.term 0 r)
  after_tally _ r = ret r

  unfoldable pub count_vote_resp : Message → Raft S → Outcome (Raft S)
  count_vote_resp m r =
      if ltb m.term r.term
      then ret r
      else let r1 = record r { trk = record_vote m.from (not m.reject) r.trk } in
        after_tally (tally_votes r1.trk) r1

  abbrev pub candidate_dispatch : MessageType → Message → Raft S → Stepped S
  candidate_dispatch msg_prop m r = ret (r, some proposal_dropped)
  candidate_dispatch msg_app m r = done (handle_append_entries m (become_follower m.term m.from r))
  candidate_dispatch msg_heartbeat m r = done (handle_heartbeat m (become_follower m.term m.from r))
  candidate_dispatch msg_snap m r = done (handle_snapshot m (become_follower m.term m.from r))
  candidate_dispatch msg_read_index m r = ret (r, some proposal_dropped)
  candidate_dispatch _ m r = ret (r, none)

  unfoldable pub step_candidate : Message → Raft S → Stepped S
  step_candidate m r =
      if is_vote_resp r.state m.type
      then done (count_vote_resp m r)
      else candidate_dispatch m.type m r

  abbrev pub follower_dispatch : MessageType → Message → Raft S → Stepped S
  follower_dispatch msg_prop m r = forward m r
  follower_dispatch msg_app m r = done (handle_append_entries m (followed m r))
  follower_dispatch msg_snap m r = done (handle_snapshot m (followed m r))
  follower_dispatch msg_heartbeat m r = done (handle_heartbeat m (followed m r))
  follower_dispatch msg_read_index m r = forward m r
  follower_dispatch msg_read_index_resp m r = ret (
    record r {
      read_states = r.read_states ++ (record { index = m.index; request_ctx = m.context }) ∷ [];
    },
    none,
  )
  follower_dispatch msg_timeout_now m r = done (hup_election r)
  follower_dispatch msg_transfer_leader m r = forward_transfer m r
  follower_dispatch _ m r = ret (r, none)

  unfoldable pub step_follower : Message → Raft S → Stepped S
  step_follower m r = follower_dispatch m.type m r

  -- `r.step(r, m)`
  abbrev pub call_step : StepFunc → Message → Raft S → Stepped S
  call_step steps_follower m r = step_follower m r
  call_step steps_candidate m r = step_candidate m r
  call_step steps_leader m r = step_leader m r

  abbrev pub at_higher_term : MessageType → Message → Raft S → Raft S
  at_higher_term msg_pre_vote m r = r
  at_higher_term msg_pre_vote_resp m r = r
  at_higher_term _ m r = become_follower m.term m.from r

  abbrev pub at_lower_term : MessageType → Message → Raft S → Outcome (Raft S)
  at_lower_term msg_pre_vote m r = respond_vote m.from false msg_pre_vote_resp r.term r
  at_lower_term _ m r = ret r

  unfoldable pub check_term : Message → Raft S → Outcome (Raft S)
  check_term m r =
      if m.term == 0
      then ret r
      else if ltb r.term m.term
      then ret (at_higher_term m.type m r)
      else if ltb m.term r.term
      then at_lower_term m.type m r
      else ret r

  unfoldable pub answer_pre_vote : Message → Raft S → Outcome (Raft S)
  answer_pre_vote m r = do
    granted ← grants_vote m r
    respond_vote m.from granted msg_pre_vote_resp m.term r

  unfoldable pub answer_vote : Message → Raft S → Outcome (Raft S)
  answer_vote m r = do
    granted ← grants_vote m r
    respond_vote m.from granted msg_vote_resp r.term (voted granted m.from r)

  abbrev pub dispatch : MessageType → Message → Raft S → Stepped S
  dispatch msg_pre_vote m r = done (answer_pre_vote m r)
  dispatch msg_vote m r = done (answer_vote m r)
  dispatch msg_hup m r = done (hup_pre_election r)
  dispatch _ m r = call_step r.step m r

  unfoldable pub step : Message → Raft S → Stepped S
  step m r = do r1 ← check_term m r; dispatch m.type m r1

  unfoldable pub propose : List ℕ → Raft S → Stepped S
  propose payload r =
      step
        (record (empty_message msg_prop) {
          entries = (record { index = 0; term = 0; payload = payload }) ∷ [];
        })
        r

  unfoldable pub campaign : Raft S → Stepped S
  campaign r = step (empty_message msg_hup) r

  unfoldable pub read_index : List ℕ → Raft S → Stepped S
  read_index ctx r = step (record (empty_message msg_read_index) { context = ctx }) r
