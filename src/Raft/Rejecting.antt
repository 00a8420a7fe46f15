-- ===== src/Raft/Rejecting.antt =====
-- What a node does with a leader's append that does not fit its log.
use kvgo.Common.{Option, ap, arith, false, none, refl, ret, true, ℕ, ◌<◌, ◌∙◌, ◌≡◌, ◌⊎◌, inl, inr}
use kvgo.Pb.{Entry, MessageType, Message, empty_message, msg_app, msg_app_resp}
use kvgo.Log.Interface.{Storage}
use kvgo.Log.View.{IsWellFormed}
use kvgo.Log.Matching.{Mismatch, match_term-Mismatch}
use kvgo.Raft.{
  Raft, State, follower, pre_candidate, candidate, leader, StepFunc, steps_follower,
  steps_candidate, done,
}
use kvgo.Raft.Become.{become_follower}
use kvgo.Raft.Handle.{hint_of, handle_append_entries}
use kvgo.Raft.Step.{
  is_vote_resp, step_candidate, step_follower, followed, call_step, check_term, dispatch, step,
}
use kvgo.Raft.Following.{with_answer, handle_append_entries-mismatch}

is_vote_resp-app : (s : State) → is_vote_resp s msg_app ≡ false
is_vote_resp-app follower = refl
is_vote_resp-app pre_candidate = refl
is_vote_resp-app candidate = refl
is_vote_resp-app leader = refl

module _ {S : Type 0} ⦃st : Storage S⦄ where
  check_term-same : (m : Message) (r : Raft S) → m.term ≡ r.term → check_term m r ≡ ret r
  unfolding check_term
  check_term-same m r same = ground arith

  candidate-app :
      (m : Message) (r : Raft S)
      → m.type ≡ msg_app
      → step_candidate m r ≡ done (handle_append_entries m (become_follower m.term m.from r))
  unfolding step_candidate
  candidate-app m r e = rw (e, is_vote_resp-app r.state) refl

  follower-app :
      (m : Message) (r : Raft S)
      → m.type ≡ msg_app
      → step_follower m r ≡ done (handle_append_entries m (followed m r))
  unfolding step_follower
  follower-app m r e = rw e refl

  -- The rejection of an append.
  abbrev pub rejection : Message → Raft S → Message
  rejection m r = record (empty_message msg_app_resp) {
    to = m.from;
    index = m.index;
    reject = true;
    reject_hint = hint_of (st.snapshot r.raft_log.storage);
  }

  abbrev with_rejection : Message → Raft S → Raft S
  with_rejection m r = record r {
    msgs_after_append = with_answer r.msgs_after_append r.id r.term (rejection m r);
  }

  -- Let a leader's append of a node's own term come to it while it is a follower, or a candidate or
  -- pre-candidate of that term, with a well-formed log. If the log has an entry of another term at
  -- the index above 0 that the append builds on, or no entry there, which the storage then does not
  -- have either, the append is refused, whatever its entries and its commit index are: the log with
  -- its commit index stays as it is, and so do the term and the vote; the node follows the sender,
  -- and one answer is queued, a rejection in the node's term of that index, with the storage's
  -- snapshot index as a hint.
  pub step-refused_append :
      (m : Message) (r : Raft S) (view : ℕ → Option Entry)
      → m.type ≡ msg_app
      → m.term ≡ r.term
      → 0 < m.index
      → ((r.step ≡ steps_follower) × (r.state ≡ follower)) ⊎ (r.step ≡ steps_candidate)
      → IsWellFormed st r.raft_log view
      → Mismatch m.index m.log_term r.raft_log view
      → (r' : Raft S) × (step m r ≡ ret (r', none))
        × (r'.raft_log ≡ r.raft_log)
        × (r'.term ≡ r.term)
        × (r'.voted_for ≡ r.voted_for)
        × (r'.lead ≡ m.from)
        × (r'.state ≡ follower)
        × (r'.msgs_after_append ≡ with_answer r.msgs_after_append r.id r.term (rejection m r))
  unfolding step become_follower
  step-refused_append m r view e same pos (inl (steps, is_follower)) w mismatch =
      let refused = match_term-Mismatch m.index m.log_term r.raft_log view w pos mismatch in
      (
        with_rejection m (followed m r),
        rw (check_term-same m r same) (
            ap (λ (t : MessageType). dispatch t m r) e
            ∙ ap (λ (f : StepFunc). call_step f m r) steps
            ∙ follower-app m r e
            ∙ ap done (handle_append_entries-mismatch m (followed m r) refused)),
        refl,
        refl,
        refl,
        refl,
        is_follower,
        refl,
      )
  step-refused_append m r view e same pos (inr steps) w mismatch =
      let refused = match_term-Mismatch m.index m.log_term r.raft_log view w pos mismatch in
      (
        with_rejection m (become_follower m.term m.from r),
        rw (check_term-same m r same) (
            ap (λ (t : MessageType). dispatch t m r) e
            ∙ ap (λ (f : StepFunc). call_step f m r) steps
            ∙ candidate-app m r e
            ∙ ap done (handle_append_entries-mismatch m (become_follower m.term m.from r) refused)),
        refl,
        same,
        ground (arith, same),
        refl,
        refl,
        ap (λ (n : ℕ). with_answer r.msgs_after_append r.id n (rejection m r)) same,
      )
