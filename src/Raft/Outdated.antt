-- ===== src/Raft/Outdated.antt =====
-- Messages of an old leader: what the state machine does with them, though their term is over.
use kvgo.Common.{
  [], ap, arith, false, if◌then◌else◌, le→leb, none, refl, ret, ◌++◌, ◌<◌, ◌==◌, ◌∙◌, ◌∷◌, ◌≡◌, ◌≤◌,
}
use kvgo.Pb.{MessageType, Message, msg_heartbeat, msg_heartbeat_resp, empty_message}
use kvgo.Log.Interface.{Storage}
use kvgo.Log.{commit_to}
use kvgo.Raft.{
  Raft, State, follower, pre_candidate, candidate, leader, StepFunc, steps_candidate, done,
}
use kvgo.Raft.Send.{send}
use kvgo.Raft.Become.{become_follower}
use kvgo.Raft.Handle.{handle_heartbeat}
use kvgo.Raft.Step.{is_vote_resp, step_candidate, call_step, check_term, dispatch, step}

is_vote_resp-heartbeat : (s : State) → is_vote_resp s msg_heartbeat ≡ false
is_vote_resp-heartbeat follower = refl
is_vote_resp-heartbeat pre_candidate = refl
is_vote_resp-heartbeat candidate = refl
is_vote_resp-heartbeat leader = refl

module _ {S : Type 0} ⦃st : Storage S⦄ where
  check_term-old :
      (m : Message) (r : Raft S)
      → m.type ≡ msg_heartbeat
      → 0 < m.term
      → m.term < r.term
      → check_term m r ≡ ret r
  unfolding check_term
  check_term-old m r e pos old = rw e (ground arith)

  candidate-heartbeat :
      (m : Message) (r : Raft S)
      → m.type ≡ msg_heartbeat
      → step_candidate m r ≡ done (handle_heartbeat m (become_follower m.term m.from r))
  unfolding step_candidate
  candidate-heartbeat m r e = rw (e, is_vote_resp-heartbeat r.state)

  heartbeat-result :
      (m : Message) (r : Raft S)
      → m.type ≡ msg_heartbeat
      → m.commit ≤ r.raft_log.committed
      → (r' : Raft S) × (handle_heartbeat m (become_follower m.term m.from r) ≡ ret r')
        × (r'.term ≡ m.term)
        × (r'.voted_for ≡ (if r.term == m.term then r.voted_for else 0))
        × (r'.state ≡ follower)
  unfolding handle_heartbeat become_follower commit_to send
  heartbeat-result m r e h = (
    record (become_follower m.term m.from r) {
      messages =
          r.messages
          ++ (record (empty_message msg_heartbeat_resp) {
            from = r.id;
            to = m.from;
            term = m.term;
            context = m.context;
          })
            ∷ [];
    },
    rw (le→leb m.commit r.raft_log.committed h),
    refl,
    refl,
    refl,
  )

  -- A candidate or pre-candidate that gets a heartbeat of a term above 0 but below its own, with a
  -- commit index that is no news, becomes a follower in the heartbeat's term: its term falls back,
  -- and the vote of its own term is forgotten.
  pub step-old_heartbeat :
      (m : Message) (r : Raft S)
      → m.type ≡ msg_heartbeat
      → r.step ≡ steps_candidate
      → 0 < m.term
      → m.term < r.term
      → m.commit ≤ r.raft_log.committed
      → (r' : Raft S) × (step m r ≡ ret (r', none))
        × (r'.term ≡ m.term)
        × (r'.voted_for ≡ 0)
        × (r'.state ≡ follower)
  unfolding step
  step-old_heartbeat m r e c pos old h =
      let (r', eq, term, vote, state) = heartbeat-result m r e h in
      (
        r',
        rw (check_term-old m r e pos old) (
            ap (λ (t : MessageType). dispatch t m r) e
            ∙ ap (λ (f : StepFunc). call_step f m r) c
            ∙ candidate-heartbeat m r e
            ∙ ap done eq),
        term,
        ground arith,
        state,
      )
