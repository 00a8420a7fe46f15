-- ===== src/Raft/Invariant/Ticks.antt =====
-- The clock's ticks.
use kvgo.Common.{arith, false, panic, refl, ret, u64_mod, ℕ, ◌+◌, ◌<◌, ◌≡◌}
use kvgo.Pb.{Message, empty_message, msg_hup, msg_check_quorum, msg_beat}
use kvgo.Log.Interface.{Storage}
use kvgo.Raft.{
  Raft, State, follower, pre_candidate, candidate, leader, TickFunc, ticks_election,
  ticks_heartbeat, StepFunc, steps_follower, steps_candidate, steps_leader, Stepped,
}
use kvgo.Raft.Become.{abort_leader_transfer}
use kvgo.Raft.Step.{is_vote_resp, step_follower, step_candidate, call_step, check_term, step}
use kvgo.Raft.Clock.{
  ignore_error, abort_if_leading, tick_election, check_quorum_if_due, beat_if_due, tick_heartbeat,
  call_tick, tick,
}
use kvgo.Raft.Invariant.{
  Grows, Grows-refl, GrowsTo, GrowsTo-ret, GrowsTo-panic, GrowsTo-trans, GrowsTo-bind, GrowsTo-if,
  GrowsTo-refl, Same-Grows, StepsTo, StepsTo-ret,
}
use kvgo.Raft.Invariant.Leads.{step_leader-Grows}
use kvgo.Raft.Invariant.Checks.{IsCurrent, step-StepsTo}

is_vote_resp-beat : (s : State) → is_vote_resp s msg_beat ≡ false
is_vote_resp-beat candidate = refl
is_vote_resp-beat follower = refl
is_vote_resp-beat pre_candidate = refl
is_vote_resp-beat leader = refl

module _ {S : Type 0} where
  ignore_error-Grows : (r : Raft S) (o : Stepped S) → StepsTo r o → GrowsTo r (ignore_error o)
  ignore_error-Grows r (ret (s, e)) h = GrowsTo-ret h.holds
  ignore_error-Grows r panic h = GrowsTo-panic r

  abort_if_leading-Grows : (r : Raft S) → Grows r (abort_if_leading r)
  unfolding abort_leader_transfer
  abort_if_leading-Grows r = Same-Grows (ground arith)

module _ {S : Type 0} ⦃st : Storage S⦄ where
  -- A message that a node sends itself carries no term.
  local-Grows :
      (m : Message) (r : Raft S)
      → m.term ≡ 0
      → r.term + 1 < u64_mod
      → IsCurrent m r
      → GrowsTo r (ignore_error (step m r))
  local-Grows m r e b c = ignore_error-Grows r (step m r) (step-StepsTo m r b (omega (arith, e)) c)

  tick_election-Grows : (r : Raft S) → r.term + 1 < u64_mod → GrowsTo r (tick_election r)
  unfolding tick_election
  tick_election-Grows r b =
      GrowsTo-if _ r _ _
        (GrowsTo-trans r (record r { election_elapsed = 0 }) _ (Same-Grows (ground arith))
          (local-Grows (record (empty_message msg_hup) { from = r.id })
            (record r { election_elapsed = 0 }) refl b (λ _ e. cc)))
        (GrowsTo-ret (Same-Grows (ground arith)))

  check_quorum_if_due-Grows :
      (r : Raft S) → r.term + 1 < u64_mod → GrowsTo r (check_quorum_if_due r)
  check_quorum_if_due-Grows r b =
      GrowsTo-if _ r _ _
        (GrowsTo-trans r (record r { election_elapsed = 0 }) _ (Same-Grows (ground arith))
          (GrowsTo-bind _ _ _ (local-Grows (empty_message msg_check_quorum) _ refl b (λ _ e. cc))
            (λ s _. GrowsTo-ret (abort_if_leading-Grows s))))
        (GrowsTo-refl r)

  -- Only a leader acts on a beat, and it keeps its term.
  call_step-beat :
      (f : StepFunc) (m : Message) (r : Raft S) → m.type ≡ msg_beat → StepsTo r (call_step f m r)
  unfolding step_follower step_candidate
  call_step-beat steps_follower m r e = rw e (StepsTo-ret r r _ (Grows-refl r))
  call_step-beat steps_candidate m r e =
      rw (e, is_vote_resp-beat r.state) (StepsTo-ret r r _ (Grows-refl r))
  call_step-beat steps_leader m r e = step_leader-Grows m r

  beat-Grows :
      (from : ℕ) (r : Raft S)
      → GrowsTo r (ignore_error (step (record (empty_message msg_beat) { from = from }) r))
  unfolding step check_term
  beat-Grows from r = ignore_error-Grows r _ (call_step-beat r.step _ r refl)

  beat_if_due-Grows : (r : Raft S) → GrowsTo r (beat_if_due r)
  beat_if_due-Grows r =
      GrowsTo-if _ r _ _
        (GrowsTo-trans r (record r { heartbeat_elapsed = 0 }) _ (Same-Grows (ground arith))
          (beat-Grows r.id _))
        (GrowsTo-refl r)

  tick_heartbeat-Grows : (r : Raft S) → r.term + 1 < u64_mod → GrowsTo r (tick_heartbeat r)
  unfolding tick_heartbeat
  tick_heartbeat-Grows r b =
      GrowsTo-trans r
        (record r {
          heartbeat_elapsed = r.heartbeat_elapsed + 1;
          election_elapsed = r.election_elapsed + 1;
        })
        _ (Same-Grows (ground arith))
        (GrowsTo-bind _ _ _ (check_quorum_if_due-Grows _ b) (λ s _. beat_if_due-Grows s))

  call_tick-Grows : (f : TickFunc) (r : Raft S) → r.term + 1 < u64_mod → GrowsTo r (call_tick f r)
  call_tick-Grows ticks_election r b = tick_election-Grows r b
  call_tick-Grows ticks_heartbeat r b = tick_heartbeat-Grows r b

  pub tick-Grows : (r : Raft S) → r.term + 1 < u64_mod → GrowsTo r (tick r)
  unfolding tick
  tick-Grows r b = call_tick-Grows r.tick r b
