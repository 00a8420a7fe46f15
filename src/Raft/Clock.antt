-- ===== src/Raft/Clock.antt =====
-- The logical clock: `tickElection`, `tickHeartbeat`, `Tick`.
use kvgo.Common.{
  Bool, Outcome, false, if◌then◌else◌, leb, not, panic, ret, true, ◌&&◌, ◌+◌, ◌==◌, ◌>>=◌,
}
use kvgo.Pb.{empty_message, msg_hup, msg_check_quorum, msg_beat}
use kvgo.Log.Interface.{Storage}
use kvgo.Raft.{Raft, State, leader, TickFunc, ticks_election, ticks_heartbeat, Stepped}
use kvgo.Raft.Become.{past_election_timeout, abort_leader_transfer}
use kvgo.Raft.Step.{step}

-- An error of `Step` is logged, and no more.
abbrev pub ignore_error : {S : Type 0} → Stepped S → Outcome (Raft S)
ignore_error (ret (r, e)) = ret r
ignore_error panic = panic

abbrev pub is_leader : State → Bool
is_leader leader = true
is_leader _ = false

module _ {S : Type 0} where
  -- A transfer that did not end within an election timeout is given up.
  abbrev pub abort_if_leading : Raft S → Raft S
  abort_if_leading r =
      if is_leader r.state && not (r.lead_transferee == 0) then abort_leader_transfer r else r

module _ {S : Type 0} ⦃st : Storage S⦄ where
  unfoldable pub tick_election : Raft S → Outcome (Raft S)
  tick_election r =
      let r1 = record r { election_elapsed = r.election_elapsed + 1 } in
      if past_election_timeout r1
      then ignore_error (
          step (record (empty_message msg_hup) { from = r.id })
            (record r1 { election_elapsed = 0 }))
      else ret r1

  abbrev pub check_quorum_if_due : Raft S → Outcome (Raft S)
  check_quorum_if_due r =
      if leb r.election_timeout r.election_elapsed
      then (do
        r1 ←
            ignore_error (step (empty_message msg_check_quorum) (record r { election_elapsed = 0 }))
        ret (abort_if_leading r1))
      else ret r

  abbrev pub beat_if_due : Raft S → Outcome (Raft S)
  beat_if_due r =
      if leb r.heartbeat_timeout r.heartbeat_elapsed
      then ignore_error (
          step (record (empty_message msg_beat) { from = r.id })
            (record r { heartbeat_elapsed = 0 }))
      else ret r

  unfoldable pub tick_heartbeat : Raft S → Outcome (Raft S)
  tick_heartbeat r = do
    r1 ← check_quorum_if_due (record r {
      heartbeat_elapsed = r.heartbeat_elapsed + 1;
      election_elapsed = r.election_elapsed + 1;
    })
    beat_if_due r1

  abbrev pub call_tick : TickFunc → Raft S → Outcome (Raft S)
  call_tick ticks_election r = tick_election r
  call_tick ticks_heartbeat r = tick_heartbeat r

  unfoldable pub tick : Raft S → Outcome (Raft S)
  tick r = call_tick r.tick r
