-- ===== src/Examples/Nodes.antt =====
-- One node of a group of three on concrete messages.
use kvgo.Common.{
  [], add64, arith, false, if◌then◌else◌, none, refl, ret, sub64, true, ◌+◌, ◌∷◌, ◌≡◌, ◌≤◌,
}
use kvgo.Pb.{
  Message, empty_message, msg_vote, msg_pre_vote, msg_app, msg_heartbeat, msg_vote_resp,
  msg_pre_vote_resp,
}
use kvgo.Tracker.{acked_index, committed}
use kvgo.Durable.{DurableStorage, read_term, first_index, last_index}
use kvgo.Durable.Reading.{stored_at}
use kvgo.Log.LogUnstable.{maybe_last_index, maybe_term}
use kvgo.Log.{last_entry_id, match_term, term, commit_to}
use kvgo.Quorum.{committed_index, sort, insert_sorted, acked_indexes, fill_from_end}
use kvgo.Raft.{
  Raft, follower, candidate, leader, ticks_election, ticks_heartbeat, steps_follower,
  steps_candidate, steps_leader,
}
use kvgo.Raft.Become.{past_election_timeout}
use kvgo.Raft.Replicate.{maybe_commit}
use kvgo.Raft.Handle.{handle_append_entries}
use kvgo.Raft.Clock.{tick, tick_election}
use kvgo.Raft.Step.{step}
use kvgo.Raft.Invariant.{IsConsistent}
use kvgo.Raft.Invariant.Runs.{
  Run, start, ticked, stepped, Run-one_vote, Run-monotone, Run-IsConsistent,
}
use kvgo.Raft.Committing.{Commits, maybe_commit_lem}
use kvgo.Raft.Voting.{step-vote, step-pre_vote, considering, standing_vote, grants, vote_answer}
use kvgo.Common.{inr}
use kvgo.Log.Matching.{Mismatch, other_term}
use kvgo.Raft.Rejecting.{step-refused_append}
use kvgo.Raft.Following.{handle_append_entries-match}
use kvgo.Raft.Outdated.{step-old_heartbeat}
use kvgo.Raft.{Ready}
use kvgo.Raft.Output.{ready, has_ready, advance}
use kvgo.Raft.Advancing.{advance-ready}
use kvgo.Node.{Node, deliver, hard_states_equal, setup_node, node_has_ready}
use kvgo.Node.Turns.{Turns, begun, turned, flag, turn-deliver, setup_node-Turns}
use kvgo.Examples.Values.{entry, stored, disk, three, three-IsWellFormed, three_last, node}

abbrev leading : Raft DurableStorage
leading = node leader ticks_heartbeat steps_leader 1

abbrev following : Raft DurableStorage
following = node follower ticks_election steps_follower 2

abbrev standing : Raft DurableStorage
standing = node candidate ticks_election steps_candidate 0

following-IsConsistent : IsConsistent following
following-IsConsistent = record {
  step_lem = refl;
  tick_lem = refl;
  lead_lem = λ e. cc;
  applied_le = omega arith;
}

abbrev vote_request : Message
vote_request = record (empty_message msg_vote) {
  from = 2;
  to = 1;
  index = 3;
  log_term = 2;
  term = 2;
}

three_last_id : last_entry_id three ≡ ret (3, 2)
unfolding add64 sub64 last_entry_id term kvgo.Log.last_index maybe_last_index maybe_term read_term
    last_index first_index
three_last_id = refl

step-vote_example :
    step vote_request following
    ≡ ret (
      record (considering vote_request following) {
        voted_for =
            if grants vote_request (3, 2) following
            then 2
            else standing_vote vote_request following;
        msgs_after_append =
            vote_answer msg_vote_resp 1 2 2 (grants vote_request (3, 2) following) ∷ [];
      },
      none,
    )
step-vote_example =
    step-vote vote_request following (3, 2) refl three_last_id (omega arith) (omega arith)

-- The same node after it refused that request, and after the clock ticked.
abbrev answered_once : Raft DurableStorage
answered_once = record following {
  msgs_after_append =
      (record (empty_message msg_vote_resp) { from = 1; to = 2; term = 2; reject = true }) ∷ [];
}

abbrev ticked_once : Raft DurableStorage
ticked_once = record answered_once { election_elapsed = 1 }

tick-answered_once : tick answered_once ≡ ret ticked_once
unfolding tick tick_election past_election_timeout
tick-answered_once = refl

refusing : Run following ticked_once
refusing =
    ticked
      (stepped vote_request none start (omega arith) (omega arith) (λ e. cc)
        (step-vote vote_request following (3, 2) refl three_last_id (omega arith) (omega arith)))
      (omega arith) tick-answered_once

Run-one_vote_example : ticked_once.voted_for ≡ 3
Run-one_vote_example = Run-one_vote following ticked_once refusing refl (λ e. cc)

Run-monotone_example :
    (2 ≤ ticked_once.term)
    × (1 ≤ ticked_once.raft_log.committed)
    × (0 ≤ ticked_once.raft_log.applied)
    × (ticked_once.id ≡ 1)
    × (ticked_once.trk.voters ≡ 1 ∷ 2 ∷ 3 ∷ [])
Run-monotone_example = Run-monotone following ticked_once refusing

Run-IsConsistent_example : IsConsistent ticked_once
Run-IsConsistent_example = Run-IsConsistent following ticked_once refusing following-IsConsistent

abbrev pre_vote_request : Message
pre_vote_request = record vote_request { type = msg_pre_vote; term = 3 }

step-pre_vote_example :
    step pre_vote_request following
    ≡ ret (
      record following {
        msgs_after_append =
            vote_answer msg_pre_vote_resp 1 2 3 (grants pre_vote_request (3, 2) following) ∷ [];
      },
      none,
    )
step-pre_vote_example =
    step-pre_vote pre_vote_request following (3, 2) refl three_last_id (omega arith) (omega arith)

abbrev append : Message
append = record (empty_message msg_app) {
  from = 2;
  to = 1;
  index = 2;
  log_term = 1;
  term = 2;
  commit = 3;
  entries = entry 3 2 ∷ entry 4 2 ∷ [];
}

matched : match_term 2 1 three ≡ ret true
unfolding add64 sub64 match_term term maybe_term read_term first_index last_index
matched = refl

handle_append_entries-match_example :
    (r : Raft DurableStorage) × (handle_append_entries append following ≡ ret r)
handle_append_entries-match_example =
    let (log, eq, _, _, _) =
      handle_append_entries-match append following (stored_at stored) (entry 3 2) (entry 4 2 ∷ [])
        three-IsWellFormed matched refl (refl, (refl, tt)) (omega arith) (omega arith)
        (omega (arith, three_last)) in
    (_, eq)

abbrev gapped : Message
gapped = record append { log_term = 7 }

-- The log of a candidate, which has an entry of term 1 at index 2.
gapped-Mismatch : Mismatch 2 7 three (stored_at stored)
unfolding first_index
gapped-Mismatch = other_term (entry 2 1) (omega arith) refl (λ e. omega (arith, e))

step-refused_append_example :
    (r' : Raft DurableStorage) × (step gapped standing ≡ ret (r', none))
    × (r'.raft_log ≡ three)
    × (r'.state ≡ follower)
step-refused_append_example =
    let (r', eq, log, _, _, _, state, _) =
      step-refused_append gapped standing (stored_at stored) refl refl (omega arith) (inr refl)
        three-IsWellFormed gapped-Mismatch in
    (r', eq, log, state)

abbrev heartbeat : Message
heartbeat = record (empty_message msg_heartbeat) { from = 2; to = 1; term = 1; commit = 1 }

step-old_heartbeat_example :
    (r' : Raft DurableStorage) × (step heartbeat standing ≡ ret (r', none))
    × (r'.term ≡ 1)
    × (r'.voted_for ≡ 0)
    × (r'.state ≡ follower)
step-old_heartbeat_example =
    step-old_heartbeat heartbeat standing refl refl (omega arith) (omega arith) (omega arith)

advanced :
    maybe_commit (committed leading.trk) leading
    ≡ ret (record leading { raft_log = record three { committed = 3 } }, true)
unfolding add64 sub64 maybe_commit commit_to committed committed_index sort insert_sorted
    acked_indexes fill_from_end acked_index match_term term maybe_term read_term first_index
    last_index kvgo.Log.last_index maybe_last_index
advanced = refl

maybe_commit_lem_example :
    Commits leading (record leading { raft_log = record three { committed = 3 } })
maybe_commit_lem_example = maybe_commit_lem leading _ (λ e. cc) advanced

advance-ready_example :
    (rd : Ready) × (r' : Raft DurableStorage) × (ready following ≡ ret rd)
    × (advance rd answered_once ≡ ret r')
    × (r'.raft_log.applied ≡ 1)
unfolding first_index
advance-ready_example =
    let (rd, r', made, moved, applied, _, _, _, _) =
      advance-ready following answered_once (stored_at stored) three-IsWellFormed (omega arith)
        (omega (arith, three_last)) in
    (rd, r', made, moved, applied)

abbrev fresh : Node DurableStorage
fresh = setup_node answered_once

news : node_has_ready fresh ≡ true
unfolding node_has_ready hard_states_equal setup_node has_ready
news = refl

made_ready : (rd : Ready) × (ready answered_once ≡ ret rd)
unfolding first_index
made_ready =
    let (rd, _, made, _, _, _, _, _, _) =
      advance-ready answered_once answered_once (stored_at stored) three-IsWellFormed (omega arith)
        (omega (arith, three_last)) in
    (rd, made)

first_turn : (t : Node DurableStorage) × Turns fresh 1 0 t
unfolding setup_node
first_turn =
    let (t, eq, _, _, _, _, _, _, _) = turn-deliver fresh made_ready.0 refl news made_ready.1 in
    (t, turned deliver begun eq refl refl)

setup_node-Turns_example :
    (1 ≡ 0 + flag first_turn.0.advancec)
    × (first_turn.0.advancec ≡ true → first_turn.0.readyc ≡ false)
    × (first_turn.0.advancec ≡ false → first_turn.0.steps_on_advance ≡ [])
setup_node-Turns_example = setup_node-Turns answered_once 1 0 first_turn.0 first_turn.1
