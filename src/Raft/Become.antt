-- ===== src/Raft/Become.antt =====
-- `reset` and the transitions that need no message: `becomeFollower`, `becomePreCandidate`,
-- `becomeCandidate`.
use kvgo.Common.{Bool, [], add64, false, if◌then◌else◌, leb, ℕ, ◌+◌, ◌==◌}
use kvgo.Tracker.{Progress, ProgressTracker, visit, reset_votes}
use kvgo.ReadOnly.{new_read_only}
use kvgo.Log.Interface.{Storage}
use kvgo.Log.{last_index}
use kvgo.Raft.{
  Raft, follower, pre_candidate, candidate, ticks_election, steps_follower, steps_candidate,
}

-- The callback of `Visit` in `reset`.
abbrev pub reset_progress : ℕ → ℕ → ℕ → Progress → Progress
reset_progress self last id pr = record {
  match_index = if id == self then last else 0;
  next_index = add64 last 1;
  recent_active = false;
}

module _ {S : Type 0} where
  unfoldable pub abort_leader_transfer : Raft S → Raft S
  abort_leader_transfer r = record r { lead_transferee = 0 }

  -- `validate` keeps `election_timeout` above 0, where `rand.Int` does not panic.
  unfoldable pub reset_randomized_election_timeout : Raft S → Raft S
  reset_randomized_election_timeout r = record r {
    randomized_election_timeout = r.election_timeout + r.random r.draws r.election_timeout;
    draws = r.draws + 1;
  }

  unfoldable pub past_election_timeout : Raft S → Bool
  past_election_timeout r = leb r.randomized_election_timeout r.election_elapsed

  -- Neither the term nor the votes recorded so far are reset.
  unfoldable pub become_pre_candidate : Raft S → Raft S
  become_pre_candidate r = record r {
    state = pre_candidate;
    step = steps_candidate;
    tick = ticks_election;
    lead = 0;
  }

module _ {S : Type 0} ⦃st : Storage S⦄ where
  unfoldable pub reset_tracker : Raft S → ProgressTracker
  unfolding reset_votes
  reset_tracker r = record (reset_votes r.trk) {
    progress = visit (reset_progress r.id (last_index r.raft_log)) r.trk.progress;
  }

  unfoldable pub reset : ℕ → Raft S → Raft S
  unfolding reset_tracker reset_randomized_election_timeout abort_leader_transfer
  reset term r =
      let r1 = abort_leader_transfer (reset_randomized_election_timeout r) in
      record r1 {
        term = term;
        voted_for = if r.term == term then r.voted_for else 0;
        lead = 0;
        election_elapsed = 0;
        heartbeat_elapsed = 0;
        trk = reset_tracker r;
        pending_read_index_requests = [];
        read_only = new_read_only;
      }

  unfoldable pub become_follower : ℕ → ℕ → Raft S → Raft S
  unfolding reset
  become_follower term lead r = record (reset term (record r { state = follower })) {
    lead = lead;
    step = steps_follower;
    tick = ticks_election;
  }

  unfoldable pub become_candidate : Raft S → Raft S
  unfolding reset
  become_candidate r =
      record (reset (add64 r.term 1)
        (record r { state = candidate; step = steps_candidate; tick = ticks_election })) {
          voted_for = r.id;
        }
