-- ===== src/Examples/Values.antt =====
-- The values of the examples.
use kvgo.Common.{[], arith, refl, true, ℕ, ◌+◌, ◌∷◌, ◌≡◌}
use kvgo.Pb.{Entry}
use kvgo.Tracker.{Progress}
use kvgo.Log.Interface.{Storage}
use kvgo.Log.View.{IsWellFormed}
use kvgo.Log.{RaftLog, last_index as log_last}
use kvgo.Log.LogUnstable.{maybe_last_index}
use kvgo.ReadOnly.{new_read_only}
use kvgo.Raft.{Raft, State, TickFunc, StepFunc}
use kvgo.Durable.{DurableStorage, durable, first_index, last_index}
use kvgo.Durable.Reading.{IsStored, stored_at, durable-Reads}

abbrev pub entry : ℕ → ℕ → Entry
entry index term = record { index = index; term = term; payload = 7 ∷ [] }

abbrev pub stored : DurableStorage
stored = record {
  hd = record { term = 2; voted_for = 3; committed_index = 1 };
  entries = entry 1 1 ∷ entry 2 1 ∷ [];
  snap = record { last_included_index = 0; last_included_term = 0 };
  compact_threshold = 100;
}

instance abbrev pub disk : Storage DurableStorage
disk = durable true

abbrev pub three : RaftLog DurableStorage
three = record {
  storage = stored;
  unstable = record { entries = entry 3 2 ∷ []; offset = 3 };
  committed = 1;
  applied = 0;
}

pub stored-IsStored : IsStored stored
stored-IsStored = record { contiguous = (refl, (refl, tt)); fits = omega arith }

pub three-IsWellFormed : IsWellFormed disk three (stored_at stored)
unfolding last_index first_index
three-IsWellFormed = record {
  reads = durable-Reads stored stored-IsStored true;
  contiguous = (refl, tt);
  fits = omega arith;
  joined = omega arith;
  tail = λ e. cc;
  first_le = omega arith;
  offset_pos = omega arith;
  applied_le = omega arith;
  committed_le = omega arith;
}

abbrev pub acked : ℕ → Progress
acked i = record { match_index = i; next_index = i + 1; recent_active = true }

-- A node of a group of three, in term 2, with a vote for node 3.
abbrev pub node : State → TickFunc → StepFunc → ℕ → Raft DurableStorage
node state tick step lead = record {
  id = 1;
  term = 2;
  state = state;
  raft_log = three;
  messages = [];
  msgs_after_append = [];
  trk = record {
    self_id = 1;
    voters = 1 ∷ 2 ∷ 3 ∷ [];
    progress = (1, acked 3) ∷ (2, acked 3) ∷ (3, acked 1) ∷ [];
    votes = [];
  };
  peers = 1 ∷ 2 ∷ 3 ∷ [];
  voted_for = 3;
  read_states = [];
  read_only = new_read_only;
  pending_read_index_requests = [];
  lead = lead;
  heartbeat_timeout = 1;
  election_timeout = 10;
  election_elapsed = 0;
  heartbeat_elapsed = 0;
  randomized_election_timeout = 15;
  lead_transferee = 0;
  tick = tick;
  step = step;
  random = λ k n. 0;
  draws = 0;
}

pub three_last : log_last three ≡ 3
unfolding log_last maybe_last_index
three_last = refl
