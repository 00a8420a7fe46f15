-- ===== src/Raft.antt =====
-- The state machine of src/raft/raft.go, over any `Storage`. This file holds its state; its methods
-- are in the children.
pub mod Send
pub mod Become
pub mod Replicate
pub mod Handle
pub mod Campaign
pub mod Leader
pub mod Step
pub mod Clock
pub mod Output
pub mod Create
pub mod Invariant
pub mod Voting
pub mod Committing
pub mod Following
pub mod Rejecting
pub mod Outdated
pub mod Advancing
use kvgo.Common.{List, Option, Outcome, none, panic, ret, ℕ}
use kvgo.Pb.{Entry, Message, HardState}
use kvgo.Tracker.{ProgressTracker}
use kvgo.Log.{RaftLog}
use kvgo.ReadOnly.{ReadState, ReadOnly}

pub data State : Type 0 where
  follower pre_candidate candidate leader : State

-- The functions that the fields `tick` and `step` can hold.
pub data TickFunc : Type 0 where
  ticks_election ticks_heartbeat : TickFunc

pub data StepFunc : Type 0 where
  steps_follower steps_candidate steps_leader : StepFunc

-- The errors that `Step` returns: ErrProposalDropped, and that for an unknown peer.
pub data StepError : Type 0 where
  proposal_dropped unknown_peer : StepError

pub record Ready : Type 0 where
  pub lead : ℕ
  pub entries : List Entry
  pub committed_entries : List Entry
  pub messages : List Message
  pub hard_state : Option HardState
  pub read_states : List ReadState

-- `random k n` stands for the k-th number drawn from `crypto/rand` below `n`, and `draws` counts the
-- draws. The mutex around the draw and the logger are left out.
pub record Raft (S : Type 0) : Type 0 where
  pub id : ℕ
  pub term : ℕ
  pub state : State
  pub raft_log : RaftLog S
  pub messages : List Message
  pub msgs_after_append : List Message
  pub trk : ProgressTracker
  pub peers : List ℕ
  pub voted_for : ℕ
  pub read_states : List ReadState
  pub read_only : ReadOnly
  pub pending_read_index_requests : List Message
  pub lead : ℕ
  pub heartbeat_timeout : ℕ
  pub election_timeout : ℕ
  pub election_elapsed : ℕ
  pub heartbeat_elapsed : ℕ
  pub randomized_election_timeout : ℕ
  pub lead_transferee : ℕ
  pub tick : TickFunc
  pub step : StepFunc
  pub random : ℕ → ℕ → ℕ
  pub draws : ℕ

-- What a call of `step` gives: the state, and the error returned, if any.
abbrev pub Stepped : Type 0 → Type 0
Stepped S = Outcome (Raft S × Option StepError)

abbrev pub done : {S : Type 0} → Outcome (Raft S) → Stepped S
done (ret r) = ret (r, none)
done panic = panic
