-- ===== src/Raft/Create.antt =====
-- `newRaft`, with the checks on its configuration (src/raft/raft.go, `Config` in src/raft/node.go).
use kvgo.Common.{
  Bool, List, Option, Outcome, [], if◌then◌else◌, ltb, none, panic, ret, some, ℕ, ◌&&◌, ◌-◌, ◌==◌,
  ◌>>=◌, ◌∷◌,
}
use kvgo.Pb.{HardState}
use kvgo.Quorum.{MajorityConfig}
use kvgo.Tracker.{ProgressTracker, new_tracker, init_progress}
use kvgo.ReadOnly.{new_read_only}
use kvgo.Log.Interface.{Storage}
use kvgo.Log.{new_raft_log}
use kvgo.Raft.{Raft, follower, ticks_election, steps_follower}
use kvgo.Raft.Become.{become_follower}
use kvgo.Raft.Output.{is_empty_hard_state}

-- A `Storage` is always given; the logger is left out.
pub record Config (S : Type 0) : Type 0 where
  pub id : ℕ
  pub peers : List ℕ
  pub storage : S
  pub applied : ℕ
  pub election_tick : ℕ
  pub heartbeat_tick : ℕ
  pub random : ℕ → ℕ → ℕ

unfoldable pub validate : {S : Type 0} → Config S → Bool
validate c = ltb 0 c.heartbeat_tick && ltb c.heartbeat_tick c.election_tick

-- `c[id] = struct{}{}`
abbrev pub add_voter : ℕ → MajorityConfig → MajorityConfig
add_voter id [] = id ∷ []
add_voter id (v ∷ c) = if v == id then v ∷ c else v ∷ add_voter id c

abbrev pub add_voters : MajorityConfig → List ℕ → MajorityConfig
add_voters c [] = c
add_voters c (pid ∷ pids) = add_voters (add_voter pid c) pids

unfoldable pub build_majority_config : ℕ → List ℕ → MajorityConfig
build_majority_config self peers = add_voters (self ∷ []) peers

abbrev pub init_all : List ℕ → ProgressTracker → ProgressTracker
init_all [] t = t
init_all (pid ∷ pids) t = init_all pids (init_progress pid 0 1 t)

-- The applied index must not pass the committed one, nor lie before the compaction boundary.
abbrev pub start_applied : ℕ → ℕ → ℕ → ℕ → Outcome ℕ
start_applied applied committed first_index old =
    if ltb committed applied
    then panic
    else if ltb 0 applied && (ltb 0 first_index && ltb applied (first_index - 1))
    then panic
    else if ltb 0 applied
    then ret applied
    else if ltb 0 first_index
    then ret (first_index - 1)
    else ret old

module _ {S : Type 0} ⦃st : Storage S⦄ where
  abbrev pub blank : Config S → Raft S
  blank c = record {
    id = c.id;
    term = 0;
    state = follower;
    raft_log = new_raft_log c.storage;
    messages = [];
    msgs_after_append = [];
    trk = init_all c.peers (new_tracker c.id (build_majority_config c.id c.peers));
    peers = c.peers;
    voted_for = 0;
    read_states = [];
    read_only = new_read_only;
    pending_read_index_requests = [];
    lead = 0;
    heartbeat_timeout = c.heartbeat_tick;
    election_timeout = c.election_tick;
    election_elapsed = 0;
    heartbeat_elapsed = 0;
    randomized_election_timeout = 0;
    lead_transferee = 0;
    tick = ticks_election;
    step = steps_follower;
    random = c.random;
    draws = 0;
  }

  -- An error of `InitialState` panics.
  abbrev pub load_hard_state : Option HardState → Raft S → Outcome (Raft S)
  load_hard_state none r = panic
  load_hard_state (some hs) r =
      if is_empty_hard_state (some hs)
      then ret r
      else ret (record r {
        term = hs.term;
        voted_for = hs.voted_for;
        raft_log = record (r.raft_log) { committed = hs.committed_index };
      })

  unfoldable pub new_raft : Config S → Outcome (Raft S)
  new_raft c =
      if validate c
      then (do
        r ← load_hard_state (st.initial_state c.storage) (blank c)
        applied ←
            start_applied c.applied r.raft_log.committed (st.first_index c.storage)
              r.raft_log.applied
        ret (
            become_follower r.term 0
              (record r { raft_log = record (r.raft_log) { applied = applied } })))
      else panic
