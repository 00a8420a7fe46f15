-- ===== src/Node.antt =====
-- The goroutine of src/raft/node.go that owns the state machine: one turn of the loop of `run`, for
-- each case of its `select`. A send or receive on a channel that is nil never happens; the requests'
-- reply channels, the contexts of the callers and `Stop` are left out.
pub mod Turns
use kvgo.Common.{
  Bool, List, Option, Outcome, [], false, if◌then◌else◌, none, not, ret, some, true, ℕ, ◌&&◌, ◌++◌,
  ◌==◌, ◌>>=◌, ◌∷◌,
}
use kvgo.Pb.{HardState, Message}
use kvgo.Log.Interface.{Storage}
use kvgo.Raft.{Raft, Ready, Stepped}
use kvgo.Raft.Step.{step, propose, campaign, read_index}
use kvgo.Raft.Clock.{ignore_error, tick}
use kvgo.Raft.Output.{is_empty_hard_state, hard_state, ready, has_ready, advance}

-- `readyc` and `advancec` say whether the local channels of `run` are set; `prev_hard` is `none`
-- for nil, and `rd` is `none` for the empty `Ready`.
pub record Node (S : Type 0) : Type 0 where
  pub r : Raft S
  pub prev_hard : Option HardState
  pub steps_on_advance : List Message
  pub rd : Option Ready
  pub readyc : Bool
  pub advancec : Bool

-- The cases of the `select`.
pub data Event : Type 0 where
  deliver acknowledge request_campaign clock : Event
  request_propose request_read_index : List ℕ → Event
  request_step : Message → Event

unfoldable pub hard_states_equal : Option HardState → Option HardState → Bool
hard_states_equal none none = true
hard_states_equal none (some b) = false
hard_states_equal (some a) none = false
hard_states_equal (some a) (some b) =
    (a.term == b.term) && ((a.voted_for == b.voted_for) && (a.committed_index == b.committed_index))

-- A hard state is left out of a `Ready` if it is the one of the last.
abbrev pub news_only : Option HardState → Ready → Ready
news_only prev rd =
    if hard_states_equal rd.hard_state prev then record rd { hard_state = none } else rd

-- The messages to the node itself.
unfoldable pub to_self : ℕ → List Message → List Message
to_self id [] = []
to_self id (m ∷ ms) = let rest = to_self id ms in if m.to == id then m ∷ rest else rest

abbrev pub hard_of : Option Ready → Option HardState
hard_of none = none
hard_of (some rd) = rd.hard_state

abbrev pub or_empty : Option Ready → Ready
or_empty none = record {
  lead = 0;
  entries = [];
  committed_entries = [];
  messages = [];
  hard_state = none;
  read_states = [];
}
or_empty (some rd) = rd

module _ {S : Type 0} ⦃st : Storage S⦄ where
  unfoldable pub setup_node : Raft S → Node S
  setup_node r = record {
    r = r;
    prev_hard = none;
    steps_on_advance = [];
    rd = none;
    readyc = false;
    advancec = false;
  }

  unfoldable pub node_has_ready : Node S → Bool
  node_has_ready n =
      let hard = some (hard_state n.r) in
      if not (is_empty_hard_state hard) && not (hard_states_equal hard n.prev_hard)
      then true
      else has_ready n.r

  unfoldable pub node_ready : Node S → Outcome Ready
  node_ready n = do rd ← ready n.r; ret (news_only n.prev_hard rd)

  -- The top of the loop: a `Ready` is offered if none is in flight and there is something to do.
  unfoldable pub offer : Node S → Outcome (Node S)
  offer n =
      if not n.advancec && node_has_ready n
      then (do rd ← node_ready n; ret (record n { readyc = true; rd = some rd }))
      else ret n

  -- `case readyc <- rd`
  unfoldable pub delivered : Node S → Node S
  delivered n = record n {
    readyc = false;
    advancec = true;
    steps_on_advance = n.steps_on_advance ++ to_self n.r.id n.r.msgs_after_append;
    r = record (n.r) { msgs_after_append = [] };
  }

  unfoldable pub step_all : List Message → Raft S → Outcome (Raft S)
  step_all [] r = ret r
  step_all (m ∷ ms) r = do r1 ← ignore_error (step m r); step_all ms r1

  -- `case <-advancec`
  unfoldable pub acknowledged : Node S → Outcome (Node S)
  acknowledged n = do
    r1 ← advance (or_empty n.rd) n.r
    r2 ← step_all n.steps_on_advance r1
    ret (record n {
      r = r2;
      prev_hard = if is_empty_hard_state (hard_of n.rd) then n.prev_hard else hard_of n.rd;
      steps_on_advance = [];
      rd = none;
      advancec = false;
    })

  abbrev pub with_raft : Node S → Outcome (Raft S) → Outcome (Option (Node S))
  with_raft n o = do r ← o; ret (some (record n { r = r }))

  abbrev pub finished : Outcome (Node S) → Outcome (Option (Node S))
  finished o = do n ← o; ret (some n)

  -- `none` where the event's channel is nil.
  unfoldable pub serve : Event → Node S → Outcome (Option (Node S))
  serve deliver n = if n.readyc then ret (some (delivered n)) else ret none
  serve acknowledge n = if n.advancec then finished (acknowledged n) else ret none
  serve request_campaign n = with_raft n (ignore_error (campaign n.r))
  serve clock n = with_raft n (tick n.r)
  serve (request_propose payload) n = with_raft n (ignore_error (propose payload n.r))
  serve (request_read_index ctx) n = with_raft n (ignore_error (read_index ctx n.r))
  serve (request_step m) n = with_raft n (ignore_error (step m n.r))

  unfoldable pub turn : Event → Node S → Outcome (Option (Node S))
  turn e n = do n1 ← offer n; serve e n1
