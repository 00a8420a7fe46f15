-- ===== src/Raft/Output.antt =====
-- What the state machine hands out: `Ready`, `HasReady`, `Advance`, and the hard state.
use kvgo.Common.{
  Bool, List, Option, Outcome, [], false, get_last?, if◌then◌else◌, none, ret, some, true, ℕ, ◌&&◌,
  ◌++◌, ◌==◌, ◌>>=◌, ◌||◌, ◌∷◌,
}
use kvgo.Pb.{Entry, HardState, Message}
use kvgo.Log.Interface.{Storage}
use kvgo.Log.{
  RaftLog, next_unstable_ents, next_committed_ents, has_next_unstable_ents, has_next_committed_ents,
  log_stable_to, applied_to, commit_to,
}
use kvgo.Raft.{Raft, Ready}

abbrev pub is_empty_hard_state : Option HardState → Bool
is_empty_hard_state none = true
is_empty_hard_state (some hard) =
    (hard.term == 0) && ((hard.voted_for == 0) && (hard.committed_index == 0))

-- The messages that are not to the node itself.
abbrev pub to_others : ℕ → List Message → List Message
to_others id [] = []
to_others id (m ∷ ms) = let rest = to_others id ms in if m.to == id then rest else m ∷ rest

abbrev pub is_nonempty {ℓ} : {A : Type ℓ} → List A → Bool
is_nonempty [] = false
is_nonempty (x ∷ xs) = true

module _ {S : Type 0} where
  abbrev pub hard_state : Raft S → HardState
  hard_state r = record {
    term = r.term;
    voted_for = r.voted_for;
    committed_index = r.raft_log.committed;
  }

module _ {S : Type 0} ⦃st : Storage S⦄ where
  unfoldable pub ready : Raft S → Outcome Ready
  ready r = do
    committed ← next_committed_ents r.raft_log
    ret (record {
      lead = r.lead;
      entries = next_unstable_ents r.raft_log;
      committed_entries = committed;
      messages = r.messages ++ to_others r.id r.msgs_after_append;
      hard_state = some (hard_state r);
      read_states = r.read_states;
    })

  unfoldable pub has_ready : Raft S → Bool
  has_ready r =
      is_nonempty r.messages
      || (is_nonempty r.msgs_after_append
          || (is_nonempty r.read_states
              || (has_next_unstable_ents r.raft_log || has_next_committed_ents r.raft_log)))

  abbrev pub stable_up_to : Option Entry → RaftLog S → Outcome (RaftLog S)
  stable_up_to none l = ret l
  stable_up_to (some e) l = log_stable_to e.index e.term l

  abbrev pub applied_up_to : Option Entry → RaftLog S → RaftLog S
  applied_up_to none l = l
  applied_up_to (some e) l = applied_to e.index l

  unfoldable pub advance : Ready → Raft S → Outcome (Raft S)
  advance rd r = do
    log ← stable_up_to (get_last? rd.entries) r.raft_log
    ret (record r {
      raft_log = applied_up_to (get_last? rd.committed_entries) log;
      messages = [];
      read_states = [];
    })

  unfoldable pub raft_commit_to : ℕ → Raft S → Outcome (Raft S)
  raft_commit_to index r = do log ← commit_to index r.raft_log; ret (record r { raft_log = log })
