-- ===== src/Log/Interface.antt =====
-- The interface `Storage` of src/raft/storage.go, as the raft log and the state machine use it.
-- `S` is the state of an implementation. A Go pair of a value and an error is an `Option`, whose
-- `none` is any error.
use kvgo.Common.{
  Bool, List, Option, Outcome, get_elem?, length, ret, some, u64_mod, ℕ, ◌+◌, ◌-◌, ◌<◌, ◌≡◌, ◌≤◌,
}
use kvgo.Pb.{Entry, SnapshotMeta, HardState}

pub record Storage (S : Type 0) : Type 0 where
  pub initial_state : S → Option HardState
  pub first_index : S → ℕ
  pub last_index : S → ℕ
  pub entries : S → ℕ → ℕ → Outcome (Option (List Entry))
  pub term : S → ℕ → Outcome (Option ℕ)
  pub snapshot : S → Option SnapshotMeta
  -- the new state, and whether there was no error
  pub apply_snapshot : S → SnapshotMeta → S × Bool

-- What the log relies on: from `first_index` to `last_index` the state holds an entry at each
-- index above 0, `view`, with that index, and `entries` and `term` read it.
pub record Reads {S : Type 0} (st : Storage S) (s : S) (view : ℕ → Option Entry) : Type 0 where
  pub last_fits : st.last_index s + 1 < u64_mod
  pub held :
      (i : ℕ)
      → 0 < i
      → st.first_index s ≤ i
      → i ≤ st.last_index s
      → (e : Entry) × (view i ≡ some e) × (e.index ≡ i)
  pub term_lem :
      (i : ℕ) (e : Entry)
      → 0 < i
      → st.first_index s ≤ i
      → i ≤ st.last_index s
      → view i ≡ some e
      → st.term s i ≡ ret (some e.term)
  pub entries_lem :
      (lo hi : ℕ)
      → 0 < lo
      → st.first_index s ≤ lo
      → lo < hi
      → hi ≤ st.last_index s + 1
      → (es : List Entry) × (st.entries s lo hi ≡ ret (some es))
        × (length es ≡ hi - lo)
        × ((i : ℕ) → i < hi - lo → get_elem? es i ≡ view (lo + i))
