-- ===== src/Log.antt =====
-- The two-layer raft log of src/raft/log.go and src/raft/log_unstable.go, over any implementation
-- of the interface `Storage` of src/raft/storage.go.
pub mod LogUnstable
pub mod Interface
pub mod View
pub mod Append
pub mod Matching
pub mod Slices
pub mod Stable
use kvgo.Common.{
  Bool, List, Option, Outcome, [], add64, drop, false, if◌then◌else◌, leb, length, ltb, max, min,
  none, panic, ret, some, sub64, take, ℕ, ◌&&◌, ◌++◌, ◌-◌, ◌==◌, ◌>>=◌, ◌||◌, ◌∷◌,
}
use kvgo.Pb.{Entry, SnapshotMeta}
use LogUnstable.{Unstable, stable_to, truncate_and_append, maybe_last_index, maybe_term}
use Interface.{Storage}

pub record RaftLog (S : Type 0) : Type 0 where
  pub storage : S
  pub unstable : Unstable
  pub committed : ℕ
  pub applied : ℕ

abbrev pub term_or : Outcome (Option ℕ) → Option ℕ → Outcome (Option ℕ)
term_or stored none = stored
term_or stored (some t) = ret (some t)

abbrev pub is_term : ℕ → Option ℕ → Bool
is_term t none = false
is_term t (some t') = t' == t

abbrev pub last_or : ℕ → Option ℕ → ℕ
last_or stored none = stored
last_or stored (some i) = i

-- The bounds of a Go slice expression: a panic unless lo <= hi <= len.
abbrev pub slice_list : ℕ → ℕ → List Entry → Outcome (List Entry)
slice_list lo hi xs =
    if leb lo hi && leb hi (length xs) then ret (take (hi - lo) (drop lo xs)) else panic

abbrev pub entry_id : ℕ → Option ℕ → Outcome (ℕ × ℕ)
entry_id index none = panic
entry_id index (some t) = ret (index, t)

module _ {S : Type 0} ⦃st : Storage S⦄ where
  unfoldable pub new_raft_log : S → RaftLog S
  new_raft_log storage =
      let first = st.first_index storage in
      let start = if ltb 0 first then first - 1 else 0 in
      record {
        storage = storage;
        unstable = record { entries = []; offset = add64 (st.last_index storage) 1 };
        committed = start;
        applied = start;
      }

  unfoldable pub term : ℕ → RaftLog S → Outcome (Option ℕ)
  term i l =
      if i == 0 then ret (some 0) else term_or (st.term l.storage i) (maybe_term i l.unstable)

  unfoldable pub match_term : ℕ → ℕ → RaftLog S → Outcome Bool
  unfolding term
  match_term i t l = do found ← term i l; ret (is_term t found)

  unfoldable pub next_unstable_ents : RaftLog S → List Entry
  next_unstable_ents l = l.unstable.entries

  unfoldable pub last_index : RaftLog S → ℕ
  last_index l = last_or (st.last_index l.storage) (maybe_last_index l.unstable)

  unfoldable pub log_stable_to : ℕ → ℕ → RaftLog S → Outcome (RaftLog S)
  log_stable_to i t l = do u ← stable_to i t l.unstable; ret (record l { unstable = u })

  unfoldable pub applied_to : ℕ → RaftLog S → RaftLog S
  applied_to i l = record l { applied = i }

  unfoldable pub commit_to : ℕ → RaftLog S → Outcome (RaftLog S)
  commit_to i l =
      if leb i l.committed
      then ret l
      else if ltb (last_index l) i
      then panic
      else ret (record l { committed = i })

  -- The result of the Go method, the new last index, is not used by its callers.
  unfoldable pub append_entries : List Entry → RaftLog S → Outcome (RaftLog S)
  append_entries [] l = ret l
  append_entries (e ∷ es) l =
      if ltb (sub64 e.index 1) l.committed
      then panic
      else do u ← truncate_and_append (e ∷ es) l.unstable; ret (record l { unstable = u })

  unfoldable pub has_next_unstable_ents : RaftLog S → Bool
  has_next_unstable_ents l = ltb 0 (length l.unstable.entries)

  unfoldable pub has_next_committed_ents : RaftLog S → Bool
  has_next_committed_ents l = ltb l.applied l.committed

  -- The part of [lo, hi) that is read from storage; `none` stands for the early return.
  abbrev pub stored_part : ℕ → ℕ → RaftLog S → Outcome (Option (List Entry))
  stored_part lo hi l =
      if ltb lo l.unstable.offset
      then st.entries l.storage lo (min hi l.unstable.offset)
      else ret (some [])

  abbrev pub unstable_part : ℕ → ℕ → RaftLog S → List Entry → Outcome (List Entry)
  unstable_part lo hi l ents =
      if ltb l.unstable.offset hi
      then (do
        rest ←
            slice_list (max lo l.unstable.offset - l.unstable.offset)
              (min (hi - l.unstable.offset) (length l.unstable.entries)) l.unstable.entries
        ret (ents ++ rest))
      else ret ents

  abbrev pub slice_rest : ℕ → ℕ → RaftLog S → Option (List Entry) → Outcome (List Entry)
  slice_rest lo hi l none = ret []
  slice_rest lo hi l (some ents) = unstable_part lo hi l ents

  unfoldable pub slice : ℕ → ℕ → RaftLog S → Outcome (List Entry)
  slice lo hi l =
      if leb hi lo then ret [] else (do ents ← stored_part lo hi l; slice_rest lo hi l ents)

  unfoldable pub next_committed_ents : RaftLog S → Outcome (List Entry)
  unfolding slice
  next_committed_ents l =
      if leb l.committed l.applied
      then ret []
      else slice (add64 l.applied 1) (add64 l.committed 1) l

  unfoldable pub last_entry_id : RaftLog S → Outcome (ℕ × ℕ)
  last_entry_id l =
      if last_index l == 0
      then ret (0, 0)
      else (do t ← term (last_index l) l; entry_id (last_index l) t)

  unfoldable pub is_up_to_date : ℕ → ℕ → RaftLog S → Outcome Bool
  is_up_to_date index t l = do
    (last, last_term) ← last_entry_id l
    ret (ltb last_term t || ((t == last_term) && leb last index))

  unfoldable pub restore : ℕ → RaftLog S → RaftLog S
  restore snap_index l = record l {
    unstable = record { entries = []; offset = add64 snap_index 1 };
    committed = if ltb l.committed snap_index then snap_index else l.committed;
    applied = if ltb l.applied snap_index then snap_index else l.applied;
  }
