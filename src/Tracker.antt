-- ===== src/Tracker.antt =====
-- The progress tracker of src/raft/tracker/tracker.go. `Visit` runs over the progress map in the
-- order of the list, which stands for any order of Go's `range`.
pub mod Activity
use kvgo.Common.{
  Bool, List, Option, [], false, insert, length, lookup, nat_eq, none, some, true, ℕ, ◌==◌, ◌∷◌,
}
use kvgo.Quorum.{VoteResult, vote_won, MajorityConfig, Votes, vote_result, committed_index}

pub record Progress : Type 0 where
  pub match_index : ℕ
  pub next_index : ℕ
  pub recent_active : Bool

abbrev pub ProgressMap : Type 0
ProgressMap = List (ℕ × Progress)

pub record ProgressTracker : Type 0 where
  pub self_id : ℕ
  pub voters : MajorityConfig
  pub progress : ProgressMap
  pub votes : Votes

unfoldable pub new_tracker : ℕ → MajorityConfig → ProgressTracker
new_tracker self_id config = record {
  self_id = self_id;
  voters = config;
  progress = (self_id, record { match_index = 0; next_index = 0; recent_active = false }) ∷ [];
  votes = [];
}

unfoldable pub init_progress : ℕ → ℕ → ℕ → ProgressTracker → ProgressTracker
init_progress id match next t = record t {
  progress =
      insert id (record { match_index = match; next_index = next; recent_active = false })
        t.progress;
}

unfoldable pub is_singleton : ProgressTracker → Bool
is_singleton t = length t.progress == 1

unfoldable pub reset_votes : ProgressTracker → ProgressTracker
reset_votes t = record t { votes = [] }

unfoldable pub record_vote : ℕ → Bool → ProgressTracker → ProgressTracker
record_vote id v t = record t { votes = insert id v t.votes }

unfoldable pub tally_votes : ProgressTracker → VoteResult
tally_votes t = vote_result t.voters t.votes

-- `Progress(id)`, `none` for the nil pointer.
unfoldable pub progress_of : ℕ → ProgressTracker → Option Progress
progress_of id t = lookup id t.progress

-- A write through the pointer that `Progress(id)` returned.
unfoldable pub set_progress : ℕ → Progress → ProgressTracker → ProgressTracker
set_progress id pr t = record t { progress = insert id pr t.progress }

abbrev pub match_of : Option Progress → Option ℕ
match_of none = none
match_of (some pr) = some pr.match_index

unfoldable pub acked_index : ProgressMap → ℕ → Option ℕ
acked_index m id = match_of (lookup id m)

unfoldable pub committed : ProgressTracker → ℕ
committed t = committed_index t.voters (acked_index t.progress)

-- `Visit` with a callback that changes the progress it is given.
abbrev pub visit : (ℕ → Progress → Progress) → ProgressMap → ProgressMap
visit f [] = []
visit f ((id, pr) ∷ m) = (id, f id pr) ∷ visit f m

abbrev pub active_votes : ProgressMap → Votes
active_votes [] = []
active_votes ((id, pr) ∷ m) = insert id pr.recent_active (active_votes m)

-- `== quorum.VoteWon`
abbrev pub is_won : VoteResult → Bool
is_won vote_won = true
is_won _ = false

unfoldable pub quorum_active : ProgressTracker → Bool
quorum_active t = is_won (vote_result t.voters (active_votes t.progress))

unfoldable pub reset_recent_active : ProgressTracker → ProgressTracker
reset_recent_active t = record t {
  progress = visit (λ id pr. record pr { recent_active = false }) t.progress;
}
