-- ===== src/Quorum.antt =====
-- The majority quorum of src/raft/quorum/quorum.go. A `MajorityConfig`, a Go map with no values, is
-- the list of its voters' ids; the votes are a map from ids to Booleans.
pub mod Votes
pub mod Intersect
pub mod Sort
pub mod Commit
use kvgo.Common.{
  Bool, List, Option, [], false, get_or, if◌then◌else◌, leb, length, lookup, nat_eq, none,
  replicate, reverse, some, true, u64_mod, ℕ, ◌++◌, ◌+◌, ◌-◌, ◌/◌, ◌∷◌,
}

pub data VoteResult : Type 0 where
  vote_pending vote_lost vote_won : VoteResult

abbrev pub MajorityConfig : Type 0
MajorityConfig = List ℕ

abbrev pub Votes : Type 0
Votes = List (ℕ × Bool)

-- The loop's counters, `granted` and `missing`, after one more voter.
abbrev pub count_vote : Option Bool → ℕ × ℕ → ℕ × ℕ
count_vote none (granted, missing) = (granted, missing + 1)
count_vote (some true) (granted, missing) = (granted + 1, missing)
count_vote (some false) (granted, missing) = (granted, missing)

pub tally : MajorityConfig → Votes → ℕ × ℕ → ℕ × ℕ
tally [] votes counters = counters
tally (id ∷ c) votes counters = tally c votes (count_vote (lookup id votes) counters)

abbrev pub vote_outcome : ℕ → ℕ × ℕ → VoteResult
vote_outcome q (granted, missing) =
    if leb q granted
    then vote_won
    else if leb q (granted + missing)
    then vote_pending
    else vote_lost

unfoldable pub vote_result : MajorityConfig → Votes → VoteResult
unfolding tally
vote_result [] votes = vote_won
vote_result (id ∷ c) votes = vote_outcome (length (id ∷ c) / 2 + 1) (tally (id ∷ c) votes (0, 0))

-- `sort.Slice` by `<`.
unfoldable pub insert_sorted : ℕ → List ℕ → List ℕ
insert_sorted x [] = x ∷ []
insert_sorted x (y ∷ ys) = if leb x y then x ∷ y ∷ ys else y ∷ insert_sorted x ys

unfoldable pub sort : List ℕ → List ℕ
unfolding insert_sorted
sort [] = []
sort (x ∷ xs) = insert_sorted x (sort xs)

-- The indexes that the voters have acknowledged, in the order of the loop.
unfoldable pub acked_indexes : MajorityConfig → (ℕ → Option ℕ) → List ℕ
acked_indexes [] acked_index = []
acked_indexes (id ∷ c) acked_index = elim (acked_index id) [
  | some idx ↦ idx ∷ acked_indexes c acked_index
  | none ↦ acked_indexes c acked_index
]

-- The slice `srt`: made of zeros, and filled from its end.
unfoldable pub fill_from_end : ℕ → List ℕ → List ℕ
fill_from_end n idxs = replicate (n - length idxs) 0 ++ reverse idxs

unfoldable pub committed_index : MajorityConfig → (ℕ → Option ℕ) → ℕ
unfolding sort acked_indexes fill_from_end
committed_index [] acked_index = u64_mod - 1
committed_index (id ∷ c) acked_index =
    let n = length (id ∷ c) in
    let srt = sort (fill_from_end n (acked_indexes (id ∷ c) acked_index)) in
    get_or srt (n - (n / 2 + 1)) 0
