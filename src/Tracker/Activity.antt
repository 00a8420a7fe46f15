-- ===== src/Tracker/Activity.antt =====
-- When the leader's quorum counts as active.
use kvgo.Common.{
  Bool, Option, [], arith, count, false, length, lookup, lookup-insert, nat_eq, none, refl, some,
  true, ℕ, ◌*◌, ◌<◌, ◌↔◌, ◌∷◌, ◌≡◌, ◌≢◌,
}
use kvgo.Quorum.{MajorityConfig}
use kvgo.Quorum.Votes.{grants, is_grant, vote_result_lem}
use kvgo.Tracker.{Progress, ProgressMap, ProgressTracker, active_votes, quorum_active}

abbrev pub is_active : Option Progress → Bool
is_active none = false
is_active (some pr) = pr.recent_active

-- The voters whose progress is marked active.
abbrev pub active_voters : ProgressMap → MajorityConfig → ℕ
active_voters m = count (λ id. is_active (lookup id m))

grant-active_votes :
    (m : ProgressMap) (id : ℕ) → is_grant (lookup id (active_votes m)) ≡ is_active (lookup id m)
grant-active_votes [] id = refl
grant-active_votes ((j, pr) ∷ m) id =
    ground (arith, lookup-insert j id pr.recent_active (active_votes m), grant-active_votes m id)

grants-active_votes :
    (m : ProgressMap) (c : MajorityConfig) → grants (active_votes m) c ≡ active_voters m c
grants-active_votes m [] = refl
grants-active_votes m (id ∷ c) = ground (arith, grant-active_votes m id, grants-active_votes m c)

-- With at least one voter, the quorum is active exactly when more than half of the voters are
-- marked active.
pub quorum_active_lem :
    (t : ProgressTracker)
    → t.voters ≢ []
    → (quorum_active t ≡ true) ↔ (length t.voters < 2 * active_voters t.progress t.voters)
unfolding quorum_active
quorum_active_lem t h = ground (
  arith,
  vote_result_lem t.voters (active_votes t.progress) h,
  grants-active_votes t.progress t.voters,
)
