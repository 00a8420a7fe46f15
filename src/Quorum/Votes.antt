-- ===== src/Quorum/Votes.antt =====
-- What `VoteResult` decides, in terms of how many voters granted and how many are missing.
use kvgo.Common.{
  Bool, Option, [], arith, count, false, insert, length, lookup, lookup-insert, nat_eq, none, refl,
  some, true, ℕ, ◌*◌, ◌+◌, ◌<◌, ◌↔◌, ◌∷◌, ◌≡◌, ◌≢◌, ◌≤◌,
}
use kvgo.Quorum.{vote_pending, vote_lost, vote_won, MajorityConfig, Votes, tally, vote_result}

abbrev pub is_grant : Option Bool → Bool
is_grant none = false
is_grant (some b) = b

abbrev pub is_missing : Option Bool → Bool
is_missing none = true
is_missing (some b) = false

-- The voters of `c` that voted yes, and those that have not voted.
abbrev pub grants : Votes → MajorityConfig → ℕ
grants votes = count (λ id. is_grant (lookup id votes))

abbrev pub missing : Votes → MajorityConfig → ℕ
missing votes = count (λ id. is_missing (lookup id votes))

pub tally_lem :
    (c : MajorityConfig) (votes : Votes) (g m : ℕ)
    → ((tally c votes (g, m)).0 ≡ g + grants votes c)
      × ((tally c votes (g, m)).1 ≡ m + missing votes c)
unfolding tally
tally_lem [] votes g m = omega arith
tally_lem (id ∷ c) votes g m =
    ground (arith, tally_lem c votes (g + 1) m, tally_lem c votes g (m + 1), tally_lem c votes g m)

-- A vote among at least one voter is won exactly when more than half of the voters granted it, and
-- lost exactly when those that granted it and those that have not voted are at most half.
pub vote_result_lem :
    (c : MajorityConfig) (votes : Votes)
    → c ≢ []
    → ((vote_result c votes ≡ vote_won) ↔ (length c < 2 * grants votes c))
      × ((vote_result c votes ≡ vote_lost) ↔ (2 * (grants votes c + missing votes c) ≤ length c))
unfolding vote_result
vote_result_lem [] votes h = absurd (h refl)
vote_result_lem (id ∷ c) votes h = ground (arith, tally_lem (id ∷ c) votes 0 0)

-- Recording the vote of one that has not voted.
record-grants :
    (c : MajorityConfig) (votes : Votes) (id : ℕ) (v : Bool)
    → lookup id votes ≡ none
    → (grants votes c ≤ grants (insert id v votes) c)
      × (grants (insert id v votes) c + missing (insert id v votes) c
          ≤ grants votes c + missing votes c)
record-grants [] votes id v h = omega arith
record-grants (j ∷ c) votes id v h =
    ground (arith, record-grants c votes id v h, lookup-insert id j v votes)

-- A decided vote stays as it was decided, whoever else votes after that.
pub vote_result-insert :
    (c : MajorityConfig) (votes : Votes) (id : ℕ) (v : Bool)
    → lookup id votes ≡ none
    → vote_result c votes ≢ vote_pending
    → vote_result c (insert id v votes) ≡ vote_result c votes
unfolding vote_result
vote_result-insert [] votes id v h d = refl
vote_result-insert (j ∷ c) votes id v h d = ground (
  arith,
  tally_lem (j ∷ c) votes 0 0,
  tally_lem (j ∷ c) (insert id v votes) 0 0,
  record-grants (j ∷ c) votes id v h,
)
