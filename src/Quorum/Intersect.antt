-- ===== src/Quorum/Intersect.antt =====
-- Two quorums of one configuration share a voter.
use kvgo.Common.{
  Bool, Bool-cases, List, [], arith, count, inl, inr, length, lookup, nat_eq, some, true, ℕ, ◌&&◌,
  ◌+◌, ◌<◌, ◌∷◌, ◌≡◌, ◌≢◌,
}
use mathlib.Core.List.{Mem, mem-cons_self, mem-cons_of_mem}
use kvgo.Quorum.{MajorityConfig, Votes, vote_won, vote_result}
use kvgo.Quorum.Votes.{is_grant, vote_result_lem}

-- If two tests together pass more often than there are items, some item passes both.
count_overlap :
    (p q : ℕ → Bool) (xs : List ℕ)
    → length xs < count p xs + count q xs
    → (x : ℕ) × Mem x xs × (p x ≡ true) × (q x ≡ true)
count_overlap p q [] h = absurd (omega arith)
count_overlap p q (x ∷ xs) h = elim (Bool-cases (p x && q x)) [
  | inl both ↦ (x, mem-cons_self, ground arith, ground arith)
  | inr other ↦
      let (y, mem, py, qy) = count_overlap p q xs (ground arith) in
      (y, mem-cons_of_mem x mem, py, qy)
]

-- Two votes that are both won among the same voters, at least one, have a voter in common who
-- granted both.
pub vote_result_intersect :
    (c : MajorityConfig) (a b : Votes)
    → c ≢ []
    → vote_result c a ≡ vote_won
    → vote_result c b ≡ vote_won
    → (id : ℕ) × Mem id c × (lookup id a ≡ some true) × (lookup id b ≡ some true)
vote_result_intersect c a b h wa wb =
    let p = λ (id : ℕ). is_grant (lookup id a) in
    let q = λ (id : ℕ). is_grant (lookup id b) in
    let (id, mem, ga, gb) =
      count_overlap p q c
        (omega (arith, (vote_result_lem c a h).0.0 wa, (vote_result_lem c b h).0.0 wb)) in
    (id, mem, ground arith, ground arith)
