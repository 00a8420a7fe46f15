-- ===== src/Quorum/Commit.antt =====
-- `CommittedIndex` is the highest index that a majority has acknowledged.
use kvgo.Common.{
  Bool, List, Option, [], arith, count, count-append, false, leb, length, length-append,
  length-replicate, none, refl, replicate, reverse, some, suc, zero, ℕ, ◌*◌, ◌+◌, ◌-◌, ◌/◌, ◌<◌,
  ◌↔◌, ◌∷◌, ◌≡◌, ◌≢◌, ◌≤◌,
}
use kvgo.Quorum.{MajorityConfig, sort, acked_indexes, fill_from_end, committed_index}
use kvgo.Quorum.Sort.{
  SortedFrom-sort, count-sort, length-sort, count-reverse, length-reverse, sorted_count,
}

abbrev pub reaches : ℕ → Option ℕ → Bool
reaches j none = false
reaches j (some idx) = leb j idx

-- The voters of `c` that have acknowledged the index `j`.
abbrev pub ackers : ℕ → (ℕ → Option ℕ) → MajorityConfig → ℕ
ackers j acked_index = count (λ id. reaches j (acked_index id))

count-acked_indexes :
    (j : ℕ) (c : MajorityConfig) (acked_index : ℕ → Option ℕ)
    → count (leb j) (acked_indexes c acked_index) ≡ ackers j acked_index c
unfolding acked_indexes
count-acked_indexes j [] acked_index = refl
count-acked_indexes j (id ∷ c) acked_index = ground (arith, count-acked_indexes j c acked_index)

length-acked_indexes :
    (c : MajorityConfig) (acked_index : ℕ → Option ℕ)
    → length (acked_indexes c acked_index) ≤ length c
unfolding acked_indexes
length-acked_indexes [] acked_index = omega arith
length-acked_indexes (id ∷ c) acked_index = ground (arith, length-acked_indexes c acked_index)

count-zeros : (j n : ℕ) → 0 < j → count (leb j) (replicate n 0) ≡ 0
count-zeros j zero h = refl
count-zeros j (suc n) h = ground (arith, count-zeros j n h)

count-fill_from_end :
    (j n : ℕ) (xs : List ℕ) → 0 < j → count (leb j) (fill_from_end n xs) ≡ count (leb j) xs
unfolding fill_from_end
count-fill_from_end j n xs h = omega (
  arith,
  count-append (leb j) (replicate (n - length xs) 0) (reverse xs),
  count-zeros j (n - length xs) h,
  count-reverse (leb j) xs,
)

length-fill_from_end : (n : ℕ) (xs : List ℕ) → length xs ≤ n → length (fill_from_end n xs) ≡ n
unfolding fill_from_end
length-fill_from_end n xs h = omega (
  arith,
  length-append (replicate (n - length xs) 0) (reverse xs),
  length-replicate (n - length xs) (zero),
  length-reverse xs,
)

-- Among at least one voter, the committed index is at least `j`, for any `j` above 0, exactly when
-- more than half of the voters have acknowledged `j`.
pub committed_index_lem :
    (c : MajorityConfig) (acked_index : ℕ → Option ℕ) (j : ℕ)
    → c ≢ []
    → 0 < j
    → (j ≤ committed_index c acked_index) ↔ (length c < 2 * ackers j acked_index c)
unfolding committed_index
committed_index_lem [] acked_index j h k = absurd (h refl)
committed_index_lem (id ∷ c) acked_index j h k =
    let n : ℕ = length (id ∷ c) in
    let idxs = acked_indexes (id ∷ c) acked_index in
    let srt = fill_from_end n idxs in
    ground (
      arith,
      sorted_count j 0 (n - (n / 2 + 1)) (sort srt) (SortedFrom-sort srt),
      length-sort srt,
      count-sort (leb j) srt,
      length-fill_from_end n idxs (length-acked_indexes (id ∷ c) acked_index),
      count-fill_from_end j n idxs k,
      count-acked_indexes j (id ∷ c) acked_index,
    )
