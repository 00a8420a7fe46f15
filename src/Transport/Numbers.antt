-- ===== src/Transport/Numbers.antt =====
-- `allocateID` finds a number that no other request has.
use kvgo.Common.{
  Bool-cases, List, Option, [], arith, erase, false, if_rule, if◌then◌else◌, inl, inr, insert,
  length, lookup, lookup-erase, nat_eq, none, refl, some, subst, suc, sym, zero, ℕ, ◌%◌, ◌+◌, ◌<◌,
  ◌==◌, ◌∙◌, ◌∷◌, ◌≡◌, ◌≤◌, ==_iff,
}
use kvgo.Transport.Multiplexed.{is_pending, Multiplexed, allocate_id}

length-erase_le : (k : ℕ) (m : List (ℕ × ℕ)) → length (erase k m) ≤ length m
length-erase_le k [] = omega arith
length-erase_le k ((j, v) ∷ m) =
    if_rule (λ (xs : List (ℕ × ℕ)). length xs ≤ suc (length m)) (j == k) (erase k m)
      ((j, v) ∷ erase k m) (λ _. omega (arith, length-erase_le k m))
      (λ _. omega (arith, length-erase_le k m))

pub length-erase :
    (k v : ℕ) (m : List (ℕ × ℕ)) → lookup k m ≡ some v → length (erase k m) < length m
length-erase k v [] h = cc
length-erase k v ((j, w) ∷ m) h = elim (Bool-cases (j == k)) [
  | inl same ↦ rw same (omega (arith, length-erase_le k m))
  | inr other ↦ rw other (omega (arith, length-erase k v m (rw other at h)))
]

pub length-insert : (k v : ℕ) (m : List (ℕ × ℕ)) → length (insert k v m) ≤ length m + 1
length-insert k v [] = omega arith
length-insert k v ((j, w) ∷ m) =
    if_rule (λ (xs : List (ℕ × ℕ)). length xs ≤ suc (length m) + 1) (j == k) ((j, v) ∷ m)
      ((j, w) ∷ insert k v m) (λ _. omega arith) (λ _. omega (arith, length-insert k v m))

later_differs :
    (n i : ℕ) → i + 1 < 4294967296 → ((n + 1) % 4294967296 == (n + 1 + 1 + i) % 4294967296) ≡ false
later_differs n i h = elim (Bool-cases ((n + 1) % 4294967296 == (n + 1 + 1 + i) % 4294967296)) [
  | inl same ↦
      let equal = (==_iff ((n + 1) % 4294967296) ((n + 1 + 1 + i) % 4294967296)).0 same in
      absurd (omega (arith, equal))
  | inr other ↦ other
]

-- Among more numbers than are taken, one after the other, one is free.
pub one_is_free :
    (k n : ℕ) (m : List (ℕ × ℕ))
    → length m < k
    → k ≤ 4294967296
    → (i : ℕ) × (i < k) × (lookup ((n + 1 + i) % 4294967296) m ≡ none)
one_is_free zero n m h small = absurd (omega arith)
one_is_free (suc k) n m h small =
    go (lookup ((n + 1) % 4294967296) m) refl
      (λ less. one_is_free k (n + 1) (erase ((n + 1) % 4294967296) m) less (omega arith))
  where
    go :
        (o : Option ℕ)
        → lookup ((n + 1) % 4294967296) m ≡ o
        → (length (erase ((n + 1) % 4294967296) m) < k
            → (i : ℕ) × (i < k)
              × (lookup ((n + 1 + 1 + i) % 4294967296) (erase ((n + 1) % 4294967296) m) ≡ none))
        → (i : ℕ) × (i < suc k) × (lookup ((n + 1 + i) % 4294967296) m ≡ none)
    go none e next =
        let same : n + 1 ≡ n + 1 + 0 = omega arith in
        (0, omega arith, subst (λ (x : ℕ). lookup (x % 4294967296) m ≡ none) same e)
    go (some ch) e next =
        let taken = (n + 1) % 4294967296 in
        let (i, less, free) = next (omega (arith, length-erase taken ch m e)) in
        let id = (n + 1 + 1 + i) % 4294967296 in
        let same : n + 1 + 1 + i ≡ n + 1 + (i + 1) = omega arith in
        let here : lookup id m ≡ none =
          sym (lookup-erase taken id m ∙ rw (later_differs n i (omega (arith, less, small))) refl)
          ∙ free in
        (i + 1, omega (arith, less), subst (λ (x : ℕ). lookup (x % 4294967296) m ≡ none) same here)

-- Fuel for one number more than the first free one is enough.
pub allocate_id-free :
    (fuel i : ℕ) (t : Multiplexed)
    → i < fuel
    → lookup ((t.next_id + 1 + i) % 4294967296) t.pending ≡ none
    → (id : ℕ) × (allocate_id fuel t ≡ some (id, record t { next_id = id }))
      × (lookup id t.pending ≡ none)
      × (id < 4294967296)
unfolding allocate_id
allocate_id-free zero i t h free = absurd (omega arith)
allocate_id-free (suc fuel) i t h free =
    go (lookup ((t.next_id + 1) % 4294967296) t.pending) refl i h free (λ j less later.
      allocate_id-free fuel j (record t { next_id = (t.next_id + 1) % 4294967296 }) less later)
  where
    go :
        (o : Option ℕ)
        → lookup ((t.next_id + 1) % 4294967296) t.pending ≡ o
        → (i : ℕ) → i < suc fuel
        → lookup ((t.next_id + 1 + i) % 4294967296) t.pending ≡ none
        → ((j : ℕ)
            → j < fuel
            → lookup (((t.next_id + 1) % 4294967296 + 1 + j) % 4294967296) t.pending ≡ none
            → (id : ℕ) × (allocate_id fuel (record t { next_id = (t.next_id + 1) % 4294967296 })
                ≡ some (id, record t { next_id = id }))
              × (lookup id t.pending ≡ none)
              × (id < 4294967296))
        → (id : ℕ) × (allocate_id (suc fuel) t ≡ some (id, record t { next_id = id }))
          × (lookup id t.pending ≡ none)
          × (id < 4294967296)
    go none e i h free next = ((t.next_id + 1) % 4294967296, rw e refl, e, omega arith)
    go (some ch) e zero h free next =
        let same : t.next_id + 1 + 0 ≡ t.next_id + 1 = omega arith in
        let other = subst (λ (x : ℕ). lookup (x % 4294967296) t.pending ≡ none) same free in
        absurd (differs (sym e ∙ other))
      where
        differs : some ch ≡ none → ⊥
        differs d = cc
    go (some ch) e (suc i) h free next =
        let id = (t.next_id + 1) % 4294967296 in
        let same : (t.next_id + 1 + suc i) % 4294967296 ≡ (id + 1 + i) % 4294967296 = omega arith in
        let (found, eq, unused, small) =
          next i (omega arith) (subst (λ (x : ℕ). lookup x t.pending ≡ none) same free) in
        (found, rw e eq, unused, small)

-- What an allocation changes.
abbrev pub Kept : Multiplexed → Option (ℕ × Multiplexed) → Type 0
Kept t none = Unit {0}
Kept t (some (id, t1)) = t1 ≡ record t { next_id = id }

pub allocate_id-Kept : (fuel : ℕ) (t : Multiplexed) → Kept t (allocate_id fuel t)
unfolding allocate_id
allocate_id-Kept zero t = tt
allocate_id-Kept (suc fuel) t =
    let id = (t.next_id + 1) % 4294967296 in
    let later = allocate_id-Kept fuel (record t { next_id = id }) in
    go (lookup id t.pending) (allocate_id fuel (record t { next_id = id })) later
  where
    go :
        (o : Option ℕ) (rest : Option (ℕ × Multiplexed))
        → Kept (record t { next_id = (t.next_id + 1) % 4294967296 }) rest
        → Kept t (
            if is_pending o
            then rest
            else some
                ((t.next_id + 1) % 4294967296, record t { next_id = (t.next_id + 1) % 4294967296 }))
    go none rest later = refl
    go (some ch) none later = tt
    go (some ch) (some (id, t1)) later = later
