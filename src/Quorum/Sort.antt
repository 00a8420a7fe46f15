-- ===== src/Quorum/Sort.antt =====
-- Sorting keeps the items, and the item at a place of a sorted list counts those above it.
use kvgo.Common.{
  Bool, List, [], arith, count, count-append, count-le-length, get_or, leb, length, length-append,
  refl, reverse, suc, zero, ℕ, ◌+◌, ◌<◌, ◌↔◌, ◌∷◌, ◌≡◌, ◌≤◌,
}
use mathlib.Core.List.{reverse-cons}
use kvgo.Quorum.{insert_sorted, sort}

-- Every item is at least the bound, and the list does not fall.
abbrev pub SortedFrom : ℕ → List ℕ → Type 0
SortedFrom lo [] = Unit {0}
SortedFrom lo (x ∷ xs) = (lo ≤ x) × SortedFrom x xs

SortedFrom-insert_sorted :
    (lo x : ℕ) (xs : List ℕ) → lo ≤ x → SortedFrom lo xs → SortedFrom lo (insert_sorted x xs)
unfolding insert_sorted
SortedFrom-insert_sorted lo x [] h s = (h, tt)
SortedFrom-insert_sorted lo x (y ∷ ys) h s = ground (arith, SortedFrom-insert_sorted y x ys)

pub SortedFrom-sort : (xs : List ℕ) → SortedFrom 0 (sort xs)
unfolding sort
SortedFrom-sort [] = tt
SortedFrom-sort (x ∷ xs) = SortedFrom-insert_sorted 0 x (sort xs) (omega arith) (SortedFrom-sort xs)

count-insert_sorted :
    (p : ℕ → Bool) (x : ℕ) (xs : List ℕ) → count p (insert_sorted x xs) ≡ count p (x ∷ xs)
unfolding insert_sorted
count-insert_sorted p x [] = refl
count-insert_sorted p x (y ∷ ys) = ground (arith, count-insert_sorted p x ys)

-- Sorting permutes: every test passes as often as before.
pub count-sort : (p : ℕ → Bool) (xs : List ℕ) → count p (sort xs) ≡ count p xs
unfolding sort
count-sort p [] = refl
count-sort p (x ∷ xs) = omega (arith, count-insert_sorted p x (sort xs), count-sort p xs)

length-insert_sorted : (x : ℕ) (xs : List ℕ) → length (insert_sorted x xs) ≡ suc (length xs)
unfolding insert_sorted
length-insert_sorted x [] = refl
length-insert_sorted x (y ∷ ys) = ground (arith, length-insert_sorted x ys)

pub length-sort : (xs : List ℕ) → length (sort xs) ≡ length xs
unfolding sort
length-sort [] = refl
length-sort (x ∷ xs) = omega (arith, length-insert_sorted x (sort xs), length-sort xs)

pub count-reverse : (p : ℕ → Bool) (xs : List ℕ) → count p (reverse xs) ≡ count p xs
count-reverse p [] = refl
count-reverse p (x ∷ xs) =
    rw (reverse-cons x xs) (omega (arith, count-append p (reverse xs) (x ∷ []), count-reverse p xs))

pub length-reverse : (xs : List ℕ) → length (reverse xs) ≡ length xs
length-reverse [] = refl
length-reverse (x ∷ xs) =
    rw (reverse-cons x xs) (omega (arith, length-append (reverse xs) (x ∷ []), length-reverse xs))

count_all : (j lo : ℕ) (xs : List ℕ) → SortedFrom lo xs → j ≤ lo → count (leb j) xs ≡ length xs
count_all j lo [] s h = refl
count_all j lo (x ∷ xs) s h = ground (arith, count_all j x xs s.1)

-- In a sorted list the item at `pos` is at least `j` exactly when the items from there on are.
pub sorted_count :
    (j lo pos : ℕ) (xs : List ℕ)
    → SortedFrom lo xs
    → pos < length xs
    → (j ≤ get_or xs pos 0) ↔ (length xs ≤ pos + count (leb j) xs)
sorted_count j lo pos [] s h = absurd (omega arith)
sorted_count j lo zero (x ∷ xs) s h =
    ground (arith, count_all j x xs s.1, count-le-length (leb j) xs)
sorted_count j lo (suc pos) (x ∷ xs) s h =
    ground (arith, sorted_count j x pos xs s.1, count_all j x xs s.1, count-le-length (leb j) xs)
