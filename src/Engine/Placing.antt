-- ===== src/Engine/Placing.antt =====
-- Where the values of a shard's writes stand in its files.
use kvgo.Common.{
  Bool, List, Option, [], ap, arith, bytes_beq, bytes_eq, drop, drop-append, false, if◌then◌else◌,
  insert, length, length-append, lookup, lookup-insert, none, refl, some, subst, suc, sym, take,
  take-append, true, zero, ℕ, ◌++◌, ◌+◌, ◌∙◌, ◌∷◌, ◌≡◌, ◌≤◌,
}
use mathlib.Core.List.{append_assoc}
use kvgo.Engine.Index.{IndexEntry}
use kvgo.Engine.Shard.{Entries, ValueEntry, WriteRequest, batch_index, batch_values}
use kvgo.Engine.Replaying.{encode_all, add_all, unloaded}

-- Writes of values, the first of them first.
abbrev pub Puts : Type 0
Puts = List (List ℕ × List ℕ)

-- The value that the last write of a key put there, or else `old`.
abbrev pub last_put : List ℕ → Puts → Option (List ℕ) → Option (List ℕ)
last_put k [] old = old
last_put k ((j, v) ∷ puts) old = last_put k puts (if bytes_beq j k then some v else old)

abbrev pub puts_of : List WriteRequest → Puts
puts_of [] = []
puts_of (r ∷ rs) = (r.key, r.bytes) ∷ puts_of rs

-- An entry with this size and offset has the value in the file.
abbrev pub Holds : List ℕ → List ℕ → ℕ → ℕ → Type 0
Holds file v size offset =
    (size ≡ length v) × (take (length v) (drop offset file) ≡ v) × (offset + length v ≤ length file)

-- The entries of an index are those of the writes, in order, over a file of values.
abbrev pub Places : List IndexEntry → Puts → List ℕ → Type 0
Places [] [] file = Unit {0}
Places [] (p ∷ puts) file = ⊥
Places (ie ∷ ies) [] file = ⊥
Places (ie ∷ ies) ((k, v) ∷ puts) file =
    (ie.key ≡ k) × Holds file v ie.value_size ie.value_offset × Places ies puts file

slice-append :
    (offset n : ℕ) (xs ys : List ℕ)
    → offset + n ≤ length xs
    → take n (drop offset (xs ++ ys)) ≡ take n (drop offset xs)
slice-append zero zero xs ys h = refl
slice-append zero (suc n) [] ys h = absurd (omega arith)
slice-append zero (suc n) (x ∷ xs) ys h = ap (◌∷◌ x) (slice-append zero n xs ys (omega arith))
slice-append (suc offset) n [] ys h = absurd (omega arith)
slice-append (suc offset) n (x ∷ xs) ys h = slice-append offset n xs ys (omega arith)

Holds-append :
    (file more v : List ℕ) (size offset : ℕ)
    → Holds file v size offset
    → Holds (file ++ more) v size offset
Holds-append file more v size offset h = (
  h.0,
  slice-append offset (length v) file more h.2 ∙ h.1,
  omega (arith, h.2, length-append file more),
)

Places-append :
    (ies : List IndexEntry) (puts : Puts) (file more : List ℕ)
    → Places ies puts file
    → Places ies puts (file ++ more)
Places-append [] [] file more h = tt
Places-append [] (p ∷ puts) file more h = absurd h
Places-append (ie ∷ ies) [] file more h = absurd h
Places-append (ie ∷ ies) ((k, v) ∷ puts) file more h = (
  h.0,
  Holds-append file more v ie.value_size ie.value_offset h.1,
  Places-append ies puts file more h.2,
)

Places-join :
    (ies jes : List IndexEntry) (puts qs : Puts) (file : List ℕ)
    → Places ies puts file
    → Places jes qs file
    → Places (ies ++ jes) (puts ++ qs) file
Places-join [] jes [] qs file h k = k
Places-join [] jes (p ∷ puts) qs file h k = absurd h
Places-join (ie ∷ ies) jes [] qs file h k = absurd h
Places-join (ie ∷ ies) jes ((j, v) ∷ puts) qs file h k =
    (h.0, h.1, Places-join ies jes puts qs file h.2 k)

-- The entries of a batch, its values from an offset on.
abbrev pub batch_entries : ℕ → List WriteRequest → List IndexEntry
batch_entries offset [] = []
batch_entries offset (r ∷ rs) =
    (record { key = r.key; value_size = length r.bytes; value_offset = offset })
    ∷ batch_entries (offset + length r.bytes) rs

pub batch_index-eq :
    (offset : ℕ) (rs : List WriteRequest)
    → batch_index offset rs ≡ encode_all (batch_entries offset rs)
unfolding batch_index
batch_index-eq offset [] = refl
batch_index-eq offset (r ∷ rs) =
    ap (λ (xs : List ℕ). kvgo.Engine.Index.encode_into r.key (length r.bytes) offset ++ xs)
      (batch_index-eq (offset + length r.bytes) rs)

batch_entries-Places :
    (rs : List WriteRequest) (file : List ℕ) (offset : ℕ)
    → offset ≡ length file
    → Places (batch_entries offset rs) (puts_of rs) (file ++ batch_values rs)
unfolding batch_values
batch_entries-Places [] file offset e = tt
batch_entries-Places (r ∷ rs) file offset e = (
  refl,
  (
    refl,
    subst
        (λ (n : ℕ). take (length r.bytes) (drop n (file ++ (r.bytes ++ batch_values rs))) ≡ r.bytes)
        (sym e)
        (ap (take (length r.bytes)) (drop-append file (r.bytes ++ batch_values rs))
          ∙ take-append r.bytes (batch_values rs)),
    omega (
      arith,
      e,
      length-append file (r.bytes ++ batch_values rs),
      length-append r.bytes (batch_values rs),
    ),
  ),
  subst (Places (batch_entries (offset + length r.bytes) rs) (puts_of rs))
      (append_assoc file r.bytes (batch_values rs))
      (batch_entries-Places rs (file ++ r.bytes) (offset + length r.bytes)
        (omega (arith, e, length-append file r.bytes))),
)

-- What a batch adds to the files of earlier writes.
pub Places-batch :
    (ies : List IndexEntry) (puts : Puts) (file : List ℕ) (rs : List WriteRequest) (offset : ℕ)
    → offset ≡ length file
    → Places ies puts file
    → Places (ies ++ batch_entries offset rs) (puts ++ puts_of rs) (file ++ batch_values rs)
Places-batch ies puts file rs offset e h =
    Places-join ies (batch_entries offset rs) puts (puts_of rs) (file ++ batch_values rs)
      (Places-append ies puts file (batch_values rs) h) (batch_entries-Places rs file offset e)

-- An entry that a replay put into memory, against the value that was written last.
abbrev pub Finds : List ℕ → Option ValueEntry → Option (List ℕ) → Type 0
Finds file none none = Unit {0}
Finds file none (some v) = ⊥
Finds file (some ve) none = ⊥
Finds file (some ve) (some v) = (ve.payload ≡ none) × Holds file v ve.size ve.offset

Finds-insert :
    (file : List ℕ) (b : Bool) (ve : ValueEntry) (v : List ℕ) (o : Option ValueEntry)
    (old : Option (List ℕ))
    → (ve.payload ≡ none) × Holds file v ve.size ve.offset
    → Finds file o old
    → Finds file (if b then some ve else o) (if b then some v else old)
Finds-insert file true ve v o old h k = h
Finds-insert file false ve v o old h k = k

-- A replay of the index finds, for every key, the entry of its last write.
pub add_all-Finds :
    (ies : List IndexEntry) (puts : Puts) (file k : List ℕ) (m : Entries) (old : Option (List ℕ))
    → Places ies puts file
    → Finds file (lookup k m) old
    → Finds file (lookup k (add_all ies m)) (last_put k puts old)
add_all-Finds [] [] file k m old h f = f
add_all-Finds [] (p ∷ puts) file k m old h f = absurd h
add_all-Finds (ie ∷ ies) [] file k m old h f = absurd h
add_all-Finds (ie ∷ ies) ((j, v) ∷ puts) file k m old h f =
    add_all-Finds ies puts file k (insert ie.key (unloaded ie) m)
      (if bytes_beq j k then some v else old) h.2
      (rw (lookup-insert ie.key k (unloaded ie) m, h.0)
        (Finds-insert file (bytes_beq j k) (unloaded ie) v (lookup k m) old (refl, h.1) f))
