-- ===== src/Log/LogUnstable.antt =====
-- The entries that are not yet persisted: src/raft/log_unstable.go. The Go slices are values here:
-- `append` and slicing make new lists.
use kvgo.Common.{
  List, Option, Outcome, [], add64, drop, get_elem?, get_last?, if◌then◌else◌, leb, length, ltb,
  none, panic, ret, some, take, ℕ, ◌&&◌, ◌++◌, ◌+◌, ◌-◌, ◌==◌, ◌||◌, ◌∷◌,
}
use kvgo.Pb.{Entry}

pub record Unstable : Type 0 where
  pub entries : List Entry
  pub offset : ℕ

-- 2 ^ 63: a uint64 from here on is a negative `int`.
abbrev pub int_limit : ℕ
int_limit = 9223372036854775808

-- Entries are dropped only if the one at `index` is of the given term.
abbrev pub drop_stable : Unstable → ℕ → ℕ → Option Entry → Outcome Unstable
drop_stable u index term none = panic
drop_stable u index term (some e) =
    if e.term == term
    then ret (record { entries = drop (index - u.offset + 1) u.entries; offset = add64 index 1 })
    else ret u

-- `i` is `index - u.offset`, which does not wrap below the first test.
unfoldable pub stable_to : ℕ → ℕ → Unstable → Outcome Unstable
stable_to index term u =
    let i = index - u.offset in
    if ltb index u.offset
    then ret u
    else if ltb i int_limit && leb (length u.entries) i
    then ret u
    else drop_stable u index term (get_elem? u.entries i)

-- The slice bound `first-u.offset` above the length is a panic: Go would let it reach into the
-- capacity of the slice, which is not modelled.
abbrev pub splice : Unstable → ℕ → List Entry → Outcome Unstable
splice u first entries =
    if leb first u.offset
    then ret (record { entries = entries; offset = first })
    else if first == add64 u.offset (length u.entries)
    then ret (record u { entries = u.entries ++ entries })
    else if leb (first - u.offset) (length u.entries)
    then ret (record u { entries = take (first - u.offset) u.entries ++ entries })
    else panic

unfoldable pub truncate_and_append : List Entry → Unstable → Outcome Unstable
truncate_and_append [] u = panic
truncate_and_append (e ∷ es) u = splice u e.index (e ∷ es)

abbrev pub index_of : Option Entry → Option ℕ
index_of none = none
index_of (some e) = some e.index

unfoldable pub maybe_last_index : Unstable → Option ℕ
maybe_last_index u = index_of (get_last? u.entries)

abbrev pub term_of : Option Entry → Option ℕ
term_of none = none
term_of (some e) = some e.term

-- Past the two tests the index is within the list.
unfoldable pub maybe_term : ℕ → Unstable → Option ℕ
maybe_term index u =
    if ltb index u.offset || leb (add64 u.offset (length u.entries)) index
    then none
    else term_of (get_elem? u.entries (index - u.offset))
