-- ===== src/Engine/Seeking.antt =====
-- A read of the value file at offset 0, which does not seek.
use kvgo.Common.{
  ==-false, List, [], ap, arith, bytes_beq, bytes_eq, drop, false, le→ltb, length, length-drop,
  lookup, lookup-insert, lt→ltb, none, refl, some, take, ℕ, ◌+◌, ◌<◌, ◌∙◌, ◌∷◌, ◌≡◌, ◌≤◌,
}
use kvgo.Engine.Index.{EngineWal, value, corruption, read_rest, read_value}
use kvgo.Engine.Shard.{ValueEntry, Shard, found, unreadable, get, get_value, loaded}

read_rest-whole :
    (offset size position : ℕ) (rest : List ℕ) (w : EngineWal)
    → 0 < size
    → size ≤ length rest
    → read_rest offset size position rest w
      ≡ (value (take size rest), record w { value_position = position + size })
read_rest-whole offset size position [] w pos h = absurd (omega arith)
read_rest-whole offset size position (b ∷ rest) w pos h =
    rw (le→ltb (length (b ∷ rest)) size h) refl

read_rest-short :
    (offset size position : ℕ) (rest : List ℕ) (w : EngineWal)
    → 0 < length rest
    → length rest < size
    → read_rest offset size position rest w ≡ (
      corruption,
      record w { value_file = take offset w.value_file; value_position = position + length rest },
    )
read_rest-short offset size position [] w some_left h = absurd (omega arith)
read_rest-short offset size position (b ∷ rest) w some_left h =
    rw (lt→ltb (length (b ∷ rest)) size h) refl

-- An entry that a restart has put there, and that was not read yet.
abbrev pub unread : ℕ → ℕ → ValueEntry
unread size offset = record { payload = none; size = size; offset = offset }

get_value-unread :
    (size offset : ℕ) (w : EngineWal)
    → 0 < size
    → get_value (unread size offset) w ≡ loaded (unread size offset) (read_value offset size w)
unfolding get_value
get_value-unread size offset w pos = rw (==-false size pos) refl

-- A read behind the beginning seeks, and leaves the position behind what it read.
read_value-sought :
    (size offset : ℕ) (w : EngineWal)
    → 0 < offset
    → 0 < size
    → offset + size ≤ length w.value_file
    → read_value offset size w
      ≡ (value (take size (drop offset w.value_file)), record w { value_position = offset + size })
unfolding read_value
read_value-sought size offset w later pos h =
    rw (==-false size pos, lt→ltb 0 offset later)
      (read_rest-whole offset size offset (drop offset w.value_file) w pos
        (omega (arith, length-drop offset w.value_file)))

-- A read at the beginning goes on where the last one ended.
read_value-first :
    (size : ℕ) (w : EngineWal)
    → w.value_position < length w.value_file
    → length w.value_file < w.value_position + size
    → read_value 0 size w ≡ (
      corruption,
      record w {
        value_file = [];
        value_position = w.value_position + length (drop w.value_position w.value_file);
      },
    )
unfolding read_value
read_value-first size w behind short =
    let len = length-drop w.value_position w.value_file in
    rw (==-false size (omega (arith, behind, short))) (
      read_rest-short 0 size w.value_position (drop w.value_position w.value_file) w
        (omega (arith, len, behind)) (omega (arith, len, short)))

-- Let a shard have two entries whose values were not read yet: that of `first` at the beginning of
-- the file of values, and that of `later`, not empty, somewhere behind it and within the file. A read
-- of `later` finds its value. Where there are bytes behind that value, but fewer than the value of
-- `first` has, a read of `first` after that fails as corrupted, and the file of values is then empty.
pub get-first_after :
    (s : Shard) (first later : List ℕ) (n m offset : ℕ)
    → bytes_beq later first ≡ false
    → lookup first s.entries ≡ some (unread n 0)
    → lookup later s.entries ≡ some (unread m offset)
    → 0 < offset
    → 0 < m
    → offset + m < length s.wal.value_file
    → length s.wal.value_file < offset + m + n
    → let s1 = (get later s).1 in
      ((get later s).0 ≡ found (take m (drop offset s.wal.value_file)))
      × ((get first s1).0 ≡ unreadable corruption)
      × ((get first s1).1.wal.value_file ≡ [])
unfolding get
get-first_after s first later n m offset differ at_first at_later behind pos within short =
    let w1 : EngineWal = record (s.wal) { value_position = offset + m } in
    let read =
      get_value-unread m offset s.wal pos
      ∙ ap (loaded (unread m offset)) (read_value-sought m offset s.wal behind pos (omega arith)) in
    let again =
      get_value-unread n 0 w1 (omega arith)
      ∙ ap (loaded (unread n 0)) (read_value-first n w1 within short) in
    rw
      (
        at_later,
        read,
        lookup-insert later first
            (record (unread m offset) { payload = some (take m (drop offset s.wal.value_file)) })
            s.entries,
        differ,
        at_first,
        again,
      )
      (refl, refl, refl)
