-- ===== src/Engine/Replaying.antt =====
-- What `readIndex` finds in an index file of whole entries.
use kvgo.Common.{
  All, if_false, le→ltb, List, Option, [], arith, bytes_eq, drop-append, insert, length,
  length-append, none, refl, suc, take-append, u64_mod, zero, ℕ, ◌%◌, ◌++◌, ◌+◌, ◌<◌, ◌∷◌, ◌≡◌, ◌≤◌,
  sym, ap, ◌∙◌,
}
use mathlib.Core.List.{append_assoc}
use kvgo.Codec.{le_bytes, from_le}
use kvgo.Codec.Words.{from_le-u32, from_le-u64}
use kvgo.Engine.Index.{IndexEntry, encode_into, Indexed, indexed, go_on, read_key, read_index}
use kvgo.Engine.Shard.{Entries, ValueEntry, replay_entry}

abbrev pub encode_entry : IndexEntry → List ℕ
encode_entry ie = encode_into ie.key ie.value_size ie.value_offset

-- The bytes of an index file with these entries.
abbrev pub encode_all : List IndexEntry → List ℕ
encode_all [] = []
encode_all (ie ∷ ies) = encode_entry ie ++ encode_all ies

-- The numbers of an entry fit in their fields.
abbrev pub IsSmall : IndexEntry → Type 0
IsSmall ie =
    (length ie.key < 4294967296) × (ie.value_size < 4294967296) × (ie.value_offset < u64_mod)

-- An entry as a replay puts it into memory.
abbrev pub unloaded : IndexEntry → ValueEntry
unloaded ie = record { payload = none; size = ie.value_size; offset = ie.value_offset }

-- The map that a replay builds: a later entry of a key replaces an earlier one.
abbrev pub add_all : List IndexEntry → Entries → Entries
add_all [] m = m
add_all (ie ∷ ies) m = add_all ies (insert ie.key (unloaded ie) m)

pub encode_all-append :
    (es fs : List IndexEntry) → encode_all (es ++ fs) ≡ encode_all es ++ encode_all fs
encode_all-append [] fs = refl
encode_all-append (e ∷ es) fs =
    ap (λ (xs : List ℕ). encode_entry e ++ xs) (encode_all-append es fs)
    ∙ sym (append_assoc (encode_entry e) (encode_all es) (encode_all fs))

pub length-encode_entry : (ie : IndexEntry) → length (encode_entry ie) ≡ 16 + length ie.key
unfolding encode_into le_bytes
length-encode_entry ie = omega arith

module _ {S : Type 0} where
  read_key-append :
      (handler : IndexEntry → S → Option S) (position klen vlen offset : ℕ) (key rest : List ℕ)
      (s : S) (next : ℕ → List ℕ → S → Indexed S)
      → klen ≡ length key
      → read_key handler position klen vlen offset (key ++ rest) s next
        ≡ go_on
            (handler (record { key = key; value_size = vlen; value_offset = offset }) s)
            (next (position + (16 + length key) % 4294967296) rest)
  read_key-append handler position klen vlen offset key rest s next e =
      rw
        (
          e,
          le→ltb (length (key ++ rest)) (length key) (omega (arith, length-append key rest)),
          take-append key rest,
          drop-append key rest,
        )
        refl

  read_index-header :
      (handler : IndexEntry → S → Option S) (fuel position : ℕ)
      (a0 a1 a2 a3 b0 b1 b2 b3 c0 c1 c2 c3 c4 c5 c6 c7 vlen offset : ℕ) (key rest : List ℕ) (s : S)
      → from_le (a0 ∷ a1 ∷ a2 ∷ a3 ∷ []) ≡ length key
      → from_le (b0 ∷ b1 ∷ b2 ∷ b3 ∷ []) ≡ vlen
      → from_le (c0 ∷ c1 ∷ c2 ∷ c3 ∷ c4 ∷ c5 ∷ c6 ∷ c7 ∷ []) ≡ offset
      → read_index handler
          (suc fuel)
          position
          (a0
            ∷ a1
            ∷ a2
            ∷ a3
            ∷ b0
            ∷ b1
            ∷ b2
            ∷ b3
            ∷ c0
            ∷ c1
            ∷ c2
            ∷ c3
            ∷ c4
            ∷ c5
            ∷ c6
            ∷ c7
            ∷ (key ++ rest))
          s
        ≡ go_on
            (handler (record { key = key; value_size = vlen; value_offset = offset }) s)
            (read_index handler fuel (position + (16 + length key) % 4294967296) rest)
  unfolding read_index
  read_index-header handler fuel position a0 a1 a2 a3 b0 b1 b2 b3 c0 c1 c2 c3 c4 c5 c6 c7 vlen
        offset key rest s klen_eq vlen_eq offset_eq =
      rw (← vlen_eq, ← offset_eq)
        (if_false _ _ _ (
            le→ltb
              (length (
                a0
                ∷ a1
                ∷ a2
                ∷ a3
                ∷ b0
                ∷ b1
                ∷ b2
                ∷ b3
                ∷ c0
                ∷ c1
                ∷ c2
                ∷ c3
                ∷ c4
                ∷ c5
                ∷ c6
                ∷ c7
                ∷ (key ++ rest)))
              16 (omega arith))
          ∙ read_key-append handler position (from_le (a0 ∷ a1 ∷ a2 ∷ a3 ∷ []))
              (from_le (b0 ∷ b1 ∷ b2 ∷ b3 ∷ []))
              (from_le (c0 ∷ c1 ∷ c2 ∷ c3 ∷ c4 ∷ c5 ∷ c6 ∷ c7 ∷ [])) key rest s
              (read_index handler fuel) klen_eq)

  pub read_index-encode_entry :
      (handler : IndexEntry → S → Option S) (fuel position : ℕ) (ie : IndexEntry) (rest : List ℕ)
      (s : S)
      → IsSmall ie
      → read_index handler (suc fuel) position (encode_entry ie ++ rest) s
        ≡ go_on
            (handler ie s)
            (read_index handler fuel (position + (16 + length ie.key) % 4294967296) rest)
  unfolding encode_into le_bytes
  read_index-encode_entry handler fuel position ie rest s h =
      read_index-header handler fuel position _ _ _ _ _ _ _ _ _ _ _ _ _ _ _ _ ie.value_size
        ie.value_offset ie.key rest s (from_le-u32 (length ie.key) h.0)
        (from_le-u32 ie.value_size h.1) (from_le-u64 ie.value_offset h.2)

-- A file of whole entries is read to its end, and the map has its entries.
pub read_index-encode_all :
    (fuel position : ℕ) (ies : List IndexEntry) (m : Entries)
    → All IsSmall ies
    → length (encode_all ies) ≤ fuel
    → read_index replay_entry fuel position (encode_all ies) m ≡ indexed (add_all ies m)
unfolding replay_entry read_index
read_index-encode_all fuel position [] m h k = refl
read_index-encode_all zero position (ie ∷ ies) m h k =
    absurd (omega (arith, length-append (encode_entry ie) (encode_all ies), length-encode_entry ie))
read_index-encode_all (suc fuel) position (ie ∷ ies) m h k =
    read_index-encode_entry replay_entry fuel position ie (encode_all ies) m h.0
    ∙ read_index-encode_all fuel (position + (16 + length ie.key) % 4294967296) ies
        (insert ie.key (unloaded ie) m) h.1
        (omega (arith, length-append (encode_entry ie) (encode_all ies), length-encode_entry ie))
