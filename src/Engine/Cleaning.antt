-- ===== src/Engine/Cleaning.antt =====
-- What a cleanup keeps.
use kvgo.Common.{
  All, Bool-cases, List, Option, [], ap, arith, bytes_eq, insert, ◌-◌, inl, inr, le→ltb, leb,
  length, length-append, lookup, ltb, none, refl, some, sym, true, ℕ, ◌++◌, ◌+◌, ◌∙◌, ◌∷◌, ◌≡◌, ◌≤◌,
}
use mathlib.Core.List.{append_assoc, append-nil}
use kvgo.Engine.Index.{EngineWal, wal_index_len, encode_into, value}
use kvgo.Engine.Shard.{Entries, ValueEntry, get_value, WriteRequest, batch_index, batch_values}
use kvgo.Engine.Placing.{Puts, puts_of}
use kvgo.Engine.Rewriting.{
  Cleanup, buffer_value, buffer_index, buffer_nonempty, clean_entry, cleaned, write_cleanup_data,
  final_index, final_value,
}

-- The keys of a map are different from one another.
abbrev pub Distinct : Entries → Type 0
Distinct [] = Unit {0}
Distinct ((k, ve) ∷ m) = (lookup k m ≡ none) × Distinct m

-- Every value is in memory.
abbrev pub AllLoaded : Entries → Type 0
AllLoaded [] = Unit {0}
AllLoaded ((k, ve) ∷ m) = ((v : List ℕ) × (ve.payload ≡ some v)) × AllLoaded m

abbrev pub payload_or : Option (List ℕ) → List ℕ
payload_or none = []
payload_or (some v) = v

-- The keys and values of a map, as writes.
abbrev pub requests : Entries → List WriteRequest
requests [] = []
requests ((k, ve) ∷ m) =
    (record { key = k; bytes = payload_or ve.payload; waits = true }) ∷ requests m

abbrev pub contents : Entries → Puts
contents m = puts_of (requests m)

-- The keys fit into an empty index buffer.
abbrev pub IsShort : WriteRequest → Type 0
IsShort r = wal_index_len (length r.key) ≤ 1048576

abbrev pub clean_all : List WriteRequest → Cleanup → Cleanup
clean_all [] c = c
clean_all (r ∷ rs) c = clean_all rs (clean_entry r.key r.bytes c)

-- What the buffers and the temporary files hold together is as if there were no buffers.
pub record Adds (c c' : Cleanup) (index values : List ℕ) (n : ℕ) : Type 0 where
  pub index_lem : final_index c' ≡ final_index c ++ index
  pub value_lem : final_value c' ≡ final_value c ++ values
  pub offset_lem : c'.new_value_offset ≡ c.new_value_offset + n

buffer_value-final :
    (bytes : List ℕ) (c : Cleanup)
    → (final_value (buffer_value bytes c) ≡ final_value c ++ bytes)
      × (final_index (buffer_value bytes c) ≡ final_index c)
unfolding buffer_value
buffer_value-final bytes c = elim (Bool-cases (leb 524288 (length (c.value_buf ++ bytes)))) [
  | inl full ↦ rw full (
    append-nil (c.temp_value ++ (c.value_buf ++ bytes))
        ∙ sym (append_assoc c.temp_value c.value_buf bytes),
    refl,
  )
  | inr room ↦ rw room (sym (append_assoc c.temp_value c.value_buf bytes), refl)
]

buffer_nonempty-final :
    (bytes : List ℕ) (c : Cleanup)
    → (final_value (buffer_nonempty bytes c) ≡ final_value c ++ bytes)
      × (final_index (buffer_nonempty bytes c) ≡ final_index c)
buffer_nonempty-final [] c = (sym (append-nil (final_value c)), refl)
buffer_nonempty-final (b ∷ bytes) c = buffer_value-final (b ∷ bytes) c

buffer_index-final :
    (entry : List ℕ) (c : Cleanup)
    → (final_index (buffer_index entry c) ≡ final_index c ++ entry)
      × (final_value (buffer_index entry c) ≡ final_value c)
unfolding buffer_index
buffer_index-final entry c = elim (Bool-cases (ltb (1048576 - length c.index_buf) (length entry))) [
  | inl full ↦ rw full (refl, refl)
  | inr room ↦ rw room (sym (append_assoc c.temp_index c.index_buf entry), refl)
]

clean_entry-Adds :
    (k v : List ℕ) (c : Cleanup)
    → Adds c (clean_entry k v c) (encode_into k (length v) c.new_value_offset) v (length v)
unfolding clean_entry
clean_entry-Adds k v c =
    let entry = encode_into k (length v) c.new_value_offset in
    let c1 = buffer_nonempty v c in
    let values = buffer_nonempty-final v c in
    let indexes =
      buffer_index-final entry
        (record c1 { new_offsets = insert k c.new_value_offset c1.new_offsets }) in
    record {
      index_lem = indexes.0 ∙ ap (λ (xs : List ℕ). xs ++ entry) values.1;
      value_lem = indexes.1 ∙ values.0;
      offset_lem = refl;
    }

-- The entries and values of all writes, one after the other.
pub clean_all-Adds :
    (rs : List WriteRequest) (c : Cleanup)
    → Adds c
        (clean_all rs c)
        (batch_index c.new_value_offset rs)
        (batch_values rs)
        (length (batch_values rs))
unfolding batch_index batch_values
clean_all-Adds [] c = record {
  index_lem = sym (append-nil (final_index c));
  value_lem = sym (append-nil (final_value c));
  offset_lem = omega arith;
}
clean_all-Adds (r ∷ rs) c =
    let one = clean_entry-Adds r.key r.bytes c in
    let more = clean_all-Adds rs (clean_entry r.key r.bytes c) in
    record {
      index_lem =
          more.index_lem
          ∙ rw (one.index_lem, one.offset_lem)
              (append_assoc (final_index c) (encode_into r.key (length r.bytes) c.new_value_offset)
                (batch_index (c.new_value_offset + length r.bytes) rs));
      value_lem =
          more.value_lem
          ∙ rw one.value_lem (append_assoc (final_value c) r.bytes (batch_values rs));
      offset_lem =
          omega (arith, more.offset_lem, one.offset_lem, length-append r.bytes (batch_values rs));
    }

get_value-loaded :
    (ve : ValueEntry) (w : EngineWal) (v : List ℕ)
    → ve.payload ≡ some v
    → get_value ve w ≡ (value v, (ve, w))
unfolding get_value
get_value-loaded ve w v e = simp e

-- Where every value is in memory and every key is short, all entries are written.
pub write_cleanup_data-loaded :
    (m : Entries) (w : EngineWal) (c : Cleanup)
    → AllLoaded m
    → All IsShort (requests m)
    → write_cleanup_data m w c ≡ cleaned m w (clean_all (requests m) c)
unfolding write_cleanup_data
write_cleanup_data-loaded [] w c h k = refl
write_cleanup_data-loaded ((key, ve) ∷ m) w c h k =
    let (v, e) = h.0 in
    let same : payload_or ve.payload ≡ v = rw e refl in
    rw
      (
        get_value-loaded ve w v e,
        le→ltb 1048576 (wal_index_len (length key)) k.0,
        write_cleanup_data-loaded m w (clean_entry key v c) h.1 k.1,
        same,
      )
      refl
