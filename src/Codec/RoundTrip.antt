-- ===== src/Codec/RoundTrip.antt =====
-- What is encoded is decoded.
use kvgo.Common.{
  All, List, [], arith, drop, drop-append, length, length-append, length-drop, refl, some, suc, sym,
  take, take-append, u64_mod, zero, ℕ, ◌++◌, ◌+◌, ◌<◌, ◌∙◌, ◌∷◌, ◌≡◌, ◌≢◌, ◌≤◌,
}
use kvgo.Pb.{Entry, HardState, SnapshotMeta}
use kvgo.Codec.{
  le_bytes, from_le, entry_size, encode_entry, decode_entry, encode_hard_state, decode_hard_state,
  encode_snapshot_meta, decode_snapshot_meta, encode_frames, frames_size, encode_save_batch,
  decoded, stuck, decode_loop, decode_entries, decode_save_batch,
}
use kvgo.Codec.Words.{from_le-u64, length-le_bytes, from_le-u32}

-- The fields fit in 64 bits.
abbrev pub IsEntry : Entry → Type 0
IsEntry e = (e.index < u64_mod) × (e.term < u64_mod) × (entry_size e < 4294967296)

decode_entry-encode_entry : (e : Entry) → IsEntry e → decode_entry (encode_entry e) ≡ some e
unfolding decode_entry encode_entry
decode_entry-encode_entry e h = ground (arith, from_le-u64 e.index h.0, from_le-u64 e.term h.1)

decode_hard_state-encode_hard_state :
    (h : HardState)
    → h.term < u64_mod
    → h.voted_for < u64_mod
    → h.committed_index < u64_mod
    → decode_hard_state (encode_hard_state h) ≡ some h
unfolding decode_hard_state encode_hard_state
decode_hard_state-encode_hard_state h a b c =
    ground (arith, from_le-u64 h.term a, from_le-u64 h.voted_for b, from_le-u64 h.committed_index c)

-- The metadata of a snapshot, with numbers of 64 bits, is decoded from what it is encoded to.
pub decode_snapshot_meta-encode_snapshot_meta :
    (s : SnapshotMeta)
    → s.last_included_index < u64_mod
    → s.last_included_term < u64_mod
    → decode_snapshot_meta (encode_snapshot_meta s) ≡ some s
unfolding decode_snapshot_meta encode_snapshot_meta
decode_snapshot_meta-encode_snapshot_meta s a b =
    ground (arith, from_le-u64 s.last_included_index a, from_le-u64 s.last_included_term b)

length-encode_entry : (e : Entry) → length (encode_entry e) ≡ entry_size e
unfolding encode_entry entry_size
length-encode_entry e = omega arith

length-encode_frames : (es : List Entry) → length (encode_frames es) ≡ frames_size es
unfolding encode_frames frames_size
length-encode_frames [] = refl
length-encode_frames (e ∷ es) = omega (
  arith,
  length-append (le_bytes 4 (entry_size e)) (encode_entry e ++ encode_frames es),
  length-append (encode_entry e) (encode_frames es),
  length-encode_entry e,
  length-le_bytes 4 (entry_size e),
  length-encode_frames es,
)

pub length-encode_save_batch :
    (hard : HardState) (es : List Entry) → length (encode_save_batch hard es) ≡ 28 + frames_size es
unfolding encode_save_batch encode_hard_state le_bytes
length-encode_save_batch hard es = omega (arith, length-encode_frames es)

decode_loop-frame :
    (fuel a b c d : ℕ) (frame rest : List ℕ) (e : Entry) (es : List Entry)
    → from_le (a ∷ b ∷ c ∷ d ∷ []) ≡ length frame
    → decode_entry frame ≡ some e
    → decode_loop fuel rest ≡ decoded es
    → decode_loop (suc fuel) (a ∷ b ∷ c ∷ d ∷ (frame ++ rest)) ≡ decoded (e ∷ es)
unfolding decode_loop
decode_loop-frame fuel a b c d frame rest e es size one more =
    rw (size, take-append frame rest, drop-append frame rest, one, more)
      (ground (arith, length-append frame rest))

decode_loop-encode_frames :
    (fuel : ℕ) (es : List Entry)
    → All IsEntry es
    → length (encode_frames es) ≤ fuel
    → decode_loop fuel (encode_frames es) ≡ decoded es
unfolding decode_loop encode_frames le_bytes
decode_loop-encode_frames zero [] h k = refl
decode_loop-encode_frames (suc fuel) [] h k = refl
decode_loop-encode_frames zero (e ∷ es) h k = absurd (omega arith)
decode_loop-encode_frames (suc fuel) (e ∷ es) h k =
    decode_loop-frame fuel _ _ _ _ (encode_entry e) (encode_frames es) e es
      (from_le-u32 (entry_size e) h.0.2 ∙ sym (length-encode_entry e))
      (decode_entry-encode_entry e h.0)
      (decode_loop-encode_frames fuel es h.1
        (omega (arith, k, length-append (encode_entry e) (encode_frames es))))

-- Whatever the bytes are, `decodeEntries` ends within its fuel.
pub decode_loop-ne-stuck :
    (fuel : ℕ) (bytes : List ℕ) → length bytes ≤ fuel → decode_loop fuel bytes ≢ stuck
unfolding decode_loop
decode_loop-ne-stuck zero [] h = λ e. cc
decode_loop-ne-stuck (suc fuel) [] h = λ e. cc
decode_loop-ne-stuck zero (b ∷ bytes) h = absurd (omega arith)
decode_loop-ne-stuck (suc fuel) (b ∷ bytes) h =
    let size = from_le (take 4 (b ∷ bytes)) in
    ground (
      arith,
      decode_loop-ne-stuck fuel (drop size (drop 4 (b ∷ bytes))),
      length-drop size (drop 4 (b ∷ bytes)),
      length-drop 3 bytes,
    )

-- A batch whose hard state has 64-bit numbers, whose entries have 64-bit indexes and terms, and
-- whose sizes, of each entry and of all together, fit in 32 bits, is decoded to the hard state and
-- the entries that it was encoded from.
pub decode_save_batch-encode_save_batch :
    (hard : HardState) (es : List Entry)
    → hard.term < u64_mod
    → hard.voted_for < u64_mod
    → hard.committed_index < u64_mod
    → All IsEntry es
    → frames_size es < 4294967296
    → decode_save_batch (encode_save_batch hard es) ≡ decoded (hard, es)
unfolding decode_save_batch encode_save_batch encode_hard_state decode_entries le_bytes
    encode_frames decode_hard_state
decode_save_batch-encode_save_batch hard es a b c h k = rw (from_le-u32 (frames_size es) k) (
    ground (
      arith,
      decode_hard_state-encode_hard_state hard a b c,
      length-encode_frames es,
      decode_loop-encode_frames (length (encode_frames es)) es h (omega arith),
    ))
