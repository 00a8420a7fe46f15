-- ===== src/Codec.antt =====
-- The byte formats of src/raft/message.go: entries, hard states, snapshot metadata, and the batch
-- that one `Save` writes. Buffers are lists of bytes; `encode…` builds what the Go function writes
-- into its buffer.
pub mod Words
pub mod RoundTrip
use kvgo.Common.{
  List, Option, [], drop, if◌then◌else◌, length, ltb, none, some, suc, take, zero, ℕ, ◌%◌, ◌*◌,
  ◌++◌, ◌+◌, ◌/◌, ◌==◌, ◌∷◌,
}
use kvgo.Pb.{Entry, HardState, SnapshotMeta}

-- `binary.LittleEndian.PutUint…`: the low `n` bytes of a value, the lowest first.
unfoldable pub le_bytes : ℕ → ℕ → List ℕ
le_bytes zero v = []
le_bytes (suc n) v = (v % 256) ∷ le_bytes n (v / 256)

-- `binary.LittleEndian.Uint…`, of exactly as many bytes.
unfoldable pub from_le : List ℕ → ℕ
from_le [] = 0
from_le (b ∷ bs) = b + 256 * from_le bs

abbrev pub u64_at : ℕ → List ℕ → ℕ
u64_at off bytes = from_le (take 8 (drop off bytes))

abbrev pub u32_at : ℕ → List ℕ → ℕ
u32_at off bytes = from_le (take 4 (drop off bytes))

unfoldable pub entry_size : Entry → ℕ
entry_size e = 8 + 8 + length e.payload

unfoldable pub encode_entry : Entry → List ℕ
unfolding le_bytes
encode_entry e = le_bytes 8 e.index ++ (le_bytes 8 e.term ++ e.payload)

-- `none` is ErrUnexpectedBytes.
unfoldable pub decode_entry : List ℕ → Option Entry
unfolding from_le
decode_entry bytes =
    if ltb (length bytes) 16
    then none
    else some (record { index = u64_at 0 bytes; term = u64_at 8 bytes; payload = drop 16 bytes })

unfoldable pub encode_hard_state : HardState → List ℕ
unfolding le_bytes
encode_hard_state h = le_bytes 8 h.term ++ (le_bytes 8 h.voted_for ++ le_bytes 8 h.committed_index)

unfoldable pub decode_hard_state : List ℕ → Option HardState
unfolding from_le
decode_hard_state bytes =
    if length bytes == 24
    then some (record {
      term = u64_at 0 bytes;
      voted_for = u64_at 8 bytes;
      committed_index = u64_at 16 bytes;
    })
    else none

unfoldable pub encode_snapshot_meta : SnapshotMeta → List ℕ
unfolding le_bytes
encode_snapshot_meta s = le_bytes 8 s.last_included_index ++ le_bytes 8 s.last_included_term

unfoldable pub decode_snapshot_meta : List ℕ → Option SnapshotMeta
unfolding from_le
decode_snapshot_meta bytes =
    if length bytes == 16
    then some (record { last_included_index = u64_at 0 bytes; last_included_term = u64_at 8 bytes })
    else none

-- Each entry behind its size.
unfoldable pub encode_frames : List Entry → List ℕ
encode_frames [] = []
encode_frames (e ∷ es) = le_bytes 4 (entry_size e) ++ (encode_entry e ++ encode_frames es)

unfoldable pub frames_size : List Entry → ℕ
frames_size [] = 0
frames_size (e ∷ es) = 4 + entry_size e + frames_size es

unfoldable pub encode_save_batch : HardState → List Entry → List ℕ
encode_save_batch hard entries =
    encode_hard_state hard ++ (le_bytes 4 (frames_size entries) ++ encode_frames entries)

-- `corruption` is ErrCorruption; `stuck`, which is no Go value, that the loop ran out of fuel.
pub data Decoded {ℓ} (A : Type ℓ) : Type ℓ where
  decoded : A → Decoded A
  corruption stuck : Decoded A

abbrev pub then_entries : Option Entry → Decoded (List Entry) → Decoded (List Entry)
then_entries none rest = corruption
then_entries (some e) (decoded es) = decoded (e ∷ es)
then_entries (some e) corruption = corruption
then_entries (some e) stuck = stuck

-- One round takes four bytes at least, so the length is enough fuel.
unfoldable pub decode_loop : ℕ → List ℕ → Decoded (List Entry)
decode_loop fuel [] = decoded []
decode_loop zero (b ∷ bytes) = stuck
decode_loop (suc fuel) (b ∷ bytes) =
    let size = u32_at 0 (b ∷ bytes) in
    let frame = drop 4 (b ∷ bytes) in
    let rest = decode_loop fuel (drop size frame) in
    if ltb (length (b ∷ bytes)) 4
    then corruption
    else if ltb (length frame) size
    then corruption
    else then_entries (decode_entry (take size frame)) rest

unfoldable pub decode_entries : List ℕ → Decoded (List Entry)
unfolding decode_loop
decode_entries bytes = decode_loop (length bytes) bytes

abbrev pub with_hard : HardState → Decoded (List Entry) → Decoded (HardState × List Entry)
with_hard hd (decoded es) = decoded (hd, es)
with_hard hd corruption = corruption
with_hard hd stuck = stuck

abbrev pub batch_of : Option HardState → List ℕ → Decoded (HardState × List Entry)
batch_of none bytes = corruption
batch_of (some hd) bytes =
    if ltb (length bytes) 4
    then corruption
    else if length (drop 4 bytes) == u32_at 0 bytes
    then with_hard hd (decode_entries (drop 4 bytes))
    else corruption

-- The hard state that the Go function returns beside an error is not used by its callers.
unfoldable pub decode_save_batch : List ℕ → Decoded (HardState × List Entry)
decode_save_batch bytes =
    if ltb (length bytes) 24
    then corruption
    else batch_of (decode_hard_state (take 24 bytes)) (drop 24 bytes)
