-- ===== src/Disk/Saves.antt =====
-- `Save` and a restart: a batch is saved as a whole, or not at all.
use kvgo.Common.{
  All, List, Option, [], ap, arith, false, get_last?, length, none, refl, ret, some, take, u64_mod,
  ℕ, ◌&&◌, ◌+◌, ◌<◌, ◌∙◌, ◌∷◌, ◌≡◌,
}
use kvgo.Pb.{Entry, HardState}
use kvgo.Codec.{encode_save_batch, frames_size}
use kvgo.Codec.RoundTrip.{IsEntry, decode_save_batch-encode_save_batch, length-encode_save_batch}
use kvgo.Frames.{frame, write}
use kvgo.Frames.Reading.{frame_limit}
use kvgo.Segments.{maybe_cut, write_batch}
use kvgo.Segments.Scanning.{frames}
use kvgo.Durable.{
  StorageError, disk, DurableStorage, ok, err, is_nil, is_empty_opt, effective, retained,
  filter_retained_entries, truncate_and_append,
}
use kvgo.Disk.{Disk, note_last, save, replayed_to, replay_batch}
use kvgo.Disk.Recovery.{
  IsPersisted, replay_log, replay_log-IsPersisted, appended, repaired, replay_log-torn,
  IsPersisted-write, replay_log-refused, IsPersisted-maybe_cut,
}

-- The numbers of a batch fit in their fields, and so does its length.
pub record Fits (hard : HardState) (es : List Entry) : Type 0 where
  pub term_fits : hard.term < u64_mod
  pub vote_fits : hard.voted_for < u64_mod
  pub index_fits : hard.committed_index < u64_mod
  pub entries_fit : All IsEntry es
  pub size_fits : 28 + frames_size es < frame_limit

-- The first entry, if any, is above an index.
abbrev pub StartsAbove : ℕ → List Entry → Type 0
StartsAbove boundary [] = Unit {0}
StartsAbove boundary (e ∷ es) = boundary < e.index

pub filter_above :
    (boundary : ℕ) (es : List Entry)
    → StartsAbove boundary es
    → filter_retained_entries es boundary ≡ es
unfolding filter_retained_entries retained
filter_above boundary [] h = ground arith
filter_above boundary (e ∷ es) h = ground arith

-- What a replay does with a batch that `Save` wrote.
pub replay_batch-encode :
    (seq : ℕ) (hard : HardState) (es : List Entry) (m : DurableStorage) (idx : List (ℕ × ℕ))
    → Fits hard es
    → replay_batch seq (encode_save_batch hard es) (m, idx)
      ≡ replayed_to (note_last seq (get_last? es) idx) (
          truncate_and_append
            (filter_retained_entries es m.snap.last_included_index)
            (record m { hd = hard }))
unfolding replay_batch
replay_batch-encode seq hard es m idx f =
    rw
      (decode_save_batch-encode_save_batch hard es f.term_fits f.vote_fits f.index_fits
        f.entries_fit (omega (arith, f.size_fits)))
      refl

replay_batch-above :
    (seq : ℕ) (hard : HardState) (es : List Entry) (m : DurableStorage) (idx : List (ℕ × ℕ))
    → Fits hard es
    → StartsAbove m.snap.last_included_index es
    → replay_batch seq (encode_save_batch hard es) (m, idx)
      ≡ replayed_to
          (note_last seq (get_last? es) idx)
          (truncate_and_append es (record m { hd = hard }))
replay_batch-above seq hard es m idx f above =
    replay_batch-encode seq hard es m idx f
    ∙ rw (filter_above m.snap.last_included_index es above) refl

-- The batch that a `Save` writes.
abbrev pub saved_batch : Disk → List Entry → Option HardState → List ℕ
saved_batch d es hard = encode_save_batch (effective hard d.mem.hd) es

-- The state in memory that the entries are put on.
abbrev pub with_hard_state : Disk → Option HardState → DurableStorage
with_hard_state d hard = record (d.mem) { hd = effective hard d.mem.hd }

module _ (d : Disk) (es : List Entry) (hard : Option HardState) (h : IsPersisted d)
    (something : (is_nil es && is_empty_opt hard) ≡ false)
    (f : Fits (effective hard d.mem.hd) es) where
  pub batch_small : length (saved_batch d es hard) < frame_limit
  batch_small = omega (arith, length-encode_save_batch (effective hard d.mem.hd) es, f.size_fits)

  -- Let the log's files hold whole batches whose replay gives the state in memory, and let there be
  -- something to save, whose numbers and length fit their fields. Where the write of the batch breaks
  -- off after some of its bytes, but not all, `Save` returns the disk's error and the state in memory
  -- is the one from before. A replay then rebuilds exactly that state, as if nothing had been saved,
  -- and cuts off what was written of the batch: the files hold whole batches again.
  pub save-torn :
      (k : ℕ)
      → 0 < k
      → k < length (frame (saved_batch d es hard))
      → (d' : Disk) × (good_pos : ℕ) × (save (some k) es hard d ≡ ret (d', some disk))
        × (d'.mem ≡ d.mem)
        × (replay_log d' ≡ some ((d.mem, d.seg_last_idx), (repaired d' good_pos).raft_wal))
        × IsPersisted (repaired d' good_pos)
  unfolding save write_batch write
  save-torn k pos short =
      let (eq, kept) = replay_log-torn d h k (saved_batch d es hard) batch_small pos short in
      (
        appended d (take k (frame (saved_batch d es hard))),
        length (frames h.batches),
        rw something refl,
        refl,
        eq,
        kept,
      )

  -- Let the log's files hold whole batches whose replay gives the state in memory, and let there be
  -- something to save, whose numbers and length fit their fields. Where the batch is written whole,
  -- and its entries, the first of them above the snapshot's index, fit the entries in memory: `Save`
  -- returns without an error, memory has the hard state and the entries joined, a replay rebuilds
  -- the state that is then in memory, and the files again hold whole batches whose replay gives it.
  pub save-replay_log :
      (new : List Entry)
      → StartsAbove d.mem.snap.last_included_index es
      → truncate_and_append es (with_hard_state d hard)
        ≡ ret (ok (record (with_hard_state d hard) { entries = new }))
      → (d' : Disk) × (save none es hard d ≡ ret (d', none))
        × (d'.mem ≡ record (with_hard_state d hard) { entries = new })
        × (replay_log d' ≡ some ((d'.mem, d'.seg_last_idx), d'.raft_wal))
        × IsPersisted d'
  unfolding save write_batch write
  save-replay_log new above fit =
      let idx = note_last d.raft_wal.current_seq (get_last? es) d.seg_last_idx in
      let b = saved_batch d es hard in
      let rebuilt =
        replay_batch-above d.raft_wal.current_seq (effective hard d.mem.hd) es d.mem d.seg_last_idx
          f above
        ∙ ap (replayed_to idx) fit in
      let written = IsPersisted-write d h b (effective hard d.mem.hd) new idx batch_small rebuilt in
      let kept = IsPersisted-maybe_cut _ written in
      (_, rw (something, fit) refl, refl, replay_log-IsPersisted _ kept, kept)

  -- Let the log's files hold whole batches whose replay gives the state in memory, and let there be
  -- something to save, whose numbers and length fit their fields. Where the batch is written whole,
  -- but its entries, the first of them above the snapshot's index, do not fit the entries in memory:
  -- `Save` returns the error of that, and a replay of the log fails.
  pub save-refused :
      (e : StorageError)
      → StartsAbove d.mem.snap.last_included_index es
      → truncate_and_append es (with_hard_state d hard) ≡ ret (err e)
      → (d' : Disk) × (save none es hard d ≡ ret (d', some e)) × (replay_log d' ≡ none)
  unfolding save write_batch write
  save-refused e above refused =
      let idx = note_last d.raft_wal.current_seq (get_last? es) d.seg_last_idx in
      let b = saved_batch d es hard in
      let rebuilt =
        replay_batch-above d.raft_wal.current_seq (effective hard d.mem.hd) es d.mem d.seg_last_idx
          f above
        ∙ ap (replayed_to idx) refused in
      (
        record (appended d (frame b)) {
          raft_wal = maybe_cut (appended d (frame b)).raft_wal;
          seg_last_idx = idx;
          mem = with_hard_state d hard;
        },
        rw (something, refused) refl,
        replay_log-refused d h b idx (effective hard d.mem.hd) batch_small rebuilt,
      )
