-- ===== src/Durable.antt =====
-- The state that `DurableStorage` of src/raft/storage.go keeps in memory, and the operations on it.
-- Whether a write to the disk succeeds is an argument of the operations that write; the files
-- themselves are not modelled here. The locks are left out: each operation is one step.
pub mod Reading
pub mod Saving
pub mod Compacting
use kvgo.Common.{
  Bool, List, Option, Outcome, [], false, get_elem?, get_last?, if◌then◌else◌, leb, length, ltb,
  none, not, panic, ret, some, sub64, take, true, ℕ, ◌&&◌, ◌++◌, ◌+◌, ◌-◌, ◌==◌, ◌||◌, ◌∷◌,
}
use kvgo.Pb.{Entry, HardState, SnapshotMeta}
use kvgo.Log.{slice_list}
use kvgo.Log.Interface.{Storage}

pub data StorageError : Type 0 where
  compacted non_contiguous snap_out_of_date unavailable out_of_range invalid_range disk :
      StorageError

-- An error leaves the state as it was.
pub data Result {ℓ} (A : Type ℓ) : Type ℓ where
  ok : A → Result A
  err : StorageError → Result A

pub record DurableStorage : Type 0 where
  pub hd : HardState
  pub entries : List Entry
  pub snap : SnapshotMeta
  pub compact_threshold : ℕ

abbrev pub is_empty : HardState → Bool
is_empty hard = (hard.term == 0) && ((hard.voted_for == 0) && (hard.committed_index == 0))

abbrev pub first_or : List Entry → ℕ → ℕ
first_or [] boundary = if boundary == 0 then 0 else boundary + 1
first_or (e ∷ es) boundary = e.index

abbrev pub last_of : Option Entry → ℕ → ℕ
last_of none boundary = boundary
last_of (some e) boundary = e.index

-- `LastIncludedIndex + 1` does not wrap: no index reaches the end of uint64.
unfoldable pub first_index : DurableStorage → ℕ
first_index s = first_or s.entries s.snap.last_included_index

unfoldable pub last_index : DurableStorage → ℕ
last_index s = last_of (get_last? s.entries) s.snap.last_included_index

abbrev pub is_nil : List Entry → Bool
is_nil [] = true
is_nil (e ∷ es) = false

abbrev pub ok_slice : Outcome (List Entry) → Outcome (Result (List Entry))
ok_slice (ret es) = ret (ok es)
ok_slice panic = panic

unfoldable pub read_entries : ℕ → ℕ → DurableStorage → Outcome (Result (List Entry))
unfolding first_index last_index
read_entries lo hi s =
    let boundary = s.snap.last_included_index in
    let first = first_index s in
    let available_hi = if is_nil s.entries then first else last_index s + 1 in
    if ltb hi lo
    then ret (err invalid_range)
    else if ltb 0 boundary && leb lo boundary
    then ret (err compacted)
    else if ltb lo first || ltb available_hi hi
    then ret (err out_of_range)
    else if lo == hi
    then ret (ok [])
    else ok_slice (slice_list (lo - first) (hi - first) s.entries)

abbrev pub ok_term : Option Entry → Outcome (Result ℕ)
ok_term none = panic
ok_term (some e) = ret (ok e.term)

unfoldable pub read_term : ℕ → DurableStorage → Outcome (Result ℕ)
unfolding first_index last_index
read_term i s =
    if ltb i s.snap.last_included_index
    then ret (err compacted)
    else if ltb (last_index s) i
    then ret (err unavailable)
    else if i == s.snap.last_included_index
    then ret (ok s.snap.last_included_term)
    else ok_term (get_elem? s.entries (sub64 i (first_index s)))

abbrev pub extend : ℕ → List Entry → DurableStorage → Outcome (Result DurableStorage)
extend first es s =
    if first == last_index s + 1
    then ret (ok (record s { entries = s.entries ++ es }))
    else if ltb (last_index s + 1) first
    then ret (err non_contiguous)
    else if leb first (first_index s)
    then ret (ok (record s { entries = es }))
    else if leb (first - first_index s) (length s.entries)
    then ret (ok (record s { entries = take (first - first_index s) s.entries ++ es }))
    else panic

-- An empty log takes entries from right after the snapshot on, or from 1.
unfoldable pub truncate_and_append : List Entry → DurableStorage → Outcome (Result DurableStorage)
unfolding first_index last_index
truncate_and_append [] s = ret (ok s)
truncate_and_append (e ∷ es) s =
    if is_nil s.entries
    then (if e.index == s.snap.last_included_index + 1
        then ret (ok (record s { entries = e ∷ es }))
        else ret (err non_contiguous))
    else extend e.index (e ∷ es) s

abbrev pub is_empty_opt : Option HardState → Bool
is_empty_opt none = true
is_empty_opt (some hard) = is_empty hard

abbrev pub effective : Option HardState → HardState → HardState
effective none old = old
effective (some hard) old = if is_empty hard then old else hard

abbrev pub saved :
    DurableStorage
    → Outcome (Result DurableStorage)
    → Outcome (DurableStorage × Option StorageError)
saved s (ret (ok s')) = ret (s', none)
saved s (ret (err e)) = ret (s, some e)
saved s panic = panic

-- `written` says whether the batch was written and synced, `cut` whether a new segment could be
-- begun if one was due. The result is the state, and the error returned, if any: entries that do
-- not fit are refused after the hard state was set.
unfoldable pub save :
    Bool
    → Bool
    → List Entry
    → Option HardState
    → DurableStorage
    → Outcome (DurableStorage × Option StorageError)
save written cut es hard s =
    if is_nil es && is_empty_opt hard
    then ret (s, none)
    else if not written
    then ret (s, some disk)
    else if not cut
    then ret (s, some disk)
    else (let s1 = record s { hd = effective hard s.hd } in saved s1 (truncate_and_append es s1))

-- The entries above an index; they stand in order, so the loop stops at the first of them.
unfoldable pub retained : ℕ → List Entry → List Entry
retained index [] = []
retained index (e ∷ es) = if leb e.index index then retained index es else e ∷ es

unfoldable pub filter_retained_entries : List Entry → ℕ → List Entry
unfolding retained
filter_retained_entries es index = if index == 0 then es else retained index es

unfoldable pub apply_snapshot : Bool → SnapshotMeta → DurableStorage → DurableStorage × Bool
unfolding filter_retained_entries
apply_snapshot written snap s =
    if ltb 0 s.snap.last_included_index && leb snap.last_included_index s.snap.last_included_index
    then (s, false)
    else if written
    then (
      record s {
        snap = snap;
        entries = filter_retained_entries s.entries snap.last_included_index;
      },
      true,
    )
    else (s, false)

unfoldable pub compact_to :
    Bool → ℕ → DurableStorage → Option Entry → Outcome (Result DurableStorage)
compact_to written index s none = panic
compact_to written index s (some e) =
    if written
    then ret (
        ok (record s {
          snap = record { last_included_index = index; last_included_term = e.term };
          entries = retained index s.entries;
        }))
    else ret (err disk)

-- `compactLocked`, but for the deletion of old segment files at its end.
unfoldable pub compact : Bool → ℕ → DurableStorage → Outcome (Result DurableStorage)
compact written index s =
    let boundary = s.snap.last_included_index in
    if ltb 0 boundary && leb index boundary
    then ret (err compacted)
    else if is_nil s.entries
    then ret (err out_of_range)
    else if ltb (last_index s) index
    then ret (err out_of_range)
    else if ltb index (first_index s)
    then ret (err out_of_range)
    else compact_to written index s (get_elem? s.entries (index - first_index s))

unfoldable pub maybe_compact : Bool → ℕ → DurableStorage → Outcome (Result DurableStorage)
maybe_compact written applied_index s =
    if leb applied_index s.snap.last_included_index
    then ret (ok s)
    else if ltb (applied_index - s.snap.last_included_index) s.compact_threshold
    then ret (ok s)
    else compact written applied_index s

abbrev pub no_error : {A : Type 0} → Outcome (Result A) → Outcome (Option A)
no_error (ret (ok a)) = ret (some a)
no_error (ret (err e)) = ret none
no_error panic = panic

-- The interface that the raft log reads; `written` is for the snapshot's file.
abbrev pub durable : Bool → Storage DurableStorage
durable written = record {
  initial_state = λ s. some s.hd;
  first_index = first_index;
  last_index = last_index;
  entries = λ s lo hi. no_error (read_entries lo hi s);
  term = λ s i. no_error (read_term i s);
  snapshot = λ s. some s.snap;
  apply_snapshot = λ s snap. apply_snapshot written snap s;
}
