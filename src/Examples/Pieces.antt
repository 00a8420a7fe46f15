-- ===== src/Examples/Pieces.antt =====
-- The quorum, the tracker, the codec and the stored entries on concrete values.
use kvgo.Common.{
  List, Option, [], arith, if◌then◌else◌, lookup, ltb, nat_eq, none, refl, ret, some, true, ℕ, ◌*◌,
  ◌+◌, ◌<◌, ◌↔◌, ◌∷◌, ◌≡◌, ◌≤◌,
}
use mathlib.Core.List.{Mem}
use kvgo.Pb.{Message, empty_message, msg_read_index, msg_heartbeat_resp, HardState}
use kvgo.ReadOnly.{ReadOnly, ReadIndexStatus, advance}
use kvgo.ReadOnly.Order.{Takes, advance-order}
use kvgo.Quorum.{vote_result, vote_won, vote_lost, committed_index}
use kvgo.Quorum.Votes.{vote_result_lem}
use kvgo.Quorum.Intersect.{vote_result_intersect}
use kvgo.Quorum.Commit.{ackers, committed_index_lem}
use kvgo.Tracker.{ProgressTracker, quorum_active}
use kvgo.Tracker.Activity.{active_voters, quorum_active_lem}
use kvgo.Codec.{encode_save_batch, decode_save_batch, decoded, frames_size, entry_size}
use kvgo.Codec.RoundTrip.{decode_save_batch-encode_save_batch}
use kvgo.Durable.Compacting.{compact_lem}
use kvgo.Durable.{ok, compact, DurableStorage, save, durable, last_index}
use kvgo.Durable.Reading.{IsStored, stored_at, durable-Reads}
use kvgo.Durable.Saving.{save_lem}
use kvgo.Log.Interface.{Reads}
use kvgo.Examples.Values.{entry, stored, stored-IsStored, acked}

abbrev group : List ℕ
group = 1 ∷ 2 ∷ 3 ∷ []

vote_result_lem_example :
    ((vote_result group ((1, true) ∷ []) ≡ vote_won) ↔ (3 < 2 * 1))
    × ((vote_result group ((1, true) ∷ []) ≡ vote_lost) ↔ (2 * (1 + 2) ≤ 3))
vote_result_lem_example = vote_result_lem group ((1, true) ∷ []) (λ e. cc)

elected : vote_result group ((1, true) ∷ (2, true) ∷ []) ≡ vote_won
unfolding vote_result
elected = refl

also_elected : vote_result group ((2, true) ∷ (3, true) ∷ []) ≡ vote_won
unfolding vote_result
also_elected = refl

vote_result_intersect_example :
    (id : ℕ) × Mem id group
    × (lookup id ((1, true) ∷ (2, true) ∷ []) ≡ some true)
    × (lookup id ((2, true) ∷ (3, true) ∷ []) ≡ some true)
vote_result_intersect_example =
    vote_result_intersect group ((1, true) ∷ (2, true) ∷ []) ((2, true) ∷ (3, true) ∷ []) (λ e. cc)
      elected also_elected

abbrev two_have_three : ℕ → Option ℕ
two_have_three id = if ltb id 3 then some 3 else none

committed_index_lem_example :
    (3 ≤ committed_index group two_have_three) ↔ (3 < 2 * ackers 3 two_have_three group)
committed_index_lem_example = committed_index_lem group two_have_three 3 (λ e. cc) (omega arith)

abbrev tracked : ProgressTracker
tracked = record {
  self_id = 1;
  voters = group;
  progress = (1, acked 3) ∷ (2, acked 3) ∷ [];
  votes = [];
}

quorum_active_lem_example :
    (quorum_active tracked ≡ true) ↔ (3 < 2 * active_voters tracked.progress group)
quorum_active_lem_example = quorum_active_lem tracked (λ e. cc)

abbrev hard : HardState
hard = record { term = 2; voted_for = 3; committed_index = 1 }

decode_save_batch-encode_save_batch_example :
    decode_save_batch (encode_save_batch hard (entry 1 1 ∷ entry 2 1 ∷ []))
    ≡ decoded (hard, entry 1 1 ∷ entry 2 1 ∷ [])
unfolding frames_size entry_size
decode_save_batch-encode_save_batch_example =
    decode_save_batch-encode_save_batch hard (entry 1 1 ∷ entry 2 1 ∷ []) (omega arith)
      (omega arith) (omega arith)
      ((omega arith, omega arith, omega arith), ((omega arith, omega arith, omega arith), tt))
      (omega arith)

durable-Reads_example : Reads (durable true) stored (stored_at stored)
durable-Reads_example = durable-Reads stored stored-IsStored true

save_lem_example :
    (s' : DurableStorage) × (save true true (entry 2 2 ∷ entry 3 2 ∷ []) (some hard) stored
      ≡ ret (s', none))
unfolding last_index
save_lem_example =
    let (s', eq, _, _, _, _, _) =
      save_lem stored (entry 2 2) (entry 3 2 ∷ []) (some hard) stored-IsStored (omega arith)
        (omega arith) (refl, (refl, tt)) (omega arith) in
    (s', eq)

compact_lem_example : (s' : DurableStorage) × (compact true 1 stored ≡ ret (ok s')) × IsStored s'
unfolding last_index
compact_lem_example =
    let (s', eq, w, _, _, _, _) =
      compact_lem stored stored-IsStored 1 (omega arith) (omega arith) (entry 1 1) refl in
    (s', eq, w)

abbrev asked : List ℕ → ReadIndexStatus
asked ctx = record {
  req = record (empty_message msg_read_index) { context = ctx };
  index = 3;
  acks = (1, true) ∷ [];
}

abbrev two_reads : ReadOnly
two_reads = record {
  pending_read_index = (1 ∷ [], asked (1 ∷ [])) ∷ (2 ∷ [], asked (2 ∷ [])) ∷ [];
  read_index_queue = (1 ∷ []) ∷ (2 ∷ []) ∷ [];
}

abbrev first_ack : Message
first_ack = record (empty_message msg_heartbeat_resp) { from = 2; context = 1 ∷ [] }

advance-order_example :
    (r' : ReadOnly) × (rss : List ReadIndexStatus) × (advance first_ack two_reads ≡ ret (r', rss))
    × Takes (1 ∷ []) two_reads.pending_read_index two_reads.read_index_queue rss r'.read_index_queue
advance-order_example =
    let (r', rss, eq, (_, found)) =
      advance-order first_ack two_reads ((asked (1 ∷ []), refl), ((asked (2 ∷ []), refl), tt)) in
    (r', rss, eq, found (omega arith))
