-- ===== src/Examples/Shards.antt =====
-- The storage engine on concrete values.
use kvgo.Common.{List, [], arith, none, refl, some, true, ℕ, ◌++◌, ◌∷◌, ◌≡◌, All}
use kvgo.Engine.Index.{new_engine_wal}
use kvgo.Engine.Shard.{
  Shard, new_shard, found, get, WriteRequest, flush, batch_values, apply_batch, put_internal,
}
use kvgo.Engine.Restart.{restarted}
use kvgo.Engine.Flushes.{flush_all, IsBatch, flush_all-get}
use kvgo.Engine.Rewriting.{both, done, do_cleanup, do_compact}
use kvgo.Engine.Keeping.{do_cleanup-get}
use kvgo.Engine.Losing.{do_compact-flush, one_put}
use kvgo.Engine.Committer.{
  Turn, enqueue, receive, stop, new_group_committer, flush_buf, append_to_batch, flush_buffered,
  drain, turn, run,
}
use kvgo.Engine.Committing.{run-stop, join, IsBounded}

abbrev write_of : List ℕ → List ℕ → WriteRequest
write_of k v = record { key = k; bytes = v; waits = true }

-- Two batches; the second writes the first key again.
abbrev two_flushes : List (List WriteRequest)
two_flushes =
    (write_of (7 ∷ []) (1 ∷ 2 ∷ []) ∷ write_of (8 ∷ []) [] ∷ [])
    ∷ (write_of (7 ∷ []) (3 ∷ []) ∷ [])
    ∷ []

two_flushes-IsBatch : All IsBatch two_flushes
two_flushes-IsBatch = (
  ((refl, (refl, tt)), ((omega arith, omega arith), ((omega arith, omega arith), tt))),
  (((refl, tt), ((omega arith, omega arith), tt)), tt),
)

flush_all-get_example :
    ((get (7 ∷ []) (flush_all two_flushes (new_shard [] []))).0 ≡ found (3 ∷ []))
    × ((restarted (flush_all two_flushes (new_shard [] []))).1 ≡ true)
    × ((get (7 ∷ []) (restarted (flush_all two_flushes (new_shard [] []))).0).0 ≡ found (3 ∷ []))
unfolding batch_values
flush_all-get_example = flush_all-get two_flushes (7 ∷ []) two_flushes-IsBatch (omega arith)

-- A shard with two keys, whose files have more than is needed.
abbrev two_keys : Shard
two_keys = record {
  entries =
      (7 ∷ [], record { payload = some (3 ∷ []); size = 1; offset = 5 })
      ∷ (8 ∷ [], record { payload = some []; size = 0; offset = 0 })
      ∷ [];
  wal = new_engine_wal [] (9 ∷ 9 ∷ 9 ∷ 9 ∷ 9 ∷ 3 ∷ []);
  key_bytes_in_ram = 2;
  num_keys = 2;
  index_bytes_on_disk = 0;
  value_offset = 6;
}

do_cleanup-get_example :
    (s' : Shard) × (do_cleanup [] [] both two_keys ≡ (s', done))
    × ((get (7 ∷ []) s').0 ≡ (get (7 ∷ []) two_keys).0)
    × ((restarted s').1 ≡ true)
    × ((get (7 ∷ []) (restarted s').0).0 ≡ (get (7 ∷ []) two_keys).0)
unfolding batch_values kvgo.Engine.Index.wal_index_len
do_cleanup-get_example =
    do_cleanup-get two_keys (refl, (refl, tt)) ((3 ∷ [], refl), (([], refl), tt))
      (omega arith, (omega arith, tt))
      ((omega arith, omega arith), ((omega arith, omega arith), tt)) (omega arith) (7 ∷ [])

-- A shard whose file of values is not empty.
abbrev one_value : Shard
one_value = new_shard [] (9 ∷ 9 ∷ [])

do_compact-flush_example :
    (s' : Shard) × (do_compact true true
        (flush none none (one_put (7 ∷ []) (1 ∷ 2 ∷ [])) one_value).0
      ≡ (s', true))
    × ((restarted s').1 ≡ true)
    × ((get (7 ∷ []) (restarted s').0).0 ≡ found (9 ∷ 9 ∷ []))
unfolding new_shard new_engine_wal flush apply_batch put_internal batch_values
    kvgo.Engine.Index.write_value kvgo.Engine.Index.write_index
do_compact-flush_example =
    do_compact-flush one_value (7 ∷ []) (1 ∷ 2 ∷ []) tt
      ((omega arith, omega arith, omega arith), tt)

-- Two requests: one is received, then the loop stops.
abbrev two_turns : List Turn
two_turns =
    enqueue (write_of (7 ∷ []) (1 ∷ [])) ∷ receive ∷ enqueue (write_of (8 ∷ []) (2 ∷ [])) ∷ []

run-stop_example :
    let c = run two_turns (new_group_committer (new_shard [] []) []) in
    (c.sent ≡ join c.batches ++ (c.buf ++ c.queue))
    × ((turn stop c).sent ≡ join (turn stop c).batches)
    × All IsBounded (turn stop c).batches
unfolding run turn new_group_committer append_to_batch drain flush_buffered flush_buf flush
    kvgo.Engine.Index.write_value kvgo.Engine.Index.write_index
run-stop_example = run-stop (new_shard [] []) [] two_turns refl refl refl
