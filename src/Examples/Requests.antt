-- ===== src/Examples/Requests.antt =====
-- The client protocol, the waiters and the server's request path on concrete values.
use kvgo.Common.{List, [], arith, bytes_beq, bytes_eq, if◌then◌else◌, refl, some, true, ℕ, ◌∷◌, ◌≡◌}
use kvgo.Protocol.{Request, cmd_put}
use kvgo.Common.{◌⊎◌, ◌≤◌, ◌++◌, none}
use kvgo.Raft.{Ready}
use kvgo.Examples.Values.{entry}
use kvgo.Transport.{end_of_stream}
use kvgo.Server.{to_put, to_get}
use kvgo.Server.Receiving.{
  write_requests, handle_connection, ended, handle_connection-write_requests,
}
use kvgo.Server.Host.{
  Effect, read_answered, to_apply, stored, NothingNew, handle_batch, handle_batch-order,
}
use kvgo.Protocol.{cmd_get}
use kvgo.Common.{lookup, ◌<◌, length, nat_eq}
use kvgo.Codec.{le_bytes, from_le}
use kvgo.Transport.Multiplexed.{
  answer, Multiplexed, new_multiplexed_transport, allocate_id, begun, waiting, begin_request,
  finish, route, Event, requested, arrived, finished, happen, happen_all,
}
use kvgo.Transport.Routing.{happen_all-begin_request}
use kvgo.Wait.{new_time_list, released, trigger_times, wait}
use kvgo.Wait.Histories.{Step, waited, triggered, history, history-wait}
use kvgo.Server.{StateMachine, done, Server, new_server, apply_entry, begin_put}
use kvgo.Engine.Shard.{new_shard}
use kvgo.Engine.Database.{Database, database_get}
use kvgo.Server.Storing.{database_machine}
use kvgo.Server.Applying.{begin_put-apply_entry}

abbrev a_put : Request
a_put = record { cmd = cmd_put; key = 7 ∷ []; value = 1 ∷ 2 ∷ []; seq = 300 }

abbrev a_get : Request
a_get = record { cmd = cmd_get; key = 7 ∷ []; value = []; seq = 0 }

handle_connection-write_requests_example :
    (bytes : List ℕ) × (write_requests (a_put ∷ a_get ∷ []) ≡ some bytes)
    × (handle_connection bytes
        ≡ (to_put (7 ∷ []) (1 ∷ 2 ∷ []) ∷ to_get (7 ∷ []) ∷ [], ended end_of_stream))
handle_connection-write_requests_example =
    handle_connection-write_requests (a_put ∷ a_get ∷ [])
      ((omega arith, omega arith, omega arith), ((omega arith, omega arith, omega arith), tt))

-- An entry that is to be saved, a read that is to be answered and two entries to apply.
abbrev some_ready : Ready
some_ready = record {
  lead = 1;
  entries = entry 3 1 ∷ [];
  committed_entries = entry 1 1 ∷ entry 2 1 ∷ [];
  messages = [];
  hard_state = none;
  read_states = record { index = 0; request_ctx = [] } ∷ [];
}

handle_batch-order_example :
    (before rest : List Effect) × ((handle_batch true 2 some_ready).0 ++ rest
      ≡ before
        ++ read_answered (record { index = 0; request_ctx = [] })
          ∷ to_apply ((entry 1 1).payload ∷ (entry 2 1).payload ∷ []) 2
          ∷ [])
    × ((NothingNew some_ready × (before ≡ []))
        ⊎ ((¬ NothingNew some_ready) × (before ≡ stored (entry 3 1 ∷ []) none ∷ [])))
handle_batch-order_example =
    let (before, rest, eq, saves, _, _) = handle_batch-order true 2 some_ready in
    (before, rest, eq, saves)

abbrev some_steps : List Step
some_steps = waited 3 ∷ triggered 4 ∷ waited 6 ∷ []

history-wait_example :
    let tl = history some_steps new_time_list in
    released (wait 6 tl).0 (trigger_times (5 ∷ 7 ∷ []) (wait 6 tl).1) ≡ true
history-wait_example = history-wait some_steps 6 (5 ∷ 7 ∷ [])

-- The engine with a hash that takes the first byte of a key.
abbrev first_byte : List ℕ → ℕ
first_byte [] = 0
first_byte (b ∷ key) = b

instance engine_machine : StateMachine Database
engine_machine = database_machine first_byte

abbrev empty_database : Database
empty_database = λ i. new_shard [] []

-- A server on which a caller waits for its first request.
abbrev one_waiter : Server Database
one_waiter = record (new_server empty_database) {
  w = record { m = (1, 0) ∷ []; next_channel = 1; sent = [] };
}

begin_put-apply_entry_example :
    (raw : List ℕ) × ((begin_put true (7 ∷ []) (1 ∷ []) (new_server empty_database)).1.0 ≡ some raw)
    × ((j : List ℕ)
        → (database_get first_byte j (apply_entry raw one_waiter).sm).0 ≡ (
            if bytes_beq (7 ∷ []) j
            then some (1 ∷ [])
            else (database_get first_byte j empty_database).0))
    × (((lookup 1 one_waiter.w.m ≡ none) × ((apply_entry raw one_waiter).w.sent ≡ []))
        ⊎ ((ch : ℕ) × (lookup 1 one_waiter.w.m ≡ some ch)
            × ((apply_entry raw one_waiter).w.sent ≡ (ch, done) ∷ [])))
unfolding engine_machine database_get
begin_put-apply_entry_example =
    let (raw, given, reads, told, _) =
      begin_put-apply_entry (7 ∷ []) (1 ∷ []) (new_server empty_database) one_waiter (omega arith)
        (omega arith) (omega arith) in
    (raw, given, reads, told)

-- Two requests of which one was answered, with a limit of two.
abbrev some_events : List Event
some_events =
    requested true (5 ∷ [])
    ∷ requested true (6 ∷ [])
    ∷ arrived (1 ∷ 0 ∷ 0 ∷ 0 ∷ 9 ∷ [])
    ∷ finished
    ∷ []

happen_all-begin_request_example :
    let t = happen_all some_events (new_multiplexed_transport 2) in
    (length t.pending ≤ t.inflight)
    × (t.inflight ≤ 2)
    × (((t.inflight ≡ 2) × (begin_request true (7 ∷ []) t ≡ waiting))
        ⊎ ((t.inflight < 2)
            × (id : ℕ) × (t' : Multiplexed) × (begin_request true (7 ∷ []) t
                ≡ begun id t.next_channel (le_bytes 4 id ++ 7 ∷ []) t')
            × (lookup id t.pending ≡ none)
            × (id < 4294967296)
            × ((id ≡ 0)
                ⊎ ((reply : List ℕ)
                    → (route (le_bytes 4 id ++ reply) t').replies
                      ≡ t.replies ++ (t.next_channel, answer reply) ∷ []))))
unfolding happen_all happen begin_request allocate_id new_multiplexed_transport route finish from_le
happen_all-begin_request_example =
    happen_all-begin_request 2 some_events (7 ∷ []) (omega arith) (omega arith) (omega arith) refl
