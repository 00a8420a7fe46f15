-- ===== src/Server.antt =====
-- The request path of src/server: envelopes (envelope.go), the handlers of handler_kv.go and
-- dispatcher.go, and the application of committed entries in server.go. What Raft does between a
-- proposal and its entry is not part of it; a wait on a channel is split into what comes before and
-- what comes after.
pub mod Applying
pub mod Storing
pub mod Receiving
pub mod Host
use kvgo.Common.{
  Bool, List, Option, [], bytes_beq, drop, false, if◌then◌else◌, length, ltb, none, some, take,
  true, u64_mod, ℕ, ◌%◌, ◌++◌, ◌+◌, ◌==◌, ◌∷◌, ◌≡◌, add64, reverse,
}
use kvgo.Codec.{le_bytes, from_le}
use kvgo.Protocol.{
  Coded, ok, err, Request, Response, cmd_get, cmd_put, encode_request, decode_request,
  encode_response, status_ok, status_not_found, status_error, status_timeout,
}
use kvgo.Wait.{
  WaitList, new_wait, register, trigger, TimeList, new_time_list, trigger_time, Waiting, wait,
}

-- The server's interface to the engine: what `Get` finds after `PutAsync`.
pub record StateMachine (S : Type 0) : Type 0 where
  pub put_async : List ℕ → List ℕ → S → S
  pub get : List ℕ → S → Option (List ℕ)
  pub get-put_async :
      (k j v : List ℕ) (s : S)
      → get j (put_async k v s) ≡ (if bytes_beq k j then some v else get j s)

-- What is sent to a waiter: nil, an error, or the index of a read.
pub data Failure : Type 0 where
  encoding decoding unknown_command proposing : Failure

pub data Signal : Type 0 where
  done : Signal
  failed : Failure → Signal
  read_at : ℕ → Signal

pub record Server (S : Type 0) : Type 0 where
  pub sm : S
  pub w : WaitList Signal
  pub apply_wait : TimeList
  pub req_id_gen : ℕ

abbrev pub new_server : {S : Type 0} → S → Server S
new_server sm = record { sm = sm; w = new_wait; apply_wait = new_time_list; req_id_gen = 0 }

unfoldable pub marshal_envelope : ℕ → List ℕ → List ℕ
marshal_envelope id payload = le_bytes 8 id ++ payload

unfoldable pub unmarshal_envelope : List ℕ → Option (ℕ × List ℕ)
unmarshal_envelope bytes =
    if ltb (length bytes) 8 then none else some (from_le (take 8 bytes), drop 8 bytes)

module _ {S : Type 0} ⦃m : StateMachine S⦄ where
  abbrev pub signal : ℕ → Signal → Server S → Server S
  signal id x s = record s { w = trigger id x s.w }

  abbrev pub apply_request : ℕ → Request → Server S → Server S
  apply_request id r s =
      if r.cmd == cmd_put
      then signal id done (record s { sm = m.put_async r.key r.value s.sm })
      else signal id (failed unknown_command) s

  abbrev pub apply_payload : ℕ → Coded Request → Server S → Server S
  apply_payload id (ok r) s = apply_request id r s
  apply_payload id (err e) s = signal id (failed decoding) s

  abbrev pub apply_envelope : Option (ℕ × List ℕ) → Server S → Server S
  apply_envelope none s = s
  apply_envelope (some (id, payload)) s = apply_payload id (decode_request payload) s

  -- An entry without bytes is the no-op of a new leader.
  unfoldable pub apply_entry : List ℕ → Server S → Server S
  apply_entry [] s = s
  apply_entry (b ∷ bytes) s = apply_envelope (unmarshal_envelope (b ∷ bytes)) s

  unfoldable pub apply_batch : List (List ℕ) → Server S → Server S
  apply_batch [] s = s
  apply_batch (raw ∷ raws) s = apply_batch raws (apply_entry raw s)

  -- The case of `run` for committed entries, but for the compaction of the raft log.
  unfoldable pub run_apply : List (List ℕ) → ℕ → Server S → Server S
  run_apply raws applied_thru s =
      let s1 = apply_batch raws s in
      if applied_thru == 0
      then s1
      else record s1 { apply_wait = trigger_time applied_thru s1.apply_wait }

  -- A request gets the next number, and a channel to wait on.
  unfoldable pub begin_request : Server S → ℕ × (ℕ × Server S)
  begin_request s =
      let id = add64 s.req_id_gen 1 in
      let (ch, w) = register id s.w in (id, (ch, record s { w = w; req_id_gen = id }))

  abbrev pub propose_encoded : Bool → ℕ → Coded (List ℕ) → Server S → Option (List ℕ) × Server S
  propose_encoded accepted id (err e) s = (none, signal id (failed encoding) s)
  propose_encoded accepted id (ok bytes) s =
      if accepted
      then (some (marshal_envelope id bytes), s)
      else (none, signal id (failed proposing) s)

  -- `proposePut` up to its wait: the channel, and the data that Raft was given, if it accepted them.
  unfoldable pub begin_put : Bool → List ℕ → List ℕ → Server S → ℕ × (Option (List ℕ) × Server S)
  begin_put accepted key value s =
      let (id, (ch, s1)) = begin_request s in
      (
        ch,
        propose_encoded accepted id
            (encode_request (record { cmd = cmd_put; key = key; value = value; seq = 0 })) s1,
      )

  -- `proposeRead` up to its first wait: the channel, and the context of the read, a big-endian number.
  unfoldable pub begin_read : Bool → Server S → ℕ × (List ℕ × Server S)
  begin_read accepted s =
      let (id, (ch, s1)) = begin_request s in
      (ch, (reverse (le_bytes 8 id), if accepted then s1 else signal id done s1))

  -- The case of `run` for a read state.
  unfoldable pub run_read_state : List ℕ → ℕ → Server S → Server S
  run_read_state ctx index s = signal (from_le (reverse (take 8 ctx))) (read_at index) s

  -- `proposeRead` after its first wait; none is the panic of the type assertion at a value that is no
  -- index.
  unfoldable pub end_read : Signal → Server S → Option (Waiting × Server S)
  end_read (read_at index) s =
      let (wait_for, tl) = wait index s.apply_wait in some (wait_for, record s { apply_wait = tl })
  end_read _ s = none

-- What a handler's wait ended with.
pub data Ended : Type 0 where
  success timeout failure : Ended

unfoldable pub get_response : Ended → Option (List ℕ) → Response
get_response success none = record { status = status_not_found; value = []; seq = 0 }
get_response success (some v) = record { status = status_ok; value = v; seq = 0 }
get_response timeout _ = record { status = status_timeout; value = []; seq = 0 }
get_response failure _ = record { status = status_error; value = []; seq = 0 }

-- An error of `handlePut` is answered by `handleRequest`.
unfoldable pub put_response : Ended → Response
put_response success = record { status = status_ok; value = []; seq = 0 }
put_response _ = record { status = status_error; value = []; seq = 0 }

-- The handler that `handleRequest` calls, or the error that it answers.
pub data Dispatch : Type 0 where
  to_get : List ℕ → Dispatch
  to_put : List ℕ → List ℕ → Dispatch
  answered : Response → Dispatch

abbrev pub dispatch_request : Coded Request → Dispatch
dispatch_request (ok r) =
    if r.cmd == cmd_get
    then to_get r.key
    else if r.cmd == cmd_put
    then to_put r.key r.value
    else answered (record { status = status_error; value = []; seq = 0 })
dispatch_request (err e) = answered (record { status = status_error; value = []; seq = 0 })

unfoldable pub handle_request : List ℕ → Dispatch
handle_request payload = dispatch_request (decode_request payload)
