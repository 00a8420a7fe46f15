-- ===== src/Transport/Multiplexed.antt =====
-- src/transport/multiplexed_transport.go: requests that share a connection, told apart by a number in
-- front of each payload. A channel is a number, and what is put into it is recorded. The locks are
-- left out, and where several cases of a select are open an argument or an event says which is taken.
use kvgo.Common.{
  Bool, List, Option, [], drop, erase, false, if◌then◌else◌, insert, leb, length, lookup, ltb,
  nat_eq, none, not, some, suc, true, zero, ℕ, ◌%◌, ◌++◌, ◌+◌, ◌-◌, ◌==◌, ◌∷◌,
}
use kvgo.Codec.{le_bytes, u32_at}

abbrev pub default_max_inflight : ℕ
default_max_inflight = 128

-- What a caller receives: a payload, or ErrTransportClosed.
pub data Reply : Type 0 where
  answer : List ℕ → Reply
  transport_closed : Reply

-- `pending` has the channel of each number that is waited for, `inflight` the slots that are taken,
-- and `answered` is how many callers were answered and have not returned.
pub record Multiplexed : Type 0 where
  pub pending : List (ℕ × ℕ)
  pub next_id : ℕ
  pub next_channel : ℕ
  pub max_inflight : ℕ
  pub inflight : ℕ
  pub answered : ℕ
  pub replies : List (ℕ × Reply)
  pub closed : Bool
  pub last_recv_id : ℕ

unfoldable pub new_multiplexed_transport : ℕ → Multiplexed
new_multiplexed_transport max_inflight = record {
  pending = [];
  next_id = 0;
  next_channel = 0;
  max_inflight = if max_inflight == 0 then default_max_inflight else max_inflight;
  inflight = 0;
  answered = 0;
  replies = [];
  closed = false;
  last_recv_id = 0;
}

abbrev pub is_pending : Option ℕ → Bool
is_pending none = false
is_pending (some ch) = true

-- None says that the fuel ran out.
unfoldable pub allocate_id : ℕ → Multiplexed → Option (ℕ × Multiplexed)
allocate_id zero t = none
allocate_id (suc fuel) t =
    let id = (t.next_id + 1) % 4294967296 in
    let rest = allocate_id fuel (record t { next_id = id }) in
    if is_pending (lookup id t.pending) then rest else some (id, record t { next_id = id })

-- `Request` up to its wait: refused for an empty payload, given up for a closed transport or a context
-- that is done, waiting for a slot, or begun, with its number, its channel and what is written.
pub data Begun : Type 0 where
  invalid_payload gave_up waiting exhausted : Begun
  begun : ℕ → ℕ → List ℕ → Multiplexed → Begun

abbrev pub registered : List ℕ → Option (ℕ × Multiplexed) → Begun
registered payload none = exhausted
registered payload (some (id, t)) = begun id t.next_channel (le_bytes 4 id ++ payload) (record t {
  pending = insert id t.next_channel t.pending;
  next_channel = t.next_channel + 1;
  inflight = t.inflight + 1;
})

-- One number more than there are callers is enough to find one that is free.
unfoldable pub begin_request : Bool → List ℕ → Multiplexed → Begun
begin_request acquires payload t =
    if length payload == 0
    then invalid_payload
    else if not acquires
    then gave_up
    else if leb t.max_inflight t.inflight
    then waiting
    else registered payload (allocate_id (length t.pending + 1) t)

-- A caller that could not write, or whose context is done, takes its number back.
abbrev pub taken_back : ℕ → Option ℕ → Multiplexed → Multiplexed
taken_back id none t = t
taken_back id (some ch) t = record t { pending = erase id t.pending; inflight = t.inflight - 1 }

unfoldable pub cancel : ℕ → Multiplexed → Multiplexed
cancel id t = taken_back id (lookup id t.pending) t

-- A caller that was answered returns.
unfoldable pub finish : Multiplexed → Multiplexed
finish t =
    if t.answered == 0 then t else record t { answered = t.answered - 1; inflight = t.inflight - 1 }

abbrev pub reply_to : Option ℕ → ℕ → Reply → Multiplexed → Multiplexed
reply_to none id r t = t
reply_to (some ch) id r t = record t {
  pending = erase id t.pending;
  answered = t.answered + 1;
  replies = t.replies ++ (ch, r) ∷ [];
}

-- A round of the read loop; the number 0 is for messages that answer nothing.
unfoldable pub route : List ℕ → Multiplexed → Multiplexed
route message t =
    if ltb (length message) 4
    then t
    else (let id = u32_at 0 message in
        if id == 0 then t else reply_to (lookup id t.pending) id (answer (drop 4 message)) t)

abbrev pub fail_all : List (ℕ × ℕ) → List (ℕ × Reply)
fail_all [] = []
fail_all ((id, ch) ∷ m) = (ch, transport_closed) ∷ fail_all m

unfoldable pub cleanup : Multiplexed → Multiplexed
cleanup t = if t.closed then t else record t {
  closed = true;
  pending = [];
  answered = t.answered + length t.pending;
  replies = t.replies ++ fail_all t.pending;
}

-- A caller that sees the closed transport returns, and leaves its number where it is.
unfoldable pub leave_closed : Multiplexed → Multiplexed
leave_closed t = if t.closed then record t { inflight = t.inflight - 1 } else t

-- `Send` answers under the number of the last message that was received. None is its error for an
-- empty payload.
unfoldable pub send : List ℕ → Multiplexed → Option (List ℕ × Multiplexed)
send payload t =
    if length payload == 0
    then none
    else some (le_bytes 4 t.last_recv_id ++ payload, record t { last_recv_id = 0 })

unfoldable pub receive : List ℕ → Multiplexed → Option (List ℕ × Multiplexed)
receive message t =
    if leb (length message) 4
    then none
    else some (drop 4 message, record t { last_recv_id = u32_at 0 message })

pub data Event : Type 0 where
  requested : Bool → List ℕ → Event
  cancelled : ℕ → Event
  arrived : List ℕ → Event
  finished cleaned left : Event

abbrev pub after_begin : Begun → Multiplexed → Multiplexed
after_begin (begun id ch message t1) t = t1
after_begin _ t = t

unfoldable pub happen : Event → Multiplexed → Multiplexed
happen (requested acquires payload) t = after_begin (begin_request acquires payload t) t
happen (cancelled id) t = cancel id t
happen (arrived message) t = route message t
happen finished t = finish t
happen cleaned t = cleanup t
happen left t = leave_closed t

unfoldable pub happen_all : List Event → Multiplexed → Multiplexed
happen_all [] t = t
happen_all (e ∷ es) t = happen_all es (happen e t)
