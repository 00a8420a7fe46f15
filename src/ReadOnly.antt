-- ===== src/ReadOnly.antt =====
-- The queue of pending ReadIndex requests, src/raft/read_only.go. A request's context, a byte
-- string, is its key. The status that the Go map points to is replaced in the map when it changes.
pub mod Order
use kvgo.Common.{
  List, Option, Outcome, [], bytes_beq, bytes_eq, erase, if◌then◌else◌, insert, lookup, nat_eq,
  none, panic, ret, some, true, ℕ, ◌++◌, ◌>>=◌, ◌∷◌,
}
use kvgo.Pb.{Message}
use kvgo.Quorum.{Votes}

pub record ReadState : Type 0 where
  pub index : ℕ
  pub request_ctx : List ℕ

pub record ReadIndexStatus : Type 0 where
  pub req : Message
  pub index : ℕ
  pub acks : Votes

pub record ReadOnly : Type 0 where
  pub pending_read_index : List (List ℕ × ReadIndexStatus)
  pub read_index_queue : List (List ℕ)

abbrev pub new_read_only : ReadOnly
new_read_only = record { pending_read_index = []; read_index_queue = [] }

abbrev pub add_if_absent : ℕ → Message → ReadOnly → Option ReadIndexStatus → ReadOnly
add_if_absent i m r (some rs) = r
add_if_absent i m r none = record {
  pending_read_index =
      insert m.context (record { req = m; index = i; acks = [] }) r.pending_read_index;
  read_index_queue = r.read_index_queue ++ m.context ∷ [];
}

unfoldable pub add_request : ℕ → Message → ReadOnly → ReadOnly
add_request i m r = add_if_absent i m r (lookup m.context r.pending_read_index)

abbrev pub ack_status : ℕ → List ℕ → ReadOnly → Option ReadIndexStatus → ReadOnly × Votes
ack_status id ctx r none = (r, [])
ack_status id ctx r (some rs) =
    let acks = insert id true rs.acks in
    (
      record r { pending_read_index = insert ctx (record rs { acks = acks }) r.pending_read_index },
      acks,
    )

-- The acks of the request; the nil map, read as the empty one, if there is no such request.
unfoldable pub recv_ack : ℕ → List ℕ → ReadOnly → ReadOnly × Votes
recv_ack id ctx r = ack_status id ctx r (lookup ctx r.pending_read_index)

-- What the loop of `advance` collects: the statuses up to `ctx`, and the queue after it. `none` if
-- `ctx` is not in the queue.
abbrev pub Collected : Type 0
Collected = Option (List ReadIndexStatus × List (List ℕ))

abbrev pub add_status : ReadIndexStatus → Collected → Collected
add_status rs none = none
add_status rs (some (rss, rest)) = some (rs ∷ rss, rest)

abbrev pub collect_or :
    List ℕ → List ℕ → List (List ℕ) → Option ReadIndexStatus → Outcome Collected → Outcome Collected
collect_or ctx okctx queue none rest = panic
collect_or ctx okctx queue (some rs) rest =
    if bytes_beq okctx ctx
    then ret (some (rs ∷ [], queue))
    else (do found ← rest; ret (add_status rs found))

unfoldable pub collect :
    List ℕ → List (List ℕ × ReadIndexStatus) → List (List ℕ) → Outcome Collected
collect ctx pending [] = ret none
collect ctx pending (okctx ∷ queue) =
    let rest = collect ctx pending queue in collect_or ctx okctx queue (lookup okctx pending) rest

unfoldable pub delete_all :
    List ReadIndexStatus → List (List ℕ × ReadIndexStatus) → List (List ℕ × ReadIndexStatus)
delete_all [] pending = pending
delete_all (rs ∷ rss) pending = delete_all rss (erase rs.req.context pending)

abbrev pub advance_to : ReadOnly → Collected → ReadOnly × List ReadIndexStatus
advance_to r none = (r, [])
advance_to r (some (rss, rest)) = (
  record { pending_read_index = delete_all rss r.pending_read_index; read_index_queue = rest },
  rss,
)

unfoldable pub advance : Message → ReadOnly → Outcome (ReadOnly × List ReadIndexStatus)
advance m r = do
  found ← collect m.context r.pending_read_index r.read_index_queue
  ret (advance_to r found)
