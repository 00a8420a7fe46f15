-- ===== src/Raft/Send.antt =====
-- `send`, which puts a message into one of two queues, and the message builders.
use kvgo.Common.{
  Bool, Outcome, [], false, if◌then◌else◌, not, panic, ret, true, ℕ, ◌++◌, ◌==◌, ◌>>=◌, ◌||◌, ◌∷◌,
}
use kvgo.Pb.{
  MessageType, msg_app_resp, msg_vote, msg_vote_resp, msg_prop, msg_pre_vote, msg_pre_vote_resp,
  msg_read_index_resp, msg_timeout_now, Message, empty_message,
}
use kvgo.Raft.{Raft}

-- Vote messages must come with a term, proposals carry none, and all others get the own term.
abbrev pub with_term : MessageType → ℕ → Message → Outcome Message
with_term msg_pre_vote term m = if m.term == 0 then panic else ret m
with_term msg_pre_vote_resp term m = if m.term == 0 then panic else ret m
with_term msg_vote term m = if m.term == 0 then panic else ret m
with_term msg_vote_resp term m = if m.term == 0 then panic else ret m
with_term msg_prop term m = ret m
with_term _ term m = ret (record m { term = term })

abbrev pub is_after_append : MessageType → Bool
is_after_append msg_app_resp = true
is_after_append msg_vote_resp = true
is_after_append msg_pre_vote_resp = true
is_after_append _ = false

abbrev pub with_from : ℕ → Message → Message
with_from id m = if m.from == 0 then record m { from = id } else m

module _ {S : Type 0} where
  abbrev pub enqueue : Message → Raft S → Raft S
  enqueue m r =
      if is_after_append m.type
      then record r { msgs_after_append = r.msgs_after_append ++ m ∷ [] }
      else record r { messages = r.messages ++ m ∷ [] }

  unfoldable pub send : Message → Raft S → Outcome (Raft S)
  send m r = do m' ← with_term m.type r.term (with_from r.id m); ret (enqueue m' r)

  unfoldable pub respond_vote : ℕ → Bool → MessageType → ℕ → Raft S → Outcome (Raft S)
  respond_vote to granted resp_type term r =
      send (record (empty_message resp_type) { to = to; term = term; reject = not granted }) r

  unfoldable pub send_timeout_now : ℕ → Raft S → Outcome (Raft S)
  send_timeout_now to r = send (record (empty_message msg_timeout_now) { to = to }) r

  unfoldable pub respond_read_index_req : Message → ℕ → Raft S → Outcome (Raft S)
  respond_read_index_req m read_index r =
      if (m.from == 0) || (m.from == r.id)
      then ret (record r {
        read_states =
            r.read_states ++ (record { index = read_index; request_ctx = m.context }) ∷ [];
      })
      else send
          (record (empty_message msg_read_index_resp) {
            to = m.from;
            context = m.context;
            index = read_index;
          })
          r
