-- ===== src/Raft/Handle.antt =====
-- The follower's side: `handleAppendEntries`, `handleHeartbeat`, `handleSnapshot`.
use kvgo.Common.{
  Bool, Option, Outcome, false, get_last?, if◌then◌else◌, ltb, min, none, panic, ret, some, true, ℕ,
  ◌>>=◌,
}
use kvgo.Pb.{Entry, SnapshotMeta, Message, empty_message, msg_app_resp, msg_heartbeat_resp}
use kvgo.Log.Interface.{Storage}
use kvgo.Log.{RaftLog, last_index, match_term, commit_to, append_entries, restore}
use kvgo.Raft.{Raft}
use kvgo.Raft.Send.{send}

-- Index and LogTerm of the answer to an append: those of the last entry, and zeros if there is none.
abbrev pub ack_of : ℕ → Option Entry → Message
ack_of to none = record (empty_message msg_app_resp) { to = to }
ack_of to (some e) = record (empty_message msg_app_resp) {
  to = to;
  index = e.index;
  log_term = e.term;
}

abbrev pub hint_of : Option SnapshotMeta → ℕ
hint_of none = 0
hint_of (some snap) = snap.last_included_index

module _ {S : Type 0} ⦃st : Storage S⦄ where
  abbrev pub follow_commit : ℕ → RaftLog S → Outcome (RaftLog S)
  follow_commit commit log =
      if ltb log.committed commit then commit_to (min commit (last_index log)) log else ret log

  abbrev pub answer_append : Bool → Message → Raft S → Outcome (Raft S)
  answer_append true m r = do
    log ← append_entries m.entries r.raft_log
    log' ← follow_commit m.commit log
    send (ack_of m.from (get_last? m.entries)) (record r { raft_log = log' })
  answer_append false m r =
      send
        (record (empty_message msg_app_resp) {
          to = m.from;
          index = m.index;
          reject = true;
          reject_hint = hint_of (st.snapshot r.raft_log.storage);
        })
        r

  unfoldable pub handle_append_entries : Message → Raft S → Outcome (Raft S)
  handle_append_entries m r = do
    matches ← match_term m.index m.log_term r.raft_log
    answer_append matches m r

  unfoldable pub handle_heartbeat : Message → Raft S → Outcome (Raft S)
  handle_heartbeat m r = do
    log ← commit_to m.commit r.raft_log
    send (record (empty_message msg_heartbeat_resp) { to = m.from; context = m.context })
        (record r { raft_log = log })

  -- The log over the storage's new state, whether `ApplySnapshot` succeeded or not.
  abbrev pub restore_if : ℕ → S × Bool → RaftLog S → RaftLog S
  restore_if index (s, true) log = restore index (record log { storage = s })
  restore_if index (s, false) log = record log { storage = s }

  abbrev pub restore_from : Option SnapshotMeta → Raft S → Outcome (Raft S)
  restore_from none r = panic
  restore_from (some snap) r = ret (record r {
    raft_log =
        restore_if snap.last_included_index (st.apply_snapshot r.raft_log.storage snap) r.raft_log;
  })

  -- A message without a snapshot is a nil pointer, which panics.
  unfoldable pub handle_snapshot : Message → Raft S → Outcome (Raft S)
  handle_snapshot m r = restore_from m.snapshot r
