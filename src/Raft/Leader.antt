-- ===== src/Raft/Leader.antt =====
-- `stepLeader`, one function for each kind of message that it handles.
use kvgo.Common.{
  Bool, List, Option, Outcome, [], add64, false, for_each, if◌then◌else◌, length, ltb, none, panic,
  ret, some, sub64, true, ℕ, ◌&&◌, ◌++◌, ◌-◌, ◌==◌, ◌>>=◌, ◌∷◌,
}
use kvgo.Pb.{
  MessageType, msg_app_resp, msg_prop, msg_beat, msg_heartbeat_resp, msg_read_index,
  msg_check_quorum, msg_transfer_leader, msg_snap, Entry, SnapshotMeta, Message, empty_message,
}
use kvgo.Quorum.{Votes, vote_result}
use kvgo.Tracker.{
  Progress, progress_of, set_progress, committed, is_singleton, quorum_active, is_won, visit,
}
use kvgo.ReadOnly.{ReadIndexStatus, add_request, recv_ack, advance}
use kvgo.Log.Interface.{Storage}
use kvgo.Log.{last_index}
use kvgo.Raft.{Raft, Stepped, proposal_dropped, unknown_peer, done}
use kvgo.Raft.Send.{send, send_timeout_now, respond_read_index_req}
use kvgo.Raft.Become.{abort_leader_transfer, become_follower}
use kvgo.Raft.Replicate.{
  send_append, bcast_append, bcast_heartbeat, append_entry, maybe_commit,
  committed_entry_in_current_term, drain_pending_read_index_requests,
}

-- `if m.Term == r.term { prs.RecentActive = true }`
abbrev pub heard_from : ℕ → Message → Progress → Progress
heard_from term m prs = if m.term == term then record prs { recent_active = true } else prs

-- The progress of a peer after its answer to an append.
abbrev pub after_app_resp : ℕ → Message → Progress → Progress
after_app_resp term m prs =
    let heard = heard_from term m prs in
    if m.reject
    then record heard { next_index = sub64 heard.next_index 1 }
    else record heard { match_index = m.index; next_index = add64 m.index 1 }

-- The callback of `Visit` that starts a new period of counting who is active.
abbrev pub clear_active : ℕ → ℕ → Progress → Progress
clear_active self id pr = if id == self then pr else record pr { recent_active = false }

module _ {S : Type 0} ⦃st : Storage S⦄ where
  abbrev pub offer_snapshot : ℕ → Option SnapshotMeta → Raft S → Outcome (Raft S)
  offer_snapshot to none r = ret r
  offer_snapshot to (some snap) r =
      send (record (empty_message msg_snap) { to = to; snapshot = some snap }) r

  -- A peer that is behind the first index of the log gets the snapshot.
  abbrev pub snapshot_if_behind : Message → Raft S → Outcome (Raft S)
  snapshot_if_behind m r =
      let first = st.first_index r.raft_log.storage in
      if m.reject && (ltb 0 first && ltb m.reject_hint (first - 1))
      then offer_snapshot m.from (st.snapshot r.raft_log.storage) r
      else ret r

  -- A transfer goes on once its target has caught up.
  abbrev pub transfer_if_caught_up : ℕ → Progress → Raft S → Outcome (Raft S)
  transfer_if_caught_up from prs r =
      if (from == r.lead_transferee) && (prs.match_index == last_index r.raft_log)
      then send_timeout_now from r
      else ret r

  abbrev pub drain_if : Raft S × Bool → Outcome (Raft S)
  drain_if (r, false) = ret r
  drain_if (r, true) = drain_pending_read_index_requests r

  abbrev pub app_resp_of : Option Progress → Message → Raft S → Stepped S
  app_resp_of none m r = ret (r, some unknown_peer)
  app_resp_of (some prs) m r =
      let prs' = after_app_resp r.term m prs in
      done (do
        r1 ← snapshot_if_behind m r
        let r2 = record r1 { trk = set_progress m.from prs' r1.trk }
        r3 ← transfer_if_caught_up m.from prs' r2
        r4 ← maybe_commit (committed r3.trk) r3
        drain_if r4)

  unfoldable pub leader_app_resp : Message → Raft S → Stepped S
  leader_app_resp m r = app_resp_of (progress_of m.from r.trk) m r

  abbrev pub propose_entries : List Entry → Raft S → Outcome (Raft S)
  propose_entries [] r = panic
  propose_entries (e ∷ es) r = do r1 ← append_entry e.payload r; bcast_append r1

  unfoldable pub leader_prop : Message → Raft S → Stepped S
  leader_prop m r =
      if r.lead_transferee == 0
      then done (propose_entries m.entries r)
      else ret (r, some proposal_dropped)

  abbrev pub append_if_behind : ℕ → Progress → Raft S → Outcome (Raft S)
  append_if_behind to prs r =
      if ltb prs.match_index (last_index r.raft_log) then send_append to r else ret r

  abbrev pub respond_status : ReadIndexStatus → Raft S → Outcome (Raft S)
  respond_status rs r = respond_read_index_req rs.req rs.index r

  -- With a quorum of acks, all requests up to this one are answered.
  abbrev pub answer_acked : Message → Votes → Raft S → Outcome (Raft S)
  answer_acked m acks r =
      if is_won (vote_result r.trk.voters acks)
      then (do
        (read_only, rss) ← advance m r.read_only
        for_each rss respond_status (record r { read_only = read_only }))
      else ret r

  abbrev pub ack_read_index : Message → Raft S → Outcome (Raft S)
  ack_read_index m r =
      let (read_only, acks) = recv_ack m.from m.context r.read_only in
      if ltb 0 (length m.context)
      then answer_acked m acks (record r { read_only = read_only })
      else ret r

  abbrev pub heartbeat_resp_of : Option Progress → Message → Raft S → Outcome (Raft S)
  heartbeat_resp_of none m r = ret r
  heartbeat_resp_of (some prs) m r = do
    let prs' = heard_from r.term m prs
    let r1 = record r { trk = set_progress m.from prs' r.trk }
    r2 ← append_if_behind m.from prs' r1
    ack_read_index m r2

  unfoldable pub leader_heartbeat_resp : Message → Raft S → Outcome (Raft S)
  leader_heartbeat_resp m r = heartbeat_resp_of (progress_of m.from r.trk) m r

  abbrev pub read_index_if : Bool → Message → Raft S → Outcome (Raft S)
  read_index_if false m r =
      ret (record r { pending_read_index_requests = r.pending_read_index_requests ++ m ∷ [] })
  read_index_if true m r = bcast_heartbeat m.context (record r {
    read_only = (recv_ack r.id m.context (add_request r.raft_log.committed m r.read_only)).0;
  })

  unfoldable pub leader_read_index : Message → Raft S → Outcome (Raft S)
  leader_read_index m r =
      if is_singleton r.trk
      then respond_read_index_req m r.raft_log.committed r
      else (do current ← committed_entry_in_current_term r; read_index_if current m r)

  unfoldable pub leader_check_quorum : Raft S → Raft S
  leader_check_quorum r =
      if quorum_active r.trk
      then record r { trk = record (r.trk) { progress = visit (clear_active r.id) r.trk.progress } }
      else become_follower r.term 0 r

  -- `prs.MatchIndex` of a nil pointer panics.
  abbrev pub transfer_to : ℕ → Option Progress → Raft S → Outcome (Raft S)
  transfer_to to none r = panic
  transfer_to to (some prs) r =
      if prs.match_index == last_index r.raft_log then send_timeout_now to r else send_append to r

  abbrev pub start_transfer : ℕ → Raft S → Outcome (Raft S)
  start_transfer to r =
      if to == r.id
      then ret r
      else transfer_to to (progress_of to r.trk)
          (record r { election_elapsed = 0; lead_transferee = to })

  unfoldable pub leader_transfer : Message → Raft S → Outcome (Raft S)
  leader_transfer m r =
      if r.lead_transferee == 0
      then start_transfer m.from r
      else if r.lead_transferee == m.from
      then ret r
      else start_transfer m.from (abort_leader_transfer r)

  abbrev pub leader_dispatch : MessageType → Message → Raft S → Stepped S
  leader_dispatch msg_app_resp m r = leader_app_resp m r
  leader_dispatch msg_prop m r = leader_prop m r
  leader_dispatch msg_beat m r = done (bcast_heartbeat [] r)
  leader_dispatch msg_heartbeat_resp m r = done (leader_heartbeat_resp m r)
  leader_dispatch msg_read_index m r = done (leader_read_index m r)
  leader_dispatch msg_check_quorum m r = ret (leader_check_quorum r, none)
  leader_dispatch msg_transfer_leader m r = done (leader_transfer m r)
  leader_dispatch _ m r = ret (r, none)

  unfoldable pub step_leader : Message → Raft S → Stepped S
  step_leader m r = leader_dispatch m.type m r
