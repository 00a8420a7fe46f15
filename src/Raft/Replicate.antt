-- ===== src/Raft/Replicate.antt =====
-- The leader's log: `appendEntry`, `sendAppend`, the broadcasts, `maybeCommit`, `becomeLeader`.
use kvgo.Common.{
  Bool, List, Option, Outcome, [], add64, false, for_each, if◌then◌else◌, ltb, min, none, panic,
  ret, some, sub64, true, ℕ, ◌==◌, ◌>>=◌, ◌∷◌,
}
use kvgo.Pb.{Entry, SnapshotMeta, empty_message, msg_snap, msg_app, msg_app_resp, msg_heartbeat}
use kvgo.Tracker.{Progress, progress_of, set_progress}
use kvgo.Log.Interface.{Storage}
use kvgo.Log.{last_index, term, slice, match_term, commit_to, append_entries}
use kvgo.Raft.{Raft, leader, ticks_heartbeat, steps_leader}
use kvgo.Raft.Send.{send, respond_read_index_req}
use kvgo.Raft.Become.{reset}

module _ {S : Type 0} ⦃st : Storage S⦄ where
  -- An entry at `prevIndex` that is not there makes the leader send its snapshot.
  abbrev pub send_snapshot : ℕ → Option SnapshotMeta → Raft S → Outcome (Raft S)
  send_snapshot to none r = ret r
  send_snapshot to (some snap) r =
      send (record (empty_message msg_snap) { to = to; snapshot = some snap }) r

  abbrev pub send_entries : ℕ → Progress → Option ℕ → Raft S → Outcome (Raft S)
  send_entries to p none r = send_snapshot to (st.snapshot r.raft_log.storage) r
  send_entries to p (some prev_term) r = do
    ents ← slice p.next_index (add64 (last_index r.raft_log) 1) r.raft_log
    send
        (record (empty_message msg_app) {
          to = to;
          index = sub64 p.next_index 1;
          log_term = prev_term;
          commit = r.raft_log.committed;
          entries = ents;
        })
        r

  abbrev pub send_append_to : ℕ → Option Progress → Raft S → Outcome (Raft S)
  send_append_to to none r = ret r
  send_append_to to (some p) r = do
    prev_term ← term (sub64 p.next_index 1) r.raft_log
    send_entries to p prev_term r

  unfoldable pub send_append : ℕ → Raft S → Outcome (Raft S)
  send_append to r = send_append_to to (progress_of to r.trk) r

  abbrev pub append_to_peer : ℕ × Progress → Raft S → Outcome (Raft S)
  append_to_peer (id, pr) r = if id == r.id then ret r else send_append id r

  unfoldable pub bcast_append : Raft S → Outcome (Raft S)
  bcast_append r = for_each r.trk.progress append_to_peer r

  abbrev pub beat_peer : List ℕ → ℕ × Progress → Raft S → Outcome (Raft S)
  beat_peer ctx (id, pr) r =
      if id == r.id
      then ret r
      else send
          (record (empty_message msg_heartbeat) {
            to = id;
            commit = min pr.match_index r.raft_log.committed;
            context = ctx;
          })
          r

  unfoldable pub bcast_heartbeat : List ℕ → Raft S → Outcome (Raft S)
  bcast_heartbeat ctx r = for_each r.trk.progress (beat_peer ctx) r

  abbrev pub next_entry : List ℕ → Raft S → Entry
  next_entry payload r = record {
    index = add64 (last_index r.raft_log) 1;
    term = r.term;
    payload = payload;
  }

  unfoldable pub append_entry : List ℕ → Raft S → Outcome (Raft S)
  append_entry payload r = do
    log ← append_entries (next_entry payload r ∷ []) r.raft_log
    send (record (empty_message msg_app_resp) { to = r.id; index = last_index log })
        (record r { raft_log = log })

  abbrev pub commit_if : Bool → ℕ → Raft S → Outcome (Raft S × Bool)
  commit_if false i r = ret (r, false)
  commit_if true i r = do log ← commit_to i r.raft_log; ret (record r { raft_log = log }, true)

  unfoldable pub maybe_commit : ℕ → Raft S → Outcome (Raft S × Bool)
  maybe_commit i r =
      if ltb r.raft_log.committed i
      then (do current ← match_term i r.term r.raft_log; commit_if current i r)
      else ret (r, false)

  unfoldable pub committed_entry_in_current_term : Raft S → Outcome Bool
  committed_entry_in_current_term r = match_term r.raft_log.committed r.term r.raft_log

  -- The committed index cannot change during the loop.
  unfoldable pub drain_pending_read_index_requests : Raft S → Outcome (Raft S)
  drain_pending_read_index_requests r =
      for_each r.pending_read_index_requests
        (λ req r'. respond_read_index_req req r'.raft_log.committed r')
        (record r { pending_read_index_requests = [] })

  -- `r.trk.Progress(r.id).RecentActive = true`: a nil pointer panics.
  abbrev pub activate_self : Option Progress → Raft S → Outcome (Raft S)
  activate_self none r = panic
  activate_self (some pr) r =
      ret (record r { trk = set_progress r.id (record pr { recent_active = true }) r.trk })

  abbrev pub lead_self : Raft S → Raft S
  lead_self r =
      record (reset r.term
        (record r { state = leader; step = steps_leader; tick = ticks_heartbeat })) { lead = r.id }

  unfoldable pub become_leader : Raft S → Outcome (Raft S)
  become_leader r = do
    let r1 = lead_self r
    r2 ← activate_self (progress_of r1.id r1.trk) r1
    r3 ← append_entry [] r2
    bcast_append r3
