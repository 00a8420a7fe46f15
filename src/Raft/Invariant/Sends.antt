-- ===== src/Raft/Invariant/Sends.antt =====
-- The methods that send messages and leave the rest of the state as it is.
use kvgo.Common.{
  Bool, Bool-cases, Ensures, Ensures-bind, List, Option, Outcome, [], arith, inl, inr, ltb, none,
  panic, refl, ret, some, sub64, ℕ, ◌==◌, ◌||◌, ◌∷◌, ◌≡◌, ◌≤◌,
}
use kvgo.Pb.{MessageType, Message, SnapshotMeta, Entry}
use kvgo.Tracker.{Progress}
use kvgo.Log.Interface.{Storage}
use kvgo.Log.LogUnstable.{Unstable, truncate_and_append}
use kvgo.Log.{RaftLog, commit_to, append_entries}
use kvgo.Raft.{Raft}
use kvgo.Raft.Send.{
  with_term, with_from, enqueue, send, respond_vote, send_timeout_now, respond_read_index_req,
}
use kvgo.Raft.Replicate.{
  send_snapshot, send_entries, send_append_to, send_append, append_to_peer, bcast_append, beat_peer,
  bcast_heartbeat,
}
use kvgo.Raft.Invariant.{
  GrowsTo, GrowsTo-ret, GrowsTo-refl, GrowsTo-trans, GrowsTo-let, GrowsTo-if, GrowsTo-for_each,
  Same, Same-Grows,
}

module _ {S : Type 0} where
  enqueue-Same : (m : Message) (r : Raft S) → Same r (enqueue m r)
  enqueue-Same m r = ground arith

  pub send-Grows : (m : Message) (r : Raft S) → GrowsTo r (send m r)
  unfolding send
  send-Grows m r =
      GrowsTo-let r (with_term m.type r.term (with_from r.id m)) (λ m'. ret (enqueue m' r))
        (λ m'. GrowsTo-ret (Same-Grows (enqueue-Same m' r)))

  pub respond_vote-Grows :
      (to : ℕ) (granted : Bool) (t : MessageType) (term : ℕ) (r : Raft S)
      → GrowsTo r (respond_vote to granted t term r)
  unfolding respond_vote
  respond_vote-Grows to granted t term r = send-Grows _ r

  pub send_timeout_now-Grows : (to : ℕ) (r : Raft S) → GrowsTo r (send_timeout_now to r)
  unfolding send_timeout_now
  send_timeout_now-Grows to r = send-Grows _ r

  pub respond_read_index_req-Grows :
      (m : Message) (i : ℕ) (r : Raft S) → GrowsTo r (respond_read_index_req m i r)
  unfolding respond_read_index_req
  respond_read_index_req-Grows m i r =
      GrowsTo-if ((m.from == 0) || (m.from == r.id)) r _ _ (GrowsTo-ret (Same-Grows (ground arith)))
        (send-Grows _ r)

-- A change that keeps all that the relation speaks of, before the rest.
pub GrowsTo-after :
    {S : Type 0} (r s : Raft S) (o : Outcome (Raft S)) → Same r s → GrowsTo s o → GrowsTo r o
GrowsTo-after r s o e g = GrowsTo-trans r s o (Same-Grows e) g

module _ {S : Type 0} ⦃st : Storage S⦄ where
  send_snapshot-Grows :
      (to : ℕ) (snap : Option SnapshotMeta) (r : Raft S) → GrowsTo r (send_snapshot to snap r)
  send_snapshot-Grows to none r = GrowsTo-refl r
  send_snapshot-Grows to (some snap) r = send-Grows _ r

  send_entries-Grows :
      (to : ℕ) (p : Progress) (t : Option ℕ) (r : Raft S) → GrowsTo r (send_entries to p t r)
  send_entries-Grows to p none r = send_snapshot-Grows to _ r
  send_entries-Grows to p (some t) r = GrowsTo-let r _ _ (λ ents. send-Grows _ r)

  send_append_to-Grows :
      (to : ℕ) (p : Option Progress) (r : Raft S) → GrowsTo r (send_append_to to p r)
  send_append_to-Grows to none r = GrowsTo-refl r
  send_append_to-Grows to (some p) r = GrowsTo-let r _ _ (λ t. send_entries-Grows to p t r)

  pub send_append-Grows : (to : ℕ) (r : Raft S) → GrowsTo r (send_append to r)
  unfolding send_append
  send_append-Grows to r = send_append_to-Grows to _ r

  append_to_peer-Grows : (p : ℕ × Progress) (r : Raft S) → GrowsTo r (append_to_peer p r)
  append_to_peer-Grows (id, pr) r =
      GrowsTo-if (id == r.id) r _ _ (GrowsTo-refl r) (send_append-Grows id r)

  pub bcast_append-Grows : (r : Raft S) → GrowsTo r (bcast_append r)
  unfolding bcast_append
  bcast_append-Grows r = GrowsTo-for_each r.trk.progress append_to_peer r append_to_peer-Grows

  beat_peer-Grows : (ctx : List ℕ) (p : ℕ × Progress) (r : Raft S) → GrowsTo r (beat_peer ctx p r)
  beat_peer-Grows ctx (id, pr) r = GrowsTo-if (id == r.id) r _ _ (GrowsTo-refl r) (send-Grows _ r)

  pub bcast_heartbeat-Grows : (ctx : List ℕ) (r : Raft S) → GrowsTo r (bcast_heartbeat ctx r)
  unfolding bcast_heartbeat
  bcast_heartbeat-Grows ctx r =
      GrowsTo-for_each r.trk.progress (beat_peer ctx) r (beat_peer-Grows ctx)

  -- The log keeps its committed and applied index, or raises the first.
  pub append_entries-kept :
      (es : List Entry) (l : RaftLog S)
      → Ensures
          (λ (l' : RaftLog S). (l'.committed ≡ l.committed) × (l'.applied ≡ l.applied))
          (append_entries es l)
  unfolding append_entries
  append_entries-kept [] l = (refl, refl)
  append_entries-kept (e ∷ es) l = elim (Bool-cases (ltb (sub64 e.index 1) l.committed)) [
    | inl low ↦ rw low tt
    | inr fits ↦ rw fits (
        Ensures-bind (λ _. Unit {0}) _ (truncate_and_append (e ∷ es) l.unstable) _ (any _)
          (λ u _. (refl, refl)))
  ]
    where
      any : (o : Outcome Unstable) → Ensures (λ _. Unit {0}) o
      any (ret u) = tt
      any panic = tt

  pub commit_to-grows :
      (i : ℕ) (l : RaftLog S)
      → Ensures
          (λ (l' : RaftLog S). (l.committed ≤ l'.committed) × (l'.applied ≡ l.applied))
          (commit_to i l)
  unfolding commit_to
  commit_to-grows i l = ground arith
