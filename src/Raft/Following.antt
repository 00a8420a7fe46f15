-- ===== src/Raft/Following.antt =====
-- What a follower does with a leader's append.
use kvgo.Common.{
  List, Option, Outcome, [], ap, arith, false, get_elem?, get_last?, if◌then◌else◌, length, ltb,
  max, min, none, refl, ret, some, true, u64_mod, ℕ, ◌++◌, ◌+◌, ◌-◌, ◌<◌, ◌∙◌, ◌∷◌, ◌≡◌, ◌≤◌,
}
use mathlib.Core.Path.{ap₂}
use kvgo.Pb.{Entry, Message, empty_message, msg_app_resp}
use kvgo.Log.Interface.{Storage}
use kvgo.Log.View.{Contiguous, log_at, IsWellFormed}
use kvgo.Log.Append.{append_entries_lem}
use kvgo.Log.{RaftLog, last_index, match_term, commit_to, append_entries}
use kvgo.Raft.{Raft}
use kvgo.Raft.Send.{send}
use kvgo.Raft.Handle.{ack_of, hint_of, follow_commit, handle_append_entries}

-- The queue of answers, with one more that the node `id` sends in its term.
abbrev pub with_answer : List Message → ℕ → ℕ → Message → List Message
with_answer ms id term m = ms ++ (record m { from = id; term = term }) ∷ []

-- The commit index follows the leader's, as far as the log reaches.
abbrev pub followed_commit : ℕ → ℕ → ℕ → ℕ
followed_commit old leader last = max old (min leader last)

module _ {S : Type 0} ⦃st : Storage S⦄ where
  follow_commit-eq :
      (i : ℕ) (l : RaftLog S)
      → follow_commit i l
        ≡ ret (record l { committed = followed_commit l.committed i (last_index l) })
  unfolding commit_to
  follow_commit-eq i l = ground arith

  send-ack :
      (o : Option Entry) (to : ℕ) (r : Raft S)
      → send (ack_of to o) r
        ≡ ret (record r {
          msgs_after_append = with_answer r.msgs_after_append r.id r.term (ack_of to o);
        })
  unfolding send
  send-ack none to r = refl
  send-ack (some e) to r = refl

  -- The branch of a mismatch.
  pub handle_append_entries-mismatch :
      (m : Message) (r : Raft S)
      → match_term m.index m.log_term r.raft_log ≡ ret false
      → handle_append_entries m r
        ≡ ret (record r {
          msgs_after_append =
              with_answer r.msgs_after_append r.id r.term (record (empty_message msg_app_resp) {
                to = m.from;
                index = m.index;
                reject = true;
                reject_hint = hint_of (st.snapshot r.raft_log.storage);
              });
        })
  unfolding handle_append_entries send
  handle_append_entries-mismatch m r e = rw e

  -- An append whose previous entry matches, of one or more entries with consecutive indexes that
  -- start above the committed index, leave no gap and end below index 2 ^ 64 - 1, to a node with a
  -- well-formed log: the log
  -- then holds the new entries from the first of them on and nothing after the last, and is as
  -- before below them; the commit index follows the leader's as far as the log reaches; and
  -- the answer names the last new entry.
  pub handle_append_entries-match :
      (m : Message) (r : Raft S) (view : ℕ → Option Entry) (e : Entry) (es : List Entry)
      → IsWellFormed st r.raft_log view
      → match_term m.index m.log_term r.raft_log ≡ ret true
      → m.entries ≡ e ∷ es
      → Contiguous e.index (e ∷ es)
      → e.index + length (e ∷ es) < u64_mod
      → r.raft_log.committed < e.index
      → e.index ≤ last_index r.raft_log + 1
      → (log : RaftLog S) × (handle_append_entries m r
          ≡ ret (record r {
            raft_log = log;
            msgs_after_append =
                with_answer r.msgs_after_append r.id r.term (ack_of m.from (get_last? (e ∷ es)));
          }))
        × ((i : ℕ)
            → log_at log view i ≡ (
                if ltb i e.index
                then log_at r.raft_log view i
                else get_elem? (e ∷ es) (i - e.index)))
        × (last_index log ≡ e.index + length es)
        × (log.committed ≡ followed_commit r.raft_log.committed m.commit (e.index + length es))
  unfolding handle_append_entries last_index
  handle_append_entries-match m r view e es w matched entries c fits above no_gap =
      let (l, eq, wf, at, last, _, same, _) =
        append_entries_lem r.raft_log view e es w c fits above no_gap in
      (
        record l { committed = followed_commit l.committed m.commit (last_index l) },
        rw
            (
              matched,
              ap (λ xs. append_entries xs r.raft_log) entries ∙ eq,
              follow_commit-eq m.commit l,
            )
            (send-ack (get_last? m.entries) m.from _ ∙ ap (answered_by l) entries),
        at,
        last,
        ap₂ (λ (old : ℕ) (n : ℕ). followed_commit old m.commit n) same last,
      )
    where
      answered_by : RaftLog S → List Entry → Outcome (Raft S)
      answered_by l xs = ret (record r {
        raft_log = record l { committed = followed_commit l.committed m.commit (last_index l) };
        msgs_after_append =
            with_answer r.msgs_after_append r.id r.term (ack_of m.from (get_last? xs));
      })
