-- ===== src/Raft/Voting.antt =====
-- How a node answers requests for votes.
use kvgo.Common.{
  Bool, Bool-cases, List, [], ap, arith, false, if◌then◌else◌, inl, inr, leb, ltb, none, not, refl,
  ret, true, ℕ, ◌&&◌, ◌++◌, ◌<◌, ◌==◌, ◌>>=◌, ◌||◌, ◌∙◌, ◌∷◌, ◌≡◌, ◌≤◌,
}
use kvgo.Pb.{
  MessageType, Message, empty_message, msg_vote, msg_vote_resp, msg_pre_vote, msg_pre_vote_resp,
}
use kvgo.Log.Interface.{Storage}
use kvgo.Log.{last_entry_id, is_up_to_date}
use kvgo.Raft.{Raft, done}
use kvgo.Raft.Send.{send, respond_vote}
use kvgo.Raft.Become.{become_follower}
use kvgo.Raft.Campaign.{can_vote_for, is_candidate_up_to_date, grants_vote}
use kvgo.Raft.Step.{voted, check_term, dispatch, answer_pre_vote, answer_vote, step}

-- Raft's order on logs: a later last term, or the same and an index that is no lower.
abbrev pub is_at_least : ℕ × ℕ → ℕ × ℕ → Bool
is_at_least (index, term) (last, last_term) =
    ltb last_term term || ((term == last_term) && leb last index)

-- Whether a node that has voted for `voted_for` in its term may vote for `from`.
abbrev pub is_free : ℕ → ℕ → Bool
is_free voted_for from = (voted_for == 0) || (voted_for == from)

-- The answer to a request, as it stands in the queue.
abbrev pub vote_answer : MessageType → ℕ → ℕ → ℕ → Bool → Message
vote_answer t self to term granted = record (empty_message t) {
  from = self;
  to = to;
  term = term;
  reject = not granted;
}

module _ {S : Type 0} where
  -- The answer joins the messages that wait for the log to be persisted.
  abbrev answered : MessageType → ℕ → ℕ → Bool → Raft S → Raft S
  answered t to term g r = record r {
    msgs_after_append = r.msgs_after_append ++ vote_answer t r.id to term g ∷ [];
  }

  respond_vote-vote :
      (to term : ℕ) (g : Bool) (r : Raft S)
      → 0 < term
      → respond_vote to g msg_vote_resp term r ≡ ret (answered msg_vote_resp to term g r)
  unfolding respond_vote send
  respond_vote-vote to term g r h = ground arith

  respond_vote-pre_vote :
      (to term : ℕ) (g : Bool) (r : Raft S)
      → 0 < term
      → respond_vote to g msg_pre_vote_resp term r ≡ ret (answered msg_pre_vote_resp to term g r)
  unfolding respond_vote send
  respond_vote-pre_vote to term g r h = ground arith

  can_vote_for-eq :
      (m : Message) (r : Raft S) → r.term ≡ m.term → can_vote_for m r ≡ is_free r.voted_for m.from
  unfolding can_vote_for
  can_vote_for-eq m r e = ground arith

  can_vote_for-higher : (m : Message) (r : Raft S) → r.term < m.term → can_vote_for m r ≡ true
  unfolding can_vote_for
  can_vote_for-higher m r e = ground arith

  voted_form :
      (q : Raft S) (from : ℕ) (g : Bool)
      → answered msg_vote_resp from q.term g (voted g from q) ≡ record q {
        voted_for = if g then from else q.voted_for;
        msgs_after_append =
            q.msgs_after_append ++ vote_answer msg_vote_resp q.id from q.term g ∷ [];
      }
  voted_form q from true = refl
  voted_form q from false = refl

  vote_form :
      (q : Raft S) (from v id t : ℕ) (ms : List Message) (late : Bool)
      → q.term ≡ t
      → q.voted_for ≡ v
      → q.id ≡ id
      → q.msgs_after_append ≡ ms
      → (let g = is_free q.voted_for from && late in
          answered msg_vote_resp from q.term g (voted g from q))
        ≡ (let g = is_free v from && late in
            record q {
              voted_for = if g then from else v;
              msgs_after_append = ms ++ vote_answer msg_vote_resp id from t g ∷ [];
            })
  vote_form q from v id t ms late et ev ei em =
      rw (← et, ← ev, ← ei, ← em) (voted_form q from (is_free q.voted_for from && late))

module _ {S : Type 0} ⦃st : Storage S⦄ where
  grants_vote-eq :
      (m : Message) (r : Raft S) (last : ℕ × ℕ)
      → last_entry_id r.raft_log ≡ ret last
      → grants_vote m r ≡ ret (can_vote_for m r && is_at_least (m.index, m.log_term) last)
  unfolding grants_vote is_candidate_up_to_date is_up_to_date
  grants_vote-eq m r last log = elim (Bool-cases (can_vote_for m r)) [
    | inl may ↦ rw (may, log)
    | inr refused ↦ rw refused
  ]

  -- The vote that stands when the request is considered: a higher term brings a new one.
  abbrev pub standing_vote : Message → Raft S → ℕ
  standing_vote m r = if r.term == m.term then r.voted_for else 0

  abbrev pub grants : Message → ℕ × ℕ → Raft S → Bool
  grants m last r = is_free (standing_vote m r) m.from && is_at_least (m.index, m.log_term) last

  answer_vote-eq :
      (m : Message) (r : Raft S) (last : ℕ × ℕ)
      → last_entry_id r.raft_log ≡ ret last
      → r.term ≡ m.term
      → 0 < m.term
      → answer_vote m r ≡ (
          let g = is_free r.voted_for m.from && is_at_least (m.index, m.log_term) last in
          ret (answered msg_vote_resp m.from r.term g (voted g m.from r)))
  unfolding answer_vote
  answer_vote-eq m r last log e h =
      rw (grants_vote-eq m r last log, can_vote_for-eq m r e)
        (respond_vote-vote m.from r.term _ _ (omega (arith, e)))

  -- The state in which a vote request of this term or a later one is considered.
  abbrev pub considering : Message → Raft S → Raft S
  considering m r = if ltb r.term m.term then become_follower m.term m.from r else r

  check_term-vote :
      (m : Message) (r : Raft S)
      → m.type ≡ msg_vote
      → r.term ≤ m.term
      → 0 < m.term
      → check_term m r ≡ ret (considering m r)
  unfolding check_term
  check_term-vote m r e h k = elim (Bool-cases (ltb r.term m.term)) [
    | inl high ↦ rw (e, high) (ground arith)
    | inr same ↦ rw same (ground arith)
  ]

  check_term-pre_vote :
      (m : Message) (r : Raft S)
      → m.type ≡ msg_pre_vote
      → r.term ≤ m.term
      → 0 < m.term
      → check_term m r ≡ ret r
  unfolding check_term
  check_term-pre_vote m r e h k = elim (Bool-cases (ltb r.term m.term)) [
    | inl high ↦ rw (e, high) (ground arith)
    | inr same ↦ rw same (ground arith)
  ]

  considering_facts :
      (m : Message) (r : Raft S)
      → r.term ≤ m.term
      → ((considering m r).raft_log ≡ r.raft_log)
        × ((considering m r).term ≡ m.term)
        × ((considering m r).voted_for ≡ standing_vote m r)
        × ((considering m r).id ≡ r.id)
        × ((considering m r).msgs_after_append ≡ r.msgs_after_append)
  unfolding become_follower
  considering_facts m r h = ground arith

  free-eq :
      (m : Message) (r : Raft S)
      → r.term ≤ m.term
      → can_vote_for m r ≡ is_free (standing_vote m r) m.from
  unfolding can_vote_for
  free-eq m r h = ground arith

  -- A node at term `r.term`, whose last entry has the index and term `last`, gets a vote request
  -- of a term above 0 that is not below its own. It answers with one message, in the request's
  -- term, which grants the vote exactly when it has not voted for another node in that term and
  -- the candidate's log is at least as late as its own; a granted vote is recorded, and the vote
  -- is otherwise what it was, none in a new term. Nothing else changes but what becoming a
  -- follower in the new term changes.
  pub step-vote :
      (m : Message) (r : Raft S) (last : ℕ × ℕ)
      → m.type ≡ msg_vote
      → last_entry_id r.raft_log ≡ ret last
      → r.term ≤ m.term
      → 0 < m.term
      → step m r
        ≡ ret (
          record (considering m r) {
            voted_for = if grants m last r then m.from else standing_vote m r;
            msgs_after_append =
                r.msgs_after_append
                ++ vote_answer msg_vote_resp r.id m.from m.term (grants m last r) ∷ [];
          },
          none,
        )
  unfolding step become_follower
  step-vote m r last e log h k =
      let q = considering m r in
      rw (check_term-vote m r e h k) (
        ap (λ (t : MessageType). dispatch t m q) e
        ∙ ap done (
            answer_vote-eq m q last (ap last_entry_id (considering_facts m r h).0 ∙ log)
              (considering_facts m r h).1 k)
        ∙ ap (λ (s : Raft S). ret (s, none))
            (vote_form q m.from (standing_vote m r) r.id m.term r.msgs_after_append
              (is_at_least (m.index, m.log_term) last) (considering_facts m r h).1
              (considering_facts m r h).2 (considering_facts m r h).3 (considering_facts m r h).4))

  -- A request for a pre-vote, of a term above 0 that is not below the node's own, changes nothing
  -- but the queue of answers: neither the term, nor the vote, nor the role. The answer carries the
  -- request's term, and grants exactly when the term is higher, or no other node has the vote, and
  -- the candidate's log is at least as late. Whether the node knows a leader, of whatever term, or
  -- is one, does not matter: a follower that has not voted grants a pre-vote in its leader's own
  -- term.
  pub step-pre_vote :
      (m : Message) (r : Raft S) (last : ℕ × ℕ)
      → m.type ≡ msg_pre_vote
      → last_entry_id r.raft_log ≡ ret last
      → r.term ≤ m.term
      → 0 < m.term
      → step m r
        ≡ ret (
          record r {
            msgs_after_append =
                r.msgs_after_append
                ++ vote_answer msg_pre_vote_resp r.id m.from m.term (grants m last r) ∷ [];
          },
          none,
        )
  unfolding step answer_pre_vote
  step-pre_vote m r last e log h k = rw (check_term-pre_vote m r e h k) (
      ap (λ (t : MessageType). dispatch t m r) e
      ∙ ap (λ o. done (o >>= λ g. respond_vote m.from g msg_pre_vote_resp m.term r))
          (grants_vote-eq m r last log)
      ∙ ap done (respond_vote-pre_vote m.from m.term _ r k)
      ∙ ap
          (λ (g : Bool). ret (
            answered msg_pre_vote_resp m.from m.term (g && is_at_least (m.index, m.log_term) last)
                r,
            none,
          ))
          (free-eq m r h))
