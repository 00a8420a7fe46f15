-- ===== src/Raft/Invariant/Checks.antt =====
-- `Step`: the checks on the term, and the dispatch on the type of the message.
use kvgo.Common.{
  Bool-cases, Ensures, Outcome, ap, arith, false, inl, inr, ltb, ltb→lt, panic, refl, ret, true,
  u64_mod, ◌+◌, ◌<◌, ◌==◌, ◌>>=◌, ◌≡◌, ◌≢◌, ◌≤◌,
}
use kvgo.Pb.{MessageType, Message, msg_pre_vote, msg_pre_vote_resp, msg_vote, msg_hup}
use kvgo.Log.Interface.{Storage}
use kvgo.Raft.{Raft, steps_candidate}
use kvgo.Raft.Become.{become_follower}
use kvgo.Raft.Step.{at_higher_term, at_lower_term, check_term, dispatch, step}
use kvgo.Raft.Invariant.{Grows, Grows-refl, StepsTo, StepsTo-done, StepsTo-trans}
use kvgo.Raft.Invariant.Sends.{respond_vote-Grows}
use kvgo.Raft.Invariant.Turns.{become_follower-Grows, hup_pre_election-Grows}
use kvgo.Raft.Invariant.Steps.{
  is_from_leader, call_step-Grows, answer_pre_vote-Grows, answer_vote-Grows,
}

module _ {S : Type 0} ⦃st : Storage S⦄ where
  -- What the checks on the term leave for the dispatch on the type.
  record Checked (m : Message) (r r1 : Raft S) : Type 0 where
    grows : Grows r r1
    bound : m.type ≢ msg_pre_vote → r1.term + 1 < u64_mod
    vote_term : m.type ≡ msg_vote → m.term ≤ r1.term
    leader_term : r1.step ≡ steps_candidate → is_from_leader m.type ≡ true → r1.term ≤ m.term

  -- A candidate takes the messages of a leader from its own term on only.
  abbrev pub IsCurrent : Message → Raft S → Type 0
  IsCurrent m r = r.step ≡ steps_candidate → is_from_leader m.type ≡ true → r.term ≤ m.term

  same-Checked :
      (m : Message) (r : Raft S)
      → r.term + 1 < u64_mod
      → (m.type ≡ msg_vote → m.term ≤ r.term)
      → IsCurrent m r
      → Checked m r r
  same-Checked m r b v h = record {
    grows = Grows-refl r;
    bound = λ _. b;
    vote_term = v;
    leader_term = h;
  }

  followed-Checked :
      (m : Message) (r : Raft S)
      → m.term + 1 < u64_mod
      → r.term < m.term
      → Checked m r (become_follower m.term m.from r)
  unfolding become_follower
  followed-Checked m r b h = record {
    grows = become_follower-Grows m.term m.from r (omega arith);
    bound = λ _. b;
    vote_term = λ _. omega arith;
    leader_term = λ _ _. omega arith;
  }

  higher-Checked :
      (t : MessageType) (m : Message) (r : Raft S)
      → m.type ≡ t
      → r.term + 1 < u64_mod
      → m.term + 1 < u64_mod
      → r.term < m.term
      → IsCurrent m r
      → Checked m r (at_higher_term t m r)
  higher-Checked msg_pre_vote m r e b c h k = same-Checked m r b (λ v. cc) k
  higher-Checked msg_pre_vote_resp m r e b c h k = same-Checked m r b (λ v. cc) k
  higher-Checked _ m r e b c h k = followed-Checked m r c h

  lower-Checked :
      (t : MessageType) (m : Message) (r : Raft S)
      → m.type ≡ t
      → r.term + 1 < u64_mod
      → m.term < r.term
      → IsCurrent m r
      → Ensures (Checked m r) (at_lower_term t m r)
  lower-Checked msg_pre_vote m r e b h k =
      pre_vote_answered _ (respond_vote-Grows m.from false msg_pre_vote_resp r.term r).holds
    where
      pre_vote_answered : (o : Outcome (Raft S)) → Ensures (Grows r) o → Ensures (Checked m r) o
      pre_vote_answered (ret r1) g = record {
        grows = g;
        bound = λ d. absurd (d e);
        vote_term = λ v. cc;
        leader_term = λ _ v. cc (v, ap is_from_leader e);
      }
      pre_vote_answered panic g = tt
  lower-Checked _ m r e b h k = same-Checked m r b (λ _. omega arith) k

  check_term-Checked :
      (m : Message) (r : Raft S)
      → r.term + 1 < u64_mod
      → m.term + 1 < u64_mod
      → IsCurrent m r
      → Ensures (Checked m r) (check_term m r)
  unfolding check_term
  check_term-Checked m r b c k = elim (Bool-cases (m.term == 0)) [
    | inl local ↦ rw local (same-Checked m r b (λ _. ground arith) k)
    | inr remote ↦ rw remote (elim (Bool-cases (ltb r.term m.term)) [
      | inl high ↦ rw high (higher-Checked m.type m r refl b c (ltb→lt r.term m.term high) k)
      | inr not_high ↦ rw not_high (elim (Bool-cases (ltb m.term r.term)) [
        | inl low ↦ rw low (lower-Checked m.type m r refl b (ltb→lt m.term r.term low) k)
        | inr equal ↦ rw equal (same-Checked m r b (λ _. ground arith) k)
      ])
    ])
  ]

  dispatch-Grows :
      (t : MessageType) (m : Message) (r q : Raft S)
      → m.type ≡ t
      → Checked m q r
      → StepsTo r (dispatch t m r)
  dispatch-Grows msg_pre_vote m r q e c = StepsTo-done r _ (answer_pre_vote-Grows m r)
  dispatch-Grows msg_vote m r q e c = StepsTo-done r _ (answer_vote-Grows m r (c.vote_term e))
  dispatch-Grows msg_hup m r q e c = StepsTo-done r _ (hup_pre_election-Grows r (c.bound (λ v. cc)))
  dispatch-Grows _ m r q e c = call_step-Grows r.step m r refl (c.bound (λ v. cc)) c.leader_term

  pub step-StepsTo :
      (m : Message) (r : Raft S)
      → r.term + 1 < u64_mod
      → m.term + 1 < u64_mod
      → IsCurrent m r
      → StepsTo r (step m r)
  unfolding step
  step-StepsTo m r b c k = checked-StepsTo (check_term m r) (check_term-Checked m r b c k)
    where
      checked-StepsTo :
          (o : Outcome (Raft S))
          → Ensures (Checked m r) o
          → StepsTo r (o >>= λ r1. dispatch m.type m r1)
      checked-StepsTo (ret r1) h =
          StepsTo-trans r r1 _ h.grows (dispatch-Grows m.type m r1 r refl h)
      checked-StepsTo panic h = record { holds = tt }
