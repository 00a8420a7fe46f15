-- ===== src/Raft/Invariant.antt =====
-- What every call on the state machine keeps, as a relation between the state before and after. The
-- children prove it for each method; this file has the relation and its rules.
pub mod Sends
pub mod Turns
pub mod Leads
pub mod Steps
pub mod Checks
pub mod Ticks
pub mod Runs
use kvgo.Common.{
  Bool, Ensures, List, Option, Outcome, [], ap, arith, false, for_each, if◌then◌else◌, panic, refl,
  ret, sym, true, ◌>>=◌, ◌∙◌, ◌∷◌, ◌≡◌, ◌≢◌, ◌≤◌,
}
use kvgo.Raft.{
  Raft, State, follower, pre_candidate, candidate, leader, TickFunc, ticks_election,
  ticks_heartbeat, StepFunc, steps_follower, steps_candidate, steps_leader, Stepped, StepError,
  done,
}

abbrev pub step_of : State → StepFunc
step_of follower = steps_follower
step_of pre_candidate = steps_candidate
step_of candidate = steps_candidate
step_of leader = steps_leader

abbrev pub tick_of : State → TickFunc
tick_of leader = ticks_heartbeat
tick_of _ = ticks_election

-- The functions in the fields `step` and `tick` are those of the state, a leader knows that it
-- leads, and the applied index is at most the committed one.
pub record IsConsistent {S : Type 0} (r : Raft S) : Type 0 where
  pub step_lem : r.step ≡ step_of r.state
  pub tick_lem : r.tick ≡ tick_of r.state
  pub lead_lem : r.state ≡ leader → r.lead ≡ r.id
  pub applied_le : r.raft_log.applied ≤ r.raft_log.committed

-- From `r` to `r'` the term, the committed and the applied index do not fall, a vote that was given
-- stays as long as the term does, and the node's id and the voters stay.
pub record Grows {S : Type 0} (r r' : Raft S) : Type 0 where
  pub term_le : r.term ≤ r'.term
  pub committed_le : r.raft_log.committed ≤ r'.raft_log.committed
  pub applied_le : r.raft_log.applied ≤ r'.raft_log.applied
  pub vote_kept : r'.term ≡ r.term → r.voted_for ≢ 0 → r'.voted_for ≡ r.voted_for
  pub same_id : r'.id ≡ r.id
  pub same_voters : r'.trk.voters ≡ r.trk.voters
  pub consistent : IsConsistent r → IsConsistent r'

module _ {S : Type 0} where
  pub Grows-refl : (r : Raft S) → Grows r r
  Grows-refl r = record {
    term_le = omega arith;
    committed_le = omega arith;
    applied_le = omega arith;
    vote_kept = λ _ _. refl;
    same_id = refl;
    same_voters = refl;
    consistent = λ c. c;
  }

  pub Grows-trans : {q r s : Raft S} → Grows q r → Grows r s → Grows q s
  Grows-trans g h = record {
    term_le = omega (arith, g.term_le, h.term_le);
    committed_le = omega (arith, g.committed_le, h.committed_le);
    applied_le = omega (arith, g.applied_le, h.applied_le);
    vote_kept = λ e v.
        let e1 = g.vote_kept (omega (arith, g.term_le, h.term_le)) v in
        h.vote_kept (omega (arith, g.term_le, h.term_le)) (λ z. v (sym e1 ∙ z)) ∙ e1;
    same_id = h.same_id ∙ g.same_id;
    same_voters = h.same_voters ∙ g.same_voters;
    consistent = λ c. h.consistent (g.consistent c);
  }

  -- `o` leads from `r` to a state that `r` grows to, or panics.
  pub record GrowsTo (r : Raft S) (o : Outcome (Raft S)) : Type 0 where
    pub holds : Ensures (Grows r) o

  pub record StepsTo (r : Raft S) (o : Stepped S) : Type 0 where
    pub holds : Ensures (λ (p : Raft S × Option StepError). Grows r p.0) o

  pub GrowsTo-ret : {r s : Raft S} → Grows r s → GrowsTo r (ret s)
  GrowsTo-ret g = record { holds = g }

  pub GrowsTo-refl : (r : Raft S) → GrowsTo r (ret r)
  GrowsTo-refl r = record { holds = Grows-refl r }

  pub GrowsTo-panic : (r : Raft S) → GrowsTo r panic
  GrowsTo-panic r = record { holds = tt }

  pub GrowsTo-trans : (q r : Raft S) (o : Outcome (Raft S)) → Grows q r → GrowsTo r o → GrowsTo q o
  GrowsTo-trans q r (ret s) g h = record { holds = Grows-trans g h.holds }
  GrowsTo-trans q r panic g h = GrowsTo-panic q

  pub GrowsTo-bind :
      (r : Raft S) (o : Outcome (Raft S)) (f : Raft S → Outcome (Raft S))
      → GrowsTo r o
      → ((s : Raft S) → Grows r s → GrowsTo s (f s))
      → GrowsTo r (o >>= f)
  GrowsTo-bind r (ret s) f g h = GrowsTo-trans r s (f s) g.holds (h s g.holds)
  GrowsTo-bind r panic f g h = GrowsTo-panic r

  -- A value that is computed on the way.
  pub GrowsTo-let {ℓ} :
      {A : Type ℓ} (r : Raft S) (o : Outcome A) (f : A → Outcome (Raft S))
      → ((a : A) → GrowsTo r (f a))
      → GrowsTo r (o >>= f)
  GrowsTo-let r (ret a) f h = h a
  GrowsTo-let r panic f h = GrowsTo-panic r

  -- A value with a property that the rest may use.
  pub GrowsTo-use {ℓ κ} :
      {A : Type ℓ} (P : A → Type κ) (r : Raft S) (o : Outcome A) (f : A → Outcome (Raft S))
      → Ensures P o
      → ((a : A) → P a → GrowsTo r (f a))
      → GrowsTo r (o >>= f)
  GrowsTo-use P r (ret a) f p h = h a p
  GrowsTo-use P r panic f p h = GrowsTo-panic r

  pub GrowsTo-if :
      (b : Bool) (r : Raft S) (x y : Outcome (Raft S))
      → GrowsTo r x
      → GrowsTo r y
      → GrowsTo r (if b then x else y)
  GrowsTo-if true r x y h k = h
  GrowsTo-if false r x y h k = k

  pub GrowsTo-for_each {ℓ} :
      {A : Type ℓ} (xs : List A) (f : A → Raft S → Outcome (Raft S)) (r : Raft S)
      → ((x : A) (s : Raft S) → GrowsTo s (f x s))
      → GrowsTo r (for_each xs f r)
  GrowsTo-for_each [] f r h = GrowsTo-refl r
  GrowsTo-for_each (x ∷ xs) f r h =
      GrowsTo-bind r (f x r) (for_each xs f) (h x r) (λ s _. GrowsTo-for_each xs f s h)

  pub StepsTo-done : (r : Raft S) (o : Outcome (Raft S)) → GrowsTo r o → StepsTo r (done o)
  StepsTo-done r (ret s) h = record { holds = h.holds }
  StepsTo-done r panic h = record { holds = tt }

  pub StepsTo-ret : (r s : Raft S) (e : Option StepError) → Grows r s → StepsTo r (ret (s, e))
  StepsTo-ret r s e g = record { holds = g }

  pub StepsTo-if :
      (b : Bool) (r : Raft S) (x y : Stepped S)
      → StepsTo r x
      → StepsTo r y
      → StepsTo r (if b then x else y)
  StepsTo-if true r x y h k = h
  StepsTo-if false r x y h k = k

  pub StepsTo-trans : (q r : Raft S) (o : Stepped S) → Grows q r → StepsTo r o → StepsTo q o
  StepsTo-trans q r (ret s) g h = record { holds = Grows-trans g h.holds }
  StepsTo-trans q r panic g h = record { holds = tt }

  -- States that differ only in what the relation does not speak of.
  pub record Same (r r' : Raft S) : Type 0 where
    pub term_eq : r'.term ≡ r.term
    pub committed_eq : r'.raft_log.committed ≡ r.raft_log.committed
    pub applied_eq : r'.raft_log.applied ≡ r.raft_log.applied
    pub vote_eq : r'.voted_for ≡ r.voted_for
    pub id_eq : r'.id ≡ r.id
    pub voters_eq : r'.trk.voters ≡ r.trk.voters
    pub state_eq : r'.state ≡ r.state
    pub step_eq : r'.step ≡ r.step
    pub tick_eq : r'.tick ≡ r.tick
    pub lead_eq : r'.lead ≡ r.lead

  pub Same-Grows : {r r' : Raft S} → Same r r' → Grows r r'
  Same-Grows s = record {
    term_le = omega (arith, s.term_eq);
    committed_le = omega (arith, s.committed_eq);
    applied_le = omega (arith, s.applied_eq);
    vote_kept = λ _ _. s.vote_eq;
    same_id = s.id_eq;
    same_voters = s.voters_eq;
    consistent = λ c. record {
      step_lem = s.step_eq ∙ c.step_lem ∙ ap step_of (sym s.state_eq);
      tick_lem = s.tick_eq ∙ c.tick_lem ∙ ap tick_of (sym s.state_eq);
      lead_lem = λ e. s.lead_eq ∙ c.lead_lem (sym s.state_eq ∙ e) ∙ sym s.id_eq;
      applied_le = omega (arith, s.applied_eq, s.committed_eq, c.applied_le);
    };
  }
