-- ===== src/Raft/Invariant/Runs.antt =====
-- Any run of one node: messages that it steps, and ticks, in any order.
use kvgo.Common.{Ensures, Option, ret, subst, u64_mod, ◌+◌, ◌<◌, ◌≡◌, ◌≢◌, ◌≤◌}
use kvgo.Pb.{Message}
use kvgo.Log.Interface.{Storage}
use kvgo.Raft.{Raft, StepError}
use kvgo.Raft.Step.{step}
use kvgo.Raft.Clock.{tick}
use kvgo.Raft.Invariant.{Grows, Grows-refl, Grows-trans, IsConsistent}
use kvgo.Raft.Invariant.Checks.{IsCurrent, step-StepsTo}
use kvgo.Raft.Invariant.Ticks.{tick-Grows}

module _ {S : Type 0} ⦃st : Storage S⦄ where
  -- The terms do not reach the end of uint64, and a candidate gets no leader's message of a term
  -- before its own.
  pub data Run (r : Raft S) : Raft S → Type 0 where
    start : Run r r
    stepped :
        {s t : Raft S} (m : Message) (e : Option StepError)
        → Run r s
        → s.term + 1 < u64_mod
        → m.term + 1 < u64_mod
        → IsCurrent m s
        → step m s ≡ ret (t, e)
        → Run r t
    ticked : {s t : Raft S} → Run r s → s.term + 1 < u64_mod → tick s ≡ ret t → Run r t

  step-Grows :
      (m : Message) (r r' : Raft S) (e : Option StepError)
      → r.term + 1 < u64_mod
      → m.term + 1 < u64_mod
      → IsCurrent m r
      → step m r ≡ ret (r', e)
      → Grows r r'
  step-Grows m r r' e b c k eq =
      subst (Ensures (λ (p : Raft S × Option StepError). Grows r p.0)) eq
        (step-StepsTo m r b c k).holds

  Run-Grows : {r s : Raft S} → Run r s → Grows r s
  Run-Grows {r} start = Grows-refl r
  Run-Grows (stepped {s = s} {t = t} m e run b c k eq) =
      Grows-trans (Run-Grows run) (step-Grows m s t e b c k eq)
  Run-Grows {r} (ticked {s = s} {t = t} run b eq) =
      Grows-trans (Run-Grows run) (subst (Ensures (Grows s)) eq (tick-Grows s b).holds)

  -- However a node gets from one state to another by messages and ticks, where no term reaches the
  -- end of uint64 and a candidate gets no leader's message of a term before its own: the term, the
  -- committed and the applied index have not fallen, and the node's id and its voters are the same.
  pub Run-monotone :
      (r s : Raft S)
      → Run r s
      → (r.term ≤ s.term)
        × (r.raft_log.committed ≤ s.raft_log.committed)
        × (r.raft_log.applied ≤ s.raft_log.applied)
        × (s.id ≡ r.id)
        × (s.trk.voters ≡ r.trk.voters)
  Run-monotone r s run =
      let g = Run-Grows run in (g.term_le, g.committed_le, g.applied_le, g.same_id, g.same_voters)

  -- In a run of messages and ticks, where no term reaches the end of uint64 and a candidate gets no
  -- leader's message of a term before its own, a node votes once in a term: with a vote given in the
  -- first state, and the same term in the last, the vote is still the same.
  pub Run-one_vote :
      (r s : Raft S) → Run r s → s.term ≡ r.term → r.voted_for ≢ 0 → s.voted_for ≡ r.voted_for
  Run-one_vote r s run e v = (Run-Grows run).vote_kept e v

  -- A run of messages and ticks, where no term reaches the end of uint64 and a candidate gets no
  -- leader's message of a term before its own, keeps a state consistent: the functions in `step` and
  -- `tick` are those of the role, a leader has itself as the leader, and the applied index is at most
  -- the committed one.
  pub Run-IsConsistent : (r s : Raft S) → Run r s → IsConsistent r → IsConsistent s
  Run-IsConsistent r s run c = (Run-Grows run).consistent c
