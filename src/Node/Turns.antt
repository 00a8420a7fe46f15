-- ===== src/Node/Turns.antt =====
-- The order of the loop's turns: what is offered, delivered and acknowledged, and when.
use kvgo.Common.{
  Bool, Bool-cases, Ensures, Ensures-bind, List, Option, Outcome, [], ap, arith, count, false,
  if◌then◌else◌, inl, inr, length, length-append, none, not, panic, refl, ret, some, subst, sym,
  true, ℕ, ◌&&◌, ◌++◌, ◌+◌, ◌>>=◌, ◌∙◌, ◌∷◌, ◌≡◌,
}
use kvgo.Pb.{Entry, Message}
use kvgo.Log.Interface.{Storage}
use kvgo.Raft.{Raft, Ready}
use kvgo.Log.{next_committed_ents, next_unstable_ents}
use kvgo.Raft.Advancing.{ready_with}
use kvgo.Raft.Output.{to_others, ready, is_empty_hard_state, advance}
use kvgo.Node.{
  Node, Event, deliver, acknowledge, request_campaign, clock, request_propose, request_read_index,
  request_step, to_self, setup_node, node_has_ready, news_only, node_ready, offer, delivered,
  step_all, acknowledged, with_raft, finished, serve, turn, hard_of, or_empty,
}

abbrev pub flag : Bool → ℕ
flag false = 0
flag true = 1

abbrev pub deliveries : Event → ℕ
deliveries deliver = 1
deliveries _ = 0

abbrev pub acknowledgements : Event → ℕ
acknowledgements acknowledge = 1
acknowledgements _ = 0

-- A message is to the node itself or to another.
length-to_others :
    (id : ℕ) (ms : List Message) → length (to_others id ms) + length (to_self id ms) ≡ length ms
unfolding to_self
length-to_others id [] = refl
length-to_others id (m ∷ ms) = ground (arith, length-to_others id ms)

module _ {S : Type 0} ⦃st : Storage S⦄ where
  -- No `Ready` is offered while one is in flight, and messages are kept only then.
  pub record IsOrderly (n : Node S) : Type 0 where
    pub not_both : n.advancec ≡ true → n.readyc ≡ false
    pub nothing_kept : n.advancec ≡ false → n.steps_on_advance ≡ []

  -- A state that the loop reaches in turns, with the numbers of `Ready`s delivered and acknowledged.
  pub data Turns (n : Node S) : ℕ → ℕ → Node S → Type 0 where
    begun : Turns n 0 0 n
    turned :
        {d a d' a' : ℕ} {s t : Node S} (e : Event)
        → Turns n d a s
        → turn e s ≡ ret (some t)
        → d' ≡ deliveries e + d
        → a' ≡ acknowledgements e + a
        → Turns n d' a' t

  record Offers (n n1 : Node S) : Type 0 where
    same_advancec : n1.advancec ≡ n.advancec
    same_kept : n1.steps_on_advance ≡ n.steps_on_advance
    same_readyc : n.advancec ≡ true → n1.readyc ≡ n.readyc

  offered :
      (n : Node S) (o : Outcome Ready)
      → n.advancec ≡ false
      → Ensures (Offers n) (o >>= λ rd. ret (record n { readyc = true; rd = some rd }))
  offered n panic e = tt
  offered n (ret rd) e = record { same_advancec = refl; same_kept = refl; same_readyc = λ h. cc }

  offer-Offers : (n : Node S) → Ensures (Offers n) (offer n)
  unfolding offer
  offer-Offers n = elim (Bool-cases (not n.advancec && node_has_ready n)) [
    | inl news ↦ rw news (offered n (node_ready n) (ground arith))
    | inr quiet ↦
        rw quiet (record { same_advancec = refl; same_kept = refl; same_readyc = λ _. refl })
  ]

  -- What one case of the `select` keeps, and how it moves between the two states of the loop.
  abbrev Counts : Event → Bool → Option (Node S) → Type 0
  Counts e in_flight none = Unit {0}
  Counts e in_flight (some t) =
      IsOrderly t × (deliveries e + flag in_flight ≡ acknowledgements e + flag t.advancec)

  abbrev Serves : Event → Node S → Option (Node S) → Type 0
  Serves e n = Counts e n.advancec

  with_raft-Serves :
      (e : Event) (n : Node S) (o : Outcome (Raft S))
      → deliveries e ≡ acknowledgements e
      → IsOrderly n
      → Ensures (Serves e n) (with_raft n o)
  with_raft-Serves e n panic same w = tt
  with_raft-Serves e n (ret r) same w =
      (record { not_both = w.not_both; nothing_kept = w.nothing_kept }, omega (arith, same))

  -- The state after an acknowledgement, with the state machine that it led to.
  abbrev after : Node S → Raft S → Node S
  after n r = record n {
    r = r;
    prev_hard = if is_empty_hard_state (hard_of n.rd) then n.prev_hard else hard_of n.rd;
    steps_on_advance = [];
    rd = none;
    advancec = false;
  }

  after-Serves :
      (n : Node S) (o : Outcome (Raft S))
      → Ensures (Counts acknowledge true) (finished (o >>= λ r. ret (after n r)))
  after-Serves n panic = tt
  after-Serves n (ret r) = (record { not_both = λ h. cc; nothing_kept = λ _. refl }, omega arith)

  acknowledged-Serves :
      (n : Node S) (o : Outcome (Raft S))
      → Ensures
          (Counts acknowledge true)
          (finished (o >>= λ r1. step_all n.steps_on_advance r1 >>= λ r2. ret (after n r2)))
  acknowledged-Serves n panic = tt
  acknowledged-Serves n (ret r1) = after-Serves n (step_all n.steps_on_advance r1)

  -- What is offered is offered only while nothing is in flight.
  not_in_flight : (n : Node S) → IsOrderly n → n.readyc ≡ true → n.advancec ≡ false
  not_in_flight n w h = ground (arith, w.not_both)

  serve-Serves : (e : Event) (n : Node S) → IsOrderly n → Ensures (Serves e n) (serve e n)
  unfolding serve acknowledged delivered
  serve-Serves deliver n w = elim (Bool-cases n.readyc) [
    | inl is_set ↦ rw is_set (
      record { not_both = λ _. refl; nothing_kept = λ h. cc },
      ground (arith, not_in_flight n w is_set),
    )
    | inr closed ↦ rw closed tt
  ]
  serve-Serves acknowledge n w = elim (Bool-cases n.advancec) [
    | inl is_set ↦ rw is_set (acknowledged-Serves n (advance (or_empty n.rd) n.r))
    | inr closed ↦ rw closed tt
  ]
  serve-Serves request_campaign n w = with_raft-Serves request_campaign n _ refl w
  serve-Serves clock n w = with_raft-Serves clock n _ refl w
  serve-Serves (request_propose payload) n w = with_raft-Serves (request_propose payload) n _ refl w
  serve-Serves (request_read_index ctx) n w = with_raft-Serves (request_read_index ctx) n _ refl w
  serve-Serves (request_step m) n w = with_raft-Serves (request_step m) n _ refl w

  Offers-IsOrderly : (n n1 : Node S) → Offers n n1 → IsOrderly n → IsOrderly n1
  Offers-IsOrderly n n1 o w = record {
    not_both = λ h. o.same_readyc (sym o.same_advancec ∙ h) ∙ w.not_both (sym o.same_advancec ∙ h);
    nothing_kept = λ h. o.same_kept ∙ w.nothing_kept (sym o.same_advancec ∙ h);
  }

  turn-Serves : (e : Event) (n : Node S) → IsOrderly n → Ensures (Serves e n) (turn e n)
  unfolding turn
  turn-Serves e n w =
      Ensures-bind (Offers n) (Serves e n) (offer n) (serve e) (offer-Offers n) (λ n1 o.
        subst (λ (b : Bool). Ensures (Counts e b) (serve e n1)) o.same_advancec
          (serve-Serves e n1 (Offers-IsOrderly n n1 o w)))

  Turns-IsOrderly :
      (r : Raft S) {d a : ℕ} {n : Node S}
      → Turns (setup_node r) d a n
      → (d ≡ a + flag n.advancec) × IsOrderly n
  unfolding setup_node
  Turns-IsOrderly r begun = (refl, record { not_both = λ h. cc; nothing_kept = λ _. refl })
  Turns-IsOrderly r (turned {d = d} {a = a} {s = s} {t = t} e run eq de ae) =
      let (count, w) = Turns-IsOrderly r run in
      let (w', moved) = subst (Ensures (Serves e s)) eq (turn-Serves e s w) in (omega arith, w')

  -- From a node that was just set up, however many turns of the loop are taken: the `Ready`s
  -- delivered are as many as those acknowledged, and one more exactly while one is in flight; none
  -- is offered while one is in flight; and messages of the node to itself are kept back only then.
  pub setup_node-Turns :
      (r : Raft S) (d a : ℕ) (n : Node S)
      → Turns (setup_node r) d a n
      → (d ≡ a + flag n.advancec)
        × (n.advancec ≡ true → n.readyc ≡ false)
        × (n.advancec ≡ false → n.steps_on_advance ≡ [])
  setup_node-Turns r d a n run =
      let (e, w) = Turns-IsOrderly r run in (e, w.not_both, w.nothing_kept)

  ready-messages :
      (r : Raft S) (rd : Ready)
      → ready r ≡ ret rd
      → rd.messages ≡ r.messages ++ to_others r.id r.msgs_after_append
  unfolding ready next_unstable_ents
  ready-messages r rd e = from_entries (next_committed_ents r.raft_log) e
    where
      from_entries :
          (o : Outcome (List Entry))
          → (o >>= λ es. ret (ready_with r es)) ≡ ret rd
          → rd.messages ≡ r.messages ++ to_others r.id r.msgs_after_append
      from_entries panic e = cc
      from_entries (ret es) e =
          subst
            (Ensures (λ (d : Ready). d.messages ≡ r.messages ++ to_others r.id r.msgs_after_append))
            e refl

  pub turn-deliver :
      (n : Node S) (rd : Ready)
      → n.advancec ≡ false
      → node_has_ready n ≡ true
      → ready n.r ≡ ret rd
      → (t : Node S) × (turn deliver n ≡ ret (some t))
        × (t.rd ≡ some (news_only n.prev_hard rd))
        × (t.advancec ≡ true)
        × (t.readyc ≡ false)
        × (t.r ≡ record (n.r) { msgs_after_append = [] })
        × (t.steps_on_advance ≡ n.steps_on_advance ++ to_self n.r.id n.r.msgs_after_append)
        × (rd.messages ≡ n.r.messages ++ to_others n.r.id n.r.msgs_after_append)
        × (length rd.messages + length (to_self n.r.id n.r.msgs_after_append)
            ≡ length n.r.messages + length n.r.msgs_after_append)
  unfolding turn offer serve node_ready delivered
  turn-deliver n rd idle news e =
      let others = to_others n.r.id n.r.msgs_after_append in
      let eq = ready-messages n.r rd e in
      (
        delivered (record n { readyc = true; rd = some (news_only n.prev_hard rd) }),
        rw (news, idle, e),
        refl,
        refl,
        refl,
        refl,
        refl,
        eq,
        omega (
          arith,
          ap length eq,
          length-append n.r.messages others,
          length-to_others n.r.id n.r.msgs_after_append,
        ),
      )
