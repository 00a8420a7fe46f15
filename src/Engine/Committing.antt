-- ===== src/Engine/Committing.antt =====
-- No request is lost, doubled or overtaken in the committer's loop.
use kvgo.Common.{
  All, Bool-cases, List, [], ap, arith, false, if_false, if_rule, inl, inr, leb, length,
  length-append, refl, subst, sym, true, ◌++◌, ◌<◌, ◌∙◌, ◌∷◌, ◌≡◌, ◌≤◌, ◌||◌,
}
use mathlib.Core.List.{append_assoc, append-nil}
use kvgo.Engine.Shard.{Shard, WriteRequest}
use kvgo.Engine.Committer.{
  Committer, Failures, new_group_committer, flush_buf, append_to_batch, is_nil, flush_buffered,
  drain, Turn, enqueue, receive, tick, stop, compact, receive_from, take_turn, turn, run,
}

abbrev pub join : List (List WriteRequest) → List WriteRequest
join [] = []
join (rs ∷ batches) = rs ++ join batches

join-append : (bs cs : List (List WriteRequest)) → join (bs ++ cs) ≡ join bs ++ join cs
join-append [] cs = refl
join-append (b ∷ bs) cs =
    ap (λ (xs : List WriteRequest). b ++ xs) (join-append bs cs)
    ∙ sym (append_assoc b (join bs) (join cs))

-- A batch has at least one request, and at most a hundred.
abbrev pub IsBounded : List WriteRequest → Type 0
IsBounded rs = (0 < length rs) × (length rs ≤ 100)

All-snoc {ℓ κ} :
    {A : Type ℓ} (P : A → Type κ) (xs : List A) (x : A) → All P xs → P x → All P (xs ++ x ∷ [])
All-snoc P [] x h k = (k, tt)
All-snoc P (y ∷ ys) x h k = (h.0, All-snoc P ys x h.1 k)

-- What was sent is what was handed to `flush`, what is in the buffer, and what waits in the channel.
pub record IsOrdered (c : Committer) : Type 0 where
  pub order : c.sent ≡ join c.batches ++ (c.buf ++ c.queue)
  pub bounded : All IsBounded c.batches
  pub room : length c.buf < 100

flush_buf-IsOrdered :
    (c : Committer)
    → c.sent ≡ join c.batches ++ (c.buf ++ c.queue)
    → All IsBounded c.batches
    → IsBounded c.buf
    → IsOrdered (flush_buf c)
unfolding flush_buf
flush_buf-IsOrdered c order bounded now = record {
  order =
      order
      ∙ sym (append_assoc (join c.batches) c.buf c.queue)
      ∙ ap (λ (xs : List WriteRequest). xs ++ c.queue)
          (sym (
            join-append c.batches (c.buf ∷ [])
            ∙ ap (λ (xs : List WriteRequest). join c.batches ++ xs) (append-nil c.buf)));
  bounded = All-snoc IsBounded c.batches c.buf bounded now;
  room = omega arith;
}

append_to_batch-IsOrdered :
    (r : WriteRequest) (rs : List WriteRequest) (c : Committer)
    → IsOrdered c
    → c.queue ≡ r ∷ rs
    → IsOrdered (append_to_batch r (record c { queue = rs }))
unfolding append_to_batch
append_to_batch-IsOrdered r rs c h e =
    let c1 : Committer = record c { buf = c.buf ++ r ∷ []; queue = rs } in
    let order : c.sent ≡ join c.batches ++ ((c.buf ++ r ∷ []) ++ rs) =
      h.order
      ∙ rw e (
          ap (λ (xs : List WriteRequest). join c.batches ++ xs)
            (sym (append_assoc c.buf (r ∷ []) rs))) in
    let len = length-append c.buf (r ∷ []) in
    elim (Bool-cases (leb 100 (length (c.buf ++ r ∷ [])))) [
      | inl full ↦
          rw full (
            flush_buf-IsOrdered c1 order h.bounded (omega (arith, len), omega (arith, len, h.room)))
      | inr fits ↦ rw fits (record { order = order; bounded = h.bounded; room = below fits })
    ]
  where
    below : leb 100 (length (c.buf ++ r ∷ [])) ≡ false → length (c.buf ++ r ∷ []) < 100
    below e' = ground arith

is_nil-length : (rs : List WriteRequest) → is_nil rs ≡ false → 0 < length rs
is_nil-length [] h = cc
is_nil-length (r ∷ rs) h = omega arith

is_nil-eq : (rs : List WriteRequest) → is_nil rs ≡ true → rs ≡ []
is_nil-eq [] h = refl
is_nil-eq (r ∷ rs) h = cc

-- Unless a write failed, nothing is left behind.
record IsDrained (c : Committer) : Type 0 where
  ordered : IsOrdered c
  empty : c.fatal ≡ false → (c.buf ≡ []) × (c.queue ≡ [])

flush_buffered-IsOrdered :
    (c : Committer) → IsOrdered c → IsOrdered (flush_buffered c) × ((flush_buffered c).buf ≡ [])
unfolding flush_buffered
flush_buffered-IsOrdered c h = elim (Bool-cases (is_nil c.buf)) [
  | inl nil ↦ rw nil (h, is_nil-eq c.buf nil)
  | inr some_left ↦ rw some_left (
    flush_buf-IsOrdered c h.order h.bounded (is_nil-length c.buf some_left, omega (arith, h.room)),
    unfold flush_buf in refl,
  )
]

append_to_batch-queue : (r : WriteRequest) (c : Committer) → (append_to_batch r c).queue ≡ c.queue
unfolding append_to_batch flush_buf
append_to_batch-queue r c = elim (Bool-cases (leb 100 (length (c.buf ++ r ∷ [])))) [
  | inl full ↦ rw full refl
  | inr fits ↦ rw fits refl
]

flush_buffered-queue : (c : Committer) → (flush_buffered c).queue ≡ c.queue
unfolding flush_buffered flush_buf
flush_buffered-queue c = elim (Bool-cases (is_nil c.buf)) [
  | inl nil ↦ rw nil refl
  | inr some_left ↦ rw some_left refl
]

drain-IsDrained :
    (rs : List WriteRequest) (c : Committer) → IsOrdered c → c.queue ≡ rs → IsDrained (drain rs c)
unfolding drain
drain-IsDrained [] c h e =
    let (ordered, buf_eq) = flush_buffered-IsOrdered c h in
    record { ordered = ordered; empty = λ _. (buf_eq, flush_buffered-queue c ∙ e) }
drain-IsDrained (r ∷ rs) c h e =
    let next = append_to_batch r (record c { queue = rs }) in
    let ordered = append_to_batch-IsOrdered r rs c h e in
    if_rule IsDrained next.fatal next (drain rs next)
      (λ broke. record { ordered = ordered; empty = λ fine. cc })
      (λ fine. drain-IsDrained rs next ordered (append_to_batch-queue r (record c { queue = rs })))

take_turn-IsOrdered : (t : Turn) (c : Committer) → IsOrdered c → IsOrdered (take_turn t c)
take_turn-IsOrdered (enqueue r) c h = elim (Bool-cases (leb 200 (length c.queue))) [
  | inl full ↦ rw full h
  | inr fits ↦ rw fits (record {
    order =
        ap (λ (xs : List WriteRequest). xs ++ r ∷ []) h.order
        ∙ append_assoc (join c.batches) (c.buf ++ c.queue) (r ∷ [])
        ∙ ap (λ (xs : List WriteRequest). join c.batches ++ xs)
            (append_assoc c.buf c.queue (r ∷ []));
    bounded = h.bounded;
    room = h.room;
  })
]
take_turn-IsOrdered receive c h = go c.queue refl
  where
    go : (q : List WriteRequest) → c.queue ≡ q → IsOrdered (receive_from q c)
    go [] e = h
    go (r ∷ rs) e = append_to_batch-IsOrdered r rs c h e
take_turn-IsOrdered tick c h = (flush_buffered-IsOrdered c h).0
take_turn-IsOrdered (compact work) c h =
    let d = drain c.queue c in
    let ordered = (drain-IsDrained c.queue c h refl).ordered in
    if_rule IsOrdered d.fatal d (record d { shard = work d.shard }) (λ broke. ordered)
      (λ fine. record { order = ordered.order; bounded = ordered.bounded; room = ordered.room })
take_turn-IsOrdered stop c h =
    let ordered = (drain-IsDrained c.queue c h refl).ordered in
    record { order = ordered.order; bounded = ordered.bounded; room = ordered.room }

turn-IsOrdered : (t : Turn) (c : Committer) → IsOrdered c → IsOrdered (turn t c)
unfolding turn
turn-IsOrdered t c h = elim (Bool-cases (c.fatal || c.stopped)) [
  | inl ended ↦ rw ended h
  | inr running ↦ rw running (take_turn-IsOrdered t c h)
]

run-IsOrdered : (ts : List Turn) (c : Committer) → IsOrdered c → IsOrdered (run ts c)
unfolding run
run-IsOrdered [] c h = h
run-IsOrdered (t ∷ ts) c h = run-IsOrdered ts (turn t c) (turn-IsOrdered t c h)

new_group_committer-IsOrdered : (s : Shard) (fs : Failures) → IsOrdered (new_group_committer s fs)
unfolding new_group_committer
new_group_committer-IsOrdered s fs = record { order = refl; bounded = tt; room = omega arith }

turn_stop :
    (c : Committer)
    → c.fatal ≡ false
    → c.stopped ≡ false
    → turn stop c ≡ record (drain c.queue c) { stopped = true }
unfolding turn
turn_stop c running more =
    let e : (c.fatal || c.stopped) ≡ false = ground arith in
    if_false (c.fatal || c.stopped) c (record (drain c.queue c) { stopped = true }) e

-- However the turns of a committer's loop come, from its start on, and whichever writes fail: if the
-- loop has not ended yet, the requests that were handed to `flush`, those in the buffer and those in
-- the channel, in this order, are the requests that were sent. If it then stops and no write fails in
-- that turn, all requests that were sent have been handed to `flush`, in their order. Each batch
-- handed over has from 1 to 100 requests.
pub run-stop :
    (s : Shard) (failures : Failures) (ts : List Turn)
    → (run ts (new_group_committer s failures)).fatal ≡ false
    → (run ts (new_group_committer s failures)).stopped ≡ false
    → (turn stop (run ts (new_group_committer s failures))).fatal ≡ false
    → let c = run ts (new_group_committer s failures) in
      let end = turn stop c in
      (c.sent ≡ join c.batches ++ (c.buf ++ c.queue))
      × (end.sent ≡ join end.batches)
      × All IsBounded end.batches
run-stop s failures ts running more fine =
    let c = run ts (new_group_committer s failures) in
    let h =
      run-IsOrdered ts (new_group_committer s failures)
        (new_group_committer-IsOrdered s failures) in
    let drained = drain-IsDrained c.queue c h refl in
    let stops = turn_stop c running more in
    let (buf_eq, queue_eq) = drained.empty (sym (ap (λ (x : Committer). x.fatal) stops) ∙ fine) in
    let ordered = drained.ordered in
    (
      h.order,
      subst (λ (x : Committer). x.sent ≡ join x.batches) (sym stops)
          (ordered.order ∙ rw (buf_eq, queue_eq) (append-nil (join (drain c.queue c).batches))),
      subst (λ (x : Committer). All IsBounded x.batches) (sym stops) ordered.bounded,
    )
