-- ===== src/Transport/Slots.antt =====
-- The slots of the requests in flight.
use kvgo.Common.{
  List, Option, [], arith, drop, false, if_rule, inl, inr, leb, length, lookup, ltb, nat_eq, none,
  not, refl, some, subst, sym, true, ℕ, ◌+◌, ◌-◌, ◌<◌, ◌==◌, ◌∷◌, ◌≡◌, ◌≤◌, ◌⊎◌,
}
use kvgo.Codec.{u32_at}
use kvgo.Transport.Multiplexed.{
  Reply, answer, transport_closed, Multiplexed, allocate_id, Begun, registered, begin_request,
  taken_back, cancel, finish, reply_to, route, cleanup, leave_closed, Event, requested, cancelled,
  arrived, finished, cleaned, left, after_begin, happen, happen_all,
}
use kvgo.Transport.Numbers.{length-erase, length-insert, Kept, allocate_id-Kept}

pub leb_false→lt : (a b : ℕ) → leb a b ≡ false → b < a
leb_false→lt a b h = ground arith

-- The callers that hold a slot, while the transport is open.
abbrev pub IsOpen : ℕ → Multiplexed → Type 0
IsOpen limit t =
    (length t.pending + t.answered ≤ t.inflight) × (t.inflight ≤ limit) × (t.max_inflight ≡ limit)

abbrev pub IsBounded : ℕ → Multiplexed → Type 0
IsBounded limit t = (t.closed ≡ true) ⊎ IsOpen limit t

registered-IsBounded :
    (limit : ℕ) (payload : List ℕ) (t : Multiplexed) (o : Option (ℕ × Multiplexed))
    → Kept t o
    → leb t.max_inflight t.inflight ≡ false
    → IsBounded limit t
    → IsBounded limit (after_begin (registered payload o) t)
registered-IsBounded limit payload t none kept room h = h
registered-IsBounded limit payload t (some (id, t1)) kept room h =
    subst (λ (x : Multiplexed). IsBounded limit (after_begin (registered payload (some (id, x))) t))
      (sym kept) (go h)
  where
    go :
        IsBounded limit t
        → IsBounded limit
            (after_begin (registered payload (some (id, record t { next_id = id }))) t)
    go (inl closes) = inl closes
    go (inr (slots, below, same)) = inr (
      omega (arith, slots, length-insert id t.next_channel t.pending),
      omega (arith, leb_false→lt t.max_inflight t.inflight room, same),
      same,
    )

erased :
    (limit id : ℕ) (t : Multiplexed) (o : Option ℕ)
    → lookup id t.pending ≡ o
    → IsBounded limit t
    → (r : Reply) → IsBounded limit (taken_back id o t) × IsBounded limit (reply_to o id r t)
erased limit id t none e h r = (h, h)
erased limit id t (some ch) e (inl closes) r = (inl closes, inl closes)
erased limit id t (some ch) e (inr (slots, below, same)) r =
    let less = length-erase id ch t.pending e in
    (
      inr (omega (arith, slots, less), omega (arith, below), same),
      inr (omega (arith, slots, less), below, same),
    )

happen-IsBounded :
    (limit : ℕ) (e : Event) (t : Multiplexed) → IsBounded limit t → IsBounded limit (happen e t)
unfolding happen begin_request cancel route finish cleanup leave_closed
happen-IsBounded limit (requested acquires payload) t h =
    if_rule (λ (b : Begun). IsBounded limit (after_begin b t)) (length payload == 0) _ _ (λ _. h)
      (λ _.
        if_rule (λ (b : Begun). IsBounded limit (after_begin b t)) (not acquires) _ _ (λ _. h)
          (λ _.
            if_rule (λ (b : Begun). IsBounded limit (after_begin b t))
              (leb t.max_inflight t.inflight) _ _ (λ _. h)
              (λ room.
                registered-IsBounded limit payload t (allocate_id (length t.pending + 1) t)
                  (allocate_id-Kept (length t.pending + 1) t) room h)))
happen-IsBounded limit (cancelled id) t h =
    (erased limit id t (lookup id t.pending) refl h transport_closed).0
happen-IsBounded limit (arrived message) t h =
    if_rule (IsBounded limit) (ltb (length message) 4) _ _ (λ _. h)
      (λ _.
        if_rule (IsBounded limit) (u32_at 0 message == 0) _ _ (λ _. h)
          (λ _.
            (erased limit (u32_at 0 message) t (lookup (u32_at 0 message) t.pending) refl h
              (answer (drop 4 message))).1))
happen-IsBounded limit finished t h =
    if_rule (IsBounded limit) (t.answered == 0) _ _ (λ _. h) (λ some_left. go some_left h)
  where
    go :
        (t.answered == 0) ≡ false
        → IsBounded limit t
        → IsBounded limit (record t { answered = t.answered - 1; inflight = t.inflight - 1 })
    go some_left (inl closes) = inl closes
    go some_left (inr (slots, below, same)) =
        let pos : 0 < t.answered = ground (arith, some_left) in
        inr (omega (arith, slots, pos), omega (arith, below), same)
happen-IsBounded limit cleaned t h = if_rule (IsBounded limit) t.closed _ _ (λ _. h) (λ _. inl refl)
happen-IsBounded limit left t h =
    if_rule (IsBounded limit) t.closed _ _ (λ closes. inl closes) (λ _. h)

pub happen_all-IsBounded :
    (limit : ℕ) (es : List Event) (t : Multiplexed)
    → IsBounded limit t
    → IsBounded limit (happen_all es t)
unfolding happen_all
happen_all-IsBounded limit [] t h = h
happen_all-IsBounded limit (e ∷ es) t h =
    happen_all-IsBounded limit es (happen e t) (happen-IsBounded limit e t h)
