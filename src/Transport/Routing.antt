-- ===== src/Transport/Routing.antt =====
-- Every request finds a number of its own, and its answer.
use kvgo.Common.{
  Bool-cases, leb→le, subst, List, [], ap, arith, false, if_false, inl, inr, insert, leb, length,
  lookup, lookup-insert, ltb, nat_eq, none, refl, some, suc, sym, true, zero, ℕ, ◌++◌, ◌+◌, ◌<◌,
  ◌∙◌, ◌∷◌, ◌≡◌, ◌≤◌, ◌⊎◌, ==_iff, ==-false, le→ltb,
}
use kvgo.Codec.{le_bytes}
use kvgo.Codec.Words.{from_le-u32}
use kvgo.Transport.Multiplexed.{
  answer, Multiplexed, new_multiplexed_transport, allocate_id, begun, waiting, begin_request,
  reply_to, route, Event, happen_all,
}
use kvgo.Transport.Numbers.{one_is_free, allocate_id-free}
use kvgo.Transport.Slots.{leb_false→lt, IsOpen, IsBounded, happen_all-IsBounded}

new-IsBounded : (limit : ℕ) → 0 < limit → IsBounded limit (new_multiplexed_transport limit)
unfolding new_multiplexed_transport
new-IsBounded limit pos = rw (==-false limit pos) (inr (omega arith, omega arith, refl))

-- A free number, where fewer numbers are taken than there are.
allocate_id-some :
    (t : Multiplexed)
    → length t.pending < 4294967296
    → (id : ℕ) × (allocate_id (length t.pending + 1) t ≡ some (id, record t { next_id = id }))
      × (lookup id t.pending ≡ none)
      × (id < 4294967296)
allocate_id-some t few =
    let (i, less, free) =
      one_is_free (length t.pending + 1) t.next_id t.pending (omega arith) (omega arith) in
    allocate_id-free (length t.pending + 1) i t less free

-- The answer to a number that is waited for.
route-answer :
    (id ch : ℕ) (reply : List ℕ) (t : Multiplexed)
    → id < 4294967296
    → 0 < id
    → lookup id t.pending ≡ some ch
    → (route (le_bytes 4 id ++ reply) t).replies ≡ t.replies ++ (ch, answer reply) ∷ []
unfolding route le_bytes
route-answer id ch reply t small pos waits =
    let message = le_bytes 4 id ++ reply in
    let routed : route message t ≡ reply_to (some ch) id (answer reply) t =
      if_false (ltb (length message) 4) t _ (le→ltb (length message) 4 (omega arith))
      ∙ rw (from_le-u32 id small, ==-false id pos, waits) refl in
    ap (λ (x : Multiplexed). x.replies) routed

IsBounded-IsOpen :
    (limit : ℕ) (t : Multiplexed) → t.closed ≡ false → IsBounded limit t → IsOpen limit t
IsBounded-IsOpen limit t opened (inl closes) = absurd (differs (sym closes ∙ opened))
  where
    differs : true ≡ false → ⊥
    differs h = cc
IsBounded-IsOpen limit t opened (inr h) = h

answered_or_zero :
    (id : ℕ) (t : Multiplexed) (ch : ℕ)
    → id < 4294967296
    → lookup id t.pending ≡ some ch
    → (id ≡ 0)
      ⊎ ((reply : List ℕ)
          → (route (le_bytes 4 id ++ reply) t).replies ≡ t.replies ++ (ch, answer reply) ∷ [])
answered_or_zero zero t ch small waits = inl refl
answered_or_zero (suc n) t ch small waits =
    inr (λ reply. route-answer (suc n) ch reply t small (omega arith) waits)

slots_le :
    (t : Multiplexed) → length t.pending + t.answered ≤ t.inflight → length t.pending ≤ t.inflight
slots_le t h = omega arith

limit_reached : (limit n : ℕ) → n ≤ limit → leb limit n ≡ true → n ≡ limit
limit_reached limit n h full = omega (arith, leb→le limit n full)

begin_request-waiting :
    (payload : List ℕ) (t : Multiplexed)
    → 0 < length payload
    → leb t.max_inflight t.inflight ≡ true
    → begin_request true payload t ≡ waiting
unfolding begin_request
begin_request-waiting payload t some_payload full =
    rw (==-false (length payload) some_payload, full) refl

begin_request-begun :
    (payload : List ℕ) (t : Multiplexed)
    → 0 < length payload
    → leb t.max_inflight t.inflight ≡ false
    → length t.pending < 4294967296
    → (id : ℕ) × (t' : Multiplexed) × (begin_request true payload t
        ≡ begun id t.next_channel (le_bytes 4 id ++ payload) t')
      × (lookup id t.pending ≡ none)
      × (id < 4294967296)
      × ((id ≡ 0)
          ⊎ ((reply : List ℕ)
              → (route (le_bytes 4 id ++ reply) t').replies
                ≡ t.replies ++ (t.next_channel, answer reply) ∷ []))
unfolding begin_request
begin_request-begun payload t some_payload room few =
    let (id, eq, free, small) = allocate_id-some t few in
    let t' = record t {
      next_id = id;
      pending = insert id t.next_channel t.pending;
      next_channel = t.next_channel + 1;
      inflight = t.inflight + 1;
    } in
    (
      id,
      t',
      rw (==-false (length payload) some_payload, room, eq) refl,
      free,
      small,
      answered_or_zero id t' t.next_channel small
          (lookup-insert id id t.next_channel t.pending ∙ rw ((==_iff id id).1 refl) refl),
    )

-- Let there be a limit of requests in flight, from 1 to 2 ^ 32 - 1, and take a transport with this
-- limit after any requests, cancellations, messages and returns, as long as it is not closed. It has
-- at most as many requests waiting as slots are taken, and no more slots are taken than the limit.
-- A request with a payload waits for a slot if all are taken. Otherwise it begins: it finds a number
-- below 2 ^ 32 that no other request waits for, and is written behind this number; and if the number
-- is not 0, the message with this number that arrives next is its answer.
pub happen_all-begin_request :
    (limit : ℕ) (es : List Event) (payload : List ℕ)
    → 0 < limit
    → limit < 4294967296
    → 0 < length payload
    → (happen_all es (new_multiplexed_transport limit)).closed ≡ false
    → let t = happen_all es (new_multiplexed_transport limit) in
      (length t.pending ≤ t.inflight)
      × (t.inflight ≤ limit)
      × (((t.inflight ≡ limit) × (begin_request true payload t ≡ waiting))
          ⊎ ((t.inflight < limit)
              × (id : ℕ) × (t' : Multiplexed) × (begin_request true payload t
                  ≡ begun id t.next_channel (le_bytes 4 id ++ payload) t')
              × (lookup id t.pending ≡ none)
              × (id < 4294967296)
              × ((id ≡ 0)
                  ⊎ ((reply : List ℕ)
                      → (route (le_bytes 4 id ++ reply) t').replies
                        ≡ t.replies ++ (t.next_channel, answer reply) ∷ []))))
happen_all-begin_request limit es payload pos below some_payload opened =
    let t = happen_all es (new_multiplexed_transport limit) in
    let (slots, within, same) =
      IsBounded-IsOpen limit t opened (
        happen_all-IsBounded limit es (new_multiplexed_transport limit)
          (new-IsBounded limit pos)) in
    (
      slots_le t slots,
      within,
      elim (Bool-cases (leb limit t.inflight)) [
        | inl full ↦ inl (
          limit_reached limit t.inflight within full,
          begin_request-waiting payload t some_payload
              (subst (λ (n : ℕ). leb n t.inflight ≡ true) (sym same) full),
        )
        | inr room ↦
            let less = leb_false→lt limit t.inflight room in
            let (id, t', eq, free, small, routed) =
              begin_request-begun payload t some_payload
                (subst (λ (n : ℕ). leb n t.inflight ≡ false) (sym same) room)
                (omega (arith, slots, less, below)) in
            inr (less, id, t', eq, free, small, routed)
      ],
    )
