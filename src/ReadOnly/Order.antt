-- ===== src/ReadOnly/Order.antt =====
-- The order in which pending reads are answered: `advance`.
use kvgo.Common.{
  All, Bool-cases, List, [], ap, arith, bytes_beq, bytes_beq_sound, bytes_eq, count, count-append,
  false, get_last?, inl, inr, lookup, map, nat_eq, none, refl, ret, some, ℕ, ◌++◌, ◌<◌, ◌∷◌, ◌≡◌,
  ◌≢◌,
}
use kvgo.Pb.{Message}
use kvgo.ReadOnly.{ReadIndexStatus, ReadOnly, Collected, add_status, collect, advance_to, advance}

abbrev pub Pending : Type 0
Pending = List (List ℕ × ReadIndexStatus)

-- Each request in the queue has a status.
abbrev pub AllPending : Pending → List (List ℕ) → Type 0
AllPending pending = All (λ ctx. (rs : ReadIndexStatus) × (lookup ctx pending ≡ some rs))

abbrev pub is_asked : List ℕ → List (List ℕ) → ℕ
is_asked ctx = count (λ okctx. bytes_beq okctx ctx)

-- The requests before and up to `ctx` are taken, with their statuses in order.
pub record Takes (ctx : List ℕ) (pending : Pending) (queue : List (List ℕ))
    (rss : List ReadIndexStatus) (rest : List (List ℕ)) : Type 0 where
  pub front : List (List ℕ)
  pub split : queue ≡ front ++ rest
  pub statuses : map some rss ≡ map (λ okctx. lookup okctx pending) front
  pub ends : get_last? front ≡ some ctx
  pub once : is_asked ctx front ≡ 1

get_last?-more :
    (x y : List ℕ) (xs : List (List ℕ)) → get_last? xs ≡ some y → get_last? (x ∷ xs) ≡ some y
get_last?-more x y [] e = cc
get_last?-more x y (z ∷ zs) e = e

abbrev CollectedOr : List ℕ → Pending → List (List ℕ) → Collected → Type 0
CollectedOr ctx pending queue none = is_asked ctx queue ≡ 0
CollectedOr ctx pending queue (some (rss, rest)) = Takes ctx pending queue rss rest

add_status-CollectedOr :
    (ctx okctx : List ℕ) (pending : Pending) (queue : List (List ℕ)) (rs : ReadIndexStatus)
    (c : Collected)
    → lookup okctx pending ≡ some rs
    → bytes_beq okctx ctx ≡ false
    → CollectedOr ctx pending queue c
    → CollectedOr ctx pending (okctx ∷ queue) (add_status rs c)
add_status-CollectedOr ctx okctx pending queue rs none at other h = ground (arith, h)
add_status-CollectedOr ctx okctx pending queue rs (some (rss, rest)) at other h = record {
  front = okctx ∷ h.front;
  split = ap (λ (q : List (List ℕ)). okctx ∷ q) h.split;
  statuses = cc (h.statuses, at);
  ends = get_last?-more okctx ctx h.front h.ends;
  once = ground (arith, h.once);
}

collect-CollectedOr :
    (ctx : List ℕ) (pending : Pending) (queue : List (List ℕ))
    → AllPending pending queue
    → (c : Collected) × (collect ctx pending queue ≡ ret c) × CollectedOr ctx pending queue c
unfolding collect
collect-CollectedOr ctx pending [] h = (none, refl, refl)
collect-CollectedOr ctx pending (okctx ∷ queue) ((rs, at), h) =
    elim (Bool-cases (bytes_beq okctx ctx)) [
      | inl same ↦ (
        some (rs ∷ [], queue),
        rw (at, same),
        record {
          front = okctx ∷ [];
          split = refl;
          statuses = cc at;
          ends = ap some (bytes_beq_sound okctx ctx same);
          once = ground arith;
        },
      )
      | inr other ↦
          let (c, eq, found) = collect-CollectedOr ctx pending queue h in
          (
            add_status rs c,
            rw (at, other, eq),
            add_status-CollectedOr ctx okctx pending queue rs c at other found,
          )
    ]

taken-asked :
    {ctx : List ℕ} {pending : Pending} {queue : List (List ℕ)} {rss : List ReadIndexStatus}
    {rest : List (List ℕ)}
    → Takes ctx pending queue rss rest
    → is_asked ctx queue ≢ 0
taken-asked {ctx} {rest = rest} t e = omega (
  arith,
  t.once,
  ap (is_asked ctx) t.split,
  count-append (λ okctx. bytes_beq okctx ctx) t.front rest,
)

-- Where every request in the queue has a status, `advance` for a request that is in the queue answers
-- it and those before it, with their statuses, in the order of the queue, and takes exactly these off
-- the queue; for a request that is not in the queue it answers none and changes nothing.
pub advance-order :
    (m : Message) (r : ReadOnly)
    → AllPending r.pending_read_index r.read_index_queue
    → (r' : ReadOnly) × (rss : List ReadIndexStatus) × (advance m r ≡ ret (r', rss))
      × ((is_asked m.context r.read_index_queue ≡ 0 → (r' ≡ r) × (rss ≡ []))
          × (0 < is_asked m.context r.read_index_queue
              → Takes m.context r.pending_read_index r.read_index_queue rss r'.read_index_queue))
unfolding advance
advance-order m r h =
    let (c, eq, found) = collect-CollectedOr m.context r.pending_read_index r.read_index_queue h in
    ((advance_to r c).0, (advance_to r c).1, rw eq, answered c found)
  where
    answered :
        (c : Collected)
        → CollectedOr m.context r.pending_read_index r.read_index_queue c
        → (is_asked m.context r.read_index_queue ≡ 0
            → ((advance_to r c).0 ≡ r) × ((advance_to r c).1 ≡ []))
          × (0 < is_asked m.context r.read_index_queue
              → Takes m.context r.pending_read_index r.read_index_queue
                  (advance_to r c).1
                  (advance_to r c).0.read_index_queue)
    answered none found = (λ _. (refl, refl), λ some_asked. absurd (omega (arith, found)))
    answered (some (rss, rest)) found =
        (λ none_asked. absurd (taken-asked found none_asked), λ _. found)
