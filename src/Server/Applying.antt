-- ===== src/Server/Applying.antt =====
-- What the entry of a put does where it is applied.
use kvgo.Common.{
  Bool-cases, inl, inr, ◌⊎◌, ==_iff, List, Option, [], add64-eq, ap, arith, bytes_beq, false,
  if◌then◌else◌, length, lookup, lookup-erase, lookup-insert, nat_eq, none, refl, some, subst, sym,
  true, u64_mod, ℕ, ◌++◌, ◌+◌, ◌<◌, ◌==◌, ◌∙◌, ◌∷◌, ◌≡◌,
}
use kvgo.Codec.{le_bytes}
use kvgo.Codec.Words.{from_le-u64}
use kvgo.Protocol.{Request, cmd_put}
use kvgo.Protocol.RoundTrip.{decode_request-encode_request}
use kvgo.Wait.{register, trigger}
use kvgo.Server.{
  StateMachine, done, Server, marshal_envelope, unmarshal_envelope, signal, apply_entry,
  apply_envelope, begin_request, begin_put,
}

if_same {ℓ} : {A : Type ℓ} (n : ℕ) (x y : A) → (if n == n then x else y) ≡ x
if_same n x y = rw ((==_iff n n).1 refl) refl

-- An envelope gives back its number and its payload.
unmarshal_envelope-marshal_envelope :
    (id : ℕ) (payload : List ℕ)
    → id < u64_mod
    → unmarshal_envelope (marshal_envelope id payload) ≡ some (id, payload)
unfolding unmarshal_envelope marshal_envelope le_bytes
unmarshal_envelope-marshal_envelope id payload h = rw (from_le-u64 id h) (ground arith)

abbrev pub put_of : List ℕ → List ℕ → Request
put_of key value = record { cmd = cmd_put; key = key; value = value; seq = 0 }

absent :
    (id j : ℕ) (m : List (ℕ × ℕ))
    → lookup id m ≡ none
    → lookup j m ≡ (if id == j then none else lookup j m)
absent id j m e = elim (Bool-cases (id == j)) [
  | inl same ↦ rw same (subst (λ (n : ℕ). lookup n m ≡ none) ((==_iff id j).0 same) e)
  | inr other ↦ rw other refl
]

module _ {S : Type 0} ⦃m : StateMachine S⦄ where
  -- The server after a put was applied and those that wait for its number were told.
  abbrev pub put_applied : ℕ → List ℕ → List ℕ → Server S → Server S
  put_applied id key value s = signal id done (record s { sm = m.put_async key value s.sm })

  apply_entry-marshal :
      (id : ℕ) (payload : List ℕ) (s : Server S)
      → apply_entry (marshal_envelope id payload) s
        ≡ apply_envelope (unmarshal_envelope (marshal_envelope id payload)) s
  unfolding apply_entry marshal_envelope le_bytes
  apply_entry-marshal id payload s = refl

  -- The data of an accepted put, and what they do on any server.
  put_data :
      (key value : List ℕ) (s : Server S)
      → length key < 4294967296
      → length value < 4294967296
      → s.req_id_gen + 1 < u64_mod
      → (raw : List ℕ) × (begin_put true key value s ≡ (
        s.w.next_channel,
        (
          some raw,
          record s { w = (register (s.req_id_gen + 1) s.w).1; req_id_gen = s.req_id_gen + 1 },
        ),
      ))
        × ((t : Server S) → apply_entry raw t ≡ put_applied (s.req_id_gen + 1) key value t)
  unfolding begin_put begin_request register
  put_data key value s key_small value_small fits =
      let id = s.req_id_gen + 1 in
      let (bytes, encodes, _, decodes) =
        decode_request-encode_request (put_of key value) (omega arith) (omega arith) key_small
          value_small in
      (
        marshal_envelope id bytes,
        rw (encodes, add64-eq s.req_id_gen 1 fits) refl,
        λ t.
            apply_entry-marshal id bytes t
            ∙ rw (unmarshal_envelope-marshal_envelope id bytes fits, decodes) refl,
      )

  put_applied-sent :
      (id ch : ℕ) (key value : List ℕ) (t : Server S)
      → lookup id t.w.m ≡ some ch
      → (put_applied id key value t).w.sent ≡ t.w.sent ++ (ch, done) ∷ []
  unfolding trigger
  put_applied-sent id ch key value t waits = rw (waits) refl

  put_applied-get :
      (id : ℕ) (key value j : List ℕ) (t : Server S)
      → m.get j (put_applied id key value t).sm
        ≡ (if bytes_beq key j then some value else m.get j t.sm)
  put_applied-get id key value j t = m.get-put_async key j value t.sm

  -- What is told, and who still waits, where `o` is the channel of the put's number.
  put_applied-waiters :
      (id : ℕ) (key value : List ℕ) (t : Server S) (o : Option ℕ)
      → lookup id t.w.m ≡ o
      → (((o ≡ none) × ((put_applied id key value t).w.sent ≡ t.w.sent))
          ⊎ ((ch : ℕ) × (o ≡ some ch)
              × ((put_applied id key value t).w.sent ≡ t.w.sent ++ (ch, done) ∷ [])))
        × ((j : ℕ)
            → lookup j (put_applied id key value t).w.m
              ≡ (if id == j then none else lookup j t.w.m))
  unfolding trigger
  put_applied-waiters id key value t none e =
      (inl (refl, rw e refl), λ j. rw e (absent id j t.w.m e))
  put_applied-waiters id key value t (some ch) e =
      (inr (ch, refl, rw e refl), λ j. rw e (lookup-erase id j t.w.m))

  -- A put that Raft accepts gives it data. Whenever these are applied, on a server in any state, the
  -- key has the value and all other keys are as they were. If somebody waits there under the number
  -- of the put, that one is told of success, once, and nobody else is told anything; if nobody does,
  -- nobody is told anything. Afterwards nobody waits under that number, and all others wait as
  -- before. The number is below 2 ^ 64, and the key and the value have less than 2 ^ 32 bytes each.
  pub begin_put-apply_entry :
      (key value : List ℕ) (s t : Server S)
      → length key < 4294967296
      → length value < 4294967296
      → s.req_id_gen + 1 < u64_mod
      → (raw : List ℕ) × ((begin_put true key value s).1.0 ≡ some raw)
        × ((j : List ℕ)
            → m.get j (apply_entry raw t).sm
              ≡ (if bytes_beq key j then some value else m.get j t.sm))
        × (((lookup (s.req_id_gen + 1) t.w.m ≡ none) × ((apply_entry raw t).w.sent ≡ t.w.sent))
            ⊎ ((ch : ℕ) × (lookup (s.req_id_gen + 1) t.w.m ≡ some ch)
                × ((apply_entry raw t).w.sent ≡ t.w.sent ++ (ch, done) ∷ [])))
        × ((id : ℕ)
            → lookup id (apply_entry raw t).w.m
              ≡ (if s.req_id_gen + 1 == id then none else lookup id t.w.m))
  begin_put-apply_entry key value s t key_small value_small fits =
      let (raw, eq, applies) = put_data key value s key_small value_small fits in
      let (told, waiting) =
        put_applied-waiters (s.req_id_gen + 1) key value t (lookup (s.req_id_gen + 1) t.w.m) refl in
      (
        raw,
        ap (λ (p : ℕ × (Option (List ℕ) × Server S)). p.1.0) eq,
        λ j. rw (applies t) (put_applied-get (s.req_id_gen + 1) key value j t),
        rw (applies t) told,
        λ id. rw (applies t) (waiting id),
      )

  -- Let two nodes have given out equally many numbers, and let each begin a put of a key of its own,
  -- both accepted, with keys and values of less than 2 ^ 32 bytes and numbers below 2 ^ 64. Then the
  -- entry of the first node's put, applied on the second, tells the caller of the second node's put of
  -- success, though the second key is still what it was there.
  pub begin_put-foreign :
      (key value key' value' : List ℕ) (s s' : Server S)
      → length key < 4294967296
      → length value < 4294967296
      → length key' < 4294967296
      → length value' < 4294967296
      → s.req_id_gen + 1 < u64_mod
      → s'.req_id_gen ≡ s.req_id_gen
      → bytes_beq key key' ≡ false
      → (raw : List ℕ) × ((begin_put true key value s).1.0 ≡ some raw)
        × ((apply_entry raw (begin_put true key' value' s').1.1).w.sent
            ≡ s'.w.sent ++ ((begin_put true key' value' s').0, done) ∷ [])
        × (m.get key' (apply_entry raw (begin_put true key' value' s').1.1).sm ≡ m.get key' s'.sm)
  unfolding register
  begin_put-foreign key value key' value' s s' h1 h2 h3 h4 fits same differ =
      let (raw, eq, applies) = put_data key value s h1 h2 fits in
      let (raw', eq', _) =
        put_data key' value' s' h3 h4 (subst (λ n. n + 1 < u64_mod) (sym same) fits) in
      let t = record s' {
        w = (register (s'.req_id_gen + 1) s'.w).1;
        req_id_gen = s'.req_id_gen + 1;
      } in
      let waits : lookup (s.req_id_gen + 1) t.w.m ≡ some s'.w.next_channel =
        rw (same, lookup-insert (s.req_id_gen + 1) (s.req_id_gen + 1) s'.w.next_channel s'.w.m)
          (if_same (s.req_id_gen + 1) (some s'.w.next_channel) _) in
      (
        raw,
        ap (λ (p : ℕ × (Option (List ℕ) × Server S)). p.1.0) eq,
        rw (eq', applies t)
            (put_applied-sent (s.req_id_gen + 1) s'.w.next_channel key value t waits),
        rw (eq', applies t, m.get-put_async key key' value t.sm, differ) refl,
      )
