-- ===== src/Server/Host.antt =====
-- The driver of the Raft node, src/server/raft.go: what it does with a `Ready`, in which order.
use kvgo.Common.{
  Bool, List, Option, [], ap, arith, false, if◌then◌else◌, length, not, refl, suc, true, zero, ℕ,
  ◌++◌, ◌∙◌, ◌∷◌, ◌≡◌, ◌||◌, ◌≤◌, Bool-cases, inl, inr, ◌⊎◌,
}
use mathlib.Core.List.{append_assoc, append-nil}
use kvgo.Common.{Option, get_last?, map, none, some, ◌↔◌}
use kvgo.Pb.{Entry, HardState, Message}
use kvgo.ReadOnly.{ReadState}
use kvgo.Raft.{Ready}
use kvgo.Raft.Output.{is_empty_hard_state}

-- What the storage, the transport and the server see of the host.
pub data Effect : Type 0 where
  stored : List Entry → Option HardState → Effect
  sent_out : List Message → Effect
  read_answered : ReadState → Effect
  to_apply : List (List ℕ) → ℕ → Effect

abbrev pub has_none : {A : Type 0} → List A → Bool
has_none [] = true
has_none (a ∷ rest) = false

abbrev pub must_save : Ready → Bool
must_save rd = not (has_none rd.entries) || not (is_empty_hard_state rd.hard_state)

abbrev pub payloads : List Entry → List (List ℕ)
payloads [] = []
payloads (e ∷ es) = e.payload ∷ payloads es

abbrev pub index_of_last : ℕ → List Entry → ℕ
index_of_last i [] = i
index_of_last i (e ∷ es) = index_of_last e.index es

-- `deliveries` is how often one of the two channels takes a value before the host is stopped.
abbrev pub hand_over : ℕ → List Entry → List Effect
hand_over deliveries [] = []
hand_over zero (e ∷ es) = []
hand_over (suc n) (e ∷ es) = to_apply (e.payload ∷ payloads es) (index_of_last e.index es) ∷ []

unfoldable pub deliver_reads : ℕ → List ReadState → List Entry → List Effect
deliver_reads deliveries [] committed = hand_over deliveries committed
deliver_reads zero (rs ∷ states) committed = []
deliver_reads (suc n) (rs ∷ states) committed = read_answered rs ∷ deliver_reads n states committed

abbrev pub send_messages : List Message → List Effect
send_messages [] = []
send_messages (m ∷ ms) = sent_out (m ∷ ms) ∷ []

abbrev pub after_save : ℕ → Ready → List Effect
after_save deliveries rd =
    send_messages rd.messages ++ deliver_reads deliveries rd.read_states rd.committed_entries

-- The Boolean of the result is false for the error of the storage, `save_ok` for whether it saves.
unfoldable pub handle_batch : Bool → ℕ → Ready → List Effect × Bool
handle_batch save_ok deliveries rd =
    if must_save rd
    then (if save_ok
        then (stored rd.entries rd.hard_state ∷ after_save deliveries rd, true)
        else ([], false))
    else (after_save deliveries rd, true)

-- That a `Ready` has no entries, and no hard state with a field that is not 0.
abbrev pub NoState : Option HardState → Type 0
NoState none = Unit {0}
NoState (some h) = (h.term ≡ 0) × (h.voted_for ≡ 0) × (h.committed_index ≡ 0)

abbrev pub NothingNew : Ready → Type 0
NothingNew rd = (rd.entries ≡ []) × NoState rd.hard_state

-- One effect if there is a value, as the last element of a list that is not empty.
abbrev pub once : {A : Type 0} → Option A → (A → Effect) → List Effect
once none f = []
once (some a) f = f a ∷ []

-- What a `Ready` asks for behind the saving: all messages, each read, and all committed entries with
-- the index of the last.
abbrev pub asked : Ready → List Effect
asked rd =
    once (get_last? rd.messages) (λ _. sent_out rd.messages)
    ++ (map read_answered rd.read_states
        ++ once (get_last? rd.committed_entries)
            (λ last. to_apply (map (λ (e : Entry). e.payload) rd.committed_entries) last.index))

payloads-eq : (es : List Entry) → payloads es ≡ map (λ (e : Entry). e.payload) es
payloads-eq [] = refl
payloads-eq (e ∷ es) = ap (◌∷◌ e.payload) (payloads-eq es)

index_of_last-eq :
    (e : Entry) (es : List Entry)
    → (last : Entry) × (get_last? (e ∷ es) ≡ some last) × (index_of_last e.index es ≡ last.index)
index_of_last-eq e [] = (e, refl, refl)
index_of_last-eq e (f ∷ es) = index_of_last-eq f es

abbrev applied_of : List Entry → List Effect
applied_of committed =
    once (get_last? committed)
      (λ last. to_apply (map (λ (e : Entry). e.payload) committed) last.index)

hand_over-eq : (n : ℕ) (committed : List Entry) → hand_over (suc n) committed ≡ applied_of committed
hand_over-eq n [] = refl
hand_over-eq n (e ∷ es) =
    let (last, found, at) = index_of_last-eq e es in rw (found, at, payloads-eq es) refl

send_messages-eq : (ms : List Message) → send_messages ms ≡ once (get_last? ms) (λ _. sent_out ms)
send_messages-eq [] = refl
send_messages-eq (m ∷ ms) = let (last, found) = some_last m ms in rw found refl
  where
    some_last :
        (m : Message) (ms : List Message) → (last : Message) × (get_last? (m ∷ ms) ≡ some last)
    some_last m [] = (m, refl)
    some_last m (n ∷ ms) = some_last n ms

-- What is delivered comes first of what is to be, and is all of it without a stop.
deliver_reads-prefix :
    (deliveries : ℕ) (states : List ReadState) (committed : List Entry)
    → (rest : List Effect) × (deliver_reads deliveries states committed ++ rest
        ≡ map read_answered states ++ applied_of committed)
      × ((deliveries ≤ length states) ⊎ (rest ≡ []))
unfolding deliver_reads
deliver_reads-prefix zero [] [] = ([], refl, inr refl)
deliver_reads-prefix zero [] (e ∷ es) = (applied_of (e ∷ es), refl, inl (omega arith))
deliver_reads-prefix (suc n) [] committed =
    ([], append-nil (hand_over (suc n) committed) ∙ hand_over-eq n committed, inr refl)
deliver_reads-prefix zero (rs ∷ states) committed =
    (map read_answered (rs ∷ states) ++ applied_of committed, refl, inl (omega arith))
deliver_reads-prefix (suc n) (rs ∷ states) committed =
    let (rest, eq, all) = deliver_reads-prefix n states committed in
    (
      rest,
      ap (◌∷◌ (read_answered rs)) eq,
      elim all [ inl stops ↦ inl (omega (arith, stops)) | inr done ↦ inr done ],
    )

after_save-prefix :
    (deliveries : ℕ) (rd : Ready)
    → (rest : List Effect) × (after_save deliveries rd ++ rest ≡ asked rd)
      × ((deliveries ≤ length rd.read_states) ⊎ (rest ≡ []))
after_save-prefix deliveries rd =
    let (rest, eq, all) = deliver_reads-prefix deliveries rd.read_states rd.committed_entries in
    let delivered = deliver_reads deliveries rd.read_states rd.committed_entries in
    (
      rest,
      append_assoc (send_messages rd.messages) delivered rest
          ∙ ap (λ (xs : List Effect). send_messages rd.messages ++ xs) eq
          ∙ ap
              (λ (xs : List Effect).
                xs ++ (map read_answered rd.read_states ++ applied_of rd.committed_entries))
              (send_messages-eq rd.messages),
      all,
    )

-- Whether there is something to save.
state-cases :
    (h : Option HardState)
    → ((is_empty_hard_state h ≡ true) × NoState h) ⊎ ((is_empty_hard_state h ≡ false) × ¬ NoState h)
state-cases none = inl (refl, tt)
state-cases (some h) = elim (Bool-cases (is_empty_hard_state (some h))) [
  | inl none_set ↦ inl (none_set, ground (arith, none_set))
  | inr some_set ↦ inr (some_set, λ n. absurd (ground (arith, some_set, n)))
]

must_save-cases :
    (rd : Ready)
    → ((must_save rd ≡ false) × NothingNew rd) ⊎ ((must_save rd ≡ true) × ¬ NothingNew rd)
must_save-cases rd = go rd.entries rd.hard_state
  where
    differs : (e : Entry) (es : List Entry) → e ∷ es ≡ [] → ⊥
    differs e es h = cc

    go :
        (es : List Entry) (h : Option HardState)
        → (((not (has_none es) || not (is_empty_hard_state h)) ≡ false) × ((es ≡ []) × NoState h))
          ⊎ (((not (has_none es) || not (is_empty_hard_state h)) ≡ true)
              × ¬ ((es ≡ []) × NoState h))
    go [] h = elim (state-cases h) [
      | inl (e, n) ↦ inl (rw e refl, (refl, n))
      | inr (e, d) ↦ inr (rw e refl, λ p. d p.1)
    ]
    go (e ∷ es) h = inr (refl, λ p. differs e es p.0)

-- Whatever a `Ready` asks for, whether the storage can save, and whenever the host is stopped: there
-- is something to save if the Ready has entries, or a hard state with a field that is not 0.
-- `handleBatch` returns an error exactly where there is something to save and that fails, and it has
-- then done nothing. Else what it has done is a beginning of this, in this order: save the entries
-- with the hard state, if there is something to save; send the messages, all at once, if there are
-- any; answer the reads, one by one; hand over the payloads of all committed entries, if there are
-- any, with the index of the last. It is all of this, unless the channels take no more values than
-- there are reads to answer.
pub handle_batch-order :
    (save_ok : Bool) (deliveries : ℕ) (rd : Ready)
    → (before rest : List Effect) × ((handle_batch save_ok deliveries rd).0 ++ rest
        ≡ before ++ asked rd)
      × ((NothingNew rd × (before ≡ []))
          ⊎ ((¬ NothingNew rd) × (before ≡ stored rd.entries rd.hard_state ∷ [])))
      × (((handle_batch save_ok deliveries rd).1 ≡ false) ↔ ((¬ NothingNew rd) × (save_ok ≡ false)))
      × (((handle_batch save_ok deliveries rd).1 ≡ false)
            × ((handle_batch save_ok deliveries rd).0 ≡ [])
          ⊎ ((handle_batch save_ok deliveries rd).1 ≡ true)
            × ((deliveries ≤ length rd.read_states) ⊎ (rest ≡ [])))
unfolding handle_batch
handle_batch-order save_ok deliveries rd = elim (must_save-cases rd) [
  | inl (nothing, none_new) ↦
      let (rest, eq, all) = after_save-prefix deliveries rd in
      rw nothing (
        [],
        rest,
        eq,
        inl (none_new, refl),
        (λ fails. absurd (true_ne fails), λ p. absurd (p.0 none_new)),
        inr (refl, all),
      )
  | inr (something, some_new) ↦ elim (Bool-cases save_ok) [
    | inr fails ↦
        rw (something, fails)
          (
            stored rd.entries rd.hard_state ∷ [],
            stored rd.entries rd.hard_state ∷ asked rd,
            refl,
            inr (some_new, refl),
            (λ _. (some_new, refl), λ _. refl),
            inl (refl, refl),
          )
    | inl saves ↦
        let (rest, eq, all) = after_save-prefix deliveries rd in
        rw (something, saves)
          (
            stored rd.entries rd.hard_state ∷ [],
            rest,
            ap (◌∷◌ (stored rd.entries rd.hard_state)) eq,
            inr (some_new, refl),
            (λ fails. absurd (true_ne fails), λ p. absurd (true_ne p.1)),
            inr (refl, all),
          )
  ]
]
  where
    true_ne : true ≡ false → ⊥
    true_ne h = cc
