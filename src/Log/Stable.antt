-- ===== src/Log/Stable.antt =====
-- `stableTo`: entries leave the unstable layer once the storage has them.
use kvgo.Common.{
  List, Option, add64-eq, ap, arith, drop, get_elem?, get_elem?-drop, get_elem?_above,
  get_elem?_below, if◌then◌else◌, inl, inr, length, length-drop, ltb, none, refl, ret, some, subst,
  ℕ, ◌+◌, ◌-◌, ◌<◌, ◌==◌, ◌≡◌, ◌≢◌, ◌≤◌, ◌⊎◌,
}
use native.Mathlib.Decide.{ℕ_discrete}
use kvgo.Pb.{Entry}
use kvgo.Log.Interface.{Storage}
use kvgo.Log.LogUnstable.{Unstable, int_limit, term_of, stable_to}
use kvgo.Log.View.{Contiguous, Contiguous-drop, log_at, IsWellFormed}
use kvgo.Log.{RaftLog, log_stable_to}

-- `u` without its entries up to `i`, if its entry at `i` is of the term `t`.
abbrev pub stabilized : Option ℕ → ℕ → ℕ → Unstable → Unstable
stabilized none i t u = u
stabilized (some t') i t u =
    if t' == t then record { entries = drop (i - u.offset + 1) u.entries; offset = i + 1 } else u

abbrev pub unstable_term : ℕ → Unstable → Option ℕ
unstable_term i u = if ltb i u.offset then none else term_of (get_elem? u.entries (i - u.offset))

pub stable_to-eq :
    (i t : ℕ) (u : Unstable)
    → i < int_limit
    → stable_to i t u ≡ ret (stabilized (unstable_term i u) i t u)
unfolding stable_to
stable_to-eq i t u h = ground (
  arith,
  add64-eq i 1,
  get_elem?_above u.entries (i - u.offset),
  get_elem?_below u.entries (i - u.offset),
)

-- Where the unstable layer has an entry at `i`, `i` lies in it.
unstable_term-range :
    (i t : ℕ) (u : Unstable)
    → unstable_term i u ≡ some t
    → (u.offset ≤ i) × (i < u.offset + length u.entries)
unstable_term-range i t u h = ground (arith, get_elem?_above u.entries (i - u.offset))

term-cases : (o : Option ℕ) (t : ℕ) → (o ≡ some t) ⊎ (o ≢ some t)
term-cases none t = inr (λ e. cc)
term-cases (some t') t = elim (ℕ_discrete t' t) [
  | yes e ↦ inl (ap some e)
  | no d ↦ inr (λ e. d (ground arith))
]

moved_index :
    (xs : List Entry) (off i j : ℕ)
    → off ≤ i
    → i < j
    → get_elem? xs (i - off + 1 + (j - (i + 1))) ≡ get_elem? xs (j - off)
moved_index xs off i j h k = ap (get_elem? xs) (omega arith)

module _ {S : Type 0} ⦃st : Storage S⦄ where
  module _ (l : RaftLog S) (view : ℕ → Option Entry) (w : IsWellFormed st l view) (i t : ℕ)
      (small : i < int_limit)
      (saved : unstable_term i l.unstable ≡ some t
        → (st.last_index l.storage ≡ i)
          × ((j : ℕ) → l.unstable.offset ≤ j → j ≤ i → view j ≡ log_at l view j)) where
    Stabilizes : RaftLog S → Type 0
    Stabilizes l' =
        IsWellFormed st l' view
        × ((j : ℕ) → log_at l' view j ≡ log_at l view j)
        × (unstable_term i l.unstable ≡ some t → l'.unstable.offset ≡ i + 1)

    dropped-Stabilizes :
        unstable_term i l.unstable ≡ some t
        → Stabilizes (record l {
          unstable = record {
            entries = drop (i - l.unstable.offset + 1) l.unstable.entries;
            offset = i + 1;
          };
        })
    unfolding Stabilizes
    dropped-Stabilizes e =
        let range = unstable_term-range i t l.unstable e in
        let len = length-drop (i - l.unstable.offset + 1) l.unstable.entries in
        (
          record {
            reads = w.reads;
            contiguous =
                subst (λ n. Contiguous n (drop (i - l.unstable.offset + 1) l.unstable.entries))
                  (omega arith)
                  (Contiguous-drop l.unstable.offset (i - l.unstable.offset + 1) l.unstable.entries
                    w.contiguous);
            fits = omega (arith, w.fits);
            joined = omega (arith, (saved e).0);
            tail = λ _. omega (arith, (saved e).0);
            first_le = w.first_le;
            offset_pos = omega arith;
            applied_le = w.applied_le;
            committed_le = omega (arith, w.committed_le);
          },
          λ j. ground (
            arith,
            (saved e).1 j,
            range,
            get_elem?-drop (i - l.unstable.offset + 1) l.unstable.entries (j - (i + 1)),
            moved_index l.unstable.entries l.unstable.offset i j,
          ),
          λ _. refl,
        )

    -- Let a well-formed log's storage have just saved entries up to `i`, an index below 2 ^ 63, the
    -- same ones as the unstable layer has up to there, whenever the unstable layer's entry at `i` is
    -- of the term `t`. Then marking `i` of term `t` as stable returns, and keeps the log well-formed
    -- and every entry of it, those appended since the save included. The unstable layer starts after
    -- `i` if its entry at `i` was of that term, and the log is unchanged otherwise.
    pub log_stable_to_lem :
        (l' : RaftLog S) × (log_stable_to i t l ≡ ret l')
        × IsWellFormed st l' view
        × ((j : ℕ) → log_at l' view j ≡ log_at l view j)
        × (unstable_term i l.unstable ≡ some t → l'.unstable.offset ≡ i + 1)
        × (unstable_term i l.unstable ≢ some t → l' ≡ l)
    unfolding log_stable_to Stabilizes
    log_stable_to_lem = elim (term-cases (unstable_term i l.unstable) t) [
      | inl e ↦
          let (wf, kept, moved) = dropped-Stabilizes e in
          (_, ground (arith, stable_to-eq i t l.unstable small), wf, kept, moved, λ d. absurd (d e))
      | inr d ↦ (
        l,
        ground (arith, stable_to-eq i t l.unstable small),
        w,
        λ j. refl,
        λ e. absurd (d e),
        λ _. refl,
      )
    ]
