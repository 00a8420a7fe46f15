-- ===== src/Log/View.antt =====
-- The log that the two layers stand for: at each index, the entry that is there.
use kvgo.Common.{
  List, Option, [], arith, drop, get_elem?, get_last?, if◌then◌else◌, length, ltb, refl, some,
  subst, suc, take, u64_mod, zero, ℕ, ◌++◌, ◌+◌, ◌-◌, ◌<◌, ◌∷◌, ◌≡◌, ◌≤◌,
}
use kvgo.Pb.{Entry}
use kvgo.Log.Interface.{Storage, Reads}
use kvgo.Log.LogUnstable.{maybe_last_index, index_of}
use kvgo.Log.{RaftLog, last_index, last_or}

-- The entries stand at the indexes from `n` on, one after the other.
abbrev pub Contiguous : ℕ → List Entry → Type 0
Contiguous n [] = Unit {0}
Contiguous n (e ∷ es) = (e.index ≡ n) × Contiguous (suc n) es

pub Contiguous-append :
    (n : ℕ) (xs ys : List Entry)
    → Contiguous n xs
    → Contiguous (n + length xs) ys
    → Contiguous n (xs ++ ys)
Contiguous-append n [] ys h k = subst (λ m. Contiguous m ys) (omega arith) k
Contiguous-append n (x ∷ xs) ys h k =
    (h.0, Contiguous-append (suc n) xs ys h.1 (subst (λ m. Contiguous m ys) (omega arith) k))

pub Contiguous-take : (n k : ℕ) (xs : List Entry) → Contiguous n xs → Contiguous n (take k xs)
Contiguous-take n zero xs h = tt
Contiguous-take n (suc k) [] h = tt
Contiguous-take n (suc k) (x ∷ xs) h = (h.0, Contiguous-take (suc n) k xs h.1)

pub Contiguous-drop : (n k : ℕ) (xs : List Entry) → Contiguous n xs → Contiguous (n + k) (drop k xs)
Contiguous-drop n zero xs h = subst (λ m. Contiguous m xs) (omega arith) h
Contiguous-drop n (suc k) [] h = tt
Contiguous-drop n (suc k) (x ∷ xs) h =
    subst (λ m. Contiguous m (drop k xs)) (omega arith) (Contiguous-drop (suc n) k xs h.1)

pub Contiguous-index :
    (n : ℕ) (xs : List Entry) (i : ℕ) (e : Entry)
    → Contiguous n xs
    → get_elem? xs i ≡ some e
    → e.index ≡ n + i
Contiguous-index n [] i e h k = cc
Contiguous-index n (x ∷ xs) zero e h k = ground arith
Contiguous-index n (x ∷ xs) (suc i) e h k = omega (arith, Contiguous-index (suc n) xs i e h.1 k)

pub Contiguous-last :
    (n : ℕ) (x : Entry) (xs : List Entry)
    → Contiguous n (x ∷ xs)
    → (e : Entry) × (get_last? (x ∷ xs) ≡ some e) × (e.index ≡ n + length xs)
Contiguous-last n x [] h = (x, refl, omega arith)
Contiguous-last n x (y ∷ ys) h =
    let (e, last, at) = Contiguous-last (suc n) y ys h.1 in (e, last, omega arith)

-- The entry at an index: the unstable entries cover those of the storage from their offset on.
abbrev pub log_at : {S : Type 0} → RaftLog S → (ℕ → Option Entry) → ℕ → Option Entry
log_at l view i =
    if ltb i l.unstable.offset then view i else get_elem? l.unstable.entries (i - l.unstable.offset)

-- Of the log alone: the unstable entries join the storage and leave no gap, and
-- applied <= committed <= last index.
pub record IsWellFormed {S : Type 0} (st : Storage S) (l : RaftLog S) (view : ℕ → Option Entry)
    : Type 0 where
  pub reads : Reads st l.storage view
  pub contiguous : Contiguous l.unstable.offset l.unstable.entries
  pub fits : l.unstable.offset + length l.unstable.entries < u64_mod
  pub joined : l.unstable.offset ≤ st.last_index l.storage + 1
  pub tail : l.unstable.entries ≡ [] → l.unstable.offset ≡ st.last_index l.storage + 1
  pub first_le : st.first_index l.storage ≤ l.committed + 1
  pub offset_pos : 0 < l.unstable.offset
  pub applied_le : l.applied ≤ l.committed
  pub committed_le : l.committed < l.unstable.offset + length l.unstable.entries

last_or-entries :
    (stored n : ℕ) (es : List Entry)
    → Contiguous n es
    → (es ≡ [] → n ≡ stored + 1)
    → last_or stored (index_of (get_last? es)) + 1 ≡ n + length es
last_or-entries stored n [] c t = omega (arith, t refl)
last_or-entries stored n (e ∷ es) c t =
    let (last, found, at) = Contiguous-last n e es c in rw found (omega arith)

module _ {S : Type 0} ⦃st : Storage S⦄ where
  -- The last index is that of the two layers together.
  pub last_index_lem :
      (l : RaftLog S) (view : ℕ → Option Entry)
      → IsWellFormed st l view
      → last_index l + 1 ≡ l.unstable.offset + length l.unstable.entries
  unfolding last_index maybe_last_index
  last_index_lem l view w =
      last_or-entries (st.last_index l.storage) l.unstable.offset l.unstable.entries w.contiguous
        w.tail
