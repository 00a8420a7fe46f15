-- ===== src/Wait/Deadlines.antt =====
-- When those that wait for a deadline are released.
use kvgo.Common.{
  ==_iff, All, Bool, Bool-cases, List, Option, [], arith, false, if_rule, inl, inr, insert, leb,
  lookup, lookup-insert, nat_eq, none, refl, some, true, ℕ, ◌++◌, ◌+◌, ◌<◌, ◌==◌, ◌||◌, ◌∙◌, ◌∷◌,
  ◌≡◌,
}
use kvgo.Wait.{TimeList, wait_on, wait, later, due, trigger_time, contains, released, trigger_times}

-- No other deadline has the channel.
abbrev pub IsOwn : ℕ → ℕ → List (ℕ × ℕ) → Type 0
IsOwn deadline ch [] = Unit {0}
IsOwn deadline ch ((t, c) ∷ m) = ((c == ch) ≡ (t == deadline)) × IsOwn deadline ch m

-- The channel waits for the deadline.
abbrev pub IsWaiting : ℕ → ℕ → TimeList → Type 0
IsWaiting deadline ch tl =
    (lookup deadline tl.m ≡ some ch) × IsOwn deadline ch tl.m × (contains ch tl.closed ≡ false)

-- Whether one of the deadlines is late enough.
abbrev pub reaches : ℕ → List ℕ → Bool
reaches deadline [] = false
reaches deadline (d ∷ ds) = leb deadline d || reaches deadline ds

contains-append :
    (n : ℕ) (xs ys : List ℕ) → contains n (xs ++ ys) ≡ (contains n xs || contains n ys)
contains-append n [] ys = refl
contains-append n (x ∷ xs) ys = ground (arith, contains-append n xs ys)

-- A trigger closes the channel of a deadline that is due, and of no other.
due-early :
    (d deadline ch : ℕ) (m : List (ℕ × ℕ))
    → leb deadline d ≡ true
    → lookup deadline m ≡ some ch
    → IsOwn deadline ch m
    → contains ch (due d m) ≡ true
due-early d deadline ch [] e h own = cc
due-early d deadline ch ((t, c) ∷ m) e h own = ground (arith, due-early d deadline ch m e)

due-late :
    (d deadline ch : ℕ) (m : List (ℕ × ℕ))
    → leb deadline d ≡ false
    → IsOwn deadline ch m
    → contains ch (due d m) ≡ false
due-late d deadline ch [] e own = refl
due-late d deadline ch ((t, c) ∷ m) e own = ground (arith, due-late d deadline ch m e)

pub later-lookup :
    (d deadline : ℕ) (m : List (ℕ × ℕ))
    → leb deadline d ≡ false
    → lookup deadline (later d m) ≡ lookup deadline m
later-lookup d deadline [] h = refl
later-lookup d deadline ((t, ch) ∷ m) h = ground (arith, later-lookup d deadline m h)

later-IsOwn :
    (d deadline ch : ℕ) (m : List (ℕ × ℕ)) → IsOwn deadline ch m → IsOwn deadline ch (later d m)
later-IsOwn d deadline ch [] h = tt
later-IsOwn d deadline ch ((t, c) ∷ m) h =
    if_rule (IsOwn deadline ch) (leb t d) (later d m) ((t, c) ∷ later d m)
      (λ _. later-IsOwn d deadline ch m h.1) (λ _. (h.0, later-IsOwn d deadline ch m h.1))

-- What is closed stays closed.
trigger_times-closed :
    (ds : List ℕ) (ch : ℕ) (tl : TimeList)
    → contains ch tl.closed ≡ true
    → contains ch (trigger_times ds tl).closed ≡ true
unfolding trigger_times trigger_time
trigger_times-closed [] ch tl h = h
trigger_times-closed (d ∷ ds) ch tl h =
    trigger_times-closed ds ch (trigger_time d tl)
      (contains-append ch tl.closed (due d tl.m) ∙ rw h refl)

pub trigger_time-IsWaiting :
    (d deadline ch : ℕ) (tl : TimeList)
    → leb deadline d ≡ false
    → IsWaiting deadline ch tl
    → IsWaiting deadline ch (trigger_time d tl)
unfolding trigger_time
trigger_time-IsWaiting d deadline ch tl e h = (
  later-lookup d deadline tl.m e ∙ h.0,
  later-IsOwn d deadline ch tl.m h.1,
  contains-append ch tl.closed (due d tl.m) ∙ rw (h.2, due-late d deadline ch tl.m e h.1) refl,
)

waiting-released :
    (ds : List ℕ) (deadline ch : ℕ) (tl : TimeList)
    → IsWaiting deadline ch tl
    → contains ch (trigger_times ds tl).closed ≡ reaches deadline ds
unfolding trigger_times
waiting-released [] deadline ch tl h = h.2
waiting-released (d ∷ ds) deadline ch tl h = elim (Bool-cases (leb deadline d)) [
  | inl early ↦ rw early (
      trigger_times-closed ds ch (trigger_time d tl) (
        unfold trigger_time in
        (contains-append ch tl.closed (due d tl.m)
          ∙ rw (h.2, due-early d deadline ch tl.m early h.0 h.1) refl)))
  | inr late ↦ rw late (
      waiting-released ds deadline ch (trigger_time d tl)
        (trigger_time-IsWaiting d deadline ch tl late h))
]

-- The channels of a list are numbered below the next one, each is of one deadline only, and those of
-- the deadlines are open.
pub record IsSound (tl : TimeList) : Type 0 where
  pub channels_below : All (λ (p : ℕ × ℕ). p.1 < tl.next_channel) tl.m
  pub closed_below : All (λ (c : ℕ). c < tl.next_channel) tl.closed
  pub own : (deadline ch : ℕ) → lookup deadline tl.m ≡ some ch → IsWaiting deadline ch tl

fresh-IsOwn :
    (deadline ch : ℕ) (m : List (ℕ × ℕ))
    → All (λ (p : ℕ × ℕ). p.1 < ch) m
    → lookup deadline m ≡ none
    → IsOwn deadline ch (insert deadline ch m)
fresh-IsOwn deadline ch [] h e = ground arith
fresh-IsOwn deadline ch ((t, c) ∷ m) h e = elim (Bool-cases (t == deadline)) [
  | inl same ↦ absurd (differs (rw same at e))
  | inr other ↦ rw other (ground (arith, h.0), fresh-IsOwn deadline ch m h.1 (rw other at e))
]
  where
    differs : some c ≡ none → ⊥
    differs q = cc

fresh-closed : (ch : ℕ) (cs : List ℕ) → All (λ (c : ℕ). c < ch) cs → contains ch cs ≡ false
fresh-closed ch [] h = refl
fresh-closed ch (c ∷ cs) h = ground (arith, fresh-closed ch cs h.1)

pub IsWaiting-fresh :
    (deadline : ℕ) (tl : TimeList)
    → IsSound tl
    → lookup deadline tl.m ≡ none
    → IsWaiting deadline tl.next_channel (wait_on none deadline tl).1
IsWaiting-fresh deadline tl s e = (
  rw (lookup-insert deadline deadline tl.next_channel tl.m, (==_iff deadline deadline).1 refl) refl,
  fresh-IsOwn deadline tl.next_channel tl.m s.channels_below e,
  fresh-closed tl.next_channel tl.closed s.closed_below,
)

-- A waiter is released at once if the last trigger was late enough, and else by the first later one
-- that is.
pub wait-released :
    (ds : List ℕ) (deadline : ℕ) (tl : TimeList)
    → IsSound tl
    → released (wait deadline tl).0 (trigger_times ds (wait deadline tl).1)
      ≡ (leb deadline tl.last_trigger_deadline || reaches deadline ds)
unfolding wait
wait-released ds deadline tl s = elim (Bool-cases (leb deadline tl.last_trigger_deadline)) [
  | inl passed ↦ rw passed refl
  | inr ahead ↦ rw ahead (go (lookup deadline tl.m) refl)
]
  where
    go :
        (o : Option ℕ)
        → lookup deadline tl.m ≡ o
        → released (wait_on o deadline tl).0 (trigger_times ds (wait_on o deadline tl).1)
          ≡ reaches deadline ds
    go none e =
        waiting-released ds deadline tl.next_channel (wait_on none deadline tl).1
          (IsWaiting-fresh deadline tl s e)
    go (some ch) e = waiting-released ds deadline ch tl (s.own deadline ch e)

pub All-insert :
    (limit deadline ch : ℕ) (m : List (ℕ × ℕ))
    → ch < limit
    → All (λ (p : ℕ × ℕ). p.1 < limit) m
    → All (λ (p : ℕ × ℕ). p.1 < limit) (insert deadline ch m)
All-insert limit deadline ch [] h k = (h, tt)
All-insert limit deadline ch ((t, c) ∷ m) h k =
    if_rule (All (λ (p : ℕ × ℕ). p.1 < limit)) (t == deadline) ((t, ch) ∷ m)
      ((t, c) ∷ insert deadline ch m) (λ _. (h, k.1))
      (λ _. (k.0, All-insert limit deadline ch m h k.1))

pub All-wider :
    (limit : ℕ) (m : List (ℕ × ℕ))
    → All (λ (p : ℕ × ℕ). p.1 < limit) m
    → All (λ (p : ℕ × ℕ). p.1 < limit + 1) m
All-wider limit [] h = tt
All-wider limit (p ∷ m) h = (omega (arith, h.0), All-wider limit m h.1)

pub All-closed_wider :
    (limit : ℕ) (cs : List ℕ) → All (λ (c : ℕ). c < limit) cs → All (λ (c : ℕ). c < limit + 1) cs
All-closed_wider limit [] h = tt
All-closed_wider limit (c ∷ cs) h = (omega (arith, h.0), All-closed_wider limit cs h.1)

pub lookup-below :
    (limit deadline ch : ℕ) (m : List (ℕ × ℕ))
    → All (λ (p : ℕ × ℕ). p.1 < limit) m
    → lookup deadline m ≡ some ch
    → ch < limit
lookup-below limit deadline ch [] h e = cc
lookup-below limit deadline ch ((t, c) ∷ m) h e =
    ground (arith, lookup-below limit deadline ch m h.1)

pub IsOwn-insert :
    (deadline j c ch : ℕ) (m : List (ℕ × ℕ))
    → (deadline == j) ≡ false
    → c < ch
    → IsOwn j c m
    → IsOwn j c (insert deadline ch m)
IsOwn-insert deadline j c ch [] other below own = ground arith
IsOwn-insert deadline j c ch ((t, d) ∷ m) other below own =
    if_rule (IsOwn j c) (t == deadline) ((t, ch) ∷ m) ((t, d) ∷ insert deadline ch m)
      (λ same. (ground arith, own.1))
      (λ _. (own.0, IsOwn-insert deadline j c ch m other below own.1))
