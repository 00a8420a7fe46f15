-- ===== src/Wait/Histories.antt =====
-- Waits and triggers in any order.
use kvgo.Common.{
  All-append, ==_iff, All, Bool-cases, List, Option, [], ap, arith, false, if_rule, inl, inr, leb,
  lookup, lookup-insert, nat_eq, none, refl, some, subst, sym, ℕ, ◌+◌, ◌<◌, ◌==◌, ◌||◌, ◌∙◌, ◌∷◌,
  ◌≡◌,
}
use kvgo.Wait.{
  TimeList, Waiting, wait_on, wait, later, due, trigger_time, trigger_times, released,
  new_time_list,
}
use kvgo.Wait.Deadlines.{
  IsSound, IsWaiting, reaches, trigger_time-IsWaiting, IsWaiting-fresh, wait-released, All-insert,
  All-wider, All-closed_wider, lookup-below, IsOwn-insert, later-lookup,
}

pub data Step : Type 0 where
  waited triggered : ℕ → Step

abbrev pub take_step : Step → TimeList → TimeList
take_step (waited deadline) tl = (wait deadline tl).1
take_step (triggered deadline) tl = trigger_time deadline tl

-- The list after these steps, the first of them first.
abbrev pub history : List Step → TimeList → TimeList
history [] tl = tl
history (s ∷ steps) tl = history steps (take_step s tl)

-- The deadline of the last trigger, or else `last`.
abbrev pub last_trigger : List Step → ℕ → ℕ
last_trigger [] last = last
last_trigger (waited deadline ∷ steps) last = last_trigger steps last
last_trigger (triggered deadline ∷ steps) last = last_trigger steps deadline

wait_on-IsSound :
    (o : Option ℕ) (deadline : ℕ) (tl : TimeList)
    → lookup deadline tl.m ≡ o
    → IsSound tl
    → IsSound (wait_on o deadline tl).1
wait_on-IsSound (some ch) deadline tl e s = s
wait_on-IsSound none deadline tl e s = record {
  channels_below =
      All-insert (tl.next_channel + 1) deadline tl.next_channel tl.m (omega arith)
        (All-wider tl.next_channel tl.m s.channels_below);
  closed_below = All-closed_wider tl.next_channel tl.closed s.closed_below;
  own = λ j c h. elim (Bool-cases (deadline == j)) [
    | inl same ↦
        let is_j : deadline ≡ j = (==_iff deadline j).0 same in
        let inserted = rw (lookup-insert deadline j tl.next_channel tl.m, same) at h in
        let is_c : tl.next_channel ≡ c = cc in
        subst (λ (x : ℕ). IsWaiting x c (wait_on none deadline tl).1) is_j
          (subst (λ (y : ℕ). IsWaiting deadline y (wait_on none deadline tl).1) is_c
            (IsWaiting-fresh deadline tl s e))
    | inr other ↦
        let before = rw (lookup-insert deadline j tl.next_channel tl.m, other) at h in
        let (_, own, open_lem) = s.own j c before in
        (
          h,
          IsOwn-insert deadline j c tl.next_channel tl.m other
              (lookup-below tl.next_channel j c tl.m s.channels_below before) own,
          open_lem,
        )
  ];
}

wait-IsSound : (deadline : ℕ) (tl : TimeList) → IsSound tl → IsSound (wait deadline tl).1
unfolding wait
wait-IsSound deadline tl s =
    if_rule (λ (p : Waiting × TimeList). IsSound p.1) (leb deadline tl.last_trigger_deadline)
      (Waiting.ready, tl) (wait_on (lookup deadline tl.m) deadline tl) (λ _. s)
      (λ _. wait_on-IsSound (lookup deadline tl.m) deadline tl refl s)

later-late : (d j c : ℕ) (m : List (ℕ × ℕ)) → lookup j (later d m) ≡ some c → leb j d ≡ false
later-late d j c [] h = cc
later-late d j c ((t, ch) ∷ m) h = ground (arith, later-late d j c m)

later-below :
    (limit d : ℕ) (m : List (ℕ × ℕ))
    → All (λ (p : ℕ × ℕ). p.1 < limit) m
    → All (λ (p : ℕ × ℕ). p.1 < limit) (later d m)
later-below limit d [] h = tt
later-below limit d ((t, c) ∷ m) h =
    if_rule (All (λ (p : ℕ × ℕ). p.1 < limit)) (leb t d) (later d m) ((t, c) ∷ later d m)
      (λ _. later-below limit d m h.1) (λ _. (h.0, later-below limit d m h.1))

due-below :
    (limit d : ℕ) (m : List (ℕ × ℕ))
    → All (λ (p : ℕ × ℕ). p.1 < limit) m
    → All (λ (c : ℕ). c < limit) (due d m)
due-below limit d [] h = tt
due-below limit d ((t, c) ∷ m) h =
    if_rule (All (λ (x : ℕ). x < limit)) (leb t d) (c ∷ due d m) (due d m)
      (λ _. (h.0, due-below limit d m h.1)) (λ _. due-below limit d m h.1)

trigger_time-IsSound : (d : ℕ) (tl : TimeList) → IsSound tl → IsSound (trigger_time d tl)
unfolding trigger_time
trigger_time-IsSound d tl s = record {
  channels_below = later-below tl.next_channel d tl.m s.channels_below;
  closed_below =
      All-append (λ (c : ℕ). c < tl.next_channel) tl.closed (due d tl.m) s.closed_below
        (due-below tl.next_channel d tl.m s.channels_below);
  own = λ j c h.
      let late = later-late d j c tl.m h in
      trigger_time-IsWaiting d j c tl late (s.own j c (sym (later-lookup d j tl.m late) ∙ h));
}

history-IsSound : (steps : List Step) (tl : TimeList) → IsSound tl → IsSound (history steps tl)
history-IsSound [] tl s = s
history-IsSound (waited d ∷ steps) tl s = history-IsSound steps (wait d tl).1 (wait-IsSound d tl s)
history-IsSound (triggered d ∷ steps) tl s =
    history-IsSound steps (trigger_time d tl) (trigger_time-IsSound d tl s)

new_time_list-IsSound : IsSound new_time_list
new_time_list-IsSound = record {
  channels_below = tt;
  closed_below = tt;
  own = λ j c h. absurd (differs c h);
}
  where
    differs : (c : ℕ) → none ≡ some c → ⊥
    differs c h = cc

wait-last : (d : ℕ) (tl : TimeList) → (wait d tl).1.last_trigger_deadline ≡ tl.last_trigger_deadline
unfolding wait
wait-last d tl =
    if_rule (λ (p : Waiting × TimeList). p.1.last_trigger_deadline ≡ tl.last_trigger_deadline)
      (leb d tl.last_trigger_deadline) (Waiting.ready, tl) (wait_on (lookup d tl.m) d tl)
      (λ _. refl) (λ _. go (lookup d tl.m))
  where
    go : (o : Option ℕ) → (wait_on o d tl).1.last_trigger_deadline ≡ tl.last_trigger_deadline
    go none = refl
    go (some ch) = refl

history-last :
    (steps : List Step) (tl : TimeList)
    → (history steps tl).last_trigger_deadline ≡ last_trigger steps tl.last_trigger_deadline
unfolding trigger_time
history-last [] tl = refl
history-last (waited d ∷ steps) tl =
    history-last steps (wait d tl).1 ∙ ap (last_trigger steps) (wait-last d tl)
history-last (triggered d ∷ steps) tl = history-last steps (trigger_time d tl)

-- Whatever was waited for and triggered before, on a list that was new: one that then waits for a
-- deadline is released after some more triggers exactly when the last trigger before the wait, or one
-- of those after it, is at or past the deadline.
pub history-wait :
    (steps : List Step) (deadline : ℕ) (ds : List ℕ)
    → let tl = history steps new_time_list in
      released (wait deadline tl).0 (trigger_times ds (wait deadline tl).1)
      ≡ (leb deadline (last_trigger steps 0) || reaches deadline ds)
history-wait steps deadline ds =
    let tl = history steps new_time_list in
    wait-released ds deadline tl (history-IsSound steps new_time_list new_time_list-IsSound)
    ∙ ap (λ (n : ℕ). leb deadline n || reaches deadline ds) (history-last steps new_time_list)
