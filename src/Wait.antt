-- ===== src/Wait.antt =====
-- The waiters of src/pkg/wait. A channel is a number; what is sent on it, or that it is closed, is
-- recorded in the state. A channel has room for one value, and a value is sent on it at most once, so
-- that no send blocks.
pub mod Deadlines
pub mod Histories
use kvgo.Common.{
  Bool, List, Option, [], erase, false, if◌then◌else◌, insert, leb, lookup, nat_eq, none, some,
  true, ℕ, ◌++◌, ◌+◌, ◌==◌, ◌||◌, ◌∷◌,
}

-- wait.go: the map of the waiters, and what was sent on the channels.
pub record WaitList (A : Type 0) : Type 0 where
  pub m : List (ℕ × ℕ)
  pub next_channel : ℕ
  pub sent : List (ℕ × A)

abbrev pub new_wait : {A : Type 0} → WaitList A
new_wait = record { m = []; next_channel = 0; sent = [] }

module _ {A : Type 0} where
  unfoldable pub register : ℕ → WaitList A → ℕ × WaitList A
  register id w = (
    w.next_channel,
    record w { m = insert id w.next_channel w.m; next_channel = w.next_channel + 1 },
  )

  abbrev pub send_to : Option ℕ → ℕ → A → WaitList A → WaitList A
  send_to none id x w = w
  send_to (some ch) id x w = record w { m = erase id w.m; sent = w.sent ++ (ch, x) ∷ [] }

  unfoldable pub trigger : ℕ → A → WaitList A → WaitList A
  trigger id x w = send_to (lookup id w.m) id x w

abbrev pub is_some : {A : Type 0} → Option A → Bool
is_some none = false
is_some (some a) = true

unfoldable pub is_registered : {A : Type 0} → ℕ → WaitList A → Bool
is_registered id w = is_some (lookup id w.m)

-- wait_time.go: a channel for each deadline that is waited for, and the channels that were closed.
pub record TimeList : Type 0 where
  pub last_trigger_deadline : ℕ
  pub m : List (ℕ × ℕ)
  pub next_channel : ℕ
  pub closed : List ℕ

abbrev pub new_time_list : TimeList
new_time_list = record { last_trigger_deadline = 0; m = []; next_channel = 0; closed = [] }

-- `ready` is the channel that is closed from the start.
pub data Waiting : Type 0 where
  ready : Waiting
  on : ℕ → Waiting

abbrev pub wait_on : Option ℕ → ℕ → TimeList → Waiting × TimeList
wait_on (some ch) deadline tl = (on ch, tl)
wait_on none deadline tl = (
  on tl.next_channel,
  record tl { m = insert deadline tl.next_channel tl.m; next_channel = tl.next_channel + 1 },
)

unfoldable pub wait : ℕ → TimeList → Waiting × TimeList
wait deadline tl =
    if leb deadline tl.last_trigger_deadline
    then (ready, tl)
    else wait_on (lookup deadline tl.m) deadline tl

-- The deadlines that stay, and the channels that are closed.
abbrev pub later : ℕ → List (ℕ × ℕ) → List (ℕ × ℕ)
later deadline [] = []
later deadline ((t, ch) ∷ m) =
    let rest = later deadline m in if leb t deadline then rest else (t, ch) ∷ rest

abbrev pub due : ℕ → List (ℕ × ℕ) → List ℕ
due deadline [] = []
due deadline ((t, ch) ∷ m) = let rest = due deadline m in if leb t deadline then ch ∷ rest else rest

unfoldable pub trigger_time : ℕ → TimeList → TimeList
trigger_time deadline tl = record tl {
  last_trigger_deadline = deadline;
  m = later deadline tl.m;
  closed = tl.closed ++ due deadline tl.m;
}

abbrev pub contains : ℕ → List ℕ → Bool
contains n [] = false
contains n (m ∷ ms) = (m == n) || contains n ms

-- Whether a read of the channel returns.
abbrev pub released : Waiting → TimeList → Bool
released ready tl = true
released (on ch) tl = contains ch tl.closed

unfoldable pub trigger_times : List ℕ → TimeList → TimeList
trigger_times [] tl = tl
trigger_times (d ∷ ds) tl = trigger_times ds (trigger_time d tl)
