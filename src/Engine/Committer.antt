-- ===== src/Engine/Committer.antt =====
-- The loop of src/engine/group_committer.go: a turn for each case of its select. The request channel
-- is a queue. A flush whose write fails panics, and the loop ends; the deferred function then reports
-- a fatal error. `sent` and `batches` record what was put into the channel and handed to `flush`.
use kvgo.Common.{
  Bool, List, Option, [], false, if◌then◌else◌, leb, length, none, not, true, ℕ, ◌++◌, ◌∷◌, ◌||◌,
}
use kvgo.Engine.Shard.{Shard, WriteRequest, Flushed, flushed, flush}

abbrev pub sync_batch_size : ℕ
sync_batch_size = 100

-- The capacity of the request channel.
abbrev pub channel_size : ℕ
channel_size = 200

-- How far the writes of the next flushes get: the bytes that reach the two files where a write fails.
abbrev pub Failures : Type 0
Failures = List (Option ℕ × Option ℕ)

pub record Committer : Type 0 where
  pub shard : Shard
  pub buf : List WriteRequest
  pub queue : List WriteRequest
  pub fatal : Bool
  pub stopped : Bool
  pub failures : Failures
  pub sent : List WriteRequest
  pub batches : List (List WriteRequest)

unfoldable pub new_group_committer : Shard → Failures → Committer
new_group_committer s failures = record {
  shard = s;
  buf = [];
  queue = [];
  fatal = false;
  stopped = false;
  failures = failures;
  sent = [];
  batches = [];
}

abbrev pub is_flushed : Flushed → Bool
is_flushed flushed = true
is_flushed _ = false

-- Past the end of the list no write fails.
abbrev pub next_failure : Failures → Option ℕ × Option ℕ
next_failure [] = (none, none)
next_failure (f ∷ fs) = f

abbrev pub later_failures : Failures → Failures
later_failures [] = []
later_failures (f ∷ fs) = fs

-- After a panic the loop never looks at the buffer again.
unfoldable pub flush_buf : Committer → Committer
flush_buf c =
    let f = next_failure c.failures in
    let (s, result) = flush f.0 f.1 c.buf c.shard in
    record c {
      shard = s;
      buf = [];
      fatal = not (is_flushed result);
      failures = later_failures c.failures;
      batches = c.batches ++ c.buf ∷ [];
    }

unfoldable pub append_to_batch : WriteRequest → Committer → Committer
append_to_batch r c =
    let c1 = record c { buf = c.buf ++ r ∷ [] } in
    if leb sync_batch_size (length c1.buf) then flush_buf c1 else c1

abbrev pub is_nil : List WriteRequest → Bool
is_nil [] = true
is_nil (r ∷ rs) = false

unfoldable pub flush_buffered : Committer → Committer
flush_buffered c = if is_nil c.buf then c else flush_buf c

-- `drainReqCh`, and `drainAllForShutdown` but for the compactions that it refuses. A panic ends it.
unfoldable pub drain : List WriteRequest → Committer → Committer
drain [] c = flush_buffered c
drain (r ∷ rs) c =
    let next = append_to_batch r (record c { queue = rs }) in
    let rest = drain rs next in if next.fatal then next else rest

pub data Turn : Type 0 where
  enqueue : WriteRequest → Turn
  receive tick stop : Turn
  compact : (Shard → Shard) → Turn

abbrev pub receive_from : List WriteRequest → Committer → Committer
receive_from [] c = c
receive_from (r ∷ rs) c = append_to_batch r (record c { queue = rs })

-- A sender waits while the channel is full.
abbrev pub enqueue_to : WriteRequest → Committer → Committer
enqueue_to r c =
    if leb channel_size (length c.queue)
    then c
    else record c { queue = c.queue ++ r ∷ []; sent = c.sent ++ r ∷ [] }

abbrev pub compact_after : (Shard → Shard) → Committer → Committer
compact_after work c = if c.fatal then c else record c { shard = work c.shard }

abbrev pub take_turn : Turn → Committer → Committer
take_turn (enqueue r) c = enqueue_to r c
take_turn receive c = receive_from c.queue c
take_turn tick c = flush_buffered c
take_turn (compact work) c = compact_after work (drain c.queue c)
take_turn stop c = record (drain c.queue c) { stopped = true }

-- Nothing happens once the loop has ended.
unfoldable pub turn : Turn → Committer → Committer
turn t c = if c.fatal || c.stopped then c else take_turn t c

unfoldable pub run : List Turn → Committer → Committer
run [] c = c
run (t ∷ ts) c = run ts (turn t c)
