-- ===== src/Engine/Flushes.antt =====
-- Batches of writes that are flushed one after the other.
use kvgo.Common.{
  All, List, [], ap, arith, length, length-append, none, refl, subst, sym, true, u64_mod, ℕ, ◌++◌,
  ◌+◌, ◌<◌, ◌∷◌, ◌≡◌,
}
use mathlib.Core.List.{append_assoc, append-nil}
use kvgo.Engine.Shard.{Shard, new_shard, get, WriteRequest, batch_values, flush}
use kvgo.Engine.Placing.{Puts, last_put, puts_of}
use kvgo.Engine.Durability.{
  IsStored, IsLoaded, answer, AllWait, IsSized, flush-IsStored, flush-IsLoaded, flush-value_offset,
}
use kvgo.Engine.Restart.{get-IsLoaded, restarted, restarted-get}

abbrev pub flush_all : List (List WriteRequest) → Shard → Shard
flush_all [] s = s
flush_all (rs ∷ batches) s = flush_all batches (flush none none rs s).0

abbrev pub all_requests : List (List WriteRequest) → List WriteRequest
all_requests [] = []
all_requests (rs ∷ batches) = rs ++ all_requests batches

-- All callers wait, and the sizes fit.
abbrev pub IsBatch : List WriteRequest → Type 0
IsBatch rs = AllWait rs × All IsSized rs

puts_of-append : (rs qs : List WriteRequest) → puts_of (rs ++ qs) ≡ puts_of rs ++ puts_of qs
puts_of-append [] qs = refl
puts_of-append (r ∷ rs) qs = ap (◌∷◌ (r.key, r.bytes)) (puts_of-append rs qs)

length-batch_values-append :
    (rs qs : List WriteRequest)
    → length (batch_values (rs ++ qs)) ≡ length (batch_values rs) + length (batch_values qs)
unfolding batch_values
length-batch_values-append [] qs = omega arith
length-batch_values-append (r ∷ rs) qs = omega (
  arith,
  length-batch_values-append rs qs,
  length-append r.bytes (batch_values (rs ++ qs)),
  length-append r.bytes (batch_values rs),
)

flush_all-keeps :
    (batches : List (List WriteRequest)) (s : Shard) (puts : Puts)
    → IsStored s puts
    → IsLoaded s puts
    → All IsBatch batches
    → s.value_offset + length (batch_values (all_requests batches)) < u64_mod
    → IsStored (flush_all batches s) (puts ++ puts_of (all_requests batches))
      × IsLoaded (flush_all batches s) (puts ++ puts_of (all_requests batches))
flush_all-keeps [] s puts h l b fits =
    let same = sym (append-nil puts) in (subst (IsStored s) same h, subst (IsLoaded s) same l)
flush_all-keeps (rs ∷ batches) s puts h l b fits =
    let len = length-batch_values-append rs (all_requests batches) in
    rw
      (
        puts_of-append rs (all_requests batches),
        ← append_assoc puts (puts_of rs) (puts_of (all_requests batches)),
      )
      (flush_all-keeps batches (flush none none rs s).0 (puts ++ puts_of rs)
        (flush-IsStored rs s puts h b.0.0 b.0.1 (omega (arith, fits, len)))
        (flush-IsLoaded rs s puts l b.0.0) b.1
        (omega (arith, fits, len, flush-value_offset rs s b.0.0)))

new_shard-IsStored : IsStored (new_shard [] []) []
unfolding new_shard kvgo.Engine.Index.new_engine_wal
new_shard-IsStored = record {
  ies = [];
  index_lem = refl;
  small = tt;
  places = tt;
  offset_lem = refl;
}

new_shard-IsLoaded : IsLoaded (new_shard [] []) []
unfolding new_shard
new_shard-IsLoaded = λ k. tt

new_shard_offset : (new_shard [] []).value_offset ≡ 0
unfolding new_shard
new_shard_offset = refl

-- Let batches of writes, for each of which a caller waits, be flushed one after the other to a shard
-- with empty files, where no write fails, each key and each value has less than 2 ^ 32 bytes and all
-- values together less than 2 ^ 64. Then a read of any key finds the value of its last write, or
-- nothing if there was none; and a restart on the files that are left succeeds, and its first read
-- of any key finds the same.
pub flush_all-get :
    (batches : List (List WriteRequest)) (k : List ℕ)
    → All IsBatch batches
    → length (batch_values (all_requests batches)) < u64_mod
    → let s = flush_all batches (new_shard [] []) in
      let last = answer (last_put k (puts_of (all_requests batches)) none) in
      ((get k s).0 ≡ last) × ((restarted s).1 ≡ true) × ((get k (restarted s).0).0 ≡ last)
flush_all-get batches k b fits =
    let (stored, in_memory) =
      flush_all-keeps batches (new_shard [] []) [] new_shard-IsStored new_shard-IsLoaded b
        (omega (arith, new_shard_offset)) in
    let (opens, reads) =
      restarted-get (flush_all batches (new_shard [] [])) (puts_of (all_requests batches)) k
        stored in
    (
      get-IsLoaded (flush_all batches (new_shard [] [])) (puts_of (all_requests batches)) k
          in_memory,
      opens,
      reads,
    )
