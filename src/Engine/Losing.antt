-- ===== src/Engine/Losing.antt =====
-- Values that a shard loses: by a compaction, and by a read that does not seek.
use kvgo.Common.{
  All, List, [], ap, arith, bytes_beq_iff, bytes_eq, insert, length, length-append, length-take,
  lookup, lookup-insert, none, refl, some, subst, sym, take, true, ℕ, ◌++◌, ◌∙◌, ◌∷◌, ◌≡◌,
}
use mathlib.Core.List.{append-nil}
use kvgo.Engine.Index.{EngineWal}
use kvgo.Engine.Shard.{
  Entries, ValueEntry, Shard, Got, found, get, put_internal, WriteRequest, apply_batch,
  batch_values, Flushed, flush,
}
use kvgo.Engine.Replaying.{IsSmall}
use kvgo.Engine.Placing.{Holds}
use kvgo.Engine.Durability.{flush_eq, written, apply_batch_files, append_value-value_file}
use kvgo.Engine.Restart.{restarted}
use kvgo.Engine.Rewriting.{do_compact}
use kvgo.Engine.Cleaning.{Distinct}
use kvgo.Engine.Compacting.{indexes, Distinct-insert, do_compact-get}

-- What a flush of one waiting request leaves in memory.
flush-one :
    (k v : List ℕ) (s : Shard)
    → (flush none none ((record { key = k; bytes = v; waits = true }) ∷ []) s).0.entries
      ≡ insert k (record { payload = some v; size = length v; offset = 0 }) s.entries
unfolding apply_batch put_internal
flush-one k v s =
    ap (λ (p : Shard × kvgo.Engine.Shard.Flushed). p.0.entries)
      (flush_eq ((record { key = k; bytes = v; waits = true }) ∷ []) s)

lookup-insert_self :
    (k : List ℕ) (ve : ValueEntry) (m : Entries) → lookup k (insert k ve m) ≡ some ve
lookup-insert_self k ve m = rw (lookup-insert k k ve m, (bytes_beq_iff k k).1 refl) refl

-- A put of one key, flushed.
abbrev pub one_put : List ℕ → List ℕ → List WriteRequest
one_put k v = (record { key = k; bytes = v; waits = true }) ∷ []

one_put-value_file :
    (k v : List ℕ) (s : Shard)
    → (flush none none (one_put k v) s).0.wal.value_file ≡ s.wal.value_file ++ v
unfolding batch_values
one_put-value_file k v s = rw (flush_eq (one_put k v) s) (
    ap (λ (w : EngineWal). w.value_file)
      (apply_batch_files (one_put k v) (written (one_put k v) s) (refl, tt)).0
    ∙ append_value-value_file (v ++ []) s.wal
    ∙ ap (λ (xs : List ℕ). s.wal.value_file ++ xs) (append-nil v))

first_bytes-Holds : (file v : List ℕ) → Holds (file ++ v) (take (length v) (file ++ v)) (length v) 0
first_bytes-Holds file v =
    let len = length-take (length v) (file ++ v) in
    let total = length-append file v in
    let same : length (take (length v) (file ++ v)) ≡ length v = omega (arith, len, total) in
    (sym same, ap (λ (n : ℕ). take n (file ++ v)) same, omega (arith, same, total))

-- Let the keys of a shard's map be different, and let a put of a value be flushed, after which the
-- numbers of the map's entries fit their fields. Then a compaction succeeds, and so does a restart
-- after it, but the first read of the key finds the first bytes of the file of values, as many as the
-- value has, instead of the value.
pub do_compact-flush :
    (s : Shard) (k v : List ℕ)
    → Distinct s.entries
    → All IsSmall (indexes (flush none none (one_put k v) s).0.entries)
    → (s' : Shard) × (do_compact true true (flush none none (one_put k v) s).0 ≡ (s', true))
      × ((restarted s').1 ≡ true)
      × ((get k (restarted s').0).0 ≡ found (take (length v) (s.wal.value_file ++ v)))
do_compact-flush s k v d small =
    let s1 = (flush none none (one_put k v) s).0 in
    let ve : ValueEntry = record { payload = some v; size = length v; offset = 0 } in
    let m = flush-one k v s in
    let (s', eq, opens, reads, _) =
      do_compact-get s1 k ve (take (length v) (s.wal.value_file ++ v))
        (subst Distinct (sym m) (Distinct-insert k ve s.entries d)) small
        (ap (lookup k) m ∙ lookup-insert_self k ve s.entries)
        (subst
          (λ (file : List ℕ). Holds file (take (length v) (s.wal.value_file ++ v)) (length v) 0)
          (sym (one_put-value_file k v s)) (first_bytes-Holds s.wal.value_file v)) in
    (s', eq, opens, reads)
