-- ===== src/Disk/Runs.antt =====
-- Saves, broken saves and restarts of `DurableStorage`, one after the other.
use kvgo.Common.{
  List, Option, Outcome, [], ap, bind_option, false, length, none, panic, refl, ret, some, subst,
  sym, take, ◌&&◌, ◌<◌, ◌∙◌, ◌∷◌, ◌≡◌, ℕ,
}
use kvgo.Pb.{Entry, HardState}
use kvgo.Frames.{frame, write}
use kvgo.Segments.{SegmentedWal, write_batch}
use kvgo.Segments.Scanning.{frames}
use kvgo.Durable.{
  disk, DurableStorage, Result, ok, err, is_nil, is_empty_opt, effective, truncate_and_append,
}
use kvgo.Disk.{Disk, save}
use kvgo.Disk.Recovery.{
  IsPersisted, replay_log, replay_log-IsPersisted, appended, repaired, replay_log-torn,
}
use kvgo.Disk.Saves.{Fits, StartsAbove, batch_small, saved_batch, with_hard_state, save-replay_log}

-- What a save does to the state in memory, with no files.
abbrev pub outcome_option : {A : Type 0} → Outcome (Result A) → Option A
outcome_option (ret (ok a)) = some a
outcome_option (ret (err e)) = none
outcome_option panic = none

abbrev pub put : List Entry → Option HardState → DurableStorage → Option DurableStorage
put es hard m = outcome_option (truncate_and_append es (record m { hd = effective hard m.hd }))

-- The saves in `log`, the last of them first.
abbrev pub put_all : List (List Entry × Option HardState) → DurableStorage → Option DurableStorage
put_all [] m = some m
put_all ((es, hard) ∷ log) m = bind_option (put_all log m) (put es hard)

-- There is something to save, and it fits its fields.
pub record Asks (d : Disk) (es : List Entry) (hard : Option HardState) : Type 0 where
  pub something : (is_nil es && is_empty_opt hard) ≡ false
  pub fits : Fits (effective hard d.mem.hd) es

-- What a storage can go through. `log` are the saves that returned without an error, the last first.
pub data Run (start : Disk) : List (List Entry × Option HardState) → Disk → Type 0 where
  here : Run start [] start
  -- A save that succeeds.
  completed :
      {log : List (List Entry × Option HardState)} {d d' : Disk}
      → Run start log d
      → (es : List Entry) (hard : Option HardState) (new : List Entry) → Asks d es hard
      → StartsAbove d.mem.snap.last_included_index es
      → truncate_and_append es (with_hard_state d hard)
        ≡ ret (ok (record (with_hard_state d hard) { entries = new }))
      → save none es hard d ≡ ret (d', none)
      → Run start ((es, hard) ∷ log) d'
  -- A save that breaks off within the batch, and a restart.
  crashed :
      {log : List (List Entry × Option HardState)} {d d' : Disk}
      → Run start log d
      → (es : List Entry) (hard : Option HardState) (k : ℕ) → Asks d es hard
      → 0 < k
      → k < length (frame (saved_batch d es hard))
      → save (some k) es hard d ≡ ret (d', some disk)
      → (m : DurableStorage) (idx : List (ℕ × ℕ)) (files : SegmentedWal)
      → replay_log d' ≡ some ((m, idx), files)
      → Run start log (record d' { mem = m; seg_last_idx = idx; raft_wal = files })
  -- A restart between two saves.
  restarted :
      {log : List (List Entry × Option HardState)} {d : Disk}
      → Run start log d
      → (m : DurableStorage) (idx : List (ℕ × ℕ)) (files : SegmentedWal)
      → replay_log d ≡ some ((m, idx), files)
      → Run start log (record d { mem = m; seg_last_idx = idx; raft_wal = files })

-- What holds after every run.
pub record Keeps (start : Disk) (log : List (List Entry × Option HardState)) (d : Disk)
    : Type 0 where
  pub persisted : IsPersisted d
  pub mem_lem : put_all log start.mem ≡ some d.mem

Keeps-saved :
    (start d d' : Disk) (log : List (List Entry × Option HardState)) (es : List Entry)
    (hard : Option HardState) (new : List Entry)
    → Keeps start log d
    → Asks d es hard
    → StartsAbove d.mem.snap.last_included_index es
    → truncate_and_append es (with_hard_state d hard)
      ≡ ret (ok (record (with_hard_state d hard) { entries = new }))
    → save none es hard d ≡ ret (d', none)
    → Keeps start ((es, hard) ∷ log) d'
Keeps-saved start d d' log es hard new k a above fit done =
    let (d2, eq, mem, _, kept) =
      save-replay_log d es hard k.persisted a.something a.fits new above fit in
    let same : d2 ≡ d' = cc in
    record {
      persisted = subst IsPersisted same kept;
      mem_lem = rw (k.mem_lem, fit) (ap some (sym mem ∙ ap (λ (x : Disk). x.mem) same));
    }

save-appended :
    (d : Disk) (es : List Entry) (hard : Option HardState) (k : ℕ)
    → (is_nil es && is_empty_opt hard) ≡ false
    → save (some k) es hard d ≡ ret (appended d (take k (frame (saved_batch d es hard))), some disk)
unfolding save write_batch write
save-appended d es hard k something = rw something refl

-- A replay that finds the state `d` with its log's files cut gives the state so far.
Keeps-replayed :
    (start d d' : Disk) (log : List (List Entry × Option HardState)) (m : DurableStorage)
    (idx : List (ℕ × ℕ)) (files kept : SegmentedWal)
    → Keeps start log d
    → IsPersisted (record d { raft_wal = kept })
    → replay_log d' ≡ some ((d.mem, d.seg_last_idx), kept)
    → replay_log d' ≡ some ((m, idx), files)
    → record d' { mem = d.mem; seg_last_idx = d.seg_last_idx; raft_wal = kept }
      ≡ record d { raft_wal = kept }
    → Keeps start log (record d' { mem = m; seg_last_idx = idx; raft_wal = files })
Keeps-replayed start d d' log m idx files kept k h eq eq' same =
    let triple : ◌≡◌ {A = (DurableStorage × List (ℕ × ℕ)) × SegmentedWal}
        ((d.mem, d.seg_last_idx), kept) ((m, idx), files) =
      cc in
    subst
      (λ (t : (DurableStorage × List (ℕ × ℕ)) × SegmentedWal).
        Keeps start log (record d' { mem = t.0.0; seg_last_idx = t.0.1; raft_wal = t.1 }))
      triple (subst (Keeps start log) (sym same) (record { persisted = h; mem_lem = k.mem_lem }))

Keeps-crashed :
    (start d d' : Disk) (log : List (List Entry × Option HardState)) (es : List Entry)
    (hard : Option HardState) (k : ℕ)
    → Keeps start log d
    → Asks d es hard
    → 0 < k
    → k < length (frame (saved_batch d es hard))
    → save (some k) es hard d ≡ ret (d', some disk)
    → (m : DurableStorage) (idx : List (ℕ × ℕ)) (files : SegmentedWal)
    → replay_log d' ≡ some ((m, idx), files)
    → Keeps start log (record d' { mem = m; seg_last_idx = idx; raft_wal = files })
Keeps-crashed start d d' log es hard k keeps a pos short broke m idx files eq =
    let b = saved_batch d es hard in
    let d1 = appended d (take k (frame b)) in
    let (eq1, kept) =
      replay_log-torn d keeps.persisted k b
        (batch_small d es hard keeps.persisted a.something a.fits) pos short in
    let same : d1 ≡ d' = cc (save-appended d es hard k a.something) in
    subst
      (λ (x : Disk).
        replay_log x ≡ some ((m, idx), files)
        → Keeps start log (record x { mem = m; seg_last_idx = idx; raft_wal = files }))
      same
      (λ eq'.
        Keeps-replayed start d d1 log m idx files
          (repaired d1 (length (frames keeps.persisted.batches))).raft_wal keeps kept eq1 eq' refl)
      eq

Run-Keeps :
    (start d : Disk) (log : List (List Entry × Option HardState))
    → Run start log d
    → IsPersisted start
    → Keeps start log d
Run-Keeps start _ _ here h = record { persisted = h; mem_lem = refl }
Run-Keeps start d' (_ ∷ log) (completed {d} r es hard new a above fit done) h =
    Keeps-saved start d d' log es hard new (Run-Keeps start d log r h) a above fit done
Run-Keeps start _ log (crashed {d} {d'} r es hard k a pos short broke m idx files eq) h =
    Keeps-crashed start d d' log es hard k (Run-Keeps start d log r h) a pos short broke m idx files
      eq
Run-Keeps start _ log (restarted {d} r m idx files eq) h =
    let keeps = Run-Keeps start d log r h in
    Keeps-replayed start d d log m idx files d.raft_wal keeps keeps.persisted
      (replay_log-IsPersisted d keeps.persisted) eq refl

-- Let the log's files hold whole batches whose replay gives the state in memory. Then, after any
-- sequence of saves that succeed, saves that break off within their batch followed by a restart, and
-- restarts between saves, where what is saved fits its fields and the entries saved, above the
-- snapshot's index, fit those in memory: the state in memory is what the successful saves alone, in
-- order, make of the first one, and a replay of the log's files rebuilds exactly that state, and
-- leaves the files as they are.
pub Run-replay_log :
    (start d : Disk) (log : List (List Entry × Option HardState))
    → IsPersisted start
    → Run start log d
    → (put_all log start.mem ≡ some d.mem)
      × (replay_log d ≡ some ((d.mem, d.seg_last_idx), d.raft_wal))
Run-replay_log start d log h r =
    let keeps = Run-Keeps start d log r h in
    (keeps.mem_lem, replay_log-IsPersisted d keeps.persisted)
