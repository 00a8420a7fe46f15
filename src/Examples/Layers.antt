-- ===== src/Examples/Layers.antt =====
-- The two layers of the log on concrete values.
use kvgo.Common.{List, [], arith, get_elem?, length, refl, ret, subst, true, ℕ, ◌+◌, ◌<◌, ◌∷◌, ◌≡◌}
use kvgo.Pb.{Entry}
use kvgo.Durable.{DurableStorage, first_index, last_index}
use kvgo.Durable.Reading.{IsStored, stored_at, durable-Reads}
use kvgo.Log.View.{IsWellFormed, log_at}
use kvgo.Log.Append.{append_entries_lem}
use kvgo.Log.Slices.{slice_lem, next_committed_ents_lem}
use kvgo.Log.Stable.{log_stable_to_lem}
use kvgo.Log.{RaftLog, append_entries, slice, next_committed_ents, log_stable_to}
use kvgo.Examples.Values.{entry, stored, disk, three, three-IsWellFormed, three_last}

append_entries_lem_example :
    (l' : RaftLog DurableStorage) × (append_entries (entry 2 3 ∷ entry 3 3 ∷ []) three ≡ ret l')
append_entries_lem_example =
    let (l', eq, _, _, _, _, _, _) =
      append_entries_lem three (stored_at stored) (entry 2 3) (entry 3 3 ∷ []) three-IsWellFormed
        (refl, (refl, tt)) (omega arith) (omega arith) (omega (arith, three_last)) in
    (l', eq)

slice_lem_example :
    (es : List Entry) × (slice 2 4 three ≡ ret es)
    × (length es ≡ 2)
    × ((i : ℕ) → i < 2 → get_elem? es i ≡ log_at three (stored_at stored) (2 + i))
unfolding first_index
slice_lem_example =
    slice_lem three (stored_at stored) three-IsWellFormed 2 4 (omega arith) (omega arith)
      (omega arith) (omega (arith, three_last))

next_committed_ents_lem_example :
    (es : List Entry) × (next_committed_ents three ≡ ret es)
    × (length es ≡ 1)
    × ((i : ℕ) → i < 1 → get_elem? es i ≡ log_at three (stored_at stored) (1 + i))
unfolding first_index
next_committed_ents_lem_example =
    next_committed_ents_lem three (stored_at stored) three-IsWellFormed (omega arith)

-- The storage once it has the third entry too.
abbrev stored_more : DurableStorage
stored_more = record stored { entries = entry 1 1 ∷ entry 2 1 ∷ entry 3 2 ∷ [] }

stored_more-IsStored : IsStored stored_more
stored_more-IsStored = record { contiguous = (refl, (refl, (refl, tt))); fits = omega arith }

abbrev three_saved : RaftLog DurableStorage
three_saved = record three { storage = stored_more }

three_saved-IsWellFormed : IsWellFormed disk three_saved (stored_at stored_more)
unfolding last_index first_index
three_saved-IsWellFormed = record {
  reads = durable-Reads stored_more stored_more-IsStored true;
  contiguous = (refl, tt);
  fits = omega arith;
  joined = omega arith;
  tail = λ e. cc;
  first_le = omega arith;
  offset_pos = omega arith;
  applied_le = omega arith;
  committed_le = omega arith;
}

third_at : (j : ℕ) → 3 ≡ j → stored_at stored_more j ≡ log_at three_saved (stored_at stored_more) j
third_at j e =
    subst (λ k. stored_at stored_more k ≡ log_at three_saved (stored_at stored_more) k) e refl

log_stable_to_lem_example :
    (l' : RaftLog DurableStorage) × (log_stable_to 3 2 three_saved ≡ ret l')
    × IsWellFormed disk l' (stored_at stored_more)
unfolding last_index
log_stable_to_lem_example =
    let (l', eq, w, _, _, _) =
      log_stable_to_lem three_saved (stored_at stored_more) three_saved-IsWellFormed 3 2
        (omega arith) (λ _. (refl, λ j lo hi. third_at j (omega arith))) in
    (l', eq, w)
