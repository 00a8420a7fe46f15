-- ===== src/Engine/Restart.antt =====
-- Reads of a shard's memory, and of its files after a restart.
use kvgo.Common.{
  ==-false, Bool, List, Option, [], ap, arith, bytes_eq, drop, if◌then◌else◌, length, length-take,
  le→ltb, lookup, ltb, none, refl, some, take, true, ℕ, ◌<◌, ◌∙◌, ◌∷◌, ◌≡◌,
}
use kvgo.Engine.Index.{
  EngineWal, read_index, read_index_file, new_engine_wal, ValueRead, value, invalid_read,
  end_of_file, corruption, read_rest, read_value,
}
use kvgo.Engine.Shard.{
  ValueEntry, Shard, new_shard, replay_entry, counted, replay_shard, found, got, get_entry, get,
  get_value, loaded,
}
use kvgo.Engine.Replaying.{encode_all, add_all, read_index-encode_all}
use kvgo.Engine.Placing.{Puts, last_put, Holds, Finds, add_all-Finds}
use kvgo.Engine.Durability.{Loaded, IsStored, IsLoaded, answer}

pub get-IsLoaded :
    (s : Shard) (puts : Puts) (k : List ℕ)
    → IsLoaded s puts
    → (get k s).0 ≡ answer (last_put k puts none)
unfolding get get_value
get-IsLoaded s puts k h = go (lookup k s.entries) (last_put k puts none) (h k)
  where
    go : (o : Option ValueEntry) (v : Option (List ℕ)) → Loaded o v → (get_entry k s o).0 ≡ answer v
    go none none l = refl
    go none (some v) l = absurd l
    go (some ve) none l = absurd l
    go (some ve) (some v) l = rw l refl

abbrev none_left : List ℕ
none_left = []

read_rest-value :
    (offset size position : ℕ) (rest v : List ℕ) (w : EngineWal)
    → size ≡ length v
    → 0 < size
    → take (length v) rest ≡ v
    → (read_rest offset size position rest w).0 ≡ value v
read_rest-value offset size position [] v w e pos h =
    absurd (omega (arith, ap length h, length-take (length v) none_left, e))
read_rest-value offset size position (b ∷ rest) v w e pos h =
    rw
      (
        e,
        le→ltb (length (b ∷ rest)) (length v)
            (omega (arith, ap length h, length-take (length v) (b ∷ rest))),
        h,
      )
      refl

-- Where the read starts, in a file that was just opened.
sought : (offset position : ℕ) → position ≡ 0 → (if ltb 0 offset then offset else position) ≡ offset
sought offset position e = ground arith

read_value-Holds :
    (w : EngineWal) (v : List ℕ) (size offset : ℕ)
    → w.value_position ≡ 0
    → 0 < size
    → Holds w.value_file v size offset
    → (read_value offset size w).0 ≡ value v
unfolding read_value
read_value-Holds w v size offset start pos h =
    rw (==-false size pos, sought offset w.value_position start)
      (read_rest-value offset size offset (drop offset w.value_file) v w h.0 pos h.1)

loaded_first : (ve : ValueEntry) (p : ValueRead × EngineWal) → (loaded ve p).0 ≡ p.0
loaded_first ve (value bytes, w) = refl
loaded_first ve (invalid_read, w) = refl
loaded_first ve (end_of_file, w) = refl
loaded_first ve (corruption, w) = refl

get_value-Holds :
    (ve : ValueEntry) (w : EngineWal) (v : List ℕ)
    → w.value_position ≡ 0
    → ve.payload ≡ none
    → Holds w.value_file v ve.size ve.offset
    → (get_value ve w).0 ≡ value v
unfolding get_value
get_value-Holds ve w [] start unread h = rw (unread, h.0) refl
get_value-Holds ve w (b ∷ v) start unread h =
    rw (unread, ==-false ve.size (omega (arith, h.0)))
      (loaded_first (record ve { payload = none }) (read_value ve.offset ve.size w)
        ∙ read_value-Holds w (b ∷ v) ve.size ve.offset start (omega (arith, h.0)) h)

got_first :
    (k : List ℕ) (s : Shard) (v : List ℕ) (p : ValueRead × (ValueEntry × EngineWal))
    → p.0 ≡ value v
    → (got k s p).0 ≡ found v
got_first k s v (value bytes, (ve, w)) h = cc
got_first k s v (invalid_read, (ve, w)) h = cc
got_first k s v (end_of_file, (ve, w)) h = cc
got_first k s v (corruption, (ve, w)) h = cc

pub get-Finds :
    (s : Shard) (k : List ℕ) (o : Option ValueEntry) (v : Option (List ℕ))
    → s.wal.value_position ≡ 0
    → Finds s.wal.value_file o v
    → (get_entry k s o).0 ≡ answer v
get-Finds s k none none start f = refl
get-Finds s k none (some v) start f = absurd f
get-Finds s k (some ve) none start f = absurd f
get-Finds s k (some ve) (some v) start f =
    got_first k s v (get_value ve s.wal) (get_value-Holds ve s.wal v start f.0 f.1)

-- The shard that a restart makes of the files.
abbrev pub restarted : Shard → Shard × Bool
restarted s = replay_shard (new_shard s.wal.index_file s.wal.value_file)

-- A restart succeeds, and its first read of any key answers what was written last.
pub restarted-get :
    (s : Shard) (puts : Puts) (k : List ℕ)
    → IsStored s puts
    → ((restarted s).1 ≡ true) × ((get k (restarted s).0).0 ≡ answer (last_put k puts none))
unfolding replay_shard read_index_file new_shard new_engine_wal get
restarted-get s puts k h =
    let read =
      ap (λ (bytes : List ℕ). read_index replay_entry (length bytes) 0 bytes []) h.index_lem
      ∙ read_index-encode_all (length (encode_all h.ies)) 0 h.ies [] h.small (omega arith) in
    rw read (
      refl,
      get-Finds (counted (new_shard s.wal.index_file s.wal.value_file) (add_all h.ies [])) k
          (lookup k (add_all h.ies [])) (last_put k puts none) refl
          (add_all-Finds h.ies puts s.wal.value_file k [] none h.places tt),
    )
