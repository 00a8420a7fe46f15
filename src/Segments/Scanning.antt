-- ===== src/Segments/Scanning.antt =====
-- What a scan of one file finds.
use kvgo.Common.{
  All, List, Option, [], ap, arith, bind_option, length, length-append, none, refl, some, subst,
  suc, sym, take, take-append, zero, ℕ, ◌++◌, ◌+◌, ◌-◌, ◌<◌, ◌∙◌, ◌∷◌, ◌≡◌, ◌≤◌,
}
use mathlib.Core.List.{append_assoc, append-nil}
use kvgo.Frames.{Wal, frame, truncate, new_wal}
use kvgo.Frames.Reading.{
  Has, at_position, Has-append, frame_limit, length-frame, read-frame, read-eof, read-torn,
}
use kvgo.Segments.{
  Scan, scanned, torn_at, failed, stuck, scan_batch, Sealed, and_then, read_sealed,
  read_segment_frames, scan_file,
}

-- The batches of a file, one frame after the other.
abbrev pub frames : List (List ℕ) → List ℕ
frames [] = []
frames (b ∷ bs) = frame b ++ frames bs

-- The callback over the batches, in order.
abbrev pub run_batches : {S : Type 0} → (List ℕ → S → Option S) → List (List ℕ) → S → Option S
run_batches fn [] s = some s
run_batches fn (b ∷ bs) s = bind_option (fn b s) (run_batches fn bs)

abbrev pub AllSmall : List (List ℕ) → Type 0
AllSmall = All (λ b. length b < frame_limit)

Has-assoc :
    (r : Wal) (p : ℕ) (b : List ℕ) (bs : List (List ℕ)) (rest : List ℕ)
    → Has (at_position p r) (frames (b ∷ bs) ++ rest)
    → Has (at_position p r) (frame b ++ (frames bs ++ rest))
Has-assoc r p b bs rest h =
    subst (Has (at_position p r)) (append_assoc (frame b) (frames bs) rest) h

-- A file with these bytes, whose size is known.
pub record IsFile (w : Wal) (bytes : List ℕ) : Type 0 where
  pub bytes_lem : w.content ≡ bytes
  pub size_lem : w.size ≡ length bytes

pub IsFile-append :
    (w : Wal) (bytes more : List ℕ)
    → IsFile w bytes
    → IsFile (record w { content = w.content ++ more; size = w.size + length more }) (bytes ++ more)
IsFile-append w bytes more h = record {
  bytes_lem = ap (λ (xs : List ℕ). xs ++ more) h.bytes_lem;
  size_lem = omega (arith, h.size_lem, length-append bytes more);
}

pub IsFile-truncate :
    (w : Wal) (bytes more : List ℕ)
    → IsFile w (bytes ++ more)
    → IsFile (truncate (length bytes) w) bytes
unfolding truncate
IsFile-truncate w bytes more h = record {
  bytes_lem = ap (take (length bytes)) h.bytes_lem ∙ take-append bytes more;
  size_lem = refl;
}

pub frames-append : (bs cs : List (List ℕ)) → frames (bs ++ cs) ≡ frames bs ++ frames cs
frames-append [] cs = refl
frames-append (b ∷ bs) cs =
    ap (λ (xs : List ℕ). frame b ++ xs) (frames-append bs cs)
    ∙ sym (append_assoc (frame b) (frames bs) (frames cs))

bind_option-ext :
    {S : Type 0} (o : Option S) (f g k : S → Option S)
    → ((s : S) → f s ≡ bind_option (g s) k)
    → bind_option o f ≡ bind_option (bind_option o g) k
bind_option-ext none f g k h = refl
bind_option-ext (some s) f g k h = h s

pub run_batches-append :
    {S : Type 0} (fn : List ℕ → S → Option S) (bs cs : List (List ℕ)) (s : S)
    → run_batches fn (bs ++ cs) s ≡ bind_option (run_batches fn bs s) (run_batches fn cs)
run_batches-append fn [] cs s = refl
run_batches-append fn (b ∷ bs) cs s =
    bind_option-ext (fn b s) _ _ (run_batches fn cs) (run_batches-append fn bs cs)

pub AllSmall-append : (bs cs : List (List ℕ)) → AllSmall bs → AllSmall cs → AllSmall (bs ++ cs)
AllSmall-append [] cs h k = k
AllSmall-append (b ∷ bs) cs h k = (h.0, AllSmall-append bs cs h.1 k)

and_then-ext :
    {S : Type 0} (o : Scan S) (f g : S → Scan S) (s' : S) (end : Scan S)
    → ((s : S) → f s ≡ scanned s' → g s ≡ end)
    → and_then o f ≡ scanned s'
    → and_then o g ≡ end
and_then-ext (scanned s) f g s' end h e = h s e
and_then-ext (torn_at pos s) f g s' end h e = cc
and_then-ext failed f g s' end h e = cc
and_then-ext stuck f g s' end h e = cc

-- One more sealed segment is read after the others.
pub read_sealed-append :
    {S : Type 0} (fn : ℕ → List ℕ → S → Option S) (gs : List Sealed) (g : Sealed) (s s' : S)
    → read_sealed fn gs s ≡ scanned s'
    → read_sealed fn (gs ++ g ∷ []) s
      ≡ and_then (scan_file (fn g.seq) (new_wal g.content) s') scanned
unfolding read_sealed
read_sealed-append {S} fn [] g s s' e =
    ap
      (λ (o : Scan S).
        and_then o (λ t. and_then (scan_file (fn g.seq) (new_wal g.content) t) scanned))
      e
read_sealed-append {S} fn (g' ∷ gs) g s s' e =
    and_then-ext (scan_file (fn g'.seq) (new_wal g'.content) s) (read_sealed fn gs)
      (read_sealed fn (gs ++ g ∷ [])) s' _ (λ t. read_sealed-append fn gs g t s') e

IsFile-Has : (w : Wal) (bytes : List ℕ) → IsFile w bytes → Has (at_position 0 w) bytes
IsFile-Has w bytes h = record { left = h.bytes_lem; sized = omega (arith, h.size_lem) }

behind_frames :
    (bs : List (List ℕ)) (rest : List ℕ) (w : Wal)
    → IsFile w (frames bs ++ rest)
    → Has (at_position (length (frames bs)) w) rest
behind_frames bs rest w h =
    Has-append w 0 (length (frames bs)) (frames bs) rest (IsFile-Has w _ h) (omega arith)

length-frames : (bs : List (List ℕ)) → length bs ≤ length (frames bs)
length-frames [] = omega arith
length-frames (b ∷ bs) =
    omega (arith, length-frames bs, length-append (frame b) (frames bs), length-frame b)

ap₃ :
    {A : Type 0} (f : ℕ → ℕ → ℕ → A) {a a' b b' c c' : ℕ}
    → a ≡ a'
    → b ≡ b'
    → c ≡ c'
    → f a b c ≡ f a' b' c'
ap₃ f e e' e'' = cc (ap f e)

module _ {S : Type 0} where
  scan_batch-ext :
      (o : Option S) (f g : S → Scan S) → ((s : S) → f s ≡ g s) → scan_batch o f ≡ scan_batch o g
  scan_batch-ext none f g h = refl
  scan_batch-ext (some s) f g h = h s

  scan_batch-bind_option :
      (o : Option S) (k : S → Option S) (f : S → Scan S)
      → scan_batch (bind_option o k) f ≡ scan_batch o (λ s. scan_batch (k s) f)
  scan_batch-bind_option none k f = refl
  scan_batch-bind_option (some s) k f = refl

  -- Whole frames are handed to the callback, one after the other.
  scan-frames :
      (fn : List ℕ → S → Option S) (bs : List (List ℕ)) (total fuel good_pos end p p' : ℕ)
      (rest : List ℕ) (r : Wal) (s : S)
      → AllSmall bs
      → Has (at_position p r) (frames bs ++ rest)
      → total ≡ length bs + fuel
      → end ≡ good_pos + length (frames bs)
      → p' ≡ p + length (frames bs)
      → read_segment_frames fn total good_pos (at_position p r) s
        ≡ scan_batch (run_batches fn bs s) (read_segment_frames fn fuel end (at_position p' r))
  unfolding read_segment_frames
  scan-frames fn [] total fuel good_pos end p p' rest r s small h e e' e'' =
      ap₃ (λ (n k q : ℕ). read_segment_frames fn n k (at_position q r) s) (omega arith)
        (omega arith) (omega arith)
  scan-frames fn (b ∷ bs) zero fuel good_pos end p p' rest r s small h e e' e'' =
      absurd (omega arith)
  scan-frames fn (b ∷ bs) (suc total) fuel good_pos end p p' rest r s small h e e' e'' =
      let joined = Has-assoc r p b bs rest h in
      let len = length-append (frame b) (frames bs) in
      rw (read-frame r p (p + length (frame b)) b (frames bs ++ rest) small.0 joined refl) (
        scan_batch-ext (fn b s) _ _ (λ s'.
          scan-frames fn bs total fuel (good_pos + 4 + length b) end (p + length (frame b)) p' rest
            r s' small.1
            (Has-append r p (p + length (frame b)) (frame b) (frames bs ++ rest) joined refl)
            (omega arith) (omega (arith, len, length-frame b)) (omega (arith, len)))
        ∙ sym (
            scan_batch-bind_option (fn b s) (run_batches fn bs)
              (read_segment_frames fn fuel end (at_position p' r))))

  -- A file of whole frames, and what comes behind them, with the fuel for the latter.
  scan_file-frames :
      (fn : List ℕ → S → Option S) (bs : List (List ℕ)) (rest : List ℕ) (w : Wal) (s : S)
      → AllSmall bs
      → IsFile w (frames bs ++ rest)
      → (fuel : ℕ) × (scan_file fn (at_position 0 w) s
          ≡ scan_batch (run_batches fn bs s) (
              read_segment_frames fn
                (suc fuel)
                (length (frames bs))
                (at_position (length (frames bs)) w)))
  unfolding scan_file
  scan_file-frames fn bs rest w s small h =
      let few = length-frames bs in
      let len = ap length h.bytes_lem ∙ length-append (frames bs) rest in
      (
        length w.content - length bs,
        scan-frames fn bs (suc (length w.content)) (suc (length w.content - length bs)) 0
            (length (frames bs)) 0 (length (frames bs)) rest w s small (IsFile-Has w _ h)
            (omega (arith, few, len)) (omega arith) (omega arith),
      )

  -- A file of whole frames is read to its end, with the callback on each batch in order.
  pub scan_file-whole :
      (fn : List ℕ → S → Option S) (bs : List (List ℕ)) (w : Wal) (s : S)
      → AllSmall bs
      → IsFile w (frames bs)
      → scan_file fn (at_position 0 w) s ≡ scan_batch (run_batches fn bs s) scanned
  unfolding read_segment_frames
  scan_file-whole fn bs w s small h =
      let h' : IsFile w (frames bs ++ []) = subst (IsFile w) (sym (append-nil (frames bs))) h in
      let (fuel, eq) = scan_file-frames fn bs [] w s small h' in
      eq
      ∙ scan_batch-ext (run_batches fn bs s) _ _
          (λ s'. rw (read-eof (at_position (length (frames bs)) w) (behind_frames bs [] w h')) refl)

  -- A file of whole frames with the beginning of one more is read up to that one.
  pub scan_file-torn :
      (fn : List ℕ → S → Option S) (bs : List (List ℕ)) (b : List ℕ) (k : ℕ) (w : Wal) (s : S)
      → AllSmall bs
      → length b < frame_limit
      → 0 < k
      → k < length (frame b)
      → IsFile w (frames bs ++ take k (frame b))
      → scan_file fn (at_position 0 w) s
        ≡ scan_batch (run_batches fn bs s) (torn_at (length (frames bs)))
  unfolding read_segment_frames
  scan_file-torn fn bs b k w s small last pos short h =
      let (fuel, eq) = scan_file-frames fn bs (take k (frame b)) w s small h in
      let (w', torn) =
        read-torn (at_position (length (frames bs)) w) k b last pos short
          (behind_frames bs (take k (frame b)) w h) in
      eq ∙ scan_batch-ext (run_batches fn bs s) _ _ (λ s'. rw torn refl)
