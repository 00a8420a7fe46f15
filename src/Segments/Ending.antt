-- ===== src/Segments/Ending.antt =====
-- The scan of a file ends, whatever its bytes and its callback are.
use kvgo.Common.{
  Bool-cases, List, Option, [], ap, arith, drop, inl, inr, length, length-drop, ltb, none, refl,
  some, suc, take, zero, ℕ, ◌+◌, ◌<◌, ◌∷◌, ◌≡◌, ◌≢◌, ◌≤◌,
}
use kvgo.Codec.{from_le}
use kvgo.Frames.{Wal, Read, eof, tail_corruption, batch, read_body, read_frame, read}
use kvgo.Segments.{Scan, stuck, scan_batch, scan_next, read_segment_frames, scan_file}

-- A read that returns a batch has gone on by four bytes at least, within the file.
abbrev Advances : Wal → Read × Wal → Type 0
Advances w (eof, w') = Unit {0}
Advances w (tail_corruption, w') = Unit {0}
Advances w (batch b, w') =
    (w'.content ≡ w.content) × (w.position + 4 ≤ w'.position) × (w'.position ≤ length w.content)

read_body-Advances :
    (size : ℕ) (rest : List ℕ) (w : Wal)
    → w.position + 4 + length rest ≤ length w.content
    → Advances w (read_body size rest (record w { position = w.position + 4 }))
read_body-Advances size rest w h = elim (Bool-cases (ltb w.size (w.position + 4 + size))) [
  | inl short ↦ rw short tt
  | inr long ↦ rw long (elim (Bool-cases (ltb (length rest) size)) [
    | inl cut ↦ rw cut tt
    | inr whole ↦ rw whole (refl, omega arith, ground arith)
  ])
]

read_frame-Advances :
    (bytes : List ℕ) (w : Wal)
    → w.position + length bytes ≤ length w.content
    → Advances w (read_frame bytes w)
read_frame-Advances [] w h = tt
read_frame-Advances (b ∷ bytes) w h = elim (Bool-cases (ltb (length (b ∷ bytes)) 4)) [
  | inl short ↦ rw short tt
  | inr long ↦ rw long (
      read_body-Advances (from_le (take 4 (b ∷ bytes))) (drop 4 (b ∷ bytes)) w
        (ground (arith, length-drop 3 bytes)))
]

read-Advances : (w : Wal) → w.position ≤ length w.content → Advances w (read w)
unfolding read
read-Advances w h =
    read_frame-Advances (drop w.position w.content) w
      (omega (arith, length-drop w.position w.content))

module _ {S : Type 0} where
  scan_next-ne-stuck :
      (fn : List ℕ → S → Option S) (good_pos : ℕ) (s : S) (w : Wal)
      (next : List ℕ → Wal → S → Scan S) (p : Read × Wal)
      → Advances w p
      → ((b : List ℕ) (w' : Wal) (s' : S) → Advances w (batch b, w') → next b w' s' ≢ stuck)
      → scan_next fn good_pos s next p ≢ stuck
  scan_next-ne-stuck fn good_pos s w next (eof, w') h k = λ e. cc
  scan_next-ne-stuck fn good_pos s w next (tail_corruption, w') h k = λ e. cc
  scan_next-ne-stuck fn good_pos s w next (batch b, w') h k = go (fn b s)
    where
      go : (o : Option S) → scan_batch o (next b w') ≢ stuck
      go none = λ e. cc
      go (some s') = k b w' s' h

  read_segment_frames-ne-stuck :
      (fn : List ℕ → S → Option S) (fuel good_pos : ℕ) (w : Wal) (s : S)
      → w.position ≤ length w.content
      → length w.content < fuel + w.position
      → read_segment_frames fn fuel good_pos w s ≢ stuck
  unfolding read_segment_frames
  read_segment_frames-ne-stuck fn zero good_pos w s h k = absurd (omega arith)
  read_segment_frames-ne-stuck fn (suc fuel) good_pos w s h k =
      scan_next-ne-stuck fn good_pos s w _ (read w) (read-Advances w h) (λ b w' s' adv.
        read_segment_frames-ne-stuck fn fuel (good_pos + 4 + length b) w' s'
          (omega (arith, adv.2, ap length adv.0)) (omega (arith, k, adv.1, ap length adv.0)))

  -- The scan of a file from its beginning ends within its fuel, whatever the bytes of the file are and
  -- whatever the callback does.
  pub scan_file-ne-stuck :
      (fn : List ℕ → S → Option S) (w : Wal) (s : S) → w.position ≡ 0 → scan_file fn w s ≢ stuck
  unfolding scan_file
  scan_file-ne-stuck fn w s e =
      read_segment_frames-ne-stuck fn (suc (length w.content)) 0 w s (omega (arith, e))
        (omega (arith, e))
