-- ===== src/Frames/Reading.antt =====
-- What a read finds where a frame, or the beginning of one, was written.
use kvgo.Common.{
  Bool, List, [], ap, arith, drop, drop-append, drop-drop, false, length, length-append,
  length-take, refl, suc, sym, take, take-append, true, zero, ℕ, ◌++◌, ◌+◌, ◌<◌, ◌∙◌, ◌≡◌,
}
use kvgo.Codec.{le_bytes}
use kvgo.Codec.Words.{from_le-u32, length-le_bytes}
use kvgo.Frames.{Wal, frame, Read, eof, tail_corruption, batch, read_frame, read}

-- The file has `rest` left to read, and its size is known.
pub record Has (w : Wal) (rest : List ℕ) : Type 0 where
  pub left : drop w.position w.content ≡ rest
  pub sized : w.size ≡ w.position + length rest

abbrev pub frame_limit : ℕ
frame_limit = 4294967296

pub length-frame : (b : List ℕ) → length (frame b) ≡ 4 + length b
unfolding frame
length-frame b =
    omega (arith, length-append (le_bytes 4 (length b)) b, length-le_bytes 4 (length b))

abbrev pub at_position : ℕ → Wal → Wal
at_position p w = record w { position = p }

-- What was written is behind what was read.
pub Has-append :
    (w : Wal) (p p' : ℕ) (front rest : List ℕ)
    → Has (at_position p w) (front ++ rest)
    → p' ≡ p + length front
    → Has (at_position p' w) rest
Has-append w p p' front rest h e = record {
  left =
      ap (λ (k : ℕ). drop k w.content) e
      ∙ sym (drop-drop p (length front) w.content)
      ∙ ap (drop (length front)) h.left
      ∙ drop-append front rest;
  sized = omega (arith, e, h.sized, length-append front rest);
}

-- Where the next frame is whole, a read returns its batch and goes on behind it.
pub read-frame :
    (w : Wal) (p p' : ℕ) (b rest : List ℕ)
    → length b < frame_limit
    → Has (at_position p w) (frame b ++ rest)
    → p' ≡ p + length (frame b)
    → read (at_position p w) ≡ (batch b, at_position p' w)
unfolding read frame le_bytes
read-frame w p p' b rest small h e = rw h.left (
    ground
      (arith, from_le-u32 (length b) small, h.sized, length-append b rest, take-append b rest, e))

pub read-eof : (w : Wal) → Has w [] → read w ≡ (eof, w)
unfolding read
read-eof w h = rw h.left refl

abbrev is_torn : Read → Bool
is_torn tail_corruption = true
is_torn _ = false

read_frame-torn :
    (k : ℕ) (b : List ℕ) (w : Wal)
    → length b < frame_limit
    → 0 < k
    → k < 4 + length b
    → w.size ≡ w.position + k
    → (read_frame (take k (frame b)) w).0 ≡ tail_corruption
unfolding frame le_bytes
read_frame-torn zero b w small pos short e = absurd (omega arith)
read_frame-torn (suc zero) b w small pos short e = refl
read_frame-torn (suc (suc zero)) b w small pos short e = refl
read_frame-torn (suc (suc (suc zero))) b w small pos short e = refl
read_frame-torn (suc (suc (suc (suc k)))) b w small pos short e =
    let size_eq = from_le-u32 (length b) small in ground (arith, size_eq)

-- Where the next frame is not whole, but has begun, a read reports it.
pub read-torn :
    (w : Wal) (k : ℕ) (b : List ℕ)
    → length b < frame_limit
    → 0 < k
    → k < length (frame b)
    → Has w (take k (frame b))
    → (w' : Wal) × (read w ≡ (tail_corruption, w'))
unfolding read
read-torn w k b small pos short h =
    let len = length-frame b in
    let e =
      read_frame-torn k b w small pos (omega arith)
        (omega (arith, h.sized, length-take k (frame b))) in
    ((read_frame (take k (frame b)) w).1, rw h.left (ground (arith, e)))
