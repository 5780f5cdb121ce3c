-- ===== src/Wal/Fuel.antt =====
-- The loop of a replay ends: the length of the file is fuel enough.
use molia.Prelude.{
  ℕ, zero, suc, ◌≤◌, ◌<◌, ◌≡◌, refl, ap, inl, inr, false, some, [], ◌∷◌, length, take, drop,
  length-drop, get_or, ltb, ◌==◌, nat_eq, Bool-cases, Option-cases, arith,
}
use molia.Prelude.Words.{Bytes, le_value}
use molia.Wal.{Frame, read_body, read_frame, read_frames, replay_frames}

module _ (crc : Bytes → ℕ) where
  read_body-shorter :
      (ty len : ℕ) (rest after : Bytes) (frame : Frame)
      → read_body crc ty len rest ≡ some (frame, after)
      → length after ≤ length rest
  unfolding read_body
  read_body-shorter ty len rest after frame h = elim (Bool-cases (ltb (length rest) len)) [
    | inl short ↦ absurd (ground arith)
    | inr enough ↦ elim (Bool-cases (ltb (length (drop len rest)) 4)) [
      | inl torn ↦ absurd (ground arith)
      | inr whole ↦ elim (Bool-cases (crc (take len rest) == le_value (take 4 (drop len rest)))) [
        | inr wrong ↦ absurd (ground arith)
        | inl right ↦
            let same : drop 4 (drop len rest) ≡ after = ground arith in
            omega (arith, ap length same, length-drop 4 (drop len rest), length-drop len rest)
      ]
    ]
  ]

  read_frame-shorter :
      (f rest : Bytes) (frame : Frame)
      → read_frame crc f ≡ some (frame, rest)
      → length rest < length f
  unfolding read_frame
  read_frame-shorter f rest frame h = elim (Bool-cases (ltb (length f) 5)) [
    | inl short ↦ absurd (ground arith)
    | inr long ↦
        let body : read_body crc (get_or f 4 0) (le_value (take 4 f)) (drop 5 f)
            ≡ some (frame, rest) =
          rw (read_frame, long) at (h) in
        omega (
          arith,
          read_body-shorter (get_or f 4 0) (le_value (take 4 f)) (drop 5 f) rest frame body,
          length-drop 5 f,
          ltb-false long,
        )
  ]
    where
      ltb-false : ltb (length f) 5 ≡ false → 5 ≤ length f
      ltb-false e = ground arith

  read_frames-fuel :
      (m n : ℕ) (f : Bytes)
      → length f ≤ m
      → length f ≤ n
      → read_frames crc m f ≡ read_frames crc n f
  unfolding read_frames read_frame
  read_frames-fuel zero zero f p q = refl
  read_frames-fuel zero (suc n) [] p q = refl
  read_frames-fuel zero (suc n) (b ∷ f) p q = absurd (omega arith)
  read_frames-fuel (suc m) zero [] p q = refl
  read_frames-fuel (suc m) zero (b ∷ f) p q = absurd (omega arith)
  read_frames-fuel (suc m) (suc n) f p q = elim (Option-cases (read_frame crc f)) [
    | inl end ↦ rw (read_frames, end) refl
    | inr ((frame, rest), more) ↦
        let less = read_frame-shorter f rest frame more in
        rw (read_frames, more)
          (ap (◌∷◌ frame) (read_frames-fuel m n rest (omega arith) (omega arith)))
  ]

-- A replay reads a file, whatever its bytes, to the point where the loop of the source leaves it: any
-- more rounds than the file has bytes read the same frames.
pub replay_frames_total :
    (crc : Bytes → ℕ) (f : Bytes) (fuel : ℕ)
    → length f ≤ fuel
    → read_frames crc fuel f ≡ replay_frames crc f
unfolding replay_frames
replay_frames_total crc f fuel h = read_frames-fuel crc fuel (length f) f h (omega arith)
