-- ===== src/Wal/Recovery.antt =====
-- What a replay recovers of a log that was written, completely or up to a torn frame.
use molia.Prelude.{
  ℕ, zero, suc, ◌+◌, ◌%◌, ◌≤◌, ◌<◌, ◌≡◌, refl, sym, ap, subst, inl, inr, true, false, none, some,
  List, [], ◌∷◌, ◌++◌, length, length-append, take, drop, length-drop, take-length-append,
  drop-length-append, append_split, All, get_or, ltb, nat_eq, beq_refl, Bool-cases, arith,
}
use mathlib.Core.List.{append_assoc}
use molia.Prelude.Words.{Bytes, u32_mod, to_le, le_value, length-to_le, le_value-to_le}
use molia.Wal.{Frame, write_frame, write_frames, read_body, read_frame, read_frames, replay_frames}

-- A payload whose length fits its field.
abbrev pub Fits : Frame → Type 0
Fits f = length f.1 < u32_mod

take_at : (n : ℕ) (xs ys : Bytes) → n ≡ length xs → take n (xs ++ ys) ≡ xs
take_at n xs ys e = rw e (take-length-append xs ys)

drop_at : (n : ℕ) (xs ys : Bytes) → n ≡ length xs → drop n (xs ++ ys) ≡ ys
drop_at n xs ys e = rw e (drop-length-append xs ys)

module _ (crc : Bytes → ℕ) where
  -- The header of a frame is read as it was written.
  read_frame_header :
      (hdr : Bytes) (ty : ℕ) (after : Bytes)
      → length hdr ≡ 4
      → read_frame crc (hdr ++ (ty ∷ after)) ≡ read_body crc ty (le_value hdr) after
  unfolding read_frame
  read_frame_header hdr ty after h =
      let long : ltb (length (hdr ++ (ty ∷ after))) 5 ≡ false =
        ground (arith, length-append hdr (ty ∷ after)) in
      rw (long, take_at 4 hdr (ty ∷ after) (sym h), at hdr h, past hdr h) refl
    where
      at : (xs : Bytes) → length xs ≡ 4 → get_or (xs ++ (ty ∷ after)) 4 0 ≡ ty
      at (a ∷ b ∷ c ∷ d ∷ []) e = refl
      at _ e = absurd (omega arith)

      past : (xs : Bytes) → length xs ≡ 4 → drop 5 (xs ++ (ty ∷ after)) ≡ after
      past (a ∷ b ∷ c ∷ d ∷ []) e = refl
      past _ e = absurd (omega arith)

  read_body_whole :
      (ty : ℕ) (payload check rest : Bytes)
      → length check ≡ 4
      → le_value check ≡ crc payload
      → read_body crc ty (length payload) (payload ++ (check ++ rest)) ≡ some ((ty, payload), rest)
  unfolding read_body
  read_body_whole ty p c rest size same =
      let enough : ltb (length (p ++ (c ++ rest))) (length p) ≡ false =
        ground (arith, length-append p (c ++ rest)) in
      let more : ltb (length (c ++ rest)) 4 ≡ false = ground (arith, length-append c rest) in
      rw
        (
          enough,
          take-length-append p (c ++ rest),
          drop-length-append p (c ++ rest),
          more,
          take_at 4 c rest (sym size),
          drop_at 4 c rest (sym size),
          same,
          beq_refl (crc p),
        )
        refl

  read_body_short :
      (ty len : ℕ) (rest : Bytes) → length rest < len + 4 → read_body crc ty len rest ≡ none
  unfolding read_body
  read_body_short ty len rest h = elim (Bool-cases (ltb (length rest) len)) [
    | inl short ↦ rw short refl
    | inr enough ↦
        let lacking : ltb (length (drop len rest)) 4 ≡ true =
          ground (arith, length-drop len rest) in
        rw (enough, lacking) refl
  ]

  length_field : (f : Frame) → Fits f → le_value (to_le 4 (length f.1 % u32_mod)) ≡ length f.1
  length_field f h = omega (arith, le_value-to_le 4 (length f.1 % u32_mod) (omega arith))

  read_frame-write_frame :
      (f : Frame) (rest : Bytes)
      → crc f.1 < u32_mod
      → Fits f
      → read_frame crc (write_frame crc f ++ rest) ≡ some (f, rest)
  unfolding write_frame
  read_frame-write_frame f rest word h =
      let hdr : Bytes = to_le 4 (length f.1 % u32_mod) in
      rw
        (
          append_assoc hdr (f.0 ∷ (f.1 ++ to_le 4 (crc f.1))) rest,
          append_assoc f.1 (to_le 4 (crc f.1)) rest,
          read_frame_header hdr f.0 (f.1 ++ (to_le 4 (crc f.1) ++ rest)) (length-to_le 4 _),
          length_field f h,
        )
        (read_body_whole f.0 f.1 (to_le 4 (crc f.1)) rest (length-to_le 4 _)
          (le_value-to_le 4 (crc f.1) (omega arith)))

  pub length-write_frame : (f : Frame) → length (write_frame crc f) ≡ length f.1 + 9
  unfolding write_frame
  length-write_frame f = omega (
    arith,
    length-append (to_le 4 (length f.1 % u32_mod)) (f.0 ∷ (f.1 ++ to_le 4 (crc f.1))),
    length-append f.1 (to_le 4 (crc f.1)),
    length-to_le 4 (length f.1 % u32_mod),
    length-to_le 4 (crc f.1),
  )

  -- A frame that lacks its last bytes is not read.
  torn_frame :
      (f : Frame) (part missing : Bytes)
      → Fits f
      → 0 < length missing
      → part ++ missing ≡ write_frame crc f
      → read_frame crc part ≡ none
  unfolding write_frame
  torn_frame f part missing h ne e = by_length part e
    where
      few : (xs : Bytes) → length xs < 5 → read_frame crc xs ≡ none
      few xs less =
          unfold read_frame in let short : ltb (length xs) 5 ≡ true = ground arith in rw short refl

      by_length : (xs : Bytes) → xs ++ missing ≡ write_frame crc f → read_frame crc xs ≡ none
      by_length [] q = few _ (omega arith)
      by_length (a ∷ []) q = few _ (omega arith)
      by_length (a ∷ b ∷ []) q = few _ (omega arith)
      by_length (a ∷ b ∷ c ∷ []) q = few _ (omega arith)
      by_length (a ∷ b ∷ c ∷ d ∷ []) q = few _ (omega arith)
      by_length (a ∷ b ∷ c ∷ d ∷ ty ∷ after) q =
          let (header, body) =
            append_split (a ∷ b ∷ c ∷ d ∷ []) (ty ∷ (after ++ missing))
              (to_le 4 (length f.1 % u32_mod)) (f.0 ∷ (f.1 ++ to_le 4 (crc f.1)))
              (sym (length-to_le 4 _)) q in
          rw (read_frame_header (a ∷ b ∷ c ∷ d ∷ []) ty after refl, header, length_field f h)
            (read_body_short ty (length f.1) after (
              omega (
                arith,
                ap length body,
                length-append after missing,
                length-append f.1 (to_le 4 (crc f.1)),
                length-to_le 4 (crc f.1),
              )))

  nothing_left : read_frame crc [] ≡ none
  unfolding read_frame
  nothing_left = refl

  length-write_frames : (fs : List Frame) → length fs ≤ length (write_frames crc fs)
  unfolding write_frames
  length-write_frames [] = omega arith
  length-write_frames (f ∷ fs) = omega (
    arith,
    length-append (write_frame crc f) (write_frames crc fs),
    length-write_frame f,
    length-write_frames fs,
  )

  read_frames-write_frames :
      (fs : List Frame) (tail : Bytes) (fuel : ℕ)
      → ((payload : Bytes) → crc payload < u32_mod)
      → All Fits fs
      → read_frame crc tail ≡ none
      → length fs ≤ fuel
      → read_frames crc fuel (write_frames crc fs ++ tail) ≡ fs
  unfolding read_frames write_frames
  read_frames-write_frames [] tail zero word fits end h = refl
  read_frames-write_frames (f ∷ fs) tail zero word fits end h = absurd (omega arith)
  read_frames-write_frames [] tail (suc fuel) word fits end h = rw (read_frames, end) refl
  read_frames-write_frames (f ∷ fs) tail (suc fuel) word fits end h =
      rw
        (
          read_frames,
          append_assoc (write_frame crc f) (write_frames crc fs) tail,
          read_frame-write_frame f (write_frames crc fs ++ tail) (word f.1) fits.0,
        )
        (ap (◌∷◌ f) (read_frames-write_frames fs tail fuel word fits.1 end (omega arith)))

-- A log that was written frame by frame, and whose last frame may be torn at any byte, is replayed as
-- exactly the complete frames, in order, when the checksum is a 32-bit number and no payload is as
-- long as `2 ^ 32` bytes.
pub replay_frames-write_frames :
    (crc : Bytes → ℕ) (fs : List Frame) (last : Frame) (part missing : Bytes)
    → ((payload : Bytes) → crc payload < u32_mod)
    → All Fits fs
    → Fits last
    → 0 < length missing
    → part ++ missing ≡ write_frame crc last
    → (replay_frames crc (write_frames crc fs ++ part) ≡ fs)
      × (replay_frames crc (write_frames crc fs) ≡ fs)
unfolding replay_frames
replay_frames-write_frames crc fs last part missing word fits size ne torn = (
  read_frames-write_frames crc fs part (length (write_frames crc fs ++ part)) word fits
      (torn_frame crc last part missing size ne torn)
      (omega (arith, length-append (write_frames crc fs) part, length-write_frames crc fs)),
  subst (λ f. read_frames crc (length (write_frames crc fs)) f ≡ fs)
      (append_nil (write_frames crc fs))
      (read_frames-write_frames crc fs [] (length (write_frames crc fs)) word fits
        (nothing_left crc) (length-write_frames crc fs)),
)
  where
    append_nil : (xs : Bytes) → xs ++ [] ≡ xs
    append_nil [] = refl
    append_nil (x ∷ xs) = ap (◌∷◌ x) (append_nil xs)
