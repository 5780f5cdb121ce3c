-- ===== src/Wal.antt =====
-- The framing of the write-ahead log, which src/peerstore.rs writes and src/peerstore.rs and
-- src/store.rs read: four bytes of length, a type, the payload, and four bytes of checksum. The
-- checksum (`crc32fast`) is third-party code, a parameter `crc`. A file is its bytes; reading from it
-- succeeds or meets the end of the file, so that the other errors of the file system are not modelled.
pub mod Recovery
pub mod Fuel
use molia.Prelude.{
  ℕ, zero, suc, ◌+◌, ◌%◌, ◌≡◌, Bool, true, false, Option, none, some, List, [], ◌∷◌, ◌++◌, length,
  take, drop, get_or, if◌then◌else◌, ltb, ◌==◌, nat_eq, arith,
}
use molia.Prelude.Words.{Bytes, u32_mod, to_le, le_value}

abbrev pub type_upsert : ℕ
type_upsert = 1

abbrev pub type_tombstone : ℕ
type_tombstone = 2

abbrev pub type_record : ℕ
type_record = 3

-- A frame: its type and its payload.
abbrev pub Frame : Type 0
Frame = ℕ × Bytes

module _ (crc : Bytes → ℕ) where
  -- `payload.len() as u32` wraps.
  unfoldable pub write_frame : Frame → Bytes
  write_frame (ty, payload) =
      to_le 4 (length payload % u32_mod) ++ (ty ∷ (payload ++ to_le 4 (crc payload)))

  unfoldable pub write_frames : List Frame → Bytes
  unfolding write_frame
  write_frames [] = []
  write_frames (f ∷ fs) = write_frame f ++ write_frames fs

  -- A round of the loop of `replay` and of `replay_wal`, after the header: the payload of `len` bytes
  -- and its checksum. Nothing is returned where the loop is left.
  unfoldable pub read_body : ℕ → ℕ → Bytes → Option (Frame × Bytes)
  read_body ty len rest =
      if ltb (length rest) len
      then none
      else (let payload = take len rest in
          let tail = drop len rest in
          if ltb (length tail) 4
          then none
          else if crc payload == le_value (take 4 tail)
          then some ((ty, payload), drop 4 tail)
          else none)

  unfoldable pub read_frame : Bytes → Option (Frame × Bytes)
  unfolding read_body
  read_frame f =
      if ltb (length f) 5 then none else read_body (get_or f 4 0) (le_value (take 4 f)) (drop 5 f)

  -- The frames that the loop applies, in order; each one takes at least nine bytes.
  unfoldable pub read_frames : ℕ → Bytes → List Frame
  unfolding read_frame
  read_frames zero f = []
  read_frames (suc fuel) f = elim (read_frame f) [
    | none ↦ []
    | some (frame, rest) ↦ frame ∷ read_frames fuel rest
  ]

  unfoldable pub replay_frames : Bytes → List Frame
  unfolding read_frames
  replay_frames f = read_frames (length f) f
