-- ===== src/Erasure/Recovery.antt =====
-- Encoding and reconstruction.
use molia.Prelude.{
  ℕ, zero, suc, ◌+◌, ◌-◌, ◌*◌, ◌≤◌, ◌≡◌, refl, sym, ap, ◌∙◌, inl, inr, min, Option, none, some,
  List, [], ◌∷◌, ◌++◌, map, length, length-drop, replicate, take, drop, take-length-append,
  drop-add, take-append-drop, take_of_length-le, ltb, leb, Bool-cases, arith,
}
use mathlib.Core.List.{append_assoc}
use molia.Prelude.Words.{Bytes}
use molia.Erasure.{
  ReedSolomon, data_shards, parity_shards, shard_length, shard, split_data, encode, join,
  reconstruct,
}

drop_all : (n : ℕ) (xs : Bytes) → length xs ≤ n → drop n xs ≡ []
drop_all n xs h = nothing (drop n xs) (omega (arith, length-drop n xs))
  where
    nothing : (ys : Bytes) → length ys ≡ 0 → ys ≡ []
    nothing [] e = refl
    nothing (y ∷ ys) e = absurd (omega arith)

rejoin : (m : ℕ) (x pad : Bytes) → (take m x ++ []) ++ (drop m x ++ pad) ≡ x ++ pad
rejoin m x pad =
    ap (λ b. b ++ (drop m x ++ pad)) (append_nil (take m x))
    ∙ sym (append_assoc (take m x) (drop m x) pad)
    ∙ ap (λ b. b ++ pad) (take-append-drop m x)
  where
    append_nil : (xs : Bytes) → xs ++ [] ≡ xs
    append_nil [] = refl
    append_nil (y ∷ ys) = ap (◌∷◌ y) (append_nil ys)

-- The joined data shards are the data and a padding.
join-split_data :
    (count : ℕ) (d : Bytes) (m start : ℕ)
    → length d ≤ start + count * m
    → (pad : Bytes) × (join (map some (split_data count d m start)) ≡ drop start d ++ pad)
unfolding join split_data shard
join-split_data zero d m start h = ([], ap (λ b. b ++ []) (sym (drop_all start d (omega arith))))
join-split_data (suc count) d m start h = elim (Bool-cases (ltb start (length d))) [
  | inr past ↦
      let gone : drop start d ≡ [] = drop_all start d (ground arith) in
      (replicate m 0 ++ join (map some (split_data count d m (start + m))), rw (past, gone) refl)
  | inl inside ↦ elim (Bool-cases (leb m (length d - start))) [
    | inl whole ↦
        let (pad, more) = join-split_data count d m (start + m) (omega arith) in
        let full : min (length d - start) m ≡ m = ground arith in
        let none_left : m - m ≡ 0 = omega arith in
        (
          pad,
          rw (inside, full, none_left)
              (ap (λ b. (take m (drop start d) ++ []) ++ b)
                  (more ∙ ap (λ b. b ++ pad) (drop-add start m d))
                ∙ rejoin m (drop start d) pad),
        )
    | inr partial ↦
        let short : min (length d - start) m ≡ length d - start = ground arith in
        let all_there : take (length d - start) (drop start d) ≡ drop start d =
          take_of_length-le (length d - start) (drop start d)
            (omega (arith, length-drop start d)) in
        (
          replicate (m - (length d - start)) 0
              ++ join (map some (split_data count d m (start + m))),
          rw (inside, short, all_there)
              (append_assoc (drop start d) (replicate (m - (length d - start)) 0)
                (join (map some (split_data count d m (start + m))))),
        )
  ]
]

length-split_data :
    (count : ℕ) (d : Bytes) (m start : ℕ) → length (split_data count d m start) ≡ count
unfolding split_data
length-split_data zero d m start = refl
length-split_data (suc count) d m start = ap suc (length-split_data count d m (start + m))

-- Some of the shards are lost.
abbrev pub IsLossOf : List (Option Bytes) → List Bytes → Type 0
IsLossOf [] [] = Unit {0}
IsLossOf (none ∷ ss) (b ∷ bs) = IsLossOf ss bs
IsLossOf (some c ∷ ss) (b ∷ bs) = (c ≡ b) × IsLossOf ss bs
IsLossOf _ _ = ⊥

abbrev pub missing : List (Option Bytes) → ℕ
missing [] = 0
missing (none ∷ ss) = missing ss + 1
missing (some c ∷ ss) = missing ss

-- What the library documents of a 10:4 code: the data shards are kept in front, and a code word is
-- rebuilt when at most four of its shards are lost.
pub record IsReedSolomon (rs : ReedSolomon) : Type 0 where
  pub systematic :
      (ss code : List Bytes)
      → rs.encode ss ≡ some code
      → take data_shards code ≡ take data_shards ss
  pub rebuilds :
      (ss code : List Bytes) (lossy : List (Option Bytes))
      → rs.encode ss ≡ some code
      → IsLossOf lossy code
      → missing lossy ≤ parity_shards
      → rs.reconstruct lossy ≡ some (map some code)

take-map : (n : ℕ) (bs : List Bytes) → take n (map some bs) ≡ map some (take n bs)
take-map zero bs = refl
take-map (suc n) [] = refl
take-map (suc n) (b ∷ bs) = ap (◌∷◌ (some b)) (take-map n bs)

-- A value whose shards were encoded is reconstructed, byte for byte, from any of the 14 shards of
-- which at most four are lost, given its length.
pub reconstruct-encode :
    (rs : ReedSolomon) (d : Bytes) (code : List Bytes) (lossy : List (Option Bytes))
    → IsReedSolomon rs
    → encode rs d ≡ some code
    → IsLossOf lossy code
    → missing lossy ≤ parity_shards
    → reconstruct rs lossy (length d) ≡ some d
unfolding encode reconstruct
reconstruct-encode rs d code lossy w e loss few =
    let m = shard_length d in
    let (pad, joined) = join-split_data data_shards d m 0 (omega arith) in
    let front : take data_shards code ≡ split_data data_shards d m 0 =
      w.systematic _ code e
      ∙ ap (λ n. take n (split_data data_shards d m 0 ++ replicate parity_shards (replicate m 0)))
          (sym (length-split_data data_shards d m 0))
      ∙ take-length-append (split_data data_shards d m 0)
          (replicate parity_shards (replicate m 0)) in
    rw (reconstruct, w.rebuilds _ code lossy e loss few, take-map data_shards code, front, joined)
      (ap some (take-length-append d pad))
