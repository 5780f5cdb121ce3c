-- ===== src/Erasure.antt =====
-- src/erasure.rs: the shards of a large value. The Reed-Solomon code is third-party code, a parameter.
pub mod Recovery
use molia.Prelude.{
  ℕ, zero, suc, ◌+◌, ◌-◌, ◌*◌, ◌/◌, ◌≡◌, min, Bool, true, false, Option, none, some, List, [], ◌∷◌,
  ◌++◌, map, length, replicate, take, drop, if◌then◌else◌, ltb, leb,
}
use molia.Prelude.Words.{Bytes}

abbrev pub data_shards : ℕ
data_shards = 10

abbrev pub parity_shards : ℕ
parity_shards = 4

abbrev pub threshold : ℕ
threshold = 1024 * 1024

unfoldable pub should_erasure : ℕ → Bool
should_erasure len = leb threshold len

-- `ReedSolomon::encode` and `reconstruct` for 10 data and 4 parity shards. `encode` gets the shards
-- with empty parity; both return nothing where the library returns an error.
pub record ReedSolomon : Type 0 where
  pub encode : List Bytes → Option (List Bytes)
  pub reconstruct : List (Option Bytes) → Option (List (Option Bytes))

-- `div_ceil`.
abbrev pub shard_length : Bytes → ℕ
shard_length d = (length d + data_shards - 1) / data_shards

-- Shard `i`: `shard_len` bytes from `start`, filled up with zeros. Past the end of the data, all zeros.
unfoldable pub shard : Bytes → ℕ → ℕ → Bytes
shard d shard_len start =
    if ltb start (length d)
    then (let n = min (length d - start) shard_len in
        take n (drop start d) ++ replicate (shard_len - n) 0)
    else replicate shard_len 0

-- The loop over the data shards, from one start on.
unfoldable pub split_data : ℕ → Bytes → ℕ → ℕ → List Bytes
unfolding shard
split_data zero d shard_len start = []
split_data (suc count) d shard_len start =
    shard d shard_len start ∷ split_data count d shard_len (start + shard_len)

unfoldable pub encode : ReedSolomon → Bytes → Option (List Bytes)
unfolding split_data
encode rs d = rs.encode (
    split_data data_shards d (shard_length d) 0
    ++ replicate parity_shards (replicate (shard_length d) 0))

-- `extend_from_slice` of every shard that is there.
unfoldable pub join : List (Option Bytes) → Bytes
join [] = []
join (none ∷ ss) = join ss
join (some b ∷ ss) = b ++ join ss

unfoldable pub reconstruct : ReedSolomon → List (Option Bytes) → ℕ → Option Bytes
unfolding join
reconstruct rs shards original_len = elim (rs.reconstruct shards) [
  | none ↦ none
  | some whole ↦ some (take original_len (join (take data_shards whole)))
]
