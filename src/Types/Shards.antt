-- ===== src/Types/Shards.antt =====
-- `shard_id`: which shard owns a key.
use native.Mathlib.Nat.{pow-suc, one-le-pow, div-lt_iff_lt-mul, div-div-eq-div-mul, div-eq_of_lt}
use molia.Prelude.{
  ℕ, zero, suc, ◌+◌, ◌-◌, ◌*◌, ◌/◌, ◌%◌, ◌^◌, ◌≤◌, ◌<◌, ◌≡◌, refl, sym, ap, ◌∙◌, inl, inr, length,
  take, drop, take-append-drop, length-take, length-drop, All-take, All-drop, ◌==◌, nat_eq, leb,
  Bool-cases, true, false, arith,
}
use molia.Prelude.Words.{Bytes, be_value, be_value-lt, be_value-append}
use molia.Prelude.Bits.{bit_length, bit_length-le, pow-add}
use molia.Types.{IsId, NodeId, Key, xor_distance, is_power_of_two, shard_id}
use molia.Types.Distance.{distance, xor_distance-IsId}

-- A power of two, in terms of the number of digits of the number before it.
power_of_two_lem : (w n : ℕ) → is_power_of_two w n ≡ true → (n ≡ 2 ^ bit_length w (n - 1)) × (1 ≤ n)
unfolding is_power_of_two bit_length
power_of_two_lem zero n h = cc
power_of_two_lem (suc w) n h = elim (Bool-cases (n % 2 == 1)) [
  | inl odd ↦ let one : n ≡ 1 = ground arith in rw one (omega arith)
  | inr even ↦
      let (half, pos) = power_of_two_lem w (n / 2) (ground arith) in
      let even2 : n % 2 ≡ 0 = ground arith in
      let down : (n - 1) / 2 ≡ n / 2 - 1 = omega arith in
      let more : (n - 1 == 0) ≡ false = ground arith in
      rw (more, down) (omega (arith, half, pos, pow-suc 2 (bit_length w (n / 2 - 1))))
]

is_power_of_two-pow : (w j : ℕ) → j < w → is_power_of_two w (2 ^ j) ≡ true
unfolding is_power_of_two
is_power_of_two-pow zero j h = absurd (omega arith)
is_power_of_two-pow (suc w) zero h = refl
is_power_of_two-pow (suc w) (suc j) h =
    let half : 2 ^ suc j / 2 ≡ 2 ^ j = omega (arith, pow-suc 2 j) in
    let even : 2 ^ suc j % 2 ≡ 0 = omega (arith, pow-suc 2 j) in
    rw (half, even) (is_power_of_two-pow w j (omega arith))

bit_length-pred-pow : (w j : ℕ) → j ≤ w → bit_length w (2 ^ j - 1) ≡ j
unfolding bit_length
bit_length-pred-pow zero j h = omega arith
bit_length-pred-pow (suc w) zero h = refl
bit_length-pred-pow (suc w) (suc j) h =
    let half : (2 ^ suc j - 1) / 2 ≡ 2 ^ j - 1 = omega (arith, pow-suc 2 j, one-le-pow j 2) in
    rw half (ground (arith, bit_length-pred-pow w j, pow-suc 2 j, one-le-pow j 2))

-- The first four bytes, and the number that all of them spell.
prefix-lt : {d : Bytes} → IsId d → be_value (take 4 d) < 2 ^ 32
prefix-lt {d} h =
    let n : length (take 4 d) ≡ 4 = omega (arith, length-take 4 d, h.size) in
    rw n at (be_value-lt (take 4 d) (All-take _ 4 d h.bytes))

value_split :
    {d : Bytes}
    → IsId d
    → (r : ℕ) × (be_value d ≡ be_value (take 4 d) * 2 ^ 224 + r) × (r < 2 ^ 224)
value_split {d} h =
    let n : length (drop 4 d) ≡ 28 = omega (arith, length-drop 4 d, h.size) in
    (
      be_value (drop 4 d),
      ap be_value (sym (take-append-drop 4 d)) ∙ (rw n at (be_value-append (take 4 d) (drop 4 d))),
      rw n at (be_value-lt (drop 4 d) (All-drop _ 4 d h.bytes)),
    )

div-pow-lt : (j p : ℕ) → j ≤ 32 → p < 2 ^ 32 → p / 2 ^ (32 - j) < 2 ^ j
div-pow-lt j p h lt =
    let e : j + (32 - j) ≡ 32 = omega arith in
    (div-lt_iff_lt-mul (one-le-pow (32 - j) 2 (omega arith))).1 (rw (← pow-add j (32 - j), e) lt)

-- For any positive 32-bit number of shards, the shard of a key of 256 bits is below it, so every key has
-- an owner.
pub shard_id-lt :
    (self_id : NodeId) (key : Key) (shard_count : ℕ)
    → IsId self_id
    → IsId key
    → 0 < shard_count
    → shard_count < 2 ^ 32
    → shard_id self_id key shard_count < shard_count
unfolding shard_id
shard_id-lt self_id key shard_count hs hk pos small = elim (Bool-cases (leb shard_count 1)) [
  | inl few ↦ rw few pos
  | inr more ↦
      let k = bit_length 32 (shard_count - 1) in
      let top = be_value (take 4 (xor_distance self_id key)) in
      let e : 32 - (32 - k) ≡ k = omega (arith, bit_length-le 32 (shard_count - 1)) in
      let fits : top / 2 ^ (32 - k) < 2 ^ k =
        div-pow-lt k top (bit_length-le 32 (shard_count - 1))
          (prefix-lt (xor_distance-IsId hs hk)) in
      rw (more, e) (ground (arith, power_of_two_lem 32 shard_count))
]

div_split :
    (j top r : ℕ) → j ≤ 32 → r < 2 ^ 224 → (top * 2 ^ 224 + r) / 2 ^ (256 - j) ≡ top / 2 ^ (32 - j)
div_split j top r h lt =
    let e : 256 - j ≡ 224 + (32 - j) = omega arith in
    let whole : (top * 2 ^ 224 + r) / 2 ^ 224 ≡ top = omega arith in
    rw (
      e,
      pow-add 224 (32 - j),
      ← div-div-eq-div-mul (top * 2 ^ 224 + r) (2 ^ 224) (2 ^ (32 - j)),
      whole,
    )

top_digits :
    (self_id : NodeId) (key : Key) (j : ℕ)
    → IsId self_id
    → IsId key
    → j ≤ 32
    → distance self_id key / 2 ^ (256 - j)
      ≡ be_value (take 4 (xor_distance self_id key)) / 2 ^ (32 - j)
top_digits self_id key j hs hk h =
    let (r, sum, lt) = value_split (xor_distance-IsId hs hk) in
    ap (λ v. v / 2 ^ (256 - j)) sum ∙ div_split j _ r h lt

-- With `2 ^ j` shards the owner is given by the `j` highest digits of the distance: each shard owns
-- the keys in one range of distances, an equal share of all.
pub shard_id-distance :
    (self_id : NodeId) (key : Key) (j : ℕ)
    → IsId self_id
    → IsId key
    → j < 32
    → shard_id self_id key (2 ^ j) ≡ distance self_id key / 2 ^ (256 - j)
unfolding shard_id
shard_id-distance self_id key zero hs hk h =
    rw (top_digits self_id key 0 hs hk (omega arith))
      (sym (div-eq_of_lt (prefix-lt (xor_distance-IsId hs hk))))
shard_id-distance self_id key (suc j) hs hk h =
    let many : leb (2 ^ suc j) 1 ≡ false = ground (arith, pow-suc 2 j, one-le-pow j 2) in
    rw
      (
        many,
        top_digits self_id key (suc j) hs hk (omega arith),
        is_power_of_two-pow 32 (suc j) h,
        bit_length-pred-pow 32 (suc j) (omega arith),
      )
      (let e : 32 - (32 - suc j) ≡ suc j = omega arith in rw e (ground arith))
