-- ===== src/Types/Bucket.antt =====
-- `bucket_index` against its definition: the logarithm of the distance.
use mathlib.Core.Logic.{◌≢◌}
use native.Mathlib.Nat.{pow-suc, mul-le-mul_right}
use native.Mathlib.Decide.{dec_lt}
use molia.Prelude.{
  ℕ, zero, suc, ◌+◌, ◌-◌, ◌*◌, ◌^◌, ◌≤◌, ◌<◌, ◌≡◌, refl, sym, ap, inl, inr, [], ◌∷◌, length, ◌∙◌,
  ◌==◌, nat_eq, beq→eq, Bool-cases, arith,
}
use molia.Prelude.Words.{Bytes, IsBytes, be_value, be_value-lt}
use molia.Prelude.Bits.{bit_length, bit_length-le, lt-pow-bit_length, pow-bit_length-le, pow-add}
use molia.Types.{IsId, xor_distance, leading_zeros_loop, leading_zeros_256, bucket_index}
use molia.Types.Distance.{distance, xor_distance-IsId, distance-metric, xor_distance_self}

pub leading_zeros_loop_add :
    (d : Bytes) (n : ℕ) → leading_zeros_loop d n ≡ n + leading_zeros_loop d 0
unfolding leading_zeros_loop
leading_zeros_loop_add [] n = omega arith
leading_zeros_loop_add (b ∷ d) n =
    ground (arith, leading_zeros_loop_add d (n + 8), leading_zeros_loop_add d 8)

-- `e` is the position of the highest binary digit of `v`.
abbrev pub IsLog2 : ℕ → ℕ → Type 0
IsLog2 e v = (2 ^ e ≤ v) × (v < 2 ^ suc e)

pow-bytes : (m : ℕ) → 256 ^ m ≡ 2 ^ (8 * m)
pow-bytes zero = refl
pow-bytes (suc m) =
    let e : 8 * suc m ≡ 8 + 8 * m = omega arith in
    rw (e, pow-add 8 (8 * m), pow-suc 256 m, pow-bytes m) (omega arith)

IsLog2-head :
    (b m w l : ℕ)
    → bit_length 8 b ≡ suc l
    → b ≢ 0
    → b < 256
    → w < 256 ^ m
    → IsLog2 (l + 8 * m) (b * 256 ^ m + w)
IsLog2-head b m w l e ne small below =
    let low : 2 ^ l ≤ b =
      omega (arith, pow-suc 2 l, ap (λ k. 2 ^ k) e, pow-bit_length-le 8 b ne small) in
    let high : b + 1 ≤ 2 * 2 ^ l =
      omega (arith, pow-suc 2 l, ap (λ k. 2 ^ k) e, lt-pow-bit_length 8 b small) in
    rw (pow-suc 2 (l + 8 * m), pow-add l (8 * m), ← pow-bytes m)
      (omega (arith, mul-le-mul_right (256 ^ m) low, mul-le-mul_right (256 ^ m) high))

bit_length_pos : (b : ℕ) → b ≢ 0 → b < 256 → 0 < bit_length 8 b
bit_length_pos b ne small = elim (dec_lt 0 (bit_length 8 b)) [
  | yes p ↦ p
  | no p ↦
      let z : bit_length 8 b ≡ 0 = omega arith in
      absurd (ne (omega (arith, ap (λ k. 2 ^ k) z, lt-pow-bit_length 8 b small)))
]

pub leading_zeros_IsLog2 :
    (d : Bytes)
    → IsBytes d
    → be_value d ≢ 0
    → (e : ℕ) × (leading_zeros_loop d 0 + suc e ≡ 8 * length d) × IsLog2 e (be_value d)
unfolding be_value leading_zeros_loop
leading_zeros_IsLog2 [] h ne = absurd (ne refl)
leading_zeros_IsLog2 (b ∷ d) h ne = elim (Bool-cases (b == 0)) [
  | inl e ↦
      let z : b ≡ 0 = beq→eq b 0 e in
      let none_here = ap (λ (t : ℕ). t * 256 ^ length d) z in
      let (k, sum, low) = leading_zeros_IsLog2 d h.1 (λ n. ne (omega (arith, none_here))) in
      (k, rw e (omega (arith, leading_zeros_loop_add d 8)), omega (arith, none_here))
  | inr e ↦
      let nz : b ≢ 0 = ground arith in
      let l = bit_length 8 b - 1 in
      let s : bit_length 8 b ≡ suc l = omega (arith, bit_length_pos b nz h.0) in
      let bounds = IsLog2-head b (length d) (be_value d) l s nz h.0 (be_value-lt d h.1) in
      (l + 8 * length d, rw e (omega (arith, bit_length-le 8 b)), bounds)
]

pub bucket_index-lt : (a b : Bytes) → bucket_index a b < 256
unfolding bucket_index
bucket_index-lt a b = ground arith

-- The bucket of another identifier is the binary logarithm of its distance, rounded down, so that
-- bucket `i` covers the distances from `2 ^ i` up to `2 ^ (i + 1)`; an identifier's own bucket is 0.
pub bucket_index-IsLog2 :
    (a b : Bytes)
    → IsId a
    → IsId b
    → (a ≢ b → IsLog2 (bucket_index a b) (distance a b)) × (a ≡ b → bucket_index a b ≡ 0)
bucket_index-IsLog2 a b ha hb = (apart, λ same. ap (bucket_index a) (sym same) ∙ alone)
  where
    alone : bucket_index a a ≡ 0
    alone =
        unfold bucket_index leading_zeros_256 leading_zeros_loop in
        rw (xor_distance_self a, ha.size)

    apart : a ≢ b → IsLog2 (bucket_index a b) (distance a b)
    apart ne =
        let d : IsId (xor_distance a b) = xor_distance-IsId ha hb in
        let (e, sum, bounds) =
          leading_zeros_IsLog2 (xor_distance a b) d.bytes
            (λ z. ne ((distance-metric a b a ha hb ha).0.0 z)) in
        let log : bucket_index a b ≡ e = unfold bucket_index leading_zeros_256 in ground arith in
        rw log bounds
