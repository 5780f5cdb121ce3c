-- ===== src/Crypto/Work.antt =====
-- Proof of work: leading zero bits as a bound on the hash.
use native.Mathlib.Nat.{pow-le-pow_right, mul-le-mul_right}
use native.Mathlib.Decide.{dec_lt}
use molia.Prelude.{
  ℕ, suc, ◌-◌, ◌*◌, ◌^◌, ◌≤◌, ◌<◌, ◌≡◌, ◌↔◌, refl, ap, [], ◌∷◌, length, ℕ_discrete, nat_eq, arith,
}
use molia.Prelude.Words.{Bytes, IsBytes, be_value}
use molia.Types.{IsId, leading_zeros_loop}
use molia.Types.Bucket.{leading_zeros_loop_add, leading_zeros_IsLog2}
use molia.Crypto.{leading_zero_bits}

leading_zeros_zero :
    (d : Bytes) → IsBytes d → be_value d ≡ 0 → leading_zeros_loop d 0 ≡ 8 * length d
unfolding leading_zeros_loop be_value
leading_zeros_zero [] h e = refl
leading_zeros_zero (b ∷ d) h e =
    let full : 0 < 256 ^ length d =
      pow-le-pow_right {n = 256} (omega arith) {i = 0} {j = length d} (omega arith) in
    let first : b ≡ 0 = elim (dec_lt 0 b) [
      | yes p ↦ absurd (omega (arith, mul-le-mul_right (256 ^ length d) p))
      | no p ↦ omega arith
    ] in
    rw first (
      omega (
        arith,
        leading_zeros_loop_add d 8,
        leading_zeros_zero d h.1 (omega (arith, ap (λ (t : ℕ). t * 256 ^ length d) first)),
      ))

-- A hash of 32 bytes has at least `d` leading zero bits exactly if, read as a number, it is below
-- `2 ^ (256 - d)`: each bit of difficulty halves the chance of a hash.
pub leading_zero_bits_iff :
    (h : Bytes) (d : ℕ)
    → IsId h
    → d ≤ 256
    → (d ≤ leading_zero_bits h) ↔ (be_value h < 2 ^ (256 - d))
unfolding leading_zero_bits
leading_zero_bits_iff h d w bound = elim (ℕ_discrete (be_value h) 0) [
  | yes z ↦ (
    λ le. rw z (pow-le-pow_right {n = 2} (omega arith) {i = 0} {j = 256 - d} (omega arith)),
    λ lt. omega (arith, leading_zeros_zero h w.bytes z, w.size),
  )
  | no nz ↦
      let (e, sum, (low, high)) = leading_zeros_IsLog2 h w.bytes nz in
      (
        λ le. omega (
          arith,
          pow-le-pow_right {n = 2} (omega arith) {i = suc e} {j = 256 - d} (omega (arith, w.size)),
        ),
        λ lt. elim (dec_lt (leading_zeros_loop h 0) d) [
          | yes short ↦ absurd (
              omega (
                arith,
                pow-le-pow_right {n = 2} (omega arith) {i = 256 - d} {j = e}
                    (omega (arith, w.size)),
              ))
          | no enough ↦ omega arith
        ],
      )
]
