-- ===== src/Prelude/Bits.antt =====
-- `^`, `&` and the leading zeros of words, as laws at variables.
use Prim.Native.Nat.{
  bit_xor, bit_and, bit_or, differ, digits, bitwise, bit_xor-bitwise, bit_and-bitwise,
  bit_or-bitwise,
}
use Prim.Native.Nat.{ℕ, zero, suc, ◌+◌, ◌-◌, ◌*◌, ◌/◌, ◌%◌, ◌^◌, ◌≤◌, ◌<◌, min, max}
use mathlib.Core.Path.{◌≡◌, refl, ap, ◌∙◌}
use native.Mathlib.Nat.{le_refl, pow-suc, one-le-pow}
use native.Mathlib.Omega.{arith}
use native.Mathlib.Decide.{dec_lt}
use mathlib.Core.Logic.{◌≢◌, inl, inr}
use package.molia.Prelude.Words.{digits_unique}
use package.molia.Prelude.Tests.{if◌then◌else◌, ◌==◌, nat_eq, beq→eq, Bool-cases}

-- The native operations stand for a recursion over binary digits that counts down a bound. A bound
-- that both numbers respect does not matter, which leaves an equation for the lowest digit.
module _ (rest : ℕ → ℕ) (op : ℕ → ℕ → ℕ) where
  enough : (k l m n : ℕ) → m ≤ k → m ≤ l → digits rest op k m n ≡ digits rest op l m n
  enough (suc k) (suc l) (suc m) n h g =
      rw (enough k l (suc m / 2) (n / 2) (omega arith) (omega arith))
  enough (suc k) (suc l) zero n h g = refl
  enough zero zero m n h g = refl
  enough (suc k) zero zero n h g = refl
  enough zero (suc l) zero n h g = refl
  enough (suc k) zero (suc m) n h g = absurd (omega arith)
  enough zero (suc l) (suc m) n h g = absurd (omega arith)

  lowest :
      (m n : ℕ)
      → bitwise rest op (suc m) n ≡ bitwise rest op (suc m / 2) (n / 2) * 2 + op (suc m % 2) (n % 2)
  lowest m n =
      let half : suc m / 2 ≤ m = omega arith in
      omega (arith, enough m (suc m / 2) (suc m / 2) (n / 2) half (le_refl _))

differ_bits : (x y : ℕ) → x < 2 → y < 2 → differ x y ≡ (x + y) % 2
differ_bits zero y p q = omega arith
differ_bits (suc zero) zero p q = refl
differ_bits (suc zero) (suc zero) p q = refl
differ_bits (suc zero) (suc (suc y)) p q = absurd (omega arith)
differ_bits (suc (suc x)) y p q = absurd (omega arith)

differ_sum : (a b : ℕ) → differ (a % 2) (b % 2) ≡ (a + b) % 2
differ_sum a b = omega (arith, differ_bits (a % 2) (b % 2) (omega arith) (omega arith))

-- The lowest digit of `a ^ b`.
pub bit_xor_step : (a b : ℕ) → bit_xor a b ≡ bit_xor (a / 2) (b / 2) * 2 + (a + b) % 2
bit_xor_step zero b = simp bit_xor-bitwise (omega arith)
bit_xor_step (suc a) b =
    rw (← differ_sum (suc a) b) (simp bit_xor-bitwise (lowest (λ y. y) differ a b))

pub zero-bit_xor : (b : ℕ) → bit_xor 0 b ≡ b
zero-bit_xor b = bit_xor-bitwise 0 b

xor_comm_below : (n a b : ℕ) → a ≤ n → b ≤ n → bit_xor a b ≡ bit_xor b a
xor_comm_below zero a b p q = let e : a ≡ b = omega arith in rw e
xor_comm_below (suc n) a b p q = omega (
  arith,
  bit_xor_step a b,
  bit_xor_step b a,
  xor_comm_below n (a / 2) (b / 2) (omega arith) (omega arith),
)

pub bit_xor_comm : (a b : ℕ) → bit_xor a b ≡ bit_xor b a
bit_xor_comm a b = xor_comm_below (a + b) a b (omega arith) (omega arith)

xor_cancel_below : (n a b : ℕ) → a ≤ n → b ≤ n → bit_xor (bit_xor a b) b ≡ a
xor_cancel_below zero a b p q =
    let e : a ≡ 0 = omega arith in let d : b ≡ 0 = omega arith in rw (e, d)
xor_cancel_below (suc n) a b p q =
    let half : bit_xor a b / 2 ≡ bit_xor (a / 2) (b / 2) = omega (arith, bit_xor_step a b) in
    rw (bit_xor_step (bit_xor a b) b, half)
      (omega
        (arith, bit_xor_step a b, xor_cancel_below n (a / 2) (b / 2) (omega arith) (omega arith)))

-- `(a ^ b) ^ b` is `a`.
pub bit_xor_cancel : (a b : ℕ) → bit_xor (bit_xor a b) b ≡ a
bit_xor_cancel a b = xor_cancel_below (a + b) a b (omega arith) (omega arith)

pub bit_xor_self : (a : ℕ) → bit_xor a a ≡ 0
bit_xor_self a = rw (zero-bit_xor a) at (bit_xor_cancel 0 a)

pub bit_xor-lt : (k a b : ℕ) → a < 2 ^ k → b < 2 ^ k → bit_xor a b < 2 ^ k
bit_xor-lt zero a b p q =
    let e : a ≡ 0 = omega arith in let d : b ≡ 0 = omega arith in rw (e, d) (omega arith)
bit_xor-lt (suc k) a b p q = omega (
  arith,
  pow-suc 2 k,
  bit_xor_step a b,
  bit_xor-lt k (a / 2) (b / 2) (omega (arith, pow-suc 2 k)) (omega (arith, pow-suc 2 k)),
)

-- The number of binary digits of a word of `w` bits.
unfoldable pub bit_length : ℕ → ℕ → ℕ
bit_length zero n = 0
bit_length (suc w) n = if n == 0 then 0 else suc (bit_length w (n / 2))

-- `leading_zeros` of a word of `w` bits.
abbrev pub leading_zeros : ℕ → ℕ → ℕ
leading_zeros w n = w - bit_length w n

pub bit_length-le : (w n : ℕ) → bit_length w n ≤ w
unfolding bit_length
bit_length-le zero n = omega arith
bit_length-le (suc w) n = ground (arith, bit_length-le w (n / 2))

pub bit_length-zero : (w : ℕ) → bit_length w 0 ≡ 0
unfolding bit_length
bit_length-zero zero = refl
bit_length-zero (suc w) = refl

-- A word has at most that many digits, and no fewer.
pub lt-pow-bit_length : (w n : ℕ) → n < 2 ^ w → n < 2 ^ bit_length w n
unfolding bit_length
lt-pow-bit_length zero n h = h
lt-pow-bit_length (suc w) n h = elim (Bool-cases (n == 0)) [
  | inl e ↦ rw e (omega (arith, beq→eq n 0 e))
  | inr e ↦ rw e (
      omega (
        arith,
        pow-suc 2 (bit_length w (n / 2)),
        lt-pow-bit_length w (n / 2) (omega (arith, pow-suc 2 w)),
      ))
]

pub pow-bit_length-le : (w n : ℕ) → n ≢ 0 → n < 2 ^ w → 2 ^ bit_length w n ≤ 2 * n
unfolding bit_length
pow-bit_length-le zero n ne h = absurd (ne (omega arith))
pow-bit_length-le (suc w) n ne h = elim (Bool-cases (n == 0)) [
  | inl e ↦ absurd (ne (beq→eq n 0 e))
  | inr e ↦
      rw (e, pow-suc 2 (bit_length w (n / 2)))
        (elim (dec_lt 1 n) [
          | yes p ↦
              omega (arith, pow-bit_length-le w (n / 2) (omega arith) (omega (arith, pow-suc 2 w)))
          | no p ↦ let one : n / 2 ≡ 0 = omega arith in rw (one, bit_length-zero w) (omega arith)
        ])
]

xor_assoc_below :
    (n a b c : ℕ) → a ≤ n → b ≤ n → c ≤ n → bit_xor (bit_xor a b) c ≡ bit_xor a (bit_xor b c)
xor_assoc_below zero a b c p q r =
    let e : a ≡ 0 = omega arith in
    let d : b ≡ 0 = omega arith in let f : c ≡ 0 = omega arith in rw (e, d, f)
xor_assoc_below (suc n) a b c p q r =
    let left : bit_xor a b / 2 ≡ bit_xor (a / 2) (b / 2) = omega (arith, bit_xor_step a b) in
    let right : bit_xor b c / 2 ≡ bit_xor (b / 2) (c / 2) = omega (arith, bit_xor_step b c) in
    rw (bit_xor_step (bit_xor a b) c, bit_xor_step a (bit_xor b c), left, right)
      (omega (
        arith,
        bit_xor_step a b,
        bit_xor_step b c,
        xor_assoc_below n (a / 2) (b / 2) (c / 2) (omega arith) (omega arith) (omega arith),
      ))

pub bit_xor_assoc : (a b c : ℕ) → bit_xor (bit_xor a b) c ≡ bit_xor a (bit_xor b c)
bit_xor_assoc a b c = xor_assoc_below (a + b + c) a b c (omega arith) (omega arith) (omega arith)

xor_le_below : (n a b : ℕ) → a ≤ n → b ≤ n → bit_xor a b ≤ a + b
xor_le_below zero a b p q =
    let e : a ≡ 0 = omega arith in let d : b ≡ 0 = omega arith in rw (e, d) (omega arith)
xor_le_below (suc n) a b p q =
    omega (arith, bit_xor_step a b, xor_le_below n (a / 2) (b / 2) (omega arith) (omega arith))

pub bit_xor-le-add : (a b : ℕ) → bit_xor a b ≤ a + b
bit_xor-le-add a b = xor_le_below (a + b) a b (omega arith) (omega arith)

pub pow-add : (a b : ℕ) → 2 ^ (a + b) ≡ 2 ^ a * 2 ^ b
pow-add zero b = let e : 0 + b ≡ b = omega arith in rw e (omega arith)
pow-add (suc a) b =
    let e : suc a + b ≡ suc (a + b) = omega arith in
    rw (e, pow-suc 2 (a + b), pow-suc 2 a, pow-add a b) (omega arith)

-- `&` by its lowest digit, and `|`.
pub bit_and_step : (m n : ℕ) → bit_and m n ≡ bit_and (m / 2) (n / 2) * 2 + min (m % 2) (n % 2)
bit_and_step (suc m) n = simp bit_and-bitwise (lowest (λ y. 0) min m n)
bit_and_step zero n = simp bit_and-bitwise (omega arith)

pub bit_or_step : (m n : ℕ) → bit_or m n ≡ bit_or (m / 2) (n / 2) * 2 + max (m % 2) (n % 2)
bit_or_step (suc m) n = simp bit_or-bitwise (lowest (λ y. y) max m n)
bit_or_step zero n = simp bit_or-bitwise (omega arith)

or_zero_below : (n a : ℕ) → a ≤ n → bit_or a 0 ≡ a
or_zero_below n zero h = refl
or_zero_below zero (suc a) h = absurd (omega arith)
or_zero_below (suc n) (suc a) h =
    omega (arith, bit_or_step (suc a) 0, or_zero_below n (suc a / 2) (omega arith))

and_zero_below : (n a : ℕ) → a ≤ n → bit_and a 0 ≡ 0
and_zero_below n zero h = refl
and_zero_below zero (suc a) h = absurd (omega arith)
and_zero_below (suc n) (suc a) h =
    omega (arith, bit_and_step (suc a) 0, and_zero_below n (suc a / 2) (omega arith))

-- `|` of a field with digits below it is their sum.
pub bit_or_field : (k q r : ℕ) → r < 2 ^ k → bit_or (q * 2 ^ k) r ≡ q * 2 ^ k + r
bit_or_field zero q r h =
    let e : r ≡ 0 = omega arith in rw e (or_zero_below (q * 1) (q * 1) (omega arith) ∙ omega arith)
bit_or_field (suc k) q r h =
    let shift : q * 2 ^ suc k ≡ 2 * (q * 2 ^ k) = ap (λ t. q * t) (pow-suc 2 k) ∙ omega arith in
    let half : q * 2 ^ suc k / 2 ≡ q * 2 ^ k = omega arith in
    rw (bit_or_step (q * 2 ^ suc k) r, half)
      (omega (arith, bit_or_field k q (r / 2) (omega (arith, pow-suc 2 k))))

mod_double : (a m : ℕ) → 0 < m → a % (2 * m) ≡ a / 2 % m * 2 + a % 2
mod_double a m h =
    (digits_unique (2 * m) (a / (2 * m)) (a / 2 / m) (a % (2 * m)) (a / 2 % m * 2 + a % 2)
      (omega arith) (omega arith) (grind arith)).1

-- `&` with a mask of `k` ones is the remainder by `2 ^ k`.
pub bit_and_mask : (k a : ℕ) → bit_and a (2 ^ k - 1) ≡ a % 2 ^ k
bit_and_mask zero a = and_zero_below a a (omega arith) ∙ omega arith
bit_and_mask (suc k) a =
    let half : (2 ^ suc k - 1) / 2 ≡ 2 ^ k - 1 =
      omega (arith, pow-suc 2 k, one-le-pow k 2 (omega arith)) in
    let double : 2 ^ suc k ≡ 2 * 2 ^ k = omega (arith, pow-suc 2 k) in
    rw (bit_and_step a (2 ^ suc k - 1), half, bit_and_mask k (a / 2), double)
      (omega
        (arith, one-le-pow k 2 (omega arith), mod_double a (2 ^ k) (one-le-pow k 2 (omega arith))))
