-- ===== src/Prelude/Words.antt =====
-- Bytes, and the big- and little-endian bytes of a word.
use Prim.Native.Nat.{ℕ, zero, suc, ◌+◌, ◌-◌, ◌*◌, ◌/◌, ◌%◌, ◌^◌, ◌<◌}
use mathlib.Core.Path.{◌≡◌, refl, ap, ap₂, sym, ◌∙◌}
use mathlib.Core.Logic.{◌⊎◌, inl, inr}
use mathlib.Core.List.{List, [], ◌∷◌, ◌++◌}
use native.Mathlib.Nat.{pow-suc}
use native.Mathlib.Numerals.{add-one}
use native.Mathlib.Omega.{arith}
use package.molia.Prelude.Lists.{length, length-append, All, All-append}

abbrev pub Bytes : Type 0
Bytes = List ℕ

abbrev pub IsBytes : Bytes → Type 0
IsBytes = All (λ b. b < 256)

abbrev pub u32_mod : ℕ
u32_mod = 2 ^ 32

abbrev pub u64_mod : ℕ
u64_mod = 2 ^ 64

-- The number that the bytes spell, the highest byte first.
unfoldable pub be_value : Bytes → ℕ
be_value [] = 0
be_value (b ∷ bs) = b * 256 ^ length bs + be_value bs

-- `to_be_bytes` of a word of `k` bytes.
unfoldable pub to_be : ℕ → ℕ → Bytes
to_be zero n = []
to_be (suc k) n = to_be k (n / 256) ++ n % 256 ∷ []

-- The lowest byte first.
unfoldable pub le_value : Bytes → ℕ
le_value [] = 0
le_value (b ∷ bs) = b + 256 * le_value bs

unfoldable pub to_le : ℕ → ℕ → Bytes
to_le zero n = []
to_le (suc k) n = n % 256 ∷ to_le k (n / 256)

pub length-to_be : (k n : ℕ) → length (to_be k n) ≡ k
unfolding to_be
length-to_be zero n = refl
length-to_be (suc k) n =
    omega (arith, length-append (to_be k (n / 256)) (n % 256 ∷ []), length-to_be k (n / 256))

pub to_be-IsBytes : (k n : ℕ) → IsBytes (to_be k n)
unfolding to_be
to_be-IsBytes zero n = tt
to_be-IsBytes (suc k) n =
    All-append _ (to_be k (n / 256)) _ (to_be-IsBytes k (n / 256)) (omega arith)

pow_shift : (c n : ℕ) → c * 256 ^ (n + 1) ≡ c * 256 ^ n * 256
pow_shift c n = rw (add-one n, pow-suc 256 n) (omega arith)

be_value-snoc : (bs : Bytes) (b : ℕ) → be_value (bs ++ b ∷ []) ≡ be_value bs * 256 + b
unfolding be_value
be_value-snoc [] b = omega arith
be_value-snoc (c ∷ bs) b =
    rw (be_value-snoc bs b, length-append bs (b ∷ [])) (omega (arith, pow_shift c (length bs)))

pub be_value-to_be : (k n : ℕ) → n < 256 ^ k → be_value (to_be k n) ≡ n
unfolding to_be be_value
be_value-to_be zero n h = omega arith
be_value-to_be (suc k) n h =
    be_value-snoc (to_be k (n / 256)) (n % 256)
    ∙ omega (arith, be_value-to_be k (n / 256) (omega (arith, pow-suc 256 k)))

pub be_value-lt : (bs : Bytes) → IsBytes bs → be_value bs < 256 ^ length bs
unfolding be_value
be_value-lt [] h = omega arith
be_value-lt (b ∷ bs) h = rw (pow-suc 256 (length bs)) (grind (arith, be_value-lt bs h.1))

-- A quotient and a remainder below `m` are determined by the number.
pub digits_unique : (m x y v w : ℕ) → v < m → w < m → x * m + v ≡ y * m + w → (x ≡ y) × (v ≡ w)
digits_unique m x y v w p q e = elim (compare_cases x y) [
  | inl same ↦ (same, ground arith)
  | inr (inl less) ↦ absurd (apart x y v w p less e)
  | inr (inr more) ↦ absurd (apart y x w v q more (sym e))
]
  where
    compare_cases : (a b : ℕ) → (a ≡ b) ⊎ ((a < b) ⊎ (b < a))
    compare_cases a b = grind arith

    apart : (a b u t : ℕ) → u < m → a < b → a * m + u ≡ b * m + t → ⊥
    apart a b u t lt less same =
        let k : b ≡ a + 1 + (b - a - 1) = omega arith in omega (arith, ap (λ (z : ℕ). z * m) k)

-- Bytes of one length that spell one number are the same.
pub be_value-injective :
    (bs cs : Bytes)
    → length bs ≡ length cs
    → IsBytes bs
    → IsBytes cs
    → be_value bs ≡ be_value cs
    → bs ≡ cs
unfolding be_value
be_value-injective [] [] l hb hc e = refl
be_value-injective [] (c ∷ cs) l hb hc e = absurd (omega arith)
be_value-injective (b ∷ bs) [] l hb hc e = absurd (omega arith)
be_value-injective (b ∷ bs) (c ∷ cs) l hb hc e =
    ap₂ ◌∷◌ split.0 (be_value-injective bs cs same hb.1 hc.1 split.1)
  where
    same : length bs ≡ length cs
    same = omega arith

    split : (b ≡ c) × (be_value bs ≡ be_value cs)
    split =
        digits_unique (256 ^ length bs) b c (be_value bs) (be_value cs) (be_value-lt bs hb.1)
          (rw same (be_value-lt cs hc.1)) (rw same (rw same at e))

pub to_be-be_value : (bs : Bytes) → IsBytes bs → to_be (length bs) (be_value bs) ≡ bs
to_be-be_value bs h =
    be_value-injective _ _ (length-to_be _ _) (to_be-IsBytes _ _) h
      (be_value-to_be (length bs) (be_value bs) (be_value-lt bs h))

pub length-to_le : (k n : ℕ) → length (to_le k n) ≡ k
unfolding to_le
length-to_le zero n = refl
length-to_le (suc k) n = ap suc (length-to_le k (n / 256))

pub le_value-to_le : (k n : ℕ) → n < 256 ^ k → le_value (to_le k n) ≡ n
unfolding to_le le_value
le_value-to_le zero n h = omega arith
le_value-to_le (suc k) n h =
    omega (arith, le_value-to_le k (n / 256) (omega (arith, pow-suc 256 k)))

pow256-add : (a b : ℕ) → 256 ^ (a + b) ≡ 256 ^ a * 256 ^ b
pow256-add zero b = let e : 0 + b ≡ b = omega arith in rw e (omega arith)
pow256-add (suc a) b =
    let e : suc a + b ≡ suc (a + b) = omega arith in
    rw (e, pow-suc 256 (a + b), pow-suc 256 a, pow256-add a b) (omega arith)

pub be_value-append :
    (bs cs : Bytes) → be_value (bs ++ cs) ≡ be_value bs * 256 ^ length cs + be_value cs
unfolding be_value
be_value-append [] cs = omega arith
be_value-append (b ∷ bs) cs =
    let shift : 256 ^ length (bs ++ cs) ≡ 256 ^ length bs * 256 ^ length cs =
      ap (λ n. 256 ^ n) (length-append bs cs) ∙ pow256-add (length bs) (length cs) in
    rw (shift, be_value-append bs cs) (omega arith)

pub le_value-injective :
    (bs cs : Bytes)
    → length bs ≡ length cs
    → IsBytes bs
    → IsBytes cs
    → le_value bs ≡ le_value cs
    → bs ≡ cs
unfolding le_value
le_value-injective [] [] l hb hc e = refl
le_value-injective [] (c ∷ cs) l hb hc e = absurd (omega arith)
le_value-injective (b ∷ bs) [] l hb hc e = absurd (omega arith)
le_value-injective (b ∷ bs) (c ∷ cs) l hb hc e =
    let low = hb.0 in
    let low' = hc.0 in
    let first : b ≡ c = omega arith in
    let rest : le_value bs ≡ le_value cs = omega arith in
    ap₂ ◌∷◌ first (le_value-injective bs cs (omega arith) hb.1 hc.1 rest)
