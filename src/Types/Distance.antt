-- ===== src/Types/Distance.antt =====
-- The XOR distance as a metric on identifiers.
use Prim.Native.Nat.{bit_xor}
use native.Mathlib.Nat.{mul-le-mul_right}
use molia.Prelude.{
  ℕ, zero, suc, ◌+◌, ◌*◌, ◌^◌, ◌≤◌, ◌<◌, ◌≡◌, refl, sym, ap, ap₂, ◌∙◌, ◌↔◌, [], ◌∷◌, length,
  replicate, length-replicate, All-replicate, arith,
}
use molia.Prelude.Words.{Bytes, IsBytes, be_value, be_value-injective}
use molia.Prelude.Bits.{
  bit_xor_comm, bit_xor_self, bit_xor_cancel, bit_xor_assoc, bit_xor-lt, bit_xor-le-add,
}
use molia.Types.{IsId, xor_distance}

pub length-xor_distance : (a b : Bytes) → length a ≡ length b → length (xor_distance a b) ≡ length a
unfolding xor_distance
length-xor_distance [] b h = refl
length-xor_distance (x ∷ a) [] h = absurd (omega arith)
length-xor_distance (x ∷ a) (y ∷ b) h = ap suc (length-xor_distance a b (omega arith))

pub xor_distance-IsBytes : (a b : Bytes) → IsBytes a → IsBytes b → IsBytes (xor_distance a b)
unfolding xor_distance
xor_distance-IsBytes [] b ha hb = tt
xor_distance-IsBytes (x ∷ a) [] ha hb = tt
xor_distance-IsBytes (x ∷ a) (y ∷ b) ha hb =
    (bit_xor-lt 8 x y ha.0 hb.0, xor_distance-IsBytes a b ha.1 hb.1)

pub xor_distance-IsId : {a b : Bytes} → IsId a → IsId b → IsId (xor_distance a b)
xor_distance-IsId {a} {b} ha hb = record {
  size = omega (arith, length-xor_distance a b (omega arith));
  bytes = xor_distance-IsBytes a b ha.bytes hb.bytes;
}

pub xor_distance_comm : (a b : Bytes) → xor_distance a b ≡ xor_distance b a
unfolding xor_distance
xor_distance_comm [] [] = refl
xor_distance_comm [] (y ∷ b) = refl
xor_distance_comm (x ∷ a) [] = refl
xor_distance_comm (x ∷ a) (y ∷ b) = ap₂ ◌∷◌ (bit_xor_comm x y) (xor_distance_comm a b)

pub xor_distance_cancel :
    (a b : Bytes) → length a ≡ length b → xor_distance (xor_distance a b) b ≡ a
unfolding xor_distance
xor_distance_cancel [] b h = refl
xor_distance_cancel (x ∷ a) [] h = absurd (omega arith)
xor_distance_cancel (x ∷ a) (y ∷ b) h =
    ap₂ ◌∷◌ (bit_xor_cancel x y) (xor_distance_cancel a b (omega arith))

pub xor_distance_assoc :
    (a b c : Bytes) → xor_distance (xor_distance a b) c ≡ xor_distance a (xor_distance b c)
unfolding xor_distance
xor_distance_assoc [] b c = refl
xor_distance_assoc (x ∷ a) [] c = refl
xor_distance_assoc (x ∷ a) (y ∷ b) [] = refl
xor_distance_assoc (x ∷ a) (y ∷ b) (z ∷ c) =
    ap₂ ◌∷◌ (bit_xor_assoc x y z) (xor_distance_assoc a b c)

pub xor_distance_self : (a : Bytes) → xor_distance a a ≡ replicate (length a) 0
unfolding xor_distance
xor_distance_self [] = refl
xor_distance_self (x ∷ a) = ap₂ ◌∷◌ (bit_xor_self x) (xor_distance_self a)

scaled_le : (z x y p : ℕ) → z ≤ x + y → z * p ≤ x * p + y * p
scaled_le z x y p h = omega (arith, mul-le-mul_right p h)

be_value-xor-le :
    (a b : Bytes) → length a ≡ length b → be_value (xor_distance a b) ≤ be_value a + be_value b
unfolding xor_distance be_value
be_value-xor-le [] b h = omega arith
be_value-xor-le (x ∷ a) [] h = absurd (omega arith)
be_value-xor-le (x ∷ a) (y ∷ b) h =
    let same : length a ≡ length b = omega arith in
    rw (length-xor_distance a b same, ← same)
      (omega (
        arith,
        scaled_le (bit_xor x y) x y (256 ^ length a) (bit_xor-le-add x y),
        be_value-xor-le a b same,
      ))

pub be_value-zeros : (n : ℕ) → be_value (replicate n 0) ≡ 0
unfolding be_value
be_value-zeros zero = refl
be_value-zeros (suc n) = omega (arith, be_value-zeros n)

-- The distance of two identifiers, read as the number that they are compared by.
abbrev pub distance : Bytes → Bytes → ℕ
distance a b = be_value (xor_distance a b)

distance_zero : {a b : Bytes} → IsId a → IsId b → distance a b ≡ 0 → a ≡ b
distance_zero {a} {b} ha hb e =
    sym (xor_distance_cancel a b (omega arith))
    ∙ ap (λ d. xor_distance d b) (nothing ∙ sym (xor_distance_self b))
    ∙ xor_distance_cancel b b refl
  where
    nothing : xor_distance a b ≡ replicate (length b) 0
    nothing =
        let d : IsId (xor_distance a b) = xor_distance-IsId ha hb in
        be_value-injective _ _ (omega (arith, length-replicate {A = ℕ} (length b) 0)) d.bytes
          (All-replicate (λ b. b < 256) (length b) 0 (omega arith))
          (e ∙ sym (be_value-zeros (length b)))

-- What lies between `a` and `c` is what lies between `a` and `b`, and between `b` and `c`.
xor_distance_split :
    (a b c : Bytes)
    → length a ≡ length b
    → length b ≡ length c
    → xor_distance (xor_distance a b) (xor_distance b c) ≡ xor_distance a c
xor_distance_split a b c h k =
    sym (xor_distance_assoc (xor_distance a b) b c)
    ∙ ap (λ d. xor_distance d c) (xor_distance_cancel a b h)

distance_triangle :
    {a b c : Bytes} → IsId a → IsId b → IsId c → distance a c ≤ distance a b + distance b c
distance_triangle {a} {b} {c} ha hb hc =
    let d : IsId (xor_distance a b) = xor_distance-IsId ha hb in
    let e : IsId (xor_distance b c) = xor_distance-IsId hb hc in
    rw (← xor_distance_split a b c (omega arith) (omega arith))
      (be_value-xor-le (xor_distance a b) (xor_distance b c) (omega arith))

pub distance-metric :
    (a b c : Bytes)
    → IsId a
    → IsId b
    → IsId c
    → ((distance a b ≡ 0) ↔ (a ≡ b))
      × (distance a b ≡ distance b a)
      × (distance a c ≤ distance a b + distance b c)
distance-metric a b c ha hb hc = (
  (distance_zero ha hb, λ e. rw (e, xor_distance_self b) (be_value-zeros (length b))),
  ap be_value (xor_distance_comm a b),
  distance_triangle ha hb hc,
)

-- XOR is unidirectional: around a point, every identifier is the distance of exactly one other.
pub xor_distance_unique :
    (a d : Bytes)
    → IsId a
    → IsId d
    → IsId (xor_distance a d)
      × (xor_distance a (xor_distance a d) ≡ d)
      × ((b : Bytes) → IsId b → xor_distance a b ≡ d → b ≡ xor_distance a d)
xor_distance_unique a d ha hd = (
  xor_distance-IsId ha hd,
  undo a d ha hd,
  λ b hb e. sym (undo a b ha hb) ∙ ap (xor_distance a) e,
)
  where
    undo : (x y : Bytes) → IsId x → IsId y → xor_distance x (xor_distance x y) ≡ y
    undo x y hx hy =
        xor_distance_comm x (xor_distance x y)
        ∙ ap (λ z. xor_distance z x) (xor_distance_comm x y)
        ∙ xor_distance_cancel y x (omega arith)
