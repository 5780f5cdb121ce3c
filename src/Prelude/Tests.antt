-- ===== src/Prelude/Tests.antt =====
-- Boolean tests on numbers, equality of keys as an interface, the conditional, case splits.
use Prim.Native.Nat.{ℕ, ◌≤◌, ◌<◌, compare, Ordering}
use mathlib.Core.Path.{◌≡◌, refl}
use mathlib.Core.Logic.{◌↔◌, ◌⊎◌, inl, inr}
use mathlib.Core.Bool.{Bool, true, false, ◌&&◌}
use mathlib.Core.List.{List, [], ◌∷◌}
use mathlib.Core.Option.{Option, none, some}
use native.Mathlib.Omega.{arith}

abbrev pub ltb : ℕ → ℕ → Bool
ltb a b = elim (compare a b) [ Ordering.lt ↦ true | _ ↦ false ]

abbrev pub leb : ℕ → ℕ → Bool
leb a b = elim (compare a b) [ Ordering.gt ↦ false | _ ↦ true ]

abbrev pub nat_beq : ℕ → ℕ → Bool
nat_beq a b = elim (compare a b) [ Ordering.eq ↦ true | _ ↦ false ]

infix 1 if◌then◌else◌
abbrev pub if◌then◌else◌ {ℓ} : {A : Type ℓ} → Bool → A → A → A
if true then x else y = x
if false then x else y = y

pub ltb→lt : (a b : ℕ) → ltb a b ≡ true → a < b
ltb→lt a b h = ground arith

pub lt→ltb : (a b : ℕ) → a < b → ltb a b ≡ true
lt→ltb a b h = ground arith

pub leb→le : (a b : ℕ) → leb a b ≡ true → a ≤ b
leb→le a b h = ground arith

pub le→leb : (a b : ℕ) → a ≤ b → leb a b ≡ true
le→leb a b h = ground arith

pub nat_beq_iff : (a b : ℕ) → (nat_beq a b ≡ true) ↔ (a ≡ b)
nat_beq_iff a b = ground arith

pub ruleset tests = (arith, ltb→lt, lt→ltb, leb→le, le→leb)

-- `PartialEq` with `Eq`: a test that decides equality.
pub record Eq {ℓ} (T : Type ℓ) : Type ℓ where
  pub beq : T → T → Bool
  pub beq_iff : (x y : T) → (beq x y ≡ true) ↔ (x ≡ y)

instance abbrev pub nat_eq : Eq ℕ
nat_eq = record { beq_iff = nat_beq_iff; beq = nat_beq }

unfoldable pub list_beq {ℓ} : {A : Type ℓ} → (A → A → Bool) → List A → List A → Bool
list_beq eq [] [] = true
list_beq eq (x ∷ xs) (y ∷ ys) = eq x y && list_beq eq xs ys
list_beq eq _ _ = false

module _ {ℓ} {A : Type ℓ} (eq : A → A → Bool) (iff : (a b : A) → (eq a b ≡ true) ↔ (a ≡ b)) where
  list_beq_sound : (xs ys : List A) → list_beq eq xs ys ≡ true → xs ≡ ys
  unfolding list_beq
  list_beq_sound [] [] h = refl
  list_beq_sound [] (y ∷ ys) h = cc
  list_beq_sound (x ∷ xs) [] h = cc
  list_beq_sound (x ∷ xs) (y ∷ ys) h = ground (arith, iff x y, list_beq_sound xs ys)

  list_beq_refl : (xs : List A) → list_beq eq xs xs ≡ true
  unfolding list_beq
  list_beq_refl [] = refl
  list_beq_refl (x ∷ xs) = ground (arith, iff x x, list_beq_refl xs)

  pub list_beq_iff : (xs ys : List A) → (list_beq eq xs ys ≡ true) ↔ (xs ≡ ys)
  list_beq_iff xs ys = (list_beq_sound xs ys, λ e. ground (arith, list_beq_refl xs))

infix 50 ◌==◌
abbrev pub ◌==◌ {ℓ} : {T : Type ℓ} ⦃eq : Eq T⦄ → T → T → Bool
◌==◌ ⦃eq⦄ = eq.beq

instance abbrev pub bytes_eq : Eq (List ℕ)
bytes_eq = record { beq = list_beq nat_beq; beq_iff = list_beq_iff nat_beq nat_beq_iff }

unfoldable pub option_beq {ℓ} : {A : Type ℓ} → (A → A → Bool) → Option A → Option A → Bool
option_beq eq none none = true
option_beq eq (some x) (some y) = eq x y
option_beq eq _ _ = false

pub beq_refl {ℓ} : {A : Type ℓ} ⦃e : Eq A⦄ → (a : A) → (a == a) ≡ true
beq_refl ⦃e⦄ a = (e.beq_iff a a).1 refl

pub beq→eq {ℓ} : {A : Type ℓ} ⦃e : Eq A⦄ → (a b : A) → (a == b) ≡ true → a ≡ b
beq→eq ⦃e⦄ a b = (e.beq_iff a b).0

-- To split on a computed value and keep the equation.
pub Bool-cases : (b : Bool) → (b ≡ true) ⊎ (b ≡ false)
Bool-cases true = inl refl
Bool-cases false = inr refl

pub Option-cases {ℓ} : {A : Type ℓ} (o : Option A) → (o ≡ none) ⊎ ((a : A) × (o ≡ some a))
Option-cases none = inl refl
Option-cases (some a) = inr (a, refl)

-- `a?` and the rest of the function.
infixl 5 ◌>>=◌
abbrev pub ◌>>=◌ {ℓ κ} : {A : Type ℓ} {B : Type κ} → Option A → (A → Option B) → Option B
none >>= f = none
some a >>= f = f a

abbrev pub is_some {ℓ} : {A : Type ℓ} → Option A → Bool
is_some none = false
is_some (some a) = true

abbrev pub unwrap_or {ℓ} : {A : Type ℓ} → Option A → A → A
unwrap_or none d = d
unwrap_or (some a) d = a

pub Sum-cases {ℓ κ} :
    {A : Type ℓ} {B : Type κ} (r : A ⊎ B) → ((x : A) × (r ≡ inl x)) ⊎ ((y : B) × (r ≡ inr y))
Sum-cases (inl x) = inl (x, refl)
Sum-cases (inr y) = inr (y, refl)
