-- ===== src/Prelude/Sort.antt =====
-- `sort_by`: a stable sort, by insertion.
use Prim.Native.Nat.{suc}
use mathlib.Core.Path.{◌≡◌, refl}
use mathlib.Core.Bool.{Bool, true, false}
use mathlib.Core.List.{List, [], ◌∷◌, Perm}
use mathlib.Core.List.Perm
use mathlib.Core.Logic.{inl, inr}
use native.Mathlib.Omega.{arith}
use package.molia.Prelude.Tests.{if◌then◌else◌, Bool-cases}
use package.molia.Prelude.Lists.{length, All, All-mono}

module _ {ℓ} {A : Type ℓ} (le : A → A → Bool) where
  -- Before the first element that is not smaller: equal elements keep their order.
  unfoldable pub insert_sorted : A → List A → List A
  insert_sorted x [] = x ∷ []
  insert_sorted x (y ∷ ys) = if le x y then x ∷ y ∷ ys else y ∷ insert_sorted x ys

  unfoldable pub sort_by : List A → List A
  unfolding insert_sorted
  sort_by [] = []
  sort_by (x ∷ xs) = insert_sorted x (sort_by xs)

  -- Each element is at most as large as every later one.
  abbrev pub IsSorted : List A → Type ℓ
  IsSorted [] = Unit {ℓ}
  IsSorted (x ∷ xs) = All (λ y. le x y ≡ true) xs × IsSorted xs

  insert_sorted-perm : (x : A) (xs : List A) → Perm (x ∷ xs) (insert_sorted x xs)
  unfolding insert_sorted
  insert_sorted-perm x [] = Perm.refl _
  insert_sorted-perm x (y ∷ ys) = elim (Bool-cases (le x y)) [
    | inl e ↦ rw e (Perm.refl _)
    | inr e ↦ rw e (Perm.trans (Perm.swap y x ys) (Perm.cons y (insert_sorted-perm x ys)))
  ]

  pub sort_by-perm : (xs : List A) → Perm xs (sort_by xs)
  unfolding sort_by
  sort_by-perm [] = Perm.refl _
  sort_by-perm (x ∷ xs) =
      Perm.trans (Perm.cons x (sort_by-perm xs)) (insert_sorted-perm x (sort_by xs))

  module _ {κ} (P : A → Type κ) where
    insert_sorted-All : (x : A) (xs : List A) → P x → All P xs → All P (insert_sorted x xs)
    unfolding insert_sorted
    insert_sorted-All x [] hx h = (hx, tt)
    insert_sorted-All x (y ∷ ys) hx h = ground (arith, insert_sorted-All x ys hx h.1)

    pub sort_by-All : (xs : List A) → All P xs → All P (sort_by xs)
    unfolding sort_by
    sort_by-All [] h = tt
    sort_by-All (x ∷ xs) h = insert_sorted-All x (sort_by xs) h.0 (sort_by-All xs h.1)

  insert_sorted-length : (x : A) (xs : List A) → length (insert_sorted x xs) ≡ suc (length xs)
  unfolding insert_sorted
  insert_sorted-length x [] = refl
  insert_sorted-length x (y ∷ ys) = ground (arith, insert_sorted-length x ys)

  pub sort_by-length : (xs : List A) → length (sort_by xs) ≡ length xs
  unfolding sort_by
  sort_by-length [] = refl
  sort_by-length (x ∷ xs) = omega (arith, insert_sorted-length x (sort_by xs), sort_by-length xs)

  module _ (total : (a b : A) → le a b ≡ false → le b a ≡ true)
      (trans : (a b c : A) → le a b ≡ true → le b c ≡ true → le a c ≡ true) where
    pub insert_sorted-IsSorted : (x : A) (xs : List A) → IsSorted xs → IsSorted (insert_sorted x xs)
    unfolding insert_sorted
    insert_sorted-IsSorted x [] h = (tt, tt)
    insert_sorted-IsSorted x (y ∷ ys) h = elim (Bool-cases (le x y)) [
      | inl e ↦ rw e ((e, All-mono (λ z. trans x y z e) ys h.0), h)
      | inr e ↦ rw e (insert_sorted-All _ x ys (total x y e) h.0, insert_sorted-IsSorted x ys h.1)
    ]

    pub sort_by-IsSorted : (xs : List A) → IsSorted (sort_by xs)
    unfolding sort_by
    sort_by-IsSorted [] = tt
    sort_by-IsSorted (x ∷ xs) = insert_sorted-IsSorted x (sort_by xs) (sort_by-IsSorted xs)
