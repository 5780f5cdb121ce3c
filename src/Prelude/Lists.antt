-- ===== src/Prelude/Lists.antt =====
-- Lists measured and indexed by native numbers, under the library's names.
use Prim.Native.Nat.{ℕ, zero, suc, ◌+◌, ◌-◌, ◌≤◌, ◌<◌, min}
use mathlib.Core.Path.{◌≡◌, refl, sym, ap, subst, ◌∙◌}
use mathlib.Core.Logic.{◌≢◌, ◌↔◌, inl, inr}
use mathlib.Core.Bool.{Bool, true, false, ◌&&◌, ◌||◌}
use mathlib.Core.List.{List, [], ◌∷◌, ◌++◌}
use mathlib.Core.Option.{Option, none, some}
use native.Mathlib.Omega.{arith}
use package.molia.Prelude.Tests.{if◌then◌else◌, ◌==◌, Eq, Bool-cases}

module _ {ℓ} {A : Type ℓ} where
  abbrev pub length : List A → ℕ
  length [] = 0
  length (x ∷ xs) = suc (length xs)

  abbrev pub get_elem? : List A → ℕ → Option A
  get_elem? [] i = none
  get_elem? (x ∷ xs) zero = some x
  get_elem? (x ∷ xs) (suc i) = get_elem? xs i

  abbrev pub get_or : List A → ℕ → A → A
  get_or [] i d = d
  get_or (x ∷ xs) zero d = x
  get_or (x ∷ xs) (suc i) d = get_or xs i d

  -- A write out of bounds changes nothing.
  abbrev pub set : List A → ℕ → A → List A
  set [] i v = []
  set (x ∷ xs) zero v = v ∷ xs
  set (x ∷ xs) (suc i) v = x ∷ set xs i v

  abbrev pub take : ℕ → List A → List A
  take zero xs = []
  take (suc n) [] = []
  take (suc n) (x ∷ xs) = x ∷ take n xs

  abbrev pub drop : ℕ → List A → List A
  drop zero xs = xs
  drop (suc n) [] = []
  drop (suc n) (x ∷ xs) = drop n xs

  abbrev pub replicate : ℕ → A → List A
  replicate zero a = []
  replicate (suc n) a = a ∷ replicate n a

  abbrev pub All {κ} : (A → Type κ) → List A → Type κ
  All P [] = Unit {κ}
  All P (x ∷ xs) = P x × All P xs

  -- `iter().any`, `iter().all`, `iter().find`, `retain` and `position`.
  unfoldable pub any : (A → Bool) → List A → Bool
  any p [] = false
  any p (x ∷ xs) = p x || any p xs

  unfoldable pub all : (A → Bool) → List A → Bool
  all p [] = true
  all p (x ∷ xs) = p x && all p xs

  unfoldable pub find : (A → Bool) → List A → Option A
  find p [] = none
  find p (x ∷ xs) = if p x then some x else find p xs

  unfoldable pub retain : (A → Bool) → List A → List A
  retain p [] = []
  retain p (x ∷ xs) = if p x then x ∷ retain p xs else retain p xs

  unfoldable pub position : (A → Bool) → List A → Option ℕ
  position p [] = none
  position p (x ∷ xs) =
      if p x then some 0 else (elim (position p xs) [ none ↦ none | some i ↦ some (suc i) ])

module _ {ℓ} {A : Type ℓ} where
  pub length-append : (xs ys : List A) → length (xs ++ ys) ≡ length xs + length ys
  length-append [] ys = omega arith
  length-append (x ∷ xs) ys = omega (arith, length-append xs ys)

  pub length-set : (xs : List A) (i : ℕ) (v : A) → length (set xs i v) ≡ length xs
  length-set [] i v = refl
  length-set (x ∷ xs) zero v = refl
  length-set (x ∷ xs) (suc i) v = ap suc (length-set xs i v)

  pub get_or-set_self :
      (xs : List A) (i : ℕ) (v d : A) → i < length xs → get_or (set xs i v) i d ≡ v
  get_or-set_self [] i v d h = absurd (omega arith)
  get_or-set_self (x ∷ xs) zero v d h = refl
  get_or-set_self (x ∷ xs) (suc i) v d h = get_or-set_self xs i v d (omega arith)

  pub get_or-set_ne :
      (xs : List A) (i j : ℕ) (v d : A) → i ≢ j → get_or (set xs i v) j d ≡ get_or xs j d
  get_or-set_ne [] i j v d h = refl
  get_or-set_ne (x ∷ xs) zero zero v d h = absurd (h refl)
  get_or-set_ne (x ∷ xs) zero (suc j) v d h = refl
  get_or-set_ne (x ∷ xs) (suc i) zero v d h = refl
  get_or-set_ne (x ∷ xs) (suc i) (suc j) v d h = get_or-set_ne xs i j v d (λ e. h (ap suc e))

  pub length-take : (n : ℕ) (xs : List A) → length (take n xs) ≡ min n (length xs)
  length-take zero xs = omega arith
  length-take (suc n) [] = omega arith
  length-take (suc n) (x ∷ xs) = omega (arith, length-take n xs)

  pub length-drop : (n : ℕ) (xs : List A) → length (drop n xs) ≡ length xs - n
  length-drop zero xs = omega arith
  length-drop (suc n) [] = omega arith
  length-drop (suc n) (x ∷ xs) = omega (arith, length-drop n xs)

  pub length-replicate : (n : ℕ) (a : A) → length (replicate n a) ≡ n
  length-replicate zero a = refl
  length-replicate (suc n) a = ap suc (length-replicate n a)

  pub take-length-append : (xs ys : List A) → take (length xs) (xs ++ ys) ≡ xs
  take-length-append [] ys = refl
  take-length-append (x ∷ xs) ys = ap (◌∷◌ x) (take-length-append xs ys)

  pub drop-length-append : (xs ys : List A) → drop (length xs) (xs ++ ys) ≡ ys
  drop-length-append [] ys = refl
  drop-length-append (x ∷ xs) ys = drop-length-append xs ys

  pub append_split : (a b c d : List A) → length a ≡ length c → a ++ b ≡ c ++ d → (a ≡ c) × (b ≡ d)
  append_split a b c d l e = (
    sym (take-length-append a b)
        ∙ ap (take (length a)) e
        ∙ ap (λ n. take n (c ++ d)) l
        ∙ take-length-append c d,
    sym (drop-length-append a b)
        ∙ ap (drop (length a)) e
        ∙ ap (λ n. drop n (c ++ d)) l
        ∙ drop-length-append c d,
  )

  pub take-append-drop : (n : ℕ) (xs : List A) → take n xs ++ drop n xs ≡ xs
  take-append-drop zero xs = refl
  take-append-drop (suc n) [] = refl
  take-append-drop (suc n) (x ∷ xs) = ap (◌∷◌ x) (take-append-drop n xs)

  pub drop-add : (n k : ℕ) (xs : List A) → drop (n + k) xs ≡ drop k (drop n xs)
  drop-add zero k xs = let e : 0 + k ≡ k = omega arith in ap (λ m. drop m xs) e
  drop-add (suc n) k [] = let e : suc n + k ≡ suc (n + k) = omega arith in rw e (sym (drop-nil k))
    where
      drop-nil : (m : ℕ) → drop {A = A} m [] ≡ []
      drop-nil zero = refl
      drop-nil (suc m) = refl
  drop-add (suc n) k (x ∷ xs) =
      let e : suc n + k ≡ suc (n + k) = omega arith in ap (λ m. drop m (x ∷ xs)) e ∙ drop-add n k xs

  pub take_of_length-le : (k : ℕ) (l : List A) → length l ≤ k → take k l ≡ l
  take_of_length-le (suc k) (a ∷ l) h = ap (◌∷◌ a) (take_of_length-le k l (omega arith))
  take_of_length-le (suc k) [] h = refl
  take_of_length-le zero (a ∷ l) h = absurd (omega arith)
  take_of_length-le zero [] h = refl

  pub length-retain-le : (p : A → Bool) (xs : List A) → length (retain p xs) ≤ length xs
  unfolding retain
  length-retain-le p [] = omega arith
  length-retain-le p (x ∷ xs) = ground (arith, length-retain-le p xs)

  module _ {κ} (P : A → Type κ) where
    pub All-append : (xs ys : List A) → All P xs → All P ys → All P (xs ++ ys)
    All-append [] ys hx hy = hy
    All-append (x ∷ xs) ys hx hy = (hx.0, All-append xs ys hx.1 hy)

    pub All-retain : (p : A → Bool) (xs : List A) → All P xs → All P (retain p xs)
    unfolding retain
    All-retain p [] h = tt
    All-retain p (x ∷ xs) h = ground (arith, All-retain p xs h.1)

    pub All-take : (n : ℕ) (xs : List A) → All P xs → All P (take n xs)
    All-take zero xs h = tt
    All-take (suc n) [] h = tt
    All-take (suc n) (x ∷ xs) h = (h.0, All-take n xs h.1)

    pub All-drop : (n : ℕ) (xs : List A) → All P xs → All P (drop n xs)
    All-drop zero xs h = h
    All-drop (suc n) [] h = tt
    All-drop (suc n) (x ∷ xs) h = All-drop n xs h.1

    pub All-set : (xs : List A) (i : ℕ) (v : A) → All P xs → P v → All P (set xs i v)
    All-set [] i v h hv = tt
    All-set (x ∷ xs) zero v h hv = (hv, h.1)
    All-set (x ∷ xs) (suc i) v h hv = (h.0, All-set xs i v h.1 hv)

    pub All-get_or : (xs : List A) (i : ℕ) (d : A) → All P xs → P d → P (get_or xs i d)
    All-get_or [] i d h hd = hd
    All-get_or (x ∷ xs) zero d h hd = h.0
    All-get_or (x ∷ xs) (suc i) d h hd = All-get_or xs i d h.1 hd

    pub All-replicate : (n : ℕ) (a : A) → P a → All P (replicate n a)
    All-replicate zero a h = tt
    All-replicate (suc n) a h = (h, All-replicate n a h)

  pub All-mono {κ μ} :
      {P : A → Type κ} {Q : A → Type μ}
      → ((a : A) → P a → Q a)
      → (xs : List A) → All P xs
      → All Q xs
  All-mono f [] h = tt
  All-mono f (x ∷ xs) h = (f x h.0, All-mono f xs h.1)

  pub retain-append :
      (p : A → Bool) (xs ys : List A) → retain p (xs ++ ys) ≡ retain p xs ++ retain p ys
  unfolding retain
  retain-append p [] ys = refl
  retain-append p (x ∷ xs) ys = ground (arith, retain-append p xs ys)

  pub any-append : (p : A → Bool) (xs ys : List A) → any p (xs ++ ys) ≡ (any p xs || any p ys)
  unfolding any
  any-append p [] ys = refl
  any-append p (x ∷ xs) ys = ground (arith, any-append p xs ys)

  pub find-All {κ} :
      (P : A → Type κ) (p : A → Bool) (xs : List A) (x : A)
      → All P xs
      → find p xs ≡ some x
      → P x × (p x ≡ true)
  unfolding find
  find-All P p [] x h e = cc
  find-All P p (y ∷ ys) x h e = elim (Bool-cases (p y)) [
    | inl hit ↦
        let same : y ≡ x = ground arith in (subst P same h.0, subst (λ z. p z ≡ true) same hit)
    | inr miss ↦ find-All P p ys x h.1 (ground arith)
  ]

  pub find-eq-none_iff : (p : A → Bool) (xs : List A) → (find p xs ≡ none) ↔ (any p xs ≡ false)
  unfolding find any
  find-eq-none_iff p [] = ground arith
  find-eq-none_iff p (x ∷ xs) = ground (arith, find-eq-none_iff p xs)

-- No two elements have the same key.
module _ {ℓ κ} {A : Type ℓ} {K : Type κ} ⦃e : Eq K⦄ (key : A → K) where
  abbrev pub has_key : K → List A → Bool
  has_key k xs = any (λ x. key x == k) xs

  abbrev pub Distinct : List A → Type 0
  Distinct [] = Unit {0}
  Distinct (x ∷ xs) = (has_key (key x) xs ≡ false) × Distinct xs

  pub has_key-retain :
      (p : A → Bool) (k : K) (xs : List A) → has_key k xs ≡ false → has_key k (retain p xs) ≡ false
  unfolding retain any
  has_key-retain p k [] h = refl
  has_key-retain p k (x ∷ xs) h = ground (arith, has_key-retain p k xs)

  pub Distinct-retain : (p : A → Bool) (xs : List A) → Distinct xs → Distinct (retain p xs)
  unfolding retain
  Distinct-retain p [] h = tt
  Distinct-retain p (x ∷ xs) h = ground (arith, Distinct-retain p xs, has_key-retain p (key x) xs)

  pub Distinct-snoc :
      (x : A) (xs : List A) → has_key (key x) xs ≡ false → Distinct xs → Distinct (xs ++ x ∷ [])
  unfolding any
  Distinct-snoc x [] h d = (refl, tt)
  Distinct-snoc x (y ∷ ys) h d = (
    rw (any-append (λ z. key z == key y) ys (x ∷ []))
        (ground (arith, e.beq_iff (key x) (key y), e.beq_iff (key y) (key x))),
    Distinct-snoc x ys (ground arith) d.1,
  )
