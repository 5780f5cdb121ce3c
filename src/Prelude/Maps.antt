-- ===== src/Prelude/Maps.antt =====
-- `HashMap` as an association list with at most one entry per key, and its laws.
use mathlib.Core.Path.{◌≡◌, refl, sym, subst}
use mathlib.Core.Logic.{inl, inr}
use mathlib.Core.Bool.{Bool, false}
use mathlib.Core.List.{List, [], ◌∷◌}
use mathlib.Core.Option.{Option, none, some}
use native.Mathlib.Omega.{arith}
use package.molia.Prelude.Tests.{if◌then◌else◌, ◌==◌, Eq, is_some, Bool-cases}
use package.molia.Prelude.Lists.{All, any, Distinct, has_key}

-- What is left of a value that is kept or not.
abbrev pub kept_value {κ} : {V : Type κ} → (V → Bool) → Option V → Option V
kept_value keep none = none
kept_value keep (some v) = if keep v then some v else none

module _ {ℓ κ} {K : Type ℓ} {V : Type κ} ⦃e : Eq K⦄ where
  unfoldable pub lookup : K → List (K × V) → Option V
  lookup k [] = none
  lookup k (p ∷ m) = if k == p.0 then some p.1 else lookup k m

  unfoldable pub insert : K → V → List (K × V) → List (K × V)
  insert k v [] = (k, v) ∷ []
  insert k v (p ∷ m) = if k == p.0 then (k, v) ∷ m else p ∷ insert k v m

  unfoldable pub remove : K → List (K × V) → List (K × V)
  remove k [] = []
  remove k (p ∷ m) = if k == p.0 then remove k m else p ∷ remove k m

  abbrev pub contains_key : K → List (K × V) → Bool
  contains_key k m = is_some (lookup k m)

  -- `retain`, and `values_mut` with one function for each value.
  unfoldable pub retain_values : (V → Bool) → List (K × V) → List (K × V)
  retain_values keep [] = []
  retain_values keep (p ∷ m) = if keep p.1 then p ∷ retain_values keep m else retain_values keep m

  pub lookup-insert :
      (k j : K) (v : V) (m : List (K × V))
      → lookup j (insert k v m) ≡ (if j == k then some v else lookup j m)
  unfolding lookup insert
  lookup-insert k j v [] = refl
  lookup-insert k j v (p ∷ m) =
      ground (arith, e.beq_iff j k, e.beq_iff k p.0, e.beq_iff j p.0, lookup-insert k j v m)

  pub lookup-remove :
      (k j : K) (m : List (K × V)) → lookup j (remove k m) ≡ (if j == k then none else lookup j m)
  unfolding lookup remove
  lookup-remove k j [] = ground arith
  lookup-remove k j (p ∷ m) =
      ground (arith, e.beq_iff j k, e.beq_iff k p.0, e.beq_iff j p.0, lookup-remove k j m)

  -- One entry per key.
  abbrev pub IsMap : List (K × V) → Type 0
  IsMap = Distinct (λ p. p.0)

  has_key-insert :
      (k j : K) (v : V) (m : List (K × V))
      → (k == j) ≡ false
      → has_key (λ p. p.0) j m ≡ false
      → has_key (λ p. p.0) j (insert k v m) ≡ false
  unfolding insert any
  has_key-insert k j v [] ne h = ground arith
  has_key-insert k j v (p ∷ m) ne h = ground (arith, has_key-insert k j v m ne)

  pub insert-IsMap : (k : K) (v : V) (m : List (K × V)) → IsMap m → IsMap (insert k v m)
  unfolding insert any
  insert-IsMap k v [] h = (refl, tt)
  insert-IsMap k v (p ∷ m) h = elim (Bool-cases (k == p.0)) [
    | inl same ↦
        rw same
          (subst (λ j. has_key (λ q. q.0) j m ≡ false) (sym ((e.beq_iff k p.0).0 same)) h.0, h.1)
    | inr other ↦ rw other (has_key-insert k p.0 v m other h.0, insert-IsMap k v m h.1)
  ]

  lookup-absent : (k : K) (m : List (K × V)) → has_key (λ p. p.0) k m ≡ false → lookup k m ≡ none
  unfolding lookup any
  lookup-absent k [] h = refl
  lookup-absent k (p ∷ m) h = ground (arith, e.beq_iff k p.0, e.beq_iff p.0 k, lookup-absent k m)

  has_key-retain_values :
      (keep : V → Bool) (k : K) (m : List (K × V))
      → has_key (λ p. p.0) k m ≡ false
      → has_key (λ p. p.0) k (retain_values keep m) ≡ false
  unfolding any retain_values
  has_key-retain_values keep k [] h = h
  has_key-retain_values keep k (p ∷ m) h = ground (arith, has_key-retain_values keep k m)

  pub retain_values-IsMap :
      (keep : V → Bool) (m : List (K × V)) → IsMap m → IsMap (retain_values keep m)
  unfolding retain_values
  retain_values-IsMap keep [] h = tt
  retain_values-IsMap keep (p ∷ m) h = elim (Bool-cases (keep p.1)) [
    | inl kept ↦ rw kept (has_key-retain_values keep p.0 m h.0, retain_values-IsMap keep m h.1)
    | inr gone ↦ rw gone (retain_values-IsMap keep m h.1)
  ]

  pub lookup-retain_values :
      (keep : V → Bool) (k : K) (m : List (K × V))
      → IsMap m
      → lookup k (retain_values keep m) ≡ kept_value keep (lookup k m)
  unfolding lookup retain_values
  lookup-retain_values keep k [] h = refl
  lookup-retain_values keep k (p ∷ m) h = elim (Bool-cases (k == p.0)) [
    | inl same ↦
        let gone : lookup k m ≡ none =
          lookup-absent k m
            (subst (λ j. has_key (λ q. q.0) j m ≡ false) (sym ((e.beq_iff k p.0).0 same)) h.0) in
        ground (arith, lookup-retain_values keep k m h.1)
    | inr other ↦ ground (arith, lookup-retain_values keep k m h.1)
  ]

  module _ {μ} (P : K × V → Type μ) where
    pub All-insert : (k : K) (v : V) (m : List (K × V)) → P (k, v) → All P m → All P (insert k v m)
    unfolding insert
    All-insert k v [] hp h = (hp, tt)
    All-insert k v (p ∷ m) hp h = ground (arith, All-insert k v m hp h.1)

    pub All-retain_values :
        (keep : V → Bool) (m : List (K × V)) → All P m → All P (retain_values keep m)
    unfolding retain_values
    All-retain_values keep [] h = tt
    All-retain_values keep (p ∷ m) h = ground (arith, All-retain_values keep m h.1)

    pub All-lookup : (k : K) (v : V) (m : List (K × V)) → All P m → lookup k m ≡ some v → P (k, v)
    unfolding lookup
    All-lookup k v [] h found = cc
    All-lookup k v (p ∷ m) h found = elim (Bool-cases (k == p.0)) [
      | inl same ↦
          let a : p.0 ≡ k = sym ((e.beq_iff k p.0).0 same) in
          let b : p.1 ≡ v = ground (arith, e.beq_iff k p.0) in subst P (λ i. (a i, b i)) h.0
      | inr other ↦ All-lookup k v m h.1 (ground arith)
    ]
