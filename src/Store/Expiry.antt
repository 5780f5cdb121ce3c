-- ===== src/Store/Expiry.antt =====
-- Reads against the garbage collection.
use molia.Prelude.{
  ℕ, ◌≡◌, refl, sym, ap, ◌∙◌, ◌⊎◌, inl, inr, false, not, ◌&&◌, Option, none, some, if◌then◌else◌,
  ◌==◌, nat_eq, bytes_eq, Bool-cases, Option-cases, arith,
}
use molia.Prelude.Maps
use molia.Prelude.Maps.{IsMap, kept_value, lookup-retain_values}
use molia.Types.{Key}
use molia.Store.{Store, StoredRecord, kind_tombstone, expired, fresh, get, gc}

abbrev get_cases : (now : ℕ) (a b : Option StoredRecord) → Option StoredRecord
get_cases now none b = fresh now b
get_cases now (some r) b =
    if not (expired r now) && not (r.kind == kind_tombstone) then some r else fresh now b

get-lookup :
    (now : ℕ) (s : Store) (k : Key)
    → get now s k ≡ get_cases now (Maps.lookup k s.records) (Maps.lookup k s.cache)
unfolding get
get-lookup now s k = elim (Option-cases (Maps.lookup k s.records)) [
  | inl e ↦ rw (get, e) refl
  | inr (r, e) ↦ rw (get, e) refl
]

fresh-kept :
    (now : ℕ) (b : Option StoredRecord)
    → fresh now (kept_value (λ r. not (expired r now)) b) ≡ fresh now b
fresh-kept now none = refl
fresh-kept now (some r) = elim (Bool-cases (expired r now)) [
  | inl e ↦ rw e refl
  | inr e ↦ rw (e, e) refl
]

get_cases-kept :
    (now : ℕ) (a b : Option StoredRecord)
    → get_cases now
        (kept_value (λ r. not (expired r now)) a)
        (kept_value (λ r. not (expired r now)) b)
      ≡ get_cases now a b
get_cases-kept now none b = fresh-kept now b
get_cases-kept now (some r) b = elim (Bool-cases (expired r now)) [
  | inl e ↦ rw (e) (fresh-kept now b)
  | inr e ↦ rw (e, fresh-kept now b, e) refl
]

-- The garbage collection is invisible to readers: at the same second, every key reads as before it.
pub get-gc :
    (now : ℕ) (s : Store) (k : Key)
    → IsMap s.records
    → IsMap s.cache
    → get now (gc now s) k ≡ get now s k
unfolding gc
get-gc now s k hr hc =
    rw
      (
        get-lookup now (gc now s) k,
        get-lookup now s k,
        lookup-retain_values (λ r. not (expired r now)) k s.records hr,
        lookup-retain_values (λ r. not (expired r now)) k s.cache hc,
      )
      (get_cases-kept now (Maps.lookup k s.records) (Maps.lookup k s.cache))

-- A read returns a record that has not expired, and one that is stored and no tombstone, or cached.
pub get_lem :
    (now : ℕ) (s : Store) (k : Key) (r : StoredRecord)
    → get now s k ≡ some r
    → (expired r now ≡ false)
      × (((Maps.lookup k s.records ≡ some r) × ((r.kind == kind_tombstone) ≡ false))
          ⊎ (Maps.lookup k s.cache ≡ some r))
get_lem now s k r h =
    by_cases (Maps.lookup k s.records) (Maps.lookup k s.cache) (sym (get-lookup now s k) ∙ h)
  where
    cached :
        (b : Option StoredRecord) → fresh now b ≡ some r → (expired r now ≡ false) × (b ≡ some r)
    cached none e = cc
    cached (some x) e = elim (Bool-cases (expired x now)) [
      | inl old ↦ absurd (ground arith)
      | inr new ↦
          let same : x ≡ r = ground arith in
          (ap (λ y. expired y now) (sym same) ∙ new, ap some same)
    ]

    by_cases :
        (a b : Option StoredRecord)
        → get_cases now a b ≡ some r
        → (expired r now ≡ false)
          × (((a ≡ some r) × ((r.kind == kind_tombstone) ≡ false)) ⊎ (b ≡ some r))
    by_cases none b e = let (new, same) = cached b e in (new, inr same)
    by_cases (some x) b e =
        elim (Bool-cases (not (expired x now) && not (x.kind == kind_tombstone))) [
          | inl good ↦
              let same : x ≡ r = ground arith in
              let new : expired x now ≡ false = ground arith in
              let live : (x.kind == kind_tombstone) ≡ false = ground arith in
              (
                ap (λ y. expired y now) (sym same) ∙ new,
                inl (ap some same, ap (λ y. y.kind == kind_tombstone) (sym same) ∙ live),
              )
          | inr bad ↦ let (new, same) = cached b (ground arith) in (new, inr same)
        ]
