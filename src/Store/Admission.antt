-- ===== src/Store/Admission.antt =====
-- What `put_record` lets in, and what the store holds.
use molia.Prelude.{
  ◌+◌, ◌≤◌, ◌<◌, ◌≡◌, refl, ap, subst, ◌⊎◌, inl, inr, Bool, true, false, Option, not, ◌&&◌, none,
  some, length, All, ltb, leb, ◌==◌, nat_eq, bytes_eq, beq_refl, Bool-cases, Option-cases, arith,
}
use molia.Prelude.Maps
use molia.Prelude.Maps.{lookup-insert, All-insert, insert-IsMap, IsMap}
use molia.Crypto.{Primitives}
use molia.Store.{
  Store, StoredRecord, PutError, kind_immutable, kind_mutable, kind_tombstone, authentic,
  queue_record, store_record, refusal, put_record,
}

-- Every record stands under its own key and is authentic, every cached one is immutable, and a key
-- has one record at most.
pub record IsStore (c : Primitives) (s : Store) : Type 0 where
  pub genuine : All (λ p. (p.1.key ≡ p.0) × (authentic c p.1 ≡ true)) s.records
  pub cached : All (λ p. (p.1.key ≡ p.0) × (p.1.kind ≡ kind_immutable)) s.cache
  pub one_record : IsMap s.records
  pub one_cached : IsMap s.cache

pub store_record-IsStore :
    (c : Primitives) (rec : StoredRecord) (s : Store)
    → authentic c rec ≡ true
    → IsStore c s
    → IsStore c (store_record rec s)
unfolding store_record queue_record
store_record-IsStore c rec s ok v = elim (Bool-cases s.durable) [
  | inl d ↦ rw d (record {
    genuine = added;
    cached = v.cached;
    one_record = single;
    one_cached = v.one_cached;
  })
  | inr d ↦ rw d (record {
    genuine = added;
    cached = v.cached;
    one_record = single;
    one_cached = v.one_cached;
  })
]
  where
    added :
        All (λ p. (p.1.key ≡ p.0) × (authentic c p.1 ≡ true)) (Maps.insert rec.key rec s.records)
    added = All-insert _ rec.key rec s.records (refl, ok) v.genuine

    single : IsMap (Maps.insert rec.key rec s.records)
    single = insert-IsMap rec.key rec s.records v.one_record

records-store_record :
    (rec : StoredRecord) (s : Store)
    → (store_record rec s).records ≡ Maps.insert rec.key rec s.records
unfolding store_record queue_record
records-store_record rec s = elim (Bool-cases s.durable) [ inl d ↦ rw d refl | inr d ↦ rw d refl ]

none-some {ℓ} : {A : Type ℓ} (o : Option A) (a : A) → o ≡ none → o ≡ some a → ⊥
none-some o a h k = cc

-- A record that is not refused is authentic.
pub refusal-authentic :
    (c : Primitives) (rec : StoredRecord) (s : Store)
    → refusal c rec s ≡ none
    → authentic c rec ≡ true
unfolding refusal authentic
refusal-authentic c rec s h = ground arith

-- The three ways out of `put_record`.
pub put_record_cases :
    (c : Primitives) (rec : StoredRecord) (probe : Bool) (s : Store)
    → ((e : PutError) × (put_record c rec probe s ≡ inl e))
      ⊎ ((refusal c rec s ≡ none)
          × (((put_record c rec probe s ≡ inr s)
                × (probe ≡ true)
                × ((rec.kind == kind_tombstone) ≡ false))
              ⊎ ((put_record c rec probe s ≡ inr (store_record rec s))
                  × (((rec.kind == kind_tombstone) ≡ true) ⊎ (probe ≡ false)))))
unfolding put_record
put_record_cases c rec probe s =
    elim (Bool-cases (ltb 65536 (length rec.value + length rec.signature))) [
      | inl large ↦ rw large (inl (PutError.too_large, refl))
      | inr fits ↦ elim (Option-cases (refusal c rec s)) [
        | inr (e, refused) ↦ rw (fits, refused) (inl (e, refl))
        | inl ok ↦ elim (Bool-cases (rec.kind == kind_tombstone)) [
          | inl grave ↦ rw (fits, ok, grave) (inr (refl, inr (refl, inl refl)))
          | inr live ↦ elim (Bool-cases probe) [
            | inl only ↦ rw (fits, ok, live, only) (inr (refl, inl (refl, refl, refl)))
            | inr keep ↦ rw (fits, ok, live, keep) (inr (refl, inr (refl, inr refl)))
          ]
        ]
      ]
    ]

-- A record that `put_record` accepts is authentic, and the store stays well formed: whatever it holds
-- is authentic and stands under its own key. A probe that is no tombstone leaves the store as it is.
pub put_record-IsStore :
    (c : Primitives) (rec : StoredRecord) (probe : Bool) (s after : Store)
    → IsStore c s
    → put_record c rec probe s ≡ inr after
    → IsStore c after
      × (authentic c rec ≡ true)
      × (probe ≡ true → (rec.kind == kind_tombstone) ≡ false → after ≡ s)
put_record-IsStore c rec probe s after v h = (keeps, genuine, untouched)
  where
    genuine : authentic c rec ≡ true
    genuine = elim (put_record_cases c rec probe s) [
      | inl (e, refused) ↦ cc
      | inr (ok, way) ↦ refusal-authentic c rec s ok
    ]

    keeps : IsStore c after
    keeps = elim (put_record_cases c rec probe s) [
      | inl (e, refused) ↦ cc
      | inr (ok, inl (same, asked, living)) ↦ let e : s ≡ after = cc in subst (IsStore c) e v
      | inr (ok, inr (stored, why)) ↦
          let e : store_record rec s ≡ after = cc in
          subst (IsStore c) e (store_record-IsStore c rec s genuine v)
    ]

    untouched : probe ≡ true → (rec.kind == kind_tombstone) ≡ false → after ≡ s
    untouched only live = elim (put_record_cases c rec probe s) [
      | inl (e, refused) ↦ cc
      | inr (ok, inl (same, asked, living)) ↦ cc
      | inr (ok, inr (stored, inl grave)) ↦ cc
      | inr (ok, inr (stored, inr wet)) ↦ cc
    ]

refusal-stale :
    (c : Primitives) (rec old : StoredRecord) (s : Store)
    → rec.kind ≡ kind_mutable
    → authentic c rec ≡ true
    → Maps.lookup rec.key s.records ≡ some old
    → rec.sequence ≤ old.sequence
    → (old.kind == kind_tombstone) ≡ false
    → refusal c rec s ≡ some PutError.stale_sequence
unfolding refusal
refusal-stale c rec old s k ok found late live =
    let test : (leb rec.sequence old.sequence && not (old.kind == kind_tombstone)) ≡ true =
      ground arith in
    let first : (rec.kind == kind_immutable) ≡ false = ap (λ n. n == kind_immutable) k in
    let second : (rec.kind == kind_mutable) ≡ true = ap (λ n. n == kind_mutable) k in
    rw (refusal, first, second, ok, found, test) refl

refusal-newer :
    (c : Primitives) (rec : StoredRecord) (s : Store)
    → rec.kind ≡ kind_mutable
    → authentic c rec ≡ true
    → ((old : StoredRecord)
        → Maps.lookup rec.key s.records ≡ some old
        → (old.sequence < rec.sequence) ⊎ (old.kind ≡ kind_tombstone))
    → refusal c rec s ≡ none
unfolding refusal
refusal-newer c rec s k ok newer =
    let first : (rec.kind == kind_immutable) ≡ false = ap (λ n. n == kind_immutable) k in
    let second : (rec.kind == kind_mutable) ≡ true = ap (λ n. n == kind_mutable) k in
    elim (Option-cases (Maps.lookup rec.key s.records)) [
      | inl absent ↦ rw (refusal, first, second, ok, absent) refl
      | inr (old, found) ↦
          let test : (leb rec.sequence old.sequence && not (old.kind == kind_tombstone)) ≡ false =
            (elim (newer old found) [ inl later ↦ ground arith | inr grave ↦ ground arith ]) in
          rw (refusal, first, second, ok, found, test) refl
    ]

put_record-refused :
    (c : Primitives) (rec : StoredRecord) (probe : Bool) (s : Store) (e : PutError)
    → length rec.value + length rec.signature ≤ 65536
    → refusal c rec s ≡ some e
    → put_record c rec probe s ≡ inl e
unfolding put_record
put_record-refused c rec probe s e size h =
    let fits : ltb 65536 (length rec.value + length rec.signature) ≡ false = ground arith in
    rw (fits, h) refl

put_record-accepted :
    (c : Primitives) (rec : StoredRecord) (s : Store)
    → length rec.value + length rec.signature ≤ 65536
    → refusal c rec s ≡ none
    → put_record c rec false s ≡ inr (store_record rec s)
unfolding put_record
put_record-accepted c rec s size h =
    let fits : ltb 65536 (length rec.value + length rec.signature) ≡ false = ground arith in
    elim (Bool-cases (rec.kind == kind_tombstone)) [
      | inl grave ↦ rw (fits, h, grave) refl
      | inr live ↦ rw (fits, h, live) refl
    ]

pub lookup-store_record :
    (rec : StoredRecord) (s : Store) → Maps.lookup rec.key (store_record rec s).records ≡ some rec
lookup-store_record rec s =
    rw (records-store_record rec s, lookup-insert rec.key rec.key rec s.records, beq_refl rec.key)
      refl

put_record-probed :
    (c : Primitives) (rec : StoredRecord) (s : Store)
    → rec.kind ≡ kind_mutable
    → length rec.value + length rec.signature ≤ 65536
    → refusal c rec s ≡ none
    → put_record c rec true s ≡ inr s
unfolding put_record
put_record-probed c rec s k size h =
    let fits : ltb 65536 (length rec.value + length rec.signature) ≡ false = ground arith in
    let live : (rec.kind == kind_tombstone) ≡ false = ap (λ n. n == kind_tombstone) k in
    rw (fits, h, live) refl

put_record-large :
    (c : Primitives) (rec : StoredRecord) (probe : Bool) (s : Store)
    → ltb 65536 (length rec.value + length rec.signature) ≡ true
    → put_record c rec probe s ≡ inl PutError.too_large
unfolding put_record
put_record-large c rec probe s large = rw large refl

put_record-unrefused :
    (c : Primitives) (rec : StoredRecord) (probe : Bool) (s after : Store)
    → put_record c rec probe s ≡ inr after
    → refusal c rec s ≡ none
put_record-unrefused c rec probe s after h = elim (put_record_cases c rec probe s) [
  | inl (e, refused) ↦ cc
  | inr (ok, way) ↦ ok
]

refusal-forged :
    (c : Primitives) (rec : StoredRecord) (s : Store)
    → rec.kind ≡ kind_mutable
    → authentic c rec ≡ false
    → refusal c rec s ≡ some PutError.bad_signature
unfolding refusal
refusal-forged c rec s k forged =
    let first : (rec.kind == kind_immutable) ≡ false = ap (λ n. n == kind_immutable) k in
    let second : (rec.kind == kind_mutable) ≡ true = ap (λ n. n == kind_mutable) k in
    rw (refusal, first, second, forged) refl

-- What a mutable record has to be: not too large, genuine, and later than the record that it replaces,
-- unless that one is a tombstone.
pub record IsAdmissible (c : Primitives) (rec : StoredRecord) (s : Store) : Type 0 where
  pub fits : length rec.value + length rec.signature ≤ 65536
  pub genuine : authentic c rec ≡ true
  pub newer :
      (old : StoredRecord)
      → Maps.lookup rec.key s.records ≡ some old
      → (old.sequence < rec.sequence) ⊎ (old.kind ≡ kind_tombstone)

admitted-fits :
    (c : Primitives) (rec : StoredRecord) (probe : Bool) (s after : Store)
    → put_record c rec probe s ≡ inr after
    → length rec.value + length rec.signature ≤ 65536
unfolding put_record
admitted-fits c rec probe s after h =
    elim (Bool-cases (ltb 65536 (length rec.value + length rec.signature))) [
      | inl large ↦ absurd (ground (arith, put_record-large c rec probe s large))
      | inr fits ↦ ground arith
    ]

refusal-IsAdmissible :
    (c : Primitives) (rec : StoredRecord) (s : Store)
    → rec.kind ≡ kind_mutable
    → length rec.value + length rec.signature ≤ 65536
    → refusal c rec s ≡ none
    → IsAdmissible c rec s
refusal-IsAdmissible c rec s k size ok = record {
  fits = size;
  genuine = refusal-authentic c rec s ok;
  newer = λ old found. elim (Bool-cases (old.kind == kind_tombstone)) [
    | inl grave ↦ inr (ground arith)
    | inr live ↦ elim (Bool-cases (leb rec.sequence old.sequence)) [
      | inr later ↦ inl (ground arith)
      | inl late ↦ absurd (
          none-some _ _ ok
            (refusal-stale c rec old s k (refusal-authentic c rec s ok) found (ground arith) live))
    ]
  ];
}

-- A mutable record is accepted exactly if it is not too large, its envelope is genuine, and its sequence
-- number is above that of the record it replaces, unless that one is a tombstone. It is then what is
-- stored under its key, or, if it is a probe, nothing changes. Each reason to refuse it has its own
-- error: first the size, then the signature, then the sequence number.
pub put_record-mutable :
    (c : Primitives) (rec : StoredRecord) (s : Store)
    → rec.kind ≡ kind_mutable
    → (IsAdmissible c rec s
        → (put_record c rec false s ≡ inr (store_record rec s))
          × (Maps.lookup rec.key (store_record rec s).records ≡ some rec)
          × (put_record c rec true s ≡ inr s))
      × ((probe : Bool) (after : Store)
          → put_record c rec probe s ≡ inr after
          → IsAdmissible c rec s)
      × ((probe : Bool)
          → 65536 < length rec.value + length rec.signature
          → put_record c rec probe s ≡ inl PutError.too_large)
      × ((probe : Bool)
          → length rec.value + length rec.signature ≤ 65536
          → authentic c rec ≡ false
          → put_record c rec probe s ≡ inl PutError.bad_signature)
      × ((probe : Bool) (old : StoredRecord)
          → length rec.value + length rec.signature ≤ 65536
          → authentic c rec ≡ true
          → Maps.lookup rec.key s.records ≡ some old
          → rec.sequence ≤ old.sequence
          → (old.kind == kind_tombstone) ≡ false
          → put_record c rec probe s ≡ inl PutError.stale_sequence)
put_record-mutable c rec s k = (
  λ v. (
    put_record-accepted c rec s v.fits (refusal-newer c rec s k v.genuine v.newer),
    lookup-store_record rec s,
    put_record-probed c rec s k v.fits (refusal-newer c rec s k v.genuine v.newer),
  ),
  λ probe after h.
      refusal-IsAdmissible c rec s k (admitted-fits c rec probe s after h)
        (put_record-unrefused c rec probe s after h),
  λ probe large. put_record-large c rec probe s (ground arith),
  λ probe size forged.
      put_record-refused c rec probe s PutError.bad_signature size
        (refusal-forged c rec s k forged),
  λ probe old size ok found late live.
      put_record-refused c rec probe s PutError.stale_sequence size
        (refusal-stale c rec old s k ok found late live),
)
