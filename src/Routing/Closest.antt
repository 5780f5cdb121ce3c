-- ===== src/Routing/Closest.antt =====
-- What `closest` returns, and the bounds of `timeout_us`.
use molia.Prelude.{
  ℕ, suc, ◌*◌, ◌^◌, ◌≤◌, ◌<◌, ◌≡◌, refl, sym, ap, subst, ◌∙◌, inl, inr, Bool, true, false, some,
  List, [], ◌∷◌, ◌++◌, map, min, length, length-take, take, drop, take-append-drop, All, ltb,
  ltb→lt, leb, Bool-cases, arith,
}
use mathlib.Core.List.{flatten, Perm}
use mathlib.Core.List.Perm
use native.Mathlib.Nat.{mul-le-mul_right}
use molia.Prelude.Words.{Bytes, IsBytes, be_value, be_value-lt}
use molia.Prelude.Sort.{
  sort_by, IsSorted, sort_by-perm, sort_by-length, sort_by-All, sort_by-IsSorted,
}
use molia.Types.{NodeId, Key, IsId, PeerInfo, k_max}
use molia.Types.Distance.{distance, xor_distance-IsId}
use molia.Routing.{PeerEntry, RoutingTable, len, id, get, bytes_le, closer, closest, timeout_us}

-- The order of arrays is total and transitive, if the order that breaks ties is.
bytes_le_total :
    (a b : Bytes) (s t : Bool)
    → (s ≡ false → t ≡ true)
    → bytes_le a b s ≡ false
    → bytes_le b a t ≡ true
unfolding bytes_le
bytes_le_total [] [] s t h e = h e
bytes_le_total [] (y ∷ b) s t h e = cc
bytes_le_total (x ∷ a) [] s t h e = refl
bytes_le_total (x ∷ a) (y ∷ b) s t h e = ground (arith, bytes_le_total a b s t h)

bytes_le_trans :
    (a b c : Bytes) (s t u : Bool)
    → (s ≡ true → t ≡ true → u ≡ true)
    → bytes_le a b s ≡ true
    → bytes_le b c t ≡ true
    → bytes_le a c u ≡ true
unfolding bytes_le
bytes_le_trans [] [] [] s t u h e f = h e f
bytes_le_trans [] [] (z ∷ c) s t u h e f = refl
bytes_le_trans [] (y ∷ b) [] s t u h e f = cc
bytes_le_trans [] (y ∷ b) (z ∷ c) s t u h e f = refl
bytes_le_trans (x ∷ a) [] c s t u h e f = cc
bytes_le_trans (x ∷ a) (y ∷ b) [] s t u h e f = cc
bytes_le_trans (x ∷ a) (y ∷ b) (z ∷ c) s t u h e f = ground (arith, bytes_le_trans a b c s t u h)

pub closer_total :
    (target : Key) (a b : PeerInfo) → closer target a b ≡ false → closer target b a ≡ true
unfolding closer
closer_total target a b e =
    bytes_le_total _ _ (leb a.rtt_ms b.rtt_ms) (leb b.rtt_ms a.rtt_ms) (λ h. ground arith) e

pub closer_trans :
    (target : Key) (a b c : PeerInfo)
    → closer target a b ≡ true
    → closer target b c ≡ true
    → closer target a c ≡ true
unfolding closer
closer_trans target a b c =
    bytes_le_trans _ _ _ (leb a.rtt_ms b.rtt_ms) (leb b.rtt_ms c.rtt_ms) (leb a.rtt_ms c.rtt_ms)
      (λ h g. ground arith)

-- The order of the bytes is the order of the numbers that they spell.
bytes_le-be_value :
    (a b : Bytes) (tie : Bool)
    → length a ≡ length b
    → IsBytes a
    → IsBytes b
    → bytes_le a b tie ≡ true
    → be_value a ≤ be_value b
unfolding bytes_le be_value
bytes_le-be_value [] [] tie l ha hb h = omega arith
bytes_le-be_value [] (y ∷ b) tie l ha hb h = absurd (omega arith)
bytes_le-be_value (x ∷ a) [] tie l ha hb h = absurd (omega arith)
bytes_le-be_value (x ∷ a) (y ∷ b) tie l ha hb h =
    let same : length a ≡ length b = omega arith in
    let small : be_value a < 256 ^ length b =
      subst (λ n. be_value a < 256 ^ n) same (be_value-lt a ha.1) in
    rw same (elim (Bool-cases (ltb x y)) [
      | inl less ↦ omega (arith, small, mul-le-mul_right (256 ^ length b) (ltb→lt x y less))
      | inr least ↦ elim (Bool-cases (ltb y x)) [
        | inl more ↦ absurd (ground arith)
        | inr more ↦
            let equal : x ≡ y = ground arith in
            let rest : be_value a ≤ be_value b =
              bytes_le-be_value a b tie same ha.1 hb.1 (ground arith) in
            rw equal (omega (arith, rest))
      ]
    ])

closer-distance :
    (target : Key) (a b : PeerInfo)
    → IsId target
    → IsId a.id
    → IsId b.id
    → closer target a b ≡ true
    → distance a.id target ≤ distance b.id target
unfolding closer
closer-distance target a b ht ha hb h =
    let da = xor_distance-IsId ha ht in
    let db = xor_distance-IsId hb ht in
    bytes_le-be_value _ _ _ (da.size ∙ sym db.size) da.bytes db.bytes h

-- In a sorted list, what stands first is smaller than what follows.
module _ {ℓ κ μ} {A : Type ℓ} (le : A → A → Bool) (P : A → Type κ) (Q : A → A → Type μ)
    (strict : (a b : A) → P a → P b → le a b ≡ true → Q a b) where
  rest-All :
      (x : A) (ys zs : List A) → P x → All P zs → All (λ y. le x y ≡ true) (ys ++ zs) → All (Q x) zs
  rest-All x [] [] hx hz h = tt
  rest-All x [] (z ∷ zs) hx hz h = (strict x z hx hz.0 h.0, rest-All x [] zs hx hz.1 h.1)
  rest-All x (y ∷ ys) zs hx hz h = rest-All x ys zs hx hz h.1

  sorted-All :
      (xs zs : List A) → All P (xs ++ zs) → IsSorted le (xs ++ zs) → All (λ x. All (Q x) zs) xs
  sorted-All [] zs hp h = tt
  sorted-All (x ∷ xs) zs hp h =
      (rest-All x xs zs hp.0 (tail xs hp.1) h.0, sorted-All xs zs hp.1 h.1)
    where
      tail : (ys : List A) → All P (ys ++ zs) → All P zs
      tail [] q = q
      tail (y ∷ ys) q = tail ys q.1

IsSorted-prefix {ℓ} :
    {A : Type ℓ} → (le : A → A → Bool) (xs zs : List A) → IsSorted le (xs ++ zs) → IsSorted le xs
IsSorted-prefix le [] zs h = tt
IsSorted-prefix {A = A} le (x ∷ xs) zs h = (initial xs h.0, IsSorted-prefix le xs zs h.1)
  where
    initial : (ys : List A) → All (λ y. le x y ≡ true) (ys ++ zs) → All (λ y. le x y ≡ true) ys
    initial [] q = tt
    initial (y ∷ ys) q = (q.0, initial ys q.1)

All-map {ℓ κ μ} :
    {A : Type ℓ}
    → {B : Type κ} → (P : B → Type μ) (f : A → B) (xs : List A) → All (λ x. P (f x)) xs
    → All P (map f xs)
All-map P f [] h = tt
All-map P f (x ∷ xs) h = (h.0, All-map P f xs h.1)

IsSorted-map {ℓ κ} :
    {A : Type ℓ}
    → {B : Type κ} → (le : B → B → Bool) (f : A → B) (xs : List A)
    → IsSorted (λ a b. le (f a) (f b)) xs
    → IsSorted le (map f xs)
IsSorted-map le f [] h = tt
IsSorted-map le f (x ∷ xs) h = (All-map _ f xs h.0, IsSorted-map le f xs h.1)

length-map {ℓ κ} :
    {A : Type ℓ} → {B : Type κ} → (f : A → B) (xs : List A) → length (map f xs) ≡ length xs
length-map f [] = refl
length-map f (x ∷ xs) = ap suc (length-map f xs)

-- The contacts of all buckets.
abbrev pub contacts : RoutingTable → List PeerInfo
contacts t = map (λ e. e.info) (flatten t.buckets)

-- `closest` returns as many contacts as the table has, up to the number asked for and to 32. They are
-- contacts of the table, ordered by distance to the target and by round-trip time where distances are
-- equal, and every contact that is left out is at least as far from the target as every one returned.
pub closest_lem :
    (t : RoutingTable) (target : Key) (n : ℕ)
    → IsId target
    → All (λ e. IsId (id e)) (flatten t.buckets)
    → (length (closest t target n) ≡ min (min n k_max) (len t))
      × IsSorted (closer target) (closest t target n)
      × ((left : List PeerInfo) × Perm (contacts t) (closest t target n ++ left)
          × All
              (λ near. All (λ far. distance near.id target ≤ distance far.id target) left)
              (closest t target n))
unfolding closest
closest_lem t target n ht hs = (
  omega (arith, length-take m sorted, size),
  IsSorted-prefix (closer target) (take m sorted) (drop m sorted) (rw (whole) ordered),
  (
    drop m sorted,
    rw (whole) reordered,
    sorted-All (closer target) (λ p. IsId p.id)
        (λ near far. distance near.id target ≤ distance far.id target)
        (λ a b. closer-distance target a b ht) (take m sorted) (drop m sorted) (rw (whole) known)
        (rw (whole) ordered),
  ),
)
  where
    m : ℕ
    m = min n k_max

    by : PeerEntry → PeerEntry → Bool
    by a b = closer target a.info b.info

    es : List PeerEntry
    es = flatten t.buckets

    sorted : List PeerInfo
    sorted = map (λ e. e.info) (sort_by by es)

    whole : take m sorted ++ drop m sorted ≡ sorted
    whole = take-append-drop m sorted

    size : length sorted ≡ len t
    size = unfold len in length-map (λ e. e.info) (sort_by by es) ∙ sort_by-length by es

    ordered : IsSorted (closer target) sorted
    ordered =
        IsSorted-map (closer target) (λ e. e.info) (sort_by by es)
          (sort_by-IsSorted by (λ a b. closer_total target a.info b.info)
            (λ a b c. closer_trans target a.info b.info c.info) es)

    known : All (λ p. IsId p.id) sorted
    known = All-map _ (λ e. e.info) (sort_by by es) (sort_by-All by (λ e. IsId (id e)) es hs)

    reordered : Perm (contacts t) sorted
    reordered = Perm.map (λ e. e.info) (sort_by-perm by es)

-- The time allowed for an answer is between 50 ms and 600 ms, and twice the smoothed round-trip time
-- in between.
pub timeout_us_bounds :
    (t : RoutingTable) (peer : NodeId)
    → (50000 ≤ timeout_us t peer)
      × (timeout_us t peer ≤ 600000)
      × ((e : PeerEntry)
          → get t peer ≡ some e
          → 25000 ≤ e.srtt_us
          → e.srtt_us ≤ 300000
          → timeout_us t peer ≡ e.srtt_us * 2)
unfolding timeout_us
timeout_us_bounds t peer = (omega arith, omega arith, λ e found lo hi. rw found (omega arith))
