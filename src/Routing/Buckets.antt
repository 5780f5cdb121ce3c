-- ===== src/Routing/Buckets.antt =====
-- What a well-formed table is, and the lemmas about one bucket.
use molia.Prelude.{
  ℕ, zero, suc, ◌+◌, ◌≤◌, ◌<◌, ◌≡◌, refl, sym, ap, subst, ◌∙◌, inl, inr, Bool, false, none, some,
  [], ◌∷◌, ◌++◌, length, length-append, All, All-append, any, any-append, position, set, get_or,
  get_or-set_self, get_or-set_ne, length-set, ℕ_discrete, ◌≢◌, ◌⊎◌, ◌==◌, bytes_eq, beq→eq,
  Distinct, Distinct-snoc, has_key, Bool-cases, Option-cases, arith,
}
use molia.Types.{NodeId, bucket_index, k_max}
use molia.Routing.{
  PeerEntry, id, Bucket, RoutingTable, bucket, spare, set_bucket, replacement_cap, move_to_back,
  update_first, pop,
}

-- The entry belongs in bucket `i` and is not the node itself.
pub record IsEntry (self_id : NodeId) (i : ℕ) (e : PeerEntry) : Type 0 where
  pub placed : bucket_index self_id (id e) ≡ i
  pub foreign : (id e == self_id) ≡ false

pub record IsBucket (self_id : NodeId) (limit i : ℕ) (b : Bucket) : Type 0 where
  pub members : All (IsEntry self_id i) b
  pub bounded : length b ≤ limit

pub record IsSpare (self_id : NodeId) (i : ℕ) (b : Bucket) : Type 0 where
  pub members : All (IsEntry self_id i) b
  pub bounded : length b ≤ replacement_cap

-- 256 buckets of at most `k` peers each, every peer in the bucket of its distance and none the node
-- itself, and 256 replacement caches of at most eight peers of their bucket.
pub record IsTable (t : RoutingTable) : Type 0 where
  pub rows : length t.buckets ≡ 256
  pub spare_rows : length t.replacement ≡ 256
  pub some_room : 1 ≤ t.k
  pub fits : t.k ≤ k_max
  pub row : (i : ℕ) → IsBucket t.self_id t.k i (bucket t i)
  pub spares : (i : ℕ) → IsSpare t.self_id i (spare t i)

-- No bucket holds a peer twice.
abbrev pub NoDuplicates : RoutingTable → Type 0
NoDuplicates t = (i : ℕ) → Distinct id (bucket t i)

-- One bucket is replaced.
pub bucket-set_bucket :
    (t : RoutingTable) (i j : ℕ) (b : Bucket)
    → i < length t.buckets
    → ((i ≡ j) × (bucket (set_bucket t i b) j ≡ b))
      ⊎ ((i ≢ j) × (bucket (set_bucket t i b) j ≡ bucket t j))
bucket-set_bucket t i j b h = elim (ℕ_discrete i j) [
  | yes same ↦
      inl (
        same,
        subst (λ n. bucket (set_bucket t i b) n ≡ b) same (get_or-set_self t.buckets i b [] h),
      )
  | no other ↦ inr (other, get_or-set_ne t.buckets i j b [] other)
]

pub set_bucket-IsTable :
    (t : RoutingTable) (i : ℕ) (b : Bucket)
    → i < 256
    → IsTable t
    → IsBucket t.self_id t.k i b
    → IsTable (set_bucket t i b)
set_bucket-IsTable t i b lt v w = record {
  rows = omega (arith, length-set t.buckets i b, v.rows);
  spare_rows = v.spare_rows;
  some_room = v.some_room;
  fits = v.fits;
  row = λ j. elim (bucket-set_bucket t i j b (rw v.rows lt)) [
    | inl (same, e) ↦ rw e (subst (λ n. IsBucket t.self_id t.k n b) same w)
    | inr (other, e) ↦ rw e (v.row j)
  ];
  spares = v.spares;
}

pub set_bucket-NoDuplicates :
    (t : RoutingTable) (i : ℕ) (b : Bucket)
    → i < length t.buckets
    → NoDuplicates t
    → Distinct id b
    → NoDuplicates (set_bucket t i b)
set_bucket-NoDuplicates t i b lt v w j = elim (bucket-set_bucket t i j b lt) [
  | inl (same, e) ↦ rw e w
  | inr (other, e) ↦ rw e (v j)
]

pub set_spare-IsTable :
    (t : RoutingTable) (i : ℕ) (b : Bucket)
    → i < 256
    → IsTable t
    → IsSpare t.self_id i b
    → IsTable (record t { replacement = set t.replacement i b })
set_spare-IsTable t i b lt v w = record {
  rows = v.rows;
  spare_rows = omega (arith, length-set t.replacement i b, v.spare_rows);
  some_room = v.some_room;
  fits = v.fits;
  row = v.row;
  spares = λ j. elim (ℕ_discrete i j) [
    | yes same ↦
        subst (λ n. IsSpare t.self_id n (get_or (set t.replacement i b) n [])) same
          (rw (get_or-set_self t.replacement i b [] (rw v.spare_rows lt)) w)
    | no other ↦ rw (get_or-set_ne t.replacement i j b [] other) (v.spares j)
  ];
}

pub length-move_to_back :
    (pos : ℕ) (f : PeerEntry → PeerEntry) (b : Bucket) → length (move_to_back pos f b) ≡ length b
unfolding move_to_back
length-move_to_back pos f [] = refl
length-move_to_back zero f (e ∷ b) = omega (arith, length-append b (f e ∷ []))
length-move_to_back (suc pos) f (e ∷ b) = ap suc (length-move_to_back pos f b)

pub All-move_to_back {κ} :
    (P : PeerEntry → Type κ) (pos : ℕ) (f : PeerEntry → PeerEntry) (b : Bucket)
    → ((e : PeerEntry) → P (f e))
    → All P b
    → All P (move_to_back pos f b)
unfolding move_to_back
All-move_to_back P pos f [] hf h = tt
All-move_to_back P zero f (e ∷ b) hf h = All-append P b (f e ∷ []) h.1 (hf e, tt)
All-move_to_back P (suc pos) f (e ∷ b) hf h = (h.0, All-move_to_back P pos f b hf h.1)

module _ (k : NodeId) (f : PeerEntry → PeerEntry) (renamed : (e : PeerEntry) → id (f e) ≡ k) where
  has_key-move_to_back :
      (j : NodeId) (pos : ℕ) (b : Bucket)
      → (k == j) ≡ false
      → has_key id j b ≡ false
      → has_key id j (move_to_back pos f b) ≡ false
  unfolding move_to_back any
  has_key-move_to_back j pos [] ne h = refl
  has_key-move_to_back j zero (e ∷ b) ne h =
      rw (any-append (λ x. id x == j) b (f e ∷ [])) (ground (arith, renamed e))
  has_key-move_to_back j (suc pos) (e ∷ b) ne h = ground (arith, has_key-move_to_back j pos b ne)

  pub Distinct-move_to_back :
      (pos : ℕ) (b : Bucket)
      → position (λ e. id e == k) b ≡ some pos
      → Distinct id b
      → Distinct id (move_to_back pos f b)
  unfolding move_to_back position any
  Distinct-move_to_back pos [] found d = tt
  Distinct-move_to_back zero (e ∷ b) found d = elim (Bool-cases (id e == k)) [
    | inl hit ↦
        let same : id e ≡ k = beq→eq (id e) k hit in
        Distinct-snoc id (f e) b (subst (λ j. has_key id j b ≡ false) (same ∙ sym (renamed e)) d.0)
          d.1
    | inr miss ↦ absurd (ground arith)
  ]
  Distinct-move_to_back (suc pos) (e ∷ b) found d = elim (Bool-cases (id e == k)) [
    | inl hit ↦ absurd (ground arith)
    | inr miss ↦ (
      has_key-move_to_back (id e) pos b
          (ground (arith, bytes_eq.beq_iff (id e) k, bytes_eq.beq_iff k (id e))) d.0,
      Distinct-move_to_back pos b (ground arith) d.1,
    )
  ]

-- Changing an entry in place, its identifier kept.
module _ (p : PeerEntry → Bool) (f : PeerEntry → PeerEntry) where
  pub length-update_first : (b : Bucket) → length (update_first p f b) ≡ length b
  unfolding update_first
  length-update_first [] = refl
  length-update_first (e ∷ b) = ground (arith, length-update_first b)

  pub All-update_first {κ} :
      (P : PeerEntry → Type κ) (b : Bucket)
      → ((e : PeerEntry) → P e → P (f e))
      → All P b
      → All P (update_first p f b)
  unfolding update_first
  All-update_first P [] hf h = tt
  All-update_first P (e ∷ b) hf h = elim (Bool-cases (p e)) [
    | inl hit ↦ rw hit (hf e h.0, h.1)
    | inr miss ↦ rw miss (h.0, All-update_first P b hf h.1)
  ]

  pub has_key-update_first :
      (j : NodeId) (b : Bucket)
      → ((e : PeerEntry) → id (f e) ≡ id e)
      → has_key id j (update_first p f b) ≡ has_key id j b
  unfolding update_first any
  has_key-update_first j [] kept = refl
  has_key-update_first j (e ∷ b) kept = ground (arith, kept e, has_key-update_first j b kept)

  pub Distinct-update_first :
      (b : Bucket)
      → ((e : PeerEntry) → id (f e) ≡ id e)
      → Distinct id b
      → Distinct id (update_first p f b)
  unfolding update_first
  Distinct-update_first [] kept d = tt
  Distinct-update_first (e ∷ b) kept d =
      ground (arith, kept e, has_key-update_first (id e) b kept, Distinct-update_first b kept d.1)

-- The last entry of a list of spares.
pop-none : (b : Bucket) → pop b ≡ none → b ≡ []
unfolding pop
pop-none [] h = refl
pop-none (x ∷ b) h = elim (Option-cases (pop b)) [
  | inl e ↦ absurd (ground arith)
  | inr (p, e) ↦ absurd (ground arith)
]

pub pop-append :
    (b : Bucket) (e : PeerEntry) (rest : Bucket) → pop b ≡ some (e, rest) → b ≡ rest ++ e ∷ []
unfolding pop
pop-append [] e rest found = cc
pop-append (x ∷ b) e rest found = elim (Option-cases (pop b)) [
  | inl end ↦ ground (arith, pop-none b end)
  | inr ((l, r), more) ↦ ground (arith, pop-append b l r more)
]

pub All-pop {κ} :
    (P : PeerEntry → Type κ) (b : Bucket) (e : PeerEntry) (rest : Bucket)
    → pop b ≡ some (e, rest)
    → All P b
    → P e × All P rest
All-pop P b e rest found h = split rest (subst (All P) (pop-append b e rest found) h)
  where
    split : (r : Bucket) → All P (r ++ e ∷ []) → P e × All P r
    split [] q = (q.0, tt)
    split (x ∷ r) q = let (last, others) = split r q.1 in (last, (q.0, others))

pub length-pop :
    (b : Bucket) (e : PeerEntry) (rest : Bucket)
    → pop b ≡ some (e, rest)
    → length b ≡ length rest + 1
length-pop b e rest found = ap length (pop-append b e rest found) ∙ length-append rest (e ∷ [])
