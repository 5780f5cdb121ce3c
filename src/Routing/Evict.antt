-- ===== src/Routing/Evict.antt =====
-- Answers of peers, and evictions.
use molia.Prelude.{
  ℕ, ◌⊎◌, get_or-set_self, ◌+◌, ◌≤◌, ◌<◌, ◌≡◌, refl, sym, ap, ◌∙◌, inl, inr, true, false, not, none,
  some, [], ◌∷◌, ◌++◌, length, length-append, All-append, All-retain, any, any-append, find, retain,
  ltb, ltb→lt, ◌==◌, bytes_eq, has_key, Bool-cases, Option-cases, arith,
}
use molia.Types.{NodeId, bucket_index, k_max}
use molia.Types.Bucket.{bucket_index-lt}
use molia.Routing.{
  PeerEntry, id, Bucket, RoutingTable, bucket, spare, set_bucket, pop, try_push, evict_and_replace,
  update_first, answered, touch_ok, get,
}
use molia.Routing.Buckets.{
  IsEntry, IsBucket, IsTable, NoDuplicates, set_bucket-IsTable, set_bucket-NoDuplicates,
  set_spare-IsTable, length-update_first, All-update_first, Distinct-update_first, All-pop,
  length-pop, pop-append,
}

-- Changing entries of one bucket in place, identifiers kept.
module _ (t : RoutingTable) (peer : NodeId) (f : PeerEntry → PeerEntry)
    (kept : (e : PeerEntry) → id (f e) ≡ id e) where
  abbrev pub changed : RoutingTable
  changed =
      set_bucket t (bucket_index t.self_id peer)
        (update_first (λ e. id e == peer) f (bucket t (bucket_index t.self_id peer)))

  pub changed-IsTable : IsTable t → IsTable changed
  changed-IsTable v =
      let i = bucket_index t.self_id peer in
      set_bucket-IsTable t i _ (bucket_index-lt t.self_id peer) v (record {
        members =
            All-update_first _ f (IsEntry t.self_id i) (bucket t i)
              (λ e w. record {
                placed = ap (bucket_index t.self_id) (kept e) ∙ w.placed;
                foreign = ap (λ j. j == t.self_id) (kept e) ∙ w.foreign;
              })
              (v.row i).members;
        bounded =
            omega
              (arith, length-update_first (λ e. id e == peer) f (bucket t i), (v.row i).bounded);
      })

  pub changed-NoDuplicates : IsTable t → NoDuplicates t → NoDuplicates changed
  changed-NoDuplicates v d =
      let i = bucket_index t.self_id peer in
      set_bucket-NoDuplicates t i _ (rw v.rows (bucket_index-lt t.self_id peer)) d
        (Distinct-update_first _ f (bucket t i) kept (d i))

  pub find-update_first :
      (b : Bucket) (e : PeerEntry)
      → find (λ x. id x == peer) b ≡ some e
      → find (λ x. id x == peer) (update_first (λ x. id x == peer) f b) ≡ some (f e)
  unfolding find update_first
  find-update_first [] e h = cc
  find-update_first (x ∷ b) e h = ground (arith, kept x, find-update_first b e)

-- An answer from a peer keeps the table well formed, and clears the failures of that peer.
pub touch_ok-IsTable :
    (now : ℕ) (t : RoutingTable) (peer : NodeId) (rtt_us : ℕ)
    → IsTable t
    → NoDuplicates t
    → IsTable (touch_ok now t peer rtt_us)
      × NoDuplicates (touch_ok now t peer rtt_us)
      × ((e : PeerEntry)
          → get t peer ≡ some e
          → get (touch_ok now t peer rtt_us) peer ≡ some (answered now rtt_us e))
unfolding touch_ok get
touch_ok-IsTable now t peer rtt_us v d = (
  changed-IsTable t peer (answered now rtt_us) (λ e. refl) v,
  changed-NoDuplicates t peer (answered now rtt_us) (λ e. refl) v d,
  λ e found.
      rw
        (get_or-set_self t.buckets (bucket_index t.self_id peer) _ []
          (rw v.rows (bucket_index-lt t.self_id peer)))
        (find-update_first t peer (answered now rtt_us) (λ x. refl)
          (bucket t (bucket_index t.self_id peer)) e found),
)

-- Dropping a peer.
abbrev without : NodeId → Bucket → Bucket
without dead = retain (λ e. not (id e == dead))

without_gone : (dead : NodeId) (b : Bucket) → has_key id dead (without dead b) ≡ false
unfolding any retain
without_gone dead [] = refl
without_gone dead (e ∷ b) = ground (arith, without_gone dead b)

without_other :
    (dead j : NodeId) (b : Bucket)
    → (j == dead) ≡ false
    → has_key id j (without dead b) ≡ has_key id j b
unfolding any retain
without_other dead j [] ne = refl
without_other dead j (e ∷ b) ne = ground (
  arith,
  bytes_eq.beq_iff (id e) dead,
  bytes_eq.beq_iff (id e) j,
  bytes_eq.beq_iff j dead,
  without_other dead j b ne,
)

length-without-le : (dead : NodeId) (b : Bucket) → length (without dead b) ≤ length b
unfolding retain
length-without-le dead [] = omega arith
length-without-le dead (e ∷ b) = ground (arith, length-without-le dead b)

length-without :
    (dead : NodeId) (b : Bucket) → has_key id dead b ≡ true → length (without dead b) + 1 ≤ length b
unfolding any retain
length-without dead [] h = cc
length-without dead (e ∷ b) h = ground (arith, length-without dead b, length-without-le dead b)

try_push_lem :
    (e : PeerEntry) (b : Bucket)
    → ((length b < k_max) × (try_push e b ≡ b ++ e ∷ []))
      ⊎ ((k_max ≤ length b) × (try_push e b ≡ b))
unfolding try_push
try_push_lem e b = elim (Bool-cases (ltb (length b) k_max)) [
  | inl room ↦ rw room (inl (ltb→lt _ _ room, refl))
  | inr full ↦ rw full (inr (ground arith, refl))
]

-- Evicting a peer of the bucket.
module _ (t : RoutingTable) (dead : NodeId) (v : IsTable t)
    (held : has_key id dead (bucket t (bucket_index t.self_id dead)) ≡ true) where
  abbrev home : ℕ
  home = bucket_index t.self_id dead

  kept-IsBucket :
      (e : PeerEntry)
      → IsEntry t.self_id home e
      → IsBucket t.self_id t.k home (try_push e (without dead (bucket t home)))
  kept-IsBucket e w =
      let kept : Bucket = without dead (bucket t home) in
      let members = All-retain _ (λ x. not (id x == dead)) (bucket t home) (v.row home).members in
      let short = length-without dead (bucket t home) held in
      elim (try_push_lem e kept) [
        | inl (room, same) ↦ rw same (record {
          members = All-append _ kept (e ∷ []) members (w, tt);
          bounded = omega (arith, length-append kept (e ∷ []), short, (v.row home).bounded);
        })
        | inr (full, same) ↦
            rw same
              (record { members = members; bounded = omega (arith, short, (v.row home).bounded) })
      ]

  pub evict-IsTable : IsTable (evict_and_replace t dead)
  unfolding evict_and_replace
  evict-IsTable = elim (Option-cases (pop (spare t home))) [
    | inl empty ↦
        rw (evict_and_replace, empty)
          (set_bucket-IsTable t home _ (bucket_index-lt _ _) v (record {
            members = All-retain _ (λ x. not (id x == dead)) (bucket t home) (v.row home).members;
            bounded = omega (arith, length-without-le dead (bucket t home), (v.row home).bounded);
          }))
    | inr ((e, rest), some_spare) ↦
        let (placed, others) =
          All-pop (IsEntry t.self_id home) (spare t home) e rest some_spare
            (v.spares home).members in
        rw (evict_and_replace, some_spare)
          (set_spare-IsTable (set_bucket t home (try_push e (without dead (bucket t home)))) home
            rest (bucket_index-lt _ _)
            (set_bucket-IsTable t home _ (bucket_index-lt _ _) v (kept-IsBucket e placed))
            (record {
              members = others;
              bounded =
                  omega
                    (arith, length-pop (spare t home) e rest some_spare, (v.spares home).bounded);
            }))
  ]

-- The bucket after an eviction.
evicted_bucket :
    (t : RoutingTable) (dead : NodeId)
    → IsTable t
    → let i = bucket_index t.self_id dead in
      let b = bucket (evict_and_replace t dead) i in
      ((pop (spare t i) ≡ none) × (b ≡ without dead (bucket t i)))
      ⊎ ((e : PeerEntry) × (rest : Bucket) × (pop (spare t i) ≡ some (e, rest))
          × (b ≡ try_push e (without dead (bucket t i))))
unfolding evict_and_replace
evicted_bucket t dead v =
    let i = bucket_index t.self_id dead in
    elim (Option-cases (pop (spare t i))) [
      | inl empty ↦
          rw (evict_and_replace, empty)
            (inl (refl, get_or-set_self t.buckets i _ [] (rw v.rows (bucket_index-lt _ _))))
      | inr ((e, rest), more) ↦
          rw (evict_and_replace, more)
            (inr
              (e, rest, refl, get_or-set_self t.buckets i _ [] (rw v.rows (bucket_index-lt _ _))))
    ]

has_key-try_push-true :
    (j : NodeId) (e : PeerEntry) (b : Bucket)
    → has_key id j b ≡ true
    → has_key id j (try_push e b) ≡ true
has_key-try_push-true j e b h = elim (try_push_lem e b) [
  | inl (room, same) ↦ rw (same, any-append (λ x. id x == j) b (e ∷ [])) (ground (arith, h))
  | inr (full, same) ↦ rw same h
]

has_key-try_push-false :
    (j : NodeId) (e : PeerEntry) (b : Bucket)
    → has_key id j b ≡ false
    → (id e == j) ≡ false
    → has_key id j (try_push e b) ≡ false
unfolding any
has_key-try_push-false j e b h ne = elim (try_push_lem e b) [
  | inl (room, same) ↦ rw (same, any-append (λ x. id x == j) b (e ∷ [])) (ground (arith, h, ne))
  | inr (full, same) ↦ rw same h
]

-- An eviction removes the dead peer, unless that peer also waits among the spares, and no other one.
pub evict-members :
    (t : RoutingTable) (dead : NodeId)
    → IsTable t
    → let i = bucket_index t.self_id dead in
      let b = bucket (evict_and_replace t dead) i in
      (has_key id dead (spare t i) ≡ false → has_key id dead b ≡ false)
      × ((j : NodeId)
          → (j == dead) ≡ false
          → has_key id j (bucket t i) ≡ true
          → has_key id j b ≡ true)
evict-members t dead v =
    let i = bucket_index t.self_id dead in
    elim (evicted_bucket t dead v) [
      | inl (empty, same) ↦ rw same (
        λ clean. without_gone dead (bucket t i),
        λ j ne h. without_other dead j (bucket t i) ne ∙ h,
      )
      | inr (e, rest, more, same) ↦ rw same (
        λ clean.
            has_key-try_push-false dead e (without dead (bucket t i))
              (without_gone dead (bucket t i))
              (spare_other e rest
                (sym (ap (has_key id dead) (pop-append (spare t i) e rest more)) ∙ clean)),
        λ j ne h.
            has_key-try_push-true j e (without dead (bucket t i))
              (without_other dead j (bucket t i) ne ∙ h),
      )
    ]
  where
    spare_other :
        (e : PeerEntry) (rest : Bucket)
        → has_key id dead (rest ++ e ∷ []) ≡ false
        → (id e == dead) ≡ false
    spare_other e rest h =
        unfold any in ground (arith, h, any-append (λ x. id x == dead) rest (e ∷ []))

pub find-has_key :
    (peer : NodeId) (b : Bucket) (e : PeerEntry)
    → find (λ x. id x == peer) b ≡ some e
    → has_key id peer b ≡ true
unfolding find any
find-has_key peer [] e h = cc
find-has_key peer (x ∷ b) e h = ground (arith, find-has_key peer b e)

pub get-has_key :
    (t : RoutingTable) (peer : NodeId) (e : PeerEntry)
    → get t peer ≡ some e
    → has_key id peer (bucket t (bucket_index t.self_id peer)) ≡ true
unfolding get
get-has_key t peer e h = find-has_key peer _ e h

pub has_key-find-none :
    (peer : NodeId) (b : Bucket) → has_key id peer b ≡ false → find (λ x. id x == peer) b ≡ none
unfolding find any
has_key-find-none peer [] h = refl
has_key-find-none peer (x ∷ b) h = ground (arith, has_key-find-none peer b)

-- An answer keeps the table well formed, be there duplicates or not.
pub kept-touch_ok :
    (now : ℕ) (t : RoutingTable) (peer : NodeId) (rtt_us : ℕ)
    → IsTable t
    → IsTable (touch_ok now t peer rtt_us)
unfolding touch_ok
kept-touch_ok now t peer rtt_us v = changed-IsTable t peer (answered now rtt_us) (λ e. refl) v
