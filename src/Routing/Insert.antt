-- ===== src/Routing/Insert.antt =====
-- `insert` and `touch_ok` keep the table well formed, and what `insert` does on each branch.
use molia.Prelude.{
  ℕ, zero, suc, ◌⊎◌, get_or-set_self, ◌≤◌, ◌<◌, ◌≡◌, refl, ap, ◌∙◌, inl, inr, Bool, true, false,
  Option, none, some, [], ◌∷◌, ◌++◌, min, length, length-append, All-append, get_or, any, position,
  ltb, ltb→lt, ◌==◌, bytes_eq, Distinct-snoc, has_key, Bool-cases, Option-cases, arith, replicate,
}
use molia.Types.{NodeId, PeerInfo, bucket_index, k_max, first}
use molia.Types.Bucket.{bucket_index-lt}
use molia.Routing.{
  PeerEntry, id, Bucket, RoutingTable, new, bucket, spare, set_bucket, replacement_cap, prefix_ok,
  new_entry, touched, move_to_back, insert_absent, insert,
}
use molia.Routing.Buckets.{
  IsEntry, IsTable, NoDuplicates, set_bucket-IsTable, set_bucket-NoDuplicates, set_spare-IsTable,
  length-move_to_back, All-move_to_back, Distinct-move_to_back,
}

get_or-empty : (n i : ℕ) → get_or (replicate {A = Bucket} n []) i [] ≡ []
get_or-empty zero i = refl
get_or-empty (suc n) zero = refl
get_or-empty (suc n) (suc i) = get_or-empty n i

-- A fresh table is well formed and holds no peer.
pub new-IsTable : (self_id : NodeId) → IsTable (new self_id) × NoDuplicates (new self_id)
unfolding new
new-IsTable self_id = (
  record {
    rows = refl;
    spare_rows = refl;
    some_room = omega arith;
    fits = omega arith;
    row = λ i. rw (get_or-empty 256 i) (record { members = tt; bounded = omega arith });
    spares = λ i. rw (get_or-empty 256 i) (record { members = tt; bounded = omega arith });
  },
  λ i. rw (get_or-empty 256 i) tt,
)

-- An absent peer has no position, and one that is not found anywhere is not a key.
position-none :
    (k : NodeId) (b : Bucket) → position (λ e. id e == k) b ≡ none → has_key id k b ≡ false
unfolding position any
position-none k [] h = refl
position-none k (e ∷ b) h = elim (Option-cases (position (λ x. id x == k) b)) [
  | inl n ↦ ground (arith, position-none k b n)
  | inr (p, s) ↦ absurd (ground arith)
]

module _ (now : ℕ) (t : RoutingTable) (info : PeerInfo) (v : IsTable t)
    (other : (info.id == t.self_id) ≡ false) where
  abbrev index : ℕ
  index = bucket_index t.self_id info.id

  fresh-IsEntry : (e : PeerEntry) → id e ≡ info.id → IsEntry t.self_id index e
  fresh-IsEntry e same = record {
    placed = ap (bucket_index t.self_id) same;
    foreign = ap (λ j. j == t.self_id) same ∙ other;
  }

  insert_absent-IsTable : IsTable (insert_absent now t info index).0
  unfolding insert_absent
  insert_absent-IsTable = elim (Bool-cases (ltb (length (bucket t index)) (min t.k k_max))) [
    | inl room ↦ rw room (
        set_bucket-IsTable t index _ (bucket_index-lt _ _) v (record {
          members =
              All-append _ (bucket t index) _ (v.row index).members (fresh-IsEntry _ refl, tt);
          bounded = omega (
            arith,
            length-append (bucket t index) (new_entry now info ∷ []),
            ltb→lt _ _ room,
            v.fits,
          );
        }))
    | inr full ↦ elim (Bool-cases (ltb (length (spare t index)) replacement_cap)) [
      | inl room ↦
          rw (full, room)
            (set_spare-IsTable t index _ (bucket_index-lt _ _) v (record {
              members =
                  All-append _ (spare t index) _ (v.spares index).members
                    (fresh-IsEntry _ refl, tt);
              bounded =
                  omega (
                    arith,
                    length-append (spare t index) (new_entry now info ∷ []),
                    ltb→lt _ _ room,
                  );
            }))
      | inr none_left ↦ rw (full, none_left) v
    ]
  ]

  known-IsTable :
      (pos : ℕ)
      → IsTable (set_bucket t index (move_to_back pos (touched now info) (bucket t index)))
  known-IsTable pos = set_bucket-IsTable t index _ (bucket_index-lt _ _) v (record {
    members =
        All-move_to_back _ pos _ (bucket t index) (λ e. fresh-IsEntry _ refl) (v.row index).members;
    bounded =
        omega (
          arith,
          length-move_to_back pos (touched now info) (bucket t index),
          (v.row index).bounded,
        );
  })

-- `insert` keeps the table well formed: no more than `k` peers in a bucket, each in the bucket of its
-- distance, never the node itself, none twice.
pub insert-IsTable :
    (now : ℕ) (t : RoutingTable) (info : PeerInfo)
    → IsTable t
    → NoDuplicates t
    → IsTable (insert now t info).0 × NoDuplicates (insert now t info).0
unfolding insert
insert-IsTable now t info v d = elim (Bool-cases (info.id == t.self_id)) [
  | inl own ↦ rw own (v, d)
  | inr other ↦ elim (Bool-cases (prefix_ok t info)) [
    | inr crowded ↦ rw (other, crowded) (v, d)
    | inl ok ↦ elim (Option-cases (position (λ e. id e == info.id) (bucket t i))) [
      | inr (pos, found) ↦
          rw (other, ok, found)
            (
              known-IsTable now t info v other pos,
              set_bucket-NoDuplicates t i _ here d (
                  Distinct-move_to_back info.id (touched now info) (λ e. refl) pos (bucket t i)
                    found (d i)),
            )
      | inl absent ↦
          rw (other, ok, absent)
            (insert_absent-IsTable now t info v other, insert_absent-NoDuplicates absent)
    ]
  ]
]
  where
    i : ℕ
    i = bucket_index t.self_id info.id

    here : i < length t.buckets
    here = rw v.rows (bucket_index-lt t.self_id info.id)

    insert_absent-NoDuplicates :
        position (λ e. id e == info.id) (bucket t i) ≡ none
        → NoDuplicates (insert_absent now t info i).0
    insert_absent-NoDuplicates absent =
        unfold insert_absent in
        elim (Bool-cases (ltb (length (bucket t i)) (min t.k k_max))) [
          | inl room ↦ rw room (
              set_bucket-NoDuplicates t i _ here d (
                Distinct-snoc id (new_entry now info) (bucket t i)
                  (position-none info.id (bucket t i) absent) (d i)))
          | inr full ↦ elim (Bool-cases (ltb (length (spare t i)) replacement_cap)) [
            | inl room ↦ rw (full, room) d
            | inr none_left ↦ rw (full, none_left) d
          ]
        ]

move_to_back-snoc :
    (p : PeerEntry → Bool) (f : PeerEntry → PeerEntry) (pos : ℕ) (b : Bucket)
    → position p b ≡ some pos
    → (rest : Bucket) × (e : PeerEntry) × (move_to_back pos f b ≡ rest ++ f e ∷ [])
unfolding move_to_back position
move_to_back-snoc p f pos [] found = cc
move_to_back-snoc p f zero (e ∷ b) found = (b, e, refl)
move_to_back-snoc p f (suc pos) (e ∷ b) found =
    let (rest, x, same) = move_to_back-snoc p f pos b (ground arith) in
    (e ∷ rest, x, ap (◌∷◌ e) same)

abbrev pub IsFresh : ℕ → PeerInfo → PeerEntry → Type 0
IsFresh now info e = (e.info ≡ info) × (e.last_seen ≡ now) × (e.fail_count ≡ 0)

-- The peer is the most recently seen of its bucket, and no probe of another one is asked for.
abbrev pub Stored : ℕ → RoutingTable → PeerInfo → RoutingTable × Option PeerEntry → Type 0
Stored now t info r =
    (r.1 ≡ none)
    × ((rest : Bucket) × (e : PeerEntry) × (bucket r.0 (bucket_index t.self_id info.id)
          ≡ rest ++ e ∷ [])
        × IsFresh now info e)

-- The bucket is full of other peers; nothing in it changes and its least recently seen entry is
-- returned, for the caller to probe.
abbrev pub Probed : RoutingTable → PeerInfo → RoutingTable × Option PeerEntry → Type 0
Probed t info r =
    let b = bucket t (bucket_index t.self_id info.id) in
    (r.1 ≡ first b) × (r.0.buckets ≡ t.buckets) × (t.k ≤ length b) × (has_key id info.id b ≡ false)

pub insert_outcome :
    (now : ℕ) (t : RoutingTable) (info : PeerInfo)
    → IsTable t
    → ((info.id == t.self_id) ≡ true → insert now t info ≡ (t, none))
      × (prefix_ok t info ≡ false → insert now t info ≡ (t, none))
      × ((info.id == t.self_id) ≡ false
          → prefix_ok t info ≡ true
          → Stored now t info (insert now t info) ⊎ Probed t info (insert now t info))
unfolding insert
insert_outcome now t info v = (λ own. rw own, λ crowded. ground arith, accepted)
  where
    i : ℕ
    i = bucket_index t.self_id info.id

    here : i < length t.buckets
    here = rw v.rows (bucket_index-lt t.self_id info.id)

    new_peer_outcome :
        position (λ e. id e == info.id) (bucket t i) ≡ none
        → Stored now t info (insert_absent now t info i)
          ⊎ Probed t info (insert_absent now t info i)
    new_peer_outcome absent =
        unfold insert_absent in
        elim (Bool-cases (ltb (length (bucket t i)) (min t.k k_max))) [
          | inl room ↦ rw room (
              inl (
                refl,
                (
                  bucket t i,
                  new_entry now info,
                  get_or-set_self t.buckets i _ [] here,
                  (refl, refl, refl),
                ),
              ))
          | inr full ↦
              let crowd : t.k ≤ length (bucket t i) = ground (arith, v.fits) in
              let none_there = position-none info.id (bucket t i) absent in
              elim (Bool-cases (ltb (length (spare t i)) replacement_cap)) [
                | inl room ↦ rw (full, room) (inr (refl, refl, crowd, none_there))
                | inr none_left ↦ rw (full, none_left) (inr (refl, refl, crowd, none_there))
              ]
        ]

    accepted :
        (info.id == t.self_id) ≡ false
        → prefix_ok t info ≡ true
        → Stored now t info (insert now t info) ⊎ Probed t info (insert now t info)
    accepted other ok = elim (Option-cases (position (λ e. id e == info.id) (bucket t i))) [
      | inr (pos, found) ↦
          let (rest, e, same) = move_to_back-snoc _ (touched now info) pos (bucket t i) found in
          rw (other, ok, found)
            (inl (
              refl,
              (
                rest,
                touched now info e,
                get_or-set_self t.buckets i _ [] here ∙ same,
                (refl, refl, refl),
              ),
            ))
      | inl absent ↦ rw (other, ok, absent) (new_peer_outcome absent)
    ]

-- `insert` keeps the table well formed, be there duplicates or not.
pub kept-insert :
    (now : ℕ) (t : RoutingTable) (info : PeerInfo) → IsTable t → IsTable (insert now t info).0
unfolding insert
kept-insert now t info v = elim (Bool-cases (info.id == t.self_id)) [
  | inl own ↦ rw own v
  | inr other ↦ elim (Bool-cases (prefix_ok t info)) [
    | inr crowded ↦ rw (other, crowded) v
    | inl ok ↦
        elim (Option-cases
          (position (λ e. id e == info.id) (bucket t (bucket_index t.self_id info.id)))) [
            | inr (pos, found) ↦
                rw (insert, other, ok, found) (known-IsTable now t info v other pos)
            | inl absent ↦ rw (insert, other, ok, absent) (insert_absent-IsTable now t info v other)
          ]
  ]
]
