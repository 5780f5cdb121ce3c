-- ===== src/Store/Providers.antt =====
-- The list of providers of a key.
use molia.Prelude.{
  ℕ, ◌≤◌, ◌<◌, ◌≡◌, refl, ◌∙◌, inl, inr, true, List, [], ◌∷◌, length, length-append, any,
  any-append, ltb, ltb→lt, ◌==◌, nat_eq, bytes_eq, beq_refl, Distinct, Distinct-snoc, has_key,
  Bool-cases, arith,
}
use molia.Prelude.Words.{Bytes}
use molia.Types.{NodeId}
use molia.Store.{ProviderEntry, announce, announce_list}

-- No provider twice, and 64 at most.
pub record IsProviders (list : List ProviderEntry) : Type 0 where
  pub once : Distinct (λ e. e.peer_id) list
  pub bounded : length list ≤ 64

module _ (now : ℕ) (peer_id : NodeId) (meta : Bytes) where
  length-announce :
      (list : List ProviderEntry) → length (announce now peer_id meta list) ≡ length list
  unfolding announce
  length-announce [] = refl
  length-announce (e ∷ es) = ground (arith, length-announce es)

  has_key-announce :
      (j : NodeId) (list : List ProviderEntry)
      → has_key (λ e. e.peer_id) j (announce now peer_id meta list)
        ≡ has_key (λ e. e.peer_id) j list
  unfolding announce any
  has_key-announce j [] = refl
  has_key-announce j (e ∷ es) = ground (arith, has_key-announce j es)

  Distinct-announce :
      (list : List ProviderEntry)
      → Distinct (λ e. e.peer_id) list
      → Distinct (λ e. e.peer_id) (announce now peer_id meta list)
  unfolding announce
  Distinct-announce [] d = tt
  Distinct-announce (e ∷ es) d =
      ground (arith, has_key-announce e.peer_id es, Distinct-announce es d.1)

-- An announcement keeps the list of a key free of duplicates and within 64 entries, loses no provider,
-- and adds the announcing one unless 64 others are known.
pub announce_list-IsProviders :
    (now : ℕ) (peer_id : NodeId) (meta : Bytes) (list : List ProviderEntry)
    → IsProviders list
    → IsProviders (announce_list now peer_id meta list)
      × ((j : NodeId)
          → has_key (λ e. e.peer_id) j list ≡ true
          → has_key (λ e. e.peer_id) j (announce_list now peer_id meta list) ≡ true)
      × (length list < 64
          → has_key (λ e. e.peer_id) peer_id (announce_list now peer_id meta list) ≡ true)
unfolding announce_list any
announce_list-IsProviders now peer_id meta list v =
    elim (Bool-cases (has_key (λ e. e.peer_id) peer_id list)) [
      | inl known ↦ rw known (
        record {
          once = Distinct-announce now peer_id meta list v.once;
          bounded = omega (arith, length-announce now peer_id meta list, v.bounded);
        },
        λ j h. has_key-announce now peer_id meta j list ∙ h,
        λ room. has_key-announce now peer_id meta peer_id list ∙ known,
      )
      | inr unknown ↦ elim (Bool-cases (ltb (length list) 64)) [
        | inl room ↦
            rw (unknown, room)
              (
                record {
                  once = Distinct-snoc (λ e. e.peer_id) added list unknown v.once;
                  bounded = omega (arith, length-append list (added ∷ []), ltb→lt _ _ room);
                },
                λ j h. rw (any-append (λ e. e.peer_id == j) list (added ∷ [])) (ground (arith, h)),
                λ less.
                    rw (any-append (λ e. e.peer_id == peer_id) list (added ∷ []), beq_refl peer_id)
                      (ground arith),
              )
        | inr full ↦ rw (unknown, full) (v, λ j h. h, λ less. absurd (ground arith))
      ]
    ]
  where
    added : ProviderEntry
    added = record { peer_id = peer_id; meta = meta; stored_unix = now; ttl_secs = 86400 }
