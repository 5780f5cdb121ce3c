-- ===== src/Routing/Failures.antt =====
-- Failures of peers.
use molia.Prelude.{
  ℕ, get_or-set_self, ◌≤◌, ◌<◌, ◌≡◌, refl, sym, subst, ◌∙◌, inl, inr, true, false, none, some, [],
  length, find, if◌then◌else◌, leb, ◌==◌, bytes_eq, has_key, Bool-cases, Option-cases, arith,
}
use molia.Types.{NodeId, bucket_index}
use molia.Types.Bucket.{bucket_index-lt}
use molia.Routing.{
  PeerEntry, id, RoutingTable, bucket, spare, pop, evict_and_replace, update_first, failed, get,
  mark_fail,
}
use molia.Routing.Buckets.{IsTable, has_key-update_first}
use molia.Routing.Evict.{
  changed, changed-IsTable, find-update_first, evict-IsTable, evict-members, get-has_key,
  has_key-find-none,
}

self_id-evict : (t : RoutingTable) (dead : NodeId) → (evict_and_replace t dead).self_id ≡ t.self_id
unfolding evict_and_replace
self_id-evict t dead = elim (Option-cases (pop (spare t (bucket_index t.self_id dead)))) [
  | inl e ↦ rw (evict_and_replace, e) refl
  | inr (p, e) ↦ rw (evict_and_replace, e) refl
]

get-evicted :
    (t : RoutingTable) (dead : NodeId)
    → has_key id dead (bucket (evict_and_replace t dead) (bucket_index t.self_id dead)) ≡ false
    → get (evict_and_replace t dead) dead ≡ none
unfolding get
get-evicted t dead h =
    subst
      (λ s.
        find (λ e. id e == dead) (bucket (evict_and_replace t dead) (bucket_index s dead)) ≡ none)
      (sym (self_id-evict t dead)) (has_key-find-none dead _ h)

mark_fail-none : (t : RoutingTable) (peer : NodeId) → get t peer ≡ none → mark_fail t peer ≡ t
unfolding mark_fail
mark_fail-none t peer h = rw (mark_fail, h) refl

mark_fail-some :
    (t : RoutingTable) (peer : NodeId) (e : PeerEntry)
    → get t peer ≡ some e
    → mark_fail t peer ≡ (
        if leb 3 (failed e).fail_count
        then evict_and_replace (changed t peer failed (λ x. refl)) peer
        else changed t peer failed (λ x. refl))
unfolding mark_fail
mark_fail-some t peer e h = rw (mark_fail, h) refl

-- A failure of a peer that the table does not hold changes nothing. The first two failures in a row
-- of a peer only count; the third one evicts it, so that it is found no more unless it also waited
-- among the spares. The table stays well formed, and no other peer of the bucket is lost.
pub mark_fail_outcome :
    (t : RoutingTable) (peer : NodeId)
    → IsTable t
    → (get t peer ≡ none → mark_fail t peer ≡ t)
      × ((e : PeerEntry)
          → get t peer ≡ some e
          → e.fail_count < 2
          → get (mark_fail t peer) peer ≡ some (failed e))
      × ((e : PeerEntry)
          → get t peer ≡ some e
          → 2 ≤ e.fail_count
          → has_key id peer (spare t (bucket_index t.self_id peer)) ≡ false
          → get (mark_fail t peer) peer ≡ none)
      × IsTable (mark_fail t peer)
      × ((j : NodeId)
          → (j == peer) ≡ false
          → has_key id j (bucket t (bucket_index t.self_id peer)) ≡ true
          → has_key id j (bucket (mark_fail t peer) (bucket_index t.self_id peer)) ≡ true)
mark_fail_outcome t peer v = (mark_fail-none t peer, strikes, third, keeps_table, keeps_others)
  where
    i : ℕ
    i = bucket_index t.self_id peer

    marked : RoutingTable
    marked = changed t peer failed (λ e. refl)

    marked-IsTable : IsTable marked
    marked-IsTable = changed-IsTable t peer failed (λ e. refl) v

    here : i < length t.buckets
    here = rw v.rows (bucket_index-lt t.self_id peer)

    marked_bucket : bucket marked i ≡ update_first (λ x. id x == peer) failed (bucket t i)
    marked_bucket = get_or-set_self t.buckets i _ [] here

    has_key-marked : (j : NodeId) → has_key id j (bucket marked i) ≡ has_key id j (bucket t i)
    has_key-marked j =
        rw marked_bucket
          (has_key-update_first (λ x. id x == peer) failed j (bucket t i) (λ e. refl))

    strikes :
        (e : PeerEntry)
        → get t peer ≡ some e
        → e.fail_count < 2
        → get (mark_fail t peer) peer ≡ some (failed e)
    strikes e found few =
        unfold get in
        let below : leb 3 (failed e).fail_count ≡ false = ground arith in
        rw (mark_fail-some t peer e found, below)
          (rw marked_bucket (find-update_first t peer failed (λ x. refl) (bucket t i) e found))

    third :
        (e : PeerEntry)
        → get t peer ≡ some e
        → 2 ≤ e.fail_count
        → has_key id peer (spare t i) ≡ false
        → get (mark_fail t peer) peer ≡ none
    third e found many clean =
        let above : leb 3 (failed e).fail_count ≡ true = ground arith in
        rw (mark_fail-some t peer e found, above)
          (get-evicted marked peer ((evict-members marked peer marked-IsTable).0 clean))

    keeps_table : IsTable (mark_fail t peer)
    keeps_table = elim (Option-cases (get t peer)) [
      | inl none_there ↦ rw (mark_fail-none t peer none_there) v
      | inr (e, found) ↦
          rw (mark_fail-some t peer e found) (elim (Bool-cases (leb 3 (failed e).fail_count)) [
            | inl out ↦ rw out (
                evict-IsTable marked peer marked-IsTable
                  (has_key-marked peer ∙ get-has_key t peer e found))
            | inr still ↦ rw still marked-IsTable
          ])
    ]

    keeps_others :
        (j : NodeId)
        → (j == peer) ≡ false
        → has_key id j (bucket t i) ≡ true
        → has_key id j (bucket (mark_fail t peer) i) ≡ true
    keeps_others j ne h = elim (Option-cases (get t peer)) [
      | inl none_there ↦ rw (mark_fail-none t peer none_there) h
      | inr (e, found) ↦
          rw (mark_fail-some t peer e found) (elim (Bool-cases (leb 3 (failed e).fail_count)) [
            | inl out ↦
                rw out ((evict-members marked peer marked-IsTable).1 j ne (has_key-marked j ∙ h))
            | inr still ↦ rw still (has_key-marked j ∙ h)
          ])
    ]
