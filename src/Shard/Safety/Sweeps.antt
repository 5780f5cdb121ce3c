-- ===== src/Shard/Safety/Sweeps.antt =====
-- A sweep of the lookups, and what an answer does to the lookup that waits for it.
use molia.Prelude.{
  ℕ, inl, inr, List, [], ◌∷◌, map, nat_eq, All, Bool-cases, Option-cases, refl, is_some,
}
use molia.Prelude.Maps
use molia.Prelude.Maps.{All-insert, All-lookup}
use molia.Types.{SocketAddr, PeerInfo}
use molia.Crypto.{Primitives}
use molia.Lookup.{Lookup}
use molia.Shard.Context.{Moment, Env, PendingLookup, ShardCtx}
use molia.Shard.Lookups.{
  dispatch_lookup_batch, has_corr, update_lookup, sweep_one, sweep_ids, sweep_lookups,
  complete_closer, responder,
}
use molia.Shard.Safety.{IsSearch, IsShard, moved-IsNet}
use molia.Shard.Safety.Searches.{All-remove, on_closer-IsSearch}
use molia.Shard.Safety.Dispatch.{
  IsSending, dispatch_lookup_batch-IsSending, finish_lookup-IsShard, searched-IsShard,
}

pub update_lookup-All :
    (c : Primitives) (corr : ℕ) (f : Lookup → Lookup) (ls : List (ℕ × PendingLookup))
    → ((l : Lookup) → IsSearch c l → IsSearch c (f l))
    → All (λ p. IsSearch c p.1.lookup) ls
    → All (λ p. IsSearch c p.1.lookup) (update_lookup corr f ls)
unfolding update_lookup
update_lookup-All c corr f [] keeps v = v
update_lookup-All c corr f (p ∷ ls) keeps v = elim (Bool-cases (has_corr corr p.1)) [
  | inl found ↦ rw found (keeps p.1.lookup v.0, v.1)
  | inr other ↦ rw other (v.0, update_lookup-All c corr f ls keeps v.1)
]

module _ {T F : Type 0} (e : Env T F) (m : Moment) where
  sweep_one-IsShard :
      (id : ℕ) (c : ShardCtx T F) → IsShard e.crypto c → IsShard e.crypto (sweep_one e m id c)
  unfolding sweep_one
  sweep_one-IsShard id c v = elim (Option-cases (Maps.lookup id c.lookups)) [
    | inl gone ↦ rw (sweep_one, gone) v
    | inr (pend, there) ↦
        let w : IsSearch e.crypto pend.lookup = All-lookup _ id pend c.lookups v.lookups there in
        let sent = dispatch_lookup_batch e m c pend.lookup in
        let good : IsSending e sent = dispatch_lookup_batch-IsSending e m c pend.lookup v.net w in
        let rest = All-remove (λ p. IsSearch e.crypto p.1.lookup) id c.lookups v.lookups in
        let left = searched-IsShard e c sent.0 (Maps.remove id c.lookups) good.0 rest v in
        elim (Bool-cases sent.1.done) [
          | inl over ↦ elim (Bool-cases (is_some sent.1.found_record)) [
            | inl lucky ↦
                rw (sweep_one, there, over, lucky)
                  (finish_lookup-IsShard e sent.1.kind sent.1 pend.reply _ good.1 (
                    searched-IsShard e c _ (Maps.remove id c.lookups)
                      (moved-IsNet sent.0 _ refl refl refl good.0) rest v))
            | inr empty ↦
                rw (sweep_one, there, over, empty)
                  (finish_lookup-IsShard e sent.1.kind sent.1 pend.reply _ good.1 left)
          ]
          | inr going ↦
              rw (sweep_one, there, going)
                (searched-IsShard e c sent.0 _ good.0
                  (All-insert _ id _ (Maps.remove id c.lookups) good.1 rest) v)
        ]
  ]

  sweep_ids-IsShard :
      (ids : List ℕ) (c : ShardCtx T F)
      → IsShard e.crypto c
      → IsShard e.crypto (sweep_ids e m ids c)
  unfolding sweep_ids
  sweep_ids-IsShard [] c v = v
  sweep_ids-IsShard (id ∷ ids) c v = sweep_ids-IsShard ids _ (sweep_one-IsShard id c v)

  pub sweep_lookups-IsShard :
      (c : ShardCtx T F) → IsShard e.crypto c → IsShard e.crypto (sweep_lookups e m c)
  unfolding sweep_lookups
  sweep_lookups-IsShard c v = sweep_ids-IsShard (map (λ p. p.0) c.lookups) c v

  pub complete_closer-IsShard :
      (corr : ℕ) (src : SocketAddr) (peers : List PeerInfo) (c : ShardCtx T F)
      → IsShard e.crypto c
      → IsShard e.crypto (complete_closer e m corr src peers c)
  unfolding complete_closer
  complete_closer-IsShard corr src peers c v = sweep_lookups-IsShard _ (
      searched-IsShard e c c.net _ v.net
        (update_lookup-All e.crypto corr _ c.lookups
          (λ l w. on_closer-IsSearch e.crypto (responder e c src) peers 50000 l w) v.lookups)
        v)
