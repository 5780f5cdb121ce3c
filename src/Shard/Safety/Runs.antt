-- ===== src/Shard/Safety/Runs.antt =====
-- Timers, and every run of the loop from its start.
use molia.Prelude.{
  ℕ, zero, suc, ◌+◌, ◌≤◌, refl, Bool, true, false, List, [], ◌∷◌, map, if◌then◌else◌, All, length,
  take, arith, length-replicate,
}
use molia.Prelude.Words.{Bytes}
use molia.Types.{NodeId, SocketAddr}
use molia.Routing.Insert.{new-IsTable}
use molia.Routing.Failures.{mark_fail_outcome}
use molia.Store
use molia.Peerstore.{Peerstore, Files}
use molia.Pool
use molia.Pool.{take_buffer}
use molia.Pool.Arena.{recycle-take_buffer}
use molia.Nat.{new_relay, new_budget}
use molia.Timers.{TimerKind, keepalive, peerstore_flush, collect, lookup_tick, punch}
use molia.Sybil
use molia.Sybil.Admission.{penalize-IsScored}
use molia.Wg.Engine.{tick_keepalive}
use molia.Shard.Context.{
  Moment, unix, Env, Net, PendingLookup, ShardCtx, self_id, with_addrs, all_peers,
}
use molia.Shard.Events
use molia.Shard.Events.{Event, received, commanded, due}
use molia.Shard.Safety.{
  IsNet, IsGenuine, IsSearch, IsShard, moved-IsNet, taken-IsNet, recycled-IsNet, send_to-IsNet,
  ping_all-IsNet,
}
use molia.Shard.Safety.Stores.{gc-IsGenuine}
use molia.Shard.Safety.Searches.{on_timeouts-IsSearch}
use molia.Shard.Safety.Dispatch.{searched-IsShard}
use molia.Shard.Safety.Sweeps.{sweep_lookups-IsShard}
use molia.Shard.Safety.Contacts.{moved-IsShard, sent-IsShard}
use molia.Shard.Safety.Punches.{on_punch_timer-IsShard}
use molia.Shard.Safety.Orders.{count-IsShard, stored-IsShard, handle_cmd-IsShard}
use molia.Shard.Safety.Steps.{handle_datagram-IsShard}

take_buffers-pooled :
    (n : ℕ) (pool : Pool.BufferPool)
    → length pool.free ≤ Pool.pool_cap
    → length (Events.take_buffers n pool).0.free ≤ Pool.pool_cap
unfolding Events.take_buffers
take_buffers-pooled zero pool h = h
take_buffers-pooled (suc n) pool h =
    take_buffers-pooled n (take_buffer pool).0 (recycle-take_buffer pool (take_buffer pool).1 h).1

module _ {T F : Type 0} (e : Env T F) where
  send_lengths-IsNet :
      (out : Bytes) (pkts : List (ℕ × SocketAddr)) (n : Net T)
      → IsNet n
      → IsNet (Events.send_lengths e out pkts n)
  unfolding Events.send_lengths
  send_lengths-IsNet out [] n v = v
  send_lengths-IsNet out ((len, dest) ∷ pkts) n v =
      send_lengths-IsNet out pkts _ (send_to-IsNet e dest (take len out) n v)

  send_keepalives-IsNet : (n : Net T) → IsNet n → IsNet (Events.send_keepalives e n)
  unfolding Events.send_keepalives
  send_keepalives-IsNet n v =
      let ticked = tick_keepalive e.tunnel (take_buffer n.pool).1.bytes n.wg in
      let taken = record n { pool = (take_buffer n.pool).0 } in
      recycled-IsNet (take_buffer n.pool).1
        (Events.send_lengths e ticked.0.1 ticked.1 (record taken { wg = ticked.0.0 }))
        (send_lengths-IsNet ticked.0.1 ticked.1 _
          (moved-IsNet taken _ refl refl refl (taken-IsNet n v)))

  again-IsShard :
      (at : ℕ) (kind : TimerKind) (c : ShardCtx T F)
      → IsShard e.crypto c
      → IsShard e.crypto (Events.again e at kind c)
  again-IsShard at kind c v = moved-IsShard e c _ v.net v.table refl refl refl refl v

  time_lookups-All :
      (now : ℕ) (ls : List (ℕ × PendingLookup))
      → All (λ p. IsSearch e.crypto p.1.lookup) ls
      → All (λ p. IsSearch e.crypto p.1.lookup) (Events.time_lookups e now ls).0
  unfolding Events.time_lookups
  time_lookups-All now [] v = v
  time_lookups-All now (p ∷ ls) v =
      (on_timeouts-IsSearch e.crypto now p.1.lookup v.0, time_lookups-All now ls v.1)

  blame-IsShard :
      (dead : List NodeId) (c : ShardCtx T F)
      → IsShard e.crypto c
      → IsShard e.crypto (Events.blame e dead c)
  unfolding Events.blame
  blame-IsShard [] c v = v
  blame-IsShard (peer ∷ dead) c v = blame-IsShard dead _ (record {
    net = v.net;
    table = (mark_fail_outcome c.table peer v.table).3;
    store = v.store;
    lookups = v.lookups;
    scored = penalize-IsScored e.floats peer c.sybil v.scored;
    answers = v.answers;
  })

  on_lookup_tick-IsShard :
      (m : Moment) (c : ShardCtx T F)
      → IsShard e.crypto c
      → IsShard e.crypto (Events.on_lookup_tick e m c)
  unfolding Events.on_lookup_tick
  on_lookup_tick-IsShard m c v =
      let timed = Events.time_lookups e m.now c.lookups in
      let w =
        searched-IsShard e c c.net timed.0 v.net (time_lookups-All m.now c.lookups v.lookups) v in
      again-IsShard (m.now + 50) lookup_tick _
        (sweep_lookups-IsShard e m _ (blame-IsShard timed.1 _ w))

  flush_wal-IsShard :
      (c : ShardCtx T F) → IsShard e.crypto c → IsShard e.crypto (Events.flush_wal e c)
  unfolding Events.flush_wal
  flush_wal-IsShard c v = record {
    net = v.net;
    table = v.table;
    store = record {
      stored = record {
        genuine = v.store.stored.genuine;
        cached = v.store.stored.cached;
        one_record = v.store.stored.one_record;
        one_cached = v.store.stored.one_cached;
      };
      cached = v.store.cached;
    };
    lookups = v.lookups;
    scored = v.scored;
    answers = v.answers;
  }

  if-IsNet : (b : Bool) (x y : Net T) → IsNet x → IsNet y → IsNet (if b then x else y)
  if-IsNet true x y v w = v
  if-IsNet false x y v w = w

  on_timer-IsShard :
      (m : Moment) (kind : TimerKind) (c : ShardCtx T F)
      → IsShard e.crypto c
      → IsShard e.crypto (Events.on_timer e m kind c)
  unfolding Events.on_timer
  on_timer-IsShard m keepalive c v =
      let pinged =
        ping_all-IsNet e m (map (λ p. p.1) (with_addrs (all_peers c.table))) c.net v.net in
      again-IsShard (m.now + Events.keepalive_ms) keepalive _
        (sent-IsShard e c _ (if-IsNet _ _ _ (send_keepalives-IsNet _ pinged) pinged) v)
  on_timer-IsShard m peerstore_flush c v =
      let w = flush_wal-IsShard c v in
      again-IsShard (m.now + 100) peerstore_flush _
        (moved-IsShard e (Events.flush_wal e c) _ w.net w.table refl refl refl refl w)
  on_timer-IsShard m collect c v =
      again-IsShard (m.now + 30000) collect _
        (stored-IsShard e c _ (gc-IsGenuine e.crypto (unix m) c.store v.store) v)
  on_timer-IsShard m lookup_tick c v = on_lookup_tick-IsShard m c v
  on_timer-IsShard m punch c v = on_punch_timer-IsShard e m c v

  react-IsShard :
      (fuel : ℕ) (m : Moment) (x : Event) (c : ShardCtx T F)
      → IsShard e.crypto c
      → IsShard e.crypto (Events.react e fuel m x c)
  unfolding Events.react
  react-IsShard fuel m (received src pkt) c v =
      handle_datagram-IsShard e fuel m src pkt _
        (count-IsShard e (Events.count_received (length pkt)) c v)
  react-IsShard fuel m (commanded cmd) c v = handle_cmd-IsShard e m cmd c v
  react-IsShard fuel m (due kind) c v = on_timer-IsShard m kind c v

  runs-IsShard :
      (fuel : ℕ) (events : List (Moment × Event)) (c : ShardCtx T F)
      → IsShard e.crypto c
      → IsShard e.crypto (Events.run e fuel events c)
  unfolding Events.run
  runs-IsShard fuel [] c v = v
  runs-IsShard fuel ((m, x) ∷ events) c v = runs-IsShard fuel events _ (react-IsShard fuel m x c v)

  give_buffers-IsNet :
      (bufs : List Pool.Buffer) (n : Net T) → IsNet n → IsNet (Events.give_buffers e bufs n)
  unfolding Events.give_buffers
  give_buffers-IsNet [] n v = v
  give_buffers-IsNet (buf ∷ bufs) n v = give_buffers-IsNet bufs _ (recycled-IsNet buf n v)

  pub stop-IsShard :
      (bufs : List Pool.Buffer) (c : ShardCtx T F)
      → IsShard e.crypto c
      → IsShard e.crypto (Events.stop e bufs c)
  unfolding Events.stop
  stop-IsShard bufs c v =
      let given = sent-IsShard e c _ (give_buffers-IsNet bufs c.net v.net) v in
      let w = flush_wal-IsShard _ given in moved-IsShard e _ _ w.net w.table refl refl refl refl w

  start-IsShard :
      (now : ℕ) (wg_secret : Bytes) (shard : ℕ) (two_hop : Bool) (store : Store.Store)
      (peers : Peerstore) (files : Files)
      → IsGenuine e.crypto store
      → IsShard e.crypto (Events.start e now wg_secret shard two_hop store peers files)
  unfolding Events.start
  start-IsShard now wg_secret shard two_hop store peers files v = record {
    net = record {
      positive = omega arith;
      small = omega arith;
      pooled =
          take_buffers-pooled 32 Pool.new
            (unfold Pool.new in omega (arith, length-replicate 64 (Pool.blank Pool.buffer_size)));
      within = unfold new_relay in unfold new_budget in λ clear. omega arith;
    };
    table = (new-IsTable (self_id e)).0;
    store = v;
    lookups = tt;
    scored = unfold Sybil.new in record { quarantined = tt; bits = omega arith };
    answers = tt;
  }

-- A shard that starts on a store of authentic records keeps its invariants through every sequence of
-- datagrams, commands and timers, and when it stops after them, whatever the packets hold and whatever
-- the tunnels do: the routing table is well formed; every record that it stores, caches, found in a
-- lookup or handed to a client is authentic; every lookup is within its bounds; its correlation numbers
-- are 32-bit numbers and never 0; the pool holds at most 256 buffers; the relayed bytes are no more than
-- a fifth of those counted as sent, as long as these counts do not overflow 64 bits; and no peer's
-- quarantine is above 3.
pub run-IsShard :
    {T F : Type 0}
    → (e : Env T F) (now : ℕ) (wg_secret : Bytes) (shard : ℕ) (two_hop : Bool) (store : Store.Store)
      (peers : Peerstore) (files : Files) (fuel : ℕ) (events : List (Moment × Event))
    → IsGenuine e.crypto store
    → IsShard e.crypto
        (Events.run e fuel events (Events.start e now wg_secret shard two_hop store peers files))
      × IsShard e.crypto
          (Events.run_shard e fuel now wg_secret shard two_hop store peers files events)
unfolding Events.run_shard
run-IsShard e now wg_secret shard two_hop store peers files fuel events v =
    let ran =
      runs-IsShard e fuel events _
        (start-IsShard e now wg_secret shard two_hop store peers files v) in
    (ran, stop-IsShard e (Events.take_buffers 32 Pool.new).1 _ ran)
