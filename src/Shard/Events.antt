-- ===== src/Shard/Events.antt =====
-- src/shard.rs: datagrams, timers, and the loop of a shard as a sequence of events.
use molia.Prelude.{
  ℕ, zero, suc, ◌+◌, ◌*◌, Bool, true, false, not, none, some, List, [], ◌∷◌, ◌++◌, map, length,
  take, if◌then◌else◌, ◌==◌, nat_eq, bytes_eq,
}
use molia.Prelude.Words.{Bytes}
use molia.Prelude.Maps
use molia.Types.{NodeId, SocketAddr, addr_eq}
use molia.Routing
use molia.Store
use molia.Peerstore
use molia.Peerstore.{Peerstore, Files}
use molia.Wal.{type_record}
use molia.Pool
use molia.Pool.{take_buffer, recycle}
use molia.Nat.{new_relay}
use molia.Timers
use molia.Timers.{TimerKind, keepalive, peerstore_flush, collect, lookup_tick, punch}
use molia.Lookup.{on_timeouts}
use molia.Metrics.{Snapshot, incr, add, zero_snapshot}
use molia.Sybil
use molia.Sybil.{allow_pre_handshake, penalize}
use molia.Wg.{looks_like_wg, wrap_rpc, unwrap_rpc}
use molia.Wg.Engine
use molia.Wg.Engine.{Decap, plaintext, network, cookie, dropped, decapsulate, tick_keepalive}
use molia.Shard.Context.{
  Moment, unix, Env, Net, PendingLookup, ShardCtx, self_id, all_peers, with_addrs, send_to,
  send_plain, count_packet, queue_wg, is_initiation, encapsulate_net, ping_all,
}
use molia.Shard.Lookups.{sweep_lookups}
use molia.Shard.Holes.{on_punch_timer}
use molia.Shard.Handlers.{handle_app}
use molia.Shard.Commands.{ShardCmd, handle_cmd, count}

-- `KEEPALIVE`.
abbrev pub keepalive_ms : ℕ
keepalive_ms = 20 * 1000

-- `Store::flush_wal`: the records that wait go into the log of the peer store.
unfoldable pub append_records : List Bytes → Peerstore → Peerstore
append_records [] peers = peers
append_records (payload ∷ payloads) peers =
    append_records payloads (Peerstore.append type_record payload peers)

-- What the loop of `run_shard` reacts to.
pub data Event : Type 0 where
  received : SocketAddr → Bytes → Event
  commanded : ShardCmd → Event
  due : TimerKind → Event

abbrev pub count_decap : Snapshot → Snapshot
count_decap s = record s { wg_decap_ok = incr s.wg_decap_ok }

abbrev pub count_rate : Snapshot → Snapshot
count_rate s = record s { drops_rate = incr s.drops_rate }

abbrev pub count_cookie : Snapshot → Snapshot
count_cookie s = record s { cookies = incr s.cookies }

abbrev pub count_fail : Snapshot → Snapshot
count_fail s = record s { wg_decap_fail = incr s.wg_decap_fail }

abbrev pub count_received : ℕ → Snapshot → Snapshot
count_received len s = record s { rx_packets = incr s.rx_packets; rx_bytes = add s.rx_bytes len }

-- The buffers that datagrams are received into.
unfoldable pub take_buffers : ℕ → Pool.BufferPool → Pool.BufferPool × List Pool.Buffer
take_buffers zero pool = (pool, [])
take_buffers (suc n) pool =
    let (pool', buf) = take_buffer pool in
    let (rest, bufs) = take_buffers n pool' in (rest, buf ∷ bufs)

module _ {T F : Type 0} (e : Env T F) where
  unfoldable pub flush_wal : ShardCtx T F → ShardCtx T F
  unfolding append_records
  flush_wal c = record c {
    peers =
        append_records
          (map (λ r. e.protocol.record_body.encoded (Store.to_proto r)) c.store.pending_wal)
          c.peers;
    store = record (c.store) { pending_wal = [] };
  }

  -- A buffer is taken, the engine reads a datagram into it, and the buffer goes back. The code
  -- recycles it once the bytes are copied or sent, which makes no difference.
  unfoldable pub decap : SocketAddr → Bytes → ShardCtx T F → ShardCtx T F × Decap
  decap src pkt c =
      let (pool, buf) = take_buffer c.net.pool in
      let (wg, r) = decapsulate e.tunnel e.crypto src pkt c.net.wg in
      (record c { net = record (c.net) { wg = wg; pool = recycle buf pool } }, r)

  -- What the loop of `drain_wg_session` does with one result, and whether it goes on.
  unfoldable pub drained : Moment → SocketAddr → Decap → ShardCtx T F → ShardCtx T F × Bool
  unfolding handle_app send_to count
  drained m src (network pkt) c = (record c { net = send_to e src pkt c.net }, true)
  drained m src (plaintext inner) c =
      (handle_app e m src (unwrap_rpc inner) true (count e count_decap c), true)
  drained m src (cookie reply) c = (c, false)
  drained m src dropped c = (c, false)

  unfoldable pub drain_round : Moment → SocketAddr → ShardCtx T F → ShardCtx T F × Bool
  unfolding decap drained
  drain_round m src c = let (c', r) = decap src [] c in drained m src r c'

  -- The loop on fuel.
  unfoldable pub drain_wg_session : ℕ → Moment → SocketAddr → ShardCtx T F → ShardCtx T F
  unfolding drain_round
  drain_wg_session zero m src c = c
  drain_wg_session (suc fuel) m src c =
      let rest = drain_wg_session fuel m src (drain_round m src c).0 in
      if (drain_round m src c).1 then rest else (drain_round m src c).0

  abbrev pub give_back : Pool.Buffer → Net T → Net T
  give_back buf n = record n { pool = recycle buf n.pool }

  -- The loop over the messages that wait for a handshake; what it leaves.
  unfoldable pub flush_queue : SocketAddr → Bytes → List Bytes → Net T → Net T × List Bytes
  flush_queue dest key [] n = (n, [])
  flush_queue dest key (app ∷ apps) n =
      let (pool, buf) = take_buffer n.pool in
      let (n', out) = encapsulate_net e dest key (wrap_rpc app) (record n { pool = pool }) in
      elim out [
        | none ↦ (give_back buf n', app ∷ apps)
        | some pkt ↦ elim (is_initiation e pkt) [
          | true ↦ (give_back buf (send_to e dest pkt n'), app ∷ apps)
          | false ↦
              flush_queue dest key apps (give_back buf (count_packet e (send_to e dest pkt n')))
        ]
      ]

  unfoldable pub send_plains : SocketAddr → List Bytes → Net T → Net T
  unfolding send_plain
  send_plains dest [] n = n
  send_plains dest (app ∷ apps) n = send_plains dest apps (send_plain e dest app n)

  unfoldable pub flush_pending_wg : SocketAddr → ShardCtx T F → ShardCtx T F
  unfolding flush_queue send_plains queue_wg
  flush_pending_wg dest c = elim (Maps.lookup dest c.net.pending_wg) [
    | none ↦ c
    | some queue ↦
        let n = record (c.net) { pending_wg = Maps.remove dest c.net.pending_wg } in
        record c {
          net = elim (Maps.lookup dest c.keys_by_addr) [
            | none ↦ send_plains dest queue n
            | some key ↦
                let (n', leftover) = flush_queue dest key queue n in
                if length leftover == 0 then n' else queue_wg e dest leftover n'
          ];
        }
  ]

  -- The match of `handle_datagram`; `fuel` is that of the loop that drains a session.
  unfoldable pub decapped : ℕ → Moment → SocketAddr → Decap → ShardCtx T F → ShardCtx T F
  unfolding drain_wg_session flush_pending_wg handle_app count send_to
  decapped fuel m src (plaintext inner) c = flush_pending_wg src (
      drain_wg_session fuel m src
        (handle_app e m src (unwrap_rpc inner) true (count e count_decap c)))
  decapped fuel m src (network out) c =
      flush_pending_wg src
        (drain_wg_session fuel m src (record c { net = send_to e src out c.net }))
  decapped fuel m src (cookie reply) c =
      let c' = count e count_cookie c in record c' { net = send_to e src reply c'.net }
  decapped fuel m src dropped c = count e count_fail c

  unfoldable pub handle_datagram : ℕ → Moment → SocketAddr → Bytes → ShardCtx T F → ShardCtx T F
  unfolding decap decapped handle_app count
  handle_datagram fuel m src pkt c =
      if not (looks_like_wg pkt)
      then handle_app e m src pkt false c
      else (let (sybil, ok) = allow_pre_handshake e.floats m.now src c.sybil in
          let c' = record c { sybil = sybil } in
          if not ok
          then count e count_rate c'
          else (let (d, r) = decap src pkt c' in decapped fuel m src r d))

  -- The packets of `tick_keepalive` are lengths in one buffer.
  unfoldable pub send_lengths : Bytes → List (ℕ × SocketAddr) → Net T → Net T
  unfolding send_to
  send_lengths out [] n = n
  send_lengths out ((len, dest) ∷ pkts) n = send_lengths out pkts (send_to e dest (take len out) n)

  unfoldable pub send_keepalives : Net T → Net T
  unfolding send_lengths
  send_keepalives n =
      let (pool, buf) = take_buffer n.pool in
      let ((wg, out), pkts) = tick_keepalive e.tunnel buf.bytes n.wg in
      let after = send_lengths out pkts (record n { pool = pool; wg = wg }) in
      record after { pool = recycle buf after.pool }

  -- Every lookup drops its late queries; the peers that were asked.
  unfoldable pub time_lookups :
      ℕ → List (ℕ × PendingLookup) → List (ℕ × PendingLookup) × List NodeId
  time_lookups now [] = ([], [])
  time_lookups now (p ∷ ps) =
      let (l, dead) = on_timeouts now p.1.lookup in
      let (rest, later) = time_lookups now ps in
      ((p.0, record (p.1) { lookup = l }) ∷ rest, dead ++ later)

  unfoldable pub blame : List NodeId → ShardCtx T F → ShardCtx T F
  blame [] c = c
  blame (peer ∷ peers) c =
      blame peers (record c {
        table = Routing.mark_fail c.table peer;
        sybil = penalize e.floats peer c.sybil;
      })

  abbrev pub again : ℕ → TimerKind → ShardCtx T F → ShardCtx T F
  again at kind c = record c { timers = Timers.schedule at kind c.timers }

  unfoldable pub on_lookup_tick : Moment → ShardCtx T F → ShardCtx T F
  unfolding time_lookups blame sweep_lookups
  on_lookup_tick m c =
      let (lookups, dead) = time_lookups m.now c.lookups in
      again (m.now + 50) lookup_tick
        (sweep_lookups e m (blame dead (record c { lookups = lookups })))

  unfoldable pub on_timer : Moment → TimerKind → ShardCtx T F → ShardCtx T F
  unfolding send_keepalives flush_wal on_lookup_tick on_punch_timer
  on_timer m keepalive c =
      let pinged = ping_all e m (map (λ p. p.1) (with_addrs (all_peers c.table))) c.net in
      again (m.now + keepalive_ms) keepalive
        (record c { net = if not e.plain then send_keepalives pinged else pinged })
  on_timer m peerstore_flush c =
      let queued = flush_wal c in
      let (peers, files) = Peerstore.flush e.crc queued.peers queued.files in
      again (m.now + 100) peerstore_flush (record queued { peers = peers; files = files })
  on_timer m collect c =
      again (m.now + 30000) collect (record c { store = Store.gc (unix m) c.store })
  on_timer m lookup_tick c = on_lookup_tick m c
  on_timer m punch c = on_punch_timer e m c

  unfoldable pub react : ℕ → Moment → Event → ShardCtx T F → ShardCtx T F
  unfolding handle_datagram handle_cmd on_timer count
  react fuel m (received src pkt) c =
      handle_datagram fuel m src pkt (count e (count_received (length pkt)) c)
  react fuel m (commanded cmd) c = handle_cmd e m cmd c
  react fuel m (due kind) c = on_timer m kind c

  -- The loop, over the events in the order in which they are handled, each with its time.
  unfoldable pub run : ℕ → List (Moment × Event) → ShardCtx T F → ShardCtx T F
  unfolding react
  run fuel [] c = c
  run fuel ((m, x) ∷ events) c = run fuel events (react fuel m x c)

  -- The receive buffers go back when the loop has ended.
  unfoldable pub give_buffers : List Pool.Buffer → Net T → Net T
  give_buffers [] n = n
  give_buffers (buf ∷ bufs) n = give_buffers bufs (give_back buf n)

  -- What follows the loop.
  unfoldable pub stop : List Pool.Buffer → ShardCtx T F → ShardCtx T F
  unfolding give_buffers flush_wal
  stop bufs c =
      let queued = flush_wal (record c { net = give_buffers bufs c.net }) in
      let (peers, files) = Peerstore.flush e.crc queued.peers queued.files in
      record queued { peers = peers; files = files }

  -- The state of `run_shard` before its loop, with the stores that were opened; `shard` is the number of
  -- the shard and `two_hop` the setting of the relay.
  unfoldable pub start : ℕ → Bytes → ℕ → Bool → Store.Store → Peerstore → Files → ShardCtx T F
  unfolding take_buffers
  start now wg_secret shard two_hop store peers files =
      let first = Timers.schedule (now + keepalive_ms) keepalive Timers.new in
      let second = Timers.schedule (now + 100) peerstore_flush first in
      let third = Timers.schedule (now + 30000) collect second in
      record {
        net = record {
          pool = (take_buffers 32 Pool.new).0;
          wg = Engine.new wg_secret shard;
          relay = new_relay two_hop;
          metrics = zero_snapshot;
          corr = 1;
          pending_wg = [];
          sent = [];
        };
        table = Routing.new (self_id e);
        store = store;
        peers = peers;
        files = files;
        sybil = Sybil.new e.floats e.crypto;
        lookups = [];
        endpoints = [];
        timers = Timers.schedule (now + 50) lookup_tick third;
        keys_by_addr = [];
        mapped = none;
        punches = [];
        via_relay = [];
        replies = [];
      }

  -- `run_shard`: `events` is what happens until the loop ends.
  unfoldable pub run_shard :
      ℕ
      → ℕ
      → Bytes
      → ℕ
      → Bool
      → Store.Store
      → Peerstore
      → Files
      → List (Moment × Event)
      → ShardCtx T F
  unfolding run start stop
  run_shard fuel now wg_secret shard two_hop store peers files events =
      stop (take_buffers 32 Pool.new).1
        (run fuel events (start now wg_secret shard two_hop store peers files))
