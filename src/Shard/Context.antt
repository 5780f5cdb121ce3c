-- ===== src/Shard/Context.antt =====
-- src/shard.rs: `ShardCtx`, and the functions that send. What sending changes stands in a record of its
-- own, `Net`; `sent` is the list of the datagrams that the socket took. What never changes (the
-- configuration, the identity, the socket's address) and third-party code are `Env`. A hash map is
-- walked in the order of its list.
use molia.Prelude.{
  ℕ, ◌/◌, Bool, false, Option, none, some, List, [], ◌∷◌, ◌++◌, length, take, any, find,
  if◌then◌else◌, ltb, ◌==◌, nat_eq, bytes_eq, is_some, unwrap_or,
}
use mathlib.Core.List.{flatten}
use molia.Prelude.Words.{Bytes}
use molia.Prelude.Maps
use molia.Types.{NodeId, SocketAddr, PeerInfo, addr_eq, primary_addr, pmtu_floor}
use molia.Codec.{
  Body, Header, MessageType, control, coordination, encode_message, request, response,
}
use molia.Crypto.{Primitives, node_id_from_pubkey}
use molia.Routing.{RoutingTable, PeerEntry}
use molia.Store.{Store}
use molia.Peerstore.{Peerstore, AddressText, Files}
use molia.Pool.{BufferPool, take_buffer, recycle}
use molia.Nat.{RelayState, EndpointHint, on_egress, pick_relay}
use molia.Timers.{TimingWheel}
use molia.Lookup.{Lookup}
use molia.Metrics.{Snapshot, incr, add}
use molia.Sybil.{Floats, Sybil}
use molia.Wg.{wrap_rpc, parse_wg_header, wg_type_initiation}
use molia.Wg.Engine.{Tunnel, WgEngine, encapsulate_to}
use molia.Node.{Reply}
use molia.Erasure.{ReedSolomon}
use molia.Shard.{PunchAttempt, next_corr}
use molia.Shard.Proto.{Protocol, Ping, Pong, peers_to_proto, multiaddr}

-- The clocks: milliseconds of the monotonic one and of the time of day.
pub record Moment : Type 0 where
  pub now : ℕ
  pub unix_ms : ℕ

-- `now_unix`.
abbrev pub unix : Moment → ℕ
unix m = m.unix_ms / 1000

-- `accepts` says whether the socket takes a datagram.
pub record Env (T F : Type 0) : Type 0 where
  pub crypto : Primitives
  pub text : AddressText
  pub crc : Bytes → ℕ
  pub tunnel : Tunnel T
  pub floats : Floats F
  pub protocol : Protocol
  pub erasure : ReedSolomon
  pub print_number : ℕ → Bytes
  pub accepts : SocketAddr → Bytes → Bool
  pub local : SocketAddr
  pub plain : Bool
  pub query_blind : Bool
  pub wg_public : Bytes
  pub verifying_key : Bytes
  pub binding_signature : Bytes

pub record Net (T : Type 0) : Type 0 where
  pub pool : BufferPool
  pub wg : WgEngine T
  pub relay : RelayState
  pub metrics : Snapshot
  pub corr : ℕ
  pub pending_wg : List (SocketAddr × List Bytes)
  pub sent : List (SocketAddr × Bytes)

-- `reply` is the channel of the client that waits.
pub record PendingLookup : Type 0 where
  pub lookup : Lookup
  pub reply : Option ℕ

-- `replies` are the replies sent, each on its channel; `files` are those of the peer store.
pub record ShardCtx (T F : Type 0) : Type 0 where
  pub net : Net T
  pub table : RoutingTable
  pub store : Store
  pub peers : Peerstore
  pub files : Files
  pub sybil : Sybil F
  pub lookups : List (ℕ × PendingLookup)
  pub endpoints : List (NodeId × EndpointHint)
  pub timers : TimingWheel
  pub keys_by_addr : List (SocketAddr × Bytes)
  pub mapped : Option SocketAddr
  pub punches : List (NodeId × PunchAttempt)
  pub via_relay : List (NodeId × SocketAddr)
  pub replies : List (ℕ × Reply)

-- `RoutingTable::all_peers`.
abbrev pub all_peers : RoutingTable → List PeerEntry
all_peers t = flatten t.buckets

unfoldable pub peer_id_for : RoutingTable → SocketAddr → Option NodeId
peer_id_for t dest = elim (find (λ e. any (λ a. a == dest) e.info.addrs) (all_peers t)) [
  | none ↦ none
  | some e ↦ some e.info.id
]

-- `filter_map` of the peers with an address.
unfoldable pub with_addrs : List PeerEntry → List (NodeId × SocketAddr)
with_addrs [] = []
with_addrs (e ∷ es) =
    let rest = with_addrs es in
    elim (primary_addr e.info) [ none ↦ rest | some a ↦ (e.info.id, a) ∷ rest ]

-- A counter of the metrics is changed through the field it stands in.
module _ {T F : Type 0} (e : Env T F) where
  abbrev pub self_id : NodeId
  self_id = node_id_from_pubkey e.crypto e.verifying_key

  -- `io.send_to`, its result ignored.
  unfoldable pub send_to : SocketAddr → Bytes → Net T → Net T
  send_to dest pkt n =
      if e.accepts dest pkt then record n { sent = n.sent ++ (dest, pkt) ∷ [] } else n

  unfoldable pub count_packet : Net T → Net T
  count_packet n = record n {
    metrics = record (n.metrics) { tx_packets = incr n.metrics.tx_packets };
  }

  unfoldable pub send_plain : SocketAddr → Bytes → Net T → Net T
  send_plain dest app n =
      if e.accepts dest app
      then record n {
        sent = n.sent ++ (dest, app) ∷ [];
        metrics = record (n.metrics) {
          tx_packets = incr n.metrics.tx_packets;
          tx_bytes = add n.metrics.tx_bytes (length app);
        };
      }
      else n

  -- `next_corr`: the number is that of `n.corr`.
  unfoldable pub spend_corr : Net T → Net T
  unfolding next_corr
  spend_corr n = record n { corr = (next_corr n.corr).1 }

  -- `ctx.pool.take()`, the encoding of a message, what is done with it, and `ctx.pool.recycle`.
  unfoldable pub with_message :
      {B : Type 0} → Body B → Header → B → (Bytes → Net T → Net T) → Net T → Net T
  with_message body header msg deliver n =
      let (pool, buf) = take_buffer n.pool in
      let held = record n { pool = pool } in
      let after : Net T = elim (encode_message body header msg buf.bytes) [
        | none ↦ held
        | some (out, len) ↦ deliver (take len out) held
      ] in
      record after { pool = recycle buf after.pool }

  -- Whether `encode_message` returned a length.
  unfoldable pub is_encoded : {B : Type 0} → Body B → Header → B → Net T → Bool
  is_encoded body header msg n =
      is_some (encode_message body header msg (take_buffer n.pool).1.bytes)

  -- The end of the forwarding of a frame: sent, and counted as relayed.
  unfoldable pub send_relayed : SocketAddr → Bytes → Net T → Net T
  unfolding send_plain
  send_relayed hop pkt n =
      let n' = send_plain hop pkt n in
      record n' {
        metrics = record (n'.metrics) { relay_bytes = add n'.metrics.relay_bytes (length pkt) };
      }

  -- Another relay than the one of the table, if there is one in another bucket than the destination.
  unfoldable pub send_relay_frame : RoutingTable → SocketAddr → NodeId → Bytes → Net T → Net T
  unfolding with_addrs with_message send_relayed spend_corr
  send_relay_frame t hop dest app n =
      if hop == e.local
      then n
      else with_message e.protocol.relay_body (request MessageType.relay coordination n.corr)
          (record { dest_id = dest; from_id = self_id; payload = app })
          (send_relayed (unwrap_or (pick_relay self_id dest (with_addrs (all_peers t))) hop))
          (spend_corr n)

  unfoldable pub queue_wg : SocketAddr → List Bytes → Net T → Net T
  queue_wg dest apps n = record n {
    pending_wg =
        Maps.insert dest (unwrap_or (Maps.lookup dest n.pending_wg) [] ++ apps) n.pending_wg;
  }

  -- An initiation of a handshake, which carries nothing.
  unfoldable pub is_initiation : Bytes → Bool
  is_initiation pkt = elim (parse_wg_header pkt) [
    | none ↦ false
    | some h ↦ h.ty == wg_type_initiation
  ]

  -- `ctx.wg.encapsulate_to(dest, pk, None, ..)`.
  unfoldable pub encapsulate_net : SocketAddr → Bytes → Bytes → Net T → Net T × Option Bytes
  encapsulate_net dest key inner n =
      let (wg, out) = encapsulate_to e.tunnel dest key none inner n.wg in
      (record n { wg = wg }, out)

  -- An empty message, which starts the handshake: what came of it is sent.
  unfoldable pub send_initiation : SocketAddr → Net T × Option Bytes → Net T
  unfolding count_packet send_to
  send_initiation dest (n, none) = n
  send_initiation dest (n, some pkt) = count_packet (send_to dest pkt n)

  -- What came of the encapsulation of a message: it waits for the end of the handshake if the tunnel
  -- started one, or if it is not ready.
  unfoldable pub send_encapsulated : SocketAddr → Bytes → Bytes → Net T × Option Bytes → Net T
  unfolding encapsulate_net queue_wg count_packet send_to is_initiation send_initiation
  send_encapsulated dest key app (n, some pkt) =
      count_packet (send_to dest pkt (if is_initiation pkt then queue_wg dest (app ∷ []) n else n))
  send_encapsulated dest key app (n, none) =
      send_initiation dest (encapsulate_net dest key [] (queue_wg dest (app ∷ []) n))

  -- The end of `send_app` for a peer with a key.
  unfoldable pub send_tunnel : SocketAddr → Bytes → Bytes → Net T → Net T
  unfolding encapsulate_net send_encapsulated
  send_tunnel dest key app n =
      let (pool, buf) = take_buffer n.pool in
      let after =
        send_encapsulated dest key app
          (encapsulate_net dest key (wrap_rpc app) (record n { pool = pool })) in
      record after { pool = recycle buf after.pool }

  -- The rest of `send_app`, for a peer that no relay serves.
  unfoldable pub send_direct : ShardCtx T F → SocketAddr → Option Bytes → Bytes → Net T → Net T
  unfolding send_plain send_tunnel
  send_direct c dest x25519 app n =
      let counted = record n {
        relay = record (n.relay) { budget = on_egress (length app) n.relay.budget };
      } in
      let known : Option Bytes = elim x25519 [
        | some x ↦ some x
        | none ↦ Maps.lookup dest c.keys_by_addr
      ] in
      elim known [
        | none ↦ send_plain dest app counted
        | some key ↦
            if e.plain then send_plain dest app counted else send_tunnel dest key app counted
      ]

  -- The relay by which the peer at an address is reached.
  unfoldable pub relay_hop : ShardCtx T F → SocketAddr → Option (NodeId × SocketAddr)
  unfolding peer_id_for
  relay_hop c dest = elim (peer_id_for c.table dest) [
    | none ↦ none
    | some peer ↦ elim (Maps.lookup peer c.via_relay) [ none ↦ none | some hop ↦ some (peer, hop) ]
  ]

  unfoldable pub send_app : ShardCtx T F → SocketAddr → Option Bytes → Bytes → Net T → Net T
  unfolding relay_hop send_relay_frame send_direct
  send_app c dest x25519 app n =
      if ltb pmtu_floor (length app) then n else elim (relay_hop c dest) [
        | some (peer, hop) ↦ send_relay_frame c.table hop peer app n
        | none ↦ send_direct c dest x25519 app n
      ]

  unfoldable pub intro_ping : Moment → Ping
  intro_ping m = record {
    now_unix_ms = m.unix_ms;
    x25519_pubkey = e.wg_public;
    ed25519_pubkey = e.verifying_key;
    binding_sig = e.binding_signature;
  }

  unfoldable pub intro_pong : Moment → SocketAddr → Pong
  intro_pong m src = record {
    now_unix_ms = m.unix_ms;
    x25519_pubkey = e.wg_public;
    ed25519_pubkey = e.verifying_key;
    binding_sig = e.binding_signature;
    observed = some (multiaddr e.text src);
  }

  unfoldable pub ping : Moment → SocketAddr → Net T → Net T
  unfolding with_message send_plain spend_corr intro_ping
  ping m dest n =
      with_message e.protocol.ping_body (request MessageType.ping control n.corr) (intro_ping m)
        (send_plain dest) (spend_corr n)

  unfoldable pub ping_all : Moment → List SocketAddr → Net T → Net T
  unfolding ping
  ping_all m [] n = n
  ping_all m (dest ∷ dests) n = ping_all m dests (ping m dest n)

  unfoldable pub reply_peers : ShardCtx T F → SocketAddr → ℕ → List PeerInfo → ShardCtx T F
  unfolding with_message
  reply_peers c dest corr peers = record c {
    net =
        with_message e.protocol.find_node_resp_body
          (response MessageType.find_node_resp coordination corr)
          (record { peers = peers_to_proto e.text peers }) (send_app c dest none) c.net;
  }

  unfoldable pub send_error : ShardCtx T F → SocketAddr → ℕ → ℕ → Bytes → ShardCtx T F
  unfolding with_message
  send_error c dest corr code reason = record c {
    net =
        with_message e.protocol.error_body (response MessageType.error control corr)
          (record { code = code; reason = reason; retry_after_ms = 50 }) (send_app c dest none)
          c.net;
  }
