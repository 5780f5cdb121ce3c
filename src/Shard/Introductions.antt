-- ===== src/Shard/Introductions.antt =====
-- src/shard.rs: how a shard comes to know peers: pings and pongs with their keys, and addresses.
use molia.Prelude.{
  not, ◌||◌, Option, none, some, ◌++◌, length, replicate, if◌then◌else◌, ◌==◌, nat_eq, bytes_eq,
}
use molia.Prelude.Words.{Bytes, to_be}
use molia.Prelude.Maps
use molia.Types.{NodeId, SocketAddr, v4, v6, addr_eq, PeerInfo, new_peer, push_addr}
use molia.Codec.{Header, pong, negotiate_resp, control, response, decode_body}
use molia.Crypto.{verify_binding, node_id_from_pubkey}
use molia.Routing
use molia.Peerstore.{upsert}
use molia.Sybil.{reward}
use molia.Wg.Engine.{add_peer}
use molia.Shard.Proto.{Ping, Pong, default_capabilities, parse_multiaddr}
use molia.Shard.Context.{Moment, Env, ShardCtx, with_message, send_plain, send_app, intro_pong}

-- The bytes that stand for an address without a known peer.
unfoldable pub address_bytes : SocketAddr → Bytes
address_bytes src = elim src.ip [
  | v4 octets ↦ octets ++ replicate 26 0 ++ to_be 2 src.port
  | v6 octets ↦ octets ++ replicate 14 0 ++ to_be 2 src.port
]

module _ {T F : Type 0} (e : Env T F) where
  -- A contact goes into the table and into the peer store.
  unfoldable pub learn : Moment → PeerInfo → ShardCtx T F → ShardCtx T F
  learn m info c = record c {
    table = (Routing.insert m.now c.table info).0;
    peers = upsert e.text info c.peers;
  }

  -- The keys of an introduction are taken over if the binding signature holds.
  unfoldable pub note_peer_keys :
      Moment → SocketAddr → Bytes → Bytes → Bytes → ShardCtx T F → ShardCtx T F × Option NodeId
  unfolding learn
  note_peer_keys m src x25519 ed25519 sig c =
      if not (length x25519 == 32) || (not (length ed25519 == 32) || length sig == 0)
      then (c, none)
      else if not (verify_binding e.crypto ed25519 x25519 sig)
      then (c, none)
      else (let peer = node_id_from_pubkey e.crypto ed25519 in
          let keyed = record c {
            keys_by_addr = Maps.insert src x25519 c.keys_by_addr;
            net = record (c.net) {
              wg = (add_peer e.tunnel x25519 (some peer) (some src) c.net.wg).0;
            };
          } in
          (learn m (record (new_peer peer src) { x25519 = some x25519 }) keyed, some peer))

  unfoldable pub learn_addr : Moment → SocketAddr → Option NodeId → ShardCtx T F → ShardCtx T F
  unfolding learn address_bytes
  learn_addr m src (some peer) c =
      let known : PeerInfo = elim (Routing.get c.table peer) [
        | none ↦ new_peer peer src
        | some x ↦ x.info
      ] in
      let c' = learn m (push_addr known src) c in
      record c' {
        endpoints =
            Maps.insert peer (record { declared = src; observed = some src; last_ok = m.now })
              c.endpoints;
        sybil = reward e.floats peer c.sybil;
        table = Routing.touch_ok m.now c'.table peer 80000;
      }
  learn_addr m src none c = learn m (new_peer (e.crypto.hash (address_bytes src)) src) c

  unfoldable pub meet_ping :
      Moment → SocketAddr → Option Ping → ShardCtx T F → ShardCtx T F × Option NodeId
  unfolding note_peer_keys
  meet_ping m src none c = (c, none)
  meet_ping m src (some p) c = note_peer_keys m src p.x25519_pubkey p.ed25519_pubkey p.binding_sig c

  unfoldable pub on_ping : Moment → SocketAddr → Header → Bytes → ShardCtx T F → ShardCtx T F
  unfolding meet_ping learn_addr with_message send_plain intro_pong
  on_ping m src h pkt c =
      let (noted, peer) = meet_ping m src (decode_body e.protocol.ping_body pkt) c in
      let c' = learn_addr m src peer noted in
      record c' {
        net =
            with_message e e.protocol.pong_body (response pong control h.correlation)
              (intro_pong e m src) (send_plain e src) c'.net;
      }

  -- The address under which the sender saw this node.
  unfoldable pub observe : Option Bytes → ShardCtx T F → ShardCtx T F
  observe none c = c
  observe (some raw) c = elim (parse_multiaddr e.text raw) [
    | none ↦ c
    | some addr ↦ record c { mapped = some addr }
  ]

  -- A peer that was reached needs no punching and no relay.
  unfoldable pub punched : Option NodeId → ShardCtx T F → ShardCtx T F
  punched none c = c
  punched (some peer) c = record c {
    via_relay = Maps.remove peer c.via_relay;
    punches = Maps.remove peer c.punches;
  }

  unfoldable pub meet_pong :
      Moment → SocketAddr → Option Pong → ShardCtx T F → ShardCtx T F × Option NodeId
  unfolding note_peer_keys observe
  meet_pong m src none c = (c, none)
  meet_pong m src (some p) c =
      note_peer_keys m src p.x25519_pubkey p.ed25519_pubkey p.binding_sig (observe p.observed c)

  unfoldable pub on_pong : Moment → SocketAddr → Bytes → ShardCtx T F → ShardCtx T F
  unfolding meet_pong learn_addr punched
  on_pong m src pkt c =
      let (noted, peer) = meet_pong m src (decode_body e.protocol.pong_body pkt) c in
      let c' = learn_addr m src peer noted in punched peer c'

  unfoldable pub on_negotiate : SocketAddr → Header → ShardCtx T F → ShardCtx T F
  unfolding with_message
  on_negotiate src h c = record c {
    net =
        with_message e e.protocol.negotiate_resp_body
          (response negotiate_resp control h.correlation)
          (record { agreed = some default_capabilities }) (send_app e c src none) c.net;
  }
