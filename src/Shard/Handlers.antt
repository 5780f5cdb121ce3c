-- ===== src/Shard/Handlers.antt =====
-- src/shard.rs: what a shard does with the messages that it receives: `handle_app` and the handlers it
-- calls. Each takes the address of the sender and the whole message, and returns the new state.
pub mod Nesting
pub mod Storing
use molia.Prelude.{
  ℕ, zero, suc, ◌+◌, ◌≡◌, min, max, ◌⊎◌, inl, inr, Bool, true, false, not, ◌&&◌, ◌||◌, Option, none,
  some, List, [], ◌∷◌, ◌++◌, map, length, replicate, if◌then◌else◌, ltb, leb, ◌==◌, Eq, nat_eq,
  bytes_eq, is_some,
}
use molia.Prelude.Words.{Bytes, to_be}
use molia.Prelude.Text.{codes}
use molia.Prelude.Maps
use molia.Types.{
  NodeId, Key, SocketAddr, v4, v6, addr_eq, PeerInfo, from_bytes, new_peer, push_addr, primary_addr,
  first,
}
use molia.Codec.{
  Header, MessageType, ping, pong, negotiate_req, negotiate_resp, find_node_req, find_node_resp,
  find_value_req, find_value_resp, store_req, store_resp, announce_provider_req,
  announce_provider_resp, punch, relay, trace_hint, cache_hint, error, control, coordination,
  response, request, is_probe, is_response, decode, decode_body,
}
use molia.Crypto.{verify_binding, node_id_from_pubkey}
use molia.Routing
use molia.Store
use molia.Store.{
  StoredRecord, ProtoRecord, PutError, too_large, hash_mismatch, bad_signature, stale_sequence,
  bad_tombstone, unknown_kind, to_proto, record_from_proto, authentic, put_record,
}
use molia.Peerstore.{upsert}
use molia.Nat.{forward}
use molia.Lookup.{on_record, on_providers}
use molia.Metrics.{incr}
use molia.Sybil.{allow_pre_handshake, reward}
use molia.Wg.Engine.{add_peer}
use molia.Shard.{peers_from_proto}
use molia.Shard.Proto
use molia.Shard.Proto.{
  Found, record_bytes, provider_list, max_find_node_peers, max_closer_peers,
  max_providers_per_chunk, default_capabilities, peers_to_proto, parse_multiaddr,
  providers_to_proto,
}
use molia.Shard.Context.{
  Moment, unix, Env, Net, ShardCtx, self_id, with_message, send_plain, send_app, send_relayed,
  spend_corr, intro_pong, reply_peers, send_error,
}
use molia.Shard.Lookups.{zero_id, update_lookup, sweep_lookups, complete_closer}
use molia.Shard.Holes.{start_punch, on_punch}
use molia.Shard.Introductions.{learn, note_peer_keys, learn_addr, on_ping, on_pong, on_negotiate}
use molia.Shard.Queries.{on_find_node, on_find_node_resp, on_find_value, on_find_value_resp}

-- The reasons of `put_record`.
unfoldable pub put_reason : PutError → Bytes
put_reason too_large = codes "too large"
put_reason hash_mismatch = codes "hash mismatch"
put_reason bad_signature = codes "bad signature"
put_reason stale_sequence = codes "stale sequence"
put_reason bad_tombstone = codes "bad tombstone"
put_reason unknown_kind = codes "unknown kind"

module _ {T F : Type 0} (e : Env T F) where
  -- `ctx.sybil.allow_pre_handshake`.
  unfoldable pub admit : Moment → SocketAddr → ShardCtx T F → ShardCtx T F × Bool
  admit m src c =
      let (sybil, ok) = allow_pre_handshake e.floats m.now src c.sybil in
      (record c { sybil = sybil }, ok)

  -- The record of a store request: the code and the reason of the response. The check of the cost stamp
  -- has no effect, since its result is dropped.
  unfoldable pub store_request : Moment → Bool → Bytes → ShardCtx T F → ShardCtx T F × (ℕ × Bytes)
  store_request m probe raw c = elim (e.protocol.record_body.decoded raw) [
    | none ↦ (c, (Proto.store_invalid_code, codes "decode"))
    | some pr ↦ elim (record_from_proto (unix m) pr) [
      | none ↦ (c, (Proto.store_invalid_code, codes "record"))
      | some rec ↦ elim (put_record e.crypto rec probe c.store) [
        | inr store ↦ (
          record c {
            store = store;
            net = record (c.net) {
              metrics = record (c.net.metrics) { store_ok = incr c.net.metrics.store_ok };
            };
          },
          (Proto.store_ok_code, []),
        )
        | inl reason ↦ (
          record c {
            net = record (c.net) {
              metrics = record (c.net.metrics) { store_reject = incr c.net.metrics.store_reject };
            };
          },
          (Proto.store_invalid_code, put_reason reason),
        )
      ]
    ]
  ]

  unfoldable pub on_store : Moment → SocketAddr → Header → Bytes → ShardCtx T F → ShardCtx T F
  unfolding admit store_request send_error with_message
  on_store m src h pkt c = elim (decode_body e.protocol.store_req_body pkt) [
    | none ↦ c
    | some req ↦
        let (admitted, ok) = admit m src c in
        if not ok
        then send_error e admitted src h.correlation Proto.error_rate_limited (codes "rate")
        else (let (c', (code, reason)) = store_request m (is_probe h) req.rec admitted in
            record c' {
              net =
                  with_message e e.protocol.store_resp_body
                    (response store_resp coordination h.correlation)
                    (record { code = code; reason = reason }) (send_app e c' src none) c'.net;
            })
  ]

  -- The provider of an announcement, if its identifier has 32 bytes.
  unfoldable pub announced : Moment → Key → Option Proto.Provider → ShardCtx T F → ShardCtx T F
  announced m key none c = c
  announced m key (some p) c = elim (from_bytes p.peer_id) [
    | none ↦ c
    | some peer ↦ record c { store = Store.announce_provider (unix m) key peer p.meta c.store }
  ]

  unfoldable pub on_announce : Moment → SocketAddr → Header → Bytes → ShardCtx T F → ShardCtx T F
  unfolding admit announced with_message
  on_announce m src h pkt c = elim (decode_body e.protocol.announce_req_body pkt) [
    | none ↦ c
    | some req ↦
        let (admitted, ok) = admit m src c in
        if not ok then admitted else elim (from_bytes req.key) [
          | none ↦ admitted
          | some key ↦
              let c' = announced m key req.self_descriptor admitted in
              record c' {
                net =
                    with_message e e.protocol.announce_resp_body
                      (response announce_provider_resp coordination h.correlation)
                      (record { code = Proto.announce_ok_code; reason = [] })
                      (send_app e c' src none) c'.net;
              }
        ]
  ]

  -- A frame for another peer goes to its address, if the table has it.
  unfoldable pub relay_to : NodeId → Proto.RelayBody → ShardCtx T F → ShardCtx T F
  unfolding with_message send_relayed spend_corr
  relay_to dest r c = elim (Routing.get c.table dest) [
    | none ↦ c
    | some x ↦ elim (primary_addr x.info) [
      | none ↦ c
      | some hop ↦ record c {
        net =
            with_message e e.protocol.relay_body (request relay coordination c.net.corr) r
              (send_relayed e hop) (spend_corr e c.net);
      }
    ]
  ]

  -- A frame is forwarded within the budget.
  unfoldable pub forward_relay : NodeId → Proto.RelayBody → ShardCtx T F → ShardCtx T F
  unfolding relay_to
  forward_relay dest r c =
      let (relays, ok) = forward (length r.payload) false c.net.relay in
      let spent = record c { net = record (c.net) { relay = relays } } in
      if not ok then spent else relay_to dest r spent

  -- A frame for this node is unpacked, and `deliver` handles what it holds.
  unfoldable pub on_relay :
      (Bytes → ShardCtx T F → ShardCtx T F) → SocketAddr → Bytes → ShardCtx T F → ShardCtx T F
  unfolding forward_relay
  on_relay deliver src pkt c = elim (decode_body e.protocol.relay_body pkt) [
    | none ↦ c
    | some r ↦ elim (from_bytes r.dest_id) [
      | none ↦ c
      | some dest ↦ elim (from_bytes r.from_id) [
        | none ↦ c
        | some from ↦
            if dest == self_id e
            then deliver r.payload (record c { via_relay = Maps.insert from src c.via_relay })
            else forward_relay dest r c
      ]
    ]
  ]

  -- A type that no handler is for.
  unfoldable pub unsupported : SocketAddr → Header → Bool → ShardCtx T F → ShardCtx T F
  unfolding send_error
  unsupported src h authenticated c =
      if not (is_response h) && authenticated
      then send_error e c src h.correlation Proto.error_unsupported (codes "type")
      else c

  -- The match of `handle_app` on the type of a message.
  unfoldable pub dispatch_app :
      (Bytes → ShardCtx T F → ShardCtx T F)
      → Moment
      → SocketAddr
      → Header
      → Bytes
      → Bool
      → MessageType
      → ShardCtx T F
      → ShardCtx T F
  unfolding on_ping on_pong on_negotiate on_find_node on_find_node_resp on_find_value
      on_find_value_resp on_store on_announce on_punch on_relay unsupported
  dispatch_app deliver m src h pkt auth ping c = on_ping e m src h pkt c
  dispatch_app deliver m src h pkt auth pong c = on_pong e m src pkt c
  dispatch_app deliver m src h pkt auth negotiate_req c = on_negotiate e src h c
  dispatch_app deliver m src h pkt auth find_node_req c = on_find_node e src h pkt c
  dispatch_app deliver m src h pkt auth find_node_resp c = on_find_node_resp e m src h pkt c
  dispatch_app deliver m src h pkt auth find_value_req c = on_find_value e m src h pkt c
  dispatch_app deliver m src h pkt auth find_value_resp c = on_find_value_resp e m src h pkt c
  dispatch_app deliver m src h pkt auth store_req c = on_store m src h pkt c
  dispatch_app deliver m src h pkt auth announce_provider_req c = on_announce m src h pkt c
  dispatch_app deliver m src h pkt auth punch c = on_punch e m src pkt c
  dispatch_app deliver m src h pkt auth relay c = on_relay deliver src pkt c
  dispatch_app deliver m src h pkt auth error c = c
  dispatch_app deliver m src h pkt auth negotiate_resp c = unsupported src h auth c
  dispatch_app deliver m src h pkt auth store_resp c = unsupported src h auth c
  dispatch_app deliver m src h pkt auth announce_provider_resp c = unsupported src h auth c
  dispatch_app deliver m src h pkt auth trace_hint c = unsupported src h auth c
  dispatch_app deliver m src h pkt auth cache_hint c = unsupported src h auth c

  unfoldable pub malformed : ShardCtx T F → ShardCtx T F
  malformed c = record c {
    net = record (c.net) {
      metrics = record (c.net.metrics) { drops_malformed = incr c.net.metrics.drops_malformed };
    };
  }

  -- A relayed frame holds a message that is handled in turn: `fuel` bounds how deep frames are nested.
  unfoldable pub handle_nested :
      ℕ → Moment → SocketAddr → Bytes → Bool → ShardCtx T F → ShardCtx T F
  unfolding dispatch_app malformed
  handle_nested zero m src pkt authenticated c = c
  handle_nested (suc fuel) m src pkt authenticated c = elim (decode pkt) [
    | none ↦ malformed c
    | some h ↦
        dispatch_app (λ payload c'. handle_nested fuel m src payload false c') m src h pkt
          authenticated h.ty c
  ]

  -- The length of a message is fuel enough.
  unfoldable pub handle_app : Moment → SocketAddr → Bytes → Bool → ShardCtx T F → ShardCtx T F
  unfolding handle_nested
  handle_app m src pkt authenticated c = handle_nested (suc (length pkt)) m src pkt authenticated c
