-- ===== src/Shard/Queries.antt =====
-- src/shard.rs: questions for peers and values, and their answers.
pub mod Answers
use molia.Prelude.{
  ℕ, zero, suc, ◌+◌, ◌≡◌, min, max, ◌⊎◌, inl, inr, Bool, true, false, not, ◌&&◌, ◌||◌, Option, none,
  some, List, [], ◌∷◌, ◌++◌, map, length, replicate, if◌then◌else◌, ltb, leb, ◌==◌, Eq, nat_eq,
  bytes_eq, is_some,
}
use molia.Prelude.Words.{Bytes, to_be}
use molia.Prelude.Text.{codes}
use molia.Prelude.Maps
use molia.Types.{
  NodeId, Key, SocketAddr, v4, v6, addr_eq, PeerInfo, from_bytes, new_peer, push_addr, primary_addr,
  first,
}
use molia.Codec.{
  Header, MessageType, ping, pong, negotiate_req, negotiate_resp, find_node_req, find_node_resp,
  find_value_req, find_value_resp, store_req, store_resp, announce_provider_req,
  announce_provider_resp, punch, relay, trace_hint, cache_hint, error, control, coordination,
  response, request, is_probe, is_response, decode, decode_body,
}
use molia.Crypto.{verify_binding, node_id_from_pubkey}
use molia.Routing
use molia.Store
use molia.Store.{
  StoredRecord, ProtoRecord, PutError, too_large, hash_mismatch, bad_signature, stale_sequence,
  bad_tombstone, unknown_kind, to_proto, record_from_proto, authentic, put_record,
}
use molia.Peerstore.{upsert}
use molia.Nat.{forward}
use molia.Lookup.{on_record, on_providers}
use molia.Metrics.{incr}
use molia.Sybil.{allow_pre_handshake, reward}
use molia.Wg.Engine.{add_peer}
use molia.Shard.{peers_from_proto}
use molia.Shard.Proto
use molia.Shard.Proto.{
  Found, record_bytes, provider_list, max_find_node_peers, max_closer_peers,
  max_providers_per_chunk, default_capabilities, peers_to_proto, parse_multiaddr,
  providers_to_proto,
}
use molia.Shard.Context.{
  Moment, unix, Env, Net, ShardCtx, self_id, with_message, send_plain, send_app, send_relayed,
  spend_corr, intro_pong, reply_peers, send_error,
}
use molia.Shard.Lookups.{zero_id, update_lookup, sweep_lookups, complete_closer}
use molia.Shard.Holes.{start_punch, on_punch}
use molia.Shard.Introductions.{learn, note_peer_keys, learn_addr, on_ping, on_pong, on_negotiate}

-- `filter_map` of the providers whose identifier has 32 bytes.
unfoldable pub providers_from_proto : List Proto.Provider → List (NodeId × Bytes)
providers_from_proto [] = []
providers_from_proto (p ∷ ps) =
    let rest = providers_from_proto ps in
    elim (from_bytes p.peer_id) [ none ↦ rest | some peer ↦ (peer, p.meta) ∷ rest ]

-- `peers.first().map(|p| p.id)`.
unfoldable pub first_id : List PeerInfo → Option NodeId
first_id [] = none
first_id (p ∷ ps) = some p.id

module _ {T F : Type 0} (e : Env T F) where
  -- A target that is no identifier is read as 32 zeros.
  unfoldable pub on_find_node : SocketAddr → Header → Bytes → ShardCtx T F → ShardCtx T F
  unfolding reply_peers
  on_find_node src h pkt c = elim (decode_body e.protocol.find_node_req_body pkt) [
    | none ↦ c
    | some req ↦
        let target : Key = elim (from_bytes req.target_id) [ none ↦ zero_id | some k ↦ k ] in
        reply_peers e c src h.correlation
          (Routing.closest c.table target (max 1 (min req.limit max_find_node_peers)))
  ]

  -- The loop over the contacts of a response.
  unfoldable pub learn_peers : Moment → SocketAddr → List PeerInfo → ShardCtx T F → ShardCtx T F
  unfolding learn start_punch
  learn_peers m src [] c = c
  learn_peers m src (p ∷ ps) c = learn_peers m src ps (start_punch e m p src (learn e m p c))

  -- The contacts of a response are learnt, the first of them at the address of the sender, and the lookup
  -- that asked goes on.
  unfoldable pub take_peers :
      Moment → SocketAddr → Header → List PeerInfo → ShardCtx T F → ShardCtx T F
  unfolding learn_peers learn_addr complete_closer first_id
  take_peers m src h peers c =
      complete_closer e m h.correlation src peers
        (learn_addr e m src (first_id peers) (learn_peers m src peers c))

  unfoldable pub on_find_node_resp :
      Moment → SocketAddr → Header → Bytes → ShardCtx T F → ShardCtx T F
  unfolding take_peers
  on_find_node_resp m src h pkt c = elim (decode_body e.protocol.find_node_resp_body pkt) [
    | none ↦ c
    | some resp ↦ take_peers m src h (peers_from_proto (parse_multiaddr e.text) resp.peers) c
  ]

  unfoldable pub send_value :
      SocketAddr → Header → Option Found → List PeerInfo → ShardCtx T F → ShardCtx T F
  unfolding with_message
  send_value src h result closer c = record c {
    net =
        with_message e e.protocol.find_value_resp_body
          (response find_value_resp coordination h.correlation)
          (record { result = result; closer_peers = peers_to_proto e.text closer })
          (send_app e c src none) c.net;
  }

  -- The providers of a key, as the result of a response.
  unfoldable pub provider_result : Moment → Key → ℕ → ShardCtx T F → Option Found
  provider_result m key limit c =
      let prov = Store.providers (unix m) c.store key (min limit max_providers_per_chunk) in
      if length prov == 0 then none else some (provider_list (providers_to_proto prov))

  -- What is found under a key: the record, but not for a probe, or else its providers.
  unfoldable pub value_result : Moment → Header → Key → ℕ → ShardCtx T F → Option Found
  unfolding provider_result
  value_result m h key limit c = elim (Store.get (unix m) c.store key) [
    | none ↦ provider_result m key limit c
    | some rec ↦
        if not (is_probe h)
        then some (record_bytes (e.protocol.record_body.encoded (to_proto rec)))
        else provider_result m key limit c
  ]

  unfoldable pub on_find_value : Moment → SocketAddr → Header → Bytes → ShardCtx T F → ShardCtx T F
  unfolding send_value value_result
  on_find_value m src h pkt c = elim (decode_body e.protocol.find_value_req_body pkt) [
    | none ↦ c
    | some req ↦ elim (from_bytes req.key) [
      | none ↦ c
      | some key ↦
          send_value src h (value_result m h key req.provider_limit c)
            (Routing.closest c.table key max_closer_peers) c
    ]
  ]

  unfoldable pub meet_peers : Moment → SocketAddr → List PeerInfo → ShardCtx T F → ShardCtx T F
  unfolding start_punch
  meet_peers m src [] c = c
  meet_peers m src (p ∷ ps) c =
      meet_peers m src ps
        (start_punch e m p src (record c { table = (Routing.insert m.now c.table p).0 }))

  -- The record of a response, if it is one and authentic.
  unfoldable pub received_record : Moment → Bytes → Option StoredRecord
  received_record m raw = elim (e.protocol.record_body.decoded raw) [
    | none ↦ none
    | some pr ↦ elim (record_from_proto (unix m) pr) [
      | none ↦ none
      | some rec ↦ if authentic e.crypto rec then some rec else none
    ]
  ]

  -- A record is cached, but not for a probe, and ends the lookup that asked.
  unfoldable pub take_record : Moment → Header → Bytes → ShardCtx T F → ShardCtx T F
  unfolding received_record
  take_record m h raw c = elim (received_record m raw) [
    | none ↦ c
    | some rec ↦ record c {
      store = if not (is_probe h) then Store.cache_hit (unix m) rec c.store else c.store;
      lookups = update_lookup h.correlation (on_record zero_id rec) c.lookups;
    }
  ]

  unfoldable pub take_result :
      Moment → SocketAddr → Header → Option Found → List PeerInfo → ShardCtx T F → ShardCtx T F
  unfolding take_record complete_closer
  take_result m src h none closer c = complete_closer e m h.correlation src closer c
  take_result m src h (some (record_bytes raw)) closer c = take_record m h raw c
  take_result m src h (some (provider_list ps)) closer c = record c {
    lookups =
        update_lookup h.correlation (on_providers zero_id (providers_from_proto ps) closer)
          c.lookups;
  }

  unfoldable pub on_find_value_resp :
      Moment → SocketAddr → Header → Bytes → ShardCtx T F → ShardCtx T F
  unfolding meet_peers take_result sweep_lookups
  on_find_value_resp m src h pkt c = elim (decode_body e.protocol.find_value_resp_body pkt) [
    | none ↦ c
    | some resp ↦
        let closer = peers_from_proto (parse_multiaddr e.text) resp.closer_peers in
        sweep_lookups e m (take_result m src h resp.result closer (meet_peers m src closer c))
  ]
