-- ===== src/Shard/Proto.antt =====
-- proto/molia.proto, the bodies of the messages of a shard, and src/shard.rs, what fills them. The
-- build generates these types and the library prost encodes them: `Protocol` has a codec for each.
pub mod Contacts
use molia.Prelude.{
  ℕ, ◌≡◌, Bool, true, false, Option, none, some, List, [], ◌∷◌, ◌++◌, map, take, drop, length,
  if◌then◌else◌, ◌==◌, Eq, bytes_eq, unwrap_or,
}
use molia.Prelude.Words.{Bytes}
use molia.Prelude.Text.{codes}
use molia.Types.{NodeId, PeerInfo, SocketAddr, pmtu_floor}
use molia.Codec.{Body, MessageType, control, encode_message, request, response}
use molia.Store.{ProtoRecord, ProviderEntry}
use molia.Peerstore.{AddressText}
use molia.Shard.{ProtoPeer}

abbrev pub max_find_node_peers : ℕ
max_find_node_peers = 16

abbrev pub max_providers_per_chunk : ℕ
max_providers_per_chunk = 32

abbrev pub max_closer_peers : ℕ
max_closer_peers = 8

pub record Ping : Type 0 where
  pub now_unix_ms : ℕ
  pub x25519_pubkey : Bytes
  pub ed25519_pubkey : Bytes
  pub binding_sig : Bytes

-- `observed` is the multiaddr of the field.
pub record Pong : Type 0 where
  pub now_unix_ms : ℕ
  pub x25519_pubkey : Bytes
  pub ed25519_pubkey : Bytes
  pub binding_sig : Bytes
  pub observed : Option Bytes

pub record Capabilities : Type 0 where
  pub version : ℕ
  pub bitmap : ℕ
  pub max_msg_bytes : ℕ

pub record NegotiateResp : Type 0 where
  pub agreed : Option Capabilities

pub record FindNodeReq : Type 0 where
  pub target_id : Bytes
  pub limit : ℕ

pub record FindNodeResp : Type 0 where
  pub peers : List ProtoPeer

pub record FindValueReq : Type 0 where
  pub key : Bytes
  pub provider_limit : ℕ

pub record Provider : Type 0 where
  pub peer_id : Bytes
  pub meta : Bytes

-- The `oneof` of a value response.
pub data Found : Type 0 where
  record_bytes : Bytes → Found
  provider_list : List Provider → Found

pub record FindValueResp : Type 0 where
  pub result : Option Found
  pub closer_peers : List ProtoPeer

pub record StoreReq : Type 0 where
  pub rec : Bytes
  pub admission_token : Bytes
  pub cost_stamp : Bytes

-- The codes of a response are numbers, as in its encoding.
pub record StoreResp : Type 0 where
  pub code : ℕ
  pub reason : Bytes

pub record AnnounceProviderReq : Type 0 where
  pub key : Bytes
  pub self_descriptor : Option Provider
  pub rec : Bytes
  pub admission_token : Bytes
  pub cost_stamp : Bytes

pub record AnnounceProviderResp : Type 0 where
  pub code : ℕ
  pub reason : Bytes

pub record PunchBody : Type 0 where
  pub target_id : Bytes
  pub from_id : Bytes
  pub candidates : List Bytes

pub record RelayBody : Type 0 where
  pub dest_id : Bytes
  pub from_id : Bytes
  pub payload : Bytes

pub record ErrorBody : Type 0 where
  pub code : ℕ
  pub reason : Bytes
  pub retry_after_ms : ℕ

abbrev pub store_ok_code : ℕ
store_ok_code = 0

abbrev pub store_invalid_code : ℕ
store_invalid_code = 3

abbrev pub announce_ok_code : ℕ
announce_ok_code = 0

abbrev pub error_rate_limited : ℕ
error_rate_limited = 3

abbrev pub error_unsupported : ℕ
error_unsupported = 6

pub record Protocol : Type 0 where
  pub ping_body : Body Ping
  pub pong_body : Body Pong
  pub negotiate_resp_body : Body NegotiateResp
  pub find_node_req_body : Body FindNodeReq
  pub find_node_resp_body : Body FindNodeResp
  pub find_value_req_body : Body FindValueReq
  pub find_value_resp_body : Body FindValueResp
  pub store_req_body : Body StoreReq
  pub store_resp_body : Body StoreResp
  pub announce_req_body : Body AnnounceProviderReq
  pub announce_resp_body : Body AnnounceProviderResp
  pub punch_body : Body PunchBody
  pub relay_body : Body RelayBody
  pub error_body : Body ErrorBody
  -- `proto::Record`, which travels as the bytes of a field.
  pub record_body : Body ProtoRecord

-- `default_capabilities`: privacy blinding and erasure hints.
unfoldable pub default_capabilities : Capabilities
default_capabilities = record { version = 1; bitmap = 9; max_msg_bytes = pmtu_floor }

-- `encode_ping` and `encode_pong`: the fields that are not given are empty.
unfoldable pub encode_ping : Protocol → ℕ → ℕ → Bytes → Option (Bytes × ℕ)
encode_ping p correlation now_unix_ms out =
    encode_message p.ping_body (request MessageType.ping control correlation)
      (record {
        now_unix_ms = now_unix_ms;
        x25519_pubkey = [];
        ed25519_pubkey = [];
        binding_sig = [];
      })
      out

unfoldable pub encode_pong : Protocol → ℕ → ℕ → Bytes → Option (Bytes × ℕ)
encode_pong p correlation now_unix_ms out =
    encode_message p.pong_body (response MessageType.pong control correlation)
      (record {
        now_unix_ms = now_unix_ms;
        x25519_pubkey = [];
        ed25519_pubkey = [];
        binding_sig = [];
        observed = none;
      })
      out

module _ (text : AddressText) where
  -- `format!("udp://{a}")`.
  unfoldable pub multiaddr : SocketAddr → Bytes
  multiaddr a = codes "udp://" ++ text.print a

  -- `parse_multiaddr`: with or without the prefix.
  unfoldable pub parse_multiaddr : Bytes → Option SocketAddr
  parse_multiaddr raw = text.parse (if take 6 raw == codes "udp://" then drop 6 raw else raw)

  unfoldable pub peer_to_proto : PeerInfo → ProtoPeer
  peer_to_proto p = record {
    peer_id = p.id;
    addrs = map multiaddr p.addrs;
    rtt_ms = p.rtt_ms;
    x25519_pubkey = unwrap_or p.x25519 [];
  }

  unfoldable pub peers_to_proto : List PeerInfo → List ProtoPeer
  unfolding peer_to_proto
  peers_to_proto peers = map peer_to_proto (take max_find_node_peers peers)

  unfoldable pub encode_addrs : List SocketAddr → List Bytes
  encode_addrs addrs = map multiaddr addrs

unfoldable pub providers_to_proto : List ProviderEntry → List Provider
providers_to_proto entries = map (λ e. record { peer_id = e.peer_id; meta = e.meta }) entries
