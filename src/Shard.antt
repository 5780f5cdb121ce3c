-- ===== src/Shard.antt =====
-- src/shard.rs: the parts of the shard loop that are state and no sockets: correlation numbers, key
-- ownership and contacts from the wire; the loop itself stands in the modules below. Times are
-- milliseconds.
pub mod Correlation
pub mod Proto
pub mod Context
pub mod Lookups
pub mod Holes
pub mod Introductions
pub mod Queries
pub mod Handlers
pub mod Commands
pub mod Events
pub mod Safety
use molia.Prelude.{
  ℕ, zero, suc, ◌+◌, ◌-◌, ◌%◌, ◌≡◌, min, Bool, true, false, not, ◌&&◌, ◌||◌, Option, none, some,
  List, [], ◌∷◌, ◌++◌, map, length, if◌then◌else◌, ltb, leb, ◌==◌, Eq, nat_eq, bytes_eq, is_some,
}
use molia.Prelude.Words.{Bytes, u32_mod}
use molia.Prelude.Maps
use molia.Types.{NodeId, Key, SocketAddr, PeerInfo, shard_id, from_bytes, new_peer, push_addr}
use molia.Nat.{EndpointHint, fresh, punch_deadlines}

-- `next_corr`: the number handed out, and the next one; 0 is passed over.
unfoldable pub next_corr : ℕ → ℕ × ℕ
next_corr c = let n = (c + 1) % u32_mod in (c, if n == 0 then 1 else n)

unfoldable pub owns_key : NodeId → Key → ℕ → ℕ → Bool
owns_key self_id key shard shard_count = shard_id self_id key shard_count == shard

-- `proto::Peer`; the address of each entry of `addrs` is what `parse_multiaddr` finds in it.
pub record ProtoPeer : Type 0 where
  pub peer_id : Bytes
  pub addrs : List Bytes
  pub rtt_ms : ℕ
  pub x25519_pubkey : Bytes

-- `filter_map`.
unfoldable pub parse_addrs : (Bytes → Option SocketAddr) → List Bytes → List SocketAddr
parse_addrs parse [] = []
parse_addrs parse (a ∷ as_text) =
    let rest = parse_addrs parse as_text in elim (parse a) [ none ↦ rest | some addr ↦ addr ∷ rest ]

unfoldable pub push_addrs : PeerInfo → List SocketAddr → PeerInfo
push_addrs info [] = info
push_addrs info (a ∷ addrs) = push_addrs (push_addr info a) addrs

unfoldable pub peer_from_proto : (Bytes → Option SocketAddr) → ProtoPeer → Option PeerInfo
unfolding parse_addrs push_addrs
peer_from_proto parse p = elim (from_bytes p.peer_id) [
  | none ↦ none
  | some id ↦ elim (parse_addrs parse p.addrs) [
    | [] ↦ none
    | addr ∷ addrs ↦
        let info = push_addrs (new_peer id addr) addrs in
        some (
          if length p.x25519_pubkey == 32
          then record info { x25519 = some p.x25519_pubkey }
          else info)
  ]
]

unfoldable pub peers_from_proto : (Bytes → Option SocketAddr) → List ProtoPeer → List PeerInfo
unfolding peer_from_proto
peers_from_proto parse [] = []
peers_from_proto parse (p ∷ ps) =
    let rest = peers_from_proto parse ps in
    elim (peer_from_proto parse p) [ none ↦ rest | some info ↦ info ∷ rest ]

pub record PunchAttempt : Type 0 where
  pub peer : NodeId
  pub candidates : List SocketAddr
  pub rendezvous : SocketAddr
  pub bursts_done : ℕ
  pub next_burst : ℕ
  pub relay_at : ℕ
  pub replied : Bool
