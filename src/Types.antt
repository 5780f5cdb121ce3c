-- ===== src/Types.antt =====
-- src/types.rs: 256-bit identifiers, the XOR distance, bucket and shard selection, peer contacts.
-- An array `[u8; 32]` is the list of its bytes; `IsId` says that it has 32 of them.
pub mod Distance
pub mod Bucket
pub mod Shards
pub mod Contacts
use Prim.Native.Nat.{bit_xor}
use molia.Prelude.{
  ℕ, zero, suc, ◌+◌, ◌-◌, ◌*◌, ◌/◌, ◌%◌, ◌^◌, ◌<◌, min, ◌≡◌, Bool, true, false, ◌&&◌, ◌||◌, Option,
  none, some, List, [], ◌∷◌, ◌++◌, length, take, any, if◌then◌else◌, ltb, leb, ◌==◌, Eq, nat_eq,
  bytes_eq, arith, ◌↔◌,
}
use molia.Prelude.Words.{Bytes, IsBytes, be_value}
use molia.Prelude.Bits.{bit_length, leading_zeros}

abbrev pub id_len : ℕ
id_len = 32

abbrev pub k_default : ℕ
k_default = 20

abbrev pub k_max : ℕ
k_max = 32

abbrev pub alpha_default : ℕ
alpha_default = 4

abbrev pub alpha_min : ℕ
alpha_min = 3

abbrev pub alpha_max : ℕ
alpha_max = 8

abbrev pub protocol_version : ℕ
protocol_version = 1

abbrev pub pmtu_floor : ℕ
pmtu_floor = 1200

abbrev pub header_len : ℕ
header_len = 12

abbrev pub NodeId : Type 0
NodeId = Bytes

abbrev pub Key : Type 0
Key = Bytes

pub record IsId (bs : Bytes) : Type 0 where
  pub size : length bs ≡ id_len
  pub bytes : IsBytes bs

-- `NodeId::from_bytes` and `Key::from_bytes`: exactly 32 bytes.
unfoldable pub from_bytes : Bytes → Option NodeId
from_bytes bytes = if length bytes == id_len then some bytes else none

-- `out[i] = a[i] ^ b[i]` at every index.
unfoldable pub xor_distance : Bytes → Bytes → Bytes
xor_distance (x ∷ a) (y ∷ b) = bit_xor x y ∷ xor_distance a b
xor_distance _ _ = []

-- The loop of `leading_zeros_256`, left at the first byte that is not zero.
unfoldable pub leading_zeros_loop : Bytes → ℕ → ℕ
leading_zeros_loop [] n = n
leading_zeros_loop (b ∷ d) n =
    if b == 0 then leading_zeros_loop d (n + 8) else n + leading_zeros 8 b

unfoldable pub leading_zeros_256 : Bytes → ℕ
leading_zeros_256 d = min (leading_zeros_loop d 0) 256

unfoldable pub bucket_index : NodeId → NodeId → ℕ
bucket_index self_id other =
    let lz = leading_zeros_256 (xor_distance self_id other) in if leb 256 lz then 0 else 255 - lz

-- `u32::is_power_of_two`, on the binary digits from the lowest on.
unfoldable pub is_power_of_two : ℕ → ℕ → Bool
is_power_of_two zero n = false
is_power_of_two (suc w) n =
    let rest = is_power_of_two w (n / 2) in if n % 2 == 1 then n / 2 == 0 else rest

-- The test `k == 0` of the source is kept, though `shard_count` is at least 2 here.
unfoldable pub shard_id : NodeId → Key → ℕ → ℕ
shard_id self_id key shard_count =
    if leb shard_count 1
    then 0
    else (let k = 32 - leading_zeros 32 (shard_count - 1) in
        let prefix = be_value (take 4 (xor_distance self_id key)) in
        let raw = if k == 0 then 0 else prefix / 2 ^ (32 - k) in
        if is_power_of_two 32 shard_count then raw else raw % shard_count)

-- `std::net`: an address and a port. The flow label and scope of an IPv6 address are left out.
pub data IpAddr : Type 0 where
  v4 : Bytes → IpAddr
  v6 : Bytes → IpAddr

pub record SocketAddr : Type 0 where
  pub ip : IpAddr
  pub port : ℕ

unfoldable pub ip_beq : IpAddr → IpAddr → Bool
ip_beq (v4 a) (v4 b) = a == b
ip_beq (v6 a) (v6 b) = a == b
ip_beq _ _ = false

pub ip_beq_iff : (a b : IpAddr) → (ip_beq a b ≡ true) ↔ (a ≡ b)
unfolding ip_beq
ip_beq_iff (v4 a) (v4 b) = ground (arith, bytes_eq.beq_iff a b)
ip_beq_iff (v6 a) (v6 b) = ground (arith, bytes_eq.beq_iff a b)
ip_beq_iff (v4 a) (v6 b) = ground arith
ip_beq_iff (v6 a) (v4 b) = ground arith

instance abbrev pub ip_eq : Eq IpAddr
ip_eq = record { beq = ip_beq; beq_iff = ip_beq_iff }

unfoldable pub addr_beq : SocketAddr → SocketAddr → Bool
addr_beq a b = a.ip == b.ip && a.port == b.port

pub addr_beq_iff : (a b : SocketAddr) → (addr_beq a b ≡ true) ↔ (a ≡ b)
unfolding addr_beq
addr_beq_iff a b = ground (arith, ip_beq_iff a.ip b.ip)

instance abbrev pub addr_eq : Eq SocketAddr
addr_eq = record { beq = addr_beq; beq_iff = addr_beq_iff }

pub record PeerInfo : Type 0 where
  pub id : NodeId
  pub addrs : List SocketAddr
  pub rtt_ms : ℕ
  pub x25519 : Option Bytes

-- The capacity of `ArrayVec<SocketAddr, 4>`.
abbrev pub max_addrs : ℕ
max_addrs = 4

-- `PeerInfo::new`.
unfoldable pub new_peer : NodeId → SocketAddr → PeerInfo
new_peer id addr = record { id = id; addrs = addr ∷ []; rtt_ms = 0; x25519 = none }

unfoldable pub first {ℓ} : {A : Type ℓ} → List A → Option A
first [] = none
first (x ∷ xs) = some x

unfoldable pub primary_addr : PeerInfo → Option SocketAddr
unfolding first
primary_addr p = first p.addrs

-- `try_push` on a full array leaves it as it is.
unfoldable pub push_addr : PeerInfo → SocketAddr → PeerInfo
push_addr p addr =
    if any (λ a. a == addr) p.addrs
    then p
    else if ltb (length p.addrs) max_addrs
    then record p { addrs = p.addrs ++ addr ∷ [] }
    else p
