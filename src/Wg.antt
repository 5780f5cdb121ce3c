-- ===== src/Wg.antt =====
-- src/wg.rs, the part around the WireGuard engine: datagram headers, the inner packet that carries an
-- RPC, receiver indices and the choice of a shard. The tunnel itself is the library boringtun.
pub mod Framing
pub mod Demux
pub mod Engine
use Prim.Native.Nat.{bit_xor, bit_or, bit_and}
use molia.Prelude.{
  ℕ, ◌+◌, ◌*◌, ◌/◌, ◌%◌, ◌^◌, Bool, true, false, not, ◌&&◌, ◌||◌, Option, none, some, List, [], ◌∷◌,
  ◌++◌, length, get_or, take, drop, replicate, if◌then◌else◌, ltb, leb, ◌==◌, nat_eq, is_some,
}
use molia.Prelude.Words.{Bytes, be_value, le_value, to_be}
use molia.Types.{IpAddr, v4, v6, SocketAddr}

abbrev pub wg_type_initiation : ℕ
wg_type_initiation = 1

abbrev pub wg_type_data : ℕ
wg_type_data = 4

pub record WgHeader : Type 0 where
  pub ty : ℕ
  pub receiver_index : ℕ

unfoldable pub parse_wg_header : Bytes → Option WgHeader
parse_wg_header buf =
    if ltb (length buf) 8
    then none
    else (let ty = le_value (take 4 buf) in
        if not (leb 1 ty && leb ty 4)
        then none
        else some (record { ty = ty; receiver_index = le_value (take 4 (drop 4 buf)) }))

unfoldable pub looks_like_wg : Bytes → Bool
unfolding parse_wg_header
looks_like_wg buf = is_some (parse_wg_header buf)

-- The IPv4 and UDP headers that `wrap_rpc` puts before an RPC of `n` bytes. The lengths are cast to
-- 16 bits.
unfoldable pub inner_headers : ℕ → Bytes
inner_headers n =
    (0x45 ∷ 0 ∷ [])
    ++ to_be 2 ((20 + 8 + n) % 2 ^ 16)
    ++ (0 ∷ 0 ∷ 0 ∷ 0 ∷ 64 ∷ 17 ∷ 0 ∷ 0 ∷ 10 ∷ 0 ∷ 0 ∷ 1 ∷ 10 ∷ 0 ∷ 0 ∷ 2 ∷ [])
    ++ to_be 2 1
    ++ to_be 2 1
    ++ to_be 2 ((8 + n) % 2 ^ 16)
    ++ (0 ∷ 0 ∷ [])

unfoldable pub wrap_rpc : Bytes → Bytes
unfolding inner_headers
wrap_rpc rpc = inner_headers (length rpc) ++ rpc

unfoldable pub unwrap_rpc : Bytes → Bytes
unwrap_rpc inner =
    if leb 28 (length inner) && get_or inner 0 0 == 0x45 then drop 28 inner else inner

-- A shard number of 8 bits above a counter of 24 bits.
unfoldable pub encode_receiver_index : ℕ → ℕ → ℕ
encode_receiver_index shard_id local =
    bit_or (shard_id * 2 ^ 24 % 2 ^ 32) (bit_and local 0x00FFFFFF)

unfoldable pub shard_from_receiver_index : ℕ → ℕ
shard_from_receiver_index index = index / 2 ^ 24 % 256

unfoldable pub hash_source : SocketAddr → ℕ
hash_source src = elim src.ip [
  | v4 octets ↦ bit_xor (be_value octets) src.port
  | v6 octets ↦ bit_xor src.port src.port
]

unfoldable pub demux_shard : Bytes → SocketAddr → ℕ → ℕ
unfolding hash_source
demux_shard buf src shard_count = if leb shard_count 1 then 0 else elim (parse_wg_header buf) [
  | some h ↦
      if h.ty == wg_type_data
      then shard_from_receiver_index h.receiver_index % shard_count
      else hash_source src % shard_count
  | none ↦ hash_source src % shard_count
]
