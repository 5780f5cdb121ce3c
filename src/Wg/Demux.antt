-- ===== src/Wg/Demux.antt =====
-- Receiver indices carry the shard, and every datagram goes to a shard that exists.
use Prim.Native.Nat.{bit_and}
use native.Mathlib.Nat.{mod-eq_of_lt}
use molia.Prelude.{
  ℕ, ◌+◌, ◌*◌, ◌%◌, ◌^◌, ◌<◌, ◌≡◌, ◌∙◌, inl, inr, false, some, ◌++◌, ◌==◌, nat_eq, arith,
  Option-cases,
}
use molia.Prelude.Words.{Bytes, le_value, to_le, le_value-to_le}
use molia.Prelude.Bits.{bit_or_field, bit_and_mask, bit_xor_self}
use molia.Types.{v6, SocketAddr}
use molia.Wg.{
  encode_receiver_index, shard_from_receiver_index, parse_wg_header, demux_shard, wg_type_data,
  WgHeader,
}

encode_sum :
    (shard_id local : ℕ)
    → shard_id < 256
    → encode_receiver_index shard_id local ≡ shard_id * 2 ^ 24 + local % 2 ^ 24
unfolding encode_receiver_index
encode_sum shard_id local h =
    let e : shard_id * 2 ^ 24 % 2 ^ 32 ≡ shard_id * 2 ^ 24 = omega arith in
    rw (e, bit_and_mask 24 local) (bit_or_field 24 shard_id (local % 2 ^ 24) (omega arith))

-- A receiver index is a 32-bit word from which the shard and the low 24 bits of the counter are read
-- back, so two sessions of different shards never share an index.
pub shard_from-encode :
    (shard_id local : ℕ)
    → shard_id < 256
    → (encode_receiver_index shard_id local < 2 ^ 32)
      × (shard_from_receiver_index (encode_receiver_index shard_id local) ≡ shard_id)
      × (bit_and (encode_receiver_index shard_id local) 0x00FFFFFF ≡ local % 2 ^ 24)
unfolding shard_from_receiver_index
shard_from-encode shard_id local h = (
  omega (arith, encode_sum shard_id local h),
  omega (arith, encode_sum shard_id local h),
  bit_and_mask 24 (encode_receiver_index shard_id local)
      ∙ omega (arith, encode_sum shard_id local h),
)

-- The datagram is routed to a shard that exists.
pub demux_shard-lt :
    (buf : Bytes) (src : SocketAddr) (shard_count : ℕ)
    → 0 < shard_count
    → demux_shard buf src shard_count < shard_count
unfolding demux_shard
demux_shard-lt buf src shard_count h = ground arith

-- A data datagram: its type, its receiver index and what follows.
abbrev pub data_datagram : ℕ → Bytes → Bytes
data_datagram index rest = to_le 4 wg_type_data ++ to_le 4 index ++ rest

parse-data_datagram :
    (index : ℕ) (rest : Bytes)
    → index < 2 ^ 32
    → parse_wg_header (data_datagram index rest)
      ≡ some (record { ty = wg_type_data; receiver_index = index })
unfolding parse_wg_header to_le le_value
parse-data_datagram index rest h = ground (arith, le_value-to_le 4 index)

-- A data datagram under an index that a shard below 256 has given out goes to that shard, from any
-- source address.
pub demux_shard-data :
    (shard_id local shard_count : ℕ) (rest : Bytes) (src : SocketAddr)
    → shard_id < 256
    → shard_id < shard_count
    → demux_shard (data_datagram (encode_receiver_index shard_id local) rest) src shard_count
      ≡ shard_id
unfolding demux_shard
demux_shard-data shard_id local shard_count rest src h k =
    rw
      (
        parse-data_datagram (encode_receiver_index shard_id local) rest
            (shard_from-encode shard_id local h).0,
        (shard_from-encode shard_id local h).1,
        mod-eq_of_lt k,
      )
      (ground arith)

-- Outside data datagrams the shard depends on the source alone, and every IPv6 source is sent to the
-- first shard.
pub demux_shard-v6 :
    (buf octets : Bytes) (port shard_count : ℕ)
    → ((w : WgHeader) → parse_wg_header buf ≡ some w → (w.ty == wg_type_data) ≡ false)
    → demux_shard buf (record { ip = v6 octets; port = port }) shard_count ≡ 0
unfolding demux_shard
demux_shard-v6 buf octets port shard_count h = elim (Option-cases (parse_wg_header buf)) [
  | inl e ↦ rw e (ground (arith, bit_xor_self port))
  | inr (w, e) ↦ rw (e, h w e) (ground (arith, bit_xor_self port))
]
