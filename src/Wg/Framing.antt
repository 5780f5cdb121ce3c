-- ===== src/Wg/Framing.antt =====
-- The inner packet, and why a plaintext RPC is never taken for a WireGuard datagram.
use molia.Prelude.{ℕ, ◌≤◌, ◌≡◌, refl, false, ◌++◌, length, nat_eq, arith}
use molia.Prelude.Words.{Bytes, le_value, to_be}
use molia.Codec.{Header, header_bytes, type_byte, MessageType, ping}
use molia.Codec.Headers.{IsHeader}
use molia.Wg.{inner_headers, wrap_rpc, unwrap_rpc, looks_like_wg}

length-inner_headers : (n : ℕ) → length (inner_headers n) ≡ 28
unfolding inner_headers to_be
length-inner_headers n = refl

-- Unwrapping gives a wrapped RPC back, whatever its bytes and length; an RPC that was not wrapped is
-- passed through, since its first byte is the protocol version.
pub unwrap_rpc-wrap_rpc :
    (rpc : Bytes) (h : Header)
    → IsHeader h
    → (unwrap_rpc (wrap_rpc rpc) ≡ rpc)
      × (unwrap_rpc (header_bytes h ++ rpc) ≡ header_bytes h ++ rpc)
unwrap_rpc-wrap_rpc rpc h v = (wrapped, bare)
  where
    wrapped : unwrap_rpc (wrap_rpc rpc) ≡ rpc
    wrapped = unfold unwrap_rpc wrap_rpc inner_headers to_be in ground arith

    bare : unwrap_rpc (header_bytes h ++ rpc) ≡ header_bytes h ++ rpc
    bare = unfold unwrap_rpc header_bytes in ground arith

type_byte-pos : (ty : MessageType) → 1 ≤ type_byte ty
unfolding type_byte
type_byte-pos ping = omega arith
type_byte-pos _ = omega arith

-- A datagram that starts with an RPC header is not taken for a WireGuard datagram: its first four
-- bytes, the lowest first, spell a number above the four WireGuard types.
pub looks_like_wg-header :
    (h : Header) (body : Bytes) → IsHeader h → looks_like_wg (header_bytes h ++ body) ≡ false
unfolding looks_like_wg header_bytes le_value to_be
looks_like_wg-header h body v = ground (arith, type_byte-pos h.ty)
