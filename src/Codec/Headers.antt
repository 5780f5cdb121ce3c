-- ===== src/Codec/Headers.antt =====
-- The header's round trips.
use molia.Prelude.{
  ℕ, ◌≤◌, ◌<◌, ◌^◌, ◌≡◌, refl, sym, ap, ◌∙◌, none, some, [], ◌∷◌, ◌++◌, length, length-append,
  length-drop, drop-length-append, get_or, drop, nat_eq, ◌↔◌, arith,
}
use molia.Prelude.Words.{Bytes, IsBytes, be_value, to_be, be_value-to_be, to_be-be_value}
use molia.Types.{header_len, protocol_version}
use molia.Codec.{
  MessageType, ping, type_byte, type_from_u8, Qos, control, qos_byte, qos_from_u8, Header,
  header_bytes, encode, decode,
}

pub type_from_u8-type_byte : (ty : MessageType) → type_from_u8 (type_byte ty) ≡ some ty
unfolding type_from_u8 type_byte
type_from_u8-type_byte ping = refl
type_from_u8-type_byte _ = refl

type_byte-type_from_u8 : (v : ℕ) (ty : MessageType) → type_from_u8 v ≡ some ty → type_byte ty ≡ v
unfolding type_from_u8 type_byte
type_byte-type_from_u8 v ty h = ground arith

-- The type byte and the type determine each other; a byte that is none of the seventeen is refused.
pub type_from_u8_iff : (v : ℕ) (ty : MessageType) → (type_from_u8 v ≡ some ty) ↔ (type_byte ty ≡ v)
type_from_u8_iff v ty =
    (type_byte-type_from_u8 v ty, λ e. ap type_from_u8 (sym e) ∙ type_from_u8-type_byte ty)

pub qos_from_u8-qos_byte : (q : Qos) → qos_from_u8 (qos_byte q) ≡ q
unfolding qos_from_u8 qos_byte
qos_from_u8-qos_byte control = refl
qos_from_u8-qos_byte _ = refl

pub qos_byte-qos_from_u8 : (v : ℕ) → v < 3 → qos_byte (qos_from_u8 v) ≡ v
unfolding qos_from_u8 qos_byte
qos_byte-qos_from_u8 v h = ground arith

-- The fields fit their widths, and the version is ours.
pub record IsHeader (h : Header) : Type 0 where
  pub version : h.version ≡ protocol_version
  pub flags : h.flags < 256
  pub correlation : h.correlation < 2 ^ 32
  pub stream_id : h.stream_id < 2 ^ 32

pub length-header_bytes : (h : Header) → length (header_bytes h) ≡ header_len
unfolding header_bytes to_be
length-header_bytes h = refl

pub decode-header_bytes :
    (h : Header) (rest : Bytes) → IsHeader h → decode (header_bytes h ++ rest) ≡ some h
unfolding decode header_bytes to_be
decode-header_bytes h rest v = ground (
  arith,
  type_from_u8-type_byte h.ty,
  qos_from_u8-qos_byte h.qos,
  be_value-to_be 4 h.correlation,
  be_value-to_be 4 h.stream_id,
)

-- Whatever a buffer of at least twelve bytes held, a header written into it is read back from it,
-- the header takes twelve bytes, and what stands behind them is left alone. A shorter buffer is
-- refused.
pub decode-encode :
    (h : Header) (out : Bytes)
    → IsHeader h
    → (header_len ≤ length out
        → (o : Bytes) × (encode h out ≡ some (o, header_len))
          × (decode o ≡ some h)
          × (length o ≡ length out)
          × (drop header_len o ≡ drop header_len out))
      × (length out < header_len → encode h out ≡ none)
unfolding encode
decode-encode h out v = (fits, λ short. ground arith)
  where
    fits :
        header_len ≤ length out
        → (o : Bytes) × (encode h out ≡ some (o, header_len))
          × (decode o ≡ some h)
          × (length o ≡ length out)
          × (drop header_len o ≡ drop header_len out)
    fits room = (
      header_bytes h ++ drop header_len out,
      ground arith,
      decode-header_bytes h (drop header_len out) v,
      omega (
        arith,
        length-append (header_bytes h) (drop header_len out),
        length-header_bytes h,
        length-drop header_len out,
      ),
      rw (length-header_bytes h) at (drop-length-append (header_bytes h) (drop header_len out)),
    )

encode_four :
    (a b c d : ℕ)
    → IsBytes (a ∷ b ∷ c ∷ d ∷ [])
    → to_be 4 (be_value (a ∷ b ∷ c ∷ d ∷ [])) ≡ a ∷ b ∷ c ∷ d ∷ []
encode_four a b c d h = to_be-be_value (a ∷ b ∷ c ∷ d ∷ []) h

-- A header that is read from a buffer and written back into it leaves the buffer as it was, if its
-- class byte is one of the three defined ones.
pub encode-decode :
    (buf : Bytes) (h : Header)
    → IsBytes buf
    → get_or buf 3 0 < 3
    → decode buf ≡ some h
    → encode h buf ≡ some (buf, header_len)
unfolding encode decode header_bytes
encode-decode (a ∷ b ∷ c ∷ d ∷ e ∷ f ∷ g ∷ i ∷ j ∷ k ∷ l ∷ m ∷ rest) h v q p = ground (
  arith,
  type_byte-type_from_u8 b h.ty,
  qos_byte-qos_from_u8 d,
  encode_four e f g i (omega arith),
  encode_four j k l m (omega arith),
)
encode-decode buf h v q p = absurd (ground arith)
