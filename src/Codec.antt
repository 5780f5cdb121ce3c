-- ===== src/Codec.antt =====
-- src/codec.rs: the 12-byte header and the message around it. The Protobuf encoding of bodies is
-- the library prost, a parameter: `Body` is what its encoder and decoder do for one message type.
pub mod Headers
pub mod Messages
use Prim.Native.Nat.{bit_and}
use molia.Prelude.{
  ℕ, ◌+◌, ◌≤◌, ◌≡◌, Bool, true, false, not, ◌&&◌, ◌||◌, Option, none, some, List, [], ◌∷◌, ◌++◌,
  length, get_or, take, drop, if◌then◌else◌, ltb, leb, ◌==◌, nat_eq, ◌>>=◌,
}
use molia.Prelude.Words.{Bytes, be_value, to_be}
use molia.Types.{header_len, pmtu_floor, protocol_version}

abbrev pub flag_response : ℕ
flag_response = 1

abbrev pub flag_more_chunks : ℕ
flag_more_chunks = 2

abbrev pub flag_probe : ℕ
flag_probe = 4

pub data MessageType : Type 0 where
  ping pong negotiate_req negotiate_resp find_node_req find_node_resp : MessageType
  find_value_req find_value_resp store_req store_resp : MessageType
  announce_provider_req announce_provider_resp punch relay : MessageType
  trace_hint cache_hint error : MessageType

-- `ty as u8`.
unfoldable pub type_byte : MessageType → ℕ
type_byte ping = 1
type_byte pong = 2
type_byte negotiate_req = 3
type_byte negotiate_resp = 4
type_byte find_node_req = 5
type_byte find_node_resp = 6
type_byte find_value_req = 7
type_byte find_value_resp = 8
type_byte store_req = 9
type_byte store_resp = 10
type_byte announce_provider_req = 11
type_byte announce_provider_resp = 12
type_byte punch = 13
type_byte relay = 14
type_byte trace_hint = 250
type_byte cache_hint = 251
type_byte error = 255

-- `MessageType::from_u8`.
unfoldable pub type_from_u8 : ℕ → Option MessageType
type_from_u8 v =
    if v == 1
    then some ping
    else if v == 2
    then some pong
    else if v == 3
    then some negotiate_req
    else if v == 4
    then some negotiate_resp
    else if v == 5
    then some find_node_req
    else if v == 6
    then some find_node_resp
    else if v == 7
    then some find_value_req
    else if v == 8
    then some find_value_resp
    else if v == 9
    then some store_req
    else if v == 10
    then some store_resp
    else if v == 11
    then some announce_provider_req
    else if v == 12
    then some announce_provider_resp
    else if v == 13
    then some punch
    else if v == 14
    then some relay
    else if v == 250
    then some trace_hint
    else if v == 251
    then some cache_hint
    else if v == 255
    then some error
    else none

unfoldable pub is_request : MessageType → Bool
is_request ping = true
is_request negotiate_req = true
is_request find_node_req = true
is_request find_value_req = true
is_request store_req = true
is_request announce_provider_req = true
is_request punch = true
is_request relay = true
is_request _ = false

pub data Qos : Type 0 where
  control coordination hints : Qos

-- `qos as u8`.
unfoldable pub qos_byte : Qos → ℕ
qos_byte control = 0
qos_byte coordination = 1
qos_byte hints = 2

-- `Qos::from_u8`: every value from 2 on is read as hints.
unfoldable pub qos_from_u8 : ℕ → Qos
qos_from_u8 v = if v == 0 then control else if v == 1 then coordination else hints

pub record Header : Type 0 where
  pub version : ℕ
  pub ty : MessageType
  pub flags : ℕ
  pub qos : Qos
  pub correlation : ℕ
  pub stream_id : ℕ

-- `Header::request`.
unfoldable pub request : MessageType → Qos → ℕ → Header
request ty qos correlation = record {
  version = protocol_version;
  ty = ty;
  flags = 0;
  qos = qos;
  correlation = correlation;
  stream_id = 0;
}

-- `Header::response`.
unfoldable pub response : MessageType → Qos → ℕ → Header
response ty qos correlation = record {
  version = protocol_version;
  ty = ty;
  flags = flag_response;
  qos = qos;
  correlation = correlation;
  stream_id = 0;
}

unfoldable pub is_response : Header → Bool
is_response h = not (bit_and h.flags flag_response == 0)

unfoldable pub is_probe : Header → Bool
is_probe h = not (bit_and h.flags flag_probe == 0)

-- The twelve bytes that `Header::encode` writes.
unfoldable pub header_bytes : Header → Bytes
header_bytes h =
    h.version
    ∷ type_byte h.ty
    ∷ h.flags
    ∷ qos_byte h.qos
    ∷ (to_be 4 h.correlation ++ to_be 4 h.stream_id)

-- `Header::encode` into the buffer `out`: the buffer afterwards and the count of bytes written.
unfoldable pub encode : Header → Bytes → Option (Bytes × ℕ)
encode h out =
    if ltb (length out) header_len
    then none
    else some (header_bytes h ++ drop header_len out, header_len)

-- `Header::decode`.
unfoldable pub decode : Bytes → Option Header
decode buf =
    if ltb (length buf) header_len
    then none
    else if not (get_or buf 0 0 == protocol_version)
    then none
    else do
      ty ← type_from_u8 (get_or buf 1 0)
      some (record {
        version = get_or buf 0 0;
        ty = ty;
        flags = get_or buf 2 0;
        qos = qos_from_u8 (get_or buf 3 0);
        correlation = be_value (take 4 (drop 4 buf));
        stream_id = be_value (take 4 (drop 8 buf));
      })

-- What the source uses of `prost::Message` for a message type `T`. `encode_to` is `encode` into a
-- buffer that has room for `encoded_len` bytes.
pub record Body (T : Type 0) : Type 0 where
  pub encoded : T → Bytes
  pub decoded : Bytes → Option T

module _ {T : Type 0} (body : Body T) where
  open body use {encoded, decoded}

  -- `encode_message` into the buffer `out`. The body is encoded into exactly the room it needs, so
  -- that step does not fail.
  unfoldable pub encode_message : Header → T → Bytes → Option (Bytes × ℕ)
  encode_message header msg out = do
    (out', n) ← encode header out
    let body_len = length (encoded msg)
    if ltb (length out) (n + body_len) || ltb pmtu_floor (n + body_len)
        then none
        else some (take n out' ++ encoded msg ++ drop (n + body_len) out', n + body_len)

  unfoldable pub decode_body : Bytes → Option T
  decode_body buf = if ltb (length buf) header_len then none else decoded (drop header_len buf)
