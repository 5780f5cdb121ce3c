-- ===== src/Codec/Messages.antt =====
-- Whole messages: the size limit, and reading back what was written.
use molia.Prelude.{
  ℕ, ◌+◌, ◌≤◌, ◌<◌, ◌≡◌, ◌∙◌, ◌⊎◌, false, none, some, ◌++◌, length, length-append, length-drop,
  take, drop, take-length-append, drop-add, drop-length-append, ltb, arith,
}
use molia.Prelude.Words.{Bytes}
use molia.Types.{header_len, pmtu_floor}
use molia.Codec.{Header, header_bytes, encode, decode, Body, encode_message, decode_body}
use molia.Codec.Headers.{IsHeader, length-header_bytes, decode-header_bytes}

module _ {T : Type 0} (body : Body T) where
  open body use {encoded, decoded}

  abbrev message_len : T → ℕ
  message_len msg = header_len + length (encoded msg)

  -- What is sent: the header's bytes and the body's.
  encode_message-bytes :
      (h : Header) (msg : T) (out : Bytes)
      → message_len msg ≤ length out
      → message_len msg ≤ pmtu_floor
      → encode_message body h msg out
        ≡ some (header_bytes h ++ encoded msg ++ drop (message_len msg) out, message_len msg)
  unfolding encode_message encode
  encode_message-bytes h msg out p q =
      let room : ltb (length out) header_len ≡ false = ground arith in
      let head : take header_len (header_bytes h ++ drop header_len out) ≡ header_bytes h =
        rw (length-header_bytes h) at (take-length-append (header_bytes h) (drop header_len out)) in
      let tail : drop header_len (header_bytes h ++ drop header_len out) ≡ drop header_len out =
        rw (length-header_bytes h) at (drop-length-append (header_bytes h) (drop header_len out)) in
      let k = length (encoded msg) in
      rw
        (
          room,
          drop-add header_len k (header_bytes h ++ drop header_len out),
          tail,
          head,
          ← drop-add header_len k out,
        )
        (ground arith)

  decode_body-bytes :
      (h : Header) (bytes : Bytes) → decode_body body (header_bytes h ++ bytes) ≡ decoded bytes
  unfolding decode_body
  decode_body-bytes h bytes =
      let n : length (header_bytes h ++ bytes) ≡ header_len + length bytes =
        omega (arith, length-append (header_bytes h) bytes, length-header_bytes h) in
      let tail : drop header_len (header_bytes h ++ bytes) ≡ bytes =
        rw (length-header_bytes h) at (drop-length-append (header_bytes h) bytes) in
      rw (n, tail) (ground arith)

  encode_message_refused :
      (h : Header) (msg : T) (out : Bytes)
      → (length out < message_len msg) ⊎ (pmtu_floor < message_len msg)
      → encode_message body h msg out ≡ none
  unfolding encode_message encode
  encode_message_refused h msg out w = ground arith

  -- `encode_message` succeeds exactly if header and body fit the buffer and the 1200-byte limit, whatever
  -- the body's codec. It then reports their length, and leaves the buffer's length and what stands behind
  -- the message as they were. The reported bytes are read back as the same header, if it is well formed,
  -- and as the same body, if its own decoder reads it back.
  pub decode-encode_message :
      (h : Header) (msg : T) (out : Bytes)
      → ((message_len msg ≤ length out) × (message_len msg ≤ pmtu_floor)
          → (o : Bytes) × (encode_message body h msg out ≡ some (o, message_len msg))
            × (length o ≡ length out)
            × (drop (message_len msg) o ≡ drop (message_len msg) out)
            × (IsHeader h → decode (take (message_len msg) o) ≡ some h)
            × (decoded (encoded msg) ≡ some msg
                → decode_body body (take (message_len msg) o) ≡ some msg))
        × ((length out < message_len msg) ⊎ (pmtu_floor < message_len msg)
            → encode_message body h msg out ≡ none)
  decode-encode_message h msg out = (fits, encode_message_refused h msg out)
    where
      sent : Bytes
      sent = header_bytes h ++ encoded msg

      length-sent : length sent ≡ message_len msg
      length-sent =
          omega (arith, length-append (header_bytes h) (encoded msg), length-header_bytes h)

      fits :
          (message_len msg ≤ length out) × (message_len msg ≤ pmtu_floor)
          → (o : Bytes) × (encode_message body h msg out ≡ some (o, message_len msg))
            × (length o ≡ length out)
            × (drop (message_len msg) o ≡ drop (message_len msg) out)
            × (IsHeader h → decode (take (message_len msg) o) ≡ some h)
            × (decoded (encoded msg) ≡ some msg
                → decode_body body (take (message_len msg) o) ≡ some msg)
      fits room =
          let rest = drop (message_len msg) out in
          let whole : take (message_len msg) (sent ++ rest) ≡ sent =
            rw length-sent at (take-length-append sent rest) in
          (
            sent ++ rest,
            encode_message-bytes h msg out room.0 room.1,
            omega (arith, length-append sent rest, length-sent, length-drop (message_len msg) out),
            rw length-sent at (drop-length-append sent rest),
            λ v. rw whole (decode-header_bytes h (encoded msg) v),
            λ law. rw whole (decode_body-bytes h (encoded msg) ∙ law),
          )
