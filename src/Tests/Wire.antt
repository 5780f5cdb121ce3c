-- ===== src/Tests/Wire.antt =====
-- Headers, messages and datagrams on concrete bytes.
use molia.Prelude.{length, take, drop, ◌≡◌, refl, none, some, [], ◌∷◌, replicate, arith}
use molia.Prelude.Words.{Bytes}
use molia.Codec
use molia.Codec.{decode, Header, find_node_req, coordination, encode, Body, encode_message}
use molia.Codec.Headers.{IsHeader, decode-encode}
use molia.Codec.Messages.{decode-encode_message}
use molia.Wg.{wrap_rpc, unwrap_rpc, demux_shard, encode_receiver_index}
use molia.Wg.Framing.{unwrap_rpc-wrap_rpc}
use molia.Wg.Demux.{demux_shard-data, data_datagram}
use molia.Tests.{localhost}

abbrev query : Header
query = record {
  version = 1;
  ty = find_node_req;
  flags = 0;
  qos = coordination;
  correlation = 7;
  stream_id = 0;
}

query-IsHeader : IsHeader query
query-IsHeader = record {
  version = refl;
  flags = omega arith;
  correlation = omega arith;
  stream_id = omega arith;
}

decode-encode_example : encode query (1 ∷ 2 ∷ []) ≡ none
decode-encode_example = (decode-encode query (1 ∷ 2 ∷ []) query-IsHeader).1 (omega arith)

abbrev wire : Bytes
wire = 1 ∷ 5 ∷ 0 ∷ 1 ∷ 0 ∷ 0 ∷ 0 ∷ 7 ∷ 0 ∷ 0 ∷ 0 ∷ 0 ∷ []

-- A body that is its own encoding.
abbrev plain : Body Bytes
plain = record { encoded = λ b. b; decoded = λ b. some b }

decode-encode_message_example :
    (o : Bytes) × (encode_message plain query (9 ∷ []) (replicate 20 0) ≡ some (o, 13))
    × (length o ≡ 20)
    × (drop 13 o ≡ drop 13 (replicate 20 0))
    × (IsHeader query → decode (take 13 o) ≡ some query)
    × (plain.decoded (plain.encoded (9 ∷ [])) ≡ some (9 ∷ [])
        → Codec.decode_body plain (take 13 o) ≡ some (9 ∷ []))
decode-encode_message_example =
    (decode-encode_message plain query (9 ∷ []) (replicate 20 0)).0 (omega arith, omega arith)

unwrap_rpc-wrap_rpc_example : unwrap_rpc (wrap_rpc (9 ∷ 8 ∷ [])) ≡ 9 ∷ 8 ∷ []
unwrap_rpc-wrap_rpc_example = (unwrap_rpc-wrap_rpc (9 ∷ 8 ∷ []) query query-IsHeader).0

demux_shard-data_example :
    demux_shard (data_datagram (encode_receiver_index 3 77) (1 ∷ [])) (localhost 5) 4 ≡ 3
demux_shard-data_example =
    demux_shard-data 3 77 4 (1 ∷ []) (localhost 5) (omega arith) (omega arith)
