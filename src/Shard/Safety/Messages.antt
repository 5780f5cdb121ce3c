-- ===== src/Shard/Safety/Messages.antt =====
-- Questions, answers, records and relayed frames keep what holds of a shard.
use molia.Prelude.{
  ℕ, ◌≡◌, refl, inl, inr, Bool, true, false, not, Option, none, some, List, [], ◌∷◌, if◌then◌else◌,
  nat_eq, bytes_eq, Bool-cases, Option-cases, Sum-cases, arith,
}
use molia.Prelude.Words.{Bytes}
use molia.Types.{SocketAddr, PeerInfo, from_bytes}
use molia.Codec.{Header, decode_body, is_probe}
use molia.Routing.Insert.{kept-insert}
use molia.Store.{StoredRecord, authentic, put_record, record_from_proto, cache_hit}
use molia.Sybil.Admission.{admitted-IsScored}
use molia.Lookup.{on_record}
use molia.Shard.{peers_from_proto}
use molia.Shard.Proto.{Found, record_bytes, provider_list, parse_multiaddr}
use molia.Shard.Context.{Moment, unix, Env, ShardCtx, send_error, reply_peers}
use molia.Shard.Lookups.{zero_id}
use molia.Shard.Queries
use molia.Shard.Handlers
use molia.Shard.Safety.{IsGenuine, IsShard, moved-IsNet, with_message-IsNet, send_app-IsNet}
use molia.Shard.Safety.Stores.{put_record-IsGenuine, cache_hit-IsGenuine}
use molia.Shard.Safety.Searches.{on_record-IsSearch, on_providers-IsSearch}
use molia.Shard.Safety.Dispatch.{searched-IsShard}
use molia.Shard.Safety.Sweeps.{update_lookup-All, sweep_lookups-IsShard, complete_closer-IsShard}
use molia.Shard.Safety.Contacts.{moved-IsShard, sent-IsShard, learn-IsShard, learn_addr-IsShard}
use molia.Shard.Safety.Punches.{start_punch-IsShard}

module _ {T F : Type 0} (e : Env T F) where
  pub reply_peers-IsShard :
      (c : ShardCtx T F) (dest : SocketAddr) (corr : ℕ) (peers : List PeerInfo)
      → IsShard e.crypto c
      → IsShard e.crypto (reply_peers e c dest corr peers)
  unfolding reply_peers
  reply_peers-IsShard c dest corr peers v =
      sent-IsShard e c _ (with_message-IsNet e _ _ _ _ _ (send_app-IsNet e c dest none) v.net) v

  pub send_error-IsShard :
      (c : ShardCtx T F) (dest : SocketAddr) (corr code : ℕ) (reason : Bytes)
      → IsShard e.crypto c
      → IsShard e.crypto (send_error e c dest corr code reason)
  unfolding send_error
  send_error-IsShard c dest corr code reason v =
      sent-IsShard e c _ (with_message-IsNet e _ _ _ _ _ (send_app-IsNet e c dest none) v.net) v

  pub on_find_node-IsShard :
      (src : SocketAddr) (h : Header) (pkt : Bytes) (c : ShardCtx T F)
      → IsShard e.crypto c
      → IsShard e.crypto (Queries.on_find_node e src h pkt c)
  unfolding Queries.on_find_node
  on_find_node-IsShard src h pkt c v =
      elim (Option-cases (decode_body e.protocol.find_node_req_body pkt)) [
        | inl odd ↦ rw (Queries.on_find_node, odd) v
        | inr (req, read) ↦
            rw (Queries.on_find_node, read) (reply_peers-IsShard c src h.correlation _ v)
      ]

  learn_peers-IsShard :
      (m : Moment) (src : SocketAddr) (peers : List PeerInfo) (c : ShardCtx T F)
      → IsShard e.crypto c
      → IsShard e.crypto (Queries.learn_peers e m src peers c)
  unfolding Queries.learn_peers
  learn_peers-IsShard m src [] c v = v
  learn_peers-IsShard m src (p ∷ ps) c v =
      learn_peers-IsShard m src ps _ (start_punch-IsShard e m p src _ (learn-IsShard e m p c v))

  pub on_find_node_resp-IsShard :
      (m : Moment) (src : SocketAddr) (h : Header) (pkt : Bytes) (c : ShardCtx T F)
      → IsShard e.crypto c
      → IsShard e.crypto (Queries.on_find_node_resp e m src h pkt c)
  unfolding Queries.on_find_node_resp
  on_find_node_resp-IsShard m src h pkt c v =
      elim (Option-cases (decode_body e.protocol.find_node_resp_body pkt)) [
        | inl odd ↦ rw (Queries.on_find_node_resp, odd) v
        | inr (resp, read) ↦
            let peers = peers_from_proto (parse_multiaddr e.text) resp.peers in
            rw (Queries.on_find_node_resp, read)
              (unfold Queries.take_peers in
                complete_closer-IsShard e m h.correlation src peers _ (
                  learn_addr-IsShard e m src (Queries.first_id peers) _
                    (learn_peers-IsShard m src peers c v)))
      ]

  send_value-IsShard :
      (src : SocketAddr) (h : Header) (result : Option Found) (closer : List PeerInfo)
      (c : ShardCtx T F)
      → IsShard e.crypto c
      → IsShard e.crypto (Queries.send_value e src h result closer c)
  unfolding Queries.send_value
  send_value-IsShard src h result closer c v =
      sent-IsShard e c _ (with_message-IsNet e _ _ _ _ _ (send_app-IsNet e c src none) v.net) v

  pub on_find_value-IsShard :
      (m : Moment) (src : SocketAddr) (h : Header) (pkt : Bytes) (c : ShardCtx T F)
      → IsShard e.crypto c
      → IsShard e.crypto (Queries.on_find_value e m src h pkt c)
  unfolding Queries.on_find_value
  on_find_value-IsShard m src h pkt c v =
      elim (Option-cases (decode_body e.protocol.find_value_req_body pkt)) [
        | inl odd ↦ rw (Queries.on_find_value, odd) v
        | inr (req, read) ↦ elim (Option-cases (from_bytes req.key)) [
          | inl short ↦ rw (Queries.on_find_value, read, short) v
          | inr (key, sized) ↦
              rw (Queries.on_find_value, read, sized) (send_value-IsShard src h _ _ c v)
        ]
      ]

  meet_peers-IsShard :
      (m : Moment) (src : SocketAddr) (peers : List PeerInfo) (c : ShardCtx T F)
      → IsShard e.crypto c
      → IsShard e.crypto (Queries.meet_peers e m src peers c)
  unfolding Queries.meet_peers
  meet_peers-IsShard m src [] c v = v
  meet_peers-IsShard m src (p ∷ ps) c v = meet_peers-IsShard m src ps _ (
      start_punch-IsShard e m p src _
        (moved-IsShard e c _ v.net (kept-insert m.now c.table p v.table) refl refl refl refl v))

  received_record-authentic :
      (m : Moment) (raw : Bytes) (rec : StoredRecord)
      → Queries.received_record e m raw ≡ some rec
      → authentic e.crypto rec ≡ true
  unfolding Queries.received_record
  received_record-authentic m raw rec h = elim (Option-cases (e.protocol.record_body.decoded raw)) [
    | inl odd ↦ absurd (ground arith)
    | inr (pr, read) ↦ elim (Option-cases (record_from_proto (unix m) pr)) [
      | inl short ↦ absurd (ground arith)
      | inr (r, made) ↦ elim (Bool-cases (authentic e.crypto r)) [
        | inr forged ↦ absurd (ground arith)
        | inl genuine ↦ let same : r ≡ rec = ground arith in rw (← same) genuine
      ]
    ]
  ]

  take_record-IsShard :
      (m : Moment) (h : Header) (raw : Bytes) (c : ShardCtx T F)
      → IsShard e.crypto c
      → IsShard e.crypto (Queries.take_record e m h raw c)
  unfolding Queries.take_record
  take_record-IsShard m h raw c v = elim (Option-cases (Queries.received_record e m raw)) [
    | inl odd ↦ rw (Queries.take_record, odd) v
    | inr (rec, read) ↦
        let ok = received_record-authentic m raw rec read in
        rw (Queries.take_record, read)
          (record {
            net = v.net;
            table = v.table;
            store = cached-IsGenuine (not (is_probe h)) rec ok;
            lookups =
                update_lookup-All e.crypto h.correlation (on_record zero_id rec) c.lookups
                  (λ l w. on_record-IsSearch e.crypto zero_id rec l ok w) v.lookups;
            scored = v.scored;
            answers = v.answers;
          })
  ]
    where
      cached-IsGenuine :
          (b : Bool) (rec : StoredRecord)
          → authentic e.crypto rec ≡ true
          → IsGenuine e.crypto (if b then cache_hit (unix m) rec c.store else c.store)
      cached-IsGenuine true rec ok = cache_hit-IsGenuine e.crypto (unix m) rec c.store ok v.store
      cached-IsGenuine false rec ok = v.store

  take_result-IsShard :
      (m : Moment) (src : SocketAddr) (h : Header) (result : Option Found) (closer : List PeerInfo)
      (c : ShardCtx T F)
      → IsShard e.crypto c
      → IsShard e.crypto (Queries.take_result e m src h result closer c)
  unfolding Queries.take_result
  take_result-IsShard m src h none closer c v =
      complete_closer-IsShard e m h.correlation src closer c v
  take_result-IsShard m src h (some (record_bytes raw)) closer c v = take_record-IsShard m h raw c v
  take_result-IsShard m src h (some (provider_list ps)) closer c v =
      searched-IsShard e c c.net _ v.net
        (update_lookup-All e.crypto h.correlation _ c.lookups
          (λ l w.
            on_providers-IsSearch e.crypto zero_id (Queries.providers_from_proto ps) closer l w)
          v.lookups)
        v

  pub on_find_value_resp-IsShard :
      (m : Moment) (src : SocketAddr) (h : Header) (pkt : Bytes) (c : ShardCtx T F)
      → IsShard e.crypto c
      → IsShard e.crypto (Queries.on_find_value_resp e m src h pkt c)
  unfolding Queries.on_find_value_resp
  on_find_value_resp-IsShard m src h pkt c v =
      elim (Option-cases (decode_body e.protocol.find_value_resp_body pkt)) [
        | inl odd ↦ rw (Queries.on_find_value_resp, odd) v
        | inr (resp, read) ↦
            let closer = peers_from_proto (parse_multiaddr e.text) resp.closer_peers in
            rw (Queries.on_find_value_resp, read)
              (sweep_lookups-IsShard e m
                (Queries.take_result e m src h resp.result closer
                  (Queries.meet_peers e m src closer c))
                (take_result-IsShard m src h resp.result closer _
                  (meet_peers-IsShard m src closer c v)))
      ]

  pub admit-IsShard :
      (m : Moment) (src : SocketAddr) (c : ShardCtx T F)
      → IsShard e.crypto c
      → IsShard e.crypto (Handlers.admit e m src c).0
  unfolding Handlers.admit
  admit-IsShard m src c v = record {
    net = v.net;
    table = v.table;
    store = v.store;
    lookups = v.lookups;
    scored = admitted-IsScored e.floats m.now src c.sybil v.scored;
    answers = v.answers;
  }

  pub store_request-IsShard :
      (m : Moment) (probe : Bool) (raw : Bytes) (c : ShardCtx T F)
      → IsShard e.crypto c
      → IsShard e.crypto (Handlers.store_request e m probe raw c).0
  unfolding Handlers.store_request
  store_request-IsShard m probe raw c v = elim (Option-cases (e.protocol.record_body.decoded raw)) [
    | inl odd ↦ rw (Handlers.store_request, odd) v
    | inr (pr, read) ↦ elim (Option-cases (record_from_proto (unix m) pr)) [
      | inl short ↦ rw (Handlers.store_request, read, short) v
      | inr (rec, made) ↦ elim (Sum-cases (put_record e.crypto rec probe c.store)) [
        | inl (reason, refused) ↦
            rw (Handlers.store_request, read, made, refused)
              (sent-IsShard e c _ (moved-IsNet c.net _ refl refl refl v.net) v)
        | inr (store, stored) ↦
            rw (Handlers.store_request, read, made, stored)
              (record {
                net = moved-IsNet c.net _ refl refl refl v.net;
                table = v.table;
                store = put_record-IsGenuine e.crypto rec probe c.store store v.store stored;
                lookups = v.lookups;
                scored = v.scored;
                answers = v.answers;
              })
      ]
    ]
  ]
