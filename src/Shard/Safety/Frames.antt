-- ===== src/Shard/Safety/Frames.antt =====
-- Stored and announced records, relayed frames, and every message that a shard handles, keep what holds
-- of it.
use molia.Prelude.{
  ℕ, zero, suc, refl, inl, inr, Bool, false, not, Option, none, some, [], nat_eq, bytes_eq, length,
  Bool-cases, Option-cases,
}
use molia.Prelude.Words.{Bytes}
use molia.Prelude.Text.{codes}
use molia.Types.{NodeId, Key, SocketAddr, from_bytes, primary_addr}
use molia.Codec.{
  MessageType, ping, pong, negotiate_req, negotiate_resp, find_node_req, find_node_resp,
  find_value_req, find_value_resp, store_req, store_resp, announce_provider_req,
  announce_provider_resp, punch, relay, trace_hint, cache_hint, error, Header, decode, decode_body,
  is_probe,
}
use molia.Routing
use molia.Nat.{forward}
use molia.Nat.Budget.{forward-IsWithin}
use molia.Shard.Proto
use molia.Shard.Proto.{Found, record_bytes, provider_list, Provider, parse_multiaddr}
use molia.Shard.Context.{Moment, unix, Env, Net, ShardCtx}
use molia.Shard.Handlers
use molia.Shard.Safety.{
  IsNet, IsShard, moved-IsNet, with_message-IsNet, send_relayed-IsNet, send_app-IsNet,
  spend_corr-IsNet,
}
use molia.Shard.Safety.Stores.{announce_provider-IsGenuine}
use molia.Shard.Safety.Contacts.{
  moved-IsShard, sent-IsShard, if-IsShard, on_ping-IsShard, on_pong-IsShard, on_negotiate-IsShard,
}
use molia.Shard.Safety.Punches.{on_punch-IsShard}
use molia.Shard.Safety.Messages.{
  send_error-IsShard, on_find_node-IsShard, on_find_node_resp-IsShard, on_find_value-IsShard,
  on_find_value_resp-IsShard, admit-IsShard, store_request-IsShard,
}

module _ {T F : Type 0} (e : Env T F) where
  on_store-IsShard :
      (m : Moment) (src : SocketAddr) (h : Header) (pkt : Bytes) (c : ShardCtx T F)
      → IsShard e.crypto c
      → IsShard e.crypto (Handlers.on_store e m src h pkt c)
  unfolding Handlers.on_store
  on_store-IsShard m src h pkt c v =
      elim (Option-cases (decode_body e.protocol.store_req_body pkt)) [
        | inl odd ↦ rw (Handlers.on_store, odd) v
        | inr (req, read) ↦
            let admitted = (Handlers.admit e m src c).0 in
            let w = admit-IsShard e m src c v in
            let stored = store_request-IsShard e m (is_probe h) req.rec admitted w in
            let code = (Handlers.store_request e m (is_probe h) req.rec admitted).1 in
            rw (Handlers.on_store, read)
              (if-IsShard e (not (Handlers.admit e m src c).1) _ _
                (send_error-IsShard e admitted src h.correlation Proto.error_rate_limited
                  (codes "rate") w)
                (sent-IsShard e (Handlers.store_request e m (is_probe h) req.rec admitted).0 _
                  (with_message-IsNet e e.protocol.store_resp_body _
                    (record { code = code.0; reason = code.1 }) _ _ (send_app-IsNet e _ src none)
                    stored.net)
                  stored))
      ]

  announced-IsShard :
      (m : Moment) (key : Key) (p : Option Provider) (c : ShardCtx T F)
      → IsShard e.crypto c
      → IsShard e.crypto (Handlers.announced e m key p c)
  unfolding Handlers.announced
  announced-IsShard m key none c v = v
  announced-IsShard m key (some p) c v = elim (Option-cases (from_bytes p.peer_id)) [
    | inl short ↦ rw (Handlers.announced, short) v
    | inr (peer, sized) ↦
        rw (Handlers.announced, sized)
          (record {
            net = v.net;
            table = v.table;
            store = announce_provider-IsGenuine e.crypto (unix m) key peer p.meta c.store v.store;
            lookups = v.lookups;
            scored = v.scored;
            answers = v.answers;
          })
  ]

  on_announce-IsShard :
      (m : Moment) (src : SocketAddr) (h : Header) (pkt : Bytes) (c : ShardCtx T F)
      → IsShard e.crypto c
      → IsShard e.crypto (Handlers.on_announce e m src h pkt c)
  unfolding Handlers.on_announce
  on_announce-IsShard m src h pkt c v =
      elim (Option-cases (decode_body e.protocol.announce_req_body pkt)) [
        | inl odd ↦ rw (Handlers.on_announce, odd) v
        | inr (req, read) ↦ elim (Bool-cases (Handlers.admit e m src c).1) [
          | inr late ↦ rw (Handlers.on_announce, read, late) (admit-IsShard e m src c v)
          | inl ok ↦ elim (Option-cases (from_bytes req.key)) [
            | inl short ↦ rw (Handlers.on_announce, read, ok, short) (admit-IsShard e m src c v)
            | inr (key, sized) ↦
                let admitted = (Handlers.admit e m src c).0 in
                let w =
                  announced-IsShard m key req.self_descriptor admitted
                    (admit-IsShard e m src c v) in
                rw (Handlers.on_announce, read, ok, sized)
                  (sent-IsShard e (Handlers.announced e m key req.self_descriptor admitted) _
                    (with_message-IsNet e e.protocol.announce_resp_body _
                      (record { code = Proto.announce_ok_code; reason = [] }) _ _
                      (send_app-IsNet e _ src none) w.net)
                    w)
          ]
        ]
      ]

  forwarded-IsNet :
      (len : ℕ) (n : Net T) → IsNet n → IsNet (record n { relay = (forward len false n.relay).0 })
  forwarded-IsNet len n v = record {
    positive = v.positive;
    small = v.small;
    pooled = v.pooled;
    within = (forward-IsWithin n.relay len false).1 v.within;
  }

  relay_to-IsShard :
      (dest : NodeId) (r : Proto.RelayBody) (c : ShardCtx T F)
      → IsShard e.crypto c
      → IsShard e.crypto (Handlers.relay_to e dest r c)
  unfolding Handlers.relay_to
  relay_to-IsShard dest r c v = elim (Option-cases (Routing.get c.table dest)) [
    | inl unknown ↦ rw (Handlers.relay_to, unknown) v
    | inr (x, known) ↦ elim (Option-cases (primary_addr x.info)) [
      | inl nowhere ↦ rw (Handlers.relay_to, known, nowhere) v
      | inr (hop, there) ↦
          rw (Handlers.relay_to, known, there)
            (sent-IsShard e c _
              (with_message-IsNet e _ _ r _ _ (send_relayed-IsNet e hop)
                (spend_corr-IsNet e c.net v.net))
              v)
    ]
  ]

  forward_relay-IsShard :
      (dest : NodeId) (r : Proto.RelayBody) (c : ShardCtx T F)
      → IsShard e.crypto c
      → IsShard e.crypto (Handlers.forward_relay e dest r c)
  unfolding Handlers.forward_relay
  forward_relay-IsShard dest r c v =
      let spent = sent-IsShard e c _ (forwarded-IsNet (length r.payload) c.net v.net) v in
      if-IsShard e _ _ _ spent (relay_to-IsShard dest r _ spent)

  on_relay-IsShard :
      (deliver : Bytes → ShardCtx T F → ShardCtx T F) (src : SocketAddr) (pkt : Bytes)
      (c : ShardCtx T F)
      → ((payload : Bytes) (d : ShardCtx T F)
          → IsShard e.crypto d
          → IsShard e.crypto (deliver payload d))
      → IsShard e.crypto c
      → IsShard e.crypto (Handlers.on_relay e deliver src pkt c)
  unfolding Handlers.on_relay
  on_relay-IsShard deliver src pkt c keeps v =
      elim (Option-cases (decode_body e.protocol.relay_body pkt)) [
        | inl odd ↦ rw (Handlers.on_relay, odd) v
        | inr (r, read) ↦ elim (Option-cases (from_bytes r.dest_id)) [
          | inl short ↦ rw (Handlers.on_relay, read, short) v
          | inr (dest, sized) ↦ elim (Option-cases (from_bytes r.from_id)) [
            | inl short ↦ rw (Handlers.on_relay, read, sized, short) v
            | inr (from, known) ↦
                rw (Handlers.on_relay, read, sized, known)
                  (if-IsShard e _ _ _
                    (keeps r.payload _ (moved-IsShard e c _ v.net v.table refl refl refl refl v))
                    (forward_relay-IsShard dest r c v))
          ]
        ]
      ]

  unsupported-IsShard :
      (src : SocketAddr) (h : Header) (authenticated : Bool) (c : ShardCtx T F)
      → IsShard e.crypto c
      → IsShard e.crypto (Handlers.unsupported e src h authenticated c)
  unfolding Handlers.unsupported
  unsupported-IsShard src h authenticated c v =
      if-IsShard e _ _ _ (send_error-IsShard e c src h.correlation _ _ v) v

  dispatch_app-IsShard :
      (deliver : Bytes → ShardCtx T F → ShardCtx T F) (m : Moment) (src : SocketAddr) (h : Header)
      (pkt : Bytes) (auth : Bool) (ty : MessageType) (c : ShardCtx T F)
      → ((payload : Bytes) (d : ShardCtx T F)
          → IsShard e.crypto d
          → IsShard e.crypto (deliver payload d))
      → IsShard e.crypto c
      → IsShard e.crypto (Handlers.dispatch_app e deliver m src h pkt auth ty c)
  unfolding Handlers.dispatch_app
  dispatch_app-IsShard deliver m src h pkt auth ping c keeps v = on_ping-IsShard e m src h pkt c v
  dispatch_app-IsShard deliver m src h pkt auth pong c keeps v = on_pong-IsShard e m src pkt c v
  dispatch_app-IsShard deliver m src h pkt auth negotiate_req c keeps v =
      on_negotiate-IsShard e src h c v
  dispatch_app-IsShard deliver m src h pkt auth find_node_req c keeps v =
      on_find_node-IsShard e src h pkt c v
  dispatch_app-IsShard deliver m src h pkt auth find_node_resp c keeps v =
      on_find_node_resp-IsShard e m src h pkt c v
  dispatch_app-IsShard deliver m src h pkt auth find_value_req c keeps v =
      on_find_value-IsShard e m src h pkt c v
  dispatch_app-IsShard deliver m src h pkt auth find_value_resp c keeps v =
      on_find_value_resp-IsShard e m src h pkt c v
  dispatch_app-IsShard deliver m src h pkt auth store_req c keeps v =
      on_store-IsShard m src h pkt c v
  dispatch_app-IsShard deliver m src h pkt auth announce_provider_req c keeps v =
      on_announce-IsShard m src h pkt c v
  dispatch_app-IsShard deliver m src h pkt auth punch c keeps v = on_punch-IsShard e m src pkt c v
  dispatch_app-IsShard deliver m src h pkt auth relay c keeps v =
      on_relay-IsShard deliver src pkt c keeps v
  dispatch_app-IsShard deliver m src h pkt auth error c keeps v = v
  dispatch_app-IsShard deliver m src h pkt auth negotiate_resp c keeps v =
      unsupported-IsShard src h auth c v
  dispatch_app-IsShard deliver m src h pkt auth store_resp c keeps v =
      unsupported-IsShard src h auth c v
  dispatch_app-IsShard deliver m src h pkt auth announce_provider_resp c keeps v =
      unsupported-IsShard src h auth c v
  dispatch_app-IsShard deliver m src h pkt auth trace_hint c keeps v =
      unsupported-IsShard src h auth c v
  dispatch_app-IsShard deliver m src h pkt auth cache_hint c keeps v =
      unsupported-IsShard src h auth c v

  handle_nested-IsShard :
      (fuel : ℕ) (m : Moment) (src : SocketAddr) (pkt : Bytes) (auth : Bool) (c : ShardCtx T F)
      → IsShard e.crypto c
      → IsShard e.crypto (Handlers.handle_nested e fuel m src pkt auth c)
  unfolding Handlers.handle_nested
  handle_nested-IsShard zero m src pkt auth c v = v
  handle_nested-IsShard (suc fuel) m src pkt auth c v = elim (Option-cases (decode pkt)) [
    | inl odd ↦
        rw (Handlers.handle_nested, odd)
          (unfold Handlers.malformed in
            sent-IsShard e c _ (moved-IsNet c.net _ refl refl refl v.net) v)
    | inr (h, read) ↦
        rw (Handlers.handle_nested, read)
          (dispatch_app-IsShard _ m src h pkt auth h.ty c
            (λ payload d w. handle_nested-IsShard fuel m src payload false d w) v)
  ]

  pub handle_app-IsShard :
      (m : Moment) (src : SocketAddr) (pkt : Bytes) (auth : Bool) (c : ShardCtx T F)
      → IsShard e.crypto c
      → IsShard e.crypto (Handlers.handle_app e m src pkt auth c)
  unfolding Handlers.handle_app
  handle_app-IsShard m src pkt auth c v =
      handle_nested-IsShard (suc (length pkt)) m src pkt auth c v
