-- ===== src/Shard/Handlers/Nesting.antt =====
-- Relayed frames within relayed frames.
use molia.Prelude.{
  ℕ, zero, suc, ◌≤◌, ◌<◌, ◌≡◌, refl, inl, inr, Bool, false, some, length, drop, length-drop, ltb,
  ◌==◌, Bool-cases, Option-cases, bytes_eq, arith,
}
use molia.Prelude.Words.{Bytes}
use molia.Prelude.Maps
use molia.Types.{SocketAddr, from_bytes, header_len}
use molia.Codec.{
  MessageType, ping, pong, negotiate_req, negotiate_resp, find_node_req, find_node_resp,
  find_value_req, find_value_resp, store_req, store_resp, announce_provider_req,
  announce_provider_resp, punch, relay, trace_hint, cache_hint, error, Header, decode, decode_body,
}
use molia.Shard.Proto.{RelayBody}
use molia.Shard.Context.{Moment, Env, ShardCtx, self_id}
use molia.Shard.Handlers.{on_relay, dispatch_app, handle_nested, handle_app}

module _ {T F : Type 0} (e : Env T F) where
  -- A relayed frame is handled alike by two functions that agree on what it holds.
  on_relay-agree :
      (f g : Bytes → ShardCtx T F → ShardCtx T F) (src : SocketAddr) (pkt : Bytes)
      (c : ShardCtx T F)
      → ((r : RelayBody)
          → decode_body e.protocol.relay_body pkt ≡ some r
          → (d : ShardCtx T F) → f r.payload d ≡ g r.payload d)
      → on_relay e f src pkt c ≡ on_relay e g src pkt c
  unfolding on_relay
  on_relay-agree f g src pkt c same = elim (Option-cases (decode_body e.protocol.relay_body pkt)) [
    | inl odd ↦ rw (on_relay, odd) refl
    | inr (r, read) ↦ elim (Option-cases (from_bytes r.dest_id)) [
      | inl short ↦ rw (on_relay, read, short) refl
      | inr (dest, sized) ↦ elim (Option-cases (from_bytes r.from_id)) [
        | inl short ↦ rw (on_relay, read, sized, short) refl
        | inr (from, known) ↦ elim (Bool-cases (dest == self_id e)) [
          | inl own ↦
              rw (on_relay, read, sized, known, own)
                (same r read (record c { via_relay = Maps.insert from src c.via_relay }))
          | inr other ↦ rw (on_relay, read, sized, known, other) refl
        ]
      ]
    ]
  ]

  dispatch_app-agree :
      (f g : Bytes → ShardCtx T F → ShardCtx T F) (m : Moment) (src : SocketAddr) (h : Header)
      (pkt : Bytes) (auth : Bool) (ty : MessageType) (c : ShardCtx T F)
      → ((r : RelayBody)
          → decode_body e.protocol.relay_body pkt ≡ some r
          → (d : ShardCtx T F) → f r.payload d ≡ g r.payload d)
      → dispatch_app e f m src h pkt auth ty c ≡ dispatch_app e g m src h pkt auth ty c
  unfolding dispatch_app
  dispatch_app-agree f g m src h pkt auth ping c same = refl
  dispatch_app-agree f g m src h pkt auth pong c same = refl
  dispatch_app-agree f g m src h pkt auth negotiate_req c same = refl
  dispatch_app-agree f g m src h pkt auth find_node_req c same = refl
  dispatch_app-agree f g m src h pkt auth find_node_resp c same = refl
  dispatch_app-agree f g m src h pkt auth find_value_req c same = refl
  dispatch_app-agree f g m src h pkt auth find_value_resp c same = refl
  dispatch_app-agree f g m src h pkt auth store_req c same = refl
  dispatch_app-agree f g m src h pkt auth announce_provider_req c same = refl
  dispatch_app-agree f g m src h pkt auth punch c same = refl
  dispatch_app-agree f g m src h pkt auth relay c same = on_relay-agree f g src pkt c same
  dispatch_app-agree f g m src h pkt auth error c same = refl
  dispatch_app-agree f g m src h pkt auth negotiate_resp c same = refl
  dispatch_app-agree f g m src h pkt auth store_resp c same = refl
  dispatch_app-agree f g m src h pkt auth announce_provider_resp c same = refl
  dispatch_app-agree f g m src h pkt auth trace_hint c same = refl
  dispatch_app-agree f g m src h pkt auth cache_hint c same = refl

  -- A frame is longer than what it holds, by its header at least.
  length-payload :
      (pkt : Bytes) (r : RelayBody)
      → ((b : Bytes) (x : RelayBody)
          → e.protocol.relay_body.decoded b ≡ some x
          → length x.payload ≤ length b)
      → decode_body e.protocol.relay_body pkt ≡ some r
      → length r.payload < length pkt
  unfolding decode_body
  length-payload pkt r within read = elim (Bool-cases (ltb (length pkt) header_len)) [
    | inl short ↦ absurd (ground arith)
    | inr long ↦
        let body : e.protocol.relay_body.decoded (drop header_len pkt) ≡ some r =
          rw (decode_body, long) at (read) in
        let enough : 12 ≤ length pkt = ground arith in
        omega (arith, within (drop header_len pkt) r body, length-drop header_len pkt)
  ]

  handle_nested-fuel :
      (fuel more : ℕ) (m : Moment) (src : SocketAddr) (pkt : Bytes) (auth : Bool) (c : ShardCtx T F)
      → ((b : Bytes) (x : RelayBody)
          → e.protocol.relay_body.decoded b ≡ some x
          → length x.payload ≤ length b)
      → length pkt < fuel
      → length pkt < more
      → handle_nested e fuel m src pkt auth c ≡ handle_nested e more m src pkt auth c
  unfolding handle_nested
  handle_nested-fuel zero more m src pkt auth c within p q = absurd (omega arith)
  handle_nested-fuel (suc fuel) zero m src pkt auth c within p q = absurd (omega arith)
  handle_nested-fuel (suc fuel) (suc more) m src pkt auth c within p q =
      elim (Option-cases (decode pkt)) [
        | inl odd ↦ rw (handle_nested, odd) refl
        | inr (h, read) ↦
            rw (handle_nested, read)
              (dispatch_app-agree _ _ m src h pkt auth h.ty c (λ r framed d.
                handle_nested-fuel fuel more m src r.payload false d within
                  (omega (arith, length-payload pkt r within framed))
                  (omega (arith, length-payload pkt r within framed))))
      ]

-- The handling of a message ends, however deep relayed frames are nested in it: the depth that
-- `handle_app` allows is never used up, since any greater one gives the same state. The decoder of a
-- frame returns no more bytes than it was given.
pub handle_app_total :
    {T F : Type 0}
    → (e : Env T F) (fuel : ℕ) (m : Moment) (src : SocketAddr) (pkt : Bytes) (auth : Bool)
      (c : ShardCtx T F)
    → ((b : Bytes) (x : RelayBody)
        → e.protocol.relay_body.decoded b ≡ some x
        → length x.payload ≤ length b)
    → length pkt < fuel
    → handle_nested e fuel m src pkt auth c ≡ handle_app e m src pkt auth c
unfolding handle_app
handle_app_total e fuel m src pkt auth c within enough =
    handle_nested-fuel e fuel (suc (length pkt)) m src pkt auth c within enough (omega arith)
