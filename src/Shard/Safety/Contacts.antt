-- ===== src/Shard/Safety/Contacts.antt =====
-- Introductions, contacts and hole punching keep what holds of a shard.
use molia.Prelude.{
  ◌≡◌, refl, inl, inr, Bool, true, false, not, ◌||◌, Option, none, some, if◌then◌else◌, ◌==◌,
  nat_eq, bytes_eq, length, Bool-cases, Option-cases,
}
use molia.Prelude.Words.{Bytes}
use molia.Types.{NodeId, SocketAddr, PeerInfo}
use molia.Codec.{Header, decode_body}
use molia.Crypto.{verify_binding}
use molia.Routing.Buckets.{IsTable}
use molia.Routing.Insert.{kept-insert}
use molia.Routing.Evict.{kept-touch_ok}
use molia.Sybil.Admission.{reward-IsScored}
use molia.Shard.Proto.{Ping, Pong, parse_multiaddr}
use molia.Shard.Context.{Moment, Env, Net, ShardCtx, intro_pong}
use molia.Shard.Introductions.{
  learn, note_peer_keys, learn_addr, meet_ping, on_ping, observe, punched, meet_pong, on_pong,
  on_negotiate,
}
use molia.Shard.Safety.{
  IsNet, IsShard, moved-IsNet, with_message-IsNet, send_plain-IsNet, send_app-IsNet,
}

pub if-IsNet :
    {T : Type 0} → (b : Bool) (x y : Net T) → IsNet x → IsNet y → IsNet (if b then x else y)
if-IsNet true x y v w = v
if-IsNet false x y v w = w

module _ {T F : Type 0} (e : Env T F) where
  -- A state that differs in nothing but the network, the table and what the invariant leaves free.
  pub moved-IsShard :
      (c c' : ShardCtx T F)
      → IsNet c'.net
      → IsTable c'.table
      → c'.store ≡ c.store
      → c'.lookups ≡ c.lookups
      → c'.sybil ≡ c.sybil
      → c'.replies ≡ c.replies
      → IsShard e.crypto c
      → IsShard e.crypto c'
  moved-IsShard c c' n t a b d r v = record {
    net = n;
    table = t;
    store = rw a v.store;
    lookups = rw b v.lookups;
    scored = rw d v.scored;
    answers = rw r v.answers;
  }

  pub if-IsShard :
      (b : Bool) (x y : ShardCtx T F)
      → IsShard e.crypto x
      → IsShard e.crypto y
      → IsShard e.crypto (if b then x else y)
  if-IsShard true x y v w = v
  if-IsShard false x y v w = w

  -- The state with another network.
  pub sent-IsShard :
      (c : ShardCtx T F) (n : Net T)
      → IsNet n
      → IsShard e.crypto c
      → IsShard e.crypto (record c { net = n })
  sent-IsShard c n w v = moved-IsShard c _ w v.table refl refl refl refl v

  pub learn-IsShard :
      (m : Moment) (info : PeerInfo) (c : ShardCtx T F)
      → IsShard e.crypto c
      → IsShard e.crypto (learn e m info c)
  unfolding learn
  learn-IsShard m info c v =
      moved-IsShard c _ v.net (kept-insert m.now c.table info v.table) refl refl refl refl v

  note_peer_keys-IsShard :
      (m : Moment) (src : SocketAddr) (x25519 ed25519 sig : Bytes) (c : ShardCtx T F)
      → IsShard e.crypto c
      → IsShard e.crypto (note_peer_keys e m src x25519 ed25519 sig c).0
  unfolding note_peer_keys
  note_peer_keys-IsShard m src x25519 ed25519 sig c v =
      elim (Bool-cases
        (not (length x25519 == 32) || (not (length ed25519 == 32) || length sig == 0))) [
          | inl wrong ↦ rw wrong v
          | inr sized ↦ elim (Bool-cases (verify_binding e.crypto ed25519 x25519 sig)) [
            | inr forged ↦ rw (sized, forged) v
            | inl bound ↦
                rw (sized, bound)
                  (learn-IsShard m _ _ (
                    moved-IsShard c _ (moved-IsNet c.net _ refl refl refl v.net) v.table refl refl
                      refl refl v))
          ]
        ]

  pub learn_addr-IsShard :
      (m : Moment) (src : SocketAddr) (peer : Option NodeId) (c : ShardCtx T F)
      → IsShard e.crypto c
      → IsShard e.crypto (learn_addr e m src peer c)
  unfolding learn_addr
  learn_addr-IsShard m src none c v = learn-IsShard m _ c v
  learn_addr-IsShard m src (some peer) c v =
      let w = learn-IsShard m _ c v in
      record {
        net = w.net;
        table = kept-touch_ok m.now _ peer 80000 w.table;
        store = w.store;
        lookups = w.lookups;
        scored = reward-IsScored e.floats peer c.sybil v.scored;
        answers = w.answers;
      }

  meet_ping-IsShard :
      (m : Moment) (src : SocketAddr) (p : Option Ping) (c : ShardCtx T F)
      → IsShard e.crypto c
      → IsShard e.crypto (meet_ping e m src p c).0
  unfolding meet_ping
  meet_ping-IsShard m src none c v = v
  meet_ping-IsShard m src (some p) c v =
      note_peer_keys-IsShard m src p.x25519_pubkey p.ed25519_pubkey p.binding_sig c v

  pub on_ping-IsShard :
      (m : Moment) (src : SocketAddr) (h : Header) (pkt : Bytes) (c : ShardCtx T F)
      → IsShard e.crypto c
      → IsShard e.crypto (on_ping e m src h pkt c)
  unfolding on_ping
  on_ping-IsShard m src h pkt c v =
      let met = meet_ping e m src (decode_body e.protocol.ping_body pkt) c in
      let w =
        learn_addr-IsShard m src met.1 met.0
          (meet_ping-IsShard m src (decode_body e.protocol.ping_body pkt) c v) in
      sent-IsShard (learn_addr e m src met.1 met.0) _
        (with_message-IsNet e e.protocol.pong_body _ (intro_pong e m src) _ _
          (send_plain-IsNet e src) w.net)
        w

  observe-IsShard :
      (raw : Option Bytes) (c : ShardCtx T F)
      → IsShard e.crypto c
      → IsShard e.crypto (observe e raw c)
  unfolding observe
  observe-IsShard none c v = v
  observe-IsShard (some raw) c v = elim (Option-cases (parse_multiaddr e.text raw)) [
    | inl odd ↦ rw (observe, odd) v
    | inr (addr, read) ↦ rw (observe, read) (moved-IsShard c _ v.net v.table refl refl refl refl v)
  ]

  ended-IsShard :
      (peer : Option NodeId) (c : ShardCtx T F)
      → IsShard e.crypto c
      → IsShard e.crypto (punched e peer c)
  unfolding punched
  ended-IsShard none c v = v
  ended-IsShard (some j) c v = moved-IsShard c _ v.net v.table refl refl refl refl v

  meet_pong-IsShard :
      (m : Moment) (src : SocketAddr) (p : Option Pong) (c : ShardCtx T F)
      → IsShard e.crypto c
      → IsShard e.crypto (meet_pong e m src p c).0
  unfolding meet_pong
  meet_pong-IsShard m src none c v = v
  meet_pong-IsShard m src (some p) c v =
      note_peer_keys-IsShard m src p.x25519_pubkey p.ed25519_pubkey p.binding_sig _
        (observe-IsShard p.observed c v)

  pub on_pong-IsShard :
      (m : Moment) (src : SocketAddr) (pkt : Bytes) (c : ShardCtx T F)
      → IsShard e.crypto c
      → IsShard e.crypto (on_pong e m src pkt c)
  unfolding on_pong
  on_pong-IsShard m src pkt c v =
      let met = meet_pong e m src (decode_body e.protocol.pong_body pkt) c in
      ended-IsShard met.1 (learn_addr e m src met.1 met.0) (
        learn_addr-IsShard m src met.1 met.0
          (meet_pong-IsShard m src (decode_body e.protocol.pong_body pkt) c v))

  pub on_negotiate-IsShard :
      (src : SocketAddr) (h : Header) (c : ShardCtx T F)
      → IsShard e.crypto c
      → IsShard e.crypto (on_negotiate e src h c)
  unfolding on_negotiate
  on_negotiate-IsShard src h c v =
      sent-IsShard c _ (with_message-IsNet e _ _ _ _ _ (send_app-IsNet e c src none) v.net) v
