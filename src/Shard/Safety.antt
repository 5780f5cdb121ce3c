-- ===== src/Shard/Safety.antt =====
-- What holds of a shard between two events, and that sending keeps it.
pub mod Stores
pub mod Searches
pub mod Dispatch
pub mod Sweeps
pub mod Contacts
pub mod Punches
pub mod Messages
pub mod Frames
pub mod Orders
pub mod Steps
pub mod Runs
use molia.Prelude.{
  ℕ, ◌+◌, ◌*◌, ◌%◌, ◌≤◌, ◌<◌, ◌≡◌, refl, inl, inr, Bool, true, false, Option, none, some, List, [],
  ◌∷◌, ◌++◌, length, if◌then◌else◌, ltb, ◌==◌, nat_eq, bytes_eq, All, Bool-cases, Option-cases,
  arith, is_some, unwrap_or,
}
use molia.Prelude.Words.{Bytes, u32_mod}
use molia.Prelude.Maps
use molia.Types.{NodeId, Key, SocketAddr, PeerInfo, pmtu_floor, addr_eq}
use molia.Codec.{Body, Header, encode_message}
use molia.Crypto.{Primitives}
use molia.Routing.{RoutingTable}
use molia.Routing.Buckets.{IsTable}
use molia.Store.{Store, StoredRecord, authentic}
use molia.Store.Admission.{IsStore}
use molia.Pool.{BufferPool, Buffer, pool_cap, take_buffer, recycle}
use molia.Pool.Arena.{recycle-take_buffer}
use molia.Nat.{on_egress}
use molia.Wg.{wrap_rpc}
use molia.Nat.Budget.{IsWithin, on_egress-IsWithin}
use molia.Lookup.{Lookup}
use molia.Lookup.Batches.{IsBounded}
use molia.Sybil.Admission.{IsScored}
use molia.Node.{Reply}
use molia.Shard.{next_corr}
use molia.Shard.Context.{
  Moment, Env, Net, PendingLookup, ShardCtx, send_to, count_packet, send_plain, spend_corr,
  with_message, send_relayed, send_relay_frame, queue_wg, send_initiation, send_encapsulated,
  encapsulate_net, send_tunnel, send_direct, send_app, relay_hop, ping, ping_all, reply_peers,
  send_error, is_initiation,
}

-- A correlation number is a 32-bit number and never 0, the pool holds at most 256 buffers, and no more
-- than a fifth of what left the node was relayed, as long as the counters of 64 bits hold.
pub record IsNet {T : Type 0} (n : Net T) : Type 0 where
  pub positive : 0 < n.corr
  pub small : n.corr < u32_mod
  pub pooled : length n.pool.free ≤ pool_cap
  pub within : IsWithin n.relay.budget

-- A store all of whose records are authentic, those of the cache too.
pub record IsGenuine (c : Primitives) (s : Store) : Type 0 where
  pub stored : IsStore c s
  pub cached : All (λ p. authentic c p.1 ≡ true) s.cache

-- The record of a reply is authentic.
abbrev pub IsAnswer : Primitives → Reply → Type 0
IsAnswer c (Reply.found (some r)) = authentic c r ≡ true
IsAnswer c _ = Unit {0}

-- A lookup within its bounds, with an authentic record if it found one.
pub record IsSearch (c : Primitives) (l : Lookup) : Type 0 where
  pub bounded : IsBounded l
  pub genuine : (r : StoredRecord) → l.found_record ≡ some r → authentic c r ≡ true

pub record IsShard {T F : Type 0} (c : Primitives) (s : ShardCtx T F) : Type 0 where
  pub net : IsNet s.net
  pub table : IsTable s.table
  pub store : IsGenuine c s.store
  pub lookups : All (λ p. IsSearch c p.1.lookup) s.lookups
  pub scored : IsScored s.sybil
  pub answers : All (λ p. IsAnswer c p.1) s.replies

-- A state of the network that differs in nothing of this.
pub moved-IsNet :
    {T : Type 0}
    → (n n' : Net T) → n'.corr ≡ n.corr
    → n'.pool ≡ n.pool
    → n'.relay.budget ≡ n.relay.budget
    → IsNet n
    → IsNet n'
moved-IsNet n n' a b c v = record {
  positive = rw a v.positive;
  small = rw a v.small;
  pooled = rw b v.pooled;
  within = rw c v.within;
}

pub taken-IsNet :
    {T : Type 0} → (n : Net T) → IsNet n → IsNet (record n { pool = (take_buffer n.pool).0 })
taken-IsNet n v = record {
  positive = v.positive;
  small = v.small;
  pooled = (recycle-take_buffer n.pool (take_buffer n.pool).1 v.pooled).1;
  within = v.within;
}

pub recycled-IsNet :
    {T : Type 0}
    → (buf : Buffer) (n : Net T) → IsNet n
    → IsNet (record n { pool = recycle buf n.pool })
recycled-IsNet buf n v = record {
  positive = v.positive;
  small = v.small;
  pooled = (recycle-take_buffer n.pool buf v.pooled).2;
  within = v.within;
}

module _ {T F : Type 0} (e : Env T F) where
  pub send_to-IsNet :
      (dest : SocketAddr) (pkt : Bytes) (n : Net T) → IsNet n → IsNet (send_to e dest pkt n)
  unfolding send_to
  send_to-IsNet dest pkt n v = elim (Bool-cases (e.accepts dest pkt)) [
    | inl ok ↦ rw ok (moved-IsNet n _ refl refl refl v)
    | inr lost ↦ rw lost v
  ]

  pub count_packet-IsNet : (n : Net T) → IsNet n → IsNet (count_packet e n)
  unfolding count_packet
  count_packet-IsNet n v = moved-IsNet n _ refl refl refl v

  pub send_plain-IsNet :
      (dest : SocketAddr) (app : Bytes) (n : Net T) → IsNet n → IsNet (send_plain e dest app n)
  unfolding send_plain
  send_plain-IsNet dest app n v = elim (Bool-cases (e.accepts dest app)) [
    | inl ok ↦ rw ok (moved-IsNet n _ refl refl refl v)
    | inr lost ↦ rw lost v
  ]

  pub spend_corr-IsNet : (n : Net T) → IsNet n → IsNet (spend_corr e n)
  unfolding spend_corr next_corr
  spend_corr-IsNet n v = record {
    positive = ground (arith, v.positive);
    small = ground (arith, v.small);
    pooled = v.pooled;
    within = v.within;
  }

  pub with_message-IsNet :
      {B : Type 0}
      → (body : Body B) (header : Header) (msg : B) (deliver : Bytes → Net T → Net T) (n : Net T)
      → ((pkt : Bytes) (x : Net T) → IsNet x → IsNet (deliver pkt x))
      → IsNet n
      → IsNet (with_message e body header msg deliver n)
  unfolding with_message
  with_message-IsNet body header msg deliver n keeps v =
      elim (Option-cases (encode_message body header msg (take_buffer n.pool).1.bytes)) [
        | inl refused ↦ rw refused (recycled-IsNet _ _ (taken-IsNet n v))
        | inr ((out, len), ok) ↦ rw ok (recycled-IsNet _ _ (keeps _ _ (taken-IsNet n v)))
      ]

  pub send_relayed-IsNet :
      (hop : SocketAddr) (pkt : Bytes) (n : Net T) → IsNet n → IsNet (send_relayed e hop pkt n)
  unfolding send_relayed
  send_relayed-IsNet hop pkt n v =
      moved-IsNet (send_plain e hop pkt n) _ refl refl refl (send_plain-IsNet hop pkt n v)

  send_relay_frame-IsNet :
      (t : RoutingTable) (hop : SocketAddr) (dest : NodeId) (app : Bytes) (n : Net T)
      → IsNet n
      → IsNet (send_relay_frame e t hop dest app n)
  unfolding send_relay_frame
  send_relay_frame-IsNet t hop dest app n v = elim (Bool-cases (hop == e.local)) [
    | inl here ↦ rw here v
    | inr away ↦
        rw away (with_message-IsNet _ _ _ _ _ (send_relayed-IsNet _) (spend_corr-IsNet n v))
  ]

  pub queue_wg-IsNet :
      (dest : SocketAddr) (apps : List Bytes) (n : Net T) → IsNet n → IsNet (queue_wg e dest apps n)
  unfolding queue_wg
  queue_wg-IsNet dest apps n v = moved-IsNet n _ refl refl refl v

  pub encapsulate_net-IsNet :
      (dest : SocketAddr) (key inner : Bytes) (n : Net T)
      → IsNet n
      → IsNet (encapsulate_net e dest key inner n).0
  unfolding encapsulate_net
  encapsulate_net-IsNet dest key inner n v = moved-IsNet n _ refl refl refl v

  send_initiation-IsNet :
      (dest : SocketAddr) (r : Net T × Option Bytes) → IsNet r.0 → IsNet (send_initiation e dest r)
  unfolding send_initiation
  send_initiation-IsNet dest (n, none) v = v
  send_initiation-IsNet dest (n, some pkt) v =
      count_packet-IsNet (send_to e dest pkt n) (send_to-IsNet dest pkt n v)

  send_encapsulated-IsNet :
      (dest : SocketAddr) (key app : Bytes) (r : Net T × Option Bytes)
      → IsNet r.0
      → IsNet (send_encapsulated e dest key app r)
  unfolding send_encapsulated
  send_encapsulated-IsNet dest key app (n, some pkt) v = elim (Bool-cases (is_initiation e pkt)) [
    | inl first ↦
        rw first
          (count_packet-IsNet _ (send_to-IsNet dest pkt _ (queue_wg-IsNet dest (app ∷ []) n v)))
    | inr later ↦ rw later (count_packet-IsNet _ (send_to-IsNet dest pkt n v))
  ]
  send_encapsulated-IsNet dest key app (n, none) v =
      send_initiation-IsNet dest (encapsulate_net e dest key [] (queue_wg e dest (app ∷ []) n))
        (encapsulate_net-IsNet dest key [] _ (queue_wg-IsNet dest (app ∷ []) n v))

  send_tunnel-IsNet :
      (dest : SocketAddr) (key app : Bytes) (n : Net T)
      → IsNet n
      → IsNet (send_tunnel e dest key app n)
  unfolding send_tunnel
  send_tunnel-IsNet dest key app n v =
      recycled-IsNet _
        (send_encapsulated e dest key app (encapsulate_net e dest key (wrap_rpc app) taken))
        (send_encapsulated-IsNet dest key app (encapsulate_net e dest key (wrap_rpc app) taken)
          (encapsulate_net-IsNet dest key (wrap_rpc app) taken (taken-IsNet n v)))
    where
      taken : Net T
      taken = record n { pool = (take_buffer n.pool).0 }

  counted-IsNet :
      (len : ℕ) (n : Net T)
      → IsNet n
      → IsNet (record n { relay = record (n.relay) { budget = on_egress len n.relay.budget } })
  counted-IsNet len n v = record {
    positive = v.positive;
    small = v.small;
    pooled = v.pooled;
    within = on_egress-IsWithin len n.relay.budget v.within;
  }

  send_direct-IsNet :
      (c : ShardCtx T F) (dest : SocketAddr) (x25519 : Option Bytes) (app : Bytes) (n : Net T)
      → IsNet n
      → IsNet (send_direct e c dest x25519 app n)
  unfolding send_direct
  send_direct-IsNet c dest (some key) app n v = elim (Bool-cases e.plain) [
    | inl open_text ↦ rw open_text (send_plain-IsNet dest app _ (counted-IsNet (length app) n v))
    | inr closed ↦ rw closed (send_tunnel-IsNet dest key app _ (counted-IsNet (length app) n v))
  ]
  send_direct-IsNet c dest none app n v = elim (Option-cases (Maps.lookup dest c.keys_by_addr)) [
    | inl unknown ↦
        rw (send_direct, unknown) (send_plain-IsNet dest app _ (counted-IsNet (length app) n v))
    | inr (key, known) ↦ elim (Bool-cases e.plain) [
      | inl open_text ↦
          rw (send_direct, known, open_text)
            (send_plain-IsNet dest app _ (counted-IsNet (length app) n v))
      | inr closed ↦
          rw (send_direct, known, closed)
            (send_tunnel-IsNet dest key app _ (counted-IsNet (length app) n v))
    ]
  ]

  pub send_app-IsNet :
      (c : ShardCtx T F) (dest : SocketAddr) (x25519 : Option Bytes) (app : Bytes) (n : Net T)
      → IsNet n
      → IsNet (send_app e c dest x25519 app n)
  unfolding send_app
  send_app-IsNet c dest x25519 app n v = elim (Bool-cases (ltb pmtu_floor (length app))) [
    | inl long ↦ rw long v
    | inr short ↦ elim (Option-cases (relay_hop e c dest)) [
      | inl alone ↦ rw (short, alone) (send_direct-IsNet c dest x25519 app n v)
      | inr ((peer, hop), found) ↦
          rw (short, found) (send_relay_frame-IsNet c.table hop peer app n v)
    ]
  ]

  pub ping_all-IsNet :
      (m : Moment) (dests : List SocketAddr) (n : Net T) → IsNet n → IsNet (ping_all e m dests n)
  unfolding ping_all ping
  ping_all-IsNet m [] n v = v
  ping_all-IsNet m (dest ∷ dests) n v =
      ping_all-IsNet m dests _
        (with_message-IsNet _ _ _ _ _ (send_plain-IsNet dest) (spend_corr-IsNet n v))
