-- ===== src/Shard/Commands.antt =====
-- src/shard.rs: the commands of the clients. A channel is its number, and a reply on it is an element
-- of `replies`.
use molia.Prelude.{
  ℕ, inl, inr, false, not, ◌&&◌, Option, none, some, List, [], ◌∷◌, ◌++◌, map, length,
  if◌then◌else◌, ◌==◌, nat_eq, bytes_eq, is_some,
}
use molia.Prelude.Words.{Bytes}
use molia.Prelude.Text.{codes}
use molia.Prelude.Maps
use molia.Types.{Key, SocketAddr, addr_eq, PeerInfo, primary_addr, k_default}
use molia.Codec.{MessageType, coordination, request}
use molia.Crypto.{hash_value}
use molia.Routing
use molia.Store
use molia.Store.{StoredRecord, to_proto, immutable_record}
use molia.Peerstore.{upsert}
use molia.Erasure.{should_erasure}
use molia.Erasure
use molia.Lookup.{find_value}
use molia.Metrics.{Snapshot, incr}
use molia.Node.{Reply}
use molia.Wg.Engine.{add_peer}
use molia.Shard.Proto.{max_providers_per_chunk}
use molia.Shard.Context.{
  Moment, unix, Env, Net, ShardCtx, self_id, with_message, send_app, spend_corr, ping_all,
}
use molia.Shard.Lookups.{start_lookup}

pub data ShardCmd : Type 0 where
  bootstrap : List SocketAddr → ShardCmd
  put : Bytes → ℕ → ℕ → ShardCmd
  get : Key → ℕ → ShardCmd
  put_mutable : StoredRecord → ℕ → ShardCmd
  announce : Key → Bytes → ℕ → ShardCmd
  find_providers : Key → ℕ → ShardCmd
  inject_peer : PeerInfo → ShardCmd
  shutdown : ShardCmd

abbrev pub count_ok : Snapshot → Snapshot
count_ok s = record s { store_ok = incr s.store_ok }

abbrev pub count_reject : Snapshot → Snapshot
count_reject s = record s { store_reject = incr s.store_reject }

abbrev pub count_lookup : Snapshot → Snapshot
count_lookup s = record s { lookups = incr s.lookups }

abbrev pub count_found : Snapshot → Snapshot
count_found s = record s { lookup_ok = incr s.lookup_ok }

module _ {T F : Type 0} (e : Env T F) where
  -- The loop of `send_store_rpc` over the closest peers.
  unfoldable pub send_stores : ShardCtx T F → Bytes → List PeerInfo → Net T → Net T
  unfolding with_message spend_corr
  send_stores c encoded [] n = n
  send_stores c encoded (p ∷ ps) n = send_stores c encoded ps (elim (primary_addr p) [
    | none ↦ n
    | some dest ↦
        with_message e e.protocol.store_req_body (request MessageType.store_req coordination n.corr)
          (record { rec = encoded; admission_token = []; cost_stamp = [] })
          (send_app e c dest p.x25519) (spend_corr e n)
  ])

  unfoldable pub send_store_rpc : StoredRecord → ShardCtx T F → ShardCtx T F
  unfolding send_stores
  send_store_rpc rec c = record c {
    net =
        send_stores c (e.protocol.record_body.encoded (to_proto rec))
          (Routing.closest c.table rec.key k_default) c.net;
  }

  -- `replicate_store`: the record has the fields of an immutable one.
  unfoldable pub replicate_store : Moment → Bytes → Key → ℕ → ShardCtx T F → ShardCtx T F
  unfolding send_store_rpc
  replicate_store m value key ttl_secs c =
      send_store_rpc (record (immutable_record e.crypto (unix m) value ttl_secs) { key = key }) c

  -- The loop of `announce_rpc`.
  unfoldable pub send_announces : ShardCtx T F → Key → Bytes → List PeerInfo → Net T → Net T
  unfolding with_message spend_corr
  send_announces c key meta [] n = n
  send_announces c key meta (p ∷ ps) n = send_announces c key meta ps (elim (primary_addr p) [
    | none ↦ n
    | some dest ↦
        with_message e e.protocol.announce_req_body
          (request MessageType.announce_provider_req coordination n.corr)
          (record {
            key = key;
            self_descriptor = some (record { peer_id = self_id e; meta = meta });
            rec = [];
            admission_token = [];
            cost_stamp = [];
          })
          (send_app e c dest p.x25519) (spend_corr e n)
  ])

  unfoldable pub announce_rpc : Key → Bytes → ShardCtx T F → ShardCtx T F
  unfolding send_announces
  announce_rpc key meta c = record c {
    net = send_announces c key meta (Routing.closest c.table key k_default) c.net;
  }

  unfoldable pub answer : ℕ → Reply → ShardCtx T F → ShardCtx T F
  answer tx reply c = record c { replies = c.replies ++ (tx, reply) ∷ [] }

  unfoldable pub count : (Snapshot → Snapshot) → ShardCtx T F → ShardCtx T F
  count f c = record c { net = record (c.net) { metrics = f c.net.metrics } }

  unfoldable pub announce_here : Moment → Key → Bytes → ShardCtx T F → ShardCtx T F
  announce_here m key meta c = record c {
    store = Store.announce_provider (unix m) key (self_id e) meta c.store;
  }

  -- The store of a value that is not erasure coded.
  unfoldable pub put_value : Moment → Bytes → ℕ → ℕ → ShardCtx T F → ShardCtx T F
  unfolding replicate_store answer count
  put_value m value ttl_secs tx c =
      elim (Store.put_immutable_ttl e.crypto (unix m) value ttl_secs c.store) [
        | inr (key, store) ↦
            answer tx (Reply.key key)
              (replicate_store m value key ttl_secs (count count_ok (record c { store = store })))
        | inl reason ↦ answer tx (Reply.failure (codes "store failed")) (count count_reject c)
      ]

  -- A value that is erasure coded is announced under its hash; its shards are dropped.
  unfoldable pub put_cmd : Moment → Bytes → ℕ → ℕ → ShardCtx T F → ShardCtx T F
  unfolding put_value announce_here answer
  put_cmd m value ttl_secs tx c =
      if should_erasure (length value) && is_some (Erasure.encode e.erasure value)
      then answer tx (Reply.key (hash_value e.crypto value)) (
          announce_here m (hash_value e.crypto value)
            (codes "rs-10-4:" ++ e.print_number (length value)) c)
      else put_value m value ttl_secs tx c

  unfoldable pub get_cmd : Moment → Key → ℕ → ShardCtx T F → ShardCtx T F
  unfolding start_lookup answer count
  get_cmd m key tx c =
      let counted = count count_lookup c in
      elim (Store.get (unix m) c.store key) [
        | some r ↦ answer tx (Reply.found (some r)) (count count_found counted)
        | none ↦ start_lookup e m find_value key (some tx) counted
      ]

  unfoldable pub put_mutable_cmd : StoredRecord → ℕ → ShardCtx T F → ShardCtx T F
  unfolding send_store_rpc answer count
  put_mutable_cmd rec tx c = elim (Store.put_record e.crypto rec false c.store) [
    | inr store ↦
        answer tx (Reply.key rec.key)
          (send_store_rpc rec (count count_ok (record c { store = store })))
    | inl reason ↦ answer tx (Reply.failure (codes "mutable rejected")) (count count_reject c)
  ]

  unfoldable pub find_providers_cmd : Moment → Key → ℕ → ShardCtx T F → ShardCtx T F
  unfolding start_lookup answer
  find_providers_cmd m key tx c =
      let known = Store.providers (unix m) c.store key max_providers_per_chunk in
      if not (length known == 0)
      then answer tx (Reply.providers (map (λ p. (p.peer_id, p.meta)) known)) c
      else start_lookup e m find_value key (some tx) c

  -- The key of a peer that a client brings.
  unfoldable pub inject_key : PeerInfo → Option Bytes → ShardCtx T F → ShardCtx T F
  inject_key info none c = c
  inject_key info (some x) c = record c {
    net = record (c.net) {
      wg = (add_peer e.tunnel x (some info.id) (primary_addr info) c.net.wg).0;
    };
    keys_by_addr = elim (primary_addr info) [
      | none ↦ c.keys_by_addr
      | some addr ↦ Maps.insert addr x c.keys_by_addr
    ];
  }

  unfoldable pub inject_peer_cmd : Moment → PeerInfo → ShardCtx T F → ShardCtx T F
  unfolding inject_key
  inject_peer_cmd m info c =
      let keyed = inject_key info info.x25519 c in
      record keyed {
        table = (Routing.insert m.now keyed.table info).0;
        peers = upsert e.text info keyed.peers;
      }

  unfoldable pub handle_cmd : Moment → ShardCmd → ShardCtx T F → ShardCtx T F
  unfolding put_cmd get_cmd put_mutable_cmd find_providers_cmd inject_peer_cmd announce_rpc
      announce_here answer
  handle_cmd m (bootstrap seeds) c = record c { net = ping_all e m seeds c.net }
  handle_cmd m (inject_peer info) c = inject_peer_cmd m info c
  handle_cmd m (put value ttl_secs tx) c = put_cmd m value ttl_secs tx c
  handle_cmd m (get key tx) c = get_cmd m key tx c
  handle_cmd m (put_mutable rec tx) c = put_mutable_cmd rec tx c
  handle_cmd m (announce key meta tx) c =
      answer tx Reply.acknowledged (announce_rpc key meta (announce_here m key meta c))
  handle_cmd m (find_providers key tx) c = find_providers_cmd m key tx c
  handle_cmd m shutdown c = c
