-- ===== src/Shard/Safety/Orders.antt =====
-- Every command keeps what holds of a shard, and answers a read with an authentic record.
use molia.Prelude.{
  ℕ, refl, inl, inr, false, Option, none, some, List, [], ◌∷◌, map, nat_eq, All-append,
  Option-cases, Sum-cases,
}
use molia.Prelude.Words.{Bytes}
use molia.Prelude.Text.{codes}
use molia.Types.{Key, PeerInfo, primary_addr, k_default}
use molia.Crypto.{hash_value}
use molia.Routing
use molia.Routing.Insert.{kept-insert}
use molia.Store.{StoredRecord, put_record, put_immutable_ttl, to_proto}
use molia.Store
use molia.Lookup.{find_value}
use molia.Metrics.{Snapshot}
use molia.Node.{Reply}
use molia.Shard.Proto.{max_providers_per_chunk}
use molia.Shard.Context.{Moment, unix, Env, Net, ShardCtx}
use molia.Shard.Commands
use molia.Shard.Commands.{
  ShardCmd, bootstrap, put, get, put_mutable, announce, find_providers, inject_peer, shutdown,
}
use molia.Shard.Safety.{
  IsNet, IsGenuine, IsAnswer, IsShard, moved-IsNet, with_message-IsNet, send_app-IsNet,
  spend_corr-IsNet, ping_all-IsNet,
}
use molia.Shard.Safety.Stores.{
  put_record-IsGenuine, put_immutable-IsGenuine, announce_provider-IsGenuine, get-authentic,
}
use molia.Shard.Safety.Dispatch.{start_lookup-IsShard}
use molia.Shard.Safety.Contacts.{moved-IsShard, sent-IsShard, if-IsShard}

module _ {T F : Type 0} (e : Env T F) where
  send_stores-IsNet :
      (c : ShardCtx T F) (encoded : Bytes) (ps : List PeerInfo) (n : Net T)
      → IsNet n
      → IsNet (Commands.send_stores e c encoded ps n)
  unfolding Commands.send_stores
  send_stores-IsNet c encoded [] n v = v
  send_stores-IsNet c encoded (p ∷ ps) n v = elim (Option-cases (primary_addr p)) [
    | inl nowhere ↦ rw (Commands.send_stores, nowhere) (send_stores-IsNet c encoded ps n v)
    | inr (dest, there) ↦
        rw (Commands.send_stores, there)
          (send_stores-IsNet c encoded ps _ (
            with_message-IsNet e _ _ _ _ _ (send_app-IsNet e c dest p.x25519)
              (spend_corr-IsNet e n v)))
  ]

  send_announces-IsNet :
      (c : ShardCtx T F) (key : Key) (meta : Bytes) (ps : List PeerInfo) (n : Net T)
      → IsNet n
      → IsNet (Commands.send_announces e c key meta ps n)
  unfolding Commands.send_announces
  send_announces-IsNet c key meta [] n v = v
  send_announces-IsNet c key meta (p ∷ ps) n v = elim (Option-cases (primary_addr p)) [
    | inl nowhere ↦ rw (Commands.send_announces, nowhere) (send_announces-IsNet c key meta ps n v)
    | inr (dest, there) ↦
        rw (Commands.send_announces, there)
          (send_announces-IsNet c key meta ps _ (
            with_message-IsNet e _ _ _ _ _ (send_app-IsNet e c dest p.x25519)
              (spend_corr-IsNet e n v)))
  ]

  send_store_rpc-IsShard :
      (rec : StoredRecord) (c : ShardCtx T F)
      → IsShard e.crypto c
      → IsShard e.crypto (Commands.send_store_rpc e rec c)
  unfolding Commands.send_store_rpc
  send_store_rpc-IsShard rec c v =
      sent-IsShard e c _
        (send_stores-IsNet c _ (Routing.closest c.table rec.key k_default) c.net v.net) v

  answer-IsShard :
      (tx : ℕ) (reply : Reply) (c : ShardCtx T F)
      → IsAnswer e.crypto reply
      → IsShard e.crypto c
      → IsShard e.crypto (Commands.answer e tx reply c)
  unfolding Commands.answer
  answer-IsShard tx reply c ok v = record {
    net = v.net;
    table = v.table;
    store = v.store;
    lookups = v.lookups;
    scored = v.scored;
    answers = All-append _ c.replies _ v.answers (ok, tt);
  }

  pub count-IsShard :
      (f : Snapshot → Snapshot) (c : ShardCtx T F)
      → IsShard e.crypto c
      → IsShard e.crypto (Commands.count e f c)
  unfolding Commands.count
  count-IsShard f c v = sent-IsShard e c _ (moved-IsNet c.net _ refl refl refl v.net) v

  -- The state with another store.
  pub stored-IsShard :
      (c : ShardCtx T F) (s : Store.Store)
      → IsGenuine e.crypto s
      → IsShard e.crypto c
      → IsShard e.crypto (record c { store = s })
  stored-IsShard c s w v = record {
    net = v.net;
    table = v.table;
    store = w;
    lookups = v.lookups;
    scored = v.scored;
    answers = v.answers;
  }

  announce_here-IsShard :
      (m : Moment) (key : Key) (meta : Bytes) (c : ShardCtx T F)
      → IsShard e.crypto c
      → IsShard e.crypto (Commands.announce_here e m key meta c)
  unfolding Commands.announce_here
  announce_here-IsShard m key meta c v =
      stored-IsShard c _ (announce_provider-IsGenuine e.crypto (unix m) key _ meta c.store v.store)
        v

  replicate_store-IsShard :
      (m : Moment) (value : Bytes) (key : Key) (ttl_secs : ℕ) (c : ShardCtx T F)
      → IsShard e.crypto c
      → IsShard e.crypto (Commands.replicate_store e m value key ttl_secs c)
  unfolding Commands.replicate_store
  replicate_store-IsShard m value key ttl_secs c v = send_store_rpc-IsShard _ c v

  put_value-IsShard :
      (m : Moment) (value : Bytes) (ttl_secs tx : ℕ) (c : ShardCtx T F)
      → IsShard e.crypto c
      → IsShard e.crypto (Commands.put_value e m value ttl_secs tx c)
  unfolding Commands.put_value
  put_value-IsShard m value ttl_secs tx c v =
      elim (Sum-cases (put_immutable_ttl e.crypto (unix m) value ttl_secs c.store)) [
        | inl (reason, refused) ↦
            rw (Commands.put_value, refused)
              (answer-IsShard tx (Reply.failure (codes "store failed")) _ tt
                (count-IsShard Commands.count_reject c v))
        | inr ((key, store), stored) ↦
            rw (Commands.put_value, stored)
              (answer-IsShard tx (Reply.key key) _ tt (
                replicate_store-IsShard m value key ttl_secs _ (
                  count-IsShard Commands.count_ok _ (
                    stored-IsShard c store
                      (put_immutable-IsGenuine e.crypto (unix m) value ttl_secs c.store store key
                        v.store stored)
                      v))))
      ]

  announce_rpc-IsShard :
      (key : Key) (meta : Bytes) (c : ShardCtx T F)
      → IsShard e.crypto c
      → IsShard e.crypto (Commands.announce_rpc e key meta c)
  unfolding Commands.announce_rpc
  announce_rpc-IsShard key meta c v =
      sent-IsShard e c _
        (send_announces-IsNet c key meta (Routing.closest c.table key k_default) c.net v.net) v

  put_cmd-IsShard :
      (m : Moment) (value : Bytes) (ttl_secs tx : ℕ) (c : ShardCtx T F)
      → IsShard e.crypto c
      → IsShard e.crypto (Commands.put_cmd e m value ttl_secs tx c)
  unfolding Commands.put_cmd
  put_cmd-IsShard m value ttl_secs tx c v =
      if-IsShard e _ _ _
        (answer-IsShard tx (Reply.key (hash_value e.crypto value)) _ tt
          (announce_here-IsShard m (hash_value e.crypto value) _ c v))
        (put_value-IsShard m value ttl_secs tx c v)

  get_cmd-IsShard :
      (m : Moment) (key : Key) (tx : ℕ) (c : ShardCtx T F)
      → IsShard e.crypto c
      → IsShard e.crypto (Commands.get_cmd e m key tx c)
  unfolding Commands.get_cmd
  get_cmd-IsShard m key tx c v = elim (Option-cases (Store.get (unix m) c.store key)) [
    | inl absent ↦
        rw (Commands.get_cmd, absent)
          (start_lookup-IsShard e m find_value key (some tx) _
            (count-IsShard Commands.count_lookup c v))
    | inr (r, there) ↦
        rw (Commands.get_cmd, there)
          (answer-IsShard tx (Reply.found (some r)) _
            (get-authentic e.crypto (unix m) c.store key r v.store there)
            (count-IsShard Commands.count_found _ (count-IsShard Commands.count_lookup c v)))
  ]

  put_mutable_cmd-IsShard :
      (rec : StoredRecord) (tx : ℕ) (c : ShardCtx T F)
      → IsShard e.crypto c
      → IsShard e.crypto (Commands.put_mutable_cmd e rec tx c)
  unfolding Commands.put_mutable_cmd
  put_mutable_cmd-IsShard rec tx c v = elim (Sum-cases (put_record e.crypto rec false c.store)) [
    | inl (reason, refused) ↦
        rw (Commands.put_mutable_cmd, refused)
          (answer-IsShard tx (Reply.failure (codes "mutable rejected")) _ tt
            (count-IsShard Commands.count_reject c v))
    | inr (store, stored) ↦
        rw (Commands.put_mutable_cmd, stored)
          (answer-IsShard tx (Reply.key rec.key) _ tt (
            send_store_rpc-IsShard rec _ (
              count-IsShard Commands.count_ok _ (
                stored-IsShard c store
                  (put_record-IsGenuine e.crypto rec false c.store store v.store stored) v))))
  ]

  find_providers_cmd-IsShard :
      (m : Moment) (key : Key) (tx : ℕ) (c : ShardCtx T F)
      → IsShard e.crypto c
      → IsShard e.crypto (Commands.find_providers_cmd e m key tx c)
  unfolding Commands.find_providers_cmd
  find_providers_cmd-IsShard m key tx c v =
      let known = Store.providers (unix m) c.store key max_providers_per_chunk in
      if-IsShard e _ _ _
        (answer-IsShard tx (Reply.providers (map (λ p. (p.peer_id, p.meta)) known)) c tt v)
        (start_lookup-IsShard e m find_value key (some tx) c v)

  inject_key-IsShard :
      (info : PeerInfo) (x : Option Bytes) (c : ShardCtx T F)
      → IsShard e.crypto c
      → IsShard e.crypto (Commands.inject_key e info x c)
  unfolding Commands.inject_key
  inject_key-IsShard info none c v = v
  inject_key-IsShard info (some x) c v =
      moved-IsShard e c _ (moved-IsNet c.net _ refl refl refl v.net) v.table refl refl refl refl v

  inject_peer_cmd-IsShard :
      (m : Moment) (info : PeerInfo) (c : ShardCtx T F)
      → IsShard e.crypto c
      → IsShard e.crypto (Commands.inject_peer_cmd e m info c)
  unfolding Commands.inject_peer_cmd
  inject_peer_cmd-IsShard m info c v =
      let keyed = Commands.inject_key e info info.x25519 c in
      let w = inject_key-IsShard info info.x25519 c v in
      moved-IsShard e keyed _ w.net (kept-insert m.now keyed.table info w.table) refl refl refl refl
        w

  pub handle_cmd-IsShard :
      (m : Moment) (cmd : ShardCmd) (c : ShardCtx T F)
      → IsShard e.crypto c
      → IsShard e.crypto (Commands.handle_cmd e m cmd c)
  unfolding Commands.handle_cmd
  handle_cmd-IsShard m (bootstrap seeds) c v =
      sent-IsShard e c _ (ping_all-IsNet e m seeds c.net v.net) v
  handle_cmd-IsShard m (inject_peer info) c v = inject_peer_cmd-IsShard m info c v
  handle_cmd-IsShard m (put value ttl_secs tx) c v = put_cmd-IsShard m value ttl_secs tx c v
  handle_cmd-IsShard m (get key tx) c v = get_cmd-IsShard m key tx c v
  handle_cmd-IsShard m (put_mutable rec tx) c v = put_mutable_cmd-IsShard rec tx c v
  handle_cmd-IsShard m (announce key meta tx) c v =
      let w = announce_here-IsShard m key meta c v in
      answer-IsShard tx Reply.acknowledged _ tt (announce_rpc-IsShard key meta _ w)
  handle_cmd-IsShard m (find_providers key tx) c v = find_providers_cmd-IsShard m key tx c v
  handle_cmd-IsShard m shutdown c v = v
