-- ===== src/Shard/Safety/Steps.antt =====
-- A datagram, and the tunnel it may come through, keep what holds of a shard.
use molia.Prelude.{
  ℕ, zero, suc, refl, inl, inr, true, false, List, [], ◌∷◌, ◌==◌, nat_eq, length, Bool-cases,
  Option-cases,
}
use molia.Prelude.Words.{Bytes}
use molia.Prelude.Maps
use molia.Types.{SocketAddr, addr_eq}
use molia.Pool.{take_buffer, recycle}
use molia.Sybil.{allow_pre_handshake}
use molia.Sybil.Admission.{admitted-IsScored}
use molia.Wg.{unwrap_rpc, wrap_rpc}
use molia.Wg.Engine.{Decap, plaintext, network, cookie, dropped}
use molia.Shard.Context.{
  Moment, Env, Net, ShardCtx, send_to, count_packet, is_initiation, encapsulate_net,
}
use molia.Shard.Events
use molia.Shard.Events.{Event, received, commanded, due}
use molia.Shard.Safety.{
  IsNet, IsShard, moved-IsNet, taken-IsNet, recycled-IsNet, send_to-IsNet, count_packet-IsNet,
  send_plain-IsNet, queue_wg-IsNet, encapsulate_net-IsNet,
}
use molia.Shard.Safety.Contacts.{sent-IsShard, if-IsShard}
use molia.Shard.Safety.Frames.{handle_app-IsShard}
use molia.Shard.Safety.Orders.{count-IsShard}

module _ {T F : Type 0} (e : Env T F) where
  decap-IsShard :
      (src : SocketAddr) (pkt : Bytes) (c : ShardCtx T F)
      → IsShard e.crypto c
      → IsShard e.crypto (Events.decap e src pkt c).0
  unfolding Events.decap
  decap-IsShard src pkt c v =
      sent-IsShard e c _
        (moved-IsNet
          (record c.net { pool = recycle (take_buffer c.net.pool).1 (take_buffer c.net.pool).0 }) _
          refl refl refl
          (recycled-IsNet (take_buffer c.net.pool).1
            (record c.net { pool = (take_buffer c.net.pool).0 }) (taken-IsNet c.net v.net)))
        v

  send_to-IsShard :
      (dest : SocketAddr) (pkt : Bytes) (c : ShardCtx T F)
      → IsShard e.crypto c
      → IsShard e.crypto (record c { net = send_to e dest pkt c.net })
  send_to-IsShard dest pkt c v = sent-IsShard e c _ (send_to-IsNet e dest pkt c.net v.net) v

  drained-IsShard :
      (m : Moment) (src : SocketAddr) (r : Decap) (c : ShardCtx T F)
      → IsShard e.crypto c
      → IsShard e.crypto (Events.drained e m src r c).0
  unfolding Events.drained
  drained-IsShard m src (network pkt) c v = send_to-IsShard src pkt c v
  drained-IsShard m src (plaintext inner) c v =
      handle_app-IsShard e m src (unwrap_rpc inner) true _ (count-IsShard e Events.count_decap c v)
  drained-IsShard m src (cookie reply) c v = v
  drained-IsShard m src dropped c v = v

  drain_wg_session-IsShard :
      (fuel : ℕ) (m : Moment) (src : SocketAddr) (c : ShardCtx T F)
      → IsShard e.crypto c
      → IsShard e.crypto (Events.drain_wg_session e fuel m src c)
  unfolding Events.drain_wg_session Events.drain_round
  drain_wg_session-IsShard zero m src c v = v
  drain_wg_session-IsShard (suc fuel) m src c v =
      let w = drained-IsShard m src (Events.decap e src [] c).1 _ (decap-IsShard src [] c v) in
      if-IsShard e (Events.drain_round e m src c).1 _ _ (drain_wg_session-IsShard fuel m src _ w) w

  flush_queue-IsNet :
      (dest : SocketAddr) (key : Bytes) (apps : List Bytes) (n : Net T)
      → IsNet n
      → IsNet (Events.flush_queue e dest key apps n).0
  unfolding Events.flush_queue
  flush_queue-IsNet dest key [] n v = v
  flush_queue-IsNet dest key (app ∷ apps) n v =
      let buf = (take_buffer n.pool).1 in
      let sealed =
        encapsulate_net e dest key (wrap_rpc app) (record n { pool = (take_buffer n.pool).0 }) in
      let w = encapsulate_net-IsNet e dest key (wrap_rpc app) _ (taken-IsNet n v) in
      elim (Option-cases sealed.1) [
        | inl closed ↦ rw (Events.flush_queue, closed) (recycled-IsNet buf sealed.0 w)
        | inr (pkt, ready) ↦
            let sent = send_to-IsNet e dest pkt sealed.0 w in
            elim (Bool-cases (is_initiation e pkt)) [
              | inl first ↦
                  rw (Events.flush_queue, ready, first)
                    (recycled-IsNet buf (send_to e dest pkt sealed.0) sent)
              | inr later ↦
                  rw (Events.flush_queue, ready, later)
                    (flush_queue-IsNet dest key apps _ (
                      recycled-IsNet buf (count_packet e (send_to e dest pkt sealed.0))
                        (count_packet-IsNet e _ sent)))
            ]
      ]

  send_plains-IsNet :
      (dest : SocketAddr) (apps : List Bytes) (n : Net T)
      → IsNet n
      → IsNet (Events.send_plains e dest apps n)
  unfolding Events.send_plains
  send_plains-IsNet dest [] n v = v
  send_plains-IsNet dest (app ∷ apps) n v =
      send_plains-IsNet dest apps _ (send_plain-IsNet e dest app n v)

  flush_pending_wg-IsShard :
      (dest : SocketAddr) (c : ShardCtx T F)
      → IsShard e.crypto c
      → IsShard e.crypto (Events.flush_pending_wg e dest c)
  unfolding Events.flush_pending_wg
  flush_pending_wg-IsShard dest c v = elim (Option-cases (Maps.lookup dest c.net.pending_wg)) [
    | inl nothing ↦ rw (Events.flush_pending_wg, nothing) v
    | inr (queue, waiting) ↦
        let n = record (c.net) { pending_wg = Maps.remove dest c.net.pending_wg } in
        let w = moved-IsNet c.net n refl refl refl v.net in
        elim (Option-cases (Maps.lookup dest c.keys_by_addr)) [
          | inl keyless ↦
              rw (Events.flush_pending_wg, waiting, keyless)
                (sent-IsShard e c _ (send_plains-IsNet dest queue n w) v)
          | inr (key, keyed) ↦
              let left = (Events.flush_queue e dest key queue n).1 in
              let x = flush_queue-IsNet dest key queue n w in
              elim (Bool-cases (length left == 0)) [
                | inl all_sent ↦
                    rw (Events.flush_pending_wg, waiting, keyed, all_sent) (sent-IsShard e c _ x v)
                | inr some_left ↦
                    rw (Events.flush_pending_wg, waiting, keyed, some_left)
                      (sent-IsShard e c _ (queue_wg-IsNet e dest left _ x) v)
              ]
        ]
  ]

  decapped-IsShard :
      (fuel : ℕ) (m : Moment) (src : SocketAddr) (r : Decap) (c : ShardCtx T F)
      → IsShard e.crypto c
      → IsShard e.crypto (Events.decapped e fuel m src r c)
  unfolding Events.decapped
  decapped-IsShard fuel m src (plaintext inner) c v = flush_pending_wg-IsShard src _ (
      drain_wg_session-IsShard fuel m src _ (
        handle_app-IsShard e m src (unwrap_rpc inner) true _
          (count-IsShard e Events.count_decap c v)))
  decapped-IsShard fuel m src (network out) c v =
      flush_pending_wg-IsShard src _
        (drain_wg_session-IsShard fuel m src _ (send_to-IsShard src out c v))
  decapped-IsShard fuel m src (cookie reply) c v =
      send_to-IsShard src reply _ (count-IsShard e Events.count_cookie c v)
  decapped-IsShard fuel m src dropped c v = count-IsShard e Events.count_fail c v

  pub handle_datagram-IsShard :
      (fuel : ℕ) (m : Moment) (src : SocketAddr) (pkt : Bytes) (c : ShardCtx T F)
      → IsShard e.crypto c
      → IsShard e.crypto (Events.handle_datagram e fuel m src pkt c)
  unfolding Events.handle_datagram
  handle_datagram-IsShard fuel m src pkt c v =
      let admitted : ShardCtx T F = record c {
        sybil = (allow_pre_handshake e.floats m.now src c.sybil).0;
      } in
      let w : IsShard e.crypto admitted = record {
        net = v.net;
        table = v.table;
        store = v.store;
        lookups = v.lookups;
        scored = admitted-IsScored e.floats m.now src c.sybil v.scored;
        answers = v.answers;
      } in
      if-IsShard e _ _ _ (handle_app-IsShard e m src pkt false c v) (
        if-IsShard e _ _ _ (count-IsShard e Events.count_rate admitted w)
          (decapped-IsShard fuel m src _ _ (decap-IsShard src pkt admitted w)))
