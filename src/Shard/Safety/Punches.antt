-- ===== src/Shard/Safety/Punches.antt =====
-- Hole punching keeps what holds of a shard.
use molia.Prelude.{
  ℕ, ◌+◌, refl, inl, inr, ◌&&◌, ◌||◌, List, [], ◌∷◌, map, ltb, leb, ◌==◌, nat_eq, bytes_eq, length,
  Bool-cases, Option-cases, is_some,
}
use molia.Prelude.Words.{Bytes}
use molia.Prelude.Maps
use molia.Types.{NodeId, SocketAddr, PeerInfo, from_bytes, primary_addr}
use molia.Codec.{decode_body}
use molia.Routing
use molia.Routing.{RoutingTable}
use molia.Routing.Insert.{kept-insert}
use molia.Shard.{parse_addrs}
use molia.Shard.Proto.{PunchBody, parse_multiaddr}
use molia.Shard.Context.{Moment, Env, Net, ShardCtx, self_id, ping_all}
use molia.Shard.Holes
use molia.Shard.Safety.{
  IsNet, IsShard, moved-IsNet, with_message-IsNet, send_plain-IsNet, send_relayed-IsNet,
  ping_all-IsNet, spend_corr-IsNet,
}
use molia.Shard.Safety.Contacts.{if-IsNet, moved-IsShard, if-IsShard, sent-IsShard}

module _ {T F : Type 0} (e : Env T F) where
  burst_punch-IsShard :
      (m : Moment) (peer : NodeId) (c : ShardCtx T F)
      → IsShard e.crypto c
      → IsShard e.crypto (Holes.burst_punch e m peer c)
  unfolding Holes.burst_punch
  burst_punch-IsShard m peer c v = elim (Option-cases (Maps.lookup peer c.punches)) [
    | inl idle ↦ rw (Holes.burst_punch, idle) v
    | inr (p, there) ↦
        rw (Holes.burst_punch, there)
          (moved-IsShard e c _
            (moved-IsNet (ping_all e m p.candidates c.net) _ refl refl refl
              (ping_all-IsNet e m p.candidates c.net v.net))
            v.table refl refl refl refl v)
  ]

  send_punch_msg-IsNet :
      (hop : SocketAddr) (target : NodeId) (cands : List SocketAddr) (n : Net T)
      → IsNet n
      → IsNet (Holes.send_punch_msg e hop target cands n)
  unfolding Holes.send_punch_msg
  send_punch_msg-IsNet hop target cands n v =
      with_message-IsNet e _ _ _ _ _ (send_plain-IsNet e hop) (spend_corr-IsNet e n v)

  schedule_punch-IsShard :
      (at : ℕ) (c : ShardCtx T F)
      → IsShard e.crypto c
      → IsShard e.crypto (Holes.schedule_punch e at c)
  unfolding Holes.schedule_punch
  schedule_punch-IsShard at c v = moved-IsShard e c _ v.net v.table refl refl refl refl v

  begin_punch-IsShard :
      (m : Moment) (peer : PeerInfo) (rendezvous : SocketAddr) (c : ShardCtx T F)
      → IsShard e.crypto c
      → IsShard e.crypto (Holes.begin_punch e m peer rendezvous c)
  unfolding Holes.begin_punch
  begin_punch-IsShard m peer rendezvous c v = schedule_punch-IsShard _ _ (
      burst_punch-IsShard m peer.id _ (
        moved-IsShard e c _ (send_punch_msg-IsNet rendezvous peer.id _ c.net v.net) v.table refl
          refl refl refl v))

  pub start_punch-IsShard :
      (m : Moment) (peer : PeerInfo) (rendezvous : SocketAddr) (c : ShardCtx T F)
      → IsShard e.crypto c
      → IsShard e.crypto (Holes.start_punch e m peer rendezvous c)
  unfolding Holes.start_punch
  start_punch-IsShard m peer rendezvous c v = if-IsShard e (peer.id == self_id e) c _ v (
      if-IsShard e (Holes.is_fresh e m.now peer.id c) c _ v (
        if-IsShard e
          (is_some (Maps.lookup peer.id c.punches) || is_some (Maps.lookup peer.id c.via_relay)) c _
          v
          (if-IsShard e (length peer.addrs == 0) c _ v
            (begin_punch-IsShard m peer rendezvous c v))))

  punch_back-IsShard :
      (m : Moment) (from : NodeId) (src first : SocketAddr) (cands : List SocketAddr)
      (c : ShardCtx T F)
      → IsShard e.crypto c
      → IsShard e.crypto (Holes.punch_back e m from src first cands c)
  unfolding Holes.punch_back
  punch_back-IsShard m from src first cands c v = schedule_punch-IsShard _ _ (
      burst_punch-IsShard m from _ (
        moved-IsShard e c _ (if-IsNet _ c.net _ v.net (send_punch_msg-IsNet src from _ c.net v.net))
          (kept-insert m.now c.table _ v.table) refl refl refl refl v))

  forward_punch-IsShard :
      (target : NodeId) (p : PunchBody) (c : ShardCtx T F)
      → IsShard e.crypto c
      → IsShard e.crypto (Holes.forward_punch e target p c)
  unfolding Holes.forward_punch
  forward_punch-IsShard target p c v = elim (Option-cases (Routing.get c.table target)) [
    | inl unknown ↦ rw (Holes.forward_punch, unknown) v
    | inr (x, known) ↦ elim (Option-cases (primary_addr x.info)) [
      | inl nowhere ↦ rw (Holes.forward_punch, known, nowhere) v
      | inr (dest, there) ↦
          rw (Holes.forward_punch, known, there)
            (sent-IsShard e c _
              (with_message-IsNet e _ _ p _ _ (send_relayed-IsNet e dest)
                (spend_corr-IsNet e c.net v.net))
              v)
    ]
  ]

  pub on_punch-IsShard :
      (m : Moment) (src : SocketAddr) (pkt : Bytes) (c : ShardCtx T F)
      → IsShard e.crypto c
      → IsShard e.crypto (Holes.on_punch e m src pkt c)
  unfolding Holes.on_punch
  on_punch-IsShard m src pkt c v = elim (Option-cases (decode_body e.protocol.punch_body pkt)) [
    | inl odd ↦ rw (Holes.on_punch, odd) v
    | inr (p, read) ↦ elim (Option-cases (from_bytes p.target_id)) [
      | inl short ↦ rw (Holes.on_punch, read, short) v
      | inr (target, sized) ↦ elim (Option-cases (from_bytes p.from_id)) [
        | inl short ↦ rw (Holes.on_punch, read, sized, short) v
        | inr (from, known) ↦
            rw (Holes.on_punch, read, sized, known)
              (if-IsShard e _ _ _
                (asked-IsShard from (parse_addrs (parse_multiaddr e.text) p.candidates))
                (forward_punch-IsShard target p c v))
      ]
    ]
  ]
    where
      asked-IsShard :
          (from : NodeId) (addrs : List SocketAddr)
          → IsShard e.crypto (elim addrs [
            | [] ↦ c
            | first ∷ cands ↦ Holes.punch_back e m from src first (first ∷ cands) c
          ])
      asked-IsShard from [] = v
      asked-IsShard from (first ∷ cands) = punch_back-IsShard m from src first (first ∷ cands) c v

  give_up-IsShard :
      (now : ℕ) (peer : NodeId) (c : ShardCtx T F)
      → IsShard e.crypto c
      → IsShard e.crypto (Holes.give_up e now peer c).0
  unfolding Holes.give_up
  give_up-IsShard now peer c v = elim (Option-cases (Maps.lookup peer c.punches)) [
    | inl idle ↦ rw (Holes.give_up, idle) v
    | inr (p, there) ↦ elim (Bool-cases (leb 2 p.bursts_done && leb p.relay_at now)) [
      | inr waits ↦ rw (Holes.give_up, there, waits) v
      | inl over ↦
          let left =
            moved-IsShard e c (record c { punches = Maps.remove peer c.punches }) v.net v.table refl
              refl refl refl v in
          rw (Holes.give_up, there, over)
            (if-IsShard e _ _ _ (moved-IsShard e c _ v.net v.table refl refl refl refl v) left)
    ]
  ]

  punch_round-IsShard :
      (m : Moment) (peer : NodeId) (c : ShardCtx T F)
      → IsShard e.crypto c
      → IsShard e.crypto (Holes.punch_round e m peer c).0
  unfolding Holes.punch_round
  punch_round-IsShard m peer c v = elim (Bool-cases (Holes.is_fresh e m.now peer c)) [
    | inl answered ↦ rw answered (moved-IsShard e c _ v.net v.table refl refl refl refl v)
    | inr silent ↦ elim (Option-cases (Maps.lookup peer c.punches)) [
      | inl idle ↦ rw (Holes.punch_round, silent, idle) v
      | inr (p, there) ↦ elim (Bool-cases (ltb p.bursts_done 2 && leb p.next_burst m.now)) [
        | inl due ↦
            rw (Holes.punch_round, silent, there, due)
              (give_up-IsShard m.now peer _ (burst_punch-IsShard m peer c v))
        | inr early ↦ rw (Holes.punch_round, silent, there, early) (give_up-IsShard m.now peer c v)
      ]
    ]
  ]

  punch_rounds-IsShard :
      (m : Moment) (peers : List NodeId) (c : ShardCtx T F)
      → IsShard e.crypto c
      → IsShard e.crypto (Holes.punch_rounds e m peers c).0
  unfolding Holes.punch_rounds
  punch_rounds-IsShard m [] c v = v
  punch_rounds-IsShard m (peer ∷ peers) c v =
      punch_rounds-IsShard m peers _ (punch_round-IsShard m peer c v)

  pub on_punch_timer-IsShard :
      (m : Moment) (c : ShardCtx T F)
      → IsShard e.crypto c
      → IsShard e.crypto (Holes.on_punch_timer e m c)
  unfolding Holes.on_punch_timer
  on_punch_timer-IsShard m c v =
      let w = punch_rounds-IsShard m (map (λ p. p.0) c.punches) c v in
      if-IsShard e _ _ _ (schedule_punch-IsShard (m.now + 250) _ w) w
