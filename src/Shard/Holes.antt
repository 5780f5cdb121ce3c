-- ===== src/Shard/Holes.antt =====
-- src/shard.rs: hole punching.
pub mod Rounds
pub mod Timer
use molia.Prelude.{
  ℕ, zero, suc, ◌+◌, ◌≡◌, min, Bool, true, false, not, ◌&&◌, ◌||◌, Option, none, some, List, [],
  ◌∷◌, ◌++◌, map, length, if◌then◌else◌, ltb, leb, ◌==◌, Eq, nat_eq, bytes_eq, is_some,
}
use molia.Prelude.Words.{Bytes}
use molia.Prelude.Maps
use molia.Types.{NodeId, SocketAddr, PeerInfo, from_bytes, new_peer, primary_addr}
use molia.Codec.{MessageType, control, request, decode_body}
use molia.Routing
use molia.Nat.{fresh, punch_deadlines, candidates}
use molia.Timers
use molia.Timers.{TimerKind}
use molia.Metrics.{incr, add}
use molia.Shard.{PunchAttempt, parse_addrs, push_addrs}
use molia.Shard.Proto.{PunchBody, encode_addrs, parse_multiaddr}
use molia.Shard.Context.{
  Moment, Env, Net, ShardCtx, self_id, with_message, send_plain, send_relayed, spend_corr, ping_all,
}

module _ {T F : Type 0} (e : Env T F) where
  unfoldable pub our_candidates : ShardCtx T F → List SocketAddr
  our_candidates c = candidates e.local c.mapped

  unfoldable pub is_fresh : ℕ → NodeId → ShardCtx T F → Bool
  is_fresh now peer c = elim (Maps.lookup peer c.endpoints) [ none ↦ false | some h ↦ fresh now h ]

  unfoldable pub send_punch_msg : SocketAddr → NodeId → List SocketAddr → Net T → Net T
  unfolding with_message send_plain spend_corr
  send_punch_msg hop target cands n =
      with_message e e.protocol.punch_body (request MessageType.punch control n.corr)
        (record { target_id = target; from_id = self_id e; candidates = encode_addrs e.text cands })
        (send_plain e hop) (spend_corr e n)

  unfoldable pub count_punch : Net T → Net T
  count_punch n = record n { metrics = record (n.metrics) { punch_ok = incr n.metrics.punch_ok } }

  -- `saturating_add(1)` on a byte.
  unfoldable pub burst_punch : Moment → NodeId → ShardCtx T F → ShardCtx T F
  unfolding punch_deadlines count_punch
  burst_punch m peer c = elim (Maps.lookup peer c.punches) [
    | none ↦ c
    | some p ↦ record c {
      net = count_punch (ping_all e m p.candidates c.net);
      punches =
          Maps.insert peer
            (record p {
              bursts_done = min (p.bursts_done + 1) 255;
              next_burst = (punch_deadlines m.now).0;
            })
            c.punches;
    }
  ]

  unfoldable pub new_attempt : ℕ → NodeId → List SocketAddr → SocketAddr → PunchAttempt
  new_attempt now peer cands rendezvous = record {
    peer = peer;
    candidates = cands;
    rendezvous = rendezvous;
    bursts_done = 0;
    next_burst = now;
    relay_at = (punch_deadlines now).1 + 250;
    replied = false;
  }

  unfoldable pub schedule_punch : ℕ → ShardCtx T F → ShardCtx T F
  schedule_punch at c = record c { timers = Timers.schedule at TimerKind.punch c.timers }

  -- The end of `start_punch`: an attempt, its announcement at the rendezvous, and the first burst.
  unfoldable pub begin_punch : Moment → PeerInfo → SocketAddr → ShardCtx T F → ShardCtx T F
  unfolding burst_punch new_attempt schedule_punch send_punch_msg our_candidates
  begin_punch m peer rendezvous c = schedule_punch (punch_deadlines m.now).0 (
      burst_punch m peer.id (record c {
        punches = Maps.insert peer.id (new_attempt m.now peer.id peer.addrs rendezvous) c.punches;
        net = send_punch_msg rendezvous peer.id (our_candidates c) c.net;
      }))

  unfoldable pub start_punch : Moment → PeerInfo → SocketAddr → ShardCtx T F → ShardCtx T F
  unfolding is_fresh begin_punch
  start_punch m peer rendezvous c =
      if peer.id == self_id e
      then c
      else if is_fresh m.now peer.id c
      then c
      else if is_some (Maps.lookup peer.id c.punches) || is_some (Maps.lookup peer.id c.via_relay)
      then c
      else if length peer.addrs == 0
      then c
      else begin_punch m peer rendezvous c

  -- The contact that a request to punch describes, with the candidates added.
  unfoldable pub punched_contact : ShardCtx T F → NodeId → SocketAddr → List SocketAddr → PeerInfo
  punched_contact c from first cands =
      push_addrs (elim (Routing.get c.table from) [ none ↦ new_peer from first | some x ↦ x.info ])
        cands

  unfoldable pub attempt_of :
      ℕ → NodeId → SocketAddr → List SocketAddr → ShardCtx T F → PunchAttempt
  unfolding new_attempt
  attempt_of now from src cands c = elim (Maps.lookup from c.punches) [
    | none ↦ new_attempt now from cands src
    | some p ↦ p
  ]

  -- A request to punch that is for this node: the candidates are taken over, a first request is
  -- answered by our candidates, and every candidate is pinged.
  unfoldable pub punch_back :
      Moment → NodeId → SocketAddr → SocketAddr → List SocketAddr → ShardCtx T F → ShardCtx T F
  unfolding punched_contact attempt_of send_punch_msg our_candidates burst_punch schedule_punch
  punch_back m from src first cands c =
      let known = record c {
        table = (Routing.insert m.now c.table (punched_contact c from first cands)).0;
      } in
      let attempt = attempt_of m.now from src cands known in
      let asked = record known {
        punches =
            Maps.insert from
              (record attempt { candidates = cands; rendezvous = src; replied = true }) c.punches;
        net =
            if attempt.replied then c.net else send_punch_msg src from (our_candidates known) c.net;
      } in
      schedule_punch (punch_deadlines m.now).0 (burst_punch m from asked)

  -- A request to punch that is for another peer goes to its address, if the table has it.
  unfoldable pub forward_punch : NodeId → PunchBody → ShardCtx T F → ShardCtx T F
  unfolding with_message send_relayed spend_corr
  forward_punch target p c = elim (Routing.get c.table target) [
    | none ↦ c
    | some x ↦ elim (primary_addr x.info) [
      | none ↦ c
      | some dest ↦ record c {
        net =
            with_message e e.protocol.punch_body (request MessageType.punch control c.net.corr) p
              (send_relayed e dest) (spend_corr e c.net);
      }
    ]
  ]

  unfoldable pub on_punch : Moment → SocketAddr → Bytes → ShardCtx T F → ShardCtx T F
  unfolding punch_back forward_punch
  on_punch m src pkt c = elim (decode_body e.protocol.punch_body pkt) [
    | none ↦ c
    | some p ↦ elim (from_bytes p.target_id) [
      | none ↦ c
      | some target ↦ elim (from_bytes p.from_id) [
        | none ↦ c
        | some from ↦
            if target == self_id e
            then elim (parse_addrs (parse_multiaddr e.text) p.candidates) [
              | [] ↦ c
              | first ∷ cands ↦ punch_back m from src first (first ∷ cands) c
            ]
            else forward_punch target p c
      ]
    ]
  ]

  -- The end of a round of `on_punch_timer`: the fall-back to the relay, or another round.
  unfoldable pub give_up : ℕ → NodeId → ShardCtx T F → ShardCtx T F × Bool
  give_up now peer c = elim (Maps.lookup peer c.punches) [
    | none ↦ (c, false)
    | some p ↦
        if leb 2 p.bursts_done && leb p.relay_at now
        then (
          (let left = record c { punches = Maps.remove peer c.punches } in
              if c.net.relay.enabled || is_some (Routing.get c.table peer)
              then record left { via_relay = Maps.insert peer p.rendezvous c.via_relay }
              else left),
          false,
        )
        else (c, true)
  ]

  unfoldable pub punch_round : Moment → NodeId → ShardCtx T F → ShardCtx T F × Bool
  unfolding is_fresh burst_punch give_up
  punch_round m peer c =
      if is_fresh m.now peer c
      then (
        record c { punches = Maps.remove peer c.punches; via_relay = Maps.remove peer c.via_relay },
        false,
      )
      else elim (Maps.lookup peer c.punches) [
        | none ↦ (c, false)
        | some p ↦
            if ltb p.bursts_done 2 && leb p.next_burst m.now
            then ((give_up m.now peer (burst_punch m peer c)).0, true)
            else give_up m.now peer c
      ]

  unfoldable pub punch_rounds : Moment → List NodeId → ShardCtx T F → ShardCtx T F × Bool
  unfolding punch_round
  punch_rounds m [] c = (c, false)
  punch_rounds m (peer ∷ peers) c =
      let (c', again) = punch_round m peer c in
      let (c'', later) = punch_rounds m peers c' in (c'', again || later)

  unfoldable pub on_punch_timer : Moment → ShardCtx T F → ShardCtx T F
  unfolding punch_rounds schedule_punch
  on_punch_timer m c =
      let (c', again) = punch_rounds m (map (λ p. p.0) c.punches) c in
      if again then schedule_punch (m.now + 250) c' else c'
