-- ===== src/Shard/Lookups.antt =====
-- src/shard.rs: the lookups of a shard. A lookup is started by a command, asks the peers of each batch,
-- and ends by a reply on the channel of the client.
pub mod Sweeping
pub mod Liveness
use molia.Prelude.{
  ℕ, zero, suc, ◌+◌, ◌≡◌, Bool, true, false, not, ◌&&◌, ◌||◌, Option, none, some, List, [], ◌∷◌,
  ◌++◌, map, length, any, find, if◌then◌else◌, ltb, leb, ◌==◌, Eq, nat_eq, bytes_eq, is_some,
  replicate,
}
use Prim.Native.Nat.{bit_or}
use molia.Prelude.Words.{Bytes}
use molia.Prelude.Maps
use molia.Types.{NodeId, Key, SocketAddr, PeerInfo, addr_eq, primary_addr, alpha_default, k_default}
use molia.Codec.{Header, MessageType, coordination, hints, request, flag_probe}
use molia.Routing
use molia.Lookup.{
  Lookup, LookupKind, find_node, find_value, PrivacyMode, blind, no_privacy, relay, next_batch,
  note_sent, on_closer, finish_peers,
}
use molia.Lookup
use molia.Metrics.{incr}
use molia.Node.{Reply}
use molia.Shard.Proto
use molia.Shard.Context.{
  Moment, Env, Net, PendingLookup, ShardCtx, all_peers, with_message, is_encoded, send_app,
  spend_corr,
}

-- `NodeId([0; 32])`.
abbrev pub zero_id : NodeId
zero_id = replicate 32 0

-- `lookup.privacy == PrivacyMode::Blind`.
unfoldable pub is_blind : PrivacyMode → Bool
is_blind blind = true
is_blind no_privacy = false
is_blind relay = false

-- What `finish_lookup` sends.
unfoldable pub lookup_reply : LookupKind → Lookup → Reply
lookup_reply find_node l = Reply.peers (finish_peers l)
lookup_reply find_value l = elim l.found_record [
  | some r ↦ Reply.found (some r)
  | none ↦ if not (length l.providers == 0) then Reply.providers l.providers else Reply.value none
]

-- `find_lookup_mut`, and a change of the lookup that it finds.
unfoldable pub has_corr : ℕ → PendingLookup → Bool
has_corr corr p = any (λ q. q.correlation == corr) p.lookup.in_flight

unfoldable pub update_lookup :
    ℕ → (Lookup → Lookup) → List (ℕ × PendingLookup) → List (ℕ × PendingLookup)
unfolding has_corr
update_lookup corr f [] = []
update_lookup corr f (p ∷ ps) =
    if has_corr corr p.1
    then (p.0, record (p.1) { lookup = f p.1.lookup }) ∷ ps
    else p ∷ update_lookup corr f ps

module _ {T F : Type 0} (e : Env T F) where
  abbrev find_node_query : Lookup → Proto.FindNodeReq
  find_node_query l = record { target_id = l.target; limit = k_default }

  abbrev find_value_query : Lookup → Proto.FindValueReq
  find_value_query l = record { key = l.target; provider_limit = 16 }

  -- The query to one peer of a batch; it is noted if it was encoded.
  unfoldable pub send_query :
      Moment
      → ShardCtx T F
      → SocketAddr
      → PeerInfo
      → ℕ
      → LookupKind
      → Net T × Lookup
      → Net T × Lookup
  unfolding with_message is_encoded
  send_query m c dest p corr find_node (n, l) =
      let header = request MessageType.find_node_req coordination corr in
      let body = e.protocol.find_node_req_body in
      (
        with_message e body header (find_node_query l) (send_app e c dest p.x25519) n,
        (if is_encoded e body header (find_node_query l) n then note_sent m.now p.id corr l else l),
      )
  send_query m c dest p corr find_value (n, l) =
      let header = request MessageType.find_value_req coordination corr in
      let body = e.protocol.find_value_req_body in
      (
        with_message e body header (find_value_query l) (send_app e c dest p.x25519) n,
        (if is_encoded e body header (find_value_query l) n
            then note_sent m.now p.id corr l
            else l),
      )

  -- The queries for the neighbours of the target, which hide it.
  unfoldable pub send_probes : ShardCtx T F → SocketAddr → PeerInfo → List Key → Net T → Net T
  unfolding with_message spend_corr
  send_probes c dest p [] n = n
  send_probes c dest p (probe ∷ probes) n =
      let plain = request MessageType.find_value_req hints n.corr in
      send_probes c dest p probes (
        with_message e e.protocol.find_value_req_body
          (record plain { flags = bit_or plain.flags flag_probe })
          (record { key = probe; provider_limit = 1 }) (send_app e c dest p.x25519)
          (spend_corr e n))

  -- One round of `dispatch_lookup_batch`: a correlation number is spent also on a peer without an
  -- address.
  unfoldable pub dispatch_peer : Moment → ShardCtx T F → PeerInfo → Net T × Lookup → Net T × Lookup
  unfolding send_query send_probes spend_corr is_blind
  dispatch_peer m c p (n, l) = elim (primary_addr p) [
    | none ↦ (spend_corr e n, l)
    | some dest ↦
        let (n', l') = send_query m c dest p n.corr l.kind (spend_corr e n, l) in
        ((if is_blind l'.privacy then send_probes c dest p l'.probe_targets n' else n'), l')
  ]

  unfoldable pub dispatch_peers :
      Moment → ShardCtx T F → List PeerInfo → Net T × Lookup → Net T × Lookup
  unfolding dispatch_peer
  dispatch_peers m c [] s = s
  dispatch_peers m c (p ∷ ps) s = dispatch_peers m c ps (dispatch_peer m c p s)

  unfoldable pub dispatch_lookup_batch : Moment → ShardCtx T F → Lookup → Net T × Lookup
  unfolding dispatch_peers
  dispatch_lookup_batch m c l =
      let (l', batch) = next_batch m.now l in dispatch_peers m c batch (c.net, l')

  unfoldable pub finish_lookup : LookupKind → Lookup → Option ℕ → ShardCtx T F → ShardCtx T F
  unfolding lookup_reply
  finish_lookup kind l none c = c
  finish_lookup kind l (some tx) c = record c {
    replies = c.replies ++ (tx, lookup_reply kind l) ∷ [];
  }

  unfoldable pub start_lookup : Moment → LookupKind → Key → Option ℕ → ShardCtx T F → ShardCtx T F
  unfolding dispatch_lookup_batch finish_lookup
  start_lookup m kind target reply c =
      let seeds = Routing.closest c.table target alpha_default in
      let (n, l) =
        dispatch_lookup_batch m c
          (Lookup.new m.now kind target seeds (if e.query_blind then blind else no_privacy)) in
      let c' = record c { net = n } in
      if l.done then finish_lookup kind l reply c' else record c' {
        lookups = Maps.insert n.corr (record { lookup = l; reply = reply }) c.lookups;
      }

  unfoldable pub sweep_one : Moment → ℕ → ShardCtx T F → ShardCtx T F
  unfolding dispatch_lookup_batch finish_lookup
  sweep_one m id c = elim (Maps.lookup id c.lookups) [
    | none ↦ c
    | some pend ↦
        let (n, l) = dispatch_lookup_batch m c pend.lookup in
        let left = record c { net = n; lookups = Maps.remove id c.lookups } in
        if l.done
        then finish_lookup l.kind l pend.reply (
            if is_some l.found_record
            then record left {
              net = record n {
                metrics = record (n.metrics) { lookup_ok = incr n.metrics.lookup_ok };
              };
            }
            else left)
        else record left {
          lookups = Maps.insert id (record pend { lookup = l }) (Maps.remove id c.lookups);
        }
  ]

  unfoldable pub sweep_ids : Moment → List ℕ → ShardCtx T F → ShardCtx T F
  unfolding sweep_one
  sweep_ids m [] c = c
  sweep_ids m (id ∷ ids) c = sweep_ids m ids (sweep_one m id c)

  unfoldable pub sweep_lookups : Moment → ShardCtx T F → ShardCtx T F
  unfolding sweep_ids
  sweep_lookups m c = sweep_ids m (map (λ p. p.0) c.lookups) c

  -- The first peer of the table with this address is taken for the one that answered.
  unfoldable pub responder : ShardCtx T F → SocketAddr → NodeId
  responder c src =
      elim (find (λ x. elim (primary_addr x.info) [ none ↦ false | some a ↦ a == src ])
        (all_peers c.table)) [ none ↦ zero_id | some x ↦ Routing.id x ]

  unfoldable pub complete_closer :
      Moment → ℕ → SocketAddr → List PeerInfo → ShardCtx T F → ShardCtx T F
  unfolding responder update_lookup sweep_lookups
  complete_closer m corr src peers c =
      let from = responder c src in
      sweep_lookups m
        (record c { lookups = update_lookup corr (on_closer from peers 50000) c.lookups })
