-- ===== src/Shard/Safety/Dispatch.antt =====
-- The steps of the lookups of a shard keep what holds of it.
use molia.Prelude.{
  ℕ, inl, inr, Bool, true, false, Option, none, some, List, [], ◌∷◌, if◌then◌else◌, nat_eq,
  bytes_eq, All, All-append, Bool-cases, Option-cases,
}
use molia.Prelude.Maps.{All-insert}
use molia.Types.{NodeId, Key, SocketAddr, PeerInfo, primary_addr, alpha_default}
use molia.Routing
use molia.Lookup
use molia.Lookup.{
  Lookup, LookupKind, find_node, find_value, PrivacyMode, blind, no_privacy, relay, new, next_batch,
  note_sent, retry, on_timeouts, on_closer, on_record, on_providers, contains, timed_out,
}
use molia.Shard.Context.{Moment, Env, Net, PendingLookup, ShardCtx, spend_corr}
use molia.Shard.Lookups.{
  send_query, send_probes, dispatch_peer, dispatch_peers, dispatch_lookup_batch, finish_lookup,
  start_lookup, is_blind,
}
use molia.Shard.Safety.{
  IsNet, IsSearch, IsShard, with_message-IsNet, spend_corr-IsNet, send_app-IsNet,
}
use molia.Shard.Safety.Searches.{
  new-IsSearch, next_batch-IsSearch, note_sent-IsSearch, lookup_reply-IsAnswer,
}

module _ {T F : Type 0} (e : Env T F) where
  -- The state of the network and of one lookup, while its batch is sent.
  abbrev pub IsSending : Net T × Lookup → Type 0
  IsSending s = IsNet s.0 × IsSearch e.crypto s.1

  noted-IsSearch :
      (sent : Bool) (now : ℕ) (peer : NodeId) (corr : ℕ) (l : Lookup)
      → IsSearch e.crypto l
      → IsSearch e.crypto (if sent then note_sent now peer corr l else l)
  noted-IsSearch true now peer corr l w = note_sent-IsSearch e.crypto now peer corr l w
  noted-IsSearch false now peer corr l w = w

  send_query-IsSending :
      (m : Moment) (c : ShardCtx T F) (dest : SocketAddr) (p : PeerInfo) (corr : ℕ)
      (kind : LookupKind) (s : Net T × Lookup)
      → IsSending s
      → IsSending (send_query e m c dest p corr kind s)
  unfolding send_query
  send_query-IsSending m c dest p corr find_node (n, l) (v, w) = (
    with_message-IsNet e _ _ _ _ n (send_app-IsNet e c dest p.x25519) v,
    noted-IsSearch _ m.now p.id corr l w,
  )
  send_query-IsSending m c dest p corr find_value (n, l) (v, w) = (
    with_message-IsNet e _ _ _ _ n (send_app-IsNet e c dest p.x25519) v,
    noted-IsSearch _ m.now p.id corr l w,
  )

  send_probes-IsNet :
      (c : ShardCtx T F) (dest : SocketAddr) (p : PeerInfo) (probes : List Key) (n : Net T)
      → IsNet n
      → IsNet (send_probes e c dest p probes n)
  unfolding send_probes
  send_probes-IsNet c dest p [] n v = v
  send_probes-IsNet c dest p (probe ∷ probes) n v =
      send_probes-IsNet c dest p probes _
        (with_message-IsNet e _ _ _ _ _ (send_app-IsNet e c dest p.x25519) (spend_corr-IsNet e n v))

  dispatch_peer-IsSending :
      (m : Moment) (c : ShardCtx T F) (p : PeerInfo) (s : Net T × Lookup)
      → IsSending s
      → IsSending (dispatch_peer e m c p s)
  unfolding dispatch_peer
  dispatch_peer-IsSending m c p (n, l) (v, w) = elim (Option-cases (primary_addr p)) [
    | inl nowhere ↦ rw (dispatch_peer, nowhere) (spend_corr-IsNet e n v, w)
    | inr (dest, there) ↦
        let sent = send_query e m c dest p n.corr l.kind (spend_corr e n, l) in
        let (v', w') =
          send_query-IsSending m c dest p n.corr l.kind (spend_corr e n, l)
            (spend_corr-IsNet e n v, w) in
        elim (Bool-cases (is_blind sent.1.privacy)) [
          | inl hidden ↦
              rw (dispatch_peer, there, hidden)
                (send_probes-IsNet c dest p sent.1.probe_targets sent.0 v', w')
          | inr plain ↦ rw (dispatch_peer, there, plain) (v', w')
        ]
  ]

  dispatch_peers-IsSending :
      (m : Moment) (c : ShardCtx T F) (ps : List PeerInfo) (s : Net T × Lookup)
      → IsSending s
      → IsSending (dispatch_peers e m c ps s)
  unfolding dispatch_peers
  dispatch_peers-IsSending m c [] s v = v
  dispatch_peers-IsSending m c (p ∷ ps) s v =
      dispatch_peers-IsSending m c ps _ (dispatch_peer-IsSending m c p s v)

  pub dispatch_lookup_batch-IsSending :
      (m : Moment) (c : ShardCtx T F) (l : Lookup)
      → IsNet c.net
      → IsSearch e.crypto l
      → IsSending (dispatch_lookup_batch e m c l)
  unfolding dispatch_lookup_batch
  dispatch_lookup_batch-IsSending m c l v w =
      dispatch_peers-IsSending m c (next_batch m.now l).1 (c.net, (next_batch m.now l).0)
        (v, next_batch-IsSearch e.crypto m.now l w)

  pub finish_lookup-IsShard :
      (kind : LookupKind) (l : Lookup) (reply : Option ℕ) (c : ShardCtx T F)
      → IsSearch e.crypto l
      → IsShard e.crypto c
      → IsShard e.crypto (finish_lookup e kind l reply c)
  unfolding finish_lookup
  finish_lookup-IsShard kind l none c w v = v
  finish_lookup-IsShard kind l (some tx) c w v = record {
    net = v.net;
    table = v.table;
    store = v.store;
    lookups = v.lookups;
    scored = v.scored;
    answers = All-append _ c.replies _ v.answers (lookup_reply-IsAnswer e.crypto kind l w, tt);
  }

  -- The state with another network and other lookups.
  pub searched-IsShard :
      (c : ShardCtx T F) (n : Net T) (lookups : List (ℕ × PendingLookup))
      → IsNet n
      → All (λ p. IsSearch e.crypto p.1.lookup) lookups
      → IsShard e.crypto c
      → IsShard e.crypto (record c { net = n; lookups = lookups })
  searched-IsShard c n lookups w ls v = record {
    net = w;
    table = v.table;
    store = v.store;
    lookups = ls;
    scored = v.scored;
    answers = v.answers;
  }

  pub start_lookup-IsShard :
      (m : Moment) (kind : LookupKind) (target : Key) (reply : Option ℕ) (c : ShardCtx T F)
      → IsShard e.crypto c
      → IsShard e.crypto (start_lookup e m kind target reply c)
  unfolding start_lookup
  start_lookup-IsShard m kind target reply c v = elim (Bool-cases sent.1.done) [
    | inl over ↦ rw over (
        finish_lookup-IsShard kind sent.1 reply _ good.1
          (searched-IsShard c sent.0 c.lookups good.0 v.lookups v))
    | inr going ↦ rw going (
        searched-IsShard c sent.0 _ good.0 (All-insert _ sent.0.corr _ c.lookups good.1 v.lookups)
          v)
  ]
    where
      begun : Lookup
      begun =
          Lookup.new m.now kind target (Routing.closest c.table target alpha_default)
            (if e.query_blind then blind else no_privacy)

      sent : Net T × Lookup
      sent = dispatch_lookup_batch e m c begun

      good : IsSending sent
      good =
          dispatch_lookup_batch-IsSending m c begun v.net
            (new-IsSearch e.crypto m.now kind target _ _)
