-- ===== src/Lookup.antt =====
-- src/lookup.rs: the iterative lookup. Times are milliseconds on a clock that only grows; `now` is an
-- argument where the code reads the clock.
pub mod Batches
pub mod Progress
use Prim.Native.Nat.{bit_xor}
use molia.Prelude.{
  ℕ, zero, suc, ◌+◌, ◌-◌, ◌*◌, ◌≡◌, min, max, Bool, true, false, not, ◌&&◌, ◌||◌, Option, none,
  some, List, [], ◌∷◌, ◌++◌, map, length, get_or, set, take, retain, any, all, if◌then◌else◌, ltb,
  leb, ◌==◌, Eq, nat_eq, bytes_eq, list_beq,
}
use molia.Prelude.Words.{Bytes}
use molia.Prelude.Sort.{sort_by}
use molia.Types.{NodeId, Key, PeerInfo, alpha_default, alpha_max, alpha_min, k_default}
use molia.Routing.{closer}
use molia.Store.{StoredRecord}
use molia.Pool.{LookupArena, alloc, reset}

pub data LookupKind : Type 0 where
  find_node : LookupKind
  find_value : LookupKind

pub data PrivacyMode : Type 0 where
  no_privacy : PrivacyMode
  blind : PrivacyMode
  relay : PrivacyMode

-- A query that waits for its answer: the peer, the correlation and the time it was sent.
pub record Query : Type 0 where
  pub peer : NodeId
  pub correlation : ℕ
  pub sent : ℕ

-- `queried` and `retries` are sets, kept as lists.
pub record Lookup : Type 0 where
  pub kind : LookupKind
  pub target : Key
  pub privacy : PrivacyMode
  pub k : ℕ
  pub alpha : ℕ
  pub started : ℕ
  pub budget : ℕ
  pub queried : List NodeId
  pub in_flight : List Query
  pub shortlist : List PeerInfo
  pub best : List NodeId
  pub found_record : Option StoredRecord
  pub providers : List (NodeId × Bytes)
  pub retries : List NodeId
  pub done : Bool
  pub probe_targets : List Key

-- `HashSet::contains`.
abbrev pub contains : NodeId → List NodeId → Bool
contains peer set = any (λ j. j == peer) set

abbrev pub sort_shortlist : List PeerInfo → Key → List PeerInfo
sort_shortlist list target = sort_by (closer target) list

-- The last bit of the last byte, and of the byte before it, are flipped.
unfoldable pub neighbor_probes : Key → List Key
neighbor_probes target =
    set target 31 (bit_xor (get_or target 31 0) 1)
    ∷ set target 30 (bit_xor (get_or target 30 0) 1)
    ∷ []

unfoldable pub new : ℕ → LookupKind → Key → List PeerInfo → PrivacyMode → Lookup
new now kind target seeds privacy = record {
  kind = kind;
  target = target;
  privacy = privacy;
  k = k_default;
  alpha = alpha_default;
  started = now;
  budget = 1500;
  queried = [];
  in_flight = [];
  shortlist = sort_shortlist seeds target;
  best = [];
  found_record = none;
  providers = [];
  retries = [];
  done = false;
  probe_targets = elim privacy [ no_privacy ↦ [] | blind ↦ neighbor_probes target | relay ↦ [] ];
}

-- The loop over the shortlist, which is left at the first candidate for which there is no room. The
-- batch has 8 places, as `try_push` tests.
unfoldable pub fill_batch : Lookup → List PeerInfo → List PeerInfo → List PeerInfo
fill_batch l [] batch = batch
fill_batch l (p ∷ ps) batch =
    let skipped = fill_batch l ps batch in
    let pushed = fill_batch l ps (if ltb (length batch) 8 then batch ++ p ∷ [] else batch) in
    if contains p.id l.queried
    then skipped
    else if any (λ q. q.peer == p.id) l.in_flight
    then skipped
    else if leb l.alpha (length batch + length l.in_flight)
    then batch
    else pushed

unfoldable pub next_batch : ℕ → Lookup → Lookup × List PeerInfo
unfolding fill_batch
next_batch now l =
    if l.done || leb l.budget (now - l.started)
    then (record l { done = true }, [])
    else (let batch = fill_batch l l.shortlist [] in
        if length batch == 0 && length l.in_flight == 0
        then (record l { done = true }, batch)
        else (l, batch))

-- `HashSet::insert`.
unfoldable pub insert_id : NodeId → List NodeId → List NodeId
insert_id peer set = if contains peer set then set else peer ∷ set

unfoldable pub note_sent : ℕ → NodeId → ℕ → Lookup → Lookup
unfolding insert_id
note_sent now peer correlation l = record l {
  queried = insert_id peer l.queried;
  in_flight =
      if ltb (length l.in_flight) 8
      then l.in_flight ++ record { peer = peer; correlation = correlation; sent = now } ∷ []
      else l.in_flight;
}

unfoldable pub timed_out : ℕ → Query → Bool
timed_out now q = ltb 400 (now - q.sent)

-- The loop over the dead: each gets one more try.
unfoldable pub retry : List NodeId → Lookup → Lookup
unfolding insert_id
retry [] l = l
retry (peer ∷ dead) l = retry dead (
    if contains peer l.retries then l else record l {
      retries = insert_id peer l.retries;
      queried = retain (λ j. not (j == peer)) l.queried;
    })

unfoldable pub on_timeouts : ℕ → Lookup → Lookup × List NodeId
unfolding timed_out retry
on_timeouts now l =
    let dead = map (λ q. q.peer) (retain (timed_out now) l.in_flight) in
    let rest =
      retry dead (record l { in_flight = retain (λ q. not (timed_out now q)) l.in_flight }) in
    (
      (if length dead == 0 then rest else record rest { alpha = min (rest.alpha + 1) alpha_max }),
      dead,
    )

unfoldable pub add_peers : List PeerInfo → List PeerInfo → List PeerInfo
add_peers [] shortlist = shortlist
add_peers (p ∷ ps) shortlist =
    add_peers ps (if any (λ s. s.id == p.id) shortlist then shortlist else shortlist ++ p ∷ [])

-- The query to `from` is answered.
abbrev pub answered : NodeId → List Query → List Query
answered from in_flight = retain (λ q. not (q.peer == from)) in_flight

unfoldable pub on_closer : NodeId → List PeerInfo → ℕ → Lookup → Lookup
unfolding add_peers
on_closer from peers rtt_us l =
    let in_flight = answered from l.in_flight in
    let alpha = if ltb rtt_us 80000 then max (l.alpha - 1) alpha_min else l.alpha in
    let shortlist = sort_shortlist (add_peers peers l.shortlist) l.target in
    let now_best = map (λ p. p.id) (take l.k shortlist) in
    let settled =
      list_beq (λ a b. a == b) now_best l.best
      && (length in_flight == 0 && all (λ j. contains j l.queried) now_best) in
    record l {
      in_flight = in_flight;
      alpha = alpha;
      shortlist = shortlist;
      done = if settled then true else l.done;
      best = now_best;
    }

unfoldable pub on_record : NodeId → StoredRecord → Lookup → Lookup
on_record from rec l = record l {
  in_flight = answered from l.in_flight;
  found_record = some rec;
  done = true;
}

unfoldable pub add_providers : List (NodeId × Bytes) → List (NodeId × Bytes) → List (NodeId × Bytes)
add_providers [] known = known
add_providers (p ∷ ps) known =
    add_providers ps (if any (λ e. e.0 == p.0) known then known else known ++ p ∷ [])

unfoldable pub on_providers : NodeId → List (NodeId × Bytes) → List PeerInfo → Lookup → Lookup
unfolding add_providers on_closer
on_providers from providers peers l = on_closer from peers 0 (record l {
  in_flight = answered from l.in_flight;
  providers = add_providers providers l.providers;
})

unfoldable pub finish_peers : Lookup → List PeerInfo
finish_peers l = take l.k l.shortlist

-- `merge_step`: the arena is reset and used, and the 64 places of the scratch array are sorted.
unfoldable pub merge_step : LookupArena → List PeerInfo → Key → LookupArena × ℕ
merge_step arena incoming target =
    let used = (alloc (min (length incoming * 32) 1024) (reset arena)).0 in
    (used, length (sort_shortlist (take 64 incoming) target))
