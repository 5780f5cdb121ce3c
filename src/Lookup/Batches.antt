-- ===== src/Lookup/Batches.antt =====
-- What a batch of queries holds, and the bounds of the lookup's state.
use molia.Prelude.{
  ℕ, ◌+◌, ◌-◌, ◌≤◌, ◌<◌, ◌≡◌, refl, ap, ◌⊎◌, inl, inr, Bool, true, false, not, ◌&&◌, ◌||◌, List, [],
  ◌∷◌, ◌++◌, map, length, length-append, retain, All, All-append, any, ltb, leb, ◌==◌, nat_eq,
  bytes_eq, Bool-cases, arith,
}
use molia.Prelude.Words.{Bytes}
use molia.Types.{NodeId, PeerInfo, alpha_min, alpha_max}
use molia.Store.{StoredRecord}
use molia.Lookup.{
  Lookup, LookupKind, PrivacyMode, Query, new, contains, fill_batch, next_batch, note_sent,
  timed_out, retry, on_timeouts, on_closer, on_record, on_providers,
}

-- The peer may be asked: it was not asked yet, and no query to it is under way.
pub record IsAskable (l : Lookup) (p : PeerInfo) : Type 0 where
  pub unasked : contains p.id l.queried ≡ false
  pub idle : any (λ q. q.peer == p.id) l.in_flight ≡ false

fill_batch-All :
    (l : Lookup) (ps batch : List PeerInfo)
    → All (IsAskable l) batch
    → All (IsAskable l) (fill_batch l ps batch)
unfolding fill_batch
fill_batch-All l [] batch h = h
fill_batch-All l (p ∷ ps) batch h = elim (Bool-cases (contains p.id l.queried)) [
  | inl asked ↦ rw asked (fill_batch-All l ps batch h)
  | inr new_one ↦ elim (Bool-cases (any (λ q. q.peer == p.id) l.in_flight)) [
    | inl busy ↦ rw (new_one, busy) (fill_batch-All l ps batch h)
    | inr idle ↦ elim (Bool-cases (leb l.alpha (length batch + length l.in_flight))) [
      | inl full ↦ rw (new_one, idle, full) h
      | inr room ↦ elim (Bool-cases (ltb (length batch) 8)) [
        | inl free ↦
            rw (new_one, idle, room, free)
              (fill_batch-All l ps (batch ++ p ∷ [])
                (All-append _ batch (p ∷ []) h (record { unasked = new_one; idle = idle }, tt)))
        | inr none_free ↦ rw (new_one, idle, room, none_free) (fill_batch-All l ps batch h)
      ]
    ]
  ]
]

fill_batch-length :
    (l : Lookup) (ps batch : List PeerInfo)
    → length batch ≤ l.alpha - length l.in_flight
    → length (fill_batch l ps batch) ≤ l.alpha - length l.in_flight
unfolding fill_batch
fill_batch-length l [] batch h = h
fill_batch-length l (p ∷ ps) batch h = ground (
  arith,
  fill_batch-length l ps batch,
  fill_batch-length l ps (batch ++ p ∷ []),
  length-append batch (p ∷ []),
)

fill_batch-le :
    (l : Lookup) (ps batch : List PeerInfo) → length batch ≤ length (fill_batch l ps batch)
unfolding fill_batch
fill_batch-le l [] batch = omega arith
fill_batch-le l (p ∷ ps) batch = ground (
  arith,
  fill_batch-le l ps batch,
  fill_batch-le l ps (batch ++ p ∷ []),
  length-append batch (p ∷ []),
)

-- With room for a query, a candidate that may be asked is not passed over.
fill_batch-progress :
    (l : Lookup) (ps : List PeerInfo) (p : PeerInfo)
    → length l.in_flight < l.alpha
    → IsAskable l p
    → any (λ q. q.id == p.id) ps ≡ true
    → 0 < length (fill_batch l ps [])
unfolding fill_batch any
fill_batch-progress l [] p room ok h = cc
fill_batch-progress l (x ∷ ps) p room ok h = ground (
  arith,
  fill_batch-progress l ps p room ok,
  fill_batch-le l ps (x ∷ []),
  bytes_eq.beq_iff x.id p.id,
  ap (λ i. contains i l.queried),
  ok.unasked,
  ok.idle,
)

-- A batch asks only peers that were not asked and have no query under way, and no more than bring the
-- queries under way to `alpha`. A lookup that is neither done nor out of time with nothing to ask and
-- nothing under way is done, so that it never waits for nothing; out of time it is done too.
pub next_batch_lem :
    (now : ℕ) (l : Lookup)
    → All (IsAskable l) (next_batch now l).1
      × (length (next_batch now l).1 ≤ l.alpha - length l.in_flight)
      × (((next_batch now l).0.done ≡ true)
          ⊎ (0 < length (next_batch now l).1 + length (next_batch now l).0.in_flight))
      × (l.budget ≤ now - l.started → (next_batch now l).0.done ≡ true)
unfolding next_batch
next_batch_lem now l = elim (Bool-cases (l.done || leb l.budget (now - l.started))) [
  | inl over ↦ rw over (tt, omega arith, inl refl, λ late. refl)
  | inr going ↦
      let batch : List PeerInfo = fill_batch l l.shortlist [] in
      let asked = fill_batch-All l l.shortlist [] tt in
      let small = fill_batch-length l l.shortlist [] (omega arith) in
      elim (Bool-cases (length batch == 0 && length l.in_flight == 0)) [
        | inl idle ↦ rw (going, idle) (asked, small, inl refl, λ late. refl)
        | inr busy ↦
            rw (going, busy) (asked, small, inr (ground arith), λ late. absurd (ground arith))
      ]
]

-- The parallelism stays between 3 and 8, and no more than 8 queries are under way.
pub record IsBounded (l : Lookup) : Type 0 where
  pub low : alpha_min ≤ l.alpha
  pub high : l.alpha ≤ alpha_max
  pub flights : length l.in_flight ≤ 8

retry_alpha :
    (dead : List NodeId) (l : Lookup)
    → ((retry dead l).alpha ≡ l.alpha) × ((retry dead l).in_flight ≡ l.in_flight)
unfolding retry
retry_alpha [] l = (refl, refl)
retry_alpha (peer ∷ dead) l = elim (Bool-cases (contains peer l.retries)) [
  | inl again ↦ rw (retry, again) (retry_alpha dead l)
  | inr first ↦ rw (retry, first) (retry_alpha dead _)
]

length-retain_queries : (p : Query → Bool) (qs : List Query) → length (retain p qs) ≤ length qs
unfolding retain
length-retain_queries p [] = omega arith
length-retain_queries p (q ∷ qs) = ground (arith, length-retain_queries p qs)

on_closer-IsBounded :
    (from : NodeId) (peers : List PeerInfo) (rtt_us : ℕ) (l : Lookup)
    → IsBounded l
    → IsBounded (on_closer from peers rtt_us l)
unfolding on_closer
on_closer-IsBounded from peers rtt_us l v = record {
  low = ground (arith, v.low, v.high);
  high = ground (arith, v.low, v.high);
  flights = omega (arith, length-retain_queries (λ q. not (q.peer == from)) l.in_flight, v.flights);
}

-- A new lookup is bounded, and every event of a lookup keeps it bounded: a batch, a query sent, a
-- sweep of the timeouts, and each of the three kinds of answers.
pub lookup-IsBounded :
    (now : ℕ) (l : Lookup) (peer : NodeId) (correlation rtt_us : ℕ) (peers : List PeerInfo)
    (rec : StoredRecord) (found : List (NodeId × Bytes)) (kind : LookupKind) (privacy : PrivacyMode)
    → IsBounded l
    → IsBounded (new now kind l.target peers privacy)
      × IsBounded (next_batch now l).0
      × IsBounded (note_sent now peer correlation l)
      × IsBounded (on_timeouts now l).0
      × IsBounded (on_closer peer peers rtt_us l)
      × IsBounded (on_record peer rec l)
      × IsBounded (on_providers peer found peers l)
unfolding new next_batch note_sent on_timeouts on_record on_providers
lookup-IsBounded now l peer correlation rtt_us peers rec found kind mode v = (
  record { low = omega arith; high = omega arith; flights = omega arith },
  record {
    low = ground (arith, v.low);
    high = ground (arith, v.high);
    flights = ground (arith, v.flights);
  },
  record {
    low = v.low;
    high = v.high;
    flights = ground (
      arith,
      length-append l.in_flight
          (record { peer = peer; correlation = correlation; sent = now } ∷ []),
      v.flights,
    );
  },
  swept,
  on_closer-IsBounded peer peers rtt_us l v,
  record {
    low = v.low;
    high = v.high;
    flights =
        omega (arith, length-retain_queries (λ q. not (q.peer == peer)) l.in_flight, v.flights);
  },
  on_closer-IsBounded peer peers 0 _ (record {
    low = v.low;
    high = v.high;
    flights =
        omega (arith, length-retain_queries (λ q. not (q.peer == peer)) l.in_flight, v.flights);
  }),
)
  where
    swept : IsBounded (on_timeouts now l).0
    swept =
        let dead : List NodeId = map (λ q. q.peer) (retain (timed_out now) l.in_flight) in
        let fewer : length (retain (λ q. not (timed_out now q)) l.in_flight) ≤ 8 =
          omega
            (arith, length-retain_queries (λ q. not (timed_out now q)) l.in_flight, v.flights) in
        let (same_alpha, same_flights) =
          retry_alpha dead
            (record l { in_flight = retain (λ q. not (timed_out now q)) l.in_flight }) in
        elim (Bool-cases (length dead == 0)) [
          | inl alive ↦ rw alive (record {
            low = rw same_alpha v.low;
            high = rw same_alpha v.high;
            flights = rw same_flights fewer;
          })
          | inr some_dead ↦ rw some_dead (record {
            low = omega (arith, same_alpha, v.low);
            high = omega arith;
            flights = rw same_flights fewer;
          })
        ]
