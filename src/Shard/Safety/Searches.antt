-- ===== src/Shard/Safety/Searches.antt =====
-- Lookups stay within their bounds and hold authentic records only.
use molia.Prelude.{
  ℕ, ◌≡◌, refl, sym, ap, ◌∙◌, inl, inr, true, not, List, [], ◌∷◌, map, length, ◌==◌, nat_eq,
  bytes_eq, All, retain, Bool-cases, Option-cases, arith,
}
use molia.Prelude.Words.{Bytes}
use molia.Prelude.Maps
use molia.Prelude.Maps.{All-insert, All-lookup}
use molia.Types.{NodeId, Key, PeerInfo}
use molia.Crypto.{Primitives}
use molia.Store.{StoredRecord, authentic, immutable_record}
use molia.Lookup.{
  Lookup, LookupKind, find_node, find_value, PrivacyMode, blind, new, next_batch, note_sent, retry,
  on_timeouts, on_closer, on_record, on_providers, contains, timed_out,
}
use molia.Lookup.Batches.{IsBounded, lookup-IsBounded}
use molia.Shard.Lookups.{lookup_reply}
use molia.Shard.Safety.{IsAnswer, IsSearch}

-- A removal keeps what holds of every entry.
pub All-remove :
    {V : Type 0}
    → (P : ℕ × V → Type 0) (k : ℕ) (m : List (ℕ × V)) → All P m
    → All P (Maps.remove k m)
unfolding Maps.remove
All-remove P k [] h = h
All-remove P k (p ∷ m) h = elim (Bool-cases (k == p.0)) [
  | inl same ↦ rw same (All-remove P k m h.1)
  | inr other ↦ rw other (h.0, All-remove P k m h.1)
]

module _ (c : Primitives) where
  -- A lookup with the record of another one, within its bounds.
  kept-IsSearch :
      (l l' : Lookup)
      → l'.found_record ≡ l.found_record
      → IsBounded l'
      → IsSearch c l
      → IsSearch c l'
  kept-IsSearch l l' same bounded v = record {
    bounded = bounded;
    genuine = λ r found. v.genuine r (sym same ∙ found);
  }

  found-next_batch : (now : ℕ) (l : Lookup) → (next_batch now l).0.found_record ≡ l.found_record
  unfolding next_batch
  found-next_batch now l = ground arith

  found-retry : (dead : List NodeId) (l : Lookup) → (retry dead l).found_record ≡ l.found_record
  unfolding retry
  found-retry [] l = refl
  found-retry (peer ∷ dead) l = elim (Bool-cases (contains peer l.retries)) [
    | inl again ↦ rw (retry, again) (found-retry dead l)
    | inr first ↦ rw (retry, first) (found-retry dead _)
  ]

  found-on_timeouts : (now : ℕ) (l : Lookup) → (on_timeouts now l).0.found_record ≡ l.found_record
  unfolding on_timeouts
  found-on_timeouts now l =
      let dead : List NodeId = map (λ q. q.peer) (retain (timed_out now) l.in_flight) in
      let kept = record l { in_flight = retain (λ q. not (timed_out now q)) l.in_flight } in
      elim (Bool-cases (length dead == 0)) [
        | inl alive ↦ rw alive (found-retry dead kept)
        | inr some_dead ↦ rw some_dead (found-retry dead kept)
      ]

  -- The bounds of every event of a lookup.
  bounds :
      (now corr rtt_us : ℕ) (peer : NodeId) (peers : List PeerInfo) (rec : StoredRecord)
      (found : List (NodeId × Bytes)) (l : Lookup)
      → IsSearch c l
      → IsBounded (new now find_value l.target peers blind)
        × IsBounded (next_batch now l).0
        × IsBounded (note_sent now peer corr l)
        × IsBounded (on_timeouts now l).0
        × IsBounded (on_closer peer peers rtt_us l)
        × IsBounded (on_record peer rec l)
        × IsBounded (on_providers peer found peers l)
  bounds now corr rtt_us peer peers rec found l v =
      lookup-IsBounded now l peer corr rtt_us peers rec found find_value blind v.bounded

  abbrev any_record : StoredRecord
  any_record = immutable_record c 0 [] 0

  pub new-IsSearch :
      (now : ℕ) (kind : LookupKind) (target : Key) (seeds : List PeerInfo) (privacy : PrivacyMode)
      → IsSearch c (new now kind target seeds privacy)
  unfolding new
  new-IsSearch now kind target seeds mode = record {
    bounded = record { low = omega arith; high = omega arith; flights = omega arith };
    genuine = λ r none_yet. cc;
  }

  pub next_batch-IsSearch : (now : ℕ) (l : Lookup) → IsSearch c l → IsSearch c (next_batch now l).0
  next_batch-IsSearch now l v =
      kept-IsSearch l _ (found-next_batch now l) (bounds now 0 0 [] [] any_record [] l v).1 v

  pub note_sent-IsSearch :
      (now : ℕ) (peer : NodeId) (corr : ℕ) (l : Lookup)
      → IsSearch c l
      → IsSearch c (note_sent now peer corr l)
  note_sent-IsSearch now peer corr l v =
      kept-IsSearch l _ (unfold note_sent in refl) (bounds now corr 0 peer [] any_record [] l v).2 v

  pub on_timeouts-IsSearch :
      (now : ℕ) (l : Lookup) → IsSearch c l → IsSearch c (on_timeouts now l).0
  on_timeouts-IsSearch now l v =
      kept-IsSearch l _ (found-on_timeouts now l) (bounds now 0 0 [] [] any_record [] l v).3 v

  pub on_closer-IsSearch :
      (from : NodeId) (peers : List PeerInfo) (rtt_us : ℕ) (l : Lookup)
      → IsSearch c l
      → IsSearch c (on_closer from peers rtt_us l)
  on_closer-IsSearch from peers rtt_us l v =
      kept-IsSearch l _ (unfold on_closer in refl)
        (bounds 0 0 rtt_us from peers any_record [] l v).4 v

  pub on_record-IsSearch :
      (from : NodeId) (rec : StoredRecord) (l : Lookup)
      → authentic c rec ≡ true
      → IsSearch c l
      → IsSearch c (on_record from rec l)
  on_record-IsSearch from rec l ok v = record {
    bounded = (bounds 0 0 0 from [] rec [] l v).5;
    genuine =
        unfold on_record in λ r found. let same : rec ≡ r = cc in ap (authentic c) (sym same) ∙ ok;
  }

  pub on_providers-IsSearch :
      (from : NodeId) (found : List (NodeId × Bytes)) (peers : List PeerInfo) (l : Lookup)
      → IsSearch c l
      → IsSearch c (on_providers from found peers l)
  on_providers-IsSearch from found peers l v =
      kept-IsSearch l _ (unfold on_providers in unfold on_closer in refl)
        (bounds 0 0 0 from peers any_record found l v).6 v

  pub lookup_reply-IsAnswer :
      (kind : LookupKind) (l : Lookup) → IsSearch c l → IsAnswer c (lookup_reply kind l)
  lookup_reply-IsAnswer find_node l v = unfold lookup_reply in tt
  lookup_reply-IsAnswer find_value l v =
      unfold lookup_reply in
      elim (Option-cases l.found_record) [
        | inr (r, found) ↦ rw found (v.genuine r found)
        | inl none_found ↦ elim (Bool-cases (not (length l.providers == 0))) [
          | inl some_known ↦ rw (none_found, some_known) (tt)
          | inr none_known ↦ rw (none_found, none_known) (tt)
        ]
      ]
