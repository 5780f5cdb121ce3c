-- ===== src/Tests/Lookups.antt =====
-- A lookup on concrete contacts.
use molia.Prelude.{◌≡◌, false, not, [], ◌∷◌, retain, All, arith}
use molia.Lookup.{
  Lookup, Query, find_node, no_privacy, contains, next_batch, on_timeouts, timed_out, note_sent,
}
use molia.Lookup
use molia.Lookup.Batches.{IsAskable, IsBounded, next_batch_lem, lookup-IsBounded}
use molia.Lookup.Progress.{on_timeouts_lem}
use molia.Store.{StoredRecord}
use molia.Tests.{id_of, contact}

abbrev search : Lookup
search = Lookup.new 0 find_node (id_of 0) (contact 1 ∷ contact 2 ∷ []) no_privacy

next_batch_lem_example : All (IsAskable search) (next_batch 10 search).1
next_batch_lem_example = (next_batch_lem 10 search).0

on_timeouts_lem_example :
    (on_timeouts 500 (note_sent 10 (id_of 1) 7 search)).0.in_flight
    ≡ retain (λ q. not (timed_out 500 q)) (note_sent 10 (id_of 1) 7 search).in_flight
on_timeouts_lem_example = (on_timeouts_lem 500 (note_sent 10 (id_of 1) 7 search) (id_of 1)).1

abbrev nothing : StoredRecord
nothing = record {
  key = id_of 0;
  value = [];
  sequence = 0;
  ttl_secs = 0;
  not_before_unix = 0;
  owner_pubkey = [];
  signature = [];
  kind = 0;
  namespace = [];
  salt = [];
  stored_unix = 0;
  cache = false;
}

lookup-IsBounded_example : IsBounded (next_batch 10 search).0
lookup-IsBounded_example =
    (lookup-IsBounded 10 search (id_of 1) 7 80000 [] nothing [] find_node no_privacy start).1
  where
    start : IsBounded search
    start =
        unfold Lookup.new in record { low = omega arith; high = omega arith; flights = omega arith }
