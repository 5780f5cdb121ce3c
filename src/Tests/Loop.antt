-- ===== src/Tests/Loop.antt =====
-- The pieces of the shard loop on concrete values.
use molia.Prelude.{◌≡◌, refl, true, false, not, some, [], ◌∷◌, retain, All, leb, bytes_eq, nat_eq}
use molia.Types.{addr_eq}
use molia.Nat.{new_relay, new_budget, forward}
use molia.Nat.Budget.{IsWithin, forward-IsWithin}
use molia.Timers.{TimingWheel, lookup_tick, collect, precedes, pop_due}
use molia.Timers.Due.{IsWheel, pop_due_lem}
use molia.Shard.{peers_from_proto}
use molia.Shard.Correlation.{IsReceived, peers_from_proto-IsReceived}
use molia.Tests.{id_of, localhost}

forward-IsWithin_example : IsWithin (forward 100 false (new_relay true)).0.budget
unfolding new_relay new_budget
forward-IsWithin_example =
    (forward-IsWithin (new_relay true) 100 false).1 (forward-IsWithin (new_relay true) 100 false).0

abbrev wheel : TimingWheel
wheel = (10, collect) ∷ (20, lookup_tick) ∷ []

pop_due_lem_example : (pop_due 15 wheel).0 ≡ retain (λ t. not (leb t.0 15)) wheel
pop_due_lem_example = (pop_due_lem 15 12 collect wheel wheel-IsWheel).2
  where
    wheel-IsWheel : IsWheel wheel
    wheel-IsWheel = ((unfold precedes in refl, tt), (tt, tt))

peers_from_proto-IsReceived_example : All IsReceived (
    peers_from_proto
      (λ b. some (localhost 1))
      (record { peer_id = id_of 1; addrs = (1 ∷ []) ∷ []; rtt_ms = 0; x25519_pubkey = [] } ∷ []))
peers_from_proto-IsReceived_example =
    peers_from_proto-IsReceived (λ b. some (localhost 1))
      (record { peer_id = id_of 1; addrs = (1 ∷ []) ∷ []; rtt_ms = 0; x25519_pubkey = [] } ∷ [])
