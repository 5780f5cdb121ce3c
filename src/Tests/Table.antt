-- ===== src/Tests/Table.antt =====
-- A routing table that is filled by hand.
use molia.Prelude.{ℕ, ◌≡◌, min, none, [], ◌∷◌, length, bytes_eq, beq_refl, arith}
use mathlib.Core.List.{flatten}
use molia.Types.{k_max}
use molia.Routing.{RoutingTable, new, insert, mark_fail, closest, len, PeerEntry}
use molia.Routing.Buckets.{IsTable, NoDuplicates}
use molia.Routing.Insert.{new-IsTable, insert-IsTable, insert_outcome}
use molia.Routing.Failures.{mark_fail_outcome}
use molia.Routing.Closest.{closest_lem}
use molia.Tests.{id_of, id_of-IsId, contact}

abbrev fresh_table : RoutingTable
fresh_table = new (id_of 0)

insert-IsTable_example :
    IsTable (insert 5 fresh_table (contact 1)).0 × NoDuplicates (insert 5 fresh_table (contact 1)).0
insert-IsTable_example =
    insert-IsTable 5 fresh_table (contact 1) (new-IsTable (id_of 0)).0 (new-IsTable (id_of 0)).1

abbrev one_peer : RoutingTable
one_peer = (insert 5 fresh_table (contact 1)).0

insert_outcome_example : insert 5 fresh_table (contact 0) ≡ (fresh_table, none)
unfolding new
insert_outcome_example =
    (insert_outcome 5 fresh_table (contact 0) (new-IsTable (id_of 0)).0).0 (beq_refl (id_of 0))

mark_fail_outcome_example : IsTable (mark_fail one_peer (id_of 1))
mark_fail_outcome_example = (mark_fail_outcome one_peer (id_of 1) insert-IsTable_one).3
  where
    insert-IsTable_one : IsTable one_peer
    insert-IsTable_one =
        (insert-IsTable 5 fresh_table (contact 1) (new-IsTable (id_of 0)).0
          (new-IsTable (id_of 0)).1).0

-- A table with two buckets of one peer each.
abbrev entry : ℕ → PeerEntry
entry n = record { info = contact n; last_seen = 0; fail_count = 0; srtt_us = 200000 }

abbrev two_buckets : RoutingTable
two_buckets = record {
  self_id = id_of 0;
  k = 20;
  buckets = (entry 1 ∷ []) ∷ (entry 2 ∷ []) ∷ [];
  replacement = [];
}

closest_lem_example : length (closest two_buckets (id_of 2) 1) ≡ min (min 1 k_max) (len two_buckets)
unfolding flatten
closest_lem_example =
    (closest_lem two_buckets (id_of 2) 1 (id_of-IsId 2 (omega arith))
      (id_of-IsId 1 (omega arith), (id_of-IsId 2 (omega arith), tt))).0
