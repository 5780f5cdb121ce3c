-- ===== src/Tests/Identifiers.antt =====
-- Identifiers, buckets, shards and contacts on concrete values.
use molia.Prelude.{ℕ, ◌+◌, ◌/◌, ◌^◌, ◌≤◌, ◌<◌, ◌≡◌, ◌≢◌, ◌↔◌, refl, ap, any, get_or, arith}
use molia.Prelude.Words.{Bytes}
use molia.Types.{addr_eq, bucket_index, shard_id}
use molia.Types.Distance.{distance, distance-metric}
use molia.Types.Bucket.{IsLog2, bucket_index-IsLog2}
use molia.Types.Shards.{shard_id-lt, shard_id-distance}
use molia.Types.Contacts.{IsContact}
use molia.Tests.{id_of, id_of-IsId, contact}

distance-metric_example :
    ((distance (id_of 1) (id_of 2) ≡ 0) ↔ (id_of 1 ≡ id_of 2))
    × (distance (id_of 1) (id_of 2) ≡ distance (id_of 2) (id_of 1))
    × (distance (id_of 1) (id_of 7) ≤ distance (id_of 1) (id_of 2) + distance (id_of 2) (id_of 7))
distance-metric_example =
    distance-metric (id_of 1) (id_of 2) (id_of 7) (id_of-IsId 1 (omega arith))
      (id_of-IsId 2 (omega arith)) (id_of-IsId 7 (omega arith))

bucket_index-IsLog2_example :
    IsLog2 (bucket_index (id_of 1) (id_of 2)) (distance (id_of 1) (id_of 2))
bucket_index-IsLog2_example =
    (bucket_index-IsLog2 (id_of 1) (id_of 2) (id_of-IsId 1 (omega arith))
        (id_of-IsId 2 (omega arith))).0
      apart
  where
    apart : id_of 1 ≢ id_of 2
    apart e = omega (arith, ap (λ (l : Bytes). get_or l 31 0) e)

shard_id-lt_example : shard_id (id_of 1) (id_of 9) 3 < 3
shard_id-lt_example =
    shard_id-lt (id_of 1) (id_of 9) 3 (id_of-IsId 1 (omega arith)) (id_of-IsId 9 (omega arith))
      (omega arith) (omega arith)

shard_id-distance_example :
    shard_id (id_of 1) (id_of 9) (2 ^ 2) ≡ distance (id_of 1) (id_of 9) / 2 ^ 254
shard_id-distance_example =
    shard_id-distance (id_of 1) (id_of 9) 2 (id_of-IsId 1 (omega arith))
      (id_of-IsId 9 (omega arith)) (omega arith)

contact-IsContact : (n : ℕ) → IsContact (contact n)
contact-IsContact n = record { bounded = omega arith; distinct = (unfold any in refl, tt) }
