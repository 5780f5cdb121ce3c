-- ===== src/Metrics.antt =====
-- src/metrics.rs: the counters of a shard and their sum over the shards. The counters are read one by
-- one; a snapshot here is what they held when no shard was counting. They wrap at 64 bits, as
-- `fetch_add` does; the sums of the aggregation are checked additions in a debug build and wrap in a
-- release build, which is what is modelled.
pub mod Totals
use molia.Prelude.{ℕ, zero, suc, ◌+◌, ◌%◌, ◌≡◌, List, [], ◌∷◌, ◌++◌}
use molia.Prelude.Words.{u64_mod}

-- `ShardMetrics`, and `Snapshot`, which has the same counters.
pub record Snapshot : Type 0 where
  pub rx_packets : ℕ
  pub tx_packets : ℕ
  pub rx_bytes : ℕ
  pub tx_bytes : ℕ
  pub lookups : ℕ
  pub lookup_ok : ℕ
  pub store_ok : ℕ
  pub store_reject : ℕ
  pub drops_malformed : ℕ
  pub drops_rate : ℕ
  pub wg_decap_ok : ℕ
  pub wg_decap_fail : ℕ
  pub pow_fail : ℕ
  pub cookies : ℕ
  pub punch_ok : ℕ
  pub relay_bytes : ℕ

abbrev pub zero_snapshot : Snapshot
zero_snapshot = record {
  rx_packets = 0;
  tx_packets = 0;
  rx_bytes = 0;
  tx_bytes = 0;
  lookups = 0;
  lookup_ok = 0;
  store_ok = 0;
  store_reject = 0;
  drops_malformed = 0;
  drops_rate = 0;
  wg_decap_ok = 0;
  wg_decap_fail = 0;
  pow_fail = 0;
  cookies = 0;
  punch_ok = 0;
  relay_bytes = 0;
}

-- `fetch_add` of an `AtomicU64`.
unfoldable pub add : ℕ → ℕ → ℕ
add a n = (a + n) % u64_mod

unfoldable pub incr : ℕ → ℕ
unfolding add
incr a = add a 1

-- One round of the loop of `aggregate`.
unfoldable pub accumulate : Snapshot → Snapshot → Snapshot
unfolding add
accumulate t x = record {
  rx_packets = add t.rx_packets x.rx_packets;
  tx_packets = add t.tx_packets x.tx_packets;
  rx_bytes = add t.rx_bytes x.rx_bytes;
  tx_bytes = add t.tx_bytes x.tx_bytes;
  lookups = add t.lookups x.lookups;
  lookup_ok = add t.lookup_ok x.lookup_ok;
  store_ok = add t.store_ok x.store_ok;
  store_reject = add t.store_reject x.store_reject;
  drops_malformed = add t.drops_malformed x.drops_malformed;
  drops_rate = add t.drops_rate x.drops_rate;
  wg_decap_ok = add t.wg_decap_ok x.wg_decap_ok;
  wg_decap_fail = add t.wg_decap_fail x.wg_decap_fail;
  pow_fail = add t.pow_fail x.pow_fail;
  cookies = add t.cookies x.cookies;
  punch_ok = add t.punch_ok x.punch_ok;
  relay_bytes = add t.relay_bytes x.relay_bytes;
}

unfoldable pub aggregate_from : Snapshot → List Snapshot → Snapshot
unfolding accumulate
aggregate_from t [] = t
aggregate_from t (s ∷ shards) = aggregate_from (accumulate t s) shards

unfoldable pub aggregate : List Snapshot → Snapshot
unfolding aggregate_from
aggregate shards = aggregate_from zero_snapshot shards
