-- ===== src/Metrics/Totals.antt =====
-- The sum of the shards does not depend on their order, and counts every shard.
use molia.Prelude.{ℕ, ◌+◌, ◌%◌, ◌≡◌, refl, sym, ap, ◌∙◌, List, [], ◌∷◌, ◌++◌, arith}
use molia.Prelude.Words.{u64_mod}
use molia.Metrics.{Snapshot, zero_snapshot, add, accumulate, aggregate_from, aggregate}

accumulate_swap : (t x y : Snapshot) → accumulate (accumulate t x) y ≡ accumulate (accumulate t y) x
unfolding accumulate add
accumulate_swap t x y = λ i. record {
  rx_packets = add_swap t.rx_packets x.rx_packets y.rx_packets i;
  tx_packets = add_swap t.tx_packets x.tx_packets y.tx_packets i;
  rx_bytes = add_swap t.rx_bytes x.rx_bytes y.rx_bytes i;
  tx_bytes = add_swap t.tx_bytes x.tx_bytes y.tx_bytes i;
  lookups = add_swap t.lookups x.lookups y.lookups i;
  lookup_ok = add_swap t.lookup_ok x.lookup_ok y.lookup_ok i;
  store_ok = add_swap t.store_ok x.store_ok y.store_ok i;
  store_reject = add_swap t.store_reject x.store_reject y.store_reject i;
  drops_malformed = add_swap t.drops_malformed x.drops_malformed y.drops_malformed i;
  drops_rate = add_swap t.drops_rate x.drops_rate y.drops_rate i;
  wg_decap_ok = add_swap t.wg_decap_ok x.wg_decap_ok y.wg_decap_ok i;
  wg_decap_fail = add_swap t.wg_decap_fail x.wg_decap_fail y.wg_decap_fail i;
  pow_fail = add_swap t.pow_fail x.pow_fail y.pow_fail i;
  cookies = add_swap t.cookies x.cookies y.cookies i;
  punch_ok = add_swap t.punch_ok x.punch_ok y.punch_ok i;
  relay_bytes = add_swap t.relay_bytes x.relay_bytes y.relay_bytes i;
}
  where
    add_swap : (a b c : ℕ) → ((a + b) % u64_mod + c) % u64_mod ≡ ((a + c) % u64_mod + b) % u64_mod
    add_swap a b c = omega arith

aggregate_from-append :
    (xs ys : List Snapshot) (t : Snapshot)
    → aggregate_from t (xs ++ ys) ≡ aggregate_from (aggregate_from t xs) ys
unfolding aggregate_from
aggregate_from-append [] ys t = refl
aggregate_from-append (x ∷ xs) ys t = aggregate_from-append xs ys (accumulate t x)

aggregate_from-swap :
    (x y : Snapshot) (ys : List Snapshot) (t : Snapshot)
    → aggregate_from t (x ∷ y ∷ ys) ≡ aggregate_from t (y ∷ x ∷ ys)
unfolding aggregate_from
aggregate_from-swap x y ys t = ap (λ u. aggregate_from u ys) (accumulate_swap t x y)

abbrev pub total : (Snapshot → ℕ) → List Snapshot → ℕ
total f [] = 0
total f (s ∷ ss) = f s + total f ss

counted :
    (ss : List Snapshot) (t : Snapshot)
    → (aggregate_from t ss).rx_packets % u64_mod
      ≡ (t.rx_packets + total (λ s. s.rx_packets) ss) % u64_mod
unfolding aggregate_from accumulate add
counted [] t = omega arith
counted (s ∷ ss) t = omega (arith, counted ss (accumulate t s))

-- The aggregate of the shards is the same when two neighbours are read in the other order, and its
-- count of received packets is the sum over the shards, modulo the word.
pub aggregate-swap :
    (xs : List Snapshot) (x y : Snapshot) (ys : List Snapshot)
    → (aggregate (xs ++ (x ∷ y ∷ ys)) ≡ aggregate (xs ++ (y ∷ x ∷ ys)))
      × ((aggregate xs).rx_packets % u64_mod ≡ total (λ s. s.rx_packets) xs % u64_mod)
unfolding aggregate
aggregate-swap xs x y ys = (
  aggregate_from-append xs (x ∷ y ∷ ys) zero_snapshot
      ∙ aggregate_from-swap x y ys (aggregate_from zero_snapshot xs)
      ∙ sym (aggregate_from-append xs (y ∷ x ∷ ys) zero_snapshot),
  counted xs zero_snapshot ∙ omega arith,
)
