-- ===== src/Shard/Safety/Stores.antt =====
-- The operations of the record store keep all its records authentic, and a read returns such a record.
use molia.Prelude.{
  ℕ, ◌≡◌, refl, sym, ◌∙◌, inl, inr, Bool, true, not, some, ◌==◌, nat_eq, bytes_eq, beq_refl,
  Bool-cases, arith,
}
use molia.Prelude.Words.{Bytes}
use molia.Prelude.Maps.{
  All-insert, All-retain_values, All-lookup, insert-IsMap, retain_values-IsMap,
}
use molia.Types.{NodeId, Key}
use molia.Crypto.{Primitives, hash_value}
use molia.Store.{
  Store, StoredRecord, kind_immutable, authentic, expired, store_record, queue_record, put_record,
  put_immutable_ttl, immutable_record, cache_hit, announce_provider, gc, get,
}
use molia.Store.Admission.{put_record-IsStore, store_record-IsStore}
use molia.Store.Expiry.{get_lem}
use molia.Shard.Safety.{IsGenuine}

module _ (c : Primitives) where
  cache-put_record :
      (rec : StoredRecord) (probe : Bool) (s after : Store)
      → put_record c rec probe s ≡ inr after
      → after.cache ≡ s.cache
  unfolding put_record store_record queue_record
  cache-put_record rec probe s after h = ground arith

  pub put_record-IsGenuine :
      (rec : StoredRecord) (probe : Bool) (s after : Store)
      → IsGenuine c s
      → put_record c rec probe s ≡ inr after
      → IsGenuine c after
  put_record-IsGenuine rec probe s after v h = record {
    stored = (put_record-IsStore c rec probe s after v.stored h).0;
    cached = rw (cache-put_record rec probe s after h) v.cached;
  }

  immutable-authentic :
      (now : ℕ) (value : Bytes) (ttl_secs : ℕ)
      → authentic c (immutable_record c now value ttl_secs) ≡ true
  unfolding authentic immutable_record
  immutable-authentic now value ttl_secs = beq_refl (hash_value c value)

  pub put_immutable-IsGenuine :
      (now : ℕ) (value : Bytes) (ttl_secs : ℕ) (s after : Store) (key : Key)
      → IsGenuine c s
      → put_immutable_ttl c now value ttl_secs s ≡ inr (key, after)
      → IsGenuine c after
  unfolding put_immutable_ttl
  put_immutable-IsGenuine now value ttl_secs s after key v h =
      let same : store_record (immutable_record c now value ttl_secs) s ≡ after = ground arith in
      rw (← same) (record {
        stored =
            store_record-IsStore c (immutable_record c now value ttl_secs) s
              (immutable-authentic now value ttl_secs) v.stored;
        cached =
            unfold store_record in
            unfold queue_record in
            elim (Bool-cases s.durable) [
              | inl kept ↦ rw kept v.cached
              | inr lost ↦ rw lost v.cached
            ];
      })

  pub announce_provider-IsGenuine :
      (now : ℕ) (key : Key) (peer : NodeId) (meta : Bytes) (s : Store)
      → IsGenuine c s
      → IsGenuine c (announce_provider now key peer meta s)
  unfolding announce_provider
  announce_provider-IsGenuine now key peer meta s v = record {
    stored = record {
      genuine = v.stored.genuine;
      cached = v.stored.cached;
      one_record = v.stored.one_record;
      one_cached = v.stored.one_cached;
    };
    cached = v.cached;
  }

  pub gc-IsGenuine : (now : ℕ) (s : Store) → IsGenuine c s → IsGenuine c (gc now s)
  unfolding gc
  gc-IsGenuine now s v = record {
    stored = record {
      genuine = All-retain_values _ (λ r. not (expired r now)) s.records v.stored.genuine;
      cached = All-retain_values _ (λ r. not (expired r now)) s.cache v.stored.cached;
      one_record = retain_values-IsMap (λ r. not (expired r now)) s.records v.stored.one_record;
      one_cached = retain_values-IsMap (λ r. not (expired r now)) s.cache v.stored.one_cached;
    };
    cached = All-retain_values _ (λ r. not (expired r now)) s.cache v.cached;
  }

  recached-authentic :
      (now : ℕ) (rec : StoredRecord)
      → (rec.kind == kind_immutable) ≡ true
      → authentic c rec ≡ true
      → authentic c (record rec { cache = true; ttl_secs = 600; stored_unix = now }) ≡ true
  unfolding authentic
  recached-authentic now rec fixed ok = rw fixed (sym (rw (authentic, fixed) refl) ∙ ok)

  -- A cached record of the immutable kind keeps its value and its key, and so its authenticity.
  pub cache_hit-IsGenuine :
      (now : ℕ) (rec : StoredRecord) (s : Store)
      → authentic c rec ≡ true
      → IsGenuine c s
      → IsGenuine c (cache_hit now rec s)
  unfolding cache_hit
  cache_hit-IsGenuine now rec s ok v = elim (Bool-cases (rec.kind == kind_immutable)) [
    | inr other ↦ rw other v
    | inl fixed ↦ rw fixed (record {
      stored = record {
        genuine = v.stored.genuine;
        cached =
            All-insert _ rec.key _ s.cache (refl, (nat_eq.beq_iff rec.kind kind_immutable).0 fixed)
              v.stored.cached;
        one_record = v.stored.one_record;
        one_cached = insert-IsMap rec.key _ s.cache v.stored.one_cached;
      };
      cached = All-insert _ rec.key _ s.cache (recached-authentic now rec fixed ok) v.cached;
    })
  ]

  -- A read returns an authentic record.
  pub get-authentic :
      (now : ℕ) (s : Store) (key : Key) (r : StoredRecord)
      → IsGenuine c s
      → get now s key ≡ some r
      → authentic c r ≡ true
  get-authentic now s key r v h = elim (get_lem now s key r h).1 [
    | inl (there, live) ↦ (All-lookup _ key r s.records v.stored.genuine there).1
    | inr cached ↦ All-lookup _ key r s.cache v.cached cached
  ]
