-- ===== src/Shard/Queries/Answers.antt =====
-- What a question for a value is answered.
use molia.Prelude.{
  ◌<◌, ◌≤◌, List, [], ◌∷◌, All, All-take, any, has_key, take, retain, length-take, beq_refl, ap,
  min, arith, ℕ, ◌≡◌, refl, inl, inr, true, false, Option, none, some, ◌==◌, length, Bool-cases,
  Option-cases, nat_eq, bytes_eq, min,
}
use molia.Prelude.Maps
use molia.Prelude.Words.{Bytes}
use molia.Types.{Key}
use molia.Codec.{Header, is_probe}
use molia.Store.{ProviderEntry, alive, StoredRecord, authentic, to_proto, get, providers, expired}
use molia.Store.Expiry.{get_lem}
use molia.Shard.Proto.{
  Found, record_bytes, provider_list, providers_to_proto, max_providers_per_chunk,
}
use molia.Shard.Context.{Moment, unix, Env, ShardCtx}
use molia.Shard.Queries.{provider_result, value_result}
use molia.Shard.Safety.{IsGenuine}
use molia.Shard.Safety.Stores.{get-authentic}

-- The bytes of a record that is authentic, has not expired and is stored or cached under the key.
pub record IsDisclosed {T F : Type 0} (e : Env T F) (m : Moment) (key : Key) (c : ShardCtx T F)
    (raw : Bytes) : Type 0 where
  pub rec : StoredRecord
  pub held : get (unix m) c.store key ≡ some rec
  pub encoded : raw ≡ e.protocol.record_body.encoded (to_proto rec)
  pub genuine : authentic e.crypto rec ≡ true
  pub fresh : expired rec (unix m) ≡ false

-- Some providers of the key, no more than asked for and than fit a response, each of them announced for
-- the key and not expired.
pub record IsReferral {T F : Type 0} (m : Moment) (key : Key) (limit : ℕ) (c : ShardCtx T F)
    (ps : List ProviderEntry) : Type 0 where
  pub somebody : 0 < length ps
  pub wanted : length ps ≤ limit
  pub fitting : length ps ≤ 32
  pub announced : List ProviderEntry
  pub held : Maps.lookup key c.store.providers ≡ some announced
  pub known :
      All
        (λ p. (alive (unix m) p ≡ true) × (has_key (λ e. e.peer_id) p.peer_id announced ≡ true))
        ps

pub data IsAnswered {T F : Type 0} (e : Env T F) (m : Moment) (h : Header) (key : Key) (limit : ℕ)
    (c : ShardCtx T F) : Option Found → Type 0 where
  disclosed :
      (raw : Bytes)
      → is_probe h ≡ false
      → IsDisclosed e m key c raw
      → IsAnswered e m h key limit c (some (record_bytes raw))
  referred :
      (ps : List ProviderEntry)
      → IsReferral m key limit c ps
      → IsAnswered e m h key limit c (some (provider_list (providers_to_proto ps)))
  unknown : IsAnswered e m h key limit c none

alive-retain :
    (now : ℕ) (ps : List ProviderEntry)
    → All
        (λ p. (alive now p ≡ true) × (has_key (λ e. e.peer_id) p.peer_id ps ≡ true))
        (retain (alive now) ps)
unfolding retain
alive-retain now ps = kept ps (λ p h. h)
  where
    kept :
        (qs : List ProviderEntry)
        → ((p : ProviderEntry)
            → has_key (λ e. e.peer_id) p.peer_id qs ≡ true
            → has_key (λ e. e.peer_id) p.peer_id ps ≡ true)
        → All
            (λ p. (alive now p ≡ true) × (has_key (λ e. e.peer_id) p.peer_id ps ≡ true))
            (retain (alive now) qs)
    kept [] h = tt
    kept (q ∷ qs) h =
        let first : has_key (λ e. e.peer_id) q.peer_id (q ∷ qs) ≡ true =
          unfold any in rw (beq_refl q.peer_id) refl in
        let rest = kept qs (λ p w. h p (unfold any in ground (arith, w))) in
        elim (Bool-cases (alive now q)) [
          | inl yes_alive ↦ rw yes_alive ((yes_alive, h q first), rest)
          | inr expired_now ↦ rw expired_now rest
        ]

module _ {T F : Type 0} (e : Env T F) (m : Moment) (h : Header) (key : Key) (limit : ℕ)
    (c : ShardCtx T F) where
  referral :
      (announced : List ProviderEntry)
      → Maps.lookup key c.store.providers ≡ some announced
      → 0 < length (providers (unix m) c.store key (min limit max_providers_per_chunk))
      → IsReferral m key limit c
          (providers (unix m) c.store key (min limit max_providers_per_chunk))
  unfolding providers
  referral announced held there =
      let living = retain (alive (unix m)) announced in
      let some_known : 0 < length (take (min limit max_providers_per_chunk) living) =
        rw (providers, held) at there in
      let few = length-take (min limit max_providers_per_chunk) living in
      rw (providers, held)
        (record {
          somebody = some_known;
          wanted = grind (arith, few);
          fitting = grind (arith, few);
          announced = announced;
          held = held;
          known =
              All-take _ (min limit max_providers_per_chunk) living
                (alive-retain (unix m) announced);
        })

  referred-IsAnswered : IsAnswered e m h key limit c (provider_result e m key limit c)
  unfolding provider_result
  referred-IsAnswered =
      let known = providers (unix m) c.store key (min limit max_providers_per_chunk) in
      elim (Bool-cases (length known == 0)) [
        | inl nobody ↦ rw nobody unknown
        | inr somebody ↦ rw somebody (elim (Option-cases (Maps.lookup key c.store.providers)) [
          | inl unheard ↦ absurd (none_held unheard somebody)
          | inr (announced, held) ↦ referred known (referral announced held (ground arith))
        ])
      ]
    where
      none_held :
          Maps.lookup key c.store.providers ≡ none
          → (length (providers (unix m) c.store key (min limit max_providers_per_chunk)) == 0)
            ≡ false
          → ⊥
      none_held unheard h =
          let empty : providers (unix m) c.store key (min limit max_providers_per_chunk) ≡ [] =
            (unfold providers in rw (providers, unheard) refl) in
          ground (arith, ap length empty)

  -- A question is answered by a record only if it is no probe, and then by the bytes of an authentic record
  -- that is held under that key and has not expired; otherwise by some providers that were announced for
  -- the key and have not expired, no more than it asked for and 32 at most, or by nothing. It is
  -- answered by the record whenever one is held and it is no probe.
  pub value_result_lem :
      IsGenuine e.crypto c.store
      → IsAnswered e m h key limit c (value_result e m h key limit c)
        × ((rec : StoredRecord)
            → get (unix m) c.store key ≡ some rec
            → is_probe h ≡ false
            → value_result e m h key limit c
              ≡ some (record_bytes (e.protocol.record_body.encoded (to_proto rec))))
        × (is_probe h ≡ true → value_result e m h key limit c ≡ provider_result e m key limit c)
  unfolding value_result
  value_result_lem v = elim (Option-cases (get (unix m) c.store key)) [
    | inl absent ↦ rw (value_result, absent) (referred-IsAnswered, λ rec there. cc, λ hidden. refl)
    | inr (rec, there) ↦ elim (Bool-cases (is_probe h)) [
      | inl hidden ↦
          rw (value_result, there, hidden)
            (referred-IsAnswered, λ r at_key plain. cc, λ probe. refl)
      | inr plain ↦
          rw (value_result, there, plain)
            (
              disclosed _ plain (record {
                rec = rec;
                held = there;
                encoded = refl;
                genuine = get-authentic e.crypto (unix m) c.store key rec v there;
                fresh = (get_lem (unix m) c.store key rec there).0;
              }),
              λ r at_key asked. cc,
              λ probe. cc,
            )
    ]
  ]
