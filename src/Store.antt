-- ===== src/Store.antt =====
-- src/store.rs: records, providers and the cache of one shard. `now_unix()` is an argument. The
-- hash and the signatures are those of Crypto; `proto::Record` is a record of the fields of the
-- message, and its encoding, which the build generates, does not appear: the pending log holds the
-- records that are encoded when they are queued.
pub mod Admission
pub mod Expiry
pub mod Providers
use molia.Prelude.{
  ℕ, zero, suc, ◌+◌, ◌-◌, ◌*◌, ◌≡◌, min, max, ◌⊎◌, inl, inr, Bool, true, false, not, ◌&&◌, ◌||◌,
  Option, none, some, List, [], ◌∷◌, ◌++◌, map, length, take, find, retain, any, if◌then◌else◌, ltb,
  leb, ◌==◌, Eq, nat_eq, bytes_eq, unwrap_or,
}
use molia.Prelude.Words.{Bytes}
use molia.Prelude.Maps
use molia.Types.{Key, NodeId, pmtu_floor, from_bytes}
use molia.Crypto.{Primitives, hash_value, mutable_key, verify_record}
use molia.Wal.{Frame, type_record}

abbrev pub kind_immutable : ℕ
kind_immutable = 0

abbrev pub kind_mutable : ℕ
kind_mutable = 1

abbrev pub kind_provider : ℕ
kind_provider = 2

abbrev pub kind_tombstone : ℕ
kind_tombstone = 3

abbrev pub cache_ttl_secs : ℕ
cache_ttl_secs = 10 * 60

abbrev pub mutable_ttl_secs : ℕ
mutable_ttl_secs = 24 * 3600

pub record StoredRecord : Type 0 where
  pub key : Key
  pub value : Bytes
  pub sequence : ℕ
  pub ttl_secs : ℕ
  pub not_before_unix : ℕ
  pub owner_pubkey : Bytes
  pub signature : Bytes
  pub kind : ℕ
  pub namespace : Bytes
  pub salt : Bytes
  pub stored_unix : ℕ
  pub cache : Bool

-- The fields of `proto::Record` that the code reads; `validators` is always empty.
pub record ProtoRecord : Type 0 where
  pub key : Bytes
  pub value : Bytes
  pub sequence : ℕ
  pub ttl_secs : ℕ
  pub not_before_unix : ℕ
  pub owner_pubkey : Bytes
  pub signature : Bytes
  pub kind : ℕ
  pub namespace : Bytes
  pub salt : Bytes

unfoldable pub to_proto : StoredRecord → ProtoRecord
to_proto r = record {
  key = r.key;
  value = r.value;
  sequence = r.sequence;
  ttl_secs = r.ttl_secs;
  not_before_unix = r.not_before_unix;
  owner_pubkey = r.owner_pubkey;
  signature = r.signature;
  kind = r.kind;
  namespace = r.namespace;
  salt = r.salt;
}

unfoldable pub record_from_proto : ℕ → ProtoRecord → Option StoredRecord
unfolding from_bytes
record_from_proto now r = elim (from_bytes r.key) [
  | none ↦ none
  | some key ↦ some (record {
    key = key;
    value = r.value;
    sequence = r.sequence;
    ttl_secs = if r.ttl_secs == 0 then mutable_ttl_secs else r.ttl_secs;
    not_before_unix = r.not_before_unix;
    owner_pubkey = r.owner_pubkey;
    signature = r.signature;
    kind = r.kind;
    namespace = r.namespace;
    salt = r.salt;
    stored_unix = now;
    cache = false;
  })
]

-- `saturating_sub` is subtraction that stops at 0.
unfoldable pub expired : StoredRecord → ℕ → Bool
expired r now = ltb r.ttl_secs (now - r.stored_unix)

-- An envelope: an owner, the key derived from it, and its signature.
unfoldable pub signed_envelope : Primitives → StoredRecord → Bool
signed_envelope c r =
    not (length r.owner_pubkey == 0)
    && (mutable_key c r.owner_pubkey r.namespace r.salt == r.key
        && verify_record c r.owner_pubkey r.key r.value r.sequence r.ttl_secs r.not_before_unix
            r.signature)

unfoldable pub authentic : Primitives → StoredRecord → Bool
unfolding signed_envelope
authentic c r =
    if r.kind == kind_immutable
    then hash_value c r.value == r.key
    else if r.kind == kind_mutable || r.kind == kind_tombstone
    then signed_envelope c r
    else r.kind == kind_provider

unfoldable pub signed_by : Primitives → StoredRecord → Bytes → Bool
unfolding authentic
signed_by c r owner_pk = r.kind == kind_mutable && (r.owner_pubkey == owner_pk && authentic c r)

pub record ProviderEntry : Type 0 where
  pub peer_id : NodeId
  pub meta : Bytes
  pub stored_unix : ℕ
  pub ttl_secs : ℕ

-- `durable` says that the store has a directory.
pub record Store : Type 0 where
  pub records : List (Key × StoredRecord)
  pub providers : List (Key × List ProviderEntry)
  pub cache : List (Key × StoredRecord)
  pub durable : Bool
  pub pending_wal : List StoredRecord

unfoldable pub new : Store
new = record { records = []; providers = []; cache = []; durable = false; pending_wal = [] }

unfoldable pub queue_record : StoredRecord → Store → Store
queue_record rec s = if s.durable then record s { pending_wal = s.pending_wal ++ rec ∷ [] } else s

-- Queued, and stored under its key.
unfoldable pub store_record : StoredRecord → Store → Store
unfolding queue_record
store_record rec s =
    let q = queue_record rec s in record q { records = Maps.insert rec.key rec q.records }

pub data PutError : Type 0 where
  too_large : PutError
  hash_mismatch : PutError
  bad_signature : PutError
  stale_sequence : PutError
  bad_tombstone : PutError
  unknown_kind : PutError

unfoldable pub immutable_record : Primitives → ℕ → Bytes → ℕ → StoredRecord
immutable_record c now value ttl_secs = record {
  key = hash_value c value;
  value = value;
  sequence = 0;
  ttl_secs = ttl_secs;
  not_before_unix = 0;
  owner_pubkey = [];
  signature = [];
  kind = kind_immutable;
  namespace = [];
  salt = [];
  stored_unix = now;
  cache = false;
}

unfoldable pub put_immutable_ttl : Primitives → ℕ → Bytes → ℕ → Store → PutError ⊎ (Key × Store)
unfolding immutable_record
put_immutable_ttl c now value ttl_secs s =
    if ltb (pmtu_floor * 64) (length value)
    then inl too_large
    else inr (hash_value c value, store_record (immutable_record c now value ttl_secs) s)

unfoldable pub put_immutable : Primitives → ℕ → Bytes → Store → PutError ⊎ (Key × Store)
put_immutable c now value s = put_immutable_ttl c now value mutable_ttl_secs s

-- The match on the kind: why a record is refused.
unfoldable pub refusal : Primitives → StoredRecord → Store → Option PutError
refusal c rec s =
    if rec.kind == kind_immutable
    then (if hash_value c rec.value == rec.key then none else some hash_mismatch)
    else if rec.kind == kind_mutable
    then (if not (authentic c rec)
        then some bad_signature
        else elim (Maps.lookup rec.key s.records) [
          | none ↦ none
          | some old ↦
              if leb rec.sequence old.sequence && not (old.kind == kind_tombstone)
              then some stale_sequence
              else none
        ])
    else if rec.kind == kind_tombstone
    then (if authentic c rec then none else some bad_tombstone)
    else if rec.kind == kind_provider
    then none
    else some unknown_kind

unfoldable pub put_record : Primitives → StoredRecord → Bool → Store → PutError ⊎ Store
unfolding refusal
put_record c rec probe s =
    if ltb (64 * 1024) (length rec.value + length rec.signature)
    then inl too_large
    else elim (refusal c rec s) [
      | some e ↦ inl e
      | none ↦
          if rec.kind == kind_tombstone
          then inr (store_record rec s)
          else if probe
          then inr s
          else inr (store_record rec s)
    ]

unfoldable pub cache_hit : ℕ → StoredRecord → Store → Store
cache_hit now rec s = if not (rec.kind == kind_immutable) then s else record s {
  cache =
      Maps.insert rec.key
        (record rec {
          cache = true;
          ttl_secs = max (min cache_ttl_secs (30 * 60)) (5 * 60);
          stored_unix = now;
        })
        s.cache;
}

-- `filter` of an option.
abbrev pub fresh : ℕ → Option StoredRecord → Option StoredRecord
fresh now none = none
fresh now (some r) = if expired r now then none else some r

unfoldable pub get : ℕ → Store → Key → Option StoredRecord
unfolding expired
get now s key = elim (Maps.lookup key s.records) [
  | none ↦ fresh now (Maps.lookup key s.cache)
  | some r ↦
      if not (expired r now) && not (r.kind == kind_tombstone)
      then some r
      else fresh now (Maps.lookup key s.cache)
]

-- The change of a provider that is known, or its addition to fewer than 64.
unfoldable pub announce : ℕ → NodeId → Bytes → List ProviderEntry → List ProviderEntry
announce now peer_id meta [] = []
announce now peer_id meta (e ∷ es) =
    if e.peer_id == peer_id
    then record e { meta = meta; stored_unix = now } ∷ es
    else e ∷ announce now peer_id meta es

unfoldable pub announce_list : ℕ → NodeId → Bytes → List ProviderEntry → List ProviderEntry
unfolding announce
announce_list now peer_id meta list =
    if any (λ e. e.peer_id == peer_id) list
    then announce now peer_id meta list
    else if ltb (length list) 64
    then list
      ++ record { peer_id = peer_id; meta = meta; stored_unix = now; ttl_secs = mutable_ttl_secs }
        ∷ []
    else list

unfoldable pub announce_provider : ℕ → Key → NodeId → Bytes → Store → Store
unfolding announce_list
announce_provider now key peer_id meta s =
    let list : List ProviderEntry = unwrap_or (Maps.lookup key s.providers) [] in
    record s { providers = Maps.insert key (announce_list now peer_id meta list) s.providers }

unfoldable pub alive : ℕ → ProviderEntry → Bool
alive now e = leb (now - e.stored_unix) e.ttl_secs

unfoldable pub providers : ℕ → Store → Key → ℕ → List ProviderEntry
unfolding alive
providers now s key limit = elim (Maps.lookup key s.providers) [
  | none ↦ []
  | some v ↦ take limit (retain (alive now) v)
]

unfoldable pub gc : ℕ → Store → Store
unfolding expired alive
gc now s = record s {
  records = Maps.retain_values (λ r. not (expired r now)) s.records;
  cache = Maps.retain_values (λ r. not (expired r now)) s.cache;
  providers = map (λ p. (p.0, retain (alive now) p.1)) s.providers;
}

-- The effect of one frame in `replay_wal`; `decode` is `proto::Record::decode`.
unfoldable pub replay_record : Primitives → (Bytes → Option ProtoRecord) → ℕ → Store → Frame → Store
replay_record c decode now s (ty, payload) =
    if not (ty == type_record) then s else elim (decode payload) [
      | none ↦ s
      | some pr ↦ elim (record_from_proto now pr) [
        | none ↦ s
        | some rec ↦
            if authentic c rec then record s { records = Maps.insert rec.key rec s.records } else s
      ]
    ]

unfoldable pub replay_records :
    Primitives → (Bytes → Option ProtoRecord) → ℕ → Store → List Frame → Store
unfolding replay_record
replay_records c decode now s [] = s
replay_records c decode now s (f ∷ fs) =
    replay_records c decode now (replay_record c decode now s f) fs
