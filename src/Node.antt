-- ===== src/Node.antt =====
-- src/node.rs: the client operations of a node. Each one sends a command to the shard that owns the
-- key and reads its reply; what `call` returns, the reply or an error of the channel, is an argument.
pub mod Mutable
use molia.Prelude.{
  ℕ, zero, suc, ◌+◌, ◌≡◌, ◌⊎◌, inl, inr, Bool, true, false, not, ◌&&◌, ◌||◌, Option, none, some,
  List, [], ◌∷◌, length, get_elem?, if◌then◌else◌, ◌==◌, Eq, nat_eq, bytes_eq,
}
use molia.Prelude.Words.{Bytes}
use molia.Types.{NodeId, Key, PeerInfo, shard_id}
use molia.Crypto.{Primitives, mutable_key, sign_record}
use molia.Store.{StoredRecord, kind_immutable, kind_mutable, signed_by}

pub data Reply : Type 0 where
  key : Key → Reply
  value : Option Bytes → Reply
  found : Option StoredRecord → Reply
  providers : List (NodeId × Bytes) → Reply
  peers : List PeerInfo → Reply
  acknowledged : Reply
  failure : Bytes → Reply

-- `Err` of a reply, of the channel, and of the checks of the client.
pub data NodeError : Type 0 where
  reported : Bytes → NodeError
  channel : NodeError
  unexpected : NodeError
  key_mismatch : NodeError
  bad_signature : NodeError

abbrev pub Answer : Type 0 → Type 0
Answer T = NodeError ⊎ T

-- The index of the owner among the shards.
unfoldable pub owner : NodeId → Key → ℕ → ℕ
owner self_id k shards = shard_id self_id k shards

unfoldable pub put_ttl : Answer Reply → Answer Key
put_ttl (inl e) = inl e
put_ttl (inr (key k)) = inr k
put_ttl (inr (failure e)) = inl (reported e)
put_ttl (inr _) = inl unexpected

unfoldable pub get : Answer Reply → Answer (Option Bytes)
get (inl e) = inl e
get (inr (found none)) = inr none
get (inr (found (some r))) = inr (some r.value)
get (inr (value v)) = inr v
get (inr (failure e)) = inl (reported e)
get (inr _) = inl unexpected

unfoldable pub get_record : Key → Answer Reply → Answer (Option StoredRecord)
get_record k (inl e) = inl e
get_record k (inr (found r)) = inr r
get_record k (inr (value (some v))) = inr (
    some (record {
      key = k;
      value = v;
      sequence = 0;
      ttl_secs = 0;
      not_before_unix = 0;
      owner_pubkey = [];
      signature = [];
      kind = kind_immutable;
      namespace = [];
      salt = [];
      stored_unix = 0;
      cache = false;
    }))
get_record k (inr (value none)) = inr none
get_record k (inr (failure e)) = inl (reported e)
get_record k (inr _) = inl unexpected

-- The checks of `get_mutable` on the record that was found.
unfoldable pub check_mutable :
    Primitives → Bytes → Bytes → Bytes → StoredRecord → Answer (Option Bytes)
check_mutable c owner_pk ns salt rec =
    if not (rec.key == mutable_key c owner_pk ns salt)
      || (not (rec.namespace == ns) || not (rec.salt == salt))
    then inl key_mismatch
    else if not (signed_by c rec owner_pk)
    then inl bad_signature
    else inr (some rec.value)

unfoldable pub get_mutable :
    Primitives → Bytes → Bytes → Bytes → Answer Reply → Answer (Option Bytes)
unfolding check_mutable get_record
get_mutable c owner_pk ns salt reply = elim (get_record (mutable_key c owner_pk ns salt) reply) [
  | inl e ↦ inl e
  | inr none ↦ inr none
  | inr (some rec) ↦ check_mutable c owner_pk ns salt rec
]

-- The record that `put_mutable_ttl` signs and sends. `pk` is the public half of `signing`.
unfoldable pub mutable_record :
    Primitives → ℕ → Bytes → Bytes → Bytes → Bytes → Bytes → ℕ → ℕ → StoredRecord
mutable_record c now signing pk ns salt v seq ttl_secs = record {
  key = mutable_key c pk ns salt;
  value = v;
  sequence = seq;
  ttl_secs = ttl_secs;
  not_before_unix = 0;
  owner_pubkey = pk;
  signature = sign_record c signing (mutable_key c pk ns salt) v seq ttl_secs 0;
  kind = kind_mutable;
  namespace = ns;
  salt = salt;
  stored_unix = now;
  cache = false;
}

unfoldable pub announce_provider : Answer Reply → Answer Unit
announce_provider (inl e) = inl e
announce_provider (inr acknowledged) = inr tt
announce_provider (inr (failure e)) = inl (reported e)
announce_provider (inr _) = inl unexpected

unfoldable pub find_providers : Answer Reply → Answer (List (NodeId × Bytes))
find_providers (inl e) = inl e
find_providers (inr (providers p)) = inr p
find_providers (inr (value v)) = inr []
find_providers (inr (failure e)) = inl (reported e)
find_providers (inr _) = inl unexpected
