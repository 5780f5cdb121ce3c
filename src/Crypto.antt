-- ===== src/Crypto.antt =====
-- src/crypto.rs: hashes, record and binding signatures, proof of work, and the identity file.
-- BLAKE3, Ed25519 and X25519 are third-party code: a parameter of every definition that calls them.
pub mod Signed
pub mod Work
use molia.Prelude.{
  ℕ, zero, suc, ◌+◌, ◌≡◌, Bool, true, false, ◌&&◌, Option, none, some, List, [], ◌∷◌, ◌++◌, length,
  take, drop, if◌then◌else◌, ltb, leb, ◌==◌, Eq, nat_eq, ◌>>=◌, not,
}
use molia.Prelude.Words.{Bytes, IsBytes, to_be}
use molia.Types.{Key, NodeId, IsId, from_bytes, leading_zeros_loop}

-- What the code calls of `blake3` and `ed25519_dalek`. `hash` is the 32-byte hash of the bytes that a
-- hasher was fed. `public_key` is `PublicKey::from_bytes`, `signature` is `Signature::from_bytes`:
-- they answer whether the bytes are accepted. `verify` is the check of a signature of a message.
pub record Primitives : Type 0 where
  pub hash : Bytes → Bytes
  pub public_key : Bytes → Bool
  pub signature : Bytes → Bool
  pub verify : Bytes → Bytes → Bytes → Bool
  pub sign : Bytes → Bytes → Bytes

-- The documented output of the hash: 32 bytes.
pub record IsHashing (c : Primitives) : Type 0 where
  pub digest : (m : Bytes) → IsId (c.hash m)

-- `b"molia-wg-bind-v1"`.
abbrev pub bind_tag : Bytes
bind_tag =
    109 ∷ 111 ∷ 108 ∷ 105 ∷ 97 ∷ 45 ∷ 119 ∷ 103 ∷ 45 ∷ 98 ∷ 105 ∷ 110 ∷ 100 ∷ 45 ∷ 118 ∷ 49 ∷ []

unfoldable pub binding_message : Bytes → Bytes → Bytes
binding_message ed25519_pk x25519_pk = bind_tag ++ (ed25519_pk ++ x25519_pk)

unfoldable pub record_bytes : Key → Bytes → ℕ → ℕ → ℕ → Bytes
record_bytes key value sequence ttl nb =
    key ++ (value ++ (to_be 8 sequence ++ (to_be 8 ttl ++ to_be 8 nb)))

unfoldable pub leading_zero_bits : Bytes → ℕ
leading_zero_bits hash = leading_zeros_loop hash 0

module _ (c : Primitives) where
  unfoldable pub node_id_from_pubkey : Bytes → NodeId
  node_id_from_pubkey ed25519_pk = c.hash ed25519_pk

  unfoldable pub hash_value : Bytes → Key
  hash_value value = c.hash value

  unfoldable pub mutable_key : Bytes → Bytes → Bytes → Key
  mutable_key owner_pubkey namespace salt = c.hash (owner_pubkey ++ namespace ++ salt)

  -- A key of 32 bytes and a signature, both accepted, and the check.
  unfoldable pub verify_message : Bytes → Bytes → Bytes → Bool
  verify_message pk msg sig =
      if not (length pk == 32)
      then false
      else if not (c.public_key pk)
      then false
      else if not (c.signature sig)
      then false
      else c.verify pk msg sig

  unfoldable pub verify_binding : Bytes → Bytes → Bytes → Bool
  verify_binding ed25519_pk x25519_pk sig =
      verify_message ed25519_pk (binding_message ed25519_pk x25519_pk) sig

  unfoldable pub sign_record : Bytes → Key → Bytes → ℕ → ℕ → ℕ → Bytes
  sign_record signing key value sequence ttl nb =
      c.sign signing (record_bytes key value sequence ttl nb)

  unfoldable pub verify_record : Bytes → Key → Bytes → ℕ → ℕ → ℕ → Bytes → Bool
  verify_record owner_pk key value sequence ttl nb sig =
      verify_message owner_pk (record_bytes key value sequence ttl nb) sig

  unfoldable pub verify_ephemeral_pow : Bytes → Bytes → ℕ → Bool
  verify_ephemeral_pow ephemeral_pub nonce difficulty_bits =
      leb difficulty_bits (leading_zero_bits (c.hash (ephemeral_pub ++ nonce)))

  unfoldable pub cost_stamp : Key → Bytes → Bytes → Bytes
  cost_stamp key salt nonce = c.hash (key ++ salt ++ nonce)

  unfoldable pub verify_cost_stamp : Key → Bytes → Bytes → ℕ → Bool
  verify_cost_stamp key salt nonce difficulty_bits =
      leb difficulty_bits (leading_zero_bits (cost_stamp key salt nonce))

-- The secrets of an identity: the Ed25519 seed and the X25519 secret. The public halves are computed
-- from them by third-party code.
pub record Identity : Type 0 where
  pub seed : Bytes
  pub wg_secret : Bytes

unfoldable pub to_bytes : Identity → Bytes
to_bytes i = i.seed ++ i.wg_secret

-- `Identity::from_bytes` on 64 bytes; `secret_key` answers whether `SecretKey::from_bytes` accepts.
unfoldable pub identity_from_bytes : (Bytes → Bool) → Bytes → Option Identity
identity_from_bytes secret_key bytes =
    if secret_key (take 32 bytes)
    then some (record { seed = take 32 bytes; wg_secret = drop 32 bytes })
    else none
