-- ===== src/Tests.antt =====
-- Concrete data of the tests. Each module below runs the model of one part on it.
pub mod Identifiers
pub mod Wire
pub mod Table
pub mod Records
pub mod Logs
pub mod Lookups
pub mod Loop
pub mod Shards
use molia.Prelude.{
  ℕ, ◌+◌, ◌<◌, ◌≡◌, refl, true, none, ◌==◌, bytes_eq, List, [], ◌∷◌, ◌++◌, replicate, All,
  All-append, All-replicate, length, length-append, length-replicate, arith,
}
use molia.Prelude.Words.{Bytes}
use molia.Types.{IsId, SocketAddr, v4, PeerInfo, new_peer}
use molia.Crypto.{Primitives}

-- The identifier of 31 zeros and one byte.
abbrev pub id_of : ℕ → Bytes
id_of n = replicate 31 0 ++ (n ∷ [])

pub id_of-IsId : (n : ℕ) → n < 256 → IsId (id_of n)
id_of-IsId n h = record {
  size = refl;
  bytes =
      All-append (λ b. b < 256) (replicate 31 0) (n ∷ [])
        (All-replicate (λ b. b < 256) 31 0 (omega arith)) (h, tt);
}

abbrev pub localhost : ℕ → SocketAddr
localhost port = record { ip = v4 (127 ∷ 0 ∷ 0 ∷ 1 ∷ []); port = port }

abbrev pub contact : ℕ → PeerInfo
contact n = record { id = id_of n; addrs = localhost (4000 + n) ∷ []; rtt_ms = 0; x25519 = none }

-- A toy hash and a toy signature: the hash is 31 zeros and the length, every key is accepted, and a
-- signature is the message itself.
abbrev pub toy : Primitives
toy = record {
  hash = λ m. id_of (length m);
  public_key = λ k. true;
  signature = λ s. true;
  verify = λ pk msg sig. sig == msg;
  sign = λ sk msg. msg;
}
