-- ===== src/Sybil.antt =====
-- src/sybil.rs: token buckets, scores, admission tokens and proof of work. 64-bit floating point is a
-- parameter, `Floats`; a time is milliseconds, and `now` is an argument where the code reads the clock.
pub mod Admission
use molia.Prelude.{
  ℕ, zero, suc, ◌+◌, ◌-◌, ◌*◌, ◌≡◌, min, Bool, true, false, not, ◌&&◌, Option, none, some, List, [],
  ◌∷◌, ◌++◌, length, take, replicate, if◌then◌else◌, ltb, leb, ◌==◌, Eq, nat_eq, bytes_eq,
  unwrap_or,
}
use molia.Prelude.Words.{Bytes, le_value, to_le}
use molia.Prelude.Text.{codes}
use molia.Prelude.Maps
use molia.Types.{NodeId, Key, IpAddr, v4, v6, SocketAddr, ip_eq}
use molia.Crypto.{Primitives, leading_zero_bits, cost_stamp, verify_ephemeral_pow}

-- `f64`: literals as fractions, the seconds of a number of milliseconds, arithmetic and tests.
pub record Floats (F : Type 0) : Type 0 where
  pub literal : ℕ → ℕ → F
  pub seconds : ℕ → F
  pub add : F → F → F
  pub sub : F → F → F
  pub mul : F → F → F
  pub min_of : F → F → F
  -- `>=` and `>`.
  pub at_least : F → F → Bool
  pub above : F → F → Bool

pub record TokenBucket (F : Type 0) : Type 0 where
  pub tokens : F
  pub cap : F
  pub rate_per_s : F
  pub last : ℕ

pub record Score (F : Type 0) : Type 0 where
  pub ewma : F
  pub quarantine : ℕ

-- An admission token: its first eight bytes as a number, and the time it was minted.
pub record Sybil (F : Type 0) : Type 0 where
  pub pow_nonce : Bytes
  pub pow_bits : ℕ
  pub op_bits : ℕ
  pub ip_buckets : List (IpAddr × TokenBucket F)
  pub prefix_buckets : List (Bytes × TokenBucket F)
  pub peer_buckets : List (NodeId × TokenBucket F)
  pub scores : List (NodeId × Score F)
  pub tokens : List (NodeId × (ℕ × ℕ))
  pub token_secret : Bytes

module _ {F : Type 0} (f : Floats F) where
  -- `TokenBucket::new`.
  unfoldable pub new_bucket : ℕ → F → F → TokenBucket F
  new_bucket now cap rate_per_s = record {
    tokens = cap;
    cap = cap;
    rate_per_s = rate_per_s;
    last = now;
  }

  unfoldable pub refill : ℕ → TokenBucket F → TokenBucket F
  refill now b = record b {
    tokens = f.min_of (f.add b.tokens (f.mul (f.seconds (now - b.last)) b.rate_per_s)) b.cap;
    last = now;
  }

  -- `TokenBucket::take`.
  unfoldable pub take_tokens : ℕ → F → TokenBucket F → TokenBucket F × Bool
  unfolding refill
  take_tokens now n b =
      let b' = refill now b in
      if f.at_least b'.tokens n
      then (record b' { tokens = f.sub b'.tokens n }, true)
      else (b', false)

  -- `entry(k).or_insert_with(..)` and a take from what stands there.
  unfoldable pub take_entry {ℓ} :
      {K : Type ℓ} ⦃e : Eq K⦄
      → ℕ
      → K
      → TokenBucket F
      → F
      → List (K × TokenBucket F)
      → List (K × TokenBucket F) × Bool
  unfolding take_tokens
  take_entry now k fresh n m =
      let (b, ok) = take_tokens now n (unwrap_or (Maps.lookup k m) fresh) in (Maps.insert k b m, ok)

  unfoldable pub default_score : Score F
  default_score = record { ewma = f.literal 5 10; quarantine = 0 }

  unfoldable pub new : Primitives → Sybil F
  new c = record {
    pow_nonce = replicate 16 0x42;
    pow_bits = 0;
    op_bits = 0;
    ip_buckets = [];
    prefix_buckets = [];
    peer_buckets = [];
    scores = [];
    tokens = [];
    token_secret = c.hash (codes "molia-admission-dev");
  }

  -- The bucket of the address, and for IPv4 the one of its /24.
  unfoldable pub allow_pre_handshake : ℕ → SocketAddr → Sybil F → Sybil F × Bool
  unfolding take_entry new_bucket
  allow_pre_handshake now src s =
      let (ips, ok) =
        take_entry now src.ip (new_bucket now (f.literal 20 1) (f.literal 10 1)) (f.literal 1 1)
          s.ip_buckets in
      let s' = record s { ip_buckets = ips } in
      if not ok then (s', false) else elim src.ip [
        | v4 octets ↦
            let (prefixes, fine) =
              take_entry now (take 3 octets) (new_bucket now (f.literal 80 1) (f.literal 40 1))
                (f.literal 1 1) s.prefix_buckets in
            (record s' { prefix_buckets = prefixes }, fine)
        | v6 octets ↦ (s', true)
      ]

  unfoldable pub quarantine_of : NodeId → Sybil F → ℕ
  quarantine_of peer s = elim (Maps.lookup peer s.scores) [ none ↦ 0 | some x ↦ x.quarantine ]

  -- The rate is half of the capacity.
  unfoldable pub allow_peer : ℕ → NodeId → F → Sybil F → Sybil F × Bool
  unfolding quarantine_of take_entry new_bucket
  allow_peer now peer cost s =
      let cap = if ltb 0 (quarantine_of peer s) then f.literal 4 1 else f.literal 40 1 in
      let (peers, ok) =
        take_entry now peer (new_bucket now cap (f.mul cap (f.literal 1 2))) cost s.peer_buckets in
      (record s { peer_buckets = peers }, ok)

  unfoldable pub check_pow : Primitives → Bytes → Sybil F → Bool
  check_pow c ephemeral s = verify_ephemeral_pow c ephemeral s.pow_nonce s.pow_bits

  -- `keyed` is the keyed hash of the third-party library; `nanos` is the time since `now`, of 128
  -- bits.
  unfoldable pub mint_token : (Bytes → Bytes → Bytes) → ℕ → ℕ → NodeId → Sybil F → Sybil F × Bytes
  mint_token keyed now nanos peer s =
      let tok = keyed s.token_secret (peer ++ to_le 16 nanos) in
      (record s { tokens = Maps.insert peer (le_value (take 8 tok), now) s.tokens }, tok)

  unfoldable pub check_token : ℕ → NodeId → Bytes → Sybil F → Bool
  check_token now peer tok s = elim (Maps.lookup peer s.tokens) [
    | none ↦ false
    | some (head, minted) ↦
        if ltb 600000 (now - minted)
        then false
        else leb 8 (length tok) && le_value (take 8 tok) == head
  ]

  unfoldable pub check_cost_stamp : Primitives → Key → Bytes → Bytes → Sybil F → Bool
  check_cost_stamp c key salt nonce s =
      if s.op_bits == 0
      then true
      else leb s.op_bits (leading_zero_bits (cost_stamp c key salt nonce))

  unfoldable pub reward : NodeId → Sybil F → Sybil F
  unfolding default_score
  reward peer s =
      let x = unwrap_or (Maps.lookup peer s.scores) default_score in
      let ewma = f.add (f.mul x.ewma (f.literal 8 10)) (f.literal 2 10) in
      record s {
        scores =
            Maps.insert peer
              (record x {
                ewma = ewma;
                quarantine = if f.above ewma (f.literal 7 10) then 0 else x.quarantine;
              })
              s.scores;
      }

  -- `saturating_add(1).min(3)` on a byte.
  unfoldable pub penalize : NodeId → Sybil F → Sybil F
  unfolding default_score
  penalize peer s =
      let x = unwrap_or (Maps.lookup peer s.scores) default_score in
      let ewma = f.mul x.ewma (f.literal 7 10) in
      record s {
        scores =
            Maps.insert peer
              (record x {
                ewma = ewma;
                quarantine =
                    if f.above (f.literal 2 10) ewma
                    then min (min (x.quarantine + 1) 255) 3
                    else x.quarantine;
              })
              s.scores;
      }

  unfoldable pub alpha_cap : NodeId → Sybil F → ℕ
  unfolding quarantine_of
  alpha_cap peer s = let q = quarantine_of peer s in if q == 0 then 8 else if q == 1 then 3 else 1

  unfoldable pub raise_difficulty : Sybil F → Sybil F
  raise_difficulty s = record s { pow_bits = min (min (s.pow_bits + 1) 255) 16 }
