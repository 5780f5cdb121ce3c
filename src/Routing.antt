-- ===== src/Routing.antt =====
-- src/routing.rs: the k-bucket routing table. `Instant::now()` is an argument, a number that only
-- grows. `ArrayVec` is a list with its capacity tested where the code pushes; the 256 buckets are a
-- list of lists.
pub mod Buckets
pub mod Insert
pub mod Evict
pub mod Failures
pub mod Closest
use molia.Prelude.{
  ℕ, zero, suc, ◌+◌, ◌-◌, ◌*◌, ◌/◌, ◌%◌, ◌^◌, ◌≤◌, ◌<◌, ◌≡◌, min, max, Bool, true, false, not, ◌&&◌,
  ◌||◌, Option, none, some, List, [], ◌∷◌, ◌++◌, map, length, get_or, set, take, replicate, find,
  retain, position, if◌then◌else◌, ltb, leb, ◌==◌, Eq, nat_eq, bytes_eq, unwrap_or,
}
use mathlib.Core.List.{flatten}
use molia.Prelude.Words.{Bytes, u32_mod}
use molia.Prelude.Sort.{sort_by}
use molia.Types.{
  NodeId, Key, IpAddr, v4, v6, SocketAddr, PeerInfo, primary_addr, first, bucket_index,
  xor_distance, k_default, k_max,
}

pub record PeerEntry : Type 0 where
  pub info : PeerInfo
  pub last_seen : ℕ
  pub fail_count : ℕ
  pub srtt_us : ℕ

-- `PeerEntry::id`.
abbrev pub id : PeerEntry → NodeId
id e = e.info.id

abbrev pub Bucket : Type 0
Bucket = List PeerEntry

-- The capacity of a replacement cache.
abbrev pub replacement_cap : ℕ
replacement_cap = 8

pub record RoutingTable : Type 0 where
  pub self_id : NodeId
  pub k : ℕ
  pub buckets : List Bucket
  pub replacement : List Bucket

unfoldable pub new : NodeId → RoutingTable
new self_id = record {
  self_id = self_id;
  k = k_default;
  buckets = replicate 256 [];
  replacement = replicate 256 [];
}

abbrev pub bucket : RoutingTable → ℕ → Bucket
bucket t i = get_or t.buckets i []

abbrev pub spare : RoutingTable → ℕ → Bucket
spare t i = get_or t.replacement i []

-- `self.buckets[i] = b`.
abbrev pub set_bucket : RoutingTable → ℕ → Bucket → RoutingTable
set_bucket t i b = record t { buckets = set t.buckets i b }

unfoldable pub len : RoutingTable → ℕ
len t = length (flatten t.buckets)

-- The first three octets of an IPv4 address.
unfoldable pub prefix_24 : PeerInfo → Option Bytes
prefix_24 info = elim (primary_addr info) [
  | none ↦ none
  | some addr ↦ elim addr.ip [ v4 octets ↦ some (take 3 octets) | v6 octets ↦ none ]
]

unfoldable pub same_prefix : Bytes → PeerEntry → Bool
unfolding prefix_24
same_prefix prefix e = elim (prefix_24 e.info) [ none ↦ false | some p ↦ p == prefix ]

-- The peers of a bucket that share an IPv4 /24.
abbrev pub count_prefix : Bytes → Bucket → ℕ
count_prefix prefix b = length (retain (same_prefix prefix) b)

unfoldable pub prefix_ok : RoutingTable → PeerInfo → Bool
unfolding prefix_24
prefix_ok t info = elim (prefix_24 info) [
  | none ↦ true
  | some prefix ↦ ltb (count_prefix prefix (bucket t (bucket_index t.self_id info.id))) 8
]

abbrev pub new_entry : ℕ → PeerInfo → PeerEntry
new_entry now info = record { info = info; last_seen = now; fail_count = 0; srtt_us = 200000 }

-- What a touch leaves of an entry: the new contact, seen now; the round-trip estimate stays.
abbrev pub touched : ℕ → PeerInfo → PeerEntry → PeerEntry
touched now info e = record e { info = info; last_seen = now; fail_count = 0 }

-- The entry at `pos` is changed, removed and pushed at the back.
unfoldable pub move_to_back : ℕ → (PeerEntry → PeerEntry) → Bucket → Bucket
move_to_back pos f [] = []
move_to_back zero f (e ∷ b) = b ++ f e ∷ []
move_to_back (suc pos) f (e ∷ b) = e ∷ move_to_back pos f b

-- The end of `insert`, for a peer that the bucket does not hold: pushed if there is room, otherwise
-- kept as a spare if there is room there, and the least recently seen entry is returned. The code
-- reads `buckets[i][0]`; a bucket that is full is not empty, since `k` is 20.
unfoldable pub insert_absent : ℕ → RoutingTable → PeerInfo → ℕ → RoutingTable × Option PeerEntry
insert_absent now t info i =
    if ltb (length (bucket t i)) (min t.k k_max)
    then (set_bucket t i (bucket t i ++ new_entry now info ∷ []), none)
    else (
      (if ltb (length (spare t i)) replacement_cap
          then record t { replacement = set t.replacement i (spare t i ++ new_entry now info ∷ []) }
          else t),
      first (bucket t i),
    )

unfoldable pub insert : ℕ → RoutingTable → PeerInfo → RoutingTable × Option PeerEntry
unfolding insert_absent
insert now t info =
    if info.id == t.self_id
    then (t, none)
    else if not (prefix_ok t info)
    then (t, none)
    else (let i = bucket_index t.self_id info.id in
        elim (position (λ e. id e == info.id) (bucket t i)) [
          | some pos ↦ (set_bucket t i (move_to_back pos (touched now info) (bucket t i)), none)
          | none ↦ insert_absent now t info i
        ])

-- `pop`: the last element and the others.
unfoldable pub pop : Bucket → Option (PeerEntry × Bucket)
pop [] = none
pop (e ∷ b) = elim (pop b) [ none ↦ some (e, []) | some (l, rest) ↦ some (l, e ∷ rest) ]

-- `try_push` of an array of `k_max` places.
unfoldable pub try_push : PeerEntry → Bucket → Bucket
try_push e b = if ltb (length b) k_max then b ++ e ∷ [] else b

unfoldable pub evict_and_replace : RoutingTable → NodeId → RoutingTable
evict_and_replace t dead =
    let i = bucket_index t.self_id dead in
    let kept = retain (λ e. not (id e == dead)) (bucket t i) in
    elim (pop (spare t i)) [
      | none ↦ set_bucket t i kept
      | some (e, rest) ↦ record t {
        buckets = set t.buckets i (try_push e kept);
        replacement = set t.replacement i rest;
      }
    ]

-- `iter_mut().find`, and a change of what it finds.
unfoldable pub update_first : (PeerEntry → Bool) → (PeerEntry → PeerEntry) → Bucket → Bucket
update_first p f [] = []
update_first p f (e ∷ b) = if p e then f e ∷ b else e ∷ update_first p f b

-- `(old * 7 + sample) / 8` on 32 bits, wrapping.
unfoldable pub ewma : ℕ → ℕ → ℕ
ewma old sample = (old * 7 + sample) % u32_mod / 8

abbrev pub answered : ℕ → ℕ → PeerEntry → PeerEntry
answered now rtt_us e =
    let srtt = ewma e.srtt_us rtt_us in
    record e {
      info = record (e.info) { rtt_ms = srtt / 1000 };
      last_seen = now;
      fail_count = 0;
      srtt_us = srtt;
    }

unfoldable pub touch_ok : ℕ → RoutingTable → NodeId → ℕ → RoutingTable
touch_ok now t peer rtt_us =
    let i = bucket_index t.self_id peer in
    set_bucket t i (update_first (λ e. id e == peer) (answered now rtt_us) (bucket t i))

-- `saturating_add(1)` on 32 bits.
abbrev pub failed : PeerEntry → PeerEntry
failed e = record e { fail_count = min (e.fail_count + 1) (u32_mod - 1) }

unfoldable pub get : RoutingTable → NodeId → Option PeerEntry
get t peer = find (λ e. id e == peer) (bucket t (bucket_index t.self_id peer))

unfoldable pub mark_fail : RoutingTable → NodeId → RoutingTable
mark_fail t peer = elim (get t peer) [
  | none ↦ t
  | some e ↦
      let i = bucket_index t.self_id peer in
      let marked = set_bucket t i (update_first (λ x. id x == peer) failed (bucket t i)) in
      if leb 3 (failed e).fail_count then evict_and_replace marked peer else marked
]

-- The order of `[u8; 32]`: the first byte that differs decides.
unfoldable pub bytes_le : Bytes → Bytes → Bool → Bool
bytes_le (x ∷ a) (y ∷ b) tie =
    if ltb x y then true else (if ltb y x then false else bytes_le a b tie)
bytes_le [] [] tie = tie
bytes_le [] (y ∷ b) tie = true
bytes_le (x ∷ a) [] tie = false

-- By distance to the target, then by round-trip time.
unfoldable pub closer : Key → PeerInfo → PeerInfo → Bool
closer target a b =
    bytes_le (xor_distance a.id target) (xor_distance b.id target) (leb a.rtt_ms b.rtt_ms)

unfoldable pub closest : RoutingTable → Key → ℕ → List PeerInfo
unfolding closer
closest t target n =
    take (min n k_max)
      (map (λ e. e.info) (sort_by (λ a b. closer target a.info b.info) (flatten t.buckets)))

unfoldable pub timeout_us : RoutingTable → NodeId → ℕ
timeout_us t peer =
    let srtt : ℕ = elim (get t peer) [ none ↦ 200000 | some e ↦ e.srtt_us ] in
    max 50000 (min 600000 (min (srtt * 2) (u32_mod - 1)))
