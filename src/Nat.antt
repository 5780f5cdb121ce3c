-- ===== src/Nat.antt =====
-- src/nat.rs and src/relay.rs: address classification, candidates, and the budget of relayed bytes.
-- A time is milliseconds on a clock that only grows.
pub mod Budget
use molia.Prelude.{
  ℕ, zero, suc, ◌+◌, ◌-◌, ◌*◌, ◌%◌, ◌≡◌, Bool, true, false, not, ◌&&◌, ◌||◌, Option, none, some,
  List, [], ◌∷◌, ◌++◌, length, any, all, find, if◌then◌else◌, ltb, leb, ◌==◌, Eq, nat_eq, bytes_eq,
}
use molia.Prelude.Words.{u64_mod}
use molia.Types.{NodeId, IpAddr, v4, v6, SocketAddr, ip_eq, addr_eq, bucket_index}

abbrev pub consent_ttl : ℕ
consent_ttl = 30 * 60 * 1000

abbrev pub relay_budget_num : ℕ
relay_budget_num = 1

abbrev pub relay_budget_den : ℕ
relay_budget_den = 10

pub data NatType : Type 0 where
  full_cone : NatType
  restricted : NatType
  port_restricted : NatType
  symmetric : NatType
  unknown : NatType

pub record EndpointHint : Type 0 where
  pub declared : SocketAddr
  pub observed : Option SocketAddr
  pub last_ok : ℕ

unfoldable pub fresh : ℕ → EndpointHint → Bool
fresh now h = ltb (now - h.last_ok) consent_ttl

unfoldable pub classify : SocketAddr → SocketAddr → NatType
classify declared observed =
    if declared.ip == observed.ip && declared.port == observed.port
    then full_cone
    else if declared.ip == observed.ip
    then port_restricted
    else symmetric

unfoldable pub punch_deadlines : ℕ → ℕ × ℕ
punch_deadlines now = (now + 250, now + 500)

-- All bytes are zero.
unfoldable pub is_unspecified : IpAddr → Bool
is_unspecified (v4 octets) = all (λ b. b == 0) octets
is_unspecified (v6 octets) = all (λ b. b == 0) octets

abbrev pub localhost : IpAddr
localhost = v4 (127 ∷ 0 ∷ 0 ∷ 1 ∷ [])

unfoldable pub candidates : SocketAddr → Option SocketAddr → List SocketAddr
unfolding is_unspecified
candidates local mapped =
    let host : SocketAddr =
      if is_unspecified local.ip then record { ip = localhost; port = local.port } else local in
    elim mapped [ none ↦ host ∷ [] | some m ↦ if host == m then host ∷ [] else host ∷ m ∷ [] ]

-- `overflowed` is no field of the source: it records that some sum or product of 64 bits did not fit,
-- which stops a debug build and wraps in a release build, as it does here.
pub record RelayBudget : Type 0 where
  pub egress : ℕ
  pub relayed : ℕ
  pub overflowed : Bool

unfoldable pub new_budget : RelayBudget
new_budget = record { egress = 0; relayed = 0; overflowed = false }

abbrev pub unfit : ℕ → Bool
unfit n = leb u64_mod n

unfoldable pub allow : ℕ → RelayBudget → RelayBudget × Bool
allow bytes b =
    let sum = b.relayed + bytes in
    let next = sum % u64_mod in
    let product = next * relay_budget_den in
    let share = (b.egress * relay_budget_num) % u64_mod + b.egress in
    let over = b.overflowed || unfit sum in
    let tested = over || unfit product || unfit share in
    if b.egress == 0
    then (record b { relayed = next; overflowed = over }, true)
    else if leb (product % u64_mod) (share % u64_mod)
    then (record b { relayed = next; overflowed = tested }, true)
    else (record b { overflowed = tested }, false)

unfoldable pub on_egress : ℕ → RelayBudget → RelayBudget
on_egress bytes b =
    let sum = b.egress + bytes in
    record b { egress = sum % u64_mod; overflowed = b.overflowed || unfit sum }

pub record RelayState : Type 0 where
  pub enabled : Bool
  pub budget : RelayBudget
  pub prefer_control : Bool

unfoldable pub new_relay : Bool → RelayState
new_relay enabled = record { enabled = enabled; budget = new_budget; prefer_control = true }

unfoldable pub forward : ℕ → Bool → RelayState → RelayState × Bool
unfolding allow on_egress
forward bytes control r =
    if not r.enabled && not control
    then (r, false)
    else (let (budget, ok) = allow bytes (on_egress bytes r.budget) in
        (record r { budget = budget }, ok))

unfoldable pub pick_relay : NodeId → NodeId → List (NodeId × SocketAddr) → Option SocketAddr
pick_relay self_id dest candidates =
    elim (find (λ c. not (bucket_index self_id c.0 == bucket_index self_id dest)) candidates) [
      | none ↦ none
      | some c ↦ some c.1
    ]
