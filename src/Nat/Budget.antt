-- ===== src/Nat/Budget.antt =====
-- The bound on relayed bytes, the candidates and the choice of a relay.
use molia.Prelude.{
  leb, ℕ, ◌+◌, ◌*◌, ◌%◌, ◌<◌, ◌≤◌, ◌≡◌, refl, subst, inl, inr, Bool, true, false, not, ◌&&◌, ◌||◌,
  Option, none, some, List, [], ◌∷◌, length, any, all, find, if◌then◌else◌, ◌==◌, nat_eq, bytes_eq,
  Bool-cases, arith, Distinct,
}
use molia.Prelude.Words.{u64_mod}
use molia.Types.{NodeId, SocketAddr, ip_eq, addr_eq, bucket_index}
use molia.Nat.{
  RelayBudget, new_budget, allow, on_egress, RelayState, forward, pick_relay, is_unspecified,
  localhost, candidates,
}

-- What was relayed is at most a fifth of what left the node, as long as the counters of 64 bits hold.
abbrev pub IsWithin : RelayBudget → Type 0
IsWithin b = b.overflowed ≡ false → b.relayed * 5 ≤ b.egress

pub on_egress-IsWithin : (bytes : ℕ) (b : RelayBudget) → IsWithin b → IsWithin (on_egress bytes b)
unfolding on_egress
on_egress-IsWithin bytes b v fits =
    let before : b.overflowed ≡ false = ground arith in
    let small : b.egress + bytes < u64_mod = ground arith in omega (arith, v before, small)

allow-IsWithin :
    (bytes : ℕ) (b : RelayBudget)
    → (b.overflowed ≡ false → (b.relayed * 5 ≤ b.egress) × (b.egress ≡ 0 → bytes ≡ 0))
    → IsWithin (allow bytes b).0
unfolding allow
allow-IsWithin bytes b v = elim (Bool-cases (b.egress == 0)) [
  | inl idle ↦ rw idle (λ fits. first (ground arith) (ground arith) (ground arith))
  | inr busy ↦
      elim (Bool-cases (
        leb ((b.relayed + bytes) % u64_mod * 10 % u64_mod)
          (((b.egress * 1) % u64_mod + b.egress) % u64_mod))) [
            | inl room ↦
                rw (busy, room)
                  (λ fits. second (ground arith) (ground arith) (ground arith) (ground arith) room)
            | inr refused ↦ rw (busy, refused) (λ fits. (v (ground arith)).0)
          ]
]
  where
    first :
        b.overflowed ≡ false
        → b.egress ≡ 0
        → b.relayed + bytes < u64_mod
        → (b.relayed + bytes) % u64_mod * 5 ≤ b.egress
    first clear idle small =
        let (within, nothing) = v clear in omega (arith, within, nothing idle, idle, small)

    second :
        b.overflowed ≡ false
        → b.relayed + bytes < u64_mod
        → (b.relayed + bytes) % u64_mod * 10 < u64_mod
        → (b.egress * 1) % u64_mod + b.egress < u64_mod
        → leb
            ((b.relayed + bytes) % u64_mod * 10 % u64_mod)
            (((b.egress * 1) % u64_mod + b.egress) % u64_mod)
          ≡ true
        → (b.relayed + bytes) % u64_mod * 5 ≤ b.egress
    second clear sum product share room =
        let le : (b.relayed + bytes) % u64_mod * 10 % u64_mod
            ≤ ((b.egress * 1) % u64_mod + b.egress) % u64_mod =
          ground arith in
        omega (arith, le, sum, product, share)

-- From a fresh relay on, every packet, whatever its size, keeps the relayed bytes at or below a fifth of
-- all bytes counted as sent, as long as no sum or product of 64 bits overflows. A packet that comes to
-- the budget is counted as sent; it is counted as relayed if it is forwarded, and not if it is
-- refused. With the relay off, data is refused and changes nothing.
pub forward-IsWithin :
    (r : RelayState) (bytes : ℕ) (control : Bool)
    → IsWithin new_budget
      × (IsWithin r.budget → IsWithin (forward bytes control r).0.budget)
      × ((r.enabled || control) ≡ true
          → (forward bytes control r).0.budget.egress ≡ (r.budget.egress + bytes) % u64_mod)
      × ((forward bytes control r).1 ≡ true
          → (forward bytes control r).0.budget.relayed ≡ (r.budget.relayed + bytes) % u64_mod)
      × ((forward bytes control r).1 ≡ false
          → (forward bytes control r).0.budget.relayed ≡ r.budget.relayed)
      × (r.enabled ≡ false → control ≡ false → forward bytes control r ≡ (r, false))
unfolding forward allow on_egress new_budget
forward-IsWithin r bytes control = (
  λ fresh. omega arith,
  λ v. elim (Bool-cases (not r.enabled && not control)) [
    | inl off ↦ rw off v
    | inr on ↦ rw on (
        allow-IsWithin bytes (on_egress bytes r.budget)
          (λ clear. (on_egress-IsWithin bytes r.budget v clear, λ empty. ground arith)))
  ],
  ground arith,
  ground arith,
  ground arith,
  ground arith,
)

-- A relay is one of the candidates, in another bucket than the destination, and one is found whenever
-- there is such a candidate.
pub pick_relay_lem :
    (self_id dest : NodeId) (cs : List (NodeId × SocketAddr))
    → ((a : SocketAddr)
        → pick_relay self_id dest cs ≡ some a
        → any (λ c. not (bucket_index self_id c.0 == bucket_index self_id dest) && c.1 == a) cs
          ≡ true)
      × (pick_relay self_id dest cs ≡ none
          → all (λ c. bucket_index self_id c.0 == bucket_index self_id dest) cs ≡ true)
unfolding pick_relay find any all
pick_relay_lem self_id dest [] = (λ a h. cc, λ h. refl)
pick_relay_lem self_id dest (c ∷ cs) =
    ground (arith, pick_relay_lem self_id dest cs, addr_eq.beq_iff c.1 c.1)

-- The first candidate is never an unspecified address, no candidate occurs twice, there are at most
-- two, and a mapped address is always one of them.
pub candidates_lem :
    (local : SocketAddr) (mapped : Option SocketAddr)
    → (length (candidates local mapped) ≤ 2)
      × Distinct (λ a. a) (candidates local mapped)
      × ((m : SocketAddr) → mapped ≡ some m → any (λ a. a == m) (candidates local mapped) ≡ true)
unfolding candidates any
candidates_lem local none = (omega arith, (refl, tt), λ m h. cc)
candidates_lem local (some m) =
    let host : SocketAddr =
      if is_unspecified local.ip then record { ip = localhost; port = local.port } else local in
    by_host host m
  where
    by_host :
        (host m : SocketAddr)
        → (length (if host == m then host ∷ [] else host ∷ m ∷ []) ≤ 2)
          × Distinct (λ a. a) (if host == m then host ∷ [] else host ∷ m ∷ [])
          × ((n : SocketAddr)
              → some m ≡ some n
              → any (λ a. a == n) (if host == m then host ∷ [] else host ∷ m ∷ []) ≡ true)
    by_host host m =
        unfold any in
        elim (Bool-cases (host == m)) [
          | inl e ↦ rw e (
            omega arith,
            (refl, tt),
            λ n q.
                let same : m ≡ n = ground arith in
                subst (λ x. ((host == x) || false) ≡ true) same (rw e refl),
          )
          | inr e ↦ rw e (
            omega arith,
            (ground (arith, addr_eq.beq_iff host m, addr_eq.beq_iff m host), (refl, tt)),
            λ n q.
                let same : m ≡ n = ground arith in
                subst (λ x. ((host == x) || ((m == x) || false)) ≡ true) same
                  (ground (arith, addr_eq.beq_iff m m)),
          )
        ]
