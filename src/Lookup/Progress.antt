-- ===== src/Lookup/Progress.antt =====
-- Timeouts: a peer that does not answer gets one more try.
use molia.Prelude.{
  ℕ, ◌≡◌, refl, ap, subst, ◌∙◌, inl, inr, Bool, true, false, not, ◌&&◌, ◌||◌, List, [], ◌∷◌, map,
  length, retain, any, ◌==◌, nat_eq, bytes_eq, beq→eq, Bool-cases, arith,
}
use molia.Types.{NodeId}
use molia.Lookup.{Lookup, contains, insert_id, timed_out, retry, on_timeouts}

contains-insert_id :
    (j k : NodeId) (set : List NodeId) → contains j (insert_id k set) ≡ (contains j set || k == j)
unfolding insert_id any
contains-insert_id j k set = elim (Bool-cases (contains k set)) [
  | inl old ↦ rw old (known set old)
  | inr new ↦ rw new (ground arith)
]
  where
    known : (xs : List NodeId) → contains k xs ≡ true → contains j xs ≡ (contains j xs || k == j)
    known [] h = cc
    known (x ∷ xs) h =
        unfold any in
        elim (Bool-cases (k == j)) [
          | inr other ↦ ground arith
          | inl same ↦
              let e : k ≡ j = beq→eq k j same in
              subst (λ i. contains i (x ∷ xs) ≡ (contains i (x ∷ xs) || k == i)) e (ground arith)
        ]

contains-retain :
    (j k : NodeId) (xs : List NodeId)
    → contains j (retain (λ i. not (i == k)) xs) ≡ (contains j xs && not (j == k))
unfolding any retain
contains-retain j k [] = refl
contains-retain j k (x ∷ xs) = ground (
  arith,
  contains-retain j k xs,
  bytes_eq.beq_iff x k,
  bytes_eq.beq_iff x j,
  bytes_eq.beq_iff j k,
)

same_contained :
    (p j : NodeId) (xs : List NodeId)
    → contains p xs ≡ true
    → (p == j) ≡ true
    → contains j xs ≡ true
same_contained p j xs h same = subst (λ i. contains i xs ≡ true) (beq→eq p j same) h

different : (p j : NodeId) → (p == j) ≡ (j == p)
different p j = ground (arith, bytes_eq.beq_iff p j, bytes_eq.beq_iff j p)

-- The second try of a peer.
abbrev second_try : NodeId → Lookup → Lookup
second_try p l = record l {
  retries = insert_id p l.retries;
  queried = retain (λ j. not (j == p)) l.queried;
}

retry_again :
    (p : NodeId) (dead : List NodeId) (l : Lookup)
    → contains p l.retries ≡ true
    → retry (p ∷ dead) l ≡ retry dead l
unfolding retry
retry_again p dead l h = rw (retry, h) refl

retry_first :
    (p : NodeId) (dead : List NodeId) (l : Lookup)
    → contains p l.retries ≡ false
    → retry (p ∷ dead) l ≡ retry dead (second_try p l)
unfolding retry
retry_first p dead l h = rw (retry, h) refl

retry-retries :
    (j : NodeId) (dead : List NodeId) (l : Lookup)
    → contains j (retry dead l).retries ≡ (contains j l.retries || contains j dead)
unfolding any
retry-retries j [] l = unfold retry in ground arith
retry-retries j (p ∷ dead) l = elim (Bool-cases (contains p l.retries)) [
  | inl again ↦
      ap (λ (m : Lookup). contains j m.retries) (retry_again p dead l again)
      ∙ retry-retries j dead l
      ∙ known (contains j dead) again
  | inr first ↦
      ap (λ (m : Lookup). contains j m.retries) (retry_first p dead l first)
      ∙ retry-retries j dead (second_try p l)
      ∙ ap (λ b. b || contains j dead) (contains-insert_id j p l.retries)
      ∙ moved (contains j l.retries) (contains j dead)
]
  where
    known :
        (b : Bool)
        → contains p l.retries ≡ true
        → (contains j l.retries || b) ≡ (contains j l.retries || (p == j || b))
    known b again = ground (arith, same_contained p j l.retries again)

    moved : (a b : Bool) → ((a || p == j) || b) ≡ (a || (p == j || b))
    moved a b = ground arith

retry-queried :
    (j : NodeId) (dead : List NodeId) (l : Lookup)
    → contains j (retry dead l).queried
      ≡ (contains j l.queried && (contains j l.retries || not (contains j dead)))
unfolding any
retry-queried j [] l = unfold retry in ground arith
retry-queried j (p ∷ dead) l = elim (Bool-cases (contains p l.retries)) [
  | inl again ↦
      ap (λ (m : Lookup). contains j m.queried) (retry_again p dead l again)
      ∙ retry-queried j dead l
      ∙ known (contains j dead) again
  | inr first ↦
      ap (λ (m : Lookup). contains j m.queried) (retry_first p dead l first)
      ∙ retry-queried j dead (second_try p l)
      ∙ ap (λ b. b && (contains j (insert_id p l.retries) || not (contains j dead)))
          (contains-retain j p l.queried)
      ∙ ap (λ b. (contains j l.queried && not (j == p)) && (b || not (contains j dead)))
          (contains-insert_id j p l.retries)
      ∙ dropped (contains j l.queried) (contains j dead) first
]
  where
    known :
        (b : Bool)
        → contains p l.retries ≡ true
        → (contains j l.queried && (contains j l.retries || not b))
          ≡ (contains j l.queried && (contains j l.retries || not (p == j || b)))
    known b again = ground (arith, same_contained p j l.retries again)

    untried : contains p l.retries ≡ false → (p == j) ≡ true → contains j l.retries ≡ false
    untried first same = subst (λ i. contains i l.retries ≡ false) (beq→eq p j same) first

    dropped :
        (a b : Bool)
        → contains p l.retries ≡ false
        → ((a && not (j == p)) && ((contains j l.retries || p == j) || not b))
          ≡ (a && (contains j l.retries || not (p == j || b)))
    dropped a b first = ground (arith, different p j, untried first)

retry-in_flight : (dead : List NodeId) (l : Lookup) → (retry dead l).in_flight ≡ l.in_flight
unfolding retry
retry-in_flight [] l = refl
retry-in_flight (p ∷ dead) l = elim (Bool-cases (contains p l.retries)) [
  | inl again ↦ rw (retry, again) (retry-in_flight dead l)
  | inr first ↦ rw (retry, first) (retry-in_flight dead _)
]

pub on_timeouts_lem :
    (now : ℕ) (l : Lookup) (j : NodeId)
    → ((on_timeouts now l).1 ≡ map (λ q. q.peer) (retain (timed_out now) l.in_flight))
      × ((on_timeouts now l).0.in_flight ≡ retain (λ q. not (timed_out now q)) l.in_flight)
      × (contains j (on_timeouts now l).0.retries
          ≡ (contains j l.retries || contains j (on_timeouts now l).1))
      × (contains j (on_timeouts now l).0.queried ≡ (
          contains j l.queried && (contains j l.retries || not (contains j (on_timeouts now l).1))))
unfolding on_timeouts
on_timeouts_lem now l j =
    let dead : List NodeId = map (λ q. q.peer) (retain (timed_out now) l.in_flight) in
    let swept : Lookup = record l { in_flight = retain (λ q. not (timed_out now q)) l.in_flight } in
    elim (Bool-cases (length dead == 0)) [
      | inl alive ↦
          rw alive (
            refl,
            retry-in_flight dead swept,
            retry-retries j dead swept,
            retry-queried j dead swept,
          )
      | inr some_dead ↦
          rw some_dead (
            refl,
            retry-in_flight dead swept,
            retry-retries j dead swept,
            retry-queried j dead swept,
          )
    ]
