-- ===== src/Shard/Holes/Timer.antt =====
-- What the punch timer makes of the attempts.
use molia.Prelude.{
  ◌≡◌, refl, sym, ap, subst, ◌∙◌, inl, inr, Bool, true, false, ◌||◌, none, some, List, [], ◌∷◌, ℕ,
  ◌+◌, if◌then◌else◌, ◌==◌, nat_eq, bytes_eq, Bool-cases, arith, any, map, Distinct, has_key,
}
use molia.Prelude.Maps
use molia.Prelude.Maps.{IsMap}
use molia.Types.{NodeId}
use molia.Timers
use molia.Timers.{TimerKind}
use molia.Shard.{PunchAttempt}
use molia.Shard.Context.{Moment, Env, ShardCtx}
use molia.Shard.Holes
use molia.Shard.Lookups.Sweeping.{true-false}
use molia.Shard.Holes.Rounds.{
  is_spent, advanced, may_relay, IsRound, going_on, answered, given_up, earlier-IsRound,
  later-IsRound, punch_round-IsApart, punch_round-IsRound,
}

module _ {T F : Type 0} (e : Env T F) where
  -- What has become of an attempt that stands at `k` after the burst that was due.
  pub data IsOutcome (m : Moment) (id : NodeId) (k : PunchAttempt) (c c' : ShardCtx T F)
      : Type 0 where
    tried :
        Holes.is_fresh e m.now id c ≡ false
        → is_spent m.now k ≡ false
        → Maps.lookup id c'.punches ≡ some k
        → c'.timers ≡ Timers.schedule (m.now + 250) TimerKind.punch c.timers
        → IsOutcome m id k c c'
    met :
        Holes.is_fresh e m.now id c ≡ true
        → Maps.lookup id c'.punches ≡ none
        → Maps.lookup id c'.via_relay ≡ none
        → IsOutcome m id k c c'
    left :
        Holes.is_fresh e m.now id c ≡ false
        → is_spent m.now k ≡ true
        → Maps.lookup id c'.punches ≡ none
        → Maps.lookup id c'.via_relay
          ≡ (if may_relay id c then some k.rendezvous else Maps.lookup id c.via_relay)
        → IsOutcome m id k c c'

  -- The rounds of other peers.
  rounds-apart :
      (m : Moment) (peers : List NodeId) (id : NodeId) (c : ShardCtx T F)
      → any (λ j. j == id) peers ≡ false
      → (Maps.lookup id (Holes.punch_rounds e m peers c).0.punches ≡ Maps.lookup id c.punches)
        × (Maps.lookup id (Holes.punch_rounds e m peers c).0.via_relay ≡ Maps.lookup id c.via_relay)
  unfolding Holes.punch_rounds any
  rounds-apart m [] id c h = (refl, refl)
  rounds-apart m (peer ∷ peers) id c h =
      let v = punch_round-IsApart e m peer c in
      let ne : (id == peer) ≡ false =
        ground (arith, bytes_eq.beq_iff id peer, bytes_eq.beq_iff peer id) in
      let (a, b) = rounds-apart m peers id (Holes.punch_round e m peer c).0 (ground arith) in
      (a ∙ v.punches id ne, b ∙ v.relays id ne)

  -- Each peer has one round, which the others do not disturb.
  rounds-IsRound :
      (m : Moment) (peers : List NodeId) (id : NodeId) (c : ShardCtx T F) (p : PunchAttempt)
      → Distinct (λ (j : NodeId). j) peers
      → any (λ j. j == id) peers ≡ true
      → Maps.lookup id c.punches ≡ some p
      → IsRound e m.now id
          (advanced m.now p)
          c
          (Holes.punch_rounds e m peers c).0
          (Holes.punch_rounds e m peers c).1
  unfolding Holes.punch_rounds any
  rounds-IsRound m [] id c p d h there = absurd (true-false (sym h))
  rounds-IsRound m (peer ∷ peers) id c p d h there =
      let c' = (Holes.punch_round e m peer c).0 in
      let again = (Holes.punch_round e m peer c).1 in
      let c'' = (Holes.punch_rounds e m peers c').0 in
      let later = (Holes.punch_rounds e m peers c').1 in
      let v = punch_round-IsApart e m peer c in
      elim (Bool-cases (peer == id)) [
        | inl own ↦
            let same : id ≡ peer = sym ((bytes_eq.beq_iff peer id).0 own) in
            let apart =
              rounds-apart m peers id c'
                (subst (λ j. any (λ i. i == j) peers ≡ false) (sym same) d.0) in
            later-IsRound e m.now id (advanced m.now p) c c' c'' again (again || later) apart.0
              apart.1 (λ w. ground (arith, w))
              (subst
                (λ j.
                  IsRound e m.now id (advanced m.now p) c (Holes.punch_round e m j c).0
                    (Holes.punch_round e m j c).1)
                same (punch_round-IsRound e m id c p there))
        | inr other ↦
            let ne : (id == peer) ≡ false =
              ground (arith, bytes_eq.beq_iff id peer, bytes_eq.beq_iff peer id) in
            earlier-IsRound e m.now peer id (advanced m.now p) c c' c'' later (again || later) v
              (v.relays id ne) (λ w. ground (arith, w))
              (rounds-IsRound m peers id c' p d.1 (ground (arith, h, other))
                (v.punches id ne ∙ there))
      ]

  timers-rounds :
      (m : Moment) (peers : List NodeId) (c : ShardCtx T F)
      → (Holes.punch_rounds e m peers c).0.timers ≡ c.timers
  unfolding Holes.punch_rounds
  timers-rounds m [] c = refl
  timers-rounds m (peer ∷ peers) c =
      timers-rounds m peers (Holes.punch_round e m peer c).0
      ∙ (punch_round-IsApart e m peer c).timers

  abbrev keys : List (NodeId × PunchAttempt) → List NodeId
  keys = map (λ p. p.0)

  any-keys :
      (id : NodeId) (ps : List (NodeId × PunchAttempt))
      → any (λ j. j == id) (keys ps) ≡ has_key (λ p. p.0) id ps
  unfolding any
  any-keys id [] = refl
  any-keys id (p ∷ ps) = ap (λ b. p.0 == id || b) (any-keys id ps)

  Distinct-keys :
      (ps : List (NodeId × PunchAttempt)) → IsMap ps → Distinct (λ (j : NodeId). j) (keys ps)
  Distinct-keys [] d = tt
  Distinct-keys (p ∷ ps) d = (any-keys p.0 ps ∙ d.0, Distinct-keys ps d.1)

  listed :
      (id : NodeId) (p : PunchAttempt) (ps : List (NodeId × PunchAttempt))
      → Maps.lookup id ps ≡ some p
      → any (λ j. j == id) (keys ps) ≡ true
  unfolding any Maps.lookup
  listed id p [] there = cc
  listed id p (q ∷ ps) there =
      ground (arith, bytes_eq.beq_iff id q.0, bytes_eq.beq_iff q.0 id, listed id p ps)

  unlisted :
      (id : NodeId) (ps : List (NodeId × PunchAttempt))
      → Maps.lookup id ps ≡ none
      → any (λ j. j == id) (keys ps) ≡ false
  unfolding any Maps.lookup
  unlisted id [] absent = refl
  unlisted id (q ∷ ps) absent =
      ground (arith, bytes_eq.beq_iff id q.0, bytes_eq.beq_iff q.0 id, unlisted id ps)

  abbrev set_again : Bool → ℕ → ShardCtx T F → ShardCtx T F
  set_again again at c = if again then Holes.schedule_punch e at c else c

  set_again-IsOutcome :
      (m : Moment) (id : NodeId) (k : PunchAttempt) (c c' : ShardCtx T F) (again : Bool)
      → c'.timers ≡ c.timers
      → IsRound e m.now id k c c' again
      → IsOutcome m id k c (set_again again (m.now + 250) c')
  unfolding Holes.schedule_punch
  set_again-IsOutcome m id k c c' true t (going_on lost open_still a w) =
      tried lost open_still a (ap (Timers.schedule (m.now + 250) TimerKind.punch) t)
  set_again-IsOutcome m id k c c' false t (going_on lost open_still a w) =
      absurd (true-false (sym w))
  set_again-IsOutcome m id k c c' true t (answered found a b) = met found a b
  set_again-IsOutcome m id k c c' false t (answered found a b) = met found a b
  set_again-IsOutcome m id k c c' true t (given_up lost spent a b) = left lost spent a b
  set_again-IsOutcome m id k c c' false t (given_up lost spent a b) = left lost spent a b

  set_again-punches :
      (again : Bool) (at : ℕ) (c : ShardCtx T F)
      → ((set_again again at c).punches ≡ c.punches)
        × ((set_again again at c).via_relay ≡ c.via_relay)
  unfolding Holes.schedule_punch
  set_again-punches true at c = (refl, refl)
  set_again-punches false at c = (refl, refl)

  pub on_punch_timer_lem :
      (m : Moment) (c : ShardCtx T F) (id : NodeId)
      → IsMap c.punches
      → ((p : PunchAttempt)
          → Maps.lookup id c.punches ≡ some p
          → IsOutcome m id (advanced m.now p) c (Holes.on_punch_timer e m c))
        × (Maps.lookup id c.punches ≡ none
            → (Maps.lookup id (Holes.on_punch_timer e m c).punches ≡ none)
              × (Maps.lookup id (Holes.on_punch_timer e m c).via_relay
                  ≡ Maps.lookup id c.via_relay))
  unfolding Holes.on_punch_timer
  on_punch_timer_lem m c id d =
      let ran = Holes.punch_rounds e m (keys c.punches) c in
      (
        λ p there.
            set_again-IsOutcome m id (advanced m.now p) c ran.0 ran.1
              (timers-rounds m (keys c.punches) c)
              (rounds-IsRound m (keys c.punches) id c p (Distinct-keys c.punches d)
                (listed id p c.punches there) there),
        λ absent.
            let (a, b) = rounds-apart m (keys c.punches) id c (unlisted id c.punches absent) in
            let (p, r) = set_again-punches ran.1 (m.now + 250) ran.0 in
            (ap (Maps.lookup id) p ∙ a ∙ absent, ap (Maps.lookup id) r ∙ b),
      )
