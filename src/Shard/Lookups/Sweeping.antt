-- ===== src/Shard/Lookups/Sweeping.antt =====
-- What a sweep of the lookups leaves under each number.
use molia.Prelude.{
  ℕ, ◌-◌, ◌≤◌, ◌<◌, ◌≡◌, ◌⊎◌, refl, sym, subst, ◌∙◌, inl, inr, Bool, true, false, Option, none,
  some, List, [], ◌∷◌, any, if◌then◌else◌, ◌==◌, nat_eq, beq_refl, leb, Bool-cases, Option-cases,
  arith, is_some,
}
use molia.Prelude.Maps
use molia.Prelude.Maps.{lookup-insert, lookup-remove}
use molia.Types.{SocketAddr, PeerInfo, primary_addr}
use molia.Lookup.{Lookup, LookupKind, find_node, find_value, next_batch, note_sent}
use molia.Lookup.Batches.{next_batch_lem}
use molia.Shard.Context.{Moment, Env, Net, PendingLookup, ShardCtx, spend_corr}
use molia.Shard.Lookups.{
  send_query, dispatch_peer, dispatch_peers, dispatch_lookup_batch, finish_lookup, sweep_one,
  sweep_ids,
}

-- A lookup that is not done and has time left.
pub record IsLive (now : ℕ) (l : Lookup) : Type 0 where
  pub going : l.done ≡ false
  pub in_time : now - l.started < l.budget

-- Sending a batch changes neither the end nor the time of a lookup.
record IsKept (l l' : Lookup) : Type 0 where
  same_end : l'.done ≡ l.done
  same_start : l'.started ≡ l.started
  same_budget : l'.budget ≡ l.budget

IsKept-refl : (l : Lookup) → IsKept l l
IsKept-refl l = record { same_end = refl; same_start = refl; same_budget = refl }

IsKept-trans : (a b c : Lookup) → IsKept a b → IsKept b c → IsKept a c
IsKept-trans a b c v w = record {
  same_end = w.same_end ∙ v.same_end;
  same_start = w.same_start ∙ v.same_start;
  same_budget = w.same_budget ∙ v.same_budget;
}

noted-IsKept :
    (sent : Bool) (now : ℕ) (p : PeerInfo) (corr : ℕ) (l : Lookup)
    → IsKept l (if sent then note_sent now p.id corr l else l)
unfolding note_sent
noted-IsKept true now p corr l = record { same_end = refl; same_start = refl; same_budget = refl }
noted-IsKept false now p corr l = IsKept-refl l

pub none-some {ℓ} : {A : Type ℓ} (o : Option A) (a : A) → o ≡ none → o ≡ some a → ⊥
none-some o a h k = cc

pub some_injective {ℓ} : {A : Type ℓ} (a b : A) → some a ≡ some b → a ≡ b
some_injective a b h = cc

pub true-false : true ≡ false → ⊥
true-false h = cc

module _ {T F : Type 0} (e : Env T F) (m : Moment) where
  send_query-IsKept :
      (c : ShardCtx T F) (dest : SocketAddr) (p : PeerInfo) (corr : ℕ) (kind : LookupKind)
      (s : Net T × Lookup)
      → IsKept s.1 (send_query e m c dest p corr kind s).1
  unfolding send_query
  send_query-IsKept c dest p corr find_node (n, l) = noted-IsKept _ m.now p corr l
  send_query-IsKept c dest p corr find_value (n, l) = noted-IsKept _ m.now p corr l

  dispatch_peer-IsKept :
      (c : ShardCtx T F) (p : PeerInfo) (s : Net T × Lookup)
      → IsKept s.1 (dispatch_peer e m c p s).1
  unfolding dispatch_peer
  dispatch_peer-IsKept c p (n, l) = elim (Option-cases (primary_addr p)) [
    | inl nowhere ↦ rw (dispatch_peer, nowhere) (IsKept-refl l)
    | inr (dest, there) ↦
        rw (dispatch_peer, there) (send_query-IsKept c dest p n.corr l.kind (spend_corr e n, l))
  ]

  dispatch_peers-IsKept :
      (c : ShardCtx T F) (ps : List PeerInfo) (s : Net T × Lookup)
      → IsKept s.1 (dispatch_peers e m c ps s).1
  unfolding dispatch_peers
  dispatch_peers-IsKept c [] s = IsKept-refl s.1
  dispatch_peers-IsKept c (p ∷ ps) s =
      IsKept-trans s.1 _ _ (dispatch_peer-IsKept c p s) (dispatch_peers-IsKept c ps _)

  batch_time :
      (l : Lookup)
      → ((next_batch m.now l).0.started ≡ l.started) × ((next_batch m.now l).0.budget ≡ l.budget)
  unfolding next_batch
  batch_time l = ground arith

  -- A lookup whose batch was sent is done or live, and done if it is out of time.
  pub dispatched :
      (c : ShardCtx T F) (l : Lookup)
      → ((dispatch_lookup_batch e m c l).1.done ≡ false
          → IsLive m.now (dispatch_lookup_batch e m c l).1)
        × (l.budget ≤ m.now - l.started → (dispatch_lookup_batch e m c l).1.done ≡ true)
  unfolding dispatch_lookup_batch
  dispatched c l =
      let kept = dispatch_peers-IsKept c (next_batch m.now l).1 (c.net, (next_batch m.now l).0) in
      let (start, limit) = batch_time l in
      let over = (next_batch_lem m.now l).3 in
      (
        λ going. record {
          going = going;
          in_time = elim (Nat-cases l.budget (m.now - l.started)) [
            | inl late ↦ absurd (true-false (sym (over late) ∙ (sym kept.same_end ∙ going)))
            | inr early ↦ rw (kept.same_start, kept.same_budget, start, limit) early
          ];
        },
        λ late. kept.same_end ∙ over late,
      )
    where
      Nat-cases : (a b : ℕ) → (a ≤ b) ⊎ (b < a)
      Nat-cases a b = elim (Bool-cases (leb a b)) [
        | inl le ↦ inl (ground arith)
        | inr gt ↦ inr (ground arith)
      ]

  finish_lookup-lookups :
      (kind : LookupKind) (l : Lookup) (reply : Option ℕ) (c : ShardCtx T F)
      → (finish_lookup e kind l reply c).lookups ≡ c.lookups
  unfolding finish_lookup
  finish_lookup-lookups kind l none c = refl
  finish_lookup-lookups kind l (some tx) c = refl

  -- The lookups after the sweep of one of them.
  lookups-sweep_one :
      (id : ℕ) (c : ShardCtx T F) (pend : PendingLookup)
      → Maps.lookup id c.lookups ≡ some pend
      → (sweep_one e m id c).lookups ≡ (
          if (dispatch_lookup_batch e m c pend.lookup).1.done
          then Maps.remove id c.lookups
          else Maps.insert id
              (record pend { lookup = (dispatch_lookup_batch e m c pend.lookup).1 })
              (Maps.remove id c.lookups))
  unfolding sweep_one
  lookups-sweep_one id c pend there =
      let sent = dispatch_lookup_batch e m c pend.lookup in
      elim (Bool-cases sent.1.done) [
        | inr going ↦ rw (sweep_one, there, going) refl
        | inl ended ↦ elim (Bool-cases (is_some sent.1.found_record)) [
          | inl lucky ↦
              rw (sweep_one, there, ended, lucky)
                (finish_lookup-lookups sent.1.kind sent.1 pend.reply _)
          | inr empty ↦
              rw (sweep_one, there, ended, empty)
                (finish_lookup-lookups sent.1.kind sent.1 pend.reply _)
        ]
      ]

  pub swept_other :
      (id j : ℕ) (c : ShardCtx T F)
      → (j == id) ≡ false
      → Maps.lookup j (sweep_one e m id c).lookups ≡ Maps.lookup j c.lookups
  swept_other id j c ne = elim (Option-cases (Maps.lookup id c.lookups)) [
    | inl gone ↦ unfold sweep_one in rw (sweep_one, gone) refl
    | inr (pend, there) ↦
        let sent = dispatch_lookup_batch e m c pend.lookup in
        elim (Bool-cases sent.1.done) [
          | inl ended ↦
              rw (lookups-sweep_one id c pend there, ended, lookup-remove id j c.lookups, ne) refl
          | inr going ↦
              rw
                (
                  lookups-sweep_one id c pend there,
                  going,
                  lookup-insert id j (record pend { lookup = sent.1 }) (Maps.remove id c.lookups),
                  ne,
                  lookup-remove id j c.lookups,
                  ne,
                )
                refl
        ]
  ]

  -- What a sweep leaves under the number of the lookup: a live one, or none if it was out of time.
  pub swept_self :
      (id : ℕ) (c : ShardCtx T F) (pend : PendingLookup)
      → Maps.lookup id c.lookups ≡ some pend
      → ((p : PendingLookup)
          → Maps.lookup id (sweep_one e m id c).lookups ≡ some p
          → IsLive m.now p.lookup)
        × (pend.lookup.budget ≤ m.now - pend.lookup.started
            → Maps.lookup id (sweep_one e m id c).lookups ≡ none)
  swept_self id c pend there =
      let sent = dispatch_lookup_batch e m c pend.lookup in
      let (live, over) = dispatched c pend.lookup in
      elim (Bool-cases sent.1.done) [
        | inl ended ↦
            let none_left : Maps.lookup id (sweep_one e m id c).lookups ≡ none =
              rw
                (
                  lookups-sweep_one id c pend there,
                  ended,
                  lookup-remove id id c.lookups,
                  beq_refl id,
                )
                refl in
            (λ p h. absurd (none-some _ p none_left h), λ late. none_left)
        | inr going ↦
            let kept : Maps.lookup id (sweep_one e m id c).lookups
                ≡ some (record pend { lookup = sent.1 }) =
              rw
                (
                  lookups-sweep_one id c pend there,
                  going,
                  lookup-insert id id (record pend { lookup = sent.1 }) (Maps.remove id c.lookups),
                  beq_refl id,
                )
                refl in
            (
              λ p h.
                  subst (λ x. IsLive m.now x.lookup) (some_injective _ p (sym kept ∙ h))
                    (live going),
              λ late. absurd (true-false (sym (over late) ∙ going)),
            )
      ]

  pub swept_none :
      (ids : List ℕ) (id : ℕ) (c : ShardCtx T F)
      → Maps.lookup id c.lookups ≡ none
      → Maps.lookup id (sweep_ids e m ids c).lookups ≡ none
  unfolding sweep_ids
  swept_none [] id c h = h
  swept_none (i ∷ ids) id c h = swept_none ids id _ (elim (Bool-cases (id == i)) [
    | inr other ↦ swept_other i id c other ∙ h
    | inl same ↦
        let e' : id ≡ i = (nat_eq.beq_iff id i).0 same in
        let gone : Maps.lookup i c.lookups ≡ none =
          subst (λ k. Maps.lookup k c.lookups ≡ none) e' h in
        unfold sweep_one in rw (sweep_one, gone) h
  ])

  -- Whatever is left under a number that was swept is live.
  pub swept_ids :
      (ids : List ℕ) (id : ℕ) (c : ShardCtx T F) (p : PendingLookup)
      → Maps.lookup id (sweep_ids e m ids c).lookups ≡ some p
      → IsLive m.now p.lookup
        ⊎ ((Maps.lookup id c.lookups ≡ some p) × (any (λ i. i == id) ids ≡ false))
  unfolding sweep_ids any
  swept_ids [] id c p h = inr (h, refl)
  swept_ids (i ∷ ids) id c p h = elim (swept_ids ids id (sweep_one e m i c) p h) [
    | inl live ↦ inl live
    | inr (there, rest) ↦ elim (Bool-cases (i == id)) [
      | inl same ↦
          let e' : i ≡ id = (nat_eq.beq_iff i id).0 same in
          let there' =
            subst (λ k. Maps.lookup k (sweep_one e m i c).lookups ≡ some p) (sym e') there in
          elim (Option-cases (Maps.lookup i c.lookups)) [
            | inr (pend, before) ↦ inl ((swept_self i c pend before).0 p there')
            | inl gone ↦
                let still : Maps.lookup i (sweep_one e m i c).lookups ≡ none =
                  unfold sweep_one in rw (sweep_one, gone) gone in
                absurd (none-some _ p still there')
          ]
      | inr other ↦
          let ne : (id == i) ≡ false = ground (arith, nat_eq.beq_iff i id) in
          inr (sym (swept_other i id c ne) ∙ there, rw (other, rest) refl)
    ]
  ]
