-- ===== src/Shard/Lookups/Liveness.antt =====
-- The clients of the lookups that a sweep ends have their replies.
use molia.Prelude.{
  ℕ, ◌-◌, ◌≤◌, ◌≡◌, refl, sym, subst, ap, ◌∙◌, inl, inr, Bool, true, false, ◌||◌, Option, none,
  some, List, [], ◌∷◌, map, any, any-append, ◌==◌, nat_eq, Bool-cases, Option-cases, arith, is_some,
}
use molia.Prelude.Maps
use molia.Prelude.Maps.{lookup-insert, lookup-remove}
use molia.Lookup.{Lookup, LookupKind}
use molia.Shard.Context.{Moment, Env, PendingLookup, ShardCtx}
use molia.Shard.Lookups.{dispatch_lookup_batch, finish_lookup, sweep_one, sweep_ids, sweep_lookups}
use molia.Shard.Lookups.Sweeping.{
  IsLive, none-some, some_injective, true-false, dispatched, swept_other, swept_self, swept_none,
  swept_ids,
}

-- A reply on the channel.
abbrev pub replied : {T F : Type 0} → ℕ → ShardCtx T F → Bool
replied tx c = any (λ r. r.0 == tx) c.replies

module _ {T F : Type 0} (e : Env T F) (m : Moment) where
  -- A lookup that ends sends its reply, and no reply is lost.
  replied-finish :
      (kind : LookupKind) (l : Lookup) (reply : Option ℕ) (tx : ℕ) (c : ShardCtx T F)
      → (replied tx c ≡ true → replied tx (finish_lookup e kind l reply c) ≡ true)
        × (reply ≡ some tx → replied tx (finish_lookup e kind l reply c) ≡ true)
  unfolding finish_lookup any
  replied-finish kind l none tx c = (λ h. h, λ h. absurd (none-some none tx refl h))
  replied-finish kind l (some t) tx c = (
    λ h. any-append (λ r. r.0 == tx) c.replies _ ∙ rw h refl,
    λ h.
        let same : (t == tx) ≡ true = (nat_eq.beq_iff t tx).1 (some_injective t tx h) in
        any-append (λ r. r.0 == tx) c.replies _ ∙ rw same (or_true (replied tx c)),
  )
    where
      or_true : (b : Bool) → (b || true) ≡ true
      or_true true = refl
      or_true false = refl

  replied-sweep_one :
      (id tx : ℕ) (c : ShardCtx T F)
      → (replied tx c ≡ true → replied tx (sweep_one e m id c) ≡ true)
        × ((pend : PendingLookup)
            → Maps.lookup id c.lookups ≡ some pend
            → pend.reply ≡ some tx
            → pend.lookup.budget ≤ m.now - pend.lookup.started
            → replied tx (sweep_one e m id c) ≡ true)
  unfolding sweep_one
  replied-sweep_one id tx c = elim (Option-cases (Maps.lookup id c.lookups)) [
    | inl gone ↦ (λ h. rw (sweep_one, gone) h, λ pend there. absurd (none-some _ pend gone there))
    | inr (found, there) ↦
        let sent = dispatch_lookup_batch e m c found.lookup in
        let over = (dispatched e m c found.lookup).1 in
        elim (Bool-cases sent.1.done) [
          | inr going ↦ (
            λ h. rw (sweep_one, there, going) h,
            λ pend at_id waits late.
                let same : found ≡ pend = some_injective found pend (sym there ∙ at_id) in
                let late' =
                  subst (λ x. x.lookup.budget ≤ m.now - x.lookup.started) (sym same) late in
                absurd (true-false (sym (over late') ∙ going)),
          )
          | inl ended ↦ elim (Bool-cases (is_some sent.1.found_record)) [
            | inl lucky ↦ (
              λ h.
                  rw (sweep_one, there, ended, lucky)
                    ((replied-finish sent.1.kind sent.1 found.reply tx _).0 h),
              λ pend at_id waits late.
                  let same : found ≡ pend = some_injective found pend (sym there ∙ at_id) in
                  rw (sweep_one, there, ended, lucky)
                    ((replied-finish sent.1.kind sent.1 found.reply tx _).1
                      (ap (λ x. x.reply) same ∙ waits)),
            )
            | inr empty ↦ (
              λ h.
                  rw (sweep_one, there, ended, empty)
                    ((replied-finish sent.1.kind sent.1 found.reply tx _).0 h),
              λ pend at_id waits late.
                  let same : found ≡ pend = some_injective found pend (sym there ∙ at_id) in
                  rw (sweep_one, there, ended, empty)
                    ((replied-finish sent.1.kind sent.1 found.reply tx _).1
                      (ap (λ x. x.reply) same ∙ waits)),
            )
          ]
        ]
  ]

  replied-sweep_ids :
      (ids : List ℕ) (tx : ℕ) (c : ShardCtx T F)
      → replied tx c ≡ true
      → replied tx (sweep_ids e m ids c) ≡ true
  unfolding sweep_ids
  replied-sweep_ids [] tx c h = h
  replied-sweep_ids (i ∷ ids) tx c h = replied-sweep_ids ids tx _ ((replied-sweep_one i tx c).0 h)

  -- A lookup that is out of time is answered and forgotten by the sweep of its number.
  timed_out :
      (ids : List ℕ) (id tx : ℕ) (c : ShardCtx T F) (pend : PendingLookup)
      → any (λ i. i == id) ids ≡ true
      → Maps.lookup id c.lookups ≡ some pend
      → pend.reply ≡ some tx
      → pend.lookup.budget ≤ m.now - pend.lookup.started
      → (Maps.lookup id (sweep_ids e m ids c).lookups ≡ none)
        × (replied tx (sweep_ids e m ids c) ≡ true)
  unfolding sweep_ids any
  timed_out [] id tx c pend listed there waits late = cc
  timed_out (i ∷ ids) id tx c pend listed there waits late = elim (Bool-cases (i == id)) [
    | inl same ↦
        let e' : i ≡ id = (nat_eq.beq_iff i id).0 same in
        let there' = subst (λ k. Maps.lookup k c.lookups ≡ some pend) (sym e') there in
        (
          swept_none e m ids id _ (
              subst (λ k. Maps.lookup k (sweep_one e m i c).lookups ≡ none) e'
                ((swept_self e m i c pend there').1 late)),
          replied-sweep_ids ids tx _ ((replied-sweep_one i tx c).1 pend there' waits late),
        )
    | inr other ↦
        let ne : (id == i) ≡ false = ground (arith, nat_eq.beq_iff i id) in
        timed_out ids id tx _ pend (ground arith) (swept_other e m i id c ne ∙ there) waits late
  ]

-- A key of a map is among its keys.
listed :
    {V : Type 0}
    → (k : ℕ) (v : V) (ls : List (ℕ × V)) → Maps.lookup k ls ≡ some v
    → any (λ i. i == k) (map (λ p. p.0) ls) ≡ true
unfolding Maps.lookup any
listed k v [] h = cc
listed k v (p ∷ ls) h = ground (arith, nat_eq.beq_iff k p.0, nat_eq.beq_iff p.0 k, listed k v ls)

-- A sweep leaves only lookups that are not done and have time left. One that is out of time when the sweep
-- begins is forgotten, and its client has a reply on its channel. No reply is lost.
pub sweep_lookups_lem :
    {T F : Type 0}
    → (e : Env T F) (m : Moment) (c : ShardCtx T F) (id : ℕ)
    → ((p : PendingLookup)
        → Maps.lookup id (sweep_lookups e m c).lookups ≡ some p
        → IsLive m.now p.lookup)
      × ((p : PendingLookup) (tx : ℕ)
          → Maps.lookup id c.lookups ≡ some p
          → p.reply ≡ some tx
          → p.lookup.budget ≤ m.now - p.lookup.started
          → (Maps.lookup id (sweep_lookups e m c).lookups ≡ none)
            × (replied tx (sweep_lookups e m c) ≡ true))
      × ((tx : ℕ) → replied tx c ≡ true → replied tx (sweep_lookups e m c) ≡ true)
unfolding sweep_lookups
sweep_lookups_lem e m c id =
    let ids = map (λ p. p.0) c.lookups in
    (
      λ p h. elim (swept_ids e m ids id c p h) [
        | inl live ↦ live
        | inr (there, unlisted) ↦ absurd (true-false (sym (listed id p c.lookups there) ∙ unlisted))
      ],
      λ p tx there waits late.
          timed_out e m ids id tx c p (listed id p c.lookups there) there waits late,
      λ tx h. replied-sweep_ids e m ids tx c h,
    )
