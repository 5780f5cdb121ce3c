-- ===== src/Shard/Holes/Rounds.antt =====
-- One round of the punch timer, for one peer.
use molia.Prelude.{
  ◌≡◌, refl, sym, ap, ◌+◌, ◌∙◌, inl, inr, Bool, true, false, ◌&&◌, ◌||◌, none, some, List, [], ◌∷◌,
  ℕ, if◌then◌else◌, ltb, leb, ◌==◌, nat_eq, bytes_eq, is_some, take, Bool-cases, Option-cases,
  beq_refl, arith, min,
}
use molia.Prelude.Words.{Bytes}
use molia.Prelude.Maps
use molia.Prelude.Maps.{lookup-insert, lookup-remove}
use molia.Types.{NodeId, SocketAddr}
use molia.Codec.{Body, Header, encode_message}
use molia.Pool.{take_buffer}
use molia.Routing
use molia.Nat.{fresh, punch_deadlines}
use molia.Shard.{PunchAttempt}
use molia.Shard.Context.{
  Moment, Env, Net, ShardCtx, with_message, send_plain, spend_corr, ping, ping_all,
}
use molia.Shard.Holes

-- Two bursts were sent and the time for a relay has come.
abbrev pub is_spent : ℕ → PunchAttempt → Bool
is_spent now p = leb 2 p.bursts_done && leb p.relay_at now

-- The attempt after the burst that is due, if one is: at most two bursts are sent, and the next one is
-- due 250 ms later.
abbrev pub advanced : ℕ → PunchAttempt → PunchAttempt
advanced now p =
    if ltb p.bursts_done 2 && leb p.next_burst now
    then record p { bursts_done = p.bursts_done + 1; next_burst = now + 250 }
    else p

-- A relay may be used: this node relays, or it knows the peer.
abbrev pub may_relay : {T F : Type 0} → NodeId → ShardCtx T F → Bool
may_relay peer c = c.net.relay.enabled || is_some (Routing.get c.table peer)

module _ {T F : Type 0} (e : Env T F) where
  -- What a round leaves alone.
  pub record IsApart (peer : NodeId) (c c' : ShardCtx T F) : Type 0 where
    pub endpoints : c'.endpoints ≡ c.endpoints
    pub table : c'.table ≡ c.table
    pub relay : c'.net.relay ≡ c.net.relay
    pub timers : c'.timers ≡ c.timers
    pub punches :
        (j : NodeId) → (j == peer) ≡ false → Maps.lookup j c'.punches ≡ Maps.lookup j c.punches
    pub relays :
        (j : NodeId) → (j == peer) ≡ false → Maps.lookup j c'.via_relay ≡ Maps.lookup j c.via_relay

  -- What becomes of a peer whose attempt stands at `k` when its turn comes: the attempt goes on and asks for
  -- another round, the peer has answered, or the attempt is given up.
  pub data IsRound (now : ℕ) (peer : NodeId) (k : PunchAttempt) (c c' : ShardCtx T F) (again : Bool)
      : Type 0 where
    going_on :
        Holes.is_fresh e now peer c ≡ false
        → is_spent now k ≡ false
        → Maps.lookup peer c'.punches ≡ some k
        → again ≡ true
        → IsRound now peer k c c' again
    answered :
        Holes.is_fresh e now peer c ≡ true
        → Maps.lookup peer c'.punches ≡ none
        → Maps.lookup peer c'.via_relay ≡ none
        → IsRound now peer k c c' again
    given_up :
        Holes.is_fresh e now peer c ≡ false
        → is_spent now k ≡ true
        → Maps.lookup peer c'.punches ≡ none
        → Maps.lookup peer c'.via_relay
          ≡ (if may_relay peer c then some k.rendezvous else Maps.lookup peer c.via_relay)
        → IsRound now peer k c c' again

  give_up-IsApart :
      (now : ℕ) (peer : NodeId) (c : ShardCtx T F) → IsApart peer c (Holes.give_up e now peer c).0
  unfolding Holes.give_up
  give_up-IsApart now peer c = elim (Option-cases (Maps.lookup peer c.punches)) [
    | inl absent ↦ rw (Holes.give_up, absent) same
    | inr (p, there) ↦ elim (Bool-cases (leb 2 p.bursts_done && leb p.relay_at now)) [
      | inr early ↦ rw (Holes.give_up, there, early) same
      | inl spent ↦ elim (Bool-cases (c.net.relay.enabled || is_some (Routing.get c.table peer))) [
        | inl ok ↦
            rw (Holes.give_up, there, spent, ok)
              (record {
                endpoints = refl;
                table = refl;
                relay = refl;
                timers = refl;
                punches = λ j ne. rw (lookup-remove peer j c.punches, ne) refl;
                relays = λ j ne. rw (lookup-insert peer j p.rendezvous c.via_relay, ne) refl;
              })
        | inr bad ↦
            rw (Holes.give_up, there, spent, bad)
              (record {
                endpoints = refl;
                table = refl;
                relay = refl;
                timers = refl;
                punches = λ j ne. rw (lookup-remove peer j c.punches, ne) refl;
                relays = λ j ne. refl;
              })
      ]
    ]
  ]
    where
      same : IsApart peer c c
      same = record {
        endpoints = refl;
        table = refl;
        relay = refl;
        timers = refl;
        punches = λ j ne. refl;
        relays = λ j ne. refl;
      }

  give_up-IsRound :
      (now : ℕ) (peer : NodeId) (c : ShardCtx T F) (p : PunchAttempt)
      → Holes.is_fresh e now peer c ≡ false
      → Maps.lookup peer c.punches ≡ some p
      → IsRound now peer p c (Holes.give_up e now peer c).0 (Holes.give_up e now peer c).1
  unfolding Holes.give_up
  give_up-IsRound now peer c p lost there =
      elim (Bool-cases (leb 2 p.bursts_done && leb p.relay_at now)) [
        | inr early ↦ rw (Holes.give_up, there, early) (going_on lost early there refl)
        | inl spent ↦
            elim (Bool-cases (c.net.relay.enabled || is_some (Routing.get c.table peer))) [
              | inl ok ↦
                  rw (Holes.give_up, there, spent, ok)
                    (given_up lost spent (gone peer c) (
                      rw (lookup-insert peer peer p.rendezvous c.via_relay, beq_refl peer, ok)
                        refl))
              | inr bad ↦
                  rw (Holes.give_up, there, spent, bad)
                    (given_up lost spent (gone peer c) (rw bad refl))
            ]
      ]
    where
      gone : (j : NodeId) (s : ShardCtx T F) → Maps.lookup j (Maps.remove j s.punches) ≡ none
      gone j s = rw (lookup-remove j j s.punches, beq_refl j) refl

  relay-send_plain :
      (dest : SocketAddr) (app : Bytes) (n : Net T) → (send_plain e dest app n).relay ≡ n.relay
  unfolding send_plain
  relay-send_plain dest app n = elim (Bool-cases (e.accepts dest app)) [
    | inl ok ↦ rw ok refl
    | inr lost ↦ rw lost refl
  ]

  relay-with_message :
      {B : Type 0} (body : Body B) (h : Header) (msg : B) (dest : SocketAddr) (n : Net T)
      → (with_message e body h msg (send_plain e dest) n).relay ≡ n.relay
  unfolding with_message
  relay-with_message body h msg dest n =
      elim (Option-cases (encode_message body h msg (take_buffer n.pool).1.bytes)) [
        | inl refused ↦ rw (with_message, refused) refl
        | inr ((out, len), ok) ↦ rw (with_message, ok) (relay-send_plain dest (take len out) _)
      ]

  relay-spend_corr : (n : Net T) → (spend_corr e n).relay ≡ n.relay
  unfolding spend_corr
  relay-spend_corr n = refl

  relay-ping : (m : Moment) (a : SocketAddr) (n : Net T) → (ping e m a n).relay ≡ n.relay
  unfolding ping
  relay-ping m a n = relay-with_message _ _ _ a (spend_corr e n) ∙ relay-spend_corr n

  relay-ping_all :
      (m : Moment) (addrs : List SocketAddr) (n : Net T) → (ping_all e m addrs n).relay ≡ n.relay
  unfolding ping_all
  relay-ping_all m [] n = refl
  relay-ping_all m (a ∷ addrs) n = relay-ping_all m addrs (ping e m a n) ∙ relay-ping m a n

  pub fresh-IsApart :
      (now : ℕ) (peer j : NodeId) (c c' : ShardCtx T F)
      → IsApart peer c c'
      → Holes.is_fresh e now j c' ≡ Holes.is_fresh e now j c
  unfolding Holes.is_fresh
  fresh-IsApart now peer j c c' v =
      ap (λ l. elim (Maps.lookup j l) [ none ↦ false | some h ↦ fresh now h ]) v.endpoints

  pub may_relay-IsApart :
      (peer j : NodeId) (c c' : ShardCtx T F) → IsApart peer c c' → may_relay j c' ≡ may_relay j c
  may_relay-IsApart peer j c c' v =
      ap (λ r. r.enabled || is_some (Routing.get c'.table j)) v.relay
      ∙ ap (λ t. c.net.relay.enabled || is_some (Routing.get t j)) v.table

  burst_punch-IsApart :
      (m : Moment) (peer : NodeId) (c : ShardCtx T F) (p : PunchAttempt)
      → Maps.lookup peer c.punches ≡ some p
      → IsApart peer c (Holes.burst_punch e m peer c)
  unfolding Holes.burst_punch Holes.count_punch
  burst_punch-IsApart m peer c p there =
      rw (Holes.burst_punch, there)
        (record {
          endpoints = refl;
          table = refl;
          relay = relay-ping_all m p.candidates c.net;
          timers = refl;
          punches = λ j ne. rw (lookup-insert peer j _ c.punches, ne) refl;
          relays = λ j ne. refl;
        })

  burst_attempt :
      (m : Moment) (peer : NodeId) (c : ShardCtx T F) (p : PunchAttempt)
      → Maps.lookup peer c.punches ≡ some p
      → (ltb p.bursts_done 2 && leb p.next_burst m.now) ≡ true
      → Maps.lookup peer (Holes.burst_punch e m peer c).punches ≡ some (advanced m.now p)
  unfolding Holes.burst_punch punch_deadlines
  burst_attempt m peer c p there due =
      let few : min (p.bursts_done + 1) 255 ≡ p.bursts_done + 1 = ground arith in
      rw (Holes.burst_punch, there, lookup-insert peer peer _ c.punches, beq_refl peer, due)
        (ap (λ n. some (record p { bursts_done = n; next_burst = m.now + 250 })) few)

  relays-burst_punch :
      (m : Moment) (peer : NodeId) (c : ShardCtx T F) (p : PunchAttempt)
      → Maps.lookup peer c.punches ≡ some p
      → (Holes.burst_punch e m peer c).via_relay ≡ c.via_relay
  unfolding Holes.burst_punch
  relays-burst_punch m peer c p there = rw (Holes.burst_punch, there) refl

  joined-IsApart :
      (peer : NodeId) (c c' c'' : ShardCtx T F)
      → IsApart peer c c'
      → IsApart peer c' c''
      → IsApart peer c c''
  joined-IsApart peer c c' c'' v w = record {
    endpoints = w.endpoints ∙ v.endpoints;
    table = w.table ∙ v.table;
    relay = w.relay ∙ v.relay;
    timers = w.timers ∙ v.timers;
    punches = λ j ne. w.punches j ne ∙ v.punches j ne;
    relays = λ j ne. w.relays j ne ∙ v.relays j ne;
  }

  -- A round, told from an earlier state with the same endpoints and the same relay of the peer.
  pub earlier-IsRound :
      (now : ℕ) (other peer : NodeId) (k : PunchAttempt) (c c' c'' : ShardCtx T F)
      (again again' : Bool)
      → IsApart other c c'
      → Maps.lookup peer c'.via_relay ≡ Maps.lookup peer c.via_relay
      → (again ≡ true → again' ≡ true)
      → IsRound now peer k c' c'' again
      → IsRound now peer k c c'' again'
  earlier-IsRound now other peer k c c' c'' again again' v same on (going_on lost open_still a w) =
      going_on (sym (fresh-IsApart now other peer c c' v) ∙ lost) open_still a (on w)
  earlier-IsRound now other peer k c c' c'' again again' v same on (answered found a b) =
      answered (sym (fresh-IsApart now other peer c c' v) ∙ found) a b
  earlier-IsRound now other peer k c c' c'' again again' v same on (given_up lost spent a b) =
      given_up (sym (fresh-IsApart now other peer c c' v) ∙ lost) spent a (
        b
        ∙ ap (λ may. if may then some k.rendezvous else Maps.lookup peer c'.via_relay)
            (may_relay-IsApart other peer c c' v)
        ∙ ap (λ hop. if may_relay peer c then some k.rendezvous else hop) same)

  -- A round, told of a later state with the same attempt and the same relay of the peer.
  pub later-IsRound :
      (now : ℕ) (peer : NodeId) (k : PunchAttempt) (c c' c'' : ShardCtx T F) (again again' : Bool)
      → Maps.lookup peer c''.punches ≡ Maps.lookup peer c'.punches
      → Maps.lookup peer c''.via_relay ≡ Maps.lookup peer c'.via_relay
      → (again ≡ true → again' ≡ true)
      → IsRound now peer k c c' again
      → IsRound now peer k c c'' again'
  later-IsRound now peer k c c' c'' again again' p r on (going_on lost open_still a w) =
      going_on lost open_still (p ∙ a) (on w)
  later-IsRound now peer k c c' c'' again again' p r on (answered found a b) =
      answered found (p ∙ a) (r ∙ b)
  later-IsRound now peer k c c' c'' again again' p r on (given_up lost spent a b) =
      given_up lost spent (p ∙ a) (r ∙ b)

  pub punch_round-IsApart :
      (m : Moment) (peer : NodeId) (c : ShardCtx T F)
      → IsApart peer c (Holes.punch_round e m peer c).0
  unfolding Holes.punch_round
  punch_round-IsApart m peer c = elim (Bool-cases (Holes.is_fresh e m.now peer c)) [
    | inl found ↦
        rw (Holes.punch_round, found)
          (record {
            endpoints = refl;
            table = refl;
            relay = refl;
            timers = refl;
            punches = λ j ne. rw (lookup-remove peer j c.punches, ne) refl;
            relays = λ j ne. rw (lookup-remove peer j c.via_relay, ne) refl;
          })
    | inr lost ↦ elim (Option-cases (Maps.lookup peer c.punches)) [
      | inl absent ↦
          rw (Holes.punch_round, lost, absent)
            (record {
              endpoints = refl;
              table = refl;
              relay = refl;
              timers = refl;
              punches = λ j ne. refl;
              relays = λ j ne. refl;
            })
      | inr (p, there) ↦ elim (Bool-cases (ltb p.bursts_done 2 && leb p.next_burst m.now)) [
        | inl due ↦
            rw (Holes.punch_round, lost, there, due)
              (joined-IsApart peer c (Holes.burst_punch e m peer c) _
                (burst_punch-IsApart m peer c p there) (give_up-IsApart m.now peer _))
        | inr early ↦ rw (Holes.punch_round, lost, there, early) (give_up-IsApart m.now peer c)
      ]
    ]
  ]

  pub punch_round-IsRound :
      (m : Moment) (peer : NodeId) (c : ShardCtx T F) (p : PunchAttempt)
      → Maps.lookup peer c.punches ≡ some p
      → IsRound m.now peer
          (advanced m.now p)
          c
          (Holes.punch_round e m peer c).0
          (Holes.punch_round e m peer c).1
  unfolding Holes.punch_round
  punch_round-IsRound m peer c p there = elim (Bool-cases (Holes.is_fresh e m.now peer c)) [
    | inl found ↦
        rw (Holes.punch_round, found)
          (answered found (rw (lookup-remove peer peer c.punches, beq_refl peer) refl)
            (rw (lookup-remove peer peer c.via_relay, beq_refl peer) refl))
    | inr lost ↦ elim (Bool-cases (ltb p.bursts_done 2 && leb p.next_burst m.now)) [
      | inr early ↦
          rw (Holes.punch_round, lost, there, early) (give_up-IsRound m.now peer c p lost there)
      | inl due ↦
          let v = burst_punch-IsApart m peer c p there in
          let burst = Holes.burst_punch e m peer c in
          let given =
            give_up-IsRound m.now peer burst (advanced m.now p)
              (fresh-IsApart m.now peer peer c burst v ∙ lost)
              (burst_attempt m peer c p there due) in
          let told =
            earlier-IsRound m.now peer peer (advanced m.now p) c burst
              (Holes.give_up e m.now peer burst).0 (Holes.give_up e m.now peer burst).1 true v
              (ap (Maps.lookup peer) (relays-burst_punch m peer c p there)) (λ w. refl) given in
          rw (Holes.punch_round, lost, there, due) (rw due at told)
    ]
  ]
