-- ===== src/Sybil/Admission.antt =====
-- Tokens, quarantine and the limits of the difficulty.
use molia.Prelude.{
  ℕ, ◌-◌, ◌≤◌, ◌<◌, ◌≡◌, refl, inl, inr, true, false, none, some, leb, ◌&&◌, All-take, ◌++◌,
  length-take, length-append, take-length-append, beq_refl, subst, length, take, if◌then◌else◌, ltb,
  ◌==◌, nat_eq, bytes_eq, All, Option-cases, unwrap_or, arith,
}
use molia.Prelude.Words.{Bytes, IsBytes, le_value-injective, le_value, to_le}
use molia.Prelude.Maps
use molia.Types.{NodeId, SocketAddr}
use molia.Prelude.Maps.{lookup-insert}
use molia.Sybil.{
  Floats, Sybil, default_score, reward, penalize, mint_token, check_token, allow_pre_handshake,
}

-- No score stands above quarantine 3, and no difficulty above 16.
pub record IsScored {F : Type 0} (s : Sybil F) : Type 0 where
  pub quarantined : All (λ p. p.1.quarantine ≤ 3) s.scores
  pub bits : s.pow_bits ≤ 16

module _ {F : Type 0} (f : Floats F) where
  score_of-le :
      (peer : NodeId) (s : Sybil F)
      → IsScored s
      → (unwrap_or (Maps.lookup peer s.scores) (default_score f)).quarantine ≤ 3
  unfolding default_score
  score_of-le peer s v = elim (Option-cases (Maps.lookup peer s.scores)) [
    | inl absent ↦ rw absent (omega arith)
    | inr (x, there) ↦
        rw there (Maps.All-lookup (λ p. p.1.quarantine ≤ 3) peer x s.scores v.quarantined there)
  ]

  pub reward-IsScored : (peer : NodeId) (s : Sybil F) → IsScored s → IsScored (reward f peer s)
  unfolding reward
  reward-IsScored peer s v = record {
    quarantined =
        Maps.All-insert (λ p. p.1.quarantine ≤ 3) peer _ s.scores
          (ground (arith, score_of-le peer s v)) v.quarantined;
    bits = v.bits;
  }

  pub penalize-IsScored : (peer : NodeId) (s : Sybil F) → IsScored s → IsScored (penalize f peer s)
  unfolding penalize
  penalize-IsScored peer s v = record {
    quarantined =
        Maps.All-insert (λ p. p.1.quarantine ≤ 3) peer _ s.scores
          (ground (arith, score_of-le peer s v)) v.quarantined;
    bits = v.bits;
  }

  pub admitted-IsScored :
      (now : ℕ) (src : SocketAddr) (s : Sybil F)
      → IsScored s
      → IsScored (allow_pre_handshake f now src s).0
  unfolding allow_pre_handshake
  admitted-IsScored now src s v = record {
    quarantined = ground (arith, v.quarantined);
    bits = ground (arith, v.bits);
  }

-- A token is accepted exactly as long as it is fresh and right. The first eight bytes of a minted token,
-- with anything behind them, are accepted from its peer for ten minutes; whatever is accepted from that
-- peer comes within the ten minutes, has at least eight bytes and starts with those eight. Minting for
-- one peer leaves the tokens of the others alone, and from a peer for which none was minted no token is
-- accepted. The keyed hash gives at least eight bytes.
pub check_token-mint_token :
    {F : Type 0}
    → (f : Floats F) (keyed : Bytes → Bytes → Bytes) (minted nanos now : ℕ) (peer : NodeId)
      (s : Sybil F)
    → ((k msg : Bytes) → (8 ≤ length (keyed k msg)) × IsBytes (keyed k msg))
    → (now - minted ≤ 600000
        → (tail : Bytes)
        → check_token f now peer
            (take 8 (mint_token f keyed minted nanos peer s).1 ++ tail)
            (mint_token f keyed minted nanos peer s).0
          ≡ true)
      × ((tok : Bytes)
          → IsBytes tok
          → check_token f now peer tok (mint_token f keyed minted nanos peer s).0 ≡ true
          → (now - minted ≤ 600000)
            × (8 ≤ length tok)
            × (take 8 tok ≡ take 8 (mint_token f keyed minted nanos peer s).1))
      × ((other : NodeId) (tok : Bytes)
          → (other == peer) ≡ false
          → check_token f now other tok (mint_token f keyed minted nanos peer s).0
            ≡ check_token f now other tok s)
      × ((other : NodeId) (tok : Bytes)
          → Maps.lookup other s.tokens ≡ none
          → check_token f now other tok s ≡ false)
unfolding check_token mint_token
check_token-mint_token f keyed minted nanos now peer s wide = (
  λ early tail.
      rw (check_token, found peer, beq_refl peer)
        (let on_time : ltb 600000 (now - minted) ≡ false = ground arith in
          rw (on_time, same_head tail) (ground (arith, long_enough tail))),
  λ tok bytes taken. right tok bytes (rw (check_token, found peer, beq_refl peer) at taken),
  λ other tok ne. rw (check_token, found other, ne) refl,
  λ other tok absent. rw (check_token, absent) refl,
)
  where
    tok' : Bytes
    tok' = keyed s.token_secret (peer ++ to_le 16 nanos)

    found :
        (j : NodeId)
        → Maps.lookup j (Maps.insert peer (le_value (take 8 tok'), minted) s.tokens)
          ≡ (if j == peer then some (le_value (take 8 tok'), minted) else Maps.lookup j s.tokens)
    found j = lookup-insert peer j (le_value (take 8 tok'), minted) s.tokens

    eight : length (take 8 tok') ≡ 8
    eight = omega (arith, length-take 8 tok', (wide s.token_secret (peer ++ to_le 16 nanos)).0)

    same_head : (tail : Bytes) → take 8 (take 8 tok' ++ tail) ≡ take 8 tok'
    same_head tail =
        subst (λ k. take k (take 8 tok' ++ tail) ≡ take 8 tok') eight
          (take-length-append (take 8 tok') tail)

    long_enough : (tail : Bytes) → 8 ≤ length (take 8 tok' ++ tail)
    long_enough tail = omega (arith, length-append (take 8 tok') tail, eight)

    right :
        (tok : Bytes)
        → IsBytes tok
        → (if ltb 600000 (now - minted)
            then false
            else leb 8 (length tok) && (le_value (take 8 tok) == le_value (take 8 tok')))
          ≡ true
        → (now - minted ≤ 600000) × (8 ≤ length tok) × (take 8 tok ≡ take 8 tok')
    right tok bytes h =
        let long : 8 ≤ length tok = ground arith in
        let same : le_value (take 8 tok) ≡ le_value (take 8 tok') = ground arith in
        (
          ground arith,
          long,
          le_value-injective (take 8 tok) (take 8 tok') (omega (arith, length-take 8 tok, eight))
              (All-take (λ b. b < 256) 8 tok bytes)
              (All-take (λ b. b < 256) 8 tok' (wide s.token_secret (peer ++ to_le 16 nanos)).1)
              same,
        )
