-- ===== src/Node/Mutable.antt =====
-- Mutable values are authenticated end to end.
use molia.Prelude.{
  ◌≡◌, refl, sym, ap, ◌∙◌, inl, inr, true, not, ◌||◌, Option, none, some, ◌==◌, nat_eq, bytes_eq,
  beq→eq, Bool-cases, arith,
}
use molia.Prelude.Words.{Bytes}
use molia.Crypto.{Primitives, mutable_key, verify_record}
use molia.Store.{StoredRecord, signed_by, authentic, signed_envelope}
use molia.Node.{Reply, NodeError, Answer, get_record, check_mutable, get_mutable}

-- The record of a reply.
pub record IsGenuine (c : Primitives) (owner_pk ns salt v : Bytes) (rec : StoredRecord)
    : Type 0 where
  pub named : rec.key ≡ mutable_key c owner_pk ns salt
  pub carries : rec.value ≡ v
  pub verified :
      verify_record c owner_pk
        (mutable_key c owner_pk ns salt)
        v
        rec.sequence
        rec.ttl_secs
        rec.not_before_unix
        rec.signature
      ≡ true

signed_by-verified :
    (c : Primitives) (rec : StoredRecord) (owner_pk : Bytes)
    → signed_by c rec owner_pk ≡ true
    → (rec.owner_pubkey ≡ owner_pk)
      × (verify_record c rec.owner_pubkey rec.key rec.value rec.sequence rec.ttl_secs
            rec.not_before_unix rec.signature
          ≡ true)
unfolding signed_by authentic signed_envelope
signed_by-verified c rec owner_pk h =
    (ground (arith, bytes_eq.beq_iff rec.owner_pubkey owner_pk), ground arith)

check_mutable-IsGenuine :
    (c : Primitives) (owner_pk ns salt v : Bytes) (rec : StoredRecord)
    → check_mutable c owner_pk ns salt rec ≡ inr (some v)
    → IsGenuine c owner_pk ns salt v rec
unfolding check_mutable
check_mutable-IsGenuine c owner_pk ns salt v rec h =
    elim (Bool-cases (
      not (rec.key == mutable_key c owner_pk ns salt)
      || (not (rec.namespace == ns) || not (rec.salt == salt)))) [
        | inl differs ↦ absurd (ground arith)
        | inr same ↦ elim (Bool-cases (signed_by c rec owner_pk)) [
          | inr unsigned ↦ absurd (ground arith)
          | inl signed ↦
              let (owner, verified) = signed_by-verified c rec owner_pk signed in
              let named : rec.key ≡ mutable_key c owner_pk ns salt =
                beq→eq rec.key (mutable_key c owner_pk ns salt) (ground arith) in
              let carries : rec.value ≡ v = ground arith in
              record {
                named = named;
                carries = carries;
                verified =
                    sym (
                      ap
                        (λ (p : Bytes × (Bytes × Bytes)).
                          verify_record c p.0 p.1.0 p.1.1 rec.sequence rec.ttl_secs
                            rec.not_before_unix rec.signature)
                        (λ i. (owner i, (named i, carries i))))
                    ∙ verified;
              }
        ]
      ]

-- Whatever the network answers, `get_mutable` hands out a value only if some record was found under
-- the key of the owner, namespace and salt whose signature by that owner covers exactly that value.
pub get_mutable-IsGenuine :
    (c : Primitives) (owner_pk ns salt v : Bytes) (reply : Answer Reply)
    → get_mutable c owner_pk ns salt reply ≡ inr (some v)
    → (rec : StoredRecord) × (get_record (mutable_key c owner_pk ns salt) reply ≡ inr (some rec))
      × IsGenuine c owner_pk ns salt v rec
unfolding get_mutable
get_mutable-IsGenuine c owner_pk ns salt v reply h =
    by_answer (get_record (mutable_key c owner_pk ns salt) reply) refl
  where
    failed : (e : NodeError) → Path (Answer (Option Bytes)) (inl e) (inr (some v)) → ⊥
    failed e p = cc

    missing : Path (Answer (Option Bytes)) (inr none) (inr (some v)) → ⊥
    missing p = cc

    by_answer :
        (a : Answer (Option StoredRecord))
        → get_record (mutable_key c owner_pk ns salt) reply ≡ a
        → (rec : StoredRecord) × (get_record (mutable_key c owner_pk ns salt) reply
            ≡ inr (some rec))
          × IsGenuine c owner_pk ns salt v rec
    by_answer (inl e) q = absurd (failed e (rw (get_mutable, q) at (h)))
    by_answer (inr none) q = absurd (missing (rw (get_mutable, q) at (h)))
    by_answer (inr (some rec)) q =
        (rec, q, check_mutable-IsGenuine c owner_pk ns salt v rec (rw (get_mutable, q) at (h)))
