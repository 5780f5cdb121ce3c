-- ===== src/Shard/Handlers/Storing.antt =====
-- The outcomes of a store request.
use molia.Prelude.{
  bytes_eq, ◌<◌, ◌≡◌, ◌⊎◌, refl, inl, inr, true, false, subst, Bool-cases, ◌==◌, Bool, some, length,
  Option-cases, Sum-cases, nat_eq, arith,
}
use molia.Prelude.Words.{Bytes}
use molia.Prelude.Text.{codes}
use molia.Store.{
  authentic, kind_tombstone, store_record, Store, StoredRecord, ProtoRecord, PutError,
  record_from_proto, put_record, too_large, hash_mismatch, bad_signature, stale_sequence,
  bad_tombstone, unknown_kind,
}
use molia.Prelude.Maps
use molia.Types.{SocketAddr}
use molia.Codec.{Header, decode_body, is_probe}
use molia.Sybil.{allow_pre_handshake}
use molia.Store.Admission.{put_record_cases, refusal-authentic, lookup-store_record}
use molia.Shard.Proto.{StoreReq, store_ok_code, store_invalid_code}
use molia.Shard.Context.{send_error, Moment, unix, Env, ShardCtx}
use molia.Shard.Handlers.{put_reason, store_request, on_store, admit}

-- A request was carried out: its bytes are an authentic record, and that is now what the store holds under
-- its key; or it was a probe, and no tombstone, and the store is as it was.
pub record IsStored {T F : Type 0} (e : Env T F) (m : Moment) (probe : Bool) (raw : Bytes)
    (before after : Store) : Type 0 where
  pub message : ProtoRecord
  pub rec : StoredRecord
  pub read : e.protocol.record_body.decoded raw ≡ some message
  pub made : record_from_proto (unix m) message ≡ some rec
  pub genuine : authentic e.crypto rec ≡ true
  pub outcome :
      (Maps.lookup rec.key after.records ≡ some rec)
      ⊎ ((probe ≡ true) × ((rec.kind == kind_tombstone) ≡ false) × (after ≡ before))

taken-IsStored :
    {T F : Type 0}
    → (e : Env T F) (m : Moment) (probe : Bool) (raw : Bytes) (before after : Store)
      (message : ProtoRecord) (rec : StoredRecord)
    → e.protocol.record_body.decoded raw ≡ some message
    → record_from_proto (unix m) message ≡ some rec
    → put_record e.crypto rec probe before ≡ inr after
    → IsStored e m probe raw before after
taken-IsStored e m probe raw before after message rec read made taken = record {
  message = message;
  rec = rec;
  read = read;
  made = made;
  genuine = elim (put_record_cases e.crypto rec probe before) [
    | inl (x, refused) ↦ cc
    | inr (ok, way) ↦ refusal-authentic e.crypto rec before ok
  ];
  outcome = elim (put_record_cases e.crypto rec probe before) [
    | inl (x, refused) ↦ cc
    | inr (ok, inr (stored, why)) ↦
        let same : store_record rec before ≡ after = cc in
        inl (
          subst (λ s. Maps.lookup rec.key s.records ≡ some rec) same
            (lookup-store_record rec before))
    | inr (ok, inl (kept, asked, live)) ↦ inr (asked, live, cc)
  ];
}

reason_nonempty : (x : PutError) → 0 < length (put_reason x)
unfolding put_reason codes
reason_nonempty too_large = omega arith
reason_nonempty hash_mismatch = omega arith
reason_nonempty bad_signature = omega arith
reason_nonempty stale_sequence = omega arith
reason_nonempty bad_tombstone = omega arith
reason_nonempty unknown_kind = omega arith

pub store_request_lem :
    {T F : Type 0}
    → (e : Env T F) (m : Moment) (probe : Bool) (raw : Bytes) (c : ShardCtx T F)
    → (((store_request e m probe raw c).1.0 ≡ store_ok_code)
        × IsStored e m probe raw c.store (store_request e m probe raw c).0.store
        × (length (store_request e m probe raw c).1.1 ≡ 0))
      ⊎ (((store_request e m probe raw c).1.0 ≡ store_invalid_code)
          × ((store_request e m probe raw c).0.store ≡ c.store)
          × (0 < length (store_request e m probe raw c).1.1))
unfolding store_request codes
store_request_lem e m probe raw c = elim (Option-cases (e.protocol.record_body.decoded raw)) [
  | inl odd ↦ rw (store_request, odd) (inr (refl, refl, omega arith))
  | inr (pr, read) ↦ elim (Option-cases (record_from_proto (unix m) pr)) [
    | inl short ↦ rw (store_request, read, short) (inr (refl, refl, omega arith))
    | inr (rec, made) ↦ elim (Sum-cases (put_record e.crypto rec probe c.store)) [
      | inl (x, refused) ↦
          rw (store_request, read, made, refused) (inr (refl, refl, reason_nonempty x))
      | inr (store, taken) ↦
          rw (store_request, read, made, taken)
            (inl (refl, taken-IsStored e m probe raw c.store store pr rec read made taken, refl))
    ]
  ]
]

pub on_store_lem :
    {T F : Type 0}
    → (e : Env T F) (m : Moment) (src : SocketAddr) (h : Header) (pkt : Bytes) (c : ShardCtx T F)
    → ((on_store e m src h pkt c).store ≡ c.store)
      ⊎ ((req : StoreReq) × (decode_body e.protocol.store_req_body pkt ≡ some req)
          × ((allow_pre_handshake e.floats m.now src c.sybil).1 ≡ true)
          × IsStored e m (is_probe h) req.rec c.store (on_store e m src h pkt c).store)
unfolding on_store send_error admit
on_store_lem e m src h pkt c = elim (Option-cases (decode_body e.protocol.store_req_body pkt)) [
  | inl garbled ↦ rw (on_store, garbled) (inl refl)
  | inr (req, read) ↦ elim (Bool-cases (allow_pre_handshake e.floats m.now src c.sybil).1) [
    | inr hasty ↦ rw (on_store, read, hasty) (inl refl)
    | inl calm ↦
        rw (on_store, read, calm)
          (elim (store_request_lem e m (is_probe h) req.rec (admit e m src c).0) [
            | inl (code, stored, reason) ↦ inr (req, refl, refl, stored)
            | inr (code, same, reason) ↦ inl same
          ])
  ]
]
