-- ===== src/Tests/Records.antt =====
-- Records, providers and signatures with a toy hash.
use molia.Prelude.{
  ◌+◌, ◌-◌, ◌^◌, ◌≤◌, ◌<◌, ◌≡◌, ◌↔◌, refl, inr, true, false, some, [], ◌∷◌, length, has_key,
  list_beq, bytes_eq, nat_eq, arith,
}
use molia.Prelude.Words.{Bytes, be_value, to_be}
use molia.Prelude.Maps
use molia.Crypto.{
  record_bytes, leading_zero_bits, mutable_key, verify_record, verify_message, Identity,
}
use molia.Crypto.Signed.{record_bytes-injective, binding_message-injective}
use molia.Crypto.Work.{leading_zero_bits_iff}
use molia.Store.{
  Store, StoredRecord, ProviderEntry, authentic, signed_envelope, signed_by, put_record,
  queue_record, store_record, expired, gc, get, announce_list, PutError, kind_mutable,
  kind_tombstone,
}
use molia.Store as Shelf
use molia.Store.Admission.{IsStore, IsAdmissible, put_record-IsStore, put_record-mutable}
use molia.Store.Expiry.{get-gc, get_lem}
use molia.Store.Providers.{announce_list-IsProviders}
use molia.Node.{found, get_mutable, get_record, check_mutable}
use molia.Node.Mutable.{IsGenuine, get_mutable-IsGenuine}
use molia.Tests.{id_of, id_of-IsId, toy}

-- A mutable record that its owner signed.
abbrev owner : Bytes
owner = id_of 9

abbrev pub note : StoredRecord
note = record {
  key = id_of 34;
  value = 5 ∷ [];
  sequence = 1;
  ttl_secs = 60;
  not_before_unix = 0;
  owner_pubkey = owner;
  signature = record_bytes (id_of 34) (5 ∷ []) 1 60 0;
  kind = 1;
  namespace = 1 ∷ [];
  salt = 2 ∷ [];
  stored_unix = 100;
  cache = false;
}

pub note-authentic : authentic toy note ≡ true
unfolding authentic signed_envelope mutable_key verify_record verify_message record_bytes to_be
    list_beq
note-authentic = refl

note_size : length note.value + length note.signature ≤ 65536
unfolding record_bytes to_be
note_size = omega arith

empty-IsStore : IsStore toy Shelf.new
unfolding Shelf.new
empty-IsStore = record { genuine = tt; cached = tt; one_record = tt; one_cached = tt }

note-IsAdmissible : IsAdmissible toy note Shelf.new
unfolding Shelf.new Maps.lookup
note-IsAdmissible = record { fits = note_size; genuine = note-authentic; newer = λ old e. cc }

put_record-mutable_example :
    (put_record toy note false Shelf.new ≡ inr (store_record note Shelf.new))
    × (Maps.lookup note.key (store_record note Shelf.new).records ≡ some note)
    × (put_record toy note true Shelf.new ≡ inr Shelf.new)
put_record-mutable_example = (put_record-mutable toy note Shelf.new refl).0 note-IsAdmissible

put_record-IsStore_example : IsStore toy (store_record note Shelf.new)
put_record-IsStore_example =
    (put_record-IsStore toy note false Shelf.new (store_record note Shelf.new) empty-IsStore
      ((put_record-mutable toy note Shelf.new refl).0 note-IsAdmissible).0).0

get-gc_example :
    get 200 (gc 200 (store_record note Shelf.new)) (id_of 34)
    ≡ get 200 (store_record note Shelf.new) (id_of 34)
get-gc_example =
    get-gc 200 (store_record note Shelf.new) (id_of 34) put_record-IsStore_example.one_record
      put_record-IsStore_example.one_cached

record_bytes-injective_example : id_of 1 ≡ id_of 1
record_bytes-injective_example =
    (record_bytes-injective (id_of 1) (id_of 1) (5 ∷ []) (5 ∷ []) 1 1 60 60 0 0 refl refl
      (omega arith, omega arith, omega arith, omega arith, omega arith, omega arith) refl).0

binding_message-injective_example : id_of 1 ≡ id_of 1
binding_message-injective_example =
    (binding_message-injective (id_of 1) (id_of 1) (id_of 2) (id_of 2) refl refl refl).0

abbrev me : Identity
me = record { seed = id_of 7; wg_secret = id_of 8 }

leading_zero_bits_iff_example :
    (20 ≤ leading_zero_bits (id_of 3)) ↔ (be_value (id_of 3) < 2 ^ (256 - 20))
leading_zero_bits_iff_example =
    leading_zero_bits_iff (id_of 3) 20 (id_of-IsId 3 (omega arith)) (omega arith)

announce_list-IsProviders_example :
    has_key (λ (e : ProviderEntry). e.peer_id) (id_of 1) (announce_list 100 (id_of 1) (3 ∷ []) [])
    ≡ true
announce_list-IsProviders_example =
    (announce_list-IsProviders 100 (id_of 1) (3 ∷ []) []
        (record { once = tt; bounded = omega arith })).2
      (omega arith)

note_read : get 120 (store_record note Shelf.new) (id_of 34) ≡ some note
unfolding get store_record queue_record Shelf.new expired Maps.lookup Maps.insert list_beq
note_read = refl

get_lem_example : expired note 120 ≡ false
get_lem_example = (get_lem 120 (store_record note Shelf.new) (id_of 34) note note_read).0

note_found : get_mutable toy owner (1 ∷ []) (2 ∷ []) (inr (found (some note))) ≡ inr (some (5 ∷ []))
unfolding get_mutable get_record check_mutable signed_by authentic signed_envelope mutable_key
    verify_record verify_message record_bytes to_be list_beq
note_found = refl

get_mutable-IsGenuine_example :
    (rec : StoredRecord) × (get_record
        (mutable_key toy owner (1 ∷ []) (2 ∷ []))
        (inr (found (some note)))
      ≡ inr (some rec))
    × IsGenuine toy owner (1 ∷ []) (2 ∷ []) (5 ∷ []) rec
get_mutable-IsGenuine_example =
    get_mutable-IsGenuine toy owner (1 ∷ []) (2 ∷ []) (5 ∷ []) (inr (found (some note))) note_found
