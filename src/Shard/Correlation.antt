-- ===== src/Shard/Correlation.antt =====
-- Correlation numbers and contacts from the wire.
use molia.Prelude.{
  ℕ, zero, suc, ◌<◌, ◌≡◌, ◌≢◌, ◌⊎◌, refl, ap, ◌∙◌, inl, inr, true, false, Option, none, some, List,
  [], ◌∷◌, length, any, All, if◌then◌else◌, ◌==◌, nat_eq, Bool-cases, arith,
}
use molia.Prelude.Words.{Bytes, u32_mod}
use molia.Types.{NodeId, SocketAddr, PeerInfo, from_bytes, new_peer, push_addr}
use molia.Types.Contacts.{IsContact, push_addr-IsContact}
use molia.Shard.{next_corr, ProtoPeer, parse_addrs, push_addrs, peer_from_proto, peers_from_proto}

-- The state after `n` numbers were handed out.
corr_after : ℕ → ℕ → ℕ
corr_after zero c = c
corr_after (suc n) c = (next_corr (corr_after n c)).1

-- A correlation number is a 32-bit number and never 0, whenever the first one is, and two requests in
-- a row never share one.
pub next_corr_lem :
    (c : ℕ)
    → 0 < c
    → c < u32_mod
    → (0 < (next_corr c).1)
      × ((next_corr c).1 < u32_mod)
      × ((next_corr c).0 ≡ c)
      × ((next_corr c).1 ≢ c)
unfolding next_corr
next_corr_lem c pos small = ground arith

push_addrs-IsContact :
    (addrs : List SocketAddr) (info : PeerInfo)
    → IsContact info
    → IsContact (push_addrs info addrs) × ((push_addrs info addrs).id ≡ info.id)
unfolding push_addrs
push_addrs-IsContact [] info h = (h, refl)
push_addrs-IsContact (a ∷ addrs) info h =
    let (kept, same) =
      push_addrs-IsContact addrs (push_addr info a) (push_addr-IsContact info a a h).0 in
    (kept, same ∙ id-push_addr info a)
  where
    id-push_addr : (p : PeerInfo) (a : SocketAddr) → (push_addr p a).id ≡ p.id
    id-push_addr p a = unfold push_addr in ground arith

-- A contact from the wire: an identifier of 32 bytes, at most four addresses and none twice.
pub record IsReceived (p : PeerInfo) : Type 0 where
  pub sized : length p.id ≡ 32
  pub contact : IsContact p

new_peer-IsContact : (id : NodeId) (a : SocketAddr) → IsContact (new_peer id a)
unfolding new_peer any
new_peer-IsContact id a = record { bounded = omega arith; distinct = (refl, tt) }

unfoldable pub keyed : ProtoPeer → PeerInfo → PeerInfo
keyed p info =
    if length p.x25519_pubkey == 32 then record info { x25519 = some p.x25519_pubkey } else info

keyed-IsReceived :
    (p : ProtoPeer) (info : PeerInfo)
    → length info.id ≡ 32
    → IsContact info
    → IsReceived (keyed p info)
unfolding keyed
keyed-IsReceived p info size w = elim (Bool-cases (length p.x25519_pubkey == 32)) [
  | inl e ↦
      rw e
        (record { sized = size; contact = record { bounded = w.bounded; distinct = w.distinct } })
  | inr e ↦ rw e (record { sized = size; contact = w })
]

pub peer_from_proto-some :
    (parse : Bytes → Option SocketAddr) (p : ProtoPeer) (a : SocketAddr) (addrs : List SocketAddr)
    → (length p.peer_id == 32) ≡ true
    → parse_addrs parse p.addrs ≡ a ∷ addrs
    → peer_from_proto parse p ≡ some (keyed p (push_addrs (new_peer p.peer_id a) addrs))
unfolding peer_from_proto from_bytes keyed
peer_from_proto-some parse p a addrs good e = rw (peer_from_proto, good, e) refl

peer_from_proto-none :
    (parse : Bytes → Option SocketAddr) (p : ProtoPeer)
    → ((length p.peer_id == 32) ≡ false) ⊎ (parse_addrs parse p.addrs ≡ [])
    → peer_from_proto parse p ≡ none
unfolding peer_from_proto from_bytes
peer_from_proto-none parse p (inl bad) = rw (peer_from_proto, bad) refl
peer_from_proto-none parse p (inr e) = elim (Bool-cases (length p.peer_id == 32)) [
  | inl good ↦ rw (peer_from_proto, good, e) refl
  | inr bad ↦ rw (peer_from_proto, bad) refl
]

received :
    (parse : Bytes → Option SocketAddr) (p : ProtoPeer)
    → (peer_from_proto parse p ≡ none)
      ⊎ ((info : PeerInfo) × (peer_from_proto parse p ≡ some info) × IsReceived info)
received parse p = elim (Bool-cases (length p.peer_id == 32)) [
  | inr bad ↦ inl (peer_from_proto-none parse p (inl bad))
  | inl good ↦ by_addrs good (parse_addrs parse p.addrs) refl
]
  where
    by_addrs :
        (length p.peer_id == 32) ≡ true
        → (addrs : List SocketAddr) → parse_addrs parse p.addrs ≡ addrs
        → (peer_from_proto parse p ≡ none)
          ⊎ ((info : PeerInfo) × (peer_from_proto parse p ≡ some info) × IsReceived info)
    by_addrs good [] e = inl (peer_from_proto-none parse p (inr e))
    by_addrs good (a ∷ addrs) e =
        let (kept, same) =
          push_addrs-IsContact addrs (new_peer p.peer_id a) (new_peer-IsContact p.peer_id a) in
        inr (
          keyed p (push_addrs (new_peer p.peer_id a) addrs),
          peer_from_proto-some parse p a addrs good e,
          keyed-IsReceived p _ (ap length same ∙ size good) kept,
        )
      where
        size : (length p.peer_id == 32) ≡ true → length (new_peer p.peer_id a).id ≡ 32
        size g = unfold new_peer in ground arith

-- Every contact that is taken from a message has an identifier of 32 bytes, at most four addresses and none twice, whatever the message holds.
pub peers_from_proto-IsReceived :
    (parse : Bytes → Option SocketAddr) (ps : List ProtoPeer)
    → All IsReceived (peers_from_proto parse ps)
unfolding peers_from_proto
peers_from_proto-IsReceived parse [] = tt
peers_from_proto-IsReceived parse (p ∷ ps) = elim (received parse p) [
  | inl none_there ↦ rw (peers_from_proto, none_there) (peers_from_proto-IsReceived parse ps)
  | inr (info, found, w) ↦ rw (peers_from_proto, found) (w, peers_from_proto-IsReceived parse ps)
]
