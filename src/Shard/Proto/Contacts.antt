-- ===== src/Shard/Proto/Contacts.antt =====
-- Contacts that are sent and received.
use molia.Prelude.{
  ℕ, ◌+◌, ◌≤◌, ◌<◌, ◌≡◌, refl, sym, ap, subst, ◌∙◌, inl, inr, Bool, true, false, ◌||◌, Option, none,
  some, List, [], ◌∷◌, ◌++◌, map, length, take, drop, any, any-append, if◌then◌else◌, ltb, ◌==◌,
  nat_eq, bytes_eq, beq_refl, All, All-take, Bool-cases, Option-cases, arith, unwrap_or, Distinct,
  length-append,
}
use molia.Prelude.Words.{Bytes}
use molia.Prelude.Text.{codes}
use molia.Types.{SocketAddr, addr_eq, PeerInfo, new_peer, push_addr, max_addrs}
use molia.Peerstore.{AddressText}
use molia.Shard.{parse_addrs, push_addrs, peer_from_proto, peers_from_proto}
use molia.Shard.Proto.{
  max_find_node_peers, multiaddr, parse_multiaddr, peer_to_proto, peers_to_proto,
}
use molia.Shard.Correlation.{IsReceived, keyed, peer_from_proto-some}

-- A contact as a node has it: an identifier of 32 bytes, one to four addresses, none twice, and a key of
-- 32 bytes if there is one.
pub record IsSendable (p : PeerInfo) : Type 0 where
  pub received : IsReceived p
  pub reachable : 0 < length p.addrs
  pub keyed : (x : Bytes) → p.x25519 ≡ some x → length x ≡ 32

-- The round-trip time is not taken over from a message.
abbrev pub unmeasured : PeerInfo → PeerInfo
unmeasured p = record p { rtt_ms = 0 }

same_order : (a x : SocketAddr) → (a == x) ≡ false → (x == a) ≡ false
same_order a x h = grind (arith, addr_eq.beq_iff a x, addr_eq.beq_iff x a)

-- An address behind others that are all different from it and from each other.
unknown :
    (a : SocketAddr) (xs ys : List SocketAddr)
    → Distinct (λ (x : SocketAddr). x) (xs ++ a ∷ ys)
    → any (λ x. x == a) xs ≡ false
unfolding any
unknown a [] ys d = refl
unknown a (x ∷ xs) ys d =
    rw (same_order a x (or_false (any (λ z. z == x) xs) (a == x) (any (λ z. z == x) ys) split))
      (unknown a xs ys d.1)
  where
    or_false : (p q r : Bool) → (p || (q || r)) ≡ false → q ≡ false
    or_false p q r h = ground arith

    split : (any (λ z. z == x) xs || (a == x || any (λ z. z == x) ys)) ≡ false
    split = sym (any-append (λ z. z == x) xs (a ∷ ys)) ∙ d.0

append_one : (a : SocketAddr) (xs ys : List SocketAddr) → (xs ++ a ∷ []) ++ ys ≡ xs ++ a ∷ ys
append_one a [] ys = refl
append_one a (x ∷ xs) ys = ap (◌∷◌ x) (append_one a xs ys)

append_nil : (xs : List SocketAddr) → xs ++ [] ≡ xs
append_nil [] = refl
append_nil (x ∷ xs) = ap (◌∷◌ x) (append_nil xs)

push_addr-new :
    (a : SocketAddr) (p : PeerInfo)
    → any (λ x. x == a) p.addrs ≡ false
    → length p.addrs < max_addrs
    → push_addr p a ≡ record p { addrs = p.addrs ++ a ∷ [] }
unfolding push_addr
push_addr-new a p new room = ground (arith, new)

push_addrs-Distinct :
    (xs : List SocketAddr) (p : PeerInfo)
    → length (p.addrs ++ xs) ≤ max_addrs
    → Distinct (λ (x : SocketAddr). x) (p.addrs ++ xs)
    → push_addrs p xs ≡ record p { addrs = p.addrs ++ xs }
unfolding push_addrs
push_addrs-Distinct [] p few d = ap (λ l. record p { addrs = l }) (sym (append_nil p.addrs))
push_addrs-Distinct (x ∷ xs) p few d =
    rw
      (push_addr-new x p (unknown x p.addrs xs d)
        (omega (arith, few, length-append p.addrs (x ∷ xs))))
      (push_addrs-Distinct xs (record p { addrs = p.addrs ++ x ∷ [] })
          (subst (λ l. length l ≤ max_addrs) (sym (append_one x p.addrs xs)) few)
          (subst (λ l. Distinct (λ (y : SocketAddr). y) l) (sym (append_one x p.addrs xs)) d)
        ∙ ap (λ l. record p { addrs = l }) (append_one x p.addrs xs))

module _ (text : AddressText) (parses : (a : SocketAddr) → text.parse (text.print a) ≡ some a) where
  parse-multiaddr : (a : SocketAddr) → parse_multiaddr text (multiaddr text a) ≡ some a
  unfolding parse_multiaddr multiaddr codes molia.Prelude.list_beq
  parse-multiaddr a = parses a

  parse_addrs-multiaddr :
      (addrs : List SocketAddr)
      → parse_addrs (parse_multiaddr text) (map (multiaddr text) addrs) ≡ addrs
  unfolding parse_addrs
  parse_addrs-multiaddr [] = refl
  parse_addrs-multiaddr (a ∷ addrs) =
      rw (parse_addrs, parse-multiaddr a) (ap (◌∷◌ a) (parse_addrs-multiaddr addrs))

  keyed-sent :
      (p : PeerInfo) (a : SocketAddr) (addrs : List SocketAddr)
      → p.addrs ≡ a ∷ addrs
      → ((x : Bytes) → p.x25519 ≡ some x → length x ≡ 32)
      → keyed (peer_to_proto text p) (record (new_peer p.id a) { addrs = a ∷ addrs })
        ≡ record p { rtt_ms = 0 }
  unfolding keyed peer_to_proto new_peer
  keyed-sent p a addrs e size = elim (Option-cases p.x25519) [
    | inl absent ↦ rw (keyed, absent, e) refl
    | inr (x, there) ↦ rw (keyed, there, size x there, e) refl
  ]

  peer_from_proto-sent :
      (p : PeerInfo) (addrs : List SocketAddr)
      → p.addrs ≡ addrs
      → IsSendable p
      → peer_from_proto (parse_multiaddr text) (peer_to_proto text p)
        ≡ some (record p { rtt_ms = 0 })
  unfolding peer_to_proto new_peer
  peer_from_proto-sent p [] e v = absurd (omega (arith, v.reachable, ap length e))
  peer_from_proto-sent p (a ∷ addrs) e v =
      peer_from_proto-some (parse_multiaddr text) (peer_to_proto text p) a addrs
        (ap (λ n. n == 32) v.received.sized) (parse_addrs-multiaddr p.addrs ∙ e)
      ∙ ap (λ q. some (keyed (peer_to_proto text p) q))
          (push_addrs-Distinct addrs (new_peer p.id a)
            (subst (λ l. length l ≤ max_addrs) e v.received.contact.bounded)
            (subst (λ l. Distinct (λ (x : SocketAddr). x) l) e v.received.contact.distinct))
      ∙ ap some (keyed-sent p a addrs e v.keyed)

  All-sent :
      (ps : List PeerInfo)
      → All IsSendable ps
      → peers_from_proto (parse_multiaddr text) (map (peer_to_proto text) ps) ≡ map unmeasured ps
  unfolding peers_from_proto
  All-sent [] v = refl
  All-sent (p ∷ ps) v =
      rw (peers_from_proto, peer_from_proto-sent p p.addrs refl v.0)
        (ap (◌∷◌ (unmeasured p)) (All-sent ps v.1))

  -- A node that receives a list of contacts learns the first 16 of them as the sender had them, all but
  -- the round-trip time. Each has an identifier of 32 bytes, one to four addresses, none twice, and if it
  -- has a key then one of 32 bytes; the parser of addresses reads what their printer writes.
  pub peers_from_proto-peers_to_proto :
      (ps : List PeerInfo)
      → All IsSendable ps
      → peers_from_proto (parse_multiaddr text) (peers_to_proto text ps)
        ≡ map unmeasured (take max_find_node_peers ps)
  unfolding peers_to_proto
  peers_from_proto-peers_to_proto ps v =
      All-sent (take max_find_node_peers ps) (All-take IsSendable max_find_node_peers ps v)
