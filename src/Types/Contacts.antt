-- ===== src/Types/Contacts.antt =====
-- The address list of a contact.
use molia.Prelude.{
  ◌≤◌, ◌≡◌, inl, inr, List, [], ◌∷◌, ◌++◌, length, length-append, any, any-append, ◌==◌, Bool,
  false, ◌||◌, ◌&&◌, ltb, ltb→lt, ◌<◌, Bool-cases, Distinct, Distinct-snoc, has_key, arith,
}
use molia.Types.{SocketAddr, addr_eq, addr_beq_iff, PeerInfo, max_addrs, push_addr}

-- At most four addresses, none twice.
pub record IsContact (p : PeerInfo) : Type 0 where
  pub bounded : length p.addrs ≤ max_addrs
  pub distinct : Distinct (λ (a : SocketAddr). a) p.addrs

abbrev pub knows : PeerInfo → SocketAddr → Bool
knows p a = has_key (λ (x : SocketAddr). x) a p.addrs

known_other :
    (a b : SocketAddr) (xs : List SocketAddr)
    → any (λ x. x == b) (xs ++ a ∷ []) ≡ (any (λ x. x == b) xs || a == b)
known_other a b xs =
    rw (any-append (λ (x : SocketAddr). x == b) xs (a ∷ [])) (unfold any in ground arith)

-- `push_addr` keeps an address list within its four places and free of repetitions. It adds the
-- address exactly if there is room for it, and forgets none.
pub push_addr-IsContact :
    (p : PeerInfo) (addr other : SocketAddr)
    → IsContact p
    → IsContact (push_addr p addr)
      × (knows (push_addr p addr) other
          ≡ (knows p other || (addr == other && ltb (length p.addrs) max_addrs)))
unfolding push_addr
push_addr-IsContact p addr other h = elim (Bool-cases (knows p addr)) [
  | inl old ↦ rw old (h, ground (arith, addr_beq_iff addr other))
  | inr new ↦ elim (Bool-cases (ltb (length p.addrs) max_addrs)) [
    | inl room ↦
        rw (new, room) (grown new (ltb→lt _ _ room), ground (arith, known_other addr other p.addrs))
    | inr full ↦ rw (new, full) (h, ground arith)
  ]
]
  where
    grown :
        knows p addr ≡ false
        → length p.addrs < max_addrs
        → IsContact (record p { addrs = p.addrs ++ addr ∷ [] })
    grown new room = record {
      bounded = omega (arith, length-append p.addrs (addr ∷ []));
      distinct = Distinct-snoc (λ (a : SocketAddr). a) addr p.addrs new h.distinct;
    }
