-- ===== src/Peerstore/Reopening.antt =====
-- A store that is closed and opened again.
use molia.Prelude.{
  map, subst, Bool-cases, Option-cases, inl, inr, ◌&&◌, ◌==◌, ℕ, ◌≤◌, ◌<◌, ◌≡◌, refl, sym, ap, ◌∙◌,
  true, some, List, [], ◌∷◌, ◌++◌, length, length-append, take, drop, take-length-append,
  drop-length-append, All, All-append, leb, nat_eq, bytes_eq, arith,
}
use mathlib.Core.List.{append_assoc}
use molia.Prelude.Words.{Bytes, u32_mod}
use molia.Prelude.Maps
use molia.Prelude.Maps.{lookup-insert, lookup-remove}
use molia.Types.{NodeId, IpAddr, v4, v6, SocketAddr, PeerInfo, primary_addr, first, new_peer}
use molia.Wal.{Frame, type_upsert, type_tombstone, write_frame, write_frames, replay_frames}
use molia.Wal.Recovery.{Fits, length-write_frame, replay_frames-write_frames}
use molia.Peerstore.{
  AddressText, Peerstore, Files, peer_payload, append, upsert, remove, flush, apply_frame,
  apply_frames, open_dir,
}

-- Four or sixteen octets.
abbrev pub IsIp : IpAddr → Type 0
IsIp (v4 octets) = length octets ≡ 4
IsIp (v6 octets) = length octets ≡ 16

-- Printed addresses are parsed back, and short.
pub record IsText (text : AddressText) : Type 0 where
  pub inverse : (a : SocketAddr) → IsIp a.ip → text.parse (text.print a) ≡ some a
  pub short : (a : SocketAddr) → IsIp a.ip → length (text.print a) ≤ 65536

-- An operation on the peers.
pub data Change : Type 0 where
  added : PeerInfo → Change
  removed : NodeId → Change

-- There is a first address, and it has four or sixteen octets.
abbrev pub IsReachable : List SocketAddr → Type 0
IsReachable [] = ⊥
IsReachable (a ∷ addrs) = IsIp a.ip

-- What the log keeps of a contact: its identifier and its first address.
abbrev pub logged : PeerInfo → PeerInfo
logged info = elim info.addrs [ [] ↦ info | a ∷ addrs ↦ new_peer info.id a ]

abbrev pub IsChange : Change → Type 0
IsChange (added info) = (length info.id ≡ 32) × IsReachable info.addrs
IsChange (removed peer) = length peer ≡ 32

-- Operations of a user of the store, one after the other.
unfoldable pub run : AddressText → List Change → Peerstore → Peerstore
run text [] s = s
run text (added info ∷ cs) s = run text cs (upsert text info s)
run text (removed peer ∷ cs) s = run text cs (remove peer s)

payload-logged :
    (text : AddressText) (info : PeerInfo) (a : SocketAddr) (addrs : List SocketAddr)
    → info.addrs ≡ a ∷ addrs
    → peer_payload text info ≡ info.id ++ text.print a
unfolding peer_payload primary_addr first
payload-logged text info a addrs e = rw (peer_payload, e) refl

payload-Fits :
    (text : AddressText) (info : PeerInfo) (addrs : List SocketAddr)
    → info.addrs ≡ addrs
    → IsText text
    → length info.id ≡ 32
    → IsReachable info.addrs
    → Fits (type_upsert, peer_payload text info)
payload-Fits text info [] e t size ip = absurd (subst IsReachable e ip)
payload-Fits text info (a ∷ addrs) e t size ip =
    rw (payload-logged text info a addrs e) (
      omega (arith, length-append info.id (text.print a), t.short a (subst IsReachable e ip), size))

-- What operations log fits into frames.
run-Fits :
    (text : AddressText) (cs : List Change) (s : Peerstore)
    → IsText text
    → All IsChange cs
    → All Fits s.pending
    → All Fits (run text cs s).pending
unfolding run upsert remove append
run-Fits text [] s t sizes h = h
run-Fits text (added info ∷ cs) s t sizes h = run-Fits text cs (upsert text info s) t sizes.1 (
    All-append Fits s.pending _ h
      (payload-Fits text info info.addrs refl t sizes.0.0 sizes.0.1, tt))
run-Fits text (removed peer ∷ cs) s t sizes h =
    run-Fits text cs (remove peer s) t sizes.1
      (All-append Fits s.pending _ h (omega (arith, sizes.0), tt))

run-wal : (text : AddressText) (cs : List Change) (s : Peerstore) → (run text cs s).wal ≡ s.wal
unfolding run upsert remove append
run-wal text [] s = refl
run-wal text (added info ∷ cs) s = run-wal text cs (upsert text info s)
run-wal text (removed peer ∷ cs) s = run-wal text cs (remove peer s)

write_frames-append :
    (crc : Bytes → ℕ) (fs gs : List Frame)
    → write_frames crc (fs ++ gs) ≡ write_frames crc fs ++ write_frames crc gs
unfolding write_frames
write_frames-append crc [] gs = refl
write_frames-append crc (f ∷ fs) gs =
    ap (λ b. write_frame crc f ++ b) (write_frames-append crc fs gs)
    ∙ sym (append_assoc (write_frame crc f) (write_frames crc fs) (write_frames crc gs))

replay_whole :
    (crc : Bytes → ℕ) (fs : List Frame)
    → ((payload : Bytes) → crc payload < u32_mod)
    → All Fits fs
    → replay_frames crc (write_frames crc fs) ≡ fs
replay_whole crc fs word h =
    (replay_frames-write_frames crc fs (0, []) [] (write_frame crc (0, [])) word h (omega arith)
      (omega (arith, length-write_frame crc (0, []))) refl).1

apply_address :
    (text : AddressText) (peer : NodeId) (a : SocketAddr) (peers : List (NodeId × PeerInfo))
    → IsText text
    → IsIp a.ip
    → length peer ≡ 32
    → apply_frame text (type_upsert, peer ++ text.print a) peers
      ≡ Maps.insert peer (new_peer peer a) peers
unfolding apply_frame
apply_address text peer a peers t ip size =
    let long : leb 32 (length (peer ++ text.print a)) ≡ true =
      ground (arith, length-append peer (text.print a)) in
    let head : take 32 (peer ++ text.print a) ≡ peer =
      ap (λ n. take n (peer ++ text.print a)) (sym size) ∙ take-length-append peer (text.print a) in
    let tail : drop 32 (peer ++ text.print a) ≡ text.print a =
      ap (λ n. drop n (peer ++ text.print a)) (sym size) ∙ drop-length-append peer (text.print a) in
    rw (long, tail, t.inverse a ip, head) refl

-- Replaying what an operation logged has the effect of the operation, on what the log keeps.
apply_upsert :
    (text : AddressText) (info : PeerInfo) (addrs : List SocketAddr)
    (peers : List (NodeId × PeerInfo))
    → info.addrs ≡ addrs
    → IsText text
    → length info.id ≡ 32
    → IsReachable info.addrs
    → apply_frame text (type_upsert, peer_payload text info) peers
      ≡ Maps.insert info.id (logged info) peers
apply_upsert text info [] peers e t size ip = absurd (subst IsReachable e ip)
apply_upsert text info (a ∷ addrs) peers e t size ip =
    ap (λ b. apply_frame text (type_upsert, b) peers) (payload-logged text info a addrs e)
    ∙ apply_address text info.id a peers t (subst IsReachable e ip) size
    ∙ ap (λ l. Maps.insert info.id (kept l) peers) (sym e)
  where
    kept : List SocketAddr → PeerInfo
    kept l = elim l [ [] ↦ info | b ∷ bs ↦ new_peer info.id b ]

apply_remove :
    (text : AddressText) (peer : NodeId) (peers : List (NodeId × PeerInfo))
    → length peer ≡ 32
    → apply_frame text (type_tombstone, peer) peers ≡ Maps.remove peer peers
unfolding apply_frame
apply_remove text peer peers size = rw size refl

apply_frames-append :
    (text : AddressText) (fs gs : List Frame) (peers : List (NodeId × PeerInfo))
    → apply_frames text (fs ++ gs) peers ≡ apply_frames text gs (apply_frames text fs peers)
unfolding apply_frames
apply_frames-append text [] gs peers = refl
apply_frames-append text (f ∷ fs) gs peers =
    apply_frames-append text fs gs (apply_frame text f peers)

abbrev pub all_logged : List (NodeId × PeerInfo) → List (NodeId × PeerInfo)
all_logged = map (λ p. (p.0, logged p.1))

logged-insert :
    (peer : NodeId) (info : PeerInfo) (peers : List (NodeId × PeerInfo))
    → all_logged (Maps.insert peer info peers) ≡ Maps.insert peer (logged info) (all_logged peers)
unfolding Maps.insert
logged-insert peer info [] = refl
logged-insert peer info (p ∷ ps) = elim (Bool-cases (peer == p.0)) [
  | inl same ↦ rw same refl
  | inr other ↦ rw other (ap (◌∷◌ (p.0, logged p.1)) (logged-insert peer info ps))
]

logged-remove :
    (peer : NodeId) (peers : List (NodeId × PeerInfo))
    → all_logged (Maps.remove peer peers) ≡ Maps.remove peer (all_logged peers)
unfolding Maps.remove
logged-remove peer [] = refl
logged-remove peer (p ∷ ps) = elim (Bool-cases (peer == p.0)) [
  | inl same ↦ rw same (logged-remove peer ps)
  | inr other ↦ rw other (ap (◌∷◌ (p.0, logged p.1)) (logged-remove peer ps))
]

-- What was read from a log has nothing that a log does not keep.
logged-apply_frame :
    (text : AddressText) (f : Frame) (peers : List (NodeId × PeerInfo))
    → all_logged (apply_frame text f peers) ≡ apply_frame text f (all_logged peers)
unfolding apply_frame new_peer
logged-apply_frame text (ty, payload) peers =
    elim (Bool-cases (ty == type_upsert && leb 32 (length payload))) [
      | inl upserted ↦ elim (Option-cases (text.parse (drop 32 payload))) [
        | inl odd ↦ rw (upserted, odd) refl
        | inr (a, read) ↦
            rw (upserted, read)
              (logged-insert (take 32 payload) (new_peer (take 32 payload) a) peers)
      ]
      | inr other ↦ elim (Bool-cases (ty == type_tombstone && length payload == 32)) [
        | inl gone ↦ rw (other, gone) (logged-remove payload peers)
        | inr foreign ↦ rw (other, foreign) refl
      ]
    ]

logged-apply_frames :
    (text : AddressText) (fs : List Frame) (peers : List (NodeId × PeerInfo))
    → all_logged (apply_frames text fs peers) ≡ apply_frames text fs (all_logged peers)
unfolding apply_frames
logged-apply_frames text [] peers = refl
logged-apply_frames text (f ∷ fs) peers =
    logged-apply_frames text fs (apply_frame text f peers)
    ∙ ap (apply_frames text fs) (logged-apply_frame text f peers)

-- The log of a store tells what it keeps of the peers: applying what is pending to what that was.
run-pending :
    (text : AddressText) (cs : List Change) (s : Peerstore) (before : List (NodeId × PeerInfo))
    → IsText text
    → All IsChange cs
    → apply_frames text s.pending before ≡ all_logged s.peers
    → apply_frames text (run text cs s).pending before ≡ all_logged (run text cs s).peers
unfolding run upsert remove append
run-pending text [] s before t sizes h = h
run-pending text (added info ∷ cs) s before t sizes h =
    run-pending text cs (upsert text info s) before t sizes.1 (
      apply_frames-append text s.pending ((type_upsert, peer_payload text info) ∷ []) before
      ∙ rw h (
          unfold apply_frames in
          apply_upsert text info info.addrs (all_logged s.peers) refl t sizes.0.0 sizes.0.1)
      ∙ sym (logged-insert info.id info s.peers))
run-pending text (removed peer ∷ cs) s before t sizes h =
    run-pending text cs (remove peer s) before t sizes.1 (
      apply_frames-append text s.pending ((type_tombstone, peer) ∷ []) before
      ∙ rw h (unfold apply_frames in apply_remove text peer (all_logged s.peers) sizes.0)
      ∙ sym (logged-remove peer s.peers))

-- A store that is opened on a log of whole frames, changed by any insertions and removals of peers,
-- flushed and opened again has the peers that it had, and of each just its identifier and its first
-- address: the other addresses, the key and the round-trip time are lost. Identifiers have 32 bytes, an
-- inserted contact has an address, addresses have 4 or 16 octets, printed addresses are short and parse
-- back, and the checksum is a 32-bit number.
pub open_dir-flush :
    (crc : Bytes → ℕ) (text : AddressText) (files : Files) (fs : List Frame) (cs : List Change)
    → ((payload : Bytes) → crc payload < u32_mod)
    → IsText text
    → All Fits fs
    → files.log ≡ write_frames crc fs
    → All IsChange cs
    → (open_dir crc text (flush crc (run text cs (open_dir crc text files)) files).1).peers
      ≡ all_logged (run text cs (open_dir crc text files)).peers
unfolding open_dir flush
open_dir-flush crc text files fs cs word t fits log sizes =
    let all_fit : All Fits (fs ++ later.pending) =
      All-append Fits fs later.pending fits (run-Fits text cs opened t sizes tt) in
    rw (run-wal text cs opened) (
      ap (λ l. apply_frames text (replay_frames crc l) base)
        (ap (λ l. l ++ write_frames crc later.pending) log
          ∙ sym (write_frames-append crc fs later.pending))
      ∙ ap (λ f. apply_frames text f base) (replay_whole crc (fs ++ later.pending) word all_fit)
      ∙ apply_frames-append text fs later.pending base
      ∙ ap (λ p. apply_frames text later.pending p) (sym opened_peers)
      ∙ run-pending text cs opened opened.peers t sizes (unfold apply_frames in sym opened_logged))
  where
    opened : Peerstore
    opened = open_dir crc text files

    later : Peerstore
    later = run text cs opened

    base : List (NodeId × PeerInfo)
    base = apply_frames text (replay_frames crc files.snapshot) []

    opened_peers : opened.peers ≡ apply_frames text fs base
    opened_peers =
        ap (λ l. apply_frames text (replay_frames crc l) base) log
        ∙ ap (λ f. apply_frames text f base) (replay_whole crc fs word fits)

    opened_logged : all_logged opened.peers ≡ opened.peers
    opened_logged =
        logged-apply_frames text (replay_frames crc files.log) base
        ∙ ap (apply_frames text (replay_frames crc files.log))
            (logged-apply_frames text (replay_frames crc files.snapshot) [])
