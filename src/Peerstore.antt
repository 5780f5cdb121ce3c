-- ===== src/Peerstore.antt =====
-- src/peerstore.rs: the peers of a shard and their log. The text of an address and its parser belong
-- to the standard library: parameters, as is the checksum. A directory is its two files; `wal` says
-- that the store is durable and its log open.
pub mod Reopening
use molia.Prelude.{
  ℕ, zero, suc, ◌+◌, ◌≡◌, Bool, true, false, not, ◌&&◌, Option, none, some, List, [], ◌∷◌, ◌++◌,
  map, length, take, drop, if◌then◌else◌, ltb, leb, ◌==◌, nat_eq, bytes_eq, Eq,
}
use molia.Prelude.Words.{Bytes}
use molia.Prelude.Maps
use molia.Types.{NodeId, SocketAddr, PeerInfo, primary_addr, new_peer}
use molia.Wal.{Frame, type_upsert, type_tombstone, type_record, write_frames, replay_frames}

-- `addr.to_string().as_bytes()` and its inverse `from_utf8` with `parse`.
pub record AddressText : Type 0 where
  pub print : SocketAddr → Bytes
  pub parse : Bytes → Option SocketAddr

pub record Peerstore : Type 0 where
  pub peers : List (NodeId × PeerInfo)
  pub pending : List Frame
  pub wal : Bool

-- The files of the directory.
pub record Files : Type 0 where
  pub snapshot : Bytes
  pub log : Bytes

unfoldable pub memory : Peerstore
memory = record { peers = []; pending = []; wal = false }

unfoldable pub peer_payload : AddressText → PeerInfo → Bytes
peer_payload text info = elim (primary_addr info) [
  | none ↦ info.id
  | some addr ↦ info.id ++ text.print addr
]

unfoldable pub append : ℕ → Bytes → Peerstore → Peerstore
append ty payload s = record s { pending = s.pending ++ (ty, payload) ∷ [] }

unfoldable pub upsert : AddressText → PeerInfo → Peerstore → Peerstore
unfolding append peer_payload
upsert text info s =
    append type_upsert (peer_payload text info)
      (record s { peers = Maps.insert info.id info s.peers })

unfoldable pub remove : NodeId → Peerstore → Peerstore
unfolding append
remove peer s = append type_tombstone peer (record s { peers = Maps.remove peer s.peers })

unfoldable pub get : NodeId → Peerstore → Option PeerInfo
get peer s = Maps.lookup peer s.peers

unfoldable pub flush : (Bytes → ℕ) → Peerstore → Files → Peerstore × Files
flush crc s files = (
  record s { pending = [] },
  (if s.wal then record files { log = files.log ++ write_frames crc s.pending } else files),
)

-- The snapshot has a frame for each peer and each record; then the log is emptied.
unfoldable pub compact_with_records :
    (Bytes → ℕ) → AddressText → List Bytes → Peerstore → Files → Files
compact_with_records crc text records s files = if not s.wal then files else record {
  snapshot = write_frames crc (
      map (λ p. (type_upsert, peer_payload text p.1)) s.peers
      ++ map (λ r. (type_record, r)) records);
  log = [];
}

unfoldable pub compact : (Bytes → ℕ) → AddressText → Peerstore → Files → Files
compact crc text s files = compact_with_records crc text [] s files

-- The match of `replay` on one frame.
unfoldable pub apply_frame :
    AddressText → Frame → List (NodeId × PeerInfo) → List (NodeId × PeerInfo)
apply_frame text (ty, payload) peers =
    if ty == type_upsert && leb 32 (length payload)
    then elim (text.parse (drop 32 payload)) [
      | none ↦ peers
      | some addr ↦ Maps.insert (take 32 payload) (new_peer (take 32 payload) addr) peers
    ]
    else if ty == type_tombstone && length payload == 32
    then Maps.remove payload peers
    else peers

unfoldable pub apply_frames :
    AddressText → List Frame → List (NodeId × PeerInfo) → List (NodeId × PeerInfo)
unfolding apply_frame
apply_frames text [] peers = peers
apply_frames text (f ∷ fs) peers = apply_frames text fs (apply_frame text f peers)

-- `recover` and `open`: the snapshot, then the log; a file that does not exist is empty.
unfoldable pub open_dir : (Bytes → ℕ) → AddressText → Files → Peerstore
unfolding apply_frames
open_dir crc text files = record {
  peers =
      apply_frames text (replay_frames crc files.log)
        (apply_frames text (replay_frames crc files.snapshot) []);
  pending = [];
  wal = true;
}
