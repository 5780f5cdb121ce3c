-- ===== src/Tests/Logs.antt =====
-- Logs, the peer store and erasure shards.
use molia.Prelude.{
  ℕ, ◌≤◌, ◌≡◌, refl, Option, none, some, List, [], ◌∷◌, ◌++◌, length, if◌then◌else◌, ◌==◌, nat_eq,
  arith,
}
use molia.Prelude.Words.{Bytes, to_le}
use molia.Types.{SocketAddr, IpAddr, v4, v6}
use molia.Wal.{write_frame, write_frames, replay_frames}
use molia.Wal.{read_frames}
use molia.Wal.Fuel.{replay_frames_total}
use molia.Wal.Recovery.{replay_frames-write_frames}
use molia.Peerstore.{AddressText, Files, open_dir, flush}
use molia.Peerstore.Reopening.{
  all_logged, IsText, IsIp, Change, added, removed, run, open_dir-flush,
}
use molia.Tests.{contact, id_of, localhost}

-- A checksum that is always 1.
abbrev sum : Bytes → ℕ
sum b = 1

replay_frames-write_frames_example :
    (replay_frames sum (write_frames sum ((2, 7 ∷ []) ∷ []) ++ to_le 4 1) ≡ (2, 7 ∷ []) ∷ [])
    × (replay_frames sum (write_frames sum ((2, 7 ∷ []) ∷ [])) ≡ (2, 7 ∷ []) ∷ [])
replay_frames-write_frames_example =
    replay_frames-write_frames sum ((2, 7 ∷ []) ∷ []) (1, 8 ∷ []) (to_le 4 1) (1 ∷ 8 ∷ to_le 4 1)
      (λ b. omega arith) (omega arith, tt) (omega arith) (omega arith)
      (unfold write_frame to_le in refl)

-- Addresses as their version, their port and their octets.
abbrev print_ip : IpAddr → ℕ → Bytes
print_ip (v4 octets) port = 4 ∷ port ∷ octets
print_ip (v6 octets) port = 6 ∷ port ∷ octets

abbrev parse : Bytes → Option SocketAddr
parse (version ∷ port ∷ octets) =
    some (record { ip = if version == 4 then v4 octets else v6 octets; port = port })
parse _ = none

abbrev pub text : AddressText
text = record { print = λ a. print_ip a.ip a.port; parse = parse }

parse-print_ip :
    (i : IpAddr) (port : ℕ) → parse (print_ip i port) ≡ some (record { ip = i; port = port })
parse-print_ip (v4 octets) port = refl
parse-print_ip (v6 octets) port = refl

pub parse-print : (a : SocketAddr) → text.parse (text.print a) ≡ some a
parse-print a = parse-print_ip a.ip a.port

text-IsText : IsText text
text-IsText = record { inverse = λ a h. parse-print a; short = λ a h. short a.ip a.port h }
  where
    short : (i : IpAddr) (port : ℕ) → IsIp i → length (print_ip i port) ≤ 65536
    short (v4 octets) port h = omega arith
    short (v6 octets) port h = omega arith

abbrev empty_files : Files
empty_files = record { snapshot = []; log = [] }

abbrev changes : List Change
changes =
    added (contact 1)
    ∷ added (record (contact 2) {
      addrs = localhost 4002 ∷ localhost 5002 ∷ [];
      x25519 = some (id_of 7);
    })
    ∷ removed (id_of 1)
    ∷ []

open_dir-flush_example :
    (open_dir sum text
      (flush sum (run text changes (open_dir sum text empty_files)) empty_files).1).peers
    ≡ all_logged (run text changes (open_dir sum text empty_files)).peers
open_dir-flush_example =
    open_dir-flush sum text empty_files [] changes (λ b. omega arith) text-IsText tt
      (unfold write_frames in refl) ((refl, refl), ((refl, refl), (refl, tt)))

replay_frames_total_example : read_frames sum 9 (1 ∷ 2 ∷ []) ≡ replay_frames sum (1 ∷ 2 ∷ [])
replay_frames_total_example = replay_frames_total sum (1 ∷ 2 ∷ []) 9 (omega arith)
