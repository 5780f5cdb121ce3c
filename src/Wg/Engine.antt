-- ===== src/Wg/Engine.antt =====
-- src/wg.rs, the engine of a shard: one tunnel per peer, found by its receiver index or by its key. A
-- tunnel is boringtun's `Tunn`, a parameter. Where it answers with bytes, these stand at the start
-- of the buffer it was given, so a length and that buffer are here the bytes themselves; only
-- `tick_keepalive` uses one buffer several times, which is written out. A hash map is walked in the
-- order of its list; `public`, which is computed from the secret, is left out.
use molia.Prelude.{
  ℕ, ◌+◌, ◌%◌, Bool, true, false, not, ◌&&◌, ◌||◌, Option, none, some, List, [], ◌∷◌, ◌++◌, length,
  take, drop, replicate, if◌then◌else◌, ltb, ◌==◌, nat_eq, bytes_eq,
}
use molia.Prelude.Words.{Bytes, u32_mod}
use molia.Prelude.Maps
use molia.Types.{NodeId, IpAddr, SocketAddr, addr_eq}
use molia.Crypto.{Primitives, verify_ephemeral_pow}
use molia.Wg.{WgHeader, parse_wg_header, encode_receiver_index, wg_type_initiation, wg_type_data}

abbrev pub wg_type_response : ℕ
wg_type_response = 2

abbrev pub wg_type_cookie : ℕ
wg_type_cookie = 3

abbrev pub keepalive_secs : ℕ
keepalive_secs = 20

-- `TunnResult`.
pub data TunnResult : Type 0 where
  write_to_network : Bytes → TunnResult
  write_to_tunnel : Bytes → TunnResult
  done : TunnResult
  failed : TunnResult

-- What the code calls of `Tunn`: `new` with the secret, the peer's key, the keepalive interval and the
-- index; it does not fail.
pub record Tunnel (T : Type 0) : Type 0 where
  pub new_tunn : Bytes → Bytes → ℕ → ℕ → T
  pub decapsulate_tunn : IpAddr → Bytes → T → T × TunnResult
  pub encapsulate_tunn : Bytes → T → T × TunnResult
  pub update_timers : T → T × TunnResult

pub record Session (T : Type 0) : Type 0 where
  pub tunn : T
  pub peer_id : Option NodeId
  pub endpoint : Option SocketAddr
  pub x25519 : Bytes

pub record WgEngine (T : Type 0) : Type 0 where
  pub secret : Bytes
  pub shard_id : ℕ
  pub next_local : ℕ
  pub sessions : List (ℕ × Session T)
  pub by_x25519 : List (Bytes × ℕ)
  pub pow_nonce : Bytes
  pub pow_bits : ℕ

pub data Decap : Type 0 where
  plaintext : Bytes → Decap
  network : Bytes → Decap
  cookie : Bytes → Decap
  dropped : Decap

unfoldable pub new : {T : Type 0} → Bytes → ℕ → WgEngine T
new secret shard_id = record {
  secret = secret;
  shard_id = shard_id;
  next_local = 1;
  sessions = [];
  by_x25519 = [];
  pow_nonce = replicate 16 0x11;
  pow_bits = 0;
}

unfoldable pub is_dropped : Decap → Bool
is_dropped dropped = true
is_dropped _ = false

unfoldable pub decap_of : TunnResult → Decap
decap_of (write_to_network pkt) = network pkt
decap_of (write_to_tunnel inner) = plaintext inner
decap_of done = dropped
decap_of failed = dropped

unfoldable pub check_initiation_pow : {T : Type 0} → Primitives → Bytes → WgEngine T → Bool
check_initiation_pow c datagram g =
    if g.pow_bits == 0
    then true
    else if ltb (length datagram) 40
    then false
    else verify_ephemeral_pow c (take 32 (drop 8 datagram)) g.pow_nonce g.pow_bits

unfoldable pub cookie_reply : {T : Type 0} → WgEngine T → Bytes
cookie_reply g = g.pow_nonce ++ g.pow_bits ∷ []

module _ {T : Type 0} (t : Tunnel T) where
  unfoldable pub add_peer : Bytes → Option NodeId → Option SocketAddr → WgEngine T → WgEngine T × ℕ
  add_peer peer_x25519 peer_id endpoint g = elim (Maps.lookup peer_x25519 g.by_x25519) [
    | some idx ↦ (g, idx)
    | none ↦
        let index = encode_receiver_index g.shard_id g.next_local in
        (
          record g {
            next_local = (g.next_local + 1) % u32_mod;
            by_x25519 = Maps.insert peer_x25519 index g.by_x25519;
            sessions =
                Maps.insert index
                  (record {
                    tunn = t.new_tunn g.secret peer_x25519 keepalive_secs index;
                    peer_id = peer_id;
                    endpoint = endpoint;
                    x25519 = peer_x25519;
                  })
                  g.sessions;
          },
          index,
        )
  ]

  unfoldable pub drive_decap : SocketAddr → Bytes → Session T → Session T × Decap
  unfolding decap_of
  drive_decap src datagram s =
      let (tunn, r) = t.decapsulate_tunn src.ip datagram s.tunn in
      (record s { tunn = tunn }, decap_of r)

  -- The loop over every session; the one that does not drop the datagram learns its endpoint.
  unfoldable pub try_sessions :
      SocketAddr → Bytes → List (ℕ × Session T) → List (ℕ × Session T) × Decap
  unfolding drive_decap is_dropped
  try_sessions src datagram [] = ([], dropped)
  try_sessions src datagram ((idx, s) ∷ rest) =
      let (s', r) = drive_decap src datagram s in
      let (rest', later) = try_sessions src datagram rest in
      if not (is_dropped r)
      then ((idx, record s' { endpoint = some src }) ∷ rest, r)
      else ((idx, s') ∷ rest', later)

  -- The loop of `drain_session`, over the sessions of this endpoint.
  unfoldable pub drain_sessions : SocketAddr → List (ℕ × Session T) → List (ℕ × Session T) × Decap
  unfolding drive_decap is_dropped
  drain_sessions src [] = ([], dropped)
  drain_sessions src ((idx, s) ∷ rest) =
      let (s', r) = drive_decap src [] s in
      let (rest', later) = drain_sessions src rest in
      let here : Bool = elim s.endpoint [ none ↦ false | some a ↦ a == src ] in
      if not here
      then ((idx, s) ∷ rest', later)
      else if not (is_dropped r)
      then ((idx, s') ∷ rest, r)
      else ((idx, s') ∷ rest', later)

  unfoldable pub drain_session : SocketAddr → WgEngine T → WgEngine T × Decap
  unfolding drain_sessions
  drain_session src g =
      let (sessions, r) = drain_sessions src g.sessions in (record g { sessions = sessions }, r)

  unfoldable pub try_every : SocketAddr → Bytes → WgEngine T → WgEngine T × Decap
  unfolding try_sessions
  try_every src datagram g =
      let (sessions, r) = try_sessions src datagram g.sessions in
      (record g { sessions = sessions }, r)

  unfoldable pub for_session : WgHeader → Bool
  for_session hdr =
      hdr.ty == wg_type_data || (hdr.ty == wg_type_response || hdr.ty == wg_type_cookie)

  unfoldable pub decapsulate : Primitives → SocketAddr → Bytes → WgEngine T → WgEngine T × Decap
  unfolding drain_session try_every for_session drive_decap check_initiation_pow cookie_reply
  decapsulate c src datagram g =
      if length datagram == 0 then drain_session src g else elim (parse_wg_header datagram) [
        | none ↦ (g, dropped)
        | some hdr ↦
            if hdr.ty == wg_type_initiation && not (check_initiation_pow c datagram g)
            then (g, cookie (cookie_reply g))
            else if for_session hdr
            then elim (Maps.lookup hdr.receiver_index g.sessions) [
              | none ↦ try_every src datagram g
              | some s ↦
                  let (s', r) = drive_decap src datagram (record s { endpoint = some src }) in
                  (record g { sessions = Maps.insert hdr.receiver_index s' g.sessions }, r)
            ]
            else try_every src datagram g
      ]

  unfoldable pub sent_packet : TunnResult → Option Bytes
  sent_packet (write_to_network pkt) = some pkt
  sent_packet _ = none

  unfoldable pub encapsulate : Bytes → Bytes → WgEngine T → WgEngine T × Option (Bytes × SocketAddr)
  unfolding sent_packet
  encapsulate peer_x25519 inner g = elim (Maps.lookup peer_x25519 g.by_x25519) [
    | none ↦ (g, none)
    | some idx ↦ elim (Maps.lookup idx g.sessions) [
      | none ↦ (g, none)
      | some s ↦ elim s.endpoint [
        | none ↦ (g, none)
        | some dest ↦
            let (tunn, r) = t.encapsulate_tunn inner s.tunn in
            (
              record g { sessions = Maps.insert idx (record s { tunn = tunn }) g.sessions },
              elim (sent_packet r) [ none ↦ none | some pkt ↦ some (pkt, dest) ],
            )
      ]
    ]
  ]

  unfoldable pub encapsulate_to :
      SocketAddr → Bytes → Option NodeId → Bytes → WgEngine T → WgEngine T × Option Bytes
  unfolding add_peer sent_packet
  encapsulate_to dest peer_x25519 peer_id inner g =
      let g' = (add_peer peer_x25519 peer_id (some dest) g).0 in
      elim (Maps.lookup peer_x25519 g'.by_x25519) [
        | none ↦ (g', none)
        | some idx ↦ elim (Maps.lookup idx g'.sessions) [
          | none ↦ (g', none)
          | some s ↦
              let (tunn, r) = t.encapsulate_tunn inner s.tunn in
              (
                record g' {
                  sessions =
                      Maps.insert idx (record s { tunn = tunn; endpoint = some dest }) g'.sessions;
                },
                sent_packet r,
              )
        ]
      ]

  -- The loop of `tick_keepalive`: `out` is the one buffer that every tunnel writes to; the results are
  -- lengths and destinations.
  unfoldable pub tick_sessions :
      Bytes → List (ℕ × Session T) → (List (ℕ × Session T) × Bytes) × List (ℕ × SocketAddr)
  unfolding sent_packet
  tick_sessions out [] = (([], out), [])
  tick_sessions out ((idx, s) ∷ rest) = elim s.endpoint [
    | none ↦ let ((rest', out'), pkts) = tick_sessions out rest in (((idx, s) ∷ rest', out'), pkts)
    | some dest ↦
        let (tunn, r) = t.update_timers s.tunn in
        elim (sent_packet r) [
          | none ↦
              let ((rest', out'), pkts) = tick_sessions out rest in
              (((idx, record s { tunn = tunn }) ∷ rest', out'), pkts)
          | some pkt ↦
              let ((rest', out'), pkts) = tick_sessions (pkt ++ drop (length pkt) out) rest in
              (((idx, record s { tunn = tunn }) ∷ rest', out'), (length pkt, dest) ∷ pkts)
        ]
  ]

  unfoldable pub tick_keepalive : Bytes → WgEngine T → (WgEngine T × Bytes) × List (ℕ × SocketAddr)
  unfolding tick_sessions
  tick_keepalive out g =
      let ((sessions, out'), pkts) = tick_sessions out g.sessions in
      ((record g { sessions = sessions }, out'), pkts)
