-- ===== src/Tests/Shards.antt =====
-- A shard with a tunnel that passes packets through, and codecs of which two decode anything.
use molia.Prelude.{
  All-replicate, ℕ, ◌+◌, ◌-◌, ◌<◌, ◌≡◌, ◌⊎◌, refl, true, false, none, some, List, [], ◌∷◌, ◌++◌,
  length, take, replicate, list_beq, any, bytes_eq, nat_eq, arith,
}
use molia.Prelude.Maps
use molia.Codec.{decode_body, control, store_req, Body, request, is_probe, find_value_req, hints}
use molia.Store.{Store, StoredRecord, to_proto, store_record, queue_record, get, expired}
use molia.Store as Shelf
use molia.Peerstore.{memory}
use molia.Lookup.{Lookup, find_node, no_privacy}
use molia.Lookup
use molia.Sybil.{allow_pre_handshake, Floats, Sybil, check_token, mint_token}
use molia.Sybil
use molia.Sybil.Admission.{check_token-mint_token}
use molia.Wg.Engine.{Tunnel, write_to_tunnel, write_to_network, done}
use molia.Timers.{lookup_tick, peerstore_flush}
use molia.Shard.{peers_from_proto}
use molia.Shard.Holes.{on_punch_timer}
use molia.Shard.Holes.Rounds.{advanced}
use molia.Shard.Holes.Timer.{IsOutcome, on_punch_timer_lem}
use molia.Shard.{PunchAttempt}
use molia.Shard.Proto.Contacts.{IsSendable, peers_from_proto-peers_to_proto}
use molia.Shard.Proto.{
  StoreReq, parse_multiaddr, peers_to_proto, Protocol, RelayBody, record_bytes, store_ok_code,
  store_invalid_code,
}
use molia.Shard.Context.{Moment, Env, ShardCtx, PendingLookup}
use molia.Shard.Lookups.{sweep_lookups}
use molia.Shard.Lookups.Liveness.{replied, sweep_lookups_lem}
use molia.Shard.Handlers.{handle_nested, handle_app, store_request, on_store}
use molia.Shard.Handlers.Nesting.{handle_app_total}
use molia.Shard.Handlers.Storing.{IsStored, store_request_lem, on_store_lem}
use molia.Shard.Queries.{value_result}
use molia.Shard.Queries.Answers.{value_result_lem}
use molia.Shard.Commands.{put, bootstrap}
use molia.Shard.Events.{Event, received, commanded, due, run_shard, start}
use molia.Shard.Safety.{IsGenuine, IsShard}
use molia.Shard.Safety.Runs.{run-IsShard}
use molia.Tests.{id_of, localhost, contact, toy}
use molia.Tests.Logs.{text, parse-print}
use molia.Shard.Lookups.Sweeping.{none-some}
use molia.Tests.Records.{note, note-authentic}

abbrev floats : Floats ℕ
floats = record {
  literal = λ a b. a;
  seconds = λ ms. ms;
  add = λ a b. a + b;
  sub = λ a b. a - b;
  mul = λ a b. a;
  min_of = λ a b. a;
  at_least = λ a b. true;
  above = λ a b. false;
}

-- The state of a tunnel is the number of packets that it sent.
abbrev tunnel : Tunnel ℕ
tunnel = record {
  new_tunn = λ secret key interval index. 0;
  decapsulate_tunn = λ ip pkt n. (n, write_to_tunnel pkt);
  encapsulate_tunn = λ pkt n. (n + 1, write_to_network pkt);
  update_timers = λ n. (n, done);
}

abbrev silent : {B : Type 0} → Body B
silent = record { encoded = λ b. []; decoded = λ raw. none }

-- A frame whose payload is all of it.
abbrev frames : Body RelayBody
frames = record {
  encoded = λ f. f.payload;
  decoded = λ raw. some (record { dest_id = id_of 0; from_id = id_of 1; payload = raw });
}

abbrev protocol : Protocol
protocol = record {
  ping_body = silent;
  pong_body = silent;
  negotiate_resp_body = silent;
  find_node_req_body = silent;
  find_node_resp_body = silent;
  find_value_req_body = silent;
  find_value_resp_body = silent;
  store_req_body = silent;
  store_resp_body = silent;
  announce_req_body = silent;
  announce_resp_body = silent;
  punch_body = silent;
  relay_body = frames;
  error_body = silent;
  record_body = record { encoded = λ r. r.value; decoded = λ raw. some (to_proto note) };
}

abbrev node : Env ℕ ℕ
node = record {
  crypto = toy;
  text = record { print = λ a. a.port ∷ []; parse = λ t. none };
  crc = λ b. length b;
  tunnel = tunnel;
  floats = floats;
  protocol = protocol;
  erasure = record { encode = λ shards. none; reconstruct = λ shards. none };
  print_number = λ n. n ∷ [];
  accepts = λ dest pkt. true;
  local = localhost 1;
  plain = true;
  query_blind = false;
  wg_public = id_of 2;
  verifying_key = id_of 3;
  binding_signature = [];
}

abbrev at : ℕ → Moment
at n = record { now = n; unix_ms = 120000 + n }

empty-IsGenuine : IsGenuine toy Shelf.new
unfolding Shelf.new
empty-IsGenuine = record {
  stored = record { genuine = tt; cached = tt; one_record = tt; one_cached = tt };
  cached = tt;
}

abbrev events : List (Moment × Event)
events =
    (at 10, commanded (bootstrap (localhost 7 ∷ [])))
    ∷ (at 20, received (localhost 7) (replicate 40 1))
    ∷ (at 30, commanded (put (5 ∷ []) 60 1))
    ∷ (at 50, due lookup_tick)
    ∷ (at 100, due peerstore_flush)
    ∷ []

run-IsShard_example : IsShard toy (
    run_shard node 4 0
      (id_of 4)
      0
      true
      Shelf.new
      memory
      (record { snapshot = []; log = [] })
      events)
run-IsShard_example =
    (run-IsShard node 0 (id_of 4) 0 true Shelf.new memory (record { snapshot = []; log = [] }) 4
      events empty-IsGenuine).1

abbrev begun : ShardCtx ℕ ℕ
begun = start node 0 (id_of 4) 0 true Shelf.new memory (record { snapshot = []; log = [] })

abbrev overdue : PendingLookup
overdue = record {
  lookup = Lookup.new 0 find_node (id_of 0) (contact 1 ∷ []) no_privacy;
  reply = some 8;
}

abbrev searching : ShardCtx ℕ ℕ
searching = record begun { lookups = (1, overdue) ∷ [] }

sweep_lookups_lem_example :
    (Maps.lookup 1 (sweep_lookups node (at 90000) searching).lookups ≡ none)
    × (replied 8 (sweep_lookups node (at 90000) searching) ≡ true)
unfolding Lookup.new Maps.lookup
sweep_lookups_lem_example =
    (sweep_lookups_lem node (at 90000) searching 1).1 overdue 8 refl refl (omega arith)

handle_app_total_example :
    handle_nested node 90 (at 10) (localhost 7) (replicate 40 1) true begun
    ≡ handle_app node (at 10) (localhost 7) (replicate 40 1) true begun
handle_app_total_example =
    handle_app_total node 90 (at 10) (localhost 7) (replicate 40 1) true begun
      (λ b x read. ground (arith, read)) (omega arith)

store_request_lem_example :
    (((store_request node (at 10) false (5 ∷ []) begun).1.0 ≡ store_ok_code)
      × IsStored node
          (at 10)
          false
          (5 ∷ [])
          begun.store
          (store_request node (at 10) false (5 ∷ []) begun).0.store
      × (length (store_request node (at 10) false (5 ∷ []) begun).1.1 ≡ 0))
    ⊎ (((store_request node (at 10) false (5 ∷ []) begun).1.0 ≡ store_invalid_code)
        × ((store_request node (at 10) false (5 ∷ []) begun).0.store ≡ begun.store)
        × (0 < length (store_request node (at 10) false (5 ∷ []) begun).1.1))
store_request_lem_example = store_request_lem node (at 10) false (5 ∷ []) begun

on_store_lem_example :
    ((on_store node (at 10) (localhost 7) (request store_req control 3) (1 ∷ []) begun).store
      ≡ begun.store)
    ⊎ ((req : StoreReq) × (decode_body node.protocol.store_req_body (1 ∷ []) ≡ some req)
        × ((allow_pre_handshake node.floats 10 (localhost 7) begun.sybil).1 ≡ true)
        × IsStored node
            (at 10)
            (is_probe (request store_req control 3))
            req.rec
            begun.store
            (on_store node
              (at 10)
              (localhost 7)
              (request store_req control 3)
              (1 ∷ [])
              begun).store)
on_store_lem_example =
    on_store_lem node (at 10) (localhost 7) (request store_req control 3) (1 ∷ []) begun

abbrev holding : ShardCtx ℕ ℕ
holding = record begun { store = store_record note Shelf.new }

holding-IsGenuine : IsGenuine toy holding.store
unfolding Shelf.new store_record queue_record Maps.insert any
holding-IsGenuine = record {
  stored = record {
    genuine = ((refl, note-authentic), tt);
    cached = tt;
    one_record = (refl, tt);
    one_cached = tt;
  };
  cached = tt;
}

value_result_lem_example :
    value_result node (at 10) (request find_value_req hints 3) note.key 20 holding
    ≡ some (record_bytes (5 ∷ []))
unfolding get store_record queue_record Shelf.new expired Maps.lookup Maps.insert list_beq is_probe
    request to_proto
value_result_lem_example =
    (value_result_lem node (at 10) (request find_value_req hints 3) note.key 20 holding
        holding-IsGenuine).1
      note refl refl

abbrev scored : Sybil ℕ
scored = Sybil.new floats toy

check_token-mint_token_example :
    check_token floats 9000
      (id_of 5)
      (take 8 (mint_token floats (λ k msg. replicate 8 7) 4000 0 (id_of 5) scored).1 ++ 1 ∷ [])
      (mint_token floats (λ k msg. replicate 8 7) 4000 0 (id_of 5) scored).0
    ≡ true
check_token-mint_token_example =
    (check_token-mint_token floats (λ k msg. replicate 8 7) 4000 0 9000 (id_of 5) scored
        (λ k msg. (omega arith, All-replicate (λ b. b < 256) 8 7 (omega arith)))).0
      (omega arith) (1 ∷ [])

abbrev waited : PunchAttempt
waited = record {
  peer = id_of 1;
  candidates = localhost 4001 ∷ [];
  rendezvous = localhost 7;
  bursts_done = 2;
  next_burst = 250;
  relay_at = 750;
  replied = false;
}

abbrev waiting : ShardCtx ℕ ℕ
waiting = record begun { punches = (id_of 1, waited) ∷ [] }

on_punch_timer_lem_example :
    IsOutcome node
      (at 900)
      (id_of 1)
      (advanced 900 waited)
      waiting
      (on_punch_timer node (at 900) waiting)
unfolding any
on_punch_timer_lem_example =
    (on_punch_timer_lem node (at 900) waiting (id_of 1) (refl, tt)).0 waited
      (unfold Maps.lookup in unfold list_beq in refl)

peers_from_proto-peers_to_proto_example :
    peers_from_proto (parse_multiaddr text) (peers_to_proto text (contact 1 ∷ contact 2 ∷ []))
    ≡ contact 1 ∷ contact 2 ∷ []
unfolding any
peers_from_proto-peers_to_proto_example =
    peers_from_proto-peers_to_proto text parse-print (contact 1 ∷ contact 2 ∷ [])
      (contact-IsSendable 1, (contact-IsSendable 2, tt))
  where
    contact-IsSendable : (n : ℕ) → IsSendable (contact n)
    contact-IsSendable n = record {
      received = record {
        sized = refl;
        contact = record { bounded = omega arith; distinct = (refl, tt) };
      };
      reachable = omega arith;
      keyed = λ x absent. absurd (none-some none x refl absent);
    }
