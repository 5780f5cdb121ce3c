-- ===== src/Lib.antt =====
-- molia is a peer-to-peer key-value network: a Kademlia table of peers, signed records, and shards that
-- share nothing, each with a socket, a routing table, a record store, a peer store with a write-ahead
-- log, lookups and timers. A node (src/node.rs) sends the operations of a client to the shard that owns
-- the key; a shard (src/shard.rs) answers packets and drives its lookups; the other files are the parts
-- that a shard is made of. This library models those parts as functions on explicit state and proves
-- what each one promises.
--
-- The files, and what they model:
-- Prelude: shared names and lemmas. Tests has Boolean tests and equality as an instance, Lists lists with
-- native lengths, Words bytes and words, Bits binary operators, Maps hash maps as association lists with
-- one entry per key, Sort the stable sort.
-- Types: src/types.rs, identifiers, XOR distance, bucket_index, shard_id, contacts. Below it Distance,
-- Bucket, Shards and Contacts.
-- Codec: src/codec.rs, Header, MessageType, Qos, encode_message and decode_body. Below it Headers and
-- Messages. The encoding of a protobuf body is a parameter.
-- Wg: src/wg.rs, datagram headers, wrap_rpc and unwrap_rpc, receiver indices, demux_shard. Below it
-- Framing, Demux and Engine: WgEngine, its sessions, decapsulate, encapsulate and tick_keepalive, over
-- tunnels that are a parameter (boringtun's Tunn).
-- Routing: src/routing.rs, RoutingTable and its operations. Below it Buckets (what a well-formed table
-- is), Insert, Evict, Failures and Closest.
-- Crypto: src/crypto.rs, what is hashed and signed, proof of work, the 64 bytes of an identity. Below it
-- Signed and Work. BLAKE3 and Ed25519 are parameters.
-- Wal: the frames of the log, write_frame and replay of src/peerstore.rs and replay_wal of src/store.rs.
-- Below it Recovery and Fuel. The checksum is a parameter.
-- Peerstore: src/peerstore.rs, the peers and their files. Below it Reopening.
-- Store: src/store.rs, records, cache and providers. Below it Admission, Expiry and Providers.
-- Pool: src/pool.rs, the buffers and the arena. Below it Arena.
-- Lookup: src/lookup.rs, the iterative lookup. Below it Batches and Progress.
-- Nat: src/nat.rs and src/relay.rs, addresses, relay budget and choice of a relay. Below it Budget.
-- Timers: src/event_loop.rs, the timing wheel. Below it Due.
-- Erasure: src/erasure.rs, the shards of a large value. Below it Recovery. The code is a parameter.
-- Metrics: src/metrics.rs, the counters and their sum. Below it Totals.
-- Sybil: src/sybil.rs, token buckets, scores, admission tokens and proof of work; floating point is a
-- parameter. Below it Admission.
-- Shard: src/shard.rs: correlation numbers and contacts from the wire. Below it Correlation, and the loop:
-- Shard.Proto: the message bodies of proto/molia.proto with a codec for each as a parameter, and
-- peers_to_proto; below it Contacts. Shard.Context: ShardCtx, whose sending half is Net, and the functions
-- that send (send_app, send_plain, send_relay_frame, ping, reply_peers, send_error).
-- Shard.Lookups: start_lookup, dispatch_lookup_batch, sweep_lookups, complete_closer; below it Sweeping and
-- Liveness. Shard.Holes: start_punch, on_punch, on_punch_timer; below it Rounds and Timer.
-- Shard.Introductions: on_ping, on_pong, note_peer_keys, learn_addr. Shard.Queries: on_find_node,
-- on_find_value and their answers; below it Answers. Shard.Handlers: on_store, on_announce, on_relay and
-- handle_app; below it Nesting and Storing. Shard.Commands: handle_cmd and the calls it makes.
-- Shard.Events: handle_datagram, drain_wg_session, flush_pending_wg, on_timer and run_shard.
-- Shard.Safety: the invariants of a shard, in modules named for the steps that keep them (Stores, Searches,
-- Dispatch, Sweeps, Contacts, Punches, Messages, Frames, Orders, Steps), and of its runs (Runs).
-- Node: src/node.rs, what a client makes of a reply. Below it Mutable.
-- Tests: concrete data, and each result run on it.
--
-- Conventions: an array or a vector is the list of its elements, a byte a number below 256 where a
-- hypothesis says so, a hash map an association list that is walked in its own order. A clock is an
-- argument: one event of a shard has one time. A channel is a number, and a reply is an entry of the list
-- of replies; a datagram sent is an entry of the list of those sent. Which event comes next (a datagram, a
-- command or a timer) is not decided by the model: a run is any list of events. Subtraction stops at 0, as
-- saturating_sub does; where the source wraps, the model takes the remainder. The relay budget adds and
-- multiplies unchecked 64-bit numbers, which wrap in a release build and stop a debug build: the model wraps,
-- and its record has one field more than the source, which tells that a sum or a product did not fit. Three loops run on fuel: that
-- of the replay, whose fuel is the length of the file, since every frame takes at least nine bytes; the
-- nesting of relay frames in handle_app, whose fuel is the length of the message and one more, since a
-- frame is longer than what it holds; and drain_wg_session, whose fuel is an argument, since it ends when
-- the tunnel runs dry, which is third-party behaviour. Third-party code is a record of functions with its
-- documented behaviour as hypotheses.
--
-- Not modelled: sockets, threads and the poller, the client's side of the channels, the WebRTC bridge, the
-- JSON identity file and the command line.
pub mod Prelude
pub mod Types
pub mod Codec
pub mod Wg
pub mod Routing
pub mod Crypto
pub mod Wal
pub mod Store
pub mod Sybil
pub mod Pool
pub mod Nat
pub mod Timers
pub mod Peerstore
pub mod Erasure
pub mod Metrics
pub mod Shard
pub mod Node
pub mod Tests
pub mod Lookup
