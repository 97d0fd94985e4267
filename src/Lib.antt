-- ===== src/Lib.antt =====
-- Craftec: a content-addressed peer-to-peer store, the parts that carry its own logic.
--
-- The program is a workspace of crates. Data is split and coded by crates/craftec-rlnc, tagged by
-- crates/craftec-crypto, framed and time-stamped by crates/craftec-types, spread to the members that
-- crates/craftec-net knows, and watched over by crates/craftec-health. Each node keeps its objects in
-- the store of crates/craftec-obj, on which crates/craftec-vfs lays the pages of a database, and runs
-- programs from it with the scheduler of crates/craftec-com.
--
-- Prelude: what the modules share. Tests has the Boolean tests and case splits; Lists, Digits, Xor,
-- BitOr, BitAnd
-- and Bytes are lists and words over the native numbers; Assoc and Multimap are the keyed maps.
-- Rlnc/Gf256: crates/craftec-rlnc/src/gf256.rs. The tables are built as the source builds them. A
-- byte is a number below 256.
-- Rlnc/Decoder: decoder.rs and error.rs. `add_piece` and `decode` pass the decoder on and return a result.
-- Valid has the invariant, Reduce and Insert are about `add_piece`, BackSubstitution and Recovers about
-- `decode`.
-- Rlnc/Encoder and Rlnc/Recoder: encoder.rs and recoder.rs. The random generator is a parameter, from
-- the index of a draw to its two rolls, and so are BLAKE3 as a hash and as an extendable stream.
-- Rlnc/Redundancy: the count of pieces in encoder.rs, with its floating point operations rounded as the
-- hardware rounds them. Rounding is about one operation, Bounds about the count.
-- Rlnc/Engine: engine.rs. Feeds and Decodes are about decoding, Derived about the pieces that recoding makes of
-- others, RoundTrip about an engine that encodes and another that decodes.
-- Crypto/HomMac: crates/craftec-crypto/src/hommac.rs, and `verify_mac` of piece.rs.
-- Types/Piece, Types/Hlc, Types/Message, Types/Wire: crates/craftec-types/src. The clock's shared word is a
-- number; each successful compare-and-swap is one step, with the wall clock that was read as an
-- argument. postcard is the parameters `serialize` and `deserialize`, and where it matters that it
-- reads back what it wrote, this is a hypothesis.
-- Net/Swim: crates/craftec-net/src/swim.rs. The membership table is an association list, whose order is
-- the iteration order of the map; channels are lists of what was sent; the instant that is read
-- is an argument. Marks, Handle, Tick and Gossip are about the transitions, the messages and the tick.
-- Net/Swim/Probe is the probe with its waits: what it does from one await to the next, with the acks that were
-- sent to it. Stands is about one probe, Detects about the ticks after it; Tick/Target is about
-- whom a tick probes.
-- Net/Dht: crates/craftec-net/src/dht.rs.
-- Net/Pool: crates/craftec-net/src/pool.rs, with connections as numbers.
-- Net/Pending: crates/craftec-net/src/pending.rs. Delivery is about who gets a piece.
-- Health/Tracker: crates/craftec-health/src/tracker.rs. Views is about the holders.
-- Health/Scanner: crates/craftec-health/src/scanner.rs. The size of a batch, a float product, is
-- the parameter `percent_of`.
-- Coverage is about consecutive scans, Fresh about content that was just encoded.
-- Health/Coordinator and Health/Repair: crates/craftec-health/src/coordinator.rs, repair.rs and
-- error.rs, with the recoder, the object
-- store and the tracker. `Parts` has what is third-party. Agreement is about the election, Counts,
-- Loads and Sends about reading and
-- choosing, Executes about a whole repair.
-- Com/Scheduler: crates/craftec-com/src/scheduler.rs and error.rs. A spawned task is an entry of a list, and
-- `finish` and `wake` are what it does from one await to the next. A step is one of these or a
-- whole call, but a
-- launch may come any time after the check of its start. An abort takes effect at the next await of
-- the task: if
-- its agent is running, the task first does what follows on the agent's end. Valid has the invariant, Steps is
-- about all of them, Turn and Loop about one task left to itself, Start about starting.
-- Obj/Store: crates/craftec-obj/src/store.rs, cache.rs, bloom.rs and error.rs, on an abstract file system whose
-- answers are arguments. Contents sees the store as a map; Interface is what its users rely
-- on, and Implements that the store provides it. The crates `lru` and `bloomfilter` are parameters, with
-- what their documentation promises as laws (Prelude/Lru, `IsBloom`).
-- Vfs/PageIndex, Vfs/PageCache, Vfs/CidVfs: crates/craftec-vfs/src, over the interface of the
-- object store. Pages and
-- Puts are about the dirty pages, Coherent has the invariant, and Reads, Writes and Commits are
-- about the calls, Keeps and Snapshots about what is called after a snapshot. That two byte
-- strings in use do not have the same hash is a hypothesis on the strings that satisfy `Seen`.
-- Sql/Commit, Sql/Database, Sql/RpcWrite: crates/craftec-sql/src, over the virtual file system.
-- libsql with its file is
-- the parameter `Libsql`. Sync and Execute are about a statement's pages, Payload and Accepts about
-- signed writes,
-- whose signature is checked by Types/Identity over the parameters `parse_key` and `check`.
-- Prelude/Sort, Prelude/Result and Prelude/OneSlot: sorting by key, Rust's result type, and a cache
-- for examples.
-- Com/Tests, Sql/Tests, Obj/Tests and Vfs/Tests with Obj/Toys: concrete runs.
-- Rlnc/Tests, Rlnc/Engine/Tests, Types/Tests, Net/Tests and Health/Tests: concrete runs.
--
-- Bounds and fuel: the bit loops of the field run 8 rounds, which is the width of a byte; the loop over
-- the chunks of a tag has the number of bytes as fuel, and each round takes at least one; the
-- logarithm of the gossip count has 64 rounds, the width of `usize`. Counters wrap at their width
-- where the code uses wrapping atomics. The clock's theorems name the room that a 48-bit wall
-- clock must have left. The scale of a float is searched for in 128 rounds, and the values here
-- need at most 82. The chunks of a file have its length as fuel, as each takes at least one byte.
--
-- Not modelled: calls of the scheduler that overlap, other than the check and the launch of a start, input
-- and output (the QUIC endpoint, files, the command line), tokio tasks and their
-- waits for permits and locks, the loops that run until a shutdown, the WASM runtime and its host
-- functions, the set-up of
-- libsql, its queries and schema.
pub mod Prelude
pub mod Rlnc
pub mod Types
pub mod Crypto
pub mod Net
pub mod Health
pub mod Com
pub mod Obj
pub mod Vfs
pub mod Sql
