-- ===== src/Lib.antt =====
-- cinder, a distributed in-memory cache: a model of its wire protocol, its store, log and snapshots, its cluster
-- membership and hash ring, its quorum reads, hints and anti-entropy messages, with what is proved of them.
--
-- The parts and how they interact. A node keeps its entries in shards; a write carries a version and
-- a writer, and the last writer wins wherever two entries for a key meet: in the store, in a quorum
-- read and between replicas. Nodes talk in frames. Each node holds a table of the cluster's nodes,
-- which rumors from other nodes and the results of its own probes change.
--
-- Files, and what of the repository they are about:
-- - Lww (children Packing, Order): include/cinder/common/types.hpp, the packed version word of
--   VersionedEntry and the order of stamps.
-- - Status: include/cinder/common/status.hpp, error codes and results.
-- - Wire (Laws, Cursor): include/cinder/net/byte_reader.hpp and byte_writer.hpp. Wire models a
--   reader as the bytes that are left; Wire.Cursor as the span and the offset of the class.
-- - Protocol (Opcodes, Flags, Fields, Frame, Request, Response): src/net/protocol.cpp and its
--   header. `encode` stands for encode and encodeInto, `decode` and `decode_response` for the
--   decoders.
-- - Store (Eviction with child Victims, Keys, Writes, Newest, Upkeep, ReadBack):
--   include/cinder/store/detail/eviction_store_base.hpp with the LRU policy of
--   src/store/lru_store.cpp. A shard and the counters of the store are one record; its list is
--   the std::list, and the index is the search for a key in it. Calls of the mutation sink, the
--   TTL wheel and the log are a list of events.
-- - Membership (Rumors, Convergence, Health): src/cluster/membership.cpp, and from
--   src/cluster/gossip.cpp the loop of handleMessage over its rumors (`apply_rumors`).
-- - Failure (Streaks, Spared, Runs, Silence, Targets, Escalation): src/cluster/failure_detector.cpp. The ping
--   is an output of `tick`, its answer a later call of `on_probe_result`.
-- - ReadQuorum (Reducer, Winner, Flights): include/cinder/node/read_quorum.hpp, the reducer and
--   the registry of coalesced reads; its children FanOut, Decision and Served: readAsync of
--   src/node/replication_manager.cpp over include/cinder/node/fanout.hpp.
-- - Buffer (Laws, Lists): BufferReader and BufferWriter of include/cinder/store/detail/io_utils.hpp.
-- - Clock: include/cinder/cluster/clock.hpp, times of the steady clock as times of the wall clock.
-- - Wal (Records, Writer, Replay with children Steps, Crash, Recovery, Total): src/store/wal.cpp and its header,
--   and from src/store/persistence.cpp the replay of one log and the cut of its torn tail. The store that a replay writes to is an
--   interface, the record CacheStore.
-- - Snapshot (Parses, RoundTrip, Files, Chunks): src/store/snapshot.cpp and its header. A file is its
--   bytes; the writer's file operations succeed.
-- - AntiEntropy (Digests, Sync with child RoundTrip): src/node/anti_entropy/codec.cpp; its child Diff
--   (Single, Answers, Sorted, Decision): diffRows of src/node/anti_entropy/core.cpp.
-- - Ring (Invariant, Reached, Removal, Addition, Replicas, Walk): src/hashing/consistent_hash_ring.cpp.
-- - WriteQuorum (Verdict, Targets, Decision): fanOutWrite of src/node/replication_manager.cpp in quorum
--   mode, over include/cinder/node/fanout.hpp.
-- - HintQueue (Chain, Kept, Unlink, Free, Invariant, Taken, Acquire, Link, Enqueue, Search, Fifo, Push,
--   Refine, Remove, Scan, Handles, Bounds, Runs): include/cinder/node/hint_queue.hpp. The slots are a function from indices; Fifo is the
--   specification, Chain the meaning of the links. sizeof(Hint) is a parameter.
-- - Prelude (Lists, Assoc, Tests): shared types, tests and lemmas on them.
-- - Tests: runs on small inputs.
--
-- Methods are functions from a state to a state and a result; each runs under the lock that the class
-- takes, so a run is a sequence of calls. The clock is an argument. Unsigned integers keep their
-- wrap-around at 2 ^ 64; times and time-outs are counts of ticks from the clock's zero, and stop at 0 where the
-- code's signed counts go below (Clock). What the TTL wheel fires is an argument of evictExpired. These loops run on
-- fuel. Each round of `evict_loop` takes a node off the list, so the list's length is enough, and the
-- theorems about eviction need no further fuel. Each round of `replay_from` takes at least a byte of the
-- log, so one more than the log's length is enough (Wal.Replay.Total). The loops of the
-- hint queue run on one round more than it has slots, which is enough (HintQueue.Search, Push, Scan). The
-- round robin of the failure detector is bounded by the number of peers, as in the source.
--
-- Not modelled: sockets, threads, files, timers, metrics and log lines; setNodes and the bounded load
-- of the hash ring, the hint journal, the anti-entropy sessions, their digest response and the invertible Bloom
-- lookup table, writes in the asynchronous mode, the rotation of logs and snapshots, the TTL wheel, the LFU policy, the HTTP and gRPC gateways
-- and the client. XXH3 and the order that a sort leaves equal keys in
-- are parameters, but that diffRows keeps the order of keys to send with one hash. Hash maps and sorted maps of other projects are association lists.
pub mod Prelude
pub mod Lww
pub mod Membership
pub mod Status
pub mod Wire
pub mod Protocol
pub mod Store
pub mod Failure
pub mod Ring
pub mod ReadQuorum
pub mod WriteQuorum
pub mod Buffer
pub mod Clock
pub mod Wal
pub mod AntiEntropy
pub mod HintQueue
pub mod Snapshot
pub mod Tests
