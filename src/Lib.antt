-- ===== src/Lib.antt =====
-- kvgo, a replicated key-value store: its Raft core, its durable log, its storage engine and the path
-- of a request through its server, modelled over the native natural numbers.
--
-- A client's request comes in a frame over a connection (src/transport), is decoded (src/protocol),
-- and dispatched by the server (src/server), which proposes a put to Raft under a number and waits
-- (src/pkg/wait). src/raft is the core: `Raft` (raft.go) is a state machine without I/O. The loop of
-- node.go hands it messages (`Step`) and clock ticks (`Tick`), and takes out of it what is to be
-- saved, sent and applied (`Ready`, `Advance`); src/server/raft.go does that. It keeps a log of two
-- layers (log.go over log_unstable.go and a `Storage`), the progress of its peers (tracker), counts
-- votes and acknowledgements by majority (quorum), and queues reads that wait for a round of
-- heartbeats (read_only.go). `DurableStorage` (storage.go) implements `Storage` over segments of a
-- write-ahead log (segment.go, wal.go), in the byte formats of message.go. The server applies
-- committed entries to the engine (src/engine), 256 shards with an index file and a value file each,
-- and wakes the callers that wait.
--
-- Files, and the code that each is about:
--   Common, Common/*       shared lists, maps, Boolean tests, uint64 arithmetic, and `Outcome`, the
--                          result of code that can panic
--   Pb                     src/raftpb/raft.pb.go: the messages
--   Quorum, Quorum/*       src/raft/quorum/quorum.go: VoteResult, CommittedIndex
--   Tracker, Tracker/*     src/raft/tracker/tracker.go
--   Log, Log/*             src/raft/log.go; LogUnstable is src/raft/log_unstable.go, and Interface
--                          the interface Storage of src/raft/storage.go with the laws that the log
--                          relies on; View states which entries the two layers stand for,
--                          and the other files of Log are proofs
--   ReadOnly, ReadOnly/*   src/raft/read_only.go
--   Raft                   the struct Raft of src/raft/raft.go; its methods are in Raft/Send,
--                          Become, Replicate, Handle, Campaign, Leader, Step, Clock, Output and
--                          Create, under the Go names in snake case
--   Raft/Invariant, .../*  what every method keeps, up to runs of messages and ticks
--   Raft/Voting, Committing, Following, Rejecting, Outdated, Advancing
--                          what single calls do
--   Node, Node/*           src/raft/node.go: the loop of `run`, one turn for each case of its select
--   Codec, Codec/*         src/raft/message.go
--   Frames, Frames/*       src/raft/wal.go: the bytes of one file
--   Segments, Segments/*   src/raft/segment.go: sealed files and the current one
--   Durable, Durable/*     DurableStorage of src/raft/storage.go, the part in memory
--   Disk, Disk/*           DurableStorage with its files: saving, breaking off, replaying, deleting
--   Engine                 src/engine: Index is wal.go, Shard is shard.go with `flush`, Committer the
--                          loop of group_committer.go, Rewriting is compaction.go and cleanup.go,
--                          Database is db.go; the other files of Engine are proofs
--   Transport              src/transport/frame.go; Multiplexed is multiplexed_transport.go, and the other
--                          files of Transport are proofs
--   Protocol, Protocol/*   src/protocol/message.go
--   Wait, Wait/*           src/pkg/wait
--   Server                 src/server: envelope.go, handler_kv.go, dispatcher.go, and `applyEntry` of
--                          server.go; Receiving is the loop of `handleRequest`, Host is raft.go,
--                          Storing the engine as the server's state machine
--   Examples, Examples/*   the theorems at concrete values
--
-- State is passed explicitly: a method takes a record and returns the new one, inside `Outcome`
-- where the Go code can panic. A Go error is an Option or a data type. A uint64 is a natural number;
-- where the code adds or subtracts, `add64` and `sub64` keep the wrap-around, except where the
-- comment of a definition says why a sum does not wrap. A Go map is an association list; where the
-- code ranges over one, the order of the list stands for the order of `range`. Random numbers are a
-- function of the number of draws, given with the state. A file is the list of its bytes, with the
-- position of the next read where that matters; a write can break off after any number of bytes. A
-- channel is a queue or a number; where a wait can end in several ways, the way is an argument.
--
-- Fuel is used in five loops. The number of bytes is enough for four of them: `decode_loop`,
-- `read_segment_frames` and `handle_stream` take at least four bytes in a round, and `read_index` at
-- least sixteen. `allocate_id` gets one round more than there are requests waiting, and then finds a
-- free number. Every other loop is recursion on a list.
--
-- Not modelled: the logger, locks, timers and goroutines; names of files, directories and syncs, and
-- errors of the file system other than a broken write; atomic_file.go; the transport between nodes;
-- HTTP and gRPC; options, the life of the listeners and of the data directory;
-- the commands. The hash of the engine is a parameter. Slices are values: sharing of a backing array
-- is left out.
pub mod Common
pub mod Quorum
pub mod Pb
pub mod Tracker
pub mod Log
pub mod ReadOnly
pub mod Raft
pub mod Codec
pub mod Durable
pub mod Node
pub mod Frames
pub mod Segments
pub mod Disk
pub mod Engine
pub mod Protocol
pub mod Wait
pub mod Transport
pub mod Server
pub mod Examples
