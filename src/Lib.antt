-- ===== src/Lib.antt =====
-- Kine over the DDS database: the etcd server for Kubernetes, its log of changes, and the dialect
-- that keeps the log in a table behind gRPC.
--
-- The parts, from the client down, with the files that model them:
--   Etcd            the messages of the etcd protocol, as far as the server reads and writes them
--   Server          kine/pkg/server. Types: the interfaces Backend, Dialect and Transaction as records
--                   of operations. Classify: isCreate, isUpdate, isDelete, isCompact. Limited: the
--                   transactions of LimitedServer. Range: its get and list. Convert: toKVs, toEvents.
--                   Bridge: KVServerBridge. Watch: the watcher of one client.
--   LogStructured   kine/pkg/logstructured/logstructured.go: Backend over an interface Log. Contract
--                   is what the log promises; Watch is the method Watch over the lists of its channel;
--                   Leases: ttlEvents and what ttl does with each of its events.
--   SqlLog          kine/pkg/logstructured/sqllog/sql.go: Log over a Dialect. Rows: RowsToEventsDds.
--                   Poll: the loop that feeds the watches. Watching: Watch and startWatch.
--                   Compaction: compactStart, compactor, compact.
--   Generic         kine/pkg/drivers/generic/generic.go: Dialect over the database; Client is the gRPC
--                   calls of kine/pkg/drivers/generic/tx.go, with the database as a parameter.
--                   Opening: openAndTest, Open and execute over database/sql. Storing: the log over
--                   the database.
--   Broadcaster     kine/pkg/broadcaster/broadcaster.go: one input to many subscribers.
--   Client          kine/pkg/client/client.go: the wrapper of the etcd client, which is a parameter.
--   Nats            kine/pkg/drivers/nats: the other backend, over a bucket of NATS. Codec: the keys of
--                   kv/etcd_encoder.go. Bucket: kv/kv.go, with the contract of a bucket in its
--                   Contract. Driver: reads and writes of nats.go; Listing: its List and Count;
--                   Watching: listAfter and Watch; Locks: lockFolder; Connection: parseConnection.
--   Endpoint        kine/pkg/endpoint/endpoint.go: the schemes of the endpoints.
--   Prelude         lists, int64 and byte strings, and the calls of a Go function over a state.
--   Tests           concrete inputs.
--
-- A Go function is a function from its arguments and a state to an outcome: its results and the new
-- state, or a panic. The state is abstract wherever the code reaches a database: other clients write to
-- it between two calls, and the records of operations may change it as they like. An error is an
-- ordinary result. An int64 is an integer that wraps around at 64 bits where the code adds or subtracts.
-- A string is the list of its bytes.
--
-- Fuel: LogStructured.List calls itself, which the model bounds by a number. The loop of the compactor
-- over its batches is bounded by a number, of which one more than the number of batches is enough.
-- The reading of the old leases takes as much fuel as there are pages that are not empty.
-- The poll loop is run over a sequence of wakes, each with the clock at it, without a bound.
--
-- The contract of the log (LogStructured/Contract) is that of a log to which nobody else writes during
-- a call of the backend: its state is seen as a revision and the newest event of each key. A listing
-- of one key shows that event or, without deletions, that event or nothing, and an append is done
-- whole, is lost though it is answered as done, or fails. Generic/Storing has the laws of the database
-- that the log of the program needs for this contract. They are as weak as they are because of
-- DdsDatabase/src/Database.cpp, which shows some deletions in a listing without deletions, answers a
-- failed write as a done one, and takes a key with a percent sign for a pattern. They suppose that
-- queries are answered and that a request with an error changed nothing. A database in memory, over
-- which the log and the backend run in the tests, keeps them.
--
-- The contract of a bucket (Nats/Bucket/Contract) is that of a bucket to which nobody else writes
-- during a call of the driver: a read of a key shows its newest value, and a write is done whole under
-- a larger sequence number or fails. The driver also relies on the round trip of its JSON, and on a
-- clock and mutexes that return. A bucket in memory with toy codecs keeps all this (Tests). The locks
-- of the folders are modelled twice: as two calls around a write, and as steps of goroutines.
--
-- Not modelled: the gRPC transport and its contexts, logging and metrics, time limits, the timers of
-- the leases of the log, the set-up of the servers, the other SQL drivers, the start of an embedded
-- NATS server, the generated messages, and the database itself, which is C++.
pub mod Prelude
pub mod Etcd
pub mod Server
pub mod LogStructured
pub mod SqlLog
pub mod Generic
pub mod Broadcaster
pub mod Endpoint
pub mod Client
pub mod Nats
pub mod Tests
