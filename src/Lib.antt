-- ===== src/Lib.antt =====
-- futureq: a queue of delayed messages with one storage engine per node, replicated by Raft.
--
-- A producer sends batches of messages. A standalone node stores them directly; in a cluster the leader
-- proposes one command for a batch, and each replica applies it to its own store. Keys order messages by
-- topic, time bucket and age. The dispatcher scans what is due of each topic that has consumers and hands
-- it to the hub, which picks the consumers. What is acknowledged or expired goes to the deleter, which
-- deletes in batches, by a command in a cluster. The metadata group replicates who leads which shard.
--
-- Bytes: slices of bytes, encoding/binary, io.ReadFull. Keys: pkg/utils/keys.go. Config:
--   internal/config/config.go. Storage: internal/storage/contract.go as a record `Db` of operations and
--   laws; Storage/Bolt: internal/storage/bbolt.go and Storage/Pebble: internal/storage/pebble.go, which
--   fill it. Repository: internal/repository/events.go, its EventBatch in a module of its own.
--   Event/Commands and Event/StateMachine: internal/raft/event/commands.go and statemachine.go, with the
--   snapshots in a module of their own.
--   Maps, Dispatcher/Hub, Deleter, Expiry, Dispatch and Janitor: internal/dispatcher. Metadata:
--   pkg/raft/metadata/commands.go, statemachine.go and service.go. Handlers: internal/api/grpc/handlers/
--   producer.go, consumer.go and cluster.go. App: internal/app/app.go; App/Joining and App/Wiring:
--   cmd/futureq/start.go and leave.go. Tests: concrete values.
--
-- A value and an error are a `Result`, of which a panic is a third case; a method that changes state is
-- a function of the state (`M`). An int64 is its bit pattern below 2 ^ 64. Each method is one step where
-- a lock makes it one; `Deleter.flush`, which releases its lock, is also given as two steps, between which
-- keys are marked in the loop of `Run`. Go maps are association lists, whose order stands for any order
-- of iteration.
--
-- Fuel: `scan` of either engine needs more than the store has entries, the loop of
-- `recover_from_snapshot` more than the snapshot has; the theorems about them say that this is enough. The
-- loop of `waitForCatchUp` takes the number of ticks before the wait ends. The other loops take the list
-- of what happens until they end.
--
-- Not modelled: the engines themselves, protobuf, xxhash and Dragonboat, which are parameters; metrics
-- and logs, which have no logic; the construction of the components at the start of the program, and the
-- gRPC server, which only call libraries; the files and most of the environment of the configuration,
-- which viper reads.
pub mod Prelude
pub mod Bytes
pub mod Keys
pub mod Config
pub mod Storage
pub mod Repository
pub mod Event
pub mod Maps
pub mod Dispatcher
pub mod Metadata
pub mod Handlers
pub mod App
mod Tests
