-- ===== src/Metadata.antt =====
-- pkg/raft/metadata: the cluster topology, replicated through a Raft group of its own.
pub mod IdMap
pub mod Commands
pub mod StateMachine
pub mod Service
