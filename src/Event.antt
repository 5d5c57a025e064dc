-- ===== src/Event.antt =====
-- internal/raft/event: the replicated log's commands and the state machine that applies them.
pub mod Commands
pub mod StateMachine
