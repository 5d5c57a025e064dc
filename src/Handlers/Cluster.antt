-- ===== src/Handlers/Cluster.antt =====
-- internal/api/grpc/handlers/cluster.go: what the cluster looks like, and how its nodes join and leave.
-- The event shard is an argument, logs are left out. An error of gRPC is the error of the method, what
-- Dragonboat refuses is a response.
pub mod Host
pub mod Info
pub mod Members
pub mod Joining
pub mod CatchUp
use futureq_v.Prelude.{
  ℕ, zero, suc, Bool, true, false, List, [], ◌∷◌, Option, none, some, ◌==◌, if◌then◌else◌,
}
use futureq_v.Prelude.Result.{
  Result, ok, err, panic, Error, single_mode_node, no_topology, not_raft_mode, catch_up_timeout,
}
use futureq_v.Prelude.Method.{M, continue}
use futureq_v.Bytes.{Bytes}
use futureq_v.Metadata.IdMap.{IdMap, lookup_id}
use futureq_v.Metadata.Commands.{ShardTopology, metadata_shard_id}
use Host.{NodeHost}

-- ── cluster info ──

-- pb.NodeInfo
pub record NodeInfo : Type 0 where
  pub node_id : ℕ
  pub address : Bytes
  pub is_leader : Bool
  pub is_alive : Bool

-- pb.ClusterInfoResponse
pub record ClusterInfo : Type 0 where
  pub leader_node_id : ℕ
  pub leader_address : Bytes
  pub nodes : List NodeInfo

-- What a map holds under a key, and "" if it holds nothing.
abbrev pub addr_of : Option Bytes → Bytes
addr_of none = []
addr_of (some a) = a

abbrev if_empty : Bytes → Bytes → Bytes
if_empty [] fallback = fallback
if_empty (b ∷ bs) fallback = b ∷ bs

unfoldable pub node_info : ShardTopology → ℕ → NodeInfo
node_info topo id = record {
  node_id = id;
  address = if_empty (addr_of (lookup_id id topo.grpc_addrs)) (addr_of (lookup_id id topo.nodes));
  is_leader = id == topo.leader_id;
  is_alive = true;
}

unfoldable pub node_infos : ShardTopology → IdMap Bytes → List NodeInfo
node_infos topo [] = []
node_infos topo ((id, _) ∷ rest) = node_info topo id ∷ node_infos topo rest

abbrev info_of : Option ShardTopology → Result ClusterInfo
info_of none = err no_topology
info_of (some topo) = ok (record {
  leader_node_id = topo.leader_id;
  leader_address = topo.leader_addr;
  nodes = node_infos topo topo.nodes;
})

-- `get_shard_topology` is there where the node host and the metadata state machine are.
unfoldable pub get_cluster_info : Option (ℕ → Option ShardTopology) → ℕ → Result ClusterInfo
get_cluster_info none shard = err single_mode_node
get_cluster_info (some get_shard_topology) shard = info_of (get_shard_topology shard)

-- ── membership ──

pub data ErrorMessage : Type 0 where
  no_message : ErrorMessage
  of_error did_not_catch_up : Error → ErrorMessage

-- pb.JoinResponse, LeaveResponse, JoinMetadataResponse and LeaveMetadataResponse
pub record Response : Type 0 where
  pub success : Bool
  pub error_message : ErrorMessage

abbrev pub accepted : Response
accepted = record { success = true; error_message = no_message }

abbrev pub rejected : ErrorMessage → Response
rejected e = record { success = false; error_message = e }

-- pb.JoinRequest; pb.LeaveRequest has only the id.
pub record JoinRequest : Type 0 where
  pub node_id : ℕ
  pub raft_address : Bytes

-- A request, and how the handler reports its error.
abbrev pub Step : Type 0 → Type 0
Step S = (Error → ErrorMessage) × M S (Unit {0})

-- `if err := step(); err != nil { return a response with the error }`
abbrev pub or_reject :
    {S : Type 0}
    → (Error → ErrorMessage)
    → S × Result (Unit {0})
    → M S Response
    → S × Result Response
or_reject message (s, ok u) rest = rest s
or_reject message (s, err e) rest = (s, ok (rejected (message e)))
or_reject message (s, panic) rest = (s, panic)

-- The steps of a handler, in order, up to the first error.
unfoldable pub run_steps : {S : Type 0} → List (Step S) → M S Response
run_steps [] s = (s, ok accepted)
run_steps ((message, step) ∷ steps) s = or_reject message (step s) (run_steps steps)

-- How the wait for a node ends if the node does not appear: the timer, or the caller's context.
pub data Ending : Type 0 where
  deadline : Ending
  ctx_done : Error → Ending

-- What `select` delivers to the loop: so many ticks, and then the ending.
pub record Wait : Type 0 where
  pub ticks : ℕ
  pub ending : Ending

abbrev ending_error : Ending → Error
ending_error deadline = catch_up_timeout
ending_error (ctx_done e) = e

abbrev found : {S : Type 0} → Option Bytes → S → (S → S × Result (Unit {0})) → S × Result (Unit {0})
found (some a) s again = (s, ok tt)
found none s again = again s

-- One tick: the answer to the query, and the next turn of the loop.
abbrev after_query :
    {S : Type 0}
    → ℕ
    → S × Result (ℕ → Option Bytes)
    → (S → S × Result (Unit {0}))
    → S × Result (Unit {0})
after_query node (s, ok m) again = found (m node) s again
after_query node (s, err e) again = again s
after_query node (s, panic) again = (s, panic)

module _ {S : Type 0} (host : NodeHost S) where
  poll : ℕ → Ending → (shard node : ℕ) → M S (Unit {0})
  poll zero ending shard node s = (s, err (ending_error ending))
  poll (suc n) ending shard node s =
      after_query node (host.get_non_votings shard s) (λ s'. poll n ending shard node s')

  unfoldable pub wait_for_catch_up : Wait → (shard node : ℕ) → M S (Unit {0})
  unfolding poll
  wait_for_catch_up w shard node = poll w.ticks w.ending shard node

  abbrev pub join_steps : (event_shard : ℕ) (w1 w2 : Wait) → JoinRequest → List (Step S)
  join_steps event_shard w1 w2 req =
      (of_error, host.add_non_voting metadata_shard_id req.node_id req.raft_address)
      ∷ (of_error, host.add_non_voting event_shard req.node_id req.raft_address)
      ∷ (did_not_catch_up, wait_for_catch_up w1 event_shard req.node_id)
      ∷ (did_not_catch_up, wait_for_catch_up w2 metadata_shard_id req.node_id)
      ∷ (of_error, host.add_replica metadata_shard_id req.node_id req.raft_address)
      ∷ (of_error, host.add_replica event_shard req.node_id req.raft_address)
      ∷ []

  abbrev pub leave_steps : (event_shard node : ℕ) → List (Step S)
  leave_steps event_shard node =
      (of_error, host.delete_replica event_shard node)
      ∷ (of_error, host.delete_replica metadata_shard_id node)
      ∷ []

-- The handlers check first that there is a node host.
abbrev with_host : {S : Type 0} → Option (NodeHost S) → (NodeHost S → List (Step S)) → M S Response
with_host none steps s = (s, err not_raft_mode)
with_host (some host) steps s = run_steps (steps host) s

module _ {S : Type 0} (node_host : Option (NodeHost S)) where
  unfoldable pub join_cluster : (event_shard : ℕ) (w1 w2 : Wait) → JoinRequest → M S Response
  unfolding run_steps
  join_cluster event_shard w1 w2 req =
      with_host node_host λ host. join_steps host event_shard w1 w2 req

  unfoldable pub leave_cluster : (event_shard node : ℕ) → M S Response
  unfolding run_steps
  leave_cluster event_shard node = with_host node_host λ host. leave_steps host event_shard node

  unfoldable pub join_metadata : JoinRequest → M S Response
  unfolding run_steps
  join_metadata req =
      with_host node_host
        λ host. (of_error, host.add_non_voting metadata_shard_id req.node_id req.raft_address) ∷ []

  unfoldable pub leave_metadata : (node : ℕ) → M S Response
  unfolding run_steps
  leave_metadata node =
      with_host node_host λ host. (of_error, host.delete_replica metadata_shard_id node) ∷ []
