-- ===== src/Metadata/StateMachine.antt =====
-- pkg/raft/metadata/statemachine.go: the in-memory state machine of the metadata group. Its lock makes
-- each method one step; log lines are left out.
pub mod Epoch
pub mod Snapshot
use futureq_v.Prelude.{
  ℕ, ◌≡◌, List, [], ◌∷◌, Bool, true, false, Option, none, some, ltb, ◌==◌, if◌then◌else◌,
}
use futureq_v.Prelude.Result.{Result, ok, err, panic}
use futureq_v.Prelude.Method.{M}
use futureq_v.Bytes.{Bytes}
use futureq_v.Bytes.Order.{bytes_eq}
use futureq_v.Metadata.IdMap.{IdMap, lookup_id, insert_id, copy_into}
use futureq_v.Metadata.Commands.{
  ShardTopology, TopologySnapshot, unmarshal_update_topology_cmd, unmarshal_register_node_addr_cmd,
}

pub record MetadataStateMachine : Type 0 where
  pub topology : TopologySnapshot
  pub grpc_addrs : IdMap Bytes

abbrev pub new_metadata_state_machine : MetadataStateMachine
new_metadata_state_machine = record {
  topology = record { shards = []; epoch = 0 };
  grpc_addrs = [];
}

unfoldable pub set_topology : ShardTopology → TopologySnapshot → TopologySnapshot
set_topology t s = record {
  shards = insert_id t.shard_id t s.shards;
  epoch = if ltb s.epoch t.epoch then t.epoch else s.epoch;
}

abbrev apply_topology : Result ShardTopology → M MetadataStateMachine ℕ
apply_topology (ok t) s = (record s { topology = set_topology t s.topology }, ok 1)
apply_topology (err e) s = (s, ok 0)
apply_topology panic s = (s, panic)

abbrev apply_register : Result (ℕ × Bytes) → M MetadataStateMachine ℕ
apply_register (ok (node, addr)) s =
    (record s { grpc_addrs = insert_id node addr s.grpc_addrs }, ok 1)
apply_register (err e) s = (s, ok 0)
apply_register panic s = (s, panic)

-- `Update` of an entry with the command.
unfoldable pub update : Bytes → M MetadataStateMachine ℕ
update [] s = (s, ok 0)
update (b ∷ bs) s =
    if b == 0
    then apply_topology (unmarshal_update_topology_cmd (b ∷ bs)) s
    else if b == 1
    then apply_register (unmarshal_register_node_addr_cmd (b ∷ bs)) s
    else (s, ok 0)

-- ── reading ──

unfoldable pub copy_shard_topology : ShardTopology → ShardTopology
copy_shard_topology t = record {
  shard_id = t.shard_id;
  leader_id = t.leader_id;
  leader_addr = t.leader_addr;
  term = t.term;
  epoch = t.epoch;
  config_change_id = t.config_change_id;
  nodes = copy_into [] t.nodes;
  non_votings = copy_into [] t.non_votings;
  witnesses = copy_into [] t.witnesses;
  grpc_addrs = copy_into [] t.grpc_addrs;
}

copy_shards : IdMap ShardTopology → IdMap ShardTopology → IdMap ShardTopology
unfolding copy_shard_topology
copy_shards acc [] = acc
copy_shards acc ((id, t) ∷ rest) = copy_shards (insert_id id (copy_shard_topology t) acc) rest

unfoldable pub copy_topology : TopologySnapshot → TopologySnapshot
unfolding copy_shards
copy_topology s = record { shards = copy_shards [] s.shards; epoch = s.epoch }

abbrev copy_found : Option ShardTopology → Option ShardTopology
copy_found none = none
copy_found (some t) = some (copy_shard_topology t)

unfoldable pub get_topology : MetadataStateMachine → TopologySnapshot
get_topology s = copy_topology s.topology

unfoldable pub get_shard_topology : ℕ → MetadataStateMachine → Option ShardTopology
get_shard_topology id s = copy_found (lookup_id id s.topology.shards)

unfoldable pub get_grpc_addrs : MetadataStateMachine → IdMap Bytes
get_grpc_addrs s = copy_into [] s.grpc_addrs

-- The types that the switch of `Lookup` tells apart, and what it returns.
pub data Query : Type 0 where
  nil_query : Query
  text_query : Bytes → Query
  shard_query : ℕ → Query
  other_query : Query

pub data Answer : Type 0 where
  nil_answer : Answer
  topology_answer : TopologySnapshot → Answer
  shard_answer : ShardTopology → Answer

abbrev answer_shard : Option ShardTopology → Answer
answer_shard none = nil_answer
answer_shard (some t) = shard_answer (copy_shard_topology t)

-- The text "topology".
abbrev pub topology_text : Bytes
topology_text = b't' ∷ b'o' ∷ b'p' ∷ b'o' ∷ b'l' ∷ b'o' ∷ b'g' ∷ b'y' ∷ []

unfoldable pub lookup_query : Query → MetadataStateMachine → Answer
lookup_query nil_query s = topology_answer (copy_topology s.topology)
lookup_query (text_query q) s =
    if bytes_eq q topology_text then topology_answer (copy_topology s.topology) else nil_answer
lookup_query (shard_query id) s = answer_shard (lookup_id id s.topology.shards)
lookup_query other_query s = nil_answer
