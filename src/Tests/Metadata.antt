-- ===== src/Tests/Metadata.antt =====
-- The metadata at concrete values.
use futureq_v.Prelude.{ℕ, some, true, ◌+◌, ◌^◌, ◌≤◌, ◌<◌, ◌≡◌, refl, [], ◌∷◌, arith, length}
use futureq_v.Prelude.Result.{ok, ◌>>=◌}
use futureq_v.Bytes.{Bytes, be_bytes}
use futureq_v.Metadata.IdMap.{copy_into, insert_id, lookup_id}
use futureq_v.Metadata.Commands.{
  ShardTopology, marshal_update_topology_cmd, unmarshal_update_topology_cmd,
}
use futureq_v.Metadata.Commands.Encoding.{encode_update_topology, encode_node_map, encode_nodes}
use futureq_v.Metadata.Commands.Header.{IsTopology, IsNodeMap}
use futureq_v.Metadata.Commands.RoundTrip.{unmarshal-marshal_topology}
use futureq_v.Metadata.Service.{Membership, Cluster, Service, topology_of}
use futureq_v.Metadata.StateMachine.{MetadataStateMachine, new_metadata_state_machine, update}
use futureq_v.Metadata.StateMachine.Epoch.{IsConsistent, update-IsConsistent}
use futureq_v.Metadata.StateMachine.Snapshot.{save_snapshot, recover_from_snapshot}
use futureq_v.Metadata.StateMachine.Snapshot.Saved.{collect}
use futureq_v.Metadata.StateMachine.Snapshot.Restored.{metadata_recover-save}

abbrev a_topology : ShardTopology
a_topology = record {
  shard_id = 1;
  leader_id = 2;
  leader_addr = b'h' ∷ [];
  term = 3;
  epoch = 4;
  nodes = (2, b'n' ∷ []) ∷ [];
  non_votings = [];
  witnesses = [];
  grpc_addrs = (2, b'h' ∷ []) ∷ [];
  config_change_id = 5;
}

one_node : (addr : Bytes) → length addr < 2 ^ 16 → IsNodeMap ((2, addr) ∷ [])
unfolding lookup_id
one_node addr h = ((refl, tt), ((omega arith, h), tt), omega arith)

a_topology-IsTopology : IsTopology a_topology
a_topology-IsTopology = record {
  shard_u64 = omega arith;
  leader_u64 = omega arith;
  term_u64 = omega arith;
  epoch_u64 = omega arith;
  config_u64 = omega arith;
  short_addr = omega arith;
  nodes_fit = one_node (b'n' ∷ []) (omega arith);
  non_votings_fit = (tt, tt, omega arith);
  witnesses_fit = (tt, tt, omega arith);
  grpc_addrs_fit = one_node (b'h' ∷ []) (omega arith);
}

unmarshal-marshal_topology_example :
    (marshal_update_topology_cmd a_topology >>= unmarshal_update_topology_cmd) ≡ ok a_topology
unmarshal-marshal_topology_example = unmarshal-marshal_topology a_topology a_topology-IsTopology

-- The machine holds one shard; its global epoch is above the shard's.
abbrev a_state : MetadataStateMachine
a_state = record {
  topology = record { shards = (1, a_topology) ∷ []; epoch = 9 };
  grpc_addrs = (2, b'h' ∷ []) ∷ [];
}

a_state-IsConsistent : IsConsistent a_state.topology
unfolding lookup_id
a_state-IsConsistent = ((refl, tt), ((refl, omega arith), tt))

update-IsConsistent_example :
    let s' = (update (1 ∷ 0 ∷ []) a_state).0 in IsConsistent s'.topology × (9 ≤ s'.topology.epoch)
update-IsConsistent_example = update-IsConsistent (1 ∷ 0 ∷ []) a_state a_state-IsConsistent

a_topology-length : length (encode_update_topology a_topology) < 2 ^ 32
unfolding encode_update_topology encode_node_map encode_nodes be_bytes
a_topology-length = omega arith

metadata_recover-save_example :
    (recover_from_snapshot (save_snapshot collect a_state []).0 new_metadata_state_machine ≡ (
      record {
        topology = record { shards = (1, a_topology) ∷ []; epoch = 4 };
        grpc_addrs = (2, b'h' ∷ []) ∷ [];
      },
      ok tt,
    ))
    × (4 ≤ 9)
metadata_recover-save_example =
    metadata_recover-save a_state new_metadata_state_machine a_state-IsConsistent
      (one_node (b'h' ∷ []) (omega arith)).0 ((omega arith, omega arith), tt)
      ((refl, a_topology-IsTopology, a_topology-length), tt) (omega arith) (omega arith)

-- ── the service ──

abbrev a_membership : Membership
a_membership = record {
  config_change_id = 5;
  nodes = (2, b'n' ∷ []) ∷ [];
  non_votings = [];
  witnesses = [];
}

abbrev a_cluster : Cluster ℕ
a_cluster = record {
  membership = λ shard. ok a_membership;
  leader = λ shard. ok (2, 3, true);
  get_grpc_addrs = some ((2, b'h' ∷ []) ∷ []);
  propose = λ cmd n. (n + 1, ok tt);
}

abbrev a_service : Service ℕ
a_service = record { epoch = 3; shards = (1, tt) ∷ []; state = 0 }

topology_run : topology_of a_cluster 1 a_membership 4 ≡ a_topology
unfolding topology_of copy_into lookup_id insert_id
topology_run = refl
