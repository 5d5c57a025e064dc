-- ===== src/Metadata/StateMachine/Snapshot.antt =====
-- pkg/raft/metadata/statemachine.go: snapshots of the metadata. They hold the commands that rebuild the
-- state, each behind its length; maps are written in any order.
pub mod Saved
pub mod Restored
use futureq_v.Prelude.{ℕ, zero, suc, ◌%◌, ◌^◌, List, [], ◌∷◌, length}
use futureq_v.Prelude.Result.{Result, ok, err, panic}
use futureq_v.Prelude.Method.{M, ◌>>=◌, ◌>>◌, pure, lift, for_each, continue}
use futureq_v.Bytes.{Bytes, be_bytes, be_value}
use futureq_v.Bytes.Reader.{read_full}
use futureq_v.Metadata.IdMap.{IdMap, insert_id}
use futureq_v.Metadata.Commands.{
  ShardTopology, marshal_update_topology_cmd, marshal_register_node_addr_cmd,
  unmarshal_update_topology_cmd, unmarshal_register_node_addr_cmd,
}
use futureq_v.Metadata.StateMachine.{MetadataStateMachine, new_metadata_state_machine, set_topology}

-- ── SaveSnapshot ──

module _ {W : Type 0} (write : Bytes → M W (Unit {0})) where
  abbrev write_uint32 : ℕ → M W (Unit {0})
  write_uint32 v = write (be_bytes 4 (v % 2 ^ 32))

  abbrev pub save_command : Result Bytes → M W (Unit {0})
  save_command r = do cmd ← lift r; write_uint32 (length cmd); write cmd

  abbrev pub save_addr : ℕ × Bytes → M W (Unit {0})
  save_addr (node, addr) = save_command (marshal_register_node_addr_cmd node addr)

  abbrev pub save_shard : ℕ × ShardTopology → M W (Unit {0})
  save_shard (id, t) = save_command (marshal_update_topology_cmd t)

  unfoldable pub save_snapshot : MetadataStateMachine → M W (Unit {0})
  save_snapshot s = do
    write_uint32 (length s.grpc_addrs)
    for_each save_addr s.grpc_addrs
    write_uint32 (length s.topology.shards)
    for_each save_shard s.topology.shards

-- ── RecoverFromSnapshot ──

-- The reader beside the state that is rebuilt.
pub record Restore : Type 0 where
  pub input : Bytes
  pub machine : MetadataStateMachine

abbrev read_input : {A : Type 0} → M Bytes A → M Restore A
read_input m s = let (rest, r) = m s.input in (record s { input = rest }, r)

abbrev pub read_uint32 : M Bytes ℕ
read_uint32 input = continue (read_full 4 input) (λ b rest. (rest, ok (be_value b)))

abbrev read_command : M Bytes Bytes
read_command input = continue (read_uint32 input) (λ n rest. read_full n rest)

abbrev restore_addr : M Restore (Unit {0})
restore_addr = do
  cmd ← read_input read_command
  (node, addr) ← lift (unmarshal_register_node_addr_cmd cmd)
  (λ s. (
    record s {
      machine = record s.machine { grpc_addrs = insert_id node addr s.machine.grpc_addrs };
    },
    ok tt,
  ))

abbrev restore_shard : M Restore (Unit {0})
restore_shard = do
  cmd ← read_input read_command
  t ← lift (unmarshal_update_topology_cmd cmd)
  (λ s. (
    record s { machine = record s.machine { topology = set_topology t s.machine.topology } },
    ok tt,
  ))

repeat : ℕ → M Restore (Unit {0}) → M Restore (Unit {0})
repeat zero body s = (s, ok tt)
repeat (suc n) body s = continue (body s) (λ _. repeat n body)

unfoldable pub restore : M Restore (Unit {0})
unfolding repeat
restore = do
  grpc_count ← read_input read_uint32
  repeat grpc_count restore_addr
  count ← read_input read_uint32
  repeat count restore_shard

-- The state is reset first; a failure leaves what was rebuilt until then.
unfoldable pub recover_from_snapshot : Bytes → M MetadataStateMachine (Unit {0})
recover_from_snapshot input s =
    let (end, r) = restore (record { input = input; machine = new_metadata_state_machine }) in
    (end.machine, r)
