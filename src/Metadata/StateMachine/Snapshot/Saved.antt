-- ===== src/Metadata/StateMachine/Snapshot/Saved.antt =====
-- What a snapshot of the metadata holds.
use futureq_v.Prelude.{
  ◌%◌, ◌^◌, ◌≡◌, ap, ◌∙◌, [], ◌∷◌, ◌++◌, append_assoc, append-nil, length, arith,
}
use futureq_v.Prelude.Result.{ok}
use futureq_v.Prelude.Method.{M, for_each}
use futureq_v.Bytes.{Bytes, be_bytes}
use futureq_v.Metadata.IdMap.{IdMap}
use futureq_v.Metadata.Commands.{ShardTopology}
use futureq_v.Metadata.Commands.Encoding.{
  encode_register_node_addr, encode_update_topology, marshal_register_node_addr_cmd_lem,
  marshal_update_topology_cmd_lem,
}
use futureq_v.Metadata.StateMachine.{MetadataStateMachine}
use futureq_v.Metadata.StateMachine.Snapshot.{save_addr, save_shard, save_snapshot}

-- A writer that collects the bytes.
abbrev pub collect : Bytes → M Bytes (Unit {0})
collect b written = (written ++ b, ok tt)

abbrev pub frame : Bytes → Bytes
frame cmd = be_bytes 4 (length cmd % 2 ^ 32) ++ cmd

abbrev pub encode_addrs : IdMap Bytes → Bytes
encode_addrs [] = []
encode_addrs ((node, addr) ∷ m) = frame (encode_register_node_addr node addr) ++ encode_addrs m

abbrev pub encode_shards : IdMap ShardTopology → Bytes
encode_shards [] = []
encode_shards ((id, t) ∷ m) = frame (encode_update_topology t) ++ encode_shards m

abbrev pub encode_metadata : MetadataStateMachine → Bytes
encode_metadata s =
    be_bytes 4 (length s.grpc_addrs % 2 ^ 32)
    ++ (encode_addrs s.grpc_addrs
        ++ (be_bytes 4 (length s.topology.shards % 2 ^ 32) ++ encode_shards s.topology.shards))

save_addrs-collect :
    (m : IdMap Bytes) (w : Bytes) → for_each (save_addr collect) m w ≡ (w ++ encode_addrs m, ok tt)
save_addrs-collect [] w = ground (arith, append-nil w)
save_addrs-collect ((node, addr) ∷ m) w =
    let cmd = encode_register_node_addr node addr in
    let len = be_bytes 4 (length cmd % 2 ^ 32) in
    rw (marshal_register_node_addr_cmd_lem node addr) (
      save_addrs-collect m ((w ++ len) ++ cmd)
      ∙ ap (λ (x : Bytes). (x, ok tt))
          (ap (λ (x : Bytes). x ++ encode_addrs m) (append_assoc w len cmd)
            ∙ append_assoc w (len ++ cmd) (encode_addrs m)))

save_shards-collect :
    (m : IdMap ShardTopology) (w : Bytes)
    → for_each (save_shard collect) m w ≡ (w ++ encode_shards m, ok tt)
save_shards-collect [] w = ground (arith, append-nil w)
save_shards-collect ((id, t) ∷ m) w =
    let cmd = encode_update_topology t in
    let len = be_bytes 4 (length cmd % 2 ^ 32) in
    rw (marshal_update_topology_cmd_lem t) (
      save_shards-collect m ((w ++ len) ++ cmd)
      ∙ ap (λ (x : Bytes). (x, ok tt))
          (ap (λ (x : Bytes). x ++ encode_shards m) (append_assoc w len cmd)
            ∙ append_assoc w (len ++ cmd) (encode_shards m)))

pub save_snapshot-collect :
    (s : MetadataStateMachine) → save_snapshot collect s [] ≡ (encode_metadata s, ok tt)
unfolding save_snapshot
save_snapshot-collect s =
    let n1 = be_bytes 4 (length s.grpc_addrs % 2 ^ 32) in
    let n2 = be_bytes 4 (length s.topology.shards % 2 ^ 32) in
    let addrs = encode_addrs s.grpc_addrs in
    let shards = encode_shards s.topology.shards in
    rw
      (
        save_addrs-collect s.grpc_addrs n1,
        save_shards-collect s.topology.shards ((n1 ++ addrs) ++ n2),
      )
      (ap (λ (x : Bytes). (x, ok tt))
        (append_assoc (n1 ++ addrs) n2 shards ∙ append_assoc n1 addrs (n2 ++ shards)))
