-- ===== src/Metadata/StateMachine/Snapshot/Restored.antt =====
-- Metadata that one replica saves and another one recovers.
use futureq_v.Prelude.{
  ℕ, ◌%◌, ◌^◌, ◌<◌, ◌≤◌, ◌≡◌, refl, sym, subst, ap, ◌∙◌, [], ◌∷◌, ◌++◌, append_assoc, append-nil,
  Bool-cases, inl, inr, ltb, if◌then◌else◌, length, length-append, All, arith,
}
use futureq_v.Prelude.Result.{ok}
use futureq_v.Bytes.{Bytes, be_bytes, length-be_bytes, be_value-be_bytes}
use futureq_v.Bytes.Reader.{read_full-block, read_full-append}
use futureq_v.Metadata.IdMap.{IdMap, IsIdMap, insert_id, insert_id_next}
use futureq_v.Metadata.Commands.{
  ShardTopology, unmarshal_update_topology_cmd, unmarshal_register_node_addr_cmd,
}
use futureq_v.Metadata.Commands.Encoding.{
  encode_register_node_addr, encode_update_topology, marshal_register_node_addr_cmd_lem,
  marshal_update_topology_cmd_lem,
}
use futureq_v.Metadata.Commands.Header.{IsNode, IsTopology}
use futureq_v.Metadata.Commands.RoundTrip.{unmarshal-marshal_register, unmarshal-marshal_topology}
use futureq_v.Metadata.StateMachine.{MetadataStateMachine, new_metadata_state_machine, set_topology}
use futureq_v.Metadata.StateMachine.Epoch.{IsFiled, IsConsistent}
use futureq_v.Metadata.StateMachine.Snapshot.{
  save_snapshot, Restore, read_uint32, read_command, restore_addr, restore_shard, repeat, restore,
  recover_from_snapshot,
}
use futureq_v.Metadata.StateMachine.Snapshot.Saved.{
  collect, frame, encode_addrs, encode_shards, save_snapshot-collect,
}

-- A topology under its own id whose command fits a frame.
abbrev pub IsSavable : ℕ × ShardTopology → Type 0
IsSavable (id, t) = (t.shard_id ≡ id) × IsTopology t × (length (encode_update_topology t) < 2 ^ 32)

read_uint32-be_bytes :
    (v : ℕ) (rest : Bytes)
    → v < 2 ^ 32
    → read_uint32 (be_bytes 4 (v % 2 ^ 32) ++ rest) ≡ (rest, ok v)
read_uint32-be_bytes v rest h =
    let small : v % 2 ^ 32 ≡ v = omega arith in
    rw (read_full-block 4 (be_bytes 4 (v % 2 ^ 32)) rest (length-be_bytes 4 (v % 2 ^ 32)))
      (ap (λ (n : ℕ). (rest, ok n)) (be_value-be_bytes 4 (v % 2 ^ 32) (omega arith) ∙ small))

read_command-frame :
    (cmd rest : Bytes) → length cmd < 2 ^ 32 → read_command (frame cmd ++ rest) ≡ (rest, ok cmd)
read_command-frame cmd rest h =
    let n = be_bytes 4 (length cmd % 2 ^ 32) in
    ap (λ (x : Bytes). read_command x) (append_assoc n cmd rest)
    ∙ rw (read_uint32-be_bytes (length cmd) (cmd ++ rest) h) (read_full-append cmd rest)

decode_register :
    (node : ℕ) (addr : Bytes)
    → IsNode (node, addr)
    → unmarshal_register_node_addr_cmd (encode_register_node_addr node addr) ≡ ok (node, addr)
decode_register node addr (hn, ha) =
    rw (marshal_register_node_addr_cmd_lem node addr) at
      (unmarshal-marshal_register node addr hn ha)

decode_topology :
    (t : ShardTopology)
    → IsTopology t
    → unmarshal_update_topology_cmd (encode_update_topology t) ≡ ok t
decode_topology t h = rw (marshal_update_topology_cmd_lem t) at (unmarshal-marshal_topology t h)

length-register :
    (node : ℕ) (addr : Bytes)
    → length addr < 2 ^ 16
    → length (encode_register_node_addr node addr) < 2 ^ 32
unfolding encode_register_node_addr
length-register node addr h = omega (
  arith,
  length-append (be_bytes 8 node) (be_bytes 2 (length addr % 2 ^ 16) ++ addr),
  length-append (be_bytes 2 (length addr % 2 ^ 16)) addr,
  length-be_bytes 8 node,
  length-be_bytes 2 (length addr % 2 ^ 16),
)

abbrev with_addrs : IdMap Bytes → MetadataStateMachine → MetadataStateMachine
with_addrs m s = record s { grpc_addrs = m }

abbrev state_of : Bytes → MetadataStateMachine → Restore
state_of input s = record { input = input; machine = s }

restore_addrs :
    (m acc : IdMap Bytes) (rest : Bytes) (s : MetadataStateMachine)
    → All IsNode m
    → IsIdMap (acc ++ m)
    → repeat (length m) restore_addr (state_of (encode_addrs m ++ rest) (with_addrs acc s))
      ≡ (state_of rest (with_addrs (acc ++ m) s), ok tt)
unfolding repeat
restore_addrs [] acc rest s h d =
    ap (λ (a : IdMap Bytes). (state_of rest (with_addrs a s), ok tt)) (sym (append-nil acc))
restore_addrs ((node, addr) ∷ m) acc rest s (h, hs) d =
    let cmd = encode_register_node_addr node addr in
    let e = append_assoc acc ((node, addr) ∷ []) m in
    rw
      (
        append_assoc (frame cmd) (encode_addrs m) rest,
        read_command-frame cmd (encode_addrs m ++ rest) (length-register node addr h.1),
        decode_register node addr h,
        insert_id_next node addr acc m d,
      )
      (restore_addrs m (acc ++ (node, addr) ∷ []) rest s hs (subst IsIdMap (sym e) d)
        ∙ ap (λ (a : IdMap Bytes). (state_of rest (with_addrs a s), ok tt)) e)

-- The largest epoch of the shards, from a lower bound on.
abbrev pub max_epoch : ℕ → IdMap ShardTopology → ℕ
max_epoch e [] = e
max_epoch e ((id, t) ∷ m) = max_epoch (if ltb e t.epoch then t.epoch else e) m

abbrev with_shards : IdMap ShardTopology → ℕ → MetadataStateMachine → MetadataStateMachine
with_shards m e s = record s { topology = record { shards = m; epoch = e } }

restore_shards :
    (m acc : IdMap ShardTopology) (e : ℕ) (s : MetadataStateMachine)
    → All IsSavable m
    → IsIdMap (acc ++ m)
    → repeat (length m) restore_shard (state_of (encode_shards m) (with_shards acc e s))
      ≡ (state_of [] (with_shards (acc ++ m) (max_epoch e m) s), ok tt)
unfolding repeat set_topology
restore_shards [] acc e s h d =
    ap (λ (a : IdMap ShardTopology). (state_of [] (with_shards a e s), ok tt))
      (sym (append-nil acc))
restore_shards ((id, t) ∷ m) acc e s ((own, h, short), hs) d =
    let cmd = encode_update_topology t in
    let e' = if ltb e t.epoch then t.epoch else e in
    let eq = append_assoc acc ((id, t) ∷ []) m in
    rw
      (
        read_command-frame cmd (encode_shards m) short,
        decode_topology t h,
        ap (λ (i : ℕ). insert_id i t acc) own ∙ insert_id_next id t acc m d,
      )
      (restore_shards m (acc ++ (id, t) ∷ []) e' s hs (subst IsIdMap (sym eq) d)
        ∙ ap (λ (a : IdMap ShardTopology). (state_of [] (with_shards a (max_epoch e' m) s), ok tt))
            eq)

max_epoch-bound :
    (m : IdMap ShardTopology) (e bound : ℕ)
    → e ≤ bound
    → All (IsFiled bound) m
    → max_epoch e m ≤ bound
max_epoch-bound [] e bound h filed = h
max_epoch-bound ((id, t) ∷ m) e bound h ((own, ht), filed) = elim (Bool-cases (ltb e t.epoch)) [
  | inl newer ↦ rw newer (max_epoch-bound m t.epoch bound ht filed)
  | inr older ↦ rw older (max_epoch-bound m e bound h filed)
]

-- A replica that recovers from the snapshot of a consistent state, whose maps and commands fit the wire
-- format, holds the sender's addresses and shards, whatever it held before. Its global epoch is the
-- largest of the shards' epochs, which is at most the sender's.
pub metadata_recover-save :
    (s old : MetadataStateMachine)
    → IsConsistent s.topology
    → IsIdMap s.grpc_addrs
    → All IsNode s.grpc_addrs
    → All IsSavable s.topology.shards
    → length s.grpc_addrs < 2 ^ 32
    → length s.topology.shards < 2 ^ 32
    → (recover_from_snapshot (save_snapshot collect s []).0 old
        ≡ (with_shards s.topology.shards (max_epoch 0 s.topology.shards) s, ok tt))
      × (max_epoch 0 s.topology.shards ≤ s.topology.epoch)
unfolding recover_from_snapshot restore
metadata_recover-save s old (distinct, filed) hd hn hs la ls =
    let shards = encode_shards s.topology.shards in
    let count = be_bytes 4 (length s.topology.shards % 2 ^ 32) in
    (
      rw
          (
            save_snapshot-collect s,
            read_uint32-be_bytes (length s.grpc_addrs)
                (encode_addrs s.grpc_addrs ++ (count ++ shards)) la,
            restore_addrs s.grpc_addrs [] (count ++ shards) new_metadata_state_machine hn hd,
            read_uint32-be_bytes (length s.topology.shards) shards ls,
            restore_shards s.topology.shards [] 0
                (with_addrs s.grpc_addrs new_metadata_state_machine) hs distinct,
          )
          refl,
      max_epoch-bound s.topology.shards 0 s.topology.epoch (omega arith) filed,
    )
