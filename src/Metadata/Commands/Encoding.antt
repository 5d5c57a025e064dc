-- ===== src/Metadata/Commands/Encoding.antt =====
-- The wire format of the metadata commands in plain appends, and that the encoders produce it.
use futureq_v.Prelude.{
  ℕ, ◌+◌, ◌*◌, ◌%◌, ◌^◌, ◌≡◌, refl, sym, ap, ◌∙◌, [], ◌∷◌, ◌++◌, append_assoc, append-nil, arith,
  length, length-append,
}
use futureq_v.Prelude.Result.{ok}
use futureq_v.Bytes.{Bytes, be_bytes, length-be_bytes}
use futureq_v.Bytes.Buffer.{make_bytes, Filled, Filled-cast, Filled-full, write}
use futureq_v.Metadata.IdMap.{IdMap}
use futureq_v.Metadata.Commands.{
  ShardTopology, node_map_size, topology_size, marshal_nodes, marshal_node_map,
  marshal_update_topology_cmd, marshal_register_node_addr_cmd,
}

unfoldable pub encode_nodes : IdMap Bytes → Bytes
encode_nodes [] = []
encode_nodes ((id, addr) ∷ rest) =
    be_bytes 8 id ++ (be_bytes 2 (length addr % 2 ^ 16) ++ (addr ++ encode_nodes rest))

unfoldable pub encode_node_map : IdMap Bytes → Bytes
encode_node_map m = be_bytes 2 (length m % 2 ^ 16) ++ encode_nodes m

unfoldable pub encode_update_topology : ShardTopology → Bytes
encode_update_topology t =
    0
    ∷ (be_bytes 8 t.shard_id
        ++ (be_bytes 8 t.leader_id
            ++ (be_bytes 8 t.term
                ++ (be_bytes 8 t.epoch
                    ++ (be_bytes 8 t.config_change_id
                        ++ (be_bytes 2 (length t.leader_addr % 2 ^ 16)
                            ++ (t.leader_addr
                                ++ (encode_node_map t.nodes
                                    ++ (encode_node_map t.non_votings
                                        ++ (encode_node_map t.witnesses
                                            ++ encode_node_map t.grpc_addrs))))))))))

ruleset widths = (length-append, length-be_bytes)

pub length-encode_node :
    (id : ℕ) (addr : Bytes) (rest : IdMap Bytes)
    → length (encode_nodes ((id, addr) ∷ rest))
      ≡ 8 + (2 + (length addr + length (encode_nodes rest)))
unfolding encode_nodes
length-encode_node id addr rest = simp widths

pub length-encode_node_map :
    (m : IdMap Bytes) → length (encode_node_map m) ≡ 2 + length (encode_nodes m)
unfolding encode_node_map
length-encode_node_map m = simp widths

marshal_nodes-Filled :
    (m : IdMap Bytes) (out pre : Bytes) (n k pos : ℕ)
    → Filled out pos pre n
    → n ≡ length (encode_nodes m) + k
    → let r = marshal_nodes out pos m in Filled r.0 r.1 (pre ++ encode_nodes m) k
unfolding marshal_nodes encode_nodes
marshal_nodes-Filled [] out pre n k pos f hn = Filled-cast (sym (append-nil pre)) (omega arith) f
marshal_nodes-Filled ((id, addr) ∷ rest) out pre n k pos f hn =
    let len = be_bytes 2 (length addr % 2 ^ 16) in
    let k3 = length (encode_nodes rest) + k in
    let f1 =
      write (be_bytes 8 id) (pos + 8) n (2 + (length addr + k3)) f
        (omega (arith, length-encode_node id addr rest, length-be_bytes 8 id)) (simp widths) in
    let f2 =
      write len (pos + 8 + 2) (2 + (length addr + k3)) (length addr + k3) f1 (simp widths)
        (simp widths) in
    let f3 = write addr (pos + 8 + 2 + length addr) (length addr + k3) k3 f2 refl refl in
    Filled-cast (simp append_assoc) refl
      (marshal_nodes-Filled rest _ _ k3 k (pos + 8 + 2 + length addr) f3 refl)

marshal_node_map-Filled :
    (m : IdMap Bytes) (out pre : Bytes) (n k pos : ℕ)
    → Filled out pos pre n
    → n ≡ length (encode_node_map m) + k
    → let r = marshal_node_map out pos m in Filled r.0 r.1 (pre ++ encode_node_map m) k
unfolding marshal_node_map encode_node_map
marshal_node_map-Filled m out pre n k pos f hn =
    let len = be_bytes 2 (length m % 2 ^ 16) in
    let k1 = length (encode_nodes m) + k in
    let f1 =
      write len (pos + 2) n k1 f
        (omega (arith, length-encode_node_map m, length-be_bytes 2 (length m % 2 ^ 16)))
        (simp widths) in
    Filled-cast (append_assoc pre len (encode_nodes m)) refl
      (marshal_nodes-Filled m _ _ k1 k (pos + 2) f1 refl)

node_map_size_lem :
    (size : ℕ) (m : IdMap Bytes) → node_map_size size m ≡ size + length (encode_nodes m)
unfolding node_map_size encode_nodes
node_map_size_lem size [] = omega arith
node_map_size_lem size ((id, addr) ∷ rest) =
    omega (
      arith,
      node_map_size_lem (size + (8 + 2 + length addr)) rest,
      length-encode_node id addr rest,
    )

topology_size_lem :
    (t : ShardTopology)
    → topology_size t
      ≡ 43
        + (length t.leader_addr
            + (length (encode_node_map t.nodes)
                + (length (encode_node_map t.non_votings)
                    + (length (encode_node_map t.witnesses)
                        + length (encode_node_map t.grpc_addrs)))))
unfolding topology_size
topology_size_lem t =
    let size1 = node_map_size (1 + 8 * 5 + 2 + length t.leader_addr + 2) t.nodes in
    let size2 = node_map_size (size1 + 2) t.non_votings in
    let size3 = node_map_size (size2 + 2) t.witnesses in
    omega (
      arith,
      node_map_size_lem (1 + 8 * 5 + 2 + length t.leader_addr + 2) t.nodes,
      node_map_size_lem (size1 + 2) t.non_votings,
      node_map_size_lem (size2 + 2) t.witnesses,
      node_map_size_lem (size3 + 2) t.grpc_addrs,
      length-encode_node_map t.nodes,
      length-encode_node_map t.non_votings,
      length-encode_node_map t.witnesses,
      length-encode_node_map t.grpc_addrs,
    )

-- The encoder of topology commands fills its buffer exactly with the format.
pub marshal_update_topology_cmd_lem :
    (t : ShardTopology) → marshal_update_topology_cmd t ≡ ok (encode_update_topology t)
unfolding marshal_update_topology_cmd encode_update_topology
marshal_update_topology_cmd_lem t =
    let n4 = length (encode_node_map t.grpc_addrs) in
    let n3 = length (encode_node_map t.witnesses) + n4 in
    let n2 = length (encode_node_map t.non_votings) + n3 in
    let n1 = length (encode_node_map t.nodes) + n2 in
    let n0 = length t.leader_addr + n1 in
    let start : Filled (make_bytes (topology_size t)) 0 []
        (1 + (8 + (8 + (8 + (8 + (8 + (2 + n0))))))) =
      record { contents = ap make_bytes (topology_size_lem t ∙ omega arith); position = refl } in
    let f0 = write (0 ∷ []) 1 _ (8 + (8 + (8 + (8 + (8 + (2 + n0)))))) start refl refl in
    let f1 =
      write (be_bytes 8 t.shard_id) 9 _ (8 + (8 + (8 + (8 + (2 + n0))))) f0 (simp widths)
        (simp widths) in
    let f2 =
      write (be_bytes 8 t.leader_id) 17 _ (8 + (8 + (8 + (2 + n0)))) f1 (simp widths)
        (simp widths) in
    let f3 = write (be_bytes 8 t.term) 25 _ (8 + (8 + (2 + n0))) f2 (simp widths) (simp widths) in
    let f4 = write (be_bytes 8 t.epoch) 33 _ (8 + (2 + n0)) f3 (simp widths) (simp widths) in
    let f5 = write (be_bytes 8 t.config_change_id) 41 _ (2 + n0) f4 (simp widths) (simp widths) in
    let f6 =
      write (be_bytes 2 (length t.leader_addr % 2 ^ 16)) 43 _ n0 f5 (simp widths) (simp widths) in
    let f7 = write t.leader_addr (43 + length t.leader_addr) n0 n1 f6 refl refl in
    let g1 = marshal_node_map-Filled t.nodes _ _ n1 n2 (43 + length t.leader_addr) f7 refl in
    let g2 = marshal_node_map-Filled t.non_votings _ _ n2 n3 _ g1 refl in
    let g3 = marshal_node_map-Filled t.witnesses _ _ n3 n4 _ g2 refl in
    let g4 = marshal_node_map-Filled t.grpc_addrs _ _ n4 0 _ g3 (omega arith) in
    ap ok (Filled-full g4 ∙ simp append_assoc refl)

unfoldable pub encode_register_node_addr : ℕ → Bytes → Bytes
encode_register_node_addr node addr =
    1 ∷ (be_bytes 8 node ++ (be_bytes 2 (length addr % 2 ^ 16) ++ addr))

-- The encoder of registrations fills its buffer exactly with the format.
pub marshal_register_node_addr_cmd_lem :
    (node : ℕ) (addr : Bytes)
    → marshal_register_node_addr_cmd node addr ≡ ok (encode_register_node_addr node addr)
unfolding marshal_register_node_addr_cmd encode_register_node_addr
marshal_register_node_addr_cmd_lem node addr =
    let n = length addr in
    let start : Filled (make_bytes (1 + 8 + 2 + n)) 0 [] (1 + (8 + (2 + n))) = record {
      contents = ap make_bytes (omega arith);
      position = refl;
    } in
    let f0 = write (1 ∷ []) 1 _ (8 + (2 + n)) start refl refl in
    let f1 = write (be_bytes 8 node) 9 _ (2 + n) f0 (simp widths) (simp widths) in
    let f2 = write (be_bytes 2 (length addr % 2 ^ 16)) 11 _ n f1 (simp widths) (simp widths) in
    let f3 = write addr (11 + n) n 0 f2 (omega arith) refl in
    ap ok (Filled-full f3 ∙ simp append_assoc refl)
