-- ===== src/Metadata/Commands/RoundTrip.antt =====
-- Metadata commands that were encoded are decoded to what they were made from.
use futureq_v.Prelude.{
  ℕ, ◌+◌, ◌%◌, ◌^◌, ◌<◌, ◌≡◌, refl, sym, subst, ◌∙◌, [], ◌∷◌, ◌++◌, append_assoc, append-nil, arith,
  length, length-append, All,
}
use futureq_v.Prelude.Result.{ok, ◌>>=◌}
use futureq_v.Bytes.{Bytes, IsU64, be_bytes, length-be_bytes, be_value_one}
use futureq_v.Bytes.Read.{read_block, block_fits, read_number}
use futureq_v.Metadata.IdMap.{IdMap, IsIdMap, insert_id_next}
use futureq_v.Metadata.Commands.{
  ShardTopology, unmarshal_nodes, unmarshal_node_map, unmarshal_update_topology_cmd,
  unmarshal_register_node_addr_cmd, marshal_update_topology_cmd, marshal_register_node_addr_cmd,
}
use futureq_v.Metadata.Commands.Encoding.{
  encode_nodes, encode_node_map, encode_update_topology, encode_register_node_addr,
  length-encode_node, length-encode_node_map, marshal_update_topology_cmd_lem,
  marshal_register_node_addr_cmd_lem,
}
use futureq_v.Metadata.Commands.Header.{
  IsNode, IsNodeMap, IsTopology, header, length-header, header-HasHeader,
}

unmarshal_nodes_lem :
    (m acc : IdMap Bytes) (xs pre post : Bytes) (pos : ℕ)
    → xs ≡ pre ++ encode_nodes m ++ post
    → pos ≡ length pre
    → All IsNode m
    → IsIdMap (acc ++ m)
    → unmarshal_nodes (length m) xs pos acc ≡ ok (acc ++ m, pos + length (encode_nodes m))
unfolding unmarshal_nodes encode_nodes
unmarshal_nodes_lem [] acc xs pre post pos layout hp h d = ground (arith, append-nil acc)
unmarshal_nodes_lem ((id, addr) ∷ rest) acc xs pre post pos layout hp ((hid, haddr), h) d =
    let node = be_bytes 8 id in
    let len = be_bytes 2 (length addr % 2 ^ 16) in
    let tail = encode_nodes rest in
    let l1 : xs ≡ pre ++ node ++ (len ++ addr ++ tail ++ post) = layout ∙ simp append_assoc in
    let l2 : xs ≡ pre ++ node ++ len ++ (addr ++ tail ++ post) = layout ∙ simp append_assoc in
    let l3 : xs ≡ pre ++ node ++ len ++ addr ++ (tail ++ post) = layout ∙ simp append_assoc in
    let l4 : xs ≡ pre ++ node ++ len ++ addr ++ tail ++ post = layout ∙ simp append_assoc in
    let e1 : length (pre ++ node) ≡ pos + 8 = simp (length-append, length-be_bytes) (omega arith) in
    let e2 : length (pre ++ node ++ len) ≡ pos + 8 + 2 =
      simp (length-append, length-be_bytes) (omega arith) in
    let next = append_assoc acc ((id, addr) ∷ []) rest in
    ground (
      arith,
      read_number xs pre _ 8 id pos (pos + 8) l1,
      read_number xs _ _ 2 (length addr % 2 ^ 16) (pos + 8) (pos + 8 + 2) l2,
      block_fits xs _ addr (tail ++ post) l3 (pos + 8 + 2 + length addr),
      read_block xs _ addr (tail ++ post) l3 (pos + 8 + 2) (pos + 8 + 2 + length addr),
      length-append (pre ++ node ++ len) addr,
      length-encode_node id addr rest,
      insert_id_next id addr acc rest d,
      next,
      unmarshal_nodes_lem rest (acc ++ (id, addr) ∷ []) xs (pre ++ node ++ len ++ addr) post
          (pos + 8 + 2 + length addr) l4
          (omega (arith, e2, length-append (pre ++ node ++ len) addr)) h
          (subst IsIdMap (sym next) d),
    )

unmarshal_node_map_lem :
    (m : IdMap Bytes) (xs pre post : Bytes) (pos : ℕ)
    → xs ≡ pre ++ encode_node_map m ++ post
    → pos ≡ length pre
    → IsNodeMap m
    → unmarshal_node_map xs pos ≡ ok (m, pos + length (encode_node_map m))
unfolding unmarshal_node_map encode_node_map
unmarshal_node_map_lem m xs pre post pos layout hp (distinct, h, small) =
    let len = be_bytes 2 (length m % 2 ^ 16) in
    let l1 : xs ≡ pre ++ len ++ (encode_nodes m ++ post) = layout ∙ simp append_assoc in
    let l2 : xs ≡ pre ++ len ++ encode_nodes m ++ post = layout ∙ simp append_assoc in
    let e1 : pos + 2 ≡ length (pre ++ len) = simp (length-append, length-be_bytes) (omega arith) in
    ground (
      arith,
      read_number xs pre _ 2 (length m % 2 ^ 16) pos (pos + 2) l1,
      unmarshal_nodes_lem m [] xs (pre ++ len) post (pos + 2) l2 e1 h distinct,
      length-encode_node_map m,
    )

-- A registration is decoded to the node and the address that it was made from.
pub unmarshal-marshal_register :
    (node : ℕ) (addr : Bytes)
    → IsU64 node
    → length addr < 2 ^ 16
    → (marshal_register_node_addr_cmd node addr >>= unmarshal_register_node_addr_cmd)
      ≡ ok (node, addr)
unfolding unmarshal_register_node_addr_cmd
unmarshal-marshal_register node addr hn ha =
    rw (marshal_register_node_addr_cmd_lem node addr) (unfold encode_register_node_addr in decoded)
  where
    num : Bytes
    num = be_bytes 8 node

    len : Bytes
    len = be_bytes 2 (length addr % 2 ^ 16)

    xs : Bytes
    xs = 1 ∷ (num ++ (len ++ addr))

    l2 : xs ≡ (1 ∷ []) ++ num ++ len ++ addr
    l2 = simp append_assoc refl

    l3 : xs ≡ (1 ∷ []) ++ num ++ len ++ addr ++ []
    l3 = simp (append_assoc, append-nil) refl

    decoded : unmarshal_register_node_addr_cmd xs ≡ ok (node, addr)
    decoded = ground (
      arith,
      read_number xs (1 ∷ []) (len ++ addr) 8 node 1 9 refl hn,
      be_value_one 1,
      length-be_bytes 8 node,
      length-be_bytes 2 (length addr % 2 ^ 16),
      read_number xs ((1 ∷ []) ++ num) addr 2 (length addr % 2 ^ 16) 9 11 l2,
      length-append ((1 ∷ []) ++ num) len,
      block_fits xs ((1 ∷ []) ++ num ++ len) addr [] l3 (11 + length addr),
      read_block xs ((1 ∷ []) ++ num ++ len) addr [] l3 11 (11 + length addr),
    )

unmarshal_topology_lem :
    (t : ShardTopology) (xs : Bytes)
    → xs ≡ encode_update_topology t
    → IsTopology t
    → unmarshal_update_topology_cmd xs ≡ ok t
unfolding unmarshal_update_topology_cmd encode_update_topology header
unmarshal_topology_lem t xs layout h =
    let addr = t.leader_addr in
    let m1 = encode_node_map t.nodes in
    let m2 = encode_node_map t.non_votings in
    let m3 = encode_node_map t.witnesses in
    let m4 = encode_node_map t.grpc_addrs in
    let pre1 = header t ++ addr in
    let pre2 = pre1 ++ m1 in
    let pre3 = pre2 ++ m2 in
    let pre4 = pre3 ++ m3 in
    let l7 : xs ≡ header t ++ addr ++ (m1 ++ m2 ++ m3 ++ m4) = layout ∙ simp append_assoc refl in
    let n1 : xs ≡ pre1 ++ m1 ++ (m2 ++ m3 ++ m4) = layout ∙ simp append_assoc refl in
    let n2 : xs ≡ pre2 ++ m2 ++ (m3 ++ m4) = layout ∙ simp append_assoc refl in
    let n3 : xs ≡ pre3 ++ m3 ++ m4 = layout ∙ simp append_assoc refl in
    let n4 : xs ≡ pre4 ++ m4 ++ [] = layout ∙ simp (append_assoc, append-nil) refl in
    let r =
      header-HasHeader t xs (addr ++ (m1 ++ m2 ++ m3 ++ m4)) (layout ∙ simp append_assoc refl) h in
    let e0 = length-header t in
    let p1 = 43 + length addr in
    let e1 : p1 ≡ length pre1 = omega (arith, e0, length-append (header t) addr) in
    let e2 : p1 + length m1 ≡ length pre2 = omega (arith, e1, length-append pre1 m1) in
    let e3 : p1 + length m1 + length m2 ≡ length pre3 = omega (arith, e2, length-append pre2 m2) in
    let e4 : p1 + length m1 + length m2 + length m3 ≡ length pre4 =
      omega (arith, e3, length-append pre3 m3) in
    ground (
      arith,
      r.tag_at,
      r.shard_at,
      r.leader_at,
      r.term_at,
      r.epoch_at,
      r.config_at,
      r.length_at,
      r.long_enough,
      block_fits xs (header t) addr _ l7 p1,
      read_block xs (header t) addr _ l7 43 p1 (sym e0) refl,
      unmarshal_node_map_lem t.nodes xs pre1 _ p1 n1 e1 h.nodes_fit,
      unmarshal_node_map_lem t.non_votings xs pre2 _ (p1 + length m1) n2 e2 h.non_votings_fit,
      unmarshal_node_map_lem t.witnesses xs pre3 _ (p1 + length m1 + length m2) n3 e3
          h.witnesses_fit,
      unmarshal_node_map_lem t.grpc_addrs xs pre4 [] (p1 + length m1 + length m2 + length m3) n4 e4
          h.grpc_addrs_fit,
    )

-- A topology whose numbers are uint64s, whose addresses and maps have lengths that a uint16 holds and
-- whose maps repeat no id is decoded, from its command, to itself.
pub unmarshal-marshal_topology :
    (t : ShardTopology)
    → IsTopology t
    → (marshal_update_topology_cmd t >>= unmarshal_update_topology_cmd) ≡ ok t
unmarshal-marshal_topology t h =
    rw (marshal_update_topology_cmd_lem t)
      (unmarshal_topology_lem t (encode_update_topology t) refl h)
