-- ===== src/Metadata/Commands.antt =====
-- pkg/raft/metadata/commands.go: the commands of the metadata group. A map is written in any order.
pub mod Encoding
pub mod Header
pub mod RoundTrip
use futureq_v.Prelude.{ℕ, zero, suc, ◌+◌, ◌*◌, ◌%◌, ◌^◌, List, [], ◌∷◌, leb, ◌==◌, length, slice}
use futureq_v.Prelude.Result.{Result, ok, err, panic, ◌>>=◌, too_short, wrong_type, truncated}
use futureq_v.Bytes.{Bytes, be_bytes, be_value}
use futureq_v.Bytes.Buffer.{copy_at, make_bytes}
use futureq_v.Event.Commands.{require}
use futureq_v.Metadata.IdMap.{IdMap, insert_id}

abbrev pub metadata_shard_id : ℕ
metadata_shard_id = 0

pub data CommandType : Type 0 where
  update_topology_cmd register_node_addr_cmd : CommandType

abbrev pub command_byte : CommandType → ℕ
command_byte update_topology_cmd = 0
command_byte register_node_addr_cmd = 1

pub record ShardTopology : Type 0 where
  pub shard_id : ℕ
  pub leader_id : ℕ
  pub leader_addr : Bytes
  pub term : ℕ
  pub epoch : ℕ
  pub nodes : IdMap Bytes
  pub non_votings : IdMap Bytes
  pub witnesses : IdMap Bytes
  pub grpc_addrs : IdMap Bytes
  pub config_change_id : ℕ

pub record TopologySnapshot : Type 0 where
  pub shards : IdMap ShardTopology
  pub epoch : ℕ

-- ── encoding ──

node_map_size : ℕ → IdMap Bytes → ℕ
node_map_size size [] = size
node_map_size size ((id, addr) ∷ rest) = node_map_size (size + (8 + 2 + length addr)) rest

topology_size : ShardTopology → ℕ
unfolding node_map_size
topology_size t =
    let size1 = node_map_size (1 + 8 * 5 + 2 + length t.leader_addr + 2) t.nodes in
    let size2 = node_map_size (size1 + 2) t.non_votings in
    let size3 = node_map_size (size2 + 2) t.witnesses in node_map_size (size3 + 2) t.grpc_addrs

marshal_nodes : Bytes → ℕ → IdMap Bytes → Bytes × ℕ
marshal_nodes out pos [] = (out, pos)
marshal_nodes out pos ((id, addr) ∷ rest) =
    let out1 = copy_at out pos (be_bytes 8 id) in
    let out2 = copy_at out1 (pos + 8) (be_bytes 2 (length addr % 2 ^ 16)) in
    marshal_nodes (copy_at out2 (pos + 8 + 2) addr) (pos + 8 + 2 + length addr) rest

marshal_node_map : Bytes → ℕ → IdMap Bytes → Bytes × ℕ
unfolding marshal_nodes
marshal_node_map out pos m =
    marshal_nodes (copy_at out pos (be_bytes 2 (length m % 2 ^ 16))) (pos + 2) m

unfoldable pub marshal_update_topology_cmd : ShardTopology → Result Bytes
unfolding topology_size marshal_node_map
marshal_update_topology_cmd t =
    let out = make_bytes (topology_size t) in
    let out = copy_at out 0 (command_byte update_topology_cmd ∷ []) in
    let out = copy_at out 1 (be_bytes 8 t.shard_id) in
    let out = copy_at out 9 (be_bytes 8 t.leader_id) in
    let out = copy_at out 17 (be_bytes 8 t.term) in
    let out = copy_at out 25 (be_bytes 8 t.epoch) in
    let out = copy_at out 33 (be_bytes 8 t.config_change_id) in
    let out = copy_at out 41 (be_bytes 2 (length t.leader_addr % 2 ^ 16)) in
    let out = copy_at out 43 t.leader_addr in
    let (out1, pos1) = marshal_node_map out (43 + length t.leader_addr) t.nodes in
    let (out2, pos2) = marshal_node_map out1 pos1 t.non_votings in
    let (out3, pos3) = marshal_node_map out2 pos2 t.witnesses in
    ok (marshal_node_map out3 pos3 t.grpc_addrs).0

unfoldable pub marshal_register_node_addr_cmd : ℕ → Bytes → Result Bytes
marshal_register_node_addr_cmd node addr =
    let out = make_bytes (1 + 8 + 2 + length addr) in
    let out = copy_at out 0 (command_byte register_node_addr_cmd ∷ []) in
    let out = copy_at out 1 (be_bytes 8 node) in
    let out = copy_at out 9 (be_bytes 2 (length addr % 2 ^ 16)) in ok (copy_at out 11 addr)

-- ── decoding ──

-- The first argument is how many entries are left.
unmarshal_nodes : ℕ → Bytes → ℕ → IdMap Bytes → Result (IdMap Bytes × ℕ)
unfolding insert_id
unmarshal_nodes zero xs pos m = ok (m, pos)
unmarshal_nodes (suc left) xs pos m = do
  _ ← require (leb (pos + 8 + 2) (length xs)) truncated
  let id = be_value (slice xs pos (pos + 8))
  let addr_len = be_value (slice xs (pos + 8) (pos + 8 + 2))
  _ ← require (leb (pos + 8 + 2 + addr_len) (length xs)) truncated
  let addr = slice xs (pos + 8 + 2) (pos + 8 + 2 + addr_len)
  unmarshal_nodes left xs (pos + 8 + 2 + addr_len) (insert_id id addr m)

unmarshal_node_map : Bytes → ℕ → Result (IdMap Bytes × ℕ)
unfolding unmarshal_nodes
unmarshal_node_map xs pos = do
  _ ← require (leb (pos + 2) (length xs)) truncated
  unmarshal_nodes (be_value (slice xs pos (pos + 2))) xs (pos + 2) []

unfoldable pub unmarshal_update_topology_cmd : Bytes → Result ShardTopology
unfolding unmarshal_node_map
unmarshal_update_topology_cmd xs = do
  _ ← require (leb (1 + 8 * 5 + 2) (length xs)) too_short
  _ ← require (be_value (slice xs 0 1) == command_byte update_topology_cmd) wrong_type
  let addr_len = be_value (slice xs 41 43)
  _ ← require (leb (43 + addr_len) (length xs)) truncated
  (nodes, pos1) ← unmarshal_node_map xs (43 + addr_len)
  (non_votings, pos2) ← unmarshal_node_map xs pos1
  (witnesses, pos3) ← unmarshal_node_map xs pos2
  (grpc_addrs, pos4) ← unmarshal_node_map xs pos3
  ok (record {
    shard_id = be_value (slice xs 1 9);
    leader_id = be_value (slice xs 9 17);
    leader_addr = slice xs 43 (43 + addr_len);
    term = be_value (slice xs 17 25);
    epoch = be_value (slice xs 25 33);
    nodes = nodes;
    non_votings = non_votings;
    witnesses = witnesses;
    grpc_addrs = grpc_addrs;
    config_change_id = be_value (slice xs 33 41);
  })

unfoldable pub unmarshal_register_node_addr_cmd : Bytes → Result (ℕ × Bytes)
unmarshal_register_node_addr_cmd xs = do
  _ ← require (leb (1 + 8 + 2) (length xs)) too_short
  _ ← require (be_value (slice xs 0 1) == command_byte register_node_addr_cmd) wrong_type
  let addr_len = be_value (slice xs 9 11)
  _ ← require (leb (11 + addr_len) (length xs)) truncated
  ok (be_value (slice xs 1 9), slice xs 11 (11 + addr_len))
