-- ===== src/Handlers/Cluster/Info.antt =====
-- What the cluster info says of a topology, and of one that the metadata service made.
use futureq_v.Prelude.{
  ℕ, ◌≡◌, ◌≢◌, refl, Bool, false, none, ltb, ◌==◌, if◌then◌else◌, ap, List, [], ◌∷◌, map, Option,
  some, true, arith, All,
}
use futureq_v.Prelude.Result.{ok}
use futureq_v.Bytes.{Bytes}
use futureq_v.Metadata.IdMap.{IdMap, lookup_id}
use futureq_v.Metadata.Commands.{ShardTopology}
use futureq_v.Metadata.Service.{Membership, Cluster, topology_of, addr_or_empty}
use futureq_v.Handlers.Cluster.{
  NodeInfo, ClusterInfo, addr_of, if_empty, node_info, node_infos, get_cluster_info,
}

node_infos-ids :
    (topo : ShardTopology) (m : IdMap Bytes)
    → map (λ (i : NodeInfo). i.node_id) (node_infos topo m) ≡ map (λ (p : ℕ × Bytes). p.0) m
unfolding node_infos node_info
node_infos-ids topo [] = refl
node_infos-ids topo ((id, addr) ∷ m) = ap (λ (ids : List ℕ). id ∷ ids) (node_infos-ids topo m)

node_infos-All :
    (topo : ShardTopology) (P : NodeInfo → Type 0)
    → ((id : ℕ) → P (node_info topo id))
    → (m : IdMap Bytes) → All P (node_infos topo m)
unfolding node_infos
node_infos-All topo P each [] = tt
node_infos-All topo P each ((id, addr) ∷ m) = (each id, node_infos-All topo P each m)

leader_address :
    (known : Bool) (o : Option Bytes) (raft_addr : Bytes)
    → (if known then addr_or_empty o else []) ≢ []
    → if_empty (addr_of o) raft_addr ≡ (if known then addr_or_empty o else [])
leader_address true none raft_addr h = absurd (h refl)
leader_address true (some []) raft_addr h = absurd (h refl)
leader_address true (some (b ∷ bs)) raft_addr h = refl
leader_address false o raft_addr h = absurd (h refl)

module _ {S : Type 0} (cluster : Cluster S) (shard : ℕ) (m : Membership) (epoch : ℕ)
    (get : ℕ → Option ShardTopology) (info : ClusterInfo)
    (published : get shard ≡ some (topology_of cluster shard m epoch))
    (answered : get_cluster_info (some get) shard ≡ ok info) where
  abbrev topo : ShardTopology
  topo = topology_of cluster shard m epoch

  entry :
      (id : ℕ)
      → ((node_info topo id).is_leader ≡ (id == topo.leader_id))
        × ((node_info topo id).is_leader ≡ true
            → topo.leader_addr ≢ []
            → (node_info topo id).address ≡ topo.leader_addr)
  unfolding node_info topology_of
  entry id = (
    refl,
    λ l named.
        let e : id ≡ topo.leader_id = ground arith in
        rw e (
          leader_address (ltb 0 topo.leader_id) (lookup_id topo.leader_id topo.grpc_addrs)
            (addr_of (lookup_id topo.leader_id topo.nodes)) named),
  )

  -- For a topology that the metadata service made of a membership, the cluster info lists the voting
  -- nodes of this membership, each once and in its order. A node counts as the leader exactly if its id
  -- is the one that the info gives for the leader, and where the info gives an address of the leader,
  -- the entry of the leader has the same.
  pub cluster_info-leader :
      (map (λ (i : NodeInfo). i.node_id) info.nodes ≡ map (λ (p : ℕ × Bytes). p.0) m.nodes)
      × All
          (λ (i : NodeInfo).
            (i.is_leader ≡ (i.node_id == info.leader_node_id))
            × (i.is_leader ≡ true → info.leader_address ≢ [] → i.address ≡ info.leader_address))
          info.nodes
  unfolding get_cluster_info topology_of node_info
  cluster_info-leader =
      let id : info.leader_node_id ≡ topo.leader_id = ground arith in
      let a : info.leader_address ≡ topo.leader_addr = ground arith in
      let ns : info.nodes ≡ node_infos topo topo.nodes = ground arith in
      (
        ground (arith, node_infos-ids topo m.nodes),
        rw (ns, id, a) (node_infos-All topo _ entry topo.nodes),
      )
