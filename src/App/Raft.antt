-- ===== src/App/Raft.antt =====
-- internal/app/app.go: the start of the two Raft groups of a node, and the registration of its address.
pub mod Started
use futureq_v.Prelude.{ℕ, zero, suc, Bool, true, false, not, ◌&&◌, [], if◌then◌else◌}
use futureq_v.Prelude.Result.{Result, ok, err, panic, Error}
use futureq_v.Prelude.Method.{M, continue}
use futureq_v.Bytes.{Bytes}
use futureq_v.Config.{RaftConfig}
use futureq_v.App.Address.{grpc_advertise_addr}
use futureq_v.Metadata.Commands.{metadata_shard_id}
use futureq_v.Metadata.IdMap.{IdMap}
use futureq_v.Metadata.Service.{Cluster, Service, register_node_addr, register_shard}

-- raftconfig.Config: one group of a node.
pub record GroupConfig : Type 0 where
  pub replica_id : ℕ
  pub shard_id : ℕ
  pub election_rtt : ℕ
  pub heartbeat_rtt : ℕ
  pub check_quorum : Bool
  pub snapshot_entries : ℕ
  pub compaction_overhead : ℕ

unfoldable pub metadata_group : RaftConfig → GroupConfig
metadata_group cfg = record {
  replica_id = cfg.node_id;
  shard_id = metadata_shard_id;
  election_rtt = 10;
  heartbeat_rtt = 1;
  check_quorum = true;
  snapshot_entries = 5;
  compaction_overhead = 5;
}

unfoldable pub event_group : RaftConfig → GroupConfig
event_group cfg = record {
  replica_id = cfg.node_id;
  shard_id = cfg.cluster_id;
  election_rtt = 10;
  heartbeat_rtt = 1;
  check_quorum = true;
  snapshot_entries = cfg.snapshot_entries;
  compaction_overhead = cfg.compaction_overhead;
}

-- Dragonboat and the file system, over a state `S`: `has_raft_data` looks for the manifest of the log,
-- `remove_data` removes the data directory, and `raft_address` is that of the node host. The groups are given the members and the join flag.
pub record RaftHost (S : Type 0) : Type 0 where
  pub new_node_host : M S (Unit {0})
  pub start_metadata_group : GroupConfig → (members : IdMap Bytes) → (join : Bool) → M S (Unit {0})
  pub start_event_group : GroupConfig → (members : IdMap Bytes) → (join : Bool) → M S (Unit {0})
  pub has_raft_data : S → Bool
  pub remove_data : S → S
  pub raft_address : S → Bytes
  pub is_not_bootstrapped : Error → Bool

unfoldable pub bootstrap_members : (join has_data : Bool) → IdMap Bytes → IdMap Bytes
bootstrap_members join has_data initial = if not join && not has_data then initial else []

module _ {S : Type 0} (host : RaftHost S) where
  -- The data of a bootstrap that stopped half way is removed.
  abbrev wipe_on_error : S × Result (Unit {0}) → S × Result (Unit {0})
  wipe_on_error (s, ok u) = (s, ok u)
  wipe_on_error (s, err e) = (if host.is_not_bootstrapped e then host.remove_data s else s, err e)
  wipe_on_error (s, panic) = (s, panic)

  -- From the node host to the second group.
  unfoldable pub start_groups :
      RaftConfig → (join : Bool) → (initial : IdMap Bytes) → M S (Unit {0})
  unfolding bootstrap_members metadata_group event_group
  start_groups cfg join initial s0 = continue (host.new_node_host s0) λ _ s1.
      let members = bootstrap_members join (host.has_raft_data s1) initial in
      continue (wipe_on_error (host.start_metadata_group (metadata_group cfg) members join s1))
        λ _ s2. wipe_on_error (host.start_event_group (event_group cfg) members join s2)

module _ {S : Type 0} (cluster : Cluster S) where
  abbrev after_attempt :
      Service S × Result (Unit {0}) → M (Service S) (Unit {0}) → Service S × Result (Unit {0})
  after_attempt (s, ok u) again = (s, ok u)
  after_attempt (s, err e) again = again s
  after_attempt (s, panic) again = (s, panic)

  -- The attempts to register the address: the timer fires `ticks` times before the application's context
  -- is done.
  unfoldable pub register_with_retry :
      (ticks : ℕ) (node : ℕ) (addr : Bytes) → M (Service S) (Unit {0})
  register_with_retry zero node addr s = register_node_addr cluster node addr s
  register_with_retry (suc ticks) node addr s =
      after_attempt (register_node_addr cluster node addr s) (register_with_retry ticks node addr)

  abbrev pub on_state : M S (Unit {0}) → M (Service S) (Unit {0})
  on_state m s = let (st, r) = m s.state in (record s { state = st }, r)

  -- `listen` is the address that the server for clients listens on.
  unfoldable pub start_raft :
      RaftHost S
      → RaftConfig
      → (join : Bool) (initial : IdMap Bytes) (listen : Bytes) → (ticks : ℕ)
      → M (Service S) (Unit {0})
  unfolding start_groups register_with_retry
  start_raft host cfg join initial listen ticks s0 =
      continue (on_state (start_groups host cfg join initial) s0) λ _ s1.
        continue (s1, grpc_advertise_addr (host.raft_address s1.state) listen)
          λ addr s2.
            continue (register_with_retry ticks cfg.node_id addr s2)
              λ _ s3. (register_shard cluster cfg.cluster_id s3, ok tt)
