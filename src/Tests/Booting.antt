-- ===== src/Tests/Booting.antt =====
-- A node that starts, joins and stops, at concrete values.
use futureq_v.Prelude.{◌≡◌, refl, [], ◌∷◌, ◌++◌, some, true, false, arith}
use futureq_v.Prelude.Result.{ok}
use futureq_v.Bytes.{Bytes}
use futureq_v.Config.{RaftConfig}
use futureq_v.Metadata.IdMap.{IdMap, lookup_id, insert_id}
use futureq_v.Metadata.Service.{Service, register_node_addr, register_shard, publish_topology}
use futureq_v.Metadata.StateMachine.{update, new_metadata_state_machine}
use futureq_v.Metadata.Commands.{marshal_register_node_addr_cmd}
use futureq_v.Handlers.Cluster.{join_cluster, leave_cluster}
use futureq_v.Handlers.Cluster.Host.{voter}
use futureq_v.App.Raft.{RaftHost, on_state, start_groups, start_raft, register_with_retry}
use futureq_v.App.Raft.Started.{start_raft_ok, FailedAttempts}
use futureq_v.App.Joining.{Seeds, join_if_requested, join_via, leave_run}
use futureq_v.App.Joining.Joined.{join_if_requested_voter}
use futureq_v.App.Address.{
  split_host_port, join_host_port, grpc_advertise_addr, index_of, last_index_of,
}
use futureq_v.App.Address.Advertised.{IsAddress, split_host_port-join, grpc_advertise_addr_lem}
use futureq_v.Tests.Clustering.{
  Table, table_host, nobody, two_ticks, seventh, joined, join_runs, left, leave_runs, one_leader,
}

-- ── Raft ──

abbrev raft : RaftConfig
raft = record {
  enabled = true;
  node_id = 7;
  cluster_id = 3;
  rtt_millisecond = 200;
  snapshot_entries = 10;
  compaction_overhead = 5;
  listen_address = [];
}

abbrev members : IdMap Bytes
members = (1, b'r' ∷ []) ∷ []

abbrev working_host : RaftHost (Unit {0})
working_host = record {
  new_node_host = λ s. (s, ok tt);
  start_metadata_group = λ cfg given join s. (s, ok tt);
  start_event_group = λ cfg given join s. (s, ok tt);
  has_raft_data = λ s. false;
  remove_data = λ s. s;
  is_not_bootstrapped = λ e. false;
  raft_address = λ s. b'f' ∷ b':' ∷ b'8' ∷ [];
}

abbrev service : Service (Unit {0})
service = record { epoch = 0; shards = []; state = tt }

abbrev running : Service (Unit {0})
running = record service { shards = (3, tt) ∷ [] }

abbrev listening : Bytes
listening = b':' ∷ b'9' ∷ []

announced : grpc_advertise_addr (b'f' ∷ b':' ∷ b'8' ∷ []) listening ≡ ok (b'f' ∷ b':' ∷ b'9' ∷ [])
unfolding grpc_advertise_addr split_host_port join_host_port index_of last_index_of
announced = refl

start_raft_runs :
    start_raft one_leader working_host raft false members listening 1 service ≡ (running, ok tt)
unfolding start_raft start_groups register_with_retry register_node_addr
    marshal_register_node_addr_cmd register_shard insert_id publish_topology grpc_advertise_addr
    split_host_port join_host_port index_of last_index_of
start_raft_runs = refl

start_raft_ok_example :
    (s1 : Service (Unit {0})) × (s2 : Service (Unit {0})) × (s3 : Service (Unit {0}))
    × (addr : Bytes) × (cmd : Bytes) × (on_state one_leader
          (start_groups working_host raft false members)
          service
        ≡ (s1, ok tt))
    × (grpc_advertise_addr (b'f' ∷ b':' ∷ b'8' ∷ []) listening ≡ ok addr)
    × FailedAttempts one_leader 7 addr s1 s2
    × (one_leader.propose cmd s2.state ≡ (s3.state, ok tt))
    × (lookup_id 7 (update cmd new_metadata_state_machine).0.grpc_addrs ≡ some addr)
    × (running ≡ register_shard one_leader 3 s3)
    × (lookup_id 3 running.shards ≡ some tt)
start_raft_ok_example =
    start_raft_ok one_leader working_host raft false members listening 1 new_metadata_state_machine
      service running (omega arith) (λ st a h. ground (arith, announced, h)) start_raft_runs

-- ── joining and leaving ──

abbrev table_seeds : Seeds Table
table_seeds = record {
  connect = λ seed. ok tt;
  join_cluster = λ seed req s. join_cluster (some table_host) 1 two_ticks two_ticks req s;
  leave_cluster = λ seed node s. leave_cluster (some table_host) 1 node s;
}

joining_runs :
    join_if_requested table_seeds true false ((b's' ∷ []) ∷ []) seventh nobody ≡ (joined, ok true)
unfolding join_if_requested join_via
joining_runs = rw join_runs refl

join_if_requested_voter_example :
    (false ≡ false) × (joined 1 7 ≡ voter (b'r' ∷ [])) × (joined 0 7 ≡ voter (b'r' ∷ []))
join_if_requested_voter_example =
    join_if_requested_voter table_seeds table_host 1 (omega arith)
      (λ seed req s s' resp h. (two_ticks, two_ticks, h)) true false ((b's' ∷ []) ∷ []) seventh
      nobody joined joining_runs

leaving_runs : leave_run table_seeds true (b's' ∷ []) 7 joined ≡ (left, ok tt)
unfolding leave_run
leaving_runs = rw leave_runs refl

-- ── addresses ──

abbrev host_name : Bytes
host_name = b'f' ∷ b':' ∷ b'1' ∷ []

host_name-IsAddress : IsAddress host_name (b'8' ∷ [])
unfolding index_of
host_name-IsAddress = record {
  host_left = refl;
  host_right = refl;
  port_left = refl;
  port_right = refl;
  port_colon = refl;
}

listen-IsAddress : IsAddress [] (b'9' ∷ [])
unfolding index_of
listen-IsAddress = record {
  host_left = refl;
  host_right = refl;
  port_left = refl;
  port_right = refl;
  port_colon = refl;
}

split_host_port-join_example :
    split_host_port (join_host_port host_name (b'8' ∷ [])) ≡ some (host_name, b'8' ∷ [])
split_host_port-join_example = split_host_port-join host_name (b'8' ∷ []) host_name-IsAddress

grpc_advertise_addr_lem_example :
    grpc_advertise_addr (b'[' ∷ host_name ++ b']' ∷ b':' ∷ b'8' ∷ []) (b':' ∷ b'9' ∷ [])
    ≡ ok (b'[' ∷ host_name ++ b']' ∷ b':' ∷ b'9' ∷ [])
unfolding join_host_port index_of
grpc_advertise_addr_lem_example =
    grpc_advertise_addr_lem host_name (b'8' ∷ []) [] (b'9' ∷ []) host_name-IsAddress
      listen-IsAddress
