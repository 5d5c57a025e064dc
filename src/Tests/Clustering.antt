-- ===== src/Tests/Clustering.antt =====
-- A cluster of two shards at concrete values: nodes that join, leave and are reported.
use futureq_v.Prelude.{
  sym, ap, ◌∙◌, map, false, ℕ, ◌≡◌, ◌≢◌, refl, inl, inr, [], ◌∷◌, Option, none, some, true, ◌==◌,
  ◌&&◌, if◌then◌else◌, arith, All,
}
use futureq_v.Prelude.Result.{Result, ok, err, panic, engine}
use futureq_v.Prelude.Method.{M}
use futureq_v.Bytes.{Bytes}
use futureq_v.Metadata.Commands.{ShardTopology}
use futureq_v.Metadata.IdMap.{lookup_id, copy_into}
use futureq_v.Metadata.Service.{Cluster, Membership, topology_of}
use futureq_v.Handlers.Cluster.{
  wait_for_catch_up, JoinRequest, accepted, Wait, deadline, join_cluster, leave_cluster, run_steps,
  NodeInfo, ClusterInfo, get_cluster_info, node_infos, node_info,
}
use futureq_v.Handlers.Cluster.Host.{Role, absent, non_voting, voter, Applies, NodeHost}
use futureq_v.Handlers.Cluster.Members.{VotesInBoth}
use futureq_v.Handlers.Cluster.Joining.{
  join, leave, run_calls, run_calls-VotesInBoth, join_cluster_accepted, leave_cluster_accepted,
}
use futureq_v.Handlers.Cluster.Info.{cluster_info-leader}
use futureq_v.Handlers.Cluster.CatchUp.{Answers, join_cluster_succeeds}

-- A node host that is the table of the roles, in which every request succeeds at once.
abbrev pub Table : Type 0
Table = ℕ → ℕ → Role

abbrev set_role : ℕ → ℕ → Role → Table → Table
set_role shard node new t sh nd = if sh == shard && nd == node then new else t sh nd

pub set_role_lem :
    (shard node : ℕ) (new : Role) (t : Table) (r : Result (Unit {0}))
    → Applies (λ (x : Table). x) shard node new t (set_role shard node new t, r)
set_role_lem shard node new t r = record {
  others = λ sh nd h. ground arith;
  here = inl (ground arith);
  done = λ h. ground arith;
}

abbrev request_non_voting : (shard node : ℕ) → Bytes → Role → M Table (Unit {0})
request_non_voting shard node addr (voter a) t = (t, err (engine 1))
request_non_voting shard node addr absent t = (set_role shard node (non_voting addr) t, ok tt)
request_non_voting shard node addr (non_voting a) t =
    (set_role shard node (non_voting addr) t, ok tt)

pub request_non_voting_lem :
    (shard node : ℕ) (addr : Bytes) (old : Role) (t : Table)
    → Applies
        (λ (x : Table). x)
        shard
        node
        (non_voting addr)
        t
        (request_non_voting shard node addr old t)
request_non_voting_lem shard node addr (voter a) t = record {
  others = λ sh nd h. refl;
  here = inr refl;
  done = λ h. cc;
}
request_non_voting_lem shard node addr absent t =
    set_role_lem shard node (non_voting addr) t (ok tt)
request_non_voting_lem shard node addr (non_voting a) t =
    set_role_lem shard node (non_voting addr) t (ok tt)

abbrev address_of : Role → Option Bytes
address_of absent = none
address_of (non_voting a) = some a
address_of (voter a) = none

abbrev answer : Result (ℕ → Option Bytes) → ℕ → Option Bytes
answer (ok f) = f
answer (err e) = λ _. none
answer panic = λ _. none

abbrev pub table_host : NodeHost Table
table_host = record {
  add_non_voting = λ shard node addr t. request_non_voting shard node addr (t shard node) t;
  add_replica = λ shard node addr t. (set_role shard node (voter addr) t, ok tt);
  delete_replica = λ shard node t. (set_role shard node absent t, ok tt);
  get_non_votings = λ shard t. (t, ok (λ node. address_of (t shard node)));
  role = λ t. t;
  add_non_voting_lem = λ shard node addr t. request_non_voting_lem shard node addr (t shard node) t;
  voter_stays = λ shard node addr a t h. rw h h;
  add_replica_lem = λ shard node addr t. set_role_lem shard node (voter addr) t (ok tt);
  delete_replica_lem = λ shard node t. set_role_lem shard node absent t (ok tt);
  query_keeps = λ shard t sh nd. refl;
  query_finds = λ shard node s s' m a q h.
      sym (ap (λ (r : Table × Result (ℕ → Option Bytes)). answer r.1 node) q) ∙ ap address_of h;
}

table_host-Answers : Answers table_host
table_host-Answers = record {
  adds_non_voting = λ shard node addr t h. joins shard node addr (t shard node) t h;
  adds_replica = λ shard node addr t. refl;
  answers = λ shard t. ((λ node. address_of (t shard node)), refl);
}
  where
    joins :
        (shard node : ℕ) (addr : Bytes) (old : Role) (t : Table)
        → ((a : Bytes) → old ≢ voter a)
        → (request_non_voting shard node addr old t).1 ≡ ok tt
    joins shard node addr absent t h = refl
    joins shard node addr (non_voting a) t h = refl
    joins shard node addr (voter a) t h = absurd (h a refl)

abbrev pub nobody : Table
nobody shard node = absent

abbrev pub two_ticks : Wait
two_ticks = record { ticks = 2; ending = deadline }

abbrev pub seventh : JoinRequest
seventh = record { node_id = 7; raft_address = b'r' ∷ [] }

abbrev pub joined : Table
joined = (join_cluster (some table_host) 1 two_ticks two_ticks seventh nobody).0

nobody-VotesInBoth : VotesInBoth table_host 1 nobody
nobody-VotesInBoth node (a, v) = cc

run_calls-VotesInBoth_example :
    VotesInBoth table_host 1
      (run_calls table_host 1 (join two_ticks two_ticks seventh ∷ leave 7 ∷ []) nobody)
run_calls-VotesInBoth_example =
    run_calls-VotesInBoth table_host 1 (omega arith)
      (join two_ticks two_ticks seventh ∷ leave 7 ∷ []) nobody nobody-VotesInBoth

pub join_runs :
    join_cluster (some table_host) 1 two_ticks two_ticks seventh nobody ≡ (joined, ok accepted)
unfolding join_cluster wait_for_catch_up run_steps
join_runs = refl

join_cluster_accepted_example : (joined 1 7 ≡ voter (b'r' ∷ [])) × (joined 0 7 ≡ voter (b'r' ∷ []))
join_cluster_accepted_example =
    join_cluster_accepted table_host 1 (omega arith) two_ticks two_ticks seventh nobody joined
      accepted join_runs refl

join_cluster_succeeds_example :
    (join_cluster (some table_host) 1 two_ticks two_ticks seventh nobody).1 ≡ ok accepted
join_cluster_succeeds_example =
    join_cluster_succeeds table_host 1 (omega arith) two_ticks two_ticks seventh nobody
      table_host-Answers (omega arith) (omega arith) (λ a e. cc) (λ a e. cc)

abbrev pub left : Table
left = (leave_cluster (some table_host) 1 7 joined).0

pub leave_runs : leave_cluster (some table_host) 1 7 joined ≡ (left, ok accepted)
unfolding leave_cluster run_steps
leave_runs = refl

leave_cluster_accepted_example : (left 1 7 ≡ absent) × (left 0 7 ≡ absent)
leave_cluster_accepted_example =
    leave_cluster_accepted table_host 1 (omega arith) 7 joined left accepted leave_runs refl

-- ── the info ──

abbrev pub one_leader : Cluster (Unit {0})
one_leader = record {
  membership = λ shard. err (engine 0);
  leader = λ shard. ok (7, 1, true);
  get_grpc_addrs = some ((7, b'g' ∷ []) ∷ []);
  propose = λ cmd s. (s, ok tt);
}

abbrev three_nodes : Membership
three_nodes = record {
  config_change_id = 3;
  nodes = (6, b'q' ∷ []) ∷ (7, b'r' ∷ []) ∷ [];
  non_votings = (8, b's' ∷ []) ∷ [];
  witnesses = [];
}

abbrev latest : ℕ → Option ShardTopology
latest shard = some (topology_of one_leader shard three_nodes 5)

abbrev reported : ClusterInfo
reported = record {
  leader_node_id = 7;
  leader_address = b'g' ∷ [];
  nodes =
      record { node_id = 6; address = b'q' ∷ []; is_leader = false; is_alive = true }
      ∷ record { node_id = 7; address = b'g' ∷ []; is_leader = true; is_alive = true }
      ∷ [];
}

report_runs : get_cluster_info (some latest) 1 ≡ ok reported
unfolding get_cluster_info topology_of node_infos node_info lookup_id copy_into
report_runs = refl

cluster_info-leader_example :
    (map (λ (i : NodeInfo). i.node_id) reported.nodes ≡ 6 ∷ 7 ∷ [])
    × All
        (λ (i : NodeInfo).
          (i.is_leader ≡ (i.node_id == 7))
          × (i.is_leader ≡ true → reported.leader_address ≢ [] → i.address ≡ b'g' ∷ []))
        reported.nodes
cluster_info-leader_example =
    cluster_info-leader one_leader 1 three_nodes 5 latest reported refl report_runs
