-- ===== src/App/Raft/Started.antt =====
-- What a start of the Raft groups has done when it returns.
use futureq_v.Prelude.{ℕ, zero, suc, ◌<◌, ◌^◌, ◌≡◌, refl, sym, ap, ◌∙◌, Bool, some, arith, length}
use futureq_v.Prelude.Result.{Result, ok, err, panic, Error}
use futureq_v.Prelude.Method.{M, continue-eq_ok}
use futureq_v.Bytes.{Bytes, IsU64}
use futureq_v.Metadata.IdMap.{IdMap, lookup_id, lookup_id-insert_id}
use futureq_v.Metadata.Commands.{unmarshal_register_node_addr_cmd}
use futureq_v.Metadata.Commands.Encoding.{
  encode_register_node_addr, marshal_register_node_addr_cmd_lem,
}
use futureq_v.Metadata.Commands.RoundTrip.{unmarshal-marshal_register}
use futureq_v.Metadata.StateMachine.{MetadataStateMachine, update}
use futureq_v.Metadata.Service.{Cluster, Service, register_node_addr, register_shard}
use futureq_v.Metadata.Service.Published.{register_shard-shards}
use futureq_v.Config.{RaftConfig}
use futureq_v.App.Address.{grpc_advertise_addr}
use futureq_v.App.Raft.{
  RaftHost, start_groups, after_attempt, register_with_retry, on_state, start_raft,
}

-- A replica that applies the command of a registration knows the node's address.
registered :
    (node : ℕ) (addr : Bytes) (sm : MetadataStateMachine)
    → IsU64 node
    → length addr < 2 ^ 16
    → lookup_id node (update (encode_register_node_addr node addr) sm).0.grpc_addrs ≡ some addr
unfolding update encode_register_node_addr
registered node addr sm hn ha =
    let decoded : unmarshal_register_node_addr_cmd (encode_register_node_addr node addr)
        ≡ ok (node, addr) =
      rw (marshal_register_node_addr_cmd_lem node addr) at
        (unmarshal-marshal_register node addr hn ha) in
    rw decoded (lookup_id-insert_id node node addr sm.grpc_addrs ∙ ground arith)

module _ {S : Type 0} (cluster : Cluster S) where
  -- Attempts to register that failed, one after the other.
  pub data FailedAttempts (node : ℕ) (addr : Bytes) : Service S → Service S → Type 0 where
    none_failed : {s : Service S} → FailedAttempts node addr s s
    one_failed :
        {s s1 s2 : Service S} {e : Error}
        → register_node_addr cluster node addr s ≡ (s1, err e)
        → FailedAttempts node addr s1 s2
        → FailedAttempts node addr s s2

  -- The attempts that failed, and the one that did not.
  abbrev Registers : ℕ → Bytes → Service S → Service S → Type 0
  Registers node addr s s' =
      (s2 : Service S) × FailedAttempts node addr s s2
      × (register_node_addr cluster node addr s2 ≡ (s', ok tt))

  attempt-Registers :
      (node : ℕ) (addr : Bytes) (s s' : Service S) (r : Service S × Result (Unit {0}))
      (again : M (Service S) (Unit {0}))
      → register_node_addr cluster node addr s ≡ r
      → ((s1 : Service S) → again s1 ≡ (s', ok tt) → Registers node addr s1 s')
      → after_attempt cluster r again ≡ (s', ok tt)
      → Registers node addr s s'
  attempt-Registers node addr s s' (s1, ok u) again e later k = (s, none_failed, e ∙ k)
  attempt-Registers node addr s s' (s1, err x) again e later k =
      let (s2, failed, last) = later s1 k in (s2, one_failed e failed, last)
  attempt-Registers node addr s s' (s1, panic) again e later k = cc

  register_with_retry-Registers :
      (ticks node : ℕ) (addr : Bytes) (s s' : Service S)
      → register_with_retry cluster ticks node addr s ≡ (s', ok tt)
      → Registers node addr s s'
  unfolding register_with_retry
  register_with_retry-Registers zero node addr s s' h = (s, none_failed, h)
  register_with_retry-Registers (suc ticks) node addr s s' h =
      attempt-Registers node addr s s' (register_node_addr cluster node addr s)
        (register_with_retry cluster ticks node addr) refl
        (λ s1 k. register_with_retry-Registers ticks node addr s1 s' k) h

  proposed :
      (node : ℕ) (addr : Bytes) (s s' : Service S)
      → register_node_addr cluster node addr s ≡ (s', ok tt)
      → cluster.propose (encode_register_node_addr node addr) s.state ≡ (s'.state, ok tt)
  unfolding register_node_addr
  proposed node addr s s' h =
      let k = rw (marshal_register_node_addr_cmd_lem node addr) at h in
      let r = cluster.propose (encode_register_node_addr node addr) s.state in
      let state : r.0 ≡ s'.state = ap (λ (x : Service S × Result (Unit {0})). x.0.state) k in
      let result : r.1 ≡ ok tt = ap (λ (x : Service S × Result (Unit {0})). x.1) k in ground arith

  -- A start that succeeds has started the groups and computed the address for clients from the node
  -- host's Raft address and the port of the server. After attempts that failed, the metadata group has
  -- then accepted one command, and each replica that applies this command knows the node under that
  -- address; then the event shard was registered with the metadata service, which tracks it. The id
  -- of the node is a uint64, and the addresses computed are shorter than 64 KiB.
  pub start_raft_ok :
      (host : RaftHost S) (cfg : RaftConfig) (join : Bool) (initial : IdMap Bytes) (listen : Bytes)
      (ticks : ℕ) (sm : MetadataStateMachine) (s s' : Service S)
      → IsU64 cfg.node_id
      → ((st : S) (a : Bytes)
          → grpc_advertise_addr (host.raft_address st) listen ≡ ok a
          → length a < 2 ^ 16)
      → start_raft cluster host cfg join initial listen ticks s ≡ (s', ok tt)
      → (s1 : Service S) × (s2 : Service S) × (s3 : Service S) × (addr : Bytes) × (cmd : Bytes)
        × (on_state cluster (start_groups host cfg join initial) s ≡ (s1, ok tt))
        × (grpc_advertise_addr (host.raft_address s1.state) listen ≡ ok addr)
        × FailedAttempts cfg.node_id addr s1 s2
        × (cluster.propose cmd s2.state ≡ (s3.state, ok tt))
        × (lookup_id cfg.node_id (update cmd sm).0.grpc_addrs ≡ some addr)
        × (s' ≡ register_shard cluster cfg.cluster_id s3)
        × (lookup_id cfg.cluster_id s'.shards ≡ some tt)
  unfolding start_raft
  start_raft_ok host cfg join initial listen ticks sm s s' hn short h =
      let (s1, _, h1, k1) =
        continue-eq_ok (on_state cluster (start_groups host cfg join initial) s) _ h in
      let (s1', addr, h2, k2) =
        continue-eq_ok (s1, grpc_advertise_addr (host.raft_address s1.state) listen) _ k1 in
      let (s3, _, h3, k3) =
        continue-eq_ok (register_with_retry cluster ticks cfg.node_id addr s1') _ k2 in
      let same : s1' ≡ s1 = ap (λ (x : Service S × Result Bytes). x.0) (sym h2) in
      let computed : grpc_advertise_addr (host.raft_address s1.state) listen ≡ ok addr =
        ap (λ (x : Service S × Result Bytes). x.1) h2 in
      let (s2, failed, last) =
        register_with_retry-Registers ticks cfg.node_id addr s1 s3
          (ap (register_with_retry cluster ticks cfg.node_id addr) (sym same) ∙ h3) in
      let ended : register_shard cluster cfg.cluster_id s3 ≡ s' =
        ap (λ (x : Service S × Result (Unit {0})). x.0) k3 in
      (
        s1,
        s2,
        s3,
        addr,
        encode_register_node_addr cfg.node_id addr,
        h1,
        computed,
        failed,
        proposed cfg.node_id addr s2 s3 last,
        registered cfg.node_id addr sm hn (short s1.state addr computed),
        sym ended,
        ap (λ (x : Service S). lookup_id cfg.cluster_id x.shards) (sym ended)
            ∙ register_shard-shards cluster cfg.cluster_id s3,
      )
