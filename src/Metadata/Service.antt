-- ===== src/Metadata/Service.antt =====
-- pkg/raft/metadata/service.go: the service that publishes the topology of a shard whenever Dragonboat
-- reports a change of it. The other events are ignored; log lines are left out.
pub mod Published
use futureq_v.Prelude.{
  ℕ, ◌+◌, ◌%◌, ◌^◌, List, [], ◌∷◌, map, Bool, true, false, not, Option, none, some, ltb, ◌==◌,
  if◌then◌else◌,
}
use futureq_v.Prelude.Result.{Result, ok, err, panic}
use futureq_v.Prelude.Method.{M}
use futureq_v.Bytes.{Bytes}
use futureq_v.Metadata.IdMap.{IdMap, lookup_id, insert_id, copy_into}
use futureq_v.Metadata.Commands.{
  ShardTopology, metadata_shard_id, marshal_update_topology_cmd, marshal_register_node_addr_cmd,
}

-- Dragonboat's membership of a shard.
pub record Membership : Type 0 where
  pub config_change_id : ℕ
  pub nodes : IdMap Bytes
  pub non_votings : IdMap Bytes
  pub witnesses : IdMap Bytes

-- What Dragonboat answers, and the source of addresses if it is set: the leader of a shard comes with
-- its term and its validity. `propose` changes a state `S`.
pub record Cluster (S : Type 0) : Type 0 where
  pub membership : ℕ → Result Membership
  pub leader : ℕ → Result (ℕ × ℕ × Bool)
  pub get_grpc_addrs : Option (IdMap Bytes)
  pub propose : Bytes → M S (Unit {0})

-- The service beside the state that proposals change.
pub record Service (S : Type 0) : Type 0 where
  pub epoch : ℕ
  pub shards : IdMap (Unit {0})
  pub state : S

abbrev pub leader_or_none : Result (ℕ × ℕ × Bool) → ℕ × ℕ
leader_or_none (ok (id, term, valid)) = if not valid then (0, 0) else (id, term)
leader_or_none (err e) = (0, 0)
leader_or_none panic = (0, 0)

abbrev addrs_or_nil : Option (IdMap Bytes) → IdMap Bytes
addrs_or_nil none = []
addrs_or_nil (some m) = copy_into [] m

abbrev pub addr_or_empty : Option Bytes → Bytes
addr_or_empty none = []
addr_or_empty (some a) = a

module _ {S : Type 0} (cluster : Cluster S) where
  unfoldable pub topology_of : ℕ → Membership → ℕ → ShardTopology
  topology_of shard m epoch =
      let (leader, term) = leader_or_none (cluster.leader shard) in
      let addrs = addrs_or_nil cluster.get_grpc_addrs in
      record {
        shard_id = shard;
        leader_id = leader;
        leader_addr = if ltb 0 leader then addr_or_empty (lookup_id leader addrs) else [];
        term = term;
        epoch = epoch;
        config_change_id = m.config_change_id;
        nodes = m.nodes;
        non_votings = m.non_votings;
        witnesses = m.witnesses;
        grpc_addrs = addrs;
      }

  -- The errors of the encoder and of the proposal are logged.
  abbrev propose_topology : Result Bytes → Service S → Service S
  propose_topology (ok cmd) s = record s { state = (cluster.propose cmd s.state).0 }
  propose_topology (err e) s = s
  propose_topology panic s = s

  abbrev publish_membership : Result Membership → ℕ → Service S → Service S
  publish_membership (ok m) shard s =
      let epoch = (s.epoch + 1) % 2 ^ 64 in
      propose_topology (marshal_update_topology_cmd (topology_of shard m epoch))
        (record s { epoch = epoch })
  publish_membership (err e) shard s = s
  publish_membership panic shard s = s

  unfoldable pub publish_topology : ℕ → Service S → Service S
  unfolding topology_of
  publish_topology shard s = publish_membership (cluster.membership shard) shard s

  -- `LeaderUpdated`, `MembershipChanged` and `NodeReady` do the same.
  unfoldable pub shard_changed : ℕ → Service S → Service S
  shard_changed shard s =
      if shard == metadata_shard_id
      then s
      else publish_topology shard (record s { shards = insert_id shard tt s.shards })

  unfoldable pub node_deleted : ℕ → Service S → Service S
  node_deleted shard s = if shard == metadata_shard_id then s else publish_topology shard s

  publish_all : List ℕ → Service S → Service S
  publish_all [] s = s
  publish_all (id ∷ ids) s = publish_all ids (publish_topology id s)

  unfoldable pub refresh_all : Service S → Service S
  unfolding publish_all
  refresh_all s = publish_all (map (λ p. p.0) s.shards) s

  unfoldable pub register_shard : ℕ → Service S → Service S
  register_shard shard s =
      publish_topology shard (record s { shards = insert_id shard tt s.shards })

  abbrev propose_registration : Result Bytes → M S (Unit {0})
  propose_registration (ok cmd) st = cluster.propose cmd st
  propose_registration (err e) st = (st, err e)
  propose_registration panic st = (st, panic)

  unfoldable pub register_node_addr : ℕ → Bytes → M (Service S) (Unit {0})
  register_node_addr node addr s =
      let (st, r) = propose_registration (marshal_register_node_addr_cmd node addr) s.state in
      (record s { state = st }, r)
