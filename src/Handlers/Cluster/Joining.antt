-- ===== src/Handlers/Cluster/Joining.antt =====
-- What the calls of the cluster handler achieve, and what holds over any sequence of them.
use futureq_v.Prelude.{ℕ, ◌≡◌, ◌≢◌, sym, inl, List, [], ◌∷◌, some, true, arith}
use futureq_v.Prelude.Result.{ok}
use futureq_v.Bytes.{Bytes}
use futureq_v.Metadata.Commands.{metadata_shard_id}
use futureq_v.Handlers.Cluster.{
  of_error, did_not_catch_up, Response, JoinRequest, run_steps, Wait, wait_for_catch_up,
  join_cluster, leave_cluster, join_metadata,
}
use futureq_v.Handlers.Cluster.Host.{absent, non_voting, voter, NodeHost}
use futureq_v.Handlers.Cluster.Members.{
  or_reject_accepted, or_reject_keeps, IsVoter, VotesInBoth, add_non_voting-metadata, not_promoted,
  add_replica-metadata, add_replica-event, delete-metadata, wait_keeps,
}

-- The calls that brokers make.
pub data Call : Type 0 where
  join : Wait → Wait → JoinRequest → Call
  leave : ℕ → Call
  observe : JoinRequest → Call

module _ {S : Type 0} (host : NodeHost S) (event_shard : ℕ) where
  abbrev pub call : Call → S → S
  call (join w1 w2 req) s = (join_cluster (some host) event_shard w1 w2 req s).0
  call (leave node) s = (leave_cluster (some host) event_shard node s).0
  call (observe req) s = (join_metadata (some host) req s).0

  unfoldable pub run_calls : List Call → S → S
  run_calls [] s = s
  run_calls (c ∷ cs) s = run_calls cs (call c s)

  module _ (two : event_shard ≢ metadata_shard_id) where
    -- The last two steps of a join.
    promote-VotesInBoth :
        (node : ℕ) (addr : Bytes) (s : S)
        → VotesInBoth host event_shard s
        → VotesInBoth host event_shard
            (run_steps
              ((of_error, host.add_replica metadata_shard_id node addr)
                ∷ (of_error, host.add_replica event_shard node addr)
                ∷ [])
              s).0
    unfolding run_steps
    promote-VotesInBoth node addr s inv =
        let Q = VotesInBoth host event_shard in
        let r = host.add_replica metadata_shard_id node addr s in
        let i1 = add_replica-metadata host event_shard two node addr s inv in
        or_reject_keeps Q of_error r _ i1 λ promoted.
          let m : IsVoter host r.0 metadata_shard_id node =
            (addr, (host.add_replica_lem metadata_shard_id node addr s).done promoted) in
          let i2 = add_replica-event host event_shard two node addr r.0 m i1 in
          or_reject_keeps Q of_error (host.add_replica event_shard node addr r.0) _ i2 λ _. i2

    join-VotesInBoth :
        (w1 w2 : Wait) (req : JoinRequest) (s : S)
        → VotesInBoth host event_shard s
        → VotesInBoth host event_shard (join_cluster (some host) event_shard w1 w2 req s).0
    unfolding join_cluster run_steps
    join-VotesInBoth w1 w2 req s inv =
        let node = req.node_id in
        let addr = req.raft_address in
        let Q = VotesInBoth host event_shard in
        let r1 = host.add_non_voting metadata_shard_id node addr s in
        let i1 = add_non_voting-metadata host event_shard two node addr s inv in
        or_reject_keeps Q of_error r1 _ i1 λ _.
          let r2 = host.add_non_voting event_shard node addr r1.0 in
          let a2 = host.add_non_voting_lem event_shard node addr r1.0 in
          let i2 =
            not_promoted host event_shard two node (non_voting addr) r1.0 r2 a2 (λ a e. cc) i1 in
          or_reject_keeps Q of_error r2 _ i2 λ _.
            let r3 = wait_for_catch_up host w1 event_shard node r2.0 in
            let i3 = wait_keeps host event_shard two node w1 event_shard r2.0 i2 in
            or_reject_keeps Q did_not_catch_up r3 _ i3 λ _.
              let r4 = wait_for_catch_up host w2 metadata_shard_id node r3.0 in
              let i4 = wait_keeps host event_shard two node w2 metadata_shard_id r3.0 i3 in
              or_reject_keeps Q did_not_catch_up r4 _ i4 λ _. promote-VotesInBoth node addr r4.0 i4

    leave-VotesInBoth :
        (node : ℕ) (s : S)
        → VotesInBoth host event_shard s
        → VotesInBoth host event_shard (leave_cluster (some host) event_shard node s).0
    unfolding leave_cluster run_steps
    leave-VotesInBoth node s inv =
        let Q = VotesInBoth host event_shard in
        let s1 = (host.delete_replica event_shard node s).0 in
        let a = host.delete_replica_lem event_shard node s in
        let i1 =
          not_promoted host event_shard two node absent s (host.delete_replica event_shard node s) a
            (λ x e. cc) inv in
        or_reject_keeps Q of_error (host.delete_replica event_shard node s) _ i1 λ done.
          let i2 = delete-metadata host event_shard two node s1 (a.done done) i1 in
          or_reject_keeps Q of_error (host.delete_replica metadata_shard_id node s1) _ i2 λ _. i2

    observe-VotesInBoth :
        (req : JoinRequest) (s : S)
        → VotesInBoth host event_shard s
        → VotesInBoth host event_shard (join_metadata (some host) req s).0
    unfolding join_metadata run_steps
    observe-VotesInBoth req s inv =
        let i = add_non_voting-metadata host event_shard two req.node_id req.raft_address s inv in
        or_reject_keeps (VotesInBoth host event_shard) of_error
          (host.add_non_voting metadata_shard_id req.node_id req.raft_address s) _ i λ _. i

    -- Any sequence of calls of JoinCluster, LeaveCluster and JoinMetadata, whatever request fails in
    -- them, keeps this: each node that votes on the event shard votes in the metadata group, where
    -- the two are different shards.
    pub run_calls-VotesInBoth :
        (cs : List Call) (s : S)
        → VotesInBoth host event_shard s
        → VotesInBoth host event_shard (run_calls cs s)
    unfolding run_calls
    run_calls-VotesInBoth [] s inv = inv
    run_calls-VotesInBoth (join w1 w2 req ∷ cs) s inv =
        run_calls-VotesInBoth cs _ (join-VotesInBoth w1 w2 req s inv)
    run_calls-VotesInBoth (leave node ∷ cs) s inv =
        run_calls-VotesInBoth cs _ (leave-VotesInBoth node s inv)
    run_calls-VotesInBoth (observe req ∷ cs) s inv =
        run_calls-VotesInBoth cs _ (observe-VotesInBoth req s inv)

    -- A join that succeeds leaves the node a voter of both groups, under its Raft address.
    pub join_cluster_accepted :
        (w1 w2 : Wait) (req : JoinRequest) (s s' : S) (resp : Response)
        → join_cluster (some host) event_shard w1 w2 req s ≡ (s', ok resp)
        → resp.success ≡ true
        → (host.role s' event_shard req.node_id ≡ voter req.raft_address)
          × (host.role s' metadata_shard_id req.node_id ≡ voter req.raft_address)
    unfolding join_cluster run_steps
    join_cluster_accepted w1 w2 req s s' resp h t =
        let node = req.node_id in
        let addr = req.raft_address in
        let (s1, h1, k1) =
          or_reject_accepted of_error (host.add_non_voting metadata_shard_id node addr s) _ h t in
        let (s2, h2, k2) =
          or_reject_accepted of_error (host.add_non_voting event_shard node addr s1) _ k1 t in
        let (s3, h3, k3) =
          or_reject_accepted did_not_catch_up (wait_for_catch_up host w1 event_shard node s2) _ k2
            t in
        let (s4, h4, k4) =
          or_reject_accepted did_not_catch_up (wait_for_catch_up host w2 metadata_shard_id node s3)
            _ k3 t in
        let (s5, h5, k5) =
          or_reject_accepted of_error (host.add_replica metadata_shard_id node addr s4) _ k4 t in
        let (s6, h6, k6) =
          or_reject_accepted of_error (host.add_replica event_shard node addr s5) _ k5 t in
        let a5 = host.add_replica_lem metadata_shard_id node addr s4 in
        let a6 = host.add_replica_lem event_shard node addr s5 in
        ground (arith, a5.done, a6.done, a6.others metadata_shard_id node (inl λ e. two (sym e)))

    -- A node that leaves with success has no role any more in either group.
    pub leave_cluster_accepted :
        (node : ℕ) (s s' : S) (resp : Response)
        → leave_cluster (some host) event_shard node s ≡ (s', ok resp)
        → resp.success ≡ true
        → (host.role s' event_shard node ≡ absent) × (host.role s' metadata_shard_id node ≡ absent)
    unfolding leave_cluster run_steps
    leave_cluster_accepted node s s' resp h t =
        let (s1, h1, k1) =
          or_reject_accepted of_error (host.delete_replica event_shard node s) _ h t in
        let (s2, h2, k2) =
          or_reject_accepted of_error (host.delete_replica metadata_shard_id node s1) _ k1 t in
        let a1 = host.delete_replica_lem event_shard node s in
        let a2 = host.delete_replica_lem metadata_shard_id node s1 in
        ground (arith, a1.done, a2.done, a2.others event_shard node (inl two))
