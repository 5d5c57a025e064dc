-- ===== src/Handlers/Cluster/CatchUp.antt =====
-- When the wait of a join ends, and what a join takes for a node that has caught up.
use futureq_v.Prelude.{
  ap, Option-cases, ℕ, zero, suc, ◌<◌, ◌≡◌, ◌≢◌, refl, sym, ◌∙◌, inl, inr, Option, some, arith,
}
use futureq_v.Prelude.Result.{Result, ok, err, panic, Error}
use futureq_v.Prelude.Method.{M}
use futureq_v.Bytes.{Bytes}
use futureq_v.Metadata.Commands.{metadata_shard_id}
use futureq_v.Handlers.Cluster.{
  ErrorMessage, Response, accepted, did_not_catch_up, JoinRequest, or_reject, run_steps, Ending,
  Wait, poll, after_query, wait_for_catch_up, join_cluster, of_error,
}
use futureq_v.Handlers.Cluster.Host.{non_voting, voter, NodeHost}
use futureq_v.Handlers.Cluster.Members.{wait-role}

module _ {S : Type 0} (host : NodeHost S) where
  -- Some query about the shard answered with the node among the non-voting members.
  abbrev pub WasListed : ℕ → ℕ → Type 0
  WasListed shard node =
      (s1 : S) × (s2 : S) × (m : ℕ → Option Bytes) × (a : Bytes) × (host.get_non_votings shard s1
        ≡ (s2, ok m))
      × (m node ≡ some a)

  tick_listed :
      (shard node : ℕ) (s s' : S) (r : S × Result (ℕ → Option Bytes)) (again : M S (Unit {0}))
      → host.get_non_votings shard s ≡ r
      → ((s1 : S) → again s1 ≡ (s', ok tt) → WasListed shard node)
      → after_query node r again ≡ (s', ok tt)
      → WasListed shard node
  tick_listed shard node s s' (s1, ok m) again e later h = elim (Option-cases (m node)) [
    | inl missing ↦ later s1 (rw missing at h)
    | inr (a, ea) ↦ (s, s1, m, a, e, ea)
  ]
  tick_listed shard node s s' (s1, err x) again e later h = later s1 h
  tick_listed shard node s s' (s1, panic) again e later h = cc

  poll_listed :
      (n : ℕ) (ending : Ending) (shard node : ℕ) (s s' : S)
      → poll host n ending shard node s ≡ (s', ok tt)
      → WasListed shard node
  unfolding poll
  poll_listed zero ending shard node s s' h = cc
  poll_listed (suc n) ending shard node s s' h =
      tick_listed shard node s s' (host.get_non_votings shard s)
        (λ s1. poll host n ending shard node s1) refl
        (λ s1 k. poll_listed n ending shard node s1 s' k) h

  wait_listed :
      (w : Wait) (shard node : ℕ) (s s' : S)
      → wait_for_catch_up host w shard node s ≡ (s', ok tt)
      → WasListed shard node
  unfolding wait_for_catch_up
  wait_listed w shard node s s' h = poll_listed w.ticks w.ending shard node s s' h

  -- The wait for a non-voting member ends with success at the first tick whose query is answered.
  poll_found :
      (n : ℕ) (ending : Ending) (shard node : ℕ) (a : Bytes) (s s1 : S) (m : ℕ → Option Bytes)
      → host.role s shard node ≡ non_voting a
      → host.get_non_votings shard s ≡ (s1, ok m)
      → poll host (suc n) ending shard node s ≡ (s1, ok tt)
  unfolding poll
  poll_found n ending shard node a s s1 m h q =
      rw (q, host.query_finds shard node s s1 m a q h) refl

  -- A node host that refuses nothing but to make a voter a non-voting member.
  pub record Answers : Type 0 where
    pub adds_non_voting :
        (shard node : ℕ) (addr : Bytes) (s : S)
        → ((a : Bytes) → host.role s shard node ≢ voter a)
        → (host.add_non_voting shard node addr s).1 ≡ ok tt
    pub adds_replica :
        (shard node : ℕ) (addr : Bytes) (s : S) → (host.add_replica shard node addr s).1 ≡ ok tt
    pub answers :
        (shard : ℕ) (s : S) → (m : ℕ → Option Bytes) × ((host.get_non_votings shard s).1 ≡ ok m)

  poll_ok :
      Answers
      → (n : ℕ) (ending : Ending) (shard node : ℕ) (a : Bytes) (s : S) → 0 < n
      → host.role s shard node ≡ non_voting a
      → (poll host n ending shard node s).1 ≡ ok tt
  poll_ok known zero ending shard node a s h r = absurd (omega arith)
  poll_ok known (suc n) ending shard node a s h r =
      let (m, q) = known.answers shard s in
      let pair : host.get_non_votings shard s ≡ ((host.get_non_votings shard s).0, ok m) =
        ground arith in
      ap (λ (x : S × Result (Unit {0})). x.1)
        (poll_found n ending shard node a s (host.get_non_votings shard s).0 m r pair)

  wait_ok :
      Answers
      → (w : Wait) (shard node : ℕ) (a : Bytes) (s : S) → 0 < w.ticks
      → host.role s shard node ≡ non_voting a
      → (wait_for_catch_up host w shard node s).1 ≡ ok tt
  unfolding wait_for_catch_up
  wait_ok known w = poll_ok known w.ticks w.ending

  or_reject_ok :
      (message : Error → ErrorMessage) (r : S × Result (Unit {0})) (rest : M S Response)
      → r.1 ≡ ok tt
      → or_reject message r rest ≡ rest r.0
  or_reject_ok message (s, ok u) rest h = refl
  or_reject_ok message (s, err e) rest h = cc
  or_reject_ok message (s, panic) rest h = cc

  -- A node that votes on neither group joins with success where Dragonboat applies each request and
  -- answers each query, if each of the two waits sees one tick: being listed is all that is asked.
  pub join_cluster_succeeds :
      (event_shard : ℕ)
      → event_shard ≢ metadata_shard_id
      → (w1 w2 : Wait) (req : JoinRequest) (s : S) → Answers
      → 0 < w1.ticks
      → 0 < w2.ticks
      → ((a : Bytes) → host.role s metadata_shard_id req.node_id ≢ voter a)
      → ((a : Bytes) → host.role s event_shard req.node_id ≢ voter a)
      → (join_cluster (some host) event_shard w1 w2 req s).1 ≡ ok accepted
  unfolding join_cluster run_steps
  join_cluster_succeeds event_shard two w1 w2 req s known h1 h2 v1 v2 =
      let node = req.node_id in
      let addr = req.raft_address in
      let r1 = host.add_non_voting metadata_shard_id node addr s in
      let e1 = known.adds_non_voting metadata_shard_id node addr s v1 in
      let a1 = host.add_non_voting_lem metadata_shard_id node addr s in
      let same1 = a1.others event_shard node (inl two) in
      let r2 = host.add_non_voting event_shard node addr r1.0 in
      let e2 = known.adds_non_voting event_shard node addr r1.0 (λ a e. v2 a (sym same1 ∙ e)) in
      let a2 = host.add_non_voting_lem event_shard node addr r1.0 in
      let r3 = wait_for_catch_up host w1 event_shard node r2.0 in
      let e3 = wait_ok known w1 event_shard node addr r2.0 h1 (a2.done e2) in
      let listed =
        wait-role host w1 event_shard node r2.0 metadata_shard_id node
        ∙ a2.others metadata_shard_id node (inl λ e. two (sym e))
        ∙ a1.done e1 in
      let r4 = wait_for_catch_up host w2 metadata_shard_id node r3.0 in
      let e4 = wait_ok known w2 metadata_shard_id node addr r3.0 h2 listed in
      let r5 = host.add_replica metadata_shard_id node addr r4.0 in
      let e5 = known.adds_replica metadata_shard_id node addr r4.0 in
      let e6 = known.adds_replica event_shard node addr r5.0 in
      rw
        (
          or_reject_ok of_error r1 _ e1,
          or_reject_ok of_error r2 _ e2,
          or_reject_ok did_not_catch_up r3 _ e3,
          or_reject_ok did_not_catch_up r4 _ e4,
          or_reject_ok of_error r5 _ e5,
          or_reject_ok of_error (host.add_replica event_shard node addr r5.0) _ e6,
        )
        refl
