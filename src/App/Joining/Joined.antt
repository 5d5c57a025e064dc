-- ===== src/App/Joining/Joined.antt =====
-- A node that has joined by way of some seed, and one that has left.
use futureq_v.Prelude.{
  ℕ, ◌≡◌, ◌≢◌, refl, ap, inl, inr, Bool, true, false, not, Bool-cases, List, [], ◌∷◌, some,
  if◌then◌else◌, arith,
}
use futureq_v.Prelude.Result.{Result, ok, err, panic}
use futureq_v.Bytes.{Bytes}
use futureq_v.Metadata.Commands.{metadata_shard_id}
use futureq_v.Handlers.Cluster.{Response, JoinRequest, Wait, join_cluster, leave_cluster}
use futureq_v.Handlers.Cluster.Host.{voter, absent, NodeHost}
use futureq_v.Handlers.Cluster.Joining.{join_cluster_accepted, leave_cluster_accepted}
use futureq_v.App.Joining.{
  Outcome, joined, fatal, Seeds, after_rpc, ask_seed, join_via, joins, join_if_requested, leave_run,
  leave_connected,
}

module _ {S : Type 0} (seeds : Seeds S) where
  -- A seed accepted the request in some state, and no call followed.
  abbrev pub AcceptedBy : Bytes → JoinRequest → S → Type 0
  AcceptedBy seed req s' =
      (s : S) × (resp : Response) × (seeds.join_cluster seed req s ≡ (s', ok resp))
      × (resp.success ≡ true)

  accepted :
      (seed by : Bytes) (req : JoinRequest) (s s1 s' : S) (resp : Response)
      → resp.success ≡ true
      → seeds.join_cluster seed req s ≡ (s1, ok resp)
      → ◌≡◌ {A = S × Outcome} (s1, joined seed) (s', joined by)
      → AcceptedBy by req s'
  accepted seed by req s s1 s' resp success e h =
      let same : s1 ≡ s' = ap (λ x. x.0) h in
      let here : seed ≡ by = ground arith in (s, resp, rw (← here, ← same) e, success)

  answered :
      (seed by : Bytes) (req : JoinRequest) (s s' : S) (r : S × Result Response)
      (next_seed : S → S × Outcome)
      → seeds.join_cluster seed req s ≡ r
      → ((s1 : S) → next_seed s1 ≡ (s', joined by) → AcceptedBy by req s')
      → after_rpc seeds seed r next_seed ≡ (s', joined by)
      → AcceptedBy by req s'
  answered seed by req s s' (s1, ok resp) next_seed e later h = elim (Bool-cases resp.success) [
    | inl success ↦ accepted seed by req s s1 s' resp success e (rw success at h)
    | inr refused ↦ later s1 (rw refused at h)
  ]
  answered seed by req s s' (s1, err x) next_seed e later h = later s1 h
  answered seed by req s s' (s1, panic) next_seed e later h = later s1 h

  asked :
      (seed by : Bytes) (connected : Result (Unit {0})) (req : JoinRequest) (s s' : S)
      (next_seed : S → S × Outcome)
      → ((s1 : S) → next_seed s1 ≡ (s', joined by) → AcceptedBy by req s')
      → ask_seed seeds seed connected req s next_seed ≡ (s', joined by)
      → AcceptedBy by req s'
  asked seed by (ok u) req s s' next_seed later h =
      answered seed by req s s' (seeds.join_cluster seed req s) next_seed refl later h
  asked seed by (err e) req s s' next_seed later h = later s h
  asked seed by panic req s s' next_seed later h = later s h

  pub join_via-AcceptedBy :
      (list : List Bytes) (by : Bytes) (req : JoinRequest) (s s' : S)
      → join_via seeds list req s ≡ (s', joined by)
      → AcceptedBy by req s'
  unfolding join_via
  join_via-AcceptedBy [] by req s s' h = cc
  join_via-AcceptedBy (seed ∷ rest) by req s s' h =
      asked seed by (seeds.connect seed) req s s' (join_via seeds rest req)
        (λ s1 k. join_via-AcceptedBy rest by req s1 s' k) h

  joins-true :
      (r : S × Outcome) (s' : S)
      → joins seeds r ≡ (s', ok true)
      → (by : Bytes) × (r ≡ (s', joined by))
  joins-true (s, joined by) s' h = (by, ap (λ (x : S × Result Bool). (x.0, joined by)) h)
  joins-true (s, fatal) s' h = cc

  pub join_if_requested-AcceptedBy :
      (enabled has_data : Bool) (list : List Bytes) (req : JoinRequest) (s s' : S)
      → join_if_requested seeds enabled has_data list req s ≡ (s', ok true)
      → (has_data ≡ false) × (by : Bytes) × AcceptedBy by req s'
  unfolding join_if_requested
  join_if_requested-AcceptedBy enabled has_data [] req s s' h = absurd (ground arith)
  join_if_requested-AcceptedBy true true (seed ∷ rest) req s s' h = absurd (ground arith)
  join_if_requested-AcceptedBy false has_data (seed ∷ rest) req s s' h = absurd (ground arith)
  join_if_requested-AcceptedBy true false (seed ∷ rest) req s s' h =
      let (by, e) = joins-true (join_via seeds (seed ∷ rest) req s) s' h in
      (refl, by, join_via-AcceptedBy (seed ∷ rest) by req s s' e)

  -- Where the seeds answer with their handler's response, a node that starts as one that joins has no
  -- Raft data of its own, and votes in both groups under its Raft address.
  pub join_if_requested_voter :
      (host : NodeHost S) (event_shard : ℕ)
      → event_shard ≢ metadata_shard_id
      → ((seed : Bytes) (req : JoinRequest) (s s' : S) (resp : Response)
          → seeds.join_cluster seed req s ≡ (s', ok resp)
          → (w1 : Wait) × (w2 : Wait) × (join_cluster (some host) event_shard w1 w2 req s
              ≡ (s', ok resp)))
      → (enabled has_data : Bool) (list : List Bytes) (req : JoinRequest) (s s' : S)
      → join_if_requested seeds enabled has_data list req s ≡ (s', ok true)
      → (has_data ≡ false)
        × (host.role s' event_shard req.node_id ≡ voter req.raft_address)
        × (host.role s' metadata_shard_id req.node_id ≡ voter req.raft_address)
  join_if_requested_voter host event_shard two served enabled has_data list req s s' h =
      let (fresh, by, (s0, resp, e, success)) =
        join_if_requested-AcceptedBy enabled has_data list req s s' h in
      let (w1, w2, handled) = served by req s0 s' resp e in
      let (votes, votes_metadata) =
        join_cluster_accepted host event_shard two w1 w2 req s0 s' resp handled success in
      (fresh, votes, votes_metadata)

  left :
      (enabled : Bool) (connected : Result (Unit {0})) (r : S × Result Response) (s s' : S)
      → (if not enabled then (s, panic) else leave_connected seeds connected s r) ≡ (s', ok tt)
      → (resp : Response) × (r ≡ (s', ok resp)) × (resp.success ≡ true)
  left false connected r s s' h = absurd (ground arith)
  left true (err e) r s s' h = absurd (ground arith)
  left true panic r s s' h = absurd (ground arith)
  left true (ok u) (s1, err e) s s' h = absurd (ground arith)
  left true (ok u) (s1, panic) s s' h = absurd (ground arith)
  left true (ok u) (s1, ok resp) s s' h = elim (Bool-cases resp.success) [
    | inl success ↦
        let same : s1 ≡ s' = ground arith in (resp, ap (λ (x : S). (x, ok resp)) same, success)
    | inr refused ↦ absurd (ground arith)
  ]

  -- Where the seed answers with its handler's response, a leave command that succeeds leaves the node
  -- without a role in either group.
  leave_run_absent :
      (host : NodeHost S) (event_shard : ℕ)
      → event_shard ≢ metadata_shard_id
      → ((seed : Bytes) (node : ℕ) (s s' : S) (resp : Response)
          → seeds.leave_cluster seed node s ≡ (s', ok resp)
          → leave_cluster (some host) event_shard node s ≡ (s', ok resp))
      → (enabled : Bool) (seed : Bytes) (node : ℕ) (s s' : S)
      → leave_run seeds enabled seed node s ≡ (s', ok tt)
      → (host.role s' event_shard node ≡ absent) × (host.role s' metadata_shard_id node ≡ absent)
  unfolding leave_run
  leave_run_absent host event_shard two served enabled seed node s s' h =
      let (resp, e, success) =
        left enabled (seeds.connect seed) (seeds.leave_cluster seed node s) s s' h in
      leave_cluster_accepted host event_shard two node s s' resp (served seed node s s' resp e)
        success
