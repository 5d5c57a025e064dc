-- ===== src/Handlers/Cluster/Members.antt =====
-- What the membership requests of a handler leave behind, whatever fails.
use futureq_v.Prelude.{ℕ-cases, ℕ, zero, suc, ◌≡◌, ◌≢◌, refl, sym, ◌∙◌, inl, inr, true, arith}
use futureq_v.Prelude.Result.{Result, ok, err, panic, Error}
use futureq_v.Prelude.Method.{M}
use futureq_v.Bytes.{Bytes}
use futureq_v.Metadata.Commands.{metadata_shard_id}
use futureq_v.Handlers.Cluster.{
  ErrorMessage, Response, or_reject, Ending, Wait, poll, wait_for_catch_up,
}
use futureq_v.Handlers.Cluster.Host.{Role, absent, non_voting, voter, Applies, NodeHost}

-- A handler that accepts went through each of its steps.
pub or_reject_accepted :
    {S : Type 0} (message : Error → ErrorMessage) (r : S × Result (Unit {0})) (rest : M S Response)
    {s' : S} {resp : Response}
    → or_reject message r rest ≡ (s', ok resp)
    → resp.success ≡ true
    → (s1 : S) × (r ≡ (s1, ok tt)) × (rest s1 ≡ (s', ok resp))
or_reject_accepted message (s, ok u) rest h t = (s, refl, h)
or_reject_accepted message (s, err e) rest h t = ground arith
or_reject_accepted message (s, panic) rest h t = cc

-- What holds after a step, and after the steps that follow one that succeeds, holds in the end.
pub or_reject_keeps :
    {S : Type 0} (Q : S → Type 0) (message : Error → ErrorMessage) (r : S × Result (Unit {0}))
    (rest : M S Response)
    → Q r.0
    → (r.1 ≡ ok tt → Q (rest r.0).0)
    → Q (or_reject message r rest).0
or_reject_keeps Q message (s, ok u) rest stop go = go refl
or_reject_keeps Q message (s, err e) rest stop go = stop
or_reject_keeps Q message (s, panic) rest stop go = stop

module _ {S : Type 0} (host : NodeHost S) where
  poll-role :
      (n : ℕ) (ending : Ending) (shard node : ℕ) (s : S) (sh nd : ℕ)
      → host.role (poll host n ending shard node s).0 sh nd ≡ host.role s sh nd
  unfolding poll
  poll-role zero ending shard node s sh nd = refl
  poll-role (suc n) ending shard node s sh nd = ground (
    arith,
    host.query_keeps shard s sh nd,
    poll-role n ending shard node (host.get_non_votings shard s).0 sh nd,
  )

  -- Waiting changes no role.
  pub wait-role :
      (w : Wait) (shard node : ℕ) (s : S) (sh nd : ℕ)
      → host.role (wait_for_catch_up host w shard node s).0 sh nd ≡ host.role s sh nd
  unfolding wait_for_catch_up
  wait-role w = poll-role w.ticks w.ending

  abbrev pub IsVoter : S → ℕ → ℕ → Type 0
  IsVoter s shard node = (a : Bytes) × (host.role s shard node ≡ voter a)

  -- Who votes on the event shard votes in the metadata group.
  abbrev pub VotesInBoth : ℕ → S → Type 0
  VotesInBoth event_shard s =
      (node : ℕ) → IsVoter s event_shard node → IsVoter s metadata_shard_id node

  -- A request about one node keeps that, if it does for this node.
  votes_elsewhere :
      (event_shard shard node : ℕ) (new : Role) (s : S) (r : S × Result (Unit {0}))
      → Applies host.role shard node new s r
      → VotesInBoth event_shard s
      → (IsVoter r.0 event_shard node → IsVoter r.0 metadata_shard_id node)
      → VotesInBoth event_shard r.0
  votes_elsewhere event_shard shard node new s r a inv this nd v = elim (ℕ-cases nd node) [
    | inl e ↦ rw (sym e) at (this (rw e at v))
    | inr ne ↦
        let before = inv nd (v.0, sym (a.others event_shard nd (inr ne)) ∙ v.1) in
        (before.0, a.others metadata_shard_id nd (inr ne) ∙ before.1)
  ]

  module _ (event_shard : ℕ) (two : event_shard ≢ metadata_shard_id) (node : ℕ) where
    pub add_non_voting-metadata :
        (addr : Bytes) (s : S)
        → VotesInBoth event_shard s
        → VotesInBoth event_shard (host.add_non_voting metadata_shard_id node addr s).0
    add_non_voting-metadata addr s inv =
        let a = host.add_non_voting_lem metadata_shard_id node addr s in
        votes_elsewhere event_shard metadata_shard_id node (non_voting addr) s
          (host.add_non_voting metadata_shard_id node addr s) a inv
          λ v.
            let before = inv node (v.0, sym (a.others event_shard node (inl two)) ∙ v.1) in
            (before.0, host.voter_stays metadata_shard_id node addr before.0 s before.1)

    -- A request that leaves no new voter of the event shard.
    pub not_promoted :
        (new : Role) (s : S) (r : S × Result (Unit {0}))
        → Applies host.role event_shard node new s r
        → ((a : Bytes) → new ≢ voter a)
        → VotesInBoth event_shard s
        → VotesInBoth event_shard r.0
    not_promoted new s r a other inv =
        votes_elsewhere event_shard event_shard node new s r a inv λ v. elim a.here [
          | inl changed ↦ absurd (other v.0 (sym changed ∙ v.1))
          | inr same ↦
              let before = inv node (v.0, sym same ∙ v.1) in
              (before.0, a.others metadata_shard_id node (inl (λ e. two (sym e))) ∙ before.1)
        ]

    pub add_replica-metadata :
        (addr : Bytes) (s : S)
        → VotesInBoth event_shard s
        → VotesInBoth event_shard (host.add_replica metadata_shard_id node addr s).0
    add_replica-metadata addr s inv =
        let a = host.add_replica_lem metadata_shard_id node addr s in
        votes_elsewhere event_shard metadata_shard_id node (voter addr) s
          (host.add_replica metadata_shard_id node addr s) a inv
          λ v. elim a.here [
            | inl changed ↦ (addr, changed)
            | inr same ↦
                let before = inv node (v.0, sym (a.others event_shard node (inl two)) ∙ v.1) in
                (before.0, same ∙ before.1)
          ]

    pub add_replica-event :
        (addr : Bytes) (s : S)
        → IsVoter s metadata_shard_id node
        → VotesInBoth event_shard s
        → VotesInBoth event_shard (host.add_replica event_shard node addr s).0
    add_replica-event addr s m inv =
        let a = host.add_replica_lem event_shard node addr s in
        votes_elsewhere event_shard event_shard node (voter addr) s
          (host.add_replica event_shard node addr s) a inv
          λ v. (m.0, a.others metadata_shard_id node (inl (λ e. two (sym e))) ∙ m.1)

    pub delete-metadata :
        (s : S)
        → host.role s event_shard node ≡ absent
        → VotesInBoth event_shard s
        → VotesInBoth event_shard (host.delete_replica metadata_shard_id node s).0
    delete-metadata s gone inv =
        let a = host.delete_replica_lem metadata_shard_id node s in
        votes_elsewhere event_shard metadata_shard_id node absent s
          (host.delete_replica metadata_shard_id node s) a inv
          λ v. let e = sym v.1 ∙ a.others event_shard node (inl two) ∙ gone in cc

    pub wait_keeps :
        (w : Wait) (shard : ℕ) (s : S)
        → VotesInBoth event_shard s
        → VotesInBoth event_shard (wait_for_catch_up host w shard node s).0
    wait_keeps w shard s inv nd v =
        let before = inv nd (v.0, sym (wait-role w shard node s event_shard nd) ∙ v.1) in
        (before.0, wait-role w shard node s metadata_shard_id nd ∙ before.1)
