-- ===== src/Metadata/Service/Published.antt =====
-- What the metadata service proposes, and how its epoch counts.
use futureq_v.Prelude.{
  some, inl, inr, ℕ, suc, ◌+◌, ◌%◌, ◌^◌, ◌<◌, ◌≡◌, refl, ap, ◌∙◌, List, [], ◌∷◌, map, length, arith,
}
use futureq_v.Prelude.Result.{ok, Result-cases}
use futureq_v.Bytes.{Bytes}
use futureq_v.Metadata.IdMap.{IdMap, lookup_id, insert_id, lookup_id-insert_id}
use futureq_v.Metadata.Commands.{unmarshal_update_topology_cmd}
use futureq_v.Metadata.Commands.Encoding.{encode_update_topology, marshal_update_topology_cmd_lem}
use futureq_v.Metadata.Commands.Header.{IsTopology}
use futureq_v.Metadata.Commands.RoundTrip.{unmarshal-marshal_topology}
use futureq_v.Metadata.Service.{
  Membership, Cluster, Service, topology_of, publish_topology, publish_all, refresh_all,
  register_shard,
}

module _ {S : Type 0} (cluster : Cluster S) where
  -- Publishing a shard whose membership is known takes the next epoch and proposes one command, which
  -- decodes to the topology of this membership, the current leader and this epoch, if that fits the
  -- wire format.
  publish-topology_of :
      (shard : ℕ) (m : Membership) (s : Service S)
      → cluster.membership shard ≡ ok m
      → IsTopology (topology_of cluster shard m ((s.epoch + 1) % 2 ^ 64))
      → (cmd : Bytes) × (unmarshal_update_topology_cmd cmd
          ≡ ok (topology_of cluster shard m ((s.epoch + 1) % 2 ^ 64)))
        × (publish_topology cluster shard s
            ≡ record s { epoch = (s.epoch + 1) % 2 ^ 64; state = (cluster.propose cmd s.state).0 })
  unfolding publish_topology
  publish-topology_of shard m s hm h =
      let t = topology_of cluster shard m ((s.epoch + 1) % 2 ^ 64) in
      (
        encode_update_topology t,
        (rw (marshal_update_topology_cmd_lem t) at (unmarshal-marshal_topology t h)),
        rw (hm, marshal_update_topology_cmd_lem t) refl,
      )

  pub publish_topology-shards :
      (shard : ℕ) (s : Service S) → (publish_topology cluster shard s).shards ≡ s.shards
  unfolding publish_topology
  publish_topology-shards shard s = elim (Result-cases (cluster.membership shard)) [
    | inl (m, h) ↦
        rw
          (
            h,
            marshal_update_topology_cmd_lem (topology_of cluster shard m ((s.epoch + 1) % 2 ^ 64)),
          )
          refl
    | inr (inl (e, h)) ↦ rw h refl
    | inr (inr h) ↦ rw h refl
  ]

  publish-epoch :
      (shard : ℕ) (m : Membership) (s : Service S)
      → cluster.membership shard ≡ ok m
      → (publish_topology cluster shard s).epoch ≡ (s.epoch + 1) % 2 ^ 64
  unfolding publish_topology
  publish-epoch shard m s hm =
      rw
        (hm, marshal_update_topology_cmd_lem (topology_of cluster shard m ((s.epoch + 1) % 2 ^ 64)))
        refl

  publish_all-epoch :
      (ids : List ℕ) (s : Service S)
      → ((id : ℕ) → (m : Membership) × (cluster.membership id ≡ ok m))
      → s.epoch + length ids < 2 ^ 64
      → (publish_all cluster ids s).epoch ≡ s.epoch + length ids
  unfolding publish_all
  publish_all-epoch [] s known h = omega arith
  publish_all-epoch (id ∷ ids) s known h =
      let one = publish-epoch id (known id).0 s (known id).1 in
      publish_all-epoch ids (publish_topology cluster id s) known (omega (arith, one))
      ∙ omega (arith, one)

  length-ids : (m : IdMap (Unit {0})) → length (map (λ (p : ℕ × Unit {0}). p.0) m) ≡ length m
  length-ids [] = refl
  length-ids (p ∷ m) = ap suc (length-ids m)

  -- A refresh takes one epoch for each shard that is known, while the counter does not overflow and the
  -- membership of every shard can be read.
  refresh_all-epoch :
      (s : Service S)
      → ((id : ℕ) → (m : Membership) × (cluster.membership id ≡ ok m))
      → s.epoch + length s.shards < 2 ^ 64
      → (refresh_all cluster s).epoch ≡ s.epoch + length s.shards
  unfolding refresh_all
  refresh_all-epoch s known h =
      publish_all-epoch (map (λ (p : ℕ × Unit {0}). p.0) s.shards) s known
        (omega (arith, length-ids s.shards))
      ∙ ap (λ (n : ℕ). s.epoch + n) (length-ids s.shards)

  -- A shard that is registered is one that `RefreshAll` publishes.
  pub register_shard-shards :
      (shard : ℕ) (s : Service S)
      → lookup_id shard (register_shard cluster shard s).shards ≡ some tt
  unfolding register_shard
  register_shard-shards shard s =
      rw (publish_topology-shards shard (record s { shards = insert_id shard tt s.shards }))
        (ground (arith, lookup_id-insert_id shard shard tt s.shards))
