-- ===== src/Metadata/StateMachine/Epoch.antt =====
-- What every command keeps of the metadata, and what reads return.
use futureq_v.Prelude.{
  ℕ, ◌≤◌, ◌≡◌, refl, sym, subst, ap, ◌∙◌, [], ◌∷◌, ◌++◌, append_assoc, append-nil, Bool-cases, inl,
  inr, ltb, ◌==◌, arith, All,
}
use futureq_v.Prelude.Result.{Result, ok, err, panic}
use futureq_v.Bytes.{Bytes}
use futureq_v.Metadata.IdMap.{
  IdMap, IsIdMap, insert_id, copy_into, insert_id-IsIdMap, insert_id_next,
}
use futureq_v.Metadata.Commands.{
  ShardTopology, TopologySnapshot, unmarshal_update_topology_cmd, unmarshal_register_node_addr_cmd,
}
use futureq_v.Metadata.StateMachine.{
  MetadataStateMachine, set_topology, apply_topology, apply_register, update, copy_shard_topology,
  copy_shards, copy_topology, get_topology, get_grpc_addrs,
}

-- A topology that stands under its own id, with an epoch that the global one bounds.
abbrev pub IsFiled : ℕ → ℕ × ShardTopology → Type 0
IsFiled epoch (id, t) = (t.shard_id ≡ id) × (t.epoch ≤ epoch)

abbrev pub IsConsistent : TopologySnapshot → Type 0
IsConsistent s = IsIdMap s.shards × All (IsFiled s.epoch) s.shards

All-weaken : (m : IdMap ShardTopology) (e e' : ℕ) → e ≤ e' → All (IsFiled e) m → All (IsFiled e') m
All-weaken [] e e' h a = tt
All-weaken ((id, t) ∷ m) e e' h ((hi, he), a) = ((hi, omega arith), All-weaken m e e' h a)

insert_id-All :
    (t : ShardTopology) (m : IdMap ShardTopology) (e : ℕ)
    → t.epoch ≤ e
    → All (IsFiled e) m
    → All (IsFiled e) (insert_id t.shard_id t m)
unfolding insert_id
insert_id-All t [] e h a = ((refl, h), tt)
insert_id-All t ((j, u) ∷ m) e h (a, filed) = elim (Bool-cases (j == t.shard_id)) [
  | inl same ↦ rw same ((refl, h), filed)
  | inr other ↦ rw other (a, insert_id-All t m e h filed)
]

-- Filing a topology keeps the snapshot consistent, and its global epoch never falls.
pub set_topology-IsConsistent :
    (t : ShardTopology) (s : TopologySnapshot)
    → IsConsistent s
    → IsConsistent (set_topology t s) × (s.epoch ≤ (set_topology t s).epoch)
unfolding set_topology
set_topology-IsConsistent t s (distinct, filed) = elim (Bool-cases (ltb s.epoch t.epoch)) [
  | inl newer ↦ rw newer (
    (
      insert_id-IsIdMap t.shard_id t s.shards distinct,
      insert_id-All t s.shards t.epoch (omega arith)
          (All-weaken s.shards s.epoch t.epoch (ground (arith, newer)) filed),
    ),
    ground (arith, newer),
  )
  | inr older ↦ rw older (
    (
      insert_id-IsIdMap t.shard_id t s.shards distinct,
      insert_id-All t s.shards s.epoch (ground (arith, older)) filed,
    ),
    omega arith,
  )
]

apply_topology-IsConsistent :
    (r : Result ShardTopology) (s : MetadataStateMachine)
    → IsConsistent s.topology
    → let s' = (apply_topology r s).0 in
      IsConsistent s'.topology × (s.topology.epoch ≤ s'.topology.epoch)
apply_topology-IsConsistent (ok t) s h = set_topology-IsConsistent t s.topology h
apply_topology-IsConsistent (err e) s h = (h, omega arith)
apply_topology-IsConsistent panic s h = (h, omega arith)

apply_register-topology :
    (r : Result (ℕ × Bytes)) (s : MetadataStateMachine)
    → (apply_register r s).0.topology ≡ s.topology
apply_register-topology (ok (node, addr)) s = refl
apply_register-topology (err e) s = refl
apply_register-topology panic s = refl

-- Whatever bytes a command has, `Update` keeps every topology under its own id, with an epoch that the
-- global epoch bounds, and never lowers the global epoch.
pub update-IsConsistent :
    (cmd : Bytes) (s : MetadataStateMachine)
    → IsConsistent s.topology
    → let s' = (update cmd s).0 in IsConsistent s'.topology × (s.topology.epoch ≤ s'.topology.epoch)
unfolding update
update-IsConsistent [] s h = (h, omega arith)
update-IsConsistent (b ∷ bs) s h = elim (Bool-cases (b == 0)) [
  | inl topology ↦
      rw topology (apply_topology-IsConsistent (unmarshal_update_topology_cmd (b ∷ bs)) s h)
  | inr other ↦ elim (Bool-cases (b == 1)) [
    | inl register ↦
        let same = apply_register-topology (unmarshal_register_node_addr_cmd (b ∷ bs)) s in
        rw (other, register)
          (subst (λ (t : TopologySnapshot). IsConsistent t × (s.topology.epoch ≤ t.epoch))
            (sym same) (h, omega arith))
    | inr unknown ↦ rw (other, unknown) (h, omega arith)
  ]
]

-- ── copies ──

copy_into_lem : {V : Type 0} (acc m : IdMap V) → IsIdMap (acc ++ m) → copy_into acc m ≡ acc ++ m
unfolding copy_into
copy_into_lem acc [] h = sym (append-nil acc)
copy_into_lem acc ((k, v) ∷ m) h =
    let e = append_assoc acc ((k, v) ∷ []) m in
    ap (λ (a : IdMap _). copy_into a m) (insert_id_next k v acc m h)
    ∙ copy_into_lem (acc ++ (k, v) ∷ []) m (subst IsIdMap (sym e) h)
    ∙ e

-- The maps of a topology repeat no id.
abbrev pub HasMaps : ShardTopology → Type 0
HasMaps t = IsIdMap t.nodes × IsIdMap t.non_votings × IsIdMap t.witnesses × IsIdMap t.grpc_addrs

copy_shard_topology_lem : (t : ShardTopology) → HasMaps t → copy_shard_topology t ≡ t
unfolding copy_shard_topology
copy_shard_topology_lem t (a, b, c, d) =
    rw
      (
        copy_into_lem [] t.nodes a,
        copy_into_lem [] t.non_votings b,
        copy_into_lem [] t.witnesses c,
        copy_into_lem [] t.grpc_addrs d,
      )
      refl

copy_shards_lem :
    (acc m : IdMap ShardTopology)
    → IsIdMap (acc ++ m)
    → All (λ (p : ℕ × ShardTopology). HasMaps p.1) m
    → copy_shards acc m ≡ acc ++ m
unfolding copy_shards
copy_shards_lem acc [] h maps = sym (append-nil acc)
copy_shards_lem acc ((id, t) ∷ m) h (ht, maps) =
    let e = append_assoc acc ((id, t) ∷ []) m in
    ap (λ (u : ShardTopology). copy_shards (insert_id id u acc) m) (copy_shard_topology_lem t ht)
    ∙ ap (λ (a : IdMap ShardTopology). copy_shards a m) (insert_id_next id t acc m h)
    ∙ copy_shards_lem (acc ++ (id, t) ∷ []) m (subst IsIdMap (sym e) h) maps
    ∙ e

-- Of maps without repeated ids, which Go's always are, reads return equal copies.
get_topology_lem :
    (s : MetadataStateMachine)
    → IsIdMap s.topology.shards
    → All (λ (p : ℕ × ShardTopology). HasMaps p.1) s.topology.shards
    → IsIdMap s.grpc_addrs
    → (get_topology s ≡ s.topology) × (get_grpc_addrs s ≡ s.grpc_addrs)
unfolding get_topology copy_topology get_grpc_addrs
get_topology_lem s h maps hg = (
  ap (λ (m : IdMap ShardTopology). record { shards = m; epoch = s.topology.epoch })
      (copy_shards_lem [] s.topology.shards h maps),
  copy_into_lem [] s.grpc_addrs hg,
)
