-- ===== src/Handlers/Cluster/Host.antt =====
-- What the cluster handler relies on of Dragonboat's NodeHost: membership requests and their effect.
use futureq_v.Prelude.{ℕ, ◌≡◌, ◌≢◌, ◌⊎◌, Option, some}
use futureq_v.Prelude.Result.{Result, ok}
use futureq_v.Prelude.Method.{M}
use futureq_v.Bytes.{Bytes}

-- What a node is to a shard, with its Raft address.
pub data Role : Type 0 where
  absent : Role
  non_voting voter : Bytes → Role

-- A request about one node of one shard changes no other role. One that succeeds was applied; one that
-- returns an error, such as a timeout, was applied or not.
pub record Applies {S : Type 0} (role : S → ℕ → ℕ → Role) (shard node : ℕ) (new : Role) (s : S)
    (r : S × Result (Unit {0})) : Type 0 where
  pub others : (sh nd : ℕ) → (sh ≢ shard) ⊎ (nd ≢ node) → role r.0 sh nd ≡ role s sh nd
  pub here : (role r.0 shard node ≡ new) ⊎ (role r.0 shard node ≡ role s shard node)
  pub done : r.1 ≡ ok tt → role r.0 shard node ≡ new

-- `get_non_votings` is the field of the answer to `SyncGetShardMembership` that the handler reads. A
-- voter is never made a non-voting member. No operation of the program reads `role`.
pub record NodeHost (S : Type 0) : Type 0 where
  pub add_non_voting : (shard node : ℕ) → Bytes → M S (Unit {0})
  pub add_replica : (shard node : ℕ) → Bytes → M S (Unit {0})
  pub delete_replica : (shard node : ℕ) → M S (Unit {0})
  pub get_non_votings : (shard : ℕ) → M S (ℕ → Option Bytes)
  pub role : S → ℕ → ℕ → Role
  pub add_non_voting_lem :
      (shard node : ℕ) (addr : Bytes) (s : S)
      → Applies role shard node (non_voting addr) s (add_non_voting shard node addr s)
  pub voter_stays :
      (shard node : ℕ) (addr a : Bytes) (s : S)
      → role s shard node ≡ voter a
      → role (add_non_voting shard node addr s).0 shard node ≡ voter a
  pub add_replica_lem :
      (shard node : ℕ) (addr : Bytes) (s : S)
      → Applies role shard node (voter addr) s (add_replica shard node addr s)
  pub delete_replica_lem :
      (shard node : ℕ) (s : S) → Applies role shard node absent s (delete_replica shard node s)
  pub query_keeps :
      (shard : ℕ) (s : S) (sh nd : ℕ) → role (get_non_votings shard s).0 sh nd ≡ role s sh nd
  pub query_finds :
      (shard node : ℕ) (s s' : S) (m : ℕ → Option Bytes) (a : Bytes)
      → get_non_votings shard s ≡ (s', ok m)
      → role s shard node ≡ non_voting a
      → m node ≡ some a
