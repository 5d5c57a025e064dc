-- ===== src/App/Joining.antt =====
-- cmd/futureq/start.go and leave.go: a node that asks the seeds of a cluster to take it in, or to let it
-- go. `logger.Fatal` ends the process.
pub mod Joined
use futureq_v.Prelude.{ℕ, Bool, true, false, not, ◌&&◌, List, [], ◌∷◌, if◌then◌else◌}
use futureq_v.Prelude.Result.{Result, ok, err, panic}
use futureq_v.Prelude.Method.{M}
use futureq_v.Bytes.{Bytes}
use futureq_v.Handlers.Cluster.{Response, JoinRequest}

-- How it ends: as a member by way of a seed, or with the process.
pub data Outcome : Type 0 where
  joined : (seed : Bytes) → Outcome
  fatal : Outcome

-- gRPC: `connect` makes a client of a seed, and `join_cluster` calls its handler. A panic of the handler
-- stays with the seed, which answers with an error.
pub record Seeds (S : Type 0) : Type 0 where
  pub connect : Bytes → Result (Unit {0})
  pub join_cluster : Bytes → JoinRequest → M S Response
  pub leave_cluster : Bytes → (node : ℕ) → M S Response

module _ {S : Type 0} (seeds : Seeds S) where
  abbrev after_rpc : Bytes → S × Result Response → (S → S × Outcome) → S × Outcome
  after_rpc seed (s, ok resp) next_seed = if resp.success then (s, joined seed) else next_seed s
  after_rpc seed (s, err e) next_seed = next_seed s
  after_rpc seed (s, panic) next_seed = next_seed s

  abbrev ask_seed : Bytes → Result (Unit {0}) → JoinRequest → S → (S → S × Outcome) → S × Outcome
  ask_seed seed (ok u) req s next_seed = after_rpc seed (seeds.join_cluster seed req s) next_seed
  ask_seed seed (err e) req s next_seed = next_seed s
  ask_seed seed panic req s next_seed = next_seed s

  -- Each seed in order, until one accepts.
  unfoldable pub join_via : List Bytes → JoinRequest → S → S × Outcome
  join_via [] req s = (s, fatal)
  join_via (seed ∷ rest) req s = ask_seed seed (seeds.connect seed) req s (join_via rest req)

  -- What `start` does of it, and whether the node starts as one that joins.
  abbrev joins : S × Outcome → S × Result Bool
  joins (s, joined seed) = (s, ok true)
  joins (s, fatal) = (s, panic)

  unfoldable pub join_if_requested :
      (raft_enabled has_data : Bool) → List Bytes → JoinRequest → M S Bool
  unfolding join_via
  join_if_requested enabled has_data [] req s = (s, ok false)
  join_if_requested enabled has_data (seed ∷ rest) req s =
      if enabled && not has_data then joins (join_via (seed ∷ rest) req s) else (s, ok false)

  abbrev accepted_leave : S × Result Response → S × Result (Unit {0})
  accepted_leave (s, ok resp) = if resp.success then (s, ok tt) else (s, panic)
  accepted_leave (s, err e) = (s, panic)
  accepted_leave (s, panic) = (s, panic)

  abbrev leave_connected : Result (Unit {0}) → S → S × Result Response → S × Result (Unit {0})
  leave_connected (ok u) s r = accepted_leave r
  leave_connected (err e) s r = (s, panic)
  leave_connected panic s r = (s, panic)

  -- The leave command; `panic` stands for its fatal errors too.
  unfoldable pub leave_run : (raft_enabled : Bool) → (seed : Bytes) → (node : ℕ) → M S (Unit {0})
  leave_run enabled seed node s =
      if not enabled
      then (s, panic)
      else leave_connected (seeds.connect seed) s (seeds.leave_cluster seed node s)
