-- ===== src/App/Shutdown.antt =====
-- The end of a node: what `WithGracefulShutdown` does once a signal has come.
use futureq_v.Prelude.{Bool, true, false, List, [], ◌∷◌, ◌++◌, Option, none, some}
use futureq_v.Prelude.Result.{Result, ok, panic}
use futureq_v.Prelude.Method.{M}
use futureq_v.App.{App}

-- What it calls, in order; the results of the wait, of the flush and of the closing are logged.
pub data Action : Type 0 where
  cancel : Action
  wait : (completed : Bool) → Action
  close_node_host : Action
  flush close : Result (Unit {0}) → Action

abbrev close_host : Bool → List Action
close_host false = []
close_host true = close_node_host ∷ []

-- `Flush` is called before the store is compared with nil.
abbrev flush_and_close :
    {D : Type 0}
    → (flush_db close_db : M D (Unit {0})) → Option D
    → Option D × List Action × Result (Unit {0})
flush_and_close flush_db close_db none = (none, [], panic)
flush_and_close flush_db close_db (some d) =
    let (d1, flushed) = flush_db d in
    let (d2, closed) = close_db d1 in (some d2, flush flushed ∷ close closed ∷ [], ok tt)

-- `completed`: whether the components finish within the window of the shutdown. A flush or a close that
-- panics is left out.
unfoldable pub with_graceful_shutdown :
    {D : Type 0}
    → (completed node_host : Bool) (flush_db close_db : M D (Unit {0})) → App D
    → App D × List Action × Result (Unit {0})
with_graceful_shutdown completed node_host flush_db close_db a =
    let (db, actions, r) = flush_and_close flush_db close_db a.db in
    (record a { db = db }, cancel ∷ wait completed ∷ close_host node_host ++ actions, r)
