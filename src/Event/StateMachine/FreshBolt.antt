-- ===== src/Event/StateMachine/FreshBolt.antt =====
-- What happens on the first start with Bolt, whose adapter has its own error for a missing key.
use futureq_v.Prelude.{ℕ, ◌≡◌, refl, ◌∙◌, none, some}
use futureq_v.Prelude.Result.{err, not_found}
use futureq_v.Storage.Content.{get_entry}
use futureq_v.Storage.Bolt.{BoltDb, get}
use futureq_v.Storage.Bolt.Engine.{BoltEngine}
use futureq_v.Storage.Bolt.Contract.{bolt_db}
use futureq_v.Repository.{events_last_id_key, new_event_repository}
use futureq_v.Event.StateMachine.{EventStateMachine, applied_index_key, open_shard, recover_applied}

-- On a Bolt bucket that holds neither a counter nor an applied index, the repository cannot be made and
-- the shard cannot be opened: both take the missing key for a failure.
pub fresh_bolt :
    {T C : Type 0} (e : BoltEngine T C) (t : T) (last_id last_applied : ℕ)
    → get_entry events_last_id_key (e.entries t) ≡ none
    → get_entry applied_index_key (e.entries t) ≡ none
    → let d : BoltDb T = record { bucket = some t } in
      let s : EventStateMachine (BoltDb T) = record {
        db = d;
        last_id = last_id;
        last_applied = last_applied;
      } in
      (new_event_repository (bolt_db e) d ≡ err not_found)
      × (open_shard (bolt_db e) s ≡ (s, err not_found))
unfolding new_event_repository open_shard recover_applied get
fresh_bolt e t last_id last_applied h1 h2 = (
  rw (e.get_lem t events_last_id_key ∙ h1) refl,
  rw (open_shard, e.get_lem t applied_index_key ∙ h2) refl,
)
