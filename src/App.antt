-- ===== src/App.antt =====
-- internal/app/app.go: the application that holds a node's store, its repository and its Raft groups.
pub mod Raft
pub mod Address
pub mod Shutdown
pub mod Joining
pub mod Wiring
use futureq_v.Prelude.{
  ◌⊎◌, inl, inr, Bool-cases, ℕ, zero, suc, ◌+◌, ◌≡◌, refl, Bool, true, false, ◌||◌, Option, none,
  some, if◌then◌else◌, arith,
}
use futureq_v.Prelude.Result.{Result, ok, err, panic, ◌>>=◌}
use futureq_v.Bytes.{Bytes}
use futureq_v.Bytes.Order.{bytes_eq}
use futureq_v.Config.{Config, pebble_text, bolt_text, check_config, check_config-engine}
use futureq_v.Storage.{Db}
use futureq_v.Repository.{new_event_repository}

-- The store, which is nil until an engine is opened, the counter of the repository if there is one, and
-- the count of the wait group.
pub record App (D : Type 0) : Type 0 where
  pub db : Option D
  pub events : Option ℕ
  pub components : ℕ

abbrev app_of : {D : Type 0} → Option D → App D
app_of d = record { db = d; events = none; components = 0 }

-- `new_pebble` and `new_bolt` open the engines, with the configuration of each.
unfoldable pub init_app :
    {D : Type 0} → (new_pebble new_bolt : Result D) → (engine_type : Bytes) → Result (App D)
init_app new_pebble new_bolt engine_type =
    if bytes_eq engine_type pebble_text
    then new_pebble >>= (λ d. ok (app_of (some d)))
    else if bytes_eq engine_type bolt_text
    then new_bolt >>= (λ d. ok (app_of (some d)))
    else ok (app_of none)

abbrev with_counter : {D : Type 0} → App D → Result ℕ → App D × Result (Unit {0})
with_counter a (ok last_id) = (record a { events = some last_id }, ok tt)
with_counter a (err e) = (a, err e)
with_counter a panic = (a, panic)

-- Without a store the repository calls a method of a nil interface.
unfoldable pub with_repositories : {D B : Type 0} → Db D B → App D → App D × Result (Unit {0})
with_repositories db a = elim a.db [
  | none ↦ (a, panic)
  | some d ↦ with_counter a (new_event_repository db d)
]

unfoldable pub register_component_with_shutdown : {D : Type 0} → App D → App D
register_component_with_shutdown a = record a { components = a.components + 1 }

-- `Done` panics if the count would become negative.
abbrev count_down : {D : Type 0} → App D → ℕ → App D × Result (Unit {0})
count_down a zero = (a, panic)
count_down a (suc n) = (record a { components = n }, ok tt)

unfoldable pub component_shutdown_done : {D : Type 0} → App D → App D × Result (Unit {0})
component_shutdown_done a = count_down a a.components

opened-db :
    {D : Type 0} (r : Result D) (a : App D)
    → r >>= (λ d. ok (app_of (some d))) ≡ ok a
    → (d : D) × (a.db ≡ some d) × (r ≡ ok d)
opened-db (ok d) a h = (d, ground arith, refl)
opened-db (err e) a h = cc
opened-db panic a h = cc

-- Where the configuration was let through, the application that `Init` returns has a store.
init_app-db :
    {D : Type 0} (c c' : Config) (new_pebble new_bolt : Result D) (a : App D)
    → check_config c ≡ (c', ok tt)
    → init_app new_pebble new_bolt c'.storage.engine_type ≡ ok a
    → (d : D) × (a.db ≡ some d) × ((new_pebble ≡ ok d) ⊎ (new_bolt ≡ ok d))
unfolding init_app
init_app-db c c' new_pebble new_bolt a h i =
    elim (Bool-cases (bytes_eq c'.storage.engine_type pebble_text)) [
      | inl pebble ↦ let (d, e, from) = opened-db new_pebble a (rw pebble at i) in (d, e, inl from)
      | inr other ↦
          let bolt : bytes_eq c'.storage.engine_type bolt_text ≡ true =
            ground (arith, check_config-engine c c' h) in
          let (d, e, from) = opened-db new_bolt a (rw (other, bolt) at i) in (d, e, inr from)
    ]
