-- ===== src/Prelude/Result.antt =====
-- Go's (value, error) pairs and panics as values, and the state monad of methods that can fail.
use Prim.Native.Nat.{ℕ}
use mathlib.Core.Path.{◌≡◌, refl}
use mathlib.Core.Logic.{◌⊎◌, inl, inr}

-- The errors that the program makes. `engine` is an error of the storage engine or of Dragonboat.
pub data Error : Type 0 where
  not_found pebble_not_found bucket_not_found : Error
  bad_length : ℕ → Error
  too_short wrong_type truncated : Error
  end_of_file unexpected_eof snapshot_stopped : Error
  negative_delay negative_ttl marshal_failed : Error
  not_leader no_ack_rejected batch_save_failed : Error
  no_init empty_topic : Error
  single_mode_node no_topology not_raft_mode catch_up_timeout : Error
  bad_raft_address bad_listen_address node_host_failed : Error
  canceled deadline_exceeded stream_failed : Error
  invalid_config : ℕ → Error
  engine : ℕ → Error

pub data Result {ℓ} (A : Type ℓ) : Type ℓ where
  ok : A → Result A
  err : Error → Result A
  panic : Result A

infixl 5 ◌>>=◌
abbrev pub ◌>>=◌ {ℓ κ} : {A : Type ℓ} {B : Type κ} → Result A → (A → Result B) → Result B
panic >>= next = panic
err e >>= next = err e
ok a >>= next = next a

-- Inversion of a successful bind.
pub >>=-eq-ok {ℓ κ} :
    {A : Type ℓ} {B : Type κ} (r : Result A) (next : A → Result B) {b : B}
    → r >>= next ≡ ok b
    → (a : A) × (r ≡ ok a) × (next a ≡ ok b)
>>=-eq-ok panic next h = cc
>>=-eq-ok (err e) next h = cc
>>=-eq-ok (ok a) next h = (a, refl, h)

pub Result-cases {ℓ} :
    {A : Type ℓ} (r : Result A) → ((a : A) × (r ≡ ok a)) ⊎ ((e : Error) × (r ≡ err e)) ⊎ (r ≡ panic)
Result-cases (ok a) = inl (a, refl)
Result-cases (err e) = inr (inl (e, refl))
Result-cases panic = inr (inr refl)
