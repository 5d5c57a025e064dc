-- ===== src/Config.antt =====
-- internal/config/config.go: what `Load` checks and corrects once the values are read. Reading them from
-- files and the environment is viper's. Only the fields that the checks or the model read are kept.
pub mod Overrides
use futureq_v.Prelude.{
  ℕ, ◌≡◌, ◌^◌, ◌<◌, Bool, true, false, not, ◌&&◌, ◌||◌, [], ◌∷◌, ◌==◌, if◌then◌else◌, arith,
}
use futureq_v.Prelude.Result.{ok, err, invalid_config}
use futureq_v.Prelude.Method.{M, ◌>>◌, continue}
use futureq_v.Prelude.Int64.{lt_int64}
use futureq_v.Bytes.{Bytes}
use futureq_v.Bytes.Order.{bytes_eq}
use futureq_v.Keys.{calculate_bucket}
use futureq_v.Keys.Bucket.{bucket_of, calculate_bucket-bucket_of}

pub data AckLevel : Type 0 where
  quorum no_ack : AckLevel

pub record StorageConfig : Type 0 where
  pub min_ack_level : AckLevel
  pub persist : Bool
  pub time_bucket_size : ℕ
  pub engine_type : Bytes
  pub pebble_data_path : Bytes
  pub pebble_disable_wal : Bool
  pub bolt_data_path : Bytes

pub record RaftConfig : Type 0 where
  pub enabled : Bool
  pub node_id : ℕ
  pub cluster_id : ℕ
  pub rtt_millisecond : ℕ
  pub snapshot_entries : ℕ
  pub compaction_overhead : ℕ
  pub listen_address : Bytes

pub record Config : Type 0 where
  pub storage : StorageConfig
  pub raft : RaftConfig

abbrev pub pebble_text : Bytes
pebble_text = b'p' ∷ b'e' ∷ b'b' ∷ b'b' ∷ b'l' ∷ b'e' ∷ []

abbrev pub bolt_text : Bytes
bolt_text = b'b' ∷ b'o' ∷ b'l' ∷ b't' ∷ []

abbrev is_empty : Bytes → Bool
is_empty [] = true
is_empty (b ∷ bs) = false

-- `if bad { return err }`
abbrev refuse : Bool → ℕ → M Config (Unit {0})
refuse true n c = (c, err (invalid_config n))
refuse false n c = (c, ok tt)

validate_raft : M Config (Unit {0})
validate_raft c =
    (refuse (c.raft.snapshot_entries == 0) 5
        >> refuse (c.raft.compaction_overhead == 0) 6
        >> refuse (c.raft.rtt_millisecond == 0) 7)
      c

-- The errors are numbered in the order of the source.
validate_storage : M Config (Unit {0})
validate_storage c =
    let bucket =
      if lt_int64 c.storage.time_bucket_size 1_000_000 then 0 else c.storage.time_bucket_size in
    continue (refuse (c.storage.persist && is_empty c.storage.pebble_data_path) 1 c) (λ _ c1.
      (refuse (not c.raft.enabled && c.storage.pebble_disable_wal) 2
          >> refuse
              (not (bytes_eq c.storage.engine_type pebble_text)
                && not (bytes_eq c.storage.engine_type bolt_text))
              3)
        (record c1 { storage = record c1.storage { time_bucket_size = bucket } }))

run_post_load_hooks : M Config (Unit {0})
run_post_load_hooks c =
    if not c.storage.persist
    then (
      record c { storage = record c.storage { pebble_data_path = []; bolt_data_path = [] } },
      ok tt,
    )
    else (c, ok tt)

-- What `Load` does with the configuration it has read.
unfoldable pub check_config : M Config (Unit {0})
unfolding run_post_load_hooks validate_storage validate_raft
check_config = do run_post_load_hooks; validate_storage; validate_raft

pub check_config-engine :
    (c c' : Config)
    → check_config c ≡ (c', ok tt)
    → (bytes_eq c'.storage.engine_type pebble_text || bytes_eq c'.storage.engine_type bolt_text)
      ≡ true
unfolding check_config run_post_load_hooks validate_storage validate_raft
check_config-engine c c' h = ground arith

-- A configuration that is let through has a bucket size with which no bucket computation of a time
-- that is not negative panics, whatever size it was given; its engine is one of the two known.
check_config-bucket :
    (c c' : Config) (t : ℕ)
    → check_config c ≡ (c', ok tt)
    → c.storage.time_bucket_size < 2 ^ 64
    → t < 2 ^ 63
    → (calculate_bucket t c'.storage.time_bucket_size
        ≡ ok (bucket_of t c'.storage.time_bucket_size))
      × ((bytes_eq c'.storage.engine_type pebble_text || bytes_eq c'.storage.engine_type bolt_text)
          ≡ true)
unfolding check_config run_post_load_hooks validate_storage validate_raft
check_config-bucket c c' t h hb ht =
    (calculate_bucket-bucket_of t c'.storage.time_bucket_size (ground arith) ht, ground arith)
