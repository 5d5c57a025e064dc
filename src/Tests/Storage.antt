-- ===== src/Tests/Storage.antt =====
-- Keys, the commands, and Bolt at concrete values.
use futureq_v.Prelude.{
  ◌≤◌, ◌<◌, ◌≡◌, refl, List, [], ◌∷◌, ◌++◌, some, true, false, not, ◌&&◌, arith, inr, ap, ℕ,
}
use futureq_v.Prelude.Result.{ok, err, engine}
use futureq_v.Prelude.Method.{M}
use futureq_v.Bytes.{Bytes}
use futureq_v.Bytes.Order.{bytes_lt, bytes_eq}
use futureq_v.Keys.{event_key, topic_lower_bound, due_upper_bound, calculate_bucket}
use futureq_v.Keys.Layout.{event_key_order, due_range}
use futureq_v.Keys.Bucket.{due_bucket}
use futureq_v.Storage.{sync, unbounded, range}
use futureq_v.Storage.Content.{set, delete, apply_ops, put_entry, delete_entry}
use futureq_v.Storage.Bolt.{BoltDb, BoltBatch, commit, scan}
use futureq_v.Storage.Bolt.Contract.{commit-apply_ops, bolt_entries}
use futureq_v.Storage.Bolt.Scan.{scan-range}
use futureq_v.Config.{Config, quorum, check_config, pebble_text}
use futureq_v.Storage.Bolt.Open.{BoltFiles, new_bolt_db, Opens, new_bolt_db-Opens}
use futureq_v.Tests.Stores.{Bucket, list_engine}

event_key_order_example : bytes_lt (event_key 300 2 1) (event_key 4 3 0) ≡ true
event_key_order_example =
    event_key_order 300 2 1 4 3 0 (omega arith) (omega arith) (omega arith) (omega arith)
      (omega arith) (omega arith)

due_range_example :
    (not (bytes_lt (event_key 5 8 1) (topic_lower_bound 8))
      && bytes_lt (event_key 5 8 1) (due_upper_bound 8 4))
    ≡ false
due_range_example = due_range 5 8 1 8 4 (omega arith) (omega arith) (omega arith) (omega arith)

bucket_25 : calculate_bucket 25 2_000_000 ≡ ok 12
unfolding calculate_bucket
bucket_25 = refl

bucket_29 : calculate_bucket 29 2_000_000 ≡ ok 14
unfolding calculate_bucket
bucket_29 = refl

due_bucket_example : (25 ≤ 29 → 12 ≤ 14) × (12 ≤ 14 → 25 < 31)
due_bucket_example =
    due_bucket 25 29 2_000_000 12 14 (inr (omega arith, omega arith)) (omega arith) (omega arith)
      bucket_25 bucket_29

-- ── Bolt ──

abbrev one_entry : BoltDb Bucket
one_entry = record { bucket = some ((5 ∷ [], 6 ∷ []) ∷ [], tt) }

abbrev two_ops : BoltBatch
two_ops = record { ops = set (4 ∷ []) (1 ∷ []) ∷ delete (5 ∷ []) ∷ [] }

commit-apply_ops_example :
    bolt_entries list_engine (commit list_engine sync two_ops one_entry).0 ≡ (4 ∷ [], 1 ∷ []) ∷ []
unfolding commit apply_ops delete_entry put_entry bytes_eq bytes_lt
commit-apply_ops_example =
    commit-apply_ops list_engine sync two_ops one_entry
      (commit list_engine sync two_ops one_entry).0 refl

abbrev collect_keys : Bytes × Bytes → M (List Bytes) (Unit {0})
collect_keys (k, v) ks = (ks ++ k ∷ [], ok tt)

scan-range_example :
    scan list_engine 2 unbounded collect_keys one_entry [] ≡ some ((5 ∷ []) ∷ [], ok tt)
unfolding range
scan-range_example =
    scan-range list_engine 2 unbounded collect_keys ((5 ∷ [], 6 ∷ []) ∷ [], tt) [] (omega arith)

-- ── the configuration ──

abbrev pub given : Config
given = record {
  storage = record {
    min_ack_level = quorum;
    persist = true;
    time_bucket_size = 500;
    engine_type = pebble_text;
    pebble_data_path = b'd' ∷ [];
    pebble_disable_wal = false;
    bolt_data_path = [];
  };
  raft = record {
    enabled = false;
    node_id = 1;
    cluster_id = 1;
    rtt_millisecond = 200;
    snapshot_entries = 10;
    compaction_overhead = 5;
    listen_address = [];
  };
}

-- A bucket size of 500 nanoseconds is replaced by none.
abbrev pub corrected : Config
corrected = record given { storage = record given.storage { time_bucket_size = 0 } }

pub given_passes : check_config given ≡ (corrected, ok tt)
unfolding check_config bytes_eq
given_passes = refl

-- ── a bbolt file ──

abbrev close_newest : M (List ℕ) (Unit {0})
close_newest [] = ([], ok tt)
close_newest (h ∷ hs) = (hs, ok tt)

-- The handles that are open; the bucket cannot be made.
abbrev full_disk : BoltFiles (List ℕ) ℕ
full_disk = record {
  open_file = λ path hs. (1 ∷ hs, ok 1);
  create_bucket_if_not_exists = λ name h hs. (hs, err (engine 0));
  close_file = λ h hs. close_newest hs;
}

new_bolt_db-Opens_example : Opens full_disk (λ hs. hs) [] (new_bolt_db full_disk (b'd' ∷ []) [] [])
new_bolt_db-Opens_example =
    new_bolt_db-Opens full_disk (λ hs. hs) (b'd' ∷ []) [] [] (λ p s0. refl) (λ name h s0. refl)
      (λ h s0 hs e. ap (λ (xs : List ℕ). (close_newest xs).0) e)
