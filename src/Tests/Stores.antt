-- ===== src/Tests/Stores.antt =====
-- Implementations of the storage contracts and of the libraries the code calls, for the examples.
use futureq_v.Prelude.{refl, sym, ap, List, [], ◌∷◌, ◌++◌, Option, none, some, length}
use futureq_v.Prelude.Result.{Result, ok, err, not_found}
use futureq_v.Bytes.{Bytes}
use futureq_v.Storage.{Db, range}
use futureq_v.Storage.Content.{
  Entries, Op, set, delete, apply_ops, get_entry, put_entry, delete_entry, IsSorted,
  put_entry-IsSorted, delete_entry-IsSorted,
}
use futureq_v.Storage.Bolt.Engine.{BoltEngine, first_entry, later_entries, entries_from}
use futureq_v.Repository.{StoredMessage, Codec}

abbrev pub found : Option Bytes → Result Bytes
found none = err not_found
found (some v) = ok v

-- A store that is the list of its entries.
abbrev pub list_db : Db Entries (List Op)
list_db = record {
  entries = λ es. es;
  ops = λ os. os;
  get = λ es k. found (get_entry k es);
  new_batch = λ es. [];
  batch_set = λ k v os. (os ++ (set k v ∷ []), ok tt);
  batch_delete = λ k os. (os ++ (delete k ∷ []), ok tt);
  commit = λ m os es. (apply_ops os es, ok tt);
  flush = λ es. (es, ok tt);
  visit = λ o es. (range o es, ok tt);
  get_some = λ es k v h. ap found h;
  new_batch_ops = λ es. refl;
  set_ops = λ k v b b' h. ap (λ r. r.0) (sym h);
  delete_ops = λ k b b' h. ap (λ r. r.0) (sym h);
  commit_entries = λ m b d d' h. ap (λ r. r.0) (sym h);
  visit_range = λ o d h. refl;
}

-- A bucket of bbolt that is a sorted list, and a cursor that is a list and what is left of it.
abbrev pub Bucket : Type 0
Bucket = (es : Entries) × IsSorted es

abbrev pub list_engine : BoltEngine Bucket (Entries × Entries)
list_engine = record {
  get = λ t k. get_entry k t.0;
  put = λ t k v. ok (put_entry k v t.0, put_entry-IsSorted k v t.0 t.1);
  delete = λ t k. ok (delete_entry k t.0, delete_entry-IsSorted k t.0 t.1);
  commit_tx = λ t. ok tt;
  cursor = λ t. (t.0, t.0);
  first = λ c. (c.0, c.0);
  seek = λ c lo. (c.0, entries_from lo c.0);
  next = λ c. (c.0, later_entries c.1);
  current = λ c. first_entry c.1;
  entries = λ t. t.0;
  rest = λ c. c.1;
  whole = λ c. c.0;
  get_lem = λ t k. refl;
  put_lem = λ t t' k v h. cc h;
  delete_lem = λ t t' k h. cc h;
  cursor_lem = λ t. refl;
  first_lem = λ c. refl;
  seek_lem = λ c lo. refl;
  next_lem = λ c. refl;
  current_lem = λ c. refl;
  sorted = λ t. t.1;
}

-- Messages that are serialised as their payload, whose length is their TTL when they are read back.
abbrev pub message_of : Bytes → StoredMessage
message_of payload = record {
  topic = b'a' ∷ [];
  payload = payload;
  enqueued_at = 5;
  delay = 0;
  ttl = length payload;
  indexes = [];
}

abbrev pub payload_codec : Codec
payload_codec = record {
  marshal = λ msg. ok msg.payload;
  unmarshal = λ b. ok (message_of b);
  marshal_index = λ idx. ok idx;
  topic_hash = λ t. length t;
}
