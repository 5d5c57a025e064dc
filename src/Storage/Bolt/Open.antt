-- ===== src/Storage/Bolt/Open.antt =====
-- internal/storage/bbolt.go: how a database file is opened.
use futureq_v.Prelude.{◌≡◌, ◌∙◌, List, [], ◌∷◌}
use futureq_v.Prelude.Result.{Result, ok, err, panic}
use futureq_v.Prelude.Method.{M, continue}
use futureq_v.Bytes.{Bytes}

abbrev default_bucket : Bytes
default_bucket = b'f' ∷ b'u' ∷ b't' ∷ b'u' ∷ b'r' ∷ b'e' ∷ b'q' ∷ []

abbrev bucket_name : Bytes → Bytes
bucket_name [] = default_bucket
bucket_name (b ∷ bs) = b ∷ bs

-- bbolt, over the state `S` of its files: a handle `H` is opened, and buckets are made in a transaction.
pub record BoltFiles (S H : Type 0) : Type 0 where
  pub open_file : (path : Bytes) → M S H
  pub create_bucket_if_not_exists : (name : Bytes) → H → M S (Unit {0})
  pub close_file : H → M S (Unit {0})

module _ {S H : Type 0} (bolt : BoltFiles S H) where
  -- The error of `Close` is dropped.
  abbrev with_bucket : Bytes → H → S × Result (Unit {0}) → S × Result (H × Bytes)
  with_bucket name h (s, ok u) = (s, ok (h, name))
  with_bucket name h (s, err e) = ((bolt.close_file h s).0, err e)
  with_bucket name h (s, panic) = (s, panic)

  -- The handle, and the name of the bucket that the adapter uses.
  unfoldable pub new_bolt_db : (path bucket : Bytes) → M S (H × Bytes)
  new_bolt_db path bucket s = continue (bolt.open_file path s) λ h s1.
      with_bucket (bucket_name bucket) h
        (bolt.create_bucket_if_not_exists (bucket_name bucket) h s1)

  module _ (handles : S → List H) where
    -- What `open` leaves open: one handle more where it succeeds, and none where it fails.
    unfoldable pub Opens : List H → S × Result (H × Bytes) → Type 0
    Opens before (s, ok (h, name)) = handles s ≡ h ∷ before
    Opens before (s, err e) = handles s ≡ before
    Opens before (s, panic) = Unit {0}

    with_bucket-Opens :
        (name : Bytes) (h : H) (before : List H) (r : S × Result (Unit {0}))
        → ((s : S) → handles s ≡ h ∷ before → handles (bolt.close_file h s).0 ≡ before)
        → handles r.0 ≡ h ∷ before
        → Opens before (with_bucket name h r)
    unfolding Opens
    with_bucket-Opens name h before (s, ok u) close open_now = open_now
    with_bucket-Opens name h before (s, err e) close open_now = close s open_now
    with_bucket-Opens name h before (s, panic) close open_now = tt

    -- What bbolt does with handles: `Open` adds one where it succeeds, transactions keep them, and
    -- `Close` gives back the newest.
    abbrev pub Opened : List H → S × Result H → Type 0
    Opened before (s, ok h) = handles s ≡ h ∷ before
    Opened before (s, err e) = handles s ≡ before
    Opened before (s, panic) = Unit {0}

    Opened-Opens :
        (name : Bytes) (before : List H) (r : S × Result H)
        → ((h : H) (s : S) → handles (bolt.create_bucket_if_not_exists name h s).0 ≡ handles s)
        → ((h : H) (s : S) (hs : List H)
            → handles s ≡ h ∷ hs
            → handles (bolt.close_file h s).0 ≡ hs)
        → Opened before r
        → Opens before
            (continue r λ h s1. with_bucket name h (bolt.create_bucket_if_not_exists name h s1))
    unfolding Opens
    Opened-Opens name before (s, ok h) keeps close o =
        with_bucket-Opens name h before (bolt.create_bucket_if_not_exists name h s)
          (λ s1. close h s1 before) (keeps h s ∙ o)
    Opened-Opens name before (s, err e) keeps close o = o
    Opened-Opens name before (s, panic) keeps close o = tt

    -- Where bbolt leaves one handle more open if it opens a file and none if it does not, keeps the
    -- handles in a transaction, and closes the newest, `NewBoltDB` leaves one handle more open if it
    -- succeeds, and as many as before if it fails: also where only the bucket cannot be made.
    pub new_bolt_db-Opens :
        (path bucket : Bytes) (s : S)
        → ((p : Bytes) (s0 : S) → Opened (handles s0) (bolt.open_file p s0))
        → ((name : Bytes) (h : H) (s0 : S)
            → handles (bolt.create_bucket_if_not_exists name h s0).0 ≡ handles s0)
        → ((h : H) (s0 : S) (hs : List H)
            → handles s0 ≡ h ∷ hs
            → handles (bolt.close_file h s0).0 ≡ hs)
        → Opens (handles s) (new_bolt_db path bucket s)
    unfolding new_bolt_db
    new_bolt_db-Opens path bucket s opens keeps close =
        Opened-Opens (bucket_name bucket) (handles s) (bolt.open_file path s)
          (keeps (bucket_name bucket)) close (opens path s)
