-- ===== src/Tests/Batches.antt =====
-- Two batches of events that are open at once, over the store that is a list.
use futureq_v.Prelude.{All, List, [], ◌∷◌, arith}
use futureq_v.Storage.{sync}
use futureq_v.Storage.Content.{Entries, Op}
use futureq_v.Repository.EventBatch.{
  Repo, Call, open_batch, store_on, store_raw_on, delete_on, commit_on, run,
}
use futureq_v.Repository.EventBatch.Interleaved.{InRange, Rises, run-Rises}
use futureq_v.Tests.Stores.{list_db, payload_codec, message_of}

abbrev fresh : Repo Entries (List Op)
fresh = record { store_state = []; last_id = 8; batches = λ i. [] }

abbrev interleaved : List Call
interleaved =
    open_batch 1
    ∷ open_batch 2
    ∷ store_raw_on 1 5 6 [] (1 ∷ [])
    ∷ store_on 2 (message_of (2 ∷ []))
    ∷ delete_on 1 (7 ∷ [])
    ∷ commit_on 2 sync
    ∷ store_raw_on 1 5 6 [] (3 ∷ [])
    ∷ commit_on 1 sync
    ∷ []

in_range : All (InRange payload_codec) interleaved
in_range = (
  tt,
  (
    tt,
    ((omega arith, omega arith), (omega arith, (tt, (tt, ((omega arith, omega arith), (tt, tt)))))),
  ),
)

run-Rises_example : Rises 8 (run list_db payload_codec 0 interleaved fresh).1
run-Rises_example = run-Rises list_db payload_codec 0 interleaved fresh in_range (omega arith)
