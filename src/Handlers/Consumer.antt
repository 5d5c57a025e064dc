-- ===== src/Handlers/Consumer.antt =====
-- internal/api/grpc/handlers/consumer.go: the stream of a consumer. Its frames come as a list that ends
-- with the stream.
pub mod Received
pub mod Stream
use futureq_v.Prelude.{
  ℕ, List, [], ◌∷◌, Bool, true, false, not, ◌&&◌, Option, none, some, ◌==◌, if◌then◌else◌,
}
use futureq_v.Prelude.Result.{Result, ok, err, panic, end_of_file, no_init, empty_topic, not_leader}
use futureq_v.Prelude.Method.{M}
use futureq_v.Bytes.{Bytes}
use futureq_v.Dispatcher.Hub.{register, unregister, remove_in_flight_for_consumer}
use futureq_v.Dispatcher.Deleter.{mark_deleted}
use futureq_v.Dispatcher.Dispatch.{Dispatcher}

pub record SubscribeInit : Type 0 where
  pub topic : Bytes
  pub group_id : Bytes

-- pb.ConsumerFrame, whose body can be missing.
pub data ConsumerFrame : Type 0 where
  init_frame : SubscribeInit → ConsumerFrame
  ack_frame : (delivery_tag : Bytes) (success : Bool) → ConsumerFrame
  empty_frame : ConsumerFrame

abbrev check_topic : SubscribeInit → Bytes → Result (Option SubscribeInit)
check_topic init [] = err empty_topic
check_topic init (b ∷ bs) = ok (some init)

-- The end of the stream gives neither an init frame nor an error.
unfoldable pub read_init : Result ConsumerFrame → Result (Option SubscribeInit)
read_init (ok (init_frame init)) = check_topic init init.topic
read_init (ok (ack_frame tag success)) = err no_init
read_init (ok empty_frame) = err no_init
read_init (err end_of_file) = ok none
read_init (err e) = err e
read_init panic = panic

-- Without a node host every node serves consumers.
unfoldable pub check_leadership : Option (Result (ℕ × Bool)) → ℕ → Bool
check_leadership none node = true
check_leadership (some (ok (leader, valid))) node = valid && leader == node
check_leadership (some (err e)) node = false
check_leadership (some panic) node = false

-- The first frame of a stream, up to the registration; `init.Topic` of a nil `init` panics.
abbrev register_init :
    Result (Option SubscribeInit) → Bool → (id : Bytes) (ch : ℕ) → M Dispatcher (Unit {0})
register_init (ok none) leader id ch d = (d, panic)
register_init (ok (some init)) leader id ch d =
    if not leader
    then (d, err not_leader)
    else (record d { hub = register id init.topic init.group_id ch d.hub }, ok tt)
register_init (err e) leader id ch d = (d, err e)
register_init panic leader id ch d = (d, panic)

unfoldable pub subscribe :
    Option (Result (ℕ × Bool))
    → ℕ
    → Result ConsumerFrame
    → (id : Bytes) (ch : ℕ) → M Dispatcher (Unit {0})
unfolding read_init check_leadership
subscribe host node frame = register_init (read_init frame) (check_leadership host node)

abbrev acknowledge : Bytes → Bool → Dispatcher → Dispatcher
acknowledge tag success d = if success then record d { deleter = mark_deleted tag d.deleter } else d

-- One frame behind the first; an init frame or an empty one is passed over.
unfoldable pub receive : Bytes → ConsumerFrame → Dispatcher → Dispatcher
receive id (ack_frame tag success) d =
    acknowledge tag success (record d { hub = remove_in_flight_for_consumer id tag d.hub })
receive id (init_frame init) d = d
receive id empty_frame d = d

unfoldable pub receive_all : Bytes → List ConsumerFrame → Dispatcher → Dispatcher
unfolding receive
receive_all id [] d = d
receive_all id (f ∷ fs) d = receive_all id fs (receive id f d)

-- The deferred end of the stream.
unfoldable pub disconnect : Bytes → Dispatcher → Dispatcher
disconnect id d = record d { hub = unregister id d.hub }
