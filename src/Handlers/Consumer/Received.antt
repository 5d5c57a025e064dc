-- ===== src/Handlers/Consumer/Received.antt =====
-- What the frames of a consumer change.
use futureq_v.Prelude.{
  ◌≡◌, arith, refl, sym, ◌∙◌, List, [], ◌∷◌, ◌++◌, append_assoc, append-nil, true, false,
}
use futureq_v.Bytes.{Bytes}
use futureq_v.Dispatcher.Hub.{remove_in_flight_for_consumer}
use futureq_v.Dispatcher.Deleter.{mark_deleted}
use futureq_v.Dispatcher.Dispatch.{Dispatcher}
use futureq_v.Handlers.Consumer.{
  ConsumerFrame, init_frame, ack_frame, empty_frame, receive, receive_all,
}

-- The delivery tags of the frames that acknowledge a success.
abbrev pub acknowledged : List ConsumerFrame → List Bytes
acknowledged [] = []
acknowledged (init_frame init ∷ fs) = acknowledged fs
acknowledged (ack_frame tag true ∷ fs) = tag ∷ acknowledged fs
acknowledged (ack_frame tag false ∷ fs) = acknowledged fs
acknowledged (empty_frame ∷ fs) = acknowledged fs

-- The frames of a consumer mark for deletion exactly the tags that acknowledge a success, in order and
-- of any length, and change nothing that the dispatcher sends by: neither the subscriptions nor what it
-- knows to be in flight, so that a refused message too waits for its timeout.
pub receive_all-acknowledged :
    (id : Bytes) (frames : List ConsumerFrame) (d : Dispatcher)
    → let d' = receive_all id frames d in
      (d'.deleter.pending ≡ d.deleter.pending ++ acknowledged frames)
      × (d'.in_flight ≡ d.in_flight)
      × (d'.hub.topics ≡ d.hub.topics)
      × (d'.hub.buffers ≡ d.hub.buffers)
unfolding receive_all receive mark_deleted remove_in_flight_for_consumer
receive_all-acknowledged id [] d = (sym (append-nil d.deleter.pending), refl, refl, refl)
receive_all-acknowledged id (init_frame init ∷ fs) d = receive_all-acknowledged id fs d
receive_all-acknowledged id (empty_frame ∷ fs) d = receive_all-acknowledged id fs d
receive_all-acknowledged id (ack_frame tag false ∷ fs) d =
    receive_all-acknowledged id fs (record d { hub = remove_in_flight_for_consumer id tag d.hub })
receive_all-acknowledged id (ack_frame tag true ∷ fs) d =
    let (p, f, t, b) = receive_all-acknowledged id fs (record d {
      hub = remove_in_flight_for_consumer id tag d.hub;
      deleter = mark_deleted tag d.deleter;
    }) in
    (p ∙ append_assoc d.deleter.pending (tag ∷ []) (acknowledged fs), f, t, b)

receive-flushing :
    (id : Bytes) (f : ConsumerFrame) (d : Dispatcher)
    → (receive id f d).deleter.flushing ≡ d.deleter.flushing
unfolding receive mark_deleted
receive-flushing id f d = ground arith

pub receive_all-flushing :
    (id : Bytes) (frames : List ConsumerFrame) (d : Dispatcher)
    → (receive_all id frames d).deleter.flushing ≡ d.deleter.flushing
unfolding receive_all receive mark_deleted
receive_all-flushing id [] d = refl
receive_all-flushing id (f ∷ fs) d =
    receive_all-flushing id fs (receive id f d) ∙ receive-flushing id f d
