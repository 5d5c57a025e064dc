-- ===== src/Dispatcher/Hub/Sent.antt =====
-- internal/dispatcher/hub.go: which delivery tags a dispatch puts into the channels.
use futureq_v.Prelude.{
  ℕ, ◌+◌, ◌≡◌, refl, ◌∙◌, List, [], ◌∷◌, ◌++◌, Option, none, some, false, if◌then◌else◌, arith,
}
use futureq_v.Bytes.{Bytes}
use futureq_v.Bytes.Order.{bytes_eq}
use futureq_v.Maps.{Map, lookup}
use futureq_v.Dispatcher.Hub.{Hub, QueueMessage, ConsumerEntry, TopicSubscription, select}
use futureq_v.Dispatcher.Hub.Send.{
  try_send, dispatch_groups, dispatch_universal, dispatch_to, dispatch_to_topic, send_selected,
}

-- How many messages with the delivery tag were sent to channels.
unfoldable pub sent_with : Bytes → List (ℕ × QueueMessage) → ℕ
sent_with k [] = 0
sent_with k ((c, m) ∷ rest) = (if bytes_eq m.delivery_tag k then 1 else 0) + sent_with k rest

sent_with-append :
    (k : Bytes) (xs ys : List (ℕ × QueueMessage))
    → sent_with k (xs ++ ys) ≡ sent_with k xs + sent_with k ys
unfolding sent_with
sent_with-append k [] ys = ground arith
sent_with-append k ((c, m) ∷ xs) ys = ground (arith, sent_with-append k xs ys)

module _ (capacity : ℕ) (msg : QueueMessage) (tag k : Bytes)
    (other : bytes_eq msg.delivery_tag k ≡ false) where
  try_send-sent :
      (c : ConsumerEntry) (h : Hub)
      → sent_with k (try_send capacity c msg tag h).0.buffers ≡ sent_with k h.buffers
  unfolding try_send sent_with
  try_send-sent c h = ground (arith, sent_with-append k h.buffers ((c.ch, msg) ∷ []))

  send_selected-sent :
      (c : Option ConsumerEntry) (h : Hub)
      → sent_with k (send_selected capacity c msg tag h).0.buffers ≡ sent_with k h.buffers
  send_selected-sent none h = refl
  send_selected-sent (some c) h = try_send-sent c h

  dispatch_groups-sent :
      (groups : Map (List ConsumerEntry)) (h : Hub)
      → sent_with k (dispatch_groups capacity groups msg tag h).0.buffers ≡ sent_with k h.buffers
  unfolding dispatch_groups
  dispatch_groups-sent [] h = refl
  dispatch_groups-sent ((gid, cs) ∷ rest) h =
      dispatch_groups-sent rest _
      ∙ send_selected-sent (select cs h.next).1 (record h { next = (select cs h.next).0 })

  dispatch_universal-sent :
      (cs : Map ConsumerEntry) (h : Hub)
      → sent_with k (dispatch_universal capacity cs msg tag h).0.buffers ≡ sent_with k h.buffers
  unfolding dispatch_universal
  dispatch_universal-sent [] h = refl
  dispatch_universal-sent ((id, c) ∷ rest) h = dispatch_universal-sent rest _ ∙ try_send-sent c h

  dispatch_to-sent :
      (sub : Option TopicSubscription) (h : Hub)
      → sent_with k (dispatch_to capacity sub msg tag h).0.buffers ≡ sent_with k h.buffers
  dispatch_to-sent none h = refl
  dispatch_to-sent (some sub) h =
      dispatch_universal-sent sub.universal _ ∙ dispatch_groups-sent sub.groups h

  -- A dispatch sends no message with another delivery tag than its own.
  pub dispatch_to_topic-sent :
      (topic : Bytes) (h : Hub)
      → sent_with k (dispatch_to_topic capacity topic msg tag h).0.buffers ≡ sent_with k h.buffers
  unfolding dispatch_to_topic
  dispatch_to_topic-sent topic h = dispatch_to-sent (lookup topic h.topics) h
