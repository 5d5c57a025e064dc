-- ===== src/Dispatcher/Hub/Send.antt =====
-- internal/dispatcher/hub.go: the delivery of a message to the groups and universal consumers of its topic.
use futureq_v.Prelude.{
  ℕ, ◌+◌, List, [], ◌∷◌, ◌++◌, Option, none, some, Bool, true, false, ◌==◌, ltb, if◌then◌else◌,
}
use futureq_v.Bytes.{Bytes}
use futureq_v.Maps.{Map, lookup, insert}
use futureq_v.Dispatcher.Hub.{
  ConsumerEntry, QueueMessage, TopicSubscription, Hub, select, keys_or_nil,
}

-- How many messages wait in a channel.
unfoldable pub queued : ℕ → List (ℕ × QueueMessage) → ℕ
queued ch [] = 0
queued ch ((c, m) ∷ rest) = (if c == ch then 1 else 0) + queued ch rest

-- A send that would block takes the default case.
unfoldable pub try_send : ℕ → ConsumerEntry → QueueMessage → Bytes → Hub → Hub × Bool
try_send capacity c msg tag h =
    if ltb (queued c.ch h.buffers) capacity
    then (
      record h {
        buffers = h.buffers ++ ((c.ch, msg) ∷ []);
        in_flight = insert c.id (keys_or_nil (lookup c.id h.in_flight) ++ (tag ∷ [])) h.in_flight;
      },
      true,
    )
    else (h, false)

abbrev pub report : Bytes → Bool → List Bytes → List Bytes
report gid true sent = gid ∷ sent
report gid false sent = sent

abbrev pub send_selected : ℕ → Option ConsumerEntry → QueueMessage → Bytes → Hub → Hub × Bool
send_selected capacity none msg tag h = (h, false)
send_selected capacity (some c) msg tag h = try_send capacity c msg tag h

unfoldable pub dispatch_groups :
    ℕ → Map (List ConsumerEntry) → QueueMessage → Bytes → Hub → Hub × List Bytes
unfolding select try_send
dispatch_groups capacity [] msg tag h = (h, [])
dispatch_groups capacity ((gid, consumers) ∷ rest) msg tag h =
    let (next, selected) = select consumers h.next in
    let (h1, sent) = send_selected capacity selected msg tag (record h { next = next }) in
    let (h2, sent_to) = dispatch_groups capacity rest msg tag h1 in (h2, report gid sent sent_to)

unfoldable pub dispatch_universal :
    ℕ → Map ConsumerEntry → QueueMessage → Bytes → Hub → Hub × List Bytes
unfolding try_send
dispatch_universal capacity [] msg tag h = (h, [])
dispatch_universal capacity ((id, c) ∷ rest) msg tag h =
    let (h1, sent) = try_send capacity c msg tag h in
    let (h2, sent_to) = dispatch_universal capacity rest msg tag h1 in (h2, report [] sent sent_to)

abbrev pub dispatch_to :
    ℕ → Option TopicSubscription → QueueMessage → Bytes → Hub → Hub × List Bytes
dispatch_to capacity none msg tag h = (h, [])
dispatch_to capacity (some sub) msg tag h =
    let (h1, sent1) = dispatch_groups capacity sub.groups msg tag h in
    let (h2, sent2) = dispatch_universal capacity sub.universal msg tag h1 in (h2, sent1 ++ sent2)

-- The hub after the dispatch, and the group ids that the message was sent to.
unfoldable pub dispatch_to_topic : ℕ → Bytes → QueueMessage → Bytes → Hub → Hub × List Bytes
unfolding dispatch_groups dispatch_universal
dispatch_to_topic capacity topic msg tag h = dispatch_to capacity (lookup topic h.topics) msg tag h
