-- ===== src/Dispatcher/Hub.antt =====
-- internal/dispatcher/hub.go: consumers by topic and group, and the delivery of a message to them.
-- The locks make each method one step. The buffers of all consumer channels are one list of
-- (channel, message) in the order of sending; a channel is a number, and its capacity is given.
pub mod Send
pub mod RoundRobin
pub mod Delivery
pub mod Room
pub mod Registry
pub mod Sent
use futureq_v.Prelude.{
  ℕ, zero, suc, ◌+◌, ◌%◌, ◌≡◌, List, [], ◌∷◌, ◌++◌, map, Option, none, some, Bool, true, false, not,
  ◌&&◌, ◌==◌, ltb, if◌then◌else◌, length,
}
use futureq_v.Bytes.{Bytes}
use futureq_v.Bytes.Order.{bytes_eq}
use futureq_v.Maps.{Map, lookup, insert, remove}

-- pb.QueueMessage
pub record QueueMessage : Type 0 where
  pub topic : Bytes
  pub payload : Bytes
  pub delivery_tag : Bytes
  pub enqueued_at : ℕ
  pub delay : ℕ

pub record ConsumerEntry : Type 0 where
  pub id : Bytes
  pub topic : Bytes
  pub group : Bytes
  pub ch : ℕ

abbrev pub is_empty {ℓ} : {A : Type ℓ} → List A → Bool
is_empty [] = true
is_empty (x ∷ xs) = false

unfoldable pub is_universal : ConsumerEntry → Bool
is_universal c = is_empty c.group

-- The text "|__universal__|".
abbrev universal_mark : Bytes
universal_mark =
    b'|' ∷ b'_' ∷ b'_' ∷ b'u' ∷ b'n' ∷ b'i' ∷ b'v' ∷ b'e' ∷ b'r' ∷ b's' ∷ b'a' ∷ b'l' ∷ b'_' ∷ b'_'
    ∷ b'|' ∷ []

unfoldable pub group_key : ConsumerEntry → Bytes
group_key c =
    if is_empty c.group
    then c.topic ++ universal_mark ++ c.id
    else c.topic ++ (b'|' ∷ []) ++ c.group

-- ── RoundRobinStrategy ──

-- `next`: group key → next index
abbrev pub RoundRobin : Type 0
RoundRobin = Map ℕ

abbrev pub get_elem? {ℓ} : {A : Type ℓ} → List A → ℕ → Option A
get_elem? [] i = none
get_elem? (x ∷ xs) zero = some x
get_elem? (x ∷ xs) (suc i) = get_elem? xs i

-- A missing key reads as 0.
abbrev pub index_or_zero : Option ℕ → ℕ
index_or_zero none = 0
index_or_zero (some n) = n

unfoldable pub select : List ConsumerEntry → RoundRobin → RoundRobin × Option ConsumerEntry
unfolding group_key
select [] next = (next, none)
select (c ∷ cs) next =
    let n = length (c ∷ cs) in
    let idx = index_or_zero (lookup (group_key c) next) in
    (insert (group_key c) ((idx + 1) % n) next, get_elem? (c ∷ cs) (idx % n))

-- ── TopicSubscription ──

pub record TopicSubscription : Type 0 where
  pub groups : Map (List ConsumerEntry)
  pub universal : Map ConsumerEntry

abbrev pub new_topic_subscription : TopicSubscription
new_topic_subscription = record { groups = []; universal = [] }

abbrev pub group_or_nil : Option (List ConsumerEntry) → List ConsumerEntry
group_or_nil none = []
group_or_nil (some cs) = cs

abbrev pub subscription_or_new : Option TopicSubscription → TopicSubscription
subscription_or_new none = new_topic_subscription
subscription_or_new (some sub) = sub

unfoldable pub add : ConsumerEntry → TopicSubscription → TopicSubscription
unfolding is_universal
add c ts =
    if is_universal c then record ts { universal = insert c.id c ts.universal } else record ts {
      groups = insert c.group (group_or_nil (lookup c.group ts.groups) ++ (c ∷ [])) ts.groups;
    }

-- The first entry with the id is cut out.
unfoldable pub remove_entry : Bytes → List ConsumerEntry → List ConsumerEntry
remove_entry id [] = []
remove_entry id (c ∷ cs) = if bytes_eq c.id id then cs else c ∷ remove_entry id cs

-- An absent group stays absent: the loop over it does nothing.
remove_from_group : ConsumerEntry → Map (List ConsumerEntry) → Map (List ConsumerEntry)
unfolding remove_entry
remove_from_group c groups =
    let rest = remove_entry c.id (group_or_nil (lookup c.group groups)) in
    if is_empty rest then remove c.group groups else insert c.group rest groups

unfoldable pub is_empty_subscription : TopicSubscription → Bool
is_empty_subscription ts = is_empty ts.groups && is_empty ts.universal

-- The subscription without the consumer, and whether it is now empty.
unfoldable pub remove_consumer : ConsumerEntry → TopicSubscription → TopicSubscription × Bool
unfolding is_universal remove_from_group is_empty_subscription
remove_consumer c ts =
    let ts' =
      if is_universal c
      then record ts { universal = remove c.id ts.universal }
      else record ts { groups = remove_from_group c ts.groups } in
    (ts', is_empty_subscription ts')

-- ── Hub ──

pub record Hub : Type 0 where
  pub topics : Map TopicSubscription
  pub by_id : Map ConsumerEntry
  pub in_flight : Map (List Bytes)
  pub next : RoundRobin
  pub buffers : List (ℕ × QueueMessage)
  -- A signal waits in the wake channel, whose capacity is 1.
  pub wake : Bool

abbrev pub new_hub : Hub
new_hub = record { topics = []; by_id = []; in_flight = []; next = []; buffers = []; wake = false }

unfoldable pub register : (id topic group : Bytes) (ch : ℕ) → Hub → Hub
unfolding add
register id topic group ch h =
    let entry : ConsumerEntry = record { id = id; topic = topic; group = group; ch = ch } in
    record h {
      topics = insert topic (add entry (subscription_or_new (lookup topic h.topics))) h.topics;
      by_id = insert id entry h.by_id;
      wake = true;
    }

abbrev after_remove :
    Bytes → TopicSubscription × Bool → Map TopicSubscription → Map TopicSubscription
after_remove topic (ts, true) topics = remove topic topics
after_remove topic (ts, false) topics = insert topic ts topics

abbrev remove_from_topic :
    ConsumerEntry → Option TopicSubscription → Map TopicSubscription → Map TopicSubscription
remove_from_topic c none topics = topics
remove_from_topic c (some sub) topics = after_remove c.topic (remove_consumer c sub) topics

abbrev unregister_entry : Option ConsumerEntry → Bytes → Hub → Hub
unregister_entry none id h = h
unregister_entry (some entry) id h = record h {
  topics = remove_from_topic entry (lookup entry.topic h.topics) h.topics;
  by_id = remove id h.by_id;
  in_flight = remove id h.in_flight;
}

unfoldable pub unregister : Bytes → Hub → Hub
unfolding remove_consumer
unregister id h = unregister_entry (lookup id h.by_id) id h

abbrev pub keys_or_nil : Option (List Bytes) → List Bytes
keys_or_nil none = []
keys_or_nil (some ks) = ks

-- The first occurrence of the key is cut out.
unfoldable pub remove_key : Bytes → List Bytes → List Bytes
remove_key key [] = []
remove_key key (k ∷ ks) = if bytes_eq k key then ks else k ∷ remove_key key ks

abbrev remove_in_flight_key :
    Option (List Bytes) → Bytes → Bytes → Map (List Bytes) → Map (List Bytes)
remove_in_flight_key none id key m = m
remove_in_flight_key (some ks) id key m = insert id (remove_key key ks) m

unfoldable pub remove_in_flight_for_consumer : Bytes → Bytes → Hub → Hub
unfolding remove_key
remove_in_flight_for_consumer id key h = record h {
  in_flight = remove_in_flight_key (lookup id h.in_flight) id key h.in_flight;
}

unfoldable pub active_topics : Hub → List Bytes
active_topics h = map (λ p. p.0) h.topics

unfoldable pub has_consumers : Hub → Bool
has_consumers h = not (is_empty h.by_id)

non_empty_groups : Map (List ConsumerEntry) → List Bytes
non_empty_groups [] = []
non_empty_groups ((gid, cs) ∷ rest) =
    if is_empty cs then non_empty_groups rest else gid ∷ non_empty_groups rest

abbrev groups_of : Option TopicSubscription → List Bytes
groups_of none = []
groups_of (some sub) = non_empty_groups sub.groups

unfoldable pub groups_for_topic : Bytes → Hub → List Bytes
unfolding non_empty_groups
groups_for_topic topic h = groups_of (lookup topic h.topics)
