-- ===== src/Dispatcher/Hub/Room.antt =====
-- internal/dispatcher/hub.go: while each channel has room for what can come to it, every group and every
-- universal consumer is served.
use futureq_v.Prelude.{
  ℕ, zero, suc, ◌+◌, ◌<◌, ◌≤◌, ◌≡◌, ◌≢◌, refl, sym, ap, ap₂, ◌∙◌, List, [], ◌∷◌, ◌++◌, map,
  append_assoc, append-nil, some, arith, Bool, true, false, ◌||◌, ◌==◌, if◌then◌else◌, All,
}
use futureq_v.Bytes.{Bytes}
use futureq_v.Maps.{Map, lookup}
use futureq_v.Dispatcher.Hub.{
  Hub, ConsumerEntry, QueueMessage, TopicSubscription, select, get_elem?,
}
use futureq_v.Dispatcher.Hub.Send.{
  queued, try_send, send_selected, dispatch_groups, dispatch_universal, dispatch_to_topic,
}
use futureq_v.Dispatcher.Hub.RoundRobin.{select_total, select_member}
use futureq_v.Dispatcher.Hub.Delivery.{Sends}

-- ── what can come to a channel ──

-- Whether a member of a group listens to the channel.
abbrev uses : ℕ → List ConsumerEntry → Bool
uses ch [] = false
uses ch (c ∷ cs) = c.ch == ch || uses ch cs

-- One message at most of each group of which a member listens, and one of each universal consumer.
unfoldable pub groups_demand : ℕ → Map (List ConsumerEntry) → ℕ
groups_demand ch [] = 0
groups_demand ch ((gid, cs) ∷ gs) = (if uses ch cs then 1 else 0) + groups_demand ch gs

unfoldable pub universal_demand : ℕ → Map ConsumerEntry → ℕ
universal_demand ch [] = 0
universal_demand ch ((id, c) ∷ cs) = (if c.ch == ch then 1 else 0) + universal_demand ch cs

-- One send to a member of each group, in the order of the groups.
abbrev pub ServesEach : QueueMessage → Map (List ConsumerEntry) → Sends → Type 0
ServesEach msg [] sends = sends ≡ []
ServesEach msg ((gid, cs) ∷ gs) sends =
    (i : ℕ) × (c : ConsumerEntry) × (rest : Sends) × (get_elem? cs i ≡ some c)
    × (sends ≡ (c.ch, msg) ∷ rest)
    × ServesEach msg gs rest

queued-append : (ch : ℕ) (xs ys : Sends) → queued ch (xs ++ ys) ≡ queued ch xs + queued ch ys
unfolding queued
queued-append ch [] ys = omega arith
queued-append ch ((c, m) ∷ xs) ys = ground (arith, queued-append ch xs ys)

queued_one :
    (ch : ℕ) (xs : Sends) (c : ConsumerEntry) (msg : QueueMessage)
    → queued ch (xs ++ ((c.ch, msg) ∷ [])) ≡ queued ch xs + (if c.ch == ch then 1 else 0)
unfolding queued
queued_one ch xs c msg = ground (arith, queued-append ch xs ((c.ch, msg) ∷ []))

get_elem?-uses :
    (cs : List ConsumerEntry) (i : ℕ) (c : ConsumerEntry)
    → get_elem? cs i ≡ some c
    → uses c.ch cs ≡ true
get_elem?-uses [] i c h = cc
get_elem?-uses (x ∷ cs) zero c h = let same : x ≡ c = cc h in rw same (ground arith)
get_elem?-uses (x ∷ cs) (suc i) c h = ground (arith, get_elem?-uses cs i c h)

-- A channel with room takes the message.
try_send_room :
    (capacity : ℕ) (c : ConsumerEntry) (msg : QueueMessage) (tag : Bytes) (h : Hub)
    → queued c.ch h.buffers < capacity
    → ((try_send capacity c msg tag h).1 ≡ true)
      × ((try_send capacity c msg tag h).0.buffers ≡ h.buffers ++ ((c.ch, msg) ∷ []))
unfolding try_send
try_send_room capacity c msg tag h room = ground arith

abbrev pub NonEmpty : Bytes × List ConsumerEntry → Type 0
NonEmpty g = g.1 ≢ []

-- ── a group ──

abbrev Sent : QueueMessage → List ConsumerEntry → Hub → Hub × Bool → Type 0
Sent msg cs h r =
    (i : ℕ) × (c : ConsumerEntry) × (get_elem? cs i ≡ some c)
    × (r.1 ≡ true)
    × (r.0.buffers ≡ h.buffers ++ ((c.ch, msg) ∷ []))

send_selected-Sent :
    (capacity : ℕ) (cs : List ConsumerEntry) (msg : QueueMessage) (tag : Bytes) (h : Hub)
    → cs ≢ []
    → ((ch : ℕ) → queued ch h.buffers + (if uses ch cs then 1 else 0) ≤ capacity)
    → Sent msg cs h (
        send_selected capacity
          (select cs h.next).1
          msg
          tag
          (record h { next = (select cs h.next).0 }))
send_selected-Sent capacity [] msg tag h ne room = absurd (ne refl)
send_selected-Sent capacity (c ∷ cs) msg tag h ne room =
    let (x, chosen) = select_total c cs h.next in
    let (i, member) = select_member (c ∷ cs) h.next chosen in
    let used = get_elem?-uses (c ∷ cs) i x member in
    let free : queued x.ch h.buffers < capacity = ground (arith, room x.ch, used) in
    let (sent, added) =
      try_send_room capacity x msg tag (record h { next = (select (c ∷ cs) h.next).0 }) free in
    (i, x, member, rw chosen sent, rw chosen added)

uses_bound :
    (ch : ℕ) (c : ConsumerEntry) (cs : List ConsumerEntry)
    → uses c.ch cs ≡ true
    → (h : Hub) (msg : QueueMessage)
    → queued ch (h.buffers ++ ((c.ch, msg) ∷ []))
      ≤ queued ch h.buffers + (if uses ch cs then 1 else 0)
uses_bound ch c cs used h msg = ground (arith, queued_one ch h.buffers c msg)

after_one :
    (ch : ℕ) (msg : QueueMessage) (cs : List ConsumerEntry) (h : Hub) (r : Hub × Bool)
    → Sent msg cs h r
    → queued ch r.0.buffers ≤ queued ch h.buffers + (if uses ch cs then 1 else 0)
after_one ch msg cs h r (i, c, member, sent, added) =
    rw added (uses_bound ch c cs (get_elem?-uses cs i c member) h msg)

-- ── the topic ──

abbrev Served : QueueMessage → Map (List ConsumerEntry) → Hub → Hub × List Bytes → Type 0
Served msg gs h r =
    (sends : Sends) × ServesEach msg gs sends
    × (r.1 ≡ map (λ g. g.0) gs)
    × (r.0.buffers ≡ h.buffers ++ sends)
    × ((ch : ℕ) → queued ch r.0.buffers ≤ queued ch h.buffers + groups_demand ch gs)

dispatch_groups-Served :
    (capacity : ℕ) (gs : Map (List ConsumerEntry)) (msg : QueueMessage) (tag : Bytes) (h : Hub)
    → All NonEmpty gs
    → ((ch : ℕ) → queued ch h.buffers + groups_demand ch gs ≤ capacity)
    → Served msg gs h (dispatch_groups capacity gs msg tag h)
unfolding dispatch_groups groups_demand
dispatch_groups-Served capacity [] msg tag h ne room =
    ([], refl, refl, sym (append-nil h.buffers), λ ch. omega arith)
dispatch_groups-Served capacity ((gid, cs) ∷ gs) msg tag h ne room =
    let r =
      send_selected capacity (select cs h.next).1 msg tag
        (record h { next = (select cs h.next).0 }) in
    let one = send_selected-Sent capacity cs msg tag h ne.0 (λ ch. omega (arith, room ch)) in
    let (i, c, member, sent, added) = one in
    let (sends, each, reports, buffers, bound) =
      dispatch_groups-Served capacity gs msg tag r.0 ne.1
        (λ ch. omega (arith, room ch, after_one ch msg cs h r one)) in
    (
      (c.ch, msg) ∷ sends,
      (i, c, sends, member, refl, each),
      rw sent (ap (◌∷◌ gid) reports),
      buffers
          ∙ ap (λ (bs : Sends). bs ++ sends) added
          ∙ append_assoc h.buffers ((c.ch, msg) ∷ []) sends,
      λ ch. omega (arith, bound ch, after_one ch msg cs h r one),
    )

dispatch_universal_all :
    (capacity : ℕ) (cs : Map ConsumerEntry) (msg : QueueMessage) (tag : Bytes) (h : Hub)
    → ((ch : ℕ) → queued ch h.buffers + universal_demand ch cs ≤ capacity)
    → let r = dispatch_universal capacity cs msg tag h in
      (r.1 ≡ map (λ c. []) cs) × (r.0.buffers ≡ h.buffers ++ map (λ c. (c.1.ch, msg)) cs)
unfolding dispatch_universal universal_demand
dispatch_universal_all capacity [] msg tag h room = (refl, sym (append-nil h.buffers))
dispatch_universal_all capacity ((id, c) ∷ cs) msg tag h room =
    let free : queued c.ch h.buffers < capacity = ground (arith, room c.ch) in
    let (sent, added) = try_send_room capacity c msg tag h free in
    let h1 = (try_send capacity c msg tag h).0 in
    let (reports, buffers) =
      dispatch_universal_all capacity cs msg tag h1
        (λ ch. omega (arith, room ch, ap (queued ch) added, queued_one ch h.buffers c msg)) in
    (
      rw sent (ap (◌∷◌ []) reports),
      buffers
          ∙ ap (λ (bs : Sends). bs ++ map (λ p. (p.1.ch, msg)) cs) added
          ∙ append_assoc h.buffers ((c.ch, msg) ∷ []) (map (λ p. (p.1.ch, msg)) cs),
    )

-- Where no group is empty, and each channel has room beside what waits in it for one message of each
-- group of which a member listens and one of each universal consumer that does, a dispatch puts the
-- message into the channel of one member of each group and then of every universal consumer, and
-- nothing else into any channel; it reports all of them.
pub dispatch_to_topic-All :
    (capacity : ℕ) (topic : Bytes) (msg : QueueMessage) (tag : Bytes) (h : Hub)
    (sub : TopicSubscription)
    → lookup topic h.topics ≡ some sub
    → All NonEmpty sub.groups
    → ((ch : ℕ)
        → queued ch h.buffers + groups_demand ch sub.groups + universal_demand ch sub.universal
          ≤ capacity)
    → let r = dispatch_to_topic capacity topic msg tag h in
      (sends : Sends) × ServesEach msg sub.groups sends
      × (r.0.buffers ≡ h.buffers ++ sends ++ map (λ c. (c.1.ch, msg)) sub.universal)
      × (r.1 ≡ map (λ g. g.0) sub.groups ++ map (λ c. []) sub.universal)
unfolding dispatch_to_topic
dispatch_to_topic-All capacity topic msg tag h sub e ne room =
    let h1 = (dispatch_groups capacity sub.groups msg tag h).0 in
    let (sends, each, reports, buffers, bound) =
      dispatch_groups-Served capacity sub.groups msg tag h ne (λ ch. omega (arith, room ch)) in
    let (others, more) =
      dispatch_universal_all capacity sub.universal msg tag h1
        (λ ch. omega (arith, room ch, bound ch)) in
    let universal = map (λ (c : Bytes × ConsumerEntry). (c.1.ch, msg)) sub.universal in
    (
      sends,
      each,
      rw (e, dispatch_to_topic) (more ∙ ap (λ (bs : Sends). bs ++ universal) buffers),
      rw (e, dispatch_to_topic) (ap₂ ◌++◌ reports others),
    )
