-- ===== src/Dispatcher/Hub/Delivery.antt =====
-- Who receives a message: one member of each group at most, each universal consumer, and nobody else.
use futureq_v.Prelude.{
  ℕ, ◌≡◌, refl, sym, ap, ◌∙◌, ◌⊎◌, inl, inr, List, [], ◌∷◌, ◌++◌, append_assoc, append-nil, Option,
  none, some, arith, Bool, true, false,
}
use futureq_v.Bytes.{Bytes}
use futureq_v.Maps.{Map, lookup}
use futureq_v.Dispatcher.Hub.{
  Hub, ConsumerEntry, QueueMessage, TopicSubscription, select, get_elem?,
}
use futureq_v.Dispatcher.Hub.Send.{
  try_send, send_selected, dispatch_groups, dispatch_universal, dispatch_to_topic,
}
use futureq_v.Dispatcher.Hub.RoundRobin.{select_member}

abbrev pub Sends : Type 0
Sends = List (ℕ × QueueMessage)

-- Sends of `msg` that serve the groups: one to a member of each group that is reported, none to
-- a group that is not.
pub data GroupsServed (msg : QueueMessage)
    : Map (List ConsumerEntry) → Sends → List Bytes → Type 0 where
  no_group : GroupsServed msg [] [] []
  skipped :
      {gid : Bytes} {cs : List ConsumerEntry} {gs : Map (List ConsumerEntry)} {sends : Sends}
      {sent : List Bytes}
      → GroupsServed msg gs sends sent
      → GroupsServed msg ((gid, cs) ∷ gs) sends sent
  served :
      {gid : Bytes} {cs : List ConsumerEntry} {gs : Map (List ConsumerEntry)} {sends : Sends}
      {sent : List Bytes} (i : ℕ) (c : ConsumerEntry)
      → get_elem? cs i ≡ some c
      → GroupsServed msg gs sends sent
      → GroupsServed msg ((gid, cs) ∷ gs) ((c.ch, msg) ∷ sends) (gid ∷ sent)

-- Sends of `msg` to universal consumers, each at most once, and each reported as the empty group.
pub data UniversalServed (msg : QueueMessage)
    : Map ConsumerEntry → Sends → List Bytes → Type 0 where
  no_consumer : UniversalServed msg [] [] []
  skipped :
      {id : Bytes} {c : ConsumerEntry} {cs : Map ConsumerEntry} {sends : Sends} {sent : List Bytes}
      → UniversalServed msg cs sends sent
      → UniversalServed msg ((id, c) ∷ cs) sends sent
  served :
      {id : Bytes} {c : ConsumerEntry} {cs : Map ConsumerEntry} {sends : Sends} {sent : List Bytes}
      → UniversalServed msg cs sends sent
      → UniversalServed msg ((id, c) ∷ cs) ((c.ch, msg) ∷ sends) ([] ∷ sent)

-- A send adds one message to the buffers and succeeds, or leaves the hub as it was.
try_send_cases :
    (capacity : ℕ) (c : ConsumerEntry) (msg : QueueMessage) (tag : Bytes) (h : Hub)
    → (((try_send capacity c msg tag h).1 ≡ true)
        × ((try_send capacity c msg tag h).0.buffers ≡ h.buffers ++ ((c.ch, msg) ∷ [])))
      ⊎ (try_send capacity c msg tag h ≡ (h, false))
unfolding try_send
try_send_cases capacity c msg tag h = ground arith

send_selected_cases :
    (capacity : ℕ) (o : Option ConsumerEntry) (msg : QueueMessage) (tag : Bytes) (h : Hub)
    → let r = send_selected capacity o msg tag h in
      ((r.1 ≡ false) × (r.0.buffers ≡ h.buffers))
      ⊎ ((c : ConsumerEntry) × (o ≡ some c)
          × (r.1 ≡ true)
          × (r.0.buffers ≡ h.buffers ++ ((c.ch, msg) ∷ [])))
send_selected_cases capacity none msg tag h = inl (refl, refl)
send_selected_cases capacity (some c) msg tag h = elim (try_send_cases capacity c msg tag h) [
  | inl (sent, b) ↦ inr (c, refl, sent, b)
  | inr same ↦ inl (ap (λ (r : Hub × Bool). r.1) same, ap (λ (r : Hub × Bool). r.0.buffers) same)
]

abbrev ServesGroups : QueueMessage → Map (List ConsumerEntry) → Hub → Hub × List Bytes → Type 0
ServesGroups msg gs h r =
    (sends : Sends) × GroupsServed msg gs sends r.1 × (r.0.buffers ≡ h.buffers ++ sends)

dispatch_groups-served :
    (capacity : ℕ) (gs : Map (List ConsumerEntry)) (msg : QueueMessage) (tag : Bytes) (h : Hub)
    → ServesGroups msg gs h (dispatch_groups capacity gs msg tag h)
unfolding dispatch_groups
dispatch_groups-served capacity [] msg tag h = ([], no_group, sym (append-nil h.buffers))
dispatch_groups-served capacity ((gid, cs) ∷ gs) msg tag h =
    let h0 : Hub = record h { next = (select cs h.next).0 } in
    let h1 = (send_selected capacity (select cs h.next).1 msg tag h0).0 in
    let (sends, gs_served, b) = dispatch_groups-served capacity gs msg tag h1 in
    elim (send_selected_cases capacity (select cs h.next).1 msg tag h0) [
      | inl (failed, same) ↦
          (sends, rw failed (skipped gs_served), b ∙ ap (λ (bs : Sends). bs ++ sends) same)
      | inr (c, chosen, sent, added) ↦
          let (i, member) = select_member cs h.next chosen in
          (
            (c.ch, msg) ∷ sends,
            rw sent (served i c member gs_served),
            b
                ∙ ap (λ (bs : Sends). bs ++ sends) added
                ∙ append_assoc h.buffers ((c.ch, msg) ∷ []) sends,
          )
    ]

dispatch_universal-served :
    (capacity : ℕ) (cs : Map ConsumerEntry) (msg : QueueMessage) (tag : Bytes) (h : Hub)
    → let r = dispatch_universal capacity cs msg tag h in
      (sends : Sends) × UniversalServed msg cs sends r.1 × (r.0.buffers ≡ h.buffers ++ sends)
unfolding dispatch_universal
dispatch_universal-served capacity [] msg tag h = ([], no_consumer, sym (append-nil h.buffers))
dispatch_universal-served capacity ((id, c) ∷ cs) msg tag h =
    let h1 = (try_send capacity c msg tag h).0 in
    let (sends, cs_served, b) = dispatch_universal-served capacity cs msg tag h1 in
    elim (try_send_cases capacity c msg tag h) [
      | inl (sent, added) ↦ (
        (c.ch, msg) ∷ sends,
        rw sent (served cs_served),
        b
            ∙ ap (λ (bs : Sends). bs ++ sends) added
            ∙ append_assoc h.buffers ((c.ch, msg) ∷ []) sends,
      )
      | inr same ↦ (
        sends,
        rw (ap (λ (r : Hub × Bool). r.1) same) (skipped cs_served),
        b ∙ ap (λ (r : Hub × Bool). r.0.buffers ++ sends) same,
      )
    ]

-- A message that is dispatched to a topic goes to one member of each group that is reported, to no
-- member of a group that is not, to each reported universal consumer once, and to nobody else: the
-- channel buffers grow by exactly these sends.
pub dispatch_to_topic-served :
    (capacity : ℕ) (topic : Bytes) (msg : QueueMessage) (tag : Bytes) (h : Hub)
    (sub : TopicSubscription)
    → lookup topic h.topics ≡ some sub
    → let r = dispatch_to_topic capacity topic msg tag h in
      (groups universal : Sends) × (sent_groups sent_universal : List Bytes) × GroupsServed msg
        sub.groups groups sent_groups
      × UniversalServed msg sub.universal universal sent_universal
      × (r.0.buffers ≡ h.buffers ++ (groups ++ universal))
      × (r.1 ≡ sent_groups ++ sent_universal)
unfolding dispatch_to_topic
dispatch_to_topic-served capacity topic msg tag h sub e =
    let h1 = (dispatch_groups capacity sub.groups msg tag h).0 in
    let (groups, gs, bg) = dispatch_groups-served capacity sub.groups msg tag h in
    let (universal, us, bu) = dispatch_universal-served capacity sub.universal msg tag h1 in
    (
      groups,
      universal,
      _,
      _,
      gs,
      us,
      rw (e, dispatch_to_topic)
          (bu ∙ ap (λ (bs : Sends). bs ++ universal) bg ∙ append_assoc h.buffers groups universal),
      rw (e, dispatch_to_topic),
    )
