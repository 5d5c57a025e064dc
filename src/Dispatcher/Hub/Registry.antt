-- ===== src/Dispatcher/Hub/Registry.antt =====
-- A consumer that registers and unregisters leaves no trace, and keys in flight are tracked.
use futureq_v.Prelude.{
  ℕ, ◌≡◌, ◌≢◌, refl, ap, ◌∙◌, inl, inr, List, [], ◌∷◌, ◌++◌, Option, none, some, arith,
  if◌then◌else◌, Bool, true, false, Bool-cases, All,
}
use futureq_v.Bytes.{Bytes}
use futureq_v.Bytes.Order.{bytes_eq, bytes_eq_refl}
use futureq_v.Maps.{
  Map, lookup, insert, remove, lookup-insert_self, insert-insert, insert-lookup, remove-insert_new,
  remove_absent,
}
use futureq_v.Dispatcher.Hub.{
  Hub, ConsumerEntry, TopicSubscription, new_topic_subscription, is_empty, is_universal, add,
  remove_entry, remove_from_group, remove_consumer, is_empty_subscription, group_or_nil,
  subscription_or_new, register, unregister, unregister_entry, remove_from_topic, after_remove,
}

-- The consumer is not in the subscription yet, and the group that it joins is not kept empty.
pub record IsNew (c : ConsumerEntry) (sub : TopicSubscription) : Type 0 where
  pub new_universal : lookup c.id sub.universal ≡ none
  pub new_member :
      All
        (λ (e : ConsumerEntry). bytes_eq e.id c.id ≡ false)
        (group_or_nil (lookup c.group sub.groups))
  pub inhabited : lookup c.group sub.groups ≢ some []

remove_entry-append :
    (c : ConsumerEntry) (cs : List ConsumerEntry)
    → All (λ (e : ConsumerEntry). bytes_eq e.id c.id ≡ false) cs
    → remove_entry c.id (cs ++ (c ∷ [])) ≡ cs
unfolding remove_entry
remove_entry-append c [] h = ground (arith, bytes_eq_refl c.id)
remove_entry-append c (e ∷ cs) h = ground (arith, remove_entry-append c cs)

abbrev joined : ConsumerEntry → Map (List ConsumerEntry) → Map (List ConsumerEntry)
joined c groups = insert c.group (group_or_nil (lookup c.group groups) ++ (c ∷ [])) groups

restore :
    (g : Bytes) (v : List ConsumerEntry) (m : Map (List ConsumerEntry))
    (o : Option (List ConsumerEntry))
    → lookup g m ≡ o
    → o ≢ some []
    → (if is_empty (group_or_nil o)
        then remove g (insert g v m)
        else insert g (group_or_nil o) (insert g v m))
      ≡ m
restore g v m none e ne = remove-insert_new g v m e
restore g v m (some []) e ne = absurd (ne refl)
restore g v m (some (x ∷ xs)) e ne = insert-insert g v (x ∷ xs) m ∙ insert-lookup g (x ∷ xs) m e

abbrev with_empty : TopicSubscription → TopicSubscription × Bool
with_empty ts = (ts, is_empty_subscription ts)

IsNew-to_empty : (c : ConsumerEntry) → IsNew c new_topic_subscription
unfolding lookup
IsNew-to_empty c = record { new_universal = refl; new_member = tt; inhabited = λ e. cc }

empty_is_empty : with_empty new_topic_subscription ≡ (new_topic_subscription, true)
unfolding is_empty_subscription
empty_is_empty = refl

remove_from_group-joined :
    (c : ConsumerEntry) (groups : Map (List ConsumerEntry))
    → All (λ (e : ConsumerEntry). bytes_eq e.id c.id ≡ false) (group_or_nil (lookup c.group groups))
    → lookup c.group groups ≢ some []
    → remove_from_group c (joined c groups) ≡ groups
unfolding remove_from_group
remove_from_group-joined c groups h inhabited =
    let old = group_or_nil (lookup c.group groups) in
    let rest : remove_entry c.id (group_or_nil (lookup c.group (joined c groups))) ≡ old =
      ap (λ (o : Option (List ConsumerEntry)). remove_entry c.id (group_or_nil o))
        (lookup-insert_self c.group (old ++ (c ∷ [])) groups)
      ∙ remove_entry-append c old h in
    rw rest (restore c.group (old ++ (c ∷ [])) groups (lookup c.group groups) refl inhabited)

remove_consumer-add :
    (c : ConsumerEntry) (sub : TopicSubscription)
    → IsNew c sub
    → remove_consumer c (add c sub) ≡ (sub, is_empty_subscription sub)
unfolding remove_consumer add
remove_consumer-add c sub new = elim (Bool-cases (is_universal c)) [
  | inl u ↦ rw u (
      ap (λ (m : Map ConsumerEntry). with_empty (record sub { universal = m }))
        (remove-insert_new c.id c sub.universal new.new_universal))
  | inr g ↦ rw g (
      ap (λ (m : Map (List ConsumerEntry)). with_empty (record sub { groups = m }))
        (remove_from_group-joined c sub.groups new.new_member new.inhabited))
]

-- The subscriptions after the consumer came and went.
abbrev pub IsNewTo : ConsumerEntry → Option TopicSubscription → Type 0
IsNewTo c none = Unit {0}
IsNewTo c (some sub) = IsNew c sub × (is_empty_subscription sub ≡ false)

topics_restored :
    (c : ConsumerEntry) (topics : Map TopicSubscription) (o : Option TopicSubscription)
    → lookup c.topic topics ≡ o
    → IsNewTo c o
    → (let added = insert c.topic (add c (subscription_or_new o)) topics in
        remove_from_topic c (lookup c.topic added) added)
      ≡ topics
topics_restored c topics none e new =
    let added = insert c.topic (add c new_topic_subscription) topics in
    ap (λ (o : Option TopicSubscription). remove_from_topic c o added)
      (lookup-insert_self c.topic (add c new_topic_subscription) topics)
    ∙ ap (λ (r : TopicSubscription × Bool). after_remove c.topic r added)
        (remove_consumer-add c new_topic_subscription (IsNew-to_empty c) ∙ empty_is_empty)
    ∙ remove-insert_new c.topic (add c new_topic_subscription) topics e
topics_restored c topics (some sub) e (new, ne) =
    let added = insert c.topic (add c sub) topics in
    ap (λ (o : Option TopicSubscription). remove_from_topic c o added)
      (lookup-insert_self c.topic (add c sub) topics)
    ∙ ap (λ (r : TopicSubscription × Bool). after_remove c.topic r added)
        (remove_consumer-add c sub new ∙ ap (λ (b : Bool). (sub, b)) ne)
    ∙ insert-insert c.topic (add c sub) sub topics
    ∙ insert-lookup c.topic sub topics e

-- A consumer with a new id that registers and then unregisters leaves the hub as it was, but for
-- the signal that wakes the dispatcher: no subscription, no group and no key in flight stays.
unregister-register :
    (id topic group : Bytes) (ch : ℕ) (h : Hub)
    → IsNewTo (record { id = id; topic = topic; group = group; ch = ch }) (lookup topic h.topics)
    → lookup id h.by_id ≡ none
    → lookup id h.in_flight ≡ none
    → unregister id (register id topic group ch h) ≡ record h { wake = true }
unfolding unregister register
unregister-register id topic group ch h new unknown idle =
    let c : ConsumerEntry = record { id = id; topic = topic; group = group; ch = ch } in
    ap (λ (o : Option ConsumerEntry). unregister_entry o id (register id topic group ch h))
      (lookup-insert_self id c h.by_id)
    ∙ cc (
      topics_restored c h.topics (lookup topic h.topics) refl new,
      remove-insert_new id c h.by_id unknown,
      remove_absent id h.in_flight idle,
    )
