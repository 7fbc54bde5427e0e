-- ===== src/Kvstore/Notifications/Delivery.antt =====
-- What the subscribers of the bus of rabia-kvstore/src/notifications.rs are sent.
use rabia.Base.{
  ◌≡◌, refl, ◌∙◌, true, false, List, [], ◌∷◌, some, arith, filter_b, Bool-cases, inl, inr,
}
use rabia.Base.Dict.{Dict, nat_key, get}
use rabia.Kvstore.Notifications.{
  ChangeNotification, SubscriptionId, NotificationFilter, matches, Subscriber, NotificationBus,
  offer, offer_all, publish,
}

-- A list reversed onto another.
abbrev pub rev_onto {ℓ} : {A : Type ℓ} → List A → List A → List A
rev_onto [] ys = ys
rev_onto (x ∷ xs) ys = rev_onto xs (x ∷ ys)

-- Several notifications, one after the other.
abbrev pub publish_all : List ChangeNotification → NotificationBus → NotificationBus
publish_all [] b = b
publish_all (n ∷ ns) b = publish_all ns (publish n b)

get-offer_all :
    (n : ChangeNotification) (id : SubscriptionId) (d : Dict SubscriptionId Subscriber)
    (s : Subscriber)
    → get id d ≡ some s
    → get id (offer_all n d) ≡ some (offer n s)
get-offer_all n id [] s h = absurd (cc)
get-offer_all n id ((i, t) ∷ d) s h = ground (arith, get-offer_all n id d s)

-- An open subscriber.
abbrev pub open_with : NotificationFilter → List ChangeNotification → Subscriber
open_with filter before = record { filter = filter; is_closed = false; delivered = before }

offered :
    (n : ChangeNotification) (filter : NotificationFilter) (before : List ChangeNotification)
    → matches filter n ≡ true
    → some (offer n (open_with filter before)) ≡ some (open_with filter (n ∷ before))
offered n filter before h = rw h refl

passed :
    (n : ChangeNotification) (filter : NotificationFilter) (before : List ChangeNotification)
    → matches filter n ≡ false
    → some (offer n (open_with filter before)) ≡ some (open_with filter before)
passed n filter before h = rw h refl

-- A subscriber whose receiver is alive is sent, in order and once each, exactly those of the
-- notifications that its filter matches, whatever other subscribers there are.
pub publish_all_delivers :
    (ns : List ChangeNotification) (b : NotificationBus) (id : SubscriptionId)
    (filter : NotificationFilter) (before : List ChangeNotification)
    → get id b.subscribers ≡ some (open_with filter before)
    → get id (publish_all ns b).subscribers
      ≡ some (open_with filter (rev_onto (filter_b (matches filter) ns) before))
unfolding publish
publish_all_delivers [] b id filter before h = h
publish_all_delivers (n ∷ ns) b id filter before h =
    let sent = get-offer_all n id b.subscribers (open_with filter before) h in
    elim (Bool-cases (matches filter n)) [
      | inl yes_it ↦ rw yes_it (
          publish_all_delivers ns (publish n b) id filter (n ∷ before)
            (sent ∙ offered n filter before yes_it))
      | inr no_it ↦ rw no_it (
          publish_all_delivers ns (publish n b) id filter before
            (sent ∙ passed n filter before no_it))
    ]
