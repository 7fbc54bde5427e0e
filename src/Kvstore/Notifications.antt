-- ===== src/Kvstore/Notifications.antt =====
-- rabia-kvstore/src/notifications.rs: the bus that passes changes on to subscribers. A channel is
-- what has been sent into it, newest first, with a flag for a receiver that is gone; dropping a
-- receiver is an event from outside.
pub mod Delivery
use rabia.Base.{
  ℕ, suc, ◌+◌, ◌-◌, Bool, true, false, not, ◌&&◌, ◌||◌, List, [], ◌∷◌, Option, none, some, length,
  if◌then◌else◌, is_some,
}
use rabia.Base.Dict.{nat_key, Dict, get, insert, remove, update, bytes_eq}
use rabia.Base.Text.{Str, starts_with}

pub data ChangeType : Type 0 where
  created updated deleted cleared : ChangeType

-- The derived `==`.
abbrev pub type_eq : ChangeType → ChangeType → Bool
type_eq created created = true
type_eq updated updated = true
type_eq deleted deleted = true
type_eq cleared cleared = true
type_eq _ _ = false

pub record ChangeNotification : Type 0 where
  pub key : Str
  pub change_type : ChangeType
  pub old_value : Option Str
  pub new_value : Option Str
  pub version : ℕ
  pub timestamp : ℕ

-- `SubscriptionId` holds a UUID.
abbrev pub SubscriptionId : Type 0
SubscriptionId = ℕ

mutual
  pub data NotificationFilter : Type 0 where
    everything : NotificationFilter
    exact_key : Str → NotificationFilter
    key_prefix : Str → NotificationFilter
    of_type : ChangeType → NotificationFilter
    and_all : FilterList → NotificationFilter
    or_any : FilterList → NotificationFilter

  pub data FilterList : Type 0 where
    none_left : FilterList
    and_then : NotificationFilter → FilterList → FilterList

-- `NotificationFilter::matches`, with `all` and `any` over the filters of a list.
abbrev mutual
  pub matches : NotificationFilter → ChangeNotification → Bool
  matches everything n = true
  matches (exact_key k) n = bytes_eq n.key k
  matches (key_prefix p) n = starts_with n.key p
  matches (of_type t) n = type_eq n.change_type t
  matches (and_all fs) n = all_match fs n
  matches (or_any fs) n = any_match fs n

  pub all_match : FilterList → ChangeNotification → Bool
  all_match none_left n = true
  all_match (and_then f fs) n = matches f n && all_match fs n

  pub any_match : FilterList → ChangeNotification → Bool
  any_match none_left n = false
  any_match (and_then f fs) n = matches f n || any_match fs n

-- A subscriber's filter and the sending end of its channel.
pub record Subscriber : Type 0 where
  pub filter : NotificationFilter
  pub is_closed : Bool
  pub delivered : List ChangeNotification

pub record NotificationStats : Type 0 where
  pub total_notifications_sent : ℕ
  pub total_subscribers : ℕ
  pub dropped_notifications : ℕ

pub record NotificationBus : Type 0 where
  pub broadcasts : List ChangeNotification
  pub subscribers : Dict SubscriptionId Subscriber
  pub stats : NotificationStats

-- `NotificationBus::new`
abbrev pub new_bus : NotificationBus
new_bus = record {
  broadcasts = [];
  subscribers = [];
  stats = record { total_notifications_sent = 0; total_subscribers = 0; dropped_notifications = 0 };
}

-- `subscribe`, under the identifier that it makes.
unfoldable pub subscribe : SubscriptionId → NotificationFilter → NotificationBus → NotificationBus
subscribe id filter b = record b {
  subscribers =
      insert id (record { filter = filter; is_closed = false; delivered = [] }) b.subscribers;
  stats = record b.stats { total_subscribers = suc b.stats.total_subscribers };
}

unfoldable pub subscribe_all : SubscriptionId → NotificationBus → NotificationBus
subscribe_all id = subscribe id everything

unfoldable pub subscribe_key : SubscriptionId → Str → NotificationBus → NotificationBus
subscribe_key id k = subscribe id (exact_key k)

unfoldable pub subscribe_prefix : SubscriptionId → Str → NotificationBus → NotificationBus
subscribe_prefix id p = subscribe id (key_prefix p)

unfoldable pub subscribe_change_type :
    SubscriptionId → ChangeType → NotificationBus → NotificationBus
subscribe_change_type id t = subscribe id (of_type t)

-- Subtraction on ℕ saturates, as `saturating_sub` does.
unfoldable pub unsubscribe : SubscriptionId → NotificationBus → NotificationBus
unsubscribe id b =
    if is_some (get id b.subscribers)
    then record b {
      subscribers = remove id b.subscribers;
      stats = record b.stats { total_subscribers = b.stats.total_subscribers - 1 };
    }
    else b

-- One subscriber is sent what its filter matches; a closed channel takes nothing.
abbrev pub offer : ChangeNotification → Subscriber → Subscriber
offer n s =
    if matches s.filter n && not s.is_closed then record s { delivered = n ∷ s.delivered } else s

abbrev pub is_dropped : ChangeNotification → Subscriber → Bool
is_dropped n s = matches s.filter n && s.is_closed

-- The loop of `publish` over the subscribers, and its count of failed sends.
abbrev pub offer_all :
    ChangeNotification → Dict SubscriptionId Subscriber → Dict SubscriptionId Subscriber
offer_all n [] = []
offer_all n ((id, s) ∷ rest) = (id, offer n s) ∷ offer_all n rest

abbrev pub dropped_count : ChangeNotification → Dict SubscriptionId Subscriber → ℕ
dropped_count n [] = 0
dropped_count n ((id, s) ∷ rest) = (if is_dropped n s then 1 else 0) + dropped_count n rest

unfoldable pub publish : ChangeNotification → NotificationBus → NotificationBus
publish n b = record {
  broadcasts = n ∷ b.broadcasts;
  subscribers = offer_all n b.subscribers;
  stats = record b.stats {
    total_notifications_sent = suc b.stats.total_notifications_sent;
    dropped_notifications = b.stats.dropped_notifications + dropped_count n b.subscribers;
  };
}

-- A receiver is dropped.
unfoldable pub close_receiver : SubscriptionId → NotificationBus → NotificationBus
close_receiver id b = record b {
  subscribers = update id (λ s. record s { is_closed = true }) b.subscribers;
}

abbrev pub keep_open : Dict SubscriptionId Subscriber → Dict SubscriptionId Subscriber
keep_open [] = []
keep_open ((id, s) ∷ rest) = if s.is_closed then keep_open rest else (id, s) ∷ keep_open rest

unfoldable pub cleanup_closed_subscribers : NotificationBus → NotificationBus
cleanup_closed_subscribers b = record b { subscribers = keep_open b.subscribers }

unfoldable pub subscriber_count : NotificationBus → ℕ
subscriber_count b = length b.subscribers

unfoldable pub bus_stats : NotificationBus → NotificationStats
bus_stats b = record b.stats { total_subscribers = length b.subscribers }
