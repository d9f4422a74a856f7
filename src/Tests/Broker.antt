-- ===== src/Tests/Broker.antt =====
-- The broker at concrete inputs.
use in_memory_db.Base.{◌≡◌, refl, not, ◌&&◌, ◌==◌, [], ◌∷◌, nat_eq}
use in_memory_db.Text.{codes, bytes_eq, bytes_HasEq}
use in_memory_db.Dict.{find}
use in_memory_db.PubSubBroker.{Channels, unsubscribe_all}
use in_memory_db.PubSubBroker.Membership.{is_subscribed, is_subscribed-unsubscribe_all}

-- Two clients on one channel, one of them on another too.
abbrev channels : Channels
channels = (codes "news", (7, tt) ∷ (8, tt) ∷ []) ∷ (codes "chat", (7, tt) ∷ []) ∷ []

is_subscribed-unsubscribe_all_example :
    is_subscribed (codes "news") 8 (unsubscribe_all 7 channels)
    ≡ (not (7 == 8) && is_subscribed (codes "news") 8 channels)
unfolding find bytes_eq
is_subscribed-unsubscribe_all_example =
    is_subscribed-unsubscribe_all (codes "news") 7 8 channels (refl, (refl, tt))
