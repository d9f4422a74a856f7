-- ===== src/PubSubBroker/Membership.antt =====
-- Who is subscribed to what, behind each operation of the broker.
use in_memory_db.Base.{
  ℕ, ◌≤◌, ◌≡◌, refl, Bool, true, false, not, ◌||◌, ◌&&◌, [], ◌∷◌, arith, ◌==◌, nat_eq, length,
  Option-cases, inl, inr,
}
use in_memory_db.Text.{Bytes, bytes_eq, bytes_eq_iff, bytes_HasEq}
use in_memory_db.Dict.{find, insert_or_assign, erase, contains, HasUniqueKeys}
use in_memory_db.Dict.Laws.{find-insert_or_assign, find-erase}
use in_memory_db.PubSubBroker.{
  Sockets, Channels, or_empty, has_none, subscribe, unsubscribe, unsubscribe_all, deliver_to,
  publish, subscriber_count, format_message,
}

pub is_subscribed : Bytes → ℕ → Channels → Bool
is_subscribed channel client m = contains client (or_empty (find channel m))

-- A subscription adds its client to its channel and changes no other membership.
pub is_subscribed-subscribe :
    (channel other : Bytes) (client socket : ℕ) (m : Channels)
    → is_subscribed other socket (subscribe channel client m)
      ≡ ((bytes_eq channel other && (client == socket)) || is_subscribed other socket m)
unfolding is_subscribed subscribe
is_subscribed-subscribe channel other client socket m = ground (
  arith,
  bytes_eq_iff channel other,
  find-insert_or_assign channel other (insert_or_assign client tt (or_empty (find channel m))) m,
  find-insert_or_assign client socket tt (or_empty (find channel m)),
)

none_contained : (socket : ℕ) (s : Sockets) → has_none s ≡ true → contains socket s ≡ false
unfolding find
none_contained socket [] h = refl
none_contained socket (x ∷ s) h = cc

-- An unsubscription takes its client out of its channel and changes no other membership.
pub is_subscribed-unsubscribe :
    (channel other : Bytes) (client socket : ℕ) (m : Channels)
    → is_subscribed other socket (unsubscribe channel client m)
      ≡ (not (bytes_eq channel other && (client == socket)) && is_subscribed other socket m)
unfolding is_subscribed unsubscribe
is_subscribed-unsubscribe channel other client socket m = elim (Option-cases (find channel m)) [
  | inl e ↦ ground (arith, e, bytes_eq_iff channel other, none_contained socket [] refl)
  | inr (s, e) ↦ ground (
    arith,
    e,
    bytes_eq_iff channel other,
    find-erase client socket s,
    find-erase channel other m,
    find-insert_or_assign channel other (erase client s) m,
    none_contained socket (erase client s),
    none_contained socket [] refl,
  )
]

-- In a map that holds each channel once, unsubscribe_all takes its client out of every channel and
-- changes no other membership.
pub is_subscribed-unsubscribe_all :
    (other : Bytes) (client socket : ℕ) (m : Channels)
    → HasUniqueKeys m
    → is_subscribed other socket (unsubscribe_all client m)
      ≡ (not (client == socket) && is_subscribed other socket m)
unfolding is_subscribed unsubscribe_all find
is_subscribed-unsubscribe_all other client socket [] h = ground arith
is_subscribed-unsubscribe_all other client socket ((channel, s) ∷ m) h = ground (
  arith,
  h.0,
  bytes_eq_iff channel other,
  find-erase client socket s,
  none_contained socket (erase client s),
  is_subscribed-unsubscribe_all other client socket m h.1,
)

deliver_to-le :
    (send : ℕ → Bytes → Bool) (formatted : Bytes) (s : Sockets)
    → deliver_to send formatted s ≤ length s
unfolding deliver_to
deliver_to-le send formatted [] = omega arith
deliver_to-le send formatted ((socket, u) ∷ s) = ground (arith, deliver_to-le send formatted s)

-- Without a subscriber nothing is sent, and at most one message goes to each.
pub publish-le :
    (send : ℕ → Bytes → Bool) (channel message : Bytes) (m : Channels)
    → publish send channel message m ≤ subscriber_count channel m
unfolding publish subscriber_count
publish-le send channel message m = elim (Option-cases (find channel m)) [
  | inl e ↦ ground (arith, e)
  | inr (s, e) ↦ ground (arith, e, deliver_to-le send (format_message channel message) s)
]
