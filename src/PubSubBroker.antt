-- ===== src/PubSubBroker.antt =====
-- app/include/network/pubsub_broker.h, app/src/network/pubsub_broker.cpp: channels and their
-- subscribers. Each function is one critical section; what `send` returns is an argument.
pub mod Membership
use in_memory_db.Base.{
  ℕ, suc, Bool, true, false, not, Option, none, some, List, [], ◌∷◌, ◌++◌, length, nat_eq,
  if◌then◌else◌,
}
use in_memory_db.Base.Int.{pos}
use in_memory_db.Text.{Bytes, codes, bytes_HasEq}
use in_memory_db.Text.Decimal.{to_string}
use in_memory_db.Dict.{Dict, find, insert_or_assign, erase, keys}

-- std::unordered_set<SOCKET>
abbrev pub Sockets : Type 0
Sockets = Dict ℕ (Unit {0})

abbrev pub Channels : Type 0
Channels = Dict Bytes Sockets

-- channels_[channel]
abbrev pub or_empty : Option Sockets → Sockets
or_empty none = []
or_empty (some s) = s

pub subscribe : Bytes → ℕ → Channels → Channels
subscribe channel client m =
    insert_or_assign channel (insert_or_assign client tt (or_empty (find channel m))) m

abbrev pub has_none : Sockets → Bool
has_none [] = true
has_none (s ∷ ss) = false

pub unsubscribe : Bytes → ℕ → Channels → Channels
unsubscribe channel client m = elim (find channel m) [
  | none ↦ m
  | some s ↦
      let rest = erase client s in
      if has_none rest then erase channel m else insert_or_assign channel rest m
]

pub unsubscribe_all : ℕ → Channels → Channels
unsubscribe_all client [] = []
unsubscribe_all client ((channel, s) ∷ m) =
    let rest = erase client s in
    let others = unsubscribe_all client m in
    if has_none rest then others else (channel, rest) ∷ others

unfoldable pub format_message : Bytes → Bytes → Bytes
format_message channel message =
    codes "*3\r\n$7\r\nmessage\r\n$"
    ++ (to_string (pos (length channel))
        ++ (codes "\r\n"
            ++ (channel
                ++ (codes "\r\n$"
                    ++ (to_string (pos (length message))
                        ++ (codes "\r\n" ++ (message ++ codes "\r\n")))))))

-- The loop over the sockets: how many sends succeed.
pub deliver_to : (ℕ → Bytes → Bool) → Bytes → Sockets → ℕ
deliver_to send formatted [] = 0
deliver_to send formatted ((socket, u) ∷ ss) =
    let delivered = deliver_to send formatted ss in
    if send socket formatted then suc delivered else delivered

pub publish : (ℕ → Bytes → Bool) → Bytes → Bytes → Channels → ℕ
publish send channel message m = elim (find channel m) [
  | none ↦ 0
  | some s ↦ deliver_to send (format_message channel message) s
]

unfoldable pub list_channels : Channels → List Bytes
list_channels m = keys m

pub subscriber_count : Bytes → Channels → ℕ
subscriber_count channel m = elim (find channel m) [ none ↦ 0 | some s ↦ length s ]
