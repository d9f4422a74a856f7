-- ===== src/Reactor/Poll.antt =====
-- The loop of `start`: the poll set, and a turn of the loop with what WSAPoll reports. What the
-- handlers get from recv, send and accept stands with the report of their socket.
pub mod Table
pub mod Turn
pub mod Asked
use in_memory_db.Base.{
  ℕ, Bool, true, false, not, ◌||◌, Option, none, some, List, [], ◌∷◌, map, is_some, nat_eq,
  if◌then◌else◌,
}
use in_memory_db.Text.{Bytes}
use in_memory_db.Dict.{Dict, find, contains}
use in_memory_db.Reactor.{
  ConnectionState, Reactor, disconnect, handle_read, handle_write, accept_connection, unpause,
  drain_completion_queue,
}

-- The events of a WSAPOLLFD: POLLRDNORM and POLLWRNORM.
pub record Events : Type 0 where
  pub read : Bool
  pub write : Bool

-- The entry of one connection.
pub poll_entry : Dict ℕ (Unit {0}) → ℕ → ConnectionState → Events
poll_entry paused sock c = record { read = not (contains sock paused); write = c.write_pending }

-- The entries behind that of the listening socket.
pub poll_entries : Dict ℕ (Unit {0}) → Dict ℕ ConnectionState → Dict ℕ Events
poll_entries paused [] = []
poll_entries paused ((sock, c) ∷ m) = (sock, poll_entry paused sock c) ∷ poll_entries paused m

-- What an entry is for: the listening socket, or a connection.
pub data PollFd : Type 0 where
  listening : PollFd
  client : ℕ → PollFd

pub rebuild_poll_set : Reactor → List (PollFd × Events)
rebuild_poll_set r =
    (listening, record { read = true; write = false })
    ∷ map (λ e. (client e.0, e.1)) (poll_entries r.paused_reads r.connections)

-- The revents of an entry, and what the calls on its socket give.
pub record Report : Type 0 where
  pub failed : Bool
  pub readable : Bool
  pub writable : Bool
  pub accepted : Option (ℕ × Bytes)
  pub received : Option Bytes
  pub sent : Option ℕ

-- The body of the loop over the poll set.
pub handle_report : PollFd → Report → Reactor → Reactor
handle_report listening e r =
    if e.readable
    then elim e.accepted [ none ↦ r | some (sock, ip) ↦ accept_connection sock ip r ]
    else r
handle_report (client sock) e r =
    if e.failed
    then disconnect sock r
    else let r' = if e.readable then handle_read sock e.received r else r in
      if e.writable then handle_write sock e.sent r' else r'

-- The loop over the poll set, with the reports at its places.
pub handle_reports : List (PollFd × Events) → List Report → Reactor → Reactor
handle_reports [] reports r = r
handle_reports (fd ∷ fds) [] r = r
handle_reports (fd ∷ fds) (e ∷ reports) r = handle_reports fds reports (handle_report fd.0 e r)

-- The part of a turn before WSAPoll.
pub prepare : Reactor → Reactor
prepare r = unpause (drain_completion_queue r)

-- A turn of the loop; `none` is an error of WSAPoll, or that the time is over.
pub turn : Option (List Report) → Reactor → Reactor
turn polled r =
    let r' = prepare r in
    elim polled [ none ↦ r' | some reports ↦ handle_reports (rebuild_poll_set r') reports r' ]

-- The loop until `stop`, which closes the connections.
unfoldable pub turns : List (Option (List Report)) → Reactor → Reactor
turns [] r = r
turns (polled ∷ more) r = turns more (turn polled r)

unfoldable pub start : List (Option (List Report)) → Reactor → Reactor
start polls r = record (turns polls r) { connections = [] }
