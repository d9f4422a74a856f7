-- ===== src/Server/Answered.antt =====
-- The requests of a client, from the line to the reply, over all runs of the server.
use in_memory_db.Base.{
  ℕ, ◌+◌, ◌≤◌, ◌<◌, ◌≡◌, refl, false, some, [], ◌++◌, arith, ltb, ◌==◌, ==_iff, nat_eq,
  if◌then◌else◌, Bool-cases, inl, inr, ◌∙◌, ap,
}
use in_memory_db.Text.{Bytes}
use in_memory_db.Dict.{find}
use in_memory_db.Reactor.{ConnectionState, new_connection}
use in_memory_db.Reactor.Reassembly.{replies, has_arrived, last_id}
use in_memory_db.Server.{
  Server, Step, receives, reads_line, writes, disconnects, accepts, unpauses, drains, takes,
  finishes, Reach, here, next, finish,
}
use in_memory_db.Server.Tally.{queued, completed, in_pool}
use in_memory_db.Server.Ordered.{response_of}
use in_memory_db.Server.Elsewhere.{
  receive-IsElsewhere, read_line-IsElsewhere, disconnect-IsElsewhere, handle_write-IsElsewhere,
  accept_connection-IsElsewhere, unpause-IsElsewhere,
}
use in_memory_db.Server.Working.{take-IsServed, finish-IsServed, drain-IsServed}
use in_memory_db.Server.Served.{
  located, IsServed, elsewhere-IsServed, receive-IsServed, read_line-IsServed, write-IsServed,
}

-- A client that has just connected: nothing of an earlier connection on its socket number is left.
-- The server does not see to that: it is a condition of the theorems below.
pub record IsNew (client : ℕ) (ip : Bytes) (t : Server) : Type 0 where
  pub connection : find client t.reactor.connections ≡ some (new_connection ip)
  pub clean : (s : ℕ) → located client s t ≡ 0
  pub unsent : t.sent ≡ []

abbrev IsServedBy : ℕ → Server → Type 0
IsServedBy client t = (c : ConnectionState) × IsServed client t c

module _ (client : ℕ) where
  received-Step : {t u : Server} → Step client t u → t.received ≤ u.received
  unfolding finish
  received-Step (receives socket bytes) = ground arith
  received-Step (reads_line socket) = omega arith
  received-Step (writes socket n) = omega arith
  received-Step (disconnects socket h) = omega arith
  received-Step (accepts socket ip h) = omega arith
  received-Step unpauses = omega arith
  received-Step drains = omega arith
  received-Step (takes task p e) = omega arith
  received-Step (finishes env before task after e) = omega arith

  is_other : (socket : ℕ) → ¬ (socket ≡ client) → (socket == client) ≡ false
  is_other socket h = ground (arith, h)

  Step-IsServed :
      {t u : Server}
      → Step client t u
      → u.received < last_id
      → IsServedBy client t
      → IsServedBy client u
  Step-IsServed {t} (receives socket bytes) small (c, w) = elim (Bool-cases (socket == client)) [
    | inl e ↦ rw (e, (==_iff socket client).0 e) (_, receive-IsServed client t c w bytes)
    | inr e ↦
        rw e (
          c,
          elsewhere-IsServed client t c w _ (receive-IsElsewhere client socket e bytes t.reactor),
        )
  ]
  Step-IsServed {t} (reads_line socket) small (c, w) = elim (Bool-cases (socket == client)) [
    | inl e ↦ rw ((==_iff socket client).0 e) (_, read_line-IsServed client t c w small)
    | inr e ↦
        (c, elsewhere-IsServed client t c w _ (read_line-IsElsewhere client socket e t.reactor))
  ]
  Step-IsServed {t} (writes socket n) small (c, w) = elim (Bool-cases (socket == client)) [
    | inl e ↦ rw (e, (==_iff socket client).0 e) (write-IsServed client t c w n)
    | inr e ↦ rw e (
      c,
      elsewhere-IsServed client t c w _
          (handle_write-IsElsewhere client socket e (some n) t.reactor),
    )
  ]
  Step-IsServed {t} (disconnects socket h) small (c, w) = (
    c,
    elsewhere-IsServed client t c w _
        (disconnect-IsElsewhere client socket (is_other socket h) t.reactor),
  )
  Step-IsServed {t} (accepts socket ip h) small (c, w) = (
    c,
    elsewhere-IsServed client t c w _
        (accept_connection-IsElsewhere client socket (is_other socket h) ip t.reactor),
  )
  Step-IsServed {t} unpauses small (c, w) =
      (c, elsewhere-IsServed client t c w _ (unpause-IsElsewhere client t.reactor))
  Step-IsServed {t} drains small (c, w) =
      let (c', _, w') = drain-IsServed client t c w small in (c', w')
  Step-IsServed {t} (takes task p e) small (c, w) = (c, take-IsServed client t c w task p e)
  Step-IsServed {t} (finishes env before task after e) small (c, w) =
      (c, finish-IsServed client t c w env before task after e)

  new-IsServed :
      (ip : Bytes) {t : Server} → IsNew client ip t → IsServed client t (new_connection ip)
  unfolding new_connection has_arrived find
  new-IsServed ip v = record {
    connection = v.connection;
    budget = omega arith;
    once = λ s. ground (arith, v.clean s);
    counted = record { counted = refl; bounded = omega arith };
    drained = record {
      ordered = record {
        stream = rw v.unsent refl;
        waiting = λ s r h. ground arith;
        known = λ s. ground (arith, v.clean s);
        unique = tt;
      };
      settled = refl;
    };
  }

  pub Reach-IsServed :
      (ip : Bytes) {s t : Server}
      → IsNew client ip s
      → Reach client s t
      → t.received < last_id
      → IsServedBy client t
  Reach-IsServed ip v here small = (new_connection ip, new-IsServed ip v)
  Reach-IsServed ip v (next r step) small =
      Step-IsServed step small (Reach-IsServed ip v r (omega (arith, received-Step step, small)))

-- In all runs of the server from the connection of a client on, where nothing of an earlier
-- connection on the same socket number is left, neither in the pool, with a worker or in the
-- completion queue nor among the results noted as drained, and in which the client does not disconnect and sends less than 2 ^ 64 - 1 bytes: what
-- it was sent, with what waits to be sent, is the responses to the first requests that the connection
-- has numbered, in the order of their numbers, up to the number that it expects next; the result of
-- each of these requests was drained exactly once.
pub replies_in_order :
    (client : ℕ) (ip : Bytes) {s t : Server}
    → IsNew client ip s
    → Reach client s t
    → t.received < last_id
    → (c : ConnectionState) × (find client t.reactor.connections ≡ some c)
      × (t.sent ++ c.write_buffer ≡ replies (response_of client t.drained) c.next_seq_expected)
      × ((n : ℕ) → n < c.next_seq_expected → completed client n t.drained ≡ 1)
unfolding has_arrived
replies_in_order client ip v r small =
    let (c, w) = Reach-IsServed client ip v r small in
    (
      c,
      w.connection,
      w.drained.ordered.stream,
      λ n h. ground (arith, w.once n, w.drained.ordered.known n, h),
    )

-- In all runs from the connection of a client on, where nothing of an earlier connection on the same
-- socket number is left, and in which the client does not disconnect and sends less than 2 ^ 64 - 1
-- bytes: each request that the connection has numbered is at exactly one place, in the queue of the
-- pool, with a worker, in the completion queue, or drained; and no number that was not given is
-- anywhere.
pub each_request_once :
    (client : ℕ) (ip : Bytes) {s t : Server}
    → IsNew client ip s
    → Reach client s t
    → t.received < last_id
    → (c : ConnectionState) × (find client t.reactor.connections ≡ some c)
      × ((n : ℕ)
          → in_pool client n t.reactor.pool + queued client n t.busy + completed client n t.drained
            ≡ (if ltb n c.next_seq_issue then 1 else 0))
each_request_once client ip v r small =
    let (c, w) = Reach-IsServed client ip v r small in (c, w.connection, w.once)

-- Nothing of the client is left in the pool or with a worker.
abbrev pub IsIdle : ℕ → Server → Type 0
IsIdle client t = (n : ℕ) → in_pool client n t.reactor.pool + queued client n t.busy ≡ 0

pub idle_answered :
    (client : ℕ) (t : Server) (c : ConnectionState)
    → IsServed client t c
    → IsIdle client t
    → (t.sent ++ c.write_buffer ≡ replies (response_of client t.drained) c.next_seq_issue)
      × (c.next_seq_expected ≡ c.next_seq_issue)
      × (c.in_flight_requests ≡ 0)
unfolding has_arrived
idle_answered client t c w idle =
    let n : ℕ = c.next_seq_expected in
    let absent : completed client n t.drained ≡ 0 =
      ground (arith, w.drained.ordered.known n, w.drained.settled) in
    let same : n ≡ c.next_seq_issue = ground (arith, w.once n, idle n, absent, w.counted.counted) in
    (
      w.drained.ordered.stream ∙ ap (replies (response_of client t.drained)) same,
      same,
      omega (arith, same, w.counted.counted),
    )

-- In all runs from the connection of a client on, where nothing of an earlier connection on the same
-- socket number is left, and in which the client does not disconnect and sends less than 2 ^ 64 - 1
-- bytes: if nothing of the client is left in the pool or with a worker, then the responses to all
-- requests that the connection has numbered are sent or wait to be sent, in order, and none is in
-- flight. A line that the loop of handle_read drops at a pause has no number, and is not among them.
pub all_answered :
    (client : ℕ) (ip : Bytes) {s t : Server}
    → IsNew client ip s
    → Reach client s t
    → t.received < last_id
    → IsIdle client t
    → (c : ConnectionState) × (find client t.reactor.connections ≡ some c)
      × (t.sent ++ c.write_buffer ≡ replies (response_of client t.drained) c.next_seq_issue)
      × (c.next_seq_expected ≡ c.next_seq_issue)
      × (c.in_flight_requests ≡ 0)
all_answered client ip {s} {t} v r small idle =
    let (c, w) = Reach-IsServed client ip v r small in
    let (stream, same, none_left) = idle_answered client t c w idle in
    (c, w.connection, stream, same, none_left)
