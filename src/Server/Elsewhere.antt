-- ===== src/Server/Elsewhere.antt =====
-- What the reactor does on other sockets, for one client: nothing.
use in_memory_db.Base.{
  ℕ, ◌≡◌, refl, Bool, true, false, Option, none, some, arith, ◌==◌, nat_eq, if◌then◌else◌,
  Option-cases, inl, inr,
}
use in_memory_db.Text.{Bytes, is_empty}
use in_memory_db.Dict.{Dict, find, insert_or_assign}
use in_memory_db.Dict.Laws.{find-insert_or_assign, find-erase}
use in_memory_db.Reactor.{
  ConnectionState, Reactor, disconnect, handle_write, accept_connection, unpause,
}
use in_memory_db.Server.{receive, read_line}
use in_memory_db.Server.Tally.{in_pool}
use in_memory_db.Server.Reading.{in_pool-read_lines_other}

pub record IsElsewhere (client : ℕ) (r r' : Reactor) : Type 0 where
  pub connection : find client r'.connections ≡ find client r.connections
  pub requests : (s : ℕ) → in_pool client s r'.pool ≡ in_pool client s r.pool

if-IsElsewhere :
    (client : ℕ) (r : Reactor) (b : Bool) (x y : Reactor)
    → IsElsewhere client r x
    → IsElsewhere client r y
    → IsElsewhere client r (if b then x else y)
if-IsElsewhere client r true x y h k = h
if-IsElsewhere client r false x y h k = k

module _ (client socket : ℕ) (other : (socket == client) ≡ false) where
  elsewhere :
      (c : ConnectionState) (m : Dict ℕ ConnectionState)
      → find client (insert_or_assign socket c m) ≡ find client m
  elsewhere c m = ground (arith, other, find-insert_or_assign socket client c m)

  pub receive-IsElsewhere :
      (bytes : Bytes) (r : Reactor) → IsElsewhere client r (receive socket bytes r)
  unfolding receive
  receive-IsElsewhere bytes r = elim (Option-cases (find socket r.connections)) [
    | inl e ↦ rw (e, receive) (record { connection = refl; requests = λ s. refl })
    | inr (c, e) ↦
        rw (e, receive) (record { connection = elsewhere _ r.connections; requests = λ s. refl })
  ]

  pub read_line-IsElsewhere : (r : Reactor) → IsElsewhere client r (read_line socket r)
  unfolding read_line
  read_line-IsElsewhere r = elim (Option-cases (find socket r.connections)) [
    | inl e ↦ rw (e, read_line) (record { connection = refl; requests = λ s. refl })
    | inr (c, e) ↦
        rw (e, read_line)
          (record {
            connection = elsewhere _ r.connections;
            requests = λ s. in_pool-read_lines_other socket c r.pool client s other;
          })
  ]

  pub disconnect-IsElsewhere : (r : Reactor) → IsElsewhere client r (disconnect socket r)
  unfolding disconnect
  disconnect-IsElsewhere r = record {
    connection = ground (arith, other, find-erase socket client r.connections);
    requests = λ s. refl;
  }

  pub handle_write-IsElsewhere :
      (sent : Option ℕ) (r : Reactor) → IsElsewhere client r (handle_write socket sent r)
  unfolding handle_write
  handle_write-IsElsewhere none r = elim (Option-cases (find socket r.connections)) [
    | inl e ↦ rw (e, handle_write) (record { connection = refl; requests = λ s. refl })
    | inr (c, e) ↦
        rw (e, handle_write)
          (if-IsElsewhere client r (is_empty c.write_buffer) _ _
            (record { connection = elsewhere _ r.connections; requests = λ s. refl })
            (disconnect-IsElsewhere r))
  ]
  handle_write-IsElsewhere (some n) r = elim (Option-cases (find socket r.connections)) [
    | inl e ↦ rw (e, handle_write) (record { connection = refl; requests = λ s. refl })
    | inr (c, e) ↦
        rw (e, handle_write)
          (if-IsElsewhere client r (is_empty c.write_buffer) _ _
            (record { connection = elsewhere _ r.connections; requests = λ s. refl })
            (record { connection = elsewhere _ r.connections; requests = λ s. refl }))
  ]

  pub accept_connection-IsElsewhere :
      (ip : Bytes) (r : Reactor) → IsElsewhere client r (accept_connection socket ip r)
  unfolding accept_connection
  accept_connection-IsElsewhere ip r =
      if-IsElsewhere client r _ _ _ (record { connection = refl; requests = λ s. refl })
        (record { connection = elsewhere _ r.connections; requests = λ s. refl })

pub unpause-IsElsewhere : (client : ℕ) (r : Reactor) → IsElsewhere client r (unpause r)
unfolding unpause
unpause-IsElsewhere client r =
    if-IsElsewhere client r _ _ _ (record { connection = refl; requests = λ s. refl })
      (record { connection = refl; requests = λ s. refl })
