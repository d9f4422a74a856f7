-- ===== src/Tests/Polling.antt =====
-- A turn of the poll loop at a concrete input: two connections, one with bytes to write; a third
-- client connects, one of the two sends a line and takes its bytes, and the other hangs up.
use in_memory_db.Base.{ℕ, ◌≡◌, refl, true, false, not, none, some, [], ◌∷◌, List, arith, nat_eq}
use in_memory_db.Text.{codes, is_empty}
use in_memory_db.Dict.{find, contains}
use in_memory_db.WorkerPool.{new_pool}
use in_memory_db.Reactor.{ConnectionState, Reactor, new_connection}
use in_memory_db.Reactor.Poll.{Report, poll_entries, prepare, turn}
use in_memory_db.Reactor.Poll.Table.{IsTabled}
use in_memory_db.Reactor.Poll.Turn.{turn-IsTabled}
use in_memory_db.Reactor.Poll.Asked.{IsAsked, turn-IsAsked}

abbrev writing : ConnectionState
writing = record (new_connection (codes "::1")) {
  write_buffer = codes "+PONG\r\n";
  write_pending = true;
}

abbrev reactor : Reactor
reactor = record {
  pool = new_pool 10;
  connections = (7, writing) ∷ (8, new_connection (codes "::2")) ∷ [];
  paused_reads = (7, tt) ∷ [];
  total_connections = 2;
}

abbrev quiet : Report
quiet = record {
  failed = false;
  readable = false;
  writable = false;
  accepted = none;
  received = none;
  sent = none;
}

abbrev reports : List Report
reports =
    record quiet { readable = true; accepted = some (9, codes "::3") }
    ∷ record quiet {
      readable = true;
      writable = true;
      received = some (codes "GET a\r\n");
      sent = some 7;
    }
    ∷ record quiet { failed = true }
    ∷ []

reactor-IsTabled : IsTabled reactor
unfolding find
reactor-IsTabled = record { unique = (refl, (refl, tt)); total = refl; few = omega arith }

turn-IsTabled_example : IsTabled (turn (some reports) reactor)
unfolding find
turn-IsTabled_example = turn-IsTabled (some reports) reactor refl reactor-IsTabled

reactor-IsAsked : IsAsked reactor.connections
unfolding find new_connection is_empty
reactor-IsAsked k c e = ground (arith, e)

turn-IsAsked_example :
    IsAsked (turn (some reports) reactor).connections
    × ((k : ℕ) (c : ConnectionState)
        → find k (prepare reactor).connections ≡ some c
        → is_empty c.write_buffer ≡ false
        → find k (poll_entries (prepare reactor).paused_reads (prepare reactor).connections)
          ≡ some (record { read = not (contains k (prepare reactor).paused_reads); write = true }))
turn-IsAsked_example = turn-IsAsked (some reports) reactor reactor-IsAsked
