-- ===== src/Tests/Network.antt =====
-- The pool, the pipeline, the connections and the wheel at concrete inputs.
use in_memory_db.Base.{
  map, some, nat_eq, ℕ, ◌+◌, ◌<◌, ◌≡◌, refl, true, false, ◌⊎◌, none, List, [], ◌∷◌, ◌++◌, arith,
}
use in_memory_db.Text.{Bytes, codes}
use in_memory_db.Command.Execute.{Store}
use in_memory_db.WorkerPool.{WorkerPool, new_pool}
use in_memory_db.Pipeline.{Request, process}
use in_memory_db.Pipeline.Outcome.{IsQueued, IsRejected, process_outcome}
use in_memory_db.Reactor.{
  Reactor, drain_completion_queue, ConnectionState, new_connection, read_lines, cut_line,
}
use in_memory_db.Reactor.Reassembly.{replies, member, AreNew}
use in_memory_db.Reactor.Draining.{results_of, numbers_of, drained_in_order}
use in_memory_db.Dict.{find}
use in_memory_db.Reactor.Reading.{IsCounted, read_lines_ends, read_lines-IsCounted}
use in_memory_db.Router.{get}
use in_memory_db.TimingWheel.{TimingWheel, advance_tick}
use in_memory_db.TimingWheel.Sweep.{get-advance_tick}
use in_memory_db.Tests.{at_second, four_shards, four_shards-IsRouted}

abbrev pool : WorkerPool
pool = new_pool 1

abbrev request : Request
request = record { client = 7; seq_id = 0; client_ip = codes "::1"; line = codes "get k" }

process_outcome_example :
    IsQueued request pool (process request pool) ⊎ IsRejected request pool (process request pool)
process_outcome_example = process_outcome request pool

-- The reply to request n.
abbrev reply : ℕ → Bytes
reply n = (48 + n) ∷ []

abbrev arrivals : List ℕ
arrivals = 2 ∷ 0 ∷ 4 ∷ 1 ∷ []

arrivals-AreNew : AreNew (λ t. false) arrivals
arrivals-AreNew =
    (refl, omega arith, (refl, omega arith, (refl, omega arith, (refl, omega arith, tt))))

-- The connection of client 7, and the queue with a result of client 8 in it.
abbrev reactor : Reactor
reactor = record {
  pool = record pool {
    completion_queue =
        map (λ n. record { client_fd = 7; sequence_id = n; response = reply n }) arrivals
        ++ record { client_fd = 8; sequence_id = 0; response = [] } ∷ [];
  };
  connections = (7, new_connection []) ∷ [];
  paused_reads = [];
  total_connections = 1;
}

abbrev numbers : List ℕ
numbers = numbers_of (results_of 7 reactor.pool.completion_queue)

drained_in_order_example :
    (c : ConnectionState) × (find 7 (drain_completion_queue reactor).connections ≡ some c)
    × (c.write_buffer ≡ replies reply c.next_seq_expected)
    × ((s : ℕ) → s < c.next_seq_expected → member s numbers ≡ true)
    × (member c.next_seq_expected numbers ≡ false)
unfolding find results_of
drained_in_order_example =
    drained_in_order reply reactor 7 [] refl (refl, (refl, (refl, (refl, tt)))) arrivals-AreNew

-- Two lines, one of them empty, and a part of a third.
abbrev connection : ConnectionState
connection = record (new_connection (codes "::1")) { read_buffer = codes "PING\r\n\nGET" }

read_lines_ends_example :
    ((read_lines 10 7 connection pool).paused ≡ true)
    ⊎ (cut_line (read_lines 10 7 connection pool).state.read_buffer ≡ none)
read_lines_ends_example = read_lines_ends 10 7 connection pool (omega arith)

connection-IsCounted : IsCounted connection
unfolding new_connection
connection-IsCounted = record { counted = refl; bounded = omega arith }

read_lines-IsCounted_example : IsCounted (read_lines 10 7 connection pool).state
unfolding new_connection
read_lines-IsCounted_example =
    read_lines-IsCounted 10 7 connection pool (omega arith) connection-IsCounted

abbrev wheel : TimingWheel
wheel = record { buckets = λ i. codes "k" ∷ []; start_time = 0; current_tick = 3 }

abbrev store : Store
store = record { router = four_shards; aof = none }

get-advance_tick_example :
    get 9_000_000_000 (codes "k") (advance_tick (λ i. at_second 5) (wheel, store)).1.router
    ≡ get 9_000_000_000 (codes "k") four_shards
get-advance_tick_example =
    get-advance_tick (λ i. at_second 5) wheel store (codes "k") 9_000_000_000 four_shards-IsRouted
      (λ i. omega arith)
