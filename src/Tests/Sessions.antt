-- ===== src/Tests/Sessions.antt =====
-- A run of the server at a concrete input: one client sends two lines, a worker answers the first,
-- and the pipeline the second.
use in_memory_db.Base.{
  ℕ, ◌+◌, ◌<◌, ◌≡◌, refl, none, some, [], ◌∷◌, ◌++◌, arith, length, take, ltb, nat_eq,
  if◌then◌else◌,
}
use in_memory_db.Text.{Bytes, codes, is_empty, bytes_eq, toupper}
use in_memory_db.Text.Tokens.{tokenize}
use in_memory_db.Dict.{find, insert_or_assign}
use in_memory_db.Command.{ping, parse}
use in_memory_db.WorkerPool.{Task, WorkerPool, new_pool, take_task, submit, push, work, drain}
use in_memory_db.Pipeline
use in_memory_db.Reactor
use in_memory_db.Reactor.{
  ConnectionState, Reactor, new_connection, read_lines, handle_read, drain_completion_queue,
  cut_line,
}
use in_memory_db.Reactor.Reassembly.{replies, last_id}
use in_memory_db.Server.{
  Server, Reach, here, next, takes, finishes, drains, writes, finish, unsent, drain_results,
}
use in_memory_db.Server.Tally.{queued, completed, in_pool}
use in_memory_db.Server.Ordered.{response_of}
use in_memory_db.Server.Answered.{IsNew, IsIdle, replies_in_order, each_request_once, all_answered}
use in_memory_db.Server.Serving.{can_answer_all}
use in_memory_db.Server.Rounds.{handle_read-Reach}
use in_memory_db.Tests.{at_second, four_shards}

abbrev start : Server
start = record {
  reactor = record {
    pool = new_pool 10;
    connections = (7, new_connection (codes "::1")) ∷ [];
    paused_reads = [];
    total_connections = 1;
  };
  store = record { router = four_shards; aof = none };
  busy = [];
  drained = [];
  sent = [];
  received = 0;
}

start-IsNew : IsNew 7 (codes "::1") start
unfolding new_connection new_pool in_pool queued completed find
start-IsNew = record { connection = refl; clean = λ s. refl; unsent = refl }

abbrev lines : Bytes
lines = codes "PING\r\nHELP\r\n"

abbrev read : Server
read = record start {
  reactor = handle_read 7 (some lines) start.reactor;
  received = 0 + length lines;
}

read-Reach : Reach 7 start read
read-Reach = handle_read-Reach 7 7 lines start here

abbrev task : Task
task = record { command = ping; client_fd = 7; sequence_id = 0 }

abbrev rest : WorkerPool
rest = record read.reactor.pool { queue = [] }

taken : take_task read.reactor.pool ≡ (rest, some task)
unfolding take_task handle_read read_lines cut_line Reactor.strip_return Reactor.verdict
    Reactor.issue_next Pipeline.process Pipeline.allow Pipeline.handle Pipeline.new_pipeline
    Pipeline.dispatch_command Pipeline.respond tokenize parse submit push new_pool find
    insert_or_assign new_connection is_empty bytes_eq toupper
taken = refl

abbrev working : Server
working = record read { reactor = record read.reactor { pool = rest }; busy = task ∷ [] }

abbrev answered : Server
answered = drain_results (finish (at_second 1) task [] working)

answered-Reach : Reach 7 start answered
answered-Reach =
    next (next (next read-Reach (takes task rest taken)) (finishes (at_second 1) [] task [] refl))
      drains

abbrev sent : Server
sent = record answered {
  reactor = Reactor.handle_write 7 (some 3) answered.reactor;
  sent = answered.sent ++ take 3 (unsent 7 answered.reactor);
}

sent-Reach : Reach 7 start sent
sent-Reach = next answered-Reach (writes 7 3)

answered_small : answered.received < last_id
unfolding finish
answered_small = omega arith

replies_in_order_example :
    (c : ConnectionState) × (find 7 sent.reactor.connections ≡ some c)
    × (sent.sent ++ c.write_buffer ≡ replies (response_of 7 sent.drained) c.next_seq_expected)
    × ((n : ℕ) → n < c.next_seq_expected → completed 7 n sent.drained ≡ 1)
replies_in_order_example = replies_in_order 7 (codes "::1") start-IsNew sent-Reach answered_small

each_request_once_example :
    (c : ConnectionState) × (find 7 working.reactor.connections ≡ some c)
    × ((n : ℕ)
        → in_pool 7 n working.reactor.pool + queued 7 n working.busy + completed 7 n working.drained
          ≡ (if ltb n c.next_seq_issue then 1 else 0))
each_request_once_example =
    each_request_once 7 (codes "::1") start-IsNew (next read-Reach (takes task rest taken))
      (omega arith)

answered-IsIdle : IsIdle 7 answered
unfolding in_pool queued completed finish work push drain_completion_queue drain
answered-IsIdle = λ n. refl

all_answered_example :
    (c : ConnectionState) × (find 7 answered.reactor.connections ≡ some c)
    × (answered.sent ++ c.write_buffer ≡ replies (response_of 7 answered.drained) c.next_seq_issue)
    × (c.next_seq_expected ≡ c.next_seq_issue)
    × (c.in_flight_requests ≡ 0)
all_answered_example =
    all_answered 7 (codes "::1") start-IsNew answered-Reach answered_small answered-IsIdle

read_connection : (c : ConnectionState) × (find 7 read.reactor.connections ≡ some c)
read_connection =
    let (c, e, _) = each_request_once 7 (codes "::1") start-IsNew read-Reach (omega arith) in (c, e)

can_answer_all_example :
    (u : Server) × Reach 7 read u
    × (c' : ConnectionState) × (find 7 u.reactor.connections ≡ some c')
    × (c'.next_seq_issue ≡ read_connection.0.next_seq_issue)
    × (u.sent ++ c'.write_buffer ≡ replies (response_of 7 u.drained) c'.next_seq_issue)
can_answer_all_example =
    can_answer_all (at_second 1) 7 (codes "::1") read_connection.0 start-IsNew read-Reach
      (omega arith) read_connection.1
