-- ===== src/Reactor.antt =====
-- app/include/network/reactor.h, app/src/network/reactor.cpp: the connections, the way of a line to
-- the pool and of a reply back. Sockets are numbers; what recv, send and accept return is an argument
-- of the handlers. Reactor/Poll is the poll loop, Reactor/Listening the set-up of the socket.
pub mod Reassembly
pub mod Reading
pub mod Draining
pub mod Poll
pub mod Listening
use in_memory_db.Base.{
  ℕ, zero, suc, ◌+◌, ◌-◌, ◌*◌, ◌%◌, ◌^◌, Bool, true, false, not, ◌&&◌, Option, none, some, List, [],
  ◌∷◌, ◌++◌, length, drop, ltb, leb, ◌==◌, HasEq, nat_eq, if◌then◌else◌,
}
use in_memory_db.Text.{Bytes, codes, is_empty}
use in_memory_db.Dict.{Dict, find, insert_or_assign, erase, contains}
use in_memory_db.WorkerPool.{TaskResult, WorkerPool, queue_size, drain}
use in_memory_db.Pipeline.{process}

-- write_pending only tells the poll set what to wait for.
pub record ConnectionState : Type 0 where
  pub read_buffer : Bytes
  pub write_buffer : Bytes
  pub write_pending : Bool
  pub client_ip : Bytes
  pub next_seq_issue : ℕ
  pub next_seq_expected : ℕ
  pub out_of_order_buf : Dict ℕ Bytes
  pub in_flight_requests : ℕ

unfoldable pub new_connection : Bytes → ConnectionState
new_connection ip = record {
  read_buffer = [];
  write_buffer = [];
  write_pending = false;
  client_ip = ip;
  next_seq_issue = 0;
  next_seq_expected = 0;
  out_of_order_buf = [];
  in_flight_requests = 0;
}

-- `paused_reads` is a set: its values say nothing.
pub record Reactor : Type 0 where
  pub pool : WorkerPool
  pub connections : Dict ℕ ConnectionState
  pub paused_reads : Dict ℕ (Unit {0})
  pub total_connections : ℕ

-- Reactor(port, pipeline, pool)
unfoldable pub new_reactor : WorkerPool → Reactor
new_reactor pool = record {
  pool = pool;
  connections = [];
  paused_reads = [];
  total_connections = 0;
}

-- The body of the loop of drain_completion_queue that flushes a contiguous sequence.
unfoldable pub flush_next : Bytes → ConnectionState → ConnectionState
flush_next response c = record c {
  write_buffer = c.write_buffer ++ response;
  out_of_order_buf = erase c.next_seq_expected c.out_of_order_buf;
  next_seq_expected = (c.next_seq_expected + 1) % 2 ^ 64;
  in_flight_requests = c.in_flight_requests - 1;
  write_pending = true;
}

-- That loop. A round erases an entry, so as many rounds as there are entries are enough.
unfoldable pub flush_contiguous : ℕ → ConnectionState → ConnectionState
flush_contiguous zero c = c
flush_contiguous (suc n) c = elim (find c.next_seq_expected c.out_of_order_buf) [
  | none ↦ c
  | some response ↦ flush_contiguous n (flush_next response c)
]

-- What drain_completion_queue does with one result, for its connection.
unfoldable pub deliver : ℕ → Bytes → ConnectionState → ConnectionState
deliver sequence_id response c =
    let buf = insert_or_assign sequence_id response c.out_of_order_buf in
    flush_contiguous (length buf) (record c { out_of_order_buf = buf })

-- The loop over the results. A connection that is gone gets nothing.
pub deliver_all : List TaskResult → Dict ℕ ConnectionState → Dict ℕ ConnectionState
deliver_all [] m = m
deliver_all (r ∷ rs) m = elim (find r.client_fd m) [
  | none ↦ deliver_all rs m
  | some c ↦ deliver_all rs (insert_or_assign r.client_fd (deliver r.sequence_id r.response c) m)
]

unfoldable pub drain_completion_queue : Reactor → Reactor
drain_completion_queue r =
    let (pool, results) = drain r.pool in
    record r { pool = pool; connections = deliver_all results r.connections }

abbrev pub max_connections : ℕ
max_connections = 10000

abbrev pub max_pipeline_depth : ℕ
max_pipeline_depth = 256

-- read_buffer.find('\n'): the line before it and what is behind it.
unfoldable pub cut_line : Bytes → Option (Bytes × Bytes)
cut_line [] = none
cut_line (b ∷ s) =
    if b == 10
    then some ([], s)
    else elim (cut_line s) [ none ↦ none | some (line, rest) ↦ some (b ∷ line, rest) ]

-- if (!line.empty() && line.back() == '\r') line.pop_back();
unfoldable pub strip_return : Bytes → Bytes
strip_return [] = []
strip_return (b ∷ s) = if is_empty s && (b == 13) then [] else b ∷ strip_return s

-- What handle_read does with a line: `continue`, `return`, or the pipeline.
pub data Verdict : Type 0 where
  skip pause issue : Verdict

unfoldable pub verdict : Bytes → ConnectionState → WorkerPool → Verdict
verdict line c p =
    if is_empty line
    then skip
    else if leb max_pipeline_depth c.in_flight_requests
    then pause
    else if ltb ((p.max_queue_size * 9) % 2 ^ 64) ((queue_size p * 10) % 2 ^ 64)
    then pause
    else issue

-- next_seq_issue++ and in_flight_requests++
unfoldable pub issue_next : ConnectionState → ConnectionState
issue_next c = record c {
  next_seq_issue = (c.next_seq_issue + 1) % 2 ^ 64;
  in_flight_requests = (c.in_flight_requests + 1) % 2 ^ 64;
}

-- What the loop of handle_read leaves, and whether it has paused the socket.
pub record Progress : Type 0 where
  pub state : ConnectionState
  pub pool : WorkerPool
  pub paused : Bool

-- That loop. A round takes a newline from the buffer, so its length is enough.
unfoldable pub read_lines : ℕ → ℕ → ConnectionState → WorkerPool → Progress
read_lines zero client c p = record { state = c; pool = p; paused = false }
read_lines (suc n) client c p = elim (cut_line c.read_buffer) [
  | none ↦ record { state = c; pool = p; paused = false }
  | some (before, rest) ↦
      let line = strip_return before in
      let c' = record c { read_buffer = rest } in
      elim (verdict line c' p) [
        | skip ↦ read_lines n client c' p
        | pause ↦ record { state = c'; pool = p; paused = true }
        | issue ↦ read_lines n client (issue_next c') (
            process
              (record {
                client = client;
                seq_id = c.next_seq_issue;
                client_ip = c.client_ip;
                line = line;
              })
              p)
      ]
]

unfoldable pub disconnect : ℕ → Reactor → Reactor
disconnect client r = record r {
  connections = erase client r.connections;
  paused_reads = erase client r.paused_reads;
  total_connections = r.total_connections - 1;
}

-- handle_read, where recv gives the bytes; `none` is a result that is not positive.
unfoldable pub handle_read : ℕ → Option Bytes → Reactor → Reactor
handle_read client none r = disconnect client r
handle_read client (some bytes) r = elim (find client r.connections) [
  | none ↦ r
  | some c ↦
      let buffer = c.read_buffer ++ bytes in
      let done = read_lines (length buffer) client (record c { read_buffer = buffer }) r.pool in
      record r {
        pool = done.pool;
        connections = insert_or_assign client done.state r.connections;
        paused_reads =
            if done.paused then insert_or_assign client tt r.paused_reads else r.paused_reads;
      }
]

-- handle_write, where send takes that many bytes; `none` is SOCKET_ERROR.
unfoldable pub handle_write : ℕ → Option ℕ → Reactor → Reactor
handle_write client sent r = elim (find client r.connections) [
  | none ↦ r
  | some c ↦
      if is_empty c.write_buffer
      then record r {
        connections = insert_or_assign client (record c { write_pending = false }) r.connections;
      }
      else elim sent [
        | none ↦ disconnect client r
        | some n ↦
            let left = drop n c.write_buffer in
            let c' = record c {
              write_buffer = left;
              write_pending = if is_empty left then false else c.write_pending;
            } in
            record r { connections = insert_or_assign client c' r.connections }
      ]
]

-- accept_connection, where accept gives a socket and the address of its peer
unfoldable pub accept_connection : ℕ → Bytes → Reactor → Reactor
accept_connection client ip r = if leb max_connections r.total_connections then r else record r {
  connections = insert_or_assign client (new_connection ip) r.connections;
  total_connections = (r.total_connections + 1) % 2 ^ 64;
}

unfoldable pub has_room : Dict ℕ ConnectionState → ℕ → Bool
has_room m client = elim (find client m) [
  | none ↦ false
  | some c ↦ ltb c.in_flight_requests max_pipeline_depth
]

-- std::erase_if(paused_reads_, …)
unfoldable pub erase_if : (ℕ → Bool) → Dict ℕ (Unit {0}) → Dict ℕ (Unit {0})
erase_if drop_it [] = []
erase_if drop_it ((client, u) ∷ m) =
    let rest = erase_if drop_it m in if drop_it client then rest else (client, u) ∷ rest

-- The part of the loop of `start` that takes connections out of paused_reads.
unfoldable pub unpause : Reactor → Reactor
unpause r =
    if ltb ((queue_size r.pool * 10) % 2 ^ 64) ((r.pool.max_queue_size * 7) % 2 ^ 64)
    then record r { paused_reads = [] }
    else record r { paused_reads = erase_if (has_room r.connections) r.paused_reads }
