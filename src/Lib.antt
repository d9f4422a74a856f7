-- ===== src/Lib.antt =====
-- InMemoryDB: a key-value server with sharded storage, memory limits, an append-only log and a
-- pipelined network front. This library models its code under app/include and app/src.
--
-- The parts, and how they meet. The reactor reads lines from its connections and gives each a
-- number; the pipeline tokenizes and parses a line and puts a task into the worker pool, or an error
-- into its completion queue. A worker executes a command on the router, which finds the shard of the
-- key by a hash; the shard keeps the entries and the account of its arena. A command that changed
-- something goes to the append-only log, whose thread writes it to the file. The reactor takes the
-- replies from the completion queue and writes them in the order of the requests. At start the
-- server replays the file; the timing wheel evicts entries that have expired.
--
-- The files.
--   Base          helpers: tests on numbers, lists, integers, bits, equality as an interface.
--   Text          std::string as bytes; Text/Decimal is std::to_string, std::stoll and std::stoull;
--                 Text/Tokens is the loop `while (iss >> token)`.
--   Dict          std::unordered_map and std::map, as far as the program uses them.
--   Memory        app/src/memory/pmr_allocator.cpp: TrackingMemoryResource. `perform` is one
--                 operation of the containers on an arena, OomException included; Memory/Limits is
--                 the soft limit.
--   Value         app/src/memory/variant_type.cpp: CacheAlignedValue; Value/Usage is the estimate of
--                 its memory.
--   Shard         app/src/engine/shard.cpp. Shard/View is what a client sees, Shard/Garbage what it cannot
--                 see; Shard/Contract is what each operation promises.
--   Hasher        murmur_hash3 of app/src/engine/hasher.cpp.
--   Router        ShardRouter of app/src/engine/hasher.cpp. Router/Index is the selection of a shard;
--                 Router/Contract is the router as one map.
--   Aof           app/src/daemons/aof_logger.cpp: the two buffers. Aof/Written is all that a logger
--                 has taken; Aof/Threads is its threads as a step relation, and
--                 Aof/Crash what the file holds at any moment, and Aof/Torn
--                 what it has on a disk that gives out.
--   Command       app/src/core/command.cpp: Command/Execute, with Lists and Hashes, is `execute`;
--                 Command/Spec is the database as one map from keys to entries, and
--                 Command/Refinement relates the two, and Command/Answers their replies;
--                 Command/Execute/Lists/Ranges is a range of a list; Command/RoundTrip and
--                 Command/Parsed read records back; Command/History is a sequence of commands and
--                 its log, and Command/Retiming the same sequence at other times;
--                 Command/Interleaved is workers whose commands interleave, with Calm, where the
--                 log gives the database, and Race, where it does not.
--   ServerBuilder app/src/core/server_builder.cpp: the replay, its recovery, the memory limit;
--                 ServerBuilder/Crash is the recovery from the file that a crash left, and
--                 ServerBuilder/Calm that after commands that interleaved, and
--                 ServerBuilder/Torn the replay of a file whose last record is cut off;
--                 ServerBuilder/Assembly is the settings, with those of app/src/main.cpp, and what
--                 build_and_run assembles; ServerBuilder/Shutdown is its end, with the workers and
--                 the flush thread as steps that interleave, with Held, what stays true of them, and
--                 Durable, what the file has in the end; ServerBuilder/Joining is the stop of the
--                 reactor and the join with its thread.
--   WorkerPool    app/src/core/worker_pool.cpp: WorkerPool/Workers is its threads, step by step;
--                 WorkerPool/Workers/Left counts their steps behind a shutdown, and
--                 WorkerPool/Workers/Joined is their join.
--   Pipeline      app/src/network/pipeline.cpp: the chain of handlers of
--                 app/include/network/pipeline.h; and `allow` of app/src/network/rate_limiter.cpp.
--                 Pipeline/Outcome is what becomes of a line.
--   Reactor       app/src/network/reactor.cpp: Reactor/Reading is the loop of handle_read,
--                 Reactor/Reassembly and Reactor/Draining are drain_completion_queue, and
--                 Reactor/Poll is the poll set and the loop of `start`; Reactor/Listening is the set-up
--                 of the listening socket.
--   Server        the reactor with its pool, workers and clients, as steps that interleave:
--                 Server/Tally counts requests, Server/Reading, Server/Ordered, Server/Counted,
--                 Server/Elsewhere and Server/Working are what each step does to one client,
--                 Server/Served is what stays true of it; Server/Answered and Server/Serving are
--                 about whole runs, and Server/Rounds is handle_read as a run.
--   PubSubBroker  app/src/network/pubsub_broker.cpp: PubSubBroker/Membership is who is subscribed.
--   TimingWheel   app/src/daemons/timing_wheel.cpp: TimingWheel/Sweep is what a tick leaves alone, and
--                 TimingWheel/Collected what the sweeper comes to erase, and TimingWheel/Logged what
--                 a tick leaves in the log; TimingWheel/Sweeper is its thread, from start to stop.
--   Tests         the theorems at concrete inputs.
--
-- Conventions. A byte is a number, and a string the list of its bytes. Unsigned integers wrap around
-- where the source computes with them; sizes in memory are sums modulo 2 ^ 64. A time is a count of
-- nanoseconds of steady_clock. Each call on a shard holds its lock, and is one step; the clock and
-- what the standard library's containers ask of an arena, and what its pools grant, are an argument
-- of the call (Shard.Env, Memory.Traffic). What recv, send and accept return is an argument of the
-- reactor's handlers, and what WSAPoll reports an argument of a turn of its loop. In Server a step
-- of the reactor is a round of the loop of handle_read, or a call of another handler; a worker takes
-- a task in one step, and executes it and posts the result in another. `none` and `false` stand for
-- the exceptions that the source catches.
--
-- Bounds and fuel. The loop of the reassembly runs at most once for each buffered reply, and the loop
-- of handle_read at most once for each byte of its buffer; both are shown to end by themselves. The
-- digits of a number are at most as many as its value and one. All other loops are structural.
--
-- Not modelled: the signal handler and the console, a thread that cannot be created, and the token
-- buckets behind the first line of RateLimiter::allow, which always returns there. Sums of times
-- are not bounded, where those of std::chrono overflow, and keys have less than 2 ^ 31 bytes where
-- they are hashed. SET and DEL log after they have released the lock of their shard: Command/Interleaved
-- and ServerBuilder/Shutdown have the two steps, while Command/History logs each command directly
-- after its execution, as the only worker does. A crash comes between two steps; a write that it cuts
-- off is, in Aof/Torn, one for which the disk has no more room.
mod Base
pub mod Text
pub mod Dict
pub mod Memory
pub mod Value
pub mod Shard
pub mod Hasher
pub mod Router
pub mod Aof
pub mod Command
pub mod ServerBuilder
pub mod WorkerPool
pub mod Pipeline
pub mod Reactor
pub mod TimingWheel
pub mod PubSubBroker
pub mod Server
mod Tests
