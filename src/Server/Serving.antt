-- ===== src/Server/Serving.antt =====
-- The server can always answer what it has taken: the workers only have to go on.
use in_memory_db.Base.{ℕ, ◌<◌, ◌≡◌, refl, some, List, [], ◌∷◌, ◌++◌, arith, nat_eq, ap, ◌∙◌, sym}
use mathlib.Core.Option.{some-injective}
use in_memory_db.Text.{Bytes}
use in_memory_db.Dict.{find}
use in_memory_db.Shard.{Env}
use in_memory_db.WorkerPool.{Task, WorkerPool, take_task, work, push, drain}
use in_memory_db.Reactor.{ConnectionState, drain_completion_queue}
use in_memory_db.Reactor.Reassembly.{replies, last_id}
use in_memory_db.Server.{Server, drains, takes, finishes, Reach, here, next, finish, drain_results}
use in_memory_db.Server.Tally.{queued, completed, in_pool}
use in_memory_db.Server.Ordered.{response_of}
use in_memory_db.Server.Working.{drain-IsServed}
use in_memory_db.Server.Answered.{IsNew, Reach-IsServed, IsIdle, idle_answered}

module _ (client : ℕ) (s : Server) where
  -- A run has gone on from t to u without the reactor, and the workers have nothing in their hands.
  record IsRested (queue : List Task) (t u : Server) : Type 0 where
    run : Reach client s u
    connections : u.reactor.connections ≡ t.reactor.connections
    amount : u.received ≡ t.received
    idle : u.busy ≡ []
    left : u.reactor.pool.queue ≡ queue

  module _ (env : Env) where
    finishes_all :
        (tasks : List Task) (t : Server)
        → t.busy ≡ tasks
        → Reach client s t
        → (u : Server) × IsRested t.reactor.pool.queue t u
    unfolding finish work push
    finishes_all [] t e r =
        (t, record { run = r; connections = refl; amount = refl; idle = e; left = refl })
    finishes_all (task ∷ tasks) t e r =
        let (u, w) =
          finishes_all tasks (finish env task tasks t) refl
            (next r (finishes env [] task tasks e)) in
        (
          u,
          record {
            run = w.run;
            connections = w.connections;
            amount = w.amount;
            idle = w.idle;
            left = w.left;
          },
        )

    empties_queue :
        (tasks : List Task) (t : Server)
        → t.reactor.pool.queue ≡ tasks
        → t.busy ≡ []
        → Reach client s t
        → (u : Server) × IsRested [] t u
    unfolding finish work push take_task
    empties_queue [] t e b r =
        (t, record { run = r; connections = refl; amount = refl; idle = b; left = e })
    empties_queue (task ∷ tasks) t e b r =
        let p : WorkerPool = record t.reactor.pool { queue = tasks } in
        let taken : take_task t.reactor.pool ≡ (p, some task) = rw (e, take_task) refl in
        let t' : Server = record t {
          reactor = record t.reactor { pool = p };
          busy = t.busy ++ task ∷ [];
        } in
        let (u, w) = empties_queue tasks (finish env task [] t') refl refl (
          next (next r (takes task p taken))
            (finishes env [] task [] (ap (λ l. l ++ task ∷ []) b))) in
        (
          u,
          record {
            run = w.run;
            connections = w.connections;
            amount = w.amount;
            idle = w.idle;
            left = w.left;
          },
        )

    rests : (u : Server) × IsRested [] s u
    rests =
        let (t, w) = finishes_all s.busy s refl here in
        let (u, w') = empties_queue t.reactor.pool.queue t refl w.idle w.run in
        (
          u,
          record {
            run = w'.run;
            connections = w'.connections ∙ w.connections;
            amount = w'.amount ∙ w.amount;
            idle = w'.idle;
            left = w'.left;
          },
        )

Reach-trans : {client : ℕ} {s t u : Server} → Reach client s t → Reach client t u → Reach client s u
Reach-trans r here = r
Reach-trans r (next q step) = next (Reach-trans r q) step

-- From each state of a run from the connection of a client on, where nothing of an earlier connection
-- on the same socket number was left, and in which the client has not disconnected and has sent less
-- than 2 ^ 64 - 1 bytes, and in which its connection is c: the workers and one drain of the reactor
-- can lead to a state where the responses to all requests that c has numbered are sent or wait to be
-- sent, in order.
pub can_answer_all :
    (env : Env) (client : ℕ) (ip : Bytes) {s t : Server} (c : ConnectionState)
    → IsNew client ip s
    → Reach client s t
    → t.received < last_id
    → find client t.reactor.connections ≡ some c
    → (u : Server) × Reach client t u
      × (c' : ConnectionState) × (find client u.reactor.connections ≡ some c')
      × (c'.next_seq_issue ≡ c.next_seq_issue)
      × (u.sent ++ c'.write_buffer ≡ replies (response_of client u.drained) c'.next_seq_issue)
unfolding drain_completion_queue drain in_pool queued completed
can_answer_all env client ip {s} {t} c v r small e =
    let (u, rest) = rests client t env in
    let below : u.received < last_id = omega (arith, rest.amount, small) in
    let (c1, w1) = Reach-IsServed client ip v (Reach-trans r rest.run) below in
    let same : c1 ≡ c =
      some-injective _ _ (sym w1.connection ∙ ap (find client) rest.connections ∙ e) in
    let (c', issued, w') = drain-IsServed client u c1 w1 below in
    let idle : IsIdle client (drain_results u) =
      λ n. ground (arith, ap (queued client n) rest.left, ap (queued client n) rest.idle) in
    let (stream, _, _) = idle_answered client (drain_results u) c' w' idle in
    (
      drain_results u,
      next rest.run drains,
      c',
      w'.connection,
      issued ∙ ap (λ x. x.next_seq_issue) same,
      stream,
    )
