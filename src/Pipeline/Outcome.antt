-- ===== src/Pipeline/Outcome.antt =====
-- What becomes of a line: one task, or one reply.
use in_memory_db.Base.{
  ◌≡◌, refl, Bool, true, false, not, ◌||◌, ◌⊎◌, inl, inr, none, some, List, [], ◌∷◌, ◌++◌, arith,
  Option-cases, Bool-cases, ap, ◌∙◌,
}
use in_memory_db.Text.{Bytes, codes}
use in_memory_db.Text.Tokens.{tokenize}
use in_memory_db.Command.{Command, parse}
use in_memory_db.WorkerPool.{Task, WorkerPool, push, submit, is_full}
use in_memory_db.Pipeline.{
  Request, PipelineContext, allow, handle, respond, dispatch_command, new_pipeline, new_context,
  process,
}

-- The line was a command, and the command is the last task.
abbrev pub IsQueued : Request → WorkerPool → WorkerPool → Type 0
IsQueued q p p' =
    (c : Command) × (parse (tokenize q.line) ≡ some c)
    × (is_full p ≡ false)
    × (p.running ≡ true)
    × (p' ≡ record p {
      queue = p.queue ++ record { command = c; client_fd = q.client; sequence_id = q.seq_id } ∷ [];
    })

-- Why a line is answered at once, and with what.
abbrev pub IsRefusal : Request → WorkerPool → Bytes → Type 0
IsRefusal q p response =
    ((tokenize q.line ≡ []) × (response ≡ codes "-ERR empty command\r\n"))
    ⊎ ((¬ (tokenize q.line ≡ []))
        × (parse (tokenize q.line) ≡ none)
        × (response ≡ codes "-ERR unknown command\r\n"))
    ⊎ (((c : Command) × (parse (tokenize q.line) ≡ some c))
        × ((not p.running || is_full p) ≡ true)
        × (response ≡ codes "-ERR server busy\r\n"))

-- That answer is the last completion.
abbrev pub IsRejected : Request → WorkerPool → WorkerPool → Type 0
IsRejected q p p' =
    (response : Bytes) × (p' ≡ record p {
      completion_queue =
          p.completion_queue
          ++ record { client_fd = q.client; sequence_id = q.seq_id; response = response } ∷ [];
    })
    × IsRefusal q p response

-- The pool with such an answer.
abbrev answered : Bytes → Request → WorkerPool → WorkerPool
answered response q p = record p {
  completion_queue =
      p.completion_queue
      ++ record { client_fd = q.client; sequence_id = q.seq_id; response = response } ∷ [];
}

process_empty :
    (q : Request) (p : WorkerPool)
    → tokenize q.line ≡ []
    → process q p ≡ answered (codes "-ERR empty command\r\n") q p
unfolding process handle new_pipeline allow respond push
process_empty q p e = rw (process, handle, e) refl

process_unknown :
    (q : Request) (p : WorkerPool) (t : Bytes) (ts : List Bytes)
    → tokenize q.line ≡ t ∷ ts
    → parse (t ∷ ts) ≡ none
    → process q p ≡ answered (codes "-ERR unknown command\r\n") q p
unfolding process handle new_pipeline allow respond push
process_unknown q p t ts e n = rw (process, handle, e, e, n) refl

task_of : Request → Command → Task
task_of q c = record { command = c; client_fd = q.client; sequence_id = q.seq_id }

-- The context behind the parser.
abbrev parsed_context : Request → WorkerPool → List Bytes → Command → PipelineContext
parsed_context q p ts c = record (new_context q p) { tokens = ts; command = some c }

process_parsed :
    (q : Request) (p : WorkerPool) (t : Bytes) (ts : List Bytes) (c : Command)
    → tokenize q.line ≡ t ∷ ts
    → parse (t ∷ ts) ≡ some c
    → process q p ≡ (dispatch_command (some c) (parsed_context q p (t ∷ ts) c)).pool
unfolding process handle new_pipeline allow
process_parsed q p t ts c e n = rw (process, handle, e, e, n, e, n) refl

is_refused : WorkerPool → Bool
is_refused p = not p.running || is_full p

dispatch_refused :
    (q : Request) (p : WorkerPool) (ts : List Bytes) (c : Command)
    → is_refused p ≡ true
    → (dispatch_command (some c) (parsed_context q p ts c)).pool
      ≡ answered (codes "-ERR server busy\r\n") q p
unfolding dispatch_command respond push submit is_full is_refused
dispatch_refused q p ts c b = rw (dispatch_command, b) refl

dispatch_accepted :
    (q : Request) (p : WorkerPool) (ts : List Bytes) (c : Command)
    → is_refused p ≡ false
    → (dispatch_command (some c) (parsed_context q p ts c)).pool
      ≡ record p { queue = p.queue ++ task_of q c ∷ [] }
unfolding dispatch_command submit is_full is_refused task_of
dispatch_accepted q p ts c b = rw (dispatch_command, b) refl

dispatch_outcome :
    (q : Request) (p : WorkerPool) (ts : List Bytes) (c : Command)
    → parse (tokenize q.line) ≡ some c
    → process q p ≡ (dispatch_command (some c) (parsed_context q p ts c)).pool
    → IsQueued q p (process q p) ⊎ IsRejected q p (process q p)
unfolding is_refused task_of
dispatch_outcome q p ts c n e = elim (Bool-cases (is_refused p)) [
  | inl b ↦
      inr
        (codes "-ERR server busy\r\n", e ∙ dispatch_refused q p ts c b, inr (inr ((c, n), b, refl)))
  | inr b ↦ inl (c, n, ground (arith, b), ground (arith, b), e ∙ dispatch_accepted q p ts c b)
]

-- Each line that the reactor hands over leaves exactly one trace in the pool, under the client and
-- the number of the line: its command as the last task, if it is one and the pool is running and not
-- full, or an error as the last completion: that it is empty, that it has words and is no command,
-- or that it is a command and the pool is full or not running.
pub process_outcome :
    (q : Request) (p : WorkerPool) → IsQueued q p (process q p) ⊎ IsRejected q p (process q p)
process_outcome q p = parsed (tokenize q.line) refl
  where
    parsed :
        (ts : List Bytes)
        → tokenize q.line ≡ ts
        → IsQueued q p (process q p) ⊎ IsRejected q p (process q p)
    parsed [] e = inr (codes "-ERR empty command\r\n", process_empty q p e, inl (e, refl))
    parsed (t ∷ ts) e = elim (Option-cases (parse (t ∷ ts))) [
      | inl n ↦ inr (
        codes "-ERR unknown command\r\n",
        process_unknown q p t ts e n,
        inr (inl (ground (arith, e), ap parse e ∙ n, refl)),
      )
      | inr (c, n) ↦
          dispatch_outcome q p (t ∷ ts) c (ap parse e ∙ n) (process_parsed q p t ts c e n)
    ]
