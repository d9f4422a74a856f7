-- ===== src/Pipeline.antt =====
-- app/include/network/pipeline.h, app/src/network/pipeline.cpp and `allow` of
-- app/src/network/rate_limiter.cpp: the way of one line from the reactor to the worker pool. Each
-- handler works on the context of a request and hands it to the next, or answers it.
pub mod Outcome
use in_memory_db.Base.{ℕ, Bool, true, Option, none, some, List, [], ◌∷◌, ◌++◌, if◌then◌else◌}
use in_memory_db.Text.{Bytes, codes}
use in_memory_db.Text.Tokens.{tokenize}
use in_memory_db.Command.{Command, parse}
use in_memory_db.WorkerPool.{WorkerPool, push, submit}

-- RateLimiter::allow returns before it looks at its buckets.
unfoldable pub allow : Bytes → Bool
allow ip = true

-- What a PipelineContext says of the request: `client`, `seq_id`, `client_ip` and `line`.
pub record Request : Type 0 where
  pub client : ℕ
  pub seq_id : ℕ
  pub client_ip : Bytes
  pub line : Bytes

-- `command` is a pointer: `none` is nullptr.
pub record PipelineContext : Type 0 where
  pub client : ℕ
  pub line : Bytes
  pub seq_id : ℕ
  pub client_ip : Bytes
  pub tokens : List Bytes
  pub command : Option Command
  pub pool : WorkerPool

-- The classes that derive from PipelineHandler.
pub data Handler : Type 0 where
  rate_limit tokenizer command_parser dispatcher : Handler

-- ctx.pool.completion_queue().push({ctx.client, ctx.seq_id, response})
unfoldable pub respond : Bytes → PipelineContext → PipelineContext
respond response ctx = record ctx {
  pool =
      push (record { client_fd = ctx.client; sequence_id = ctx.seq_id; response = response })
        ctx.pool;
}

-- DispatchHandler::handle behind the chain's parser, which leaves a command.
unfoldable pub dispatch_command : Option Command → PipelineContext → PipelineContext
unfolding respond
dispatch_command none ctx = ctx
dispatch_command (some c) ctx =
    let (p, accepted) =
      submit (record { command = c; client_fd = ctx.client; sequence_id = ctx.seq_id }) ctx.pool in
    let ctx' = record ctx { command = none; pool = p } in
    if accepted then ctx' else respond (codes "-ERR server busy\r\n") ctx'

-- `handle` of the first handler of a chain; behind the last one, PipelineHandler::handle returns.
unfoldable pub handle : List Handler → PipelineContext → PipelineContext
unfolding respond dispatch_command
handle [] ctx = ctx
handle (rate_limit ∷ next) ctx =
    let rest = handle next ctx in
    if allow ctx.client_ip then rest else respond (codes "-ERR rate limit exceeded\r\n") ctx
handle (tokenizer ∷ next) ctx =
    let ctx' = record ctx { tokens = ctx.tokens ++ tokenize ctx.line } in
    elim ctx'.tokens [
      | [] ↦ respond (codes "-ERR empty command\r\n") ctx'
      | t ∷ ts ↦ handle next ctx'
    ]
handle (command_parser ∷ next) ctx =
    let ctx' = record ctx { command = parse ctx.tokens } in
    elim ctx'.command [
      | none ↦ respond (codes "-ERR unknown command\r\n") ctx'
      | some c ↦ handle next ctx'
    ]
handle (dispatcher ∷ next) ctx = dispatch_command ctx.command ctx

-- Pipeline(pool, limiter): the handlers, as set_next links them.
unfoldable pub new_pipeline : List Handler
new_pipeline = rate_limit ∷ tokenizer ∷ command_parser ∷ dispatcher ∷ []

-- The context that Pipeline::process makes.
abbrev pub new_context : Request → WorkerPool → PipelineContext
new_context q p = record {
  client = q.client;
  line = q.line;
  seq_id = q.seq_id;
  client_ip = q.client_ip;
  tokens = [];
  command = none;
  pool = p;
}

-- Pipeline::process
unfoldable pub process : Request → WorkerPool → WorkerPool
process q p = (handle new_pipeline (new_context q p)).pool
