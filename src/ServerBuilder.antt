-- ===== src/ServerBuilder.antt =====
-- app/include/core/server_builder.h, app/src/core/server_builder.cpp: the replay of the append-only
-- file, and the memory limit. Signals and the console are not modelled.
pub mod Replay
pub mod Recovery
pub mod MemoryLimit
pub mod Shutdown
pub mod Assembly
pub mod Crash
pub mod Calm
pub mod Joining
pub mod Torn
use in_memory_db.Base.{
  ℕ, suc, Bool, true, false, Option, none, some, List, [], ◌∷◌, ◌++◌, ◌==◌, if◌then◌else◌,
}
use in_memory_db.Text.{Bytes, is_empty}
use in_memory_db.Text.Tokens.{tokenize}
use in_memory_db.Aof
use in_memory_db.Shard.{Env}
use in_memory_db.Command.{Command, parse}
use in_memory_db.Command.Execute.{Store, execute}

-- The end of the file: std::getline hands over a last line that is not empty.
pub last_line : Bytes → List Bytes
last_line [] = []
last_line (c ∷ s) = (c ∷ s) ∷ []

pub split_lines : Bytes → Bytes → List Bytes
unfolding last_line
split_lines line [] = last_line line
split_lines line (c ∷ s) = elim (c == 10) [
  | true ↦ line ∷ split_lines [] s
  | false ↦ split_lines (line ++ c ∷ []) s
]

-- while (std::getline(aof_file, line))
pub get_lines : Bytes → List Bytes
unfolding split_lines
get_lines file = split_lines [] file

-- if (cmd) cmd->execute(router, &aof)
execute_parsed : Env → Option Command → Store → Store
execute_parsed env none s = s
execute_parsed env (some c) s = (execute env c s).0

pub replay_line : Env → Bytes → Store → Store
unfolding execute_parsed
replay_line env line s = if is_empty line then s else execute_parsed env (parse (tokenize line)) s

-- The loop over the lines; `envs i` is what the call for the i-th line meets.
pub replay_lines : (ℕ → Env) → ℕ → List Bytes → Store → Store
replay_lines envs i [] s = s
replay_lines envs i (line ∷ rest) s = replay_lines envs (suc i) rest (replay_line (envs i) line s)

pub set_replaying : Bool → Store → Store
set_replaying v s = record s {
  aof = elim s.aof [ none ↦ none | some a ↦ some (Aof.set_replaying v a) ];
}

-- The block of build_and_run that replays the file, where the file can be opened.
pub replay : (ℕ → Env) → Bytes → Store → Store
unfolding set_replaying
replay envs file s =
    set_replaying false (replay_lines envs 0 (get_lines file) (set_replaying true s))
