-- ===== src/Aof.antt =====
-- AofLogger of app/include/daemons/aof_logger.h and app/src/daemons/aof_logger.cpp: the two buffers
-- and the file. Each function is one critical section; the threads are in the child `Threads`.
pub mod Written
pub mod Threads
pub mod Crash
pub mod Torn
use in_memory_db.Base.{Bool, true, false, not, List, [], ◌∷◌, ◌++◌, if◌then◌else◌}
use in_memory_db.Text.{Bytes, codes}

-- `active_buffer_` and `flush_buffer_` point to the two buffers, in one order or the other.
pub record AofLogger : Type 0 where
  pub file : Bytes
  pub buffer_a : List Bytes
  pub buffer_b : List Bytes
  pub active_is_a : Bool
  pub running : Bool
  pub replaying : Bool

-- AofLogger(filepath), where the file holds the given bytes
unfoldable pub new_logger : Bytes → AofLogger
new_logger file = record {
  file = file;
  buffer_a = [];
  buffer_b = [];
  active_is_a = true;
  running = false;
  replaying = false;
}

unfoldable pub active_buffer : AofLogger → List Bytes
active_buffer a = if a.active_is_a then a.buffer_a else a.buffer_b

unfoldable pub flush_buffer : AofLogger → List Bytes
flush_buffer a = if a.active_is_a then a.buffer_b else a.buffer_a

unfoldable pub log : Bytes → AofLogger → AofLogger
log command a =
    if a.running
    then (if a.active_is_a
        then record a { buffer_a = a.buffer_a ++ command ∷ [] }
        else record a { buffer_b = a.buffer_b ++ command ∷ [] })
    else a

-- `file_ << cmd << "\n"` for each entry
unfoldable pub lines : List Bytes → Bytes
lines [] = []
lines (c ∷ cs) = (c ++ codes "\n") ++ lines cs

-- write_buffer_to_disk(*active_buffer_): `flush`
unfoldable pub flush : AofLogger → AofLogger
unfolding lines active_buffer
flush a =
    if a.active_is_a
    then record a { file = a.file ++ lines a.buffer_a; buffer_a = [] }
    else record a { file = a.file ++ lines a.buffer_b; buffer_b = [] }

-- write_buffer_to_disk(*flush_buffer_), in `flush_loop`
unfoldable pub write_flush_buffer : AofLogger → AofLogger
unfolding lines
write_flush_buffer a =
    if a.active_is_a
    then record a { file = a.file ++ lines a.buffer_b; buffer_b = [] }
    else record a { file = a.file ++ lines a.buffer_a; buffer_a = [] }

-- std::swap(active_buffer_, flush_buffer_)
unfoldable pub swap : AofLogger → AofLogger
swap a = record a { active_is_a = not a.active_is_a }

-- start(), where the file can be opened
unfoldable pub start : AofLogger → AofLogger
start a = record a { running = true }

-- running_.exchange(false), in `shutdown`
unfoldable pub stop : AofLogger → AofLogger
stop a = record a { running = false }

unfoldable pub set_replaying : Bool → AofLogger → AofLogger
set_replaying v a = record a { replaying = v }
