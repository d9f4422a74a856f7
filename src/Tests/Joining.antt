-- ===== src/Tests/Joining.antt =====
-- The set-up of the listening socket, and the end, at concrete inputs: bind is refused, and the stop
-- comes before the reactor's thread has begun.
use in_memory_db.Base.{◌≡◌, true, false, not, ◌&&◌, some, [], ◌==◌, is_some, arith, ◌↔◌}
use in_memory_db.Reactor.Listening.{
  Winsock, new_endpoint, start_listening, stop, destroy, start_listening_effect,
}
use in_memory_db.ServerBuilder.Joining.{Running, created, joining, IsLost, Ends, Ends-iff}

abbrev refused : Winsock
refused = record { startup = 0; socket = some 4; binds = false; listens = true; last_error = 10048 }

start_listening_effect_example :
    (is_some (start_listening refused new_endpoint).1
      ≡ not (refused.startup == 0 && is_some refused.socket && refused.binds && refused.listens))
    × ((start_listening refused new_endpoint).0.running
        ≡ not (is_some (start_listening refused new_endpoint).1))
    × ((destroy (start_listening refused new_endpoint).0).opened ≡ [])
start_listening_effect_example = start_listening_effect refused

abbrev stopped_early : Running
stopped_early = record { endpoint = stop new_endpoint; reactor = created; main = joining }

Ends-iff_example : Ends stopped_early ↔ (¬ IsLost stopped_early)
Ends-iff_example = Ends-iff stopped_early (ground arith)
