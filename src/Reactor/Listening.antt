-- ===== src/Reactor/Listening.antt =====
-- The set-up of the listening socket in app/src/network/reactor.cpp: init_winsock,
-- create_listen_socket, the first lines of `start`, `stop` and the destructor. What the calls of
-- Winsock return is an argument; an exception is its message.
use in_memory_db.Base.{
  ℕ, ◌≡◌, refl, Bool, true, false, not, ◌&&◌, Option, none, some, List, [], ◌∷◌, ◌++◌, is_some,
  arith, ◌==◌, if◌then◌else◌,
}
use in_memory_db.Base.Int.{pos}
use in_memory_db.Text.{Bytes, codes}
use in_memory_db.Text.Decimal.{to_string}

-- WSAStartup, WSASocketW (`none` is INVALID_SOCKET), bind and listen (false is SOCKET_ERROR), and
-- WSAGetLastError
pub record Winsock : Type 0 where
  pub startup : ℕ
  pub socket : Option ℕ
  pub binds : Bool
  pub listens : Bool
  pub last_error : ℕ

-- The fields of the reactor that the set-up changes, and the sockets that are open.
pub record Endpoint : Type 0 where
  pub listen_socket : Option ℕ
  pub running : Bool
  pub opened : List ℕ

unfoldable pub new_endpoint : Endpoint
new_endpoint = record { listen_socket = none; running = false; opened = [] }

init_winsock : Winsock → Option Bytes
init_winsock w =
    if w.startup == 0 then none else some (codes "WSAStartup failed: " ++ to_string (pos w.startup))

-- The message of an exception that names the last error.
failed : Bytes → Winsock → Option Bytes
failed what w = some (what ++ to_string (pos w.last_error))

bind_and_listen : Winsock → Option Bytes
unfolding failed
bind_and_listen w =
    if w.binds
    then (if w.listens then none else failed (codes "Listen failed: ") w)
    else failed (codes "Bind failed: ") w

create_listen_socket : Winsock → Endpoint → Endpoint × Option Bytes
unfolding bind_and_listen failed
create_listen_socket w e = elim w.socket [
  | none ↦ (record e { listen_socket = none }, failed (codes "WSASocket failed: ") w)
  | some s ↦ (record e { listen_socket = some s; opened = s ∷ e.opened }, bind_and_listen w)
]

-- running_ = true; behind the set-up, if it has not thrown
set_running : Endpoint × Option Bytes → Endpoint × Option Bytes
set_running (e, none) = (record e { running = true }, none)
set_running (e, some message) = (e, some message)

-- `start`, up to its loop
pub start_listening : Winsock → Endpoint → Endpoint × Option Bytes
unfolding init_winsock create_listen_socket set_running
start_listening w e = elim (init_winsock w) [
  | none ↦ set_running (create_listen_socket w e)
  | some message ↦ (e, some message)
]

unfoldable pub stop : Endpoint → Endpoint
stop e = record e { running = false }

-- closesocket
close_socket : ℕ → List ℕ → List ℕ
close_socket s [] = []
close_socket s (x ∷ xs) = let rest = close_socket s xs in if x == s then rest else x ∷ rest

close_listener : Option ℕ → List ℕ → List ℕ
close_listener none opened = opened
close_listener (some s) opened = close_socket s opened

-- ~Reactor()
pub destroy : Endpoint → Endpoint
unfolding stop close_listener close_socket
destroy e = record (stop e) { opened = close_listener e.listen_socket e.opened }

-- `start` goes on to its loop, with the flag set, exactly if WSAStartup, the socket, bind and listen
-- all succeed; otherwise it throws, and the flag is not set. Either way the destructor closes what
-- was opened.
pub start_listening_effect :
    (w : Winsock)
    → (is_some (start_listening w new_endpoint).1
        ≡ not (w.startup == 0 && is_some w.socket && w.binds && w.listens))
      × ((start_listening w new_endpoint).0.running
          ≡ not (is_some (start_listening w new_endpoint).1))
      × ((destroy (start_listening w new_endpoint).0).opened ≡ [])
unfolding start_listening new_endpoint destroy
start_listening_effect w = ground arith

-- If `start` does not throw, the flag is set.
pub start_listening_running :
    (w : Winsock) (e : Endpoint)
    → (start_listening w e).1 ≡ none
    → (start_listening w e).0.running ≡ true
unfolding start_listening
start_listening_running w e h = ground arith

-- The calls all succeed.
abbrev pub granted : ℕ → Winsock
granted s = record { startup = 0; socket = some s; binds = true; listens = true; last_error = 0 }

pub start_listening_granted : (s : ℕ) (e : Endpoint) → (start_listening (granted s) e).1 ≡ none
unfolding start_listening
start_listening_granted s e = refl
