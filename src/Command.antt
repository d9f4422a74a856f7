-- ===== src/Command.antt =====
-- app/include/core/command.h, app/src/core/command.cpp: the commands, how they are parsed and how
-- they are written to the append-only file. What they do is in the child `Execute`.
pub mod Reply
pub mod Execute
pub mod Spec
pub mod Refinement
pub mod Answers
pub mod History
pub mod Retiming
pub mod RoundTrip
pub mod Parsed
pub mod Interleaved
use in_memory_db.Base.{
  ℕ, Bool, true, false, ◌&&◌, Option, none, some, List, [], ◌∷◌, ◌++◌, map, length, get_or, leb,
  if◌then◌else◌,
}
use in_memory_db.Base.Int.{ℤ, pos}
use in_memory_db.Text.{Bytes, codes, bytes_eq, toupper}
use in_memory_db.Text.Decimal.{to_string, stoll}

-- One constructor for each class that implements ICommand.
pub data Command : Type 0 where
  set : Bytes → Bytes → ℤ → Command
  get : Bytes → Command
  del : Bytes → Command
  exists : Bytes → Command
  ping : Command
  lpush : Bytes → Bytes → ℤ → Command
  lrange : Bytes → ℤ → ℤ → Command
  hset : Bytes → Bytes → Bytes → ℤ → Command
  hget : Bytes → Bytes → Command

unfoldable pub is_write : Command → Bool
is_write (set k v t) = true
is_write (del k) = true
is_write (lpush k v t) = true
is_write (hset k f v t) = true
is_write c = false

-- A space and the next word.
abbrev pub word : Bytes → Bytes
word w = 32 ∷ w

unfoldable pub serialize : Command → Bytes
serialize (set k v t) = codes "SET" ++ word (k ++ word (v ++ word (to_string t)))
serialize (get k) = codes "GET" ++ word k
serialize (del k) = codes "DEL" ++ word k
serialize (exists k) = codes "EXISTS" ++ word k
serialize ping = codes "PING"
serialize (lpush k v t) = codes "LPUSH" ++ word (k ++ word v)
serialize (lrange k s e) = codes "LRANGE" ++ word (k ++ word (to_string s ++ word (to_string e)))
serialize (hset k f v t) = codes "HSET" ++ word (k ++ word (f ++ word v))
serialize (hget k f) = codes "HGET" ++ word (k ++ word f)

abbrev pub default_ttl : ℤ
default_ttl = pos 86400

-- try { ttl = stoll(tokens[3]); } catch (...) { ttl = 86400; }
ttl_of : Option ℤ → ℤ
ttl_of none = default_ttl
ttl_of (some t) = t

range_of : Bytes → Option ℤ → Option ℤ → Option Command
range_of k (some s) (some e) = some (lrange k s e)
range_of k (some s) none = none
range_of k none e = none

-- `none` is nullptr.
unfoldable pub parse : List Bytes → Option Command
unfolding ttl_of range_of
parse [] = none
parse (t ∷ ts) =
    let cmd = map toupper t in
    let size = length (t ∷ ts) in
    let token = λ (i : ℕ). get_or (t ∷ ts) i [] in
    if bytes_eq cmd (codes "SET") && leb 3 size
    then some
        (set (token 1) (token 2) (if leb 4 size then ttl_of (stoll (token 3)) else default_ttl))
    else if bytes_eq cmd (codes "GET") && leb 2 size
    then some (get (token 1))
    else if bytes_eq cmd (codes "DEL") && leb 2 size
    then some (del (token 1))
    else if bytes_eq cmd (codes "EXISTS") && leb 2 size
    then some (exists (token 1))
    else if bytes_eq cmd (codes "PING")
    then some ping
    else if bytes_eq cmd (codes "LPUSH") && leb 3 size
    then some (lpush (token 1) (token 2) default_ttl)
    else if bytes_eq cmd (codes "LRANGE") && leb 4 size
    then range_of (token 1) (stoll (token 2)) (stoll (token 3))
    else if bytes_eq cmd (codes "HSET") && leb 4 size
    then some (hset (token 1) (token 2) (token 3) default_ttl)
    else if bytes_eq cmd (codes "HGET") && leb 3 size
    then some (hget (token 1) (token 2))
    else none
