-- ===== src/Command/Reply.antt =====
-- The replies on the wire, as app/src/core/command.cpp spells them.
use in_memory_db.Base.{ℕ, ◌++◌, length}
use in_memory_db.Base.Int.{pos}
use in_memory_db.Text.{Bytes, codes}
use in_memory_db.Text.Decimal.{to_string}

unfoldable pub ok_reply : Bytes
ok_reply = codes "+OK\r\n"

unfoldable pub pong_reply : Bytes
pong_reply = codes "+PONG\r\n"

unfoldable pub nil_reply : Bytes
nil_reply = codes "$-1\r\n"

unfoldable pub oom_reply : Bytes
oom_reply = codes "-ERR OOM command not allowed when used memory > 'maxmemory'\r\n"

unfoldable pub wrong_type_reply : Bytes
wrong_type_reply = codes "-WRONGTYPE Operation against a key holding the wrong kind of value\r\n"

unfoldable pub integer_reply : ℕ → Bytes
integer_reply n = codes ":" ++ (to_string (pos n) ++ codes "\r\n")

unfoldable pub bulk_reply : Bytes → Bytes
bulk_reply s = codes "$" ++ (to_string (pos (length s)) ++ (codes "\r\n" ++ (s ++ codes "\r\n")))

-- The head of a reply of so many elements.
unfoldable pub array_header : ℕ → Bytes
array_header n = codes "*" ++ (to_string (pos n) ++ codes "\r\n")
