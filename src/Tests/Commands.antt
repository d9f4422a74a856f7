-- ===== src/Tests/Commands.antt =====
-- The texts and the commands at concrete inputs.
use in_memory_db.ServerBuilder.MemoryLimit.{parse_memory_limit, parse_memory_limit-decimal}
use in_memory_db.Base.{
  List, map, length, ◌++◌, ◌*◌, ◌^◌, ◌%◌, ◌≡◌, some, [], ◌∷◌, refl, arith, if◌then◌else◌,
}
use in_memory_db.Base.Int.{pos, negsuc, ◌+ℤ◌}
use in_memory_db.Text.{Bytes, codes, bytes_eq, is_space, toupper}
use in_memory_db.Text.Tokens.{tokenize}
use in_memory_db.Text.Decimal.{decimal, to_string, stoll, stoll-to_string}
use in_memory_db.Command.{Command, lpush, set, hset, serialize, parse, default_ttl}
use in_memory_db.Command.Execute.{act}
use in_memory_db.Command.Spec.{apply, key_of}
use in_memory_db.Command.Refinement.{contents, act-refines}
use in_memory_db.Command.Answers.{IsAnswer, act-IsAnswer}
use in_memory_db.Command.Reply.{bulk_reply, array_header}
use in_memory_db.Command.Execute.Lists.{range_reply}
use in_memory_db.Command.Execute.Lists.Ranges.{slice, concat, range_reply-slice}
use in_memory_db.Command.Parsed.{parse-serialize-parse}
use in_memory_db.Tests.{at_second, four_shards, four_shards-IsRouted}

stoll-to_string_example :
    stoll (to_string (negsuc 9_223_372_036_854_775_807)) ≡ some (negsuc 9_223_372_036_854_775_807)
stoll-to_string_example =
    stoll-to_string (negsuc 9_223_372_036_854_775_807) (omega arith, omega arith)

abbrev set_k : Command
set_k = set (codes "k") (codes "v") (pos 5)

-- A command in lower case, with blanks to spare.
parsed : parse (tokenize (codes "set  k v 5 ")) ≡ some set_k
unfolding parse tokenize bytes_eq is_space toupper stoll
parsed = refl

parse-serialize-parse_example : parse (tokenize (serialize set_k)) ≡ some set_k
parse-serialize-parse_example = parse-serialize-parse (codes "set  k v 5 ") set_k parsed

abbrev hset_h : Command
hset_h = hset (codes "h") (codes "f") (codes "v") default_ttl

act-refines_example : contents (act (at_second 5) hset_h four_shards).0 (codes "h") ≡ (
    if (act (at_second 5) hset_h four_shards).1.0
    then apply 5_000_000_000 hset_h (contents four_shards) (codes "h")
    else contents four_shards (codes "h"))
act-refines_example = act-refines (at_second 5) hset_h four_shards (codes "h") four_shards-IsRouted

abbrev lpush_l : Command
lpush_l = lpush (codes "l") (codes "v") default_ttl

act-IsAnswer_example :
    IsAnswer 5_000_000_000 lpush_l
      (contents four_shards (codes "l"))
      (act (at_second 5) lpush_l four_shards).1
unfolding key_of
act-IsAnswer_example = act-IsAnswer (at_second 5) lpush_l four_shards four_shards-IsRouted

-- Three elements, and the range 1 -1.
abbrev three : List Bytes
three = codes "a" ∷ codes "b" ∷ codes "c" ∷ []

range_reply-slice_example :
    range_reply three (pos 1) (negsuc 0)
    ≡ array_header (length (slice three (pos 1) (negsuc 0)))
      ++ concat (map bulk_reply (slice three (pos 1) (negsuc 0)))
range_reply-slice_example = range_reply-slice three (pos 1) (negsuc 0)

-- Its two elements on the wire.
range_of_two : range_reply three (pos 1) (negsuc 0) ≡ codes "*2\r\n$1\r\nb\r\n$1\r\nc\r\n"
unfolding range_reply ◌+ℤ◌ array_header to_string decimal bulk_reply
range_of_two = refl

parse_memory_limit-decimal_example :
    (parse_memory_limit (decimal 512 ++ codes "GB") ≡ some ((512 * 1024 ^ 3) % 2 ^ 64))
    × (parse_memory_limit (decimal 512 ++ codes "gb") ≡ some ((512 * 1024 ^ 3) % 2 ^ 64))
    × (parse_memory_limit (decimal 512 ++ codes "MB") ≡ some ((512 * 1024 ^ 2) % 2 ^ 64))
    × (parse_memory_limit (decimal 512 ++ codes "mb") ≡ some ((512 * 1024 ^ 2) % 2 ^ 64))
    × (parse_memory_limit (decimal 512 ++ codes "KB") ≡ some ((512 * 1024) % 2 ^ 64))
    × (parse_memory_limit (decimal 512 ++ codes "kb") ≡ some ((512 * 1024) % 2 ^ 64))
parse_memory_limit-decimal_example = parse_memory_limit-decimal 512 (omega arith)
