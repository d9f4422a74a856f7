-- ===== src/Command/Parsed.antt =====
-- Whatever the parser accepts can be logged and read back.
use mathlib.Core.Option.{none-ne-some, some-injective}
use mathlib.Core.Path.{subst}
use in_memory_db.Base.{
  ℕ, zero, suc, ◌≤◌, ◌<◌, ◌≡◌, refl, Bool, true, false, ◌&&◌, Option, none, some, List, [], ◌∷◌,
  arith, length, get_or, leb, leb→le, if◌then◌else◌, Option-cases, Bool-cases, inl, inr, map,
}
use Prim.Native.String.{String}
use in_memory_db.Text.{Bytes, codes, bytes_eq, toupper}
use in_memory_db.Text.Decimal.{stoll, stoll-IsInt64, IsInt64}
use in_memory_db.Text.Tokens.{tokenize, IsToken, AllTokens, tokenize-AllTokens}
use in_memory_db.Command.{
  Command, parse, serialize, ttl_of, range_of, default_ttl, set, get, del, exists, ping, lpush,
  lrange, hset, hget,
}
use in_memory_db.Command.RoundTrip.{IsParsed, parse-serialize}

-- A result of the parser: nullptr, or a command whose parts are as `IsParsed` says.
record Result (o : Option Command) : Type 0 where
  holds : (c : Command) → o ≡ some c → IsParsed c

Result-none : Result none
Result-none = record { holds = λ c e. absurd (none-ne-some c e) }

Result-some : (c : Command) → IsParsed c → Result (some c)
Result-some c h = record { holds = λ d e. subst IsParsed (some-injective c d e) h }

-- One test of the chain: a verb, and a least number of tokens.
Result-verb :
    (verb : Bool) (m n : ℕ) (x y : Option Command)
    → (m ≤ n → Result x)
    → Result y
    → Result (if verb && leb m n then x else y)
Result-verb false m n x y h k = k
Result-verb true m n x y h k = elim (Bool-cases (leb m n)) [
  | inl e ↦ rw e (h (leb→le m n e))
  | inr e ↦ rw e k
]

Result-ping : (verb : Bool) (y : Option Command) → Result y → Result (if verb then some ping else y)
Result-ping true y k = Result-some ping tt
Result-ping false y k = k

get_or-IsToken : (ts : List Bytes) (i : ℕ) → AllTokens ts → i < length ts → IsToken (get_or ts i [])
get_or-IsToken [] i h l = elim l [ ]
get_or-IsToken (t ∷ ts) zero h l = h.0
get_or-IsToken (t ∷ ts) (suc i) h l = get_or-IsToken ts i h.1 (omega arith)

ttl_of-IsInt64 : (b : Bool) (s : Bytes) → IsInt64 (if b then ttl_of (stoll s) else default_ttl)
unfolding ttl_of
ttl_of-IsInt64 false s = omega arith
ttl_of-IsInt64 true s = elim (Option-cases (stoll s)) [
  | inl e ↦ rw (e, ttl_of) (omega arith)
  | inr (z, e) ↦ rw (e, ttl_of) (stoll-IsInt64 s z e)
]

range_of-Result : (k s e : Bytes) → IsToken k → Result (range_of k (stoll s) (stoll e))
unfolding range_of
range_of-Result k s e h = elim (Option-cases (stoll s)) [
  | inl x ↦ rw (x, range_of) Result-none
  | inr (i, x) ↦ elim (Option-cases (stoll e)) [
    | inl y ↦ rw (x, y, range_of) Result-none
    | inr (j, y) ↦
        rw (x, y, range_of)
          (Result-some (lrange k i j) (h, stoll-IsInt64 s i x, stoll-IsInt64 e j y))
  ]
]

-- The words of a line with enough tokens.
words :
    (ts : List Bytes) (i m : ℕ) → AllTokens ts → i < m → m ≤ length ts → IsToken (get_or ts i [])
words ts i m h l le = get_or-IsToken ts i h (omega arith)

-- The tests behind that for PING.
parse_nested :
    (t : Bytes) (ts : List Bytes)
    → AllTokens (t ∷ ts)
    → let n = length (t ∷ ts) in
      let is = λ (v : String). bytes_eq (map toupper t) (codes v) in
      let tok = λ (i : ℕ). get_or (t ∷ ts) i [] in
      Result (
        if is "LPUSH" && leb 3 n
        then some (lpush (tok 1) (tok 2) default_ttl)
        else if is "LRANGE" && leb 4 n
        then range_of (tok 1) (stoll (tok 2)) (stoll (tok 3))
        else if is "HSET" && leb 4 n
        then some (hset (tok 1) (tok 2) (tok 3) default_ttl)
        else if is "HGET" && leb 3 n
        then some (hget (tok 1) (tok 2))
        else none)
parse_nested t ts h =
    let n = length (t ∷ ts) in
    let is = λ (v : String). bytes_eq (map toupper t) (codes v) in
    let tok = λ (i : ℕ). get_or (t ∷ ts) i [] in
    let word = λ (i m : ℕ) (l : i < m) (le : m ≤ n). words (t ∷ ts) i m h l le in
    Result-verb (is "LPUSH") 3 n _ _
      (λ le.
        Result-some (lpush (tok 1) (tok 2) default_ttl)
          (word 1 3 (omega arith) le, word 2 3 (omega arith) le, refl))
      (Result-verb (is "LRANGE") 4 n _ _
        (λ le. range_of-Result (tok 1) (tok 2) (tok 3) (word 1 4 (omega arith) le))
        (Result-verb (is "HSET") 4 n _ _
          (λ le.
            Result-some (hset (tok 1) (tok 2) (tok 3) default_ttl) (
              word 1 4 (omega arith) le,
              word 2 4 (omega arith) le,
              word 3 4 (omega arith) le,
              refl,
            ))
          (Result-verb (is "HGET") 3 n _ _
            (λ le.
              Result-some (hget (tok 1) (tok 2))
                (word 1 3 (omega arith) le, word 2 3 (omega arith) le))
            Result-none)))

parse-Result : (ts : List Bytes) → AllTokens ts → Result (parse ts)
unfolding parse
parse-Result [] h = Result-none
parse-Result (t ∷ ts) h =
    let n = length (t ∷ ts) in
    let is = λ (v : String). bytes_eq (map toupper t) (codes v) in
    let tok = λ (i : ℕ). get_or (t ∷ ts) i [] in
    let word = λ (i m : ℕ) (l : i < m) (le : m ≤ n). words (t ∷ ts) i m h l le in
    Result-verb (is "SET") 3 n _ _
      (λ le.
        Result-some (set (tok 1) (tok 2) (if leb 4 n then ttl_of (stoll (tok 3)) else default_ttl))
          (word 1 3 (omega arith) le, word 2 3 (omega arith) le, ttl_of-IsInt64 (leb 4 n) (tok 3)))
      (Result-verb (is "GET") 2 n _ _ (λ le. Result-some (get (tok 1)) (word 1 2 (omega arith) le))
        (Result-verb (is "DEL") 2 n _ _
          (λ le. Result-some (del (tok 1)) (word 1 2 (omega arith) le))
          (Result-verb (is "EXISTS") 2 n _ _
            (λ le. Result-some (exists (tok 1)) (word 1 2 (omega arith) le))
            (Result-ping (is "PING") _ (parse_nested t ts h)))))

-- The parser builds only what `IsParsed` says.
pub parse-IsParsed : (line : Bytes) (c : Command) → parse (tokenize line) ≡ some c → IsParsed c
parse-IsParsed line c h = (parse-Result (tokenize line) (tokenize-AllTokens line)).holds c h

-- The record of any command that the parser reads from a line is read back as that command.
pub parse-serialize-parse :
    (line : Bytes) (c : Command)
    → parse (tokenize line) ≡ some c
    → parse (tokenize (serialize c)) ≡ some c
parse-serialize-parse line c h = parse-serialize c (parse-IsParsed line c h)
