-- ===== src/ServerBuilder/Torn.antt =====
-- A file whose last record is cut off, by a crash or by a disk that gave out: what the replay reads.
use in_memory_db.Base.{ℕ, some, ◌≡◌, refl, ◌⊎◌, List, [], ◌∷◌, ◌++◌, take, drop, append_assoc}
use in_memory_db.Base.Int.{ℤ}
use in_memory_db.Text.{Bytes, codes, is_empty, bytes_eq, toupper}
use in_memory_db.Text.Tokens.{tokenize}
use in_memory_db.Text.Decimal.{to_string}
use in_memory_db.Aof.{lines}
use in_memory_db.Aof.Threads.{Threads}
use in_memory_db.Shard.{Env}
use in_memory_db.Command.{Command, set, serialize, parse, word, default_ttl}
use in_memory_db.Command.Execute.{Store, execute}
use in_memory_db.Command.RoundTrip.{IsParsed, unwords, parse-line, plain}
use in_memory_db.ServerBuilder.{get_lines, last_line, replay_line}
use in_memory_db.ServerBuilder.Replay.{HasNoNewline}

-- A text is nothing, or what the next record begins with.
abbrev pub IsBegun : Bytes → List Bytes → Type 0
IsBegun torn others =
    (torn ≡ []) ⊎ ((q : Bytes) × (later : List Bytes) × (others ≡ (torn ++ q) ∷ later))

-- What the replay reads of a cut file: the first records whole, and then, as a line like any other,
-- what there is of the next one.
pub record IsTorn (cs : List Bytes) (p : Bytes) : Type 0 where
  pub count : ℕ
  pub torn : Bytes
  pub file_of : p ≡ lines (take count cs) ++ torn
  pub read : get_lines p ≡ take count cs ++ last_line torn
  pub no_newline : HasNoNewline torn
  pub begun : IsBegun torn (drop count cs)

parse-cut :
    (k v : Bytes) (t : ℤ)
    → IsParsed (set k v t)
    → parse (tokenize (unwords (codes "SET") (k ∷ v ∷ []))) ≡ some (set k v default_ttl)
unfolding parse bytes_eq toupper is_empty plain
parse-cut k v t (hk, hv, ht) = parse-line (codes "SET") (k ∷ v ∷ []) refl refl (hk, (hv, tt))

-- A record of a SET that is cut off behind its value is executed as a SET with the default ttl,
-- whatever ttl the command had.
pub torn_set :
    (env : Env) (k v : Bytes) (t : ℤ) (s : Store)
    → IsParsed (set k v t)
    → (cut : Bytes) × (rest : Bytes) × (serialize (set k v t) ≡ cut ++ rest)
      × (replay_line env cut s ≡ (execute env (set k v default_ttl) s).0)
unfolding serialize unwords replay_line is_empty
torn_set env k v t s h = (
  unwords (codes "SET") (k ∷ v ∷ []),
  word (to_string t),
  simp append_assoc,
  rw (replay_line, parse-cut k v t h) refl,
)
