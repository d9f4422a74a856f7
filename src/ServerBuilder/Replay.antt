-- ===== src/ServerBuilder/Replay.antt =====
-- What the replay reads: the lines of the file are the records that were written.
use in_memory_db.Base.{
  ◌≡◌, refl, true, false, List, [], ◌∷◌, ◌++◌, append_assoc, append-nil, arith, ◌==◌, All,
  All-append, ◌∙◌, ap,
}
use in_memory_db.Text.{Bytes, codes, is_space, is_empty}
use in_memory_db.Text.Tokens.{HasNoSpace, AllTokens}
use in_memory_db.Text.Decimal.{to_string}
use in_memory_db.Text.Decimal.Token.{to_string-IsToken}
use in_memory_db.Aof.{lines}
use in_memory_db.Command.{
  Command, set, get, del, exists, ping, lpush, lrange, hset, hget, serialize, word,
}
use in_memory_db.Shard.{Env}
use in_memory_db.Command.Execute.{Store, execute}
use in_memory_db.Command.RoundTrip.{IsParsed, unwords, plain, plain-HasNoSpace, parse-serialize}
use in_memory_db.ServerBuilder.{get_lines, split_lines, replay_line}

abbrev pub HasNoNewline : Bytes → Type 0
HasNoNewline = All (λ c. (c == 10) ≡ false)

pub split_lines-append :
    (s line rest : Bytes)
    → HasNoNewline s
    → split_lines line (s ++ rest) ≡ split_lines (line ++ s) rest
unfolding split_lines
split_lines-append [] line rest h = rw append-nil
split_lines-append (c ∷ s) line rest h =
    ground (arith, split_lines-append s (line ++ c ∷ []) rest h.1, append_assoc line (c ∷ []) s)

-- A line, and what comes behind it.
pub get_lines-cons :
    (c rest : Bytes) → HasNoNewline c → get_lines (c ++ 10 ∷ rest) ≡ c ∷ get_lines rest
unfolding get_lines split_lines
get_lines-cons c rest h = split_lines-append c [] (10 ∷ rest) h

-- Records without a newline that are written to the file, one to a line, are read back as they
-- were.
pub get_lines-lines : (cs : List Bytes) → All HasNoNewline cs → get_lines (lines cs) ≡ cs
unfolding lines
get_lines-lines [] h = unfold get_lines in unfold split_lines in refl
get_lines-lines (c ∷ cs) h =
    ap get_lines (append_assoc c (10 ∷ []) (lines cs))
    ∙ get_lines-cons c (lines cs) h.0
    ∙ ap (◌∷◌ c) (get_lines-lines cs h.1)

-- White space includes the newline.
no_space→no_newline : (s : Bytes) → HasNoSpace s → HasNoNewline s
unfolding is_space
no_space→no_newline [] h = tt
no_space→no_newline (c ∷ s) h = (ground arith, no_space→no_newline s h.1)

unwords-HasNoNewline :
    (w : Bytes) (ws : List Bytes) → HasNoSpace w → AllTokens ws → HasNoNewline (unwords w ws)
unfolding unwords
unwords-HasNoNewline w [] h hs = no_space→no_newline w h
unwords-HasNoNewline w (v ∷ vs) h hs =
    All-append (λ c. (c == 10) ≡ false) w (word (unwords v vs)) (no_space→no_newline w h)
      (refl, unwords-HasNoNewline v vs hs.0.1 hs.1)

line-HasNoNewline :
    (verb : Bytes) (args : List Bytes)
    → plain verb ≡ true
    → AllTokens args
    → HasNoNewline (unwords verb args)
line-HasNoNewline verb args p h = unwords-HasNoNewline verb args (plain-HasNoSpace verb p) h

not_empty : (c : Command) → is_empty (serialize c) ≡ false
unfolding serialize is_empty
not_empty (set k v t) = refl
not_empty c = refl

-- A record holds no newline.
pub serialize-HasNoNewline : (c : Command) → IsParsed c → HasNoNewline (serialize c)
unfolding serialize plain unwords
serialize-HasNoNewline (set k v t) (hk, hv, ht) =
    line-HasNoNewline (codes "SET") (k ∷ v ∷ to_string t ∷ []) refl
      (hk, (hv, (to_string-IsToken t, tt)))
serialize-HasNoNewline (get k) h = line-HasNoNewline (codes "GET") (k ∷ []) refl (h, tt)
serialize-HasNoNewline (del k) h = line-HasNoNewline (codes "DEL") (k ∷ []) refl (h, tt)
serialize-HasNoNewline (exists k) h = line-HasNoNewline (codes "EXISTS") (k ∷ []) refl (h, tt)
serialize-HasNoNewline ping h = line-HasNoNewline (codes "PING") [] refl tt
serialize-HasNoNewline (lpush k v t) (hk, hv, ht) =
    line-HasNoNewline (codes "LPUSH") (k ∷ v ∷ []) refl (hk, (hv, tt))
serialize-HasNoNewline (lrange k s e) (hk, hs, he) =
    line-HasNoNewline (codes "LRANGE") (k ∷ to_string s ∷ to_string e ∷ []) refl
      (hk, (to_string-IsToken s, (to_string-IsToken e, tt)))
serialize-HasNoNewline (hset k f v t) (hk, hf, hv, ht) =
    line-HasNoNewline (codes "HSET") (k ∷ f ∷ v ∷ []) refl (hk, (hf, (hv, tt)))
serialize-HasNoNewline (hget k f) (hk, hf) =
    line-HasNoNewline (codes "HGET") (k ∷ f ∷ []) refl (hk, (hf, tt))

-- Replaying a record executes its command.
pub replay_line-serialize :
    (env : Env) (c : Command) (s : Store)
    → IsParsed c
    → replay_line env (serialize c) s ≡ (execute env c s).0
unfolding replay_line
replay_line-serialize env c s h = rw (not_empty c, replay_line, parse-serialize c h)
