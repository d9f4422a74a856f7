-- ===== src/Command/RoundTrip.antt =====
-- A command that is written to the append-only file and tokenized again is parsed as itself.
use in_memory_db.Base.{
  ◌≡◌, refl, Bool, true, false, not, ◌&&◌, some, List, [], ◌∷◌, ◌++◌, arith, ◌∙◌, ap,
}
use in_memory_db.Text.{Bytes, codes, bytes_eq, toupper, is_space, is_empty}
use in_memory_db.Text.Decimal.{to_string, stoll-to_string, IsInt64}
use in_memory_db.Text.Decimal.Token.{to_string-IsToken}
use in_memory_db.Text.Tokens.{tokenize, HasNoSpace, IsToken, AllTokens, tokenize-cons, tokenize_one}
use in_memory_db.Command.{
  Command, set, get, del, exists, ping, lpush, lrange, hset, hget, serialize, parse, default_ttl,
  word,
}

-- What the parser makes: every word is a token, numbers are in range, and LPUSH and HSET have the
-- default ttl.
abbrev pub IsParsed : Command → Type 0
IsParsed (set k v t) = IsToken k × IsToken v × IsInt64 t
IsParsed (get k) = IsToken k
IsParsed (del k) = IsToken k
IsParsed (exists k) = IsToken k
IsParsed ping = Unit
IsParsed (lpush k v t) = IsToken k × IsToken v × (t ≡ default_ttl)
IsParsed (lrange k s e) = IsToken k × IsInt64 s × IsInt64 e
IsParsed (hset k f v t) = IsToken k × IsToken f × IsToken v × (t ≡ default_ttl)
IsParsed (hget k f) = IsToken k × IsToken f

-- The words of a line: tokens with one blank between them.
unfoldable pub unwords : Bytes → List Bytes → Bytes
unwords w [] = w
unwords w (v ∷ vs) = w ++ word (unwords v vs)

tokenize-unwords :
    (w : Bytes) (ws : List Bytes) → IsToken w → AllTokens ws → tokenize (unwords w ws) ≡ w ∷ ws
unfolding unwords
tokenize-unwords w [] h hs = tokenize_one w h
tokenize-unwords w (v ∷ vs) h hs =
    tokenize-cons w (unwords v vs) h ∙ ap (◌∷◌ w) (tokenize-unwords v vs hs.0 hs.1)

-- A text of the source that holds no white space.
unfoldable pub plain : Bytes → Bool
unfolding is_space
plain [] = true
plain (c ∷ s) = not (is_space c) && plain s

pub plain-HasNoSpace : (s : Bytes) → plain s ≡ true → HasNoSpace s
unfolding plain
plain-HasNoSpace [] h = tt
plain-HasNoSpace (c ∷ s) h = ground (arith, plain-HasNoSpace s)

-- The parser on the line of a verb and its arguments.
pub parse-line :
    (verb : Bytes) (args : List Bytes)
    → is_empty verb ≡ false
    → plain verb ≡ true
    → AllTokens args
    → parse (tokenize (unwords verb args)) ≡ parse (verb ∷ args)
parse-line verb args n p h = ap parse (tokenize-unwords verb args (n, plain-HasNoSpace verb p) h)

-- Reading a serialized command back gives the command.
pub parse-serialize : (c : Command) → IsParsed c → parse (tokenize (serialize c)) ≡ some c
unfolding serialize unwords plain is_space is_empty parse bytes_eq toupper
parse-serialize (set k v t) (hk, hv, ht) =
    parse-line (codes "SET") (k ∷ v ∷ to_string t ∷ []) refl refl
      (hk, (hv, (to_string-IsToken t, tt)))
    ∙ rw (stoll-to_string t ht)
parse-serialize (get k) h = parse-line (codes "GET") (k ∷ []) refl refl (h, tt)
parse-serialize (del k) h = parse-line (codes "DEL") (k ∷ []) refl refl (h, tt)
parse-serialize (exists k) h = parse-line (codes "EXISTS") (k ∷ []) refl refl (h, tt)
parse-serialize ping h = parse-line (codes "PING") [] refl refl tt
parse-serialize (lpush k v t) (hk, hv, ht) =
    parse-line (codes "LPUSH") (k ∷ v ∷ []) refl refl (hk, (hv, tt)) ∙ rw ht
parse-serialize (lrange k s e) (hk, hs, he) =
    parse-line (codes "LRANGE") (k ∷ to_string s ∷ to_string e ∷ []) refl refl
      (hk, (to_string-IsToken s, (to_string-IsToken e, tt)))
    ∙ rw (stoll-to_string s hs, stoll-to_string e he)
parse-serialize (hset k f v t) (hk, hf, hv, ht) =
    parse-line (codes "HSET") (k ∷ f ∷ v ∷ []) refl refl (hk, (hf, (hv, tt))) ∙ rw ht
parse-serialize (hget k f) (hk, hf) =
    parse-line (codes "HGET") (k ∷ f ∷ []) refl refl (hk, (hf, tt))
