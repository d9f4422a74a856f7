-- ===== src/Text/Tokens.antt =====
-- `std::istringstream iss(line); while (iss >> token) tokens.push_back(token);`
use in_memory_db.Base.{
  ◌≡◌, refl, true, false, List, [], ◌∷◌, ◌++◌, append_assoc, append-nil, arith, All, All-append,
  Bool-cases, inl, inr,
}
use in_memory_db.Text.{Bytes, codes, is_space, is_empty}

-- What `>>` hands over when a token ends: nothing, if no character has been read.
flush : Bytes → List Bytes → List Bytes
flush [] rest = rest
flush (c ∷ s) rest = (c ∷ s) ∷ rest

split_words : Bytes → Bytes → List Bytes
unfolding flush is_space
split_words cur [] = flush cur []
split_words cur (c ∷ s) = elim (is_space c) [
  | true ↦ flush cur (split_words [] s)
  | false ↦ split_words (cur ++ c ∷ []) s
]

unfoldable pub tokenize : Bytes → List Bytes
unfolding split_words
tokenize line = split_words [] line

-- A token: not empty, and with no white space.
abbrev pub HasNoSpace : Bytes → Type 0
HasNoSpace = All (λ c. is_space c ≡ false)

abbrev pub IsToken : Bytes → Type 0
IsToken s = (is_empty s ≡ false) × HasNoSpace s

split_words-append :
    (s cur rest : Bytes) → HasNoSpace s → split_words cur (s ++ rest) ≡ split_words (cur ++ s) rest
unfolding split_words
split_words-append [] cur rest h = rw append-nil
split_words-append (c ∷ s) cur rest h =
    ground (arith, split_words-append s (cur ++ c ∷ []) rest h.1, append_assoc cur (c ∷ []) s)

-- A token and a blank in front of a text are its first token and the tokens of the rest.
pub tokenize-cons : (s rest : Bytes) → IsToken s → tokenize (s ++ 32 ∷ rest) ≡ s ∷ tokenize rest
unfolding tokenize is_empty
tokenize-cons [] rest h = cc h.0
tokenize-cons (c ∷ s) rest h = split_words-append (c ∷ s) [] (32 ∷ rest) h.1

split_words_end : (s cur : Bytes) → HasNoSpace s → split_words cur s ≡ flush (cur ++ s) []
unfolding split_words
split_words_end [] cur h = rw append-nil
split_words_end (c ∷ s) cur h =
    ground (arith, split_words_end s (cur ++ c ∷ []) h.1, append_assoc cur (c ∷ []) s)

pub tokenize_one : (s : Bytes) → IsToken s → tokenize s ≡ s ∷ []
unfolding tokenize is_empty
tokenize_one [] h = cc h.0
tokenize_one (c ∷ s) h = split_words_end (c ∷ s) [] h.1

sample : tokenize (codes "  SET  k\tv\r") ≡ codes "SET" ∷ codes "k" ∷ codes "v" ∷ []
unfolding tokenize
sample = refl

-- The tokens of any text are tokens.
abbrev pub AllTokens : List Bytes → Type 0
AllTokens [] = Unit
AllTokens (w ∷ ws) = IsToken w × AllTokens ws

flush-AllTokens :
    (cur : Bytes) (rest : List Bytes) → HasNoSpace cur → AllTokens rest → AllTokens (flush cur rest)
unfolding flush is_empty
flush-AllTokens [] rest h r = r
flush-AllTokens (c ∷ s) rest h r = ((refl, h), r)

split_words-AllTokens : (s cur : Bytes) → HasNoSpace cur → AllTokens (split_words cur s)
unfolding split_words
split_words-AllTokens [] cur h = flush-AllTokens cur [] h tt
split_words-AllTokens (c ∷ s) cur h = elim (Bool-cases (is_space c)) [
  | inl e ↦ rw (e, split_words) (flush-AllTokens cur _ h (split_words-AllTokens s [] tt))
  | inr e ↦
      rw (e, split_words)
        (split_words-AllTokens s (cur ++ c ∷ [])
          (All-append (λ d. is_space d ≡ false) cur (c ∷ []) h (e, tt)))
]

pub tokenize-AllTokens : (line : Bytes) → AllTokens (tokenize line)
unfolding tokenize
tokenize-AllTokens line = split_words-AllTokens line [] tt
