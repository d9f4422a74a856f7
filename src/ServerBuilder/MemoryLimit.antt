-- ===== src/ServerBuilder/MemoryLimit.antt =====
-- parse_memory_limit of app/src/core/server_builder.cpp.
use in_memory_db.Base.{
  ℕ, ◌-◌, ◌*◌, ◌%◌, ◌^◌, ◌<◌, ◌≡◌, refl, Bool, ◌&&◌, Option, none, some, List, [], ◌∷◌, ◌++◌, map,
  length, length-append, take, drop, leb, arith, if◌then◌else◌, ap, ◌∙◌, sym,
}
use in_memory_db.Text.{Bytes, codes, bytes_eq, toupper}
use in_memory_db.Text.Decimal.{decimal, stoull}
use in_memory_db.Text.Decimal.Unsigned.{stoull-decimal, map-toupper-decimal}

-- std::string::ends_with
unfoldable pub ends_with : Bytes → Bytes → Bool
ends_with s t = leb (length t) (length s) && bytes_eq (drop (length s - length t) s) t

-- std::stoull(numeric) * multiplier; `none` is what is thrown.
unfoldable pub scaled : ℕ → Bytes → Option ℕ
scaled multiplier numeric = elim (stoull numeric) [
  | none ↦ none
  | some n ↦ some ((n * multiplier) % 2 ^ 64)
]

-- `none` is std::invalid_argument.
unfoldable pub parse_memory_limit : Bytes → Option ℕ
parse_memory_limit limit =
    let upper = map toupper limit in
    let numeric = take (length upper - 2) upper in
    if ends_with upper (codes "GB")
    then scaled (1024 * 1024 * 1024) numeric
    else if ends_with upper (codes "MB")
    then scaled (1024 * 1024) numeric
    else if ends_with upper (codes "KB")
    then scaled 1024 numeric
    else scaled 1 upper

limits :
    (parse_memory_limit (codes "512mb") ≡ some (512 * 2 ^ 20))
    × (parse_memory_limit (codes "2GB") ≡ some (2 ^ 31))
    × (parse_memory_limit (codes "64") ≡ some 64)
    × (parse_memory_limit (codes "17179869184GB") ≡ some 0)
    × (parse_memory_limit (codes "-1KB") ≡ some (2 ^ 64 - 1024))
    × (parse_memory_limit (codes "MB") ≡ none)
unfolding parse_memory_limit ends_with bytes_eq toupper scaled stoull
limits = (refl, refl, refl, refl, refl, refl)

module _ {ℓ} {A : Type ℓ} where
  take-append : (xs ys : List A) → take (length (xs ++ ys) - length ys) (xs ++ ys) ≡ xs
  take-append xs ys =
      ap (λ (k : ℕ). take k (xs ++ ys)) (omega (arith, length-append xs ys)) ∙ exactly xs ys
    where
      exactly : (xs ys : List A) → take (length xs) (xs ++ ys) ≡ xs
      exactly [] ys = refl
      exactly (x ∷ xs) ys = ap (◌∷◌ x) (exactly xs ys)

  drop-append : (xs ys : List A) → drop (length (xs ++ ys) - length ys) (xs ++ ys) ≡ ys
  drop-append xs ys =
      ap (λ (k : ℕ). drop k (xs ++ ys)) (omega (arith, length-append xs ys)) ∙ exactly xs ys
    where
      exactly : (xs ys : List A) → drop (length xs) (xs ++ ys) ≡ ys
      exactly [] ys = refl
      exactly (x ∷ xs) ys = exactly xs ys

-- Texts of one length: only the end itself is an end.
ends_with-append : (s t u : Bytes) → length t ≡ length u → ends_with (s ++ t) u ≡ bytes_eq t u
unfolding ends_with
ends_with-append s t u h =
    let end : drop (length (s ++ t) - length u) (s ++ t) ≡ t = rw (← h) (drop-append s t) in
    ground (arith, end, length-append s t, h)

map-append : (s t : Bytes) → map toupper (s ++ t) ≡ map toupper s ++ map toupper t
map-append [] t = refl
map-append (c ∷ s) t = ap (◌∷◌ (toupper c)) (map-append s t)

scaled-decimal : (m n : ℕ) → n < 2 ^ 64 → scaled m (decimal n) ≡ some ((n * m) % 2 ^ 64)
unfolding scaled
scaled-decimal m n h = rw (scaled, stoull-decimal n h) refl

-- What the tests for the three units come to, when a unit of two letters ends the text.
abbrev by_unit : Bytes → Bytes → Option ℕ → Option ℕ
by_unit t numeric otherwise =
    if bytes_eq t (codes "GB")
    then scaled (1024 * 1024 * 1024) numeric
    else if bytes_eq t (codes "MB")
    then scaled (1024 * 1024) numeric
    else if bytes_eq t (codes "KB")
    then scaled 1024 numeric
    else otherwise

parse_memory_limit-append :
    (s unit t : Bytes)
    → map toupper s ≡ s
    → map toupper unit ≡ t
    → length t ≡ 2
    → parse_memory_limit (s ++ unit) ≡ by_unit t s (scaled 1 (s ++ t))
unfolding parse_memory_limit
parse_memory_limit-append s unit t h k two =
    let upper : map toupper (s ++ unit) ≡ s ++ t =
      map-append s unit ∙ ap (λ x. x ++ map toupper unit) h ∙ ap (λ x. s ++ x) k in
    let numeric : take (length (s ++ t) - 2) (s ++ t) ≡ s =
      ap (λ (x : ℕ). take (length (s ++ t) - x) (s ++ t)) (sym two) ∙ take-append s t in
    rw
      (
        upper,
        numeric,
        ends_with-append s t (codes "GB") two,
        ends_with-append s t (codes "MB") two,
        ends_with-append s t (codes "KB") two,
      )
      refl

-- A number that a size_t holds, followed by a unit in upper or lower case, is read as the number
-- times the unit, modulo 2 ^ 64.
pub parse_memory_limit-decimal :
    (n : ℕ)
    → n < 2 ^ 64
    → (parse_memory_limit (decimal n ++ codes "GB") ≡ some ((n * 1024 ^ 3) % 2 ^ 64))
      × (parse_memory_limit (decimal n ++ codes "gb") ≡ some ((n * 1024 ^ 3) % 2 ^ 64))
      × (parse_memory_limit (decimal n ++ codes "MB") ≡ some ((n * 1024 ^ 2) % 2 ^ 64))
      × (parse_memory_limit (decimal n ++ codes "mb") ≡ some ((n * 1024 ^ 2) % 2 ^ 64))
      × (parse_memory_limit (decimal n ++ codes "KB") ≡ some ((n * 1024) % 2 ^ 64))
      × (parse_memory_limit (decimal n ++ codes "kb") ≡ some ((n * 1024) % 2 ^ 64))
unfolding toupper bytes_eq
parse_memory_limit-decimal n h =
    let digits : map toupper (decimal n) ≡ decimal n = map-toupper-decimal n in
    let g = scaled-decimal (1024 * 1024 * 1024) n h in
    let m = scaled-decimal (1024 * 1024) n h in
    let k = scaled-decimal 1024 n h in
    (
      parse_memory_limit-append (decimal n) (codes "GB") (codes "GB") digits refl refl ∙ g,
      parse_memory_limit-append (decimal n) (codes "gb") (codes "GB") digits refl refl ∙ g,
      parse_memory_limit-append (decimal n) (codes "MB") (codes "MB") digits refl refl ∙ m,
      parse_memory_limit-append (decimal n) (codes "mb") (codes "MB") digits refl refl ∙ m,
      parse_memory_limit-append (decimal n) (codes "KB") (codes "KB") digits refl refl ∙ k,
      parse_memory_limit-append (decimal n) (codes "kb") (codes "KB") digits refl refl ∙ k,
    )
