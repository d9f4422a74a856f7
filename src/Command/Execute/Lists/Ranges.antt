-- ===== src/Command/Execute/Lists/Ranges.antt =====
-- What LRANGE answers, as a slice of the list.
use in_memory_db.Base.{
  ℕ, zero, suc, ◌+◌, ◌-◌, ◌≤◌, ◌<◌, ◌≡◌, refl, true, false, List, [], ◌∷◌, ◌++◌, arith, length,
  length-take, length-drop, take, drop, get_or, ltb, if◌then◌else◌, map, ap, sym, append-nil, ◌∙◌,
  inl, inr, ◌⊎◌,
}
use in_memory_db.Base.Int.{ℤ, pos, negsuc, pos_part, ◌+ℤ◌, ltb_ℤ}
use in_memory_db.Text.{Bytes}
use in_memory_db.Command.Reply.{bulk_reply, array_header}
use in_memory_db.Command.Execute.Lists.{first_index, last_index, from_end, elements, range_reply}

-- The index of the first element, and that behind the last; negative indexes count from the end.
abbrev pub first : ℕ → ℤ → ℕ
first len (pos i) = i
first len (negsuc i) = len - suc i

abbrev pub behind_last : ℕ → ℤ → ℕ
behind_last len (pos j) = if ltb j len then suc j else len
behind_last len (negsuc j) = len - j

abbrev pub slice : List Bytes → ℤ → ℤ → List Bytes
slice l start stop =
    let len = length l in take (behind_last len stop - first len start) (drop (first len start) l)

abbrev pub concat : List Bytes → Bytes
concat [] = []
concat (s ∷ ss) = s ++ concat ss

first_index-first : (len : ℕ) (start : ℤ) → first_index len start ≡ pos (first len start)
unfolding first_index from_end ◌+ℤ◌
first_index-first len (pos i) = ground arith
first_index-first len (negsuc i) = ground arith

-- An empty range, or the last element at a number.
last_index-cases :
    (len : ℕ) (stop : ℤ) (s : ℕ)
    → ((behind_last len stop ≤ s) × (ltb_ℤ (last_index len stop) (pos s) ≡ true))
      ⊎ ((s < behind_last len stop)
          × (ltb_ℤ (last_index len stop) (pos s) ≡ false)
          × (pos_part (last_index len stop) + 1 ≡ behind_last len stop)
          × (behind_last len stop ≤ len))
unfolding last_index from_end ◌+ℤ◌
last_index-cases len (pos j) s = ground arith
last_index-cases len (negsuc j) s = ground arith

drop-get_or : (i : ℕ) (l : List Bytes) → i < length l → drop i l ≡ get_or l i [] ∷ drop (suc i) l
drop-get_or i [] h = absurd (omega arith)
drop-get_or zero (x ∷ l) h = refl
drop-get_or (suc i) (x ∷ l) h = drop-get_or i l (omega arith)

elements-take :
    (l : List Bytes) (i n : ℕ)
    → i + n ≤ length l
    → elements l i n ≡ concat (map bulk_reply (take n (drop i l)))
unfolding elements
elements-take l i zero h = refl
elements-take l i (suc n) h =
    let step : i + 1 ≡ suc i = omega arith in
    rw (drop-get_or i l (omega arith)) (
      ap (◌++◌ (bulk_reply (get_or l i []))) (
        elements-take l (i + 1) n (omega arith)
        ∙ ap (λ k. concat (map bulk_reply (take n (drop k l)))) step))

-- LRANGE answers with the elements from one index to another, both included, negative indexes
-- counted from the end and indexes beyond an end cut off there: the head gives their number, and a
-- bulk string for each of them follows, in the order of the list.
pub range_reply-slice :
    (l : List Bytes) (start stop : ℤ)
    → range_reply l start stop
      ≡ array_header (length (slice l start stop)) ++ concat (map bulk_reply (slice l start stop))
unfolding range_reply
range_reply-slice l start stop =
    let len : ℕ = length l in
    let s : ℕ = first len start in
    let n : ℕ = behind_last len stop - s in
    elim (last_index-cases len stop s) [
      | inl (empty, test) ↦
          let zero_left : behind_last len stop - s ≡ 0 = omega arith in
          rw (first_index-first len start, test, zero_left) (sym (append-nil (array_header 0)))
      | inr (more, test, count, within) ↦
          let rounds : pos_part (last_index len stop) + 1 - s ≡ n = omega arith in
          let size : length (take n (drop s l)) ≡ n =
            omega (arith, length-take n (drop s l), length-drop s l) in
          rw (first_index-first len start, test, rounds, size)
            (ap (◌++◌ (array_header n)) (elements-take l s n (omega arith)))
    ]
