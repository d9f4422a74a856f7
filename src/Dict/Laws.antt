-- ===== src/Dict/Laws.antt =====
-- The laws of maps: what each operation does to `find`, to the size and to the keys.
use in_memory_db.Base.{
  suc, ◌-◌, ◌<◌, ◌≡◌, refl, true, none, some, [], ◌∷◌, arith, HasEq, length, if◌then◌else◌,
}
use in_memory_db.Dict.{Dict, find, insert_or_assign, erase, contains, HasUniqueKeys}

module _ {ℓ κ} {K : Type ℓ} {V : Type κ} ⦃e : HasEq K⦄ where
  pub find-insert_or_assign :
      (k j : K) (v : V) (m : Dict K V)
      → find j (insert_or_assign k v m) ≡ (if e.beq k j then some v else find j m)
  unfolding find insert_or_assign
  find-insert_or_assign k j v [] = refl
  find-insert_or_assign k j v ((i, w) ∷ m) =
      ground (arith, e.beq_iff k j, e.beq_iff i k, e.beq_iff i j, find-insert_or_assign k j v m)

  pub find-erase :
      (k j : K) (m : Dict K V) → find j (erase k m) ≡ (if e.beq k j then none else find j m)
  unfolding find erase
  find-erase k j [] = ground arith
  find-erase k j ((i, w) ∷ m) =
      ground (arith, e.beq_iff k j, e.beq_iff i k, e.beq_iff i j, find-erase k j m)

  pub length-insert_or_assign :
      (k : K) (v : V) (m : Dict K V)
      → length (insert_or_assign k v m) ≡ (if contains k m then length m else suc (length m))
  unfolding find insert_or_assign
  length-insert_or_assign k v [] = refl
  length-insert_or_assign k v ((i, w) ∷ m) = ground (arith, length-insert_or_assign k v m)

  pub erase_missing : (k : K) (m : Dict K V) → find k m ≡ none → erase k m ≡ m
  unfolding find erase
  erase_missing k [] h = refl
  erase_missing k ((i, w) ∷ m) h = ground (arith, erase_missing k m)

  pub contains→pos : (k : K) (m : Dict K V) → contains k m ≡ true → 0 < length m
  unfolding find
  contains→pos k [] h = cc
  contains→pos k ((i, w) ∷ m) h = omega arith

  pub length-erase :
      (k : K) (m : Dict K V)
      → HasUniqueKeys m
      → length (erase k m) ≡ (if contains k m then length m - 1 else length m)
  unfolding find erase
  length-erase k [] h = refl
  length-erase k ((i, w) ∷ m) h =
      ground (arith, length-erase k m h.1, e.beq_iff i k, erase_missing k m, contains→pos k m)

  pub HasUniqueKeys-insert_or_assign :
      (k : K) (v : V) (m : Dict K V) → HasUniqueKeys m → HasUniqueKeys (insert_or_assign k v m)
  unfolding insert_or_assign find
  HasUniqueKeys-insert_or_assign k v [] h = (refl, tt)
  HasUniqueKeys-insert_or_assign k v ((i, w) ∷ m) h = ground (
    arith,
    HasUniqueKeys-insert_or_assign k v m h.1,
    find-insert_or_assign k i v m,
    e.beq_iff k i,
    e.beq_iff i k,
  )

  pub HasUniqueKeys-erase : (k : K) (m : Dict K V) → HasUniqueKeys m → HasUniqueKeys (erase k m)
  unfolding erase
  HasUniqueKeys-erase k [] h = tt
  HasUniqueKeys-erase k ((i, w) ∷ m) h =
      ground (arith, HasUniqueKeys-erase k m h.1, find-erase k i m)
