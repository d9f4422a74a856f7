-- ===== src/Dict.antt =====
-- `std::unordered_map` and `std::map` as the program uses them: find, insert_or_assign, erase,
-- size. No operation of the program depends on the order of iteration; here it is that of insertion.
pub mod Laws
use in_memory_db.Base.{
  ◌≡◌, Bool, Option, none, some, List, [], ◌∷◌, map, HasEq, is_some, if◌then◌else◌,
}

abbrev pub Dict {ℓ κ} : Type ℓ → Type κ → Type (ℓ ⊔ κ)
Dict K V = List (K × V)

module _ {ℓ κ} {K : Type ℓ} {V : Type κ} ⦃e : HasEq K⦄ where
  unfoldable pub find : K → Dict K V → Option V
  find k [] = none
  find k ((j, v) ∷ m) = if e.beq j k then some v else find k m

  -- m[k] = v
  unfoldable pub insert_or_assign : K → V → Dict K V → Dict K V
  insert_or_assign k v [] = (k, v) ∷ []
  insert_or_assign k v ((j, w) ∷ m) =
      if e.beq j k then (j, v) ∷ m else (j, w) ∷ insert_or_assign k v m

  pub erase : K → Dict K V → Dict K V
  erase k [] = []
  erase k ((j, w) ∷ m) = let rest = erase k m in if e.beq j k then rest else (j, w) ∷ rest

  abbrev pub contains : K → Dict K V → Bool
  contains k m = is_some (find k m)

-- A map holds a key once.
module _ {ℓ κ} {K : Type ℓ} {V : Type κ} ⦃e : HasEq K⦄ where
  abbrev pub HasUniqueKeys : Dict K V → Type κ
  HasUniqueKeys [] = Unit
  HasUniqueKeys ((k, v) ∷ m) = (find k m ≡ none) × HasUniqueKeys m

abbrev pub keys {ℓ κ} : {K : Type ℓ} {V : Type κ} → Dict K V → List K
keys m = map (λ kv. kv.0) m
