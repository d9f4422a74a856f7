-- ===== src/Command/Retiming.antt =====
-- The contract at other times: the same commands leave the same values, as long as nothing expires.
use in_memory_db.Base.{
  ℕ, suc, Bool, true, not, ◌||◌, Option, none, some, List, [], ◌∷◌, ◌≡◌, refl, arith, ap, ◌∙◌, sym,
  Option-cases, Bool-cases, inl, inr, ◌⊎◌,
}
use in_memory_db.Base.Int.{ℤ}
use in_memory_db.Text.{Bytes, bytes_eq, bytes_eq_iff, bytes_HasEq}
use in_memory_db.Value.{CacheAlignedValue, ValueVariant, new_value, is_expired}
use in_memory_db.Shard.{bury, is_dead}
use in_memory_db.Command.{Command, set, del, lpush, hset}
use in_memory_db.Command.Execute.Lists.{as_list}
use in_memory_db.Command.Execute.Hashes.{as_hash}
use in_memory_db.Command.Spec.{Contents, apply, key_of, apply_frame}
use in_memory_db.Command.History.{apply_all}

-- What an entry says, less its times: its value, its ttl and its tombstone.
abbrev pub untimed : Option CacheAlignedValue → Option (ValueVariant × ℤ × Bool)
untimed none = none
untimed (some v) = some (v.value, v.ttl_seconds, v.tombstoned)

abbrev pub is_fresh : ℕ → Option CacheAlignedValue → Bool
is_fresh now none = true
is_fresh now (some v) = v.tombstoned || not (is_expired now v)

-- No command meets an entry of its key that has expired, unless it carries a tombstone.
abbrev pub AllFresh : List (ℕ × Command) → Contents → Type 0
AllFresh [] m = Unit
AllFresh ((now, c) ∷ rest) m = (is_fresh now (m (key_of c)) ≡ true) × AllFresh rest (apply now c m)

untimed_cases :
    (o p : Option CacheAlignedValue)
    → untimed o ≡ untimed p
    → ((o ≡ none) × (p ≡ none))
      ⊎ ((v : CacheAlignedValue) × (w : CacheAlignedValue) × (o ≡ some v)
          × (p ≡ some w)
          × (v.value ≡ w.value)
          × (v.ttl_seconds ≡ w.ttl_seconds)
          × (v.tombstoned ≡ w.tombstoned))
untimed_cases none none h = inl (refl, refl)
untimed_cases none (some w) h = cc
untimed_cases (some v) none h = cc
untimed_cases (some v) (some w) h = inr (v, w, refl, refl, ground arith, ground arith, ground arith)

-- At the key of the command.
apply-untimed_here :
    (now later : ℕ) (c : Command) (m n : Contents)
    → untimed (m (key_of c)) ≡ untimed (n (key_of c))
    → is_fresh now (m (key_of c)) ≡ true
    → is_fresh later (n (key_of c)) ≡ true
    → untimed (apply now c m (key_of c)) ≡ untimed (apply later c n (key_of c))
unfolding apply key_of new_value bury is_dead
apply-untimed_here now later (set k v t) m n h f g = ground (arith, bytes_eq_iff k k)
apply-untimed_here now later (del k) m n h f g = elim (untimed_cases (m k) (n k) h) [
  | inl (e, e') ↦ ground (arith, e, e')
  | inr (v, w, e, e', x, y, z) ↦ ground (arith, e, e', x, y, z, bytes_eq_iff k k)
]
apply-untimed_here now later (lpush k v t) m n h f g = elim (untimed_cases (m k) (n k) h) [
  | inl (e, e') ↦ ground (arith, e, e', bytes_eq_iff k k)
  | inr (x, y, e, e', a, b, d) ↦
      let l : as_list x.value ≡ as_list y.value = ap as_list a in
      elim (Option-cases (as_list x.value)) [
        | inl i ↦ ground (arith, e, e', a, b, d, i, l, bytes_eq_iff k k)
        | inr (xs, i) ↦ ground (arith, e, e', a, b, d, i, l, bytes_eq_iff k k)
      ]
]
apply-untimed_here now later (hset k p v t) m n h f g = elim (untimed_cases (m k) (n k) h) [
  | inl (e, e') ↦ ground (arith, e, e', bytes_eq_iff k k)
  | inr (x, y, e, e', a, b, d) ↦
      let l : as_hash x.value ≡ as_hash y.value = ap as_hash a in
      elim (Option-cases (as_hash x.value)) [
        | inl i ↦ ground (arith, e, e', a, b, d, i, l, bytes_eq_iff k k)
        | inr (xs, i) ↦ ground (arith, e, e', a, b, d, i, l, bytes_eq_iff k k)
      ]
]
apply-untimed_here now later c m n h f g = h

apply-untimed :
    (now later : ℕ) (c : Command) (m n : Contents)
    → ((j : Bytes) → untimed (m j) ≡ untimed (n j))
    → is_fresh now (m (key_of c)) ≡ true
    → is_fresh later (n (key_of c)) ≡ true
    → (j : Bytes) → untimed (apply now c m j) ≡ untimed (apply later c n j)
apply-untimed now later c m n h f g j = elim (Bool-cases (bytes_eq (key_of c) j)) [
  | inl e ↦
      rw (← (bytes_eq_iff (key_of c) j).0 e) (apply-untimed_here now later c m n (h (key_of c)) f g)
  | inr e ↦
      ap untimed (apply_frame now c m j e) ∙ h j ∙ sym (ap untimed (apply_frame later c n j e))
]

-- The same commands, the i-th at the i-th of the given times.
abbrev pub retimed : (ℕ → ℕ) → ℕ → List (ℕ × Command) → List (ℕ × Command)
retimed times i [] = []
retimed times i ((now, c) ∷ rest) = (times i, c) ∷ retimed times (suc i) rest

pub apply_all-retimed :
    (times : ℕ → ℕ) (i : ℕ) (cs : List (ℕ × Command)) (m n : Contents)
    → ((j : Bytes) → untimed (m j) ≡ untimed (n j))
    → AllFresh cs m
    → AllFresh (retimed times i cs) n
    → (j : Bytes) → untimed (apply_all cs m j) ≡ untimed (apply_all (retimed times i cs) n j)
unfolding apply_all
apply_all-retimed times i [] m n h f g j = h j
apply_all-retimed times i ((now, c) ∷ cs) m n h f g j =
    apply_all-retimed times (suc i) cs (apply now c m) (apply (times i) c n)
      (apply-untimed now (times i) c m n h f.0 g.0) f.1 g.1 j
