-- ===== src/Memory/Limits.antt =====
-- The soft limit of an arena: a comparison of doubles, which are a parameter.
use in_memory_db.Base.{
  ℕ, ◌≤◌, ◌<◌, ◌≡◌, Bool, true, ◌==◌, if◌then◌else◌, arith, Bool-cases, inl, inr,
}
use in_memory_db.Memory.{Tracker, is_hard_limit_reached}

-- The operations of `double` that the source uses.
pub record Doubles : Type 1 where
  pub Double : Type 0
  pub of_size : ℕ → Double
  pub divide : Double → Double → Double
  pub at_least : Double → Double → Bool
  pub one : Double
  pub soft_limit_ratio : Double

-- What the limits rely on: a quotient by a number that is not larger is at least one, one is at least
-- the ratio, and the comparison is transitive.
pub record IsOrdered (d : Doubles) : Type 0 where
  pub whole :
      (a b : ℕ) → 0 < b → b ≤ a → d.at_least (d.divide (d.of_size a) (d.of_size b)) d.one ≡ true
  pub ratio : d.at_least d.one d.soft_limit_ratio ≡ true
  pub transitive :
      (x y z : d.Double) → d.at_least x y ≡ true → d.at_least y z ≡ true → d.at_least x z ≡ true

module _ (d : Doubles) where
  pub utilization : Tracker → d.Double
  utilization t =
      if t.capacity == 0 then d.one else d.divide (d.of_size t.bytes_used) (d.of_size t.capacity)

  pub is_soft_limit_reached : Tracker → Bool
  is_soft_limit_reached t = d.at_least (utilization t) d.soft_limit_ratio

  -- An arena at its hard limit is at its soft limit.
  pub is_soft_limit_reached_hard :
      (t : Tracker) → IsOrdered d → is_hard_limit_reached t ≡ true → is_soft_limit_reached t ≡ true
  unfolding is_soft_limit_reached utilization is_hard_limit_reached
  is_soft_limit_reached_hard t w h = elim (Bool-cases (t.capacity == 0)) [
    | inl e ↦ rw (is_soft_limit_reached, utilization, e) w.ratio
    | inr e ↦
        rw (is_soft_limit_reached, utilization, e)
          (w.transitive _ d.one d.soft_limit_ratio
            (w.whole t.bytes_used t.capacity (ground (arith, e)) (ground (arith, h))) w.ratio)
  ]
