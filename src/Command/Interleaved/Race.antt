-- ===== src/Command/Interleaved/Race.antt =====
-- Two workers on one key: the log can have its changes in the other order.
use in_memory_db.Base.{◌≡◌, refl, true, Option, some, [], ◌∷◌, ◌∙◌, arith, subst}
use in_memory_db.Base.Int.{ℤ}
use in_memory_db.Text.{Bytes, bytes_eq_iff}
use in_memory_db.Aof.{AofLogger}
use in_memory_db.Value.{new_value, string}
use in_memory_db.Shard.{Env}
use in_memory_db.Router.{ShardRouter}
use in_memory_db.Router.Index.{IsRouted}
use in_memory_db.Command.{set}
use in_memory_db.Command.Execute.{act, log_write}
use in_memory_db.Command.Spec.{apply}
use in_memory_db.Command.Refinement.{contents, act-IsRouted, act-refines}
use in_memory_db.Command.History.{apply_all}
use in_memory_db.Command.Interleaved.{
  Shared, Step, noted, changes_data, logs, Reach, here, next, begun, logs_late,
}

module _ (router : ShardRouter) (aof : Option AofLogger) (k v w : Bytes) (ttl later : ℤ)
    (e f : Env) where
  after_first : ShardRouter
  after_first = (act e (set k v ttl) router).0

  -- Both workers have changed the data, and the second one logs first.
  raced : Shared
  unfolding after_first
  raced = record {
    router = (act f (set k w later) after_first).0;
    aof = log_write (set k v ttl) (log_write (set k w later) aof);
    unlogged = [];
    recorded = (f.now, set k w later) ∷ (e.now, set k v ttl) ∷ [];
  }

  -- The first worker has changed the data, and has not logged.
  begun_first : Shared
  unfolding after_first
  begun_first = record {
    router = after_first;
    aof = aof;
    unlogged = (e.now, set k v ttl) ∷ [];
    recorded = [];
  }

  begun_both : Shared
  unfolding after_first
  begun_both = record {
    router = (act f (set k w later) after_first).0;
    aof = aof;
    unlogged = (e.now, set k v ttl) ∷ (f.now, set k w later) ∷ [];
    recorded = [];
  }

  -- The second one logs before the first one.
  Reach-raced :
      (act e (set k v ttl) router).1.0 ≡ true
      → (act f (set k w later) after_first).1.0 ≡ true
      → Reach (begun router aof) raced
  unfolding after_first raced begun logs_late begun_first begun_both
  Reach-raced x y =
      let one : Step (begun router aof) begun_first =
        subst
          (λ b.
            Step (begun router aof)
              (record begun_first { unlogged = noted b (e.now, set k v ttl) [] }))
          x (changes_data e (set k v ttl) refl) in
      let two : Step begun_first begun_both =
        subst
          (λ b. Step begun_first (record begun_both {
            unlogged = noted b (f.now, set k w later) ((e.now, set k v ttl) ∷ []);
          }))
          y (changes_data f (set k w later) refl) in
      next
        (next (next (next here one) two)
          (logs ((e.now, set k v ttl) ∷ []) (f.now, set k w later) [] refl))
        (logs [] (e.now, set k v ttl) [] refl)

-- The two SETs of a key both succeed, and the second one to change the data is the first one to log:
-- a run of two workers that ends with nothing left to log, in which the key has the value of the
-- second SET, and yet the changes in the order of the log give it that of the first one.
pub race :
    (router : ShardRouter) (aof : Option AofLogger) (k v w : Bytes) (ttl later : ℤ) (e f : Env)
    → IsRouted router
    → (act e (set k v ttl) router).1.0 ≡ true
    → (act f (set k w later) (act e (set k v ttl) router).0).1.0 ≡ true
    → (t : Shared) × Reach (begun router aof) t
      × (t.unlogged ≡ [])
      × (contents t.router k ≡ some (new_value f.now (string w) later))
      × (apply_all t.recorded (contents router) k ≡ some (new_value e.now (string v) ttl))
unfolding after_first raced
race router aof k v w ttl later e f r x y = (
  raced router aof k v w ttl later e f,
  Reach-raced router aof k v w ttl later e f x y,
  refl,
  act-refines f (set k w later) (act e (set k v ttl) router).0 k
        (act-IsRouted e (set k v ttl) router r)
      ∙ (unfold apply in rw y (ground (arith, bytes_eq_iff k k))),
  unfold apply_all in unfold apply in ground (arith, bytes_eq_iff k k),
)
