-- ===== src/Server/Ordered.antt =====
-- The results that the reactor drains, one at a time, on the connection of one client.
use in_memory_db.Base.{
  ℕ, ◌+◌, ◌≤◌, ◌<◌, ◌≡◌, Bool, true, false, ◌||◌, none, List, [], ◌∷◌, ◌++◌, arith, ltb, ◌==◌,
  nat_eq, if◌then◌else◌, append_assoc, append-nil, Bool-cases, inl, inr, subst, sym,
}
use in_memory_db.Text.{Bytes}
use in_memory_db.Dict.{find}
use in_memory_db.WorkerPool.{TaskResult}
use in_memory_db.Reactor.{ConnectionState, deliver}
use in_memory_db.Reactor.Reassembly.{
  IsOrdered, IsOrdered-ext, IsOrdered-reply, deliver-IsOrdered, deliver_settled, last_id,
}
use in_memory_db.Reactor.Draining.{results_of, deliver_results}
use in_memory_db.Server.Tally.{is_result, completed, completed-append}

-- The response to the request of a client with a number, among results.
pub response_of : ℕ → List TaskResult → ℕ → Bytes
response_of client [] s = []
response_of client (r ∷ rs) s =
    let rest = response_of client rs s in if is_result client s r then r.response else rest

abbrev pub is_answered : ℕ → List TaskResult → ℕ → Bool
is_answered client rs s = ltb 0 (completed client s rs)

module _ (client : ℕ) where
  response_of-append_old :
      (rs qs : List TaskResult) (s : ℕ)
      → is_answered client rs s ≡ true
      → response_of client rs s ≡ response_of client (rs ++ qs) s
  unfolding response_of completed
  response_of-append_old [] qs s h = ground arith
  response_of-append_old (r ∷ rs) qs s h = ground (arith, response_of-append_old rs qs s)

  response_of-append_new :
      (rs : List TaskResult) (r : TaskResult) (s : ℕ)
      → is_answered client rs s ≡ false
      → is_result client s r ≡ true
      → response_of client (rs ++ r ∷ []) s ≡ r.response
  unfolding response_of completed
  response_of-append_new [] r s h e = ground arith
  response_of-append_new (q ∷ rs) r s h e = ground (arith, response_of-append_new rs r s)

  -- What one more result means for the numbers that are answered.
  is_answered-append :
      (rs : List TaskResult) (r : TaskResult) (s : ℕ)
      → is_answered client (rs ++ r ∷ []) s ≡ (is_result client s r || is_answered client rs s)
  unfolding completed
  is_answered-append rs r s = ground (arith, completed-append client s rs (r ∷ []))

  module _ (sent : Bytes) where
    -- The connection has written the drained results in order, and is waiting for the next.
    pub record IsDrained (drained : List TaskResult) (c : ConnectionState) : Type 0 where
      pub ordered : IsOrdered (response_of client drained) sent (is_answered client drained) c
      pub settled : find c.next_seq_expected c.out_of_order_buf ≡ none

    extended :
        (rs : List TaskResult) (r : TaskResult) (c : ConnectionState)
        → IsDrained rs c
        → IsOrdered (response_of client (rs ++ r ∷ [])) sent (is_answered client rs) c
    extended rs r c w =
        IsOrdered-reply (response_of client rs) (response_of client (rs ++ r ∷ [])) sent
          (is_answered client rs) c (response_of-append_old rs (r ∷ [])) w.ordered

    other-IsDrained :
        (rs : List TaskResult) (r : TaskResult) (c : ConnectionState)
        → (r.client_fd == client) ≡ false
        → IsDrained rs c
        → IsDrained (rs ++ r ∷ []) c
    other-IsDrained rs r c e w = record {
      ordered =
          IsOrdered-ext _ sent _ _ c (λ t. ground (arith, e, is_answered-append rs r t))
            (extended rs r c w);
      settled = w.settled;
    }

    own-IsDrained :
        (rs : List TaskResult) (r : TaskResult) (c : ConnectionState)
        → (r.client_fd == client) ≡ true
        → is_answered client rs r.sequence_id ≡ false
        → r.sequence_id < last_id
        → IsDrained rs c
        → IsDrained (rs ++ r ∷ []) (deliver r.sequence_id r.response c)
    own-IsDrained rs r c e fresh below w =
        let s : ℕ = r.sequence_id in
        let reply : ℕ → Bytes = response_of client (rs ++ r ∷ []) in
        let done : ℕ → Bool = is_answered client (rs ++ r ∷ []) in
        let same : reply s ≡ r.response = response_of-append_new rs r s fresh (ground (arith, e)) in
        record {
          ordered =
              subst (λ x. IsOrdered reply sent done (deliver s x c)) same
                (IsOrdered-ext reply sent (λ t. (s == t) || is_answered client rs t) done
                  (deliver s (reply s) c) (λ t. ground (arith, e, is_answered-append rs r t))
                  (deliver-IsOrdered reply sent (is_answered client rs) s c fresh below
                    (extended rs r c w)));
          settled = deliver_settled s r.response c w.ordered.unique;
        }

    -- The results are new, each once, and have numbers in the range of the counters.
    pub record AreFresh (drained rs : List TaskResult) : Type 0 where
      pub once : (s : ℕ) → completed client s drained + completed client s rs ≤ 1
      pub below : (s : ℕ) → 0 < completed client s rs → s < last_id

    AreFresh-next :
        (r : TaskResult) (rs drained : List TaskResult)
        → AreFresh drained (r ∷ rs)
        → AreFresh (drained ++ r ∷ []) rs
    unfolding completed
    AreFresh-next r rs drained f = record {
      once = λ s. ground (arith, f.once s, completed-append client s drained (r ∷ []));
      below = λ s. ground (arith, f.below s);
    }

    pub deliver_results-IsDrained :
        (rs drained : List TaskResult) (c : ConnectionState)
        → AreFresh drained rs
        → IsDrained drained c
        → IsDrained (drained ++ rs) (deliver_results (results_of client rs) c)
    unfolding deliver_results results_of completed
    deliver_results-IsDrained [] drained c f w =
        subst (λ l. IsDrained l c) (sym (append-nil drained)) w
    deliver_results-IsDrained (r ∷ rs) drained c f w =
        rw (← append_assoc drained (r ∷ []) rs) (elim (Bool-cases (r.client_fd == client)) [
          | inl e ↦
              rw (e, results_of)
                (deliver_results-IsDrained rs (drained ++ r ∷ [])
                  (deliver r.sequence_id r.response c) (AreFresh-next r rs drained f)
                  (own-IsDrained drained r c e (ground (arith, e, f.once r.sequence_id))
                    (f.below r.sequence_id (ground (arith, e))) w))
          | inr e ↦
              rw (e, results_of)
                (deliver_results-IsDrained rs (drained ++ r ∷ []) c (AreFresh-next r rs drained f)
                  (other-IsDrained drained r c e w))
        ])
