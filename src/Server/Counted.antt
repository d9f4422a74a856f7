-- ===== src/Server/Counted.antt =====
-- The counters of a connection while replies are put on it.
use in_memory_db.Base.{
  ℕ, zero, suc, ◌^◌, ◌<◌, ◌≡◌, some, List, [], ◌∷◌, arith, ◌==◌, nat_eq, Bool-cases, Option-cases,
  inl, inr,
}
use in_memory_db.Text.{Bytes}
use in_memory_db.Dict.{find}
use in_memory_db.Dict.Laws.{find-insert_or_assign, find-erase}
use in_memory_db.WorkerPool.{TaskResult}
use in_memory_db.Reactor.{ConnectionState, flush_next, flush_contiguous, deliver}
use in_memory_db.Reactor.Reading.{IsCounted}
use in_memory_db.Reactor.Draining.{results_of, deliver_results}
use in_memory_db.Server.Tally.{completed}

-- What replies leave as it is, the number of requests and the bytes read, and what they keep true:
-- only requests that were made are waited for or wait.
pub record IsOpen (made : ℕ) (buffer : Bytes) (c : ConnectionState) : Type 0 where
  pub issued : c.next_seq_issue ≡ made
  pub unread : c.read_buffer ≡ buffer
  pub counted : IsCounted c
  pub low : (s : ℕ) (r : Bytes) → find s c.out_of_order_buf ≡ some r → s < made

module _ (made : ℕ) (buffer : Bytes) (small : made < 2 ^ 64) where
  flush_next-IsOpen :
      (r : Bytes) (c : ConnectionState)
      → find c.next_seq_expected c.out_of_order_buf ≡ some r
      → IsOpen made buffer c
      → IsOpen made buffer (flush_next r c)
  unfolding flush_next
  flush_next-IsOpen r c e w =
      let below : c.next_seq_expected < made = w.low c.next_seq_expected r e in
      record {
        issued = w.issued;
        unread = w.unread;
        counted = record {
          counted = omega (arith, below, small, w.counted.counted, w.issued);
          bounded = omega (arith, w.counted.bounded);
        };
        low = λ s x h.
            ground (arith, find-erase c.next_seq_expected s c.out_of_order_buf, w.low s x, h);
      }

  flush_contiguous-IsOpen :
      (n : ℕ) (c : ConnectionState)
      → IsOpen made buffer c
      → IsOpen made buffer (flush_contiguous n c)
  unfolding flush_contiguous
  flush_contiguous-IsOpen zero c w = w
  flush_contiguous-IsOpen (suc n) c w =
      elim (Option-cases (find c.next_seq_expected c.out_of_order_buf)) [
        | inl e ↦ rw (e, flush_contiguous) w
        | inr (r, e) ↦
            rw (e, flush_contiguous)
              (flush_contiguous-IsOpen n (flush_next r c) (flush_next-IsOpen r c e w))
      ]

  deliver-IsOpen :
      (s : ℕ) (r : Bytes) (c : ConnectionState)
      → s < made
      → IsOpen made buffer c
      → IsOpen made buffer (deliver s r c)
  unfolding deliver
  deliver-IsOpen s r c h w = flush_contiguous-IsOpen _ _ (record {
    issued = w.issued;
    unread = w.unread;
    counted = record { counted = w.counted.counted; bounded = w.counted.bounded };
    low = λ t x e. ground (arith, find-insert_or_assign s t r c.out_of_order_buf, w.low t x, e, h);
  })

  pub deliver_results-IsOpen :
      (client : ℕ) (rs : List TaskResult) (c : ConnectionState)
      → ((s : ℕ) → 0 < completed client s rs → s < made)
      → IsOpen made buffer c
      → IsOpen made buffer (deliver_results (results_of client rs) c)
  unfolding deliver_results results_of completed
  deliver_results-IsOpen client [] c h w = w
  deliver_results-IsOpen client (r ∷ rs) c h w = elim (Bool-cases (r.client_fd == client)) [
    | inl e ↦
        rw (e, results_of)
          (deliver_results-IsOpen client rs (deliver r.sequence_id r.response c)
            (λ s l. h s (ground arith))
            (deliver-IsOpen r.sequence_id r.response c (h r.sequence_id (ground (arith, e))) w))
    | inr e ↦ rw (e, results_of) (deliver_results-IsOpen client rs c (λ s l. h s (ground arith)) w)
  ]
