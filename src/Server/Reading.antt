-- ===== src/Server/Reading.antt =====
-- What a round of the loop of handle_read does to its connection and to the pool.
use in_memory_db.Base.{
  ℕ, ◌+◌, ◌^◌, ◌≤◌, ◌<◌, ◌≡◌, refl, Bool, true, false, arith, length, ltb, ◌==◌, if◌then◌else◌, inl,
  inr, Option-cases,
}
use in_memory_db.Text.{Bytes}
use in_memory_db.WorkerPool.{WorkerPool}
use in_memory_db.Pipeline.{Request}
use in_memory_db.Reactor.{
  ConnectionState, Progress, issue, verdict, cut_line, strip_return, issue_next, read_lines,
}
use in_memory_db.Reactor.Reading.{
  length-cut_line, Verdict-cases, behind, issued, read_lines_partial, read_lines_skip,
  read_lines_pause, read_lines_issue, IsCounted, issue_next-IsCounted,
}
use in_memory_db.Server.Tally.{in_pool, in_pool-process}

-- How often a request with a number has been made, on a connection that makes each once.
abbrev pub made : ℕ → ConnectionState → ℕ
made s c = if ltb s c.next_seq_issue then 1 else 0

-- What holds of a round, from a connection and a pool to what it leaves. A byte of the buffer is
-- gone for each new number.
pub record IsRound (client : ℕ) (c : ConnectionState) (p : WorkerPool) (r : Progress) : Type 0 where
  pub written : r.state.write_buffer ≡ c.write_buffer
  pub expected : r.state.next_seq_expected ≡ c.next_seq_expected
  pub waiting : r.state.out_of_order_buf ≡ c.out_of_order_buf
  pub budget :
      r.state.next_seq_issue + length r.state.read_buffer ≤ c.next_seq_issue + length c.read_buffer
  pub grows : c.next_seq_issue ≤ r.state.next_seq_issue
  pub numbers :
      (d s : ℕ)
      → in_pool d s r.pool + (if client == d then made s c else 0)
        ≡ in_pool d s p + (if client == d then made s r.state else 0)
  pub counted : IsCounted c → IsCounted r.state

module _ (client : ℕ) (c : ConnectionState) (p : WorkerPool) where
  dropped-IsRound :
      (rest : Bytes) (paused : Bool)
      → length rest ≤ length c.read_buffer
      → IsRound client c p (record { state = behind rest c; pool = p; paused = paused })
  dropped-IsRound rest paused h = record {
    written = refl;
    expected = refl;
    waiting = refl;
    budget = omega arith;
    grows = omega arith;
    numbers = λ d s. refl;
    counted = λ w. record { counted = w.counted; bounded = w.bounded };
  }

  abbrev request : Bytes → Request
  request line = record {
    client = client;
    seq_id = c.next_seq_issue;
    client_ip = c.client_ip;
    line = line;
  }

  issued-IsRound :
      (line rest : Bytes)
      → length rest < length c.read_buffer
      → c.next_seq_issue + 1 < 2 ^ 64
      → verdict line (behind rest c) p ≡ issue
      → IsRound client c p (record {
        state = issue_next (behind rest c);
        pool = issued client line c p;
        paused = false;
      })
  issued-IsRound line rest h small v = record {
    written = unfold issue_next in refl;
    expected = unfold issue_next in refl;
    waiting = unfold issue_next in refl;
    budget = unfold issue_next in omega arith;
    grows = unfold issue_next in omega arith;
    numbers = λ d s. unfold issue_next in ground (arith, in_pool-process d s (request line) p);
    counted = λ w.
        issue_next-IsCounted line (behind rest c) p small v
          (record { counted = w.counted; bounded = w.bounded });
  }

  pub read_lines-IsRound :
      c.next_seq_issue + 1 < 2 ^ 64 → IsRound client c p (read_lines 1 client c p)
  unfolding read_lines
  read_lines-IsRound small = elim (Option-cases (cut_line c.read_buffer)) [
    | inl e ↦
        rw (read_lines_partial 0 client c p e) (dropped-IsRound c.read_buffer false (omega arith))
    | inr ((before, rest), e) ↦
        let less : length rest < length c.read_buffer =
          length-cut_line c.read_buffer before rest e in
        elim (Verdict-cases (verdict (strip_return before) (behind rest c) p)) [
          | inl v ↦
              rw (read_lines_skip 0 client c p before rest e v, read_lines)
                (dropped-IsRound rest false (omega (arith, less)))
          | inr (inl v) ↦
              rw (read_lines_pause 0 client c p before rest e v)
                (dropped-IsRound rest true (omega (arith, less)))
          | inr (inr v) ↦
              rw (read_lines_issue 0 client c p before rest e v, read_lines)
                (issued-IsRound (strip_return before) rest less small v)
        ]
  ]

  -- It makes no request of another client.
  pub in_pool-read_lines_other :
      (d s : ℕ) → (client == d) ≡ false → in_pool d s (read_lines 1 client c p).pool ≡ in_pool d s p
  unfolding read_lines
  in_pool-read_lines_other d s n = elim (Option-cases (cut_line c.read_buffer)) [
    | inl e ↦ rw (read_lines_partial 0 client c p e) refl
    | inr ((before, rest), e) ↦
        elim (Verdict-cases (verdict (strip_return before) (behind rest c) p)) [
          | inl v ↦ rw (read_lines_skip 0 client c p before rest e v) refl
          | inr (inl v) ↦ rw (read_lines_pause 0 client c p before rest e v) refl
          | inr (inr v) ↦
              rw (read_lines_issue 0 client c p before rest e v)
                (ground (arith, n, in_pool-process d s (request (strip_return before)) p))
        ]
  ]
