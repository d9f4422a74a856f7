-- ===== src/Server/Served.antt =====
-- What is true of a client while the server is at work, and that each step keeps it.
use in_memory_db.Base.{
  ℕ, zero, suc, ◌+◌, ◌≤◌, ◌<◌, ◌≡◌, refl, true, false, some, List, [], ◌∷◌, ◌++◌, arith, length,
  length-append, take, drop, nat_eq, append_assoc, Bool-cases, inl, inr, ap, ◌∙◌,
}
use in_memory_db.Text.{Bytes, is_empty}
use in_memory_db.Dict.{Dict, find, insert_or_assign}
use in_memory_db.Dict.Laws.{find-insert_or_assign}
use in_memory_db.WorkerPool.{TaskResult}
use in_memory_db.Reactor.{ConnectionState, Reactor, read_lines, handle_write}
use in_memory_db.Reactor.Reading.{IsCounted}
use in_memory_db.Reactor.Reassembly.{has_arrived, last_id}
use in_memory_db.Server.{Server, receive, read_line, unsent}
use in_memory_db.Server.Tally.{queued, completed, in_pool}
use in_memory_db.Server.Reading.{made, IsRound, read_lines-IsRound}
use in_memory_db.Server.Ordered.{IsDrained}
use in_memory_db.Server.Elsewhere.{IsElsewhere}

-- Where the request of a client with a number is: with the pool, with a worker, or drained.
abbrev pub located : ℕ → ℕ → Server → ℕ
located client s t =
    in_pool client s t.reactor.pool + queued client s t.busy + completed client s t.drained

-- The connection of the client is c; its requests are each at one place; and what it was sent, with
-- what waits to be sent, are the replies that were drained, in order.
pub record IsServed (client : ℕ) (t : Server) (c : ConnectionState) : Type 0 where
  pub connection : find client t.reactor.connections ≡ some c
  pub budget : c.next_seq_issue + length c.read_buffer ≤ t.received
  pub once : (s : ℕ) → located client s t ≡ made s c
  pub counted : IsCounted c
  pub drained : IsDrained client t.sent t.drained c

-- Bytes may go from the buffer to the client.
IsDrained-same :
    (client : ℕ) (rs : List TaskResult) (sent sent' : Bytes) (c c' : ConnectionState)
    → sent' ++ c'.write_buffer ≡ sent ++ c.write_buffer
    → c'.next_seq_expected ≡ c.next_seq_expected
    → c'.out_of_order_buf ≡ c.out_of_order_buf
    → IsDrained client sent rs c
    → IsDrained client sent' rs c'
unfolding has_arrived
IsDrained-same client rs sent sent' c c' h k l w = record {
  ordered = record {
    stream = rw (h, k) w.ordered.stream;
    waiting = λ s r. rw (k, l) (w.ordered.waiting s r);
    known = λ s. rw (k, l) (w.ordered.known s);
    unique = rw l w.ordered.unique;
  };
  settled = rw (k, l) w.settled;
}

take-append-drop : (n : ℕ) (s : Bytes) → take n s ++ drop n s ≡ s
take-append-drop zero s = refl
take-append-drop (suc n) [] = refl
take-append-drop (suc n) (b ∷ s) = ap (◌∷◌ b) (take-append-drop n s)

take-empty : (n : ℕ) (s : Bytes) → is_empty s ≡ true → take n s ++ s ≡ s
unfolding is_empty
take-empty zero s h = refl
take-empty (suc n) [] h = refl
take-empty (suc n) (b ∷ s) h = ground arith

find-insert_self :
    (client : ℕ) (c : ConnectionState) (m : Dict ℕ ConnectionState)
    → find client (insert_or_assign client c m) ≡ some c
find-insert_self client c m = ground (arith, find-insert_or_assign client client c m)

module _ (client : ℕ) (t : Server) (c : ConnectionState) (w : IsServed client t c) where
  -- On other sockets.
  pub elsewhere-IsServed :
      (r : Reactor) → IsElsewhere client t.reactor r → IsServed client (record t { reactor = r }) c
  elsewhere-IsServed r e = record {
    connection = e.connection ∙ w.connection;
    budget = w.budget;
    once = λ s. omega (arith, w.once s, e.requests s);
    counted = w.counted;
    drained = w.drained;
  }

  pub receive-IsServed :
      (bytes : Bytes)
      → IsServed client
          (record t {
            reactor = receive client bytes t.reactor;
            received = t.received + length bytes;
          })
          (record c { read_buffer = c.read_buffer ++ bytes })
  unfolding receive
  receive-IsServed bytes =
      rw (w.connection, receive)
        (record {
          connection = find-insert_self client _ t.reactor.connections;
          budget = omega (arith, w.budget, length-append c.read_buffer bytes);
          once = w.once;
          counted = record { counted = w.counted.counted; bounded = w.counted.bounded };
          drained = IsDrained-same client t.drained t.sent t.sent c _ refl refl refl w.drained;
        })

  pub read_line-IsServed :
      t.received < last_id
      → IsServed client
          (record t { reactor = read_line client t.reactor })
          (read_lines 1 client c t.reactor.pool).state
  unfolding read_line
  read_line-IsServed small =
      let n : IsRound client c t.reactor.pool (read_lines 1 client c t.reactor.pool) =
        read_lines-IsRound client c t.reactor.pool (omega (arith, w.budget, small)) in
      rw (w.connection, read_line)
        (record {
          connection = find-insert_self client _ t.reactor.connections;
          budget = omega (arith, n.budget, w.budget);
          once = λ s. ground (arith, n.numbers client s, w.once s);
          counted = n.counted w.counted;
          drained =
              IsDrained-same client t.drained t.sent t.sent c _ (ap (◌++◌ t.sent) n.written)
                n.expected n.waiting w.drained;
        })

  moved :
      (n : ℕ) (c' : ConnectionState)
      → take n c.write_buffer ++ c'.write_buffer ≡ c.write_buffer
      → c'.next_seq_expected ≡ c.next_seq_expected
      → c'.out_of_order_buf ≡ c.out_of_order_buf
      → IsDrained client (t.sent ++ take n c.write_buffer) t.drained c'
  moved n c' h k l =
      IsDrained-same client t.drained t.sent (t.sent ++ take n c.write_buffer) c c'
        (append_assoc t.sent (take n c.write_buffer) c'.write_buffer ∙ ap (◌++◌ t.sent) h) k l
        w.drained

  -- The bytes that send takes are those in front of the buffer.
  pub write-IsServed :
      (n : ℕ)
      → (c' : ConnectionState) × IsServed client
          (record t {
            reactor = handle_write client (some n) t.reactor;
            sent = t.sent ++ take n (unsent client t.reactor);
          })
          c'
  unfolding handle_write unsent
  write-IsServed n =
      rw (w.connection, handle_write, unsent)
        (elim (Bool-cases (is_empty c.write_buffer)) [
          | inl e ↦ rw e (
            record c { write_pending = false },
            record {
              connection = find-insert_self client _ t.reactor.connections;
              budget = w.budget;
              once = w.once;
              counted = record { counted = w.counted.counted; bounded = w.counted.bounded };
              drained = moved n _ (take-empty n c.write_buffer e) refl refl;
            },
          )
          | inr e ↦ rw e (
            record c { write_buffer = drop n c.write_buffer; write_pending = _ },
            record {
              connection = find-insert_self client _ t.reactor.connections;
              budget = w.budget;
              once = w.once;
              counted = record { counted = w.counted.counted; bounded = w.counted.bounded };
              drained = moved n _ (take-append-drop n c.write_buffer) refl refl;
            },
          )
        ])
