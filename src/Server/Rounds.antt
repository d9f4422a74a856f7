-- ===== src/Server/Rounds.antt =====
-- handle_read is a run of the steps of the reactor: the bytes are received, then the rounds of the
-- loop follow.
use in_memory_db.Base.{
  ℕ, zero, suc, ◌+◌, ◌≡◌, refl, false, some, [], ◌∷◌, ◌++◌, arith, length, ◌==◌, nat_eq,
  if◌then◌else◌, Option-cases, Bool-cases, inl, inr, ap, ◌∙◌, sym,
}
use in_memory_db.Text.{Bytes}
use in_memory_db.Dict.{Dict, find, insert_or_assign}
use in_memory_db.Dict.Laws.{find-insert_or_assign}
use in_memory_db.WorkerPool.{WorkerPool}
use in_memory_db.Reactor.{
  ConnectionState, Reactor, Progress, verdict, cut_line, strip_return, issue_next, read_lines,
  handle_read,
}
use in_memory_db.Reactor.Reading.{
  Verdict-cases, behind, issued, read_lines_partial, read_lines_skip, read_lines_pause,
  read_lines_issue,
}
use in_memory_db.Server.{Server, receives, reads_line, Reach, next, receive, read_line}

module _ {ℓ} {V : Type ℓ} where
  insert_or_assign_twice :
      (k : ℕ) (v w : V) (m : Dict ℕ V)
      → insert_or_assign k w (insert_or_assign k v m) ≡ insert_or_assign k w m
  unfolding insert_or_assign
  insert_or_assign_twice k v w [] = ground arith
  insert_or_assign_twice k v w ((j, x) ∷ m) = elim (Bool-cases (j == k)) [
    | inl e ↦ rw (e, insert_or_assign, e) refl
    | inr e ↦ rw (e, insert_or_assign, e) (ap (◌∷◌ (j, x)) (insert_or_assign_twice k v w m))
  ]

  insert_or_assign_same :
      (k : ℕ) (v : V) (m : Dict ℕ V) → find k m ≡ some v → insert_or_assign k v m ≡ m
  unfolding insert_or_assign find
  insert_or_assign_same k v [] h = cc
  insert_or_assign_same k v ((j, x) ∷ m) h = elim (Bool-cases (j == k)) [
    | inl e ↦ rw (e, insert_or_assign) (ground (arith, h, e))
    | inr e ↦
        rw (e, insert_or_assign)
          (ap (◌∷◌ (j, x)) (insert_or_assign_same k v m (ground (arith, h, e))))
  ]

-- The end of handle_read, behind its loop.
abbrev settle : ℕ → Progress → Reactor → Reactor
settle client done r = record r {
  pool = done.pool;
  connections = insert_or_assign client done.state r.connections;
  paused_reads = if done.paused then insert_or_assign client tt r.paused_reads else r.paused_reads;
}

abbrev going : ConnectionState → WorkerPool → Progress
going c p = record { state = c; pool = p; paused = false }

rounds : ℕ → ℕ → Reactor → Reactor
rounds zero client r = r
rounds (suc n) client r = rounds n client (read_line client r)

settle_twice :
    (client : ℕ) (c : ConnectionState) (p : WorkerPool) (done : Progress) (r : Reactor)
    → settle client done (settle client (going c p) r) ≡ settle client done r
settle_twice client c p done r =
    ap
      (λ m. record r {
        pool = done.pool;
        connections = m;
        paused_reads =
            if done.paused then insert_or_assign client tt r.paused_reads else r.paused_reads;
      })
      (insert_or_assign_twice client c done.state r.connections)

read_line-settle :
    (client : ℕ) (c : ConnectionState) (r : Reactor)
    → find client r.connections ≡ some c
    → read_line client r ≡ settle client (read_lines 1 client c r.pool) r
unfolding read_line
read_line-settle client c r e = rw (e, read_line) refl

settle_none :
    (client : ℕ) (c : ConnectionState) (r : Reactor)
    → find client r.connections ≡ some c
    → settle client (going c r.pool) r ≡ r
settle_none client c r e =
    ap (λ m. record r { connections = m }) (insert_or_assign_same client c r.connections e)

IsRounds : ℕ → Progress → Reactor → Type 0
IsRounds client done r = (k : ℕ) × (settle client done r ≡ rounds k client r)

-- A round that neither pauses nor stops, and the rounds behind it.
goes_on :
    (client : ℕ) (c c' : ConnectionState) (p' : WorkerPool) (done : Progress) (r : Reactor)
    → find client r.connections ≡ some c
    → read_lines 1 client c r.pool ≡ going c' p'
    → IsRounds client done (settle client (going c' p') r)
    → IsRounds client done r
unfolding IsRounds rounds
goes_on client c c' p' done r e h (k, same) = (
  suc k,
  sym (settle_twice client c' p' done r)
      ∙ same
      ∙ ap (rounds k client) (sym (read_line-settle client c r e ∙ ap (λ d. settle client d r) h)),
)

find-settle :
    (client : ℕ) (done : Progress) (r : Reactor)
    → find client (settle client done r).connections ≡ some done.state
find-settle client done r =
    ground (arith, find-insert_or_assign client client done.state r.connections)

read_lines-IsRounds :
    (n client : ℕ) (c : ConnectionState) (r : Reactor)
    → find client r.connections ≡ some c
    → IsRounds client (read_lines n client c r.pool) r
unfolding IsRounds read_lines rounds
read_lines-IsRounds zero client c r e = (0, settle_none client c r e)
read_lines-IsRounds (suc n) client c r e = elim (Option-cases (cut_line c.read_buffer)) [
  | inl h ↦ rw (read_lines_partial n client c r.pool h) (0, settle_none client c r e)
  | inr ((before, rest), h) ↦
      elim (Verdict-cases (verdict (strip_return before) (behind rest c) r.pool)) [
        | inl v ↦ rw (read_lines_skip n client c r.pool before rest h v) (
            goes_on client c (behind rest c) r.pool _ r e
              (read_lines_skip 0 client c r.pool before rest h v)
              (read_lines-IsRounds n client (behind rest c) _
                (find-settle client (going (behind rest c) r.pool) r)))
        | inr (inl v) ↦ (
          1,
          ap (λ d. settle client d r)
                (read_lines_pause n client c r.pool before rest h v
                  ∙ sym (read_lines_pause 0 client c r.pool before rest h v))
              ∙ sym (read_line-settle client c r e),
        )
        | inr (inr v) ↦ rw (read_lines_issue n client c r.pool before rest h v) (
            goes_on client c (issue_next (behind rest c))
              (issued client (strip_return before) c r.pool) _ r e
              (read_lines_issue 0 client c r.pool before rest h v)
              (read_lines-IsRounds n client (issue_next (behind rest c)) _ (
                find-settle client
                  (going (issue_next (behind rest c))
                    (issued client (strip_return before) c r.pool))
                  r)))
      ]
]

handle_read-rounds :
    (client : ℕ) (bytes : Bytes) (r : Reactor)
    → (k : ℕ) × (handle_read client (some bytes) r ≡ rounds k client (receive client bytes r))
unfolding handle_read receive rounds IsRounds
handle_read-rounds client bytes r = elim (Option-cases (find client r.connections)) [
  | inl e ↦ (0, rw (e, handle_read, receive) refl)
  | inr (c, e) ↦
      let c' : ConnectionState = record c { read_buffer = c.read_buffer ++ bytes } in
      let start : Progress = going c' r.pool in
      let (k, same) =
        read_lines-IsRounds (length c'.read_buffer) client c' (settle client start r)
          (find-settle client start r) in
      (k, rw (e, handle_read, receive) (sym (settle_twice client c' r.pool _ r) ∙ same))
]

rounds-Reach :
    (client socket n : ℕ) {s : Server} (t : Server)
    → Reach client s t
    → Reach client s (record t { reactor = rounds n socket t.reactor })
unfolding rounds
rounds-Reach client socket zero t r = r
rounds-Reach client socket (suc n) t r =
    rounds-Reach client socket n (record t { reactor = read_line socket t.reactor })
      (next r (reads_line socket))

-- A call of handle_read for which recv gives bytes is a run of the steps of the server: the bytes
-- are received, and rounds of the loop follow until it ends.
pub handle_read-Reach :
    (client socket : ℕ) (bytes : Bytes) {s : Server} (t : Server)
    → Reach client s t
    → Reach client s (record t {
      reactor = handle_read socket (some bytes) t.reactor;
      received = if socket == client then t.received + length bytes else t.received;
    })
handle_read-Reach client socket bytes t r =
    let (k, same) = handle_read-rounds socket bytes t.reactor in
    rw same (rounds-Reach client socket k _ (next r (receives socket bytes)))
