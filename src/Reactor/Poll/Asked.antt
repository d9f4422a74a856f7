-- ===== src/Reactor/Poll/Asked.antt =====
-- A connection that has bytes to write is polled for writing.
use in_memory_db.Base.{
  ℕ, zero, suc, ◌≡◌, refl, Bool, true, false, not, ◌||◌, Option, none, some, List, [], ◌∷◌, arith,
  drop, ◌==◌, nat_eq, if◌then◌else◌, leb, Option-cases, Bool-cases, inl, inr, ap,
}
use in_memory_db.Text.{Bytes, is_empty}
use in_memory_db.Dict.{Dict, find, insert_or_assign, erase, contains}
use in_memory_db.Dict.Laws.{find-insert_or_assign, find-erase}
use in_memory_db.WorkerPool.{TaskResult, WorkerPool, drain}
use in_memory_db.Reactor.{
  ConnectionState, Reactor, new_connection, flush_next, flush_contiguous, deliver, deliver_all,
  disconnect, handle_read, handle_write, accept_connection, unpause, drain_completion_queue,
  issue_next, read_lines, max_connections, verdict, cut_line, strip_return,
}
use in_memory_db.Reactor.Reading.{
  Verdict-cases, behind, issued, read_lines_partial, read_lines_skip, read_lines_pause,
  read_lines_issue,
}
use in_memory_db.Reactor.Poll.{
  PollFd, listening, client, Events, Report, poll_entry, poll_entries, handle_report,
  handle_reports, prepare, turn,
}
use in_memory_db.Reactor.Poll.Turn.{find-poll_entries}

-- The flag is set while there is something to write.
abbrev pub HasPending : ConnectionState → Type 0
HasPending c = (is_empty c.write_buffer || c.write_pending) ≡ true

abbrev pub IsAsked : Dict ℕ ConnectionState → Type 0
IsAsked m = (k : ℕ) (c : ConnectionState) → find k m ≡ some c → HasPending c

insert-IsAsked :
    (k : ℕ) (d : ConnectionState) (m : Dict ℕ ConnectionState)
    → HasPending d
    → IsAsked m
    → IsAsked (insert_or_assign k d m)
insert-IsAsked k d m h w j c e = elim (Bool-cases (k == j)) [
  | inl q ↦ let same : d ≡ c = ground (arith, e, find-insert_or_assign k j d m, q) in rw (← same) h
  | inr q ↦ w j c (ground (arith, e, find-insert_or_assign k j d m, q))
]

erase-IsAsked : (k : ℕ) (m : Dict ℕ ConnectionState) → IsAsked m → IsAsked (erase k m)
erase-IsAsked k m w j c e = w j c (ground (arith, e, find-erase k j m))

flush_contiguous-HasPending :
    (n : ℕ) (c : ConnectionState) → HasPending c → HasPending (flush_contiguous n c)
unfolding flush_contiguous flush_next
flush_contiguous-HasPending zero c h = h
flush_contiguous-HasPending (suc n) c h =
    elim (Option-cases (find c.next_seq_expected c.out_of_order_buf)) [
      | inl e ↦ rw (e, flush_contiguous) h
      | inr (r, e) ↦
          rw (e, flush_contiguous) (flush_contiguous-HasPending n (flush_next r c) (ground arith))
    ]

deliver_all-IsAsked :
    (rs : List TaskResult) (m : Dict ℕ ConnectionState) → IsAsked m → IsAsked (deliver_all rs m)
unfolding deliver_all deliver
deliver_all-IsAsked [] m w = w
deliver_all-IsAsked (r ∷ rs) m w = elim (Option-cases (find r.client_fd m)) [
  | inl e ↦ rw (e, deliver_all) (deliver_all-IsAsked rs m w)
  | inr (c, e) ↦
      rw (e, deliver_all)
        (deliver_all-IsAsked rs _
          (insert-IsAsked r.client_fd _ m (flush_contiguous-HasPending _ _ (w r.client_fd c e)) w))
]

read_lines-HasPending :
    (n sock : ℕ) (c : ConnectionState) (p : WorkerPool)
    → HasPending c
    → HasPending (read_lines n sock c p).state
read_lines-HasPending zero sock c p w = unfold read_lines in w
read_lines-HasPending (suc n) sock c p w = elim (Option-cases (cut_line c.read_buffer)) [
  | inl e ↦ rw (read_lines_partial n sock c p e) w
  | inr ((before, rest), e) ↦
      elim (Verdict-cases (verdict (strip_return before) (behind rest c) p)) [
        | inl v ↦
            rw (read_lines_skip n sock c p before rest e v)
              (read_lines-HasPending n sock (behind rest c) p w)
        | inr (inl v) ↦ rw (read_lines_pause n sock c p before rest e v) w
        | inr (inr v) ↦ rw (read_lines_issue n sock c p before rest e v) (
            read_lines-HasPending n sock (issue_next (behind rest c))
              (issued sock (strip_return before) c p) (unfold issue_next in w))
      ]
]

handle_read-IsAsked :
    (sock : ℕ) (bytes : Option Bytes) (r : Reactor)
    → IsAsked r.connections
    → IsAsked (handle_read sock bytes r).connections
unfolding handle_read disconnect
handle_read-IsAsked sock none r w = erase-IsAsked sock r.connections w
handle_read-IsAsked sock (some bytes) r w = elim (Option-cases (find sock r.connections)) [
  | inl e ↦ rw (e, handle_read) w
  | inr (c, e) ↦
      rw (e, handle_read)
        (insert-IsAsked sock _ r.connections (read_lines-HasPending _ sock _ r.pool (w sock c e)) w)
]

if-IsAsked :
    (b : Bool) (x y : Reactor)
    → IsAsked x.connections
    → IsAsked y.connections
    → IsAsked (if b then x else y).connections
if-IsAsked true x y h k = h
if-IsAsked false x y h k = k

left_pending :
    (c : ConnectionState) (n : ℕ)
    → is_empty c.write_buffer ≡ false
    → HasPending c
    → (is_empty (drop n c.write_buffer)
        || (if is_empty (drop n c.write_buffer) then false else c.write_pending))
      ≡ true
left_pending c n b w = ground (arith, b, w)

handle_write-IsAsked :
    (sock : ℕ) (sent : Option ℕ) (r : Reactor)
    → IsAsked r.connections
    → IsAsked (handle_write sock sent r).connections
unfolding handle_write disconnect
handle_write-IsAsked sock none r w = elim (Option-cases (find sock r.connections)) [
  | inl e ↦ rw (e, handle_write) w
  | inr (c, e) ↦
      rw (e, handle_write)
        (elim (Bool-cases (is_empty c.write_buffer)) [
          | inl b ↦ rw b (insert-IsAsked sock _ r.connections (ground (arith, b)) w)
          | inr b ↦ rw b (erase-IsAsked sock r.connections w)
        ])
]
handle_write-IsAsked sock (some n) r w = elim (Option-cases (find sock r.connections)) [
  | inl e ↦ rw (e, handle_write) w
  | inr (c, e) ↦
      rw (e, handle_write)
        (elim (Bool-cases (is_empty c.write_buffer)) [
          | inl b ↦ rw b (insert-IsAsked sock _ r.connections (ground (arith, b)) w)
          | inr b ↦ rw b (insert-IsAsked sock _ r.connections (left_pending c n b (w sock c e)) w)
        ])
]

listening-IsAsked :
    (a : Option (ℕ × Bytes)) (r : Reactor)
    → IsAsked r.connections
    → IsAsked
        (elim a as (λ x. Reactor) [
          | none ↦ r
          | some (sock, ip) ↦ accept_connection sock ip r
        ]).connections
unfolding accept_connection new_connection is_empty
listening-IsAsked none r w = w
listening-IsAsked (some (sock, ip)) r w =
    if-IsAsked (leb max_connections r.total_connections) _ _ w
      (insert-IsAsked sock (new_connection ip) r.connections refl w)

handle_report-IsAsked :
    (fd : PollFd) (e : Report) (r : Reactor)
    → IsAsked r.connections
    → IsAsked (handle_report fd e r).connections
unfolding handle_report disconnect
handle_report-IsAsked listening e r w =
    if-IsAsked e.readable _ _ (listening-IsAsked e.accepted r w) w
handle_report-IsAsked (client sock) e r w =
    if-IsAsked e.failed _ _ (erase-IsAsked sock r.connections w)
      (if-IsAsked e.writable _ _ (handle_write-IsAsked sock e.sent _ read) read)
  where
    read : IsAsked (if e.readable then handle_read sock e.received r else r).connections
    read = if-IsAsked e.readable _ _ (handle_read-IsAsked sock e.received r w) w

handle_reports-IsAsked :
    (fds : List (PollFd × Events)) (reports : List Report) (r : Reactor)
    → IsAsked r.connections
    → IsAsked (handle_reports fds reports r).connections
unfolding handle_reports
handle_reports-IsAsked [] reports r w = w
handle_reports-IsAsked (fd ∷ fds) [] r w = w
handle_reports-IsAsked (fd ∷ fds) (e ∷ reports) r w =
    handle_reports-IsAsked fds reports (handle_report fd.0 e r) (handle_report-IsAsked fd.0 e r w)

prepare-IsAsked : (r : Reactor) → IsAsked r.connections → IsAsked (prepare r).connections
unfolding prepare unpause drain_completion_queue drain
prepare-IsAsked r w =
    let w' : IsAsked (deliver_all r.pool.completion_queue r.connections) =
      deliver_all-IsAsked r.pool.completion_queue r.connections w in
    if-IsAsked _ _ _ w' w'

-- If each connection that has bytes to write has its flag set, then so it is after a turn of the
-- loop of `start`, whatever WSAPoll and the calls on the sockets give; and the entry of such a
-- connection in the poll set of the turn asks for writing, and for reading if its reads are not
-- paused.
pub turn-IsAsked :
    (polled : Option (List Report)) (r : Reactor)
    → IsAsked r.connections
    → IsAsked (turn polled r).connections
      × ((k : ℕ) (c : ConnectionState)
          → find k (prepare r).connections ≡ some c
          → is_empty c.write_buffer ≡ false
          → find k (poll_entries (prepare r).paused_reads (prepare r).connections)
            ≡ some (record { read = not (contains k (prepare r).paused_reads); write = true }))
unfolding turn poll_entry
turn-IsAsked polled r w = (
  after polled,
  λ k c e b.
      rw (find-poll_entries (prepare r).paused_reads k (prepare r).connections, e)
        (ap (λ x. some (record { read = not (contains k (prepare r).paused_reads); write = x }))
          (ground (arith, b, prepare-IsAsked r w k c e))),
)
  where
    after : (p : Option (List Report)) → IsAsked (turn p r).connections
    after none = prepare-IsAsked r w
    after (some reports) = handle_reports-IsAsked _ reports (prepare r) (prepare-IsAsked r w)
