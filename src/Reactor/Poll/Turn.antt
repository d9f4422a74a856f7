-- ===== src/Reactor/Poll/Turn.antt =====
-- A turn of the loop of `start`, and the table of the connections.
use in_memory_db.Base.{
  ℕ, ◌≡◌, refl, Bool, true, false, Option, none, some, List, [], ◌∷◌, arith, ◌==◌, ==_iff, nat_eq,
  if◌then◌else◌, leb, map, Bool-cases, inl, inr, ◌∙◌,
}
use in_memory_db.Text.{Bytes}
use in_memory_db.Dict.{Dict, find, contains, HasUniqueKeys}
use in_memory_db.Dict.Laws.{
  find-insert_or_assign, length-insert_or_assign, HasUniqueKeys-insert_or_assign,
}
use in_memory_db.WorkerPool.{TaskResult, drain}
use in_memory_db.Reactor.{
  ConnectionState, Reactor, new_connection, deliver_all, accept_connection, unpause,
  drain_completion_queue, max_connections,
}
use in_memory_db.Reactor.Poll.{
  listening, client, Events, Report, poll_entry, poll_entries, rebuild_poll_set, handle_report,
  handle_reports, prepare, turn,
}
use in_memory_db.Reactor.Poll.Table.{
  IsTabled, IsHandled, HasSameKeys, deliver_all-HasSameKeys, HasSameKeys-IsTabled,
  handle_report-IsHandled,
}

-- The poll set has an entry for each connection, and for nothing else.
pub find-poll_entries :
    (paused : Dict ℕ (Unit {0})) (k : ℕ) (m : Dict ℕ ConnectionState)
    → find k (poll_entries paused m)
      ≡ elim (find k m) [ none ↦ none | some c ↦ some (poll_entry paused k c) ]
unfolding find poll_entries
find-poll_entries paused k [] = refl
find-poll_entries paused k ((j, c) ∷ m) = elim (Bool-cases (j == k)) [
  | inl e ↦ rw (e, find, (==_iff j k).0 e) refl
  | inr e ↦ rw (e, find) (find-poll_entries paused k m)
]

HasUniqueKeys-poll_entries :
    (paused : Dict ℕ (Unit {0})) (m : Dict ℕ ConnectionState)
    → HasUniqueKeys m
    → HasUniqueKeys (poll_entries paused m)
unfolding poll_entries
HasUniqueKeys-poll_entries paused [] h = tt
HasUniqueKeys-poll_entries paused ((j, c) ∷ m) h =
    (rw (find-poll_entries paused j m, h.0) refl, HasUniqueKeys-poll_entries paused m h.1)

handle_reports-IsTabled :
    (entries : Dict ℕ Events) (reports : List Report) (r : Reactor)
    → HasUniqueKeys entries
    → ((k : ℕ) → contains k entries ≡ true → contains k r.connections ≡ true)
    → IsTabled r
    → IsTabled (handle_reports (map (λ e. (client e.0, e.1)) entries) reports r)
unfolding handle_reports find
handle_reports-IsTabled [] reports r u h w = w
handle_reports-IsTabled (e ∷ entries) [] r u h w = w
handle_reports-IsTabled ((sock, ev) ∷ entries) (e ∷ reports) r u h w =
    let there : contains sock r.connections ≡ true = h sock (ground arith) in
    let now : IsHandled sock r (handle_report (client sock) e r) =
      handle_report-IsHandled sock e r there in
    handle_reports-IsTabled entries reports (handle_report (client sock) e r) u.1
      (λ k q. elim (Bool-cases (sock == k)) [
        | inl s ↦ ground (arith, u.0, q, (==_iff sock k).0 s)
        | inr n ↦ ground (arith, now.others k n, h k, q, n)
      ])
      (now.tabled w)

-- accept gives a socket that is not open.
abbrev pub IsNewSocket : Option (ℕ × Bytes) → Reactor → Type 0
IsNewSocket none r = Unit
IsNewSocket (some (sock, ip)) r = contains sock r.connections ≡ false

abbrev pub AcceptsNew : Option (List Report) → Reactor → Type 0
AcceptsNew none r = Unit
AcceptsNew (some []) r = Unit
AcceptsNew (some (e ∷ reports)) r = IsNewSocket e.accepted r

accept_connection-IsTabled :
    (sock : ℕ) (ip : Bytes) (r : Reactor)
    → contains sock r.connections ≡ false
    → IsTabled r
    → IsTabled (accept_connection sock ip r)
unfolding accept_connection
accept_connection-IsTabled sock ip r h w =
    elim (Bool-cases (leb max_connections r.total_connections)) [
      | inl e ↦ rw (e, accept_connection) w
      | inr e ↦
          rw (e, accept_connection)
            (record {
              unique =
                  HasUniqueKeys-insert_or_assign sock (new_connection ip) r.connections w.unique;
              total = ground (
                arith,
                length-insert_or_assign sock (new_connection ip) r.connections,
                h,
                w.total,
                e,
              );
              few = ground (arith, e);
            })
    ]

accept_connection_keeps :
    (sock : ℕ) (ip : Bytes) (r : Reactor) (k : ℕ)
    → contains k r.connections ≡ true
    → contains k (accept_connection sock ip r).connections ≡ true
unfolding accept_connection
accept_connection_keeps sock ip r k h =
    elim (Bool-cases (leb max_connections r.total_connections)) [
      | inl e ↦ rw (e, accept_connection) h
      | inr e ↦
          rw (e, accept_connection)
            (ground (arith, find-insert_or_assign sock k (new_connection ip) r.connections, h))
    ]

-- What a turn does before WSAPoll.
prepare-IsTabled :
    (r : Reactor)
    → IsTabled r
    → IsTabled (prepare r)
      × ((k : ℕ) → contains k (prepare r).connections ≡ contains k r.connections)
unfolding prepare unpause drain_completion_queue drain
prepare-IsTabled r w =
    let rs : List TaskResult = r.pool.completion_queue in
    let same : HasSameKeys r.connections (deliver_all rs r.connections) =
      deliver_all-HasSameKeys rs r.connections in
    let w' : IsTabled (record r { connections = deliver_all rs r.connections }) =
      HasSameKeys-IsTabled r (deliver_all rs r.connections) same w in
    either _ (record { unique = w'.unique; total = w'.total; few = w'.few }, same.keys)
      (record { unique = w'.unique; total = w'.total; few = w'.few }, same.keys)
  where
    either :
        (b : Bool) {x y : Reactor}
        → IsTabled x × ((k : ℕ) → contains k x.connections ≡ contains k r.connections)
        → IsTabled y × ((k : ℕ) → contains k y.connections ≡ contains k r.connections)
        → let z = if b then x else y in
          IsTabled z × ((k : ℕ) → contains k z.connections ≡ contains k r.connections)
    either true h k = h
    either false h k = k

-- The report on the listening socket, which comes first.
listening-IsTabled :
    (e : Report) (r : Reactor)
    → IsNewSocket e.accepted r
    → IsTabled r
    → IsTabled (handle_report listening e r)
      × ((k : ℕ)
          → contains k r.connections ≡ true
          → contains k (handle_report listening e r).connections ≡ true)
unfolding handle_report
listening-IsTabled e r h w = either e.readable e.accepted h
  where
    either :
        (b : Bool) (a : Option (ℕ × Bytes))
        → IsNewSocket a r
        → let r' =
            if b then elim a [ none ↦ r | some (sock, ip) ↦ accept_connection sock ip r ] else r in
          IsTabled r'
          × ((k : ℕ) → contains k r.connections ≡ true → contains k r'.connections ≡ true)
    either false a n = (w, λ k q. q)
    either true none n = (w, λ k q. q)
    either true (some (sock, ip)) n =
        (accept_connection-IsTabled sock ip r n w, accept_connection_keeps sock ip r)

IsNewSocket-same :
    (a : Option (ℕ × Bytes)) (r r' : Reactor)
    → ((k : ℕ) → contains k r'.connections ≡ contains k r.connections)
    → IsNewSocket a r
    → IsNewSocket a r'
IsNewSocket-same none r r' same h = tt
IsNewSocket-same (some (sock, ip)) r r' same h = same sock ∙ h

-- If the counter of the connections is the number of the entries of their table, and at most
-- MAX_CONNECTIONS, then so it is after a turn of the loop of `start`, whatever WSAPoll reports and
-- recv and send return, provided that accept gives a socket that is not in the table.
pub turn-IsTabled :
    (polled : Option (List Report)) (r : Reactor)
    → AcceptsNew polled r
    → IsTabled r
    → IsTabled (turn polled r)
unfolding turn rebuild_poll_set handle_reports
turn-IsTabled none r h w = (prepare-IsTabled r w).0
turn-IsTabled (some []) r h w = (prepare-IsTabled r w).0
turn-IsTabled (some (e ∷ reports)) r h w =
    let r1 : Reactor = prepare r in
    let (w1, same) = prepare-IsTabled r w in
    let (w2, kept) = listening-IsTabled e r1 (IsNewSocket-same e.accepted r r1 same h) w1 in
    handle_reports-IsTabled (poll_entries r1.paused_reads r1.connections) reports
      (handle_report listening e r1)
      (HasUniqueKeys-poll_entries r1.paused_reads r1.connections w1.unique)
      (λ k q. kept k (ground (arith, q, find-poll_entries r1.paused_reads k r1.connections))) w2
