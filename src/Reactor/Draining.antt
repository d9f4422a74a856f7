-- ===== src/Reactor/Draining.antt =====
-- drain_completion_queue over all connections, and what it writes on one of them.
use in_memory_db.Base.{
  ℕ, ◌<◌, ◌≡◌, refl, true, false, some, List, [], ◌∷◌, map, arith, ◌==◌, ==_iff, nat_eq, All,
  Option-cases, Bool-cases, inl, inr, ap, ◌∙◌, if◌then◌else◌,
}
use in_memory_db.Text.{Bytes}
use in_memory_db.Dict.{Dict, find, insert_or_assign}
use in_memory_db.Dict.Laws.{find-insert_or_assign}
use in_memory_db.WorkerPool.{TaskResult, drain}
use in_memory_db.Reactor.{
  ConnectionState, Reactor, new_connection, deliver, deliver_all, drain_completion_queue,
}
use in_memory_db.Reactor.Reassembly.{deliver_each, replies, member, AreNew, written_in_order}

-- The results of one client, in the order of the completion queue.
unfoldable pub results_of : ℕ → List TaskResult → List TaskResult
results_of client [] = []
results_of client (r ∷ rs) =
    let rest = results_of client rs in if r.client_fd == client then r ∷ rest else rest

unfoldable pub deliver_results : List TaskResult → ConnectionState → ConnectionState
deliver_results [] c = c
deliver_results (r ∷ rs) c = deliver_results rs (deliver r.sequence_id r.response c)

-- A connection gets its own results, and no others.
pub find-deliver_all :
    (client : ℕ) (rs : List TaskResult) (m : Dict ℕ ConnectionState) (c : ConnectionState)
    → find client m ≡ some c
    → find client (deliver_all rs m) ≡ some (deliver_results (results_of client rs) c)
unfolding deliver_all results_of deliver_results
find-deliver_all client [] m c h = h
find-deliver_all client (r ∷ rs) m c h = elim (Bool-cases (r.client_fd == client)) [
  | inl q ↦
      let here : find r.client_fd m ≡ some c =
        ap (λ k. find k m) ((==_iff r.client_fd client).0 q) ∙ h in
      let c' : ConnectionState = deliver r.sequence_id r.response c in
      let m' : Dict ℕ ConnectionState = insert_or_assign r.client_fd c' m in
      let there : find client m' ≡ some c' =
        ground (arith, find-insert_or_assign r.client_fd client c' m, q) in
      rw (here, deliver_all, q, results_of) (find-deliver_all client rs m' c' there)
  | inr q ↦ elim (Option-cases (find r.client_fd m)) [
    | inl e ↦ rw (e, deliver_all, q, results_of) (find-deliver_all client rs m c h)
    | inr (d, e) ↦
        let d' : ConnectionState = deliver r.sequence_id r.response d in
        let m' : Dict ℕ ConnectionState = insert_or_assign r.client_fd d' m in
        let there : find client m' ≡ some c =
          ground (arith, find-insert_or_assign r.client_fd client d' m, q, h) in
        rw (e, deliver_all, q, results_of) (find-deliver_all client rs m' c there)
  ]
]

-- The numbers of the requests that the results answer.
abbrev pub numbers_of : List TaskResult → List ℕ
numbers_of rs = map (λ r. r.sequence_id) rs

-- Every result is the reply to its request.
abbrev pub AreReplies : (ℕ → Bytes) → List TaskResult → Type 0
AreReplies reply = All (λ r. r.response ≡ reply r.sequence_id)

deliver_results-deliver_each :
    (reply : ℕ → Bytes) (rs : List TaskResult) (c : ConnectionState)
    → AreReplies reply rs
    → deliver_results rs c ≡ deliver_each reply (numbers_of rs) c
unfolding deliver_results deliver_each
deliver_results-deliver_each reply [] c h = refl
deliver_results-deliver_each reply (r ∷ rs) c h =
    ap (λ x. deliver_results rs (deliver r.sequence_id x c)) h.0
    ∙ deliver_results-deliver_each reply rs (deliver r.sequence_id (reply r.sequence_id) c) h.1

-- Reassembly. The completion queue holds, among the results of other clients, replies to requests of
-- a client whose connection is new: in any order, each at most once, with numbers below 2 ^ 64 - 1.
-- Then drain_completion_queue writes on this connection exactly the replies to its first requests,
-- in the order of the requests, up to the first one whose reply has not come.
pub drained_in_order :
    (reply : ℕ → Bytes) (r : Reactor) (client : ℕ) (ip : Bytes)
    → find client r.connections ≡ some (new_connection ip)
    → AreReplies reply (results_of client r.pool.completion_queue)
    → AreNew (λ t. false) (numbers_of (results_of client r.pool.completion_queue))
    → (c : ConnectionState) × (find client (drain_completion_queue r).connections ≡ some c)
      × (c.write_buffer ≡ replies reply c.next_seq_expected)
      × ((s : ℕ)
          → s < c.next_seq_expected
          → member s (numbers_of (results_of client r.pool.completion_queue)) ≡ true)
      × (member c.next_seq_expected (numbers_of (results_of client r.pool.completion_queue))
          ≡ false)
unfolding drain_completion_queue drain
drained_in_order reply r client ip h a n =
    let rs : List TaskResult = results_of client r.pool.completion_queue in
    let (stream, first, missing) = written_in_order reply (numbers_of rs) ip n in
    (
      deliver_each reply (numbers_of rs) (new_connection ip),
      find-deliver_all client r.pool.completion_queue r.connections (new_connection ip) h
          ∙ ap some (deliver_results-deliver_each reply rs (new_connection ip) a),
      stream,
      first,
      missing,
    )
