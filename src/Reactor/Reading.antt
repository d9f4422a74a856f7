-- ===== src/Reactor/Reading.antt =====
-- The loop of handle_read: it stops at a partial line or at a pause, and it numbers the lines.
use in_memory_db.Base.{
  ℕ, zero, suc, ◌+◌, ◌^◌, ◌≤◌, ◌<◌, ◌≡◌, refl, true, false, ◌⊎◌, none, some, [], ◌∷◌, arith, length,
  ◌==◌, Option-cases, Bool-cases, inl, inr, sym, subst,
}
use in_memory_db.Text.{Bytes}
use in_memory_db.WorkerPool.{WorkerPool}
use in_memory_db.Pipeline.{process}
use in_memory_db.Reactor.{
  ConnectionState, Progress, Verdict, skip, pause, issue, verdict, cut_line, strip_return,
  issue_next, read_lines, max_pipeline_depth,
}

pub length-cut_line :
    (s line rest : Bytes) → cut_line s ≡ some (line, rest) → length rest < length s
unfolding cut_line
length-cut_line [] line rest h = ground arith
length-cut_line (b ∷ s) line rest h = elim (Bool-cases (b == 10)) [
  | inl e ↦ let same : s ≡ rest = ground (arith, h, e) in rw⁻¹ same (omega arith)
  | inr e ↦ elim (Option-cases (cut_line s)) [
    | inl n ↦ ground (arith, e, n, h)
    | inr ((l, r), n) ↦
        let same : r ≡ rest = ground (arith, h, e, n) in
        let less : length r < length s = length-cut_line s l r n in rw⁻¹ same (omega (arith, less))
  ]
]

pub Verdict-cases : (v : Verdict) → (v ≡ skip) ⊎ ((v ≡ pause) ⊎ (v ≡ issue))
Verdict-cases skip = inl refl
Verdict-cases pause = inr (inl refl)
Verdict-cases issue = inr (inr refl)

-- The connection behind a line, and the pool behind it if the line is issued.
abbrev pub behind : Bytes → ConnectionState → ConnectionState
behind rest c = record c { read_buffer = rest }

abbrev pub issued : ℕ → Bytes → ConnectionState → WorkerPool → WorkerPool
issued client line c p =
    process
      (record { client = client; seq_id = c.next_seq_issue; client_ip = c.client_ip; line = line })
      p

-- One round of the loop, on each of its ways.
module _ (n client : ℕ) (c : ConnectionState) (p : WorkerPool) where
  pub read_lines_partial :
      cut_line c.read_buffer ≡ none
      → read_lines (suc n) client c p ≡ record { state = c; pool = p; paused = false }
  unfolding read_lines
  read_lines_partial e = rw (e, read_lines) refl

  module _ (before rest : Bytes) (e : cut_line c.read_buffer ≡ some (before, rest)) where
    pub read_lines_skip :
        verdict (strip_return before) (behind rest c) p ≡ skip
        → read_lines (suc n) client c p ≡ read_lines n client (behind rest c) p
    unfolding read_lines
    read_lines_skip v = rw (e, read_lines, v) refl

    pub read_lines_pause :
        verdict (strip_return before) (behind rest c) p ≡ pause
        → read_lines (suc n) client c p ≡ record { state = behind rest c; pool = p; paused = true }
    unfolding read_lines
    read_lines_pause v = rw (e, read_lines, v) refl

    pub read_lines_issue :
        verdict (strip_return before) (behind rest c) p ≡ issue
        → read_lines (suc n) client c p
          ≡ read_lines n client
              (issue_next (behind rest c))
              (issued client (strip_return before) c p)
    unfolding read_lines
    read_lines_issue v = rw (e, read_lines, v) refl

-- The loop has ended by itself.
abbrev HasEnded : Progress → Type 0
HasEnded r = (r.paused ≡ true) ⊎ (cut_line r.state.read_buffer ≡ none)

cut_line_empty : (s : Bytes) → length s ≤ 0 → cut_line s ≡ none
unfolding cut_line
cut_line_empty [] h = refl
cut_line_empty (b ∷ s) h = absurd (omega arith)

-- With as many rounds as there are bytes in the buffer, the loop ends by itself: it has paused the
-- socket, or only a partial line is left.
pub read_lines_ends :
    (n client : ℕ) (c : ConnectionState) (p : WorkerPool)
    → length c.read_buffer ≤ n
    → ((read_lines n client c p).paused ≡ true)
      ⊎ (cut_line (read_lines n client c p).state.read_buffer ≡ none)
read_lines_ends zero client c p h = inr (unfold read_lines in cut_line_empty c.read_buffer h)
read_lines_ends (suc n) client c p h = elim (Option-cases (cut_line c.read_buffer)) [
  | inl e ↦ subst HasEnded (sym (read_lines_partial n client c p e)) (inr e)
  | inr ((before, rest), e) ↦
      let less : length rest < length c.read_buffer = length-cut_line c.read_buffer before rest e in
      elim (Verdict-cases (verdict (strip_return before) (behind rest c) p)) [
        | inl v ↦
            subst HasEnded (sym (read_lines_skip n client c p before rest e v))
              (read_lines_ends n client (behind rest c) p (omega (arith, less)))
        | inr (inl v) ↦
            subst HasEnded (sym (read_lines_pause n client c p before rest e v)) (inl refl)
        | inr (inr v) ↦ subst HasEnded (sym (read_lines_issue n client c p before rest e v)) (
            read_lines_ends n client (issue_next (behind rest c))
              (issued client (strip_return before) c p) (unfold issue_next in omega (arith, less)))
      ]
]

-- How many requests a connection has in flight.
pub record IsCounted (c : ConnectionState) : Type 0 where
  pub counted : c.next_seq_expected + c.in_flight_requests ≡ c.next_seq_issue
  pub bounded : c.in_flight_requests ≤ max_pipeline_depth

pub issue_next-IsCounted :
    (line : Bytes) (c : ConnectionState) (p : WorkerPool)
    → c.next_seq_issue + 1 < 2 ^ 64
    → verdict line c p ≡ issue
    → IsCounted c
    → IsCounted (issue_next c)
unfolding issue_next verdict
issue_next-IsCounted line c p h v w =
    let room : c.in_flight_requests < max_pipeline_depth = ground arith in
    record { counted = omega (arith, room, h); bounded = omega (arith, room) }

-- If the requests in flight are those that were issued and are not written yet, and not more than
-- MAX_PIPELINE_DEPTH, then so they are after the loop of handle_read, provided the counter of
-- issued requests does not wrap around in it.
pub read_lines-IsCounted :
    (n client : ℕ) (c : ConnectionState) (p : WorkerPool)
    → c.next_seq_issue + n < 2 ^ 64
    → IsCounted c
    → IsCounted (read_lines n client c p).state
read_lines-IsCounted zero client c p h w = unfold read_lines in w
read_lines-IsCounted (suc n) client c p h w = elim (Option-cases (cut_line c.read_buffer)) [
  | inl e ↦ rw (read_lines_partial n client c p e) w
  | inr ((before, rest), e) ↦
      let w' : IsCounted (behind rest c) = record { counted = w.counted; bounded = w.bounded } in
      elim (Verdict-cases (verdict (strip_return before) (behind rest c) p)) [
        | inl v ↦
            rw (read_lines_skip n client c p before rest e v)
              (read_lines-IsCounted n client (behind rest c) p (omega arith) w')
        | inr (inl v) ↦ rw (read_lines_pause n client c p before rest e v) w'
        | inr (inr v) ↦ rw (read_lines_issue n client c p before rest e v) (
            read_lines-IsCounted n client (issue_next (behind rest c))
              (issued client (strip_return before) c p) (unfold issue_next in omega arith)
              (issue_next-IsCounted (strip_return before) (behind rest c) p (omega arith) v w'))
      ]
]

-- A line that meets a full pipeline, or a pool that is nearly full, is gone: it is neither in the
-- buffer any more, nor has it a number, nor does the pool know of it.
pub paused_line_lost :
    (n client : ℕ) (c : ConnectionState) (p : WorkerPool) (before rest : Bytes)
    → cut_line c.read_buffer ≡ some (before, rest)
    → verdict (strip_return before) (record c { read_buffer = rest }) p ≡ pause
    → ((read_lines (suc n) client c p).state.read_buffer ≡ rest)
      × ((read_lines (suc n) client c p).state.next_seq_issue ≡ c.next_seq_issue)
      × ((read_lines (suc n) client c p).pool ≡ p)
paused_line_lost n client c p before rest e v =
    rw (read_lines_pause n client c p before rest e v) (refl, refl, refl)
