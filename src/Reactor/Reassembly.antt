-- ===== src/Reactor/Reassembly.antt =====
-- Replies that come back in any order are written in the order of their requests.
use in_memory_db.Base.{
  ℕ, zero, suc, ◌+◌, ◌-◌, ◌%◌, ◌^◌, ◌≤◌, ◌<◌, ◌≡◌, refl, Bool, true, false, ◌||◌, none, some, List,
  [], ◌∷◌, ◌++◌, arith, length, ltb, ◌==◌, ==_iff, nat_eq, Option-cases, Bool-cases, inl, inr, ap,
  ◌∙◌, append_assoc,
}
use in_memory_db.Text.{Bytes}
use in_memory_db.Dict.{find, contains, HasUniqueKeys}
use in_memory_db.Dict.Laws.{
  find-insert_or_assign, find-erase, length-erase, contains→pos, HasUniqueKeys-insert_or_assign,
  HasUniqueKeys-erase,
}
use in_memory_db.Reactor.{ConnectionState, new_connection, flush_next, flush_contiguous, deliver}

-- The numbers that a connection may use: the counters do not wrap around behind them.
abbrev pub last_id : ℕ
last_id = 2 ^ 64 - 1

-- Whether the reply with a number has come: it is written, or waits for its turn.
unfoldable pub has_arrived : ℕ → ConnectionState → Bool
has_arrived s c = ltb s c.next_seq_expected || contains s c.out_of_order_buf

module _ (reply : ℕ → Bytes) where
  -- The replies to the first requests, in order.
  abbrev pub replies : ℕ → Bytes
  replies zero = []
  replies (suc n) = replies n ++ reply n

  -- A connection on which the replies with the given numbers have come, and nothing else; some bytes
  -- of the stream are sent already.
  pub record IsOrdered (sent : Bytes) (done : ℕ → Bool) (c : ConnectionState) : Type 0 where
    pub stream : sent ++ c.write_buffer ≡ replies c.next_seq_expected
    pub waiting :
        (s : ℕ) (r : Bytes)
        → find s c.out_of_order_buf ≡ some r
        → (c.next_seq_expected ≤ s) × (s < last_id) × (r ≡ reply s)
    pub known : (s : ℕ) → has_arrived s c ≡ done s
    pub unique : HasUniqueKeys c.out_of_order_buf

  flush_next-IsOrdered :
      (sent : Bytes) (done : ℕ → Bool) (r : Bytes) (c : ConnectionState)
      → find c.next_seq_expected c.out_of_order_buf ≡ some r
      → IsOrdered sent done c
      → IsOrdered sent done (flush_next r c)
  unfolding flush_next has_arrived
  flush_next-IsOrdered sent done r c e w =
      let (low, below, same) = w.waiting c.next_seq_expected r e in
      let step : (c.next_seq_expected + 1) % 2 ^ 64 ≡ suc c.next_seq_expected = omega arith in
      record {
        stream = rw (step, same, ← append_assoc sent c.write_buffer, w.stream) refl;
        waiting = λ s x h.
            ground
              (arith, step, find-erase c.next_seq_expected s c.out_of_order_buf, w.waiting s x, h);
        known = λ s. elim (Bool-cases (c.next_seq_expected == s)) [
          | inl q ↦ ground (
            arith,
            step,
            find-erase c.next_seq_expected s c.out_of_order_buf,
            w.known s,
            ap (λ t. find t c.out_of_order_buf) ((==_iff c.next_seq_expected s).0 q),
            e,
          )
          | inr q ↦
              ground (arith, step, find-erase c.next_seq_expected s c.out_of_order_buf, w.known s)
        ];
        unique = HasUniqueKeys-erase c.next_seq_expected c.out_of_order_buf w.unique;
      }

  flush_contiguous-IsOrdered :
      (sent : Bytes) (done : ℕ → Bool) (n : ℕ) (c : ConnectionState)
      → IsOrdered sent done c
      → IsOrdered sent done (flush_contiguous n c)
  unfolding flush_contiguous
  flush_contiguous-IsOrdered sent done zero c w = w
  flush_contiguous-IsOrdered sent done (suc n) c w =
      elim (Option-cases (find c.next_seq_expected c.out_of_order_buf)) [
        | inl e ↦ rw (e, flush_contiguous) w
        | inr (r, e) ↦
            rw (e, flush_contiguous)
              (flush_contiguous-IsOrdered sent done n (flush_next r c)
                (flush_next-IsOrdered sent done r c e w))
      ]

  -- One more reply, with a number that is new.
  pub deliver-IsOrdered :
      (sent : Bytes) (done : ℕ → Bool) (s : ℕ) (c : ConnectionState)
      → done s ≡ false
      → s < last_id
      → IsOrdered sent done c
      → IsOrdered sent (λ t. (s == t) || done t) (deliver s (reply s) c)
  unfolding deliver has_arrived
  deliver-IsOrdered sent done s c fresh below w =
      let found = λ (t : ℕ). find-insert_or_assign s t (reply s) c.out_of_order_buf in
      flush_contiguous-IsOrdered sent (λ t. (s == t) || done t) _ _
        (record {
          stream = w.stream;
          waiting = λ t r h. elim (Bool-cases (s == t)) [
            | inl q ↦
                let eq : s ≡ t = (==_iff s t).0 q in
                let low : c.next_seq_expected ≤ s = ground (arith, fresh, w.known s) in
                ground (arith, found t, h, q, eq, low, below, ap reply eq)
            | inr q ↦ w.waiting t r (ground (arith, found t, h))
          ];
          known = λ t. ground (arith, found t, w.known t);
          unique = HasUniqueKeys-insert_or_assign s (reply s) c.out_of_order_buf w.unique;
        })

-- The loop ends because the next reply is missing, not because it runs out of rounds.
flush_contiguous_settled :
    (n : ℕ) (c : ConnectionState)
    → HasUniqueKeys c.out_of_order_buf
    → length c.out_of_order_buf ≤ n
    → let c' = flush_contiguous n c in find c'.next_seq_expected c'.out_of_order_buf ≡ none
unfolding flush_contiguous flush_next
flush_contiguous_settled zero c w h =
    ground (arith, contains→pos c.next_seq_expected c.out_of_order_buf)
flush_contiguous_settled (suc n) c w h =
    elim (Option-cases (find c.next_seq_expected c.out_of_order_buf)) [
      | inl e ↦ rw (e, flush_contiguous) e
      | inr (r, e) ↦
          rw (e, flush_contiguous)
            (flush_contiguous_settled n (flush_next r c)
              (HasUniqueKeys-erase c.next_seq_expected c.out_of_order_buf w)
              (ground (arith, e, length-erase c.next_seq_expected c.out_of_order_buf w)))
    ]

pub deliver_settled :
    (s : ℕ) (r : Bytes) (c : ConnectionState)
    → HasUniqueKeys c.out_of_order_buf
    → let c' = deliver s r c in find c'.next_seq_expected c'.out_of_order_buf ≡ none
unfolding deliver
deliver_settled s r c w =
    flush_contiguous_settled _ _ (HasUniqueKeys-insert_or_assign s r c.out_of_order_buf w)
      (omega arith)

pub IsOrdered-ext :
    (reply : ℕ → Bytes) (sent : Bytes) (done all : ℕ → Bool) (c : ConnectionState)
    → ((t : ℕ) → done t ≡ all t)
    → IsOrdered reply sent done c
    → IsOrdered reply sent all c
IsOrdered-ext reply sent done all c h w = record {
  stream = w.stream;
  waiting = w.waiting;
  known = λ t. w.known t ∙ h t;
  unique = w.unique;
}

replies-ext : (f g : ℕ → Bytes) (n : ℕ) → ((t : ℕ) → t < n → f t ≡ g t) → replies f n ≡ replies g n
replies-ext f g zero h = refl
replies-ext f g (suc n) h =
    rw (replies-ext f g n (λ t l. h t (omega arith)), h n (omega arith)) refl

-- Only the replies that have come matter.
pub IsOrdered-reply :
    (f g : ℕ → Bytes) (sent : Bytes) (done : ℕ → Bool) (c : ConnectionState)
    → ((t : ℕ) → done t ≡ true → f t ≡ g t)
    → IsOrdered f sent done c
    → IsOrdered g sent done c
unfolding has_arrived
IsOrdered-reply f g sent done c h w = record {
  stream = w.stream ∙ replies-ext f g c.next_seq_expected (λ t l. h t (ground (arith, w.known t)));
  waiting = λ s r e.
      let (low, below, same) = w.waiting s r e in
      (low, below, same ∙ h s (ground (arith, w.known s, e)));
  known = w.known;
  unique = w.unique;
}

-- Replies to one connection, as they come.
unfoldable pub deliver_each : (ℕ → Bytes) → List ℕ → ConnectionState → ConnectionState
deliver_each reply [] c = c
deliver_each reply (s ∷ ss) c = deliver_each reply ss (deliver s (reply s) c)

pub member : ℕ → List ℕ → Bool
member t [] = false
member t (s ∷ ss) = (s == t) || member t ss

-- The numbers are new, each once, and below the last one.
abbrev pub AreNew : (ℕ → Bool) → List ℕ → Type 0
AreNew done [] = Unit
AreNew done (s ∷ ss) = (done s ≡ false) × (s < last_id) × AreNew (λ t. (s == t) || done t) ss

deliver_each-IsOrdered :
    (reply : ℕ → Bytes) (sent : Bytes) (ss : List ℕ) (done : ℕ → Bool) (c : ConnectionState)
    → AreNew done ss
    → IsOrdered reply sent done c
    → find c.next_seq_expected c.out_of_order_buf ≡ none
    → let c' = deliver_each reply ss c in
      IsOrdered reply sent (λ t. done t || member t ss) c'
      × (find c'.next_seq_expected c'.out_of_order_buf ≡ none)
unfolding deliver_each member
deliver_each-IsOrdered reply sent [] done c n w e =
    (IsOrdered-ext reply sent done (λ t. done t || false) c (λ t. ground arith) w, e)
deliver_each-IsOrdered reply sent (s ∷ ss) done c n w e =
    let c' : ConnectionState = deliver s (reply s) c in
    let w' : IsOrdered reply sent (λ t. (s == t) || done t) c' =
      deliver-IsOrdered reply sent done s c n.0 n.1 w in
    let (v, f) =
      deliver_each-IsOrdered reply sent ss (λ t. (s == t) || done t) c' n.2 w'
        (deliver_settled s (reply s) c w.unique) in
    (
      IsOrdered-ext reply sent (λ t. ((s == t) || done t) || member t ss)
          (λ t. done t || ((s == t) || member t ss)) (deliver_each reply ss c') (λ t. ground arith)
          v,
      f,
    )

-- Replies to the requests of a new connection come in any order, each at most once,
-- with numbers below 2 ^ 64 - 1. The connection then has written exactly the replies to its first
-- requests, in the order of the requests, up to the first one whose reply has not come.
pub written_in_order :
    (reply : ℕ → Bytes) (ss : List ℕ) (ip : Bytes)
    → AreNew (λ t. false) ss
    → let c = deliver_each reply ss (new_connection ip) in
      (c.write_buffer ≡ replies reply c.next_seq_expected)
      × ((s : ℕ) → s < c.next_seq_expected → member s ss ≡ true)
      × (member c.next_seq_expected ss ≡ false)
unfolding new_connection has_arrived find
written_in_order reply ss ip n =
    let (w, e) =
      deliver_each-IsOrdered reply [] ss (λ t. false) (new_connection ip) n
        (record {
          stream = refl;
          waiting = λ s r h. ground arith;
          known = λ s. ground arith;
          unique = tt;
        })
        refl in
    (
      w.stream,
      λ s h. ground (arith, w.known s),
      ground (arith, e, w.known (deliver_each reply ss (new_connection ip)).next_seq_expected),
    )
