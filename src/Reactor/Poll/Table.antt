-- ===== src/Reactor/Poll/Table.antt =====
-- The table of the connections and its counter, over the turns of the loop.
use in_memory_db.Base.{
  ℕ, ◌≤◌, ◌≡◌, refl, Bool, true, false, Option, none, some, List, [], ◌∷◌, arith, length, ◌==◌,
  ==_iff, nat_eq, if◌then◌else◌, Option-cases, Bool-cases, inl, inr,
}
use in_memory_db.Text.{Bytes, is_empty}
use in_memory_db.Dict.{Dict, find, insert_or_assign, contains, HasUniqueKeys}
use in_memory_db.Dict.Laws.{
  find-insert_or_assign, find-erase, length-insert_or_assign, length-erase,
  HasUniqueKeys-insert_or_assign, HasUniqueKeys-erase,
}
use in_memory_db.Reactor.Poll.{client, Report, handle_report}
use in_memory_db.WorkerPool.{TaskResult}
use in_memory_db.Reactor.{
  ConnectionState, Reactor, deliver_all, disconnect, handle_read, handle_write, max_connections,
}

-- The counter is the number of the connections, and at most MAX_CONNECTIONS.
pub record IsTabled (r : Reactor) : Type 0 where
  pub unique : HasUniqueKeys r.connections
  pub total : r.total_connections ≡ length r.connections
  pub few : r.total_connections ≤ max_connections

-- A change of one connection that is there leaves the sockets of the table as they are.
pub record HasSameKeys (m m' : Dict ℕ ConnectionState) : Type 0 where
  pub unique : HasUniqueKeys m → HasUniqueKeys m'
  pub size : length m' ≡ length m
  pub keys : (k : ℕ) → contains k m' ≡ contains k m

pub insert-HasSameKeys :
    (k : ℕ) (c d : ConnectionState) (m : Dict ℕ ConnectionState)
    → find k m ≡ some c
    → HasSameKeys m (insert_or_assign k d m)
insert-HasSameKeys k c d m e = record {
  unique = HasUniqueKeys-insert_or_assign k d m;
  size = ground (arith, length-insert_or_assign k d m, e);
  keys = λ j. elim (Bool-cases (k == j)) [
    | inl q ↦ ground (arith, find-insert_or_assign k j d m, q, e, (==_iff k j).0 q)
    | inr q ↦ ground (arith, find-insert_or_assign k j d m, q)
  ];
}

HasSameKeys-refl : (m : Dict ℕ ConnectionState) → HasSameKeys m m
HasSameKeys-refl m = record { unique = λ u. u; size = refl; keys = λ k. refl }

HasSameKeys-trans :
    {m n o : Dict ℕ ConnectionState} → HasSameKeys m n → HasSameKeys n o → HasSameKeys m o
HasSameKeys-trans h k = record {
  unique = λ u. k.unique (h.unique u);
  size = omega (arith, h.size, k.size);
  keys = λ j. ground (arith, h.keys j, k.keys j);
}

pub deliver_all-HasSameKeys :
    (rs : List TaskResult) (m : Dict ℕ ConnectionState) → HasSameKeys m (deliver_all rs m)
unfolding deliver_all
deliver_all-HasSameKeys [] m = HasSameKeys-refl m
deliver_all-HasSameKeys (r ∷ rs) m = elim (Option-cases (find r.client_fd m)) [
  | inl e ↦ rw (e, deliver_all) (deliver_all-HasSameKeys rs m)
  | inr (c, e) ↦
      rw (e, deliver_all)
        (HasSameKeys-trans (insert-HasSameKeys r.client_fd c _ m e) (deliver_all-HasSameKeys rs _))
]

pub HasSameKeys-IsTabled :
    (r : Reactor) (m : Dict ℕ ConnectionState)
    → HasSameKeys r.connections m
    → IsTabled r
    → IsTabled (record r { connections = m })
HasSameKeys-IsTabled r m h w = record {
  unique = h.unique w.unique;
  total = omega (arith, h.size, w.total);
  few = w.few;
}

-- What handling one socket does to the table.
pub record IsHandled (sock : ℕ) (r r' : Reactor) : Type 0 where
  pub tabled : IsTabled r → IsTabled r'
  pub others : (k : ℕ) → (sock == k) ≡ false → contains k r'.connections ≡ contains k r.connections

IsHandled-refl : (sock : ℕ) (r : Reactor) → IsHandled sock r r
IsHandled-refl sock r = record { tabled = λ w. w; others = λ k n. refl }

if-IsHandled :
    (sock : ℕ) (b : Bool) (r x y : Reactor)
    → IsHandled sock r x
    → IsHandled sock r y
    → IsHandled sock r (if b then x else y)
if-IsHandled sock true r x y h k = h
if-IsHandled sock false r x y h k = k

disconnect-IsHandled :
    (sock : ℕ) (r : Reactor)
    → contains sock r.connections ≡ true
    → IsHandled sock r (disconnect sock r)
unfolding disconnect
disconnect-IsHandled sock r e = record {
  tabled = λ w. record {
    unique = HasUniqueKeys-erase sock r.connections w.unique;
    total = ground (arith, length-erase sock r.connections w.unique, w.total, e);
    few = omega (arith, w.few);
  };
  others = λ k n. ground (arith, find-erase sock k r.connections, n);
}

-- A connection is there and only changed.
changed :
    (sock : ℕ) (c d : ConnectionState) (r r' : Reactor)
    → find sock r.connections ≡ some c
    → r'.connections ≡ insert_or_assign sock d r.connections
    → r'.total_connections ≡ r.total_connections
    → IsHandled sock r r'
changed sock c d r r' e h k =
    let same : HasSameKeys r.connections (insert_or_assign sock d r.connections) =
      insert-HasSameKeys sock c d r.connections e in
    record {
      tabled = λ w. record {
        unique = rw h (same.unique w.unique);
        total = rw (h, k) (omega (arith, same.size, w.total));
        few = omega (arith, k, w.few);
      };
      others = λ j n. rw h (same.keys j);
    }

handle_read-IsHandled :
    (sock : ℕ) (bytes : Option Bytes) (r : Reactor)
    → contains sock r.connections ≡ true
    → IsHandled sock r (handle_read sock bytes r)
unfolding handle_read
handle_read-IsHandled sock none r e = disconnect-IsHandled sock r e
handle_read-IsHandled sock (some bytes) r e = elim (Option-cases (find sock r.connections)) [
  | inl h ↦ rw (h, handle_read) (IsHandled-refl sock r)
  | inr (c, h) ↦ rw (h, handle_read) (changed sock c _ r _ h refl refl)
]

handle_write-IsHandled :
    (sock : ℕ) (sent : Option ℕ) (r : Reactor) → IsHandled sock r (handle_write sock sent r)
unfolding handle_write
handle_write-IsHandled sock none r = elim (Option-cases (find sock r.connections)) [
  | inl h ↦ rw (h, handle_write) (IsHandled-refl sock r)
  | inr (c, h) ↦
      rw (h, handle_write)
        (if-IsHandled sock (is_empty c.write_buffer) r _ _ (changed sock c _ r _ h refl refl)
          (disconnect-IsHandled sock r (ground (arith, h))))
]
handle_write-IsHandled sock (some n) r = elim (Option-cases (find sock r.connections)) [
  | inl h ↦ rw (h, handle_write) (IsHandled-refl sock r)
  | inr (c, h) ↦
      rw (h, handle_write)
        (if-IsHandled sock (is_empty c.write_buffer) r _ _ (changed sock c _ r _ h refl refl)
          (changed sock c _ r _ h refl refl))
]

IsHandled-trans :
    (sock : ℕ) {x y z : Reactor} → IsHandled sock x y → IsHandled sock y z → IsHandled sock x z
IsHandled-trans sock h k = record {
  tabled = λ w. k.tabled (h.tabled w);
  others = λ j n. ground (arith, h.others j n, k.others j n);
}

-- A report on a connection that is there.
pub handle_report-IsHandled :
    (sock : ℕ) (e : Report) (r : Reactor)
    → contains sock r.connections ≡ true
    → IsHandled sock r (handle_report (client sock) e r)
unfolding handle_report
handle_report-IsHandled sock e r h =
    if-IsHandled sock e.failed r _ _ (disconnect-IsHandled sock r h) (
      IsHandled-trans sock
        (if-IsHandled sock e.readable r _ _ (handle_read-IsHandled sock e.received r h)
          (IsHandled-refl sock r))
        (if-IsHandled sock e.writable _ _ _ (handle_write-IsHandled sock e.sent _)
          (IsHandled-refl sock _)))
