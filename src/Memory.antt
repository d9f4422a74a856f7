-- ===== src/Memory.antt =====
-- app/include/memory/pmr_allocator.h, app/src/memory/pmr_allocator.cpp: the accounting of an arena.
-- The pool and monotonic resources upstream belong to the standard library: whether they grant a
-- request is an argument. Sizes are size_t, so sums are taken modulo 2 ^ 64. The comparison of
-- doubles is in Memory/Limits; addresses are not modelled.
pub mod Accounting
pub mod Limits
use in_memory_db.Base.{
  ℕ, ◌+◌, ◌-◌, ◌%◌, ◌^◌, Bool, true, false, Option, none, some, List, [], ◌∷◌, ltb, leb,
  if◌then◌else◌,
}

-- TrackingMemoryResource, less its upstream pointer
pub record Tracker : Type 0 where
  pub bytes_used : ℕ
  pub capacity : ℕ

-- PmrArena(capacity_bytes), if there is memory for its buffer; ServerBuilder.Assembly.build has the
-- std::bad_alloc.
unfoldable pub new_arena : ℕ → Tracker
new_arena n = record { bytes_used = 0; capacity = n }

unfoldable pub is_hard_limit_reached : Tracker → Bool
is_hard_limit_reached t = leb t.capacity t.bytes_used

-- `none` is an OomException; `granted` says whether upstream has the memory.
unfoldable pub do_allocate : Bool → ℕ → Tracker → Option Tracker
do_allocate granted bytes t =
    let total = (t.bytes_used + bytes) % 2 ^ 64 in
    if ltb t.capacity total
    then none
    else if granted
    then some (record t { bytes_used = total })
    else none

unfoldable pub do_deallocate : ℕ → Tracker → Tracker
do_deallocate bytes t = record t {
  bytes_used = if leb bytes t.bytes_used then t.bytes_used - bytes else 0;
}

-- One request of a container: its size, and whether upstream grants it.
pub record Request : Type 0 where
  pub bytes : ℕ
  pub granted : Bool

-- What the containers of the standard library ask of the arena in one operation of a shard: the
-- requests in order, and the sizes of the blocks that they give back once the operation is done.
pub record Traffic : Type 0 where
  pub requests : List Request
  pub released : List ℕ

-- Each block belongs to an object of the operation: an exception gives back what was granted.
unwind : ℕ → Tracker × Bool → Tracker × Bool
unwind bytes (t, true) = (t, true)
unwind bytes (t, false) = (do_deallocate bytes t, false)

unfoldable pub allocate_all : List Request → Tracker → Tracker × Bool
unfolding unwind
allocate_all [] t = (t, true)
allocate_all (r ∷ rs) t = elim (do_allocate r.granted r.bytes t) [
  | none ↦ (t, false)
  | some t' ↦ unwind r.bytes (allocate_all rs t')
]

unfoldable pub release_all : List ℕ → Tracker → Tracker
release_all [] t = t
release_all (n ∷ ns) t = release_all ns (do_deallocate n t)

settle : List ℕ → Tracker × Bool → Tracker × Bool
settle ns (t, true) = (release_all ns t, true)
settle ns (t, false) = (t, false)

-- A `try` block of a shard's operation: false is `catch (const OomException&)`.
unfoldable pub perform : Traffic → Tracker → Tracker × Bool
unfolding settle
perform traffic t = settle traffic.released (allocate_all traffic.requests t)
