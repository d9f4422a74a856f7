-- ===== src/Memory/Accounting.antt =====
-- The arena's account stays within its capacity, and an operation that fails costs nothing.
use in_memory_db.Base.{
  ℕ, ◌^◌, ◌≤◌, ◌<◌, ◌≡◌, refl, Bool, true, false, List, [], ◌∷◌, arith, All, some, inl, inr,
  Option-cases, ap, ◌∙◌,
}
use in_memory_db.Memory.{
  Tracker, Request, Traffic, do_allocate, do_deallocate, unwind, allocate_all, release_all, settle,
  perform,
}

-- An object of C++ has at most PTRDIFF_MAX bytes.
abbrev pub max_object : ℕ
max_object = 2 ^ 63

pub record IsWithin (t : Tracker) : Type 0 where
  pub used : t.bytes_used ≤ t.capacity
  pub small : t.capacity < max_object

abbrev pub HasSmallRequests : Traffic → Type 0
HasSmallRequests traffic = All (λ (r : Request). r.bytes < max_object) traffic.requests

do_allocate-IsWithin :
    (g : Bool) (n : ℕ) (t u : Tracker) → do_allocate g n t ≡ some u → IsWithin t → IsWithin u
unfolding do_allocate
do_allocate-IsWithin g n t u e w = ground arith

do_deallocate-IsWithin : (n : ℕ) (t : Tracker) → IsWithin t → IsWithin (do_deallocate n t)
unfolding do_deallocate
do_deallocate-IsWithin n t w = ground arith

do_deallocate-allocate :
    (g : Bool) (n : ℕ) (t u : Tracker)
    → do_allocate g n t ≡ some u
    → IsWithin t
    → n < max_object
    → do_deallocate n u ≡ t
unfolding do_allocate do_deallocate
do_deallocate-allocate g n t u e w h = ground arith

unwind-IsWithin : (n : ℕ) (r : Tracker × Bool) → IsWithin r.0 → IsWithin (unwind n r).0
unfolding unwind
unwind-IsWithin n (t, true) w = w
unwind-IsWithin n (t, false) w = do_deallocate-IsWithin n t w

allocate_all-IsWithin :
    (rs : List Request) (t : Tracker) → IsWithin t → IsWithin (allocate_all rs t).0
unfolding allocate_all
allocate_all-IsWithin [] t w = w
allocate_all-IsWithin (r ∷ rs) t w = elim (Option-cases (do_allocate r.granted r.bytes t)) [
  | inl e ↦ rw (e, allocate_all) w
  | inr (u, e) ↦
      rw (e, allocate_all)
        (unwind-IsWithin r.bytes _
          (allocate_all-IsWithin rs u (do_allocate-IsWithin r.granted r.bytes t u e w)))
]

pub release_all-IsWithin : (ns : List ℕ) (t : Tracker) → IsWithin t → IsWithin (release_all ns t)
unfolding release_all
release_all-IsWithin [] t w = w
release_all-IsWithin (n ∷ ns) t w = release_all-IsWithin ns _ (do_deallocate-IsWithin n t w)

settle-IsWithin : (ns : List ℕ) (r : Tracker × Bool) → IsWithin r.0 → IsWithin (settle ns r).0
unfolding settle
settle-IsWithin ns (t, true) w = release_all-IsWithin ns t w
settle-IsWithin ns (t, false) w = w

-- Whatever the containers ask for, and whether or not upstream grants it, an operation on an
-- account within its capacity leaves it within its capacity.
pub perform-IsWithin :
    (traffic : Traffic) (t : Tracker) → IsWithin t → IsWithin (perform traffic t).0
unfolding perform
perform-IsWithin traffic t w =
    settle-IsWithin traffic.released _ (allocate_all-IsWithin traffic.requests t w)

unwind_failed :
    (n : ℕ) (t : Tracker) (r : Tracker × Bool)
    → (unwind n r).1 ≡ false
    → (r.1 ≡ false) × ((unwind n r).0 ≡ do_deallocate n r.0)
unfolding unwind
unwind_failed n t (u, true) e = cc
unwind_failed n t (u, false) e = (refl, refl)

-- One request in front of the others, which give back what they got if they fail.
allocate_failed :
    (r : Request) (rs : List Request) (t : Tracker)
    → IsWithin t
    → r.bytes < max_object
    → (allocate_all (r ∷ rs) t).1 ≡ false
    → ((u : Tracker)
        → do_allocate r.granted r.bytes t ≡ some u
        → (allocate_all rs u).1 ≡ false
        → (allocate_all rs u).0 ≡ u)
    → (allocate_all (r ∷ rs) t).0 ≡ t
unfolding allocate_all
allocate_failed r rs t w h f rest = elim (Option-cases (do_allocate r.granted r.bytes t)) [
  | inl e ↦ rw (e, allocate_all)
  | inr (u, e) ↦
      let f' : (unwind r.bytes (allocate_all rs u)).1 ≡ false = rw (e, allocate_all) at f in
      let (g, back) = unwind_failed r.bytes t (allocate_all rs u) f' in
      rw (e, allocate_all)
        (back
          ∙ ap (do_deallocate r.bytes) (rest u e g)
          ∙ do_deallocate-allocate r.granted r.bytes t u e w h)
]

allocate_all_failed :
    (rs : List Request) (t : Tracker)
    → IsWithin t
    → All (λ (r : Request). r.bytes < max_object) rs
    → (allocate_all rs t).1 ≡ false
    → (allocate_all rs t).0 ≡ t
unfolding allocate_all
allocate_all_failed [] t w h e = refl
allocate_all_failed (r ∷ rs) t w h e =
    allocate_failed r rs t w h.0 e
      (λ u e' f. allocate_all_failed rs u (do_allocate-IsWithin r.granted r.bytes t u e' w) h.1 f)

settle_failed :
    (ns : List ℕ) (r : Tracker × Bool)
    → (settle ns r).1 ≡ false
    → (r.1 ≡ false) × ((settle ns r).0 ≡ r.0)
unfolding settle
settle_failed ns (u, true) e = cc
settle_failed ns (u, false) e = (refl, refl)

-- An operation on an account within its capacity that ends in an OomException leaves the account as
-- it found it, if no request exceeds the size of an object.
pub perform_failed :
    (traffic : Traffic) (t : Tracker)
    → IsWithin t
    → HasSmallRequests traffic
    → (perform traffic t).1 ≡ false
    → (perform traffic t).0 ≡ t
unfolding perform
perform_failed traffic t w h e =
    let (f, same) = settle_failed traffic.released (allocate_all traffic.requests t) e in
    same ∙ allocate_all_failed traffic.requests t w h f
