-- ===== src/Command/Execute/Lists.antt =====
-- LPUSH and LRANGE, on the shard of their key.
pub mod Ranges
use in_memory_db.Base.{
  ℕ, zero, suc, ◌+◌, ◌-◌, Bool, true, false, Option, none, some, List, [], ◌∷◌, ◌++◌, length,
  get_or, if◌then◌else◌,
}
use in_memory_db.Base.Int.{ℤ, pos, negsuc, pos_part, ◌+ℤ◌, ltb_ℤ, leb_ℤ}
use in_memory_db.Text.{Bytes, bytes_HasEq}
use in_memory_db.Dict.{find, insert_or_assign}
use in_memory_db.Memory.{perform, is_hard_limit_reached}
use in_memory_db.Value.{ValueVariant, list, CacheAlignedValue, new_value}
use in_memory_db.Shard.{Shard, Env}
use in_memory_db.Shard.View.{alive}
use in_memory_db.Command.Reply.{
  oom_reply, wrong_type_reply, integer_reply, bulk_reply, array_header,
}

-- std::get_if<std::pmr::vector<std::pmr::string>>
pub as_list : ValueVariant → Option (List Bytes)
as_list (list l) = some l
as_list v = none

-- The entry of an iterator that is not past the end, not tombstoned and not expired.
unfoldable pub find_live : ℕ → Bytes → Shard → Option CacheAlignedValue
find_live now key s = alive now (find key s.entries)

-- The value goes to the back of the list.
push_value :
    Bytes → CacheAlignedValue → Shard → Bytes → Option (List Bytes) → Shard × (Bool × Bytes)
push_value key v s value none = (s, (false, wrong_type_reply))
push_value key v s value (some l) =
    let l' = l ++ value ∷ [] in
    (
      record s { entries = insert_or_assign key (record v { value = list l' }) s.entries },
      (true, integer_reply (length l')),
    )

-- The body of the `try` block, once the containers have what they asked for.
unfoldable pub lpush_entry : ℕ → Bytes → Bytes → ℤ → Shard → Shard × (Bool × Bytes)
unfolding push_value as_list find_live
lpush_entry now key value ttl s = elim (find_live now key s) [
  | none ↦ (
    record s { entries = insert_or_assign key (new_value now (list (value ∷ [])) ttl) s.entries },
    (true, integer_reply 1),
  )
  | some v ↦ push_value key v s value (as_list v.value)
]

unfoldable pub lpush_shard : Env → Bytes → Bytes → ℤ → Shard → Shard × (Bool × Bytes)
unfolding lpush_entry
lpush_shard env key value ttl s =
    if is_hard_limit_reached s.arena
    then (s, (false, oom_reply))
    else (let (t, done) = perform env.traffic s.arena in
        if done
        then lpush_entry env.now key value ttl (record s { arena = t })
        else (record s { arena = t }, (false, oom_reply)))

-- start_ < 0 ? start_ + len : start_
from_end : ℕ → ℤ → ℤ
from_end len z = if ltb_ℤ z (pos 0) then z +ℤ pos len else z

pub first_index : ℕ → ℤ → ℤ
unfolding from_end
first_index len start = let s = from_end len start in if ltb_ℤ s (pos 0) then pos 0 else s

pub last_index : ℕ → ℤ → ℤ
unfolding from_end
last_index len stop =
    let e = from_end len stop in if leb_ℤ (pos len) e then pos len +ℤ negsuc 0 else e

-- for (i = s; i <= e; i++), by the number of rounds
elements : List Bytes → ℕ → ℕ → Bytes
elements l i zero = []
elements l i (suc n) = bulk_reply (get_or l i []) ++ elements l (i + 1) n

unfoldable pub range_reply : List Bytes → ℤ → ℤ → Bytes
unfolding elements first_index last_index
range_reply l start stop =
    let s = first_index (length l) start in
    let e = last_index (length l) stop in
    let count = pos_part e + 1 - pos_part s in
    if ltb_ℤ e s then array_header 0 else array_header count ++ elements l (pos_part s) count

unfoldable pub lrange_shard : ℕ → Bytes → ℤ → ℤ → Shard → Bytes
unfolding as_list find_live
lrange_shard now key start stop s = elim (find_live now key s) [
  | none ↦ array_header 0
  | some v ↦ elim (as_list v.value) [ none ↦ wrong_type_reply | some l ↦ range_reply l start stop ]
]
