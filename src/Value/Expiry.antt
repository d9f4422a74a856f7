-- ===== src/Value/Expiry.antt =====
-- A value is expired exactly from its expiration time on, and stays so.
use in_memory_db.Base.{ℕ, ◌≤◌, ◌≡◌, refl, true, false, Bool, none, some, Option, arith, leb}
use in_memory_db.Base.Int.{ℤ, pos, negsuc}
use in_memory_db.Value.{CacheAlignedValue, is_expired, expired_at, expiration_time, deadline}

-- Whether a deadline, if there is one, has come.
abbrev pub reached : Option ℕ → ℕ → Bool
reached none now = false
reached (some t) now = leb t now

expired_at-deadline :
    (ttl : ℤ) (created now : ℕ)
    → created ≤ now
    → expired_at ttl created now ≡ reached (deadline ttl created) now
unfolding expired_at deadline
expired_at-deadline (negsuc n) created now h = refl
expired_at-deadline (pos ttl) created now h = ground arith

-- At any time from its creation on, a value is expired exactly if its expiration time has come.
pub is_expired-expiration_time :
    (v : CacheAlignedValue) (now : ℕ)
    → v.created_at ≤ now
    → is_expired now v ≡ reached (expiration_time v) now
unfolding is_expired expiration_time
is_expired-expiration_time v now h = expired_at-deadline v.ttl_seconds v.created_at now h

expired_at_mono :
    (ttl : ℤ) (created now later : ℕ)
    → now ≤ later
    → expired_at ttl created now ≡ true
    → expired_at ttl created later ≡ true
unfolding expired_at
expired_at_mono (negsuc n) created now later h e = e
expired_at_mono (pos ttl) created now later h e = ground arith

pub is_expired_mono :
    (v : CacheAlignedValue) (now later : ℕ)
    → now ≤ later
    → is_expired now v ≡ true
    → is_expired later v ≡ true
unfolding is_expired
is_expired_mono v now later h e = expired_at_mono v.ttl_seconds v.created_at now later h e
