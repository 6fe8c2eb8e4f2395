-- ===== src/Utils/Time.antt =====
-- include/storage/lib/utils/Time.hpp: an expiry time as 16 high and 32 low bits.
use yet_another_storage.Prelude.{
  ℕ, ◌+◌, ◌*◌, ◌/◌, ◌%◌, ◌^◌, ◌-◌, ◌≤◌, ◌<◌, min, ◌≡◌, ◌≢◌, Bool, true, ◌&&◌, ◌||◌, not, ◌↔◌, arith,
  ltb, ◌==◌, if◌then◌else◌,
}

pub record Time : Type 0 where
  pub expired_time_high : ℕ
  pub expired_time_low : ℕ

-- The constructor from `time_t`. The argument is the value that is cast to `uint64_t`; a value
-- with one of the 16 upper bits set is kept as the greatest time.
unfoldable pub of_time_t : ℕ → Time
of_time_t expired_time =
    let time = expired_time % 2 ^ 64 in
    if time / 2 ^ 48 == 0
    then record { expired_time_high = (time / 2 ^ 32) % 2 ^ 16; expired_time_low = time % 2 ^ 32 }
    else record { expired_time_high = 2 ^ 16 - 1; expired_time_low = 2 ^ 32 - 1 }

-- `GetTime`: the high part is shifted by 48 bits, and the low part does not reach it, so the
-- bitwise or is a sum.
unfoldable pub get_time : Time → ℕ
get_time t = t.expired_time_low + (t.expired_time_high * 2 ^ 48) % 2 ^ 64

-- `operator<`
unfoldable pub time_lt : Time → Time → Bool
time_lt lhs rhs =
    (lhs.expired_time_high == rhs.expired_time_high
      && ltb lhs.expired_time_low rhs.expired_time_low)
    || ltb lhs.expired_time_high rhs.expired_time_high

-- `operator==`
unfoldable pub time_eq : Time → Time → Bool
unfolding time_lt
time_eq lhs rhs = not (time_lt lhs rhs) && not (time_lt rhs lhs)

-- `IsExpired`, at the clock reading that `std::time` returns.
unfoldable pub is_expired : Time → ℕ → Bool
unfolding time_lt of_time_t
is_expired t now = time_lt t (of_time_t now)

-- The equality that is defined from the order alone is equality of both parts.
pub time_eq_iff : (a b : Time) → (time_eq a b ≡ true) ↔ (a ≡ b)
unfolding time_eq
time_eq_iff a b = ground arith

-- What a `time_t` is kept as: the value itself below 2^48, and the greatest time above.
abbrev pub seconds : Time → ℕ
seconds t = t.expired_time_high * 2 ^ 32 + t.expired_time_low

seconds-of_time_t :
    (a : ℕ)
    → a < 2 ^ 64
    → (seconds (of_time_t a) ≡ min a (2 ^ 48 - 1)) × ((of_time_t a).expired_time_low < 2 ^ 32)
unfolding of_time_t
seconds-of_time_t a h = ground arith

time_lt-seconds :
    (s t : Time)
    → s.expired_time_low < 2 ^ 32
    → t.expired_time_low < 2 ^ 32
    → (time_lt s t ≡ true) ↔ (seconds s < seconds t)
unfolding time_lt
time_lt-seconds s t p q = ground arith

pub of_time_t-InRange :
    (a : ℕ) → ((of_time_t a).expired_time_high < 2 ^ 16) × ((of_time_t a).expired_time_low < 2 ^ 32)
unfolding of_time_t
of_time_t-InRange a = ground arith

-- An entry whose expiry date was set to a 64-bit time is expired at a 64-bit clock reading exactly
-- if the date lies before the reading, where both count as 2^48 - 1 when they are greater.
pub is_expired_iff :
    (expiry now : ℕ)
    → expiry < 2 ^ 64
    → now < 2 ^ 64
    → (is_expired (of_time_t expiry) now ≡ true) ↔ (min expiry (2 ^ 48 - 1) < min now (2 ^ 48 - 1))
unfolding is_expired
is_expired_iff expiry now h k =
    let e = seconds-of_time_t expiry h in
    let n = seconds-of_time_t now k in
    rw (e.0, n.0) at (time_lt-seconds (of_time_t expiry) (of_time_t now) e.1 n.1)

-- A date below 2^32 is read back as it was set.
pub get_time-of_time_t : (t : ℕ) → t < 2 ^ 32 → get_time (of_time_t t) ≡ t
unfolding get_time of_time_t
get_time-of_time_t t h = ground arith

-- A date from 2^32 up to 2^48 is read back as another date: `GetTime` shifts the high part by
-- 48 bits, where the constructor took it from bit 32.
pub get_time-of_time_t_ne : (t : ℕ) → 2 ^ 32 ≤ t → t < 2 ^ 48 → get_time (of_time_t t) ≢ t
unfolding get_time of_time_t
get_time-of_time_t_ne t h k = ground arith
