-- ===== src/Timer.antt =====
-- src/timer.c: calendar time to seconds since 1970.
pub mod Calendar
mod Tests
use k210_os.Prelude.{
  ℕ, zero, suc, ◌+◌, ◌-◌, ◌*◌, ◌/◌, ◌%◌, ◌^◌, ◌<◌, ◌≤◌, ◌≡◌, ◌≢◌, ◌↔◌, ◌⊎◌, inl, inr, refl, sym, ap,
  ◌∙◌, min, max, Bool, true, false, not, ◌&&◌, ◌||◌, Option, none, some, List, [], ◌∷◌, ◌++◌, map,
  arith, ltb, leb, ◌==◌, if◌then◌else◌, lt→ltb, ltb→lt, ltb→le, leb→le, eq→==, ==→eq, Bool-cases,
  length, get_elem?, get_or, set, replicate, take, drop, length-append, length-set,
  length-replicate, get_elem?-eq-get_or, get_or-set, get_or-append, set-set, set-get_or, Outcome,
  ok, panic, fault, hang, ◌>>=◌, ◌>>◌, assert, from_option, load, store, load-ok, store-ok, Yields,
  Yields->>=, Yields-map,
}

-- The fields of `struct tm` that tm2tamp reads. The month counts from 0 and the year from 1900;
-- years from 1970 on and hours at or above `utc_diff` keep every term of the source nonnegative.
pub record Tm : Type 0 where
  pub tm_sec : ℕ
  pub tm_min : ℕ
  pub tm_hour : ℕ
  pub tm_mday : ℕ
  pub tm_mon : ℕ
  pub tm_year : ℕ

abbrev pub mon_days : List ℕ
mon_days = 31 ∷ 28 ∷ 31 ∷ 30 ∷ 31 ∷ 30 ∷ 31 ∷ 31 ∷ 30 ∷ 31 ∷ 30 ∷ 31 ∷ []

-- the `for` of tm2tamp
unfoldable pub month_days : ℕ → ℕ
month_days zero = 0
month_days (suc i) = month_days i + get_or mon_days i 0

abbrev pub is_leap : ℕ → Bool
is_leap ryear = not (ryear % 100 == 0) && ryear % 4 == 0 || ryear % 400 == 0

unfoldable pub leap_years : ℕ → ℕ → Bool → ℕ
leap_years tyears mon leap = if ltb mon 1 && leap then (tyears + 2) / 4 - 1 else (tyears + 2) / 4

unfoldable pub tdays : Tm → ℕ
tdays tm =
    let tyears : ℕ = tm.tm_year - 70 in
    month_days tm.tm_mon
    + (tm.tm_mday - 1)
    + (tyears * 365 + leap_years tyears tm.tm_mon (is_leap (tm.tm_year + 1900)))

unfoldable pub tm2tamp : Tm → ℕ → ℕ
tm2tamp tm utc_diff = tdays tm * 86400 + (tm.tm_hour - utc_diff) * 3600 + tm.tm_min * 60 + tm.tm_sec
