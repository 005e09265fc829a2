-- ===== src/Timer/Calendar.antt =====
-- tm2tamp against the Gregorian calendar, counted day by day.
use k210_os.Prelude.{
  ℕ, zero, suc, ◌+◌, ◌-◌, ◌*◌, ◌/◌, ◌<◌, ◌≤◌, ◌≡◌, refl, Bool, true, false, not, ◌&&◌, ◌||◌, arith,
  ltb, ◌==◌, if◌then◌else◌, ==→eq, get_or, holds_below, holds_below→test,
}
use k210_os.Timer.{Tm, mon_days, month_days, is_leap, leap_years, tdays, tm2tamp}

-- the days of the `n` years from 1970 on
unfoldable pub days_to_year : ℕ → ℕ
days_to_year zero = 0
days_to_year (suc n) = days_to_year n + (if is_leap (1970 + n) then 366 else 365)

-- the days of the first `m` months of a year
unfoldable pub days_to_month : Bool → ℕ → ℕ
days_to_month leap zero = 0
days_to_month leap (suc m) =
    days_to_month leap m + (if leap && m == 1 then 29 else get_or mon_days m 0)

-- the days from 1 January 1970 to the date
unfoldable pub days_since_1970 : Tm → ℕ
days_since_1970 tm =
    days_to_year (tm.tm_year - 70)
    + days_to_month (is_leap (tm.tm_year + 1900)) tm.tm_mon
    + (tm.tm_mday - 1)

-- a date of 1970 to 2099
pub record IsDate (tm : Tm) : Type 0 where
  pub from : 70 ≤ tm.tm_year
  pub to : tm.tm_year < 200
  pub month : tm.tm_mon < 12
  pub day : 0 < tm.tm_mday

years_table :
    holds_below 130
      (λ k. days_to_year k + (if is_leap (1970 + k) then 1 else 0) == k * 365 + (k + 2) / 4)
    ≡ true
unfolding holds_below days_to_year
years_table = refl

months_table :
    (leap : Bool)
    → holds_below 12
        (λ m. days_to_month leap m == month_days m + (if leap && ltb 1 m then 1 else 0))
      ≡ true
unfolding holds_below days_to_month month_days
months_table true = refl
months_table false = refl

leaps_table : holds_below 130 (λ k. not (is_leap (1970 + k)) || ltb 1 k) ≡ true
unfolding holds_below
leaps_table = refl

-- The sum of tdays against the calendar's, for any leap test that fits the tables.
days_sum :
    (k m day years months : ℕ) (leap : Bool)
    → years + (if leap then 1 else 0) ≡ k * 365 + (k + 2) / 4
    → months ≡ month_days m + (if leap && ltb 1 m then 1 else 0)
    → (not leap || ltb 1 k) ≡ true
    → month_days m + day + (k * 365 + leap_years k m leap)
      ≡ years + months + day + (if leap && m == 1 then 1 else 0)
unfolding leap_years
days_sum k m day years months true e f g = ground arith
days_sum k m day years months false e f g = ground arith

-- The code's count of leap days is one too high in February of a leap year, and right otherwise.
tdays-eq :
    (tm : Tm)
    → IsDate tm
    → tdays tm
      ≡ days_since_1970 tm + (if is_leap (tm.tm_year + 1900) && tm.tm_mon == 1 then 1 else 0)
unfolding tdays days_since_1970
tdays-eq tm d =
    let k : ℕ = tm.tm_year - 70 in
    let e : tm.tm_year + 1900 ≡ 1970 + k = omega (arith, d.from) in
    let inside : k < 130 = omega (arith, d.to) in
    rw e (
      days_sum k tm.tm_mon (tm.tm_mday - 1) (days_to_year k)
        (days_to_month (is_leap (1970 + k)) tm.tm_mon) (is_leap (1970 + k))
        (==→eq _ _ (holds_below→test 130 _ k years_table inside))
        (==→eq _ _ (holds_below→test 12 _ tm.tm_mon (months_table (is_leap (1970 + k))) d.month))
        (holds_below→test 130 _ k leaps_table inside))

-- tm2tamp gives the seconds of the date since 1970, save that in February of a leap year it gives
-- a day, 86400 seconds, too much; for dates from 1970 to 2099 and hours at or above `utc_diff`.
pub tm2tamp-eq :
    (tm : Tm) (utc_diff : ℕ)
    → IsDate tm
    → utc_diff ≤ tm.tm_hour
    → tm2tamp tm utc_diff + utc_diff * 3600
      ≡ (days_since_1970 tm + (if is_leap (tm.tm_year + 1900) && tm.tm_mon == 1 then 1 else 0))
          * 86400
        + tm.tm_hour * 3600
        + tm.tm_min * 60
        + tm.tm_sec
unfolding tm2tamp
tm2tamp-eq tm utc_diff d h = omega (arith, tdays-eq tm d)
