-- ===== src/Timer/Tests.antt =====
-- tm2tamp at the date of the source's comment and at a date with the extra day.
use k210_os.Prelude.{◌+◌, ◌*◌, ◌≡◌, refl, ◌&&◌, arith, ◌==◌, if◌then◌else◌}
use k210_os.Timer.{Tm, month_days, leap_years, tdays, tm2tamp, is_leap}
use k210_os.Timer.Calendar.{days_since_1970, tm2tamp-eq}

-- 28 May 2021, 22:37:00
abbrev boot : Tm
boot = record { tm_sec = 0; tm_min = 37; tm_hour = 22; tm_mday = 28; tm_mon = 4; tm_year = 121 }

-- 15 February 2024, 12:00:00
abbrev leap_february : Tm
leap_february = record {
  tm_sec = 0;
  tm_min = 0;
  tm_hour = 12;
  tm_mday = 15;
  tm_mon = 1;
  tm_year = 124;
}

boot_seconds : tm2tamp boot 8 ≡ 1622212620
unfolding tm2tamp tdays month_days leap_years
boot_seconds = refl

-- 1707998400 is noon of the 15th; the code gives noon of the 16th.
leap_february_seconds : tm2tamp leap_february 0 ≡ 1707998400 + 86400
unfolding tm2tamp tdays month_days leap_years
leap_february_seconds = refl

tm2tamp-eq_example :
    tm2tamp leap_february 8 + 8 * 3600
    ≡ (days_since_1970 leap_february + (if is_leap 2024 && 1 == 1 then 1 else 0)) * 86400
      + 12 * 3600
      + 0 * 60
      + 0
tm2tamp-eq_example = tm2tamp-eq leap_february 8 (omega arith) (omega arith)
