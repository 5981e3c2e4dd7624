-- ===== src/Tests/Stamps.antt =====
-- Texts of times and of the ids of threads.
use cpplib.Prelude.{
  ◌≤◌, pos, negsuc, ◌+ℤ◌, true, false, some, [], ◌∷◌, codes, length, ◌≡◌, refl, arith,
}
use cpplib.Decimal.{to_string}
use cpplib.Decimal.Width.{pad}
use cpplib.TimeStamp.{TimeStamp}
use cpplib.TimeStamp.Format.{Tm, IsTm, read, layout, get_format_time_stamp, format_reads}
use cpplib.OsUtils.{signal_mask}

abbrev leap_day : Tm
leap_day = record {
  tm_year = pos 124;
  tm_mon = 1;
  tm_mday = 29;
  tm_hour = 23;
  tm_min = 59;
  tm_sec = 60;
}

leap_day-IsTm : IsTm leap_day 2024
unfolding ◌+ℤ◌
leap_day-IsTm = record {
  calendar = refl;
  small = omega arith;
  mon = omega arith;
  mday = omega arith;
  hour = omega arith;
  min = omega arith;
  sec = omega arith;
}

abbrev stamp : TimeStamp
stamp = record { seconds = pos 1_709_222_400; micro_seconds = pos 5 }

format_reads_example :
    (read layout (get_format_time_stamp (some leap_day) stamp)
      ≡ 2024 ∷ 2 ∷ 29 ∷ 23 ∷ 59 ∷ 60 ∷ 5 ∷ [])
    × (length (get_format_time_stamp (some leap_day) stamp) ≤ 22)
format_reads_example = format_reads leap_day 2024 5 leap_day-IsTm (omega arith) (pos 1_709_222_400)

-- The microseconds have no zeros in front: five of them look like half a second.
format_runs : get_format_time_stamp (some leap_day) stamp ≡ codes "20240229 235960.5"
unfolding get_format_time_stamp to_string pad ◌+ℤ◌
format_runs = refl

-- A number that is of no signal is passed over, and the code is that of `pthread_sigmask`.
signal_mask_runs :
    signal_mask
      (λ sig. elim sig [ pos n ↦ true | negsuc n ↦ false ])
      (pos 13 ∷ negsuc 0 ∷ pos 2 ∷ [])
      (pos 0)
    ≡ (pos 0, pos 2 ∷ pos 13 ∷ [])
unfolding signal_mask
signal_mask_runs = refl
