-- ===== src/TimeStamp/Format.antt =====
-- `getFormatTimeStamp` of src/TimeStamp.cpp, and what a reader of its text finds. `localtime_r`,
-- with the time zone that the method sets, is an argument.
use cpplib.Prelude.{
  ℕ, suc, ◌+◌, ◌≤◌, ◌<◌, ℤ, pos, negsuc, ◌+ℤ◌, Option, none, some, List, [], ◌∷◌, ◌++◌, Text,
  length, length-append, take, drop, take-append, drop-append, take_all, ◌≡◌, refl, ◌∙◌, ap, arith,
}
use cpplib.Decimal.{to_string, value, value-to_string}
use cpplib.Decimal.Width.{power, pad, length-pad, value-pad, length-to_string}
use cpplib.TimeStamp.{TimeStamp, to_u64}

-- `struct tm`; `localtime_r` counts months from 0 and years from 1900.
pub record Tm : Type 0 where
  pub tm_year : ℤ
  pub tm_mon : ℕ
  pub tm_mday : ℕ
  pub tm_hour : ℕ
  pub tm_min : ℕ
  pub tm_sec : ℕ

-- `%04d`: a minus counts as one of the four.
unfoldable pub print_year : ℤ → Text
print_year (pos n) = pad 4 n
print_year (negsuc n) = b'-' ∷ pad 3 (suc n)

-- What `snprintf` would write with no limit.
unfoldable pub print_time : Tm → ℤ → Text
unfolding print_year
print_time tm usec =
    print_year (tm.tm_year +ℤ pos 1900)
    ++ (pad 2 (tm.tm_mon + 1)
        ++ (pad 2 tm.tm_mday
            ++ b' '
              ∷ (pad 2 tm.tm_hour
                  ++ (pad 2 tm.tm_min ++ (pad 2 tm.tm_sec ++ b'.' ∷ to_string (to_u64 usec))))))

-- The buffer has 32 bytes, the last one of which is the zero.
unfoldable pub get_format_time_stamp : Option Tm → TimeStamp → Text
unfolding print_time
get_format_time_stamp none ts = []
get_format_time_stamp (some tm) ts = take 31 (print_time tm ts.micro_seconds)

-- The numbers in a text, at widths that are known, each behind some bytes that are passed over; the
-- last one takes the rest.
abbrev pub read : List (ℕ × ℕ) → Text → List ℕ
read [] s = value 0 (drop 1 s) ∷ []
read ((skip, width) ∷ fields) s =
    value 0 (take width (drop skip s)) ∷ read fields (drop width (drop skip s))

abbrev pub clock_layout : List (ℕ × ℕ)
clock_layout = (1, 2) ∷ (0, 2) ∷ (0, 2) ∷ []

abbrev pub layout : List (ℕ × ℕ)
layout = (0, 4) ∷ (0, 2) ∷ (0, 2) ∷ clock_layout

-- What `localtime_r` documents, up to the year 9999.
pub record IsTm (tm : Tm) (year : ℕ) : Type 0 where
  pub calendar : tm.tm_year +ℤ pos 1900 ≡ pos year
  pub small : year < 10_000
  pub mon : tm.tm_mon < 12
  pub mday : tm.tm_mday < 32
  pub hour : tm.tm_hour < 24
  pub min : tm.tm_min < 60
  pub sec : tm.tm_sec < 61

-- A field at the front of a text.
front :
    (w n : ℕ) (rest : Text) → n < power (suc w) → value 0 (take (suc w) (pad (suc w) n ++ rest)) ≡ n
front w n rest h =
    ap (value 0) (take-append (suc w) (pad (suc w) n) rest (length-pad w n h)) ∙ value-pad (suc w) n

behind : (w n : ℕ) (rest : Text) → n < power (suc w) → drop (suc w) (pad (suc w) n ++ rest) ≡ rest
behind w n rest h = drop-append (suc w) (pad (suc w) n) rest (length-pad w n h)

read-pad :
    (w n : ℕ) (fields : List (ℕ × ℕ)) (rest : Text)
    → n < power (suc w)
    → read ((0, suc w) ∷ fields) (pad (suc w) n ++ rest) ≡ n ∷ read fields rest
read-pad w n fields rest h = cc (front w n rest h, ap (read fields) (behind w n rest h))

module _ (tm : Tm) (year usec : ℕ) (t : IsTm tm year) (within : usec < 1_000_000) where
  abbrev numbers : List ℕ
  numbers = year ∷ (tm.tm_mon + 1) ∷ tm.tm_mday ∷ tm.tm_hour ∷ tm.tm_min ∷ tm.tm_sec ∷ usec ∷ []

  abbrev clock : Text
  clock = pad 2 tm.tm_hour ++ (pad 2 tm.tm_min ++ (pad 2 tm.tm_sec ++ b'.' ∷ to_string usec))

  print_lem :
      print_time tm (pos usec)
      ≡ pad 4 year ++ (pad 2 (tm.tm_mon + 1) ++ (pad 2 tm.tm_mday ++ b' ' ∷ clock))
  unfolding print_time print_year
  print_lem =
      let cast : to_u64 (pos usec) ≡ usec = omega (arith, within) in rw (t.calendar, cast) refl

  read-clock : read clock_layout (b' ' ∷ clock) ≡ tm.tm_hour ∷ tm.tm_min ∷ tm.tm_sec ∷ usec ∷ []
  read-clock =
      let seconds = pad 2 tm.tm_sec ++ b'.' ∷ to_string usec in
      let last : read [] (b'.' ∷ to_string usec) ≡ usec ∷ [] =
        ap (λ (n : ℕ). n ∷ []) (value-to_string usec) in
      read-pad 1 tm.tm_hour ((0, 2) ∷ (0, 2) ∷ []) (pad 2 tm.tm_min ++ seconds)
        (omega (arith, t.hour))
      ∙ ap (λ (l : List ℕ). tm.tm_hour ∷ l)
          (read-pad 1 tm.tm_min ((0, 2) ∷ []) seconds (omega (arith, t.min))
            ∙ ap (λ (l : List ℕ). tm.tm_min ∷ l)
                (read-pad 1 tm.tm_sec [] (b'.' ∷ to_string usec) (omega (arith, t.sec))
                  ∙ ap (λ (l : List ℕ). tm.tm_sec ∷ l) last))

  read-print : read layout (print_time tm (pos usec)) ≡ numbers
  read-print =
      let days = pad 2 tm.tm_mday ++ b' ' ∷ clock in
      ap (read layout) print_lem
      ∙ read-pad 3 year ((0, 2) ∷ (0, 2) ∷ clock_layout) (pad 2 (tm.tm_mon + 1) ++ days)
          (omega (arith, t.small))
      ∙ ap (λ (l : List ℕ). year ∷ l)
          (read-pad 1 (tm.tm_mon + 1) ((0, 2) ∷ clock_layout) days (omega (arith, t.mon))
            ∙ ap (λ (l : List ℕ). (tm.tm_mon + 1) ∷ l)
                (read-pad 1 tm.tm_mday clock_layout (b' ' ∷ clock) (omega (arith, t.mday))
                  ∙ ap (λ (l : List ℕ). tm.tm_mday ∷ l) read-clock))

  length-clock : length clock ≤ 13
  length-clock =
      let last = b'.' ∷ to_string usec in
      let seconds = pad 2 tm.tm_sec ++ last in
      omega (
        arith,
        length-append (pad 2 tm.tm_hour) (pad 2 tm.tm_min ++ seconds),
        length-append (pad 2 tm.tm_min) seconds,
        length-append (pad 2 tm.tm_sec) last,
        length-pad 1 tm.tm_hour (omega (arith, t.hour)),
        length-pad 1 tm.tm_min (omega (arith, t.min)),
        length-pad 1 tm.tm_sec (omega (arith, t.sec)),
        length-to_string 5 usec within,
      )

  length-print : length (print_time tm (pos usec)) ≤ 22
  length-print =
      let days = pad 2 tm.tm_mday ++ b' ' ∷ clock in
      rw print_lem (
        omega (
          arith,
          length-append (pad 4 year) (pad 2 (tm.tm_mon + 1) ++ days),
          length-append (pad 2 (tm.tm_mon + 1)) days,
          length-append (pad 2 tm.tm_mday) (b' ' ∷ clock),
          length-pad 3 year (omega (arith, t.small)),
          length-pad 1 (tm.tm_mon + 1) (omega (arith, t.mon)),
          length-pad 1 tm.tm_mday (omega (arith, t.mday)),
          length-clock,
        ))

  -- From the text of a time whose year is before 10000 and whose microseconds are less than a
  -- second, each part is read back, at its place in the text: the year, the month from 1, the day,
  -- the hour, the minute, the second and the microseconds. The buffer takes the whole text.
  pub format_reads :
      (seconds : ℤ)
      → let ts : TimeStamp = record { seconds = seconds; micro_seconds = pos usec } in
        (read layout (get_format_time_stamp (some tm) ts)
          ≡ year ∷ (tm.tm_mon + 1) ∷ tm.tm_mday ∷ tm.tm_hour ∷ tm.tm_min ∷ tm.tm_sec ∷ usec ∷ [])
        × (length (get_format_time_stamp (some tm) ts) ≤ 22)
  unfolding get_format_time_stamp
  format_reads seconds =
      let whole = take_all 31 (print_time tm (pos usec)) (omega (arith, length-print)) in
      rw whole (read-print, length-print)
