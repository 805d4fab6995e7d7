-- ===== src/Occurrence/Dates.antt =====
-- app/control_occurrences.py: `_add_months` and the loop over due dates, with the parts of Python's
-- `datetime.date` and `calendar` that they use.
use Prim.Native.String.{◌++◌ as string_append}
use minigrc.Prelude.{
  ℕ, zero, suc, String, List, [], ◌∷◌, ◌/◌, ◌%◌, ◌*◌, Bool, true, false, not, ◌&&◌, ◌||◌, ◌+◌, ◌-◌,
  ◌==◌, leb, ltb, if◌then◌else◌, Result, ok, err, value_error, out_of_fuel, ◌>>=◌,
}

pub record Date : Type 0 where
  pub year : ℕ
  pub month : ℕ
  pub day : ℕ

-- `datetime.MAXYEAR`
abbrev pub max_year : ℕ
max_year = 9999

-- `calendar.isleap`
unfoldable pub is_leap : ℕ → Bool
is_leap y = y % 4 == 0 && (not (y % 100 == 0) || y % 400 == 0)

-- the second of `calendar.monthrange`
unfoldable pub days_in_month : ℕ → ℕ → ℕ
days_in_month y m =
    if m == 2
    then (if is_leap y then 29 else 28)
    else if m == 4 || (m == 6 || (m == 9 || m == 11))
    then 30
    else 31

abbrev pub smaller : ℕ → ℕ → ℕ
smaller a b = if leb a b then a else b

-- `a <= b` on dates
unfoldable pub date_le : Date → Date → Bool
date_le a b =
    ltb a.year b.year
    || (a.year == b.year && (ltb a.month b.month || (a.month == b.month && leb a.day b.day)))

-- `_add_months`: `datetime.date` refuses a year after 9999
unfoldable pub add_months : Date → ℕ → Result Date
add_months d months =
    let month_index = d.month - 1 + months in
    let year = d.year + month_index / 12 in
    let month = month_index % 12 + 1 in
    let day = smaller d.day (days_in_month year month) in
    if leb year max_year
    then ok (record { year = year; month = month; day = day })
    else err value_error

-- the `while` loop of `_compute_due_dates` from the current date on, with fuel
unfoldable pub walk_dates : ℕ → ℕ → Date → Date → Result (List Date)
walk_dates zero interval current last = err out_of_fuel
walk_dates (suc n) interval current last = elim (date_le current last) [
  | false ↦ ok []
  | true ↦ add_months current interval >>= λ next.
      walk_dates n interval next last >>= λ rest. ok (current ∷ rest)
]

-- the number of a month among all months
abbrev pub month_number : Date → ℕ
month_number d = 12 * d.year + d.month

-- the loop, with fuel for each month up to the last
unfoldable pub due_dates : ℕ → Date → Date → Result (List Date)
due_dates interval current last = walk_dates (month_number last + 2) interval current last

-- a time: its day, and the microseconds since that day began
pub record Moment : Type 0 where
  pub date : Date
  pub time : ℕ

-- `datetime.time.max`
abbrev pub last_microsecond : ℕ
last_microsecond = 86399999999

-- `_due_at_for_date`
abbrev pub due_at_for_date : Date → Moment
due_at_for_date d = record { date = d; time = last_microsecond }

unfoldable pub same_date : Date → Date → Bool
same_date a b = a.year == b.year && (a.month == b.month && a.day == b.day)

unfoldable pub same_moment : Moment → Moment → Bool
same_moment a b = same_date a.date b.date && a.time == b.time

-- `a <= b` on times
unfoldable pub moment_le : Moment → Moment → Bool
moment_le a b = if same_date a.date b.date then leb a.time b.time else date_le a.date b.date

unfoldable pub digit_text : ℕ → String
digit_text n =
    if n == 0
    then "0"
    else if n == 1
    then "1"
    else if n == 2
    then "2"
    else if n == 3
    then "3"
    else if n == 4
    then "4"
    else if n == 5
    then "5"
    else if n == 6
    then "6"
    else if n == 7
    then "7"
    else if n == 8
    then "8"
    else "9"

unfoldable pub two_digits : ℕ → String
two_digits n = string_append (digit_text (n / 10 % 10)) (digit_text (n % 10))

-- `.isoformat()` of a date
unfoldable pub isoformat : Date → String
isoformat d = string_append (two_digits (d.year / 100)) (
    string_append (two_digits (d.year % 100)) (
      string_append "-"
        (string_append (two_digits d.month) (string_append "-" (two_digits d.day)))))
