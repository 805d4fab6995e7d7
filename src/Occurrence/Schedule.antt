-- ===== src/Occurrence/Schedule.antt =====
-- The loop over due dates ends, and what it gives.
use minigrc.Prelude.{
  ℕ, zero, suc, List, [], ◌∷◌, ◌/◌, ◌%◌, true, false, ◌+◌, ◌-◌, ◌≤◌, ◌≡◌, leb, length, Bool-cases,
  inl, inr, ok, arith,
}
use minigrc.Occurrence.Dates.{
  Date, max_year, days_in_month, date_le, add_months, walk_dates, month_number, due_dates, smaller,
}

abbrev pub IsDate : Date → Type 0
IsDate d = (1 ≤ d.month) × (d.month ≤ 12) × (1 ≤ d.day) × (d.day ≤ days_in_month d.year d.month)

days-positive : (y m : ℕ) → 28 ≤ days_in_month y m
unfolding days_in_month
days-positive y m = ground arith

-- what a date becomes some months later
abbrev pub IsLater : ℕ → Date → Date → Type 0
IsLater months d next =
    (month_number next ≡ month_number d + months) × IsDate next × (next.day ≤ d.day)

later :
    (d : Date) (months : ℕ)
    → IsDate d
    → month_number d + months ≤ 120000
    → (next : Date) × (add_months d months ≡ ok next) × IsLater months d next
unfolding add_months
later d months h bound =
    let index = d.month - 1 + months in
    let year = d.year + index / 12 in
    let month = index % 12 + 1 in
    let day = smaller d.day (days_in_month year month) in
    let in_range : leb year max_year ≡ true = ground (arith, h, bound) in
    let next : Date = record { year = year; month = month; day = day } in
    let long = days-positive year month in
    (
      next,
      ground (arith, in_range),
      (
        omega (arith, h.0, h.1),
        (omega arith, omega arith, ground (arith, h, long), ground arith),
        ground arith,
      ),
    )

-- the dates of a loop from `current`: the first is `current`, each next one comes `interval` months
-- later, all but none after the last date, and the first that would be after it ends the loop
pub data IsSchedule (interval : ℕ) (last : Date) : Date → List Date → Type 0 where
  ended : {current : Date} → date_le current last ≡ false → IsSchedule interval last current []
  due :
      {current next : Date} {dates : List Date}
      → date_le current last ≡ true
      → add_months current interval ≡ ok next
      → IsLater interval current next
      → IsSchedule interval last next dates
      → IsSchedule interval last current (current ∷ dates)

le-month_number :
    (a b : Date) → IsDate a → IsDate b → date_le a b ≡ true → month_number a ≤ month_number b
unfolding date_le
le-month_number a b h k p = ground (arith, h, k, p)

-- enough fuel gives the schedule
walked :
    (n interval : ℕ) (current last : Date)
    → 1 ≤ n
    → month_number last + 2 ≤ n + month_number current
    → 1 ≤ interval
    → month_number last + interval ≤ 120000
    → IsDate current
    → IsDate last
    → (dates : List Date) × (walk_dates n interval current last ≡ ok dates)
      × IsSchedule interval last current dates
      × (length dates ≤ month_number last + 1 - month_number current)
unfolding walk_dates
walked zero interval current last some_fuel fuel positive bound h k =
    absurd (omega (arith, some_fuel))
walked (suc n) interval current last some_fuel fuel positive bound h k =
    elim (Bool-cases (date_le current last)) [
      | inr p ↦ ([], ground (arith, p), ended p, omega arith)
      | inl p ↦
          let before = le-month_number current last h k p in
          let (next, e, step) = later current interval h (omega (arith, before, bound)) in
          let (number, valid, day) = step in
          let (dates, e', schedule, count) =
            walked n interval next last (omega (arith, before, fuel))
              (omega (arith, fuel, number, positive)) positive bound valid k in
          (
            current ∷ dates,
            ground (arith, p, e, e'),
            due p e step schedule,
            omega (arith, count, number, before, positive),
          )
    ]

-- For a positive interval, valid dates, and a last date that is an interval before the end of the year
-- 9999, the loop over due dates ends without an exception. It gives the schedule from the first date:
-- each date is the one before it moved by the interval in months, to a valid date of the month that
-- many months later, and all dates up to the last are given and none after it; there are at most as many as
-- months from the first date's to the last one's.
pub due_dates-IsSchedule :
    (interval : ℕ) (first last : Date)
    → 1 ≤ interval
    → month_number last + interval ≤ 120000
    → IsDate first
    → IsDate last
    → (dates : List Date) × (due_dates interval first last ≡ ok dates)
      × IsSchedule interval last first dates
      × (length dates ≤ month_number last + 1 - month_number first)
unfolding due_dates
due_dates-IsSchedule interval first last positive bound h k =
    walked (month_number last + 2) interval first last (omega arith) (omega arith) positive bound h
      k
