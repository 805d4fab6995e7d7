-- ===== src/Connector/Version.antt =====
-- app/connectors/manifest.py (`_SEMVER_RE`) and app/connector_lifecycle.py (`_semver_tuple`): the
-- versions of connectors, as code points.
pub mod Reads
use minigrc.Prelude.{
  is_some, ℕ, List, [], ◌∷◌, Option, none, some, Bool, true, false, ◌&&◌, ◌||◌, ◌+◌, ◌-◌, ◌*◌, ◌==◌,
  leb, ltb, if◌then◌else◌, all, is_space, Result, ok, err, require, value_error, ◌>>=◌, ◌>>◌,
}

-- the first of each ten decimal digits of Unicode, which `\\d` and `int` both read
abbrev pub digit_zeros : List ℕ
digit_zeros =
    48 ∷ 1632 ∷ 1776 ∷ 1984 ∷ 2406 ∷ 2534 ∷ 2662 ∷ 2790 ∷ 2918 ∷ 3046 ∷ 3174 ∷ 3302 ∷ 3430 ∷ 3558
    ∷ 3664 ∷ 3792 ∷ 3872 ∷ 4160 ∷ 4240 ∷ 6112 ∷ 6160 ∷ 6470 ∷ 6608 ∷ 6784 ∷ 6800 ∷ 6992 ∷ 7088
    ∷ 7232 ∷ 7248 ∷ 42528 ∷ 43216 ∷ 43264 ∷ 43472 ∷ 43504 ∷ 43600 ∷ 44016 ∷ 65296 ∷ 66720 ∷ 68912
    ∷ 69734 ∷ 69872 ∷ 69942 ∷ 70096 ∷ 70384 ∷ 70736 ∷ 70864 ∷ 71248 ∷ 71360 ∷ 71472 ∷ 71904 ∷ 72016
    ∷ 72784 ∷ 73040 ∷ 73120 ∷ 92768 ∷ 92864 ∷ 93008 ∷ 120782 ∷ 120792 ∷ 120802 ∷ 120812 ∷ 120822
    ∷ 123200 ∷ 123632 ∷ 125264 ∷ 130032 ∷ []

unfoldable pub digit_from : List ℕ → ℕ → Option ℕ
digit_from [] c = none
digit_from (z ∷ zeros) c = if leb z c && ltb c (z + 10) then some (c - z) else digit_from zeros c

unfoldable pub digit_value : ℕ → Option ℕ
unfolding digit_from
digit_value c = digit_from digit_zeros c

abbrev pub is_digit : ℕ → Bool
is_digit c = is_some (digit_value c)

-- what `\d*` leaves of a text
unfoldable pub skip_digits : List ℕ → List ℕ
skip_digits [] = []
skip_digits (c ∷ s) = let rest = skip_digits s in if is_digit c then rest else c ∷ s

-- what `\d+` leaves of a text, if it matches
unfoldable pub some_digits : List ℕ → Option (List ℕ)
some_digits [] = none
some_digits (c ∷ s) = if is_digit c then some (skip_digits s) else none

-- what `\.` leaves
unfoldable pub full_stop : List ℕ → Option (List ℕ)
full_stop [] = none
full_stop (c ∷ s) = if c == 46 then some s else none

-- `$` matches at the end, and before a line feed at the end
abbrev pub at_end : List ℕ → Bool
at_end [] = true
at_end (c ∷ []) = c == 10
at_end _ = false

-- what `\d+\.` leaves
unfoldable pub number_and_stop : List ℕ → Option (List ℕ)
number_and_stop s = elim (some_digits s) [ none ↦ none | some rest ↦ full_stop rest ]

-- `_SEMVER_RE.match`: no digit is a full stop, so that the longest match is the only one
unfoldable pub is_semver : List ℕ → Bool
is_semver s = elim (number_and_stop s) [
  | none ↦ false
  | some s' ↦ elim (number_and_stop s') [
    | none ↦ false
    | some s'' ↦ elim (some_digits s'') [ none ↦ false | some rest ↦ at_end rest ]
  ]
]

-- a character is put before the first of the parts
abbrev pub onto_first : ℕ → List (List ℕ) → List (List ℕ)
onto_first c [] = (c ∷ []) ∷ []
onto_first c (part ∷ parts) = (c ∷ part) ∷ parts

-- `.split(".")`
unfoldable pub split_stops : List ℕ → List (List ℕ)
split_stops [] = [] ∷ []
split_stops (c ∷ s) =
    let parts = split_stops s in if c == 46 then [] ∷ parts else onto_first c parts

-- the digits of a number that was begun, and then nothing but spaces
unfoldable pub rest_of_int : ℕ → List ℕ → Result ℕ
rest_of_int n [] = ok n
rest_of_int n (c ∷ s) = elim (digit_value c) [
  | some d ↦ rest_of_int (n * 10 + d) s
  | none ↦ if all is_space (c ∷ s) then ok n else err value_error
]

-- the digits of a number, spaces before it skipped
unfoldable pub read_int : List ℕ → Result ℕ
read_int [] = err value_error
read_int (c ∷ s) =
    let rest = read_int s in
    elim (digit_value c) [
      | some d ↦ rest_of_int d s
      | none ↦ if is_space c then rest else err value_error
    ]

unfoldable pub count_digits : List ℕ → ℕ
count_digits [] = 0
count_digits (c ∷ s) = (if is_digit c then 1 else 0) + count_digits s

-- `sys.get_int_max_str_digits()`
abbrev pub int_max_str_digits : ℕ
int_max_str_digits = 4300

-- `int(part)`. A sign and underscores, which `int` also reads, are refused here: no version that
-- validation accepts has them.
unfoldable pub int_of : List ℕ → Result ℕ
int_of part = require (leb (count_digits part) int_max_str_digits) value_error >> read_int part

pub record Semver : Type 0 where
  pub major : ℕ
  pub minor : ℕ
  pub patch : ℕ

-- `_semver_tuple`
unfoldable pub version_of_parts : List (List ℕ) → Result Semver
version_of_parts (x ∷ y ∷ z ∷ []) = do
  major ← int_of x
  minor ← int_of y
  patch ← int_of z
  ok (record { major = major; minor = minor; patch = patch })
version_of_parts _ = err value_error

unfoldable pub semver_tuple : List ℕ → Result Semver
semver_tuple version = version_of_parts (split_stops version)

-- `v < w` on tuples
unfoldable pub version_lt : Semver → Semver → Bool
version_lt v w =
    ltb v.major w.major
    || (v.major == w.major && (ltb v.minor w.minor || (v.minor == w.minor && ltb v.patch w.patch)))
