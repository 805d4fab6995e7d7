-- ===== src/Connector/Version/Reads.antt =====
-- A version that validation accepts is read, however it is written.
use minigrc.Prelude.{
  ℕ, List, [], ◌∷◌, ◌++◌, append-nil, some, true, false, ◌+◌, ◌*◌, ◌≤◌, ◌==◌, ==_iff, All, is_space,
  ok, arith, ◌≡◌, refl, Bool-cases, Option-cases, inl, inr, subst, ap, leb,
}
use minigrc.Connector.Version.{
  is_digit, digit_value, digit_from, skip_digits, some_digits, full_stop, number_and_stop, at_end,
  is_semver, split_stops, rest_of_int, read_int, count_digits, int_of, int_max_str_digits, Semver,
  version_of_parts, semver_tuple,
}

abbrev IsDigits : List ℕ → Type 0
IsDigits = All (λ c. is_digit c ≡ true)

stop_is_no_digit : is_digit 46 ≡ false
unfolding digit_value digit_from
stop_is_no_digit = refl

digit_is_no_stop : (c : ℕ) → is_digit c ≡ true → (c == 46) ≡ false
digit_is_no_stop c d = elim (Bool-cases (c == 46)) [
  | inr p ↦ p
  | inl p ↦ absurd (ground (arith, stop_is_no_digit, ap (λ x. is_digit x) ((==_iff c 46).0 p), d))
]

-- digits up to a full stop are the first part
stopped-IsDigits :
    (s : List ℕ) {s' : List ℕ}
    → full_stop (skip_digits s) ≡ some s'
    → (ds : List ℕ) × IsDigits ds
      × (split_stops s ≡ ds ∷ split_stops s')
      × (count_digits s ≡ count_digits ds + count_digits s')
unfolding skip_digits full_stop split_stops count_digits
stopped-IsDigits [] h = cc
stopped-IsDigits (c ∷ s) {s'} h = elim (Bool-cases (is_digit c)) [
  | inl d ↦
      let (ds, ds_d, e, n) = stopped-IsDigits s (rw d at h) in
      (c ∷ ds, (d, ds_d), rw (digit_is_no_stop c d, e) refl, ground (arith, d, n))
  | inr d ↦ elim (Bool-cases (c == 46)) [
    | inr p ↦ absurd (ground (arith, h, d, p))
    | inl p ↦
        let same : s ≡ s' = ground (arith, h, d, p) in
        ([], tt, ground (arith, p, same), ground (arith, d, same))
  ]
]

lone_end : (c : ℕ) (s : List ℕ) → at_end (c ∷ s) ≡ true → split_stops (c ∷ s) ≡ (c ∷ s) ∷ []
unfolding split_stops
lone_end c [] h = let p : c ≡ 10 = (==_iff c 10).0 h in rw p refl
lone_end c (x ∷ s) h = cc

-- digits up to the end are the last part
ended-IsDigits :
    (s : List ℕ)
    → at_end (skip_digits s) ≡ true
    → (ds : List ℕ) × IsDigits ds
      × (split_stops s ≡ (ds ++ skip_digits s) ∷ [])
      × (count_digits s ≡ count_digits (ds ++ skip_digits s))
unfolding skip_digits split_stops count_digits
ended-IsDigits [] h = ([], tt, refl, refl)
ended-IsDigits (c ∷ s) h = elim (Bool-cases (is_digit c)) [
  | inl d ↦
      let (ds, ds_d, e, n) = ended-IsDigits s (rw d at h) in
      (c ∷ ds, (d, ds_d), rw (d, digit_is_no_stop c d, e) refl, ground (arith, d, n))
  | inr d ↦ ([], tt, ground (arith, d, lone_end c s (rw d at h)), ground (arith, d))
]

newline_ends : (n : ℕ) → rest_of_int n (10 ∷ []) ≡ ok n
unfolding rest_of_int digit_value digit_from is_space
newline_ends n = refl

rest-ok :
    (n : ℕ) (ds tail : List ℕ)
    → IsDigits ds
    → at_end tail ≡ true
    → (m : ℕ) × (rest_of_int n (ds ++ tail) ≡ ok m)
unfolding rest_of_int
rest-ok n [] [] h e = (n, refl)
rest-ok n [] (c ∷ x ∷ s) h e = cc
rest-ok n [] (c ∷ []) h e = rw ((==_iff c 10).0 e) (n, newline_ends n)
rest-ok n (c ∷ ds) tail h e = elim (Option-cases (digit_value c)) [
  | inl p ↦ absurd (ground (arith, h.0, p))
  | inr (d, p) ↦ let (m, read) = rest-ok (n * 10 + d) ds tail h.1 e in (m, ground (arith, p, read))
]

int-ok :
    (c : ℕ) (ds tail : List ℕ)
    → IsDigits (c ∷ ds)
    → at_end tail ≡ true
    → count_digits (c ∷ ds ++ tail) ≤ int_max_str_digits
    → (m : ℕ) × (int_of (c ∷ ds ++ tail) ≡ ok m)
unfolding int_of read_int
int-ok c ds tail h e few = elim (Option-cases (digit_value c)) [
  | inl p ↦ absurd (ground (arith, h.0, p))
  | inr (d, p) ↦
      let (m, read) = rest-ok d ds tail h.1 e in
      let few' : leb (count_digits (c ∷ ds ++ tail)) int_max_str_digits ≡ true =
        ground (arith, few) in
      (m, ground (arith, p, read, few'))
]

split-digit :
    (c : ℕ) (s : List ℕ) {part : List ℕ} {parts : List (List ℕ)}
    → is_digit c ≡ true
    → split_stops s ≡ part ∷ parts
    → split_stops (c ∷ s) ≡ (c ∷ part) ∷ parts
unfolding split_stops
split-digit c s d e = rw (digit_is_no_stop c d, e) refl

count-digit : (c : ℕ) (s : List ℕ) → is_digit c ≡ true → count_digits (c ∷ s) ≡ 1 + count_digits s
unfolding count_digits
count-digit c s d = ground (arith, d)

-- `\d+\.` matches a part that is a number
stopped_number :
    (s : List ℕ) {s' : List ℕ}
    → number_and_stop s ≡ some s'
    → count_digits s ≤ int_max_str_digits
    → (part : List ℕ) × (m : ℕ) × (split_stops s ≡ part ∷ split_stops s')
      × (int_of part ≡ ok m)
      × (count_digits s' ≤ int_max_str_digits)
unfolding number_and_stop some_digits
stopped_number [] h few = cc
stopped_number (c ∷ s) {s'} h few = elim (Bool-cases (is_digit c)) [
  | inr d ↦ absurd (ground (arith, h, d))
  | inl d ↦
      let (ds, ds_d, e, n) = stopped-IsDigits s (rw (d, number_and_stop) at h) in
      let nil : ds ++ [] ≡ ds = append-nil ds in
      let (m, read) =
        int-ok c ds [] (d, ds_d) refl
          (rw nil (omega (arith, n, few, count-digit c s d, count-digit c ds d))) in
      (
        c ∷ ds,
        m,
        split-digit c s d e,
        subst (λ x. int_of (c ∷ x) ≡ ok m) nil read,
        omega (arith, n, few, count-digit c s d),
      )
]

-- `\d+$` matches a part that is a number
ended_number :
    (s : List ℕ) {rest : List ℕ}
    → some_digits s ≡ some rest
    → at_end rest ≡ true
    → count_digits s ≤ int_max_str_digits
    → (part : List ℕ) × (m : ℕ) × (split_stops s ≡ part ∷ []) × (int_of part ≡ ok m)
unfolding some_digits
ended_number [] h end few = cc
ended_number (c ∷ s) {rest} h end few = elim (Bool-cases (is_digit c)) [
  | inr d ↦ absurd (ground (arith, h, d))
  | inl d ↦
      let same : rest ≡ skip_digits s = ground (arith, h, d) in
      let end' = rw same at end in
      let (ds, ds_d, e, n) = ended-IsDigits s end' in
      let (m, read) =
        int-ok c ds (skip_digits s) (d, ds_d) end'
          (omega (arith, n, few, count-digit c s d, count-digit c (ds ++ skip_digits s) d)) in
      (c ∷ ds ++ skip_digits s, m, split-digit c s d e, read)
]

-- Every version that the manifest check accepts, a final line feed included, has three numbers,
-- which the comparison of versions reads, if it has at most 4300 digits, more than which `int`
-- refuses.
pub accepted_is_read :
    (version : List ℕ)
    → is_semver version ≡ true
    → count_digits version ≤ int_max_str_digits
    → (v : Semver) × (semver_tuple version ≡ ok v)
unfolding is_semver semver_tuple version_of_parts
accepted_is_read s h few = elim (Option-cases (number_and_stop s)) [
  | inl p ↦ absurd (ground (arith, h, p))
  | inr (s', p) ↦ elim (Option-cases (number_and_stop s')) [
    | inl q ↦ absurd (ground (arith, h, p, q))
    | inr (s'', q) ↦ elim (Option-cases (some_digits s'')) [
      | inl r ↦ absurd (ground (arith, h, p, q, r))
      | inr (rest, r) ↦
          let (x, major, e, i, few') = stopped_number s p few in
          let (y, minor, e', i', few'') = stopped_number s' q few' in
          let (z, patch, e'', i'') = ended_number s'' r (rw (p, q, r, is_semver) at h) few'' in
          (
            record { major = major; minor = minor; patch = patch },
            ground (arith, e, e', e'', i, i', i''),
          )
    ]
  ]
]
