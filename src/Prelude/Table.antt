-- ===== src/Prelude/Table.antt =====
-- A table of rows with a primary key, as one SQLAlchemy session sees it: `session.get`, an
-- attribute written on the row that `get` returns, and `session.add` followed by a flush.
use Prim.Native.Nat.{ℕ}
use mathlib.Core.Path.{◌≡◌}
use mathlib.Core.Option.{Option, none, some}
use mathlib.Core.List.{List, [], ◌∷◌, ◌++◌}
use native.Mathlib.Omega.{arith}
use minigrc.Prelude.Tests.{◌==◌, if◌then◌else◌, Bool-cases}
use minigrc.Prelude.Lists.{All}
use mathlib.Core.Bool.{false}
use mathlib.Core.Logic.{inl, inr}
use minigrc.Prelude.Errors.{Result, ok, err, integrity_error}

module _ {R : Type 0} (key : R → ℕ) where
  -- `session.get(R, j)`
  unfoldable pub get : ℕ → List R → Option R
  get j [] = none
  get j (r ∷ rows) = if key r == j then some r else get j rows

  -- attributes of row `j` are written
  unfoldable pub modify : ℕ → (R → R) → List R → List R
  modify j f [] = []
  modify j f (r ∷ rows) = if key r == j then f r ∷ rows else r ∷ modify j f rows

  -- `session.add(r)`, flushed: a used primary key is an `IntegrityError`
  unfoldable pub insert : R → List R → Result (List R)
  unfolding get
  insert r rows = elim (get (key r) rows) [
    | none ↦ ok (rows ++ r ∷ [])
    | some _ ↦ err integrity_error
  ]

  abbrev pub or_else : Option R → Option R → Option R
  or_else (some a) b = some a
  or_else none b = b

  abbrev pub applied : (R → R) → Option R → Option R
  applied f none = none
  applied f (some r) = some (f r)

  pub get-modify :
      (f : R → R) (keeps : (r : R) → key (f r) ≡ key r) (i j : ℕ) (rows : List R)
      → get i (modify j f rows) ≡ (if j == i then applied f (get j rows) else get i rows)
  unfolding get modify
  get-modify f keeps i j [] = ground arith
  get-modify f keeps i j (r ∷ rows) = ground (arith, keeps r, get-modify f keeps i j rows)

  pub get-append :
      (i : ℕ) (rows : List R) (r : R)
      → get i (rows ++ r ∷ []) ≡ or_else (get i rows) (if key r == i then some r else none)
  unfolding get
  get-append i [] r = ground arith
  get-append i (x ∷ rows) r = ground (arith, get-append i rows r)

  pub key-get : (j : ℕ) (rows : List R) (r : R) → get j rows ≡ some r → key r ≡ j
  unfolding get
  key-get j [] r h = cc
  key-get j (x ∷ rows) r h = ground (arith, key-get j rows r)

  pub insert-ok :
      (r : R) (rows : List R) {rows' : List R}
      → insert r rows ≡ ok rows'
      → (get (key r) rows ≡ none) × (rows' ≡ rows ++ r ∷ [])
  unfolding insert
  insert-ok r rows h = ground arith

  -- no two rows share their primary key
  abbrev pub IsKeyed : List R → Type 0
  IsKeyed [] = Unit
  IsKeyed (r ∷ rows) = All (λ x. (key r == key x) ≡ false) rows × IsKeyed rows

  keyed_after :
      (r : R) (all rows : List R)
      → All (λ x. (key r == key x) ≡ false) rows
      → All (λ x. get (key x) all ≡ some x) rows
      → All (λ x. get (key x) (r ∷ all) ≡ some x) rows
  unfolding get
  keyed_after r all [] h k = tt
  keyed_after r all (x ∷ rows) h k = (rw (h.0) k.0, keyed_after r all rows h.1 k.1)

  -- with unique keys, each row is the one that its key finds
  pub IsKeyed-get : (rows : List R) → IsKeyed rows → All (λ x. get (key x) rows ≡ some x) rows
  unfolding get
  IsKeyed-get [] h = tt
  IsKeyed-get (r ∷ rows) h = (ground arith, keyed_after r rows rows h.0 (IsKeyed-get rows h.1))

  modify-fresh :
      (f : R → R) (keeps : (r : R) → key (f r) ≡ key r) (r : R) (j : ℕ) (rows : List R)
      → All (λ x. (key r == key x) ≡ false) rows
      → All (λ x. (key r == key x) ≡ false) (modify j f rows)
  unfolding modify
  modify-fresh f keeps r j [] h = tt
  modify-fresh f keeps r j (x ∷ rows) h = elim (Bool-cases (key x == j)) [
    | inl p ↦ rw p (rw (keeps x) h.0, h.1)
    | inr p ↦ rw p (h.0, modify-fresh f keeps r j rows h.1)
  ]

  pub modify-IsKeyed :
      (f : R → R) (keeps : (r : R) → key (f r) ≡ key r) (j : ℕ) (rows : List R)
      → IsKeyed rows
      → IsKeyed (modify j f rows)
  unfolding modify
  modify-IsKeyed f keeps j [] h = tt
  modify-IsKeyed f keeps j (x ∷ rows) h = elim (Bool-cases (key x == j)) [
    | inl p ↦ rw p (rw (keeps x) h.0, h.1)
    | inr p ↦ rw p (modify-fresh f keeps x j rows h.0, modify-IsKeyed f keeps j rows h.1)
  ]
