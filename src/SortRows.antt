-- ===== src/SortRows.antt =====
-- frontend/src/lib/sort.ts: the column sort of the tables.
pub mod Missing
use garage_admin_console.Base.{
  ℕ, Ordering, compare, negate, Bool, true, false, Option, none, some, List, [], ◌∷◌, Text, ◌==◌,
  if◌then◌else◌, is_empty, bind_option,
}
use garage_admin_console.Base.Sorting.{sort}
use garage_admin_console.Locale.{Locale, decimal}

pub data SortDirection : Type 0 where
  asc desc : SortDirection

pub record SortState : Type 0 where
  pub key : Text
  pub direction : SortDirection

-- `toggle` of `useSort`: the next state of the column sort.
unfoldable pub toggle : Text → SortState → SortState
toggle key s =
    if s.key == key
    then record { key = key; direction = elim s.direction [ asc ↦ desc | desc ↦ asc ] }
    else record { key = key; direction = asc }

-- JavaScript's numbers, `a - b` as a comparator's result, which counts `NaN` as 0, and `String(n)`:
-- parameters.
pub record SortNumbers : Type 1 where
  pub Number : Type 0
  pub difference : Number → Number → Ordering
  pub text_of : Number → Text

-- `SortValue`; `missing` is both `null` and `undefined`.
pub data SortValue (N : Type 0) : Type 0 where
  missing : SortValue N
  number : N → SortValue N
  string : Text → SortValue N

-- `a === null || a === undefined || a === ''`
abbrev pub is_missing : {N : Type 0} → SortValue N → Bool
is_missing missing = true
is_missing (number n) = false
is_missing (string s) = is_empty s

abbrev directed : SortDirection → Ordering → Ordering
directed asc c = c
directed desc c = negate c

module _ (l : Locale) (nums : SortNumbers) where
  -- `String(a)`
  abbrev string_of : SortValue nums.Number → Text
  string_of missing = []
  string_of (number n) = nums.text_of n
  string_of (string s) = s

  -- The comparison of two values that are there.
  compare_present : SortValue nums.Number → SortValue nums.Number → Ordering
  compare_present (number a) (number b) = nums.difference a b
  compare_present a b = l.compare_base (string_of a) (string_of b)

  -- `compareSortValues`
  unfoldable pub compare_sort_values :
      SortDirection → SortValue nums.Number → SortValue nums.Number → Ordering
  unfolding compare_present
  compare_sort_values direction a b =
      if is_missing a
      then if is_missing b then Ordering.eq else Ordering.gt
      else if is_missing b
      then Ordering.lt
      else directed direction (compare_present a b)

  -- `sortRows`
  unfoldable pub sort_rows {ℓ} :
      {T : Type ℓ} → List T → SortState → (T → Text → SortValue nums.Number) → List T
  sort_rows rows s value =
      sort (λ a b. compare_sort_values s.direction (value a s.key) (value b s.key)) rows

-- `timeValue`, with `Date.parse`, which gives no number for a text that is not a time.
abbrev pub time_value : (Text → Option ℕ) → Option Text → Option ℕ
time_value parse iso = bind_option iso (λ s. if is_empty s then none else parse s)
