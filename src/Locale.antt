-- ===== src/Locale.antt =====
-- What the console takes from the browser's locale data: the three collations and the digit
-- grouping. The collations are parameters; that they order texts consistently is what
-- `Array.prototype.sort` needs of them.
pub mod Digits
pub mod Value
use Prim.Native.Nat.{Ordering}
use garage_admin_console.Base.{
  ℕ, Option, none, some, zero, suc, ◌+◌, ◌/◌, ◌%◌, ◌≡◌, refl, ◌≢◌, [], ◌∷◌, Text, text, compare,
  or_then, negate, arith, ltb, if◌then◌else◌,
}
use garage_admin_console.Base.Sorting.{IsConsistent}

pub record Locale : Type 0 where
  -- `a.localeCompare(b)`
  pub compare_text : Text → Text → Ordering
  pub compare_text-IsConsistent : IsConsistent compare_text
  -- `a.localeCompare(b, 'ja', { numeric: true })`
  pub compare_numeric : Text → Text → Ordering
  pub compare_numeric-IsConsistent : IsConsistent compare_numeric
  -- `new Intl.Collator('ja', { numeric: true, sensitivity: 'base' }).compare(a, b)`
  pub compare_base : Text → Text → Ordering
  pub compare_base-IsConsistent : IsConsistent compare_base
  -- `s.toLowerCase()`
  pub to_lower : Text → Text
  -- `n.toLocaleString('ja-JP')`
  pub format_number : ℕ → Text

-- The order of `<` on strings, which a `sort` without comparator uses: by code units.
unfoldable pub compare_units : Text → Text → Ordering
compare_units [] [] = Ordering.eq
compare_units [] (d ∷ t) = Ordering.lt
compare_units (c ∷ s) [] = Ordering.gt
compare_units (c ∷ s) (d ∷ t) = or_then (compare c d) (compare_units s t)

compare_units-swap : (s t : Text) → compare_units t s ≡ negate (compare_units s t)
unfolding compare_units
compare_units-swap [] [] = refl
compare_units-swap [] (d ∷ t) = refl
compare_units-swap (c ∷ s) [] = refl
compare_units-swap (c ∷ s) (d ∷ t) = ground (arith, compare_units-swap s t)

compare_units_trans :
    (s t u : Text)
    → compare_units s t ≢ Ordering.gt
    → compare_units t u ≢ Ordering.gt
    → compare_units s u ≢ Ordering.gt
unfolding compare_units
compare_units_trans [] t [] p q = cc
compare_units_trans [] t (e ∷ u) p q = cc
compare_units_trans (c ∷ s) [] u p q = absurd (p refl)
compare_units_trans (c ∷ s) (d ∷ t) [] p q = absurd (q refl)
compare_units_trans (c ∷ s) (d ∷ t) (e ∷ u) p q = ground (arith, compare_units_trans s t u)

pub compare_units-IsConsistent : IsConsistent compare_units
compare_units-IsConsistent = record { swap = compare_units-swap; trans = compare_units_trans }

-- `String(n)`
digits_from : ℕ → ℕ → Text → Text
digits_from zero n acc = acc
digits_from (suc fuel) n acc =
    let digit = b'0' + n % 10 in
    let rest = digits_from fuel (n / 10) (digit ∷ acc) in if ltb n 10 then digit ∷ acc else rest

-- `n` has at most `n + 1` digits.
unfoldable pub decimal : ℕ → Text
unfolding digits_from
decimal n = digits_from (suc n) n []

-- `formatCount` of frontend/src/lib/format.ts
unfoldable pub format_count : Locale → Option ℕ → Text
format_count l none = text "-"
format_count l (some n) = l.format_number n
