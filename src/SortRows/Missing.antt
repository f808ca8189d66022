-- ===== src/SortRows/Missing.antt =====
-- Where the rows without a value stand: `sortRows` of frontend/src/lib/sort.ts.
use garage_admin_console.Base.{
  Ordering, ◌≡◌, refl, Bool, true, false, not, List, [], ◌∷◌, ◌++◌, Text, arith, All, All-filter,
  All-map_of, inl, inr, Bool-cases, filter,
}
use garage_admin_console.Base.Sorting.{sort, insert, sort-All}
use garage_admin_console.Locale.{Locale}
use garage_admin_console.SortRows.{
  SortNumbers, SortState, SortValue, is_missing, compare_sort_values, sort_rows,
}

module _ {ℓ} {T : Type ℓ} (l : Locale) (nums : SortNumbers) (s : SortState)
    (value : T → Text → SortValue nums.Number) where
  abbrev is_last : T → Bool
  is_last row = is_missing (value row s.key)

  abbrev row_order : T → T → Ordering
  row_order a b = compare_sort_values l nums s.direction (value a s.key) (value b s.key)

  insert-present :
      (x : T) (ys ms : List T)
      → is_last x ≡ false
      → All (λ m. is_last m ≡ true) ms
      → insert row_order x (ys ++ ms) ≡ insert row_order x ys ++ ms
  unfolding insert compare_sort_values
  insert-present x [] [] there last = refl
  insert-present x [] (m ∷ ms) there (gone, last) = rw (there, gone) refl
  insert-present x (y ∷ ys) ms there last = ground (arith, insert-present x ys ms there last)

  insert-missing :
      (x : T) (ys ms : List T)
      → is_last x ≡ true
      → All (λ y. is_last y ≡ false) ys
      → All (λ m. is_last m ≡ true) ms
      → insert row_order x (ys ++ ms) ≡ ys ++ (x ∷ ms)
  unfolding insert compare_sort_values
  insert-missing x [] [] gone there last = refl
  insert-missing x [] (m ∷ ms) gone there (gone', last) = rw (gone, gone') refl
  insert-missing x (y ∷ ys) ms gone (there, theres) last =
      rw (insert-missing x ys ms gone theres last, gone, there) refl

  -- Rows without a value come last in both directions, in the order that they had, after the other
  -- rows as these are sorted on their own.
  pub sort_rows-missing_last :
      (rows : List T)
      → sort_rows l nums rows s value
        ≡ sort_rows l nums (filter (λ r. not (is_missing (value r s.key))) rows) s value
          ++ filter (λ r. is_missing (value r s.key)) rows
  unfolding sort_rows sort
  sort_rows-missing_last [] = refl
  sort_rows-missing_last (x ∷ rows) =
      let present = filter (λ r. not (is_last r)) rows in
      let gone = filter is_last rows in
      elim (Bool-cases (is_last x)) [
        | inl missing ↦
            rw (sort_rows-missing_last rows, missing)
              (insert-missing x (sort row_order present) gone missing
                (sort-All row_order (λ r. is_last r ≡ false) present
                  (All-map_of (λ r e. ground arith) present
                    (All-filter (λ r. not (is_last r)) rows)))
                (All-filter is_last rows))
        | inr there ↦
            rw (sort_rows-missing_last rows, there)
              (insert-present x (sort row_order present) gone there (All-filter is_last rows))
      ]
