-- ===== src/InspectObject/Pages.antt =====
-- The pages of a version's blocks, and the states of versions: frontend/src/lib/inspect-object.ts.
use native.Mathlib.Nat.{min-zero, sub_self, suc-min-suc, zero-min}
use garage_admin_console.Base.{
  ℕ, ◌+◌, ◌-◌, ◌*◌, ap, ◌∙◌, suc, zero, ◌≡◌, ◌<◌, ◌≤◌, refl, ◌↔◌, min, some, List, [], ◌∷◌, map,
  Text, arith, length, take,
}
use garage_admin_console.Api.{InspectObjectBlock, VersionFlags}
use garage_admin_console.Locale.{Locale}
use garage_admin_console.InspectObject.{
  block_page_size, block_row, flag_count, next_block_limit, unknown, complete, version_state,
  visible_block_rows, VisibleRows,
}

take-min {ℓ} : {A : Type ℓ} (n : ℕ) (xs : List A) → take (min n (length xs)) xs ≡ take n xs
take-min zero xs = ap (λ k. take k xs) (zero-min (length xs))
take-min (suc n) [] = ap (λ k. take k []) (min-zero (suc n))
take-min (suc n) (x ∷ xs) =
    ap (λ k. take k (x ∷ xs)) (suc-min-suc n (length xs)) ∙ ap (λ ys. x ∷ ys) (take-min n xs)

take-all {ℓ} : {A : Type ℓ} (n : ℕ) (xs : List A) → length xs ≤ n → take n xs ≡ xs
take-all zero [] h = refl
take-all zero (x ∷ xs) h = absurd (omega arith)
take-all (suc n) [] h = refl
take-all (suc n) (x ∷ xs) h = ap (λ ys. x ∷ ys) (take-all n xs (omega arith))

-- The limit after `n` more pages.
abbrev pub limit_after : ℕ → ℕ → ℕ → ℕ
limit_after zero current total = current
limit_after (suc n) current total = limit_after n (next_block_limit current total) total

-- As far as there are blocks, each page adds its size to the limit.
limit_after-pages :
    (n current total : ℕ)
    → min (limit_after n current total) total ≡ min (current + n * block_page_size) total
unfolding next_block_limit
limit_after-pages zero current total = omega arith
limit_after-pages (suc n) current total =
    limit_after-pages n (next_block_limit current total) total ∙ omega arith

module _ (l : Locale) (format_bytes : ℕ → Text) (blocks : List InspectObjectBlock) where
  -- The table after `n` presses of 「さらに表示」.
  abbrev pub pages : ℕ → ℕ → VisibleRows
  pages limit n =
      visible_block_rows l format_bytes (some blocks) (limit_after n limit (length blocks))

  pages-rows :
      (limit n : ℕ)
      → (pages limit n).rows
        ≡ map (block_row l format_bytes) (take (limit + n * block_page_size) blocks)
  unfolding visible_block_rows
  pages-rows limit n =
      rw (limit_after-pages n limit (length blocks))
        (ap (map (block_row l format_bytes)) (take-min (limit + n * block_page_size) blocks))

  pages-remaining :
      (limit n : ℕ) → (pages limit n).remaining ≡ length blocks - (limit + n * block_page_size)
  unfolding visible_block_rows
  pages-remaining limit n = rw (limit_after-pages n limit (length blocks)) (omega arith)

  pages-all :
      (limit : ℕ)
      → pages limit (length blocks)
        ≡ record { rows = map (block_row l format_bytes) blocks; remaining = 0 }
  unfolding visible_block_rows
  pages-all limit =
      let total = length blocks in
      let whole : min (limit_after total limit total) total ≡ total =
        omega (arith, limit_after-pages total limit total) in
      rw (whole, take-all total blocks (omega arith), sub_self total) refl

  -- After `n` presses of 「さらに表示」 the table has the rows of as many first blocks, in their order,
  -- as the first limit and `n` pages allow, and counts the others as remaining. Some number of
  -- presses shows the row of every block, and none remains.
  pub visible_block_rows-pages :
      (limit n : ℕ)
      → ((pages limit n).rows
          ≡ map (block_row l format_bytes) (take (limit + n * block_page_size) blocks))
        × ((pages limit n).remaining ≡ length blocks - (limit + n * block_page_size))
        × ((m : ℕ) × (pages limit m
              ≡ record { rows = map (block_row l format_bytes) blocks; remaining = 0 }))
  visible_block_rows-pages limit n =
      (pages-rows limit n, pages-remaining limit n, (length blocks, pages-all limit))

-- A version's state is unknown exactly if more than one of its flags is set, and complete exactly if
-- none is.
pub version_state_iff :
    (v : VersionFlags)
    → (((version_state v).kind ≡ unknown) ↔ (1 < flag_count v))
      × (((version_state v).kind ≡ complete) ↔ (flag_count v ≡ 0))
unfolding version_state
version_state_iff v = ground arith
