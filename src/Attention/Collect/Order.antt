-- ===== src/Attention/Collect/Order.antt =====
-- The order of the attention panel: the sort at the end of `collectAttentionItems` in
-- frontend/src/lib/attention.ts.
use garage_admin_console.Base.{
  ℕ, ◌≡◌, refl, Bool, true, false, not, Option, List, [], ◌∷◌, ◌++◌, Text, filter, arith, All,
  All-filter, All-map_of, Bool-cases, inl, inr,
}
use garage_admin_console.Base.Sorting.{insert, sort}
use garage_admin_console.Locale.{Locale}
use garage_admin_console.Attention.{AttentionInputs, AttentionItem, danger, warning}
use garage_admin_console.Attention.Collect.{all_checks, by_severity, collect_attention_items}

abbrev pub is_danger : AttentionItem → Bool
is_danger i = elim i.severity [ danger ↦ true | warning ↦ false ]

insert-danger :
    (x : AttentionItem) (ys : List AttentionItem)
    → is_danger x ≡ true
    → insert by_severity x ys ≡ x ∷ ys
unfolding insert
insert-danger x [] h = refl
insert-danger x (y ∷ ys) h = ground arith

insert-warning :
    (x : AttentionItem) (ds ws : List AttentionItem)
    → is_danger x ≡ false
    → All (λ d. is_danger d ≡ true) ds
    → All (λ w. is_danger w ≡ false) ws
    → insert by_severity x (ds ++ ws) ≡ ds ++ (x ∷ ws)
unfolding insert
insert-warning x [] [] h a b = refl
insert-warning x [] (w ∷ ws) h a (k, b) = ground arith
insert-warning x (d ∷ ds) ws h (k, a) b = ground (arith, insert-warning x ds ws h a b)

sort-by_severity :
    (items : List AttentionItem)
    → sort by_severity items ≡ filter is_danger items ++ filter (λ i. not (is_danger i)) items
unfolding sort
sort-by_severity [] = refl
sort-by_severity (x ∷ items) =
    let dangers = filter is_danger items in
    let others = filter (λ i. not (is_danger i)) items in
    let rest = sort-by_severity items in
    elim (Bool-cases (is_danger x)) [
      | inl d ↦ rw (rest, d) (insert-danger x (dangers ++ others) d)
      | inr w ↦
          rw (rest, w)
            (insert-warning x dangers others w (All-filter is_danger items)
              (All-map_of (λ i e. ground arith) others (All-filter (λ i. not (is_danger i)) items)))
    ]

-- The panel shows the items that the checks give: first all dangers, then all warnings, each in the
-- order of the checks.
pub collect_attention_items-danger_first :
    (l : Locale) (parse : Text → Option ℕ) (inputs : AttentionInputs)
    → let found = (all_checks l parse inputs).items in
      (collect_attention_items l parse inputs).items
      ≡ filter is_danger found ++ filter (λ i. not (is_danger i)) found
unfolding collect_attention_items
collect_attention_items-danger_first l parse inputs =
    sort-by_severity (all_checks l parse inputs).items
