-- ===== src/MaintenanceStatus/Metrics/Clear.antt =====
-- When the resync card of frontend/src/lib/maintenance-status.ts is neutral.
use garage_admin_console.Base.{
  Ordering, ◌+◌, ◌≡◌, refl, ◌≢◌, ◌↔◌, not, inl, inr, Option, some, List, [], ◌∷◌, map, arith, Text,
  length, filter, contains, All, Option-cases,
}
use garage_admin_console.Base.Maps.{Entries}
use garage_admin_console.Base.Sorting.{sort, insert, on, length-sort}
use garage_admin_console.Api.{NodeStorageHealth, StorageHealth}
use garage_admin_console.Locale.{Locale}
use garage_admin_console.MaintenanceStatus.{kept_nodes, neutral}
use garage_admin_console.MaintenanceStatus.Metrics.{
  NodeValue, MissingValue, stats, values_of, missing_of, sum_values, total_of,
  summarize_node_metric, resync_errors_card, unavailable_card,
}

sum_values-insert :
    (cmp : NodeValue → NodeValue → Ordering) (v : NodeValue) (vs : List NodeValue)
    → sum_values (insert cmp v vs) ≡ v.value + sum_values vs
unfolding sum_values insert
sum_values-insert cmp v [] = refl
sum_values-insert cmp v (w ∷ vs) = ground (arith, sum_values-insert cmp v vs)

sum_values-sort :
    (cmp : NodeValue → NodeValue → Ordering) (vs : List NodeValue)
    → sum_values (sort cmp vs) ≡ sum_values vs
unfolding sum_values sort
sum_values-sort cmp [] = refl
sum_values-sort cmp (v ∷ vs) =
    omega (arith, sum_values-insert cmp v (sort cmp vs), sum_values-sort cmp vs)

-- The numbers that decide the tone.
tone_iff :
    (vs : List NodeValue) (ms : List MissingValue) (l : Locale) (e : Option Text)
    → ((resync_errors_card l
          (record { total = total_of vs; per_node = vs; missing = ms; fan_out_error = e })).tone
        ≡ neutral)
      ↔ ((length vs ≢ 0) × (sum_values vs ≡ 0) × (length ms ≡ 0))
unfolding resync_errors_card unavailable_card
tone_iff [] ms l e = ground arith
tone_iff (v ∷ vs) ms l e = ground arith

counts_iff :
    (names : Entries Text) (e : Option Text) (es : Entries NodeStorageHealth)
    → ((sum_values (values_of (λ n. n.resync_errors) names es) ≡ 0)
        × (length (missing_of (λ n. n.resync_errors) names stats e es) ≡ 0))
      ↔ All (λ n. n.resync_errors ≡ some 0) (map (λ x. x.1) es)
unfolding sum_values values_of missing_of
counts_iff names e [] = ground arith
counts_iff names e ((id, n) ∷ es) = elim (Option-cases n.resync_errors) [
  | inl lost ↦ rw lost (ground arith)
  | inr (v, found) ↦ rw found (ground (arith, counts_iff names e es))
]

length-values_of :
    (names : Entries Text) (e : Option Text) (es : Entries NodeStorageHealth)
    → length (values_of (λ n. n.resync_errors) names es)
        + length (missing_of (λ n. n.resync_errors) names stats e es)
      ≡ length (map (λ x. x.1) es)
unfolding values_of missing_of
length-values_of names e [] = refl
length-values_of names e ((id, n) ∷ es) = elim (Option-cases n.resync_errors) [
  | inl lost ↦ rw lost (omega (arith, length-values_of names e es))
  | inr (v, found) ↦ rw found (omega (arith, length-values_of names e es))
]

-- The card of resync errors is neutral exactly if there is a node that is not skipped and every such
-- node reported that it has no resync error.
pub resync_errors_card-neutral_iff :
    (l : Locale) (h : StorageHealth) (names : Entries Text) (skip : List Text)
    → ((resync_errors_card l
          (summarize_node_metric l h (λ n. n.resync_errors) stats names skip)).tone
        ≡ neutral)
      ↔ ((length (kept_nodes skip h.nodes) ≢ 0)
          × All (λ n. n.resync_errors ≡ some 0) (kept_nodes skip h.nodes))
unfolding summarize_node_metric
resync_errors_card-neutral_iff l h names skip =
    let nodes = filter (λ e. not (contains skip e.0)) h.nodes in
    let values = values_of (λ n. n.resync_errors) names nodes in
    let missing = missing_of (λ n. n.resync_errors) names stats h.stats_error nodes in
    let by_label = on (λ (v : NodeValue). v.label) l.compare_text in
    let by_missing = on (λ (m : MissingValue). m.label) l.compare_text in
    let (there, back) = tone_iff (sort by_label values) (sort by_missing missing) l h.stats_error in
    let (quiet, noise) = counts_iff names h.stats_error nodes in
    let kept = length-values_of names h.stats_error nodes in
    let sum = sum_values-sort by_label values in
    let shown = length-sort by_label values in
    let lost = length-sort by_missing missing in
    (
      λ e.
          let (some_shown, zero_sum, none_lost) = there e in
          (
            omega (arith, some_shown, shown, kept),
            quiet (omega (arith, zero_sum, sum), omega (arith, none_lost, lost)),
          ),
      λ (some_kept, all_zero).
          let (zero_sum, none_lost) = noise all_zero in
          back (
            omega (arith, some_kept, shown, kept, none_lost),
            omega (arith, zero_sum, sum),
            omega (arith, none_lost, lost),
          ),
    )
