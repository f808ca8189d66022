-- ===== src/MaintenanceStatus/Coverage.antt =====
-- What a complete observation means for the answers it was made from:
-- `nodeStatsInput` and `blockErrorsCoverage` of frontend/src/lib/maintenance-status.ts.
use mathlib.Core.Option.{some-injective}
use garage_admin_console.Base.{
  ◌-◌, ◌<◌, ◌≡◌, refl, ◌≢◌, ◌↔◌, inl, inr, Bool, true, false, not, Option, none, some, List, [],
  ◌∷◌, Text, All, filter, length, length-filter, arith, Bool-cases, is_empty, or_else, map_option,
}
use garage_admin_console.Api.{StorageHealth}
use garage_admin_console.MaintenanceStatus.{
  FetchState, pending, error, success, MaintenanceInputs, ok, kept_nodes, has_stats,
  node_stats_input, decide_maintenance_status,
}
use garage_admin_console.MaintenanceStatus.Observation.{IsObserved}
use garage_admin_console.MaintenanceStatus.Verdict.{decide_maintenance_status-eq-ok_iff}

-- The fan-out as a whole did not fail.
abbrev pub IsAnswered : StorageHealth → Type 0
IsAnswered h = or_else (map_option (λ e. not (is_empty e)) h.stats_error) false ≡ false

module _ {ℓ} {A : Type ℓ} (p : A → Bool) where
  All-kept_iff : (xs : List A) → (length xs - length (filter p xs) ≡ 0) ↔ All (λ x. p x ≡ true) xs
  All-kept_iff [] = ((λ _. tt), (λ _. refl))
  All-kept_iff (x ∷ xs) = grind (arith, All-kept_iff xs, length-filter p xs)

  some_kept : (xs : List A) → xs ≢ [] → All (λ x. p x ≡ true) xs → 0 < length (filter p xs)
  some_kept [] h a = absurd (h refl)
  some_kept (x ∷ xs) h (a, rest) = rw a (omega arith)

  not_nil : (xs : List A) → 0 < length (filter p xs) → xs ≢ []
  not_nil [] h e = absurd (omega arith)
  not_nil (x ∷ xs) h e = cc

stats_given-IsObserved_iff :
    (state : FetchState) (h : StorageHealth) (skip : List Text)
    → IsObserved (node_stats_input state (some h) skip) ↔ (
        (state ≡ success)
        × IsAnswered h
        × (kept_nodes skip h.nodes ≢ [])
        × All (λ n. has_stats n ≡ true) (kept_nodes skip h.nodes))
unfolding node_stats_input
stats_given-IsObserved_iff pending h skip =
    ((λ o. let e = o.fetched in cc), (λ a. let e = a.0 in cc))
stats_given-IsObserved_iff error h skip = ((λ o. let e = o.fetched in cc), (λ a. let e = a.0 in cc))
stats_given-IsObserved_iff success h skip =
    elim (Bool-cases (or_else (map_option (λ e. not (is_empty e)) h.stats_error) false)) [
      | inl failed ↦ rw failed ((λ o. let e = o.fetched in cc), (λ a. let e = a.1 in cc))
      | inr answered ↦
          let nodes = kept_nodes skip h.nodes in
          rw answered (
            (λ o.
                let few = o.some_node in
                let none_left = o.all_nodes in
                (
                  refl,
                  refl,
                  not_nil has_stats nodes few,
                  (All-kept_iff has_stats nodes).0 none_left,
                )),
            (λ (_, _, filled, all). record {
              fetched = refl;
              some_node = some_kept has_stats nodes filled all;
              all_nodes = (All-kept_iff has_stats nodes).1 all;
            }),
          )
    ]

stats_missing :
    (state : FetchState) (skip : List Text) → ¬ IsObserved (node_stats_input state none skip)
unfolding node_stats_input
stats_missing pending skip o = let e = o.fetched in cc
stats_missing error skip o = let e = o.fetched in cc
stats_missing success skip o = let e = o.fetched in cc

-- The resync statistics count as observed exactly when their query succeeded, the answer is there,
-- its fan-out did not fail, and it holds a node that is not skipped and the statistics of each such
-- node.
pub node_stats_input-IsObserved_iff :
    (state : FetchState) (health : Option StorageHealth) (skip : List Text)
    → IsObserved (node_stats_input state health skip) ↔ (
        (state ≡ success)
        × ((h : StorageHealth) × (health ≡ some h)
            × IsAnswered h
            × (kept_nodes skip h.nodes ≢ [])
            × All (λ n. has_stats n ≡ true) (kept_nodes skip h.nodes)))
node_stats_input-IsObserved_iff state none skip = (
  (λ o. absurd (stats_missing state skip o)),
  (λ (_, (h, missing, _, _, _)). let e = missing in cc),
)
node_stats_input-IsObserved_iff state (some h) skip =
    let (to, from) = stats_given-IsObserved_iff state h skip in
    (
      (λ o.
          let (fetched, answered, filled, all) = to o in
          (fetched, (h, refl, answered, filled, all))),
      (λ (fetched, (other, e, answered, filled, all)).
          rw (some-injective h other e)
            ((stats_given-IsObserved_iff state other skip).1 (fetched, answered, filled, all))),
    )

-- When 「異常なし」 is shown for statistics that come from a storage-health answer, every node of the
-- answer that is not skipped reported its resync queue and its resync errors.
pub ok_covers_nodes :
    (inp : MaintenanceInputs) (state : FetchState) (h : StorageHealth) (skip : List Text)
    → inp.node_stats ≡ node_stats_input state (some h) skip
    → (decide_maintenance_status inp).kind ≡ ok
    → All (λ n. has_stats n ≡ true) (kept_nodes skip h.nodes)
ok_covers_nodes inp state h skip e is_ok =
    let (_, _, _, _, stats) = (decide_maintenance_status-eq-ok_iff inp).0 is_ok in
    ((stats_given-IsObserved_iff state h skip).0 (rw e at stats)).3
