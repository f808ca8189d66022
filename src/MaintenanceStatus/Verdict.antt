-- ===== src/MaintenanceStatus/Verdict.antt =====
-- When the verdict of frontend/src/lib/maintenance-status.ts is which.
use garage_admin_console.Base.{
  ◌<◌, ◌≡◌, refl, ◌≢◌, ◌↔◌, ◌⊎◌, inl, inr, Bool, true, Option, none, some, Text, text, is_empty,
  arith, Bool-cases, ==_iff, not, ◌&&◌, ltb, if◌then◌else◌,
}
use garage_admin_console.MaintenanceStatus.{
  success, MaintenanceInputs, MaintenanceKind, unknown, cluster_unhealthy, block_errors, ok, Tone,
  danger, warning, neutral, Gaps, observation_gaps, is_success, is_healthy, gap_text, decide,
  decide_maintenance_status,
}
use garage_admin_console.MaintenanceStatus.Observation.{
  IsObserved, is_observed, is_observed_iff, no_gap_iff, observation_gaps-HasMessages,
  observation_gaps-count_iff,
}

-- The verdict and its tone by the four tests, in their order.
abbrev tests_kind : Bool → Bool → Bool → Bool → MaintenanceKind
tests_kind unhealthy failing seen_gap waiting =
    if unhealthy
    then cluster_unhealthy
    else if failing
    then block_errors
    else if seen_gap
    then unknown
    else if waiting
    then unknown
    else ok

abbrev tests_tone : Bool → Bool → Bool → Tone
tests_tone unhealthy failing seen_gap =
    if unhealthy then danger else if failing then danger else if seen_gap then warning else neutral

abbrev is_unhealthy : MaintenanceInputs → Bool
is_unhealthy inp = is_success inp.health_state && not (is_healthy inp.health_status)

abbrev has_block_errors : MaintenanceInputs → Bool
has_block_errors inp = is_success inp.block_errors.state && ltb 0 inp.block_error_count

decide_tests :
    (g : Gaps) (inp : MaintenanceInputs)
    → let seen_gap = not (is_empty (gap_text g)) in
      ((decide g inp).kind
        ≡ tests_kind (is_unhealthy inp) (has_block_errors inp) seen_gap (not (is_empty g.pending)))
      × ((decide g inp).tone ≡ tests_tone (is_unhealthy inp) (has_block_errors inp) seen_gap)
unfolding decide
decide_tests g inp = elim (Bool-cases (is_unhealthy inp)) [
  | inl a ↦ rw a (refl, refl)
  | inr a ↦ elim (Bool-cases (has_block_errors inp)) [
    | inl b ↦ rw (a, b) (refl, refl)
    | inr b ↦ elim (Bool-cases (is_empty (gap_text g))) [
      | inr c ↦ rw (a, b, c) (refl, refl)
      | inl c ↦ elim (Bool-cases (is_empty g.pending)) [
        | inl d ↦ rw (a, b, c, d) (refl, refl)
        | inr d ↦ rw (a, b, c, d) (refl, refl)
      ]
    ]
  ]
]

is_healthy_iff : (o : Option Text) → (is_healthy o ≡ true) ↔ (o ≡ some (text "healthy"))
is_healthy_iff none = ground arith
is_healthy_iff (some s) = grind (arith, ==_iff s (text "healthy"))

-- The tests that lead to `ok`, as facts about the inputs.
module _ (inp : MaintenanceInputs) where
  abbrev gaps : Gaps
  gaps = observation_gaps inp

  kind_tests :
      (decide_maintenance_status inp).kind
      ≡ tests_kind
          (is_unhealthy inp)
          (has_block_errors inp)
          (not (is_empty (gap_text gaps)))
          (not (is_empty gaps.pending))
  unfolding decide_maintenance_status
  kind_tests = (decide_tests gaps inp).0

  nothing_missing_iff : ((is_empty (gap_text gaps) && is_empty gaps.pending) ≡ true) ↔ (
      (is_success inp.health_state ≡ true)
      × (is_observed inp.block_errors ≡ true)
      × (is_observed inp.node_stats ≡ true))
  nothing_missing_iff =
      let (to, from) = no_gap_iff gaps (observation_gaps-HasMessages inp) in
      let (to', from') = observation_gaps-count_iff inp in
      ((λ h. to' (to h)), (λ h. from (from' h)))

-- 「異常なし」 is shown exactly when the health status was read and is "healthy", the block errors
-- and the resync statistics were read from at least one node and from no node in vain, and
-- there is no block error.
pub decide_maintenance_status-eq-ok_iff :
    (inp : MaintenanceInputs)
    → ((decide_maintenance_status inp).kind ≡ ok) ↔ (
        (inp.health_state ≡ success)
        × (inp.health_status ≡ some (text "healthy"))
        × IsObserved inp.block_errors
        × (inp.block_error_count ≡ 0)
        × IsObserved inp.node_stats)
decide_maintenance_status-eq-ok_iff inp = grind (
  arith,
  kind_tests inp,
  nothing_missing_iff inp,
  is_healthy_iff inp.health_status,
  is_observed_iff inp.block_errors,
  is_observed_iff inp.node_stats,
)

-- The red tone is shown exactly for a confirmed problem: a health status that was read and is not
-- "healthy", or block errors that were read. What could not be read does not hide it.
pub decide_maintenance_status-danger_iff :
    (inp : MaintenanceInputs)
    → ((decide_maintenance_status inp).tone ≡ danger) ↔ (
        ((inp.health_state ≡ success) × (inp.health_status ≢ some (text "healthy")))
        ⊎ ((inp.block_errors.state ≡ success) × (0 < inp.block_error_count)))
unfolding decide_maintenance_status
decide_maintenance_status-danger_iff inp =
    grind (arith, (decide_tests (observation_gaps inp) inp).1, is_healthy_iff inp.health_status)
