-- ===== src/Witnesses/Guards.antt =====
-- The theorems on the repair guard and on the maintenance status, at concrete inputs.
use garage_admin_console.Base.{
  ◌<◌, ◌≡◌, refl, ◌≢◌, ◌↔◌, ◌⊎◌, true, false, none, some, [], ◌∷◌, text, ◌==◌, All,
}
use garage_admin_console.Api.{StorageHealth, versions, blocks}
use garage_admin_console.Witnesses.{cluster, healthy, sync_worker, storage_answer}
use garage_admin_console.MaintenanceStatus.{
  success, MaintenanceInputs, decide_maintenance_status, ok, danger, node_stats_input, kept_nodes,
  has_stats,
}
use garage_admin_console.MaintenanceStatus.Verdict.{
  decide_maintenance_status-eq-ok_iff, decide_maintenance_status-danger_iff,
}
use garage_admin_console.MaintenanceStatus.Observation.{IsObserved}
use garage_admin_console.RepairGuard.Judgement.{IsSafe}
use garage_admin_console.MaintenanceStatus.Coverage.{
  IsAnswered, node_stats_input-IsObserved_iff, ok_covers_nodes,
}
use garage_admin_console.RepairGuard.{
  GuardInputs, allowed, guard_inputs_from, is_destructive_repair, evaluate_repair_guard,
  assert_repair_allowed,
}
use garage_admin_console.RepairGuard.Soundness.{
  evaluate_repair_guard-eq-allowed_iff, assert_repair_allowed-eq-none_iff,
}

abbrev inputs : GuardInputs
inputs =
    guard_inputs_from (record { is_pending = false; is_error = false; answer = some healthy })
      (record {
        is_pending = false;
        is_error = false;
        answer = some (record { workers = sync_worker ∷ []; errors = [] });
      })
      (record { is_pending = false; is_error = false; answer = some cluster })

evaluate_repair_guard-eq-allowed_iff_example :
    (evaluate_repair_guard versions inputs ≡ allowed) ↔ IsSafe inputs
unfolding is_destructive_repair
evaluate_repair_guard-eq-allowed_iff_example =
    evaluate_repair_guard-eq-allowed_iff versions inputs refl

assert_repair_allowed-eq-none_iff_example :
    (assert_repair_allowed blocks inputs ≡ none)
    ↔ ((is_destructive_repair blocks ≡ false) ⊎ IsSafe inputs)
assert_repair_allowed-eq-none_iff_example = assert_repair_allowed-eq-none_iff blocks inputs

abbrev calm : MaintenanceInputs
calm = record {
  health_state = success;
  health_status = some (text "healthy");
  block_errors = record { state = success; checked_node_count = 1; node_error_count = 0 };
  block_error_count = 0;
  node_stats = node_stats_input success (some storage_answer) [];
}

decide_maintenance_status-eq-ok_iff_example : ((decide_maintenance_status calm).kind ≡ ok) ↔ (
    (calm.health_state ≡ success)
    × (calm.health_status ≡ some (text "healthy"))
    × IsObserved calm.block_errors
    × (calm.block_error_count ≡ 0)
    × IsObserved calm.node_stats)
decide_maintenance_status-eq-ok_iff_example = decide_maintenance_status-eq-ok_iff calm

decide_maintenance_status-danger_iff_example : ((decide_maintenance_status calm).tone ≡ danger) ↔ (
    ((calm.health_state ≡ success) × (calm.health_status ≢ some (text "healthy")))
    ⊎ ((calm.block_errors.state ≡ success) × (0 < calm.block_error_count)))
decide_maintenance_status-danger_iff_example = decide_maintenance_status-danger_iff calm

node_stats_input-IsObserved_iff_example :
    IsObserved (node_stats_input success (some storage_answer) []) ↔ (
      (success ≡ success)
      × ((h : StorageHealth) × (some storage_answer ≡ some h)
          × IsAnswered h
          × (kept_nodes [] h.nodes ≢ [])
          × All (λ n. has_stats n ≡ true) (kept_nodes [] h.nodes)))
node_stats_input-IsObserved_iff_example =
    node_stats_input-IsObserved_iff success (some storage_answer) []

ok_covers_nodes_example : All (λ n. has_stats n ≡ true) (kept_nodes [] storage_answer.nodes)
unfolding decide_maintenance_status node_stats_input text ◌==◌
ok_covers_nodes_example = ok_covers_nodes calm success storage_answer [] refl refl
