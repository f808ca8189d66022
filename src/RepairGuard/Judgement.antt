-- ===== src/RepairGuard/Judgement.antt =====
-- The judgement on known inputs: the reasons and the loop over the storage nodes of
-- `evaluateRepairGuard` in frontend/src/lib/repair-guard.ts.
use garage_admin_console.Base.{
  ◌≤◌, ◌≡◌, refl, sym, ◌∙◌, ◌↔◌, inl, inr, Bool, true, false, not, ◌&&◌, some, List, [], ◌∷◌, ◌++◌,
  Text, arith, Bool-cases, All, all, is_empty, is_empty-append, is_empty-map, is_empty-filter_iff,
  if◌then◌else◌,
}
use garage_admin_console.Base.Sorting.{sort, sort-all}
use garage_admin_console.Api.{Worker, WorkersResponse}
use garage_admin_console.Locale.{compare_units}
use garage_admin_console.MaintenanceStatus.{success}
use garage_admin_console.RepairGuard.{
  GuardInputs, HealthCounters, Counters, allowed, known_counters, health_reasons, is_syncing,
  has_answered, syncing_lines, silent_reason, check_nodes, syncing_reason, verdict, judge,
}

-- Every table sync worker of the node is known and idle.
abbrev pub IsQuiet : List Worker → Text → Type 0
IsQuiet ws id = (has_answered ws id ≡ true) × All (λ w. is_syncing id w ≡ false) ws

-- What a destructive repair needs, read from successful answers.
pub record IsSafe (inputs : GuardInputs) : Type 0 where
  pub health : HealthCounters
  pub counters : Counters
  pub answer : WorkersResponse
  pub ids : List Text
  pub health_fetched : inputs.health.state ≡ success
  pub health_read : inputs.health.answer ≡ some health
  pub counters_known : known_counters health ≡ some counters
  pub nodes_up : counters.storage_nodes ≤ counters.storage_nodes_up
  pub partitions_ok : counters.partitions ≤ counters.partitions_all_ok
  pub workers_fetched : inputs.workers.state ≡ success
  pub workers_read : inputs.workers.answer ≡ some answer
  pub nodes_known : inputs.storage_node_ids ≡ some ids
  pub quiet : All (IsQuiet answer.workers) ids

verdict-eq-allowed_iff :
    (rs : List Text) (d : Bool) → (verdict rs d ≡ allowed) ↔ (is_empty rs ≡ true)
unfolding verdict
verdict-eq-allowed_iff [] d = ground arith
verdict-eq-allowed_iff (r ∷ rs) d = ground arith

module _ (inputs : GuardInputs) (answer : WorkersResponse) where
  abbrev is_quiet : Text → Bool
  is_quiet id = has_answered answer.workers id && is_empty (syncing_lines inputs answer id)

  is_quiet_iff : (id : Text) → (is_quiet id ≡ true) ↔ IsQuiet answer.workers id
  unfolding syncing_lines
  is_quiet_iff id = grind (arith, is_empty-filter_iff (is_syncing id) answer.workers, is_empty-map)

  -- The loop finds nothing exactly if there was nothing before and every node is quiet.
  check_nodes-empty :
      (rs ss ids : List Text)
      → (is_empty (check_nodes inputs answer rs ss ids).0
          && is_empty (check_nodes inputs answer rs ss ids).1)
        ≡ (is_empty rs && is_empty ss && all is_quiet ids)
  unfolding check_nodes
  check_nodes-empty rs ss [] = ground arith
  check_nodes-empty rs ss (id ∷ ids) = elim (Bool-cases (has_answered answer.workers id)) [
    | inl heard ↦
        let lines = syncing_lines inputs answer id in
        rw heard (check_nodes-empty rs (ss ++ lines) ids ∙ ground (arith, is_empty-append ss lines))
    | inr silent ↦
        let reason = silent_reason inputs answer id ∷ [] in
        rw silent
          (check_nodes-empty (rs ++ reason) ss ids ∙ ground (arith, is_empty-append rs reason))
  ]

health_reasons-empty_iff :
    (h : Counters)
    → (is_empty (health_reasons h) ≡ true)
      ↔ ((h.storage_nodes ≤ h.storage_nodes_up) × (h.partitions ≤ h.partitions_all_ok))
unfolding health_reasons
health_reasons-empty_iff h = ground arith

-- What `judge` adds for the syncing workers empties the reasons no more.
reasons-empty :
    (rs ss : List Text) (m : Text)
    → is_empty (if is_empty ss then rs else rs ++ (m ∷ [])) ≡ (is_empty rs && is_empty ss)
reasons-empty rs [] m = ground arith
reasons-empty rs (s ∷ ss) m = ground (arith, is_empty-append rs (m ∷ []))

all-IsQuiet_iff :
    (inputs : GuardInputs) (answer : WorkersResponse) (ids : List Text)
    → (all (is_quiet inputs answer) ids ≡ true) ↔ All (IsQuiet answer.workers) ids
all-IsQuiet_iff inputs answer [] = ((λ _. tt), (λ _. refl))
all-IsQuiet_iff inputs answer (id ∷ ids) =
    let (to, from) = is_quiet_iff inputs answer id in
    let (to', from') = all-IsQuiet_iff inputs answer ids in
    (
      (λ h. (to (ground arith), to' (ground arith))),
      (λ (p, ps). let q = from p in let qs = from' ps in rw (q, qs) refl),
    )

module _ (inputs : GuardInputs) (h : Counters) (answer : WorkersResponse) (ids : List Text) where
  -- The reasons and the syncing workers that the loop leaves.
  abbrev found : List Text × List Text
  found = check_nodes inputs answer (health_reasons h) [] (sort compare_units ids)

  found-empty :
      (is_empty found.0 && is_empty found.1)
      ≡ (is_empty (health_reasons h) && all (is_quiet inputs answer) ids)
  found-empty = ground (
    arith,
    check_nodes-empty inputs answer (health_reasons h) [] (sort compare_units ids),
    sort-all compare_units (is_quiet inputs answer) ids,
  )

  judge-eq-allowed_test :
      (judge inputs h answer ids ≡ allowed)
      ↔ ((is_empty (health_reasons h) && all (is_quiet inputs answer) ids) ≡ true)
  unfolding judge
  judge-eq-allowed_test =
      let e = reasons-empty found.0 found.1 (syncing_reason found.1) ∙ found-empty in
      let (to, from) = verdict-eq-allowed_iff _ (not (is_empty (health_reasons h))) in
      ((λ a. sym e ∙ to a), (λ t. from (e ∙ t)))

  pub judge-eq-allowed_iff : (judge inputs h answer ids ≡ allowed) ↔ (
      (h.storage_nodes ≤ h.storage_nodes_up)
      × (h.partitions ≤ h.partitions_all_ok)
      × All (IsQuiet answer.workers) ids)
  judge-eq-allowed_iff =
      let (to, from) = judge-eq-allowed_test in
      let (to_health, from_health) = health_reasons-empty_iff h in
      let (to_quiet, from_quiet) = all-IsQuiet_iff inputs answer ids in
      (
        (λ e.
            let t = to e in
            let (up, parts) = to_health (ground arith) in (up, parts, to_quiet (ground arith))),
        (λ (up, parts, quiet). from (rw (from_health (up, parts), from_quiet quiet) refl)),
      )
