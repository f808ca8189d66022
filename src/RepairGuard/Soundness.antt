-- ===== src/RepairGuard/Soundness.antt =====
-- When a destructive repair may be launched.
use garage_admin_console.Base.{
  ◌≡◌, refl, ◌↔◌, inl, inr, Bool, true, false, ◌||◌, Option, none, some, List, Text, arith,
  Bool-cases, bind_option, ◌⊎◌,
}
use garage_admin_console.Api.{WorkersResponse, RepairType}
use garage_admin_console.MaintenanceStatus.{FetchState, success}
use garage_admin_console.RepairGuard.{
  is_destructive_repair, Source, GuardInputs, HealthCounters, Counters, RepairGuard, allowed,
  refused, known_counters, judge, usable, proceed, throw_hint, is_pending, is_error, evaluate,
  evaluate_repair_guard, assert_repair_allowed,
}
use garage_admin_console.RepairGuard.Judgement.{IsSafe, judge-eq-allowed_iff}

module _ (inputs : GuardInputs) where
  proceed_sound :
      (waiting : Bool) (h : Option Counters) (answer : Option WorkersResponse)
      (ids : Option (List Text))
      → proceed inputs waiting h answer ids ≡ allowed
      → (waiting ≡ false)
        × ((c : Counters) × (a : WorkersResponse) × (ns : List Text) × (h ≡ some c)
            × (answer ≡ some a)
            × (ids ≡ some ns)
            × (judge inputs c a ns ≡ allowed))
  unfolding proceed
  proceed_sound true h answer ids e = cc
  proceed_sound false none answer ids e = cc
  proceed_sound false (some c) none ids e = cc
  proceed_sound false (some c) (some a) none e = cc
  proceed_sound false (some c) (some a) (some ns) e = (refl, (c, a, ns, refl, refl, refl, e))

  not_waiting :
      (s t : FetchState)
      → (is_pending s || is_pending t) ≡ false
      → is_error s ≡ false
      → is_error t ≡ false
      → (s ≡ success) × (t ≡ success)
  not_waiting s t h k l = ground arith

  usable-eq-some :
      {A : Type 0} (s : Source A) {a : A}
      → usable s ≡ some a
      → (is_error s.state ≡ false) × (s.answer ≡ some a)
  usable-eq-some s h = ground arith

  usable_success :
      {A : Type 0} (s : Source A) {a : A}
      → s.state ≡ success
      → s.answer ≡ some a
      → usable s ≡ some a
  usable_success s h k = ground arith

  bind-eq-some :
      (o : Option HealthCounters) {c : Counters}
      → bind_option o known_counters ≡ some c
      → (h : HealthCounters) × (o ≡ some h) × (known_counters h ≡ some c)
  bind-eq-some none e = cc
  bind-eq-some (some h) e = (h, refl, e)

  evaluate_sound : evaluate inputs ≡ allowed → IsSafe inputs
  unfolding evaluate
  evaluate_sound e =
      let (ready, (c, a, ns, known, heard, nodes, judged)) = proceed_sound _ _ _ _ e in
      let (h, read, counted) = bind-eq-some _ known in
      let (no_error, health_read) = usable-eq-some inputs.health read in
      let (no_error', workers_read) = usable-eq-some inputs.workers heard in
      let (fetched, fetched') = not_waiting _ _ ready no_error no_error' in
      let (up, parts, quiet) = (judge-eq-allowed_iff inputs c a ns).0 judged in
      record {
        health = h;
        counters = c;
        answer = a;
        ids = ns;
        health_fetched = fetched;
        health_read = health_read;
        counters_known = counted;
        nodes_up = up;
        partitions_ok = parts;
        workers_fetched = fetched';
        workers_read = workers_read;
        nodes_known = nodes;
        quiet = quiet;
      }

  evaluate_complete : IsSafe inputs → evaluate inputs ≡ allowed
  unfolding evaluate proceed
  evaluate_complete s =
      let judged =
        (judge-eq-allowed_iff inputs s.counters s.answer s.ids).1
          (s.nodes_up, s.partitions_ok, s.quiet) in
      let counters : bind_option (usable inputs.health) known_counters ≡ some s.counters =
        rw (usable_success inputs.health s.health_fetched s.health_read) s.counters_known in
      let waiting : (is_pending inputs.health.state || is_pending inputs.workers.state) ≡ false =
        let f = s.health_fetched in let g = s.workers_fetched in ground arith in
      cc (
        judged,
        counters,
        waiting,
        usable_success inputs.workers s.workers_fetched s.workers_read,
        s.nodes_known,
      )

-- A destructive repair is allowed exactly when the health and the workers were read successfully,
-- every storage node is up, every partition has all replicas, the storage nodes are known, and
-- each of them reported its workers with every table sync worker idle.
pub evaluate_repair_guard-eq-allowed_iff :
    (r : RepairType) (inputs : GuardInputs)
    → is_destructive_repair r ≡ true
    → (evaluate_repair_guard r inputs ≡ allowed) ↔ IsSafe inputs
unfolding evaluate_repair_guard
evaluate_repair_guard-eq-allowed_iff r inputs d =
    rw d (evaluate_sound inputs, evaluate_complete inputs)

throw_hint-eq-none_iff : (g : RepairGuard) → (throw_hint g ≡ none) ↔ (g ≡ allowed)
unfolding throw_hint
throw_hint-eq-none_iff allowed = ground arith
throw_hint-eq-none_iff (refused reasons advice) = ground arith

-- `assertRepairAllowed` lets a destructive repair start exactly on safe inputs, and otherwise
-- throws; any other repair starts whatever the inputs are.
pub assert_repair_allowed-eq-none_iff :
    (r : RepairType) (inputs : GuardInputs)
    → (assert_repair_allowed r inputs ≡ none) ↔ ((is_destructive_repair r ≡ false) ⊎ IsSafe inputs)
unfolding assert_repair_allowed
assert_repair_allowed-eq-none_iff r inputs = elim (Bool-cases (is_destructive_repair r)) [
  | inr harmless ↦ rw harmless ((λ _. inl refl), (λ _. refl))
  | inl destructive ↦
      let (to, from) = evaluate_repair_guard-eq-allowed_iff r inputs destructive in
      let (thrown, let_through) = throw_hint-eq-none_iff (evaluate_repair_guard r inputs) in
      rw destructive (
        (λ e. inr (to (thrown e))),
        (λ h. elim h [ inl f ↦ cc | inr safe ↦ let_through (from safe) ]),
      )
]
