-- ===== src/Workers/Wanted.antt =====
-- Which workers the table shows: `matchesWorkerFilter` and `isNoteworthyWorker` of
-- frontend/src/lib/workers.ts.
use mathlib.Core.Option.{some-injective}
use garage_admin_console.Base.{
  ◌≡◌, ◌≢◌, ◌↔◌, ◌⊎◌, ◌<◌, refl, inl, inr, true, false, not, Option, none, some, [], Text, arith,
  is_empty_iff, any-eq-false_iff, All, All-map_of, ==_iff, ==-eq, ap, sym, trim, is_empty, ltb,
  or_else, map_option, ◌==◌, ℕ,
}
use garage_admin_console.Locale.{Locale}
use garage_admin_console.Api.{Worker}
use garage_admin_console.Workers.{
  disabled_worker_marker, StateKind, busy, throttled, idle, done, other, WorkerFilter,
  describe_state, is_noteworthy, is_noteworthy_worker, is_disabled_worker, matches_worker_search,
  matches_worker_filter,
}

-- A worker is noteworthy: it is not done, and it fails, is at work, or has work left.
abbrev pub IsNoteworthy : StateKind → Worker → Type 0
IsNoteworthy kind w =
    (kind ≢ done)
    × ((0 < w.consecutive_errors)
        ⊎ (kind ≡ busy)
        ⊎ (kind ≡ throttled)
        ⊎ (0 < or_else w.queue_length 0)
        ⊎ (or_else w.progress [] ≢ []))

-- No line says that the worker is disabled.
abbrev pub IsEnabled : Worker → Type 0
IsEnabled w = All (λ line. trim line ≢ disabled_worker_marker) w.freeform

-- The worker passes what the filter asks for.
abbrev pub IsWanted : Locale → (Text → Option Text) → WorkerFilter → Worker → Type 0
IsWanted l hostname_of f w =
    ((f.node_id ≡ none) ⊎ (f.node_id ≡ some w.node_id))
    × ((f.hide_disabled ≡ false) ⊎ IsEnabled w)
    × ((f.only_noteworthy ≡ false) ⊎ IsNoteworthy (describe_state w.state).kind w)
    × (matches_worker_search l hostname_of w f.search ≡ true)

has_queue-or_else :
    (o : Option ℕ) → or_else (map_option (λ n. ltb 0 n) o) false ≡ ltb 0 (or_else o 0)
has_queue-or_else none = refl
has_queue-or_else (some n) = refl

has_progress-or_else :
    (o : Option Text)
    → or_else (map_option (λ p. not (is_empty p)) o) false ≡ not (is_empty (or_else o []))
has_progress-or_else none = refl
has_progress-or_else (some p) = refl

is_noteworthy_iff :
    (kind : StateKind) (w : Worker) → (is_noteworthy kind w ≡ true) ↔ IsNoteworthy kind w
unfolding is_noteworthy
is_noteworthy_iff done w = ((λ e. ground arith), (λ (open_work, _). absurd (open_work refl)))
is_noteworthy_iff busy w = ground arith
is_noteworthy_iff throttled w = ground arith
is_noteworthy_iff idle w =
    rw (has_queue-or_else w.queue_length, has_progress-or_else w.progress)
      (ground (arith, is_empty_iff (or_else w.progress [])))
is_noteworthy_iff other w =
    rw (has_queue-or_else w.queue_length, has_progress-or_else w.progress)
      (ground (arith, is_empty_iff (or_else w.progress [])))

is_disabled_worker_iff : (w : Worker) → (is_disabled_worker w ≡ false) ↔ IsEnabled w
unfolding is_disabled_worker
is_disabled_worker_iff w =
    let (to, from) = any-eq-false_iff (λ line. trim line == disabled_worker_marker) w.freeform in
    (
      (λ e.
          All-map_of (λ line h. ground (arith, ==_iff (trim line) disabled_worker_marker))
            w.freeform (to e)),
      (λ h. from (
          All-map_of (λ line k. ground (arith, ==_iff (trim line) disabled_worker_marker))
            w.freeform h)),
    )

other_node_iff :
    (o : Option Text) (id : Text)
    → (or_else (map_option (λ wanted. not (id == wanted)) o) false ≡ false)
      ↔ ((o ≡ none) ⊎ (o ≡ some id))
other_node_iff none id = ((λ _. inl refl), (λ _. refl))
other_node_iff (some wanted) id = (
  (λ e. inr (ap some (sym (==-eq id wanted (ground arith))))),
  (λ h. elim h [
    | inl e ↦ absurd (cc)
    | inr e ↦ ground (arith, ==_iff id wanted, some-injective wanted id e)
  ]),
)

-- The filter lets through exactly the workers that it is asked for.
pub matches_worker_filter_iff :
    (l : Locale) (hostname_of : Text → Option Text) (f : WorkerFilter) (w : Worker)
    → (matches_worker_filter l hostname_of w f ≡ true) ↔ IsWanted l hostname_of f w
unfolding matches_worker_filter is_noteworthy_worker
matches_worker_filter_iff l hostname_of f w = ground (
  arith,
  other_node_iff f.node_id w.node_id,
  is_disabled_worker_iff w,
  is_noteworthy_iff (describe_state w.state).kind w,
)
