-- ===== src/Workers.antt =====
-- frontend/src/lib/workers.ts: the state of background workers, and the filter and the order of
-- their list.
pub mod Listing
pub mod Wanted
use garage_admin_console.Base.{
  ℕ, ◌++◌, ◌/◌, Ordering, compare, Bool, true, false, not, ◌&&◌, ◌||◌, Option, none, some, List, [],
  ◌∷◌, Text, text, ◌==◌, trim, ltb, if◌then◌else◌, any, filter, is_empty, or_else, map_option,
  contains, starts_with, includes, eqb,
}
use garage_admin_console.Base.Sorting.{Comparator, sort, then_by, ascending, descending}
use garage_admin_console.Api.{Worker, WorkerState, named}
use garage_admin_console.Locale.{Locale, decimal}

-- `formatSecsAgo`
unfoldable pub format_secs_ago : ℕ → Text
format_secs_ago secs =
    if ltb secs 60
    then decimal secs ++ text "秒前"
    else if ltb secs 3600
    then decimal (secs / 60) ++ text "分前"
    else if ltb secs 86400
    then decimal (secs / 3600) ++ text "時間前"
    else decimal (secs / 86400) ++ text "日前"

pub data StateKind : Type 0 where
  idle busy throttled done other : StateKind

pub record StateDescription : Type 0 where
  pub label : Text
  pub kind : StateKind

-- `describeState`
unfoldable pub describe_state : WorkerState → StateDescription
describe_state (WorkerState.throttled none) = record {
  label = text "throttled";
  kind = StateKind.throttled;
}
describe_state (WorkerState.throttled (some secs)) = record {
  label = text "throttled" ++ (text " (" ++ (secs ++ text "s)"));
  kind = StateKind.throttled;
}
describe_state (named state) =
    if state == text "idle"
    then record { label = text "idle"; kind = idle }
    else if state == text "busy"
    then record { label = text "busy"; kind = busy }
    else if state == text "done"
    then record { label = text "done"; kind = done }
    else record { label = if is_empty state then text "unknown" else state; kind = other }

-- `STATE_RANK`
abbrev pub state_rank : StateKind → ℕ
state_rank busy = 0
state_rank throttled = 1
state_rank idle = 2
state_rank done = 3
state_rank other = 4

abbrev pub disabled_worker_marker : Text
disabled_worker_marker = text "This worker is currently disabled"

-- `isDisabledWorker`
unfoldable pub is_disabled_worker : Worker → Bool
is_disabled_worker w = any (λ line. trim line == disabled_worker_marker) w.freeform

-- `isNoteworthyWorker`, behind `const { kind } = describeState(w.state)`
is_noteworthy : StateKind → Worker → Bool
is_noteworthy done w = false
is_noteworthy kind w =
    ltb 0 w.consecutive_errors
    || is_kind busy kind
    || is_kind throttled kind
    || or_else (map_option (λ n. ltb 0 n) w.queue_length) false
    || or_else (map_option (λ p. not (is_empty p)) w.progress) false
  where
    is_kind : StateKind → StateKind → Bool
    is_kind a b = eqb (state_rank a) (state_rank b)

-- `isNoteworthyWorker`
unfoldable pub is_noteworthy_worker : Worker → Bool
unfolding is_noteworthy
is_noteworthy_worker w = is_noteworthy (describe_state w.state).kind w

-- `persistentErrorsLabel`
unfoldable pub persistent_errors_label : Locale → Text → Text
persistent_errors_label l name =
    if includes (l.to_lower name) (text "scrub") then text "破損検出数 (累積)" else text "永続エラー"

pub record WorkerFilter : Type 0 where
  pub search : Text
  pub only_noteworthy : Bool
  pub hide_disabled : Bool
  pub node_id : Option Text

-- `q.replace(/^#/, '')`
abbrev drop_hash : Text → Text
drop_hash [] = []
drop_hash (c ∷ s) = if eqb c b'#' then s else c ∷ s

module _ (l : Locale) (hostname_of : Text → Option Text) where
  -- `matchesWorkerSearch`
  unfoldable pub matches_worker_search : Worker → Text → Bool
  matches_worker_search w search =
      let q = l.to_lower (trim search) in
      is_empty q
      || includes (l.to_lower w.name) q
      || decimal w.id == drop_hash q
      || starts_with (l.to_lower w.node_id) q
      || or_else (map_option (λ h. includes (l.to_lower h) q) (hostname_of w.node_id)) false
      || or_else (map_option (λ e. includes (l.to_lower e.message) q) w.last_error) false

  -- `matchesWorkerFilter`
  unfoldable pub matches_worker_filter : Worker → WorkerFilter → Bool
  matches_worker_filter w f =
      if or_else (map_option (λ id. not (w.node_id == id)) f.node_id) false
      then false
      else if f.hide_disabled && is_disabled_worker w
      then false
      else if f.only_noteworthy && not (is_noteworthy_worker w)
      then false
      else matches_worker_search w f.search

  -- `compareWorkersByState`
  abbrev pub compare_workers_by_state : Comparator Worker
  compare_workers_by_state = then_by (ascending (λ w. state_rank (describe_state w.state).kind)) (
      then_by (descending (λ w. w.consecutive_errors)) (
        then_by (descending (λ w. w.errors))
          (then_by (λ a b. l.compare_text a.name b.name) (ascending (λ w. w.id)))))

  -- `filterAndSortWorkers`
  unfoldable pub filter_and_sort_workers : List Worker → WorkerFilter → List Worker
  filter_and_sort_workers workers f =
      sort compare_workers_by_state (filter (λ w. matches_worker_filter w f) workers)
