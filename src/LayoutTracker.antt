-- ===== src/LayoutTracker.antt =====
-- frontend/src/components/layout-update-tracker.tsx: the steps of a layout update, the versions that
-- are live, and the versions to which dead nodes may be skipped.
pub mod Skipping
use garage_admin_console.Base.{
  ℕ, Bool, true, false, not, ◌&&◌, Option, none, some, List, [], ◌∷◌, map, Text, text, ◌==◌,
  if◌then◌else◌, ltb, leb, eqb, length, filter, contains, any, is_some, or_else, min,
}
use garage_admin_console.Base.Maps.{Entries}
use garage_admin_console.Base.Sorting.{sort, descending}

-- `LayoutVersionStatus`, `LayoutVersionInfo`, `NodeUpdateTrackers` and `LayoutHistory` of api.ts
pub data LayoutVersionStatus : Type 0 where
  current draining historical : LayoutVersionStatus

pub record LayoutVersionInfo : Type 0 where
  pub version : ℕ
  pub status : LayoutVersionStatus
  pub storage_nodes : ℕ
  pub gateway_nodes : ℕ

pub record NodeUpdateTrackers : Type 0 where
  pub ack : ℕ
  pub sync : ℕ
  pub sync_ack : ℕ

pub record LayoutHistory : Type 0 where
  pub current_version : ℕ
  pub min_ack : ℕ
  pub versions : List LayoutVersionInfo
  pub update_trackers : Option (Entries NodeUpdateTrackers)

-- `isUpdateInFlight`; no history is none
unfoldable pub is_update_in_flight : Option LayoutHistory → Bool
is_update_in_flight none = false
is_update_in_flight (some h) = is_some h.update_trackers

-- `TrackerRole`
pub record TrackerRole : Type 0 where
  pub id : Text
  pub capacity : Option ℕ

pub data StepState : Type 0 where
  completed inprogress waiting : StepState

pub record LayoutStep : Type 0 where
  pub name : Text
  pub hint : Text
  pub progress : ℕ
  pub total : ℕ
  pub state : StepState

-- `tally`, of the nodes among which it counts
unfoldable pub tally : LayoutHistory → (NodeUpdateTrackers → ℕ) → (Text → Bool) → ℕ × ℕ
tally h k among =
    let nodes = filter (λ e. among e.0) (or_else h.update_trackers []) in
    (length (filter (λ e. leb h.current_version (k e.1)) nodes), length nodes)

-- `defs` without their states
unfoldable pub step_defs : LayoutHistory → List TrackerRole → List (Text × Text × (ℕ × ℕ))
step_defs h roles =
    let storage = map (λ r. r.id) (filter (λ r. is_some r.capacity) roles) in
    let all_roles = map (λ r. r.id) roles in
    (text "レイアウトの伝播", text "全ノードが新しいバージョンを受け取る (ack)", tally h (λ t. t.ack) (λ id. true))
    ∷ (
      text "メタデータ同期",
      text "ストレージノードが新レイアウトでのメタデータを同期する (sync、gateway は対象外)",
      tally h (λ t. t.sync) (contains storage),
    )
    ∷ (
      text "新レイアウトへ切替",
      text "同期完了を確認し新レイアウトで読み書きする (syncAck、現レイアウトのノード)",
      tally h (λ t. t.sync_ack) (contains all_roles),
    )
    ∷ []

abbrev state_of : Bool → Bool → StepState
state_of done prev_done = if done then completed else if prev_done then inprogress else waiting

-- The loop over `defs`, which carries `prevDone`
unfoldable pub with_states : Bool → List (Text × Text × (ℕ × ℕ)) → List LayoutStep
with_states prev_done [] = []
with_states prev_done ((name, hint, (progress, total)) ∷ defs) =
    let done = eqb progress total in
    record {
      name = name;
      hint = hint;
      progress = progress;
      total = total;
      state = state_of done prev_done;
    }
    ∷ with_states done defs

-- `computeSteps`
unfoldable pub compute_steps : LayoutHistory → List TrackerRole → List LayoutStep
compute_steps h roles = with_states true (step_defs h roles)

abbrev pub is_live : LayoutVersionInfo → Bool
is_live v = is_live_status v.status
  where
    is_live_status : LayoutVersionStatus → Bool
    is_live_status historical = false
    is_live_status _ = true

-- `liveVersions`
unfoldable pub live_versions : LayoutHistory → List LayoutVersionInfo
live_versions h = sort (descending (λ v. v.version)) (filter is_live h.versions)

-- `Math.min(...vs)`, of one version at least
unfoldable pub min_of : ℕ → List ℕ → ℕ
min_of v [] = v
min_of v (w ∷ vs) = min v (min_of w vs)

abbrev pub targets_of : ℕ → List ℕ → List ℕ
targets_of current_version [] = []
targets_of current_version (v ∷ []) = []
targets_of current_version (v ∷ w ∷ vs) =
    filter (λ u. ltb (min_of v (w ∷ vs)) u && leb u current_version) (v ∷ w ∷ vs)

-- `skipTargets`
unfoldable pub skip_targets : LayoutHistory → List ℕ
skip_targets h = targets_of h.current_version (map (λ v. v.version) (live_versions h))

abbrev head? : List ℕ → Option ℕ
head? [] = none
head? (v ∷ vs) = some v

-- `version` of the dialog, of the selected one
unfoldable pub forced_version : Option ℕ → List ℕ → Option ℕ
forced_version none targets = head? targets
forced_version (some selected) targets =
    if any (λ v. eqb v selected) targets then some selected else head? targets
