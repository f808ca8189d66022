-- ===== src/RepairGuard.antt =====
-- frontend/src/lib/repair-guard.ts: which repairs are destructive, and when one may be launched.
pub mod Judgement
pub mod Soundness
use garage_admin_console.Base.{
  ℕ, ◌++◌, Bool, true, false, not, ◌&&◌, ◌||◌, Option, none, some, List, [], ◌∷◌, map, Text, text,
  ◌==◌, ltb, if◌then◌else◌, is_empty, or_else, map_option, bind_option, contains, filter, join,
}
use garage_admin_console.Base.Maps.{Entries, get, from_entries}
use garage_admin_console.Base.Sorting.{sort}
use garage_admin_console.Api.{
  ClusterHealth, ClusterStatus, Worker, WorkersResponse, RepairType, versions, block_refs, block_rc,
  multipart_uploads,
}
use garage_admin_console.Locale.{compare_units, decimal}
use garage_admin_console.MaintenanceStatus.{FetchState, pending, error, success, fetch_state}
use garage_admin_console.Nodes.{is_storage_node, node_display_name}
use garage_admin_console.Workers.{StateKind, idle, describe_state}

-- `isDestructiveRepair`: the members of `DESTRUCTIVE_REPAIRS`.
unfoldable pub is_destructive_repair : RepairType → Bool
is_destructive_repair versions = true
is_destructive_repair block_refs = true
is_destructive_repair block_rc = true
is_destructive_repair multipart_uploads = true
is_destructive_repair _ = false

-- `TABLE_SYNC_WORKERS`
abbrev pub table_sync_workers : List Text
table_sync_workers =
    text "object sync"
    ∷ text "version sync"
    ∷ text "block_ref sync"
    ∷ text "multipart_upload sync"
    ∷ []

-- A query of the page: its state and its data, if any.
pub record Source (A : Type 0) : Type 0 where
  pub state : FetchState
  pub answer : Option A

-- The counters that the guard reads; `none` is a value that is no finite number, or absent.
pub record HealthCounters : Type 0 where
  pub storage_nodes : Option ℕ
  pub storage_nodes_up : Option ℕ
  pub partitions : Option ℕ
  pub partitions_all_ok : Option ℕ

pub record GuardInputs : Type 0 where
  pub health : Source HealthCounters
  pub workers : Source WorkersResponse
  pub storage_node_ids : Option (List Text)
  pub node_names : Entries Text

pub data RepairGuard : Type 0 where
  allowed : RepairGuard
  refused : (reasons : List Text) (advice : Text) → RepairGuard

-- The part of a query that the guard reads.
pub record QueryLike (A : Type 0) : Type 0 where
  pub is_pending : Bool
  pub is_error : Bool
  pub answer : Option A

abbrev pub source_of : {A : Type 0} → QueryLike A → Source A
source_of q = record { state = fetch_state q.is_pending q.is_error; answer = q.answer }

abbrev counters_of : ClusterHealth → HealthCounters
counters_of h = record {
  storage_nodes = some h.storage_nodes;
  storage_nodes_up = some h.storage_nodes_up;
  partitions = some h.partitions;
  partitions_all_ok = some h.partitions_all_ok;
}

-- `guardInputsFrom`
unfoldable pub guard_inputs_from :
    QueryLike ClusterHealth → QueryLike WorkersResponse → QueryLike ClusterStatus → GuardInputs
unfolding is_storage_node
guard_inputs_from health workers status =
    let nodes = map_option (λ s. s.nodes) status.answer in
    record {
      health = record {
        state = fetch_state health.is_pending health.is_error;
        answer = map_option counters_of health.answer;
      };
      workers = source_of workers;
      storage_node_ids =
          map_option (λ ns. map (λ n. n.id) (filter (λ n. is_storage_node n.role n.draining) ns))
            nodes;
      node_names =
          from_entries [] (map (λ n. (n.id, node_display_name n.id n.hostname)) (or_else nodes []));
    }

-- `UNKNOWN`
abbrev unknown_state : Text → RepairGuard
unknown_state what = refused ((what ++ text "を取得できないため、安全に実行できるか判断できません") ∷ []) []

-- The counters, when all of them are finite numbers.
pub record Counters : Type 0 where
  pub storage_nodes : ℕ
  pub storage_nodes_up : ℕ
  pub partitions : ℕ
  pub partitions_all_ok : ℕ

abbrev pub known_counters : HealthCounters → Option Counters
known_counters h = elim h.storage_nodes [
  | none ↦ none
  | some n ↦ elim h.storage_nodes_up [
    | none ↦ none
    | some up ↦ elim h.partitions [
      | none ↦ none
      | some p ↦ elim h.partitions_all_ok [
        | none ↦ none
        | some good ↦ some (record {
          storage_nodes = n;
          storage_nodes_up = up;
          partitions = p;
          partitions_all_ok = good;
        })
      ]
    ]
  ]
]

-- Reasons from the health counters.
health_reasons : Counters → List Text
health_reasons h =
    (if ltb h.storage_nodes_up h.storage_nodes
      then (text "ストレージノードが停止中です (稼働 "
          ++ (decimal h.storage_nodes_up ++ (text " / " ++ (decimal h.storage_nodes ++ text ")"))))
        ∷ []
      else [])
    ++ (if ltb h.partitions_all_ok h.partitions
        then (text "全レプリカが揃っているパーティションが "
            ++ (decimal h.partitions_all_ok
                ++ (text " / " ++ (decimal h.partitions ++ text " しかありません"))))
          ∷ []
        else [])

abbrev is_idle : StateKind → Bool
is_idle idle = true
is_idle _ = false

-- A table sync worker of the node that is not idle.
abbrev pub is_syncing : Text → Worker → Bool
is_syncing id w =
    w.node_id == id
    && contains table_sync_workers w.name
    && not (is_idle (describe_state w.state).kind)

-- `answered.has(id)`
abbrev pub has_answered : List Worker → Text → Bool
has_answered ws id = contains (map (λ w. w.node_id) ws) id

module _ (inputs : GuardInputs) (answer : WorkersResponse) where
  -- `name`
  node_name : Text → Text
  node_name id = or_else (get id inputs.node_names) (node_display_name id (some []))

  -- The lines of one node's table sync workers that are not idle.
  syncing_lines : Text → List Text
  syncing_lines id =
      map (λ w. node_name id ++ (text ": " ++ (w.name ++ text " が実行中")))
        (filter (is_syncing id) answer.workers)

  silent_reason : Text → Text
  silent_reason id =
      node_name id
      ++ (text " のワーカー状態を取得できません ("
          ++ (or_else (get id answer.errors) (text "no answer") ++ text ")"))

  -- The loop over the storage nodes, from the reasons and the syncing workers found so far.
  check_nodes : List Text → List Text → List Text → List Text × List Text
  check_nodes reasons syncing [] = (reasons, syncing)
  check_nodes reasons syncing (id ∷ ids) =
      let silent = check_nodes (reasons ++ (silent_reason id ∷ [])) syncing ids in
      let heard = check_nodes reasons (syncing ++ syncing_lines id) ids in
      if has_answered answer.workers id then heard else silent

-- The verdict once everything that it needs is known.
verdict : List Text → Bool → RepairGuard
verdict [] degraded = allowed
verdict (r ∷ rs) degraded = refused (r ∷ rs) (
    if degraded
    then text "ストレージノードの復旧を待ち、その後「テーブル修復」で同期を終えてから実行してください。"
    else text "同期が終わる (各テーブルの sync ワーカーが idle になる) まで待ってから実行してください。")

syncing_reason : List Text → Text
syncing_reason syncing = text "テーブルの同期が進行中です (" ++ (join (text "、") syncing ++ text ")")

pub judge : GuardInputs → Counters → WorkersResponse → List Text → RepairGuard
judge inputs h answer ids =
    let degraded_reasons = health_reasons h in
    let (reasons, syncing) =
      check_nodes inputs answer degraded_reasons [] (sort compare_units ids) in
    verdict (if is_empty syncing then reasons else reasons ++ (syncing_reason syncing ∷ []))
      (not (is_empty degraded_reasons))

abbrev is_pending : FetchState → Bool
is_pending pending = true
is_pending _ = false

abbrev is_error : FetchState → Bool
is_error error = true
is_error _ = false

-- A source's data, unless its state is an error.
abbrev pub usable : {A : Type 0} → Source A → Option A
usable s = if is_error s.state then none else s.answer

-- The early returns, in their order, and the judgement: whether a source is still pending, the
-- counters, the workers and the storage nodes.
proceed :
    GuardInputs → Bool → Option Counters → Option WorkersResponse → Option (List Text) → RepairGuard
proceed inputs true h answer ids = refused (text "クラスタの状態を取得中です" ∷ []) []
proceed inputs false none answer ids = unknown_state (text "クラスタの状態")
proceed inputs false (some h) none ids = unknown_state (text "ワーカーの状態")
proceed inputs false (some h) (some answer) none = unknown_state (text "ノードの役割")
proceed inputs false (some h) (some answer) (some ids) = judge inputs h answer ids

-- The part behind the test for a destructive repair.
evaluate : GuardInputs → RepairGuard
evaluate inputs =
    proceed inputs (is_pending inputs.health.state || is_pending inputs.workers.state)
      (bind_option (usable inputs.health) known_counters) (usable inputs.workers)
      inputs.storage_node_ids

-- `evaluateRepairGuard`
unfoldable pub evaluate_repair_guard : RepairType → GuardInputs → RepairGuard
unfolding is_destructive_repair evaluate proceed judge verdict health_reasons check_nodes node_name
    syncing_lines silent_reason syncing_reason
evaluate_repair_guard repair_type inputs =
    if is_destructive_repair repair_type then evaluate inputs else allowed

-- `repairGuardHint`
unfoldable pub repair_guard_hint : RepairGuard → Text
repair_guard_hint allowed = []
repair_guard_hint (refused reasons advice) = join (text "。") reasons ++ (text "。" ++ advice)

throw_hint : RepairGuard → Option Text
throw_hint allowed = none
throw_hint (refused reasons advice) = some (repair_guard_hint (refused reasons advice))

-- `assertRepairAllowed`: `none` lets the launch proceed, `some hint` is the error that is thrown.
-- `refetched` is what the refetch that it awaits gives.
unfoldable pub assert_repair_allowed : RepairType → GuardInputs → Option Text
unfolding throw_hint
assert_repair_allowed repair_type refetched =
    if is_destructive_repair repair_type
    then throw_hint (evaluate_repair_guard repair_type refetched)
    else none
