-- ===== src/MaintenanceStatus.antt =====
-- frontend/src/lib/maintenance-status.ts: the verdict on the cluster's state, what it was observed
-- from, and its coverage.
pub mod Observation
pub mod Verdict
pub mod Coverage
pub mod Metrics
use garage_admin_console.Base.{
  ℕ, ◌-◌, ◌++◌, Bool, true, false, not, ◌&&◌, Option, none, some, List, [], ◌∷◌, map, Text, text,
  ◌==◌, ltb, eqb, if◌then◌else◌, is_empty, is_some, or_else, map_option, length, filter, contains,
  join,
}
use garage_admin_console.Base.Maps.{Entries}
use garage_admin_console.Base.Sorting.{sort, on}
use garage_admin_console.Api.{BlockErrorsResponse, NodeStorageHealth, StorageHealth}
use garage_admin_console.Locale.{Locale, decimal}

pub data FetchState : Type 0 where
  pending error success : FetchState

-- `fetchState`
unfoldable pub fetch_state : Bool → Bool → FetchState
fetch_state is_pending is_error =
    if is_error then error else if is_pending then pending else success

pub record FanOutInput : Type 0 where
  pub state : FetchState
  pub checked_node_count : ℕ
  pub node_error_count : ℕ

pub record MaintenanceInputs : Type 0 where
  pub health_state : FetchState
  pub health_status : Option Text
  pub block_errors : FanOutInput
  pub block_error_count : ℕ
  pub node_stats : FanOutInput

pub data MaintenanceKind : Type 0 where
  unknown cluster_unhealthy block_errors ok : MaintenanceKind

pub data Tone : Type 0 where
  neutral warning danger : Tone

pub record MaintenanceStatus : Type 0 where
  pub kind : MaintenanceKind
  pub value : Text
  pub hint : Text
  pub tone : Tone

pub record Gaps : Type 0 where
  pub blind : List Text
  pub partial : List Text
  pub pending : List Text

push_blind : Text → Gaps → Gaps
push_blind message g = record g { blind = g.blind ++ (message ∷ []) }

push_partial : Text → Gaps → Gaps
push_partial message g = record g { partial = g.partial ++ (message ∷ []) }

push_pending : Text → Gaps → Gaps
push_pending name g = record g { pending = g.pending ++ (name ∷ []) }

-- `fanOutGaps`, by the state of the fetch.
fan_out_gaps : FetchState → Text → FanOutInput → Gaps → Gaps
fan_out_gaps pending name f g = push_pending name g
fan_out_gaps error name f g = push_blind (name ++ text "を取得できませんでした。") g
fan_out_gaps success name f g =
    if eqb f.checked_node_count 0
    then push_blind (name ++ text "を確認できたノードがありません。") g
    else if ltb 0 f.node_error_count
    then push_partial (name ++ (text "は " ++ (decimal f.node_error_count ++ text " ノードで未確認です。"))) g
    else g

health_gaps : FetchState → Gaps → Gaps
health_gaps pending g = push_pending (text "ヘルスステータス") g
health_gaps error g = push_blind (text "ヘルスステータスを取得できませんでした。") g
health_gaps success g = g

-- `observationGaps`
pub observation_gaps : MaintenanceInputs → Gaps
observation_gaps inp =
    let g = health_gaps inp.health_state (record { blind = []; partial = []; pending = [] }) in
    let g' = fan_out_gaps inp.block_errors.state (text "ブロックエラー") inp.block_errors g in
    fan_out_gaps inp.node_stats.state (text "リシンク統計") inp.node_stats g'

abbrev is_success : FetchState → Bool
is_success success = true
is_success _ = false

-- `inp.health.status !== 'healthy'`
abbrev is_healthy : Option Text → Bool
is_healthy none = false
is_healthy (some s) = s == text "healthy"

abbrev gap_text : Gaps → Text
gap_text g = join [] (g.blind ++ g.partial)

abbrev with_gaps : Gaps → Text → Text
with_gaps g hint = if is_empty (gap_text g) then hint else hint ++ (text " なお、" ++ gap_text g)

-- `decideMaintenanceStatus`
decide : Gaps → MaintenanceInputs → MaintenanceStatus
decide gaps inp =
    if is_success inp.health_state && not (is_healthy inp.health_status)
    then record {
      kind = cluster_unhealthy;
      value = text "クラスタ異常";
      hint = with_gaps gaps (
          text "ヘルスステータスが "
          ++ (or_else inp.health_status (text "unknown")
              ++ text " です。修復操作の前に、ノードの接続状態とレイアウトを確認してください。"));
      tone = danger;
    }
    else if is_success inp.block_errors.state && ltb 0 inp.block_error_count
    then record {
      kind = block_errors;
      value = text "エラー調査";
      hint = with_gaps gaps (text "操作を実行する前に、ブロックエラーページで失敗しているブロックを確認してください。");
      tone = danger;
    }
    else if not (is_empty (gap_text gaps))
    then record {
      kind = unknown;
      value = if is_empty gaps.blind then text "判定不可 (一部未確認)" else text "判定不可";
      hint = gap_text gaps ++ text "確認できていない範囲に異常がある可能性があるため、正常とは判断できません。";
      tone = warning;
    }
    else if not (is_empty gaps.pending)
    then record {
      kind = unknown;
      value = text "確認中";
      hint = join (text "・") gaps.pending ++ text "を取得しています。";
      tone = neutral;
    }
    else record {
      kind = ok;
      value = text "異常なし";
      hint = text "緊急の対応は不要です。定期的な Scrub を計画してください。";
      tone = neutral;
    }

unfoldable pub decide_maintenance_status : MaintenanceInputs → MaintenanceStatus
unfolding decide observation_gaps fan_out_gaps health_gaps push_blind push_partial push_pending
decide_maintenance_status inp = decide (observation_gaps inp) inp

pub record BlockErrorsCoverage : Type 0 where
  pub count : ℕ
  pub checked_node_count : ℕ
  pub node_errors : Entries Text

-- `blockErrorsCoverage`; a set of skipped nodes is the list of its members.
unfoldable pub block_errors_coverage :
    Locale → Option BlockErrorsResponse → List Text → BlockErrorsCoverage
block_errors_coverage l answer skip = record {
  count = or_else (map_option (λ d. length d.items) answer) 0;
  checked_node_count = length (
      filter (λ id. not (contains skip id))
        (or_else (map_option (λ d. d.checked_nodes) answer) []));
  node_errors =
      sort (on (λ e. e.0) l.compare_text) (
        filter (λ e. not (contains skip e.0))
          (or_else (map_option (λ d. d.node_errors) answer) []));
}

-- The entries of the nodes that are not skipped, without their ids.
abbrev pub kept_nodes {ℓ} : {A : Type ℓ} → List Text → Entries A → List A
kept_nodes skip es = map (λ e. e.1) (filter (λ e. not (contains skip e.0)) es)

-- `n.resyncQueueLen != null && n.resyncErrors != null`
abbrev pub has_stats : NodeStorageHealth → Bool
has_stats n = is_some n.resync_queue_len && is_some n.resync_errors

-- `nodeStatsInput`
unfoldable pub node_stats_input : FetchState → Option StorageHealth → List Text → FanOutInput
node_stats_input success (some health) skip =
    let nodes = kept_nodes skip health.nodes in
    let checked = length (filter has_stats nodes) in
    if or_else (map_option (λ e. not (is_empty e)) health.stats_error) false
    then record { state = error; checked_node_count = 0; node_error_count = 0 }
    else record {
      state = success;
      checked_node_count = checked;
      node_error_count = length nodes - checked;
    }
node_stats_input success none skip = record {
  state = error;
  checked_node_count = 0;
  node_error_count = 0;
}
node_stats_input state health skip = record {
  state = state;
  checked_node_count = 0;
  node_error_count = 0;
}
