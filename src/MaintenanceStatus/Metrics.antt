-- ===== src/MaintenanceStatus/Metrics.antt =====
-- frontend/src/lib/maintenance-status.ts: the sums of per-node metrics, and the cards of the repair
-- page that show them.
pub mod Clear
use garage_admin_console.Base.{
  ℕ, ◌+◌, ◌-◌, ◌++◌, Bool, true, false, not, ◌&&◌, ◌||◌, Option, none, some, List, [], ◌∷◌, map,
  Text, text, if◌then◌else◌, ltb, eqb, is_empty, is_some, or_else, or_option, map_option, length,
  filter, contains, join, trim,
}
use garage_admin_console.Base.Maps.{Entries, get}
use garage_admin_console.Base.Sorting.{sort, on}
use garage_admin_console.Api.{NodeStorageHealth, StorageHealth}
use garage_admin_console.Locale.{Locale, decimal, format_count}
use garage_admin_console.Nodes.{node_display_name, or_text}
use garage_admin_console.MaintenanceStatus.{
  FetchState, pending, error, success, FanOutInput, Tone, neutral, warning, danger,
}

pub record NodeValue : Type 0 where
  pub node_id : Text
  pub label : Text
  pub value : ℕ

pub record MissingValue : Type 0 where
  pub node_id : Text
  pub label : Text
  pub reason : Text

pub record NodeMetricSummary : Type 0 where
  pub total : Option ℕ
  pub per_node : List NodeValue
  pub missing : List MissingValue
  pub fan_out_error : Option Text

pub data MetricSource : Type 0 where
  stats vars : MetricSource

abbrev node_source_error : MetricSource → NodeStorageHealth → Option Text
node_source_error stats n = n.stats_error
node_source_error vars n = n.vars_error

abbrev health_source_error : MetricSource → StorageHealth → Option Text
health_source_error stats h = h.stats_error
health_source_error vars h = h.vars_error

-- `nodeError`: the combined error only for a backend that does not split the errors
unfoldable pub node_error : MetricSource → NodeStorageHealth → Option Text
node_error source n = or_option (node_source_error source n) (
    if is_some n.stats_error || is_some n.vars_error || is_some n.workers_error
    then none
    else n.error)

abbrev pub label_of : Entries Text → Text → Text
label_of names id = node_display_name id (get id names)

-- The two halves of the loop of `summarizeNodeMetric`, over the nodes that are not skipped
module _ (pick : NodeStorageHealth → Option ℕ) (names : Entries Text) where
  unfoldable pub values_of : Entries NodeStorageHealth → List NodeValue
  values_of [] = []
  values_of ((id, n) ∷ es) =
      let rest = values_of es in
      elim (pick n) [
        | none ↦ rest
        | some v ↦ record { node_id = id; label = label_of names id; value = v } ∷ rest
      ]

  unfoldable pub missing_of :
      MetricSource → Option Text → Entries NodeStorageHealth → List MissingValue
  missing_of source fan_out_error [] = []
  missing_of source fan_out_error ((id, n) ∷ es) =
      let rest = missing_of source fan_out_error es in
      elim (pick n) [
        | none ↦
            record {
              node_id = id;
              label = label_of names id;
              reason = or_text (node_error source n) (or_text fan_out_error (text "値が報告されていません"));
            }
            ∷ rest
        | some v ↦ rest
      ]

-- `perNode.reduce((s, n) => s + n.value, 0)`
unfoldable pub sum_values : List NodeValue → ℕ
sum_values [] = 0
sum_values (v ∷ vs) = v.value + sum_values vs

abbrev pub total_of : List NodeValue → Option ℕ
total_of [] = none
total_of (v ∷ vs) = some (sum_values (v ∷ vs))

-- `summarizeNodeMetric`
unfoldable pub summarize_node_metric :
    Locale
    → StorageHealth
    → (NodeStorageHealth → Option ℕ)
    → MetricSource
    → Entries Text
    → List Text
    → NodeMetricSummary
summarize_node_metric l health pick source names skip =
    let nodes = filter (λ e. not (contains skip e.0)) health.nodes in
    let per_node = sort (on (λ v. v.label) l.compare_text) (values_of pick names nodes) in
    let fan_out_error = health_source_error source health in
    record {
      total = total_of per_node;
      per_node = per_node;
      missing =
          sort (on (λ m. m.label) l.compare_text)
            (missing_of pick names source fan_out_error nodes);
      fan_out_error = fan_out_error;
    }

-- `CardSpec`
pub record CardSpec : Type 0 where
  pub value : Text
  pub hint : Text
  pub tone : Tone

-- `breakdown`
unfoldable pub breakdown : Locale → NodeMetricSummary → Text
breakdown l s =
    if ltb 1 (length s.per_node)
    then text " 内訳: "
      ++ join (text " / ")
          (map (λ n. n.label ++ text ": " ++ format_count l (some n.value)) s.per_node)
    else []

-- `missingText`
unfoldable pub missing_text : NodeMetricSummary → Text
missing_text s =
    if ltb 0 (length s.missing)
    then text " 未取得 "
      ++ decimal (length s.missing)
      ++ text " ノード: "
      ++ join (text " / ") (map (λ n. n.label ++ text " (" ++ n.reason ++ text ")") s.missing)
    else []

-- `unavailableCard`
unfoldable pub unavailable_card : NodeMetricSummary → CardSpec
unavailable_card s = record {
  value = text "取得失敗";
  hint =
      text "どのノードからも取得できませんでした。"
      ++ (if ltb 0 (length s.missing)
          then trim (missing_text s)
          else or_else s.fan_out_error (text "Garage から応答したノードがありません。"));
  tone = warning;
}

-- `s.missing.length > 0 ? 'warning' : 'neutral'`
abbrev pub missing_tone : NodeMetricSummary → Tone
missing_tone s = if ltb 0 (length s.missing) then warning else neutral

-- `scrubCorruptionCard`
unfoldable pub scrub_corruption_card : Locale → NodeMetricSummary → CardSpec
scrub_corruption_card l s = elim (s.total) [
  | none ↦ unavailable_card s
  | some total ↦ record {
    value = format_count l (some total);
    hint =
        text
          "Scrub が検出した破損の累積回数(各ノードの worker 変数 scrub-corruptions_detected の合計)です。Garage が永続化しておりリセットされないため、増えていなければ新たな破損はありません。検出ブロックはレプリカから再取得されます。"
        ++ breakdown l s
        ++ missing_text s;
    tone = missing_tone s;
  }
]

-- `scope`
unfoldable pub scope : NodeMetricSummary → Text
scope s = text " " ++ decimal (length s.per_node) ++ text " ノード分の合計です。"

-- `resyncErrorsCard`
unfoldable pub resync_errors_card : Locale → NodeMetricSummary → CardSpec
resync_errors_card l s = elim (s.total) [
  | none ↦ unavailable_card s
  | some total ↦ record {
    value = format_count l (some total);
    hint =
        (if ltb 0 total
          then text "リシンクに失敗しているブロックがあります。ブロックエラーページで確認してください。"
          else text "確認できたノードではリシンクエラーはありません。")
        ++ scope s
        ++ breakdown l s
        ++ missing_text s;
    tone = if ltb 0 total then danger else missing_tone s;
  }
]

-- `resyncQueueCard`
unfoldable pub resync_queue_card : Locale → NodeMetricSummary → CardSpec
resync_queue_card l s = elim (s.total) [
  | none ↦ unavailable_card s
  | some total ↦ record {
    value = format_count l (some total);
    hint =
        (if ltb 0 total
          then text "リシンク待ちのブロックがあります。増減の推移は Grafana で確認してください。"
          else text "リシンク待ちはありません。")
        ++ scope s
        ++ breakdown l s
        ++ missing_text s;
    tone = missing_tone s;
  }
]

abbrev stale_tone : Tone → Tone
stale_tone danger = danger
stale_tone _ = warning

-- `staleCard`, of the age that `Math.max(0, Math.round(ageSecs))` gives
unfoldable pub stale_card : Locale → CardSpec → ℕ → CardSpec
stale_card l spec age = record {
  value = spec.value;
  hint =
      text "取得失敗: 最新の取得に失敗したため、その "
      ++ format_count l (some age)
      ++ text " 秒前に取得した値を表示しています。"
      ++ spec.hint;
  tone = stale_tone spec.tone;
}

-- The text on nodes that gave no answer
abbrev unchecked_text : ℕ → Text
unchecked_text n = if ltb 0 n then text " " ++ decimal n ++ text " ノードから取得できていません。" else []

-- `blockErrorsCard`, after its first two tests
unfoldable pub checked_blocks_card : Locale → FanOutInput → ℕ → CardSpec
checked_blocks_card l b count =
    if eqb b.checked_node_count 0 && eqb count 0
    then record {
      value = text "取得失敗";
      hint =
          if ltb 0 b.node_error_count
          then text "どのノードからもブロックエラーを取得できませんでした (" ++ decimal b.node_error_count ++ text " ノード)。"
          else text "ブロックエラーを確認できたノードがありません。";
      tone = warning;
    }
    else if ltb 0 count
    then record {
      value = format_count l (some count);
      hint = text "エラーがあります。ブロックエラーページで内容を確認してください。" ++ unchecked_text b.node_error_count;
      tone = danger;
    }
    else if ltb 0 b.node_error_count
    then record {
      value = text "0";
      hint = text "確認できた範囲ではリシンクエラーはありません。" ++ unchecked_text b.node_error_count;
      tone = warning;
    }
    else record { value = text "0"; hint = text "リシンクエラーはありません。"; tone = neutral }

abbrev blocks_card_of : FetchState → Locale → FanOutInput → ℕ → CardSpec
blocks_card_of error l b count = record {
  value = text "取得失敗";
  hint = text "ブロックエラーの取得に失敗しました。";
  tone = warning;
}
blocks_card_of pending l b count = record {
  value = text "確認中";
  hint = text "ブロックエラーを取得しています。";
  tone = neutral;
}
blocks_card_of success l b count = checked_blocks_card l b count

-- `blockErrorsCard`
unfoldable pub block_errors_card : Locale → FanOutInput → ℕ → CardSpec
block_errors_card l b count = blocks_card_of b.state l b count
