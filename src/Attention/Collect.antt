-- ===== src/Attention/Collect.antt =====
-- `collectAttentionItems` of frontend/src/lib/attention.ts.
pub mod Order
pub mod Fine
use garage_admin_console.Base.{ℕ, Option, none, some, List, [], Text, text, map_option}
use garage_admin_console.Base.Sorting.{Comparator, sort, ascending}
use garage_admin_console.Locale.{Locale}
use garage_admin_console.Attention.{
  AttentionInputs, AttentionItem, AttentionResult, check, note, taken, then_check, only_items,
  severity_rank,
}
use garage_admin_console.Attention.Checks.{
  health_report, nodes_report, storage_report, layout_report, keys_report, token_items,
}
use garage_admin_console.Attention.Buckets.{buckets_report, console_key}

-- `rank(a.severity) - rank(b.severity)`
abbrev pub by_severity : Comparator AttentionItem
by_severity = ascending (λ i. severity_rank i.severity)

module _ (l : Locale) (parse : Text → Option ℕ) where
  -- The checks of the buckets, which need the console's key.
  unfoldable pub bucket_checks : AttentionInputs → AttentionResult
  bucket_checks inputs = then_check (note inputs.buckets (text "バケット")) (
      then_check (note inputs.s3_connection (text "コンソールの S3 キー")) (elim (taken inputs.buckets) [
        | none ↦ only_items []
        | some bs ↦ buckets_report l (console_key (taken inputs.s3_connection)) bs
      ]))

  -- All the checks, in the order of the source.
  unfoldable pub all_checks : AttentionInputs → AttentionResult
  all_checks inputs = then_check (check inputs.health (text "クラスタの状態") health_report) (
      then_check (check inputs.status (text "ノード一覧") (λ s. nodes_report s.nodes)) (
        then_check
          (check inputs.storage_health (text "Storage health")
            (storage_report l (taken inputs.status) inputs.corruption_increases))
          (then_check (check inputs.layout (text "レイアウト") layout_report) (
            then_check (check inputs.access_keys (text "アクセスキー") (keys_report parse inputs.now)) (
              then_check
                (check inputs.admin_tokens (text "管理トークン")
                  (λ ts. only_items (token_items parse inputs.now 0 ts)))
                (bucket_checks inputs))))))

  -- `collectAttentionItems`
  unfoldable pub collect_attention_items : AttentionInputs → AttentionResult
  collect_attention_items inputs =
      let r = all_checks inputs in record r { items = sort by_severity r.items }
