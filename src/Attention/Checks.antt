-- ===== src/Attention/Checks.antt =====
-- The checks of `collectAttentionItems` in frontend/src/lib/attention.ts on the cluster, its nodes,
-- its layout, its keys and its admin tokens.
use garage_admin_console.Base.{
  ℕ, suc, ◌++◌, Bool, true, false, not, ◌&&◌, ◌||◌, Option, none, some, List, [], ◌∷◌, map, Text,
  text, ◌==◌, join, if◌then◌else◌, ltb, any, is_some, is_empty, or_else, map_option, length, filter,
  gather,
}
use garage_admin_console.Base.Maps.{Entries, get, from_entries}
use garage_admin_console.Api.{
  AdminToken, ClusterHealth, ClusterLayout, ClusterNode, ClusterStatus, KeyListItem, ListResult,
  NodeStorageHealth, StorageHealth,
}
use garage_admin_console.Locale.{Locale, decimal, format_count}
use garage_admin_console.Nodes.{is_storage_node, node_display_name, or_text}
use garage_admin_console.Workers.{format_secs_ago}
use garage_admin_console.Attention.{
  AttentionItem, AttentionLink, node_page, key_page, admin_token_page, AttentionResult, blocks,
  layout, admin_tokens, danger, warning, then_check, only_items, only_unknown, expiry_attention,
}

-- `nodeLink`
abbrev node_link : Option ClusterNode → Text → AttentionLink → AttentionLink
node_link none id fallback = node_page id
node_link (some n) id fallback = if is_some n.role then node_page id else fallback

-- 9. Cluster health.
unfoldable pub health_report : ClusterHealth → AttentionResult
health_report h =
    if h.status == text "healthy"
    then only_items []
    else only_items (
        record {
          id = text "health";
          severity = if h.status == text "unavailable" then danger else warning;
          message =
              text "クラスタの状態が "
              ++ h.status
              ++ text " です(ストレージノード "
              ++ decimal h.storage_nodes_up
              ++ text " / "
              ++ decimal h.storage_nodes
              ++ text " 稼働中、quorum を満たすパーティション "
              ++ decimal h.partitions_quorum
              ++ text " / "
              ++ decimal h.partitions
              ++ text ")";
          hint = none;
          link = none;
        }
        ∷ [])

-- `nodeById`
abbrev pub nodes_by_id : List ClusterNode → Entries ClusterNode
nodes_by_id nodes = from_entries [] (map (λ n. (n.id, n)) nodes)

-- `nameOf`
abbrev name_of : List ClusterNode → Text → Text
name_of nodes id =
    node_display_name id (elim (get id (nodes_by_id nodes)) [ none ↦ none | some n ↦ n.hostname ])

-- The notes on a node that is down.
abbrev down_notes : ClusterNode → List Text
down_notes n = (if n.draining then text "draining" ∷ [] else []) ++ elim n.last_seen_secs_ago [
  | none ↦ []
  | some secs ↦ (text "最終確認 " ++ format_secs_ago secs) ∷ []
]

-- The body of the loop of check 1.
unfoldable pub node_items : ClusterNode → List AttentionItem
node_items n =
    let link = some (node_link (some n) n.id layout) in
    let notes = down_notes n in
    if not n.is_up
    then record {
      id = text "node-down:" ++ n.id;
      severity = danger;
      message =
          text "ストレージノード "
          ++ node_display_name n.id n.hostname
          ++ text " が切断中です"
          ++ (if is_empty notes then [] else text "(" ++ join (text "、") notes ++ text ")");
      hint = none;
      link = link;
    }
      ∷ []
    else if n.draining
    then record {
      id = text "node-draining:" ++ n.id;
      severity = warning;
      message =
          text "ストレージノード "
          ++ node_display_name n.id n.hostname
          ++ text " は draining 中です(レイアウトから外されましたが、まだデータを保持しています)";
      hint = none;
      link = link;
    }
      ∷ []
    else []

-- 1. Disconnected and draining storage nodes.
unfoldable pub nodes_report : List ClusterNode → AttentionResult
nodes_report nodes =
    only_items (gather node_items (filter (λ n. is_storage_node n.role n.draining) nodes))

-- A text that is there and not empty.
abbrev pub is_told : Option Text → Bool
is_told none = false
is_told (some s) = not (is_empty s)

module _ (status : Option ClusterStatus) where
  abbrev known_nodes : List ClusterNode
  known_nodes = or_else (map_option (λ s. s.nodes) status) []

  -- `relevant`
  unfoldable pub is_relevant : Text → Bool
  is_relevant id = not (is_some status) || elim (get id (nodes_by_id known_nodes)) [
    | none ↦ true
    | some n ↦ is_storage_node n.role n.draining && n.is_up
  ]

  -- `silent`
  unfoldable pub is_silent : StorageHealth → Bool
  is_silent sh =
      (is_told sh.stats_error || is_told sh.vars_error)
      || any (λ e. is_relevant e.0 && is_told e.1.error) sh.nodes

module _ (l : Locale) (status : Option ClusterStatus) (increases : Entries ℕ) where
  -- The body of the loop of checks 2 and 3.
  unfoldable pub storage_items : Text × NodeStorageHealth → List AttentionItem
  storage_items (id, h) =
      (if ltb 0 (or_else h.resync_errors 0)
        then record {
          id = text "resync:" ++ id;
          severity = danger;
          message =
              name_of (known_nodes status) id
              ++ text " で Resync エラーが "
              ++ format_count l h.resync_errors
              ++ text " 件あります";
          hint = none;
          link = some blocks;
        }
          ∷ []
        else [])
      ++ (if ltb 0 (or_else (get id increases) 0)
          then record {
            id = text "corruption:" ++ id;
            severity = warning;
            message =
                name_of (known_nodes status) id
                ++ text " で Scrub 破損検出数がページ表示後に "
                ++ format_count l (get id increases)
                ++ text " 件増えました";
            hint = none;
            link = some (node_link (get id (nodes_by_id (known_nodes status))) id blocks);
          }
            ∷ []
          else [])

  -- 2 and 3. Resync errors and rises of the corruption counters.
  unfoldable pub storage_report : StorageHealth → AttentionResult
  storage_report sh =
      then_check (only_items (gather storage_items sh.nodes))
        (only_unknown (if is_silent status sh then text "Storage health(一部のノード)" ∷ [] else []))

-- 4. Layout: staged changes.
unfoldable pub layout_report : ClusterLayout → AttentionResult
layout_report c =
    let changes = length c.staged_role_changes in
    if ltb 0 changes || is_some c.staged_parameters
    then only_items (
        record {
          id = text "layout-staged";
          severity = warning;
          message =
              text "レイアウトに未適用の変更があります("
              ++ join (text "、") (
                  (if ltb 0 changes then (text "ノード " ++ decimal changes ++ text " 件") ∷ [] else [])
                  ++ (if is_some c.staged_parameters then text "パラメータ" ∷ [] else []))
              ++ text ")";
          hint = none;
          link = some layout;
        }
        ∷ [])
    else only_items []

module _ (parse : Text → Option ℕ) (now : ℕ) where
  -- 5. Access keys.
  unfoldable pub key_items : KeyListItem → List AttentionItem
  key_items k = elim (expiry_attention parse k.expiration k.expired now) [
    | none ↦ []
    | some e ↦
        record {
          id = text "key:" ++ k.id;
          severity = e.severity;
          message = text "アクセスキー " ++ or_text (some k.name) k.id ++ text ": " ++ e.message;
          hint = none;
          link = some (key_page k.id);
        }
        ∷ []
  ]

  unfoldable pub keys_report : ListResult KeyListItem → AttentionResult
  keys_report ks =
      then_check (only_unknown (if ks.truncated then text "アクセスキー(一覧が上限で打ち切られています)" ∷ [] else []))
        (only_items (gather key_items ks.items))

  -- 6. Admin tokens, from position `i` on.
  unfoldable pub token_items : ℕ → List AdminToken → List AttentionItem
  token_items i [] = []
  token_items i (t ∷ ts) =
      elim (expiry_attention parse t.expiration t.expired now) [
        | none ↦ []
        | some e ↦
            record {
              id = text "token:" ++ or_else t.id (text "config-" ++ decimal i);
              severity = e.severity;
              message =
                  text "管理トークン "
                  ++ or_text (some t.name) (or_text t.id (text "(設定ファイル)"))
                  ++ text ": "
                  ++ e.message;
              hint = none;
              link = some (elim t.id [
                | none ↦ admin_tokens
                | some id ↦ if is_empty id then admin_tokens else admin_token_page id
              ]);
            }
            ∷ []
      ]
      ++ token_items (suc i) ts
