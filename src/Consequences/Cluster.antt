-- ===== src/Consequences/Cluster.antt =====
-- frontend/src/lib/consequences.ts: the consequences of operations on blocks, nodes and the layout.
use garage_admin_console.Base.{
  ℕ, ◌++◌, Bool, Option, none, some, List, [], ◌∷◌, Text, text, if◌then◌else◌,
}
use garage_admin_console.Api.{RepairType, ScrubCommand}
use garage_admin_console.Locale.{Locale, decimal, format_count}

-- `blockPurgeConsequences`
unfoldable pub block_purge_consequences : Locale → ℕ → List Text
block_purge_consequences l count =
    (text "選択した "
      ++ format_count l (some count)
      ++ text " 件のブロックを含むオブジェクトと進行中のマルチパートアップロードが、それぞれのバケットから完全に削除されます")
    ∷ text "オブジェクトからもこれらのブロックへの参照が消え、ブロックエラーの一覧からも外れます"
    ∷ text "ブロックが別のノードに残っていても復旧には使われなくなります。喪失が確定したブロックだけを purge してください"
    ∷ []

-- `clearResyncQueueConsequences`
unfoldable pub clear_resync_queue_consequences : List Text
clear_resync_queue_consequences =
    text "リシンクキューに残っているブロックはすべてスキップされます" ∷ text "不足しているレプリカは、次に「ブロック整合性検証」を実行するまで補われません" ∷ []

-- `scrubCancelConsequences`
unfoldable pub scrub_cancel_consequences : List Text
scrub_cancel_consequences =
    text "実行中または一時停止中の Scrub が中止され、途中経過 (チェックポイント) は破棄されます"
    ∷ text "次に開始すると最初のブロックから検証し直します。最終完了日時は更新されません"
    ∷ []

-- `repairConsequences`
unfoldable pub repair_consequences : RepairType → Option (List Text)
repair_consequences RepairType.clear_resync_queue = some clear_resync_queue_consequences
repair_consequences (RepairType.scrub ScrubCommand.cancel) = some scrub_cancel_consequences
repair_consequences _ = none

-- `layoutApplyConsequences`
unfoldable pub layout_apply_consequences : ℕ → List Text
layout_apply_consequences version =
    (text "レイアウト v" ++ decimal version ++ text " がクラスタの現在のレイアウトになり、パーティションの再配置が始まります")
    ∷ text "再配置が終わるまでクラスタの負荷が上がり、データブロックのリシンクには数時間かかることがあります"
    ∷ text "適用後に元へ戻す操作はありません。戻すには元の構成をステージし直して再度適用します"
    ∷ []

-- `layoutRevertConsequences`
unfoldable pub layout_revert_consequences : List Text
layout_revert_consequences = text "ステージ中のロール変更とパラメータ変更がすべて破棄されます" ∷ text "適用済みのレイアウトには影響しません" ∷ []

-- `metadataSnapshotConsequences`
unfoldable pub metadata_snapshot_consequences : Bool → List Text
metadata_snapshot_consequences all_nodes =
    ((if all_nodes then text "全ノード" else text "このノード")
      ++ text "で完了までディスク I/O が増え、メタデータディレクトリの容量を消費します")
    ∷ text "各ノードに残るスナップショットは最新 2 世代までで、それより古いものは自動で削除されます"
    ∷ []

-- `workerVariableAllNodesConsequences`
unfoldable pub worker_variable_all_nodes_consequences : Text → Text → List Text
worker_variable_all_nodes_consequences variable value =
    (text "クラスタの全ノードで " ++ variable ++ text " が " ++ value ++ text " に変更され、ノードごとの現在値は上書きされます")
    ∷ text "変更は即座に反映され、ノードの再起動後も保持されます"
    ∷ text "応答しなかったノードには適用されません (結果の通知で失敗ノードを確認してください)"
    ∷ []
