-- ===== src/RepairOperations.antt =====
-- frontend/src/lib/repair-operations.ts: the repair operations that the maintenance page and the node
-- page offer, with their guidance.
use garage_admin_console.Base.{List, [], ◌∷◌, Text, text}
use garage_admin_console.Api.{RepairType, ScrubCommand}

pub data Severity : Type 0 where
  low medium high : Severity

pub record RepairOperation : Type 0 where
  pub value : RepairType
  pub label : Text
  pub description : Text
  pub when : Text
  pub caution : Text
  pub severity : Severity

-- `REPAIR_OPERATIONS`
abbrev pub repair_operations : List RepairOperation
repair_operations =
    record {
      value = RepairType.blocks;
      label = text "ブロック整合性検証";
      description = text "レプリカが不足しているブロックを検出し、他のノードからコピーして再配置します。";
      when = text "ノードの追加・削除・ゾーン変更などのレイアウト変更を適用した後、ノード障害や交換の後に実行します。";
      caution = text "リシンクが自然に収まるまで数時間待ってから実行してください。";
      severity = medium;
    }
    ∷ record {
      value = RepairType.block_rc;
      label = text "ブロック参照カウント修復";
      description = text "ブロックの参照カウントを全て再計算し、不整合を修正します。";
      when = text "ログに参照カウント不整合の警告が出ているとき、ブロックエラーが減らないとき。";
      caution = text "原因がブロック参照側にある場合は blockRefs も合わせて実行してください。";
      severity = medium;
    }
    ∷ record {
      value = RepairType.tables;
      label = text "テーブル修復";
      description = text "メタデータテーブルの全体同期を手動で実行します。";
      when = text "メタデータの同期がおかしいとき、大規模障害からの復旧時に限定して使います。";
      caution = text "毎時の自動同期があるため、通常は不要です。";
      severity = medium;
    }
    ∷ record {
      value = RepairType.versions;
      label = text "バージョン修復";
      description = text "親オブジェクトが存在しない孤立バージョンを検出し、削除済みにマークします。";
      when = text "複数ノードの長時間停止後にオブジェクトの一覧や取得がおかしいとき。";
      caution =
          text "通常運用では使いません。ストレージノード切断中に実行すると生きたバージョンを削除扱いにするため、全ストレージノード稼働・全パーティション揃いのときだけ実行できます。";
      severity = medium;
    }
    ∷ record {
      value = RepairType.block_refs;
      label = text "ブロック参照修復";
      description = text "親バージョンが存在しない孤立ブロック参照を検出し、削除済みにマークします。";
      when = text "孤立した参照がブロックの GC を妨げているとき。";
      caution =
          text
            "versions や blockRc と合わせて判断してください。ストレージノード切断中に実行すると生きた参照を削除扱いにするため、全ストレージノード稼働・全パーティション揃いのときだけ実行できます。";
      severity = medium;
    }
    ∷ record {
      value = RepairType.rebalance;
      label = text "リバランス";
      description = text "ストレージ間のデータ配置を均等化します。";
      when = text "ディスクやノードの追加後、容量配分の変更後に実行します。";
      caution = text "障害対応ではなく、構成変更後の後処理です。";
      severity = low;
    }
    ∷ record {
      value = RepairType.multipart_uploads;
      label = text "マルチパートアップロード修復";
      description = text "親バージョンが存在しないマルチパートアップロードのメタデータを削除済みにマークします。";
      when = text "マルチパートアップロード周りだけが異常なとき。";
      caution = text "一般的な障害対応で使うことはほぼありません。";
      severity = low;
    }
    ∷ record {
      value = RepairType.aliases;
      label = text "エイリアス修復";
      description = text "バケットエイリアスの不整合を修正します。";
      when = text "バケット名でのアクセスだけが壊れているとき。";
      caution = text "非常にまれな用途です。";
      severity = low;
    }
    ∷ record {
      value = RepairType.clear_resync_queue;
      label = text "リシンクキューのクリア";
      description = text "リシンクキューを強制的に空にします。キューに残っているブロックは全てスキップされます。";
      when = text "喪失が確定したブロックを purge した後、キューが空にならないときの最終手段です。";
      caution = text "先にブロックエラーページで原因を確認し、必要な purge を済ませてから使ってください。";
      severity = high;
    }
    ∷ []

pub record ScrubOption : Type 0 where
  pub value : ScrubCommand
  pub label : Text
  pub description : Text

-- `SCRUB_COMMANDS`
abbrev pub scrub_commands : List ScrubOption
scrub_commands =
    record {
      value = ScrubCommand.start;
      label = text "開始";
      description = text "全ブロックのチェックサム検証を開始します。ディスク I/O が増加します。";
    }
    ∷ record {
      value = ScrubCommand.pause;
      label = text "一時停止";
      description = text "実行中の Scrub を一時停止します。";
    }
    ∷ record {
      value = ScrubCommand.resume;
      label = text "再開";
      description = text "一時停止中の Scrub を再開します。";
    }
    ∷ record {
      value = ScrubCommand.cancel;
      label = text "キャンセル";
      description = text "実行中の Scrub を中止します。";
    }
    ∷ []
