-- ===== src/Consequences.antt =====
-- frontend/src/lib/consequences.ts: what the confirmation dialogs say will happen. Sizes are printed
-- by a parameter.
pub mod Cluster
use garage_admin_console.Base.{
  ℕ, ◌+◌, ◌++◌, Bool, true, false, Option, none, some, List, [], ◌∷◌, Text, text, if◌then◌else◌,
  ltb, eqb, is_empty, length, join, or_else, map_option,
}
use garage_admin_console.Locale.{Locale, decimal, format_count}
use garage_admin_console.Api.{BucketKeyPermissions}

-- `if (c) out.push(message)`
abbrev pub listed : Bool → Text → List Text
listed true message = message ∷ []
listed false message = []

-- `bucketHasObjects`
unfoldable pub bucket_has_objects : Option ℕ → Bool
bucket_has_objects objects = or_else (map_option (λ n. ltb 0 n) objects) false

-- `bucketDeleteConsequences`, of the numbers of global and local aliases, objects and keys
unfoldable pub bucket_delete_consequences : Locale → ℕ → ℕ → Option ℕ → Option ℕ → List Text
bucket_delete_consequences l globals locals objects key_count =
    (if ltb 0 (globals + locals)
      then text "このバケットのエイリアス "
        ++ decimal (globals + locals)
        ++ text " 件 (グローバル "
        ++ decimal globals
        ++ text " / ローカル "
        ++ decimal locals
        ++ text ") もすべて削除されます"
      else text "このバケットのエイリアスもすべて削除されます")
    ∷ (listed (or_else (map_option (λ n. ltb 0 n) key_count) false)
          (text "このバケットに権限を持つキー " ++ decimal (or_else key_count 0) ++ text " 個からアクセス権が外れます")
        ++ ((if bucket_has_objects objects
              then text "オブジェクトが "
                ++ format_count l objects
                ++ text " 件残っているため削除できません。先にバケットを空にしてください"
              else text "オブジェクトが残っていると削除できません")
            ∷ []))

abbrev related_buckets : Option ℕ → Text
related_buckets none = text "このキーが持つすべてのバケットへの権限とローカルエイリアスが外れます"
related_buckets (some n) =
    if ltb 0 n
    then text "関連するバケット " ++ decimal n ++ text " 個 (権限またはローカルエイリアス) から、このキーの権限とローカルエイリアスがすべて外れます"
    else text "関連するバケット (権限またはローカルエイリアス) はありません"

-- `keyDeleteConsequences`
unfoldable pub key_delete_consequences : Option ℕ → List Text
key_delete_consequences bucket_count =
    text "このキーを使っている S3 クライアントは直ちに認証できなくなります"
    ∷ related_buckets bucket_count
    ∷ text "ローカルエイリアスがバケット唯一の名前でも削除は拒否されません。バケット自体は削除されず、名前の無いまま残ります"
    ∷ []

-- `adminTokenDeleteConsequences`
unfoldable pub admin_token_delete_consequences : Bool → List Text
admin_token_delete_consequences is_current =
    if is_current
    then text "これはこのコンソール自身が Garage の操作に使っているトークンです"
      ∷ text "削除した瞬間からこのコンソールは Garage を操作できなくなります"
      ∷ text "復旧するには、別の管理トークンを発行してコンソールの設定 (GARAGE_ADMIN_TOKEN) を差し替える必要があります"
      ∷ []
    else text "このトークンを使っているクライアントは直ちに Admin API を呼べなくなります" ∷ []

-- `aliasRemoveConsequences`
unfoldable pub alias_remove_consequences : (is_global last_global : Bool) → List Text
alias_remove_consequences is_global last_global =
    (if is_global
      then text "この名前ではどのキーからもバケットにアクセスできなくなります"
      else text "このキーからはこの名前でバケットにアクセスできなくなります")
    ∷ (listed last_global (text "バケットのグローバルな名前が無くなり、ローカルエイリアスを持つキーからしか名前で参照できなくなります")
        ++ (text "バケット本体とオブジェクト、キーの権限はそのまま残ります" ∷ []))

-- The flags of `permissionRevokeConsequences`
abbrev flags_of : BucketKeyPermissions → List Text
flags_of p =
    listed p.read (text "read") ++ listed p.write (text "write") ++ listed p.owner (text "owner")

-- `permissionRevokeConsequences`
unfoldable pub permission_revoke_consequences : BucketKeyPermissions → ℕ → List Text
permission_revoke_consequences p local_alias_count =
    ((if ltb 0 (length (flags_of p)) then join (text " / ") (flags_of p) else text "すべての権限")
      ++ text " が外れ、このキーからこのバケットにアクセスできなくなります")
    ∷ (listed p.owner (text "owner が外れるため、このキーからバケット設定の変更やバケットの削除もできなくなります")
        ++ listed (ltb 0 local_alias_count) (
            text "このキーのローカルエイリアス "
            ++ decimal local_alias_count
            ++ text " 件は残りますが、権限が無いためその名前でもアクセスできません")
        ++ (text "バケット本体とオブジェクトは削除されません" ∷ []))

-- `objectDeleteConsequences`
unfoldable pub object_delete_consequences : List Text
object_delete_consequences = text "オブジェクトは即座に削除されます。Garage にはバージョニングが無いため復元できません" ∷ []

-- `bulkObjectDeleteConsequences`
unfoldable pub bulk_object_delete_consequences : Locale → ℕ → List Text
bulk_object_delete_consequences l count =
    (text "選択した "
      ++ format_count l (some count)
      ++ text " 件のオブジェクトが削除されます。Garage にはバージョニングが無いため復元できません")
    ∷ text "一部だけ失敗した場合、失敗したオブジェクトは残ります"
    ∷ []

-- `prefixDeleteConsequences`
unfoldable pub prefix_delete_consequences : Locale → (ℕ → Text) → Text → ℕ → ℕ → Bool → List Text
prefix_delete_consequences l format_bytes prefix count bytes truncated =
    if eqb count 0
    then []
    else (text "「"
        ++ prefix
        ++ text "」で始まる "
        ++ format_count l (some count)
        ++ text " 件"
        ++ (if truncated then text "以上" else [])
        ++ text "のオブジェクト ("
        ++ format_bytes bytes
        ++ (if truncated then text " 以上" else [])
        ++ text ") が削除されます")
      ∷ text "サブフォルダ内のオブジェクトも含まれます"
      ∷ listed truncated (text "1 回の操作で削除できるのは上限件数までです。残りは再度実行してください")

-- `websiteDisableConsequences`
unfoldable pub website_disable_consequences : ℕ → List Text
website_disable_consequences rule_count =
    text "Website エンドポイントからこのバケットを配信しなくなります"
    ∷ text "インデックス / エラードキュメントの設定が破棄されます"
    ∷ (if ltb 0 rule_count
        then text "ルーティングルール " ++ decimal rule_count ++ text " 件も破棄されます"
        else text "ルーティングルールの設定も破棄されます")
    ∷ text "再度有効にしても元の設定には戻りません"
    ∷ []
