-- ===== src/Attention/Buckets.antt =====
-- Checks 7 and 8 of `collectAttentionItems` in frontend/src/lib/attention.ts: the unfinished uploads
-- of the buckets, and the permissions of the console's own key on them.
pub mod Served
use garage_admin_console.Base.{
  ℕ, ◌-◌, ◌++◌, Bool, true, false, not, ◌&&◌, ◌||◌, Option, none, some, List, [], ◌∷◌, map, Text,
  text, ◌==◌, join, if◌then◌else◌, ltb, leb, any, is_some, is_empty, bind_option, or_else,
  map_option, length, take, filter, gather,
}
use garage_admin_console.Api.{BucketKey, BucketListItem, ListResult, S3Connection}
use garage_admin_console.Locale.{Locale, format_count}
use garage_admin_console.BucketName.{bucket_display_label, bucket_display_name}
use garage_admin_console.Attention.{
  AttentionItem, AttentionResult, bucket_page, buckets, settings, warning, then_check, only_items,
  only_unknown, multipart_warning_count, console_key_hint_count,
}

-- `consoleKey`
unfoldable pub console_key : Option S3Connection → Option Text
console_key conn =
    bind_option conn
      (λ c. bind_option c.access_key_id (λ id. if is_empty id then none else some id))

-- `name` in the loop
abbrev pub name_of : BucketListItem → Text
name_of b =
    bucket_display_label
      (bucket_display_name b.id (some b.global_aliases) (some (map (λ a. a.alias) b.local_aliases)))

-- `b.keys.find((k) => k.accessKeyId === consoleKey)`
abbrev pub find_key : Text → List BucketKey → Option BucketKey
find_key id [] = none
find_key id (k ∷ ks) = if k.access_key_id == id then some k else find_key id ks

-- `perm?.read && perm.write`
abbrev pub has_access : Option BucketKey → Bool
has_access none = false
has_access (some k) = k.read && k.write

-- What the loop does with a bucket that the console's key `id` should reach.
unfoldable pub lacks_access : Text → BucketListItem → Bool
lacks_access id b = elim b.bucket_keys [
  | none ↦ false
  | some ks ↦ not (has_access (find_key id ks))
]

-- Whether the loop sets `partial` at a bucket.
unfoldable pub is_partial : Option Text → BucketListItem → Bool
is_partial key b =
    not (is_some b.unfinished_multipart_uploads) || (is_some key && not (is_some b.bucket_keys))

-- `noConsoleAccess`
abbrev pub no_console_access : Option Text → List BucketListItem → List Text
no_console_access none bs = []
no_console_access (some id) bs = map name_of (filter (lacks_access id) bs)

module _ (l : Locale) where
  -- The item of the loop at a bucket.
  unfoldable pub bucket_items : BucketListItem → List AttentionItem
  bucket_items b =
      if leb multipart_warning_count (or_else b.unfinished_multipart_uploads 0)
      then record {
        id = text "multipart:" ++ b.id;
        severity = warning;
        message =
            text "バケット "
            ++ name_of b
            ++ text " に未完了のマルチパートアップロードが "
            ++ format_count l b.unfinished_multipart_uploads
            ++ text " 件あります";
        hint = none;
        link = some (bucket_page b.id (some settings));
      }
        ∷ []
      else []

  -- The item on the buckets that the console's key cannot use, given their names.
  unfoldable pub console_key_items : List Text → List AttentionItem
  console_key_items names =
      let head = join (text "、") (take console_key_hint_count names) in
      if ltb 0 (length names)
      then record {
        id = text "console-key";
        severity = warning;
        message =
            text "コンソールの S3 キーに read / write 権限のないバケットが "
            ++ format_count l (some (length names))
            ++ text " 件あります(オブジェクトブラウザで閲覧・操作できません)";
        hint = some (
            if ltb console_key_hint_count (length names)
            then head
              ++ text " ほか "
              ++ format_count l (some (length names - console_key_hint_count))
              ++ text " 件"
            else head);
        link = some buckets;
      }
        ∷ []
      else []

  -- 7 and 8.
  unfoldable pub buckets_report : Option Text → ListResult BucketListItem → AttentionResult
  buckets_report key bs =
      then_check (only_unknown (if bs.truncated then text "バケット(一覧が上限で打ち切られています)" ∷ [] else [])) (
        then_check (only_items (gather bucket_items bs.items)) (
          then_check (only_items (console_key_items (no_console_access key bs.items)))
            (only_unknown (if any (is_partial key) bs.items then text "バケット(一部の詳細)" ∷ [] else []))))
