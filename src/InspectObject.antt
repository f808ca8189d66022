-- ===== src/InspectObject.antt =====
-- frontend/src/lib/inspect-object.ts and bucket-detail-tabs.ts: the versions and blocks of an object,
-- the search parameters of the pages on buckets and blocks, and the folder of a key.
pub mod Pages
pub mod Folders
use garage_admin_console.Base.{
  ℕ, suc, ◌+◌, ◌-◌, ◌++◌, ◌&&◌, ◌||◌, min, Bool, true, false, not, Option, none, some, List, [],
  ◌∷◌, map, Text, text, ◌==◌, trim, if◌then◌else◌, ltb, leb, eqb, is_empty, is_some, or_else,
  map_option, bind_option, filter, all, length, take,
}
use garage_admin_console.Api.{
  InspectObjectBlock, VersionFlags, BlockVersionBacklink, object, upload,
}
use garage_admin_console.Locale.{Locale, decimal}
use garage_admin_console.Attention.{BucketTabSearch, access, settings}

-- `VersionStateKind`
pub data VersionStateKind : Type 0 where
  uploading aborted delete_marker complete unknown : VersionStateKind

pub data Variant : Type 0 where
  default secondary destructive outline : Variant

pub record VersionState : Type 0 where
  pub kind : VersionStateKind
  pub label : Text
  pub variant : Variant

-- `[v.uploading, v.aborted, v.deleteMarker].filter(Boolean).length`
abbrev pub flag_count : VersionFlags → ℕ
flag_count v = length (filter (λ b. b) (v.uploading ∷ v.aborted ∷ v.delete_marker ∷ []))

-- `versionState`
unfoldable pub version_state : VersionFlags → VersionState
version_state v =
    if ltb 1 (flag_count v)
    then record { kind = unknown; label = text "不明な状態"; variant = destructive }
    else if v.uploading
    then record { kind = uploading; label = text "アップロード中"; variant = outline }
    else if v.aborted
    then record { kind = aborted; label = text "中断されたアップロード"; variant = destructive }
    else if v.delete_marker
    then record { kind = delete_marker; label = text "削除マーカー"; variant = secondary }
    else record { kind = complete; label = text "完了"; variant = default }

-- `versionStorageLabel`
unfoldable pub version_storage_label :
    Locale → VersionFlags → Bool → Option (List InspectObjectBlock) → Text
version_storage_label l v is_inline blocks =
    let n = or_else (map_option length blocks) 0 in
    if v.delete_marker
    then text "データなし"
    else if is_inline
    then text "インライン(ブロックなし)"
    else if ltb 0 n
    then l.format_number n ++ text " ブロック"
    else if v.uploading
    then text "アップロード中のパートはここには表示されません(未完了マルチパートの統計を参照)"
    else if v.aborted
    then text "ブロックなし"
    else text "ブロック情報なし"

-- `encryptionLabel`
unfoldable pub encryption_label : Bool → Text
encryption_label encrypted = if encrypted then text "SSE-C" else text "なし"

-- `shortHash`
unfoldable pub short_hash : Text → Text
short_hash hash = if ltb 16 (length hash) then take 16 hash ++ text "…" else hash

-- `BlockRow`
pub record BlockRow : Type 0 where
  pub id : Text
  pub part_number : ℕ
  pub offset : ℕ
  pub offset_label : Text
  pub hash : Text
  pub short_hash_of : Text
  pub size_label : Text

-- `BLOCK_PAGE_SIZE`
abbrev pub block_page_size : ℕ
block_page_size = 200

-- The result of `visibleBlockRows`.
pub record VisibleRows : Type 0 where
  pub rows : List BlockRow
  pub remaining : ℕ

-- With `formatBytes` of format.ts, which works on floating-point numbers.
module _ (l : Locale) (format_bytes : ℕ → Text) where
  -- `blockRow`
  unfoldable pub block_row : InspectObjectBlock → BlockRow
  block_row b = record {
    id = decimal b.part_number ++ (text ":" ++ decimal b.offset);
    part_number = b.part_number;
    offset = b.offset;
    offset_label = l.format_number b.offset;
    hash = b.hash;
    short_hash_of = short_hash b.hash;
    size_label = format_bytes b.size;
  }

  -- `visibleBlockRows`, for a limit that is not negative.
  unfoldable pub visible_block_rows : Option (List InspectObjectBlock) → ℕ → VisibleRows
  visible_block_rows blocks limit =
      let all_blocks = or_else blocks [] in
      let n = min limit (length all_blocks) in
      record { rows = map block_row (take n all_blocks); remaining = length all_blocks - n }

-- `nextBlockLimit`
unfoldable pub next_block_limit : ℕ → ℕ → ℕ
next_block_limit current total = min (current + block_page_size) total

-- A search value: a string, or any other value that the router parses.
pub data SearchValue : Type 0 where
  string : Text → SearchValue
  other : SearchValue

-- `searchString`
abbrev pub search_string : SearchValue → Option Text
search_string (string s) = some s
search_string other = none

-- `s || undefined`
abbrev or_undefined : Option Text → Option Text
or_undefined none = none
or_undefined (some s) = if is_empty s then none else some s

-- `parseBlocksSearch`, of the search's `hash`.
unfoldable pub parse_blocks_search : Locale → SearchValue → Option Text
parse_blocks_search l hash =
    or_undefined (map_option (λ s. l.to_lower (trim s)) (search_string hash))

-- `isBlockHash`
unfoldable pub is_block_hash : Text → Bool
is_block_hash hash =
    eqb (length hash) 64 && all (λ c. (leb b'0' c && leb c b'9') || (leb b'a' c && leb c b'f')) hash

-- `{ access?, settings? }`
pub record BucketTabBadges : Type 0 where
  pub access_badge : Option ℕ
  pub settings_badge : Option ℕ

-- `bucketTabBadges`, of the number of the bucket's keys and of its unfinished multipart uploads,
-- either of which may be missing; no bucket is none
unfoldable pub bucket_tab_badges : Option (Option ℕ × Option ℕ) → BucketTabBadges
bucket_tab_badges none = record { access_badge = none; settings_badge = none }
bucket_tab_badges (some (keys, uploads)) = record {
  access_badge = keys;
  settings_badge = bind_option uploads (λ n. if ltb 0 n then some n else none);
}

-- `BucketTab`
pub data BucketTab : Type 0 where
  objects : BucketTab
  tab : BucketTabSearch → BucketTab

-- The text of a tab in the URL.
unfoldable pub tab_text : BucketTabSearch → Text
tab_text access = text "access"
tab_text settings = text "settings"

-- `parseBucketTab`
unfoldable pub parse_bucket_tab : SearchValue → Option BucketTabSearch
parse_bucket_tab other = none
parse_bucket_tab (string s) =
    if s == text "access" then some access else if s == text "settings" then some settings else none

-- `bucketTabSearch`
unfoldable pub bucket_tab_search : BucketTab → Option BucketTabSearch
bucket_tab_search objects = none
bucket_tab_search (tab t) = some t

-- The result of `parseBucketDetailSearch`.
pub record BucketDetailSearch : Type 0 where
  pub tab_search : Option BucketTabSearch
  pub prefix : Option Text
  pub inspect : Option Text

-- `parseBucketDetailSearch`, of the three search values.
unfoldable pub parse_bucket_detail_search :
    SearchValue → SearchValue → SearchValue → BucketDetailSearch
parse_bucket_detail_search tab_value prefix_value inspect_value =
    let parsed = parse_bucket_tab tab_value in
    record {
      tab_search = parsed;
      prefix = or_undefined (search_string prefix_value);
      inspect = if is_some parsed then none else or_undefined (search_string inspect_value);
    }

-- `key.lastIndexOf('/') + 1`, where `lastIndexOf` gives -1 for a key without a slash.
abbrev pub after_last_slash : Text → ℕ
after_last_slash [] = 0
after_last_slash (c ∷ s) =
    let rest = after_last_slash s in if ltb 0 rest then suc rest else if eqb c b'/' then 1 else 0

-- `objectFolder`
unfoldable pub object_folder : Text → Text
object_folder key = take (after_last_slash key) key

-- The object that `backlinkObject` gives.
pub record LinkedObject : Type 0 where
  pub bucket_id : Text
  pub key : Text

-- `backlinkObject`
unfoldable pub backlink_object : Option BlockVersionBacklink → Option LinkedObject
backlink_object none = none
backlink_object (some (object bucket_id key)) = some (record { bucket_id = bucket_id; key = key })
backlink_object (some (upload bucket_id key)) =
    bind_option (or_undefined bucket_id)
      (λ b. map_option (λ k. record { bucket_id = b; key = k }) (or_undefined key))
