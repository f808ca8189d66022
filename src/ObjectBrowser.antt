-- ===== src/ObjectBrowser.antt =====
-- frontend/src/lib/object-browser.ts: what the object browser offers when the listing of a bucket
-- fails.
pub mod Granting
use garage_admin_console.Base.{
  ℕ, Bool, true, false, not, ◌&&◌, ◌||◌, Option, none, some, List, [], ◌∷◌, Text, text, ◌==◌,
  contains, trim, if◌then◌else◌, ltb, eqb, is_empty, or_else, map_option,
}

-- A thrown value: an `ApiError` of api.ts, or anything else.
pub data Failure : Type 0 where
  api_error : (status : ℕ) (code : Option Text) → Failure
  other_error : Failure

-- `ACCESS_DENIED_CODES`
abbrev access_denied_codes : List Text
access_denied_codes = text "AccessDenied" ∷ text "Forbidden" ∷ []

-- `isConsoleKeyAccessDenied`; `none` is no error.
unfoldable pub is_console_key_access_denied : Option Failure → Bool
is_console_key_access_denied (some (api_error status (some code))) =
    eqb status 403 && contains access_denied_codes code
is_console_key_access_denied _ = false

-- `shouldRetryObjectList`
unfoldable pub should_retry_object_list : ℕ → Failure → Bool
should_retry_object_list failure_count (api_error status code) =
    if ltb status 500 then false else ltb failure_count 1
should_retry_object_list failure_count other_error = ltb failure_count 1

-- `ConsoleGrantResult`
pub data ConsoleGrantResult : Type 0 where
  granted : (changed : Bool) (at : ℕ) → ConsoleGrantResult
  failed : (error : Option Failure) → ConsoleGrantResult

-- `isMissingKeyError`
unfoldable pub is_missing_key_error : Option Failure → Bool
is_missing_key_error (some (api_error status code)) =
    or_else (map_option (λ c. c == text "NoSuchAccessKey") code) false
    || (eqb status 404 && not (or_else (map_option (λ c. c == text "NoSuchBucket") code) false))
is_missing_key_error _ = false

pub record ConsoleAccessInput : Type 0 where
  pub list_error : Option Failure
  pub list_error_at : ℕ
  pub last_grant : Option ConsoleGrantResult
  pub key_lookup_error : Option Failure
  pub key_expired : Bool

-- `ConsoleAccessView`
pub data ConsoleAccessView : Type 0 where
  list grant key_expired key_missing key_invalid : ConsoleAccessView

-- The last three tests of `consoleAccessView`, on the last grant.
view_after_grant : ℕ → Option ConsoleGrantResult → ConsoleAccessView
view_after_grant list_error_at none = grant
view_after_grant list_error_at (some (failed error)) =
    if is_missing_key_error error then key_missing else grant
view_after_grant list_error_at (some (granted changed at)) =
    if not changed || ltb at list_error_at then key_invalid else grant

-- `consoleAccessView`
unfoldable pub console_access_view : ConsoleAccessInput → ConsoleAccessView
unfolding view_after_grant
console_access_view input =
    if not (is_console_key_access_denied input.list_error)
    then list
    else if input.key_expired
    then key_expired
    else if is_missing_key_error input.key_lookup_error
    then key_missing
    else view_after_grant input.list_error_at input.last_grant

-- A text that is there and not empty.
abbrev filled_or : Option Text → Text → Text
filled_or none d = d
filled_or (some s) d = if is_empty s then d else s

-- `consoleKeyLabel`
unfoldable pub console_key_label : Option Text → Option Text → Text
console_key_label access_key_id name =
    filled_or (map_option trim name) (filled_or access_key_id (text "コンソールのキー"))

-- `emptyObjectsMessage`
unfoldable pub empty_objects_message : ℕ → Bool → Text
empty_objects_message prefix_count has_more =
    if has_more
    then text "読み込み済みの範囲にファイルはありません。「さらに読み込む」で続きを表示できます"
    else if ltb 0 prefix_count
    then text "この階層直下にファイルはありません"
    else text "オブジェクトがありません"
