-- ===== src/ObjectList/Deletion.antt =====
-- frontend/src/components/object-browser.tsx: what deletions of selected objects and of a prefix leave
-- selected, say and show next; the parent of a prefix and the limit of a ZIP download.
use mathlib.Core.List.{reverse}
use garage_admin_console.Base.{
  ℕ, ◌++◌, Bool, not, ◌&&◌, Option, none, some, List, [], ◌∷◌, map, Text, text, ◌==◌, starts_with,
  split, join, dedupe, if◌then◌else◌, ltb, length, filter,
}
use garage_admin_console.Locale.{decimal}

-- An entry of `errors` of `BatchDeleteResult`
pub record DeleteError : Type 0 where
  pub key : Text
  pub code : Option Text
  pub message : Text

pub record BatchDeleteResult : Type 0 where
  pub deleted : ℕ
  pub errors : List DeleteError
  pub truncated : Bool

pub data Toast : Type 0 where
  success_toast warning_toast error_toast : (message : Text) → Toast

abbrev pub drop_slash : Text → Text
drop_slash [] = []
drop_slash (c ∷ s) = if starts_with (c ∷ s) (text "/") then s else c ∷ s

abbrev pub drop_first : List Text → List Text
drop_first [] = []
drop_first (s ∷ ss) = ss

abbrev pub joined_prefix : List Text → Text
joined_prefix [] = []
joined_prefix (s ∷ ss) = join (text "/") (s ∷ ss) ++ text "/"

-- `parentPrefix`
unfoldable pub parent_prefix : Text → Text
parent_prefix prefix =
    joined_prefix
      (reverse (drop_first (reverse (split b'/' (reverse (drop_slash (reverse prefix)))))))

abbrev failure_toast : ℕ → List DeleteError → DeleteError → Toast
failure_toast deleted errors first = error_toast (
    decimal deleted
    ++ text "件を削除し、"
    ++ decimal (length errors)
    ++ text "件の削除に失敗しました: "
    ++ first.key
    ++ text ": "
    ++ first.message)

abbrev bulk_toast : ℕ → List DeleteError → Toast
bulk_toast deleted [] = success_toast (decimal deleted ++ text "件のオブジェクトを削除しました")
bulk_toast deleted (e ∷ es) = failure_toast deleted (e ∷ es) e

-- `onSuccess` of `bulkDeleteMutation`: the selection after it, and the toast
unfoldable pub bulk_deleted : BatchDeleteResult → List Text × Toast
bulk_deleted result =
    (dedupe (map (λ e. e.key) result.errors), bulk_toast result.deleted result.errors)

-- `onSuccess` of `deleteMutation`: the selection after it
unfoldable pub object_deleted : Text → List Text → List Text
object_deleted key selected = filter (λ k. not (k == key)) selected

-- The toast of `prefixDeleteMutation`, and the prefix to which the page goes
unfoldable pub prefix_deleted_without_errors : Text → Text → ℕ → Bool → Toast × Option Text
prefix_deleted_without_errors target prefix deleted truncated =
    if truncated
    then (warning_toast (decimal deleted ++ text "件を削除しました。上限に達したため残りがあります。もう一度実行してください"), none)
    else (
      success_toast (text "「" ++ target ++ text "」以下の" ++ decimal deleted ++ text "件を削除しました"),
      if target == prefix && starts_with (reverse target) (text "/")
          then some (parent_prefix target)
          else none,
    )

abbrev pub prefix_outcome : Text → Text → BatchDeleteResult → List DeleteError → Toast × Option Text
prefix_outcome target prefix result [] =
    prefix_deleted_without_errors target prefix result.deleted result.truncated
prefix_outcome target prefix result (e ∷ es) = (failure_toast result.deleted (e ∷ es) e, none)

-- `onSuccess` of `prefixDeleteMutation`
unfoldable pub prefix_deleted : Text → Text → BatchDeleteResult → Toast × Option Text
prefix_deleted target prefix result = prefix_outcome target prefix result result.errors

-- `MAX_BATCH_DOWNLOAD_KEYS` of api.ts
abbrev pub max_batch_download_keys : ℕ
max_batch_download_keys = 1000

-- `tooManyForZip`
unfoldable pub is_too_many_for_zip : List Text → Bool
is_too_many_for_zip selected = ltb max_batch_download_keys (length selected)
