-- ===== src/Aliases.antt =====
-- frontend/src/components/bucket-aliases.tsx: the rows of a bucket's aliases, the check of a new
-- name, and when it may be added.
use mathlib.Core.List.{reverse}
use garage_admin_console.Base.{
  ℕ, ◌*◌, ◌+◌, ◌-◌, ◌++◌, Bool, false, not, ◌&&◌, ◌||◌, Option, none, some, List, [], ◌∷◌, map,
  Text, text, ◌==◌, trim, split, starts_with, if◌then◌else◌, leb, ltb, eqb, is_empty, is_some,
  or_else, length, all, any, gather, map_option,
}

-- An entry of `bucket.keys` of a bucket
pub record AliasKey : Type 0 where
  pub access_key_id : Text
  pub name : Text
  pub bucket_local_aliases : Option (List Text)

pub data AliasRow : Type 0 where
  global : (alias : Text) → AliasRow
  local : (alias access_key_id key_name : Text) → AliasRow

pub data AliasTarget : Type 0 where
  global_alias : (alias : Text) → AliasTarget
  local_alias : (alias access_key_id : Text) → AliasTarget

-- `rowTarget`
unfoldable pub row_target : AliasRow → AliasTarget
row_target (global alias) = global_alias alias
row_target (local alias access_key_id key_name) = local_alias alias access_key_id

-- `bucketAliasRows`, of the bucket's global aliases and keys
unfoldable pub bucket_alias_rows : Option (List Text) → Option (List AliasKey) → List AliasRow
bucket_alias_rows global_aliases keys =
    map global (or_else global_aliases [])
    ++ gather
        (λ k. map (λ alias. local alias k.access_key_id k.name) (or_else k.bucket_local_aliases []))
        (or_else keys [])

abbrev is_digit : ℕ → Bool
is_digit c = leb b'0' c && leb c b'9'

-- `/^[a-z0-9]$/` of one character
abbrev is_lower_or_digit : ℕ → Bool
is_lower_or_digit c = is_digit c || (leb b'a' c && leb c b'z')

-- `Number(p)` of digits
unfoldable pub octet_value : ℕ → Text → ℕ
octet_value acc [] = acc
octet_value acc (c ∷ s) = octet_value (acc * 10 + (c - b'0')) s

-- `/^(0|[1-9]\d{0,2})$/.test(p) && Number(p) <= 255`
unfoldable pub is_octet : Text → Bool
is_octet [] = false
is_octet (c ∷ s) =
    ((eqb c b'0' && is_empty s) || (leb b'1' c && leb c b'9' && leb (length s) 2 && all is_digit s))
    && leb (octet_value 0 (c ∷ s)) 255

-- `isIPv4`
unfoldable pub is_ipv4 : Text → Bool
is_ipv4 name = let parts = split b'.' name in eqb (length parts) 4 && all is_octet parts

abbrev starts_well : Text → Bool
starts_well [] = false
starts_well (c ∷ s) = is_lower_or_digit c

-- `aliasNameError`; a name of three characters has two ends
unfoldable pub alias_name_error : Text → Option Text
alias_name_error name =
    if ltb (length name) 3 || ltb 63 (length name)
    then some (text "3〜63 文字で入力してください")
    else if not (all (λ c. is_lower_or_digit c || eqb c b'.' || eqb c b'-') name)
    then some (text "英小文字・数字・ハイフン・ドットのみ使えます")
    else if not (starts_well name && starts_well (reverse name))
    then some (text "先頭と末尾は英小文字か数字にしてください")
    else if is_ipv4 name
    then some (text "IP アドレス形式の名前は使えません")
    else if starts_with (reverse name) (reverse (text "-s3alias"))
    then some (text "「-s3alias」で終わる名前は使えません")
    else none

-- `r.accessKeyId === keyId`
abbrev is_key : Text → Option Text → Bool
is_key access_key_id none = false
is_key access_key_id (some id) = access_key_id == id

abbrev is_same_alias : Bool → Option Text → Text → AliasRow → Bool
is_same_alias is_local key_id alias (global name) = not is_local && name == alias
is_same_alias is_local key_id alias (local name access_key_id key_name) =
    is_local && is_key access_key_id key_id && name == alias

-- `duplicate`
unfoldable pub is_duplicate : Bool → Option Text → Text → List AliasRow → Bool
is_duplicate is_local key_id alias rows = any (is_same_alias is_local key_id alias) rows

-- `canAdd`, of the text of the field
unfoldable pub can_add : Bool → Option Text → Text → List AliasRow → Bool → Bool
can_add is_local key_id alias_input rows is_pending =
    let alias = trim alias_input in
    not (is_empty alias)
    && not (is_some (alias_name_error alias))
    && not (is_duplicate is_local key_id alias rows)
    && (not is_local || or_else (map_option (λ id. not (is_empty id)) key_id) false)
    && not is_pending
