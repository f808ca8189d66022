-- ===== src/Rules.antt =====
-- frontend/src/lib/rules-json.ts and website-routing-rules.ts: the raw-JSON editors of rules, and
-- what the console reports of website routing rules before Garage sees them. JSON.parse is a
-- parameter, as is the text of the error that it throws.
pub mod Garage
pub mod Checked
pub mod Parsing
use garage_admin_console.Base.{
  ℕ, zero, suc, ◌+◌, Bool, true, false, not, ◌&&◌, ◌||◌, Option, none, some, List, [], ◌∷◌, ◌++◌,
  map, ◌⊎◌, inl, inr, Text, text, ◌==◌, trim, if◌then◌else◌, ltb, eqb, is_empty, any, filter,
  contains, join, gather,
}
use garage_admin_console.Locale.{decimal}
use garage_admin_console.Json.{
  Json, Items, Fields, Parser, object, array, end, field, nil, item, lookup, null, other_number,
  boolean, number, string,
}

-- `{ rules } | { error }`; the rules are known to be objects
pub data ParsedRules : Type 0 where
  rules : (objects : List Fields) → ParsedRules
  failed : (error : Text) → ParsedRules

abbrev pub cons_rule : Fields → ℕ ⊎ List Fields → ℕ ⊎ List Fields
cons_rule fields (inl bad) = inl bad
cons_rule fields (inr objects) = inr (fields ∷ objects)

-- The objects of an array, or the first index, from `i` on, of an element that is none
unfoldable pub objects_from : ℕ → Items → ℕ ⊎ List Fields
objects_from i nil = inr []
objects_from i (item (object fields) items) = cons_rule fields (objects_from (suc i) items)
objects_from i (item value items) = inl i

abbrev pub rules_or_error : ℕ ⊎ List Fields → ParsedRules
rules_or_error (inl bad) = failed (decimal (bad + 1) ++ text " 番目の要素がオブジェクトではありません")
rules_or_error (inr objects) = rules objects

-- The tests of `parseRulesJson` on the parsed value
unfoldable pub rules_of : Json → ParsedRules
rules_of (array items) = rules_or_error (objects_from 0 items)
rules_of value = failed (text "ルールは JSON 配列 ([...]) で指定してください")

-- What `JSON.parse` gives, or the message of the error that it throws
abbrev pub Reader : Type 0
Reader = Text → Text ⊎ Json

abbrev pub rules_read : Text ⊎ Json → ParsedRules
rules_read (inl message) = failed (text "JSON の構文エラー: " ++ message)
rules_read (inr value) = rules_of value

-- `parseRulesJson`
unfoldable pub parse_rules_json : Reader → Text → ParsedRules
parse_rules_json read s = rules_read (read (if is_empty (trim s) then text "[]" else s))

-- `REDIRECT_CODES` and `REWRITE_CODES`
abbrev pub redirect_codes : List ℕ
redirect_codes = 301 ∷ 302 ∷ 303 ∷ 307 ∷ 308 ∷ []

abbrev pub rewrite_codes : List ℕ
rewrite_codes = 200 ∷ 404 ∷ []

-- `CONDITION_KEYS` and `REDIRECT_KEYS`
abbrev pub rule_keys : List Text
rule_keys = text "Condition" ∷ text "Redirect" ∷ []

abbrev pub condition_keys : List Text
condition_keys = text "KeyPrefixEquals" ∷ text "HttpErrorCodeReturnedEquals" ∷ []

abbrev pub redirect_keys : List Text
redirect_keys =
    text "HostName"
    ∷ text "Protocol"
    ∷ text "HttpRedirectCode"
    ∷ text "ReplaceKeyPrefixWith"
    ∷ text "ReplaceKeyWith"
    ∷ []

-- `obj[key]`, with nothing for `null` too: `present(obj, key)` where there is something
abbrev pub without_null : Option Json → Option Json
without_null (some null) = none
without_null o = o

unfoldable pub given : Fields → Text → Option Json
given fields key = without_null (lookup key fields)

abbrev pub present : Option Json → Bool
present none = false
present (some value) = true

-- `typeof value === 'string'`
abbrev pub is_string : Option Json → Bool
is_string (some (string s)) = true
is_string _ = false

-- `codes.includes(n)`
unfoldable pub has_code : List ℕ → ℕ → Bool
has_code codes n = any (λ c. eqb c n) codes

-- `codes.includes(value)`
abbrev pub is_code_of : List ℕ → Json → Bool
is_code_of codes (number n) = has_code codes n
is_code_of codes _ = false

-- `Object.keys(obj)`
abbrev pub keys_of : Fields → List Text
keys_of end = []
keys_of (field key value fields) = key ∷ keys_of fields

-- `unknownKeys`
unfoldable pub unknown_keys : Fields → List Text → List Text
unknown_keys fields allowed = filter (λ k. not (contains allowed k)) (keys_of fields)

-- `if (c) errors.push(message)`
abbrev pub report : Bool → Text → List Text
report true message = message ∷ []
report false message = []

-- `HttpErrorCodeReturnedEquals`: nothing or 404
abbrev pub is_wrong_code : Option Json → Bool
is_wrong_code none = false
is_wrong_code (some (number n)) = not (eqb n 404)
is_wrong_code (some value) = true

-- A key whose value is there and no text
abbrev pub is_no_text : Option Json → Bool
is_no_text o = present o && not (is_string o)

-- The errors of `Condition`
unfoldable pub condition_errors : Text → Option Json → List Text
condition_errors prefix none = []
condition_errors prefix (some (object cond)) =
    map (λ k. prefix ++ (text ": Condition に不明なキー \"" ++ (k ++ text "\" があります")))
      (unknown_keys cond condition_keys)
    ++ report (is_no_text (given cond (text "KeyPrefixEquals")))
        (prefix ++ text ": Condition.KeyPrefixEquals は文字列で指定してください")
    ++ report (is_wrong_code (given cond (text "HttpErrorCodeReturnedEquals")))
        (prefix ++ text ": Condition.HttpErrorCodeReturnedEquals は 404 のみ指定できます")
condition_errors prefix (some value) = (prefix ++ text ": Condition はオブジェクトで指定してください") ∷ []

-- The texts of the redirect, of the loop over four keys
abbrev pub text_keys : List Text
text_keys =
    text "HostName" ∷ text "Protocol" ∷ text "ReplaceKeyPrefixWith" ∷ text "ReplaceKeyWith" ∷ []

unfoldable pub not_text_errors : Text → Fields → List Text → List Text
not_text_errors prefix redirect [] = []
not_text_errors prefix redirect (k ∷ ks) =
    report (is_no_text (given redirect k))
      (prefix ++ (text ": Redirect." ++ (k ++ text " は文字列で指定してください")))
    ++ not_text_errors prefix redirect ks

abbrev pub is_other_protocol : Option Json → Bool
is_other_protocol (some (string s)) = not (s == text "http") && not (s == text "https")
is_other_protocol _ = false

abbrev code_text : Json → Text
code_text (number n) = decimal n
code_text value = []

-- The errors of `HttpRedirectCode`
unfoldable pub code_errors : Text → Bool → Bool → Option Json → List Text
code_errors prefix has_host has_protocol none = []
code_errors prefix has_host has_protocol (some code) =
    if is_code_of redirect_codes code
    then report (has_protocol && not has_host)
        (prefix ++ text ": Redirect.Protocol を指定する場合は HostName も指定してください")
    else if is_code_of rewrite_codes code
    then report (has_host || has_protocol) (
        prefix
        ++ text ": HttpRedirectCode が "
        ++ code_text code
        ++ text " のときは HostName / Protocol を指定できません")
    else ((prefix
          ++ text ": Redirect.HttpRedirectCode は "
          ++ join (text " / ") (map decimal redirect_codes)
          ++ text " (リダイレクト) か "
          ++ join (text " / ") (map decimal rewrite_codes)
          ++ text " (書き換え) で指定してください")
        ∷ [])

-- The errors of `Redirect`
unfoldable pub redirect_errors : Text → Option Json → List Text
redirect_errors prefix none = (prefix ++ text ": Redirect は必須です") ∷ []
redirect_errors prefix (some (object redirect)) =
    map (λ k. prefix ++ (text ": Redirect に不明なキー \"" ++ (k ++ text "\" があります")))
      (unknown_keys redirect redirect_keys)
    ++ not_text_errors prefix redirect text_keys
    ++ report (is_other_protocol (given redirect (text "Protocol")))
        (prefix ++ text ": Redirect.Protocol は \"http\" か \"https\" で指定してください")
    ++ report
        (present (given redirect (text "ReplaceKeyPrefixWith"))
          && present (given redirect (text "ReplaceKeyWith")))
        (prefix ++ text ": Redirect.ReplaceKeyPrefixWith と ReplaceKeyWith は同時に指定できません")
    ++ code_errors prefix (is_string (given redirect (text "HostName")))
        (is_string (given redirect (text "Protocol"))) (given redirect (text "HttpRedirectCode"))
redirect_errors prefix (some value) = (prefix ++ text ": Redirect はオブジェクトで指定してください") ∷ []

-- `validateRule`
unfoldable pub validate_rule : Json → Text → List Text
validate_rule (object rule) prefix =
    map
      (λ k. prefix ++ (text ": 不明なキー \"" ++ (k ++ text "\" があります (Condition / Redirect のみ指定できます)")))
      (unknown_keys rule rule_keys)
    ++ condition_errors prefix (given rule (text "Condition"))
    ++ redirect_errors prefix (given rule (text "Redirect"))
validate_rule value prefix = (prefix ++ text ": オブジェクトではありません") ∷ []

-- The loop of `parseRoutingRules`, from the rule with index `i` on
unfoldable pub rules_errors : ℕ → List Fields → List Text
rules_errors i [] = []
rules_errors i (rule ∷ rest) =
    validate_rule (object rule) (decimal (i + 1) ++ text " 番目のルール") ++ rules_errors (suc i) rest

-- `RoutingRulesParseResult`
pub data RoutingRulesParseResult : Type 0 where
  accepted : (objects : List Fields) → RoutingRulesParseResult
  errors : (messages : List Text) → RoutingRulesParseResult

abbrev pub result_of : ParsedRules → RoutingRulesParseResult
result_of (failed error) = errors (error ∷ [])
result_of (rules objects) =
    let messages = rules_errors 0 objects in
    if is_empty messages then accepted objects else errors messages

-- `parseRoutingRules`
unfoldable pub parse_routing_rules : Reader → Text → RoutingRulesParseResult
parse_routing_rules read s = result_of (parse_rules_json read s)
