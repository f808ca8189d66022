-- ===== src/AdminScopes.antt =====
-- frontend/src/lib/admin-scopes.ts: the endpoints that an admin token's scope names, when a scope
-- amounts to all of them, and the scope that the console's own token needs.
pub mod Preset
pub mod Editor
use garage_admin_console.Base.{
  ℕ, ◌++◌, Bool, true, false, not, ◌&&◌, ◌||◌, Option, none, some, List, [], ◌∷◌, map, Text, text,
  ◌==◌, contains, dedupe, join, if◌then◌else◌, eqb, is_empty, filter, all, length,
}
use garage_admin_console.Base.Sorting.{sort}
use garage_admin_console.Locale.{compare_units, decimal}

pub record AdminScopeCategory : Type 0 where
  pub label : Text
  pub endpoints : List Text

-- `ALL_SCOPE`
abbrev pub all_scope : Text
all_scope = text "*"

-- `ADMIN_SCOPE_CATEGORIES`
unfoldable pub admin_scope_categories : List AdminScopeCategory
admin_scope_categories =
    record {
      label = text "Cluster";
      endpoints =
          text "GetClusterStatus"
          ∷ text "GetClusterHealth"
          ∷ text "GetClusterStatistics"
          ∷ text "ConnectClusterNodes"
          ∷ [];
    }
    ∷ record {
      label = text "Layout";
      endpoints =
          text "GetClusterLayout"
          ∷ text "GetClusterLayoutHistory"
          ∷ text "UpdateClusterLayout"
          ∷ text "PreviewClusterLayoutChanges"
          ∷ text "ApplyClusterLayout"
          ∷ text "RevertClusterLayout"
          ∷ text "ClusterLayoutSkipDeadNodes"
          ∷ [];
    }
    ∷ record {
      label = text "Buckets";
      endpoints =
          text "ListBuckets"
          ∷ text "ListBucketsInfo"
          ∷ text "GetBucketInfo"
          ∷ text "CreateBucket"
          ∷ text "UpdateBucket"
          ∷ text "DeleteBucket"
          ∷ text "CleanupIncompleteUploads"
          ∷ text "InspectObject"
          ∷ text "AddBucketAlias"
          ∷ text "RemoveBucketAlias"
          ∷ text "AllowBucketKey"
          ∷ text "DenyBucketKey"
          ∷ [];
    }
    ∷ record {
      label = text "Keys";
      endpoints =
          text "ListKeys"
          ∷ text "ListKeysInfo"
          ∷ text "GetKeyInfo"
          ∷ text "CreateKey"
          ∷ text "ImportKey"
          ∷ text "UpdateKey"
          ∷ text "DeleteKey"
          ∷ [];
    }
    ∷ record {
      label = text "Admin tokens";
      endpoints =
          text "ListAdminTokens"
          ∷ text "GetAdminTokenInfo"
          ∷ text "CreateAdminToken"
          ∷ text "UpdateAdminToken"
          ∷ text "DeleteAdminToken"
          ∷ text "GetCurrentAdminTokenInfo"
          ∷ [];
    }
    ∷ record {
      label = text "Nodes & maintenance";
      endpoints =
          text "GetNodeInfo"
          ∷ text "GetNodeStatistics"
          ∷ text "CreateMetadataSnapshot"
          ∷ text "LaunchRepairOperation"
          ∷ [];
    }
    ∷ record {
      label = text "Blocks";
      endpoints =
          text "ListBlockErrors"
          ∷ text "GetBlockInfo"
          ∷ text "RetryBlockResync"
          ∷ text "PurgeBlocks"
          ∷ [];
    }
    ∷ record {
      label = text "Workers";
      endpoints =
          text "ListWorkers"
          ∷ text "GetWorkerInfo"
          ∷ text "GetWorkerVariable"
          ∷ text "SetWorkerVariable"
          ∷ [];
    }
    ∷ record { label = text "Special"; endpoints = text "Metrics" ∷ [] }
    ∷ []

abbrev flatten : List AdminScopeCategory → List Text
flatten [] = []
flatten (c ∷ cs) = c.endpoints ++ flatten cs

-- `ALL_ADMIN_ENDPOINTS`
unfoldable pub all_admin_endpoints : List Text
unfolding admin_scope_categories
all_admin_endpoints = flatten admin_scope_categories

-- `PRIVILEGE_ESCALATION_ENDPOINTS`
abbrev pub privilege_escalation_endpoints : List Text
privilege_escalation_endpoints = text "CreateAdminToken" ∷ text "UpdateAdminToken" ∷ []

-- `isFullScope`
unfoldable pub is_full_scope : List Text → Bool
is_full_scope scope = contains scope all_scope

-- `knownScopeCount`
unfoldable pub known_scope_count : List Text → ℕ
known_scope_count scope = length (filter (λ e. contains scope e) all_admin_endpoints)

-- `scopeLabel`
unfoldable pub scope_label : List Text → Text
scope_label scope =
    if is_full_scope scope
    then text "すべて"
    else decimal (known_scope_count scope) ++ (text "/" ++ decimal (length all_admin_endpoints))

-- `scopeScore`, with `Number.MAX_SAFE_INTEGER`.
unfoldable pub scope_score : List Text → ℕ
scope_score scope = if is_full_scope scope then 9007199254740991 else length scope

-- `unknownScopeEntries`
unfoldable pub unknown_scope_entries : List Text → List Text
unknown_scope_entries scope =
    filter (λ s. not (s == all_scope) && not (contains all_admin_endpoints s)) scope

-- `sameScope`
unfoldable pub same_scope : List Text → List Text → Bool
same_scope a b = if not (eqb (length a) (length b)) then false else all (λ s. contains a s) b

-- `ESCALATION_WARNING`
abbrev escalation_warning : Text
escalation_warning = text "このスコープは * と同等の権限になります"

pub record ScopeEscalation : Type 0 where
  pub escalates : Bool
  pub reason : Option Text
  pub endpoints : List Text

-- `scopeEscalates`, given the escalating endpoints that the scope has.
escalation_of : List Text → ScopeEscalation
escalation_of [] = record { escalates = false; reason = none; endpoints = [] }
escalation_of (e ∷ es) = record {
  escalates = true;
  reason = some (join (text " / ") (e ∷ es) ++ text " を許可したトークンは、* のトークンを作成したり自分のスコープを広げたりできます。");
  endpoints = e ∷ es;
}

-- `scopeEscalates`
unfoldable pub scope_escalates : List Text → ScopeEscalation
unfolding escalation_of is_full_scope
scope_escalates scope =
    if is_full_scope scope
    then record {
      escalates = true;
      reason = some (text "すべてのエンドポイント(*)を許可しています。");
      endpoints = all_scope ∷ [];
    }
    else escalation_of (filter (λ e. contains scope e) privilege_escalation_endpoints)

-- `escalationMessage`
unfoldable pub escalation_message : List Text → Option Text
escalation_message scope = elim (scope_escalates scope).reason [
  | none ↦ none
  | some reason ↦ some (escalation_warning ++ (text "。" ++ reason))
]

-- `SCOPE_EXEMPT_ENDPOINTS`
abbrev pub scope_exempt_endpoints : List Text
scope_exempt_endpoints = text "GetCurrentAdminTokenInfo" ∷ []

-- The test of the first filter of `consolePresetScope`.
unfoldable pub is_preset_endpoint : Text → Bool
is_preset_endpoint e =
    not (e == all_scope)
    && (not (contains privilege_escalation_endpoints e) && not (contains scope_exempt_endpoints e))

-- `consolePresetScope`
unfoldable pub console_preset_scope : List Text → List Text
console_preset_scope console_scope =
    let wanted = dedupe (filter is_preset_endpoint console_scope) in
    let known = filter (λ e. contains wanted e) all_admin_endpoints in
    known ++ sort compare_units (filter (λ e. not (contains known e)) wanted)

pub record ConsoleCoverage : Type 0 where
  pub covers : Bool
  pub missing : List Text

-- `scopeCoversConsole`
unfoldable pub scope_covers_console : List Text → List Text → ConsoleCoverage
scope_covers_console scope console_scope =
    let missing = filter (λ e. not (contains scope e)) (console_preset_scope console_scope) in
    if is_full_scope scope
    then record { covers = true; missing = [] }
    else record { covers = is_empty missing; missing = missing }
