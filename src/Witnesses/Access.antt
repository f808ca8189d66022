-- ===== src/Witnesses/Access.antt =====
-- The theorems on scopes, imported keys and the object browser, at concrete inputs.
use garage_admin_console.Base.{
  ◌≡◌, ◌≢◌, ◌↔◌, ◌⊎◌, true, false, ◌&&◌, none, some, List, [], ◌∷◌, Text, text, trim, contains, All,
  map_option,
}
use garage_admin_console.AdminScopes.{
  scope_escalates, console_preset_scope, is_preset_endpoint, scope_covers_console,
}
use garage_admin_console.AdminScopes.Preset.{
  contains-console_preset_scope, console_preset_scope-escalates, scope_covers_console_iff,
}
use garage_admin_console.Keys.{ImportKeyForm, validate_import_key}
use garage_admin_console.Keys.Import.{IsKeyId, IsSecret, validate_import_key-body_iff}
use garage_admin_console.ObjectBrowser.{
  ConsoleAccessInput, api_error, granted, console_access_view, grant, list,
  is_console_key_access_denied, is_missing_key_error,
}
use garage_admin_console.ObjectBrowser.Granting.{MayGrantAgain, console_access_view_iff}
use garage_admin_console.Base.{ℕ, ◌+◌, ◌*◌, ◌-◌, length, map, take}
use garage_admin_console.Locale.{decimal}
use garage_admin_console.Witnesses.{sample_locale}
use garage_admin_console.Api.{InspectObjectBlock}
use garage_admin_console.InspectObject.{block_row, block_page_size}
use garage_admin_console.InspectObject.Pages.{pages, visible_block_rows-pages}

abbrev scope : List Text
scope = text "ListBuckets" ∷ text "CreateAdminToken" ∷ []

contains-console_preset_scope_example :
    contains (console_preset_scope scope) (text "ListBuckets")
    ≡ (contains scope (text "ListBuckets") && is_preset_endpoint (text "ListBuckets"))
contains-console_preset_scope_example = contains-console_preset_scope scope (text "ListBuckets")

console_preset_scope-escalates_example :
    (scope_escalates (console_preset_scope scope)).escalates ≡ false
console_preset_scope-escalates_example = console_preset_scope-escalates scope

scope_covers_console_iff_example :
    let coverage = scope_covers_console scope (text "ListKeys" ∷ []) in
    ((coverage.covers ≡ true) ↔ (
      (contains scope (text "*") ≡ true)
      ⊎ All (λ e. contains scope e ≡ true) (console_preset_scope (text "ListKeys" ∷ []))))
    × ((coverage.covers ≡ true) ↔ (coverage.missing ≡ []))
scope_covers_console_iff_example = scope_covers_console_iff scope (text "ListKeys" ∷ [])

abbrev form : ImportKeyForm
form = record {
  name = [];
  access_key_id = text "GK0123456789abcdef01234567 ";
  secret_access_key = text "0123456789abcdef";
}

validate_import_key-body_iff_example :
    let v = validate_import_key form in
    ((v.body ≢ none) ↔ (IsKeyId (trim form.access_key_id) × IsSecret (trim form.secret_access_key)))
    × ((v.body ≢ none) ↔ ((v.errors.access_key_id ≡ none) × (v.errors.secret_access_key ≡ none)))
    × (map_option (λ b. b.access_key_id) v.body ≡ map_option (λ b. trim form.access_key_id) v.body)
    × (map_option (λ b. b.secret_access_key) v.body
        ≡ map_option (λ b. trim form.secret_access_key) v.body)
validate_import_key-body_iff_example = validate_import_key-body_iff form

abbrev denied : ConsoleAccessInput
denied = record {
  list_error = some (api_error 403 (some (text "AccessDenied")));
  list_error_at = 5;
  last_grant = some (granted true 9);
  key_lookup_error = none;
  key_expired = false;
}

console_access_view_iff_example :
    ((console_access_view denied ≡ list) ↔ (is_console_key_access_denied denied.list_error ≡ false))
    × ((console_access_view denied ≡ grant) ↔ (
        (is_console_key_access_denied denied.list_error ≡ true)
        × (denied.key_expired ≡ false)
        × (is_missing_key_error denied.key_lookup_error ≡ false)
        × MayGrantAgain denied.list_error_at denied.last_grant))
console_access_view_iff_example = console_access_view_iff denied

abbrev first_blocks : List InspectObjectBlock
first_blocks =
    record { part_number = 1; offset = 0; hash = text "00ff"; size = 10 }
    ∷ record { part_number = 1; offset = 10; hash = text "11ee"; size = 5 }
    ∷ []

visible_block_rows-pages_example :
    ((pages sample_locale decimal first_blocks 1 0).rows
      ≡ map (block_row sample_locale decimal) (take (1 + 0 * block_page_size) first_blocks))
    × ((pages sample_locale decimal first_blocks 1 0).remaining
        ≡ length first_blocks - (1 + 0 * block_page_size))
    × ((m : ℕ) × (pages sample_locale decimal first_blocks 1 m
          ≡ record { rows = map (block_row sample_locale decimal) first_blocks; remaining = 0 }))
visible_block_rows-pages_example = visible_block_rows-pages sample_locale decimal first_blocks 1 0
