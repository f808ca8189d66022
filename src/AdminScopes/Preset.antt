-- ===== src/AdminScopes/Preset.antt =====
-- What the scopes of frontend/src/lib/admin-scopes.ts grant.
use garage_admin_console.Base.{
  ◌≡◌, refl, ◌↔◌, ◌⊎◌, inl, inr, true, false, not, ◌&&◌, ◌||◌, List, [], Text, text, ◌==◌, ==_refl,
  contains, contains-append, contains-filter, contains-dedupe, dedupe, arith, Bool-cases,
  is_empty-filter-not_iff, filter, All,
}
use garage_admin_console.Base.Sorting.{sort, sort-any}
use garage_admin_console.Locale.{compare_units}
use garage_admin_console.AdminScopes.{
  all_admin_endpoints, is_full_scope, scope_escalates, escalation_of, is_preset_endpoint,
  console_preset_scope, scope_covers_console,
}

-- A scope is told to escalate exactly if it has `*`, `CreateAdminToken` or `UpdateAdminToken`.
pub scope_escalates_iff :
    (scope : List Text)
    → (scope_escalates scope).escalates ≡ (
        contains scope (text "*")
        || (contains scope (text "CreateAdminToken") || contains scope (text "UpdateAdminToken")))
unfolding scope_escalates escalation_of is_full_scope
scope_escalates_iff scope = elim (Bool-cases (contains scope (text "*"))) [
  | inl full ↦ rw full refl
  | inr partial ↦ elim (Bool-cases (contains scope (text "CreateAdminToken"))) [
    | inl create ↦ rw (partial, create) refl
    | inr no_create ↦ elim (Bool-cases (contains scope (text "UpdateAdminToken"))) [
      | inl update ↦ rw (partial, no_create, update) refl
      | inr no_update ↦ rw (partial, no_create, no_update) refl
    ]
  ]
]

-- The console preset has an endpoint exactly if the backend's scope has it and it is neither `*`,
-- nor an escalating endpoint, nor one that needs no scope.
pub contains-console_preset_scope :
    (console_scope : List Text) (e : Text)
    → contains (console_preset_scope console_scope) e
      ≡ (contains console_scope e && is_preset_endpoint e)
unfolding console_preset_scope
contains-console_preset_scope cs e =
    let wanted = dedupe (filter is_preset_endpoint cs) in
    let known = filter (λ x. contains wanted x) all_admin_endpoints in
    let rest = filter (λ x. not (contains known x)) wanted in
    ground (
      arith,
      contains-append known (sort compare_units rest) e,
      sort-any compare_units (λ x. x == e) rest,
      contains-filter (λ x. not (contains known x)) wanted e,
      contains-filter (λ x. contains wanted x) all_admin_endpoints e,
      contains-dedupe (filter is_preset_endpoint cs) e,
      contains-filter is_preset_endpoint cs e,
    )

-- The console preset never amounts to `*`.
pub console_preset_scope-escalates :
    (console_scope : List Text)
    → (scope_escalates (console_preset_scope console_scope)).escalates ≡ false
unfolding is_preset_endpoint
console_preset_scope-escalates cs = ground (
  arith,
  scope_escalates_iff (console_preset_scope cs),
  contains-console_preset_scope cs (text "*"),
  contains-console_preset_scope cs (text "CreateAdminToken"),
  contains-console_preset_scope cs (text "UpdateAdminToken"),
  ==_refl (text "*"),
  ==_refl (text "CreateAdminToken"),
  ==_refl (text "UpdateAdminToken"),
)

-- A scope covers the console exactly if it has `*` or every endpoint of the preset, and exactly
-- then no endpoint is listed as missing.
pub scope_covers_console_iff :
    (scope console_scope : List Text)
    → let coverage = scope_covers_console scope console_scope in
      ((coverage.covers ≡ true) ↔ (
        (contains scope (text "*") ≡ true)
        ⊎ All (λ e. contains scope e ≡ true) (console_preset_scope console_scope)))
      × ((coverage.covers ≡ true) ↔ (coverage.missing ≡ []))
unfolding scope_covers_console is_full_scope
scope_covers_console_iff scope cs =
    let preset = console_preset_scope cs in
    elim (Bool-cases (contains scope (text "*"))) [
      | inl full ↦ rw full (ground arith)
      | inr partial ↦
          rw partial (grind (arith, is_empty-filter-not_iff (λ e. contains scope e) preset))
    ]
