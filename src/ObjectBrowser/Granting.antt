-- ===== src/ObjectBrowser/Granting.antt =====
-- When the object browser offers to grant access: `consoleAccessView` of
-- frontend/src/lib/object-browser.ts.
use garage_admin_console.Base.{ℕ, ◌≤◌, ◌≡◌, ◌↔◌, ◌≢◌, true, false, Option, none, some, arith}
use garage_admin_console.ObjectBrowser.{
  is_console_key_access_denied, ConsoleGrantResult, granted, failed, is_missing_key_error,
  ConsoleAccessInput, grant, list, console_access_view, view_after_grant,
}

-- The last grant leaves room for another: none was tried, or it failed although the key is there,
-- or it changed the permissions and the listing has not failed since.
abbrev pub MayGrantAgain : ℕ → Option ConsoleGrantResult → Type 0
MayGrantAgain list_error_at none = Unit
MayGrantAgain list_error_at (some (failed error)) = is_missing_key_error error ≡ false
MayGrantAgain list_error_at (some (granted changed at)) = (changed ≡ true) × (list_error_at ≤ at)

view_after_grant-eq-grant_iff :
    (t : ℕ) (last : Option ConsoleGrantResult)
    → (view_after_grant t last ≡ grant) ↔ MayGrantAgain t last
unfolding view_after_grant
view_after_grant-eq-grant_iff t none = ground arith
view_after_grant-eq-grant_iff t (some (failed error)) = ground arith
view_after_grant-eq-grant_iff t (some (granted changed at)) = ground arith

view_after_grant-ne-list :
    (t : ℕ) (last : Option ConsoleGrantResult) → view_after_grant t last ≢ list
unfolding view_after_grant
view_after_grant-ne-list t none = ground arith
view_after_grant-ne-list t (some (failed error)) = ground arith
view_after_grant-ne-list t (some (granted changed at)) = ground arith

-- The list is shown exactly if S3 did not refuse the console's key, and a grant is offered exactly
-- if it was refused, has not expired, was not found missing, and the last grant leaves room for
-- another.
pub console_access_view_iff :
    (input : ConsoleAccessInput)
    → ((console_access_view input ≡ list) ↔ (is_console_key_access_denied input.list_error ≡ false))
      × ((console_access_view input ≡ grant) ↔ (
          (is_console_key_access_denied input.list_error ≡ true)
          × (input.key_expired ≡ false)
          × (is_missing_key_error input.key_lookup_error ≡ false)
          × MayGrantAgain input.list_error_at input.last_grant))
unfolding console_access_view
console_access_view_iff input = ground (
  arith,
  view_after_grant-eq-grant_iff input.list_error_at input.last_grant,
  view_after_grant-ne-list input.list_error_at input.last_grant,
)
