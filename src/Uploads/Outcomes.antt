-- ===== src/Uploads/Outcomes.antt =====
-- How an upload of frontend/src/components/object-browser.tsx ends, from the end of its request in
-- `uploadObject` of frontend/src/api.ts.
use garage_admin_console.Base.{◌≡◌, refl, inl, inr, Text, if◌then◌else◌, eqb, eqb_iff, Bool-cases}
use garage_admin_console.Json.{Parser}
use garage_admin_console.Http.{
  Browser, ApiError, UploadResult, XhrEnd, load, network_error, abort, upload_object, is_ok,
  api_error_from_text, stored, api_error,
}
use garage_admin_console.Uploads.{
  UploadItem, UploadStatus, done, error, conflict, Settlement, resolved, rejected, settled,
}

-- What the promise of `uploadObject` settles with.
abbrev pub settlement_of : UploadResult → Settlement
settlement_of (stored answer key) = resolved
settlement_of (UploadResult.rejected reason) = rejected reason

-- Done for a success, a conflict for 409, and failed for all else, also without any response.
abbrev pub status_after : XhrEnd → UploadStatus
status_after (load status body) =
    if is_ok status then done else if eqb status 409 then conflict else error
status_after network_error = error
status_after abort = error

settled-rejected :
    (item u : UploadItem) (e : ApiError)
    → (settled item (rejected (api_error e)) u).status
      ≡ (if eqb e.status 409 then conflict else error)
unfolding settled
settled-rejected item u e = elim (Bool-cases (eqb e.status 409)) [
  | inl c ↦ rw c refl
  | inr c ↦ rw c refl
]

-- An upload's status after the end of its request is done exactly for a 2xx response, whether or not
-- its body parses, conflict exactly for 409, and failed for every other response, for a lost
-- network and for an abort.
pub settled-upload_object :
    (parse : Parser) (encode : Text → Text) (item u : UploadItem) (ending : XhrEnd) (b : Browser)
    → (settled item (settlement_of (upload_object parse encode item.key ending b).1) u).status
      ≡ status_after ending
unfolding settled upload_object api_error_from_text
settled-upload_object parse encode item u network_error b = refl
settled-upload_object parse encode item u abort b = refl
settled-upload_object parse encode item u (load status body) b =
    elim (Bool-cases (eqb status 401)) [
      | inl e ↦ rw ((eqb_iff status 401).0 e) refl
      | inr e ↦ elim (Bool-cases (is_ok status)) [
        | inl ok ↦ rw (e, ok) refl
        | inr bad ↦ rw (e, bad) (settled-rejected item u (api_error_from_text parse status body))
      ]
    ]
