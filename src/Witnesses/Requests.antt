-- ===== src/Witnesses/Requests.antt =====
-- The theorems on answers of the backend and on routing rules, at concrete inputs.
use garage_admin_console.Base.{
  ◌≡◌, refl, ◌↔◌, false, Option, none, some, inr, [], ◌∷◌, Text, text, any, All, is_empty, or_else,
  if◌then◌else◌,
}
use garage_admin_console.Json.{Json, Fields, string, number, object, array, field, end, item, nil}
use garage_admin_console.Http.{
  Browser, Response, BodyErrors, responded, load, login_url_for, upload_object, assert_ok,
  error_from_response, api_error_from_text,
}
use garage_admin_console.Http.Redirects.{
  fetched, uploaded, after_replies, is_unauthorized, after_replies-navigations,
}
use garage_admin_console.Http.Errors.{
  reason_of, error_from_response-api_error, upload_object-assert_ok,
}
use garage_admin_console.Rules.{Reader, parse_routing_rules, accepted}
use garage_admin_console.Rules.Garage.{IsRoutingRule}
use garage_admin_console.Rules.Parsing.{items_of, json_text, parse_routing_rules_iff}

abbrev bucket_page : Browser
bucket_page = record {
  pathname = text "/buckets";
  search = text "?sort=name";
  redirecting_to_login = false;
  navigations = [];
}

abbrev expired : Response
expired = record {
  status = 401;
  body = some (text "expired");
  content_length = none;
  content_type = none;
}

abbrev missing : Response
missing = record {
  status = 404;
  body = some (text "no such bucket");
  content_length = none;
  content_type = none;
}

abbrev body_errors : BodyErrors
body_errors = record { unreadable = text "TypeError"; not_json = text "SyntaxError" }

abbrev no_json : Text → Option Json
no_json s = none

after_replies-navigations_example :
    (after_replies no_json
      (λ s. s)
      body_errors
      (fetched (responded missing)
        ∷ fetched (responded expired)
        ∷ uploaded (text "a.png") (load 401 [])
        ∷ [])
      bucket_page).navigations
    ≡ (if any is_unauthorized (
          fetched (responded missing)
          ∷ fetched (responded expired)
          ∷ uploaded (text "a.png") (load 401 [])
          ∷ [])
        then login_url_for (λ s. s) (text "/buckets") (text "?sort=name") (text "/api") ∷ []
        else [])
after_replies-navigations_example =
    after_replies-navigations no_json (λ s. s) body_errors
      (fetched (responded missing)
        ∷ fetched (responded expired)
        ∷ uploaded (text "a.png") (load 401 [])
        ∷ [])
      bucket_page refl refl

error_from_response-api_error_example :
    (error_from_response no_json missing
      ≡ api_error_from_text no_json missing.status (or_else missing.body []))
    × ((error_from_response no_json missing).status ≡ missing.status)
    × (is_empty (error_from_response no_json missing).message ≡ false)
error_from_response-api_error_example = error_from_response-api_error no_json missing

upload_object-assert_ok_example :
    ((upload_object no_json
        (λ s. s)
        (text "a.png")
        (load 404 (text "no such bucket"))
        bucket_page).0
      ≡ (assert_ok no_json (λ s. s) missing bucket_page).0)
    × (reason_of
          (upload_object no_json
            (λ s. s)
            (text "a.png")
            (load 404 (text "no such bucket"))
            bucket_page).1
        ≡ (assert_ok no_json (λ s. s) missing bucket_page).1)
upload_object-assert_ok_example =
    upload_object-assert_ok no_json (λ s. s) (text "a.png") (text "no such bucket") missing
      bucket_page refl

-- `{"Redirect": {"ReplaceKeyWith": "index.html", "HttpRedirectCode": 302}}`
abbrev rule : Fields
rule =
    field (text "Redirect")
      (object (
        field (text "ReplaceKeyWith") (string (text "index.html"))
          (field (text "HttpRedirectCode") (number 302) end)))
      end

abbrev reader : Reader
reader s = inr (array (item (object rule) nil))

parse_routing_rules_iff_example :
    (parse_routing_rules reader (text "[...]") ≡ accepted (rule ∷ [])) ↔ (
      (reader (json_text (text "[...]")) ≡ inr (array (items_of (rule ∷ []))))
      × All IsRoutingRule (rule ∷ []))
parse_routing_rules_iff_example = parse_routing_rules_iff reader (text "[...]") (rule ∷ [])
