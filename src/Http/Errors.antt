-- ===== src/Http/Errors.antt =====
-- The errors that frontend/src/api.ts makes of failed responses.
use garage_admin_console.Base.{
  ℕ, ◌≡◌, refl, ap, ◌∙◌, false, inl, inr, Option, none, some, [], ◌∷◌, Text, text, eqb, is_empty,
  or_else, or_option, sym, Bool-cases, ◌++◌, if◌then◌else◌,
}
use garage_admin_console.Locale.{decimal}
use garage_admin_console.Json.{Json, Fields, Parser, as_string, lookup}
use garage_admin_console.Http.{
  Browser, Rejection, Response, response_details, response_text_details, response_message,
  response_value_details, text_value_details, body_fields, api_error, text_details,
  text_parsed_details, status_message, error_from_response, api_error_from_text, assert_ok, is_ok,
  UploadResult, stored, rejected, load, upload_object,
}

status_message-filled :
    (status : ℕ) (message : Text) → is_empty (status_message status message) ≡ false
unfolding text
status_message-filled status [] = refl
status_message-filled status (c ∷ message) = refl

status_message-if :
    (status : ℕ) (message : Text)
    → status_message status message
      ≡ (if is_empty message then text "API error: " ++ decimal status else message)
status_message-if status [] = refl
status_message-if status (c ∷ message) = refl

response_message-or : (m e : Option Text) → response_message m e ≡ or_else (or_option m e) []
response_message-or none none = refl
response_message-or none (some e) = refl
response_message-or (some m) e = refl

response_value_details-same :
    (body : Text) (o : Option Fields) → response_value_details body o ≡ text_value_details body o
response_value_details-same body none = refl
response_value_details-same body (some fields) =
    rw
      (response_message-or (as_string (lookup (text "message") fields))
        (as_string (lookup (text "error") fields)))
      refl

-- Both parsers find the same in what `JSON.parse` gives of a body.
response_text_details-same :
    (body : Text) (value : Option Json)
    → response_text_details body value ≡ text_parsed_details body value
response_text_details-same body none = refl
response_text_details-same body (some value) = response_value_details-same body (body_fields value)

response_details-same :
    (parse : Parser) (body : Option Text)
    → response_details parse body ≡ text_details parse (or_else body [])
unfolding response_details text_details
response_details-same parse none = refl
response_details-same parse (some []) = refl
response_details-same parse (some (c ∷ body)) =
    response_text_details-same (c ∷ body) (parse (c ∷ body))

-- Both parsers of error bodies give an ApiError with the response's status and a message, and the
-- same one: what errorFromResponse makes of a response is what apiErrorFromText makes of its status
-- and body, an unreadable body counting as empty.
pub error_from_response-api_error :
    (parse : Parser) (res : Response)
    → (error_from_response parse res ≡ api_error_from_text parse res.status (or_else res.body []))
      × ((error_from_response parse res).status ≡ res.status)
      × (is_empty (error_from_response parse res).message ≡ false)
unfolding error_from_response api_error_from_text
error_from_response-api_error parse res =
    let found = response_details parse res.body in
    (
      rw (status_message-if res.status found.message, response_details-same parse res.body) refl,
      refl,
      status_message-filled res.status found.message,
    )

-- What an upload was rejected with.
abbrev pub reason_of : UploadResult → Option Rejection
reason_of (stored answer key) = none
reason_of (rejected reason) = some reason

-- An upload keeps the policy of every other request: it leaves the browser, and is rejected, exactly
-- as assertOk does with a response of that status and body.
pub upload_object-assert_ok :
    (parse : Parser) (encode : Text → Text) (key body : Text) (res : Response) (b : Browser)
    → res.body ≡ some body
    → ((upload_object parse encode key (load res.status body) b).0
        ≡ (assert_ok parse encode res b).0)
      × (reason_of (upload_object parse encode key (load res.status body) b).1
          ≡ (assert_ok parse encode res b).1)
unfolding upload_object assert_ok
upload_object-assert_ok parse encode key body res b e = elim (Bool-cases (eqb res.status 401)) [
  | inl u ↦ rw u (refl, refl)
  | inr u ↦ elim (Bool-cases (is_ok res.status)) [
    | inl ok ↦ rw (u, ok) (refl, refl)
    | inr bad ↦
        let same : error_from_response parse res ≡ api_error_from_text parse res.status body =
          (error_from_response-api_error parse res).0
          ∙ ap (λ o. api_error_from_text parse res.status (or_else o [])) e in
        rw (u, bad) (refl, ap (λ x. some (api_error x)) (sym same))
  ]
]
