-- ===== src/Http.antt =====
-- frontend/src/api.ts, the answers of the backend: the errors made of failed responses, the one
-- redirect to the sign-in, and the results of `fetchJSON` and `uploadObject`; and loginUrlFor of
-- frontend/src/lib/auth.ts. JSON.parse and encodeURIComponent are parameters.
pub mod Redirects
pub mod Errors
use garage_admin_console.Base.{
  ℕ, Bool, true, false, not, ◌&&◌, ◌||◌, Option, none, some, List, [], ◌∷◌, ◌++◌, Text, text, ◌==◌,
  trim, starts_with, includes, if◌then◌else◌, ltb, leb, eqb, is_empty, or_else, or_option,
}
use garage_admin_console.Locale.{decimal}
use garage_admin_console.Json.{
  Json, Fields, Parser, object, array, end, lookup, as_string, null, other_number, boolean, number,
  string,
}

-- `loginUrlFor`
unfoldable pub login_url_for : (Text → Text) → Text → Text → Text → Text
login_url_for encode pathname search base =
    let login = base ++ text "/auth/login" in
    let next = pathname ++ search in
    if not (starts_with pathname (text "/")) || starts_with pathname (text "//")
    then login
    else if pathname == base || starts_with pathname (base ++ text "/")
    then login
    else if next == text "/"
    then login
    else login ++ (text "?next=" ++ encode next)

-- The module's `redirectingToLogin`, the page's address, and where the page was sent.
pub record Browser : Type 0 where
  pub pathname : Text
  pub search : Text
  pub redirecting_to_login : Bool
  pub navigations : List Text

-- `redirectToLogin`
unfoldable pub redirect_to_login : (Text → Text) → Browser → Browser
redirect_to_login encode b = if b.redirecting_to_login then b else record b {
  redirecting_to_login = true;
  navigations = b.navigations ++ (login_url_for encode b.pathname b.search (text "/api") ∷ []);
}

-- `ApiError`
pub record ApiError : Type 0 where
  pub status : ℕ
  pub message : Text
  pub code : Option Text

-- What a promise is rejected with: an `ApiError`, or another error with its message.
pub data Rejection : Type 0 where
  api_error : (error : ApiError) → Rejection
  other_error : (message : Text) → Rejection

-- The properties that the code reads from a parsed body: an object's, and no others.
abbrev pub body_fields : Json → Option Fields
body_fields (object fields) = some fields
body_fields (array items) = some end
body_fields _ = none

-- What a parser of error bodies found: `message` and `code`.
pub record ErrorDetails : Type 0 where
  pub message : Text
  pub code : Option Text

abbrev pub no_details : ErrorDetails
no_details = record { message = []; code = none }

-- `apiErrorFromText`, a parsed value that is an object or not
abbrev pub text_value_details : Text → Option Fields → ErrorDetails
text_value_details body none = record { message = trim body; code = none }
text_value_details body (some fields) = record {
  message =
      or_else
        (or_option (as_string (lookup (text "message") fields))
          (as_string (lookup (text "error") fields)))
        [];
  code = as_string (lookup (text "code") fields);
}

-- `apiErrorFromText`, what `JSON.parse` gave
abbrev pub text_parsed_details : Text → Option Json → ErrorDetails
text_parsed_details body none = record { message = trim body; code = none }
text_parsed_details body (some value) = text_value_details body (body_fields value)

-- `apiErrorFromText`, `if (text) { ... }`
unfoldable pub text_details : Parser → Text → ErrorDetails
text_details parse body =
    if is_empty body then no_details else text_parsed_details body (parse body)

-- `apiErrorFromText`
unfoldable pub api_error_from_text : Parser → ℕ → Text → ApiError
api_error_from_text parse status body =
    let found = text_details parse body in
    record {
      status = status;
      message =
          if is_empty found.message then text "API error: " ++ decimal status else found.message;
      code = found.code;
    }

-- A response: its body is nothing where reading it fails.
pub record Response : Type 0 where
  pub status : ℕ
  pub body : Option Text
  pub content_length : Option Text
  pub content_type : Option Text

-- `errorFromResponse`, an object's strings `message` and `error`
abbrev pub response_message : Option Text → Option Text → Text
response_message (some message) error = message
response_message none (some error) = error
response_message none none = []

-- `errorFromResponse`, `if (parsed && typeof parsed === 'object') { ... } else { ... }`
abbrev pub response_value_details : Text → Option Fields → ErrorDetails
response_value_details body (some fields) = record {
  message =
      response_message (as_string (lookup (text "message") fields))
        (as_string (lookup (text "error") fields));
  code = as_string (lookup (text "code") fields);
}
response_value_details body none = record { message = trim body; code = none }

-- `errorFromResponse`, the inner `try` and its `catch`
abbrev pub response_text_details : Text → Option Json → ErrorDetails
response_text_details body none = record { message = trim body; code = none }
response_text_details body (some value) = response_value_details body (body_fields value)

-- `errorFromResponse`, the outer `try`
unfoldable pub response_details : Parser → Option Text → ErrorDetails
response_details parse none = no_details
response_details parse (some []) = no_details
response_details parse (some (c ∷ body)) = response_text_details (c ∷ body) (parse (c ∷ body))

abbrev pub status_message : ℕ → Text → Text
status_message status [] = text "API error: " ++ decimal status
status_message status (c ∷ message) = c ∷ message

-- `errorFromResponse`
unfoldable pub error_from_response : Parser → Response → ApiError
error_from_response parse res =
    let found = response_details parse res.body in
    record {
      status = res.status;
      message = status_message res.status found.message;
      code = found.code;
    }

-- `res.ok`
abbrev pub is_ok : ℕ → Bool
is_ok status = leb 200 status && ltb status 300

-- `assertOk`: the browser after it, and what it throws
unfoldable pub assert_ok : Parser → (Text → Text) → Response → Browser → Browser × Option Rejection
assert_ok parse encode res b =
    if eqb res.status 401
    then (redirect_to_login encode b, some (other_error (text "Unauthorized")))
    else if not (is_ok res.status)
    then (b, some (api_error (error_from_response parse res)))
    else (b, none)

pub data FetchResult : Type 0 where
  undefined : FetchResult
  parsed : (value : Json) → FetchResult
  plain : (body : Text) → FetchResult
  thrown : (reason : Rejection) → FetchResult

-- What reading the body rejects with: the browser's own errors.
pub record BodyErrors : Type 0 where
  pub unreadable : Text
  pub not_json : Text

-- The end of `fetchJSON`, after `assertOk`
unfoldable pub read_body : Parser → BodyErrors → Response → FetchResult
read_body parse errors res =
    if eqb res.status 204 || or_else res.content_length [] == text "0"
    then undefined
    else elim (res.body) [
      | none ↦ thrown (other_error errors.unreadable)
      | some body ↦
          if includes (or_else res.content_type []) (text "application/json")
          then elim (parse body) [
            | none ↦ thrown (other_error errors.not_json)
            | some value ↦ parsed value
          ]
          else plain body
    ]

-- What `fetch` settles with: an error of the network, or a response.
pub data Answer : Type 0 where
  unreachable : (message : Text) → Answer
  responded : (response : Response) → Answer

abbrev pub result_after : Browser × Option Rejection → FetchResult → Browser × FetchResult
result_after (b, none) result = (b, result)
result_after (b, some reason) result = (b, thrown reason)

-- `fetchJSON`, once the answer is there
unfoldable pub fetch_json :
    Parser → (Text → Text) → BodyErrors → Answer → Browser → Browser × FetchResult
fetch_json parse encode errors (unreachable message) b = (b, thrown (other_error message))
fetch_json parse encode errors (responded res) b =
    result_after (assert_ok parse encode res b) (read_body parse errors res)

-- What ends the request of `uploadObject`.
pub data XhrEnd : Type 0 where
  load : (status : ℕ) (response_text : Text) → XhrEnd
  network_error abort : XhrEnd

pub data UploadResult : Type 0 where
  stored : (answer : Option Json) (key : Text) → UploadResult
  rejected : (reason : Rejection) → UploadResult

abbrev pub failed_with : ℕ → Text → UploadResult
failed_with status message =
    rejected (api_error (record { status = status; message = message; code = none }))

-- `uploadObject`: a body that does not parse resolves to the key that was sent
unfoldable pub upload_object :
    Parser → (Text → Text) → Text → XhrEnd → Browser → Browser × UploadResult
upload_object parse encode key (load status body) b =
    if eqb status 401
    then (redirect_to_login encode b, rejected (other_error (text "Unauthorized")))
    else if is_ok status
    then (b, stored (parse body) key)
    else (b, rejected (api_error (api_error_from_text parse status body)))
upload_object parse encode key network_error b =
    (b, failed_with 0 (text "ネットワークエラーによりアップロードが中断されました"))
upload_object parse encode key abort b = (b, failed_with 0 (text "アップロードが中断されました"))
