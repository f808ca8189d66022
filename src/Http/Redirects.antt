-- ===== src/Http/Redirects.antt =====
-- The redirect to the sign-in of frontend/src/api.ts, over all answers of a page.
use garage_admin_console.Base.{
  ℕ, ◌≡◌, refl, ap, ◌∙◌, Bool, true, false, ◌||◌, inl, inr, Option, none, some, List, [], ◌∷◌, ◌++◌,
  Text, text, if◌then◌else◌, eqb, any, Bool-cases,
}
use garage_admin_console.Json.{Parser}
use garage_admin_console.Http.{
  Browser, Rejection, FetchResult, read_body, redirect_to_login, login_url_for, Response, assert_ok,
  is_ok, BodyErrors, Answer, unreachable, responded, fetch_json, result_after, XhrEnd, load,
  network_error, abort, upload_object,
}

-- What comes back to the page: the answer of a fetch, or the end of an upload to a key.
pub data Reply : Type 0 where
  fetched : (answer : Answer) → Reply
  uploaded : (key : Text) (ending : XhrEnd) → Reply

-- The browser after a reply.
abbrev pub after_reply : Parser → (Text → Text) → BodyErrors → Reply → Browser → Browser
after_reply parse encode errors (fetched answer) b = (fetch_json parse encode errors answer b).0
after_reply parse encode errors (uploaded key ending) b =
    (upload_object parse encode key ending b).0

abbrev pub after_replies : Parser → (Text → Text) → BodyErrors → List Reply → Browser → Browser
after_replies parse encode errors [] b = b
after_replies parse encode errors (r ∷ rs) b =
    after_replies parse encode errors rs (after_reply parse encode errors r b)

-- The session has ended: the reply's status is 401.
abbrev pub is_unauthorized : Reply → Bool
is_unauthorized (fetched (responded res)) = eqb res.status 401
is_unauthorized (uploaded key (load status body)) = eqb status 401
is_unauthorized _ = false

if-true {ℓ} : {A : Type ℓ} (d : Bool) (x y : A) → d ≡ true → (if d then x else y) ≡ x
if-true true x y e = refl
if-true false x y e = cc

if-false {ℓ} : {A : Type ℓ} (d : Bool) (x y : A) → d ≡ false → (if d then x else y) ≡ y
if-false true x y e = cc
if-false false x y e = refl

module _ (parse : Parser) (encode : Text → Text) (errors : BodyErrors) where
  result_after-browser :
      (checked : Browser × Option Rejection) (result : FetchResult)
      → (result_after checked result).0 ≡ checked.0
  result_after-browser (b, none) result = refl
  result_after-browser (b, some reason) result = refl

  assert_ok-browser :
      (res : Response) (b : Browser)
      → (assert_ok parse encode res b).0
        ≡ (if eqb res.status 401 then redirect_to_login encode b else b)
  unfolding assert_ok
  assert_ok-browser res b = elim (Bool-cases (eqb res.status 401)) [
    | inl e ↦ rw e refl
    | inr e ↦ elim (Bool-cases (is_ok res.status)) [
      | inl ok ↦ rw (e, ok) refl
      | inr bad ↦ rw (e, bad) refl
    ]
  ]

  upload_object-browser :
      (key body : Text) (status : ℕ) (b : Browser)
      → (upload_object parse encode key (load status body) b).0
        ≡ (if eqb status 401 then redirect_to_login encode b else b)
  unfolding upload_object
  upload_object-browser key body status b = elim (Bool-cases (eqb status 401)) [
    | inl e ↦ rw e refl
    | inr e ↦ elim (Bool-cases (is_ok status)) [
      | inl ok ↦ rw (e, ok) refl
      | inr bad ↦ rw (e, bad) refl
    ]
  ]

  after_reply-redirect :
      (r : Reply) (b : Browser)
      → after_reply parse encode errors r b
        ≡ (if is_unauthorized r then redirect_to_login encode b else b)
  unfolding fetch_json upload_object
  after_reply-redirect (fetched (unreachable message)) b = refl
  after_reply-redirect (fetched (responded res)) b =
      result_after-browser (assert_ok parse encode res b) (read_body parse errors res)
      ∙ assert_ok-browser res b
  after_reply-redirect (uploaded key (load status body)) b = upload_object-browser key body status b
  after_reply-redirect (uploaded key network_error) b = refl
  after_reply-redirect (uploaded key abort) b = refl

  -- A page that is on its way to the sign-in stays on it.
  redirect_to_login-redirecting :
      (b : Browser) → b.redirecting_to_login ≡ true → redirect_to_login encode b ≡ b
  unfolding redirect_to_login
  redirect_to_login-redirecting b e = if-true b.redirecting_to_login b _ e

  first_redirect :
      (b : Browser)
      → b.redirecting_to_login ≡ false
      → b.navigations ≡ []
      → ((redirect_to_login encode b).redirecting_to_login ≡ true)
        × ((redirect_to_login encode b).navigations
            ≡ login_url_for encode b.pathname b.search (text "/api") ∷ [])
  unfolding redirect_to_login
  first_redirect b e nowhere =
      let sent = if-false b.redirecting_to_login b _ e in
      (
        ap (λ c. c.redirecting_to_login) sent,
        ap (λ c. c.navigations) sent
            ∙ ap (λ urls. urls ++ (login_url_for encode b.pathname b.search (text "/api") ∷ []))
                nowhere,
      )

  after_replies-redirecting :
      (rs : List Reply) (b : Browser)
      → b.redirecting_to_login ≡ true
      → after_replies parse encode errors rs b ≡ b
  after_replies-redirecting [] b e = refl
  after_replies-redirecting (r ∷ rs) b e =
      let same = after_reply-redirect r b ∙ kept (is_unauthorized r) in
      ap (after_replies parse encode errors rs) same ∙ after_replies-redirecting rs b e
    where
      kept : (u : Bool) → (if u then redirect_to_login encode b else b) ≡ b
      kept true = redirect_to_login-redirecting b e
      kept false = refl

  -- A page that was not sent anywhere yet is sent to the sign-in exactly once, with its own address,
  -- if any of its replies says 401, however many do, and nowhere otherwise.
  pub after_replies-navigations :
      (rs : List Reply) (b : Browser)
      → b.redirecting_to_login ≡ false
      → b.navigations ≡ []
      → (after_replies parse encode errors rs b).navigations ≡ (
          if any is_unauthorized rs
          then login_url_for encode b.pathname b.search (text "/api") ∷ []
          else [])
  after_replies-navigations [] b e nowhere = nowhere
  after_replies-navigations (r ∷ rs) b e nowhere =
      ap (λ c. (after_replies parse encode errors rs c).navigations) (after_reply-redirect r b)
      ∙ sent (after_replies-navigations rs b e nowhere) (is_unauthorized r)
    where
      sent :
          ((after_replies parse encode errors rs b).navigations ≡ (
            if any is_unauthorized rs
            then login_url_for encode b.pathname b.search (text "/api") ∷ []
            else []))
          → (u : Bool)
          → (after_replies parse encode errors rs
              (if u then redirect_to_login encode b else b)).navigations
            ≡ (if u || any is_unauthorized rs
                then login_url_for encode b.pathname b.search (text "/api") ∷ []
                else [])
      sent later false = later
      sent later true =
          let (redirecting, urls) = first_redirect b e nowhere in
          ap (λ c. c.navigations)
            (after_replies-redirecting rs (redirect_to_login encode b) redirecting)
          ∙ urls
