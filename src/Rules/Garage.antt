-- ===== src/Rules/Garage.antt =====
-- What Garage accepts as a website routing rule, as frontend/src/lib/website-routing-rules.ts
-- describes it: a condition that may be missing, and a redirect.
use garage_admin_console.Base.{
  ℕ, ◌≡◌, true, ◌⊎◌, Option, none, some, List, Text, text, contains, All,
}
use garage_admin_console.Json.{Json, Fields, object, string, number}
use garage_admin_console.Rules.{
  given, keys_of, rule_keys, condition_keys, redirect_keys, redirect_codes, rewrite_codes, has_code,
}

-- Every key is one of these.
abbrev pub HasKeysOf : List Text → Fields → Type 0
HasKeysOf allowed fields = All (λ k. contains allowed k ≡ true) (keys_of fields)

-- Missing, or a text.
abbrev pub IsMaybeText : Option Json → Type 0
IsMaybeText o = (o ≡ none) ⊎ ((s : Text) × (o ≡ some (string s)))

abbrev pub IsMaybeProtocol : Option Json → Type 0
IsMaybeProtocol o =
    (o ≡ none) ⊎ ((o ≡ some (string (text "http"))) ⊎ (o ≡ some (string (text "https"))))

abbrev pub IsCondition : Fields → Type 0
IsCondition cond =
    HasKeysOf condition_keys cond
    × IsMaybeText (given cond (text "KeyPrefixEquals"))
    × ((given cond (text "HttpErrorCodeReturnedEquals") ≡ none)
        ⊎ (given cond (text "HttpErrorCodeReturnedEquals") ≡ some (number 404)))

-- No code; a redirect, where a protocol comes with a host; or a rewrite, with neither.
abbrev pub FitsCode : Option Json → Option Json → Option Json → Type 0
FitsCode host protocol code =
    (code ≡ none)
    ⊎ ((n : ℕ) × ((code ≡ some (number n))
          × (((has_code redirect_codes n ≡ true)
                × ((protocol ≡ none) ⊎ ((h : Json) × (host ≡ some h))))
              ⊎ ((has_code rewrite_codes n ≡ true) × (host ≡ none) × (protocol ≡ none)))))

abbrev pub IsRedirect : Fields → Type 0
IsRedirect redirect =
    HasKeysOf redirect_keys redirect
    × IsMaybeText (given redirect (text "HostName"))
    × IsMaybeProtocol (given redirect (text "Protocol"))
    × IsMaybeText (given redirect (text "ReplaceKeyPrefixWith"))
    × IsMaybeText (given redirect (text "ReplaceKeyWith"))
    × ((given redirect (text "ReplaceKeyPrefixWith") ≡ none)
        ⊎ (given redirect (text "ReplaceKeyWith") ≡ none))
    × FitsCode (given redirect (text "HostName")) (given redirect (text "Protocol"))
        (given redirect (text "HttpRedirectCode"))

abbrev pub IsRoutingRule : Fields → Type 0
IsRoutingRule rule =
    HasKeysOf rule_keys rule
    × ((given rule (text "Condition") ≡ none)
        ⊎ ((cond : Fields) × ((given rule (text "Condition") ≡ some (object cond))
              × IsCondition cond)))
    × ((redirect : Fields) × ((given rule (text "Redirect") ≡ some (object redirect))
          × IsRedirect redirect))
