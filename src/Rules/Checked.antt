-- ===== src/Rules/Checked.antt =====
-- frontend/src/lib/website-routing-rules.ts reports an error exactly for rules that Garage refuses.
use garage_admin_console.Base.{
  ℕ, suc, ◌≡◌, refl, ap, Bool, true, false, not, ◌&&◌, ◌||◌, ◌⊎◌, inl, inr, ◌↔◌, Option, none, some,
  List, [], ◌∷◌, ◌++◌, map, arith, Text, text, ◌==◌, ==_iff, if◌then◌else◌, is_empty_iff,
  is_empty-filter-not_iff, contains, filter, All, append-eq-nil, Bool-cases,
}
use garage_admin_console.Json.{
  Json, Fields, end, object, string, number, null, other_number, boolean, array,
}
use garage_admin_console.Rules.{
  given, keys_of, unknown_keys, report, is_no_text, is_wrong_code, is_other_protocol, present,
  is_string, has_code, condition_errors, condition_keys, redirect_keys, rule_keys, redirect_codes,
  rewrite_codes, code_errors, not_text_errors, text_keys, redirect_errors, validate_rule,
  rules_errors,
}
use garage_admin_console.Rules.Garage.{
  HasKeysOf, IsMaybeText, IsMaybeProtocol, IsCondition, FitsCode, IsRedirect, IsRoutingRule,
}

append_nil {ℓ} : {A : Type ℓ} (xs ys : List A) → xs ≡ [] → ys ≡ [] → xs ++ ys ≡ []
append_nil [] ys e f = f
append_nil (x ∷ xs) ys e f = cc

report_iff : (b : Bool) (message : Text) → (report b message ≡ []) ↔ (b ≡ false)
report_iff true message = ground arith
report_iff false message = ground arith

map_iff {ℓ κ} : {A : Type ℓ} {B : Type κ} (f : A → B) (xs : List A) → (map f xs ≡ []) ↔ (xs ≡ [])
map_iff f [] = ground arith
map_iff f (x ∷ xs) = ground arith

unknown_keys_iff :
    (f : Text → Text) (fields : Fields) (allowed : List Text)
    → (map f (unknown_keys fields allowed) ≡ []) ↔ HasKeysOf allowed fields
unfolding unknown_keys
unknown_keys_iff f fields allowed =
    let unknown = filter (λ k. not (contains allowed k)) (keys_of fields) in
    let known = is_empty-filter-not_iff (contains allowed) (keys_of fields) in
    (
      (λ e. known.0 ((is_empty_iff unknown).1 ((map_iff f unknown).0 e))),
      (λ h. (map_iff f unknown).1 ((is_empty_iff unknown).0 (known.1 h))),
    )

is_no_text_iff : (o : Option Json) → (is_no_text o ≡ false) ↔ IsMaybeText o
is_no_text_iff none = ((λ _. inl refl), (λ _. refl))
is_no_text_iff (some (string s)) = ((λ _. inr (s, refl)), (λ _. refl))
is_no_text_iff (some null) = ground arith
is_no_text_iff (some other_number) = ground arith
is_no_text_iff (some (boolean b)) = ground arith
is_no_text_iff (some (number n)) = ground arith
is_no_text_iff (some (array items)) = ground arith
is_no_text_iff (some (object fields)) = ground arith

is_wrong_code_iff :
    (o : Option Json) → (is_wrong_code o ≡ false) ↔ ((o ≡ none) ⊎ (o ≡ some (number 404)))
is_wrong_code_iff none = ((λ _. inl refl), (λ _. refl))
is_wrong_code_iff (some (number n)) = ground arith
is_wrong_code_iff (some null) = ground arith
is_wrong_code_iff (some other_number) = ground arith
is_wrong_code_iff (some (boolean b)) = ground arith
is_wrong_code_iff (some (string s)) = ground arith
is_wrong_code_iff (some (array items)) = ground arith
is_wrong_code_iff (some (object fields)) = ground arith

condition_errors_iff :
    (prefix : Text) (cond : Fields)
    → (condition_errors prefix (some (object cond)) ≡ []) ↔ IsCondition cond
unfolding condition_errors
condition_errors_iff prefix cond = (
  λ e.
      let (firsts, code) = append-eq-nil _ _ e in
      let (keys, key_prefix) = append-eq-nil _ _ firsts in
      (
        (unknown_keys_iff _ cond condition_keys).0 keys,
        (is_no_text_iff _).0 ((report_iff _ _).0 key_prefix),
        (is_wrong_code_iff _).0 ((report_iff _ _).0 code),
      ),
  λ (keys, key_prefix, code).
      append_nil _ _
        (append_nil _ _ ((unknown_keys_iff _ cond condition_keys).1 keys)
          ((report_iff _ _).1 ((is_no_text_iff _).1 key_prefix)))
        ((report_iff _ _).1 ((is_wrong_code_iff _).1 code)),
)

abbrev text_of : Option Json → Text
text_of (some (string s)) = s
text_of _ = []

abbrev fields_of : Option Json → Fields
fields_of (some (object fields)) = fields
fields_of _ = end

abbrev number_of : Option Json → ℕ
number_of (some (number n)) = n
number_of _ = 0

is_other_protocol_iff :
    (o : Option Json) → IsMaybeText o → (is_other_protocol o ≡ false) ↔ IsMaybeProtocol o
is_other_protocol_iff o (inl missing) = rw missing ((λ _. inl refl), (λ _. refl))
is_other_protocol_iff o (inr (s, same)) = rw same (protocol_text_iff s)
  where
    protocol_text_iff :
        (s : Text)
        → (is_other_protocol (some (string s)) ≡ false) ↔ IsMaybeProtocol (some (string s))
    protocol_text_iff s = (
      λ e. elim (Bool-cases (s == text "http")) [
        | inl h ↦ inr (inl (ap (λ t. some (string t)) ((==_iff s (text "http")).0 h)))
        | inr n ↦ elim (Bool-cases (s == text "https")) [
          | inl h ↦ inr (inr (ap (λ t. some (string t)) ((==_iff s (text "https")).0 h)))
          | inr m ↦ absurd (ground (arith, e, n, m))
        ]
      ],
      λ p. elim p [
        | inl missing ↦ cc
        | inr (inl same) ↦ ground (arith, (==_iff s (text "http")).1 (ap text_of same))
        | inr (inr same) ↦ ground (arith, (==_iff s (text "https")).1 (ap text_of same))
      ],
    )

is_string_iff : (o : Option Json) → IsMaybeText o → is_string o ≡ present o
is_string_iff o (inl missing) = rw missing refl
is_string_iff o (inr (s, same)) = rw same refl

present_iff : (o : Option Json) → (present o ≡ false) ↔ (o ≡ none)
present_iff none = ((λ _. refl), (λ _. refl))
present_iff (some value) = ground arith

both_present_iff :
    (o p : Option Json) → ((present o && present p) ≡ false) ↔ ((o ≡ none) ⊎ (p ≡ none))
both_present_iff none p = ((λ _. inl refl), (λ _. refl))
both_present_iff (some a) none = ((λ _. inr refl), (λ _. refl))
both_present_iff (some a) (some b) = ground arith

-- The two tests of a code that is a number.
number_errors_iff :
    (redirects rewrites : Bool) (host protocol : Option Json) (m1 m2 m3 : Text)
    → ((if redirects
          then report (present protocol && not (present host)) m1
          else if rewrites
          then report (present host || present protocol) m2
          else (m3 ∷ []))
        ≡ [])
      ↔ (((redirects ≡ true) × ((protocol ≡ none) ⊎ ((h : Json) × (host ≡ some h))))
          ⊎ ((rewrites ≡ true) × (host ≡ none) × (protocol ≡ none)))
number_errors_iff true rewrites host none m1 m2 m3 = ((λ _. inl (refl, inl refl)), (λ _. refl))
number_errors_iff true rewrites (some h) (some p) m1 m2 m3 =
    ((λ _. inl (refl, inr (h, refl))), (λ _. refl))
number_errors_iff true rewrites none (some p) m1 m2 m3 = ground arith
number_errors_iff false true none none m1 m2 m3 = ((λ _. inr (refl, refl, refl)), (λ _. refl))
number_errors_iff false true (some h) protocol m1 m2 m3 = ground arith
number_errors_iff false true none (some p) m1 m2 m3 = ground arith
number_errors_iff false false host protocol m1 m2 m3 = ground arith

code_errors_iff :
    (prefix : Text) (host protocol code : Option Json)
    → (code_errors prefix (present host) (present protocol) code ≡ []) ↔ FitsCode host protocol code
unfolding code_errors
code_errors_iff prefix host protocol none = ((λ _. inl refl), (λ _. refl))
code_errors_iff prefix host protocol (some (number n)) =
    let (there, back) =
      number_errors_iff (has_code redirect_codes n) (has_code rewrite_codes n) host protocol _ _
        _ in
    (
      λ e. inr (n, (refl, there e)),
      λ fits. elim fits [
        | inl missing ↦ cc
        | inr (m, (same, how)) ↦ back (rw (ap number_of same) how)
      ],
    )
code_errors_iff prefix host protocol (some null) = ground arith
code_errors_iff prefix host protocol (some other_number) = ground arith
code_errors_iff prefix host protocol (some (boolean b)) = ground arith
code_errors_iff prefix host protocol (some (string s)) = ground arith
code_errors_iff prefix host protocol (some (array items)) = ground arith
code_errors_iff prefix host protocol (some (object fields)) = ground arith

not_text_errors_iff :
    (prefix : Text) (redirect : Fields) (ks : List Text)
    → (not_text_errors prefix redirect ks ≡ []) ↔ All (λ k. IsMaybeText (given redirect k)) ks
unfolding not_text_errors
not_text_errors_iff prefix redirect [] = ((λ _. tt), (λ _. refl))
not_text_errors_iff prefix redirect (k ∷ ks) = (
  λ e.
      let (here, rest) = append-eq-nil _ _ e in
      (
        (is_no_text_iff _).0 ((report_iff _ _).0 here),
        (not_text_errors_iff prefix redirect ks).0 rest,
      ),
  λ (here, rest).
      append_nil _ _ ((report_iff _ _).1 ((is_no_text_iff _).1 here))
        ((not_text_errors_iff prefix redirect ks).1 rest),
)

IsMaybeText-of_protocol : (o : Option Json) → IsMaybeProtocol o → IsMaybeText o
IsMaybeText-of_protocol o (inl missing) = inl missing
IsMaybeText-of_protocol o (inr (inl http)) = inr (text "http", http)
IsMaybeText-of_protocol o (inr (inr https)) = inr (text "https", https)

-- The code's own tests for a host and a protocol, where both are texts if they are there.
redirect_code_iff :
    (prefix : Text) (host protocol code : Option Json)
    → IsMaybeText host
    → IsMaybeText protocol
    → (code_errors prefix (is_string host) (is_string protocol) code ≡ [])
      ↔ FitsCode host protocol code
redirect_code_iff prefix host protocol code is_host is_protocol =
    rw (is_string_iff host is_host, is_string_iff protocol is_protocol)
      (code_errors_iff prefix host protocol code)

redirect_errors_iff :
    (prefix : Text) (redirect : Fields)
    → (redirect_errors prefix (some (object redirect)) ≡ []) ↔ IsRedirect redirect
unfolding redirect_errors
redirect_errors_iff prefix redirect = (
  λ e.
      let (most, code) = append-eq-nil _ _ e in
      let (more, both) = append-eq-nil _ _ most in
      let (some_of, protocol) = append-eq-nil _ _ more in
      let (keys, texts) = append-eq-nil _ _ some_of in
      let (host, (protocol_text, (key_prefix, (key, _)))) =
        (not_text_errors_iff prefix redirect text_keys).0 texts in
      (
        (unknown_keys_iff _ redirect redirect_keys).0 keys,
        host,
        (is_other_protocol_iff _ protocol_text).0 ((report_iff _ _).0 protocol),
        key_prefix,
        key,
        (both_present_iff _ _).0 ((report_iff _ _).0 both),
        (redirect_code_iff prefix _ _ _ host protocol_text).0 code,
      ),
  λ (keys, host, protocol, key_prefix, key, either, code).
      let protocol_text = IsMaybeText-of_protocol _ protocol in
      append_nil _ _
        (append_nil _ _
          (append_nil _ _
            (append_nil _ _ ((unknown_keys_iff _ redirect redirect_keys).1 keys) (
              (not_text_errors_iff prefix redirect text_keys).1
                (host, (protocol_text, (key_prefix, (key, tt))))))
            ((report_iff _ _).1 ((is_other_protocol_iff _ protocol_text).1 protocol)))
          ((report_iff _ _).1 ((both_present_iff _ _).1 either)))
        ((redirect_code_iff prefix _ _ _ host protocol_text).1 code),
)

-- The condition and the redirect of a rule, each of which may be missing, an object or neither.
condition_errors-eq-nil_iff :
    (prefix : Text) (o : Option Json)
    → (condition_errors prefix o ≡ [])
      ↔ ((o ≡ none) ⊎ ((cond : Fields) × ((o ≡ some (object cond)) × IsCondition cond)))
unfolding condition_errors
condition_errors-eq-nil_iff prefix none = ((λ _. inl refl), (λ _. refl))
condition_errors-eq-nil_iff prefix (some (object cond)) = (
  λ e. inr (cond, (refl, (condition_errors_iff prefix cond).0 e)),
  λ fits. elim fits [
    | inl missing ↦ cc
    | inr (c, (same, h)) ↦ (condition_errors_iff prefix cond).1 (rw (ap fields_of same) h)
  ],
)
condition_errors-eq-nil_iff prefix (some null) = ground arith
condition_errors-eq-nil_iff prefix (some other_number) = ground arith
condition_errors-eq-nil_iff prefix (some (boolean b)) = ground arith
condition_errors-eq-nil_iff prefix (some (number n)) = ground arith
condition_errors-eq-nil_iff prefix (some (string s)) = ground arith
condition_errors-eq-nil_iff prefix (some (array items)) = ground arith

redirect_errors-eq-nil_iff :
    (prefix : Text) (o : Option Json)
    → (redirect_errors prefix o ≡ [])
      ↔ ((redirect : Fields) × ((o ≡ some (object redirect)) × IsRedirect redirect))
unfolding redirect_errors
redirect_errors-eq-nil_iff prefix (some (object redirect)) = (
  λ e. (redirect, (refl, (redirect_errors_iff prefix redirect).0 e)),
  λ (r, (same, h)). (redirect_errors_iff prefix redirect).1 (rw (ap fields_of same) h),
)
redirect_errors-eq-nil_iff prefix none = ground arith
redirect_errors-eq-nil_iff prefix (some null) = ground arith
redirect_errors-eq-nil_iff prefix (some other_number) = ground arith
redirect_errors-eq-nil_iff prefix (some (boolean b)) = ground arith
redirect_errors-eq-nil_iff prefix (some (number n)) = ground arith
redirect_errors-eq-nil_iff prefix (some (string s)) = ground arith
redirect_errors-eq-nil_iff prefix (some (array items)) = ground arith

validate_rule_iff :
    (rule : Fields) (prefix : Text) → (validate_rule (object rule) prefix ≡ []) ↔ IsRoutingRule rule
unfolding validate_rule
validate_rule_iff rule prefix = (
  λ e.
      let (firsts, redirect) = append-eq-nil _ _ e in
      let (keys, condition) = append-eq-nil _ _ firsts in
      (
        (unknown_keys_iff _ rule rule_keys).0 keys,
        (condition_errors-eq-nil_iff prefix _).0 condition,
        (redirect_errors-eq-nil_iff prefix _).0 redirect,
      ),
  λ (keys, condition, redirect).
      append_nil _ _
        (append_nil _ _ ((unknown_keys_iff _ rule rule_keys).1 keys)
          ((condition_errors-eq-nil_iff prefix _).1 condition))
        ((redirect_errors-eq-nil_iff prefix _).1 redirect),
)

pub rules_errors_iff :
    (i : ℕ) (objects : List Fields) → (rules_errors i objects ≡ []) ↔ All IsRoutingRule objects
unfolding rules_errors
rules_errors_iff i [] = ((λ _. tt), (λ _. refl))
rules_errors_iff i (rule ∷ rest) = (
  λ e.
      let (here, there) = append-eq-nil _ _ e in
      ((validate_rule_iff rule _).0 here, (rules_errors_iff (suc i) rest).0 there),
  λ (here, there).
      append_nil _ _ ((validate_rule_iff rule _).1 here) ((rules_errors_iff (suc i) rest).1 there),
)
