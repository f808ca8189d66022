-- ===== src/BucketSettings/Confirmed.antt =====
-- What frontend/src/components/bucket-settings.tsx sends without asking first.
use garage_admin_console.Base.{
  ◌<◌, ◌≡◌, ◌≢◌, refl, true, false, not, inl, inr, none, some, List, [], ◌∷◌, arith, trim, ltb,
  is_empty, All, Bool-cases,
}
use garage_admin_console.Json.{Fields}
use garage_admin_console.Rules.{
  Reader, parse_routing_rules, RoutingRulesParseResult, accepted, errors,
}
use garage_admin_console.Rules.Garage.{IsRoutingRule}
use garage_admin_console.Rules.Parsing.{parse_routing_rules_iff}
use garage_admin_console.BucketSettings.Website.{
  WebsiteServer, WebsiteForm, WebsiteBody, disabled, website, SaveAction, nothing, confirm_disable,
  confirm_clear_rules, send, is_touched, is_website_dirty, can_save_website, save_rules,
  save_parsed, on_save_website, click_save,
}

-- A body that keeps the website and its rules: it has an index document, and no rules, which leaves
-- them as they are, or some, each of which Garage accepts.
abbrev pub KeepsWebsite : WebsiteBody → Type 0
KeepsWebsite disabled = ⊥
KeepsWebsite (website index_document error_document none) = is_empty index_document ≡ false
KeepsWebsite (website index_document error_document (some objects)) =
    (is_empty index_document ≡ false) × (objects ≢ []) × All IsRoutingRule objects

-- What needs no question may be sent at once; all rules are deleted only where there are some.
abbrev pub IsHarmless : WebsiteServer → SaveAction → Type 0
IsHarmless base nothing = Unit
IsHarmless base confirm_disable = base.enabled ≡ true
IsHarmless base (confirm_clear_rules body) = 0 < base.rule_count
IsHarmless base (send body) = KeepsWebsite body

save_rules-IsHarmless :
    (base : WebsiteServer) (form : WebsiteForm) (objects : List Fields)
    → is_empty (trim form.index_document) ≡ false
    → All IsRoutingRule objects
    → IsHarmless base (save_rules base form objects)
unfolding save_rules
save_rules-IsHarmless base form (rule ∷ rest) index valid = (index, (λ e. cc), valid)
save_rules-IsHarmless base form [] index valid = elim (Bool-cases (ltb 0 base.rule_count)) [
  | inl e ↦ rw e (ground (arith, e))
  | inr e ↦ rw e index
]

save_parsed-IsHarmless :
    (read : Reader) (base : WebsiteServer) (form : WebsiteForm) (parsed : RoutingRulesParseResult)
    → parse_routing_rules read form.rules_text ≡ parsed
    → is_empty (trim form.index_document) ≡ false
    → IsHarmless base (save_parsed base form parsed)
save_parsed-IsHarmless read base form (errors messages) e index = index
save_parsed-IsHarmless read base form (accepted objects) e index =
    save_rules-IsHarmless base form objects index
      ((parse_routing_rules_iff read form.rules_text objects).0 e).1

on_save_website-IsHarmless :
    (read : Reader) (base : WebsiteServer) (form : WebsiteForm)
    → is_website_dirty base form ≡ true
    → can_save_website read base form ≡ true
    → IsHarmless base (on_save_website read base form)
unfolding on_save_website is_website_dirty can_save_website
on_save_website-IsHarmless read base form dirty valid = elim (Bool-cases (not form.enabled)) [
  | inr on ↦ elim (Bool-cases (is_empty (trim form.index_document))) [
    | inl missing ↦ absurd (ground (arith, valid, on, missing))
    | inr index ↦ elim (Bool-cases (is_touched base form)) [
      | inl touched ↦ rw (on, touched) (save_parsed-IsHarmless read base form _ refl index)
      | inr untouched ↦ rw (on, untouched) index
    ]
  ]
  | inl off ↦ rw off (ground (arith, dirty, off))
]

-- Saving the website never disables it and never deletes its routing rules without asking: what is
-- sent at once has an index document and leaves the rules out or gives some that Garage accepts;
-- the question about disabling comes only for a website that is enabled, and the one about deleting
-- all rules only where there are rules.
pub click_save-IsHarmless :
    (read : Reader) (base : WebsiteServer) (form : WebsiteForm)
    → IsHarmless base (click_save read base form)
unfolding click_save
click_save-IsHarmless read base form = elim (Bool-cases (is_website_dirty base form)) [
  | inl dirty ↦ elim (Bool-cases (can_save_website read base form)) [
    | inl valid ↦ rw (dirty, valid) (on_save_website-IsHarmless read base form dirty valid)
    | inr e ↦ rw (dirty, e) tt
  ]
  | inr e ↦ rw e tt
]
