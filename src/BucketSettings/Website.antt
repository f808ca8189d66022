-- ===== src/BucketSettings/Website.antt =====
-- frontend/src/components/bucket-settings.tsx: what saving the website and the JSON rules of a
-- bucket sends, and what it asks for first.
use garage_admin_console.Base.{
  ℕ, Bool, true, false, not, ◌&&◌, ◌||◌, Option, none, some, List, [], ◌∷◌, Text, text, ◌==◌, trim,
  if◌then◌else◌, ltb, is_empty, or_else, map_option, length,
}
use garage_admin_console.Json.{Fields}
use garage_admin_console.Rules.{
  Reader, ParsedRules, rules, failed, parse_rules_json, RoutingRulesParseResult, accepted, errors,
  parse_routing_rules,
}

-- `websiteConfig` of a bucket
pub record WebsiteConfig : Type 0 where
  pub index_document : Text
  pub error_document : Option Text
  pub routing_rules : Option (List Fields)

pub record WebsiteServer : Type 0 where
  pub enabled : Bool
  pub index_document : Text
  pub error_document : Text
  pub rules_text : Text
  pub rule_count : ℕ

-- `websiteServer`; `rules_to_text` is JSON.stringify of the rules, or of `[]`
unfoldable pub website_server : (List Fields → Text) → Bool → Option WebsiteConfig → WebsiteServer
website_server rules_to_text access none = record {
  enabled = access;
  index_document = text "index.html";
  error_document = [];
  rules_text = rules_to_text [];
  rule_count = 0;
}
website_server rules_to_text access (some cfg) = record {
  enabled = access;
  index_document = cfg.index_document;
  error_document = or_else cfg.error_document [];
  rules_text = rules_to_text (or_else cfg.routing_rules []);
  rule_count = or_else (map_option length cfg.routing_rules) 0;
}

pub record WebsiteForm : Type 0 where
  pub enabled : Bool
  pub index_document : Text
  pub error_document : Text
  pub rules_text : Text

-- `websiteForm`
unfoldable pub website_form : WebsiteServer → WebsiteForm
website_form s = record {
  enabled = s.enabled;
  index_document = s.index_document;
  error_document = s.error_document;
  rules_text = s.rules_text;
}

-- `UpdateBucketBody['websiteAccess']`; what is omitted is left unchanged
pub data WebsiteBody : Type 0 where
  disabled : WebsiteBody
  website :
      (index_document : Text) (error_document : Option Text) (routing_rules : Option (List Fields))
      → WebsiteBody

-- What a click on save does: nothing, ask, or send
pub data SaveAction : Type 0 where
  nothing : SaveAction
  confirm_disable : SaveAction
  confirm_clear_rules : (body : WebsiteBody) → SaveAction
  send : (body : WebsiteBody) → SaveAction

-- `rulesTouched`
abbrev pub is_touched : WebsiteServer → WebsiteForm → Bool
is_touched base form = not (form.rules_text == base.rules_text)

-- `dirty`
unfoldable pub is_website_dirty : WebsiteServer → WebsiteForm → Bool
is_website_dirty base form =
    not (if form.enabled then base.enabled else not base.enabled)
    || (form.enabled
        && (not (form.index_document == base.index_document)
            || not (form.error_document == base.error_document)
            || is_touched base form))

abbrev has_rules_errors : RoutingRulesParseResult → Bool
has_rules_errors (accepted objects) = false
has_rules_errors (errors messages) = true

-- `canSave` of the website card
unfoldable pub can_save_website : Reader → WebsiteServer → WebsiteForm → Bool
can_save_website read base form =
    not form.enabled
    || (not (is_empty (trim form.index_document))
        && (not (is_touched base form)
            || not (has_rules_errors (parse_routing_rules read form.rules_text))))

abbrev pub website_with : WebsiteForm → Option (List Fields) → WebsiteBody
website_with form routing_rules =
    website (trim form.index_document)
      (if is_empty (trim form.error_document) then none else some (trim form.error_document))
      routing_rules

-- The end of `onSave`, for rules that were edited and are accepted
unfoldable pub save_rules : WebsiteServer → WebsiteForm → List Fields → SaveAction
save_rules base form (rule ∷ rest) = send (website_with form (some (rule ∷ rest)))
save_rules base form [] =
    if ltb 0 base.rule_count
    then confirm_clear_rules (website_with form (some []))
    else send (website_with form none)

abbrev pub save_parsed : WebsiteServer → WebsiteForm → RoutingRulesParseResult → SaveAction
save_parsed base form (accepted objects) = save_rules base form objects
save_parsed base form (errors messages) = send (website_with form none)

-- `onSave` of the website card
unfoldable pub on_save_website : Reader → WebsiteServer → WebsiteForm → SaveAction
on_save_website read base form =
    if not form.enabled
    then confirm_disable
    else if is_touched base form
    then save_parsed base form (parse_routing_rules read form.rules_text)
    else send (website_with form none)

-- A click on the save button, which is enabled for valid changes
unfoldable pub click_save : Reader → WebsiteServer → WebsiteForm → SaveAction
click_save read base form =
    if is_website_dirty base form && can_save_website read base form
    then on_save_website read base form
    else nothing

-- `onConfirm` of the website card: what is sent then
unfoldable pub on_confirm : SaveAction → Option WebsiteBody
on_confirm confirm_disable = some disabled
on_confirm (confirm_clear_rules body) = some body
on_confirm _ = none

-- What a click on save does in the card of CORS or lifecycle rules
pub data RulesAction : Type 0 where
  no_save : RulesAction
  confirm_delete : RulesAction
  send_rules : (objects : List Fields) → RulesAction

abbrev save_objects : List Fields → List Fields → RulesAction
save_objects base objects =
    if is_empty objects && ltb 0 (length base) then confirm_delete else send_rules objects

abbrev save_parsed_rules : List Fields → ParsedRules → RulesAction
save_parsed_rules base (failed error) = no_save
save_parsed_rules base (rules objects) = save_objects base objects

-- `onSave` of `RulesJsonCard`
unfoldable pub on_save_rules : Reader → List Fields → Text → RulesAction
on_save_rules read base s = save_parsed_rules base (parse_rules_json read s)
