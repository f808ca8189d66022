-- ===== src/Rules/Parsing.antt =====
-- The whole way of a text through the routing-rule editor of
-- frontend/src/lib/website-routing-rules.ts and rules-json.ts.
use garage_admin_console.Base.{
  ℕ, suc, ◌≡◌, refl, ap, ◌∙◌, ◌⊎◌, inl, inr, ◌↔◌, List, [], ◌∷◌, arith, Text, text, trim,
  if◌then◌else◌, is_empty, is_empty_iff, All, Bool-cases,
}
use garage_admin_console.Json.{
  Json, Items, Fields, nil, item, object, string, number, null, other_number, boolean, array,
}
use garage_admin_console.Rules.{
  rules_errors, Reader, ParsedRules, rules, failed, cons_rule, objects_from, rules_of,
  parse_rules_json, parse_routing_rules, accepted, RoutingRulesParseResult, result_of,
  rules_or_error, rules_read,
}
use garage_admin_console.Rules.Garage.{IsRoutingRule}
use garage_admin_console.Rules.Checked.{rules_errors_iff}

-- An array of objects.
abbrev pub items_of : List Fields → Items
items_of [] = nil
items_of (fields ∷ objects) = item (object fields) (items_of objects)

abbrev accepted_objects : RoutingRulesParseResult → List Fields
accepted_objects (accepted objects) = objects
accepted_objects _ = []

abbrev objects_of : ParsedRules → List Fields
objects_of (rules objects) = objects
objects_of _ = []

result_of_iff :
    (parsed : ParsedRules) (objects : List Fields)
    → (result_of parsed ≡ accepted objects) ↔ ((parsed ≡ rules objects) × All IsRoutingRule objects)
result_of_iff (failed error) objects = ground arith
result_of_iff (rules found) objects =
    let valid = rules_errors_iff 0 found in
    elim (Bool-cases (is_empty (rules_errors 0 found))) [
      | inl e ↦ (
        λ same.
            let found_same = ap accepted_objects (rw e at same) in
            (
              ap rules found_same,
              rw⁻¹ found_same (valid.0 ((is_empty_iff (rules_errors 0 found)).0 e)),
            ),
        λ (same, h). rw e (ap accepted (ap objects_of same)),
      )
      | inr e ↦ (
        λ same. absurd (ground (arith, rw e at same)),
        λ (same, h). absurd (
            ground (
              arith,
              e,
              (is_empty_iff (rules_errors 0 found)).1 (valid.1 (rw (ap objects_of same) h)),
            )),
      )
    ]

abbrev found_in : ℕ ⊎ List Fields → List Fields
found_in (inl bad) = []
found_in (inr objects) = objects

objects_from-items_of :
    (i : ℕ) (objects : List Fields) → objects_from i (items_of objects) ≡ inr objects
unfolding objects_from
objects_from-items_of i [] = refl
objects_from-items_of i (fields ∷ objects) =
    ap (cons_rule fields) (objects_from-items_of (suc i) objects)

cons_rule-inr :
    (fields : Fields) (items : Items) (objects : List Fields) (later : ℕ ⊎ List Fields)
    → ((found : List Fields) → later ≡ inr found → items ≡ items_of found)
    → cons_rule fields later ≡ inr objects
    → item (object fields) items ≡ items_of objects
cons_rule-inr fields items objects (inl bad) rest e = absurd (ground (arith, e))
cons_rule-inr fields items objects (inr found) rest e =
    ap (item (object fields)) (rest found refl) ∙ ap items_of (ap found_in e)

objects_from-inr :
    (i : ℕ) (items : Items) (objects : List Fields)
    → objects_from i items ≡ inr objects
    → items ≡ items_of objects
unfolding objects_from
objects_from-inr i nil objects e = ap items_of (ap found_in e)
objects_from-inr i (item (object fields) items) objects e =
    cons_rule-inr fields items objects (objects_from (suc i) items)
      (λ found same. objects_from-inr (suc i) items found same) e
objects_from-inr i (item null items) objects e = absurd (ground (arith, e))
objects_from-inr i (item other_number items) objects e = absurd (ground (arith, e))
objects_from-inr i (item (boolean b) items) objects e = absurd (ground (arith, e))
objects_from-inr i (item (number n) items) objects e = absurd (ground (arith, e))
objects_from-inr i (item (string s) items) objects e = absurd (ground (arith, e))
objects_from-inr i (item (array inner) items) objects e = absurd (ground (arith, e))

-- What `JSON.parse` is given: the text, or an empty array for a blank one.
abbrev pub json_text : Text → Text
json_text s = if is_empty (trim s) then text "[]" else s

rules_or_error-eq_rules :
    (found : ℕ ⊎ List Fields) (objects : List Fields)
    → rules_or_error found ≡ rules objects
    → found ≡ inr objects
rules_or_error-eq_rules (inl bad) objects e = absurd (ground (arith, e))
rules_or_error-eq_rules (inr found) objects e = ap inr (ap objects_of e)

rules_of-eq_rules :
    (value : Json) (objects : List Fields)
    → rules_of value ≡ rules objects
    → value ≡ array (items_of objects)
unfolding rules_of
rules_of-eq_rules (array items) objects e =
    ap array (objects_from-inr 0 items objects (rules_or_error-eq_rules _ objects e))
rules_of-eq_rules null objects e = absurd (ground (arith, e))
rules_of-eq_rules other_number objects e = absurd (ground (arith, e))
rules_of-eq_rules (boolean b) objects e = absurd (ground (arith, e))
rules_of-eq_rules (number n) objects e = absurd (ground (arith, e))
rules_of-eq_rules (string s) objects e = absurd (ground (arith, e))
rules_of-eq_rules (object fields) objects e = absurd (ground (arith, e))

rules_of-items_of : (objects : List Fields) → rules_of (array (items_of objects)) ≡ rules objects
unfolding rules_of
rules_of-items_of objects = ap rules_or_error (objects_from-items_of 0 objects)

rules_read_iff :
    (parsed : Text ⊎ Json) (objects : List Fields)
    → (rules_read parsed ≡ rules objects) ↔ (parsed ≡ inr (array (items_of objects)))
rules_read_iff (inl message) objects = ground arith
rules_read_iff (inr value) objects = (
  λ e. ap inr (rules_of-eq_rules value objects e),
  λ e. ap rules_read e ∙ rules_of-items_of objects,
)

-- The routing rules of a text are accepted exactly if the text, or `[]` for a blank one, is a JSON
-- array of objects each of which Garage accepts, and the accepted rules are that array's objects.
pub parse_routing_rules_iff :
    (read : Reader) (s : Text) (objects : List Fields)
    → (parse_routing_rules read s ≡ accepted objects)
      ↔ ((read (json_text s) ≡ inr (array (items_of objects))) × All IsRoutingRule objects)
unfolding parse_routing_rules parse_rules_json
parse_routing_rules_iff read s objects =
    let (there, back) = result_of_iff (parse_rules_json read s) objects in
    let (parsed, unparsed) = rules_read_iff (read (json_text s)) objects in
    (
      (λ e. let (same, valid) = there e in (parsed same, valid)),
      (λ (same, valid). back (unparsed same, valid)),
    )
