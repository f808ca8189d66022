-- ===== src/Witnesses/Settings.antt =====
-- The theorems on the forms of buckets, the resync card, the layout tracker, the scope editor, the
-- combobox and the deletion of folders, at concrete inputs.
use garage_admin_console.Base.{
  ℕ, ◌*◌, ◌≡◌, List, map, is_empty, ◌++◌, ◌≢◌, refl, ◌↔◌, ◌⊎◌, true, false, not, ◌&&◌, none, some,
  inr, [], ◌∷◌, Text, text, trim, ◌==◌, ==_refl, any, All, eqb, ltb, leb, filter, length, contains,
  if◌then◌else◌,
}
use garage_admin_console.Locale.Value.{value_of_digits}
use garage_admin_console.Witnesses.{sample_locale, storage_answer}
use garage_admin_console.MaintenanceStatus.{kept_nodes, neutral}
use garage_admin_console.MaintenanceStatus.Metrics.{
  stats, summarize_node_metric, resync_errors_card,
}
use garage_admin_console.MaintenanceStatus.Metrics.Clear.{resync_errors_card-neutral_iff}
use garage_admin_console.Json.{array, nil}
use garage_admin_console.Rules.{Reader}
use garage_admin_console.BucketSettings.{Numbers, ServerForm, render_form}
use garage_admin_console.BucketSettings.Website.{WebsiteServer, WebsiteForm, click_save}
use garage_admin_console.BucketSettings.Confirmed.{IsHarmless, click_save-IsHarmless}
use garage_admin_console.BucketSettings.Editing.{is_pristine, renders, renders-follow}
use garage_admin_console.BucketSettings.Quota.{max_safe_integer}
use garage_admin_console.LayoutTracker.{LayoutHistory, current, draining, is_live, skip_targets}
use garage_admin_console.LayoutTracker.Skipping.{skip_targets-any}
use garage_admin_console.ObjectList.Deletion.{BatchDeleteResult, prefix_deleted, joined_prefix}
use garage_admin_console.ObjectList.Parents.{prefix_deleted-goes_up}
use garage_admin_console.Combobox.{
  ComboboxOption, Combobox, matches, custom_entry, filtered_options, active_index, press,
  arrow_down, arrow_up,
}
use garage_admin_console.Combobox.Highlight.{press_undo}
use garage_admin_console.AdminScopes.{all_admin_endpoints, all_scope}
use garage_admin_console.AdminScopes.Editor.{set_endpoints, contains-set_endpoints}

resync_errors_card-neutral_iff_example :
    ((resync_errors_card sample_locale (
        summarize_node_metric sample_locale storage_answer (λ n. n.resync_errors) stats [] [])).tone
      ≡ neutral)
    ↔ ((length (kept_nodes [] storage_answer.nodes) ≢ 0)
        × All (λ n. n.resync_errors ≡ some 0) (kept_nodes [] storage_answer.nodes))
resync_errors_card-neutral_iff_example =
    resync_errors_card-neutral_iff sample_locale storage_answer [] []

abbrev base : WebsiteServer
base = record {
  enabled = true;
  index_document = text "index.html";
  error_document = [];
  rules_text = text "[{}]";
  rule_count = 1;
}

-- All rules are gone from the text.
abbrev emptied : WebsiteForm
emptied = record {
  enabled = true;
  index_document = text "index.html";
  error_document = [];
  rules_text = text "[]";
}

abbrev reader : Reader
reader s = inr (array nil)

click_save-IsHarmless_example : IsHarmless base (click_save reader base emptied)
click_save-IsHarmless_example = click_save-IsHarmless reader base emptied

abbrev edited : ServerForm Text Text
edited = record { base = text "[]"; form = text "[{}]" }

renders-follow_example :
    ((is_pristine (λ s. s) ◌==◌ ◌==◌ edited ≡ false)
      × (render_form
            (λ s. s)
            ◌==◌
            ◌==◌
            (text "[1]")
            (renders (λ s. s) ◌==◌ ◌==◌ (text "[2]" ∷ []) edited)
          ≡ edited))
    ⊎ ((is_pristine (λ s. s) ◌==◌ ◌==◌ edited ≡ true)
        × (is_pristine
              (λ s. s)
              ◌==◌
              ◌==◌
              (render_form
                (λ s. s)
                ◌==◌
                ◌==◌
                (text "[1]")
                (renders (λ s. s) ◌==◌ ◌==◌ (text "[2]" ∷ []) edited))
            ≡ true)
        × ((text "[1]"
              == (render_form
                  (λ s. s)
                  ◌==◌
                  ◌==◌
                  (text "[1]")
                  (renders (λ s. s) ◌==◌ ◌==◌ (text "[2]" ∷ []) edited)).base)
            ≡ true))
renders-follow_example =
    renders-follow (λ s. s) ◌==◌ ◌==◌ ==_refl ==_refl (text "[2]" ∷ []) (text "[1]") edited

abbrev numbers : Numbers
numbers = record {
  Number = ℕ;
  of_text = value_of_digits 0;
  is_finite = λ n. true;
  scaled = λ n factor. n * factor;
  is_le_zero = λ n. eqb n 0;
  is_safe_integer = λ n. leb n max_safe_integer;
  to_nat = λ n. n;
}

abbrev history : LayoutHistory
history = record {
  current_version = 4;
  min_ack = 3;
  versions =
      record { version = 4; status = current; storage_nodes = 3; gateway_nodes = 0 }
      ∷ record { version = 3; status = draining; storage_nodes = 2; gateway_nodes = 0 }
      ∷ [];
  update_trackers = none;
}

skip_targets-any_example : any (λ v. eqb v 4) (skip_targets history) ≡ (
    any (λ v. eqb v.version 4) (filter is_live history.versions)
    && (any (λ v. ltb v.version 4) (filter is_live history.versions)
        && leb 4 history.current_version))
skip_targets-any_example = skip_targets-any history 4

contains-set_endpoints_example :
    contains
      (set_endpoints (text "*" ∷ text "Future" ∷ []) (text "ListKeys" ∷ []) true)
      (text "Future")
    ≡ (if contains (text "ListKeys" ∷ []) (text "Future")
        then true
        else (contains (text "*" ∷ text "Future" ∷ []) (text "Future")
            && not (text "Future" == all_scope)))
unfolding all_admin_endpoints ◌==◌ text
contains-set_endpoints_example =
    contains-set_endpoints (text "*" ∷ text "Future" ∷ []) (text "ListKeys" ∷ []) true
      (text "Future") (refl, tt)

abbrev plain_option : Text → ComboboxOption
plain_option s = record { value = s; label = s; detail = none; keywords = none; disabled = false }

abbrev buckets : List ComboboxOption
buckets = map plain_option (text "backup" ∷ text "logs" ∷ text "media" ∷ text "old-logs" ∷ [])

-- The second of the two options that the search shows is highlighted.
abbrev searching : Combobox
searching = record { is_open = true; query = text "logs"; active = 1; changed = none }

press_undo_example :
    ((press sample_locale none buckets none arrow_up
        (press sample_locale none buckets none arrow_down searching)).active
      ≡ 1)
    × ((press sample_locale none buckets none arrow_down
          (press sample_locale none buckets none arrow_up searching)).active
        ≡ 1)
unfolding active_index filtered_options matches trim text custom_entry
press_undo_example = press_undo sample_locale none buckets none searching 1 refl

abbrev ten_deleted : BatchDeleteResult
ten_deleted = record { deleted = 10; errors = []; truncated = false }

abbrev years : List Text
years = (b'a' ∷ []) ∷ (b'b' ∷ b'c' ∷ []) ∷ []

abbrev old_year : Text
old_year = b'd' ∷ []

prefix_deleted-goes_up_example :
    let shown = joined_prefix (years ++ (old_year ∷ [])) in
    (prefix_deleted shown shown ten_deleted).1 ≡ (
      if is_empty ten_deleted.errors && not ten_deleted.truncated
      then some (joined_prefix years)
      else none)
prefix_deleted-goes_up_example =
    prefix_deleted-goes_up years old_year ten_deleted ((refl, tt), ((refl, (refl, tt)), tt))
      (refl, tt)
