-- ===== src/Combobox.antt =====
-- frontend/src/components/combobox.tsx: the options that a search shows, the highlighted one, and
-- what keys and clicks do. Lower case is the locale's. Scrolling, focus and `onOpenChange` are left out.
pub mod Highlight
use garage_admin_console.Base.{
  ℕ, ◌+◌, ◌-◌, ◌%◌, min, Bool, true, false, not, ◌&&◌, ◌||◌, Option, none, some, List, [], ◌∷◌,
  ◌++◌, Text, text, ◌==◌, trim, includes, if◌then◌else◌, is_empty, any, filter, length, or_else,
  get_elem?,
}
use garage_admin_console.Locale.{Locale}

pub record ComboboxOption : Type 0 where
  pub value : Text
  pub label : Text
  pub detail : Option Text
  pub keywords : Option (List Text)
  pub disabled : Bool

-- `matches`
unfoldable pub matches : Locale → ComboboxOption → Text → Bool
matches l o q =
    is_empty q
    || any (λ s. includes (l.to_lower s) q)
        (o.label ∷ or_else o.detail [] ∷ o.value ∷ or_else o.keywords [])

-- The state of the open combobox; `changed` is what `onChange` got last
pub record Combobox : Type 0 where
  pub is_open : Bool
  pub query : Text
  pub active : ℕ
  pub changed : Option Text

-- `acceptCustomValue` and `customValueLabel`
pub record CustomValue : Type 0 where
  pub accepts : Text → Bool
  pub label : Text

-- The extra entry for a text that is no option's value
unfoldable pub custom_entry : Option CustomValue → List ComboboxOption → Text → List ComboboxOption
custom_entry none options trimmed = []
custom_entry (some custom) options trimmed =
    if not (is_empty trimmed)
      && custom.accepts trimmed
      && not (any (λ o. o.value == trimmed) options)
    then record {
      value = trimmed;
      label = custom.label;
      detail = some trimmed;
      keywords = none;
      disabled = false;
    }
      ∷ []
    else []

-- `filtered`, of the text of the search box
unfoldable pub filtered_options :
    Locale → Option CustomValue → List ComboboxOption → Text → List ComboboxOption
filtered_options l custom options query =
    filter (λ o. matches l o (l.to_lower (trim query))) options
    ++ custom_entry custom options (trim query)

-- `activeIndex`, nothing for an empty list
unfoldable pub active_index : ℕ → List ComboboxOption → Option ℕ
active_index active [] = none
active_index active (o ∷ os) = some (min active (length os))

abbrev next_index : Option ℕ → Option ℕ
next_index none = none
next_index (some i) = some (i + 1)

-- `options.findIndex((o) => o.value === value)`, or 0
unfoldable pub index_of : Option Text → List ComboboxOption → Option ℕ
index_of none options = none
index_of (some value) [] = none
index_of (some value) (o ∷ os) =
    let rest = index_of (some value) os in if o.value == value then some 0 else next_index rest

-- `handleOpenChange`
unfoldable pub handle_open_change : List ComboboxOption → Option Text → Bool → Combobox → Combobox
handle_open_change options value true c = record c {
  is_open = true;
  query = [];
  active = or_else (index_of value options) 0;
}
handle_open_change options value false c = record c { is_open = false }

-- `choose`
unfoldable pub choose : List ComboboxOption → Option Text → ComboboxOption → Combobox → Combobox
choose options value o c =
    if o.disabled
    then c
    else handle_open_change options value false (record c { changed = some o.value })

pub data Key : Type 0 where
  arrow_down arrow_up enter : Key

abbrev choose_maybe :
    List ComboboxOption → Option Text → Option ComboboxOption → Combobox → Combobox
choose_maybe options value none c = c
choose_maybe options value (some o) c = choose options value o c

-- One key where the list shows `shown`, and `i` is highlighted
unfoldable pub press_at :
    List ComboboxOption → Option Text → List ComboboxOption → ℕ → Key → Combobox → Combobox
press_at options value shown i arrow_down c = record c {
  active = (i + 1 + length shown) % length shown;
}
press_at options value shown i arrow_up c = record c {
  active = (i + length shown - 1) % length shown;
}
press_at options value shown i enter c = choose_maybe options value (get_elem? shown i) c

abbrev press_maybe :
    List ComboboxOption → Option Text → List ComboboxOption → Option ℕ → Key → Combobox → Combobox
press_maybe options value shown none key c = c
press_maybe options value shown (some i) key c = press_at options value shown i key c

-- `onKeyDown`
unfoldable pub press :
    Locale → Option CustomValue → List ComboboxOption → Option Text → Key → Combobox → Combobox
press l custom options value key c =
    let shown = filtered_options l custom options c.query in
    press_maybe options value shown (active_index c.active shown) key c

-- `onChange` of the search box
unfoldable pub type_query : Text → Combobox → Combobox
type_query s c = record c { query = s; active = 0 }
