-- ===== src/ObjectList.antt =====
-- frontend/src/components/object-browser.tsx, `ObjectBrowser`: the order of the objects, the prefix
-- and the selection; and `formatDate` and `parentPrefix`. Date.parse is a parameter, with 0 where it
-- gives no number.
pub mod Deletion
pub mod Parents
use garage_admin_console.Base.{
  ℕ, ◌++◌, Ordering, Bool, true, false, not, ◌&&◌, ◌||◌, Option, none, some, List, [], ◌∷◌, map,
  Text, text, ◌==◌, starts_with, if◌then◌else◌, ltb, is_empty, length, all, filter, contains,
  or_then, negate,
}
use garage_admin_console.Base.Sorting.{sort, Comparator, ascending}
use garage_admin_console.Locale.{compare_units}

-- `formatDate`, of `formatDateTime`
unfoldable pub format_date : (Text → Text) → Option Text → Text
format_date format_date_time none = text "-"
format_date format_date_time (some value) =
    if is_empty value || starts_with value (text "0001-") then text "-" else format_date_time value

-- An object of the listing
pub record ObjectSummary : Type 0 where
  pub key : Text
  pub size : ℕ
  pub last_modified : Text

pub data SortKey : Type 0 where
  name size last_modified : SortKey

pub data SortDir : Type 0 where
  asc desc : SortDir

pub record ListSort : Type 0 where
  pub sort_key : SortKey
  pub sort_dir : SortDir

abbrev same_key : SortKey → SortKey → Bool
same_key name name = true
same_key size size = true
same_key last_modified last_modified = true
same_key _ _ = false

abbrev opposite : SortDir → SortDir
opposite asc = desc
opposite desc = asc

abbrev first_dir : SortKey → SortDir
first_dir name = asc
first_dir _ = desc

-- `handleSort`
unfoldable pub handle_sort : SortKey → ListSort → ListSort
handle_sort column s =
    if same_key column s.sort_key
    then record s { sort_dir = opposite s.sort_dir }
    else record { sort_key = column; sort_dir = first_dir column }

-- The comparison by one column, before the keys
abbrev column_order : (Text → ℕ) → SortKey → Comparator ObjectSummary
column_order parse size a b = ascending (λ o. o.size) a b
column_order parse last_modified a b = ascending (λ o. parse o.last_modified) a b
column_order parse name a b = Ordering.eq

abbrev signed : SortDir → Ordering → Ordering
signed asc c = c
signed desc c = negate c

-- The comparator of `sortedObjects`
unfoldable pub compare_objects : (Text → ℕ) → ListSort → Comparator ObjectSummary
compare_objects parse s a b =
    signed s.sort_dir (or_then (column_order parse s.sort_key a b) (compare_units a.key b.key))

-- `sortedObjects`
unfoldable pub sorted_objects : (Text → ℕ) → ListSort → List ObjectSummary → List ObjectSummary
sorted_objects parse s objects = sort (compare_objects parse s) objects

-- `toggleSelect`; a `Set` is the list of its members
unfoldable pub toggle_select : Text → List Text → List Text
toggle_select key selected =
    if contains selected key then filter (λ k. not (k == key)) selected else selected ++ (key ∷ [])

-- `isAllSelected`
unfoldable pub is_all_selected : List ObjectSummary → List Text → Bool
is_all_selected objects selected =
    ltb 0 (length objects) && all (λ o. contains selected o.key) objects

-- `next.add(key)`
abbrev add_key : List Text → Text → List Text
add_key selected key = if contains selected key then selected else selected ++ (key ∷ [])

unfoldable pub add_keys : List ObjectSummary → List Text → List Text
add_keys [] selected = selected
add_keys (o ∷ os) selected = add_keys os (add_key selected o.key)

-- `toggleSelectAll`
unfoldable pub toggle_select_all : List ObjectSummary → List Text → List Text
toggle_select_all objects selected =
    if is_all_selected objects selected
    then filter (λ k. not (contains (map (λ o. o.key) objects) k)) selected
    else add_keys objects selected

-- The state of the prefix field and the selection
pub record PrefixState : Type 0 where
  pub prefix_input : Text
  pub synced_prefix : Text
  pub selected_keys : List Text

-- One render with the prefix of the address
unfoldable pub sync_prefix : Text → PrefixState → PrefixState
sync_prefix prefix s =
    if prefix == s.synced_prefix
    then s
    else record { prefix_input = prefix; synced_prefix = prefix; selected_keys = [] }
