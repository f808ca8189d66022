-- ===== src/BucketSettings.antt =====
-- frontend/src/components/bucket-settings.tsx: the forms of a bucket's settings, which follow the
-- server's data, and the quota card. Floating-point numbers are a record of parameters.
pub mod Website
pub mod Editing
pub mod Quota
pub mod Confirmed
use garage_admin_console.Base.{
  ℕ, zero, suc, ◌*◌, ◌/◌, ◌%◌, ◌^◌, Bool, true, false, not, ◌&&◌, ◌||◌, Option, none, some, List,
  [], ◌∷◌, Text, text, ◌==◌, trim, if◌then◌else◌, leb, ltb, eqb, is_some, is_empty, all,
  bind_option,
}
use garage_admin_console.Locale.{decimal}

pub record SizeUnit : Type 0 where
  pub label : Text
  pub factor : ℕ

-- `SIZE_UNITS`, without the bytes themselves, from the largest on
abbrev pub larger_units : List SizeUnit
larger_units =
    record { label = text "TiB"; factor = 1024 ^ 4 }
    ∷ record { label = text "GiB"; factor = 1024 ^ 3 }
    ∷ record { label = text "MiB"; factor = 1024 ^ 2 }
    ∷ record { label = text "KiB"; factor = 1024 }
    ∷ []

pub record Size : Type 0 where
  pub value : Text
  pub unit : Text

-- The loop of `splitBytes`
unfoldable pub split_with : ℕ → List SizeUnit → Size
split_with bytes [] = record { value = decimal bytes; unit = text "B" }
split_with bytes (u ∷ us) =
    let rest = split_with bytes us in
    if eqb (bytes % u.factor) 0
    then record { value = decimal (bytes / u.factor); unit = u.label }
    else rest

-- `splitBytes`
unfoldable pub split_bytes : ℕ → Size
split_bytes bytes = split_with bytes larger_units

-- `SIZE_UNITS.find((u) => u.label === unit)?.factor ?? 1`
unfoldable pub factor_of : Text → List SizeUnit → ℕ
factor_of unit [] = 1
factor_of unit (u ∷ us) = let rest = factor_of unit us in if u.label == unit then u.factor else rest

-- What the cards take from JavaScript's numbers.
pub record Numbers : Type 1 where
  pub Number : Type 0
  -- `Number(s)`
  pub of_text : Text → Number
  pub is_finite : Number → Bool
  -- `Math.round(n * factor)`
  pub scaled : Number → ℕ → Number
  -- `n <= 0`
  pub is_le_zero : Number → Bool
  pub is_safe_integer : Number → Bool
  -- the value of a safe integer that is not negative
  pub to_nat : Number → ℕ

-- `/^\d+$/.test(s)`
unfoldable pub is_digits : Text → Bool
is_digits s = not (is_empty s) && all (λ c. leb b'0' c && leb c b'9') s

-- `parsePositiveInt`
unfoldable pub parse_positive_int : Numbers → Text → Option ℕ
parse_positive_int nums s =
    let n = nums.of_text (trim s) in
    if not (is_digits (trim s))
    then none
    else if not (nums.is_le_zero n) && nums.is_safe_integer n
    then some (nums.to_nat n)
    else none

-- `normalizeQuota`, of a quota that is no negative number
unfoldable pub normalize_quota : Option ℕ → Option ℕ
normalize_quota none = none
normalize_quota (some n) = if ltb 0 n then some n else none

-- The state of `useServerForm`
pub record ServerForm (S F : Type 0) : Type 0 where
  pub base : S
  pub form : F

-- `useServerForm`; `same_server` and `same_form` compare what JSON.stringify makes of them
module _ {S F : Type 0} (to_form : S → F) where
  -- `useState(server)` and `useState(() => toForm(server))`; `resetTo`
  unfoldable pub reset_to : S → ServerForm S F
  reset_to server = record { base = server; form = to_form server }

  -- One render with the server's data
  unfoldable pub render_form : (S → S → Bool) → (F → F → Bool) → S → ServerForm S F → ServerForm S F
  unfolding reset_to
  render_form same_server same_form server s =
      if same_form s.form (to_form s.base) && not (same_server server s.base)
      then reset_to server
      else s

-- `update`, where a patch is a function
unfoldable pub update_form : {S F : Type 0} → (F → F) → ServerForm S F → ServerForm S F
update_form patch s = record s { form = patch s.form }

pub record QuotaServer : Type 0 where
  pub max_size : Option ℕ
  pub max_objects : Option ℕ

-- `quotaServer`, of the bucket's quotas
unfoldable pub quota_server : Option ℕ → Option ℕ → QuotaServer
quota_server max_size max_objects = record {
  max_size = normalize_quota max_size;
  max_objects = normalize_quota max_objects;
}

pub record QuotaForm : Type 0 where
  pub size_unlimited : Bool
  pub size_value : Text
  pub size_unit : Text
  pub objects_unlimited : Bool
  pub objects_value : Text

abbrev size_fields : Option ℕ → Size
size_fields none = record { value = []; unit = text "GiB" }
size_fields (some bytes) = split_bytes bytes

abbrev objects_field : Option ℕ → Text
objects_field none = []
objects_field (some n) = decimal n

-- `quotaForm`
unfoldable pub quota_form : QuotaServer → QuotaForm
quota_form s = record {
  size_unlimited = not (is_some s.max_size);
  size_value = (size_fields s.max_size).value;
  size_unit = (size_fields s.max_size).unit;
  objects_unlimited = not (is_some s.max_objects);
  objects_value = objects_field s.max_objects;
}

-- An error, or a quota, where none is unlimited
pub data Checked : Type 0 where
  invalid : (message : Text) → Checked
  quota : (value : Option ℕ) → Checked

-- `sizeError` and `maxSize` of the quota card
unfoldable pub checked_size : Numbers → QuotaForm → Checked
checked_size nums form =
    let value = trim form.size_value in
    let n = nums.of_text value in
    let bytes = nums.scaled n (factor_of form.size_unit larger_units) in
    if form.size_unlimited
    then quota none
    else if is_empty value || not (nums.is_finite n) || nums.is_le_zero bytes
    then invalid (text "正の数を入力してください")
    else if not (nums.is_safe_integer bytes)
    then invalid (text "値が大きすぎます")
    else quota (some (nums.to_nat bytes))

abbrev objects_or_error : Option ℕ → Checked
objects_or_error none = invalid (text "1 以上の整数を入力してください")
objects_or_error (some n) = quota (some n)

-- `objectsError` and `maxObjects`
unfoldable pub checked_objects : Numbers → QuotaForm → Checked
checked_objects nums form =
    if form.objects_unlimited
    then quota none
    else objects_or_error (parse_positive_int nums form.objects_value)

abbrev pub is_valid : Checked → Bool
is_valid (invalid message) = false
is_valid (quota value) = true

-- `maxSize`, which stays null with an error
abbrev pub value_of : Checked → Option ℕ
value_of (invalid message) = none
value_of (quota value) = value

abbrev pub same_option : Option ℕ → Option ℕ → Bool
same_option none none = true
same_option (some a) (some b) = eqb a b
same_option _ _ = false

abbrev pub same_flag : Bool → Bool → Bool
same_flag true b = b
same_flag false b = not b

-- `dirty` of the quota card
unfoldable pub is_quota_dirty : Numbers → QuotaServer → QuotaForm → Bool
is_quota_dirty nums base form =
    not (same_flag form.size_unlimited (not (is_some base.max_size)))
    || not (same_flag form.objects_unlimited (not (is_some base.max_objects)))
    || (not form.size_unlimited
        && not (same_option (value_of (checked_size nums form)) base.max_size))
    || (not form.objects_unlimited
        && not (same_option (value_of (checked_objects nums form)) base.max_objects))

-- What the save button sends, where it is enabled: the valid quotas of a form with changes
unfoldable pub saved_quotas : Numbers → QuotaServer → QuotaForm → Option QuotaServer
saved_quotas nums base form =
    if is_quota_dirty nums base form
      && is_valid (checked_size nums form)
      && is_valid (checked_objects nums form)
    then some (record {
      max_size = value_of (checked_size nums form);
      max_objects = value_of (checked_objects nums form);
    })
    else none
