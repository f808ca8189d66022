-- ===== src/Grants.antt =====
-- frontend/src/lib/permissions.ts and expiration.ts: permissions of keys on buckets, and the form of
-- an expiration. The browser's local dates are parameters.
use garage_admin_console.Base.{
  ℕ, ◌++◌, Bool, true, false, not, ◌&&◌, ◌||◌, Option, none, some, Text, text, ◌==◌, if◌then◌else◌,
  is_empty, is_some, map_option,
}
use garage_admin_console.Api.{BucketKeyPermissions}

-- `DEFAULT_GRANT`
abbrev pub default_grant : BucketKeyPermissions
default_grant = record { read = true; write = false; owner = false }

-- `hasAnyPermission`
unfoldable pub has_any_permission : Option BucketKeyPermissions → Bool
has_any_permission none = false
has_any_permission (some p) = p.read || p.write || p.owner

abbrev same_bool : Bool → Bool → Bool
same_bool true b = b
same_bool false b = not b

-- `samePermissions`
unfoldable pub same_permissions : BucketKeyPermissions → BucketKeyPermissions → Bool
same_permissions a b =
    same_bool a.read b.read && same_bool a.write b.write && same_bool a.owner b.owner

-- `ExpirationValue`
pub record ExpirationValue : Type 0 where
  pub never_expires : Bool
  pub date : Text
  pub time : Text

-- `expirationDate`; `parse` is `new Date(s)`, with nothing for an invalid date
unfoldable pub expiration_date : (Text → Option ℕ) → ExpirationValue → Option ℕ
expiration_date parse v =
    if v.never_expires || is_empty v.date
    then none
    else parse (v.date ++ (text "T" ++ (if is_empty v.time then text "00:00" else v.time)))

-- `expirationIso`
unfoldable pub expiration_iso : (Text → Option ℕ) → (ℕ → Text) → ExpirationValue → Option Text
expiration_iso parse to_iso v = map_option to_iso (expiration_date parse v)

-- `expirationValid`
unfoldable pub expiration_valid : (Text → Option ℕ) → ExpirationValue → Bool
expiration_valid parse v = v.never_expires || is_some (expiration_date parse v)

-- `sameExpiration`
unfoldable pub same_expiration : ExpirationValue → ExpirationValue → Bool
same_expiration a b =
    if a.never_expires || b.never_expires
    then same_bool a.never_expires b.never_expires
    else a.date == b.date && a.time == b.time

-- `{ expiration } | { neverExpires: true }`
pub data ExpirationBody : Type 0 where
  expiration : (iso : Text) → ExpirationBody
  never : ExpirationBody

abbrev body_or_never : Option Text → ExpirationBody
body_or_never none = never
body_or_never (some iso) = if is_empty iso then never else expiration iso

-- `expirationBody`
unfoldable pub expiration_body : (Text → Option ℕ) → (ℕ → Text) → ExpirationValue → ExpirationBody
expiration_body parse to_iso v = body_or_never (expiration_iso parse to_iso v)
