-- ===== src/Attention.antt =====
-- frontend/src/lib/attention.ts: what of the cluster needs an operator's attention. This file has
-- the sources, the items and the reports of the single checks; `Checks` has the checks, and
-- `collectAttentionItems` puts their reports together in the order of the source.
pub mod Checks
pub mod Buckets
pub mod Quiet
pub mod Collect
use garage_admin_console.Base.{
  ℕ, ◌+◌, ◌-◌, ◌/◌, ◌++◌, Bool, true, false, not, ◌&&◌, ◌||◌, Option, none, some, List, [], ◌∷◌,
  Text, text, if◌then◌else◌, ltb, leb, is_some, is_empty, bind_option,
}
use garage_admin_console.Base.Maps.{Entries}
use garage_admin_console.Api.{
  AdminToken, BucketListItem, ClusterHealth, ClusterLayout, ClusterStatus, KeyListItem, ListResult,
  S3Connection, StorageHealth,
}
use garage_admin_console.Locale.{decimal}

-- `AttentionSource`
pub record AttentionSource (T : Type 0) : Type 0 where
  pub data_of : Option T
  pub is_error : Bool

-- `AttentionInputs`. Instants are counted in milliseconds from the earliest one that a date of
-- JavaScript can hold.
pub record AttentionInputs : Type 0 where
  pub now : ℕ
  pub health : AttentionSource ClusterHealth
  pub status : AttentionSource ClusterStatus
  pub storage_health : AttentionSource StorageHealth
  pub corruption_increases : Entries ℕ
  pub layout : AttentionSource ClusterLayout
  pub access_keys : AttentionSource (ListResult KeyListItem)
  pub admin_tokens : AttentionSource (List AdminToken)
  pub buckets : AttentionSource (ListResult BucketListItem)
  pub s3_connection : AttentionSource S3Connection

pub data AttentionSeverity : Type 0 where
  danger warning : AttentionSeverity

-- `BucketTabSearch` of frontend/src/lib/bucket-detail-tabs.ts
pub data BucketTabSearch : Type 0 where
  access settings : BucketTabSearch

-- `AttentionLink`
pub data AttentionLink : Type 0 where
  node_page key_page admin_token_page : (id : Text) → AttentionLink
  bucket_page : (id : Text) (tab : Option BucketTabSearch) → AttentionLink
  blocks layout admin_tokens buckets : AttentionLink

pub record AttentionItem : Type 0 where
  pub id : Text
  pub severity : AttentionSeverity
  pub message : Text
  pub hint : Option Text
  pub link : Option AttentionLink

-- `AttentionResult`, and what each check adds to it.
pub record AttentionResult : Type 0 where
  pub items : List AttentionItem
  pub unknown : List Text
  pub pending : Bool

-- What a check leaves after another one.
unfoldable pub then_check : AttentionResult → AttentionResult → AttentionResult
then_check r s = record {
  items = r.items ++ s.items;
  unknown = r.unknown ++ s.unknown;
  pending = r.pending || s.pending;
}

abbrev pub only_items : List AttentionItem → AttentionResult
only_items items = record { items = items; unknown = []; pending = false }

abbrev pub only_unknown : List Text → AttentionResult
only_unknown labels = record { items = []; unknown = labels; pending = false }

module _ {T : Type 0} where
  -- What `take` notes of a source.
  unfoldable pub note : AttentionSource T → Text → AttentionResult
  note src label = record {
    items = [];
    unknown = if src.is_error then label ∷ [] else [];
    pending = not src.is_error && not (is_some src.data_of);
  }

  -- What `take` returns.
  unfoldable pub taken : AttentionSource T → Option T
  taken src = if src.is_error then none else src.data_of

  -- A check of a source: `take`, and then the body where there is data.
  unfoldable pub check : AttentionSource T → Text → (T → AttentionResult) → AttentionResult
  unfolding note taken
  check src label body =
      then_check (note src label) (elim (taken src) [ none ↦ only_items [] | some d ↦ body d ])

-- `EXPIRY_WARNING_MS`, `MULTIPART_WARNING_COUNT`, `DAY_MS` and `CONSOLE_KEY_HINT_COUNT`
abbrev pub day_ms : ℕ
day_ms = 86400000

abbrev pub expiry_warning_ms : ℕ
expiry_warning_ms = 604800000

abbrev pub multipart_warning_count : ℕ
multipart_warning_count = 10

abbrev pub console_key_hint_count : ℕ
console_key_hint_count = 5

-- The result of `expiryAttention`.
pub record ExpiryAttention : Type 0 where
  pub severity : AttentionSeverity
  pub message : Text

-- `expiryAttention` on a date that was read, or on `NaN`.
expiry_of : Option ℕ → Bool → ℕ → Option ExpiryAttention
expiry_of time true now = some (record { severity = danger; message = text "有効期限が切れています" })
expiry_of none false now = none
expiry_of (some t) false now =
    if leb t now
    then some (record { severity = danger; message = text "有効期限が切れています" })
    else if ltb expiry_warning_ms (t - now)
    then none
    else some (record {
      severity = warning;
      message =
          if ltb (t - now) day_ms
          then text "24 時間以内に有効期限が切れます"
          else text "あと " ++ decimal ((t - now + 86399999) / day_ms) ++ text " 日で有効期限が切れます";
    })

-- `expiryAttention`, with `Date.parse`, which gives no number for a text that is not a time.
unfoldable pub expiry_attention :
    (Text → Option ℕ) → Option Text → Bool → ℕ → Option ExpiryAttention
unfolding expiry_of
expiry_attention parse expiration expired now =
    expiry_of (bind_option expiration (λ s. if is_empty s then none else parse s)) expired now

-- `rank` at the end of `collectAttentionItems`
abbrev pub severity_rank : AttentionSeverity → ℕ
severity_rank danger = 0
severity_rank warning = 1
