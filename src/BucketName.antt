-- ===== src/BucketName.antt =====
-- frontend/src/lib/bucket-name.ts: the name that a bucket is shown under.
use garage_admin_console.Base.{
  ◌++◌, Option, List, [], ◌∷◌, Text, text, if◌then◌else◌, is_empty, or_else,
}
use garage_admin_console.Nodes.{short_id}

pub data NameSource : Type 0 where
  global local id : NameSource

pub record BucketDisplayName : Type 0 where
  pub name : Text
  pub source : NameSource

-- The first of the names, where there is one that is not empty.
abbrev first_name : List Text → NameSource → BucketDisplayName → BucketDisplayName
first_name [] source d = d
first_name (name ∷ names) source d =
    if is_empty name then d else record { name = name; source = source }

-- `bucketDisplayName`
unfoldable pub bucket_display_name :
    Text → Option (List Text) → Option (List Text) → BucketDisplayName
bucket_display_name bucket_id global_aliases local_aliases =
    first_name (or_else global_aliases []) global (
      first_name (or_else local_aliases []) local
        (record { name = short_id bucket_id; source = id }))

-- `bucketDisplayLabel`
unfoldable pub bucket_display_label : BucketDisplayName → Text
bucket_display_label d = elim d.source [
  | global ↦ d.name
  | local ↦ d.name ++ text "(ローカル)"
  | id ↦ d.name
]
