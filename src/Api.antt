-- ===== src/Api.antt =====
-- frontend/src/api.ts: the answers of the backend that the console's logic reads. A property that
-- is absent or null is `none`; a plain object with arbitrary keys is a list of its entries.
-- Counts, sizes and capacities are natural numbers.
use garage_admin_console.Base.{ℕ, Bool, Option, List, Text}
use garage_admin_console.Base.Maps.{Entries}

pub record ClusterHealth : Type 0 where
  pub status : Text
  pub known_nodes : ℕ
  pub connected_nodes : ℕ
  pub storage_nodes : ℕ
  pub storage_nodes_up : ℕ
  pub partitions : ℕ
  pub partitions_quorum : ℕ
  pub partitions_all_ok : ℕ

-- The `role` of a `ClusterNode`.
pub record NodeRole : Type 0 where
  pub zone : Text
  pub tags : List Text
  pub capacity : Option ℕ

pub record ClusterNode : Type 0 where
  pub id : Text
  pub garage_version : Option Text
  pub addr : Option Text
  pub hostname : Option Text
  pub is_up : Bool
  pub last_seen_secs_ago : Option ℕ
  pub role : Option NodeRole
  pub draining : Bool

pub record ClusterStatus : Type 0 where
  pub layout_version : ℕ
  pub nodes : List ClusterNode

-- One entry of the answer to a connect request.
pub record ConnectNodeResult : Type 0 where
  pub success : Bool
  pub error : Option Text

pub record LayoutNodeRole : Type 0 where
  pub id : Text
  pub zone : Text
  pub tags : List Text
  pub capacity : Option ℕ
  pub stored_partitions : Option ℕ
  pub usable_capacity : Option ℕ

-- A staged change: a removal, or a new or updated role.
pub data NodeRoleChange : Type 0 where
  remove : (id : Text) → NodeRoleChange
  assign : (id zone : Text) (tags : List Text) (capacity : Option ℕ) → NodeRoleChange

pub data ZoneRedundancy : Type 0 where
  maximum : ZoneRedundancy
  at_least : ℕ → ZoneRedundancy

pub record LayoutParameters : Type 0 where
  pub zone_redundancy : ZoneRedundancy

pub record ClusterLayout : Type 0 where
  pub version : ℕ
  pub roles : List LayoutNodeRole
  pub parameters : LayoutParameters
  pub partition_size : ℕ
  pub staged_role_changes : List NodeRoleChange
  pub staged_parameters : Option LayoutParameters

pub record LocalAlias : Type 0 where
  pub alias : Text
  pub access_key_id : Text

-- One of the `keys` of a `BucketListItem`.
pub record BucketKey : Type 0 where
  pub access_key_id : Text
  pub read : Bool
  pub write : Bool
  pub owner : Bool

pub record BucketQuotas : Type 0 where
  pub max_size : Option ℕ
  pub max_objects : Option ℕ

pub record BucketListItem : Type 0 where
  pub id : Text
  pub global_aliases : List Text
  pub local_aliases : List LocalAlias
  pub created : Option Text
  pub objects : Option ℕ
  pub bytes : Option ℕ
  pub unfinished_multipart_uploads : Option ℕ
  pub key_count : Option ℕ
  pub bucket_keys : Option (List BucketKey)
  pub quotas : Option BucketQuotas

pub record ListResult {ℓ} (T : Type ℓ) : Type ℓ where
  pub items : List T
  pub truncated : Bool

pub record KeyListItem : Type 0 where
  pub id : Text
  pub name : Text
  pub created : Option Text
  pub expiration : Option Text
  pub expired : Bool
  pub bucket_count : Option ℕ

pub record AdminToken : Type 0 where
  pub id : Option Text
  pub created : Option Text
  pub name : Text
  pub expiration : Option Text
  pub expired : Bool
  pub scope : List Text

pub record S3Connection : Type 0 where
  pub region : Text
  pub endpoint : Text
  pub public_endpoint : Bool
  pub access_key_id : Option Text

-- A worker's state: a plain string, or `{ throttled: { durationSecs } }`. The duration, a float, is
-- kept as the text that `toFixed(1)` gives for it; `none` is a duration that is not a number.
pub data WorkerState : Type 0 where
  named : Text → WorkerState
  throttled : Option Text → WorkerState

pub record LastError : Type 0 where
  pub message : Text
  pub secs_ago : ℕ

pub record Worker : Type 0 where
  pub node_id : Text
  pub id : ℕ
  pub name : Text
  pub state : WorkerState
  pub errors : ℕ
  pub consecutive_errors : ℕ
  pub last_error : Option LastError
  pub tranquility : Option ℕ
  pub progress : Option Text
  pub queue_length : Option ℕ
  pub persistent_errors : Option ℕ
  pub freeform : List Text

pub record WorkersResponse : Type 0 where
  pub workers : List Worker
  pub errors : Entries Text

pub record MultiResponse {ℓ} (T : Type ℓ) : Type ℓ where
  pub success : List (Text × T)
  pub error : Entries Text

pub record BlockError : Type 0 where
  pub node_id : Text
  pub block_hash : Text
  pub refcount : ℕ
  pub error_count : ℕ
  pub last_try_secs_ago : ℕ
  pub next_try_in_secs : ℕ

pub record BlockErrorsResponse : Type 0 where
  pub items : List BlockError
  pub checked_nodes : List Text
  pub node_errors : Entries Text

pub data ScrubCommand : Type 0 where
  start pause resume cancel : ScrubCommand

pub data RepairType : Type 0 where
  tables blocks versions multipart_uploads block_refs block_rc rebalance : RepairType
  aliases clear_resync_queue : RepairType
  scrub : ScrubCommand → RepairType

-- Without the live state of the scrub worker, which the modelled code does not read.
pub record NodeStorageHealth : Type 0 where
  pub resync_queue_len : Option ℕ
  pub resync_errors : Option ℕ
  pub scrub_corruptions : Option ℕ
  pub scrub_last_completed : Option Text
  pub error : Option Text
  pub stats_error : Option Text
  pub vars_error : Option Text
  pub workers_error : Option Text

pub record StorageHealth : Type 0 where
  pub nodes : Entries NodeStorageHealth
  pub stats_error : Option Text
  pub vars_error : Option Text
  pub workers_error : Option Text

pub record BucketKeyPermissions : Type 0 where
  pub read : Bool
  pub write : Bool
  pub owner : Bool

-- The flags of an `InspectObjectVersion`.
pub record VersionFlags : Type 0 where
  pub uploading : Bool
  pub aborted : Bool
  pub delete_marker : Bool

pub record InspectObjectBlock : Type 0 where
  pub part_number : ℕ
  pub offset : ℕ
  pub hash : Text
  pub size : ℕ

-- What a block's version belongs to: an object, or an upload that may know its bucket and key.
pub data BlockVersionBacklink : Type 0 where
  object : (bucket_id key : Text) → BlockVersionBacklink
  upload : (bucket_id key : Option Text) → BlockVersionBacklink
