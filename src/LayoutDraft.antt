-- ===== src/LayoutDraft.antt =====
-- frontend/src/lib/layout-draft.ts: the edit form of the layout page, and the change that a draft of
-- it stages. The groups of rows and the totals are in the children `Groups` and `Totals`.
pub mod Groups
pub mod Totals
pub mod Staging
pub mod Tags
pub mod Changes
use garage_admin_console.Base.{
  ℕ, ◌+◌, ◌++◌, Bool, true, false, not, ◌&&◌, ◌||◌, Option, none, some, List, [], ◌∷◌, map, Text,
  text, ◌==◌, trim, split, join, if◌then◌else◌, is_empty, is_some, or_else, or_option, map_option,
  bind_option, filter, contains, length,
}
use garage_admin_console.Base.Maps.{Entries, get, put, delete, values, from_entries}
use garage_admin_console.Api.{LayoutNodeRole, NodeRoleChange, remove, assign}
use garage_admin_console.Locale.{Locale}
use garage_admin_console.Nodes.{node_display_name, NodeRoleKind, storage, gateway, unassigned}
use garage_admin_console.NodeList.{Bucket, Group, NamedNode, zone_bucket, role_bucket, bucketize}

-- What the form takes from JavaScript's floating-point numbers.
pub record Floats : Type 1 where
  pub Number : Type 0
  -- `Number(s)`
  pub of_text : Text → Number
  -- `Number.isFinite(n)`
  pub is_finite : Number → Bool
  -- `n <= 0`
  pub is_le_zero : Number → Bool
  -- `Math.round(n * GIB)`, for a finite positive `n`
  pub round_gib : Number → ℕ
  -- `String(Math.round((capacity / GIB) * 100) / 100)`
  pub gib_text : ℕ → Text

pub record RoleFields : Type 0 where
  pub zone : Text
  pub capacity_gib : Text
  pub tags : Text

-- The role after the staged change: null, the very object of the applied role, or the object of
-- the staged change.
pub data Effective : Type 0 where
  null : Effective
  kept : LayoutNodeRole → Effective
  staged_as : (zone : Text) (tags : List Text) (capacity : Option ℕ) → Effective

pub record RoleDraft : Type 0 where
  pub id : Text
  pub hostname : Option Text
  pub is_up : Bool
  pub fields : RoleFields
  pub applied : Option LayoutNodeRole
  pub effective : Effective
  pub original : RoleFields
  pub original_capacity : Option ℕ
  pub remove : Bool

-- The fields that a role object shows, wherever it comes from.
pub record RoleShape : Type 0 where
  pub zone : Text
  pub tags : List Text
  pub capacity : Option ℕ

abbrev pub shape_of : LayoutNodeRole → RoleShape
shape_of r = record { zone = r.zone; tags = r.tags; capacity = r.capacity }

abbrev pub effective_shape : Effective → Option RoleShape
effective_shape null = none
effective_shape (kept r) = some (shape_of r)
effective_shape (staged_as zone tags capacity) =
    some (record { zone = zone; tags = tags; capacity = capacity })

-- `stagedRemove ? null : (staged ?? applied ?? null)`
abbrev pub effective_of : Option LayoutNodeRole → Option NodeRoleChange → Effective
effective_of applied (some (NodeRoleChange.remove id)) = null
effective_of applied (some (assign id zone tags capacity)) = staged_as zone tags capacity
effective_of (some r) none = kept r
effective_of none none = null

-- `staged != null && 'remove' in staged`
abbrev pub is_removal : Option NodeRoleChange → Bool
is_removal (some (NodeRoleChange.remove id)) = true
is_removal _ = false

-- `Pick<ClusterNode, 'id' | 'hostname' | 'isUp'>`
pub record NodeRef : Type 0 where
  pub id : Text
  pub hostname : Option Text
  pub is_up : Bool

module _ (floats : Floats) where
  -- `capacityToGiB`
  abbrev pub capacity_to_gib : Option ℕ → Text
  capacity_to_gib none = []
  capacity_to_gib (some capacity) = floats.gib_text capacity

  abbrev pub fields_of : Option RoleShape → RoleFields
  fields_of none = record { zone = []; capacity_gib = []; tags = [] }
  fields_of (some source) = record {
    zone = source.zone;
    capacity_gib = capacity_to_gib source.capacity;
    tags = join (text ", ") source.tags;
  }

  -- `draftFromNode`
  unfoldable pub draft_from_node :
      NodeRef → Option LayoutNodeRole → Option NodeRoleChange → RoleDraft
  draft_from_node node applied staged =
      let effective = effective_of applied staged in
      let source = or_option (effective_shape effective) (map_option shape_of applied) in
      record {
        id = node.id;
        hostname = node.hostname;
        is_up = node.is_up;
        fields = fields_of source;
        applied = applied;
        effective = effective;
        original = fields_of source;
        original_capacity = bind_option source (λ r. r.capacity);
        remove = is_removal staged;
      }

-- `parseTags`
unfoldable pub parse_tags : Text → List Text
parse_tags s = filter (λ t. not (is_empty t)) (map trim (split b',' s))

-- `NodeRoleChange | null | Error`
pub data DraftResult : Type 0 where
  nothing : DraftResult
  change : NodeRoleChange → DraftResult
  invalid : (message : Text) → DraftResult

abbrev pub is_null : Effective → Bool
is_null null = true
is_null _ = false

-- `d.effective == null && d.applied != null`
abbrev pub was_removed : RoleDraft → Bool
was_removed d = is_null d.effective && is_some d.applied

abbrev pub is_untouched : RoleDraft → Bool
is_untouched d =
    d.fields.zone == d.original.zone
    && (d.fields.capacity_gib == d.original.capacity_gib && d.fields.tags == d.original.tags)

-- A capacity, or an error.
pub data CapacityResult : Type 0 where
  bytes : Option ℕ → CapacityResult
  not_positive : CapacityResult

module _ (floats : Floats) where
  -- The capacity of a touched draft.
  unfoldable pub draft_capacity : RoleDraft → CapacityResult
  draft_capacity d =
      let n = floats.of_text d.fields.capacity_gib in
      let typed =
        if is_empty (trim d.fields.capacity_gib)
        then bytes none
        else if not (floats.is_finite n) || floats.is_le_zero n
        then not_positive
        else bytes (some (floats.round_gib n)) in
      if d.fields.capacity_gib == d.original.capacity_gib && is_some d.original_capacity
      then bytes d.original_capacity
      else typed

  -- The end of `draftToChange`, by the capacity.
  unfoldable pub staged_change : RoleDraft → CapacityResult → DraftResult
  staged_change d not_positive =
      invalid (node_display_name d.id d.hostname ++ text ": 容量は正の数 (GiB) で入力してください")
  staged_change d (bytes capacity) =
      let zone = trim d.fields.zone in
      if is_empty zone
      then if is_null d.effective && not (is_some d.applied)
        then nothing
        else invalid (node_display_name d.id d.hostname ++ text ": ゾーンは必須です")
      else change (assign d.id zone (parse_tags d.fields.tags) capacity)

  -- `draftToChange`
  unfoldable pub draft_to_change : RoleDraft → DraftResult
  draft_to_change d =
      if d.remove
      then if was_removed d
        then nothing
        else if is_some d.applied
        then change (NodeRoleChange.remove d.id)
        else nothing
      else if is_untouched d && not (was_removed d)
      then nothing
      else if is_untouched d && (was_removed d && is_empty (trim d.fields.zone))
      then nothing
      else staged_change d (draft_capacity d)

-- `revertChangeFor`
unfoldable pub revert_change_for :
    Text → Option LayoutNodeRole → Option NodeRoleChange → Option NodeRoleChange
revert_change_for id applied none = none
revert_change_for id none (some staged) = some (NodeRoleChange.remove id)
revert_change_for id (some r) (some staged) = some (assign id r.zone r.tags r.capacity)
