-- ===== src/LayoutDraft/Groups.antt =====
-- frontend/src/lib/layout-draft.ts: how the rows of the layout page are grouped, and the rows of the
-- table of the current roles.
use garage_admin_console.Base.{
  Option, none, some, List, [], ◌∷◌, map, Text, text, if◌then◌else◌, is_some, or_option, map_option,
}
use garage_admin_console.Base.Maps.{Entries, get}
use garage_admin_console.Api.{LayoutNodeRole, NodeRoleChange}
use garage_admin_console.Locale.{Locale}
use garage_admin_console.Nodes.{NodeRoleKind, storage, gateway, unassigned}
use garage_admin_console.NodeList.{Bucket, Group, NamedNode, zone_bucket, role_bucket, bucketize}
use garage_admin_console.LayoutDraft.{
  Effective, null, kept, staged_as, RoleShape, shape_of, effective_shape, effective_of,
}

pub data LayoutGroupBy : Type 0 where
  ungrouped by_zone by_role by_change : LayoutGroupBy

pub data GroupBasis : Type 0 where
  by_effective by_applied : GroupBasis

pub record GroupableRow : Type 0 where
  pub id : Text
  pub hostname : Option Text
  pub applied : Option LayoutNodeRole
  pub effective : Effective

pub data ChangeKind : Type 0 where
  changed removed unchanged : ChangeKind

-- `CHANGE_BUCKETS`
unfoldable pub change_bucket : ChangeKind → Bucket
change_bucket changed = record { key = text "change:changed"; label = text "変更あり"; rank = 0 }
change_bucket removed = record { key = text "change:removed"; label = text "削除"; rank = 1 }
change_bucket unchanged = record { key = text "change:unchanged"; label = text "変更なし"; rank = 2 }

-- `groupRole`
abbrev pub group_role : GroupableRow → GroupBasis → Option RoleShape
group_role r by_applied = map_option shape_of r.applied
group_role r by_effective = or_option (effective_shape r.effective) (map_option shape_of r.applied)

-- `roleKindOf`
abbrev pub role_kind_of : Option RoleShape → NodeRoleKind
role_kind_of none = unassigned
role_kind_of (some role) = if is_some role.capacity then storage else gateway

-- `changeKind`, with the comparison of the two objects by identity.
unfoldable pub change_kind : Option LayoutNodeRole → Effective → ChangeKind
change_kind (some r) null = removed
change_kind none null = unchanged
change_kind applied (kept r) = unchanged
change_kind applied (staged_as zone tags capacity) = changed

-- The bucket of a row in `groupDrafts`.
unfoldable pub row_bucket : LayoutGroupBy → GroupBasis → GroupableRow → Bucket
unfolding change_bucket change_kind
row_bucket by_zone basis r = zone_bucket (map_option (λ s. s.zone) (group_role r basis))
row_bucket by_role basis r = role_bucket (role_kind_of (group_role r basis))
row_bucket by_change basis r = change_bucket (change_kind r.applied r.effective)
row_bucket ungrouped basis r = record { key = text "all"; label = []; rank = 0 }

abbrev pub named_row : GroupableRow → NamedNode
named_row r = record { id = r.id; hostname = r.hostname }

-- `groupDrafts`
unfoldable pub group_drafts :
    Locale → List GroupableRow → LayoutGroupBy → GroupBasis → List (Group GroupableRow)
unfolding bucketize row_bucket
group_drafts l rows ungrouped basis =
    record { bucket = record { key = text "all"; label = []; rank = 0 }; items = rows } ∷ []
group_drafts l rows by_zone basis = bucketize l named_row (row_bucket by_zone basis) rows
group_drafts l rows by_role basis = bucketize l named_row (row_bucket by_role basis) rows
group_drafts l rows by_change basis = bucketize l named_row (row_bucket by_change basis) rows

pub record LayoutRoleRow : Type 0 where
  pub row : GroupableRow
  pub staged : Option NodeRoleChange

-- `layoutRoleRows`
unfoldable pub layout_role_rows :
    List LayoutNodeRole → Entries NodeRoleChange → (Text → Option Text) → List LayoutRoleRow
layout_role_rows roles staged_by_id hostname_of =
    map
      (λ r. record {
        row = record {
          id = r.id;
          hostname = hostname_of r.id;
          applied = some r;
          effective = effective_of (some r) (get r.id staged_by_id);
        };
        staged = get r.id staged_by_id;
      })
      roles
