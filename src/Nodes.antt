-- ===== src/Nodes.antt =====
-- frontend/src/lib/nodes.ts, and `shortId` of frontend/src/lib/format.ts: display names and the
-- kinds of nodes.
use garage_admin_console.Base.{
  ◌++◌, Bool, not, Option, none, some, List, [], map, Text, text, ltb, length, take, filter,
  if◌then◌else◌, is_some, is_empty, or_else,
}
use garage_admin_console.Api.{ClusterNode, NodeRole}

-- `o || d` for a text that may be null: the empty string counts as absent.
abbrev pub or_text : Option Text → Text → Text
or_text none d = d
or_text (some s) d = if is_empty s then d else s

-- `nodeDisplayName`
unfoldable pub node_display_name : Text → Option Text → Text
node_display_name id hostname = or_text hostname (take 16 id ++ text "…")

-- `shortId`
unfoldable pub short_id : Text → Text
short_id id = if ltb 16 (length id) then take 16 id ++ text "…" else id

-- `isStorageNode`
unfoldable pub is_storage_node : Option NodeRole → Bool → Bool
is_storage_node none draining = draining
is_storage_node (some role) draining = is_some role.capacity

pub data NodeRoleKind : Type 0 where
  storage gateway draining unassigned : NodeRoleKind

-- `nodeRoleKind`
unfoldable pub node_role_kind : Option NodeRole → Bool → NodeRoleKind
node_role_kind (some role) is_draining = if is_some role.capacity then storage else gateway
node_role_kind none is_draining = if is_draining then draining else unassigned

-- `nonStorageNodeIds`; a `Set` is the list of its members.
unfoldable pub non_storage_node_ids : Option (List ClusterNode) → List Text
unfolding is_storage_node
non_storage_node_ids nodes =
    map (λ n. n.id) (filter (λ n. not (is_storage_node n.role n.draining)) (or_else nodes []))
