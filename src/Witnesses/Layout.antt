-- ===== src/Witnesses/Layout.antt =====
-- The theorems on the layout form, at concrete inputs.
use garage_admin_console.Base.{
  ◌≡◌, refl, true, false, not, none, some, List, [], ◌∷◌, Text, text, ◌==◌, trim, is_space, join,
  All, is_empty, bind_option,
}
use garage_admin_console.Base.Maps.{Entries, get}
use garage_admin_console.Api.{LayoutNodeRole, NodeRoleChange, assign}
use garage_admin_console.Locale.{decimal}
use garage_admin_console.Witnesses.{sample_floats}
use garage_admin_console.LayoutDraft.{
  NodeRef, RoleDraft, RoleShape, shape_of, draft_from_node, draft_to_change, draft_capacity,
  staged_change, parse_tags, nothing,
}
use garage_admin_console.LayoutDraft.Totals.{apply_changes}
use garage_admin_console.LayoutDraft.Staging.{
  source_role, edit_zone_tags, draft_to_change-draft_from_node, draft_to_change-capacity,
  draft_to_change-assign,
}
use garage_admin_console.LayoutDraft.Changes.{get-apply_changes, last_change, role_after}
use garage_admin_console.LayoutDraft.Tags.{parse_tags-join}

abbrev node : NodeRef
node = record { id = text "a1"; hostname = some (text "tokyo"); is_up = true }

abbrev role : LayoutNodeRole
role = record {
  id = text "a1";
  zone = text "east";
  tags = text "ssd" ∷ [];
  capacity = some 1500000000;
  stored_partitions = none;
  usable_capacity = none;
}

abbrev tags : List Text
tags = text "hdd" ∷ text "new" ∷ []

draft_to_change-draft_from_node_example :
    draft_to_change sample_floats (draft_from_node sample_floats node (some role) none) ≡ nothing
draft_to_change-draft_from_node_example =
    draft_to_change-draft_from_node sample_floats node (some role) none

-- The draft in which the operator moved the node to another zone.
abbrev moved : RoleDraft
moved =
    edit_zone_tags (draft_from_node sample_floats node (some role) none) (text "west")
      (text "hdd, new")

draft_to_change-capacity_example :
    some 1500000000 ≡ bind_option (source_role (some role) none) (λ r. r.capacity)
unfolding draft_to_change draft_from_node draft_capacity staged_change parse_tags text trim is_space
    ◌==◌ decimal
draft_to_change-capacity_example =
    draft_to_change-capacity sample_floats node (some role) none (text "west") (text "hdd, new")
      {id = text "a1"} {zone' = text "west"} {tags' = tags} {capacity = some 1500000000} refl

draft_to_change-assign_example :
    (text "a1" ≡ moved.id)
    × (text "west" ≡ trim moved.fields.zone)
    × (is_empty (text "west") ≡ false)
    × (tags ≡ parse_tags moved.fields.tags)
    × All (λ t. not (is_empty t) ≡ true) tags
unfolding draft_to_change draft_from_node draft_capacity staged_change parse_tags text trim is_space
    ◌==◌ decimal
draft_to_change-assign_example =
    draft_to_change-assign sample_floats moved {id = text "a1"} {zone = text "west"} {tags = tags}
      {capacity = some 1500000000} refl

abbrev roles : Entries RoleShape
roles = (text "a1", shape_of role) ∷ []

abbrev staged_changes : List NodeRoleChange
staged_changes = NodeRoleChange.remove (text "a1") ∷ assign (text "a1") (text "west") [] none ∷ []

get-apply_changes_example :
    get (text "a1") (apply_changes roles staged_changes)
    ≡ role_after (get (text "a1") roles) (last_change (text "a1") staged_changes)
get-apply_changes_example = get-apply_changes (text "a1") roles staged_changes

parse_tags-join_example : parse_tags (join (text ", ") tags) ≡ tags
unfolding text trim is_space
parse_tags-join_example =
    parse_tags-join tags
      ((refl, (refl, (refl, (refl, tt))), refl), ((refl, (refl, (refl, (refl, tt))), refl), tt))
