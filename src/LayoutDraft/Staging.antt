-- ===== src/LayoutDraft/Staging.antt =====
-- What a draft of the layout form stages: `draftFromNode`, `draftToChange` and `revertChangeFor` of
-- frontend/src/lib/layout-draft.ts together.
use garage_admin_console.Base.{
  ℕ, ◌≡◌, refl, inl, inr, ◌↔◌, true, false, not, Option, none, some, List, [], map, Text, ==_refl,
  split, trim, arith, is_empty, is_some, or_option, map_option, bind_option, All, All-filter,
  Option-cases, ap, sym, ◌∙◌,
}
use garage_admin_console.Api.{LayoutNodeRole, NodeRoleChange, assign}
use garage_admin_console.LayoutDraft.{
  Floats, RoleDraft, RoleShape, shape_of, effective_shape, effective_of, is_removal, NodeRef,
  draft_from_node, parse_tags, nothing, change, bytes, not_positive, CapacityResult, fields_of,
  capacity_to_gib, draft_capacity, staged_change, draft_to_change, revert_change_for,
}
use garage_admin_console.LayoutDraft.Groups.{changed, removed, change_kind}

-- The role that the form of a node is filled from.
abbrev pub source_role : Option LayoutNodeRole → Option NodeRoleChange → Option RoleShape
source_role applied staged =
    or_option (effective_shape (effective_of applied staged)) (map_option shape_of applied)

-- A row that the operator did not touch stages nothing, whatever is applied and staged.
pub draft_to_change-draft_from_node :
    (floats : Floats) (node : NodeRef) (applied : Option LayoutNodeRole)
    (staged : Option NodeRoleChange)
    → draft_to_change floats (draft_from_node floats node applied staged) ≡ nothing
unfolding draft_from_node draft_to_change
draft_to_change-draft_from_node floats node none none = simp ==_refl
draft_to_change-draft_from_node floats node none (some (NodeRoleChange.remove id)) = refl
draft_to_change-draft_from_node floats node none (some (assign id z t c)) = simp ==_refl
draft_to_change-draft_from_node floats node (some r) none = simp ==_refl
draft_to_change-draft_from_node floats node (some r) (some (NodeRoleChange.remove id)) = refl
draft_to_change-draft_from_node floats node (some r) (some (assign id z t c)) = simp ==_refl

module _ (floats : Floats) (d : RoleDraft) where
  staged_change-eq-assign :
      (r : CapacityResult) {id zone : Text} {tags : List Text} {capacity : Option ℕ}
      → staged_change floats d r ≡ change (assign id zone tags capacity)
      → (r ≡ bytes capacity)
        × (id ≡ d.id)
        × (zone ≡ trim d.fields.zone)
        × (is_empty zone ≡ false)
        × (tags ≡ parse_tags d.fields.tags)
  unfolding staged_change
  staged_change-eq-assign not_positive e = cc
  staged_change-eq-assign (bytes c) e = ground arith

  draft_to_change-eq-assign :
      {id zone : Text} {tags : List Text} {capacity : Option ℕ}
      → draft_to_change floats d ≡ change (assign id zone tags capacity)
      → staged_change floats d (draft_capacity floats d) ≡ change (assign id zone tags capacity)
  unfolding draft_to_change
  draft_to_change-eq-assign e = ground arith

  -- An untouched capacity field that shows the original capacity keeps it.
  draft_capacity_kept :
      d.fields.capacity_gib ≡ d.original.capacity_gib
      → d.original.capacity_gib ≡ capacity_to_gib floats d.original_capacity
      → draft_capacity floats d ≡ bytes d.original_capacity
  unfolding draft_capacity trim
  draft_capacity_kept e f = elim (Option-cases d.original_capacity) [
    | inl none_there ↦
        let blank : d.fields.capacity_gib ≡ [] = e ∙ f ∙ ap (capacity_to_gib floats) none_there in
        let none_shown : d.original.capacity_gib ≡ [] =
          f ∙ ap (capacity_to_gib floats) none_there in
        rw (none_there, blank, none_shown) (simp ==_refl)
    | inr (c, there) ↦ rw (there, e, ==_refl) refl
  ]

fields_of-capacity :
    (floats : Floats) (o : Option RoleShape)
    → (fields_of floats o).capacity_gib ≡ capacity_to_gib floats (bind_option o (λ r. r.capacity))
fields_of-capacity floats none = refl
fields_of-capacity floats (some s) = refl

-- A draft in which only the zone and the tags were edited.
abbrev pub edit_zone_tags : RoleDraft → Text → Text → RoleDraft
edit_zone_tags d zone tags = record d {
  fields = record { zone = zone; capacity_gib = d.fields.capacity_gib; tags = tags };
}

-- Editing the zone and the tags of a node alone keeps the capacity of its role to the byte.
pub draft_to_change-capacity :
    (floats : Floats) (node : NodeRef) (applied : Option LayoutNodeRole)
    (staged : Option NodeRoleChange) (zone tags : Text) {id zone' : Text} {tags' : List Text}
    {capacity : Option ℕ}
    → draft_to_change floats (edit_zone_tags (draft_from_node floats node applied staged) zone tags)
      ≡ change (assign id zone' tags' capacity)
    → capacity ≡ bind_option (source_role applied staged) (λ r. r.capacity)
unfolding draft_from_node
draft_to_change-capacity floats node applied staged zone tags {capacity} e =
    let d = edit_zone_tags (draft_from_node floats node applied staged) zone tags in
    let (computed, _, _, _, _) =
      staged_change-eq-assign floats d _ (draft_to_change-eq-assign floats d e) in
    let kept_capacity =
      draft_capacity_kept floats d refl (fields_of-capacity floats (source_role applied staged)) in
    let same : bytes capacity ≡ bytes d.original_capacity = sym computed ∙ kept_capacity in cc

-- A staged role has the draft's id, its zone trimmed and not empty, and the tags of the tags
-- field, none of them empty.
pub draft_to_change-assign :
    (floats : Floats) (d : RoleDraft) {id zone : Text} {tags : List Text} {capacity : Option ℕ}
    → draft_to_change floats d ≡ change (assign id zone tags capacity)
    → (id ≡ d.id)
      × (zone ≡ trim d.fields.zone)
      × (is_empty zone ≡ false)
      × (tags ≡ parse_tags d.fields.tags)
      × All (λ t. not (is_empty t) ≡ true) tags
unfolding parse_tags
draft_to_change-assign floats d e =
    let (_, same_id, same_zone, filled, same_tags) =
      staged_change-eq-assign floats d _ (draft_to_change-eq-assign floats d e) in
    (
      same_id,
      same_zone,
      filled,
      same_tags,
      rw same_tags (All-filter (λ t. not (is_empty t)) (map trim (split 0x2C d.fields.tags))),
    )

-- Staging the change that `revertChangeFor` gives makes the node's next role the applied one, or
-- none where there is no applied role; it is given exactly when something is staged.
pub revert_change_for_restores :
    (id : Text) (applied : Option LayoutNodeRole) (staged : Option NodeRoleChange)
    → let revert = revert_change_for id applied staged in
      (is_some revert ≡ is_some staged)
      × (effective_shape (effective_of applied revert) ≡ map_option shape_of applied)
unfolding revert_change_for
revert_change_for_restores id none none = (refl, refl)
revert_change_for_restores id (some r) none = (refl, refl)
revert_change_for_restores id none (some s) = (refl, refl)
revert_change_for_restores id (some r) (some s) = (refl, refl)

-- How a draft is grouped: as removed exactly if its applied role is staged for removal, and as
-- changed exactly if a role is staged.
pub change_kind_iff :
    (applied : Option LayoutNodeRole) (staged : Option NodeRoleChange)
    → let kind = change_kind applied (effective_of applied staged) in
      ((kind ≡ removed) ↔ ((is_some applied ≡ true) × (is_removal staged ≡ true)))
      × ((kind ≡ changed) ↔ ((is_some staged ≡ true) × (is_removal staged ≡ false)))
unfolding change_kind
change_kind_iff none none = ground arith
change_kind_iff none (some (NodeRoleChange.remove id)) = ground arith
change_kind_iff none (some (assign id z t c)) = ground arith
change_kind_iff (some r) none = ground arith
change_kind_iff (some r) (some (NodeRoleChange.remove id)) = ground arith
change_kind_iff (some r) (some (assign id z t c)) = ground arith
