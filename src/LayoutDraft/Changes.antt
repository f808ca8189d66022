-- ===== src/LayoutDraft/Changes.antt =====
-- What a list of staged changes makes of the roles: the loop of `layoutTotals` in
-- frontend/src/lib/layout-draft.ts.
use garage_admin_console.Base.{
  ◌≡◌, refl, Option, none, some, List, [], ◌∷◌, Text, ◌==◌, if◌then◌else◌, or_option, arith,
}
use garage_admin_console.Base.Maps.{Entries, get, get-put, get-delete}
use garage_admin_console.Api.{NodeRoleChange, assign}
use garage_admin_console.LayoutDraft.{RoleShape}
use garage_admin_console.LayoutDraft.Totals.{apply_change, apply_changes}

abbrev change_id : NodeRoleChange → Text
change_id (NodeRoleChange.remove id) = id
change_id (assign id zone tags capacity) = id

-- The last change of a node.
abbrev pub last_change : Text → List NodeRoleChange → Option NodeRoleChange
last_change id [] = none
last_change id (c ∷ cs) = or_option (last_change id cs) (if change_id c == id then some c else none)

-- The role that a change leaves in place of `before`.
abbrev pub role_after : Option RoleShape → Option NodeRoleChange → Option RoleShape
role_after before none = before
role_after before (some (NodeRoleChange.remove id)) = none
role_after before (some (assign id zone tags capacity)) =
    some (record { zone = zone; tags = tags; capacity = capacity })

-- After the staged changes a node has the role that the last of its changes gives it: none after a
-- removal, the new one after an assignment, and the old one where nothing is staged for it.
pub get-apply_changes :
    (id : Text) (roles : Entries RoleShape) (staged : List NodeRoleChange)
    → get id (apply_changes roles staged) ≡ role_after (get id roles) (last_change id staged)
unfolding apply_changes apply_change
get-apply_changes id roles [] = refl
get-apply_changes id roles (NodeRoleChange.remove j ∷ cs) = grind (
  arith,
  get-apply_changes id (apply_change roles (NodeRoleChange.remove j)) cs,
  get-delete j id roles,
)
get-apply_changes id roles (assign j z t c ∷ cs) = grind (
  arith,
  get-apply_changes id (apply_change roles (assign j z t c)) cs,
  get-put j id (record { zone = z; tags = t; capacity = c }) roles,
)
