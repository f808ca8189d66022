-- ===== src/LayoutDraft/Totals.antt =====
-- frontend/src/lib/layout-draft.ts: the totals of the layout before and after the staged changes.
use garage_admin_console.Base.{
  ℕ, ◌+◌, ◌++◌, List, [], ◌∷◌, map, Text, if◌then◌else◌, or_else, contains, length,
}
use garage_admin_console.Base.Maps.{Entries, put, delete, values, from_entries}
use garage_admin_console.Api.{LayoutNodeRole, NodeRoleChange, assign}
use garage_admin_console.LayoutDraft.{RoleShape, shape_of}

pub record LayoutTotals : Type 0 where
  pub assigned_nodes : ℕ
  pub zones : ℕ
  pub capacity : ℕ

-- The loop of `totalsOf`, with the zones seen so far.
totals_from : ℕ → List Text → ℕ → List RoleShape → LayoutTotals
totals_from n zones sum [] = record { assigned_nodes = n; zones = length zones; capacity = sum }
totals_from n zones sum (r ∷ rs) =
    totals_from (n + 1) (if contains zones r.zone then zones else zones ++ (r.zone ∷ []))
      (sum + or_else r.capacity 0) rs

unfoldable pub totals_of : List RoleShape → LayoutTotals
unfolding totals_from
totals_of roles = totals_from 0 [] 0 roles

-- One staged change on the map of roles by id.
unfoldable pub apply_change : Entries RoleShape → NodeRoleChange → Entries RoleShape
apply_change next (NodeRoleChange.remove id) = delete id next
apply_change next (assign id zone tags capacity) =
    put id (record { zone = zone; tags = tags; capacity = capacity }) next

unfoldable pub apply_changes : Entries RoleShape → List NodeRoleChange → Entries RoleShape
apply_changes next [] = next
apply_changes next (c ∷ cs) = apply_changes (apply_change next c) cs

-- `new Map(roles.map((r) => [r.id, r]))`
abbrev pub roles_by_id : List LayoutNodeRole → Entries RoleShape
roles_by_id roles = from_entries [] (map (λ r. (r.id, shape_of r)) roles)

-- `layoutTotals`: before and after.
unfoldable pub layout_totals :
    List LayoutNodeRole → List NodeRoleChange → LayoutTotals × LayoutTotals
unfolding totals_of apply_changes apply_change
layout_totals roles staged =
    (totals_of (map shape_of roles), totals_of (values (apply_changes (roles_by_id roles) staged)))
