-- ===== src/NodeList/Classes.antt =====
-- Which nodes share a group: the keys that `groupNodes` of frontend/src/lib/node-list.ts gives.
use garage_admin_console.Base.{
  ℕ, ◌≡◌, refl, Bool, Option, Text, arith, text, map_option, none, some, ◌↔◌, ap, get_or, drop,
  true, false,
}
use garage_admin_console.Api.{ClusterNode}
use garage_admin_console.Nodes.{
  NodeRoleKind, storage, gateway, draining, unassigned, node_role_kind,
}
use garage_admin_console.NodeList.{
  NodeGroupBy, by_zone, by_connectivity, by_role, node_bucket, zone_bucket, role_bucket,
  connectivity_bucket,
}

-- What makes two nodes belong together.
abbrev pub SameClass : NodeGroupBy → ClusterNode → ClusterNode → Type 0
SameClass by_zone a b = map_option (λ r. r.zone) a.role ≡ map_option (λ r. r.zone) b.role
SameClass by_connectivity a b = a.is_up ≡ b.is_up
SameClass by_role a b = node_role_kind a.role a.draining ≡ node_role_kind b.role b.draining

-- A unit at which two keys of zones differ, or all that follows it.
zone_bucket-injective : (z w : Option Text) → (zone_bucket z).key ≡ (zone_bucket w).key → z ≡ w
unfolding zone_bucket text
zone_bucket-injective none none e = refl
zone_bucket-injective none (some w) e = absurd (omega (arith, ap (λ s. get_or s 4 0) e))
zone_bucket-injective (some z) none e = absurd (omega (arith, ap (λ s. get_or s 4 0) e))
zone_bucket-injective (some z) (some w) e = ap some (ap (λ s. drop 5 s) e)

-- The first letter of a role's name.
abbrev letter : NodeRoleKind → ℕ
letter storage = b's'
letter gateway = b'g'
letter draining = b'd'
letter unassigned = b'u'

letter-role_bucket : (k : NodeRoleKind) → get_or (role_bucket k).key 5 0 ≡ letter k
unfolding role_bucket text
letter-role_bucket storage = refl
letter-role_bucket gateway = refl
letter-role_bucket draining = refl
letter-role_bucket unassigned = refl

role_bucket-injective : (k j : NodeRoleKind) → (role_bucket k).key ≡ (role_bucket j).key → k ≡ j
role_bucket-injective k j e =
    letter-injective k j
      (omega (arith, letter-role_bucket k, letter-role_bucket j, ap (λ s. get_or s 5 0) e))
  where
    letter-injective : (k j : NodeRoleKind) → letter k ≡ letter j → k ≡ j
    letter-injective k j h = ground arith

connectivity_bucket-injective :
    (u v : Bool) → (connectivity_bucket u).key ≡ (connectivity_bucket v).key → u ≡ v
unfolding connectivity_bucket text
connectivity_bucket-injective true true e = refl
connectivity_bucket-injective true false e = absurd (omega (arith, ap (λ s. get_or s 0 0) e))
connectivity_bucket-injective false true e = absurd (omega (arith, ap (λ s. get_or s 0 0) e))
connectivity_bucket-injective false false e = refl

-- Two nodes have one key exactly when they agree in what is grouped by: the zone, the
-- connection, or the kind of role.
pub node_bucket-key_iff :
    (by : NodeGroupBy) (a b : ClusterNode)
    → ((node_bucket by a).key ≡ (node_bucket by b).key) ↔ SameClass by a b
unfolding node_bucket
node_bucket-key_iff by_zone a b =
    (zone_bucket-injective _ _, (λ e. ap (λ z. (zone_bucket z).key) e))
node_bucket-key_iff by_connectivity a b =
    (connectivity_bucket-injective _ _, (λ e. ap (λ u. (connectivity_bucket u).key) e))
node_bucket-key_iff by_role a b =
    (role_bucket-injective _ _, (λ e. ap (λ k. (role_bucket k).key) e))
