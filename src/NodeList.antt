-- ===== src/NodeList.antt =====
-- frontend/src/lib/node-list.ts: groups of nodes, their order, and (in the child `Connect`) the
-- input and the answers of the connect dialog.
pub mod Classes
pub mod Grouping
pub mod Connect
use garage_admin_console.Base.{
  ℕ, ◌++◌, Bool, true, false, Option, none, some, List, [], ◌∷◌, map, Text, text, if◌then◌else◌,
  or_then, map_option,
}
use garage_admin_console.Base.Maps.{upsert, values}
use garage_admin_console.Base.Sorting.{Comparator, sort, then_by, on, ascending}
use garage_admin_console.Api.{ClusterNode}
use garage_admin_console.Locale.{Locale}
use garage_admin_console.Nodes.{
  node_display_name, NodeRoleKind, storage, gateway, draining, unassigned, node_role_kind,
}
use garage_admin_console.Workers.{format_secs_ago}

-- `ROLE_LABELS`
unfoldable pub role_label : NodeRoleKind → Text
role_label storage = text "ストレージ"
role_label gateway = text "ゲートウェイ"
role_label draining = text "draining"
role_label unassigned = text "未割り当て"

pub data NodeGroupBy : Type 0 where
  by_zone by_connectivity by_role : NodeGroupBy

abbrev pub no_zone_label : Text
no_zone_label = text "ゾーン未割り当て"

-- `ROLE_ORDER.indexOf(kind)`
abbrev pub role_rank : NodeRoleKind → ℕ
role_rank storage = 0
role_rank gateway = 1
role_rank draining = 2
role_rank unassigned = 3

-- The name of a role as `NodeRoleKind` spells it.
unfoldable pub role_name : NodeRoleKind → Text
role_name storage = text "storage"
role_name gateway = text "gateway"
role_name draining = text "draining"
role_name unassigned = text "unassigned"

pub record NamedNode : Type 0 where
  pub id : Text
  pub hostname : Option Text

-- `compareNodes`
abbrev pub compare_nodes : Locale → Comparator NamedNode
compare_nodes l =
    then_by (on (λ n. node_display_name n.id n.hostname) l.compare_numeric)
      (on (λ n. n.id) l.compare_text)

pub record Bucket : Type 0 where
  pub key : Text
  pub label : Text
  pub rank : ℕ

-- `zoneBucket`
unfoldable pub zone_bucket : Option Text → Bucket
zone_bucket none = record { key = text "zone-none"; label = no_zone_label; rank = 1 }
zone_bucket (some zone) = record { key = text "zone:" ++ zone; label = zone; rank = 0 }

-- `roleBucket`
unfoldable pub role_bucket : NodeRoleKind → Bucket
unfolding role_label role_name
role_bucket kind = record {
  key = text "role:" ++ role_name kind;
  label = role_label kind;
  rank = role_rank kind;
}

-- A bucket with the items that fell into it.
pub record Group {ℓ} (A : Type ℓ) : Type ℓ where
  pub bucket : Bucket
  pub items : List A

module _ {ℓ} {A : Type ℓ} (l : Locale) (named : A → NamedNode) (bucket_of : A → Bucket) where
  -- The body of the loop over the items: the group of the item's key is made at its first item.
  push_item : A → Option (Group A) → Group A
  push_item item none = record { bucket = bucket_of item; items = item ∷ [] }
  push_item item (some g) = record g { items = g.items ++ (item ∷ []) }

  collect : List (Text × Group A) → List A → List (Text × Group A)
  collect m [] = m
  collect m (item ∷ items) = collect (upsert (bucket_of item).key (push_item item) m) items

  abbrev pub compare_groups : Comparator (Group A)
  compare_groups =
      then_by (ascending (λ g. g.bucket.rank)) (on (λ g. g.bucket.label) l.compare_numeric)

  sort_items : Group A → Group A
  sort_items g = record g { items = sort (on named (compare_nodes l)) g.items }

  -- `bucketize`
  unfoldable pub bucketize : List A → List (Group A)
  unfolding collect push_item sort_items
  bucketize items = map sort_items (sort compare_groups (values (collect [] items)))

abbrev pub named_node : ClusterNode → NamedNode
named_node n = record { id = n.id; hostname = n.hostname }

connectivity_bucket : Bool → Bucket
connectivity_bucket true = record { key = text "up"; label = text "接続中"; rank = 0 }
connectivity_bucket false = record { key = text "down"; label = text "切断中"; rank = 1 }

-- The bucket function of `groupNodes`.
unfoldable pub node_bucket : NodeGroupBy → ClusterNode → Bucket
unfolding zone_bucket role_bucket connectivity_bucket
node_bucket by_zone n = zone_bucket (map_option (λ r. r.zone) n.role)
node_bucket by_connectivity n = connectivity_bucket n.is_up
node_bucket by_role n = role_bucket (node_role_kind n.role n.draining)

-- `groupNodes`
unfoldable pub group_nodes : Locale → List ClusterNode → NodeGroupBy → List (Group ClusterNode)
unfolding bucketize node_bucket
group_nodes l nodes by = bucketize l named_node (node_bucket by) nodes

-- `lastSeenLabel`
unfoldable pub last_seen_label : Bool → Option ℕ → Option Text
last_seen_label is_up secs =
    if is_up
    then none
    else some (elim secs [
      | none ↦ text "Garage の再起動後に接続実績なし"
      | some s ↦ text "最終確認 " ++ format_secs_ago s
    ])
