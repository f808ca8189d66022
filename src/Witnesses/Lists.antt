-- ===== src/Witnesses/Lists.antt =====
-- The theorems on the lists of nodes and workers and on table sorting, at concrete inputs.
use garage_admin_console.Base.{
  ℕ, compare, ◌≤◌, ◌≡◌, refl, ◌↔◌, true, Option, none, some, List, [], ◌∷◌, ◌++◌, Text, text, ◌==◌,
  trim, is_space, All, IsDistinct, length,
}
use garage_admin_console.Locale.{decimal}
use garage_admin_console.Api.{ClusterNode, Worker}
use garage_admin_console.Witnesses.{sample_locale, storage_node, gateway_node, sync_worker}
use garage_admin_console.NodeList.{by_zone, named_node, node_bucket, bucketize}
use garage_admin_console.NodeList.Classes.{SameClass, node_bucket-key_iff}
use garage_admin_console.NodeList.Grouping.{IsGrouping, bucketize-IsGrouping}
use garage_admin_console.NodeList.Connect.{
  is_peer, after_id, max_connect_nodes, parse_connect_input, split_lines,
}
use garage_admin_console.NodeList.Connect.Lines.{filled_lines}
use garage_admin_console.NodeList.Connect.Accepted.{
  parse_connect_input-errors_iff, parse_connect_input-peers,
}
use garage_admin_console.Workers.{WorkerFilter, filter_and_sort_workers}
use garage_admin_console.Workers.Wanted.{IsWanted}
use garage_admin_console.Workers.Listing.{IsInOrder, filter_and_sort_workers-parts}
use garage_admin_console.SortRows.{
  SortNumbers, SortState, SortValue, desc, missing, number, sort_rows,
}
use garage_admin_console.SortRows.Missing.{sort_rows-missing_last}
use mathlib.Core.List.{Perm}

abbrev both : List ClusterNode
both = storage_node ∷ gateway_node ∷ []

bucketize-IsGrouping_example :
    IsGrouping sample_locale named_node
      (node_bucket by_zone)
      both
      (bucketize sample_locale named_node (node_bucket by_zone) both)
bucketize-IsGrouping_example =
    bucketize-IsGrouping sample_locale named_node (node_bucket by_zone) both

node_bucket-key_iff_example :
    ((node_bucket by_zone storage_node).key ≡ (node_bucket by_zone gateway_node).key)
    ↔ SameClass by_zone storage_node gateway_node
node_bucket-key_iff_example = node_bucket-key_iff by_zone storage_node gateway_node

abbrev peer_line : Text
peer_line = text "00112233445566778899aabbccddeeff00112233445566778899aabbccddeeff@host:3901"

parse_connect_input-errors_iff_example : ((parse_connect_input peer_line).errors ≡ []) ↔ (
    All (λ v. is_peer v ≡ true) (filled_lines (split_lines peer_line))
    × IsDistinct (filled_lines (split_lines peer_line))
    × (length (filled_lines (split_lines peer_line)) ≤ max_connect_nodes))
parse_connect_input-errors_iff_example = parse_connect_input-errors_iff peer_line

parse_connect_input-peers_example :
    (parse_connect_input peer_line).peers ≡ filled_lines (split_lines peer_line)
unfolding parse_connect_input split_lines is_peer after_id ◌==◌ text trim is_space
parse_connect_input-peers_example = parse_connect_input-peers peer_line refl

abbrev noteworthy_workers : WorkerFilter
noteworthy_workers = record {
  search = [];
  only_noteworthy = true;
  hide_disabled = true;
  node_id = none;
}

abbrev workers : List Worker
workers = sync_worker ∷ record sync_worker { id = 8; errors = 2 } ∷ []

filter_and_sort_workers-parts_example :
    let shown = filter_and_sort_workers sample_locale (λ id. none) workers noteworthy_workers in
    IsInOrder sample_locale shown
    × All (IsWanted sample_locale (λ id. none) noteworthy_workers) shown
    × ((hidden : List Worker) × Perm workers (shown ++ hidden)
        × All (λ w. ¬ IsWanted sample_locale (λ id. none) noteworthy_workers w) hidden)
filter_and_sort_workers-parts_example =
    filter_and_sort_workers-parts sample_locale (λ id. none) workers noteworthy_workers

abbrev sizes : List (Option ℕ)
sizes = none ∷ some 3 ∷ some 5 ∷ []

abbrev counts : SortNumbers
counts = record { Number = ℕ; difference = compare; text_of = decimal }

abbrev size_value : Option ℕ → Text → SortValue ℕ
size_value none key = missing
size_value (some n) key = number n

abbrev by_size : SortState
by_size = record { key = text "size"; direction = desc }

sort_rows-missing_last_example :
    sort_rows sample_locale counts sizes by_size size_value
    ≡ sort_rows sample_locale counts (some 3 ∷ some 5 ∷ []) by_size size_value ++ (none ∷ [])
sort_rows-missing_last_example =
    sort_rows-missing_last sample_locale counts by_size size_value sizes
