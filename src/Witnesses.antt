-- ===== src/Witnesses.antt =====
-- Concrete instances on which the theorems are applied, and the sample data that they share: a
-- locale that orders texts by their code units, numbers that are natural, and a small cluster.
pub mod Guards
pub mod Panel
pub mod Lists
pub mod Layout
pub mod Access
pub mod Uploading
pub mod Requests
pub mod Settings
use garage_admin_console.Base.{
  ℕ, zero, suc, ◌+◌, ◌*◌, ◌-◌, ◌/◌, Bool, true, false, Option, none, some, List, [], ◌∷◌, Text,
  text, eqb,
}
use garage_admin_console.Api.{
  ClusterNode, NodeRole, ClusterStatus, ClusterHealth, NodeStorageHealth, StorageHealth, Worker,
  WorkersResponse, named,
}
use garage_admin_console.Locale.{Locale, compare_units, compare_units-IsConsistent, decimal}
use garage_admin_console.LayoutDraft.{Floats}

abbrev pub sample_locale : Locale
sample_locale = record {
  compare_text = compare_units;
  compare_text-IsConsistent = compare_units-IsConsistent;
  compare_numeric = compare_units;
  compare_numeric-IsConsistent = compare_units-IsConsistent;
  compare_base = compare_units;
  compare_base-IsConsistent = compare_units-IsConsistent;
  to_lower = λ s. s;
  format_number = decimal;
}

abbrev value_from : ℕ → Text → ℕ
value_from acc [] = acc
value_from acc (c ∷ s) = value_from (acc * 10 + (c - b'0')) s

abbrev pub sample_floats : Floats
sample_floats = record {
  Number = ℕ;
  of_text = value_from 0;
  is_finite = λ n. true;
  is_le_zero = λ n. eqb n 0;
  round_gib = λ n. n * 1073741824;
  gib_text = λ n. decimal (n / 1073741824);
}

abbrev pub storage_node : ClusterNode
storage_node = record {
  id = text "a1";
  garage_version = none;
  addr = none;
  hostname = some (text "tokyo");
  is_up = true;
  last_seen_secs_ago = none;
  role = some (record { zone = text "east"; tags = []; capacity = some 1073741824 });
  draining = false;
}

abbrev pub gateway_node : ClusterNode
gateway_node = record storage_node {
  id = text "b2";
  role = some (record { zone = text "west"; tags = []; capacity = none });
}

abbrev pub cluster : ClusterStatus
cluster = record { layout_version = 3; nodes = storage_node ∷ gateway_node ∷ [] }

abbrev pub healthy : ClusterHealth
healthy = record {
  status = text "healthy";
  known_nodes = 2;
  connected_nodes = 2;
  storage_nodes = 1;
  storage_nodes_up = 1;
  partitions = 256;
  partitions_quorum = 256;
  partitions_all_ok = 256;
}

abbrev pub sync_worker : Worker
sync_worker = record {
  node_id = text "a1";
  id = 7;
  name = text "object sync";
  state = named (text "idle");
  errors = 0;
  consecutive_errors = 0;
  last_error = none;
  tranquility = none;
  progress = none;
  queue_length = none;
  persistent_errors = none;
  freeform = [];
}

abbrev pub storage_entry : NodeStorageHealth
storage_entry = record {
  resync_queue_len = some 0;
  resync_errors = some 0;
  scrub_corruptions = some 0;
  scrub_last_completed = none;
  error = none;
  stats_error = none;
  vars_error = none;
  workers_error = none;
}

abbrev pub storage_answer : StorageHealth
storage_answer = record {
  nodes = (text "a1", storage_entry) ∷ [];
  stats_error = none;
  vars_error = none;
  workers_error = none;
}
