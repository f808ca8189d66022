-- ===== src/Witnesses/Panel.antt =====
-- The theorems on the attention panel, at concrete inputs.
use garage_admin_console.Base.{
  ℕ, ◌≡◌, refl, true, false, Option, none, some, not, ◌++◌, [], ◌∷◌, Text, text, ◌==◌, filter,
}
use garage_admin_console.Base.Maps.{get, put, from_entries}
use garage_admin_console.Base.Sorting.{sort}
use garage_admin_console.Api.{
  ClusterLayout, maximum, BucketListItem, KeyListItem, AdminToken, S3Connection,
}
use garage_admin_console.Nodes.{is_storage_node}
use garage_admin_console.Witnesses.{sample_locale, healthy, cluster, storage_answer}
use garage_admin_console.Attention.{
  AttentionInputs, check, note, taken, then_check, expiry_attention,
}
use garage_admin_console.Attention.Checks.{
  health_report, node_items, nodes_report, is_relevant, is_silent, storage_items, storage_report,
  layout_report, key_items, keys_report, token_items,
}
use garage_admin_console.Attention.Buckets.{
  bucket_items, buckets_report, console_key, console_key_items, is_partial, lacks_access,
}
use garage_admin_console.Attention.Collect.{all_checks, bucket_checks, collect_attention_items}
use garage_admin_console.Attention.Collect.Order.{is_danger, collect_attention_items-danger_first}
use garage_admin_console.Attention.Collect.Fine.{IsFine, collect_attention_items-IsFine}

abbrev layout_answer : ClusterLayout
layout_answer = record {
  version = 3;
  roles = [];
  parameters = record { zone_redundancy = maximum };
  partition_size = 1048576;
  staged_role_changes = [];
  staged_parameters = none;
}

abbrev bucket : BucketListItem
bucket = record {
  id = text "f0";
  global_aliases = text "photos" ∷ [];
  local_aliases = [];
  created = none;
  objects = some 2;
  bytes = some 10;
  unfinished_multipart_uploads = some 1;
  key_count = some 1;
  bucket_keys =
      some (record { access_key_id = text "GK1"; read = true; write = true; owner = false } ∷ []);
  quotas = none;
}

abbrev access_key : KeyListItem
access_key = record {
  id = text "GK1";
  name = text "console";
  created = none;
  expiration = none;
  expired = false;
  bucket_count = some 1;
}

abbrev token : AdminToken
token = record {
  id = none;
  created = none;
  name = text "metrics";
  expiration = some (text "far");
  expired = false;
  scope = text "*" ∷ [];
}

abbrev connection : S3Connection
connection = record {
  region = text "garage";
  endpoint = text "http://s3";
  public_endpoint = true;
  access_key_id = some (text "GK1");
}

abbrev parse : Text → Option ℕ
parse s = some 900000000

abbrev quiet_inputs : AttentionInputs
quiet_inputs = record {
  now = 5;
  health = record { data_of = some healthy; is_error = false };
  status = record { data_of = some cluster; is_error = false };
  storage_health = record { data_of = some storage_answer; is_error = false };
  corruption_increases = [];
  layout = record { data_of = some layout_answer; is_error = false };
  access_keys = record {
    data_of = some (record { items = access_key ∷ []; truncated = false });
    is_error = false;
  };
  admin_tokens = record { data_of = some (token ∷ []); is_error = false };
  buckets = record {
    data_of = some (record { items = bucket ∷ []; truncated = false });
    is_error = false;
  };
  s3_connection = record { data_of = some connection; is_error = false };
}

collect_attention_items-IsFine_example : IsFine parse quiet_inputs
unfolding collect_attention_items all_checks bucket_checks check note taken then_check
    expiry_attention health_report node_items nodes_report is_relevant is_silent storage_items
    storage_report layout_report key_items keys_report token_items bucket_items buckets_report
    console_key console_key_items is_partial lacks_access is_storage_node get put from_entries sort
    text ◌==◌
collect_attention_items-IsFine_example =
    collect_attention_items-IsFine sample_locale parse quiet_inputs
      (record { no_items = refl; no_unknown = refl; no_pending = refl })

-- The same cluster with a degraded health and no storage answer.
abbrev sick_inputs : AttentionInputs
sick_inputs = record quiet_inputs {
  health = record {
    data_of = some (record healthy { status = text "degraded" });
    is_error = false;
  };
  storage_health = record { data_of = none; is_error = true };
}

collect_attention_items-danger_first_example :
    let found = (all_checks sample_locale parse sick_inputs).items in
    (collect_attention_items sample_locale parse sick_inputs).items
    ≡ filter is_danger found ++ filter (λ i. not (is_danger i)) found
collect_attention_items-danger_first_example =
    collect_attention_items-danger_first sample_locale parse sick_inputs
