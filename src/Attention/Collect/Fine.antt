-- ===== src/Attention/Collect/Fine.antt =====
-- What an empty attention panel means: `collectAttentionItems` of frontend/src/lib/attention.ts.
use garage_admin_console.Base.{
  ℕ, length-eq-zero_iff, ◌≡◌, true, false, Option, Text, text, arith, All, filter, is_some, length,
}
use garage_admin_console.Base.Sorting.{length-sort}
use garage_admin_console.Locale.{Locale}
use garage_admin_console.Nodes.{is_storage_node}
use garage_admin_console.Attention.{AttentionInputs, taken}
use garage_admin_console.Attention.Checks.{is_silent}
use garage_admin_console.Attention.Buckets.{console_key}
use garage_admin_console.Attention.Collect.{
  all_checks, bucket_checks, by_severity, collect_attention_items,
}
use garage_admin_console.Attention.Quiet.{
  IsQuiet, IsKnown, IsSound, IsValidBeyond, then_check-IsQuiet, note-IsQuiet, taken-eq-some,
  check-IsQuiet, health_report-IsQuiet, nodes_report-IsQuiet, storage_report-IsQuiet,
  layout_report-IsQuiet, keys_report-IsQuiet, token_items-eq-nil,
}
use garage_admin_console.Attention.Buckets.Served.{IsServed, buckets_report-IsQuiet}

-- What the panel watches is all in order. Of the console's key, `none` is that there is none.
pub record IsFine (parse : Text → Option ℕ) (inputs : AttentionInputs) : Type 0 where
  pub health_fine : IsKnown inputs.health (λ h. h.status ≡ text "healthy")
  pub nodes_fine : IsKnown inputs.status (λ s.
      All
        (λ n. (n.is_up ≡ true) × (n.draining ≡ false))
        (filter (λ n. is_storage_node n.role n.draining) s.nodes))
  pub storage_fine : IsKnown inputs.storage_health (λ sh.
      All (IsSound (taken inputs.status) inputs.corruption_increases) sh.nodes
      × (is_silent (taken inputs.status) sh ≡ false))
  pub layout_fine :
      IsKnown inputs.layout
        (λ c. (length c.staged_role_changes ≡ 0) × (is_some c.staged_parameters ≡ false))
  pub keys_fine : IsKnown inputs.access_keys (λ ks.
      (ks.truncated ≡ false)
      × All (λ k. IsValidBeyond parse inputs.now k.expiration k.expired) ks.items)
  pub tokens_fine :
      IsKnown inputs.admin_tokens
        (λ ts. All (λ t. IsValidBeyond parse inputs.now t.expiration t.expired) ts)
  pub buckets_fine : IsKnown inputs.buckets (λ bs.
      (bs.truncated ≡ false) × All (IsServed (console_key (taken inputs.s3_connection))) bs.items)
  pub connection_fine : IsKnown inputs.s3_connection (λ c. Unit)

module _ (l : Locale) (parse : Text → Option ℕ) (inputs : AttentionInputs) where
  bucket_checks-IsQuiet :
      IsQuiet (bucket_checks l parse inputs)
      → IsKnown inputs.buckets (λ bs.
        (bs.truncated ≡ false) × All (IsServed (console_key (taken inputs.s3_connection))) bs.items)
        × IsKnown inputs.s3_connection (λ c. Unit)
  unfolding bucket_checks
  bucket_checks-IsQuiet q =
      let (buckets_noted, rest) = then_check-IsQuiet _ _ q in
      let (connection_noted, found) = then_check-IsQuiet _ _ rest in
      let (fine, answer) = note-IsQuiet inputs.buckets (text "バケット") buckets_noted in
      let (bs, there) = answer in
      let (connected, connection) =
        note-IsQuiet inputs.s3_connection (text "コンソールの S3 キー") connection_noted in
      let took = taken-eq-some inputs.buckets (text "バケット") fine bs there in
      (
        (
          fine,
          (
            bs,
            there,
            buckets_report-IsQuiet l (console_key (taken inputs.s3_connection)) bs
                (rw took at found),
          ),
        ),
        (connected, (connection.0, connection.1, tt)),
      )

  all_checks-IsFine : IsQuiet (all_checks l parse inputs) → IsFine parse inputs
  unfolding all_checks
  all_checks-IsFine q =
      let (health, q₁) = then_check-IsQuiet _ _ q in
      let (status, q₂) = then_check-IsQuiet _ _ q₁ in
      let (storage, q₃) = then_check-IsQuiet _ _ q₂ in
      let (layout, q₄) = then_check-IsQuiet _ _ q₃ in
      let (access_keys, q₅) = then_check-IsQuiet _ _ q₄ in
      let (tokens, q₆) = then_check-IsQuiet _ _ q₅ in
      let (buckets, connection) = bucket_checks-IsQuiet q₆ in
      record {
        health_fine = check-IsQuiet _ _ _ _ (λ h e. health_report-IsQuiet h) health;
        nodes_fine = check-IsQuiet _ _ _ _ (λ s e. nodes_report-IsQuiet s.nodes) status;
        storage_fine =
            check-IsQuiet _ _ _ _
              (λ sh e.
                storage_report-IsQuiet l (taken inputs.status) inputs.corruption_increases sh)
              storage;
        layout_fine = check-IsQuiet _ _ _ _ (λ c e. layout_report-IsQuiet c) layout;
        keys_fine =
            check-IsQuiet _ _ _ _ (λ ks e. keys_report-IsQuiet parse inputs.now ks) access_keys;
        tokens_fine =
            check-IsQuiet _ _ _ _ (λ ts e q. token_items-eq-nil parse inputs.now 0 ts q.no_items)
              tokens;
        buckets_fine = buckets;
        connection_fine = connection;
      }

  -- Where the panel shows nothing, reports nothing as unknown and waits for nothing, every source
  -- answered without an error, the health is healthy, every storage node is up and not draining, no
  -- node of the storage answer has resync errors or a rise of its corruption counter and no relevant
  -- one an error, nothing is staged in the layout, no key or token is expired or expires within a
  -- week, the lists are complete, and every bucket has fewer than ten unfinished uploads and lets
  -- the console's key, if there is one, read and write.
  pub collect_attention_items-IsFine :
      IsQuiet (collect_attention_items l parse inputs) → IsFine parse inputs
  unfolding collect_attention_items
  collect_attention_items-IsFine q =
      let found = (all_checks l parse inputs).items in
      let none_found = q.no_items in
      all_checks-IsFine (record {
        no_items = ground (arith, length-sort by_severity found, length-eq-zero_iff found);
        no_unknown = q.no_unknown;
        no_pending = q.no_pending;
      })
