-- ===== src/Attention/Quiet.antt =====
-- What it means that a check of frontend/src/lib/attention.ts on the cluster, its nodes, layout, keys
-- or admin tokens finds nothing.
use garage_admin_console.Base.{
  bind_option, if◌then◌else◌, ℕ, suc, ◌+◌, ◌<◌, ◌≡◌, refl, inl, inr, Bool, true, false, Option,
  none, some, List, [], ◌∷◌, Text, text, ==_iff, arith, Bool-cases, Option-cases, All, All-map_of,
  append-eq-nil, gather, gather-eq-nil, filter, or_else, is_some, is_empty, length, if◌then◌else◌,
}
use garage_admin_console.Base.Maps.{Entries, get}
use garage_admin_console.Api.{
  AdminToken, ClusterHealth, ClusterLayout, ClusterNode, ClusterStatus, KeyListItem, ListResult,
  NodeStorageHealth, StorageHealth,
}
use garage_admin_console.Locale.{Locale}
use garage_admin_console.Nodes.{is_storage_node}
use garage_admin_console.Attention.{
  AttentionSource, AttentionResult, then_check, only_items, only_unknown, note, taken, check,
  expiry_attention, expiry_of, expiry_warning_ms,
}
use garage_admin_console.Attention.Checks.{
  health_report, nodes_report, node_items, storage_items, storage_report, is_silent, layout_report,
  key_items, keys_report, token_items,
}

-- Nothing to show, nothing unknown and nothing still loading.
pub record IsQuiet (r : AttentionResult) : Type 0 where
  pub no_items : r.items ≡ []
  pub no_unknown : r.unknown ≡ []
  pub no_pending : r.pending ≡ false

-- The source answered, without an error.
abbrev pub IsKnown : {T : Type 0} → AttentionSource T → (T → Type 0) → Type 0
IsKnown {T} src P = (src.is_error ≡ false) × ((d : T) × (src.data_of ≡ some d) × P d)

pub then_check-IsQuiet : (r s : AttentionResult) → IsQuiet (then_check r s) → IsQuiet r × IsQuiet s
unfolding then_check
then_check-IsQuiet r s q =
    let (items_r, items_s) = append-eq-nil r.items s.items q.no_items in
    let (unknown_r, unknown_s) = append-eq-nil r.unknown s.unknown q.no_unknown in
    (
      record {
        no_items = items_r;
        no_unknown = unknown_r;
        no_pending = ground (arith, q.no_pending);
      },
      record {
        no_items = items_s;
        no_unknown = unknown_s;
        no_pending = ground (arith, q.no_pending);
      },
    )

module _ {T : Type 0} (src : AttentionSource T) (label : Text) where
  pub note-IsQuiet :
      IsQuiet (note src label) → (src.is_error ≡ false) × ((d : T) × (src.data_of ≡ some d))
  unfolding note
  note-IsQuiet q =
      let unknown = q.no_unknown in
      let pending = q.no_pending in
      elim (Bool-cases src.is_error) [
        | inl failed ↦ absurd (ground arith)
        | inr fine ↦ elim (Option-cases src.data_of) [
          | inl nothing ↦ absurd (ground arith)
          | inr there ↦ (fine, there)
        ]
      ]

  pub taken-eq-some : src.is_error ≡ false → (d : T) → src.data_of ≡ some d → taken src ≡ some d
  unfolding taken
  taken-eq-some fine d there = rw (fine, there) refl

  pub check-IsQuiet :
      (body : T → AttentionResult) (P : T → Type 0)
      → ((d : T) → taken src ≡ some d → IsQuiet (body d) → P d)
      → IsQuiet (check src label body)
      → IsKnown src P
  unfolding check
  check-IsQuiet body P holds q =
      let (noted, rest) = then_check-IsQuiet (note src label) _ q in
      let (fine, answer) = note-IsQuiet noted in
      let (d, there) = answer in
      let took = taken-eq-some fine d there in (fine, (d, there, holds d took (rw took at rest)))

pub health_report-IsQuiet :
    (h : ClusterHealth) → IsQuiet (health_report h) → h.status ≡ text "healthy"
unfolding health_report
health_report-IsQuiet h q =
    let none_there = q.no_items in ground (arith, ==_iff h.status (text "healthy"))

node_items-eq-nil : (n : ClusterNode) → node_items n ≡ [] → (n.is_up ≡ true) × (n.draining ≡ false)
unfolding node_items
node_items-eq-nil n none_there = ground arith

pub nodes_report-IsQuiet :
    (nodes : List ClusterNode)
    → IsQuiet (nodes_report nodes)
    → All
        (λ n. (n.is_up ≡ true) × (n.draining ≡ false))
        (filter (λ n. is_storage_node n.role n.draining) nodes)
unfolding nodes_report
nodes_report-IsQuiet nodes q =
    All-map_of node_items-eq-nil _ (gather-eq-nil node_items _ q.no_items)

-- A node without resync errors and, where it counts, without an error of its own.
abbrev pub IsSound : Option ClusterStatus → Entries ℕ → Text × NodeStorageHealth → Type 0
IsSound status increases e = (or_else e.1.resync_errors 0 ≡ 0) × (or_else (get e.0 increases) 0 ≡ 0)

module _ (l : Locale) (status : Option ClusterStatus) (increases : Entries ℕ) where
  storage_items-eq-nil :
      (e : Text × NodeStorageHealth)
      → storage_items l status increases e ≡ []
      → IsSound status increases e
  unfolding storage_items
  storage_items-eq-nil (id, h) none_there = ground arith

  pub storage_report-IsQuiet :
      (sh : StorageHealth)
      → IsQuiet (storage_report l status increases sh)
      → All (IsSound status increases) sh.nodes × (is_silent status sh ≡ false)
  unfolding storage_report
  storage_report-IsQuiet sh q =
      let items = gather (storage_items l status increases) sh.nodes in
      let labels : List Text =
        if is_silent status sh then text "Storage health(一部のノード)" ∷ [] else [] in
      let (found, silent) = then_check-IsQuiet (only_items items) (only_unknown labels) q in
      let told = silent.no_unknown in
      (
        All-map_of storage_items-eq-nil _
            (gather-eq-nil (storage_items l status increases) sh.nodes found.no_items),
        ground arith,
      )

pub layout_report-IsQuiet :
    (c : ClusterLayout)
    → IsQuiet (layout_report c)
    → (length c.staged_role_changes ≡ 0) × (is_some c.staged_parameters ≡ false)
unfolding layout_report
layout_report-IsQuiet c q = let none_there = q.no_items in ground arith

-- An instant, if there is one, more than a week after `now`.
abbrev pub IsFar : ℕ → Option ℕ → Type 0
IsFar now none = Unit
IsFar now (some t) = now + expiry_warning_ms < t

-- Not reported as expired, and no expiration that is reached at `now` or in the week after it.
abbrev pub IsValidBeyond : (Text → Option ℕ) → ℕ → Option Text → Bool → Type 0
IsValidBeyond parse now expiration expired =
    (expired ≡ false)
    × IsFar now (bind_option expiration (λ s. if is_empty s then none else parse s))

module _ (parse : Text → Option ℕ) (now : ℕ) where
  expiry_of-eq-none :
      (time : Option ℕ) (expired : Bool)
      → expiry_of time expired now ≡ none
      → (expired ≡ false) × IsFar now time
  unfolding expiry_of
  expiry_of-eq-none time true h = cc
  expiry_of-eq-none none false h = (refl, tt)
  expiry_of-eq-none (some t) false h = ground arith

  expiry_attention-eq-none :
      (expiration : Option Text) (expired : Bool)
      → expiry_attention parse expiration expired now ≡ none
      → IsValidBeyond parse now expiration expired
  unfolding expiry_attention
  expiry_attention-eq-none expiration expired h = expiry_of-eq-none _ expired h

  key_items-eq-nil :
      (k : KeyListItem)
      → key_items parse now k ≡ []
      → IsValidBeyond parse now k.expiration k.expired
  unfolding key_items
  key_items-eq-nil k h = expiry_attention-eq-none k.expiration k.expired (ground arith)

  pub keys_report-IsQuiet :
      (ks : ListResult KeyListItem)
      → IsQuiet (keys_report parse now ks)
      → (ks.truncated ≡ false) × All (λ k. IsValidBeyond parse now k.expiration k.expired) ks.items
  unfolding keys_report
  keys_report-IsQuiet ks q =
      let labels : List Text = if ks.truncated then text "アクセスキー(一覧が上限で打ち切られています)" ∷ [] else [] in
      let (cut, found) =
        then_check-IsQuiet (only_unknown labels)
          (only_items (gather (key_items parse now) ks.items)) q in
      let told = cut.no_unknown in
      (
        ground arith,
        All-map_of key_items-eq-nil ks.items
            (gather-eq-nil (key_items parse now) ks.items found.no_items),
      )

  pub token_items-eq-nil :
      (i : ℕ) (ts : List AdminToken)
      → token_items parse now i ts ≡ []
      → All (λ t. IsValidBeyond parse now t.expiration t.expired) ts
  unfolding token_items
  token_items-eq-nil i [] h = tt
  token_items-eq-nil i (t ∷ ts) h =
      let (here, rest) = append-eq-nil _ (token_items parse now (suc i) ts) h in
      (
        expiry_attention-eq-none t.expiration t.expired (ground arith),
        token_items-eq-nil (suc i) ts rest,
      )
