-- ===== src/Attention/Buckets/Served.antt =====
-- What it means that the checks of the buckets in frontend/src/lib/attention.ts find nothing.
use garage_admin_console.Base.{
  ℕ, is_empty-map, is_empty-filter_iff, All-zip, All-always, sym, leb, ◌∙◌, ◌<◌, ◌≡◌, refl, inl,
  inr, true, false, Option, none, some, List, [], ◌∷◌, Text, text, arith, Option-cases, All,
  All-map_of, gather, gather-eq-nil, any, any-eq-false_iff, filter, or_else, is_some, is_empty,
  if◌then◌else◌,
}
use garage_admin_console.Api.{BucketListItem, ListResult}
use garage_admin_console.Locale.{Locale}
use garage_admin_console.Attention.{then_check, only_items, only_unknown, multipart_warning_count}
use garage_admin_console.Attention.Buckets.{
  bucket_items, buckets_report, console_key_items, is_partial, lacks_access, name_of,
  no_console_access,
}
use garage_admin_console.Attention.Quiet.{IsQuiet, then_check-IsQuiet}

-- A bucket whose keys are known and that the console's key, where there is one, may use.
abbrev pub IsReached : Option Text → BucketListItem → Type 0
IsReached none b = Unit
IsReached (some id) b = (is_some b.bucket_keys ≡ true) × (lacks_access id b ≡ false)

abbrev HasAccess : Option Text → BucketListItem → Type 0
HasAccess none b = Unit
HasAccess (some id) b = lacks_access id b ≡ false

-- A bucket whose uploads and keys are known, with few unfinished uploads, that the console's key,
-- where there is one, may read and write.
abbrev pub IsServed : Option Text → BucketListItem → Type 0
IsServed key b =
    ((n : ℕ) × (b.unfinished_multipart_uploads ≡ some n) × (n < multipart_warning_count))
    × IsReached key b

bucket_items-eq-nil :
    (l : Locale) (b : BucketListItem)
    → bucket_items l b ≡ []
    → leb multipart_warning_count (or_else b.unfinished_multipart_uploads 0) ≡ false
unfolding bucket_items
bucket_items-eq-nil l b h = ground arith

console_key_items-eq-nil :
    (l : Locale) (names : List Text) → console_key_items l names ≡ [] → is_empty names ≡ true
unfolding console_key_items
console_key_items-eq-nil l [] h = refl
console_key_items-eq-nil l (name ∷ names) h = ground arith

no_console_access-is_empty :
    (key : Option Text) (bs : List BucketListItem)
    → is_empty (no_console_access key bs) ≡ true
    → All (HasAccess key) bs
no_console_access-is_empty none bs h = All-always (λ b. tt) bs
no_console_access-is_empty (some key) bs h =
    let (served, _) = is_empty-filter_iff (lacks_access key) bs in
    All-map_of (λ b fine. fine) bs
      (served (sym (is_empty-map name_of (filter (lacks_access key) bs)) ∙ h))

IsReached-of :
    (key : Option Text) (b : BucketListItem)
    → is_partial key b ≡ false
    → HasAccess key b
    → IsReached key b
unfolding is_partial
IsReached-of none b whole reached = tt
IsReached-of (some id) b whole reached = (ground arith, reached)

IsServed-of :
    (key : Option Text) (b : BucketListItem)
    → (leb multipart_warning_count (or_else b.unfinished_multipart_uploads 0) ≡ false)
      × (is_partial key b ≡ false)
    → HasAccess key b
    → IsServed key b
unfolding is_partial
IsServed-of key b (few, whole) reached = elim (Option-cases b.unfinished_multipart_uploads) [
  | inl nothing ↦ absurd (ground arith)
  | inr (n, there) ↦ ((n, there, ground arith), IsReached-of key b whole reached)
]

pub buckets_report-IsQuiet :
    (l : Locale) (key : Option Text) (bs : ListResult BucketListItem)
    → IsQuiet (buckets_report l key bs)
    → (bs.truncated ≡ false) × All (IsServed key) bs.items
unfolding buckets_report
buckets_report-IsQuiet l key bs q =
    let cut_labels : List Text = if bs.truncated then text "バケット(一覧が上限で打ち切られています)" ∷ [] else [] in
    let partial_labels : List Text =
      if any (is_partial key) bs.items then text "バケット(一部の詳細)" ∷ [] else [] in
    let names = no_console_access key bs.items in
    let last = then_check (only_items (console_key_items l names)) (only_unknown partial_labels) in
    let (cut, after_cut) =
      then_check-IsQuiet (only_unknown cut_labels)
        (then_check (only_items (gather (bucket_items l) bs.items)) last) q in
    let (uploads, after_uploads) =
      then_check-IsQuiet (only_items (gather (bucket_items l) bs.items)) last after_cut in
    let (access, partial) =
      then_check-IsQuiet (only_items (console_key_items l names)) (only_unknown partial_labels)
        after_uploads in
    let told_cut = cut.no_unknown in
    let told_partial = partial.no_unknown in
    let (all_whole, _) = any-eq-false_iff (is_partial key) bs.items in
    let few =
      All-map_of (bucket_items-eq-nil l) bs.items
        (gather-eq-nil (bucket_items l) bs.items uploads.no_items) in
    let whole = all_whole (ground arith) in
    let reached =
      no_console_access-is_empty key bs.items (console_key_items-eq-nil l names access.no_items) in
    (
      ground arith,
      All-zip (IsServed-of key) bs.items (All-zip (λ b f w. (f, w)) bs.items few whole) reached,
    )
