-- ===== src/MultiResponse/Outcome.antt =====
-- The outcome and the toast of an answer of many nodes: `summarizeMultiResponse` and
-- `multiResponseToast` of frontend/src/lib/multi-response.ts.
use garage_admin_console.Base.{◌≡◌, ◌≢◌, ◌↔◌, [], Text, arith, length-eq-zero_iff, is_empty-length}
use garage_admin_console.Base.Sorting.{
  Comparator, IsConsistent, sort, sort-perm, length-sort, sort-IsSorted, IsSorted, on-IsConsistent,
}
use garage_admin_console.Api.{MultiResponse}
use garage_admin_console.Locale.{Locale}
use garage_admin_console.MultiResponse.{MultiOutcome, partial, failure, summarize_multi_response}
use mathlib.Core.List.{Perm}

-- The order of the IDs of the nodes.
abbrev pub by_id {ℓ} : {T : Type ℓ} → Locale → Comparator (Text × T)
by_id l a b = l.compare_text a.0 b.0

by_id-IsConsistent {ℓ} : {T : Type ℓ} (l : Locale) → IsConsistent (by_id {T = T} l)
by_id-IsConsistent l = on-IsConsistent (λ e. e.0) l.compare_text l.compare_text-IsConsistent

-- The outcome is a failure exactly if no node succeeded, a success exactly if some node did and
-- none failed, and partial exactly if there are nodes of both kinds.
summarize_multi_response-outcome_iff {ℓ} :
    {T : Type ℓ} (l : Locale) (resp : MultiResponse T)
    → let outcome = (summarize_multi_response l resp).outcome in
      ((outcome ≡ failure) ↔ (resp.success ≡ []))
      × ((outcome ≡ MultiOutcome.success) ↔ ((resp.success ≢ []) × (resp.error ≡ [])))
      × ((outcome ≡ partial) ↔ ((resp.success ≢ []) × (resp.error ≢ [])))
unfolding summarize_multi_response
summarize_multi_response-outcome_iff l resp = ground (
  arith,
  is_empty-length (sort (by_id l) resp.success),
  length-sort (by_id l) resp.success,
  length-sort (by_id l) resp.error,
  length-eq-zero_iff resp.success,
  length-eq-zero_iff resp.error,
)

-- The summary lists the nodes of the answer, those that succeeded and those that failed, each in
-- the order of their IDs.
pub summarize_multi_response-IsSorted {ℓ} :
    {T : Type ℓ} (l : Locale) (resp : MultiResponse T)
    → let s = summarize_multi_response l resp in
      (Perm s.succeeded resp.success × IsSorted (by_id l) s.succeeded)
      × (Perm s.failed resp.error × IsSorted (by_id l) s.failed)
unfolding summarize_multi_response
summarize_multi_response-IsSorted {T} l resp = (
  (sort-perm (by_id l) resp.success, sort-IsSorted (by_id l) (by_id-IsConsistent l) resp.success),
  (sort-perm (by_id l) resp.error, sort-IsSorted (by_id l) (by_id-IsConsistent l) resp.error),
)
