-- ===== src/MultiResponse.antt =====
-- frontend/src/lib/multi-response.ts: the summary of an answer that one request to many nodes gives.
pub mod Outcome
use garage_admin_console.Base.{
  ℕ, ◌++◌, ◌-◌, Bool, true, false, List, [], ◌∷◌, map, Text, text, join, if◌then◌else◌, ltb,
  is_empty, length, take,
}
use garage_admin_console.Base.Sorting.{sort}
use garage_admin_console.Api.{MultiResponse}
use garage_admin_console.Locale.{Locale, decimal}
use garage_admin_console.Nodes.{short_id}

-- `MultiOutcome`
pub data MultiOutcome : Type 0 where
  success partial failure : MultiOutcome

-- `MultiResponseSummary`; a failure is a node's ID and Garage's message.
pub record MultiResponseSummary {ℓ} (T : Type ℓ) : Type ℓ where
  pub outcome : MultiOutcome
  pub succeeded : List (Text × T)
  pub failed : List (Text × Text)

module _ {ℓ} {T : Type ℓ} (l : Locale) where
  -- `summarizeMultiResponse`
  unfoldable pub summarize_multi_response : MultiResponse T → MultiResponseSummary T
  summarize_multi_response resp =
      let succeeded = sort (λ a b. l.compare_text a.0 b.0) resp.success in
      let failed = sort (λ a b. l.compare_text a.0 b.0) resp.error in
      record {
        outcome =
            if is_empty succeeded
            then failure
            else if ltb 0 (length failed)
            then partial
            else success;
        succeeded = succeeded;
        failed = failed;
      }

-- `formatNodeFailures`
unfoldable pub format_node_failures : List (Text × Text) → ℕ → Text
format_node_failures failed limit =
    let shown = map (λ f. short_id f.0 ++ (text ": " ++ f.1)) (take limit failed) in
    if ltb 0 (length failed - length shown)
    then join (text " / ") shown
      ++ (text " / 他 " ++ (decimal (length failed - length shown) ++ text " ノード"))
    else join (text " / ") shown

pub data ToastLevel : Type 0 where
  success warning error : ToastLevel

-- `MultiResponseToast & { outcome }`
pub record MultiResponseToast : Type 0 where
  pub outcome : MultiOutcome
  pub level : ToastLevel
  pub message : Text

module _ {ℓ} {T : Type ℓ} (l : Locale) where
  -- The toast of a summary.
  toast_of : Text → (List T → Text) → MultiResponseSummary T → MultiOutcome → MultiResponseToast
  toast_of action success_message s failure = record {
    outcome = failure;
    level = error;
    message =
        if is_empty s.failed
        then action ++ text "に失敗しました: 応答したノードがありません"
        else action
          ++ (text "に失敗しました ("
              ++ (decimal (length s.failed) ++ (text "ノード): " ++ format_node_failures s.failed 3)));
  }
  toast_of action success_message s partial = record {
    outcome = partial;
    level = warning;
    message =
        success_message (map (λ x. x.1) s.succeeded)
        ++ (text " ("
            ++ (decimal (length s.succeeded)
                ++ (text "ノード成功、"
                    ++ (decimal (length s.failed)
                        ++ (text "ノード失敗: " ++ (format_node_failures s.failed 3 ++ text ")"))))));
  }
  toast_of action success_message s MultiOutcome.success = record {
    outcome = MultiOutcome.success;
    level = ToastLevel.success;
    message =
        success_message (map (λ x. x.1) s.succeeded)
        ++ (text " (" ++ (decimal (length s.succeeded) ++ text "ノード)"));
  }

  -- `multiResponseToast`; the options are the action's name and the lead sentence.
  unfoldable pub multi_response_toast :
      MultiResponse T → Text → (List T → Text) → MultiResponseToast
  unfolding toast_of
  multi_response_toast resp action success_message =
      let s = summarize_multi_response l resp in toast_of action success_message s s.outcome
