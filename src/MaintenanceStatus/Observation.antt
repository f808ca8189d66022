-- ===== src/MaintenanceStatus/Observation.antt =====
-- When the observation of the cluster has no gap: `observationGaps` and `fanOutGaps` of
-- frontend/src/lib/maintenance-status.ts.
use garage_admin_console.Base.{
  ℕ, ◌<◌, ◌≡◌, refl, ◌↔◌, inl, inr, Bool, true, false, List, [], ◌∷◌, ◌++◌, Text, text, is_empty,
  join, arith, Bool-cases, not, ◌&&◌, eqb, ltb, length, length-append, All, All-append, ◌+◌,
  if◌then◌else◌,
}
use garage_admin_console.Locale.{decimal}
use garage_admin_console.MaintenanceStatus.{
  FetchState, pending, error, success, FanOutInput, MaintenanceInputs, Gaps, fan_out_gaps,
  health_gaps, observation_gaps, push_blind, push_partial, push_pending, is_success, gap_text,
}

-- A fan-out that reached all its nodes, and at least one.
pub record IsObserved (f : FanOutInput) : Type 0 where
  pub fetched : f.state ≡ success
  pub some_node : 0 < f.checked_node_count
  pub all_nodes : f.node_error_count ≡ 0

abbrev pub is_observed : FanOutInput → Bool
is_observed f =
    is_success f.state && not (eqb f.checked_node_count 0) && not (ltb 0 f.node_error_count)

pub is_observed_iff : (f : FanOutInput) → (is_observed f ≡ true) ↔ IsObserved f
is_observed_iff f = (
  (λ h. record { fetched = ground arith; some_node = ground arith; all_nodes = ground arith }),
  (λ o. let a = o.fetched in let b = o.some_node in let c = o.all_nodes in ground arith),
)

-- How many observations are missing.
abbrev gap_count : Gaps → ℕ
gap_count g = length g.blind + length g.partial + length g.pending

-- The messages of missing observations are not empty.
abbrev HasMessages : Gaps → Type 0
HasMessages g = All (λ m. is_empty m ≡ false) g.blind × All (λ m. is_empty m ≡ false) g.partial

is_empty-append : (s t : Text) → is_empty t ≡ false → is_empty (s ++ t) ≡ false
is_empty-append [] t h = h
is_empty-append (c ∷ s) t h = refl

module _ (m : Text) (g : Gaps) where
  push_blind-count : gap_count (push_blind m g) ≡ gap_count g + 1
  unfolding push_blind
  push_blind-count = omega (arith, length-append g.blind (m ∷ []))

  push_partial-count : gap_count (push_partial m g) ≡ gap_count g + 1
  unfolding push_partial
  push_partial-count = omega (arith, length-append g.partial (m ∷ []))

  push_pending-count : gap_count (push_pending m g) ≡ gap_count g + 1
  unfolding push_pending
  push_pending-count = omega (arith, length-append g.pending (m ∷ []))

  push_blind-HasMessages : is_empty m ≡ false → HasMessages g → HasMessages (push_blind m g)
  unfolding push_blind
  push_blind-HasMessages k (b, p) = (All-append _ g.blind (m ∷ []) b (k, tt), p)

  push_partial-HasMessages : is_empty m ≡ false → HasMessages g → HasMessages (push_partial m g)
  unfolding push_partial
  push_partial-HasMessages k (b, p) = (b, All-append _ g.partial (m ∷ []) p (k, tt))

  push_pending-HasMessages : HasMessages g → HasMessages (push_pending m g)
  unfolding push_pending
  push_pending-HasMessages h = h

-- The texts that end the messages of `fan_out_gaps`.
message_ends :
    (is_empty (text "を取得できませんでした。") ≡ false)
    × (is_empty (text "を確認できたノードがありません。") ≡ false)
    × (is_empty (text " ノードで未確認です。") ≡ false)
    × (is_empty (text "ヘルスステータスを取得できませんでした。") ≡ false)
unfolding text
message_ends = (refl, refl, refl, refl)

module _ (name : Text) (f : FanOutInput) (g : Gaps) where
  fan_out_gaps-count :
      (state : FetchState)
      → f.state ≡ state
      → gap_count (fan_out_gaps state name f g)
        ≡ (if is_observed f then gap_count g else gap_count g + 1)
  unfolding fan_out_gaps
  fan_out_gaps-count pending e = rw e (push_pending-count _ g)
  fan_out_gaps-count error e = rw e (push_blind-count _ g)
  fan_out_gaps-count success e = rw e (grind (arith, push_blind-count, push_partial-count))

  fan_out_gaps-HasMessages :
      (state : FetchState) → HasMessages g → HasMessages (fan_out_gaps state name f g)
  unfolding fan_out_gaps
  fan_out_gaps-HasMessages pending h = push_pending-HasMessages _ g h
  fan_out_gaps-HasMessages error h =
      push_blind-HasMessages _ g (is_empty-append name _ message_ends.0) h
  fan_out_gaps-HasMessages success h = elim (Bool-cases (eqb f.checked_node_count 0)) [
    | inl unread ↦ rw unread (push_blind-HasMessages _ g (is_empty-append name _ message_ends.1) h)
    | inr read ↦ elim (Bool-cases (ltb 0 f.node_error_count)) [
      | inl missing ↦
          rw (read, missing)
            (push_partial-HasMessages _ g
              (is_empty-append name _ (
                is_empty-append (text "は ") _
                  (is_empty-append (decimal f.node_error_count) _ message_ends.2)))
              h)
      | inr whole ↦ rw (read, whole) h
    ]
  ]

health_gaps-count :
    (state : FetchState) (g : Gaps)
    → gap_count (health_gaps state g) ≡ (if is_success state then gap_count g else gap_count g + 1)
unfolding health_gaps
health_gaps-count pending g = push_pending-count _ g
health_gaps-count error g = push_blind-count _ g
health_gaps-count success g = refl

health_gaps-HasMessages :
    (state : FetchState) (g : Gaps) → HasMessages g → HasMessages (health_gaps state g)
unfolding health_gaps
health_gaps-HasMessages pending g h = push_pending-HasMessages _ g h
health_gaps-HasMessages error g h = push_blind-HasMessages _ g message_ends.3 h
health_gaps-HasMessages success g h = h

module _ (inp : MaintenanceInputs) where
  abbrev start_gaps : Gaps
  start_gaps = record { blind = []; partial = []; pending = [] }

  abbrev gaps_health : Gaps
  gaps_health = health_gaps inp.health_state start_gaps

  abbrev gaps_blocks : Gaps
  gaps_blocks = fan_out_gaps inp.block_errors.state (text "ブロックエラー") inp.block_errors gaps_health

  -- Nothing is missing exactly if all three sources were read, and the fan-outs completely.
  pub observation_gaps-count_iff : (gap_count (observation_gaps inp) ≡ 0) ↔ (
      (is_success inp.health_state ≡ true)
      × (is_observed inp.block_errors ≡ true)
      × (is_observed inp.node_stats ≡ true))
  unfolding observation_gaps
  observation_gaps-count_iff = ground (
    arith,
    health_gaps-count inp.health_state start_gaps,
    fan_out_gaps-count (text "ブロックエラー") inp.block_errors gaps_health inp.block_errors.state refl,
    fan_out_gaps-count (text "リシンク統計") inp.node_stats gaps_blocks inp.node_stats.state refl,
  )

  pub observation_gaps-HasMessages : HasMessages (observation_gaps inp)
  unfolding observation_gaps
  observation_gaps-HasMessages =
      fan_out_gaps-HasMessages _ inp.node_stats gaps_blocks inp.node_stats.state (
        fan_out_gaps-HasMessages _ inp.block_errors gaps_health inp.block_errors.state
          (health_gaps-HasMessages inp.health_state start_gaps (tt, tt)))

is_empty-append_left : (s t : Text) → is_empty s ≡ false → is_empty (s ++ t) ≡ false
is_empty-append_left [] t h = cc
is_empty-append_left (c ∷ s) t h = refl

is_empty-join :
    (ms : List Text) → All (λ m. is_empty m ≡ false) ms → is_empty (join [] ms) ≡ is_empty ms
is_empty-join [] h = refl
is_empty-join (m ∷ []) (h, hs) = h
is_empty-join (m ∷ n ∷ ms) (h, hs) = is_empty-append_left m _ h

gap_text-empty :
    (g : Gaps) → HasMessages g → is_empty (gap_text g) ≡ is_empty (g.blind ++ g.partial)
gap_text-empty g (b, p) = is_empty-join (g.blind ++ g.partial) (All-append _ g.blind g.partial b p)

-- No text of a gap and nothing pending: no gap.
pub no_gap_iff :
    (g : Gaps)
    → HasMessages g
    → ((is_empty (gap_text g) && is_empty g.pending) ≡ true) ↔ (gap_count g ≡ 0)
no_gap_iff g h = rw (gap_text-empty g h) (by_lists g.blind g.partial g.pending)
  where
    by_lists :
        (bs ps qs : List Text)
        → ((is_empty (bs ++ ps) && is_empty qs) ≡ true) ↔ (length bs + length ps + length qs ≡ 0)
    by_lists [] [] [] = ground arith
    by_lists [] [] (q ∷ qs) = ground arith
    by_lists [] (p ∷ ps) qs = ground arith
    by_lists (b ∷ bs) ps qs = ground arith
