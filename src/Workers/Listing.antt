-- ===== src/Workers/Listing.antt =====
-- What the worker table shows: `filterAndSortWorkers` of frontend/src/lib/workers.ts.
use garage_admin_console.Base.{
  ◌≡◌, ◌≢◌, ◌⊎◌, ◌<◌, ◌≤◌, ℕ, inl, inr, Ordering, Bool, not, List, [], ◌∷◌, ◌++◌, Text, Option,
  filter, All, All-filter, All-map_of, Bool-cases, arith,
}
use garage_admin_console.Base.Sorting.{
  sort, sort-perm, sort-All, sort-IsSorted, IsSorted, IsConsistent, then_by-IsConsistent,
  ascending-IsConsistent, descending-IsConsistent, on-IsConsistent,
}
use garage_admin_console.Locale.{Locale}
use garage_admin_console.Api.{Worker}
use garage_admin_console.Workers.{
  WorkerFilter, compare_workers_by_state, describe_state, state_rank, filter_and_sort_workers,
  matches_worker_filter,
}
use mathlib.Core.List.{Perm, perm_middle}
use mathlib.Core.List.Perm
use garage_admin_console.Workers.Wanted.{IsWanted, matches_worker_filter_iff}

pub compare_workers_by_state-IsConsistent :
    (l : Locale) (hostname_of : Text → Option Text)
    → IsConsistent (compare_workers_by_state l hostname_of)
compare_workers_by_state-IsConsistent l hostname_of =
    then_by-IsConsistent _ _
      (ascending-IsConsistent (λ w. state_rank (describe_state w.state).kind))
      (then_by-IsConsistent _ _ (descending-IsConsistent (λ w. w.consecutive_errors)) (
        then_by-IsConsistent _ _ (descending-IsConsistent (λ w. w.errors)) (
          then_by-IsConsistent _ _
            (on-IsConsistent (λ w. w.name) l.compare_text l.compare_text-IsConsistent)
            (ascending-IsConsistent (λ w. w.id)))))

abbrev rank : Worker → ℕ
rank w = state_rank (describe_state w.state).kind

-- `a` may stand before `b`: the rank of its state comes first; or else it has failed more often in a
-- row, or else more often at all; or else its name, or at last its number, comes first.
abbrev pub Precedes : Locale → Worker → Worker → Type 0
Precedes l a b =
    (rank a < rank b)
    ⊎ ((rank a ≡ rank b)
        × ((b.consecutive_errors < a.consecutive_errors)
            ⊎ ((a.consecutive_errors ≡ b.consecutive_errors)
                × ((b.errors < a.errors)
                    ⊎ ((a.errors ≡ b.errors)
                        × ((l.compare_text a.name b.name ≡ Ordering.lt)
                            ⊎ ((l.compare_text a.name b.name ≡ Ordering.eq) × (a.id ≤ b.id))))))))

abbrev pub IsInOrder : Locale → List Worker → Type 0
IsInOrder l [] = Unit
IsInOrder l (a ∷ bs) = All (Precedes l a) bs × IsInOrder l bs

compare_workers_by_state-Precedes :
    (l : Locale) (hostname_of : Text → Option Text) (a b : Worker)
    → compare_workers_by_state l hostname_of a b ≢ Ordering.gt
    → Precedes l a b
compare_workers_by_state-Precedes l hostname_of a b h = ground arith

IsSorted-IsInOrder :
    (l : Locale) (hostname_of : Text → Option Text) (ws : List Worker)
    → IsSorted (compare_workers_by_state l hostname_of) ws
    → IsInOrder l ws
IsSorted-IsInOrder l hostname_of [] s = tt
IsSorted-IsInOrder l hostname_of (a ∷ bs) (below, s) = (
  All-map_of (compare_workers_by_state-Precedes l hostname_of a) bs below,
  IsSorted-IsInOrder l hostname_of bs s,
)

filter-parts {ℓ} :
    {A : Type ℓ} (p : A → Bool) (xs : List A) → Perm xs (filter p xs ++ filter (λ x. not (p x)) xs)
filter-parts p [] = Perm.rfl
filter-parts p (x ∷ xs) = elim (Bool-cases (p x)) [
  | inl kept ↦ rw kept (Perm.cons x (filter-parts p xs))
  | inr gone ↦ rw gone (
      Perm.trans (Perm.cons x (filter-parts p xs))
        (Perm.symm (perm_middle (filter p xs) (filter (λ y. not (p y)) xs))))
]

-- The table splits the workers into those that it shows and those that it hides, each worker as often
-- as it was given. Every shown worker passes the filter, which asks for its node, for enabled and for
-- noteworthy workers and for the search; no hidden one does. No worker stands before one that is to
-- come first, by state, failures, name and number.
pub filter_and_sort_workers-parts :
    (l : Locale) (hostname_of : Text → Option Text) (workers : List Worker) (f : WorkerFilter)
    → let shown = filter_and_sort_workers l hostname_of workers f in
      IsInOrder l shown
      × All (IsWanted l hostname_of f) shown
      × ((hidden : List Worker) × Perm workers (shown ++ hidden)
          × All (λ w. ¬ IsWanted l hostname_of f w) hidden)
unfolding filter_and_sort_workers
filter_and_sort_workers-parts l hostname_of workers f =
    let cmp = compare_workers_by_state l hostname_of in
    let p : Worker → Bool = λ w. matches_worker_filter l hostname_of w f in
    let matching = filter p workers in
    let hidden = filter (λ w. not (p w)) workers in
    (
      IsSorted-IsInOrder l hostname_of (sort cmp matching)
          (sort-IsSorted cmp (compare_workers_by_state-IsConsistent l hostname_of) matching),
      sort-All cmp (IsWanted l hostname_of f) matching (
          All-map_of (λ w. (matches_worker_filter_iff l hostname_of f w).0) matching
            (All-filter p workers)),
      (
        hidden,
        Perm.trans (filter-parts p workers)
            (Perm.append_right hidden (Perm.symm (sort-perm cmp matching))),
        All-map_of
            (λ w gone wanted.
              let kept = (matches_worker_filter_iff l hostname_of f w).1 wanted in ground arith)
            hidden (All-filter (λ w. not (p w)) workers),
      ),
    )
