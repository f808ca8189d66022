-- ===== src/LayoutTracker/Skipping.antt =====
-- To which versions frontend/src/components/layout-update-tracker.tsx lets dead nodes be skipped.
use garage_admin_console.Base.{
  ℕ, ◌≡◌, refl, ap, ◌∙◌, Bool, ◌&&◌, ◌||◌, List, [], ◌∷◌, map, arith, ltb, leb, eqb, filter, any,
  min,
}
use garage_admin_console.Base.Sorting.{sort, sort-any, descending}
use garage_admin_console.LayoutTracker.{
  LayoutVersionInfo, LayoutHistory, is_live, live_versions, min_of, targets_of, skip_targets,
}

any-map {ℓ κ} :
    {A : Type ℓ} {B : Type κ} (p : B → Bool) (f : A → B) (xs : List A)
    → any p (map f xs) ≡ any (λ x. p (f x)) xs
any-map p f [] = refl
any-map p f (x ∷ xs) = ap (λ b. p (f x) || b) (any-map p f xs)

-- A filter keeps a number if it stands in the list and passes the test.
any-filter :
    (p : ℕ → Bool) (n : ℕ) (vs : List ℕ)
    → any (λ v. eqb v n) (filter p vs) ≡ (any (λ v. eqb v n) vs && p n)
any-filter p n [] = refl
any-filter p n (v ∷ vs) = grind (arith, any-filter p n vs)

min-ltb : (a b n : ℕ) → ltb (min a b) n ≡ (ltb a n || ltb b n)
min-ltb a b n = ground arith

min_of-ltb : (n v : ℕ) (vs : List ℕ) → ltb (min_of v vs) n ≡ any (λ u. ltb u n) (v ∷ vs)
unfolding min_of
min_of-ltb n v [] = ground arith
min_of-ltb n v (w ∷ vs) = min-ltb v (min_of w vs) n ∙ ap (λ b. ltb v n || b) (min_of-ltb n w vs)

targets_of-any :
    (c n : ℕ) (vs : List ℕ)
    → any (λ v. eqb v n) (targets_of c vs)
      ≡ (any (λ v. eqb v n) vs && (any (λ v. ltb v n) vs && leb n c))
targets_of-any c n [] = refl
targets_of-any c n (v ∷ []) = ground arith
targets_of-any c n (v ∷ w ∷ vs) =
    any-filter (λ u. ltb (min_of v (w ∷ vs)) u && leb u c) n (v ∷ w ∷ vs)
    ∙ ap (λ b. any (λ u. eqb u n) (v ∷ w ∷ vs) && (b && leb n c)) (min_of-ltb n v (w ∷ vs))

-- A version is offered for skipping dead nodes exactly if it is that of a live layout, a live layout
-- is older, and it is not newer than the current version: in particular none is offered while fewer
-- than two layouts are live.
pub skip_targets-any :
    (h : LayoutHistory) (n : ℕ)
    → any (λ v. eqb v n) (skip_targets h) ≡ (
        any (λ v. eqb v.version n) (filter is_live h.versions)
        && (any (λ v. ltb v.version n) (filter is_live h.versions) && leb n h.current_version))
unfolding skip_targets live_versions
skip_targets-any h n =
    let live = filter is_live h.versions in
    let newest_first = sort (descending (λ (v : LayoutVersionInfo). v.version)) live in
    let versions = λ (p : ℕ → Bool).
      any-map p (λ (v : LayoutVersionInfo). v.version) newest_first
      ∙ sort-any (descending (λ v. v.version)) (λ v. p v.version) live in
    targets_of-any h.current_version n (map (λ v. v.version) newest_first)
    ∙ rw (versions (λ v. eqb v n), versions (λ v. ltb v n)) refl
