-- ===== src/ObjectList/Parents.antt =====
-- The way up from a prefix: `parentPrefix` of frontend/src/components/object-browser.tsx.
use mathlib.Core.List.{reverse, reverse-append, reverse-reverse}
use garage_admin_console.Base.{
  ◌≢◌, ◌≡◌, refl, ap, ◌∙◌, false, List, [], ◌∷◌, ◌++◌, Text, text, join, split, split-eq_self,
  split-append, All, eqb, arith, Bool-cases, inl, inr, starts_with, ==_refl, true, not, ◌&&◌, some,
  none, if◌then◌else◌, is_empty,
}
use garage_admin_console.ObjectList.Deletion.{
  parent_prefix, joined_prefix, drop_slash, drop_first, BatchDeleteResult, DeleteError,
  prefix_deleted, prefix_deleted_without_errors, prefix_outcome,
}

-- The name of a folder has no slash.
abbrev pub IsName : Text → Type 0
IsName s = All (λ c. eqb c b'/' ≡ false) s

split-join :
    (s : Text) (ss : List Text)
    → IsName s
    → All IsName ss
    → split b'/' (join (text "/") (s ∷ ss)) ≡ s ∷ ss
unfolding text
split-join s [] h hs = split-eq_self b'/' s h
split-join s (t ∷ ss) h (k, hs) =
    split-append b'/' s (join (b'/' ∷ []) (t ∷ ss)) h ∙ ap (λ rest. s ∷ rest) (split-join t ss k hs)

drop_slash-append : (s : Text) → drop_slash (reverse (s ++ text "/")) ≡ reverse s
unfolding text
drop_slash-append s = rw (reverse-append s (b'/' ∷ [])) refl

drop_last-append :
    (ss : List Text) (s : Text) → reverse (drop_first (reverse (ss ++ (s ∷ [])))) ≡ ss
drop_last-append ss s = rw (reverse-append ss (s ∷ [])) (reverse-reverse ss)

All-snoc {ℓ} :
    {A : Type ℓ} (P : A → Type 0) (xs : List A) (x : A) → All P xs → P x → All P (xs ++ (x ∷ []))
All-snoc P [] x h p = (p, tt)
All-snoc P (y ∷ ys) x (q, h) p = (q, All-snoc P ys x h p)

-- The prefix of some folders is split into their names.
split-joined_prefix :
    (ss : List Text)
    → All IsName ss
    → ss ≢ []
    → split b'/' (reverse (drop_slash (reverse (joined_prefix ss)))) ≡ ss
split-joined_prefix [] h filled = absurd (filled refl)
split-joined_prefix (s ∷ ss) (h, hs) filled =
    let path = join (text "/") (s ∷ ss) in
    ap (λ t. split b'/' (reverse t)) (drop_slash-append path)
    ∙ ap (split b'/') (reverse-reverse path)
    ∙ split-join s ss h hs

append-filled {ℓ} : {A : Type ℓ} (xs : List A) (x : A) → xs ++ (x ∷ []) ≢ []
append-filled [] x = ground arith
append-filled (y ∷ ys) x = ground arith

-- One step up from the prefix of a folder inside of others is the prefix of those others, which is
-- empty if there are none, where no name has a slash.
parent_prefix-joined :
    (folders : List Text) (name : Text)
    → All IsName folders
    → IsName name
    → parent_prefix (joined_prefix (folders ++ (name ∷ []))) ≡ joined_prefix folders
unfolding parent_prefix
parent_prefix-joined folders name h plain =
    let inner = folders ++ (name ∷ []) in
    ap (λ ss. joined_prefix (reverse (drop_first (reverse ss))))
      (split-joined_prefix inner (All-snoc IsName folders name h plain)
        (append-filled folders name))
    ∙ ap joined_prefix (drop_last-append folders name)

joined_prefix-ends :
    (ss : List Text) → ss ≢ [] → starts_with (reverse (joined_prefix ss)) (text "/") ≡ true
unfolding text
joined_prefix-ends [] filled = absurd (filled refl)
joined_prefix-ends (s ∷ ss) filled =
    rw (reverse-append (join (b'/' ∷ []) (s ∷ ss)) (b'/' ∷ [])) refl

outcome_goes_up :
    (target parent : Text) (result : BatchDeleteResult) (errors : List DeleteError)
    → starts_with (reverse target) (text "/") ≡ true
    → parent_prefix target ≡ parent
    → (prefix_outcome target target result errors).1
      ≡ (if is_empty errors && not result.truncated then some parent else none)
unfolding prefix_deleted_without_errors
outcome_goes_up target parent result [] ends up = elim (Bool-cases result.truncated) [
  | inl cut ↦ rw cut refl
  | inr whole ↦ rw (whole, ==_refl target, ends, up) refl
]
outcome_goes_up target parent result (e ∷ errors) ends up = refl

-- When a folder that the page shows is deleted wholly, without an error and without reaching the
-- cap, the page goes to the prefix of the folders around it, which is empty if there are none, where
-- no name has a slash. Where something is left, or an error came, the page stays.
pub prefix_deleted-goes_up :
    (folders : List Text) (name : Text) (result : BatchDeleteResult)
    → All IsName folders
    → IsName name
    → let shown = joined_prefix (folders ++ (name ∷ [])) in
      (prefix_deleted shown shown result).1 ≡ (
        if is_empty result.errors && not result.truncated
        then some (joined_prefix folders)
        else none)
unfolding prefix_deleted
prefix_deleted-goes_up folders name result h plain =
    let inner = folders ++ (name ∷ []) in
    outcome_goes_up (joined_prefix inner) (joined_prefix folders) result result.errors
      (joined_prefix-ends inner (append-filled folders name))
      (parent_prefix-joined folders name h plain)
