-- ===== src/BucketSettings/Editing.antt =====
-- The forms of frontend/src/components/bucket-settings.tsx follow the server, and never over an edit.
use garage_admin_console.Base.{
  ◌≡◌, refl, ap, ◌∙◌, Bool, true, false, ◌⊎◌, inl, inr, List, [], ◌∷◌, Bool-cases,
}
use garage_admin_console.BucketSettings.{ServerForm, reset_to, render_form}

module _ {S F : Type 0} (to_form : S → F) (same_server : S → S → Bool)
    (same_form : F → F → Bool) where
  abbrev pub is_pristine : ServerForm S F → Bool
  is_pristine s = same_form s.form (to_form s.base)

  -- Renders with each server's data in turn.
  abbrev pub renders : List S → ServerForm S F → ServerForm S F
  renders [] s = s
  renders (t ∷ ts) s = renders ts (render_form to_form same_server same_form t s)

  render_form-edited :
      (t : S) (s : ServerForm S F)
      → is_pristine s ≡ false
      → render_form to_form same_server same_form t s ≡ s
  unfolding render_form
  render_form-edited t s e = rw e refl

  render_form-pristine :
      ((f : F) → same_form f f ≡ true)
      → ((t : S) → same_server t t ≡ true)
      → (t : S) (s : ServerForm S F) → is_pristine s ≡ true
      → (is_pristine (render_form to_form same_server same_form t s) ≡ true)
        × (same_server t (render_form to_form same_server same_form t s).base ≡ true)
  unfolding render_form reset_to
  render_form-pristine form_refl server_refl t s e = elim (Bool-cases (same_server t s.base)) [
    | inl same ↦ rw (e, same) (e, same)
    | inr other ↦ rw (e, other) (form_refl (to_form t), server_refl t)
  ]

  renders-edited : (ts : List S) (s : ServerForm S F) → is_pristine s ≡ false → renders ts s ≡ s
  renders-edited [] s e = refl
  renders-edited (t ∷ ts) s e = ap (renders ts) (render_form-edited t s e) ∙ renders-edited ts s e

  renders-pristine :
      ((f : F) → same_form f f ≡ true)
      → ((t : S) → same_server t t ≡ true)
      → (ts : List S) (s : ServerForm S F) → is_pristine s ≡ true
      → is_pristine (renders ts s) ≡ true
  renders-pristine form_refl server_refl [] s e = e
  renders-pristine form_refl server_refl (t ∷ ts) s e =
      renders-pristine form_refl server_refl ts _
        (render_form-pristine form_refl server_refl t s e).0

  -- However often the server's data changes, a form that was edited keeps its edits and its base,
  -- and one that was not shows the last data, unedited. The comparisons are reflexive, as those of
  -- JSON.stringify's results are.
  pub renders-follow :
      ((f : F) → same_form f f ≡ true)
      → ((t : S) → same_server t t ≡ true)
      → (ts : List S) (last : S) (s : ServerForm S F)
      → ((is_pristine s ≡ false)
          × (render_form to_form same_server same_form last (renders ts s) ≡ s))
        ⊎ ((is_pristine s ≡ true)
            × (is_pristine (render_form to_form same_server same_form last (renders ts s)) ≡ true)
            × (same_server last (render_form to_form same_server same_form last (renders ts s)).base
                ≡ true))
  renders-follow form_refl server_refl ts last s = elim (Bool-cases (is_pristine s)) [
    | inl e ↦
        let (follows, shows) =
          render_form-pristine form_refl server_refl last (renders ts s)
            (renders-pristine form_refl server_refl ts s e) in
        inr (e, follows, shows)
    | inr e ↦ inl (
      e,
      ap (render_form to_form same_server same_form last) (renders-edited ts s e)
          ∙ render_form-edited last s e,
    )
  ]
