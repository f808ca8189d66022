-- ===== src/InspectObject/Folders.antt =====
-- The folder of a key: `objectFolder` of frontend/src/lib/inspect-object.ts.
use garage_admin_console.Base.{
  ℕ, zero, suc, sym, ◌≡◌, refl, ◌⊎◌, inl, inr, false, [], ◌∷◌, ◌++◌, Text, arith, Bool-cases, All,
  drop, take, eqb, ltb, ap,
}
use garage_admin_console.InspectObject.{after_last_slash, object_folder}

abbrev IsPlain : Text → Type 0
IsPlain s = All (λ c. eqb c b'/' ≡ false) s

take-append-drop : (n : ℕ) (s : Text) → take n s ++ drop n s ≡ s
take-append-drop zero s = ground arith
take-append-drop (suc n) [] = ground arith
take-append-drop (suc n) (c ∷ s) = ground (arith, take-append-drop n s)

name_IsPlain : (s : Text) → IsPlain (drop (after_last_slash s) s)
name_IsPlain [] = tt
name_IsPlain (c ∷ s) =
    let rest = name_IsPlain s in
    elim (Bool-cases (ltb 0 (after_last_slash s))) [
      | inl later ↦ rw later rest
      | inr here ↦
          let first : after_last_slash s ≡ 0 = ground arith in
          let plain : IsPlain s = rw first at rest in
          elim (Bool-cases (eqb c b'/')) [
            | inl slash ↦ rw (here, slash) plain
            | inr other ↦ rw (here, other) (other, plain)
          ]
    ]

folder_end :
    (s : Text)
    → (after_last_slash s ≡ 0)
      ⊎ ((parent : Text) × (take (after_last_slash s) s ≡ parent ++ (b'/' ∷ [])))
folder_end [] = inl refl
folder_end (c ∷ s) = elim (Bool-cases (ltb 0 (after_last_slash s))) [
  | inl later ↦ elim (folder_end s) [
    | inl first ↦ absurd (ground arith)
    | inr (parent, e) ↦ inr (c ∷ parent, rw later (ap (λ t. c ∷ t) e))
  ]
  | inr here ↦ elim (Bool-cases (eqb c b'/')) [
    | inl slash ↦
        let same : c ≡ b'/' = ground arith in inr ([], rw (here, slash) (ap (λ d. d ∷ []) same))
    | inr other ↦ inl (rw (here, other) refl)
  ]
]

-- A key is its folder and a name without a slash, and the folder is empty or ends with a slash.
pub object_folder-split :
    (key : Text)
    → (name : Text) × (key ≡ object_folder key ++ name)
      × All (λ c. eqb c b'/' ≡ false) name
      × ((object_folder key ≡ []) ⊎ ((parent : Text) × (object_folder key ≡ parent ++ (b'/' ∷ []))))
unfolding object_folder
object_folder-split key = (
  drop (after_last_slash key) key,
  sym (take-append-drop (after_last_slash key) key),
  name_IsPlain key,
  elim (folder_end key) [ inl first ↦ inl (rw first refl) | inr split ↦ inr split ],
)
