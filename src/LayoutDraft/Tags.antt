-- ===== src/LayoutDraft/Tags.antt =====
-- The tags field of the layout form: `parseTags` of frontend/src/lib/layout-draft.ts reads what
-- `role.tags.join(', ')` in `fieldsOf` writes.
use garage_admin_console.Base.{
  ◌≡◌, refl, false, not, List, [], ◌∷◌, ◌++◌, map, Text, text, join, split, extend, split-eq_self,
  split-append, trim, is_space, All, is_empty, filter, eqb, ap, ◌∙◌,
}
use garage_admin_console.LayoutDraft.{parse_tags}

-- A tag that the field can hold: not empty, without a comma, and without white space around it.
abbrev pub IsTag : Text → Type 0
IsTag t = (is_empty t ≡ false) × All (λ c. eqb c b',' ≡ false) t × (trim t ≡ t)

clean : List Text → List Text
clean pieces = filter (λ t. not (is_empty t)) (map trim pieces)

clean-extend : (pieces : List Text) → clean (extend b' ' pieces) ≡ clean pieces
unfolding clean trim is_space
clean-extend [] = refl
clean-extend (p ∷ ps) = refl

parse_tags-append : (t s : Text) → IsTag t → parse_tags (t ++ (text ", " ++ s)) ≡ t ∷ parse_tags s
unfolding parse_tags text clean
parse_tags-append t s (filled, plain, trimmed) =
    rw (split-append b',' t (b' ' ∷ s) plain, trimmed, filled)
      (ap (λ rest. t ∷ rest) (clean-extend (split b',' s)))

parse_tags-nil : parse_tags [] ≡ []
unfolding parse_tags trim
parse_tags-nil = refl

parse_tags-one : (t : Text) → IsTag t → parse_tags t ≡ t ∷ []
unfolding parse_tags
parse_tags-one t (filled, plain, trimmed) = rw (split-eq_self b',' t plain, trimmed, filled) refl

-- The field gives back the tags that it was filled with, where each of them is one that the field
-- can hold.
pub parse_tags-join :
    (tags : List Text) → All IsTag tags → parse_tags (join (text ", ") tags) ≡ tags
parse_tags-join [] h = parse_tags-nil
parse_tags-join (t ∷ []) (p, h) = parse_tags-one t p
parse_tags-join (t ∷ u ∷ ts) (p, h) =
    parse_tags-append t (join (text ", ") (u ∷ ts)) p
    ∙ ap (λ rest. t ∷ rest) (parse_tags-join (u ∷ ts) h)
