-- ===== src/Combobox/Highlight.antt =====
-- The highlight of frontend/src/components/combobox.tsx under the arrow keys.
use native.Mathlib.Nat.{mod-lt, mod-eq_of_lt, mod_self, add-mod_right}
use mathlib.Core.Option.{some-injective}
use garage_admin_console.Base.{
  ℕ, ◌+◌, ◌-◌, ◌%◌, ◌<◌, ◌≡◌, refl, ap, ◌∙◌, inl, inr, Option, some, List, [], ◌∷◌, Text, arith,
  length, min, ltb, Bool-cases,
}
use garage_admin_console.Locale.{Locale}
use garage_admin_console.Combobox.{
  ComboboxOption, CustomValue, Combobox, filtered_options, active_index, press, press_at,
  arrow_down, arrow_up,
}

-- The places that the arrow keys highlight next, of `n`
abbrev after : ℕ → ℕ → ℕ
after n i = (i + 1 + n) % n

abbrev before : ℕ → ℕ → ℕ
before n i = (i + n - 1) % n

after-below : (n i : ℕ) → i + 1 < n → after n i ≡ i + 1
after-below n i below = add-mod_right (i + 1) n ∙ mod-eq_of_lt below

after-last : (n i : ℕ) → i + 1 ≡ n → after n i ≡ 0
after-last n i last = add-mod_right (i + 1) n ∙ ap (λ k. k % n) last ∙ mod_self n

before-last : (n i : ℕ) → i ≡ 0 → 0 < n → i + n - 1 < n
before-last n i first filled = omega arith

before-first : (n i : ℕ) → i ≡ 0 → 0 < n → before n i + 1 ≡ n
before-first n i first filled =
    ap (λ k. k + 1) (mod-eq_of_lt (before-last n i first filled)) ∙ omega arith

regroup : (n i : ℕ) → 0 < i → i + n - 1 ≡ i - 1 + n
regroup n i later = omega arith

before-later : (n i : ℕ) → 0 < i → i < n → before n i + 1 ≡ i
before-later n i later below =
    ap (λ k. k % n + 1) (regroup n i later)
    ∙ ap (λ k. k + 1) (add-mod_right (i - 1) n ∙ mod-eq_of_lt (omega arith))
    ∙ omega arith

before-after : (n i : ℕ) → i < n → before n (after n i) ≡ i
before-after n i below = elim (Bool-cases (ltb (i + 1) n)) [
  | inl lt ↦
      ap (before n) (after-below n i (ground arith))
      ∙ omega (arith, before-later n (i + 1) (omega arith) (ground arith))
  | inr ge ↦
      ap (before n) (after-last n i (ground arith))
      ∙ ground (arith, before-first n 0 refl (omega arith))
]

after-before : (n i : ℕ) → i < n → after n (before n i) ≡ i
after-before n i below = elim (Bool-cases (ltb 0 i)) [
  | inl lt ↦
      ap (λ k. (k + n) % n) (before-later n i (ground arith) below)
      ∙ add-mod_right i n
      ∙ mod-eq_of_lt below
  | inr ge ↦
      ap (λ k. (k + n) % n) (before-first n i (ground arith) (omega arith))
      ∙ add-mod_right n n
      ∙ mod_self n
      ∙ ground arith
]

filled : (n i : ℕ) → i < n → 0 < n
filled n i below = omega arith

active_index-below :
    (a i : ℕ) (shown : List ComboboxOption) → active_index a shown ≡ some i → i < length shown
unfolding active_index
active_index-below a i [] h = grind arith
active_index-below a i (o ∷ shown) h = ground (arith, some-injective (min a (length shown)) i h)

active_index-shown :
    (i : ℕ) (shown : List ComboboxOption) → i < length shown → active_index i shown ≡ some i
unfolding active_index
active_index-shown i [] h = grind arith
active_index-shown i (o ∷ shown) h = ap some (omega arith)

module _ (l : Locale) (custom : Option CustomValue) (options : List ComboboxOption)
    (value : Option Text) where
  press-down :
      (c : Combobox) (i : ℕ)
      → active_index c.active (filtered_options l custom options c.query) ≡ some i
      → press l custom options value arrow_down c
        ≡ record c { active = after (length (filtered_options l custom options c.query)) i }
  unfolding press press_at
  press-down c i h = rw h refl

  press-up :
      (c : Combobox) (i : ℕ)
      → active_index c.active (filtered_options l custom options c.query) ≡ some i
      → press l custom options value arrow_up c
        ≡ record c { active = before (length (filtered_options l custom options c.query)) i }
  unfolding press press_at
  press-up c i h = rw h refl

  -- Where an option is highlighted, the up arrow undoes the down arrow and the down arrow undoes the
  -- up arrow: the same option is highlighted again, also over the ends of the list.
  pub press_undo :
      (c : Combobox) (i : ℕ)
      → active_index c.active (filtered_options l custom options c.query) ≡ some i
      → ((press l custom options value arrow_up (press l custom options value arrow_down c)).active
          ≡ i)
        × ((press l custom options value arrow_down
              (press l custom options value arrow_up c)).active
            ≡ i)
  press_undo c i h =
      let shown = filtered_options l custom options c.query in
      let n = length shown in
      let below = active_index-below c.active i shown h in
      let some_shown = filled n i below in
      (
        ap (λ k. (press l custom options value arrow_up k).active) (press-down c i h)
            ∙ ap (λ k. k.active)
                (press-up (record c { active = after n i }) (after n i)
                  (active_index-shown (after n i) shown (mod-lt (i + 1 + n) some_shown)))
            ∙ before-after n i below,
        ap (λ k. (press l custom options value arrow_down k).active) (press-up c i h)
            ∙ ap (λ k. k.active)
                (press-down (record c { active = before n i }) (before n i)
                  (active_index-shown (before n i) shown (mod-lt (i + n - 1) some_shown)))
            ∙ after-before n i below,
      )
