-- ===== src/AdminScopes/Editor.antt =====
-- frontend/src/components/admin-scope-editor.tsx: what a click on endpoints makes of a scope.
use garage_admin_console.Base.{
  ◌≡◌, refl, ap, ◌∙◌, Bool, true, false, not, ◌&&◌, ◌||◌, inl, inr, List, [], ◌∷◌, ◌++◌, arith,
  Text, text, ◌==◌, ==_iff, if◌then◌else◌, contains, contains-append, contains-filter,
  contains-dedupe, dedupe, filter, All, Bool-cases,
}
use garage_admin_console.AdminScopes.{
  all_scope, admin_scope_categories, all_admin_endpoints, unknown_scope_entries,
}

-- `next.add(e)` or `next.delete(e)`; a `Set` is the list of its members, in order
unfoldable pub toggle_entry : Bool → Text → List Text → List Text
toggle_entry true e next = if contains next e then next else next ++ (e ∷ [])
toggle_entry false e next = filter (λ s. not (s == e)) next

-- The loop of `setEndpoints`
unfoldable pub toggle_entries : Bool → List Text → List Text → List Text
toggle_entries on [] next = next
toggle_entries on (e ∷ es) next = toggle_entries on es (toggle_entry on e next)

-- `next` after the loop
unfoldable pub next_scope : List Text → List Text → Bool → List Text
next_scope value endpoints on =
    toggle_entries on endpoints (filter (λ s. not (s == all_scope)) (dedupe value))

-- `setEndpoints`: what it hands to `onChange`
unfoldable pub set_endpoints : List Text → List Text → Bool → List Text
set_endpoints value endpoints on =
    filter (λ e. contains (next_scope value endpoints on) e) all_admin_endpoints
    ++ unknown_scope_entries (next_scope value endpoints on)

==_swap : (s t : Text) → (s == t) ≡ (t == s)
==_swap s t = elim (Bool-cases (s == t)) [
  | inl same ↦ rw ((==_iff s t).0 same) refl
  | inr other ↦ elim (Bool-cases (t == s)) [
    | inl same ↦ rw ((==_iff t s).0 same) refl
    | inr neither ↦ rw (other, neither) refl
  ]
]

contains-toggle_entry :
    (on : Bool) (e : Text) (next : List Text) (s : Text)
    → contains (toggle_entry on e next) s ≡ (if e == s then on else contains next s)
unfolding toggle_entry
contains-toggle_entry true e next s = elim (Bool-cases (contains next e)) [
  | inl there ↦ elim (Bool-cases (e == s)) [
    | inl same ↦ rw (there, same) (rw ((==_iff e s).0 same) at there)
    | inr other ↦ rw (there, other) refl
  ]
  | inr new ↦ rw new (contains-append next (e ∷ []) s ∙ swapped (contains next s) (e == s))
]
  where
    swapped : (b c : Bool) → (b || (c || false)) ≡ (if c then true else b)
    swapped b c = ground arith
contains-toggle_entry false e next s =
    contains-filter (λ t. not (t == e)) next s
    ∙ rw (==_swap s e) (removed (contains next s) (e == s))
  where
    removed : (b c : Bool) → (b && not c) ≡ (if c then false else b)
    removed b c = ground arith

contains-toggle_entries :
    (on : Bool) (es next : List Text) (s : Text)
    → contains (toggle_entries on es next) s ≡ (if contains es s then on else contains next s)
unfolding toggle_entries
contains-toggle_entries on [] next s = refl
contains-toggle_entries on (e ∷ es) next s = ground (
  arith,
  contains-toggle_entries on es (toggle_entry on e next) s,
  contains-toggle_entry on e next s,
)

-- `*` is no endpoint.
all_scope-no_endpoint : contains all_admin_endpoints all_scope ≡ false
unfolding all_admin_endpoints admin_scope_categories ◌==◌ text
all_scope-no_endpoint = refl

contains-next_scope :
    (value endpoints : List Text) (on : Bool) (s : Text)
    → contains (next_scope value endpoints on) s
      ≡ (if contains endpoints s then on else (contains value s && not (s == all_scope)))
unfolding next_scope
contains-next_scope value endpoints on s =
    contains-toggle_entries on endpoints (filter (λ t. not (t == all_scope)) (dedupe value)) s
    ∙ ap (λ b. if contains endpoints s then on else b)
        (contains-filter (λ t. not (t == all_scope)) (dedupe value) s
          ∙ ap (λ b. b && not (s == all_scope)) (contains-dedupe value s))

contains-known :
    (es : List Text) (s : Text)
    → All (λ e. contains all_admin_endpoints e ≡ true) es
    → contains es s ≡ true
    → contains all_admin_endpoints s ≡ true
contains-known [] s h there = cc
contains-known (e ∷ es) s (known, h) there = elim (Bool-cases (e == s)) [
  | inl same ↦ rw⁻¹ ((==_iff e s).0 same) known
  | inr other ↦ contains-known es s h (rw other at there)
]

no_endpoint : (s : Text) → (s == all_scope) ≡ true → contains all_admin_endpoints s ≡ false
no_endpoint s star = rw ((==_iff s all_scope).0 star) all_scope-no_endpoint

-- What is kept of an entry: of a known one by the order of the endpoints, of another by itself.
kept_entry :
    (switched known had star on : Bool)
    → (switched ≡ true → known ≡ true)
    → (star ≡ true → known ≡ false)
    → ((known && (if switched then on else (had && not star)))
        || ((if switched then on else (had && not star)) && (not star && not known)))
      ≡ (if switched then on else (had && not star))
kept_entry true true had star on h k = ground arith
kept_entry true false had star on h k = absurd (ground (arith, h refl))
kept_entry false known had star on h k = ground arith

-- Switching endpoints that the console knows on or off gives a scope without `*`, with these
-- endpoints exactly if they were switched on, and with every other entry, known or not, exactly if
-- it was there.
pub contains-set_endpoints :
    (value endpoints : List Text) (on : Bool) (s : Text)
    → All (λ e. contains all_admin_endpoints e ≡ true) endpoints
    → contains (set_endpoints value endpoints on) s
      ≡ (if contains endpoints s then on else (contains value s && not (s == all_scope)))
unfolding set_endpoints unknown_scope_entries
contains-set_endpoints value endpoints on s known =
    let next = next_scope value endpoints on in
    contains-append (filter (λ e. contains next e) all_admin_endpoints) _ s
    ∙ rw
        (
          contains-filter (λ e. contains next e) all_admin_endpoints s,
          contains-filter (λ t. not (t == all_scope) && not (contains all_admin_endpoints t)) next
              s,
          contains-next_scope value endpoints on s,
        )
        (kept_entry (contains endpoints s) (contains all_admin_endpoints s) (contains value s)
          (s == all_scope) on (contains-known endpoints s known) (no_endpoint s))
