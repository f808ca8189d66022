-- ===== src/Base/Texts.antt =====
-- JavaScript strings as lists of UTF-16 code units: literals, `===`, `trim`, `split` and tests of
-- characters.
use Prim.Native.Char.{code}
use Prim.Native.Nat.{ℕ, ◌+◌, ◌-◌, ◌/◌, ◌%◌}
use Prim.Native.String.{String}
use mathlib.Core.Path.{◌≡◌, refl}
use mathlib.Core.Logic.{◌↔◌, ◌≢◌}
use mathlib.Core.Bool.{Bool, true, false, not, ◌&&◌, ◌||◌}
use mathlib.Core.List.{List, [], ◌∷◌, ◌++◌, reverse}
use native.Mathlib.Omega.{arith}
use garage_admin_console.Base.Tests.{ltb, leb, eqb, if◌then◌else◌}
use garage_admin_console.Base.Lists.{any, any-append, All, filter}

abbrev pub Text : Type 0
Text = List ℕ

-- The code units of a code point: a surrogate pair above U+FFFF.
abbrev code_units : ℕ → Text
code_units c =
    if ltb c 0x10000
    then c ∷ []
    else (0xD800 + (c - 0x10000) / 0x400) ∷ (0xDC00 + (c - 0x10000) % 0x400) ∷ []

-- A literal. It stays folded in proofs, so that long messages stay small.
unfoldable pub text : String → Text
text String.[] = []
text (String.◌∷◌ c s) = code_units (code c) ++ text s

-- `s === t`
infix 50 ◌==◌
unfoldable pub ◌==◌ : Text → Text → Bool
[] == [] = true
[] == (d ∷ t) = false
(c ∷ s) == [] = false
(c ∷ s) == (d ∷ t) = eqb c d && s == t

pub ==-eq : (s t : Text) → (s == t) ≡ true → s ≡ t
unfolding ◌==◌
==-eq [] [] h = refl
==-eq [] (d ∷ t) h = cc
==-eq (c ∷ s) [] h = cc
==-eq (c ∷ s) (d ∷ t) h = ground (arith, ==-eq s t)

pub ==_refl : (s : Text) → (s == s) ≡ true
unfolding ◌==◌
==_refl [] = refl
==_refl (c ∷ s) = ground (arith, ==_refl s)

pub ==_iff : (s t : Text) → ((s == t) ≡ true) ↔ (s ≡ t)
==_iff s t = (==-eq s t, (λ e. ground (arith, ==_refl s)))

-- `xs.includes(s)`, and `xs.has(s)` of a `Set`
abbrev pub contains : List Text → Text → Bool
contains xs s = any (λ x. x == s) xs

-- `WhiteSpace` and `LineTerminator` of ECMAScript: what `trim` removes.
unfoldable pub is_space : ℕ → Bool
is_space c =
    (leb 9 c && leb c 13)
    || eqb c 0x20
    || eqb c 0xA0
    || eqb c 0x1680
    || (leb 0x2000 c && leb c 0x200A)
    || eqb c 0x2028
    || eqb c 0x2029
    || eqb c 0x202F
    || eqb c 0x205F
    || eqb c 0x3000
    || eqb c 0xFEFF

abbrev pub trim_start : Text → Text
trim_start [] = []
trim_start (c ∷ s) = let rest = trim_start s in if is_space c then rest else c ∷ s

-- `s.trim()`
unfoldable pub trim : Text → Text
unfolding is_space
trim s = reverse (trim_start (reverse (trim_start s)))

-- `s.startsWith(t)`
abbrev pub starts_with : Text → Text → Bool
starts_with s [] = true
starts_with [] (d ∷ t) = false
starts_with (c ∷ s) (d ∷ t) = eqb c d && starts_with s t

-- `s.includes(t)`
abbrev pub includes : Text → Text → Bool
includes [] t = starts_with [] t
includes (c ∷ s) t = starts_with (c ∷ s) t || includes s t

-- No text stands twice.
abbrev pub IsDistinct : List Text → Type 0
IsDistinct [] = Unit
IsDistinct (s ∷ ss) = All (λ t. s ≢ t) ss × IsDistinct ss

pub contains-append :
    (ss ts : List Text) (t : Text) → contains (ss ++ ts) t ≡ (contains ss t || contains ts t)
contains-append ss ts t = any-append (λ x. x == t) ss ts

-- `ss.join(sep)`
abbrev pub join : Text → List Text → Text
join sep [] = []
join sep (s ∷ []) = s
join sep (s ∷ t ∷ ss) = s ++ (sep ++ join sep (t ∷ ss))

-- A code unit in front of the first piece.
abbrev pub extend : ℕ → List Text → List Text
extend c [] = (c ∷ []) ∷ []
extend c (piece ∷ pieces) = (c ∷ piece) ∷ pieces

-- `s.split(c)` at a single code unit.
abbrev pub split : ℕ → Text → List Text
split sep [] = [] ∷ []
split sep (c ∷ s) = let rest = split sep s in if eqb c sep then [] ∷ rest else extend c rest

pub split-eq_self : (sep : ℕ) (s : Text) → All (λ c. eqb c sep ≡ false) s → split sep s ≡ s ∷ []
split-eq_self sep [] h = refl
split-eq_self sep (c ∷ s) (other, h) = rw (split-eq_self sep s h, other) refl

pub split-append :
    (sep : ℕ) (s t : Text)
    → All (λ c. eqb c sep ≡ false) s
    → split sep (s ++ (sep ∷ t)) ≡ s ∷ split sep t
split-append sep [] t h = ground arith
split-append sep (c ∷ s) t (other, h) = rw (split-append sep s t h, other) refl

pub contains-filter :
    (p : Text → Bool) (ss : List Text) (t : Text)
    → contains (filter p ss) t ≡ (contains ss t && p t)
contains-filter p [] t = refl
contains-filter p (s ∷ ss) t = grind (arith, contains-filter p ss t, ==-eq s t)

-- `[...new Set(ss)]`: the first occurrence of each text, in order.
unfoldable pub dedupe : List Text → List Text
dedupe [] = []
dedupe (s ∷ ss) = s ∷ filter (λ t. not (s == t)) (dedupe ss)

pub contains-dedupe : (ss : List Text) (t : Text) → contains (dedupe ss) t ≡ contains ss t
unfolding dedupe
contains-dedupe [] t = refl
contains-dedupe (s ∷ ss) t =
    grind (arith, contains-filter (λ u. not (s == u)) (dedupe ss) t, contains-dedupe ss t)
