-- ===== src/Base/Maps.antt =====
-- `Map`, and plain objects read by `Object.entries`: association lists in insertion order. Setting
-- a key that is there keeps its place.
use Prim.Native.Nat.{ℕ, ◌≤◌, max}
use mathlib.Core.Path.{◌≡◌, refl}
use mathlib.Core.Bool.{not}
use mathlib.Core.Option.{Option, none, some}
use mathlib.Core.List.{List, [], ◌∷◌, map}
use native.Mathlib.Omega.{arith}
use garage_admin_console.Base.Tests.{if◌then◌else◌}
use garage_admin_console.Base.Lists.{filter, length}
use garage_admin_console.Base.Texts.{Text, ◌==◌, ==_iff}

abbrev pub Entries {ℓ} : Type ℓ → Type ℓ
Entries V = List (Text × V)

module _ {ℓ} {V : Type ℓ} where
  -- `m.get(k)`
  unfoldable pub get : Text → List (Text × V) → Option V
  get k [] = none
  get k ((j, v) ∷ m) = if j == k then some v else get k m

  -- `m.set(k, v)`
  unfoldable pub put : Text → V → List (Text × V) → List (Text × V)
  put k v [] = (k, v) ∷ []
  put k v ((j, w) ∷ m) = if j == k then (j, v) ∷ m else (j, w) ∷ put k v m

  -- `m.delete(k)`
  unfoldable pub delete : Text → List (Text × V) → List (Text × V)
  delete k m = filter (λ e. not (e.0 == k)) m

  -- `[...m.values()]`
  abbrev pub values : List (Text × V) → List V
  values m = map (λ e. e.1) m

  abbrev pub keys : List (Text × V) → List Text
  keys m = map (λ e. e.0) m

  pub get-put :
      (k j : Text) (v : V) (m : List (Text × V))
      → get j (put k v m) ≡ (if k == j then some v else get j m)
  unfolding get put
  get-put k j v [] = refl
  get-put k j v ((i, w) ∷ m) = ground (arith, ==_iff k j, ==_iff i k, ==_iff i j, get-put k j v m)

  pub get-delete :
      (k j : Text) (m : List (Text × V)) → get j (delete k m) ≡ (if k == j then none else get j m)
  unfolding get delete
  get-delete k j [] = ground arith
  get-delete k j ((i, w) ∷ m) = ground (arith, ==_iff k j, ==_iff i k, ==_iff i j, get-delete k j m)

  -- `new Map(entries)`
  unfoldable pub from_entries : List (Text × V) → List (Text × V) → List (Text × V)
  from_entries m [] = m
  from_entries m ((k, v) ∷ es) = from_entries (put k v m) es

  -- `const g = m.get(k)`, then `m.set(k, f(g))`, or the same by changing `g` in place.
  unfoldable pub upsert : Text → (Option V → V) → List (Text × V) → List (Text × V)
  upsert k f [] = (k, f none) ∷ []
  upsert k f ((j, w) ∷ m) = if j == k then (j, f (some w)) ∷ m else (j, w) ∷ upsert k f m

  -- How often a key stands in the map.
  abbrev pub key_count : Text → List (Text × V) → ℕ
  key_count k m = length (filter (λ e. e.0 == k) m)

  -- No key stands in it twice.
  abbrev pub HasDistinctKeys : List (Text × V) → Type 0
  HasDistinctKeys m = (k : Text) → key_count k m ≤ 1

  key_count-upsert :
      (k j : Text) (f : Option V → V) (m : List (Text × V))
      → key_count j (upsert k f m) ≡ (if k == j then max 1 (key_count j m) else key_count j m)
  unfolding upsert
  key_count-upsert k j f [] = ground arith
  key_count-upsert k j f ((i, w) ∷ m) =
      ground (arith, ==_iff k j, ==_iff i k, ==_iff i j, key_count-upsert k j f m)

  pub upsert-HasDistinctKeys :
      (k : Text) (f : Option V → V) (m : List (Text × V))
      → HasDistinctKeys m
      → HasDistinctKeys (upsert k f m)
  upsert-HasDistinctKeys k f m h j = ground (arith, h j, key_count-upsert k j f m)
