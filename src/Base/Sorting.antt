-- ===== src/Base/Sorting.antt =====
-- `Array.prototype.sort`: stable sorting by a comparator, as insertion sort. A comparator's number
-- is read as an `Ordering`; under a consistent comparator every stable sort gives this result.
use Prim.Native.Nat.{ℕ, Ordering, compare}
use mathlib.Core.Path.{◌≡◌, refl}
use mathlib.Core.Logic.{◌≢◌, inl, inr}
use mathlib.Core.Bool.{Bool, true, ◌&&◌, ◌||◌}
use mathlib.Core.List.{List, [], ◌∷◌, Perm}
use mathlib.Core.List.Perm
use native.Mathlib.Omega.{arith}
use garage_admin_console.Base.Tests.{if◌then◌else◌, is_gt, negate, or_then, Bool-cases}
use garage_admin_console.Base.Lists.{all, any, All, All-map_of, filter, length}

abbrev pub Comparator {ℓ} : Type ℓ → Type ℓ
Comparator A = A → A → Ordering

-- What a comparator must satisfy for the order of a sorted array to be defined.
pub record IsConsistent {ℓ} {A : Type ℓ} (cmp : A → A → Ordering) : Type ℓ where
  pub swap : (a b : A) → cmp b a ≡ negate (cmp a b)
  pub trans : (a b c : A) → cmp a b ≢ Ordering.gt → cmp b c ≢ Ordering.gt → cmp a c ≢ Ordering.gt

module _ {ℓ} {A : Type ℓ} (cmp : A → A → Ordering) where
  unfoldable pub insert : A → List A → List A
  insert x [] = x ∷ []
  insert x (y ∷ ys) = let rest = insert x ys in if is_gt (cmp x y) then y ∷ rest else x ∷ y ∷ ys

  unfoldable pub sort : List A → List A
  unfolding insert
  sort [] = []
  sort (x ∷ xs) = insert x (sort xs)

  -- No element stands before a smaller one.
  abbrev pub IsSorted : List A → Type ℓ
  IsSorted [] = Unit
  IsSorted (x ∷ xs) = All (λ y. cmp x y ≢ Ordering.gt) xs × IsSorted xs

  insert-perm : (x : A) (ys : List A) → Perm (insert x ys) (x ∷ ys)
  unfolding insert
  insert-perm x [] = Perm.rfl
  insert-perm x (y ∷ ys) = elim (Bool-cases (is_gt (cmp x y))) [
    | inl later ↦ rw later (Perm.trans (Perm.cons y (insert-perm x ys)) (Perm.swap x y ys))
    | inr here ↦ rw here Perm.rfl
  ]

  -- Sorting rearranges.
  pub sort-perm : (xs : List A) → Perm (sort xs) xs
  unfolding sort
  sort-perm [] = Perm.rfl
  sort-perm (x ∷ xs) = Perm.trans (insert-perm x (sort xs)) (Perm.cons x (sort-perm xs))

  insert-All {κ} : (P : A → Type κ) (x : A) (ys : List A) → P x → All P ys → All P (insert x ys)
  unfolding insert
  insert-All P x [] p h = (p, tt)
  insert-All P x (y ∷ ys) p (q, h) = elim (Bool-cases (is_gt (cmp x y))) [
    | inl later ↦ rw later (q, insert-All P x ys p h)
    | inr here ↦ rw here (p, (q, h))
  ]

  pub sort-All {κ} : (P : A → Type κ) (xs : List A) → All P xs → All P (sort xs)
  unfolding sort
  sort-All P [] h = tt
  sort-All P (x ∷ xs) (p, h) = insert-All P x (sort xs) p (sort-All P xs h)

  length-insert : (x : A) (ys : List A) → length (insert x ys) ≡ length (x ∷ ys)
  unfolding insert
  length-insert x [] = refl
  length-insert x (y ∷ ys) = ground (arith, length-insert x ys)

  pub length-sort : (xs : List A) → length (sort xs) ≡ length xs
  unfolding sort
  length-sort [] = refl
  length-sort (x ∷ xs) = omega (arith, length-insert x (sort xs), length-sort xs)

  insert-count :
      (p : A → Bool) (x : A) (ys : List A)
      → length (filter p (insert x ys)) ≡ length (filter p (x ∷ ys))
  unfolding insert
  insert-count p x [] = refl
  insert-count p x (y ∷ ys) = ground (arith, insert-count p x ys)

  -- As many elements pass a test after sorting as before.
  pub sort-count : (p : A → Bool) (xs : List A) → length (filter p (sort xs)) ≡ length (filter p xs)
  unfolding sort
  sort-count p [] = refl
  sort-count p (x ∷ xs) = ground (arith, insert-count p x (sort xs), sort-count p xs)

  insert-all : (p : A → Bool) (x : A) (ys : List A) → all p (insert x ys) ≡ (p x && all p ys)
  unfolding insert
  insert-all p x [] = refl
  insert-all p x (y ∷ ys) = ground (arith, insert-all p x ys)

  pub sort-all : (p : A → Bool) (xs : List A) → all p (sort xs) ≡ all p xs
  unfolding sort
  sort-all p [] = refl
  sort-all p (x ∷ xs) = ground (arith, insert-all p x (sort xs), sort-all p xs)

  insert-any : (p : A → Bool) (x : A) (ys : List A) → any p (insert x ys) ≡ (p x || any p ys)
  unfolding insert
  insert-any p x [] = refl
  insert-any p x (y ∷ ys) = ground (arith, insert-any p x ys)

  pub sort-any : (p : A → Bool) (xs : List A) → any p (sort xs) ≡ any p xs
  unfolding sort
  sort-any p [] = refl
  sort-any p (x ∷ xs) = ground (arith, insert-any p x (sort xs), sort-any p xs)

  insert-ne-nil : (x : A) (ys : List A) → insert x ys ≢ []
  unfolding insert
  insert-ne-nil x [] = cc
  insert-ne-nil x (y ∷ ys) = ground arith

  pub sort-ne-nil : (xs : List A) → xs ≢ [] → sort xs ≢ []
  unfolding sort
  sort-ne-nil [] h = h
  sort-ne-nil (x ∷ xs) h = insert-ne-nil x (sort xs)

  module _ (c : IsConsistent cmp) where
    insert-IsSorted : (x : A) (ys : List A) → IsSorted ys → IsSorted (insert x ys)
    unfolding insert
    insert-IsSorted x [] s = (tt, tt)
    insert-IsSorted x (y ∷ ys) (below, s) = elim (Bool-cases (is_gt (cmp x y))) [
      | inl later ↦ rw later (
        insert-All (λ z. cmp y z ≢ Ordering.gt) x ys (ground (arith, c.swap x y)) below,
        insert-IsSorted x ys s,
      )
      | inr here ↦
          let first : cmp x y ≢ Ordering.gt = ground arith in
          rw here ((first, All-map_of (λ z h. c.trans x y z first h) ys below), (below, s))
    ]

    -- Under a consistent comparator the result is sorted.
    pub sort-IsSorted : (xs : List A) → IsSorted (sort xs)
    unfolding sort
    sort-IsSorted [] = tt
    sort-IsSorted (x ∷ xs) = insert-IsSorted x (sort xs) (sort-IsSorted xs)

  -- A sort by a comparator that never moves anything is the identity.
  pub sort-eq_self : (xs : List A) → IsSorted xs → sort xs ≡ xs
  unfolding sort insert
  sort-eq_self [] s = refl
  sort-eq_self (x ∷ []) s = refl
  sort-eq_self (x ∷ y ∷ xs) ((h, hs), s) = rw (sort-eq_self (y ∷ xs) s) (ground arith)

  -- Stability: of a class of elements that `cmp` calls equal, the order stays.
  insert-stable :
      (p : A → Bool) (x : A) (ys : List A)
      → ((y : A) → p x ≡ true → p y ≡ true → cmp x y ≡ Ordering.eq)
      → filter p (insert x ys) ≡ filter p (x ∷ ys)
  unfolding insert
  insert-stable p x [] same = refl
  insert-stable p x (y ∷ ys) same = ground (arith, insert-stable p x ys same, same y)

  pub sort-stable :
      (p : A → Bool) (xs : List A)
      → ((x y : A) → p x ≡ true → p y ≡ true → cmp x y ≡ Ordering.eq)
      → filter p (sort xs) ≡ filter p xs
  unfolding sort
  sort-stable p [] same = refl
  sort-stable p (x ∷ xs) same =
      ground (arith, insert-stable p x (sort xs) (same x), sort-stable p xs same)

-- Comparators that are built from others: `c(a, b) || d(a, b)`, `f(a) - f(b)` and `f(b) - f(a)`.
module _ {ℓ} {A : Type ℓ} where
  abbrev pub then_by : Comparator A → Comparator A → Comparator A
  then_by c d a b = or_then (c a b) (d a b)

  abbrev pub ascending : (A → ℕ) → Comparator A
  ascending f a b = compare (f a) (f b)

  abbrev pub descending : (A → ℕ) → Comparator A
  descending f a b = compare (f b) (f a)

  abbrev pub on {κ} : {B : Type κ} → (A → B) → Comparator B → Comparator A
  on f c a b = c (f a) (f b)

  pub then_by-IsConsistent :
      (c d : Comparator A) → IsConsistent c → IsConsistent d → IsConsistent (then_by c d)
  then_by-IsConsistent c d h k = record {
    swap = λ a b. ground (arith, h.swap a b, k.swap a b);
    trans = λ x y z p q. ground (
      arith,
      h.trans x y z,
      k.trans x y z,
      h.trans y z x,
      h.trans z x y,
      h.swap x y,
      h.swap y z,
      h.swap x z,
    );
  }

  pub ascending-IsConsistent : (f : A → ℕ) → IsConsistent (ascending f)
  ascending-IsConsistent f = record {
    swap = λ a b. ground arith;
    trans = λ x y z p q. ground arith;
  }

  pub descending-IsConsistent : (f : A → ℕ) → IsConsistent (descending f)
  descending-IsConsistent f = record {
    swap = λ a b. ground arith;
    trans = λ x y z p q. ground arith;
  }

  pub on-IsConsistent {κ} :
      {B : Type κ} (f : A → B) (c : Comparator B) → IsConsistent c → IsConsistent (on f c)
  on-IsConsistent f c h = record {
    swap = λ a b. h.swap (f a) (f b);
    trans = λ x y z. h.trans (f x) (f y) (f z);
  }
