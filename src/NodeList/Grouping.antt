-- ===== src/NodeList/Grouping.antt =====
-- What `bucketize` of frontend/src/lib/node-list.ts promise.
use mathlib.Core.List.{perm_middle, append_assoc, append-nil, Permᴰ, Perm-prop, perm_append_comm}
use mathlib.Core.Logic.{∥∥₁_elim}
use mathlib.Core.List.Perm
use garage_admin_console.Base.{
  ◌≤◌, ◌≡◌, refl, ◌≢◌, inl, inr, Bool, List, [], ◌∷◌, ◌++◌, map, Perm, Text, ◌==◌, ==-eq, All,
  filter, length, arith, Bool-cases, Ordering,
}
use garage_admin_console.Base.Maps.{
  upsert, values, HasDistinctKeys, key_count, upsert-HasDistinctKeys,
}
use garage_admin_console.Base.Sorting.{
  IsSorted, IsConsistent, sort, sort-perm, sort-All, sort-ne-nil, sort-count, sort-IsSorted, on,
  then_by-IsConsistent, ascending-IsConsistent, on-IsConsistent,
}
use garage_admin_console.Locale.{Locale}
use garage_admin_console.Nodes.{node_display_name}
use garage_admin_console.NodeList.{
  Bucket, Group, NamedNode, push_item, collect, compare_nodes, compare_groups, sort_items,
  bucketize,
}

abbrev pub members {ℓ} : {A : Type ℓ} → List (Group A) → List A
members [] = []
members (g ∷ gs) = g.items ++ members gs

pub compare_nodes-IsConsistent : (l : Locale) → IsConsistent (compare_nodes l)
compare_nodes-IsConsistent l =
    then_by-IsConsistent _ _
      (on-IsConsistent (λ n. node_display_name n.id n.hostname) l.compare_numeric
        l.compare_numeric-IsConsistent)
      (on-IsConsistent (λ n. n.id) l.compare_text l.compare_text-IsConsistent)

module _ {ℓ} {A : Type ℓ} (l : Locale) (named : A → NamedNode) (bucket_of : A → Bucket) where
  abbrev pub IsFilled : Group A → Type ℓ
  IsFilled g = (g.items ≢ []) × All (λ x. (bucket_of x).key ≡ g.bucket.key) g.items

  -- Groups that hold the items, each once, by the key of its bucket.
  pub record IsGrouping (items : List A) (groups : List (Group A)) : Type ℓ where
    pub complete : Perm (members groups) items
    pub filled : All IsFilled groups
    pub distinct : (k : Text) → length (filter (λ g. g.bucket.key == k) groups) ≤ 1
    pub ordered : IsSorted (compare_groups l named bucket_of) groups
    pub inner : All (λ g. IsSorted (on named (compare_nodes l)) g.items) groups

  abbrev IsEntry : Text × Group A → Type ℓ
  IsEntry e = (e.1.bucket.key ≡ e.0) × IsFilled e.1

  abbrev push : A → List (Text × Group A) → List (Text × Group A)
  push x m = upsert (bucket_of x).key (push_item l named bucket_of x) m

  append-ne-nil : (xs : List A) (x : A) → (xs ++ x ∷ []) ≢ []
  append-ne-nil [] x = cc
  append-ne-nil (y ∷ xs) x = cc

  All-snoc {κ} : (P : A → Type κ) (xs : List A) (x : A) → All P xs → P x → All P (xs ++ x ∷ [])
  All-snoc P [] x h p = (p, tt)
  All-snoc P (y ∷ xs) x (q, h) p = (q, All-snoc P xs x h p)

  push-IsEntry : (x : A) (m : List (Text × Group A)) → All IsEntry m → All IsEntry (push x m)
  unfolding upsert push_item
  push-IsEntry x [] h = ((refl, (cc, (refl, tt))), tt)
  push-IsEntry x ((k, g) ∷ m) ((same, (filled, uniform)), h) =
      elim (Bool-cases (k == (bucket_of x).key)) [
        | inl here ↦
            let key_eq : k ≡ (bucket_of x).key = ==-eq _ _ here in
            rw here ((same, (append-ne-nil g.items x, All-snoc _ g.items x uniform (cc))), h)
        | inr later ↦ rw later ((same, (filled, uniform)), push-IsEntry x m h)
      ]

  push-members :
      (x : A) (m : List (Text × Group A))
      → Perm (members (values (push x m))) (x ∷ members (values m))
  unfolding upsert push_item
  push-members x [] = Perm.rfl
  push-members x ((k, g) ∷ m) = elim (Bool-cases (k == (bucket_of x).key)) [
    | inl here ↦ rw (here, append_assoc) (perm_middle g.items (members (values m)))
    | inr later ↦ rw later (
        Perm.trans (Perm.append_left g.items (push-members x m))
          (perm_middle g.items (members (values m))))
  ]

  collect-IsEntry :
      (m : List (Text × Group A)) (xs : List A)
      → All IsEntry m
      → All IsEntry (collect l named bucket_of m xs)
  unfolding collect
  collect-IsEntry m [] h = h
  collect-IsEntry m (x ∷ xs) h = collect-IsEntry (push x m) xs (push-IsEntry x m h)

  collect-HasDistinctKeys :
      (m : List (Text × Group A)) (xs : List A)
      → HasDistinctKeys m
      → HasDistinctKeys (collect l named bucket_of m xs)
  unfolding collect
  collect-HasDistinctKeys m [] h = h
  collect-HasDistinctKeys m (x ∷ xs) h =
      collect-HasDistinctKeys (push x m) xs (upsert-HasDistinctKeys _ _ m h)

  collect-members :
      (m : List (Text × Group A)) (xs : List A)
      → Perm (members (values (collect l named bucket_of m xs))) (xs ++ members (values m))
  unfolding collect
  collect-members m [] = Perm.rfl
  collect-members m (x ∷ xs) =
      Perm.trans (collect-members (push x m) xs)
        (Perm.trans (Perm.append_left xs (push-members x m)) (perm_middle xs (members (values m))))

  abbrev key_test : Text → Group A → Bool
  key_test k g = g.bucket.key == k

  values-IsFilled : (m : List (Text × Group A)) → All IsEntry m → All IsFilled (values m)
  values-IsFilled [] h = tt
  values-IsFilled (e ∷ m) ((same, filled), h) = (filled, values-IsFilled m h)

  values-count :
      (k : Text) (m : List (Text × Group A))
      → All IsEntry m
      → length (filter (key_test k) (values m)) ≡ key_count k m
  values-count k [] h = refl
  values-count k ((j, g) ∷ m) ((same, filled), h) = ground (arith, values-count k m h)

  members-Permᴰ : {gs hs : List (Group A)} → Permᴰ gs hs → Perm (members gs) (members hs)
  members-Permᴰ Permᴰ.nil = Perm.rfl
  members-Permᴰ (Permᴰ.cons {b = g} e p) = rw e (Perm.append_left g.items (members-Permᴰ p))
  members-Permᴰ (Permᴰ.swap {a = g} {b = h} {l = gs} e f) =
      rw (← e, ← f, ← append_assoc, ← append_assoc)
        (Perm.append_right (members gs) (perm_append_comm g.items h.items))
  members-Permᴰ (Permᴰ.trans p q) = Perm.trans (members-Permᴰ p) (members-Permᴰ q)

  members-perm : {gs hs : List (Group A)} → Perm gs hs → Perm (members gs) (members hs)
  members-perm p = ∥∥₁_elim p Perm-prop members-Permᴰ

  abbrev settle : Group A → Group A
  settle g = sort_items l named bucket_of g

  settle-members : (gs : List (Group A)) → Perm (members (map settle gs)) (members gs)
  unfolding sort_items
  settle-members [] = Perm.rfl
  settle-members (g ∷ gs) = Perm.append (sort-perm _ g.items) (settle-members gs)

  settle-IsFilled : (gs : List (Group A)) → All IsFilled gs → All IsFilled (map settle gs)
  unfolding sort_items
  settle-IsFilled [] h = tt
  settle-IsFilled (g ∷ gs) ((filled, uniform), h) =
      ((sort-ne-nil _ g.items filled, sort-All _ _ g.items uniform), settle-IsFilled gs h)

  settle-count :
      (k : Text) (gs : List (Group A))
      → length (filter (key_test k) (map settle gs)) ≡ length (filter (key_test k) gs)
  unfolding sort_items
  settle-count k [] = refl
  settle-count k (g ∷ gs) = ground (arith, settle-count k gs)

  settle-All :
      (g : Group A) (gs : List (Group A))
      → All (λ h. compare_groups l named bucket_of g h ≢ Ordering.gt) gs
      → All (λ h. compare_groups l named bucket_of (settle g) h ≢ Ordering.gt) (map settle gs)
  unfolding sort_items
  settle-All g [] h = tt
  settle-All g (k ∷ gs) (p, h) = (p, settle-All g gs h)

  settle-IsSorted :
      (gs : List (Group A))
      → IsSorted (compare_groups l named bucket_of) gs
      → IsSorted (compare_groups l named bucket_of) (map settle gs)
  settle-IsSorted [] h = tt
  settle-IsSorted (g ∷ gs) (p, h) = (settle-All g gs p, settle-IsSorted gs h)

  settle-inner :
      (gs : List (Group A))
      → All (λ g. IsSorted (on named (compare_nodes l)) g.items) (map settle gs)
  unfolding sort_items
  settle-inner [] = tt
  settle-inner (g ∷ gs) = (
    sort-IsSorted _ (on-IsConsistent named (compare_nodes l) (compare_nodes-IsConsistent l))
        g.items,
    settle-inner gs,
  )

  compare_groups-IsConsistent : IsConsistent (compare_groups l named bucket_of)
  compare_groups-IsConsistent =
      then_by-IsConsistent _ _ (ascending-IsConsistent (λ g. g.bucket.rank))
        (on-IsConsistent (λ g. g.bucket.label) l.compare_numeric l.compare_numeric-IsConsistent)

  -- `bucketize` returns every item exactly once, in nonempty groups of one key each, no key twice;
  -- the groups are ordered by rank, then label, and the items of a group by name, then id.
  pub bucketize-IsGrouping : (items : List A) → IsGrouping items (bucketize l named bucket_of items)
  unfolding bucketize
  bucketize-IsGrouping items =
      let groups = values (collect l named bucket_of [] items) in
      let entries = collect-IsEntry [] items tt in
      let sorted = sort (compare_groups l named bucket_of) groups in
      record {
        complete = Perm.trans (settle-members sorted) (
            Perm.trans (members-perm (sort-perm _ groups))
              (rw append-nil at (collect-members [] items)));
        filled = settle-IsFilled sorted (sort-All _ IsFilled groups (values-IsFilled _ entries));
        distinct = λ k. omega (
          arith,
          settle-count k sorted,
          sort-count (compare_groups l named bucket_of) (key_test k) groups,
          values-count k _ entries,
          collect-HasDistinctKeys [] items (λ j. omega arith) k,
        );
        ordered = settle-IsSorted sorted (sort-IsSorted _ compare_groups-IsConsistent groups);
        inner = settle-inner sorted;
      }
