-- ===== src/Uploads/Counting.antt =====
-- How often an id stands among uploads: how the lists of frontend/src/components/object-browser.tsx
-- change it.
use garage_admin_console.Base.{
  ℕ, suc, ◌+◌, ◌≤◌, ◌<◌, ◌≡◌, refl, Bool, not, List, [], ◌∷◌, ◌++◌, map, arith, Text, if◌then◌else◌,
  eqb, length, filter, All, All-map_of,
}
use garage_admin_console.Uploads.{UploadItem, File, Flight, count_id, items_from}

abbrev pub items_of : List Flight → List UploadItem
items_of fs = map (λ f. f.item) fs

pub count_id-nil : (k : ℕ) → count_id k [] ≡ 0
unfolding count_id
count_id-nil k = refl

pub count_id-append :
    (k : ℕ) (us vs : List UploadItem) → count_id k (us ++ vs) ≡ count_id k us + count_id k vs
unfolding count_id
count_id-append k [] vs = omega arith
count_id-append k (u ∷ us) vs = ground (arith, count_id-append k us vs)

pub count_id-map :
    (f : UploadItem → UploadItem) (same : (u : UploadItem) → (f u).id ≡ u.id) (k : ℕ)
    (us : List UploadItem)
    → count_id k (map f us) ≡ count_id k us
unfolding count_id
count_id-map f same k [] = refl
count_id-map f same k (u ∷ us) = rw (same u, count_id-map f same k us) refl

pub count_id-filter :
    (p : UploadItem → Bool) (k : ℕ) (us : List UploadItem)
    → count_id k (filter p us) ≤ count_id k us
unfolding count_id
count_id-filter p k [] = omega arith
count_id-filter p k (u ∷ us) = ground (arith, count_id-filter p k us)

pub items_of-append : (fs gs : List Flight) → items_of (fs ++ gs) ≡ items_of fs ++ items_of gs
items_of-append [] gs = refl
items_of-append (f ∷ fs) gs = rw (items_of-append fs gs) refl

-- The flights that are left when the one with an id ends.
pub count_id-without :
    (id k : ℕ) (fs : List Flight)
    → count_id k (items_of (filter (λ f. not (eqb f.item.id id)) fs))
      ≡ (if eqb k id then 0 else count_id k (items_of fs))
unfolding count_id
count_id-without id k [] = ground arith
count_id-without id k (f ∷ fs) = ground (arith, count_id-without id k fs)

pub length-without :
    (id : ℕ) (fs : List Flight)
    → length (filter (λ f. not (eqb f.item.id id)) fs) + count_id id (items_of fs) ≡ length fs
unfolding count_id
length-without id [] = omega arith
length-without id (f ∷ fs) = ground (arith, length-without id fs)

pub count_id-fresh :
    (n k : ℕ) (us : List UploadItem) → All (λ u. u.id < n) us → n ≤ k → count_id k us ≡ 0
unfolding count_id
count_id-fresh n k [] h le = refl
count_id-fresh n k (u ∷ us) (lt, h) le = ground (arith, count_id-fresh n k us h le)

-- The ids of new items: each once, from `n` on.
module _ (bucket_id prefix : Text) (use_relative_path : Bool) where
  pub count_id-items_from_below :
      (k n : ℕ) (files : List File)
      → k < n
      → count_id k (items_from bucket_id prefix use_relative_path n files) ≡ 0
  unfolding count_id items_from
  count_id-items_from_below k n [] lt = refl
  count_id-items_from_below k n (file ∷ files) lt =
      let rest = count_id-items_from_below k (suc n) files (omega arith) in ground (arith, rest)

  pub count_id-items_from :
      (k n : ℕ) (files : List File)
      → count_id k (items_from bucket_id prefix use_relative_path n files) ≤ 1
  unfolding count_id items_from
  count_id-items_from k n [] = omega arith
  count_id-items_from k n (file ∷ files) =
      ground (arith, count_id-items_from k (suc n) files, count_id-items_from_below k (suc n) files)

  pub items_from-below :
      (n : ℕ) (files : List File)
      → All (λ u. u.id < n + length files) (items_from bucket_id prefix use_relative_path n files)
  unfolding items_from
  items_from-below n [] = tt
  items_from-below n (file ∷ files) =
      (omega arith, All-map_of (λ u lt. omega arith) _ (items_from-below (suc n) files))
