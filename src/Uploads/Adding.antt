-- ===== src/Uploads/Adding.antt =====
-- The invariant of the upload queue of frontend/src/components/object-browser.tsx, through new
-- uploads and uploads that are taken up again.
use garage_admin_console.Base.{
  ℕ, suc, ◌+◌, ◌≤◌, ◌<◌, ◌≡◌, refl, sym, Bool, ◌⊎◌, inl, inr, none, some, List, [], ◌∷◌, ◌++◌, map,
  arith, Text, ltb, eqb, is_empty, filter, or_else, All, All-append, All-map_of, All-zip,
  All-filter_of, Bool-cases,
}
use garage_admin_console.Uploads.{
  UploadItem, File, Flight, Uploader, queued, items_from, enqueue_files, count_id, may_retry,
  to_queued, find_id, requeue_items, requeue,
}
use garage_admin_console.Uploads.Counting.{
  items_of, count_id-append, count_id-map, count_id-filter, count_id-fresh, count_id-nil,
  count_id-items_from, items_from-below, count_id-items_from_below,
}
use garage_admin_console.Uploads.Queue.{IsSound, IsPumping, IsShown, pump_uploads-IsSound}

-- New items are queued, their ids begin at the next one, and each stands once.
items_from-AreNew :
    (bucket_id prefix : Text) (use_relative_path : Bool) (n : ℕ) (files : List File)
    → All
        (λ u.
          (u.status ≡ queued)
          × (n ≤ u.id)
          × (count_id u.id (items_from bucket_id prefix use_relative_path n files) ≡ 1))
        (items_from bucket_id prefix use_relative_path n files)
unfolding items_from count_id
items_from-AreNew bucket_id prefix use_relative_path n [] = tt
items_from-AreNew bucket_id prefix use_relative_path n (file ∷ files) = (
  (
    refl,
    omega arith,
    ground (
      arith,
      count_id-items_from_below bucket_id prefix use_relative_path n (suc n) files (omega arith),
    ),
  ),
  All-map_of (λ u (new, le, one). (new, omega arith, ground arith)) _
      (items_from-AreNew bucket_id prefix use_relative_path (suc n) files),
)

-- Lists with ids below `n` get items with ids from `n` on.
count_id-extended :
    (bucket_id prefix : Text) (use_relative_path : Bool) (n k : ℕ) (files : List File)
    (us vs : List UploadItem)
    → All (λ u. u.id < n) us
    → All (λ u. u.id < n) vs
    → count_id k us + count_id k vs ≤ 1
    → count_id k (us ++ items_from bucket_id prefix use_relative_path n files) + count_id k vs ≤ 1
count_id-extended bucket_id prefix use_relative_path n k files us vs old others once =
    let items = items_from bucket_id prefix use_relative_path n files in
    let sum = count_id-append k us items in
    elim (Bool-cases (ltb k n)) [
      | inl lt ↦ omega (
        arith,
        sum,
        once,
        count_id-items_from_below bucket_id prefix use_relative_path k n files (ground arith),
      )
      | inr ge ↦ omega (
        arith,
        sum,
        count_id-fresh n k us old (ground arith),
        count_id-fresh n k vs others (ground arith),
        count_id-items_from bucket_id prefix use_relative_path k n files,
      )
    ]

pub enqueue_files-IsSound :
    (bucket_id prefix : Text) (use_relative_path : Bool) (files : List File) (s : Uploader)
    → IsSound s
    → IsSound (enqueue_files bucket_id prefix use_relative_path files s)
unfolding enqueue_files
enqueue_files-IsSound bucket_id prefix use_relative_path [] s h = h
enqueue_files-IsSound bucket_id prefix use_relative_path (file ∷ files) s (h, full) =
    let all = file ∷ files in
    let items = items_from bucket_id prefix use_relative_path s.next_id all in
    pump_uploads-IsSound _ (record {
      counted = h.counted;
      bounded = h.bounded;
      once = λ k.
          count_id-extended bucket_id prefix use_relative_path s.next_id k all s.pending
            (items_of s.in_flight) h.old_pending h.old_flights (h.once k);
      old_pending =
          All-append _ s.pending items (All-map_of (λ u old. omega arith) _ h.old_pending)
            (items_from-below bucket_id prefix use_relative_path s.next_id all);
      old_flights = All-map_of (λ u old. omega arith) _ h.old_flights;
      shown =
          All-append _ s.uploads items
            (All-map_of
              (λ u (old, waits, flies). (
                omega arith,
                omega (
                  arith,
                  waits,
                  count_id-append u.id s.pending items,
                  count_id-items_from_below bucket_id prefix use_relative_path u.id s.next_id all
                      old,
                ),
                flies,
              ))
              _ h.shown)
            (All-zip
              (λ u (new, le, one) below. (
                below,
                rw new (
                    omega (
                      arith,
                      one,
                      count_id-append u.id s.pending items,
                      count_id-fresh s.next_id u.id s.pending h.old_pending le,
                    )),
                rw new
                    (sym (count_id-fresh s.next_id u.id (items_of s.in_flight) h.old_flights le)),
              ))
              items (items_from-AreNew bucket_id prefix use_relative_path s.next_id all)
              (items_from-below bucket_id prefix use_relative_path s.next_id all));
      distinct = λ k. omega (
        arith,
        count_id-extended bucket_id prefix use_relative_path s.next_id k all s.uploads []
            (All-map_of (λ u (old, waits, flies). old) _ h.shown) tt
            (omega (arith, h.distinct k, count_id-nil k)),
      );
    })

-- What `requeue` takes of shown uploads is neither pending nor in flight.
count_id-retried :
    (k next : ℕ) (pending : List UploadItem) (flights : List Flight) (p : UploadItem → Bool)
    (us : List UploadItem)
    → All (IsShown pending flights next) us
    → (count_id k (filter (may_retry pending) (filter p us)) ≡ 0)
      ⊎ ((count_id k pending ≡ 0) × (count_id k (items_of flights) ≡ 0))
unfolding count_id
count_id-retried k next pending flights p [] h = inl refl
count_id-retried k next pending flights p (u ∷ us) ((old, waits, flies), h) =
    ground (arith, count_id-retried k next pending flights p us h, waits, flies)

queued-retried :
    (n : ℕ) (overwrite : Bool) (us : List UploadItem)
    → All (λ u. u.id < n) us
    → All (λ u. (u.id < n) × (u.status ≡ queued)) (map (to_queued overwrite) us)
queued-retried n overwrite [] h = tt
queued-retried n overwrite (u ∷ us) (old, h) = ((old, refl), queued-retried n overwrite us h)

-- What `byId.get` finds is queued and has the id; where it finds nothing, nothing has it.
find_id-cases :
    (n k : ℕ) (us : List UploadItem)
    → All (λ u. (u.id < n) × (u.status ≡ queued)) us
    → ((find_id k us ≡ none) × (count_id k us ≡ 0))
      ⊎ ((u : UploadItem) × ((find_id k us ≡ some u)
            × (u.id ≡ k)
            × (u.status ≡ queued)
            × (1 ≤ count_id k us)))
unfolding find_id count_id
find_id-cases n k [] h = inl (refl, refl)
find_id-cases n k (v ∷ us) ((old, waits), h) = elim (find_id-cases n k us h) [
  | inr (w, (found, same, queues, one)) ↦
      inr (w, (rw found refl, same, queues, ground (arith, one)))
  | inl (lost, zero) ↦ elim (Bool-cases (eqb v.id k)) [
    | inl e ↦ inr (v, (rw (lost, e) refl, ground arith, waits, ground arith))
    | inr e ↦ inl (rw (lost, e) refl, rw e zero)
  ]
]

-- The state in which `requeue` calls `pumpUploads`
abbrev retrying : List UploadItem → Uploader → Uploader
retrying retried s = record s {
  uploads = map (λ u. or_else (find_id u.id retried) u) s.uploads;
  pending = s.pending ++ retried;
}

replaced-id :
    (n : ℕ) (retried : List UploadItem) (u : UploadItem)
    → All (λ v. (v.id < n) × (v.status ≡ queued)) retried
    → (or_else (find_id u.id retried) u).id ≡ u.id
replaced-id n retried u h = elim (find_id-cases n u.id retried h) [
  | inl (lost, zero) ↦ rw lost refl
  | inr (v, (found, same, queues, one)) ↦ rw found same
]

replaced-IsShown :
    (n : ℕ) (retried pending : List UploadItem) (flights : List Flight) (u : UploadItem)
    → All (λ v. (v.id < n) × (v.status ≡ queued)) retried
    → count_id u.id retried + (count_id u.id pending + count_id u.id (items_of flights)) ≤ 1
    → IsShown pending flights n u
    → IsShown (pending ++ retried) flights n (or_else (find_id u.id retried) u)
replaced-IsShown n retried pending flights u h once (old, waits, flies) =
    let sum = count_id-append u.id pending retried in
    elim (find_id-cases n u.id retried h) [
      | inl (lost, zero) ↦ rw lost (old, omega (arith, sum, zero, waits), flies)
      | inr (v, (found, same, queues, one)) ↦
          rw (found, same, queues) (old, omega (arith, sum, one, once), omega (arith, one, once))
    ]

retrying-IsPumping :
    (retried : List UploadItem) (s : Uploader)
    → IsPumping s.pending s
    → All (λ u. (u.id < s.next_id) × (u.status ≡ queued)) retried
    → ((k : ℕ)
        → count_id k retried + (count_id k s.pending + count_id k (items_of s.in_flight)) ≤ 1)
    → IsPumping (s.pending ++ retried) (retrying retried s)
retrying-IsPumping retried s h new once = record {
  counted = h.counted;
  bounded = h.bounded;
  once = λ k. omega (arith, once k, count_id-append k s.pending retried);
  old_pending =
      All-append _ s.pending retried h.old_pending (All-map_of (λ u (old, queues). old) _ new);
  old_flights = h.old_flights;
  shown = shown_after s.uploads h.shown;
  distinct = λ k.
      rw
        (count_id-map (λ u. or_else (find_id u.id retried) u)
          (λ u. replaced-id s.next_id retried u new) k s.uploads)
        (h.distinct k);
}
  where
    shown_after :
        (us : List UploadItem)
        → All (IsShown s.pending s.in_flight s.next_id) us
        → All
            (IsShown (s.pending ++ retried) s.in_flight s.next_id)
            (map (λ u. or_else (find_id u.id retried) u) us)
    shown_after [] g = tt
    shown_after (u ∷ us) (p, g) = (
      replaced-IsShown s.next_id retried s.pending s.in_flight u new (once u.id) p,
      shown_after us g,
    )

pub requeue-IsSound :
    (p : UploadItem → Bool) (overwrite : Bool) (s : Uploader)
    → IsSound s
    → IsSound (requeue (filter p s.uploads) overwrite s)
unfolding requeue requeue_items
requeue-IsSound p overwrite s (h, full) =
    let targets = filter (may_retry s.pending) (filter p s.uploads) in
    let retried = map (to_queued overwrite) targets in
    elim (Bool-cases (is_empty retried)) [
      | inl e ↦ rw e (h, full)
      | inr e ↦ rw e (
          pump_uploads-IsSound _ (
            (retrying-IsPumping retried s h
              (queued-retried s.next_id overwrite targets (
                All-filter_of _ (may_retry s.pending) _ (
                  All-filter_of _ p s.uploads
                    (All-map_of (λ u (old, waits, flies). old) _ h.shown))))
              (λ k. omega (
                arith,
                h.once k,
                h.distinct k,
                count_id-map (to_queued overwrite) (λ u. refl) k targets,
                count_id-filter (may_retry s.pending) k (filter p s.uploads),
                count_id-filter p k s.uploads,
                count_id-retried k s.next_id s.pending s.in_flight p s.uploads h.shown,
              )))))
    ]
