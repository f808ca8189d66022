-- ===== src/Uploads/Queue.antt =====
-- The invariant of the upload queue of frontend/src/components/object-browser.tsx, through
-- `pumpUploads`.
use garage_admin_console.Base.{
  ℕ, ◌+◌, ◌≤◌, ◌<◌, ◌≡◌, refl, Bool, true, false, ◌⊎◌, inl, inr, List, [], ◌∷◌, ◌++◌, arith,
  if◌then◌else◌, ltb, eqb, length, is_empty, All, All-append, Bool-cases, length-append,
}
use garage_admin_console.Uploads.{
  UploadItem, Flight, Uploader, max_concurrent_uploads, patch_upload, to_uploading, start,
  pump_with, pump_uploads, is_queued, is_uploading, count_id,
}
use garage_admin_console.Uploads.Counting.{items_of, items_of-append, count_id-append, count_id-map}

abbrev pub flag : Bool → ℕ
flag b = if b then 1 else 0

-- A shown upload says queued exactly while it is pending, and uploading exactly while it is in
-- flight.
abbrev pub IsShown : List UploadItem → List Flight → ℕ → UploadItem → Type 0
IsShown pending flights next u =
    (u.id < next)
    × (flag (is_queued u.status) ≡ count_id u.id pending)
    × (flag (is_uploading u.status) ≡ count_id u.id (items_of flights))

-- The state with these pending uploads, while the loop of `pumpUploads` runs.
pub record IsPumping (pending : List UploadItem) (s : Uploader) : Type 0 where
  pub counted : s.active ≡ length s.in_flight
  pub bounded : s.active ≤ max_concurrent_uploads
  pub once : (k : ℕ) → count_id k pending + count_id k (items_of s.in_flight) ≤ 1
  pub old_pending : All (λ u. u.id < s.next_id) pending
  pub old_flights : All (λ u. u.id < s.next_id) (items_of s.in_flight)
  pub shown : All (IsShown pending s.in_flight s.next_id) s.uploads
  pub distinct : (k : ℕ) → count_id k s.uploads ≤ 1

-- No upload waits while fewer than three are in flight.
abbrev pub IsFull : Uploader → Type 0
IsFull s = (is_empty s.pending ≡ true) ⊎ (s.active ≡ max_concurrent_uploads)

abbrev pub IsSound : Uploader → Type 0
IsSound s = IsPumping s.pending s × IsFull s

pub count_id-patch :
    (id k : ℕ) (f : UploadItem → UploadItem) (same : (u : UploadItem) → (f u).id ≡ u.id)
    (us : List UploadItem)
    → count_id k (patch_upload id f us) ≡ count_id k us
unfolding patch_upload
count_id-patch id k f same us =
    count_id-map (λ u. if eqb u.id id then f u else u) (λ u. ground (arith, same u)) k us

-- A patch changes what is shown of one upload.
pub All-patch {κ μ} :
    {P : UploadItem → Type κ} {Q : UploadItem → Type μ} (id : ℕ) (f : UploadItem → UploadItem)
    (here : (u : UploadItem) → u.id ≡ id → P u → Q (f u))
    (elsewhere : (u : UploadItem) → eqb u.id id ≡ false → P u → Q u) (us : List UploadItem)
    → All P us
    → All Q (patch_upload id f us)
unfolding patch_upload
All-patch id f here elsewhere [] h = tt
All-patch {Q = Q} id f here elsewhere (u ∷ us) (p, h) = (
  elim (Bool-cases (eqb u.id id)) [
    | inl e ↦ rw e (here u (ground arith) p)
    | inr e ↦ rw e (elsewhere u e p)
  ],
  All-patch id f here elsewhere us h,
)

abbrev pub flight_of : UploadItem → Flight
flight_of item = record { item = item; last_progress_at = 0 }

count_id-flights :
    (k : ℕ) (item : UploadItem) (fs : List Flight)
    → count_id k (items_of (fs ++ (flight_of item ∷ [])))
      ≡ count_id k (items_of fs) + flag (eqb item.id k)
unfolding count_id
count_id-flights k item fs =
    ground
      (arith, items_of-append fs (flight_of item ∷ []), count_id-append k (items_of fs) (item ∷ []))

start-IsPumping :
    (item : UploadItem) (rest : List UploadItem) (s : Uploader)
    → IsPumping (item ∷ rest) s
    → s.active < max_concurrent_uploads
    → IsPumping rest (start item s)
unfolding start count_id
start-IsPumping item rest s h lt = record {
  counted = omega (arith, h.counted, length-append s.in_flight (flight_of item ∷ []));
  bounded = lt;
  once = λ k. ground (arith, h.once k, count_id-flights k item s.in_flight);
  old_pending = h.old_pending.1;
  old_flights =
      rw (items_of-append s.in_flight (flight_of item ∷ []))
        (All-append _ (items_of s.in_flight) (item ∷ []) h.old_flights (h.old_pending.0, tt));
  shown =
      All-patch item.id to_uploading
        (λ u same (old, waits, runs). (
          old,
          ground (arith, h.once u.id),
          ground (arith, h.once u.id, count_id-flights u.id item s.in_flight),
        ))
        (λ u other (old, waits, runs). (
          old,
          ground (arith, h.once u.id),
          ground (arith, h.once u.id, count_id-flights u.id item s.in_flight),
        ))
        s.uploads h.shown;
  distinct = λ k.
      ground (arith, h.distinct k, count_id-patch item.id k to_uploading (λ u. refl) s.uploads);
}

-- The loop keeps its pending uploads apart from the state's.
with_pending-IsPumping :
    (pending queue : List UploadItem) (s : Uploader)
    → IsPumping pending s
    → IsPumping pending (record s { pending = queue })
with_pending-IsPumping pending queue s h = record {
  counted = h.counted;
  bounded = h.bounded;
  once = h.once;
  old_pending = h.old_pending;
  old_flights = h.old_flights;
  shown = h.shown;
  distinct = h.distinct;
}

pub pump_with-IsSound :
    (pending : List UploadItem) (s : Uploader) → IsPumping pending s → IsSound (pump_with pending s)
unfolding pump_with
pump_with-IsSound [] s h = (with_pending-IsPumping [] [] s h, inl refl)
pump_with-IsSound (item ∷ rest) s h = elim (Bool-cases (ltb s.active max_concurrent_uploads)) [
  | inl e ↦
      rw e (pump_with-IsSound rest (start item s) (start-IsPumping item rest s h (ground arith)))
  | inr e ↦
      rw e (with_pending-IsPumping (item ∷ rest) (item ∷ rest) s h, inr (ground (arith, h.bounded)))
]

pub pump_uploads-IsSound : (s : Uploader) → IsPumping s.pending s → IsSound (pump_uploads s)
unfolding pump_uploads
pump_uploads-IsSound s h = pump_with-IsSound s.pending s h
