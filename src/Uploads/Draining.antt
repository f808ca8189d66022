-- ===== src/Uploads/Draining.antt =====
-- The upload queue of frontend/src/components/object-browser.tsx drains once every upload in flight
-- ends, in whatever order and however each ends.
use garage_admin_console.Base.{
  ℕ, zero, suc, ◌+◌, ◌%◌, ◌≤◌, ◌<◌, ◌≡◌, refl, ap, ◌∙◌, Bool, true, not, ◌&&◌, ◌⊎◌, inl, inr, none,
  some, List, [], ◌∷◌, arith, ltb, eqb, length, get_elem?, All, All-map_of, Bool-cases,
  length-append, length-eq-zero_iff, is_empty-length,
}
use native.Mathlib.Nat.{mod-lt}
use garage_admin_console.Uploads.{
  UploadItem, UploadStatus, Flight, Uploader, Settlement, max_concurrent_uploads, start, pump_with,
  pump_uploads, is_queued, is_uploading, count_id, settle, refresh_if_idle,
}
use garage_admin_console.Uploads.Counting.{items_of, length-without}
use garage_admin_console.Uploads.Queue.{IsSound, IsFull, flight_of, flag, pump_uploads-IsSound}
use garage_admin_console.Uploads.Settling.{landed, landed-IsPumping, settle-IsSound}
use garage_admin_console.Uploads.Reached.{Reached, Reached-IsSound, runs-once}

-- How many uploads have not ended.
abbrev pub work : Uploader → ℕ
work s = length s.pending + length s.in_flight

-- Ends `n` uploads: `pick` says which of those in flight, `answer` how.
unfoldable pub run : (Uploader → ℕ) → (Uploader → Settlement) → ℕ → Uploader → Uploader
run pick answer zero s = s
run pick answer (suc n) s = elim (get_elem? s.in_flight (pick s % length s.in_flight)) [
  | none ↦ s
  | some f ↦ run pick answer n (settle f.item (answer s) s)
]

-- An upload that needs no more work: done, failed or in conflict.
abbrev pub has_ended : UploadStatus → Bool
has_ended status = not (is_queued status) && not (is_uploading status)

get_elem?-below {ℓ} :
    {A : Type ℓ} (i : ℕ) (xs : List A) → i < length xs → (x : A) × (get_elem? xs i ≡ some x)
get_elem?-below i [] lt = absurd (omega (arith, lt))
get_elem?-below zero (x ∷ xs) lt = (x, refl)
get_elem?-below (suc i) (x ∷ xs) lt = get_elem?-below i xs (omega (arith, lt))

-- The pump moves uploads and starts no new work.
pump_with-work :
    (pending : List UploadItem) (s : Uploader)
    → (work (pump_with pending s) ≡ length pending + length s.in_flight)
      × ((pump_with pending s).refreshes ≡ s.refreshes)
unfolding pump_with start
pump_with-work [] s = (refl, refl)
pump_with-work (item ∷ rest) s = elim (Bool-cases (ltb s.active max_concurrent_uploads)) [
  | inl e ↦ rw e (
      let (same, kept) = pump_with-work rest (start item s) in
      (omega (arith, same, length-append s.in_flight (flight_of item ∷ [])), kept))
  | inr e ↦ rw e (refl, refl)
]

refresh_if_idle-refreshes :
    (s : Uploader)
    → IsSound s
    → (work (refresh_if_idle s) ≡ work s)
      × (s.refreshes ≤ (refresh_if_idle s).refreshes)
      × ((1 ≤ work s) ⊎ (s.refreshes < (refresh_if_idle s).refreshes))
refresh_if_idle-refreshes s (h, full) = elim (Bool-cases (eqb s.active 0)) [
  | inl e ↦ rw e (refl, omega arith, inr (omega arith))
  | inr e ↦ rw e (refl, omega arith, inl (ground (arith, h.counted)))
]

-- Each end of an upload leaves one less, and the last one refreshes the listing.
settle-work :
    (item : UploadItem) (outcome : Settlement) (s : Uploader)
    → IsSound s
    → count_id item.id (items_of s.in_flight) ≡ 1
    → (suc (work (settle item outcome s)) ≡ work s)
      × (s.refreshes ≤ (settle item outcome s).refreshes)
      × ((1 ≤ work (settle item outcome s)) ⊎ (s.refreshes < (settle item outcome s).refreshes))
unfolding settle pump_uploads
settle-work item outcome s (h, full) runs =
    let (same, kept) = pump_with-work s.pending (landed item outcome s) in
    let sound = pump_uploads-IsSound _ (landed-IsPumping item outcome s h runs) in
    let (left, more, last) =
      refresh_if_idle-refreshes (pump_uploads (landed item outcome s)) sound in
    (
      omega (arith, same, left, length-without item.id s.in_flight, runs),
      omega (arith, kept, more),
      ground (arith, kept, left, last),
    )

-- Where work is left, an upload is in flight, and the pick finds one.
picks :
    (k : ℕ) (s : Uploader)
    → IsSound s
    → 1 ≤ work s
    → (f : Flight) × (get_elem? s.in_flight (k % length s.in_flight) ≡ some f)
picks k s (h, full) some_work = get_elem?-below _ s.in_flight (mod-lt k (in_flight-pos full))
  where
    in_flight-pos : IsFull s → 0 < length s.in_flight
    in_flight-pos (inr three) = omega (arith, h.counted, three)
    in_flight-pos (inl idle) = ground (arith, some_work, is_empty-length s.pending)

-- From `s` on, `n` ends of uploads led to `t`: nothing waits or runs, every upload of the list has
-- ended, and the listing was refreshed unless there was nothing to do.
abbrev pub IsDrained : ℕ → Uploader → Uploader → Type 0
IsDrained n s t =
    (t.pending ≡ [])
    × (t.in_flight ≡ [])
    × (t.active ≡ 0)
    × All (λ u. has_ended u.status ≡ true) t.uploads
    × ((n ≡ 0) ⊎ (s.refreshes < t.refreshes))

no_work-IsDrained : (s : Uploader) → IsSound s → work s ≡ 0 → IsDrained 0 s s
unfolding count_id
no_work-IsDrained s (h, full) zero_work =
    let no_pending = (length-eq-zero_iff s.pending).0 (omega (arith, zero_work)) in
    let no_flights = (length-eq-zero_iff s.in_flight).0 (omega (arith, zero_work)) in
    (
      no_pending,
      no_flights,
      omega (arith, h.counted, zero_work),
      All-map_of
          (λ u (old, waits, flies).
            ended u.status (waits ∙ ap (count_id u.id) no_pending)
              (flies ∙ ap (λ fs. count_id u.id (items_of fs)) no_flights))
          _ h.shown,
      inl refl,
    )
  where
    ended :
        (status : UploadStatus)
        → flag (is_queued status) ≡ 0
        → flag (is_uploading status) ≡ 0
        → has_ended status ≡ true
    ended status waits flies = ground arith

run-IsDrained :
    (pick : Uploader → ℕ) (answer : Uploader → Settlement) (n : ℕ) (s : Uploader)
    → IsSound s
    → work s ≡ n
    → IsDrained n s (run pick answer n s) × (s.refreshes ≤ (run pick answer n s).refreshes)
unfolding run
run-IsDrained pick answer zero s sound e = (no_work-IsDrained s sound e, omega arith)
run-IsDrained pick answer (suc n) s sound e =
    let (f, found) = picks (pick s) s sound (omega (arith, e)) in
    let runs = runs-once _ f s sound found in
    let (less, more, last) = settle-work f.item (answer s) s sound runs in
    let ((pending, flights, active, ended, refreshed), later) =
      run-IsDrained pick answer n (settle f.item (answer s) s)
        (settle-IsSound f.item (answer s) s sound runs) (omega (arith, less, e)) in
    rw (found, run)
      (
        (pending, flights, active, ended, inr (ground (arith, refreshed, later))),
        omega (arith, more, later),
      )

-- From every state that the queue reaches, as many ends of uploads as are pending or in flight empty
-- it, whichever ends next and however it ends, and whatever was queued before: then nothing is
-- pending or in flight, every upload of the list is done, failed or in conflict, and the listing was
-- refreshed if there was anything to upload.
pub run-drains :
    (pick : Uploader → ℕ) (answer : Uploader → Settlement) {s : Uploader}
    → Reached s
    → IsDrained (work s) s (run pick answer (work s) s)
run-drains pick answer reached = (run-IsDrained pick answer _ _ (Reached-IsSound reached) refl).0
