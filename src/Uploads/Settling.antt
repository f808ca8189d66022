-- ===== src/Uploads/Settling.antt =====
-- The invariant of the upload queue of frontend/src/components/object-browser.tsx, through
-- dismissals, progress and ends of uploads.
use garage_admin_console.Base.{
  ℕ, ◌-◌, ◌<◌, ◌≡◌, refl, Bool, false, not, inl, inr, List, [], ◌∷◌, map, arith, eqb, length,
  filter, any, All, All-filter_of, Bool-cases,
}
use garage_admin_console.Uploads.{
  UploadItem, Flight, Uploader, Settlement, no_uploads, patch_upload, is_queued, is_uploading,
  count_id, dismiss_uploads, settled, settle, refresh_if_idle, progress, is_reported, touch,
  to_loaded, resolved, rejected,
}
use garage_admin_console.Http.{api_error, other_error}
use garage_admin_console.Uploads.Counting.{
  items_of, count_id-filter, count_id-without, length-without,
}
use garage_admin_console.Uploads.Queue.{
  IsSound, IsPumping, pump_uploads-IsSound, All-patch, count_id-patch,
}

pub no_uploads-IsSound : IsSound no_uploads
unfolding count_id
no_uploads-IsSound = (
  record {
    counted = refl;
    bounded = omega arith;
    once = λ k. omega arith;
    old_pending = tt;
    old_flights = tt;
    shown = tt;
    distinct = λ k. omega arith;
  },
  inl refl,
)

pub dismiss_uploads-IsSound :
    (predicate : UploadItem → Bool) (s : Uploader)
    → IsSound s
    → IsSound (dismiss_uploads predicate s)
unfolding dismiss_uploads
dismiss_uploads-IsSound predicate s (h, full) = (
  record {
    counted = h.counted;
    bounded = h.bounded;
    once = h.once;
    old_pending = h.old_pending;
    old_flights = h.old_flights;
    shown = All-filter_of _ (λ u. not (predicate u)) s.uploads h.shown;
    distinct =
        λ k. omega (arith, h.distinct k, count_id-filter (λ u. not (predicate u)) k s.uploads);
  },
  full,
)

-- A progress event changes neither the ids in flight nor what an upload says.
items_of-touched : (id now : ℕ) (fs : List Flight) → items_of (map (touch id now) fs) ≡ items_of fs
items_of-touched id now [] = refl
items_of-touched id now (f ∷ fs) = elim (Bool-cases (eqb f.item.id id)) [
  | inl e ↦ rw (e, items_of-touched id now fs) refl
  | inr e ↦ rw (e, items_of-touched id now fs) refl
]

length-map {ℓ κ} :
    {A : Type ℓ} {B : Type κ} (f : A → B) (xs : List A) → length (map f xs) ≡ length xs
length-map f [] = refl
length-map f (x ∷ xs) = ground (arith, length-map f xs)

pub progress-IsSound :
    (share : ℕ → ℕ → ℕ → ℕ) (item : UploadItem) (now loaded total : ℕ) (s : Uploader)
    → IsSound s
    → IsSound (progress share item now loaded total s)
unfolding progress
progress-IsSound share item now loaded total s (h, full) =
    let same = items_of-touched item.id now s.in_flight in
    let patch = to_loaded share item loaded total in
    elim (Bool-cases (any (is_reported item.id now loaded total) s.in_flight)) [
      | inl e ↦ rw e (
        record {
          counted = omega (arith, h.counted, length-map (touch item.id now) s.in_flight);
          bounded = h.bounded;
          once = λ k. rw same (h.once k);
          old_pending = h.old_pending;
          old_flights = rw same h.old_flights;
          shown =
              All-patch item.id patch (λ u here (old, waits, flies). (old, waits, rw same flies))
                (λ u other (old, waits, flies). (old, waits, rw same flies)) s.uploads h.shown;
          distinct = λ k.
              ground (arith, h.distinct k, count_id-patch item.id k patch (λ u. refl) s.uploads);
        },
        full,
      )
      | inr e ↦ rw e (h, full)
    ]

-- The end of a flight, up to `pumpUploads`
settled-status :
    (item : UploadItem) (outcome : Settlement) (u : UploadItem)
    → ((settled item outcome u).id ≡ u.id)
      × (is_queued (settled item outcome u).status ≡ false)
      × (is_uploading (settled item outcome u).status ≡ false)
unfolding settled
settled-status item resolved u = (refl, refl, refl)
settled-status item (rejected (api_error e)) u = ground arith
settled-status item (rejected (other_error message)) u = (refl, refl, refl)

old_flights-without :
    (id n : ℕ) (fs : List Flight)
    → All (λ u. u.id < n) (items_of fs)
    → All (λ u. u.id < n) (items_of (filter (λ f. not (eqb f.item.id id)) fs))
old_flights-without id n [] h = tt
old_flights-without id n (f ∷ fs) (old, h) = elim (Bool-cases (eqb f.item.id id)) [
  | inl e ↦ rw e (old_flights-without id n fs h)
  | inr e ↦ rw e (old, old_flights-without id n fs h)
]

refresh_if_idle-IsSound : (s : Uploader) → IsSound s → IsSound (refresh_if_idle s)
refresh_if_idle-IsSound s (h, full) = elim (Bool-cases (eqb s.active 0)) [
  | inl e ↦ rw e (
    record {
      counted = h.counted;
      bounded = h.bounded;
      once = h.once;
      old_pending = h.old_pending;
      old_flights = h.old_flights;
      shown = h.shown;
      distinct = h.distinct;
    },
    full,
  )
  | inr e ↦ rw e (h, full)
]

-- The state in which `.finally` calls `pumpUploads`
abbrev pub landed : UploadItem → Settlement → Uploader → Uploader
landed item outcome s = record s {
  uploads = patch_upload item.id (settled item outcome) s.uploads;
  in_flight = filter (λ f. not (eqb f.item.id item.id)) s.in_flight;
  active = s.active - 1;
}

pub landed-IsPumping :
    (item : UploadItem) (outcome : Settlement) (s : Uploader)
    → IsPumping s.pending s
    → count_id item.id (items_of s.in_flight) ≡ 1
    → IsPumping s.pending (landed item outcome s)
landed-IsPumping item outcome s h runs =
    let without = λ (k : ℕ). count_id-without item.id k s.in_flight in
    record {
      counted = omega (arith, h.counted, length-without item.id s.in_flight, runs);
      bounded = omega (arith, h.bounded);
      once = λ k. ground (arith, h.once k, without k);
      old_pending = h.old_pending;
      old_flights = old_flights-without item.id s.next_id s.in_flight h.old_flights;
      shown =
          All-patch item.id (settled item outcome)
            (λ u here (old, waits, flies).
              let (same, not_queued, not_uploading) = settled-status item outcome u in
              rw (same, not_queued, not_uploading)
                (old, ground (arith, h.once u.id, runs), ground (arith, without u.id)))
            (λ u other (old, waits, flies). (old, waits, ground (arith, without u.id))) s.uploads
            h.shown;
      distinct = λ k. ground (
        arith,
        h.distinct k,
        count_id-patch item.id k (settled item outcome) (λ u. (settled-status item outcome u).0)
            s.uploads,
      );
    }

pub settle-IsSound :
    (item : UploadItem) (outcome : Settlement) (s : Uploader)
    → IsSound s
    → count_id item.id (items_of s.in_flight) ≡ 1
    → IsSound (settle item outcome s)
unfolding settle
settle-IsSound item outcome s (h, full) runs =
    refresh_if_idle-IsSound _ (pump_uploads-IsSound _ (landed-IsPumping item outcome s h runs))
