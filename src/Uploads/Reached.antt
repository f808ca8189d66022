-- ===== src/Uploads/Reached.antt =====
-- The upload queue of frontend/src/components/object-browser.tsx under every sequence of events: the
-- handlers of the page, and what the requests in flight report.
use garage_admin_console.Base.{
  ℕ, zero, suc, ◌≤◌, ◌≡◌, ap, Bool, some, List, [], ◌∷◌, arith, Text, filter, get_elem?, map_option,
}
use garage_admin_console.Uploads.{
  UploadItem, File, Flight, Uploader, Settlement, no_uploads, enqueue_files, count_id, requeue,
  dismiss_uploads, settle, progress,
}
use garage_admin_console.Uploads.Counting.{items_of}
use garage_admin_console.Uploads.Queue.{IsSound}
use garage_admin_console.Uploads.Settling.{
  no_uploads-IsSound, dismiss_uploads-IsSound, progress-IsSound, settle-IsSound,
}
use garage_admin_console.Uploads.Adding.{enqueue_files-IsSound, requeue-IsSound}

-- One event. What is taken up again are uploads that the page shows; progress and ends come from
-- uploads in flight.
pub data Step : Uploader → Uploader → Type 0 where
  enqueues :
      (bucket_id prefix : Text) (use_relative_path : Bool) (files : List File) (s : Uploader)
      → Step s (enqueue_files bucket_id prefix use_relative_path files s)
  requeues :
      (p : UploadItem → Bool) (overwrite : Bool) (s : Uploader)
      → Step s (requeue (filter p s.uploads) overwrite s)
  dismisses : (p : UploadItem → Bool) (s : Uploader) → Step s (dismiss_uploads p s)
  progresses :
      (share : ℕ → ℕ → ℕ → ℕ) (i : ℕ) (f : Flight) (now loaded total : ℕ) (s : Uploader)
      → get_elem? s.in_flight i ≡ some f
      → Step s (progress share f.item now loaded total s)
  settles :
      (i : ℕ) (f : Flight) (outcome : Settlement) (s : Uploader)
      → get_elem? s.in_flight i ≡ some f
      → Step s (settle f.item outcome s)

pub data Reached : Uploader → Type 0 where
  begins : Reached no_uploads
  follows : {s t : Uploader} → Reached s → Step s t → Reached t

get_elem?-counted :
    (i : ℕ) (fs : List Flight) (f : Flight)
    → get_elem? fs i ≡ some f
    → 1 ≤ count_id f.item.id (items_of fs)
unfolding count_id
get_elem?-counted i [] f e = cc
get_elem?-counted zero (g ∷ fs) f e = ground (arith, ap (map_option (λ h. h.item.id)) e)
get_elem?-counted (suc i) (g ∷ fs) f e = ground (arith, get_elem?-counted i fs f e)

pub runs-once :
    (i : ℕ) (f : Flight) (s : Uploader)
    → IsSound s
    → get_elem? s.in_flight i ≡ some f
    → count_id f.item.id (items_of s.in_flight) ≡ 1
runs-once i f s (h, full) e = omega (arith, get_elem?-counted i s.in_flight f e, h.once f.item.id)

Step-IsSound : {s t : Uploader} → Step s t → IsSound s → IsSound t
Step-IsSound (enqueues bucket_id prefix use_relative_path files s) h =
    enqueue_files-IsSound bucket_id prefix use_relative_path files s h
Step-IsSound (requeues p overwrite s) h = requeue-IsSound p overwrite s h
Step-IsSound (dismisses p s) h = dismiss_uploads-IsSound p s h
Step-IsSound (progresses share i f now loaded total s e) h =
    progress-IsSound share f.item now loaded total s h
Step-IsSound (settles i f outcome s e) h = settle-IsSound f.item outcome s h (runs-once i f s h e)

-- However the page and the requests go on from an empty queue: at most three uploads are in flight,
-- as many as `activeUploads` counts, and exactly three while one is pending; no upload is pending
-- or in flight twice, or both; each upload of the list stands in it once, and says queued exactly
-- while it is pending and uploading exactly while it is in flight.
pub Reached-IsSound : {s : Uploader} → Reached s → IsSound s
Reached-IsSound begins = no_uploads-IsSound
Reached-IsSound (follows reached step) = Step-IsSound step (Reached-IsSound reached)
