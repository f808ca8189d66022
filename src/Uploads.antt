-- ===== src/Uploads.antt =====
-- frontend/src/components/object-browser.tsx, `ObjectUploader`: the queue of uploads, of which at
-- most three are in flight. An event handler or a settled promise is one operation on the state;
-- React applies its updates before the next one. `File` is the browser's: its fields that the code
-- reads are here.
pub mod Counting
pub mod Queue
pub mod Settling
pub mod Adding
pub mod Reached
pub mod Draining
pub mod Outcomes
use garage_admin_console.Base.{
  ℕ, zero, suc, ◌+◌, ◌-◌, ◌%◌, Bool, true, false, not, ◌&&◌, ◌||◌, Option, none, some, List, [],
  ◌∷◌, ◌++◌, map, Text, text, ◌==◌, starts_with, if◌then◌else◌, ltb, eqb, length, filter, any,
  is_empty, get_elem?, or_else, or_option,
}
use mathlib.Core.List.{reverse}
use garage_admin_console.Http.{Rejection, ApiError, api_error, other_error}

pub record File : Type 0 where
  pub name : Text
  pub webkit_relative_path : Text
  pub size : ℕ

-- `UploadStatus`
pub data UploadStatus : Type 0 where
  queued uploading done error conflict : UploadStatus

-- `UploadItem`; `message` is its `error`
pub record UploadItem : Type 0 where
  pub id : ℕ
  pub bucket : Text
  pub file : File
  pub key : Text
  pub overwrite : Bool
  pub loaded : ℕ
  pub total : ℕ
  pub status : UploadStatus
  pub message : Option Text

abbrev ends_with_slash : Text → Bool
ends_with_slash s = starts_with (reverse s) (text "/")

-- `keyFor`
unfoldable pub key_for : Text → Text → Text
key_for prefix relative_path =
    if is_empty prefix
    then relative_path
    else (if ends_with_slash prefix then prefix else prefix ++ text "/") ++ relative_path

-- An upload that was started, with the time of its last progress.
pub record Flight : Type 0 where
  pub item : UploadItem
  pub last_progress_at : ℕ

-- The state of `ObjectUploader`: `uploads`, the three refs, the promises that are not settled, and
-- how often `onUploaded` was called.
pub record Uploader : Type 0 where
  pub uploads : List UploadItem
  pub pending : List UploadItem
  pub active : ℕ
  pub next_id : ℕ
  pub in_flight : List Flight
  pub refreshes : ℕ

abbrev pub no_uploads : Uploader
no_uploads = record {
  uploads = [];
  pending = [];
  active = 0;
  next_id = 1;
  in_flight = [];
  refreshes = 0;
}

-- `MAX_CONCURRENT_UPLOADS`
abbrev pub max_concurrent_uploads : ℕ
max_concurrent_uploads = 3

-- `patchUpload`, where a patch is a function
unfoldable pub patch_upload : ℕ → (UploadItem → UploadItem) → List UploadItem → List UploadItem
patch_upload id patch us = map (λ u. if eqb u.id id then patch u else u) us

abbrev pub to_uploading : UploadItem → UploadItem
to_uploading u = record u { status = uploading; loaded = 0; message = none }

-- The body of the loop of `pumpUploads`, for the item it takes
unfoldable pub start : UploadItem → Uploader → Uploader
start item s = record s {
  active = suc s.active;
  uploads = patch_upload item.id to_uploading s.uploads;
  in_flight = s.in_flight ++ (record { item = item; last_progress_at = 0 } ∷ []);
}

-- The loop of `pumpUploads` over the pending uploads
unfoldable pub pump_with : List UploadItem → Uploader → Uploader
pump_with [] s = record s { pending = [] }
pump_with (item ∷ rest) s =
    let started = pump_with rest (start item s) in
    if ltb s.active max_concurrent_uploads then started else record s { pending = item ∷ rest }

-- `pumpUploads`
unfoldable pub pump_uploads : Uploader → Uploader
pump_uploads s = pump_with s.pending s

abbrev path_of : Bool → File → Text
path_of use_relative_path file =
    if use_relative_path && not (is_empty file.webkit_relative_path)
    then file.webkit_relative_path
    else file.name

-- The items of `enqueueFiles`, with their ids from `n` on
unfoldable pub items_from : Text → Text → Bool → ℕ → List File → List UploadItem
items_from bucket_id prefix use_relative_path n [] = []
items_from bucket_id prefix use_relative_path n (file ∷ files) =
    record {
      id = n;
      bucket = bucket_id;
      file = file;
      key = key_for prefix (path_of use_relative_path file);
      overwrite = false;
      loaded = 0;
      total = file.size;
      status = queued;
      message = none;
    }
    ∷ items_from bucket_id prefix use_relative_path (suc n) files

-- `enqueueFiles`
unfoldable pub enqueue_files : Text → Text → Bool → List File → Uploader → Uploader
enqueue_files bucket_id prefix use_relative_path files s =
    let items = items_from bucket_id prefix use_relative_path s.next_id files in
    if is_empty files
    then s
    else pump_uploads (record s {
      next_id = s.next_id + length files;
      uploads = s.uploads ++ items;
      pending = s.pending ++ items;
    })

-- The status of an upload that waits or runs
abbrev pub is_queued : UploadStatus → Bool
is_queued queued = true
is_queued _ = false

abbrev pub is_uploading : UploadStatus → Bool
is_uploading uploading = true
is_uploading _ = false

-- How often an id stands among items; `pendingIds.has(id)` where it is not zero.
unfoldable pub count_id : ℕ → List UploadItem → ℕ
count_id k [] = 0
count_id k (u ∷ us) = if eqb u.id k then suc (count_id k us) else count_id k us

-- What `requeue` takes up again of its targets
abbrev pub may_retry : List UploadItem → UploadItem → Bool
may_retry pending u =
    not (is_queued u.status) && not (is_uploading u.status) && eqb (count_id u.id pending) 0

abbrev pub to_queued : Bool → UploadItem → UploadItem
to_queued overwrite u = record u { overwrite = overwrite; status = queued; loaded = 0 }

-- `byId.get(id)`, of the map whose last entry with an id is kept
unfoldable pub find_id : ℕ → List UploadItem → Option UploadItem
find_id k [] = none
find_id k (u ∷ us) = or_option (find_id k us) (if eqb u.id k then some u else none)

-- `requeue`, with what it retries
unfoldable pub requeue_items : List UploadItem → Uploader → Uploader
requeue_items retried s =
    if is_empty retried
    then s
    else pump_uploads (record s {
      uploads = map (λ u. or_else (find_id u.id retried) u) s.uploads;
      pending = s.pending ++ retried;
    })

-- `requeue`
unfoldable pub requeue : List UploadItem → Bool → Uploader → Uploader
requeue targets overwrite s =
    requeue_items (map (to_queued overwrite) (filter (may_retry s.pending) targets)) s

-- `dismissUploads`
unfoldable pub dismiss_uploads : (UploadItem → Bool) → Uploader → Uploader
dismiss_uploads predicate s = record s { uploads = filter (λ u. not (predicate u)) s.uploads }

-- How a promise of `uploadObject` settles.
pub data Settlement : Type 0 where
  resolved : Settlement
  rejected : (reason : Rejection) → Settlement

abbrev pub to_error : Text → UploadItem → UploadItem
to_error message u = record u { status = error; message = some message }

-- The callbacks `.then` and `.catch`
unfoldable pub settled : UploadItem → Settlement → UploadItem → UploadItem
settled item resolved u = record u { status = done; loaded = item.total }
settled item (rejected (api_error e)) u =
    if eqb e.status 409
    then record u { status = conflict; message = some e.message }
    else to_error e.message u
settled item (rejected (other_error message)) u = to_error message u

-- `if (activeUploads.current === 0) onUploaded()`
abbrev pub refresh_if_idle : Uploader → Uploader
refresh_if_idle s = if eqb s.active 0 then record s { refreshes = suc s.refreshes } else s

-- What follows the end of one upload in flight: `.then` or `.catch`, and `.finally`
unfoldable pub settle : UploadItem → Settlement → Uploader → Uploader
settle item outcome s = refresh_if_idle (
    pump_uploads (record s {
      uploads = patch_upload item.id (settled item outcome) s.uploads;
      in_flight = filter (λ f. not (eqb f.item.id item.id)) s.in_flight;
      active = s.active - 1;
    }))

-- `onProgress` of one flight: whether it is throttled
abbrev pub is_throttled : ℕ → ℕ → ℕ → Flight → Bool
is_throttled now loaded total f = ltb (now - f.last_progress_at) 200 && ltb loaded total

abbrev pub is_reported : ℕ → ℕ → ℕ → ℕ → Flight → Bool
is_reported id now loaded total f = eqb f.item.id id && not (is_throttled now loaded total f)

abbrev pub touch : ℕ → ℕ → Flight → Flight
touch id now f = if eqb f.item.id id then record f { last_progress_at = now } else f

abbrev pub to_loaded : (ℕ → ℕ → ℕ → ℕ) → UploadItem → ℕ → ℕ → UploadItem → UploadItem
to_loaded share item loaded total u = record u {
  loaded = if ltb 0 total then share item.total loaded total else 0;
}

-- `onProgress`; `share a b c` is `Math.round((a * b) / c)`
unfoldable pub progress : (ℕ → ℕ → ℕ → ℕ) → UploadItem → ℕ → ℕ → ℕ → Uploader → Uploader
progress share item now loaded total s =
    if any (is_reported item.id now loaded total) s.in_flight
    then record s {
      in_flight = map (touch item.id now) s.in_flight;
      uploads = patch_upload item.id (to_loaded share item loaded total) s.uploads;
    }
    else s
