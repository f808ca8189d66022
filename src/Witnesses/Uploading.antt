-- ===== src/Witnesses/Uploading.antt =====
-- The theorems on the upload queue, at concrete inputs.
use garage_admin_console.Base.{◌≡◌, false, none, some, [], ◌∷◌, text}
use garage_admin_console.Json.{null}
use garage_admin_console.Http.{Browser, load, upload_object}
use garage_admin_console.Uploads.{
  File, UploadItem, Uploader, queued, no_uploads, enqueue_files, resolved, settled,
}
use garage_admin_console.Uploads.Queue.{IsSound}
use garage_admin_console.Uploads.Reached.{Reached, begins, follows, enqueues, Reached-IsSound}
use garage_admin_console.Uploads.Draining.{work, run, IsDrained, run-drains}
use garage_admin_console.Uploads.Outcomes.{settlement_of, status_after, settled-upload_object}

abbrev photo : File
photo = record { name = text "a.png"; webkit_relative_path = []; size = 2048 }

-- Four files, of which three are in flight and one is pending.
abbrev busy : Uploader
busy =
    enqueue_files (text "bucket") (text "photos") false (photo ∷ photo ∷ photo ∷ photo ∷ [])
      no_uploads

busy-Reached : Reached busy
busy-Reached =
    follows begins (
      enqueues (text "bucket") (text "photos") false (photo ∷ photo ∷ photo ∷ photo ∷ [])
        no_uploads)

Reached-IsSound_example : IsSound busy
Reached-IsSound_example = Reached-IsSound busy-Reached

run-drains_example : IsDrained (work busy) busy (run (λ s. 1) (λ s. resolved) (work busy) busy)
run-drains_example = run-drains (λ s. 1) (λ s. resolved) busy-Reached

abbrev sample_item : UploadItem
sample_item = record {
  id = 1;
  bucket = text "bucket";
  file = photo;
  key = text "photos/a.png";
  overwrite = false;
  loaded = 0;
  total = 2048;
  status = queued;
  message = none;
}

abbrev page : Browser
page = record {
  pathname = text "/buckets";
  search = [];
  redirecting_to_login = false;
  navigations = [];
}

settled-upload_object_example :
    (settled sample_item
      (settlement_of
        (upload_object (λ s. some null) (λ s. s) sample_item.key (load 409 (text "exists")) page).1)
      sample_item).status
    ≡ status_after (load 409 (text "exists"))
settled-upload_object_example =
    settled-upload_object (λ s. some null) (λ s. s) sample_item sample_item
      (load 409 (text "exists")) page
