-- ===== src/Examples/Bucket.antt =====
-- Uploads to a bucket that takes everything, and to one that fails at the end; runs off-host.
use open_vibe_host.Base.{
  ℕ, ◌+◌, ◌≡◌, String, Bool, true, false, Option, none, some, List, [], ◌∷◌, ◌++◌, refl, arith,
  contains, string_eq,
}
use open_vibe_host.Base.Sets.{add}
use open_vibe_host.Base.Text.{starts_with, split_on, slice_from}
use open_vibe_host.BackupCrypto.{Bytes, join}
use open_vibe_host.Offsite.{
  Client, Request, Source, create_upload, upload_part, complete_upload, abort_upload, Uploading,
  upload_iterable, open_upload, send_part, full_part, full_parts, each_chunk, finish, give_up,
  answered,
}
use open_vibe_host.Offsite.Uploaded.{IsUploaded, upload-IsUploaded}
use open_vibe_host.Offsite.Ends.{Accepts, upload-Returns}
use open_vibe_host.Offsite.Aborted.{upload_aborts}
use open_vibe_host.Offsite.Remote.{
  RemoteRun, IsPrunable, Among, remote_deletes, remote_deletes-IsPrunable, run_prefix,
  protected_runs, deletes_of, is_old, list_runs,
}
use open_vibe_host.Retention.{parse_stamp, stamp_fields, is_stamp, text_le}
use open_vibe_host.Base.Sorting.{sort_by, insert_sorted}
use open_vibe_host.Examples.Stamps.{january, third}

abbrev taking : Client ℕ
taking = record { send = λ r n. (some (some "u1"), n + 1) }

abbrev completes : Request → Bool
completes (complete_upload _ _) = true
completes r = false

abbrev answer_to : Bool → Option (Option String)
answer_to true = none
answer_to false = some (some "u1")

-- The request that completes an upload throws.
abbrev failing : Client ℕ
failing = record { send = λ r n. (answer_to (completes r), n) }

abbrev pieces : List Bytes
pieces = (1 ∷ 2 ∷ 3 ∷ []) ∷ (4 ∷ 5 ∷ []) ∷ []

abbrev stream : Source
stream = record { chunks = pieces; breaks = false }

-- A stream that throws behind its pieces.
abbrev broken : Source
broken = record { chunks = pieces; breaks = true }

taking-Accepts : Accepts taking 2
taking-Accepts r n = ("u1", refl, refl)

upload-Returns_example : (t : Uploading ℕ) × (upload_iterable taking 2 stream 0 ≡ (true, t))
upload-Returns_example = upload-Returns taking 2 taking-Accepts stream 0 (omega arith) refl

abbrev uploaded : Uploading ℕ
uploaded = (upload_iterable taking 2 stream 0).1

taken_well : upload_iterable taking 2 stream 0 ≡ (true, uploaded)
unfolding upload_iterable open_upload send_part full_part full_parts each_chunk finish give_up
    answered
taken_well = refl

upload-IsUploaded_example : (stream.breaks ≡ false) × IsUploaded taking 2 (join pieces) uploaded
upload-IsUploaded_example = upload-IsUploaded taking 2 stream 0 (omega arith) taken_well

abbrev left : Uploading ℕ
left = (upload_iterable failing 2 broken 0).1

failed_late : upload_iterable failing 2 broken 0 ≡ (false, left)
unfolding upload_iterable open_upload send_part full_part full_parts each_chunk finish give_up
    answered
failed_late = refl

abbrev two_parts : List Request
two_parts =
    upload_part "u1" 1 (1 ∷ 2 ∷ []) ∷ upload_part "u1" 2 (3 ∷ 4 ∷ []) ∷ abort_upload "u1" ∷ []

was_created : left.sent ≡ create_upload ∷ two_parts
unfolding upload_iterable open_upload send_part full_part full_parts each_chunk finish give_up
    answered
was_created = refl

upload_aborts_example : (before : List Request) × (left.sent ≡ before ++ abort_upload "u1" ∷ [])
upload_aborts_example =
    upload_aborts failing 2 0 "u1" refl refl broken two_parts failed_late was_created

-- The keys of a run without a manifest, which no newer ones protect, and of a newer one.
abbrev stored : List String
stored =
    "p/h/19700105-030000/a.ovbk" ∷ "p/h/19700113-030000/manifest.json" ∷ "p/h/notes/19700105-030000"
    ∷ []

abbrev old_key : String
old_key = "p/h/19700105-030000/a.ovbk"

old_deleted : contains (remote_deletes january "p" "h" third stored 1900000000 7) old_key ≡ true
unfolding remote_deletes deletes_of protected_runs list_runs add contains parse_stamp stamp_fields
    starts_with split_on slice_from is_stamp text_le sort_by insert_sorted is_old run_prefix
old_deleted = refl

listed_newest :
    list_runs "p" "h" stored
    ≡ record {
      run = "19700113-030000";
      manifest = true;
      keys = "p/h/19700113-030000/manifest.json" ∷ [];
    }
      ∷ record { run = "19700105-030000"; manifest = false; keys = old_key ∷ [] }
      ∷ []
unfolding list_runs contains stamp_fields starts_with split_on slice_from is_stamp text_le sort_by
    insert_sorted
listed_newest = refl

remote_deletes-IsPrunable_example :
    (r : RemoteRun) × Among r (list_runs "p" "h" stored)
    × IsPrunable january "p" "h" third stored 1900000000 7 r
    × (contains r.keys old_key ≡ true)
    × (starts_with old_key (run_prefix january "p" "h" third stored 1900000000 7 r.run) ≡ true)
remote_deletes-IsPrunable_example =
    remote_deletes-IsPrunable january "p" "h" third stored 1900000000 7 old_key old_deleted
