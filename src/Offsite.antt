-- ===== src/Offsite.antt =====
-- lib/offsite.js: the upload of a stream in parts, and which runs are pruned off-host. The bucket
-- and its client (a third-party library) are a parameter: what it answers to a request.
pub mod Parts
pub mod Uploaded
pub mod Ends
pub mod Aborted
pub mod Remote
use open_vibe_host.Base.{
  ℕ, zero, suc, ◌+◌, ◌-◌, String, Bool, true, false, Option, none, some, List, [], ◌∷◌, ◌++◌, take,
  drop, length, if◌then◌else◌, leb, null, ◌==◌, string_eq,
}
use open_vibe_host.BackupCrypto.{Bytes}

-- `parts`: what the bucket answered to a part, and its number.
pub record Part : Type 0 where
  pub etag : Option String
  pub number : ℕ

-- The commands that are sent for one object; an upload's identifier comes first.
pub data Request : Type 0 where
  create_upload : Request
  upload_part : String → ℕ → Bytes → Request
  complete_upload : String → List Part → Request
  abort_upload : String → Request
  put_object : Bytes → Request

-- What `client.send` does to the bucket, and the UploadId or ETag of its answer; `none` is a throw.
pub record Client (B : Type 0) : Type 0 where
  pub send : Request → B → Option (Option String) × B

-- What `for await` gets from the stream: its pieces, and whether it throws behind them.
pub record Source : Type 0 where
  pub chunks : List Bytes
  pub breaks : Bool

-- The variables of `uploadIterable`; `pending` is its list of buffers, end to end.
pub record Uploading (B : Type 0) : Type 0 where
  pub bucket : B
  -- every request sent so far, the first one first
  pub sent : List Request
  pub upload_id : Option String
  pub parts : List Part
  pub pending : Bytes

-- `false` is a throw.
abbrev pub Step : Type 0 → Type 0
Step B = Bool × Uploading B

abbrev pub then_do : {B : Type 0} → Step B → (Uploading B → Step B) → Step B
then_do (true, s) f = f s
then_do (false, s) f = (false, s)

module _ {B : Type 0} (client : Client B) (part_size : ℕ) where
  abbrev pub asked : Uploading B → Request → Option (Option String) × Uploading B
  asked s r =
      let (a, b) = client.send r s.bucket in (a, record s { bucket = b; sent = s.sent ++ r ∷ [] })

  -- `CreateMultipartUploadCommand`, once; an answer without an identifier is an error.
  unfoldable pub created : Option (Option String) × Uploading B → Step B
  created (some (some id), s) =
      if id == "" then (false, s) else (true, record s { upload_id = some id })
  created (a, s) = (false, s)

  unfoldable pub open_upload : Uploading B → Step B
  unfolding created
  open_upload s = elim s.upload_id [ some id ↦ (true, s) | none ↦ created (asked s create_upload) ]

  unfoldable pub noted_part : Option (Option String) × Uploading B → Step B
  noted_part (some etag, s) = (
    true,
    record s { parts = s.parts ++ record { etag = etag; number = length s.parts + 1 } ∷ [] },
  )
  noted_part (none, s) = (false, s)

  -- `sendPart`
  unfoldable pub send_part : Bytes → Uploading B → Step B
  unfolding noted_part
  send_part buf s = elim s.upload_id [
    | some id ↦ noted_part (asked s (upload_part id (length s.parts + 1) buf))
    | none ↦ (false, s)
  ]

  -- One round of the loop: a part of exactly `partSize` bytes.
  unfoldable pub full_part : Uploading B → Step B
  full_part s =
      let buf = take part_size s.pending in
      then_do (open_upload (record s { pending = drop part_size s.pending })) (send_part buf)

  -- `while (pendingLen >= partSize)`, with a round for each byte
  unfoldable pub full_parts : ℕ → Uploading B → Step B
  full_parts zero s = if leb part_size (length s.pending) then (false, s) else (true, s)
  full_parts (suc rounds) s =
      let more = then_do (full_part s) (full_parts rounds) in
      if leb part_size (length s.pending) then more else (true, s)

  unfoldable pub each_chunk : List Bytes → Uploading B → Step B
  each_chunk [] s = (true, s)
  each_chunk (c ∷ cs) s =
      let s' = record s { pending = s.pending ++ c } in
      then_do (full_parts (length s'.pending) s') (each_chunk cs)

  unfoldable pub answered : Option (Option String) × Uploading B → Step B
  answered (some a, s) = (true, s)
  answered (none, s) = (false, s)

  -- The rest goes as the last part, or as the whole object.
  finish_with : Option String → Uploading B → Step B
  unfolding answered
  finish_with none s = answered (asked s (put_object s.pending))
  finish_with (some id) s =
      then_do (if null s.pending then (true, s) else send_part s.pending s)
        (λ t. answered (asked t (complete_upload id t.parts)))

  unfoldable pub finish : Uploading B → Step B
  unfolding finish_with
  finish s = finish_with s.upload_id s

  -- Behind the last piece of the stream, which ends there or throws.
  unfoldable pub at_end : Bool → Uploading B → Step B
  unfolding finish
  at_end true s = (false, s)
  at_end false s = finish s

  -- What fails aborts the upload that was created; what that answers does not matter.
  unfoldable pub give_up : Step B → Step B
  give_up (true, s) = (true, s)
  give_up (false, s) = elim s.upload_id [
    | none ↦ (false, s)
    | some id ↦ (false, (asked s (abort_upload id)).1)
  ]

  unfoldable pub upload_iterable : Source → B → Step B
  unfolding at_end
  upload_iterable source b = give_up (
      then_do
        (each_chunk source.chunks
          (record { bucket = b; sent = []; upload_id = none; parts = []; pending = [] }))
        (at_end source.breaks))

  -- `{ parts }` of the result
  unfoldable pub parts_sent : Uploading B → ℕ
  parts_sent s = elim s.upload_id [ none ↦ 1 | some id ↦ length s.parts ]
