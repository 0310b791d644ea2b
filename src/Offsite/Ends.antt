-- ===== src/Offsite/Ends.antt =====
-- An upload to a bucket that takes everything returns.
use open_vibe_host.Base.{
  ℕ, zero, suc, ◌+◌, ◌≤◌, ◌<◌, String, true, false, Option, none, some, List, [], ◌∷◌, ◌++◌, ◌≡◌,
  refl, ap, ◌∙◌, arith, length, length-drop, null, leb, leb→le, Option-cases, Bool-cases, inl, inr,
  take, drop, ◌==◌, string_eq,
}
use open_vibe_host.BackupCrypto.{Bytes}
use open_vibe_host.Offsite.{
  Client, Part, Request, create_upload, upload_part, complete_upload, put_object, Source, Uploading,
  Step, asked, answered, at_end, finish, finish_with, open_upload, full_part, full_parts, send_part,
  give_up, each_chunk, upload_iterable,
}

module _ {B : Type 0} (client : Client B) (part_size : ℕ) where
  abbrev Returns : Step B → Type 0
  Returns m = (t : Uploading B) × (m ≡ (true, t))

  -- The bucket answers every request, with an identifier.
  abbrev pub Accepts : Type 0
  Accepts =
      (r : Request) (b : B)
      → (id : String) × ((client.send r b).0 ≡ some (some id)) × ((id == "") ≡ false)

  module _ (accepts : Accepts) where
    answered-Returns :
        (s : Uploading B) (r : Request)
        → Returns (answered client part_size (asked client part_size s r))
    unfolding answered
    answered-Returns s r =
        let (id, e, _) = accepts r s.bucket in ((asked client part_size s r).1, rw e refl)

    send_part-Returns :
        (s : Uploading B) (id : String) (buf : Bytes)
        → s.upload_id ≡ some id
        → (t : Uploading B) × (send_part client part_size buf s ≡ (true, t))
          × (t.upload_id ≡ some id)
          × (t.pending ≡ s.pending)
    unfolding send_part
    send_part-Returns s id buf e =
        let asked_for = upload_part id (length s.parts + 1) buf in
        let (etag, got, _) = accepts asked_for s.bucket in
        let part : Part = record { etag = some etag; number = length s.parts + 1 } in
        (
          record (asked client part_size s asked_for).1 { parts = s.parts ++ part ∷ [] },
          ground arith,
          e,
          refl,
        )

    open_upload-Returns :
        (s : Uploading B)
        → (t : Uploading B) × (id : String) × (open_upload client part_size s ≡ (true, t))
          × (t.upload_id ≡ some id)
          × (t.pending ≡ s.pending)
    unfolding open_upload
    open_upload-Returns s = elim (Option-cases s.upload_id) [
      | inr (id, e) ↦ (s, id, ground arith, e, refl)
      | inl nothing ↦
          let (id, e, some_text) = accepts create_upload s.bucket in
          (
            record (asked client part_size s create_upload).1 { upload_id = some id },
            id,
            ground arith,
            refl,
            refl,
          )
    ]

    -- A round for each pending byte is enough.
    full_parts-Returns :
        (rounds : ℕ) (s : Uploading B)
        → 0 < part_size
        → length s.pending ≤ rounds
        → Returns (full_parts client part_size rounds s)
    unfolding full_parts full_part
    full_parts-Returns zero s pos l =
        let short : leb part_size (length s.pending) ≡ false = ground arith in (s, rw short refl)
    full_parts-Returns (suc rounds) s pos l = elim (Bool-cases (leb part_size (length s.pending))) [
      | inr short ↦ (s, rw short refl)
      | inl long ↦
          let (u, id, opened, named, left) =
            open_upload-Returns (record s { pending = drop part_size s.pending }) in
          let (v, sent, _, kept) = send_part-Returns u id (take part_size s.pending) named in
          let (t, rest) = full_parts-Returns rounds v pos (
            omega (
              arith,
              ap (length {A = ℕ}) (kept ∙ left),
              length-drop part_size s.pending (leb→le _ _ long),
            )) in
          (t, rw (long, opened, sent) rest)
    ]

    each_chunk-Returns :
        (chunks : List Bytes) (s : Uploading B)
        → 0 < part_size
        → Returns (each_chunk client part_size chunks s)
    unfolding each_chunk
    each_chunk-Returns [] s pos = (s, refl)
    each_chunk-Returns (c ∷ cs) s pos =
        let s' = record s { pending = s.pending ++ c } in
        let (u, sent) = full_parts-Returns (length s'.pending) s' pos (omega arith) in
        let (t, rest) = each_chunk-Returns cs u pos in (t, rw sent rest)

    finish_with-Returns :
        (o : Option String) (s : Uploading B)
        → s.upload_id ≡ o
        → Returns (finish_with client part_size o s)
    unfolding finish_with
    finish_with-Returns none s e = answered-Returns s (put_object s.pending)
    finish_with-Returns (some id) s e = elim (Bool-cases (null s.pending)) [
      | inl nothing ↦ rw nothing (answered-Returns s (complete_upload id s.parts))
      | inr more ↦
          let (t, sent, _, _) = send_part-Returns s id s.pending e in
          rw (more, sent) (answered-Returns t (complete_upload id t.parts))
    ]

    -- With a part size above zero, a bucket that answers every request, an upload with an identifier
    -- that is not empty, and a stream that does not throw, every upload returns.
    pub upload-Returns :
        (source : Source) (b : B)
        → 0 < part_size
        → source.breaks ≡ false
        → Returns (upload_iterable client part_size source b)
    unfolding upload_iterable at_end finish give_up
    upload-Returns source b pos whole =
        let (s, sent) =
          each_chunk-Returns source.chunks
            (record { bucket = b; sent = []; upload_id = none; parts = []; pending = [] }) pos in
        let (t, done) = finish_with-Returns s.upload_id s refl in (t, rw (sent, whole, done) refl)
