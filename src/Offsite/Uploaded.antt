-- ===== src/Offsite/Uploaded.antt =====
-- What a bucket was sent when `uploadIterable` has ended.
use mathlib.Core.Bool.{false≢true}
use mathlib.Core.List.{append-nil}
use mathlib.Core.Path.{subst}
use open_vibe_host.Base.{
  ℕ, ◌<◌, String, Bool, true, false, Option, none, some, List, [], ◌∷◌, ◌++◌, ◌≡◌, refl, sym, ap,
  ◌∙◌, arith, All, length, null, if◌then◌else◌, Option-cases, Bool-cases, inl, inr,
}
use open_vibe_host.BackupCrypto.{Bytes, join}
use open_vibe_host.Offsite.Parts.{
  numbered, begun, IsNumbered, Holds, then_do-ok, each_chunk-Holds, send_part-Holds,
}
use open_vibe_host.Offsite.{
  Client, Request, create_upload, complete_upload, put_object, Uploading, Step, asked, answered,
  Source, finish_with, finish, at_end, send_part, give_up, each_chunk, upload_iterable,
}

abbrev last_part : Bytes → List Bytes
last_part rest = if null rest then [] else rest ∷ []

module _ {B : Type 0} (client : Client B) (part_size : ℕ) where
  -- The object was put whole, or it was created, sent in numbered parts and completed with them:
  -- every part has exactly the part size but the last one, which is shorter, and they hold the text.
  pub data IsUploaded (text : Bytes) (t : Uploading B) : Type 0 where
    whole :
        t.upload_id ≡ none
        → length text < part_size
        → t.sent ≡ put_object text ∷ []
        → IsUploaded text t
    in_parts :
        (id : String) (full : List Bytes) (rest : Bytes)
        → t.upload_id ≡ some id
        → text ≡ join full ++ rest
        → All (λ b. length b ≡ part_size) full
        → length rest < part_size
        → t.sent
          ≡ create_upload ∷ numbered id 1 (full ++ last_part rest)
            ++ complete_upload id t.parts ∷ []
        → length t.parts ≡ length (full ++ last_part rest)
        → IsNumbered 1 t.parts
        → IsUploaded text t

  answered-ok :
      (s t : Uploading B) (r : Request)
      → answered client part_size (asked client part_size s r) ≡ (true, t)
      → t ≡ (asked client part_size s r).1
  unfolding answered
  answered-ok s t r e = elim (Option-cases (client.send r s.bucket).0) [
    | inl thrown ↦ absurd (false≢true (ap (λ (x : Step B). x.0) (rw thrown at e)))
    | inr (a, got) ↦ sym (ap (λ (x : Step B). x.1) (rw got at e))
  ]

  -- What is left goes as a part of its own, if there is any.
  last-Holds :
      (s u : Uploading B) (full : List Bytes) (id : String)
      → s.sent ≡ begun s.upload_id full
      → length s.parts ≡ length full
      → IsNumbered 1 s.parts
      → s.upload_id ≡ some id
      → (if null s.pending then (true, s) else send_part client part_size s.pending s) ≡ (true, u)
      → (u.sent ≡ begun (some id) (full ++ last_part s.pending))
        × (u.upload_id ≡ some id)
        × (length u.parts ≡ length (full ++ last_part s.pending))
        × IsNumbered 1 u.parts
  last-Holds s u full id h c i there e = elim (Bool-cases (null s.pending)) [
    | inl nothing ↦
        let same = sym (ap (λ (x : Step B). x.1) (rw nothing at e)) in
        rw (same, nothing, append-nil full)
          (h ∙ ap (λ (o : Option String). begun o full) there, there, c, i)
    | inr more ↦
        let (sent, _, counted, in_order, kept, _) =
          send_part-Holds client part_size s u full s.pending (rw more at e) h c i in
        rw more (
          sent ∙ ap (λ (o : Option String). begun o (full ++ s.pending ∷ [])) (kept ∙ there),
          kept ∙ there,
          counted,
          in_order,
        )
  ]

  finish_with-IsUploaded :
      (o : Option String) (s t : Uploading B) (full : List Bytes) (text : Bytes)
      → s.upload_id ≡ o
      → Holds client part_size s full text
      → length s.pending < part_size
      → finish_with client part_size o s ≡ (true, t)
      → IsUploaded text t
  unfolding finish_with join
  finish_with-IsUploaded none s t full text nothing h l e =
      let made = answered-ok s t (put_object s.pending) e in
      let all : text ≡ s.pending =
        h.whole ∙ ap (λ (f : List Bytes). join f ++ s.pending) (h.none_yet nothing) in
      let before : s.sent ≡ [] = h.sent ∙ ap (λ (o : Option String). begun o full) nothing in
      subst (λ (u : Uploading B). IsUploaded text u) (sym made)
        (whole nothing (omega (arith, ap (length {A = ℕ}) all)) (rw (before, all) refl))
  finish_with-IsUploaded (some id) s t full text there h l e =
      let (u, sent, rest) =
        then_do-ok client part_size
          (if null s.pending then (true, s) else send_part client part_size s.pending s) _ t e in
      let (mine, named, counted, in_order) =
        last-Holds s u full id h.sent h.counted h.in_order there sent in
      let made = answered-ok u t (complete_upload id u.parts) rest in
      subst (λ (v : Uploading B). IsUploaded text v) (sym made)
        (in_parts id full s.pending named h.whole h.exact l
          (ap (λ (l : List Request). l ++ complete_upload id u.parts ∷ []) mine) counted in_order)

  give_up-ok :
      (r : Step B) (t : Uploading B) → give_up client part_size r ≡ (true, t) → r ≡ (true, t)
  unfolding give_up
  give_up-ok (true, s) t e = e
  give_up-ok (false, s) t e = elim (Option-cases s.upload_id) [
    | inl nothing ↦ absurd (false≢true (ap (λ (r : Step B). r.0) (rw nothing at e)))
    | inr (id, there) ↦ absurd (false≢true (ap (λ (r : Step B). r.0) (rw there at e)))
  ]

  at_end-ok :
      (breaks : Bool) (s t : Uploading B)
      → at_end client part_size breaks s ≡ (true, t)
      → (breaks ≡ false) × (finish client part_size s ≡ (true, t))
  unfolding at_end
  at_end-ok true s t e = absurd (false≢true (ap (λ (r : Step B). r.0) e))
  at_end-ok false s t e = (refl, e)

  -- With a part size above zero, an upload that returned sent the bytes of a stream that did not throw,
  -- whatever pieces they came in: as one object where they are less than a part, and otherwise in
  -- numbered parts with which it was completed.
  pub upload-IsUploaded :
      (source : Source) (b : B) {t : Uploading B}
      → 0 < part_size
      → upload_iterable client part_size source b ≡ (true, t)
      → (source.breaks ≡ false) × IsUploaded (join source.chunks) t
  unfolding upload_iterable finish
  upload-IsUploaded source b {t} pos e =
      let empty : Uploading B = record {
        bucket = b;
        sent = [];
        upload_id = none;
        parts = [];
        pending = [];
      } in
      let (s, sent, rest) =
        then_do-ok client part_size (each_chunk client part_size source.chunks empty) _ t
          (give_up-ok _ t e) in
      let (ends, finished) = at_end-ok source.breaks s t rest in
      let (all, h, few) =
        each_chunk-Holds client part_size source.chunks empty s [] [] pos
          (record {
            sent = refl;
            exact = tt;
            whole = unfold join in refl;
            none_yet = λ _. refl;
            counted = refl;
            in_order = tt;
          })
          pos sent in
      (ends, finish_with-IsUploaded s.upload_id s t all (join source.chunks) refl h few finished)
