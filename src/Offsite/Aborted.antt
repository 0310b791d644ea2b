-- ===== src/Offsite/Aborted.antt =====
-- An upload that fails after the bucket created it is aborted.
use mathlib.Core.Path.{subst}
use open_vibe_host.Base.{
  ℕ, zero, suc, ◌+◌, String, Bool, true, false, Option, none, some, List, [], ◌∷◌, ◌++◌, ◌≡◌, refl,
  sym, ap, ◌∙◌, arith, length, null, leb, take, drop, ◌==◌, string_eq, if◌then◌else◌,
}
use open_vibe_host.BackupCrypto.{Bytes}
use open_vibe_host.Offsite.{
  Client, Request, create_upload, upload_part, complete_upload, put_object, abort_upload, Source,
  Uploading, Step, then_do, asked, created, noted_part, answered, at_end, finish, finish_with,
  open_upload, full_part, full_parts, send_part, give_up, each_chunk, upload_iterable,
}

-- `id` is what the bucket answers to a creation at the start.
module _ {B : Type 0} (client : Client B) (part_size : ℕ) (b : B) (id : String)
    (given : (client.send create_upload b).0 ≡ some (some id)) (filled : (id == "") ≡ false) where
  -- Before the creation nothing was sent; from then on the identifier is the one that was answered.
  data Told (s : Uploading B) : Type 0 where
    fresh : s.sent ≡ [] → s.bucket ≡ b → s.upload_id ≡ none → Told s
    begun : (rest : List Request) → s.sent ≡ create_upload ∷ rest → s.upload_id ≡ some id → Told s

  then_do-Told :
      (m : Step B) (f : Uploading B → Step B)
      → Told m.1
      → ((u : Uploading B) → Told u → Told (f u).1)
      → Told (then_do m f).1
  then_do-Told (true, s) f h k = k s h
  then_do-Told (false, s) f h k = h

  recast :
      (s t : Uploading B)
      → t.sent ≡ s.sent
      → t.bucket ≡ s.bucket
      → t.upload_id ≡ s.upload_id
      → Told s
      → Told t
  recast s t e f g (fresh sent start unnamed) = fresh (e ∙ sent) (f ∙ start) (g ∙ unnamed)
  recast s t e f g (begun rest sent named) = begun rest (e ∙ sent) (g ∙ named)

  opened-Told :
      (o : Option String) (s : Uploading B)
      → s.upload_id ≡ o
      → Told s
      → Told
          (elim o as (λ _. Step B) [
            | some id ↦ (true, s)
            | none ↦ created client part_size (asked client part_size s create_upload)
          ]).1
  unfolding created
  opened-Told (some id') s e h = h
  opened-Told none s e (begun rest sent named) = absurd cc
  opened-Told none s e (fresh sent start unnamed) =
      let answer : (client.send create_upload s.bucket).0 ≡ some (some id) =
        ap (λ (x : B). (client.send create_upload x).0) start ∙ given in
      rw (answer, filled) (begun [] (ap (λ (l : List Request). l ++ create_upload ∷ []) sent) refl)

  open_upload-Told : (s : Uploading B) → Told s → Told (open_upload client part_size s).1
  unfolding open_upload
  open_upload-Told s h = opened-Told s.upload_id s refl h

  noted_part-Told :
      (r : Option (Option String)) (s : Uploading B)
      → Told s
      → Told (noted_part client part_size (r, s)).1
  unfolding noted_part
  noted_part-Told none s h = h
  noted_part-Told (some etag) s h = recast s _ refl refl refl h

  -- A request behind the creation.
  asked-Told :
      (s : Uploading B) (r : Request) (id' : String)
      → s.upload_id ≡ some id'
      → Told s
      → Told (asked client part_size s r).1
  asked-Told s r id' e (fresh sent start unnamed) = absurd cc
  asked-Told s r id' e (begun rest sent named) =
      begun (rest ++ r ∷ []) (ap (λ (l : List Request). l ++ r ∷ []) sent) named

  sent-Told :
      (o : Option String) (buf : Bytes) (s : Uploading B)
      → s.upload_id ≡ o
      → Told s
      → Told
          (elim o as (λ _. Step B) [
            | some id ↦
                noted_part client part_size
                  (asked client part_size s (upload_part id (length s.parts + 1) buf))
            | none ↦ (false, s)
          ]).1
  sent-Told none buf s e h = h
  sent-Told (some id') buf s e h =
      let r = upload_part id' (length s.parts + 1) buf in
      noted_part-Told (asked client part_size s r).0 (asked client part_size s r).1
        (asked-Told s r id' e h)

  send_part-Told :
      (buf : Bytes) (s : Uploading B) → Told s → Told (send_part client part_size buf s).1
  unfolding send_part
  send_part-Told buf s h = sent-Told s.upload_id buf s refl h

  full_part-Told : (s : Uploading B) → Told s → Told (full_part client part_size s).1
  unfolding full_part
  full_part-Told s h =
      let cut = record s { pending = drop part_size s.pending } in
      then_do-Told (open_upload client part_size cut) _
        (open_upload-Told cut (recast s cut refl refl refl h))
        (send_part-Told (take part_size s.pending))

  either-Told : (c : Bool) (m n : Step B) → Told m.1 → Told n.1 → Told (if c then m else n).1
  either-Told true m n h k = h
  either-Told false m n h k = k

  full_parts-Told :
      (rounds : ℕ) (s : Uploading B) → Told s → Told (full_parts client part_size rounds s).1
  unfolding full_parts
  full_parts-Told zero s h = either-Told (leb part_size (length s.pending)) _ _ h h
  full_parts-Told (suc rounds) s h =
      either-Told (leb part_size (length s.pending)) _ _
        (then_do-Told (full_part client part_size s) _ (full_part-Told s h)
          (full_parts-Told rounds))
        h

  each_chunk-Told :
      (chunks : List Bytes) (s : Uploading B)
      → Told s
      → Told (each_chunk client part_size chunks s).1
  unfolding each_chunk
  each_chunk-Told [] s h = h
  each_chunk-Told (c ∷ cs) s h =
      let s' = record s { pending = s.pending ++ c } in
      then_do-Told (full_parts client part_size (length s'.pending) s') _
        (full_parts-Told (length s'.pending) s' (recast s s' refl refl refl h)) (each_chunk-Told cs)

  -- Where nothing was created, the object may have been put as a whole.
  data Over (s : Uploading B) : Type 0 where
    told : Told s → Over s
    put : (buf : Bytes) → s.sent ≡ put_object buf ∷ [] → s.upload_id ≡ none → Over s

  answered_state :
      (r : Option (Option String)) (s : Uploading B) → (answered client part_size (r, s)).1 ≡ s
  unfolding answered
  answered_state none s = refl
  answered_state (some a) s = refl

  answered-Over :
      (s : Uploading B) (r : Request)
      → Over (asked client part_size s r).1
      → Over (answered client part_size (asked client part_size s r)).1
  answered-Over s r h =
      subst Over
        (sym (answered_state (asked client part_size s r).0 (asked client part_size s r).1)) h

  noted_part_id :
      (r : Option (Option String)) (s : Uploading B)
      → (noted_part client part_size (r, s)).1.upload_id ≡ s.upload_id
  unfolding noted_part
  noted_part_id none s = refl
  noted_part_id (some etag) s = refl

  sent_id :
      (o : Option String) (buf : Bytes) (s : Uploading B)
      → (elim o as (λ _. Step B) [
        | some id ↦
            noted_part client part_size
              (asked client part_size s (upload_part id (length s.parts + 1) buf))
        | none ↦ (false, s)
      ]).1.upload_id
        ≡ s.upload_id
  sent_id none buf s = refl
  sent_id (some id') buf s =
      let r = upload_part id' (length s.parts + 1) buf in
      noted_part_id (asked client part_size s r).0 (asked client part_size s r).1

  last_part_id :
      (c : Bool) (buf : Bytes) (s : Uploading B)
      → (if c then (true, s) else send_part client part_size buf s).1.upload_id ≡ s.upload_id
  unfolding send_part
  last_part_id true buf s = refl
  last_part_id false buf s = sent_id s.upload_id buf s

  completed-Over :
      (m : Step B) (id' : String)
      → Told m.1
      → m.1.upload_id ≡ some id'
      → Over
          (then_do m (λ t.
            answered client part_size (asked client part_size t (complete_upload id' t.parts)))).1
  completed-Over (true, u) id' h e =
      let r = complete_upload id' u.parts in answered-Over u r (told (asked-Told u r id' e h))
  completed-Over (false, u) id' h e = told h

  finish_with-Over :
      (o : Option String) (s : Uploading B)
      → s.upload_id ≡ o
      → Told s
      → Over (finish_with client part_size o s).1
  unfolding finish_with
  finish_with-Over none s e (begun rest sent named) = absurd cc
  finish_with-Over none s e (fresh sent start unnamed) =
      answered-Over s (put_object s.pending)
        (put s.pending (ap (λ (l : List Request). l ++ put_object s.pending ∷ []) sent) unnamed)
  finish_with-Over (some id') s e h =
      completed-Over (if null s.pending then (true, s) else send_part client part_size s.pending s)
        id' (either-Told (null s.pending) _ _ h (send_part-Told s.pending s h))
        (last_part_id (null s.pending) s.pending s ∙ e)

  at_end-Over :
      (breaks : Bool) (s : Uploading B) → Told s → Over (at_end client part_size breaks s).1
  unfolding at_end finish
  at_end-Over true s h = told h
  at_end-Over false s h = finish_with-Over s.upload_id s refl h

  over_then :
      (m : Step B) (f : Uploading B → Step B)
      → Told m.1
      → ((u : Uploading B) → Told u → Over (f u).1)
      → Over (then_do m f).1
  over_then (true, s) f h k = k s h
  over_then (false, s) f h k = told h

  abort_last :
      (r : Step B) (t : Uploading B) (rest : List Request)
      → Over r.1
      → give_up client part_size r ≡ (false, t)
      → t.sent ≡ create_upload ∷ rest
      → (before : List Request) × (t.sent ≡ before ++ abort_upload id ∷ [])
  unfolding give_up
  abort_last (true, s) t rest h e c = absurd cc
  abort_last (false, s) t rest (told (begun more sent named)) e c = (s.sent, ground arith)
  abort_last (false, s) t rest (told (fresh sent start unnamed)) e c = absurd (ground arith)
  abort_last (false, s) t rest (put buf sent unnamed) e c = absurd (ground arith)

  -- Where the bucket answers the creation of an upload with an identifier that is not empty: an upload
  -- that failed, whatever failed, and that had sent the creation ends with a request that aborts
  -- the upload of that identifier.
  pub upload_aborts :
      (source : Source) {t : Uploading B} (rest : List Request)
      → upload_iterable client part_size source b ≡ (false, t)
      → t.sent ≡ create_upload ∷ rest
      → (before : List Request) × (t.sent ≡ before ++ abort_upload id ∷ [])
  unfolding upload_iterable
  upload_aborts source {t} rest e c =
      let empty : Uploading B = record {
        bucket = b;
        sent = [];
        upload_id = none;
        parts = [];
        pending = [];
      } in
      abort_last _ t rest
        (over_then (each_chunk client part_size source.chunks empty) _
          (each_chunk-Told source.chunks empty (fresh refl refl refl)) (at_end-Over source.breaks))
        e c
