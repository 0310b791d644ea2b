-- ===== src/Offsite/Parts.antt =====
-- The requests of an upload that has sent some parts.
use mathlib.Core.List.{append_assoc, append-nil}
use mathlib.Core.Bool.{false≢true}
use mathlib.Core.Path.{subst}
use open_vibe_host.Base.{
  ℕ, zero, suc, ◌+◌, ◌≤◌, ◌<◌, String, true, false, Option, none, some, List, [], ◌∷◌, ◌++◌, ◌≡◌,
  refl, sym, ap, ◌∙◌, arith, All, All-append, take, drop, length, length-append, length-take,
  length-drop, take-drop, leb, leb→le, leb→gt, Bool-cases, Option-cases, inl, inr, is_some,
  string_eq,
}
use open_vibe_host.BackupCrypto.{Bytes, join, join-append}
use open_vibe_host.Offsite.{
  Client, Part, Request, create_upload, upload_part, Uploading, Step, then_do, open_upload,
  send_part, full_part, full_parts, each_chunk,
}

-- The parts of an upload, numbered from `n` on.
abbrev pub numbered : String → ℕ → List Bytes → List Request
numbered id n [] = []
numbered id n (b ∷ bs) = upload_part id n b ∷ numbered id (suc n) bs

-- What was sent for some full parts: nothing before the upload is created.
abbrev pub begun : Option String → List Bytes → List Request
begun none full = []
begun (some id) full = create_upload ∷ numbered id 1 full

abbrev pub IsNumbered : ℕ → List Part → Type 0
IsNumbered n [] = Unit
IsNumbered n (p ∷ ps) = (p.number ≡ n) × IsNumbered (suc n) ps

numbered-snoc :
    (id : String) (n : ℕ) (bs : List Bytes) (b : Bytes)
    → numbered id n (bs ++ b ∷ []) ≡ numbered id n bs ++ upload_part id (n + length bs) b ∷ []
numbered-snoc id n [] b = ap (λ (k : ℕ). upload_part id k b ∷ []) (omega arith)
numbered-snoc id n (c ∷ bs) b =
    ap (λ (l : List Request). upload_part id n c ∷ l)
      (numbered-snoc id (suc n) bs b
        ∙ ap (λ (k : ℕ). numbered id (suc n) bs ++ upload_part id k b ∷ []) (omega arith))

IsNumbered-snoc :
    (n : ℕ) (ps : List Part) (p : Part)
    → IsNumbered n ps
    → p.number ≡ n + length ps
    → IsNumbered n (ps ++ p ∷ [])
IsNumbered-snoc n [] p i e = (omega arith, tt)
IsNumbered-snoc n (q ∷ ps) p (h, i) e = (h, IsNumbered-snoc (suc n) ps p i (omega arith))

module _ {B : Type 0} (client : Client B) (part_size : ℕ) where
  -- The state of an upload that took some bytes: the full parts, sent in order, hold what is no
  -- longer pending.
  pub record Holds (s : Uploading B) (full : List Bytes) (taken : Bytes) : Type 0 where
    pub sent : s.sent ≡ begun s.upload_id full
    pub exact : All (λ b. length b ≡ part_size) full
    pub whole : taken ≡ join full ++ s.pending
    pub none_yet : s.upload_id ≡ none → full ≡ []
    pub counted : length s.parts ≡ length full
    pub in_order : IsNumbered 1 s.parts

  open_upload-Holds :
      (s t : Uploading B) (full : List Bytes) (taken : Bytes)
      → Holds s full taken
      → open_upload client part_size s ≡ (true, t)
      → (is_some t.upload_id ≡ true) × (t.pending ≡ s.pending) × Holds t full taken
  unfolding open_upload
  open_upload-Holds s t full taken h e = ground arith

  abbrev with_part : Uploading B → String → Option String → Bytes → B → Uploading B
  with_part s id etag buf b = record s {
    bucket = b;
    sent = s.sent ++ upload_part id (length s.parts + 1) buf ∷ [];
    parts = s.parts ++ record { etag = etag; number = length s.parts + 1 } ∷ [];
  }

  send_part-ok :
      (s t : Uploading B) (buf : Bytes)
      → send_part client part_size buf s ≡ (true, t)
      → (id : String) × (etag : Option String) × (b : B) × (s.upload_id ≡ some id)
        × (t ≡ with_part s id etag buf b)
  unfolding send_part
  send_part-ok s t buf e = elim (Option-cases s.upload_id) [
    | inl missing ↦ absurd (false≢true (ap (λ (r : Step B). r.0) (rw missing at e)))
    | inr (id, there) ↦
        let r = client.send (upload_part id (length s.parts + 1) buf) s.bucket in
        elim (Option-cases r.0) [
          | inl thrown ↦ absurd (ground arith)
          | inr (etag, answer) ↦ (id, etag, r.1, there, ground arith)
        ]
  ]

  sent_more :
      (s : Uploading B) (id : String) (full : List Bytes) (buf : Bytes)
      → s.upload_id ≡ some id
      → s.sent ≡ begun s.upload_id full
      → length s.parts ≡ length full
      → s.sent ++ upload_part id (length s.parts + 1) buf ∷ []
        ≡ begun s.upload_id (full ++ buf ∷ [])
  sent_more s id full buf there h c =
      rw (h, there, numbered-snoc id 1 full buf)
        (ap (λ (k : ℕ). create_upload ∷ numbered id 1 full ++ upload_part id k buf ∷ [])
          (omega arith))

  -- A part that was taken from the front of what is pending is sent.
  pub send_part-Holds :
      (s t : Uploading B) (full : List Bytes) (buf : Bytes)
      → send_part client part_size buf s ≡ (true, t)
      → s.sent ≡ begun s.upload_id full
      → length s.parts ≡ length full
      → IsNumbered 1 s.parts
      → (t.sent ≡ begun t.upload_id (full ++ buf ∷ []))
        × (t.pending ≡ s.pending)
        × (length t.parts ≡ length (full ++ buf ∷ []))
        × IsNumbered 1 t.parts
        × (t.upload_id ≡ s.upload_id)
        × (is_some t.upload_id ≡ true)
  send_part-Holds s t full buf e h c i =
      let (id, etag, b, there, made) = send_part-ok s t buf e in
      rw made (
        sent_more s id full buf there h c,
        refl,
        omega (
          arith,
          length-append s.parts (record { etag = etag; number = length s.parts + 1 } ∷ []),
          length-append full (buf ∷ []),
        ),
        IsNumbered-snoc 1 s.parts _ i (omega arith),
        refl,
        rw there refl,
      )

  pub then_do-ok :
      (m : Step B) (f : Uploading B → Step B) (t : Uploading B)
      → then_do m f ≡ (true, t)
      → (u : Uploading B) × (m ≡ (true, u)) × (f u ≡ (true, t))
  then_do-ok (true, u) f t e = (u, refl, e)
  then_do-ok (false, u) f t e = absurd (false≢true (ap (λ (r : Step B). r.0) e))

  cut_whole :
      (full : List Bytes) (n : ℕ) (pending : Bytes)
      → join full ++ pending ≡ join (full ++ take n pending ∷ []) ++ drop n pending
  unfolding join
  cut_whole full n pending =
      ap (λ (x : Bytes). join full ++ x) (sym (take-drop n pending))
      ∙ sym (append_assoc (join full) (take n pending) (drop n pending))
      ∙ ap (λ (x : Bytes). (join full ++ x) ++ drop n pending) (sym (append-nil (take n pending)))
      ∙ ap (λ (x : Bytes). x ++ drop n pending) (sym (join-append full (take n pending ∷ [])))

  full_part-Holds :
      (s t : Uploading B) (full : List Bytes) (taken : Bytes)
      → part_size ≤ length s.pending
      → Holds s full taken
      → full_part client part_size s ≡ (true, t)
      → Holds t (full ++ take part_size s.pending ∷ []) taken
        × (t.pending ≡ drop part_size s.pending)
  unfolding full_part
  full_part-Holds s t full taken l h e =
      let buf = take part_size s.pending in
      let cut = record s { pending = drop part_size s.pending } in
      let (u, opened, sent) = then_do-ok (open_upload client part_size cut) _ t e in
      let (there, left, hu) =
        open_upload-Holds cut u full (join full ++ drop part_size s.pending)
          (record {
            sent = h.sent;
            exact = h.exact;
            whole = refl;
            none_yet = h.none_yet;
            counted = h.counted;
            in_order = h.in_order;
          })
          opened in
      let (more, kept, counted, in_order, same, given) =
        send_part-Holds u t full buf sent hu.sent hu.counted hu.in_order in
      (
        record {
          sent = more;
          exact = All-append _ full (buf ∷ []) h.exact (length-take part_size s.pending l, tt);
          whole =
              h.whole
              ∙ cut_whole full part_size s.pending
              ∙ ap (λ (x : Bytes). join (full ++ buf ∷ []) ++ x) (sym (kept ∙ left));
          none_yet = λ no. absurd (false≢true (sym (ap is_some no) ∙ given));
          counted = counted;
          in_order = in_order;
        },
        kept ∙ left,
      )

  stay :
      (s t : Uploading B) (full : List Bytes) (taken : Bytes)
      → Holds s full taken
      → length s.pending < part_size
      → ◌≡◌ {A = Step B} (true, s) (true, t)
      → Holds t full taken × (length t.pending < part_size)
  stay s t full taken h l e =
      subst (λ (u : Uploading B). Holds u full taken × (length u.pending < part_size))
        (ap (λ (r : Step B). r.1) e) (h, l)

  full_parts-Holds :
      (rounds : ℕ) (s t : Uploading B) (full : List Bytes) (taken : Bytes)
      → 0 < part_size
      → length s.pending ≤ rounds
      → Holds s full taken
      → full_parts client part_size rounds s ≡ (true, t)
      → (all : List Bytes) × Holds t all taken × (length t.pending < part_size)
  unfolding full_parts
  full_parts-Holds zero s t full taken pos l h e =
      let short : leb part_size (length s.pending) ≡ false = ground arith in
      let (kept, few) = stay s t full taken h (omega arith) (rw short at e) in (full, kept, few)
  full_parts-Holds (suc rounds) s t full taken pos l h e =
      elim (Bool-cases (leb part_size (length s.pending))) [
        | inr short ↦
            let (kept, few) =
              stay s t full taken h (leb→gt part_size (length s.pending) short) (rw short at e) in
            (full, kept, few)
        | inl long ↦
            let (u, sent, rest) = then_do-ok (full_part client part_size s) _ t (rw long at e) in
            let (hu, left) = full_part-Holds s u full taken (leb→le _ _ long) h sent in
            full_parts-Holds rounds u t _ taken pos
              (omega (
                arith,
                ap (length {A = ℕ}) left,
                length-drop part_size s.pending (leb→le _ _ long),
              ))
              hu rest
      ]

  pub each_chunk-Holds :
      (chunks : List Bytes) (s t : Uploading B) (full : List Bytes) (taken : Bytes)
      → 0 < part_size
      → Holds s full taken
      → length s.pending < part_size
      → each_chunk client part_size chunks s ≡ (true, t)
      → (all : List Bytes) × Holds t all (taken ++ join chunks) × (length t.pending < part_size)
  unfolding each_chunk join
  each_chunk-Holds [] s t full taken pos h l e =
      let (kept, few) = stay s t full taken h l e in (full, rw append-nil kept, few)
  each_chunk-Holds (c ∷ cs) s t full taken pos h l e =
      let s' = record s { pending = s.pending ++ c } in
      let (u, parts, rest) =
        then_do-ok (full_parts client part_size (length s'.pending) s') _ t e in
      let (all, hu, few) =
        full_parts-Holds (length s'.pending) s' u full (taken ++ c) pos (omega arith)
          (record {
            sent = h.sent;
            exact = h.exact;
            whole = ap (λ (x : Bytes). x ++ c) h.whole ∙ append_assoc (join full) s.pending c;
            none_yet = h.none_yet;
            counted = h.counted;
            in_order = h.in_order;
          })
          parts in
      rw (← append_assoc) (each_chunk-Holds cs u t all (taken ++ c) pos hu few rest)
