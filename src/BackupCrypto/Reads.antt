-- ===== src/BackupCrypto/Reads.antt =====
-- What the decrypting stream reads: every file of the format, in whatever pieces it comes.
pub mod RoundTrip
use mathlib.Core.List.{append_assoc, append-nil}
use open_vibe_host.Base.{
  ℕ, zero, suc, ◌+◌, ◌-◌, ◌≤◌, ◌<◌, Bool, true, false, List, [], ◌∷◌, ◌++◌, ◌≡◌, refl, sym, ap, ◌∙◌,
  arith, Option, none, some, take, drop, length, length-append, if◌then◌else◌, Bool-cases, inl, inr,
  ltb, ltb→lt, ltb→le, le→ltb, lt→ltb,
}
use open_vibe_host.BackupCrypto.Buffers.{Bytes, join, join-append}
use open_vibe_host.Base.{take-append, drop-append, take-append_le, drop-append_le, length-drop}
use open_vibe_host.BackupCrypto.Crypto.{Primitives, IsSound}
use open_vibe_host.BackupCrypto.Keys.{ok, Result}
use open_vibe_host.BackupCrypto.Format.{seal_chunk, open_chunk, nonce, tag_len}
use open_vibe_host.BackupCrypto.Streams.{
  Opening, Decrypting, Pushed, after, open_full, decrypt_run, decrypt_flush, decrypt_transform,
}
use open_vibe_host.BackupCrypto.Written.{Sealed, last, more}
use open_vibe_host.BackupCrypto.Written.Sizes.{length-seal_chunk}

abbrev pub reading : Opening → Bytes → ℕ → Decrypting
reading o b i = record { opening = some o; buf = b; index = i }

module _ (p : Primitives) (sound : IsSound p) where
  pub open_chunk-seal_chunk :
      (key aad : Bytes) (i : ℕ) (final : Bool) (text : Bytes)
      → open_chunk p key aad i final (seal_chunk p key aad i final text) ≡ ok text
  unfolding open_chunk seal_chunk
  open_chunk-seal_chunk key aad i final text =
      let sealed = p.gcm_encrypt key (nonce i final) aad text in
      let cut : length sealed.0 ≡ length (sealed.0 ++ sealed.1) - tag_len =
        omega
          (arith, length-append sealed.0 sealed.1, sound.tag_length key (nonce i final) aad text) in
      rw
        (
          take-append (length (sealed.0 ++ sealed.1) - tag_len) sealed.0 sealed.1 cut,
          drop-append (length (sealed.0 ++ sealed.1) - tag_len) sealed.0 sealed.1 cut,
          sound.opens key (nonce i final) aad text,
        )
        refl

  Sealed-tag :
      {key aad : Bytes} {size i : ℕ} {text out : Bytes}
      → Sealed p key aad size i text out
      → 16 ≤ length out
  Sealed-tag {key} {aad} {i = i} {text = text} (last h e) =
      omega (arith, ap (length {A = ℕ}) e, length-seal_chunk p sound key aad i true text)
  Sealed-tag {key} {aad} {i = i} (more full rest others l h t e w) = omega (
    arith,
    ap (length {A = ℕ}) e,
    length-append (seal_chunk p key aad i false full) others,
    length-seal_chunk p sound key aad i false full,
  )

  -- The loop opened some chunks of a file and stopped in front of others.
  record Resumes (o : Opening) (size : ℕ) (b rest text : Bytes) (r : Pushed Decrypting)
      : Type 0 where
    pub buf : Bytes
    pub index : ℕ
    pub left : Bytes
    pub texts : List Bytes
    pub ran :
        r
        ≡ record { out = texts; next = ok (record { opening = some o; buf = buf; index = index }) }
    pub small : length buf ≤ o.sealed_len
    pub whole : text ≡ join texts ++ left
    pub remaining : Sealed p o.key o.aad size index left (buf ++ rest)

  open_full_done :
      (rounds : ℕ) (o : Opening) (s : Decrypting)
      → ltb o.sealed_len (length s.buf) ≡ false
      → open_full p rounds o s ≡ record { out = []; next = ok s }
  unfolding open_full
  open_full_done zero o s h = refl
  open_full_done (suc rounds) o s h = rw h refl

  open_full_next :
      (rounds : ℕ) (o : Opening) (s : Decrypting) (text : Bytes)
      → ltb o.sealed_len (length s.buf) ≡ true
      → open_chunk p o.key o.aad s.index false (take o.sealed_len s.buf) ≡ ok text
      → open_full p (suc rounds) o s
        ≡ after
            (text ∷ [])
            (open_full p rounds o (record s { buf = drop o.sealed_len s.buf; index = suc s.index }))
  unfolding open_full
  open_full_next rounds o s text h e = rw (h, e) refl

  stops :
      (rounds : ℕ) (o : Opening) (size : ℕ) (b rest : Bytes) (i : ℕ) (text : Bytes)
      → ltb o.sealed_len (length b) ≡ false
      → Sealed p o.key o.aad size i text (b ++ rest)
      → Resumes o size b rest text (open_full p rounds o (reading o b i))
  stops rounds o size b rest i text h w = record {
    buf = b;
    index = i;
    left = text;
    texts = [];
    ran = open_full_done rounds o (reading o b i) h;
    small = ltb→le o.sealed_len (length b) h;
    whole = unfold join in refl;
    remaining = w;
  }

  -- A buffer longer than the sealed length begins with the whole of the first chunk.
  first_chunk :
      (n : ℕ) (b rest chunk others : Bytes)
      → length chunk ≡ n
      → n ≤ length b
      → b ++ rest ≡ chunk ++ others
      → (take n b ≡ chunk) × (drop n b ++ rest ≡ others)
  first_chunk n b rest chunk others l h e = (
    sym (take-append_le n b rest (omega arith)) ∙ ap (take n) e ∙ take-append n chunk others l,
    sym (drop-append_le n b rest (omega arith)) ∙ ap (drop n) e ∙ drop-append n chunk others l,
  )

  open_full-Resumes :
      (rounds : ℕ) (o : Opening) (size : ℕ) (b rest : Bytes) (i : ℕ) (text out : Bytes)
      → o.sealed_len ≡ size + tag_len
      → length b ≤ rounds
      → b ++ rest ≡ out
      → Sealed p o.key o.aad size i text out
      → Resumes o size b rest text (open_full p rounds o (reading o b i))
  unfolding join
  open_full-Resumes zero o size b rest i text out len h e w =
      stops zero o size b rest i text (le→ltb _ _ (omega arith)) (rw e w)
  open_full-Resumes (suc rounds) o size b rest i text out len h e (last small sealed) =
      stops (suc rounds) o size b rest i text
        (le→ltb o.sealed_len (length b) (
          omega (
            arith,
            length-append b rest,
            ap (length {A = ℕ}) e,
            ap (length {A = ℕ}) sealed,
            length-seal_chunk p sound o.key o.aad i true text,
          )))
        (rw e (last small sealed))
  open_full-Resumes (suc rounds) o size b rest i text out len h e
        (more full rest' others l pos t sealed w) =
      elim (Bool-cases (ltb o.sealed_len (length b))) [
        | inr done ↦
            stops (suc rounds) o size b rest i text done
              (rw e (more full rest' others l pos t sealed w))
        | inl past ↦
            let chunk = seal_chunk p o.key o.aad i false full in
            let cut =
              first_chunk o.sealed_len b rest chunk others
                (length-seal_chunk p sound o.key o.aad i false full ∙ omega arith)
                (omega (arith, ltb→lt o.sealed_len (length b) past)) (e ∙ sealed) in
            let step =
              open_full_next rounds o (reading o b i) full past
                (rw cut.0 (open_chunk-seal_chunk o.key o.aad i false full)) in
            let ih =
              open_full-Resumes rounds o size (drop o.sealed_len b) rest (suc i) rest' others len
                (omega (
                  arith,
                  length-drop o.sealed_len b (omega (arith, ltb→lt o.sealed_len (length b) past)),
                ))
                cut.1 w in
            record {
              buf = ih.buf;
              index = ih.index;
              left = ih.left;
              texts = full ∷ ih.texts;
              ran = step ∙ ap (after (full ∷ [])) ih.ran;
              small = ih.small;
              whole =
                  t
                  ∙ ap (λ x. full ++ x) ih.whole
                  ∙ sym (append_assoc full (join ih.texts) ih.left);
              remaining = ih.remaining;
            }
      ]
