-- ===== src/BackupCrypto/Written.antt =====
-- What the encrypting stream writes, against the file format as a relation.
pub mod Splits
pub mod Sizes
use mathlib.Core.List.{append_assoc, append-nil}
use open_vibe_host.Base.{
  ℕ, zero, suc, ◌+◌, ◌≤◌, ◌<◌, Bool, true, false, List, [], ◌∷◌, ◌++◌, ◌≡◌, refl, sym, ap, ◌∙◌,
  arith, take, drop, length, length-append, if◌then◌else◌, Bool-cases, inl, inr, ltb, ltb→lt,
  ltb→le,
}
use open_vibe_host.BackupCrypto.Buffers.{Bytes, join, join-append}
use open_vibe_host.Base.{take-drop, length-take, length-drop}
use open_vibe_host.BackupCrypto.Crypto.{Primitives}
use open_vibe_host.BackupCrypto.Format.{seal_chunk}
use open_vibe_host.BackupCrypto.Streams.{
  Encrypting, seal_full, encrypt_transform, encrypt_flush, encrypt_run,
}

-- A text and the chunks that hold it, from the chunk with an index on: each but the last takes
-- `size` bytes and has text behind it, and the last one, which may be empty, carries the final flag.
pub data Sealed (p : Primitives) (key aad : Bytes) (size : ℕ) : ℕ → Bytes → Bytes → Type 0 where
  last :
      {i : ℕ} {text out : Bytes}
      → length text ≤ size
      → out ≡ seal_chunk p key aad i true text
      → Sealed p key aad size i text out
  more :
      {i : ℕ} {text out : Bytes} (full rest others : Bytes)
      → length full ≡ size
      → 0 < length rest
      → text ≡ full ++ rest
      → out ≡ seal_chunk p key aad i false full ++ others
      → Sealed p key aad size (suc i) rest others
      → Sealed p key aad size i text out

module _ (p : Primitives) where
  -- The stream goes from one state to the next by pushing `out`.
  record Goes (s : Encrypting) (out : Bytes) (s' : Encrypting) : Type 0 where
    pub same_size : s'.chunk_size ≡ s.chunk_size
    pub same_key : s'.key ≡ s.key
    pub same_aad : s'.aad ≡ s.aad
    pub same_started : s'.started ≡ s.started
    pub small : length s'.buf ≤ s.chunk_size
    pub writes :
        (rest t : Bytes)
        → Sealed p s.key s.aad s.chunk_size s'.index (s'.buf ++ rest) t
        → Sealed p s.key s.aad s.chunk_size s.index (s.buf ++ rest) (out ++ t)

  seal_full-Goes :
      (rounds : ℕ) (s : Encrypting)
      → 0 < s.chunk_size
      → length s.buf ≤ rounds
      → Goes s (join (seal_full p rounds s).0) (seal_full p rounds s).1
  unfolding seal_full join
  seal_full-Goes zero s pos h = record {
    same_size = refl;
    same_key = refl;
    same_aad = refl;
    same_started = refl;
    small = omega arith;
    writes = λ rest t w. w;
  }
  seal_full-Goes (suc rounds) s pos h = elim (Bool-cases (ltb s.chunk_size (length s.buf))) [
    | inr done ↦ rw done (record {
      same_size = refl;
      same_key = refl;
      same_aad = refl;
      same_started = refl;
      small = ltb→le _ _ done;
      writes = λ rest t w. w;
    })
    | inl full ↦
        let fits = ltb→lt s.chunk_size (length s.buf) full in
        let cut = length-drop s.chunk_size s.buf (omega arith) in
        let ih =
          seal_full-Goes rounds (record s { buf = drop s.chunk_size s.buf; index = suc s.index })
            pos (omega arith) in
        rw full (record {
          same_size = ih.same_size;
          same_key = ih.same_key;
          same_aad = ih.same_aad;
          same_started = ih.same_started;
          small = ih.small;
          writes = λ rest t w.
              more (take s.chunk_size s.buf) (drop s.chunk_size s.buf ++ rest) _
                (length-take _ _ (omega arith))
                (omega (arith, length-append (drop s.chunk_size s.buf) rest))
                (ap (λ b. b ++ rest) (sym (take-drop s.chunk_size s.buf)) ∙ rw append_assoc)
                (rw append_assoc) (ih.writes rest t w);
        })
  ]

  -- The header goes out with the first piece, or with the end of an empty stream.
  abbrev pub head : Encrypting → Bytes
  head s = if s.started then [] else s.aad

  join_head :
      (b : Bool) (aad : Bytes) (xs : List Bytes)
      → join ((if b then [] else aad ∷ []) ++ xs) ≡ (if b then [] else aad) ++ join xs
  unfolding join
  join_head true aad xs = refl
  join_head false aad xs = refl

  moved :
      {key key' aad aad' : Bytes} {size size' i : ℕ} {text out : Bytes}
      → key' ≡ key
      → aad' ≡ aad
      → size' ≡ size
      → Sealed p key' aad' size' i text out
      → Sealed p key aad size i text out
  moved ek ea es w = rw (← ek, ← ea, ← es) w

  pub encrypt_run-Sealed :
      (chunks : List Bytes) (s : Encrypting)
      → 0 < s.chunk_size
      → length s.buf ≤ s.chunk_size
      → (t : Bytes) × (join (encrypt_run p s chunks) ≡ head s ++ t)
        × Sealed p s.key s.aad s.chunk_size s.index (s.buf ++ join chunks) t
  unfolding encrypt_run encrypt_flush encrypt_transform join
  encrypt_run-Sealed [] s pos h = (
    seal_chunk p s.key s.aad s.index true s.buf,
    join_head s.started s.aad _ ∙ ap (λ t. head s ++ t) (append-nil _),
    rw append-nil (last h refl),
  )
  encrypt_run-Sealed (chunk ∷ chunks) s pos h =
      let buf = s.buf ++ chunk in
      let s1 = record s { buf = buf; started = true } in
      let g = seal_full-Goes (length buf) s1 pos (omega arith) in
      let s2 = (seal_full p (length buf) s1).1 in
      let out = (seal_full p (length buf) s1).0 in
      let (t, e, w) = encrypt_run-Sealed chunks s2 (rw g.same_size pos) (rw g.same_size g.small) in
      (
        join out ++ t,
        ap join (append_assoc (if s.started then [] else s.aad ∷ []) out (encrypt_run p s2 chunks))
            ∙ join_head s.started s.aad (out ++ encrypt_run p s2 chunks)
            ∙ ap (λ x. head s ++ x)
                (join-append out (encrypt_run p s2 chunks)
                  ∙ ap (λ x. join out ++ x) (e ∙ rw g.same_started refl)),
        rw (← append_assoc) (g.writes (join chunks) t (moved g.same_key g.same_aad g.same_size w)),
      )
