-- ===== src/BackupCrypto/Written/Splits.antt =====
-- The file depends on the bytes that go in, not on how they come in pieces.
use open_vibe_host.Base.{
  ℕ, ◌≤◌, ◌<◌, false, List, [], ◌++◌, ◌≡◌, sym, ap, ◌∙◌, arith, length, length-append, take, drop,
  nat_eq,
}
use open_vibe_host.BackupCrypto.Buffers.{Bytes, join}
use open_vibe_host.Base.{take-append, drop-append}
use open_vibe_host.BackupCrypto.Crypto.{Primitives}
use open_vibe_host.BackupCrypto.Keys.{ok, file_key}
use open_vibe_host.BackupCrypto.Format.{seal_chunk, header, max_chunk}
use open_vibe_host.BackupCrypto.Streams.{Encrypting, encrypt_run, create_encrypt_stream}
use open_vibe_host.BackupCrypto.Written.{Sealed, last, more, encrypt_run-Sealed}

module _ (p : Primitives) (key aad : Bytes) (size : ℕ) where
  same_cut :
      (full full' rest rest' : Bytes)
      → length full ≡ size
      → length full' ≡ size
      → full ++ rest ≡ full' ++ rest'
      → (full ≡ full') × (rest ≡ rest')
  same_cut full full' rest rest' h h' e = (
    sym (take-append size full rest h) ∙ ap (take size) e ∙ take-append size full' rest' h',
    sym (drop-append size full rest h) ∙ ap (drop size) e ∙ drop-append size full' rest' h',
  )

  too_long :
      {text : Bytes} (full rest : Bytes)
      → length text ≤ size
      → length full ≡ size
      → 0 < length rest
      → text ≡ full ++ rest
      → ⊥
  too_long full rest small h pos e = omega (arith, length-append full rest, ap (length {A = ℕ}) e)

  Sealed-unique :
      {i : ℕ} {text a b : Bytes}
      → Sealed p key aad size i text a
      → Sealed p key aad size i text b
      → a ≡ b
  Sealed-unique (last h e) (last h' e') = e ∙ sym e'
  Sealed-unique (last h e) (more full rest others l pos t e' w) =
      absurd (too_long full rest h l pos t)
  Sealed-unique (more full rest others l pos t e' w) (last h e) =
      absurd (too_long full rest h l pos t)
  Sealed-unique {i} (more full rest others l pos t e w)
        (more full' rest' others' l' pos' t' e' w') =
      let (f, r) = same_cut full full' rest rest' l l' (sym t ∙ t') in
      e
      ∙ ap (λ (x : Bytes). seal_chunk p key aad i false x ++ others) f
      ∙ ap (λ (x : Bytes). seal_chunk p key aad i false full' ++ x) (Sealed-unique w (rw r w'))
      ∙ sym e'

-- What the guards of `createEncryptStream` leave.
module _ (p : Primitives) (master salt : Bytes) (size : ℕ) where
  abbrev pub fresh : Encrypting
  fresh = record {
    chunk_size = size;
    aad = header p master size salt;
    key = file_key p master salt;
    buf = [];
    index = 0;
    started = false;
  }

  pub created :
      {s : Encrypting}
      → create_encrypt_stream p master size salt ≡ ok s
      → (1 ≤ size) × (size ≤ max_chunk) × (length master ≡ 32) × (s ≡ fresh)
  unfolding create_encrypt_stream
  created h = ground arith

  -- Whatever the pieces of the stream, the encrypting stream writes the header of the file and then
  -- the chunks that hold the text as the format says, from index 0 on: each but the last takes the
  -- chunk size, the last one carries the final flag.
  pub encrypt_run-Writes :
      {s : Encrypting} (chunks : List Bytes)
      → create_encrypt_stream p master size salt ≡ ok s
      → (sealed : Bytes) × (join (encrypt_run p s chunks) ≡ header p master size salt ++ sealed)
        × Sealed p (file_key p master salt) (header p master size salt) size 0 (join chunks) sealed
  encrypt_run-Writes chunks h =
      let (pos, top, _, e) = created h in
      rw e (encrypt_run-Sealed p chunks fresh (omega arith) (omega arith))

  -- Two streams that hand over the same bytes in different pieces are written as the same file.
  pub encrypt_run-splits :
      {s : Encrypting} (chunks chunks' : List Bytes)
      → create_encrypt_stream p master size salt ≡ ok s
      → join chunks ≡ join chunks'
      → join (encrypt_run p s chunks) ≡ join (encrypt_run p s chunks')
  encrypt_run-splits chunks chunks' h e =
      let (a, ea, w) = encrypt_run-Writes chunks h in
      let (b, eb, w') = encrypt_run-Writes chunks' h in
      ea
      ∙ ap (λ (x : Bytes). header p master size salt ++ x) (Sealed-unique p _ _ size w (rw e w'))
      ∙ sym eb
