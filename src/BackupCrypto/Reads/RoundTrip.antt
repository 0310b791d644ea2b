-- ===== src/BackupCrypto/Reads/RoundTrip.antt =====
-- Decrypting what was encrypted.
use mathlib.Core.List.{append_assoc, append-nil}
use open_vibe_host.Base.{
  ℕ, ◌+◌, ◌≤◌, ◌<◌, true, false, List, [], ◌∷◌, ◌++◌, ◌≡◌, refl, sym, ap, ◌∙◌, arith, Option, none,
  take, drop, length, length-append, Bool-cases, inl, inr, ltb, ltb→lt, ltb→le, le→ltb, nat_eq,
}
use open_vibe_host.BackupCrypto.Buffers.{
  Bytes, join, join-append, same, same_refl, be, read_be, read_be-be, hex, unhex, capacity,
}
use open_vibe_host.Base.{take-append, drop-append}
use open_vibe_host.BackupCrypto.Crypto.{Primitives, IsSound}
use open_vibe_host.BackupCrypto.Keys.{ok, CryptoError, file_key, key_id}
use open_vibe_host.BackupCrypto.Format.{seal_chunk, header, magic, max_chunk, tag_len}
use open_vibe_host.BackupCrypto.Streams.{
  Opening, Decrypting, open_full, decrypt_run, decrypt_flush, decrypt_transform, Encrypting,
  encrypt_run, create_encrypt_stream, create_decrypt_stream, carry_on, followed, read_header,
}
use open_vibe_host.BackupCrypto.Written.{Sealed, last, more}
use open_vibe_host.BackupCrypto.Written.Splits.{encrypt_run-Writes, created}
use open_vibe_host.BackupCrypto.Written.Sizes.{length-seal_chunk, length-header, unhex-key_id}
use open_vibe_host.BackupCrypto.Reads.{
  reading, open_chunk-seal_chunk, open_full-Resumes, Sealed-tag, first_chunk,
}

-- A run that pushed buffers which hold the text, with no error.
abbrev Gives : Bytes → List Bytes × Option CryptoError → Type 0
Gives text r = (outs : List Bytes) × (r ≡ (outs, none)) × (join outs ≡ text)

module _ (p : Primitives) (sound : IsSound p) (master : Bytes) where
  flush-Gives :
      (o : Opening) (size i : ℕ) (b text : Bytes)
      → o.sealed_len ≡ size + tag_len
      → length b ≤ o.sealed_len
      → Sealed p o.key o.aad size i text b
      → Gives text (decrypt_run p master (reading o b i) [])
  unfolding decrypt_run decrypt_flush join
  flush-Gives o size i b text len h (last small e) = (
    text ∷ [],
    rw
        (
          le→ltb (length b) tag_len (Sealed-tag p sound (last small e)),
          e,
          open_chunk-seal_chunk p sound o.key o.aad i true text,
        )
        refl,
    append-nil text,
  )
  flush-Gives o size i b text len h (more full rest others l pos t e w) = absurd (
      omega (
        arith,
        ap (length {A = ℕ}) e,
        length-append (seal_chunk p o.key o.aad i false full) others,
        length-seal_chunk p sound o.key o.aad i false full,
        Sealed-tag p sound w,
      ))

  -- The text of what was opened already, in front of the text of the rest.
  followed-Gives :
      {text left : Bytes} (texts : List Bytes) (s : Decrypting)
      (rest : Decrypting → List Bytes × Option CryptoError)
      → text ≡ join texts ++ left
      → Gives left (rest s)
      → Gives text (followed texts (ok s) rest)
  followed-Gives texts s rest e (outs, r, j) = (
    texts ++ outs,
    ap (λ (x : List Bytes × Option CryptoError). (texts ++ x.0, x.1)) r,
    join-append texts outs ∙ ap (λ x. join texts ++ x) j ∙ sym e,
  )

  abbrev run : List Bytes → Decrypting → List Bytes × Option CryptoError
  run chunks s = decrypt_run p master s chunks

  piece-Gives :
      (chunk : Bytes) (chunks : List Bytes) (o : Opening) (b : Bytes) (i : ℕ) {text : Bytes}
      → Gives text
          (carry_on (open_full p (length (b ++ chunk)) o (reading o (b ++ chunk) i)) (run chunks))
      → Gives text (run (chunk ∷ chunks) (reading o b i))
  unfolding decrypt_run decrypt_transform
  piece-Gives chunk chunks o b i g = g

  buffered-Gives :
      (chunks : List Bytes) (o : Opening) (size : ℕ) (b : Bytes) (i : ℕ) (text out : Bytes)
      → o.sealed_len ≡ size + tag_len
      → b ++ join chunks ≡ out
      → Sealed p o.key o.aad size i text out
      → Gives text (carry_on (open_full p (length b) o (reading o b i)) (run chunks))
  unfolding join
  buffered-Gives [] o size b i text out len e w =
      let r = open_full-Resumes p sound (length b) o size b [] i text out len (omega arith) e w in
      let rest = r.remaining in
      rw r.ran (
        followed-Gives r.texts (reading o r.buf r.index) (run []) r.whole
          (flush-Gives o size r.index r.buf r.left len r.small (rw append-nil at rest)))
  buffered-Gives (chunk ∷ chunks) o size b i text out len e w =
      let r =
        open_full-Resumes p sound (length b) o size b (join (chunk ∷ chunks)) i text out len
          (omega arith) e w in
      rw r.ran (
        followed-Gives r.texts (reading o r.buf r.index) (run (chunk ∷ chunks)) r.whole (
          piece-Gives chunk chunks o r.buf r.index (
            buffered-Gives chunks o size (r.buf ++ chunk) r.index r.left _ len
              (append_assoc r.buf chunk (join chunks)) r.remaining)))

  module _ (salt : Bytes) (size : ℕ) (salted : length salt ≡ 32) (big : size ≤ max_chunk) where
    abbrev the_header : Bytes
    the_header = header p master size salt

    abbrev the_id : Bytes
    the_id = unhex (key_id p master)

    field_magic : same (take 8 the_header) magic ≡ true
    unfolding header
    field_magic = same_refl magic

    field_size : read_be (take 4 (drop 8 the_header)) ≡ size
    unfolding header be capacity
    field_size = read_be-be 4 size (omega arith)

    field_salt : take 32 (drop 12 the_header) ≡ salt
    unfolding header be
    field_salt = take-append 32 salt _ salted

    field_key_id : hex (take 8 (drop 44 the_header)) ≡ key_id p master
    unfolding header be key_id
    field_key_id =
        ap (λ (x : Bytes). hex (take 8 x)) (drop-append 32 salt the_id salted)
        ∙ ap (λ (x : Bytes). hex (take 8 x)) (sym (append-nil the_id))
        ∙ ap hex (take-append 8 the_id [] (unhex-key_id p sound master).1)
        ∙ ap hex (unhex-key_id p sound master).0

    abbrev the_opening : Opening
    the_opening = record {
      aad = the_header;
      key = file_key p master salt;
      sealed_len = size + tag_len;
    }

    abbrev unread : Bytes → Decrypting
    unread b = record { opening = none; buf = b; index = 0 }

    read_header-header :
        (b : Bytes)
        → 1 ≤ size
        → take 52 b ≡ the_header
        → read_header p master (unread b) ≡ ok (reading the_opening (drop 52 b) 0)
    unfolding read_header
    read_header-header b pos e =
        rw (e, field_magic, field_size, field_salt, field_key_id, same_refl (key_id p master))
          (ground arith)

    -- A run that has not seen the whole header yet.
    unread-Gives :
        (chunks : List Bytes) (b : Bytes) (text sealed : Bytes)
        → 1 ≤ size
        → length b < 52
        → b ++ join chunks ≡ the_header ++ sealed
        → Sealed p (file_key p master salt) the_header size 0 text sealed
        → Gives text (run chunks (unread b))
    unfolding join decrypt_run decrypt_transform
    unread-Gives [] b text sealed pos short e w = absurd (
        omega (
          arith,
          ap (length {A = ℕ}) (sym (append-nil b) ∙ e),
          length-append the_header sealed,
          length-header p sound master salt size salted,
        ))
    unread-Gives (chunk ∷ chunks) b text sealed pos short e w =
        let e' = append_assoc b chunk (join chunks) ∙ e in
        elim (Bool-cases (ltb (length (b ++ chunk)) 52)) [
          | inl still ↦
              rw still (unread-Gives chunks (b ++ chunk) text sealed pos (ltb→lt _ _ still) e' w)
          | inr come ↦
              let b' = b ++ chunk in
              let cut =
                first_chunk p sound 52 b' (join chunks) the_header sealed
                  (length-header p sound master salt size salted) (ltb→le _ _ come) e' in
              rw (come, read_header-header b' pos cut.0)
                (buffered-Gives chunks the_opening size (drop 52 b') 0 text sealed refl cut.1 w)
        ]

-- Where an encrypting stream was created with a master key, a chunk size and a salt of 32 bytes, a
-- decrypting stream can be created with that key; what the first one writes for any pieces of input,
-- handed to the second one in any other pieces, is read with no error, and the buffers that it
-- pushes hold the bytes that went in.
pub decrypt-encrypt :
    (p : Primitives) (master salt : Bytes) (size : ℕ) {s : Encrypting} (chunks pieces : List Bytes)
    → IsSound p
    → create_encrypt_stream p master size salt ≡ ok s
    → length salt ≡ 32
    → join pieces ≡ join (encrypt_run p s chunks)
    → (d : Decrypting) × (outs : List Bytes) × (create_decrypt_stream master ≡ ok d)
      × (decrypt_run p master d pieces ≡ (outs, none))
      × (join outs ≡ join chunks)
unfolding create_decrypt_stream
decrypt-encrypt p master salt size chunks pieces sound h salted e =
    let (pos, big, keyed, _) = created p master salt size h in
    let (sealed, written, w) = encrypt_run-Writes p master salt size chunks h in
    let (outs, r, j) =
      unread-Gives p sound master salt size salted big pieces [] (join chunks) sealed pos
        (omega arith) (e ∙ written) w in
    (unread p sound master salt size salted big [], outs, ground arith, r, j)
