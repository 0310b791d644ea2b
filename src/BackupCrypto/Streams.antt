-- ===== src/BackupCrypto/Streams.antt =====
-- The two streams, as their `transform` and `flush`, and a run over the pieces of a stream.
use open_vibe_host.Base.{
  ℕ, zero, suc, ◌+◌, Bool, true, false, not, ◌&&◌, List, [], ◌∷◌, ◌++◌, Option, none, some, take,
  drop, length, if◌then◌else◌, ltb, leb, ◌==◌, nat_eq,
}
use open_vibe_host.BackupCrypto.Buffers.{Bytes, read_be, hex, same}
use open_vibe_host.BackupCrypto.Crypto.{Primitives}
use open_vibe_host.BackupCrypto.Keys.{
  CryptoError, bad_master, bad_chunk_size, bad_magic, bad_header_chunk_size, another_key, no_header,
  no_final_chunk, Result, ok, err, key_id, file_key,
}
use open_vibe_host.BackupCrypto.Format.{
  magic, header_len, tag_len, max_chunk, header, seal_chunk, open_chunk,
}

-- The variables that the encrypting stream closes over.
pub record Encrypting : Type 0 where
  pub chunk_size : ℕ
  pub aad : Bytes
  pub key : Bytes
  pub buf : Bytes
  pub index : ℕ
  pub started : Bool

-- What the header of a file gives the decrypting stream: `aad`, `key` and `sealedLen`.
pub record Opening : Type 0 where
  pub aad : Bytes
  pub key : Bytes
  pub sealed_len : ℕ

-- The variables of the decrypting stream; `none` is no header yet.
pub record Decrypting : Type 0 where
  pub opening : Option Opening
  pub buf : Bytes
  pub index : ℕ

-- What a stream pushed, and the state it is left in or the error that ends it.
pub record Pushed (S : Type 0) : Type 0 where
  pub out : List Bytes
  pub next : Result S

abbrev pub after : {S : Type 0} → List Bytes → Pushed S → Pushed S
after out r = record { out = out ++ r.out; next = r.next }

-- The rest of a run, behind what one piece pushed.
abbrev pub followed :
    List Bytes
    → Result Decrypting
    → (Decrypting → List Bytes × Option CryptoError)
    → List Bytes × Option CryptoError
followed out (ok s) rest = (out ++ (rest s).0, (rest s).1)
followed out (err e) rest = (out, some e)

abbrev pub carry_on :
    Pushed Decrypting
    → (Decrypting → List Bytes × Option CryptoError)
    → List Bytes × Option CryptoError
carry_on r rest = followed r.out r.next rest

module _ (p : Primitives) where
  -- `while (buf.length > chunkSize)`; a round for each byte is more than enough.
  unfoldable pub seal_full : ℕ → Encrypting → List Bytes × Encrypting
  seal_full zero s = ([], s)
  seal_full (suc rounds) s =
      let more =
        seal_full rounds (record s { buf = drop s.chunk_size s.buf; index = suc s.index }) in
      if ltb s.chunk_size (length s.buf)
      then (seal_chunk p s.key s.aad s.index false (take s.chunk_size s.buf) ∷ more.0, more.1)
      else ([], s)

  unfoldable pub encrypt_transform : Encrypting → Bytes → List Bytes × Encrypting
  encrypt_transform s chunk =
      let started = if s.started then [] else s.aad ∷ [] in
      let buf = s.buf ++ chunk in
      let (out, s') = seal_full (length buf) (record s { buf = buf; started = true }) in
      (started ++ out, s')

  unfoldable pub encrypt_flush : Encrypting → List Bytes
  encrypt_flush s =
      (if s.started then [] else s.aad ∷ []) ++ seal_chunk p s.key s.aad s.index true s.buf ∷ []

  unfoldable pub encrypt_run : Encrypting → List Bytes → List Bytes
  encrypt_run s [] = encrypt_flush s
  encrypt_run s (chunk ∷ chunks) =
      let (out, s') = encrypt_transform s chunk in out ++ encrypt_run s' chunks

  unfoldable pub create_encrypt_stream : Bytes → ℕ → Bytes → Result Encrypting
  create_encrypt_stream master chunk_size salt =
      if not (length master == 32)
      then err bad_master
      else if not (leb 1 chunk_size && leb chunk_size max_chunk)
      then err bad_chunk_size
      else ok (record {
        chunk_size = chunk_size;
        aad = header p master chunk_size salt;
        key = file_key p master salt;
        buf = [];
        index = 0;
        started = false;
      })

  -- The checks of the header come in this order.
  unfoldable pub read_header : Bytes → Decrypting → Result Decrypting
  read_header master s =
      let h = take header_len s.buf in
      let chunk_size = read_be (take 4 (drop 8 h)) in
      if not (same (take 8 h) magic)
      then err bad_magic
      else if not (leb 1 chunk_size && leb chunk_size max_chunk)
      then err bad_header_chunk_size
      else if not (same (hex (take 8 (drop 44 h))) (key_id p master))
      then err another_key
      else ok (record {
        opening = some (record {
          aad = h;
          key = file_key p master (take 32 (drop 12 h));
          sealed_len = chunk_size + tag_len;
        });
        buf = drop header_len s.buf;
        index = s.index;
      })

  -- `while (buf.length > sealedLen)`
  unfoldable pub open_full : ℕ → Opening → Decrypting → Pushed Decrypting
  open_full zero o s = record { out = []; next = ok s }
  open_full (suc rounds) o s =
      let more = λ (text : Bytes).
        after (text ∷ [])
          (open_full rounds o (record s { buf = drop o.sealed_len s.buf; index = suc s.index })) in
      if ltb o.sealed_len (length s.buf)
      then elim (open_chunk p o.key o.aad s.index false (take o.sealed_len s.buf)) [
        | ok text ↦ more text
        | err e ↦ record { out = []; next = err e }
      ]
      else record { out = []; next = ok s }

  open_buffered : Decrypting → Option Opening → Pushed Decrypting
  open_buffered s none = record { out = []; next = ok s }
  open_buffered s (some o) = open_full (length s.buf) o s

  with_header : Bytes → Option Opening → Decrypting → Result Decrypting
  with_header master none s = if ltb (length s.buf) header_len then ok s else read_header master s
  with_header master (some o) s = ok s

  opened_with : Result Decrypting → Pushed Decrypting
  unfolding open_buffered
  opened_with (ok s) = open_buffered s s.opening
  opened_with (err e) = record { out = []; next = err e }

  unfoldable pub decrypt_transform : Bytes → Decrypting → Bytes → Pushed Decrypting
  unfolding with_header opened_with
  decrypt_transform master s chunk =
      opened_with (with_header master s.opening (record s { buf = s.buf ++ chunk }))

  final_chunk : Decrypting → Option Opening → Result Bytes
  final_chunk s none = err no_header
  final_chunk s (some o) =
      if ltb (length s.buf) tag_len
      then err no_final_chunk
      else open_chunk p o.key o.aad s.index true s.buf

  unfoldable pub decrypt_flush : Decrypting → Result Bytes
  unfolding final_chunk
  decrypt_flush s = final_chunk s s.opening

  -- The buffers pushed, and the error that ended the stream, if one did.
  decrypt_end : Result Bytes → List Bytes × Option CryptoError
  decrypt_end (ok text) = (text ∷ [], none)
  decrypt_end (err e) = ([], some e)

  unfoldable pub decrypt_run : Bytes → Decrypting → List Bytes → List Bytes × Option CryptoError
  unfolding decrypt_end
  decrypt_run master s [] = decrypt_end (decrypt_flush s)
  decrypt_run master s (chunk ∷ chunks) =
      carry_on (decrypt_transform master s chunk) (λ s'. decrypt_run master s' chunks)

unfoldable pub create_decrypt_stream : Bytes → Result Decrypting
create_decrypt_stream master =
    if not (length master == 32)
    then err bad_master
    else ok (record { opening = none; buf = []; index = 0 })

-- The pass-through that hashes and counts: what went in so far, and the count.
pub record Digested : Type 0 where
  pub hashed : Bytes
  pub bytes : ℕ

unfoldable pub tap_transform : Digested → Bytes → Digested
tap_transform t chunk = record { hashed = t.hashed ++ chunk; bytes = t.bytes + length chunk }

unfoldable pub tap_result : Primitives → Digested → List ℕ × ℕ
tap_result p t = (hex (p.sha256 t.hashed), t.bytes)
