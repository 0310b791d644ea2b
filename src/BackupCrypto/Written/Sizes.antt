-- ===== src/BackupCrypto/Written/Sizes.antt =====
-- The length of a file.
use native.Mathlib.Nat.{add-div_left, le-div_iff_mul-le, div-lt_iff_lt-mul}
use open_vibe_host.Base.{
  ℕ, zero, suc, ◌+◌, ◌-◌, ◌≤◌, ◌<◌, List, [], ◌∷◌, ◌++◌, ◌≡◌, ap, ◌∙◌, arith, length, length-append,
  take, true, false, Bool, All,
}
use open_vibe_host.BackupCrypto.Buffers.{Bytes, join, be, length-be, unhex, hex, unhex-hex}
use open_vibe_host.Base.{length-take}
use open_vibe_host.BackupCrypto.Crypto.{Primitives, IsSound}
use open_vibe_host.BackupCrypto.Keys.{ok, key_id}
use open_vibe_host.BackupCrypto.Format.{seal_chunk, header, encrypted_size, nonce}
use open_vibe_host.BackupCrypto.Streams.{Encrypting, encrypt_run, create_encrypt_stream}
use open_vibe_host.BackupCrypto.Written.{Sealed, last, more}
use open_vibe_host.BackupCrypto.Written.Splits.{encrypt_run-Writes, created}

-- `encryptedSize` without the header: the same for one chunk, and a chunk more.
small_size : (n size : ℕ) → 0 < size → n ≤ size → encrypted_size n size ≡ 52 + n + 16
unfolding encrypted_size
small_size n size pos h =
    ground (arith, (div-lt_iff_lt-mul {k = size} {x = n + size - 1} {y = 2} pos).1 (omega arith))

next_size :
    (n size : ℕ)
    → 0 < size
    → 0 < n
    → encrypted_size (size + n) size ≡ encrypted_size n size + size + 16
unfolding encrypted_size
next_size n size pos h =
    let at_least = (le-div_iff_mul-le {k = size} {x = 1} {y = n + size - 1} pos).1 (omega arith) in
    let shifted = add-div_left (n + size - 1) {k = size} pos in
    let moved : size + n + size - 1 ≡ size + (n + size - 1) = omega arith in
    rw moved (rw shifted (ground (arith, at_least)))

length-unhex-hex : (bs : Bytes) → All (λ b. b < 256) bs → length (unhex (hex bs)) ≡ length bs
length-unhex-hex bs h = ap (length {A = ℕ}) (unhex-hex bs h)

All-take : (n : ℕ) (bs : Bytes) → All (λ b. b < 256) bs → All (λ b. b < 256) (take n bs)
All-take zero bs h = tt
All-take (suc n) [] h = tt
All-take (suc n) (b ∷ bs) (h, hs) = (h, All-take n bs hs)

module _ (p : Primitives) (sound : IsSound p) where
  pub length-seal_chunk :
      (key aad : Bytes) (i : ℕ) (final : Bool) (text : Bytes)
      → length (seal_chunk p key aad i final text) ≡ length text + 16
  unfolding seal_chunk
  length-seal_chunk key aad i final text =
      let sealed = p.gcm_encrypt key (nonce i final) aad text in
      omega (
        arith,
        length-append sealed.0 sealed.1,
        sound.same_length key (nonce i final) aad text,
        sound.tag_length key (nonce i final) aad text,
      )

  pub unhex-key_id :
      (master : Bytes)
      → (unhex (key_id p master) ≡ take 8 (p.hmac master "openvibe-backup key-id v1"))
        × (length (unhex (key_id p master)) ≡ 8)
  unfolding key_id
  unhex-key_id master =
      let digest = p.hmac master "openvibe-backup key-id v1" in
      let back = unhex-hex (take 8 digest) (All-take 8 digest (sound.digest_bytes master _)) in
      (
        back,
        ap (length {A = ℕ}) back
            ∙ length-take 8 digest
                (omega (arith, sound.digest_length master "openvibe-backup key-id v1")),
      )

  pub length-header :
      (master salt : Bytes) (size : ℕ) → length salt ≡ 32 → length (header p master size salt) ≡ 52
  unfolding header
  length-header master salt size h =
      let id = unhex (key_id p master) in
      omega (
        arith,
        length-append (be 4 size) (salt ++ id),
        length-append salt id,
        length-be 4 size,
        (unhex-key_id master).1,
      )

  Sealed-length :
      {key aad : Bytes} {size i : ℕ} {text out : Bytes}
      → 0 < size
      → Sealed p key aad size i text out
      → 52 + length out ≡ encrypted_size (length text) size
  Sealed-length {key} {aad} {size} {i} {text} pos (last h e) = omega (
    arith,
    small_size (length text) size pos h,
    ap (length {A = ℕ}) e,
    length-seal_chunk key aad i true text,
  )
  Sealed-length {key} {aad} {size} {i} {text} pos (more full rest others l h t e w) = rw t (
      omega (
        arith,
        ap (λ (n : ℕ). encrypted_size n size)
            (length-append full rest ∙ ap (λ (n : ℕ). n + length rest) l),
        next_size (length rest) size pos h,
        ap (length {A = ℕ}) e,
        length-append (seal_chunk p key aad i false full) others,
        length-seal_chunk key aad i false full,
        Sealed-length pos w,
      ))

  -- A file has exactly the length that `encryptedSize` computes from the number of bytes that went
  -- in, whatever the pieces they came in, if the salt has 32 bytes and the stream was created.
  pub encrypt_run-size :
      (master salt : Bytes) (size : ℕ) {s : Encrypting} (chunks : List Bytes)
      → create_encrypt_stream p master size salt ≡ ok s
      → length salt ≡ 32
      → length (join (encrypt_run p s chunks)) ≡ encrypted_size (length (join chunks)) size
  encrypt_run-size master salt size chunks h l =
      let (out, e, w) = encrypt_run-Writes p master salt size chunks h in
      let (pos, _, _, _) = created p master salt size h in
      omega (
        arith,
        ap (length {A = ℕ}) e,
        length-append (header p master size salt) out,
        length-header master salt size l,
        Sealed-length (omega arith) w,
      )
