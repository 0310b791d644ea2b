-- ===== src/BackupCrypto/Format.antt =====
-- The file format OVBKAES1: header, nonces, chunks and the size of a file.
use open_vibe_host.Base.{
  ℕ, ◌+◌, ◌-◌, ◌*◌, ◌/◌, Bool, [], ◌∷◌, ◌++◌, Option, none, some, take, drop, length, if◌then◌else◌,
  ltb,
}
use open_vibe_host.BackupCrypto.Buffers.{Bytes, be, unhex}
use open_vibe_host.BackupCrypto.Crypto.{Primitives}
use open_vibe_host.BackupCrypto.Keys.{key_id, Result, ok, err, altered}

abbrev pub magic : Bytes
magic = b'O' ∷ b'V' ∷ b'B' ∷ b'K' ∷ b'A' ∷ b'E' ∷ b'S' ∷ b'1' ∷ []

abbrev pub header_len : ℕ
header_len = 52

abbrev pub tag_len : ℕ
tag_len = 16

abbrev pub default_chunk : ℕ
default_chunk = 1048576

abbrev pub max_chunk : ℕ
max_chunk = 67108864

-- 12 bytes: three zeros, the index in 8 bytes (below 2 ^ 64), and the final flag.
unfoldable pub nonce : ℕ → Bool → Bytes
nonce index final = 0 ∷ 0 ∷ 0 ∷ (be 8 index ++ (if final then 1 else 0) ∷ [])

-- Ciphertext size for a plaintext of so many bytes.
unfoldable pub encrypted_size : ℕ → ℕ → ℕ
encrypted_size plain_bytes chunk_size =
    let chunks = (plain_bytes + chunk_size - 1) / chunk_size in
    header_len + plain_bytes + (if ltb chunks 1 then 1 else chunks) * tag_len

opened : ℕ → Option Bytes → Result Bytes
opened index none = err (altered index)
opened index (some text) = ok text

module _ (p : Primitives) where
  -- The salt has 32 bytes, so that the four parts fill the 52 bytes.
  unfoldable pub header : Bytes → ℕ → Bytes → Bytes
  header master chunk_size salt = magic ++ (be 4 chunk_size ++ (salt ++ unhex (key_id p master)))

  unfoldable pub seal_chunk : Bytes → Bytes → ℕ → Bool → Bytes → Bytes
  seal_chunk key aad index final plain =
      let (text, tag) = p.gcm_encrypt key (nonce index final) aad plain in text ++ tag

  unfoldable pub open_chunk : Bytes → Bytes → ℕ → Bool → Bytes → Result Bytes
  unfolding opened
  open_chunk key aad index final sealed =
      let cut = length sealed - tag_len in
      opened index (p.gcm_decrypt key (nonce index final) aad (take cut sealed) (drop cut sealed))
