-- ===== src/BackupCrypto/Crypto.antt =====
-- What the file calls in Node's `crypto`, and what it relies on there.
use open_vibe_host.Base.{ℕ, ◌<◌, String, Option, some, ◌≡◌, length, All}
use open_vibe_host.BackupCrypto.Buffers.{Bytes}

pub record Primitives : Type 0 where
  -- AES-256-GCM: key, nonce, additional data, text; the cipher text and the tag
  pub gcm_encrypt : Bytes → Bytes → Bytes → Bytes → Bytes × Bytes
  -- key, nonce, additional data, cipher text, tag; `none` is a throw
  pub gcm_decrypt : Bytes → Bytes → Bytes → Bytes → Bytes → Option Bytes
  -- HKDF-SHA256: master, salt, info, length
  pub hkdf : Bytes → Bytes → String → ℕ → Bytes
  -- HMAC-SHA256: key, message
  pub hmac : Bytes → String → Bytes
  pub sha256 : Bytes → Bytes
  -- `Buffer.from(t, 'base64')`
  pub from_base64 : Bytes → Bytes

-- GCM keeps the length of its text and opens what it sealed; digests are buffers of 32 bytes.
pub record IsSound (p : Primitives) : Type 0 where
  pub same_length :
      (key nonce aad text : Bytes) → length (p.gcm_encrypt key nonce aad text).0 ≡ length text
  pub tag_length : (key nonce aad text : Bytes) → length (p.gcm_encrypt key nonce aad text).1 ≡ 16
  pub opens :
      (key nonce aad text : Bytes)
      → p.gcm_decrypt key nonce aad
          (p.gcm_encrypt key nonce aad text).0
          (p.gcm_encrypt key nonce aad text).1
        ≡ some text
  pub digest_length : (key : Bytes) (message : String) → length (p.hmac key message) ≡ 32
  pub digest_bytes : (key : Bytes) (message : String) → All (λ b. b < 256) (p.hmac key message)
