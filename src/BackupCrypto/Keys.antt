-- ===== src/BackupCrypto/Keys.antt =====
-- Keys: parsing a key file, the fingerprint, and the keys that are derived from the master key.
use open_vibe_host.Base.{
  ℕ, Bool, ◌&&◌, List, [], ◌∷◌, String, false, leb, ◌==◌, nat_eq, ◌||◌, all, take, drop, length,
  if◌then◌else◌,
}
use open_vibe_host.BackupCrypto.Buffers.{Bytes, hex, unhex, is_hex}
use open_vibe_host.BackupCrypto.Crypto.{Primitives}

pub data CryptoError : Type 0 where
  bad_key_file bad_master bad_chunk_size bad_magic bad_header_chunk_size another_key no_header
        no_final_chunk :
      CryptoError
  -- the chunk with this index failed authentication
  altered : ℕ → CryptoError

pub data Result (A : Type 0) : Type 0 where
  ok : A → Result A
  err : CryptoError → Result A

is_base64 : ℕ → Bool
is_base64 c =
    (leb b'A' c && leb c b'Z')
    || (leb b'a' c && leb c b'z')
    || (leb b'0' c && leb c b'9')
    || c == b'+'
    || c == b'/'

-- `/^[0-9a-fA-F]{64}$/`
unfoldable pub is_hex_key : List ℕ → Bool
unfolding is_hex
is_hex_key t = length t == 64 && all is_hex t

is_pad : List ℕ → Bool
is_pad (c ∷ []) = c == b'='
is_pad cs = false

-- `/^[A-Za-z0-9+/]{43}=?$/`
pub is_base64_key : List ℕ → Bool
unfolding is_base64 is_pad
is_base64_key t =
    all is_base64 (take 43 t) && (length t == 43 || (length t == 44 && is_pad (drop 43 t)))

module _ (p : Primitives) where
  -- the text of a key file, trimmed
  unfoldable pub parse_key : List ℕ → Result Bytes
  unfolding is_base64_key
  parse_key t =
      if is_hex_key t
      then ok (unhex t)
      else if is_base64_key t && length (p.from_base64 t) == 32
      then ok (p.from_base64 t)
      else err bad_key_file

  unfoldable pub key_id : Bytes → List ℕ
  key_id master = hex (take 8 (p.hmac master "openvibe-backup key-id v1"))

  unfoldable pub file_key : Bytes → Bytes → Bytes
  file_key master salt = p.hkdf master salt "openvibe-backup v1 file key" 32

  manifest_key : Bytes → Bytes
  manifest_key master = p.hkdf master [] "openvibe-backup v1 manifest" 32

  pub hmac_manifest : Bytes → String → List ℕ
  unfolding manifest_key
  hmac_manifest master body = hex (p.hmac (manifest_key master) body)
