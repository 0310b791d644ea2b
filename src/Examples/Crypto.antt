-- ===== src/Examples/Crypto.antt =====
-- Backups that leave the host: a cipher that only tags its text with the nonce, and a file of five
-- bytes in chunks of two.
use mathlib.Core.List.{append-nil}
use open_vibe_host.Base.{
  ℕ, ◌≡◌, List, [], ◌∷◌, ◌++◌, none, some, false, refl, arith, length, length-append, take,
  if◌then◌else◌, nat_eq,
}
use open_vibe_host.BackupCrypto.{
  Bytes, join, Primitives, IsSound, ok, header, encrypted_size, Encrypting, Decrypting, file_key,
  key_id, seal_chunk, nonce, be, same, same_refl, create_encrypt_stream, create_decrypt_stream,
  encrypt_run, encrypt_transform, encrypt_flush, seal_full, decrypt_run, default_chunk, parse_key,
  hex, unhex, is_hex_key, is_hex,
}
use open_vibe_host.Base.{length-take}
use open_vibe_host.BackupCrypto.Written.{Sealed}
use open_vibe_host.BackupCrypto.Written.Splits.{encrypt_run-Writes, encrypt_run-splits, fresh}
use open_vibe_host.BackupCrypto.Written.Sizes.{encrypt_run-size}
use open_vibe_host.BackupCrypto.Reads.RoundTrip.{decrypt-encrypt}
use open_vibe_host.BackupCrypto.Laws.{nonce-injective, parse_key-Serves}

abbrev sixteen : Bytes
sixteen = 0 ∷ 0 ∷ 0 ∷ 0 ∷ 0 ∷ 0 ∷ 0 ∷ 0 ∷ 0 ∷ 0 ∷ 0 ∷ 0 ∷ 0 ∷ 0 ∷ 0 ∷ 0 ∷ []

abbrev digest : Bytes
digest = sixteen ++ sixteen

abbrev tag_of : Bytes → Bytes
tag_of n = take 16 (n ++ sixteen)

abbrev tagging : Primitives
tagging = record {
  gcm_encrypt = λ key n aad text. (text, tag_of n);
  gcm_decrypt = λ key n aad text tag. if same tag (tag_of n) then some text else none;
  hkdf = λ master salt info size. master;
  hmac = λ key message. digest;
  sha256 = λ bytes. digest;
  from_base64 = λ t. t;
}

opens_tagged :
    (n text : Bytes) → (if same (tag_of n) (tag_of n) then some text else none) ≡ some text
opens_tagged n text = rw (same_refl (tag_of n)) refl

tagging-IsSound : IsSound tagging
tagging-IsSound = record {
  same_length = λ key n aad text. refl;
  tag_length =
      λ key n aad text. length-take 16 (n ++ sixteen) (omega (arith, length-append n sixteen));
  opens = λ key n aad text. opens_tagged n text;
  digest_length = λ key message. refl;
  digest_bytes = λ key message. omega arith;
}

one_piece : (b : Bytes) → join (b ∷ []) ≡ b
unfolding join
one_piece b = append-nil b

abbrev two : List Bytes
two = (1 ∷ 2 ∷ 3 ∷ []) ∷ (4 ∷ 5 ∷ []) ∷ []

abbrev one_by_one : List Bytes
one_by_one = (1 ∷ []) ∷ (2 ∷ []) ∷ (3 ∷ []) ∷ (4 ∷ []) ∷ (5 ∷ []) ∷ []

abbrev stream : Encrypting
stream = fresh tagging digest digest 2

stream_created : create_encrypt_stream tagging digest 2 digest ≡ ok stream
unfolding create_encrypt_stream
stream_created = refl

encrypt_run-Writes_example :
    (sealed : Bytes) × (join (encrypt_run tagging stream two)
      ≡ header tagging digest 2 digest ++ sealed)
    × Sealed tagging
        (file_key tagging digest digest)
        (header tagging digest 2 digest)
        2
        0
        (join two)
        sealed
encrypt_run-Writes_example = encrypt_run-Writes tagging digest digest 2 two stream_created

encrypt_run-splits_example :
    join (encrypt_run tagging stream two) ≡ join (encrypt_run tagging stream one_by_one)
encrypt_run-splits_example =
    encrypt_run-splits tagging digest digest 2 two one_by_one stream_created (unfold join in refl)

encrypt_run-size_example :
    length (join (encrypt_run tagging stream two)) ≡ encrypted_size (length (join two)) 2
encrypt_run-size_example =
    encrypt_run-size tagging tagging-IsSound digest digest 2 two stream_created refl

decrypt-encrypt_example :
    (d : Decrypting) × (outs : List Bytes) × (create_decrypt_stream digest ≡ ok d)
    × (decrypt_run tagging digest d (join (encrypt_run tagging stream two) ∷ []) ≡ (outs, none))
    × (join outs ≡ join two)
decrypt-encrypt_example =
    decrypt-encrypt tagging digest digest 2 two (join (encrypt_run tagging stream two) ∷ [])
      tagging-IsSound stream_created refl (one_piece (join (encrypt_run tagging stream two)))

nonce-injective_example : (◌≡◌ {A = ℕ} 3 3) × (false ≡ false)
nonce-injective_example = nonce-injective 3 3 false false (omega arith) (omega arith) refl

abbrev key_text : List ℕ
key_text =
    let eight = b'0' ∷ b'1' ∷ b'2' ∷ b'3' ∷ b'9' ∷ b'a' ∷ b'f' ∷ b'F' ∷ [] in
    let half = eight ++ (eight ++ (eight ++ eight)) in half ++ half

key_accepted : parse_key tagging key_text ≡ ok (unhex key_text)
unfolding parse_key is_hex_key is_hex
key_accepted = refl

parse_key-Serves_example :
    (s : Encrypting) × (create_encrypt_stream tagging (unhex key_text) default_chunk digest ≡ ok s)
parse_key-Serves_example = parse_key-Serves tagging key_text digest key_accepted

-- Two full chunks, and a final one of a byte.
file_size : length (join (encrypt_run tagging stream two)) ≡ 105
unfolding encrypt_run encrypt_transform encrypt_flush seal_full join header key_id seal_chunk nonce
    be hex unhex
file_size = refl
