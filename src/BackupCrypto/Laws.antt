-- ===== src/BackupCrypto/Laws.antt =====
-- Nonces do not repeat, and the keys that are accepted have the length that the streams want.
use open_vibe_host.Base.{
  ℕ, zero, suc, ◌*◌, ◌<◌, Bool, true, false, List, [], ◌∷◌, ◌++◌, ◌≡◌, refl, sym, ap, ◌∙◌, arith,
  length, take, drop, nat_beq_iff, Bool-cases, inl, inr, ◌&&◌, ◌==◌, nat_eq, if◌then◌else◌,
}
use open_vibe_host.BackupCrypto.Buffers.{Bytes, be, read_be, read_be-be, length-be, capacity, unhex}
use open_vibe_host.Base.{take-append, drop-append}
use open_vibe_host.BackupCrypto.Crypto.{Primitives}
use open_vibe_host.BackupCrypto.Keys.{parse_key, ok, is_hex_key, is_base64_key, err, bad_key_file}
use open_vibe_host.BackupCrypto.Format.{nonce, default_chunk}
use open_vibe_host.BackupCrypto.Written.Splits.{fresh}
use open_vibe_host.BackupCrypto.Streams.{Encrypting, create_encrypt_stream}

-- `nonce` and `writeBigUInt64BE`: below 2 ^ 64 chunks.
abbrev pub index_limit : ℕ
index_limit = 18446744073709551616

abbrev flag : Bool → Bytes
flag b = (if b then 1 else 0) ∷ []

flag-injective : (f g : Bool) → flag f ≡ flag g → f ≡ g
flag-injective f g e = ground arith

-- Two chunks of one file have different nonces: the nonce determines the index of the chunk, for
-- indices below 2 ^ 64, and whether it is the final one.
pub nonce-injective :
    (i j : ℕ) (f g : Bool)
    → i < index_limit
    → j < index_limit
    → nonce i f ≡ nonce j g
    → (i ≡ j) × (f ≡ g)
unfolding nonce capacity
nonce-injective i j f g hi hj e =
    let tail = λ (k : ℕ) (b : Bool). be 8 k ++ flag b in
    let body : tail i f ≡ tail j g = ap (λ (x : Bytes). drop 3 x) e in
    let index =
      sym (take-append 8 (be 8 i) (flag f) (length-be 8 i))
      ∙ ap (λ (x : Bytes). take 8 x) body
      ∙ take-append 8 (be 8 j) (flag g) (length-be 8 j) in
    let final =
      sym (drop-append 8 (be 8 i) (flag f) (length-be 8 i))
      ∙ ap (λ (x : Bytes). drop 8 x) body
      ∙ drop-append 8 (be 8 j) (flag g) (length-be 8 j) in
    (
      sym (read_be-be 8 i hi) ∙ ap (λ (x : Bytes). read_be x) index ∙ read_be-be 8 j hj,
      flag-injective f g final,
    )

length-unhex : (n : ℕ) (t : List ℕ) → length t ≡ n * 2 → length (unhex t) ≡ n
unfolding unhex
length-unhex zero [] h = refl
length-unhex zero (a ∷ t) h = absurd (omega arith)
length-unhex (suc n) [] h = absurd (omega arith)
length-unhex (suc n) (a ∷ []) h = absurd (omega arith)
length-unhex (suc n) (a ∷ b ∷ t) h = omega (arith, length-unhex n t (omega arith))

ok-injective : {a b : Bytes} → ok a ≡ ok b → a ≡ b
ok-injective e = cc

and_parts : (a b : Bool) → (a && b) ≡ true → (a ≡ true) × (b ≡ true)
and_parts true b h = (refl, h)
and_parts false b h = cc

hex_key-length : (t : List ℕ) → is_hex_key t ≡ true → length t ≡ 64
unfolding is_hex_key
hex_key-length t h = (nat_beq_iff (length t) 64).0 (and_parts (length t == 64) _ h).0

decoded-length :
    (accepted long : Bool) (decoded : Bytes) {master : Bytes}
    → (long ≡ true → length decoded ≡ 32)
    → (if accepted && long then ok decoded else err bad_key_file) ≡ ok master
    → length master ≡ 32
decoded-length true true decoded l h = rw (← ok-injective h) (l refl)
decoded-length true false decoded l h = cc
decoded-length false long decoded l h = cc

parse_key-length :
    (p : Primitives) (t : List ℕ) {master : Bytes} → parse_key p t ≡ ok master → length master ≡ 32
unfolding parse_key
parse_key-length p t h = elim (Bool-cases (is_hex_key t)) [
  | inl hexed ↦
      rw (← ok-injective (rw hexed at h))
        (length-unhex 32 t (omega (arith, hex_key-length t hexed)))
  | inr other ↦
      decoded-length (is_base64_key t) _ (p.from_base64 t)
        (λ e. (nat_beq_iff (length (p.from_base64 t)) 32).0 e) (rw other at h)
]

-- Every key that `parseKey` accepts serves: an encrypting stream with the default chunk size can be
-- created with it, whatever the salt.
pub parse_key-Serves :
    (p : Primitives) (t : List ℕ) (salt : Bytes) {master : Bytes}
    → parse_key p t ≡ ok master
    → (s : Encrypting) × (create_encrypt_stream p master default_chunk salt ≡ ok s)
unfolding create_encrypt_stream
parse_key-Serves p t salt {master} h =
    (fresh p master salt default_chunk, rw (parse_key-length p t h) refl)
