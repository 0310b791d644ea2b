-- ===== src/BackupCrypto/Buffers.antt =====
-- Buffers: cutting, joining, big-endian numbers, and hexadecimal text as `toString('hex')` writes it.
use mathlib.Core.List.{append_assoc}
use open_vibe_host.Base.{
  ℕ, zero, suc, ◌+◌, ◌-◌, ◌*◌, ◌/◌, ◌%◌, ◌<◌, List, [], ◌∷◌, ◌++◌, ◌≡◌, refl, ap, ◌∙◌, arith, Bool,
  ◌&&◌, ◌||◌, length, length-append, All, if◌then◌else◌, ltb, leb, true, false, ◌==◌, nat_eq,
}

abbrev pub Bytes : Type 0
Bytes = List ℕ

-- The buffers of a stream, end to end.
unfoldable pub join : List Bytes → Bytes
join [] = []
join (b ∷ bs) = b ++ join bs

pub join-append : (xs ys : List Bytes) → join (xs ++ ys) ≡ join xs ++ join ys
unfolding join
join-append [] ys = refl
join-append (x ∷ xs) ys = ap (λ t. x ++ t) (join-append xs ys) ∙ rw append_assoc

-- `writeUInt32BE`, `writeBigUInt64BE`: a number in `w` bytes, the highest first.
unfoldable pub be : ℕ → ℕ → Bytes
be zero n = []
be (suc w) n = be w (n / 256) ++ (n % 256) ∷ []

pub length-be : (w n : ℕ) → length (be w n) ≡ w
unfolding be
length-be zero n = refl
length-be (suc w) n =
    omega (arith, length-append (be w (n / 256)) ((n % 256) ∷ []), length-be w (n / 256))

pub read_from : ℕ → Bytes → ℕ
read_from acc [] = acc
read_from acc (b ∷ bs) = read_from (acc * 256 + b) bs

-- `readUInt32BE`
unfoldable pub read_be : Bytes → ℕ
unfolding read_from
read_be bs = read_from 0 bs

read_from-snoc :
    (acc : ℕ) (xs : Bytes) (b : ℕ) → read_from acc (xs ++ b ∷ []) ≡ read_from acc xs * 256 + b
unfolding read_from
read_from-snoc acc [] b = refl
read_from-snoc acc (x ∷ xs) b = read_from-snoc (acc * 256 + x) xs b

-- 256 to the power `w`
unfoldable pub capacity : ℕ → ℕ
capacity zero = 1
capacity (suc w) = 256 * capacity w

pub read_be-be : (w n : ℕ) → n < capacity w → read_be (be w n) ≡ n
unfolding be read_be capacity
read_be-be zero n h = omega (arith, capacity)
read_be-be (suc w) n h =
    omega (arith, read_from-snoc 0 (be w (n / 256)) (n % 256), read_be-be w (n / 256) (omega arith))

-- `toString('hex')`
digit : ℕ → ℕ
digit d = if ltb d 10 then b'0' + d else b'a' + (d - 10)

unfoldable pub hex : Bytes → List ℕ
unfolding digit
hex [] = []
hex (b ∷ bs) = digit (b / 16) ∷ digit (b % 16) ∷ hex bs

unfoldable pub is_hex : ℕ → Bool
is_hex c = (leb b'0' c && leb c b'9') || (leb b'a' c && leb c b'f') || (leb b'A' c && leb c b'F')

digit_value : ℕ → ℕ
digit_value c = if leb c b'9' then c - b'0' else if leb c b'F' then c - b'A' + 10 else c - b'a' + 10

-- `Buffer.from(t, 'hex')` of a text of hexadecimal digits
unfoldable pub unhex : List ℕ → Bytes
unfolding digit_value
unhex [] = []
unhex (a ∷ []) = []
unhex (a ∷ b ∷ cs) = (digit_value a * 16 + digit_value b) ∷ unhex cs

digit_value-digit : (d : ℕ) → d < 16 → digit_value (digit d) ≡ d
unfolding digit digit_value
digit_value-digit d h = ground arith

pub unhex-hex : (bs : Bytes) → All (λ b. b < 256) bs → unhex (hex bs) ≡ bs
unfolding unhex hex
unhex-hex [] h = refl
unhex-hex (b ∷ bs) (h, hs) = ground (
  arith,
  digit_value-digit (b / 16) (omega arith),
  digit_value-digit (b % 16) (omega arith),
  unhex-hex bs hs,
)

-- `a.equals(b)`
unfoldable pub same : Bytes → Bytes → Bool
same [] [] = true
same (x ∷ xs) (y ∷ ys) = x == y && same xs ys
same xs ys = false

pub same_refl : (xs : Bytes) → same xs xs ≡ true
unfolding same
same_refl [] = refl
same_refl (x ∷ xs) = ground (arith, same_refl xs)

pub same→eq : (xs ys : Bytes) → same xs ys ≡ true → xs ≡ ys
unfolding same
same→eq [] [] h = refl
same→eq [] (y ∷ ys) h = cc
same→eq (x ∷ xs) [] h = cc
same→eq (x ∷ xs) (y ∷ ys) h = ground (arith, same→eq xs ys)
