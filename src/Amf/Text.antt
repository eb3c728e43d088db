-- ===== src/Amf/Text.antt =====
-- Strings and floats in bytes: the test of `String::from_utf8`, and the numbers of two and eight
-- bytes that the AMF codecs read and write. A float is the 64 bits of its representation.
use rtmp_rs.Prelude.{
  ℕ, ◌+◌, ◌*◌, ◌/◌, ◌%◌, ◌<◌, ◌≡◌, ap, Bool, true, false, ◌&&◌, Option, none, some, List, [], ◌∷◌,
  ◌++◌, if◌then◌else◌, ltb, leb, ◌==◌, arith,
}
use rtmp_rs.Bytes.{Bytes, u8, be32, put_u32, be32-put_u32}

-- The ranges of the bytes that must follow.
abbrev pub Ranges : Type 0
Ranges = List (ℕ × ℕ)

abbrev tail : ℕ × ℕ
tail = (128, 191)

-- What must follow a first byte; `none` where no sequence begins with it.
abbrev sequence_of : ℕ → Option Ranges
sequence_of b =
    if ltb b 128
    then some []
    else if ltb b 194
    then none
    else if ltb b 224
    then some (tail ∷ [])
    else if b == 224
    then some ((160, 191) ∷ (tail ∷ []))
    else if b == 237
    then some ((128, 159) ∷ (tail ∷ []))
    else if ltb b 240
    then some (tail ∷ (tail ∷ []))
    else if b == 240
    then some ((144, 191) ∷ (tail ∷ (tail ∷ [])))
    else if ltb b 244
    then some (tail ∷ (tail ∷ (tail ∷ [])))
    else if b == 244
    then some ((128, 143) ∷ (tail ∷ (tail ∷ [])))
    else none

unfoldable pub utf8_after : Option Ranges → Bytes → Bool
utf8_after none _ = false
utf8_after (some []) [] = true
utf8_after (some []) (b ∷ bytes) = utf8_after (sequence_of b) bytes
utf8_after (some (_ ∷ _)) [] = false
utf8_after (some ((lo, hi) ∷ more)) (b ∷ bytes) =
    utf8_after (if leb lo b && leb b hi then some more else none) bytes

-- Well-formed UTF-8.
abbrev pub is_utf8 : Bytes → Bool
is_utf8 bytes = utf8_after (some []) bytes

abbrev pub put_u16 : ℕ → Bytes
put_u16 v = u8 (v / 256) ∷ u8 v ∷ []

abbrev pub put_f64 : ℕ → Bytes
put_f64 v = put_u32 (v / 4294967296) ++ put_u32 v

abbrev pub get_u16 : Bytes → Option (ℕ × Bytes)
get_u16 (a ∷ b ∷ r) = some (a * 256 + b, r)
get_u16 _ = none

abbrev pub get_f64 : Bytes → Option (ℕ × Bytes)
get_f64 (a ∷ b ∷ c ∷ d ∷ e ∷ f ∷ g ∷ h ∷ r) = some (be32 a b c d * 4294967296 + be32 e f g h, r)
get_f64 _ = none

pub be16-put_u16 : (v : ℕ) → v < 65536 → u8 (v / 256) * 256 + u8 v ≡ v
be16-put_u16 v h = omega arith

low_word :
    (v : ℕ) → be32 (u8 (v / 16777216)) (u8 (v / 65536)) (u8 (v / 256)) (u8 v) ≡ v % 4294967296
low_word v = omega arith

pub be64-put_f64 :
    (v : ℕ)
    → v < 18446744073709551616
    → let w = v / 4294967296 in
      be32 (u8 (w / 16777216)) (u8 (w / 65536)) (u8 (w / 256)) (u8 w) * 4294967296
        + be32 (u8 (v / 16777216)) (u8 (v / 65536)) (u8 (v / 256)) (u8 v)
      ≡ v
be64-put_f64 v h =
    let high = be32-put_u32 (v / 4294967296) (omega arith) in rw (high, low_word v) (omega arith)

pub get_f64-put_f64 :
    (v : ℕ) (rest : Bytes) → v < 18446744073709551616 → get_f64 (put_f64 v ++ rest) ≡ some (v, rest)
get_f64-put_f64 v rest h = ap (λ n. some (n, rest)) (be64-put_f64 v h)
