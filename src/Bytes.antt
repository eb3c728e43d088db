-- ===== src/Bytes.antt =====
-- Byte buffers (the `bytes` crate's `Buf` and `BufMut` calls that the codecs make, protocol/chunk.rs
-- and its siblings). A buffer is the list of its unread bytes; a read past its end panics.
use rtmp_rs.Prelude.{ℕ, ◌+◌, ◌*◌, ◌/◌, ◌%◌, ◌<◌, ◌≡◌, Option, none, some, List, [], ◌∷◌, arith}

abbrev pub Bytes : Type 0
Bytes = List ℕ

abbrev pub IsByte : ℕ → Type 0
IsByte b = b < 256

-- `as u8`, `as u32`: the low bits.
abbrev pub u8 : ℕ → ℕ
u8 n = n % 256

abbrev pub u32 : ℕ → ℕ
u32 n = n % 4294967296

-- Big-endian numbers of three and four bytes, and a little-endian one of four.
abbrev pub be24 : ℕ → ℕ → ℕ → ℕ
be24 a b c = a * 65536 + b * 256 + c

abbrev pub be32 : ℕ → ℕ → ℕ → ℕ → ℕ
be32 a b c d = a * 16777216 + b * 65536 + c * 256 + d

-- The reads give the value and what is left; `none` is the panic on a short buffer.
abbrev pub get_u8 : Bytes → Option (ℕ × Bytes)
get_u8 [] = none
get_u8 (a ∷ r) = some (a, r)

abbrev pub get_u24 : Bytes → Option (ℕ × Bytes)
get_u24 (a ∷ b ∷ c ∷ r) = some (be24 a b c, r)
get_u24 _ = none

abbrev pub get_u32 : Bytes → Option (ℕ × Bytes)
get_u32 (a ∷ b ∷ c ∷ d ∷ r) = some (be32 a b c d, r)
get_u32 _ = none

abbrev pub get_u32_le : Bytes → Option (ℕ × Bytes)
get_u32_le (a ∷ b ∷ c ∷ d ∷ r) = some (be32 d c b a, r)
get_u32_le _ = none

-- The writes append these bytes.
abbrev pub put_u24 : ℕ → Bytes
put_u24 v = u8 (v / 65536) ∷ u8 (v / 256) ∷ u8 v ∷ []

abbrev pub put_u32 : ℕ → Bytes
put_u32 v = u8 (v / 16777216) ∷ u8 (v / 65536) ∷ u8 (v / 256) ∷ u8 v ∷ []

abbrev pub put_u32_le : ℕ → Bytes
put_u32_le v = u8 v ∷ u8 (v / 256) ∷ u8 (v / 65536) ∷ u8 (v / 16777216) ∷ []

pub be24-put_u24 : (v : ℕ) → v < 16777216 → be24 (u8 (v / 65536)) (u8 (v / 256)) (u8 v) ≡ v
be24-put_u24 v h = omega arith

pub be32-put_u32 :
    (v : ℕ) → v < 4294967296 → be32 (u8 (v / 16777216)) (u8 (v / 65536)) (u8 (v / 256)) (u8 v) ≡ v
be32-put_u32 v h = omega arith
