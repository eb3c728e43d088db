-- ===== src/Amf/Reads.antt =====
-- The parts of the AMF0 decoder that call no other: its reads with their guards, strings and single
-- values (`Amf0Decoder`, amf/amf0.rs).
use rtmp_rs.Prelude.{
  ℕ, zero, suc, Bool, not, Option, none, some, List, [], ◌∷◌, if◌then◌else◌, ltb, leb, ◌==◌, length,
  take, drop, is_empty, Result, ok, err, panic,
}
use rtmp_rs.Bytes.{Bytes, get_u8, get_u32}
use rtmp_rs.Amf.Text.{is_utf8, get_u16, get_f64}
use rtmp_rs.Amf.Value.{AmfValue, boolean, number, date}

pub data AmfError : Type 0 where
  unknown_marker invalid_reference : ℕ → AmfError
  unexpected_eof invalid_utf8 nesting_too_deep invalid_object_end : AmfError

pub record Amf0Decoder : Type 0 where
  pub references : List AmfValue
  pub lenient : Bool
  pub depth : ℕ

-- What a call leaves of the decoder and of the buffer, and what it returns.
pub record Step (A : Type 0) : Type 0 where
  pub decoder : Amf0Decoder
  pub buf : Bytes
  pub result : Result AmfError A

abbrev pub fail : {A : Type 0} → Amf0Decoder → Bytes → AmfError → Step A
fail d buf e = record { decoder = d; buf = buf; result = err e }

abbrev pub give : {A : Type 0} → Amf0Decoder → Bytes → A → Step A
give d buf a = record { decoder = d; buf = buf; result = ok a }

-- The panic of a read or a write out of bounds.
abbrev pub crash : {A : Type 0} → Amf0Decoder → Bytes → Step A
crash d buf = record { decoder = d; buf = buf; result = panic }

-- A read that panics past the end of the buffer, and what is done with what it gives.
abbrev pub read_on : {A R : Type 0} → R → (A → Bytes → R) → Option (A × Bytes) → R
read_on crashed go none = crashed
read_on crashed go (some (a, rest)) = go a rest

abbrev pub copy_to_bytes : ℕ → Bytes → Option (Bytes × Bytes)
copy_to_bytes len buf = if ltb (length buf) len then none else some (take len buf, drop len buf)

abbrev pub text_of : {A : Type 0} → (Bytes → A) → Amf0Decoder → ℕ → Bytes → Step A
text_of make d len buf =
    if ltb (length buf) len
    then fail d buf unexpected_eof
    else read_on (crash d buf)
        (λ bytes rest. if is_utf8 bytes then give d rest (make bytes) else fail d rest invalid_utf8)
        (copy_to_bytes len buf)

-- `read_utf8` and `read_utf8_long`, and what is made of the string.
unfoldable pub read_utf8 : {A : Type 0} → (Bytes → A) → Amf0Decoder → Bytes → Step A
read_utf8 make d buf =
    if ltb (length buf) 2
    then fail d buf unexpected_eof
    else read_on (crash d buf) (λ len rest. text_of make d len rest) (get_u16 buf)

unfoldable pub read_utf8_long : {A : Type 0} → (Bytes → A) → Amf0Decoder → Bytes → Step A
read_utf8_long make d buf =
    if ltb (length buf) 4
    then fail d buf unexpected_eof
    else read_on (crash d buf) (λ len rest. text_of make d len rest) (get_u32 buf)

unfoldable pub decode_number : Amf0Decoder → Bytes → Step AmfValue
decode_number d buf =
    if ltb (length buf) 8
    then fail d buf unexpected_eof
    else read_on (crash d buf) (λ n rest. give d rest (number n)) (get_f64 buf)

unfoldable pub decode_boolean : Amf0Decoder → Bytes → Step AmfValue
decode_boolean d buf =
    if is_empty buf
    then fail d buf unexpected_eof
    else read_on (crash d buf) (λ b rest. give d rest (boolean (not (b == 0)))) (get_u8 buf)

-- A float and two bytes of time zone, which are not looked at.
unfoldable pub decode_date : Amf0Decoder → Bytes → Step AmfValue
decode_date d buf =
    if ltb (length buf) 10
    then fail d buf unexpected_eof
    else read_on (crash d buf)
        (λ n zone. read_on (crash d zone) (λ _ rest. give d rest (date n)) (get_u16 zone))
        (get_f64 buf)

-- `references[index]`; `none` is the panic out of range.
unfoldable pub get_reference : List AmfValue → ℕ → Option AmfValue
get_reference [] i = none
get_reference (v ∷ refs) zero = some v
get_reference (v ∷ refs) (suc i) = get_reference refs i

abbrev pub reference_of : Amf0Decoder → Bytes → Option AmfValue → Step AmfValue
reference_of d buf none = crash d buf
reference_of d buf (some v) = give d buf v

unfoldable pub decode_reference : Amf0Decoder → Bytes → Step AmfValue
unfolding get_reference
decode_reference d buf =
    if ltb (length buf) 2
    then fail d buf unexpected_eof
    else read_on (crash d buf)
        (λ index rest.
          if leb (length d.references) index
          then fail d rest (invalid_reference index)
          else reference_of d rest (get_reference d.references index))
        (get_u16 buf)
