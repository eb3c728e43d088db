-- ===== src/Amf/Encoder.antt =====
-- The AMF0 encoder (`Amf0Encoder`, amf/amf0.rs): the bytes that each call appends.
use rtmp_rs.Prelude.{
  ℕ, zero, suc, ◌+◌, ◌-◌, ◌*◌, ◌%◌, ◌^◌, min, [], ◌∷◌, ◌++◌, if◌then◌else◌, ltb, leb, ◌==◌, length,
  take,
}
use rtmp_rs.Bytes.{Bytes, u32, put_u32}
use rtmp_rs.Amf.Text.{put_u16, put_f64}
use rtmp_rs.Amf.Value.{
  AmfValue, null, undefined, boolean, number, date, integer, string, xml, byte_array, array, object,
  ecma_array, typed_object, Elements, no_elements, element, Properties, no_properties, property,
  count, count_properties,
}

abbrev pub marker_number : ℕ
marker_number = 0

abbrev pub marker_boolean : ℕ
marker_boolean = 1

abbrev pub marker_string : ℕ
marker_string = 2

abbrev pub marker_object : ℕ
marker_object = 3

abbrev pub marker_null : ℕ
marker_null = 5

abbrev pub marker_undefined : ℕ
marker_undefined = 6

abbrev pub marker_reference : ℕ
marker_reference = 7

abbrev pub marker_ecma_array : ℕ
marker_ecma_array = 8

abbrev pub marker_object_end : ℕ
marker_object_end = 9

abbrev pub marker_strict_array : ℕ
marker_strict_array = 10

abbrev pub marker_date : ℕ
marker_date = 11

abbrev pub marker_long_string : ℕ
marker_long_string = 12

abbrev pub marker_unsupported : ℕ
marker_unsupported = 13

abbrev pub marker_xml_document : ℕ
marker_xml_document = 15

abbrev pub marker_typed_object : ℕ
marker_typed_object = 16

abbrev pub marker_avmplus : ℕ
marker_avmplus = 17

-- The double with the value `m`, where 0 < m < 2^53: `m` is shifted until its bit 52 is set.
-- `fuel` 53 is enough.
unfoldable pub f64_shifted : ℕ → ℕ → ℕ → ℕ
f64_shifted zero e m = 0
f64_shifted (suc fuel) e m =
    if leb (2 ^ 52) m then e * 2 ^ 52 + (m - 2 ^ 52) else f64_shifted fuel (e - 1) (2 * m)

-- `i as f64`, for an i32.
unfoldable pub f64_of_i32 : ℕ → ℕ
unfolding f64_shifted
f64_of_i32 i =
    if i == 0
    then 0
    else if ltb i (2 ^ 31)
    then f64_shifted 53 1075 i
    else 2 ^ 63 + f64_shifted 53 1075 (2 ^ 32 - i)

-- A string with a length of 16 bits, cut to that.
unfoldable pub write_utf8 : Bytes → Bytes
write_utf8 s = let len = min (length s) 0xFFFF in put_u16 len ++ take len s

unfoldable pub encode_string : Bytes → Bytes
encode_string s =
    (if ltb 0xFFFF (length s)
      then marker_long_string ∷ put_u32 (u32 (length s))
      else marker_string ∷ put_u16 (length s % 65536))
    ++ s

abbrev pub object_end : Bytes
object_end = put_u16 0 ++ (marker_object_end ∷ [])

unfoldable mutual
  unfolding f64_of_i32 write_utf8 encode_string count count_properties

  pub encode : AmfValue → Bytes
  encode null = marker_null ∷ []
  encode undefined = marker_undefined ∷ []
  encode (boolean b) = marker_boolean ∷ (if b then 1 else 0) ∷ []
  encode (number n) = marker_number ∷ put_f64 n
  encode (integer i) = marker_number ∷ put_f64 (f64_of_i32 i)
  encode (string s) = encode_string s
  encode (object ps) = marker_object ∷ (encode_properties ps ++ object_end)
  encode (ecma_array ps) =
      marker_ecma_array
      ∷ (put_u32 (u32 (count_properties ps)) ++ (encode_properties ps ++ object_end))
  encode (array vs) = marker_strict_array ∷ (put_u32 (u32 (count vs)) ++ encode_elements vs)
  encode (date t) = marker_date ∷ (put_f64 t ++ put_u16 0)
  encode (xml s) = marker_xml_document ∷ (put_u32 (u32 (length s)) ++ s)
  encode (typed_object name ps) =
      marker_typed_object ∷ (write_utf8 name ++ (encode_properties ps ++ object_end))
  encode (byte_array bytes) = marker_null ∷ []

  pub encode_properties : Properties → Bytes
  encode_properties no_properties = []
  encode_properties (property k v ps) = write_utf8 k ++ (encode v ++ encode_properties ps)

  -- `encode_all`.
  pub encode_elements : Elements → Bytes
  encode_elements no_elements = []
  encode_elements (element v vs) = encode v ++ encode_elements vs
