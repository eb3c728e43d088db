-- ===== src/Amf/Tests.antt =====
-- Runs of the AMF0 codec, and its round trip at an object with a nested array.
use rtmp_rs.Prelude.{◌≡◌, refl, true, some, List, [], ◌∷◌, ◌++◌, arith}
use rtmp_rs.Bytes.{Bytes}
use rtmp_rs.Amf.Text.{utf8_after}
use rtmp_rs.Amf.Value.{
  AmfValue, boolean, string, array, object, no_elements, element, no_properties, property, count,
}
use rtmp_rs.Amf.Encoder.{encode, f64_of_i32}
use rtmp_rs.Amf.Decoder
use rtmp_rs.Amf.Reads.{give}
use rtmp_rs.Amf.Decoder.{decode, decode_all}
use rtmp_rs.Amf.Encodable.{normal, IsEncodable, with_references}
use rtmp_rs.Amf.RoundTrip.{decode-encode}
use rtmp_rs.Amf.Ends.{Ends}
use rtmp_rs.Amf.Total.{decode-Ends}

-- An object with the key "a" and an array of true and the string "b".
abbrev nested : AmfValue
nested = object (
    property (97 ∷ []) (array (element (boolean true) (element (string (98 ∷ [])) no_elements)))
      no_properties)

-- 7 and -1 as doubles.
seven : f64_of_i32 7 ≡ 4619567317775286272
unfolding f64_of_i32
seven = refl

minus_one : f64_of_i32 4294967295 ≡ 13830554455654793216
unfolding f64_of_i32
minus_one = refl

nested-IsEncodable : IsEncodable 3 nested
unfolding IsEncodable utf8_after count
nested-IsEncodable = (
  omega arith,
  (
    refl,
    (omega arith, refl),
    (omega arith, omega arith, (omega arith, ((omega arith, omega arith, refl), tt))),
    tt,
  ),
)

decode-encode_example :
    (refs : List AmfValue) × (decode Decoder.new (encode nested ++ (9 ∷ []))
      ≡ some (give (with_references Decoder.new refs) (9 ∷ []) (normal nested)))
unfolding Decoder.new
decode-encode_example = decode-encode nested 3 Decoder.new (9 ∷ []) nested-IsEncodable (omega arith)

-- A string that promises more than there is.
abbrev cut_off : Bytes
cut_off = 2 ∷ 0 ∷ 9 ∷ 97 ∷ []

decode-Ends_example : Ends 4 (decode Decoder.new cut_off)
decode-Ends_example = decode-Ends Decoder.new cut_off
