-- ===== src/Amf/RoundTrip.antt =====
-- What the AMF0 encoder writes, the decoder reads back (amf/amf0.rs).
use rtmp_rs.Prelude.{
  ℕ, suc, ◌+◌, ◌-◌, ◌≤◌, ◌<◌, ◌≡◌, refl, ap, inl, inr, true, false, Bool-cases, some, List, [], ◌∷◌,
  ◌++◌, ltb, length, length-append, arith,
}
use rtmp_rs.Bytes.{Bytes}
use rtmp_rs.Amf.Text.{put_u16, put_f64}
use rtmp_rs.Amf.Value.{
  AmfValue, null, undefined, boolean, number, date, integer, string, xml, byte_array, array, object,
  ecma_array, typed_object, Elements, no_elements, element, Properties, no_properties, property,
  insert_property, push_element,
}
use rtmp_rs.Amf.Encoder.{
  f64_of_i32, write_utf8, encode_string, object_end, encode, encode_properties, encode_elements,
}
use rtmp_rs.Amf.Reads.{Amf0Decoder, give, decode_boolean}
use rtmp_rs.Amf.Decoder.{reserve, entered, decode_kind, kind_of, decode}
use rtmp_rs.Amf.Texts.{decode_number-put_f64, decode_date-put_f64}
use rtmp_rs.Amf.Encodable.{
  normal, normal_properties, normal_elements, IsEncodable, AreEncodable, AllEncodable,
  with_references, ReadsBack, PropertiesBack, ElementsBack,
}
use rtmp_rs.Amf.Levels.{
  suc_fuel, object_level, ecma_level, typed_level, array_level, single_level, string_level,
  xml_level,
}
use rtmp_rs.Amf.Loops.{no_more, one_more, no_element, one_element}

write_utf8-length : (s : Bytes) → 2 ≤ length (write_utf8 s)
unfolding write_utf8
write_utf8-length s = omega arith

pub encode-length : (v : AmfValue) → 1 ≤ length (encode v)
unfolding encode encode_string
encode-length null = omega arith
encode-length undefined = omega arith
encode-length (boolean b) = omega arith
encode-length (number n) = omega arith
encode-length (date t) = omega arith
encode-length (integer i) = omega arith
encode-length (string s) = elim (Bool-cases (ltb 0xFFFF (length s))) [
  | inl long ↦ rw long (omega arith)
  | inr short ↦ rw short (omega arith)
]
encode-length (xml s) = omega arith
encode-length (byte_array bytes) = omega arith
encode-length (array vs) = omega arith
encode-length (object ps) = omega arith
encode-length (ecma_array ps) = omega arith
encode-length (typed_object name ps) = omega arith

property_length :
    (k : Bytes) (v : AmfValue) (ps : Properties)
    → length (encode v) + 2 + length (encode_properties ps)
      ≤ length (encode_properties (property k v ps))
unfolding encode_properties
property_length k v ps = omega (
  arith,
  write_utf8-length k,
  length-append (write_utf8 k) (encode v ++ encode_properties ps),
  length-append (encode v) (encode_properties ps),
)

-- A claim on all fuels that are enough for a value follows from that on one level more.
levels :
    (v : AmfValue) (f : ℕ) (d : Amf0Decoder) (rest : Bytes)
    → length (encode v) ≤ f
    → ((g : ℕ) → length (encode v) ≤ suc g → ReadsBack (suc g) d v rest)
    → ReadsBack f d v rest
levels v f d rest fuel step =
    suc_fuel (λ f. length (encode v) ≤ f → ReadsBack f d v rest) f (omega (arith, encode-length v))
      step fuel

mutual
  unfolding encode encode_properties encode_elements normal normal_properties normal_elements
      IsEncodable AreEncodable AllEncodable decode_kind kind_of decode_boolean

  value_back :
      (v : AmfValue) (n f : ℕ) (d : Amf0Decoder) (rest : Bytes)
      → IsEncodable n v
      → d.depth + n ≤ 64
      → length (encode v) ≤ f
      → ReadsBack f d v rest
  value_back null n f d rest e deep fuel =
      levels null f d rest fuel (λ g le. single_level g d null 5 [] rest (omega arith) refl refl)
  value_back undefined n f d rest e deep fuel =
      levels undefined f d rest fuel
        (λ g le. single_level g d undefined 6 [] rest (omega arith) refl refl)
  value_back (byte_array bytes) n f d rest e deep fuel =
      levels (byte_array bytes) f d rest fuel
        (λ g le. single_level g d (byte_array bytes) 5 [] rest (omega arith) refl refl)
  value_back (boolean true) n f d rest e deep fuel =
      levels (boolean true) f d rest fuel
        (λ g le. single_level g d (boolean true) 1 (1 ∷ []) rest (omega arith) refl refl)
  value_back (boolean false) n f d rest e deep fuel =
      levels (boolean false) f d rest fuel
        (λ g le. single_level g d (boolean false) 1 (0 ∷ []) rest (omega arith) refl refl)
  value_back (number x) n f d rest e deep fuel = levels (number x) f d rest fuel (λ g le.
      single_level g d (number x) 0 (put_f64 x) rest (omega (arith, e.0)) refl
        (ap some (decode_number-put_f64 (entered d) x rest e.1)))
  value_back (integer i) n f d rest e deep fuel = levels (integer i) f d rest fuel (λ g le.
      single_level g d (integer i) 0 (put_f64 (f64_of_i32 i)) rest (omega (arith, e.0)) refl
        (ap some (decode_number-put_f64 (entered d) (f64_of_i32 i) rest e.1)))
  value_back (date t) n f d rest e deep fuel = levels (date t) f d rest fuel (λ g le.
      single_level g d (date t) 11 (put_f64 t ++ put_u16 0) rest (omega (arith, e.0)) refl
        (ap some (decode_date-put_f64 (entered d) t rest e.1)))
  value_back (string s) n f d rest e deep fuel =
      levels (string s) f d rest fuel (λ g le. string_level g d s rest (omega (arith, e.0)) e.1 e.2)
  value_back (xml s) n f d rest e deep fuel =
      levels (xml s) f d rest fuel (λ g le. xml_level g d s rest (omega (arith, e.0)) e.1 e.2)
  value_back (object ps) n f d rest e deep fuel = levels (object ps) f d rest fuel (λ g le.
      object_level g d ps rest (omega (arith, e.0)) (
        properties_back ps (n - 1) g (reserve (entered d)) no_properties rest e.1
          (omega (arith, e.0)) (omega (arith, length-append (encode_properties ps) object_end))))
  value_back (ecma_array ps) n f d rest e deep fuel = levels (ecma_array ps) f d rest fuel (λ g le.
      ecma_level g d ps rest (omega (arith, e.0)) (
        properties_back ps (n - 1) g (reserve (entered d)) no_properties rest e.1
          (omega (arith, e.0)) (omega (arith, length-append (encode_properties ps) object_end))))
  value_back (typed_object name ps) n f d rest e deep fuel =
      levels (typed_object name ps) f d rest fuel (λ g le.
        typed_level g d name ps rest (omega (arith, e.0)) e.1 (
          properties_back ps (n - 1) g (reserve (entered d)) no_properties rest e.2
            (omega (arith, e.0))
            (omega (
              arith,
              length-append (write_utf8 name) (encode_properties ps ++ object_end),
              length-append (encode_properties ps) object_end,
            ))))
  value_back (array vs) n f d rest e deep fuel = levels (array vs) f d rest fuel (λ g le.
      array_level g d vs rest (omega (arith, e.0)) e.1 (
        elements_back vs (n - 1) g (reserve (entered d)) no_elements rest e.2 (omega (arith, e.0))
          (omega arith)))

  properties_back :
      (ps : Properties) (n f : ℕ) (d : Amf0Decoder) (acc : Properties) (rest : Bytes)
      → AreEncodable n ps
      → d.depth + n ≤ 64
      → length (encode_properties ps) < f
      → PropertiesBack f d ps acc rest
  properties_back no_properties n f d acc rest e deep fuel =
      suc_fuel (λ f. PropertiesBack f d no_properties acc rest) f (omega arith)
        (λ g. no_more g d acc rest)
  properties_back (property k v ps) n f d acc rest (named, short, ev, eps) deep fuel =
      suc_fuel
        (λ f.
          length (encode_properties (property k v ps)) < f
          → PropertiesBack f d (property k v ps) acc rest)
        f (omega arith)
        (λ g le.
          one_more g d k v ps acc rest named short
            (value_back v n g d (encode_properties ps ++ (object_end ++ rest)) ev deep
              (omega (arith, property_length k v ps)))
            (λ refs.
              properties_back ps n g (with_references d refs) (insert_property acc k (normal v))
                rest eps deep (omega (arith, property_length k v ps))))
        fuel

  elements_back :
      (vs : Elements) (n f : ℕ) (d : Amf0Decoder) (acc : Elements) (rest : Bytes)
      → AllEncodable n vs
      → d.depth + n ≤ 64
      → length (encode_elements vs) < f
      → ElementsBack f d vs acc rest
  elements_back no_elements n f d acc rest e deep fuel =
      suc_fuel (λ f. ElementsBack f d no_elements acc rest) f (omega arith)
        (λ g. no_element g d acc rest)
  elements_back (element v vs) n f d acc rest (ev, evs) deep fuel =
      suc_fuel
        (λ f.
          length (encode_elements (element v vs)) < f → ElementsBack f d (element v vs) acc rest)
        f (omega arith)
        (λ g le.
          one_element g d v vs acc rest
            (value_back v n g d (encode_elements vs ++ rest) ev deep
              (omega (arith, length-append (encode v) (encode_elements vs))))
            (λ refs.
              elements_back vs n g (with_references d refs) (push_element acc (normal v)) rest evs
                deep
                (omega (arith, encode-length v, length-append (encode v) (encode_elements vs)))))
        fuel

-- What the encoder writes for a value, the decoder reads back as that value, where integers have
-- become numbers and byte arrays null, whatever follows it, provided that the value is one that the
-- format can hold: it has at most `n` levels, and `n` more are within the limit of 64; no key is
-- empty; keys and class names are shorter than 2^16 bytes, other strings shorter than 2^32, and all
-- are UTF-8; an array has fewer than 2^32 elements, and numbers are the 64 bits of a double.
-- Nothing but the table of references changes.
pub decode-encode :
    (v : AmfValue) (n : ℕ) (d : Amf0Decoder) (rest : Bytes)
    → IsEncodable n v
    → d.depth + n ≤ 64
    → (refs : List AmfValue) × (decode d (encode v ++ rest)
        ≡ some (give (with_references d refs) rest (normal v)))
unfolding decode
decode-encode v n d rest e deep =
    let (refs, _, h) =
      value_back v n (suc (length (encode v ++ rest))) d rest e deep
        (omega (arith, length-append (encode v) rest)) in
    (refs, h)
