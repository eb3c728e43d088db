-- ===== src/Amf/Encodable.antt =====
-- The values that AMF0 can hold, and what it means that one is read back (amf/amf0.rs).
use rtmp_rs.Prelude.{ℕ, ◌-◌, ◌≤◌, ◌<◌, ◌≡◌, true, false, some, List, ◌++◌, length, is_empty}
use rtmp_rs.Bytes.{Bytes}
use rtmp_rs.Amf.Text.{is_utf8}
use rtmp_rs.Amf.Value.{
  AmfValue, null, undefined, boolean, number, date, integer, string, xml, byte_array, array, object,
  ecma_array, typed_object, Elements, no_elements, element, Properties, no_properties, property,
  insert_all, push_element, count,
}
use rtmp_rs.Amf.Encoder.{f64_of_i32, object_end, encode, encode_properties, encode_elements}
use rtmp_rs.Amf.Reads.{Amf0Decoder, give}
use rtmp_rs.Amf.Decoder.{decode_within, decode_properties, decode_elements}

-- `push` of all elements, one after the other.
unfoldable pub push_all : Elements → Elements → Elements
push_all vs no_elements = vs
push_all vs (element v more) = push_all (push_element vs v) more

-- What a value is after a round trip: an integer becomes a number, a byte array null.
unfoldable mutual
  unfolding push_all insert_all

  pub normal : AmfValue → AmfValue
  normal null = null
  normal undefined = undefined
  normal (boolean b) = boolean b
  normal (number n) = number n
  normal (integer i) = number (f64_of_i32 i)
  normal (string s) = string s
  normal (object ps) = object (insert_all no_properties (normal_properties ps))
  normal (ecma_array ps) = ecma_array (insert_all no_properties (normal_properties ps))
  normal (array vs) = array (push_all no_elements (normal_elements vs))
  normal (date t) = date t
  normal (xml s) = xml s
  normal (typed_object name ps) =
      typed_object name (insert_all no_properties (normal_properties ps))
  normal (byte_array bytes) = null

  pub normal_properties : Properties → Properties
  normal_properties no_properties = no_properties
  normal_properties (property k v ps) = property k (normal v) (normal_properties ps)

  pub normal_elements : Elements → Elements
  normal_elements no_elements = no_elements
  normal_elements (element v vs) = element (normal v) (normal_elements vs)

-- Text that fits a length of 16 bits.
abbrev pub IsShort : Bytes → Type 0
IsShort s = (length s < 65536) × (is_utf8 s ≡ true)

-- Values that the format can hold, with at most `n` levels.
unfoldable mutual
  pub IsEncodable : ℕ → AmfValue → Type 0
  IsEncodable n null = 1 ≤ n
  IsEncodable n undefined = 1 ≤ n
  IsEncodable n (boolean b) = 1 ≤ n
  IsEncodable n (number x) = (1 ≤ n) × (x < 18446744073709551616)
  IsEncodable n (integer i) = (1 ≤ n) × (f64_of_i32 i < 18446744073709551616)
  IsEncodable n (string s) = (1 ≤ n) × (length s < 4294967296) × (is_utf8 s ≡ true)
  IsEncodable n (object ps) = (1 ≤ n) × AreEncodable (n - 1) ps
  IsEncodable n (ecma_array ps) = (1 ≤ n) × AreEncodable (n - 1) ps
  IsEncodable n (array vs) = (1 ≤ n) × (count vs < 4294967296) × AllEncodable (n - 1) vs
  IsEncodable n (date t) = (1 ≤ n) × (t < 18446744073709551616)
  IsEncodable n (xml s) = (1 ≤ n) × (length s < 4294967296) × (is_utf8 s ≡ true)
  IsEncodable n (typed_object name ps) = (1 ≤ n) × IsShort name × AreEncodable (n - 1) ps
  IsEncodable n (byte_array bytes) = 1 ≤ n

  pub AreEncodable : ℕ → Properties → Type 0
  AreEncodable n no_properties = Unit
  AreEncodable n (property k v ps) =
      (is_empty k ≡ false) × IsShort k × IsEncodable n v × AreEncodable n ps

  pub AllEncodable : ℕ → Elements → Type 0
  AllEncodable n no_elements = Unit
  AllEncodable n (element v vs) = IsEncodable n v × AllEncodable n vs

-- A decoder whose table of references has changed.
abbrev pub with_references : Amf0Decoder → List AmfValue → Amf0Decoder
with_references d refs = record d { references = refs }

-- The table of references only grows.
abbrev pub ReadsBack : ℕ → Amf0Decoder → AmfValue → Bytes → Type 0
ReadsBack f d v rest =
    (refs : List AmfValue) × (length d.references ≤ length refs)
    × (decode_within f d (encode v ++ rest) ≡ some (give (with_references d refs) rest (normal v)))

abbrev pub PropertiesBack : ℕ → Amf0Decoder → Properties → Properties → Bytes → Type 0
PropertiesBack f d ps acc rest =
    (refs : List AmfValue) × (length d.references ≤ length refs)
    × (decode_properties f d (encode_properties ps ++ (object_end ++ rest)) acc
        ≡ some (give (with_references d refs) rest (insert_all acc (normal_properties ps))))

abbrev pub ElementsBack : ℕ → Amf0Decoder → Elements → Elements → Bytes → Type 0
ElementsBack f d vs acc rest =
    (refs : List AmfValue) × (length d.references ≤ length refs)
    × (decode_elements f (count vs) d (encode_elements vs ++ rest) acc
        ≡ some (give (with_references d refs) rest (push_all acc (normal_elements vs))))
