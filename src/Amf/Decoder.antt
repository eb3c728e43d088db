-- ===== src/Amf/Decoder.antt =====
-- The AMF0 decoder (`Amf0Decoder`, amf/amf0.rs).
use rtmp_rs.Prelude.{
  ℕ, zero, suc, ◌+◌, ◌-◌, Bool, true, Option, none, some, List, [], ◌∷◌, ◌++◌, if◌then◌else◌, ltb,
  ◌==◌, length, is_empty, Result, ok, err, panic,
}
use rtmp_rs.Bytes.{Bytes, get_u8, get_u32}
use rtmp_rs.Amf.Value.{
  AmfValue, null, undefined, string, xml, array, object, ecma_array, typed_object, Elements,
  no_elements, Properties, no_properties, insert_property, push_element,
}
use rtmp_rs.Amf.Reads.{
  AmfError, unknown_marker, unexpected_eof, nesting_too_deep, invalid_object_end, Amf0Decoder, Step,
  fail, give, crash, read_on, read_utf8, read_utf8_long, decode_number, decode_boolean, decode_date,
  decode_reference,
}
use rtmp_rs.Amf.Encoder.{
  marker_number, marker_boolean, marker_string, marker_object, marker_null, marker_undefined,
  marker_reference, marker_ecma_array, marker_object_end, marker_strict_array, marker_date,
  marker_long_string, marker_unsupported, marker_xml_document, marker_typed_object, marker_avmplus,
}

abbrev pub max_nesting_depth : ℕ
max_nesting_depth = 64

unfoldable pub with_lenient : Bool → Amf0Decoder
with_lenient lenient = record { references = []; lenient = lenient; depth = 0 }

unfoldable pub new : Amf0Decoder
unfolding with_lenient
new = with_lenient true

unfoldable pub reset : Amf0Decoder → Amf0Decoder
reset d = record d { references = []; depth = 0 }

-- The rest of a function behind a step, `?` on its result.
abbrev pub then_step :
    {A B : Type 0}
    → (Amf0Decoder → Bytes → A → Option (Step B))
    → Step A
    → Result AmfError A
    → Option (Step B)
then_step go s (ok a) = go s.decoder s.buf a
then_step go s (err e) = some (fail s.decoder s.buf e)
then_step go s panic = some (record { decoder = s.decoder; buf = s.buf; result = panic })

abbrev pub and_then :
    {A B : Type 0} → Option (Step A) → (Amf0Decoder → Bytes → A → Option (Step B)) → Option (Step B)
and_then none go = none
and_then (some s) go = then_step go s s.result

-- What a marker stands for.
pub data Kind : Type 0 where
  number_kind boolean_kind string_kind object_kind null_kind undefined_kind : Kind
  reference_kind ecma_kind strict_kind date_kind long_string_kind xml_kind typed_kind : Kind
  unknown_kind : ℕ → Kind

-- Unsupported values are undefined, and a value in AMF3 is null.
unfoldable pub kind_of : ℕ → Kind
kind_of m =
    if m == marker_number
    then number_kind
    else if m == marker_boolean
    then boolean_kind
    else if m == marker_string
    then string_kind
    else if m == marker_object
    then object_kind
    else if m == marker_null
    then null_kind
    else if m == marker_undefined
    then undefined_kind
    else if m == marker_reference
    then reference_kind
    else if m == marker_ecma_array
    then ecma_kind
    else if m == marker_strict_array
    then strict_kind
    else if m == marker_date
    then date_kind
    else if m == marker_long_string
    then long_string_kind
    else if m == marker_unsupported
    then undefined_kind
    else if m == marker_xml_document
    then xml_kind
    else if m == marker_typed_object
    then typed_kind
    else if m == marker_avmplus
    then null_kind
    else unknown_kind m

-- The placeholder for an object in the table of references.
abbrev pub reserve : Amf0Decoder → Amf0Decoder
reserve d = record d { references = d.references ++ (null ∷ []) }

-- `references[i] = v`; `none` is the panic out of range.
abbrev pub in_front : AmfValue → Option (List AmfValue) → Option (List AmfValue)
in_front w none = none
in_front w (some refs) = some (w ∷ refs)

unfoldable pub set_reference : List AmfValue → ℕ → AmfValue → Option (List AmfValue)
set_reference [] i v = none
set_reference (w ∷ refs) zero v = some (v ∷ refs)
set_reference (w ∷ refs) (suc i) v = in_front w (set_reference refs i v)

abbrev pub finished :
    AmfValue → Amf0Decoder → Bytes → Option (List AmfValue) → Option (Step AmfValue)
finished v d buf none = some (crash d buf)
finished v d buf (some refs) = some (give (record d { references = refs }) buf v)

-- The object takes its place in the table and is returned.
abbrev pub finish : ℕ → AmfValue → Amf0Decoder → Bytes → Option (Step AmfValue)
finish index v d buf = finished v d buf (set_reference d.references index v)

-- Behind an empty key: the end marker, or what the lenient decoder takes for one.
unfoldable pub end_of_object : Amf0Decoder → Bytes → Properties → Step Properties
end_of_object d buf ps =
    if is_empty buf
    then (if d.lenient then give d buf ps else fail d buf unexpected_eof)
    else read_on (crash d buf)
        (λ m rest.
          if m == marker_object_end
          then give d rest ps
          else if d.lenient
          then give d rest ps
          else fail d rest invalid_object_end)
        (get_u8 buf)

unfoldable pub decode_unknown : ℕ → Amf0Decoder → Bytes → Step AmfValue
decode_unknown m d buf = if d.lenient then give d buf undefined else fail d buf (unknown_marker m)

-- The depth goes down again where the value was decoded, with or without an error.
abbrev pub leave : Option (Step AmfValue) → Option (Step AmfValue)
leave none = none
leave (some s) = some (record s { decoder = record s.decoder { depth = s.decoder.depth - 1 } })

abbrev pub entered : Amf0Decoder → Amf0Decoder
entered d = record d { depth = d.depth + 1 }

-- `decode_value`, where `properties` and `elements` are the loops over an object and an array.
unfoldable pub decode_kind :
    (Amf0Decoder → Bytes → Properties → Option (Step Properties))
    → (ℕ → Amf0Decoder → Bytes → Elements → Option (Step Elements))
    → Kind
    → Amf0Decoder
    → Bytes
    → Option (Step AmfValue)
unfolding read_utf8 read_utf8_long decode_number decode_boolean decode_date decode_reference
    decode_unknown set_reference
decode_kind properties elements number_kind d buf = some (decode_number d buf)
decode_kind properties elements boolean_kind d buf = some (decode_boolean d buf)
decode_kind properties elements string_kind d buf = some (read_utf8 string d buf)
decode_kind properties elements object_kind d buf =
    and_then (properties (reserve d) buf no_properties)
      (λ d' buf' ps. finish (length d.references) (object ps) d' buf')
decode_kind properties elements null_kind d buf = some (give d buf null)
decode_kind properties elements undefined_kind d buf = some (give d buf undefined)
decode_kind properties elements reference_kind d buf = some (decode_reference d buf)
decode_kind properties elements ecma_kind d buf =
    if ltb (length buf) 4
    then some (fail d buf unexpected_eof)
    else read_on (some (crash d buf))
        (λ count rest.
          and_then (properties (reserve d) rest no_properties)
            (λ d' buf' ps. finish (length d.references) (ecma_array ps) d' buf'))
        (get_u32 buf)
decode_kind properties elements strict_kind d buf =
    if ltb (length buf) 4
    then some (fail d buf unexpected_eof)
    else read_on (some (crash d buf))
        (λ count rest.
          and_then (elements count (reserve d) rest no_elements)
            (λ d' buf' vs. finish (length d.references) (array vs) d' buf'))
        (get_u32 buf)
decode_kind properties elements date_kind d buf = some (decode_date d buf)
decode_kind properties elements long_string_kind d buf = some (read_utf8_long string d buf)
decode_kind properties elements xml_kind d buf = some (read_utf8_long xml d buf)
decode_kind properties elements typed_kind d buf =
    and_then (some (read_utf8 (λ name. name) d buf)) (λ d₁ buf₁ name.
      and_then (properties (reserve d₁) buf₁ no_properties)
        (λ d' buf' ps. finish (length d₁.references) (typed_object name ps) d' buf'))
decode_kind properties elements (unknown_kind m) d buf = some (decode_unknown m d buf)

-- The functions on at most `fuel` nested calls; `none` where these do not suffice.
unfoldable mutual
  unfolding read_utf8 end_of_object decode_kind

  pub decode_within : ℕ → Amf0Decoder → Bytes → Option (Step AmfValue)
  decode_within zero d buf = none
  decode_within (suc fuel) d buf =
      if is_empty buf
      then some (fail d buf unexpected_eof)
      else if ltb max_nesting_depth (d.depth + 1)
      then some (fail (entered d) buf nesting_too_deep)
      else read_on (some (crash (entered d) buf))
          (λ m rest. leave (
            decode_kind (decode_properties fuel) (decode_elements fuel) (kind_of m) (entered d)
              rest))
          (get_u8 buf)

  -- The loop over the properties of an object.
  pub decode_properties : ℕ → Amf0Decoder → Bytes → Properties → Option (Step Properties)
  decode_properties zero d buf ps = none
  decode_properties (suc fuel) d buf ps =
      and_then (some (read_utf8 (λ key. key) d buf)) (λ d₁ buf₁ key.
        if is_empty key
        then some (end_of_object d₁ buf₁ ps)
        else and_then (decode_within fuel d₁ buf₁)
            (λ d₂ buf₂ v. decode_properties fuel d₂ buf₂ (insert_property ps key v)))

  -- The loop over the elements of an array.
  pub decode_elements : ℕ → ℕ → Amf0Decoder → Bytes → Elements → Option (Step Elements)
  decode_elements zero count d buf vs = none
  decode_elements (suc fuel) zero d buf vs = some (give d buf vs)
  decode_elements (suc fuel) (suc count) d buf vs =
      and_then (decode_within fuel d buf)
        (λ d₁ buf₁ v. decode_elements fuel count d₁ buf₁ (push_element vs v))

-- Every call takes a byte at least, or is the last.
unfoldable pub decode : Amf0Decoder → Bytes → Option (Step AmfValue)
decode d buf = decode_within (suc (length buf)) d buf

-- The loop of `decode_all`: `decode` until nothing is left.
unfoldable pub decode_all_within : ℕ → Amf0Decoder → Bytes → Elements → Option (Step Elements)
decode_all_within fuel d [] vs = some (give d [] vs)
decode_all_within zero d (m ∷ buf) vs = none
decode_all_within (suc fuel) d (m ∷ buf) vs =
    and_then (decode d (m ∷ buf)) (λ d' buf' v. decode_all_within fuel d' buf' (push_element vs v))

unfoldable pub decode_all : Amf0Decoder → Bytes → Option (Step Elements)
decode_all d buf = decode_all_within (length buf) d buf no_elements
