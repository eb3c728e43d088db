-- ===== src/Amf/Loops.antt =====
-- The loops over properties and elements read back what the encoder wrote (amf/amf0.rs).
use rtmp_rs.Prelude.{
  ℕ, suc, ◌≡◌, refl, ◌∙◌, false, List, [], ◌∷◌, ◌++◌, append_assoc, is_empty, arith,
}
use rtmp_rs.Bytes.{Bytes}
use rtmp_rs.Amf.Text.{utf8_after}
use rtmp_rs.Amf.Value.{
  AmfValue, Elements, no_elements, element, Properties, no_properties, property, insert_property,
  insert_all, push_element, count,
}
use rtmp_rs.Amf.Encoder.{write_utf8, object_end, encode, encode_properties, encode_elements}
use rtmp_rs.Amf.Reads.{Amf0Decoder}
use rtmp_rs.Amf.Decoder.{end_of_object}
use rtmp_rs.Amf.Texts.{
  read_utf8-write_utf8, read_utf8-put_u16, decode_properties-suc, decode_elements-suc,
  decode_elements_none,
}
use rtmp_rs.Amf.Encodable.{
  push_all, normal, normal_properties, normal_elements, IsShort, with_references, ReadsBack,
  PropertiesBack, ElementsBack,
}

pub no_more :
    (g : ℕ) (d : Amf0Decoder) (acc : Properties) (rest : Bytes)
    → PropertiesBack (suc g) d no_properties acc rest
unfolding encode_properties normal_properties insert_all end_of_object utf8_after
no_more g d acc rest = (
  d.references,
  omega arith,
  decode_properties-suc g d (object_end ++ rest) acc
      ∙ rw (read_utf8-put_u16 (λ key. key) d [] (9 ∷ rest) (omega arith) refl) refl,
)

pub one_more :
    (g : ℕ) (d : Amf0Decoder) (k : Bytes) (v : AmfValue) (ps acc : Properties) (rest : Bytes)
    → is_empty k ≡ false
    → IsShort k
    → ReadsBack g d v (encode_properties ps ++ (object_end ++ rest))
    → ((refs : List AmfValue)
        → PropertiesBack g (with_references d refs) ps (insert_property acc k (normal v)) rest)
    → PropertiesBack (suc g) d (property k v ps) acc rest
unfolding encode_properties normal_properties insert_all
one_more g d k v ps acc rest named (short, text) (refs, grows, h) later =
    let (refs', grows', h') = later refs in
    (
      refs',
      omega (arith, grows, grows'),
      rw
          (
            append_assoc (write_utf8 k) (encode v ++ encode_properties ps) (object_end ++ rest),
            append_assoc (encode v) (encode_properties ps) (object_end ++ rest),
          )
          (decode_properties-suc g d
              (write_utf8 k ++ (encode v ++ (encode_properties ps ++ (object_end ++ rest)))) acc
            ∙ rw
                (
                  read_utf8-write_utf8 (λ key. key) d k
                      (encode v ++ (encode_properties ps ++ (object_end ++ rest))) short text,
                  named,
                  h,
                )
                h'),
    )

pub no_element :
    (g : ℕ) (d : Amf0Decoder) (acc : Elements) (rest : Bytes)
    → ElementsBack (suc g) d no_elements acc rest
unfolding encode_elements normal_elements push_all count
no_element g d acc rest = (d.references, omega arith, decode_elements_none g d rest acc)

pub one_element :
    (g : ℕ) (d : Amf0Decoder) (v : AmfValue) (vs acc : Elements) (rest : Bytes)
    → ReadsBack g d v (encode_elements vs ++ rest)
    → ((refs : List AmfValue)
        → ElementsBack g (with_references d refs) vs (push_element acc (normal v)) rest)
    → ElementsBack (suc g) d (element v vs) acc rest
unfolding encode_elements normal_elements push_all count
one_element g d v vs acc rest (refs, grows, h) later =
    let (refs', grows', h') = later refs in
    (
      refs',
      omega (arith, grows, grows'),
      rw (append_assoc (encode v) (encode_elements vs) rest) (
          decode_elements-suc g (count vs) d (encode v ++ (encode_elements vs ++ rest)) acc
          ∙ rw h h'),
    )
