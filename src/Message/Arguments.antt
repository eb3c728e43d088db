-- ===== src/Message/Arguments.antt =====
-- The values of a command or a data message are read back (protocol/message.rs).
use rtmp_rs.Prelude.{
  ℕ, zero, suc, ◌≤◌, ◌≡◌, refl, ap, ◌∙◌, some, List, [], ◌∷◌, ◌++◌, length, length-append, ok,
  arith,
}
use rtmp_rs.Bytes.{Bytes}
use rtmp_rs.Amf.Value.{AmfValue, Elements, no_elements, element, push_element}
use rtmp_rs.Amf.Encoder
use rtmp_rs.Amf.Encoder.{encode_elements}
use rtmp_rs.Amf.Reads.{Amf0Decoder}
use rtmp_rs.Amf.Decoder.{decode}
use rtmp_rs.Amf.Encodable.{
  normal, normal_elements, push_all, IsEncodable, AllEncodable, with_references,
}
use rtmp_rs.Amf.RoundTrip.{decode-encode, encode-length}
use rtmp_rs.Message.Parse.{Parsed, and_then, next_value, parse_values, parse_rest}

push_all-element :
    (a : AmfValue) (vs more : Elements)
    → push_all (element a vs) more ≡ element a (push_all vs more)
unfolding push_all push_element
push_all-element a vs Elements.no_elements = refl
push_all-element a vs (element v more) = push_all-element a (push_element vs v) more

-- The elements pushed one by one are the elements.
pub push_all-no_elements : (vs : Elements) → push_all no_elements vs ≡ vs
unfolding push_all push_element
push_all-no_elements Elements.no_elements = refl
push_all-no_elements (element v more) =
    push_all-element v no_elements more ∙ ap (element v) (push_all-no_elements more)

-- A decoder that has read a value.
pub decode_front :
    {A : Type 0} (v : AmfValue) (d : Amf0Decoder) (rest : Bytes)
    (go : Amf0Decoder → Bytes → AmfValue → Parsed A)
    → IsEncodable 64 v
    → d.depth ≡ 0
    → (refs : List AmfValue) × (and_then (decode d (Encoder.encode v ++ rest)) go
        ≡ go (with_references d refs) rest (normal v))
decode_front v d rest go e fresh =
    let (refs, h) = decode-encode v 64 d rest e (omega arith) in (refs, rw h)

parse_values-filled :
    (f : ℕ) (d : Amf0Decoder) (buf : Bytes) (vs : Elements)
    → 1 ≤ length buf
    → parse_values (suc f) d buf vs
      ≡ next_value (λ d' b' vs'. parse_values f d' b' vs') vs (decode d buf)
unfolding parse_values
parse_values-filled f d [] vs h = absurd (omega arith)
parse_values-filled f d (m ∷ buf) vs h = refl

parse_values-nil : (f : ℕ) (d : Amf0Decoder) (vs : Elements) → parse_values f d [] vs ≡ some (ok vs)
unfolding parse_values
parse_values-nil zero d vs = refl
parse_values-nil (suc f) d vs = refl

values_back :
    (vs : Elements) (f : ℕ) (d : Amf0Decoder) (acc : Elements)
    → AllEncodable 64 vs
    → d.depth ≡ 0
    → length (encode_elements vs) ≤ f
    → parse_values f d (encode_elements vs) acc ≡ some (ok (push_all acc (normal_elements vs)))
unfolding encode_elements normal_elements AllEncodable push_all
values_back Elements.no_elements f d acc e fresh fuel = parse_values-nil f d acc
values_back (element v more) zero d acc e fresh fuel =
    absurd (omega (arith, encode-length v, length-append (Encoder.encode v) (encode_elements more)))
values_back (element v more) (suc f) d acc (ev, emore) fresh fuel =
    let (refs, h) = decode-encode v 64 d (encode_elements more) ev (omega arith) in
    let size = length-append (Encoder.encode v) (encode_elements more) in
    parse_values-filled f d (Encoder.encode v ++ encode_elements more) acc
      (omega (arith, encode-length v))
    ∙ rw h (
        values_back more f (with_references d refs) (push_element acc (normal v)) emore fresh
          (omega (arith, encode-length v)))

pub rest_back :
    (vs : Elements) (d : Amf0Decoder)
    → AllEncodable 64 vs
    → d.depth ≡ 0
    → parse_rest d (encode_elements vs) ≡ some (ok (normal_elements vs))
rest_back vs d e fresh =
    values_back vs (length (encode_elements vs)) d no_elements e fresh (omega arith)
    ∙ rw push_all-no_elements refl
