-- ===== src/Amf/Levels.antt =====
-- One level of a value is read back where its parts are (amf/amf0.rs).
use rtmp_rs.Prelude.{
  List, [], false, le→ltb, length-append, ℕ, zero, suc, ◌+◌, ◌%◌, ◌≤◌, ◌<◌, ◌≡◌, refl, ap, ◌∙◌, inl,
  inr, true, Bool-cases, Option, some, ◌∷◌, ◌++◌, ltb, length, append_assoc, arith,
}
use rtmp_rs.Bytes.{Bytes, u32, put_u32, be32-put_u32}
use rtmp_rs.Amf.Text.{is_utf8, put_u16}
use rtmp_rs.Amf.Value.{
  AmfValue, null, string, xml, array, object, ecma_array, typed_object, Elements, no_elements,
  Properties, no_properties, count, count_properties,
}
use rtmp_rs.Amf.Encoder.{
  write_utf8, encode_string, object_end, encode, encode_properties, encode_elements,
}
use rtmp_rs.Amf.Reads.{Amf0Decoder, Step, give}
use rtmp_rs.Amf.Decoder.{
  finish, and_then, reserve, set_reference, entered, decode_kind, kind_of, decode_properties,
  decode_elements,
}
use rtmp_rs.Amf.Ends.{set_reference-within}
use rtmp_rs.Amf.Texts.{
  read_utf8-write_utf8, read_utf8-put_u16, read_utf8_long-put_u32, decode_within_kind,
}
use rtmp_rs.Amf.Encodable.{normal, IsShort, ReadsBack, PropertiesBack, ElementsBack}

pub suc_fuel : (P : ℕ → Type 0) (f : ℕ) → 1 ≤ f → ((g : ℕ) → P (suc g)) → P f
suc_fuel P zero h step = absurd (omega arith)
suc_fuel P (suc g) h step = step g

-- The place that `reserve` has made is written.
placed :
    (d : Amf0Decoder) (refs : List AmfValue) (v : AmfValue)
    → length (reserve d).references ≤ length refs
    → (refs' : List AmfValue) × (length d.references ≤ length refs')
      × (set_reference refs (length d.references) v ≡ some refs')
placed d refs v grows =
    let one = length-append d.references (null ∷ []) in
    let (refs', e, same) =
      set_reference-within refs (length d.references) v (omega (arith, one, grows)) in
    (refs', omega (arith, one, grows, same), e)

pub object_level :
    (g : ℕ) (d : Amf0Decoder) (ps : Properties) (rest : Bytes)
    → d.depth + 1 ≤ 64
    → PropertiesBack g (reserve (entered d)) ps no_properties rest
    → ReadsBack (suc g) d (object ps) rest
unfolding encode normal decode_kind kind_of
object_level g d ps rest deep (refs, grows, h) =
    let (refs', more, written) = placed (entered d) refs (normal (object ps)) grows in
    (
      refs',
      more,
      rw (append_assoc (encode_properties ps) object_end rest) (
          decode_within_kind g d 3 (encode_properties ps ++ (object_end ++ rest)) rest _ _ deep
            (rw (h, written) refl)),
    )

pub ecma_level :
    (g : ℕ) (d : Amf0Decoder) (ps : Properties) (rest : Bytes)
    → d.depth + 1 ≤ 64
    → PropertiesBack g (reserve (entered d)) ps no_properties rest
    → ReadsBack (suc g) d (ecma_array ps) rest
unfolding encode normal decode_kind kind_of
ecma_level g d ps rest deep (refs, grows, h) =
    let (refs', more, written) = placed (entered d) refs (normal (ecma_array ps)) grows in
    let body = encode_properties ps ++ (object_end ++ rest) in
    let whole : ltb (length (put_u32 (u32 (count_properties ps)) ++ body)) 4 ≡ false =
      le→ltb (length (put_u32 (u32 (count_properties ps)) ++ body)) 4 (omega arith) in
    (
      refs',
      more,
      rw (append_assoc (encode_properties ps) object_end rest)
          (decode_within_kind g d 8 _ rest _ _ deep (rw (whole, h, written) refl)),
    )

pub typed_level :
    (g : ℕ) (d : Amf0Decoder) (name : Bytes) (ps : Properties) (rest : Bytes)
    → d.depth + 1 ≤ 64
    → IsShort name
    → PropertiesBack g (reserve (entered d)) ps no_properties rest
    → ReadsBack (suc g) d (typed_object name ps) rest
unfolding encode normal decode_kind kind_of
typed_level g d name ps rest deep (short, text) (refs, grows, h) =
    let (refs', more, written) = placed (entered d) refs (normal (typed_object name ps)) grows in
    (
      refs',
      more,
      rw
          (
            append_assoc (write_utf8 name) (encode_properties ps ++ object_end) rest,
            append_assoc (encode_properties ps) object_end rest,
          )
          (decode_within_kind g d 16 _ rest _ _ deep (
            rw
              (
                read_utf8-write_utf8 (λ n. n) (entered d) name
                    (encode_properties ps ++ (object_end ++ rest)) short text,
                h,
                written,
              )
              refl)),
    )

pub strict_counted :
    (P : Amf0Decoder → Bytes → Properties → Option (Step Properties))
    (E : ℕ → Amf0Decoder → Bytes → Elements → Option (Step Elements)) (n : ℕ) (d : Amf0Decoder)
    (rest : Bytes)
    → n < 4294967296
    → decode_kind P E (kind_of 10) d (put_u32 n ++ rest)
      ≡ and_then
          (E n (reserve d) rest no_elements)
          (λ d' buf' vs. finish (length d.references) (array vs) d' buf')
unfolding decode_kind kind_of
strict_counted P E n d rest h = rw (le→ltb (length (put_u32 n ++ rest)) 4 (omega arith)) (
    ap
      (λ k.
        and_then (E k (reserve d) rest no_elements)
          (λ d' buf' vs. finish (length d.references) (array vs) d' buf'))
      (be32-put_u32 n h))

pub array_level :
    (g : ℕ) (d : Amf0Decoder) (vs : Elements) (rest : Bytes)
    → d.depth + 1 ≤ 64
    → count vs < 4294967296
    → ElementsBack g (reserve (entered d)) vs no_elements rest
    → ReadsBack (suc g) d (array vs) rest
unfolding encode normal
array_level g d vs rest deep few (refs, grows, h) =
    let small : u32 (count vs) ≡ count vs = omega arith in
    let (refs', more, written) = placed (entered d) refs (normal (array vs)) grows in
    (
      refs',
      more,
      decode_within_kind g d 10 _ rest _ _ deep (
          ap
            (λ k.
              decode_kind (decode_properties g) (decode_elements g) (kind_of 10) (entered d)
                (put_u32 k ++ (encode_elements vs ++ rest)))
            small
          ∙ strict_counted (decode_properties g) (decode_elements g) (count vs) (entered d)
              (encode_elements vs ++ rest) few
          ∙ rw (h, written) refl),
    )

pub single_level :
    (g : ℕ) (d : Amf0Decoder) (v : AmfValue) (m : ℕ) (body rest : Bytes)
    → d.depth + 1 ≤ 64
    → encode v ≡ m ∷ body
    → decode_kind (decode_properties g) (decode_elements g) (kind_of m) (entered d) (body ++ rest)
      ≡ some (give (entered d) rest (normal v))
    → ReadsBack (suc g) d v rest
single_level g d v m body rest deep e h = (
  d.references,
  omega arith,
  rw e (decode_within_kind g d m (body ++ rest) rest d.references (normal v) deep h),
)

pub string_level :
    (g : ℕ) (d : Amf0Decoder) (s rest : Bytes)
    → d.depth + 1 ≤ 64
    → length s < 4294967296
    → is_utf8 s ≡ true
    → ReadsBack (suc g) d (string s) rest
unfolding encode normal encode_string decode_kind kind_of
string_level g d s rest deep len text = elim (Bool-cases (ltb 0xFFFF (length s))) [
  | inl long ↦
      let small : u32 (length s) ≡ length s = omega arith in
      (
        d.references,
        omega arith,
        rw (long, small)
            (decode_within_kind g d 12 (put_u32 (length s) ++ (s ++ rest)) rest d.references
              (string s) deep
              (ap some (read_utf8_long-put_u32 string (entered d) s rest len text))),
      )
  | inr short ↦
      let few : length s < 65536 = ground arith in
      let small : length s % 65536 ≡ length s = omega arith in
      (
        d.references,
        omega arith,
        rw (short, small)
            (decode_within_kind g d 2 (put_u16 (length s) ++ (s ++ rest)) rest d.references
              (string s) deep (ap some (read_utf8-put_u16 string (entered d) s rest few text))),
      )
]

pub xml_level :
    (g : ℕ) (d : Amf0Decoder) (s rest : Bytes)
    → d.depth + 1 ≤ 64
    → length s < 4294967296
    → is_utf8 s ≡ true
    → ReadsBack (suc g) d (xml s) rest
unfolding encode normal decode_kind kind_of
xml_level g d s rest deep len text =
    let small : u32 (length s) ≡ length s = omega arith in
    (
      d.references,
      omega arith,
      rw small (
          decode_within_kind g d 15 (put_u32 (length s) ++ (s ++ rest)) rest d.references (xml s)
            deep (ap some (read_utf8_long-put_u32 xml (entered d) s rest len text))),
    )
