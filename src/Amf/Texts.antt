-- ===== src/Amf/Texts.antt =====
-- Strings and single values are read back (amf/amf0.rs).
use rtmp_rs.Prelude.{
  ℕ, suc, ◌+◌, ◌-◌, ◌*◌, ◌≤◌, ◌<◌, min, ◌≡◌, refl, ap, ◌∙◌, is_empty, true, some, List, ◌∷◌, ◌++◌,
  if◌then◌else◌, ltb, le→ltb, length, take_all, length-append, take-append_exact, drop-append_exact,
  append_assoc, arith,
}
use rtmp_rs.Bytes.{Bytes, be32, put_u32, be32-put_u32}
use rtmp_rs.Amf.Text.{is_utf8, put_u16, put_f64, be16-put_u16, be64-put_f64}
use rtmp_rs.Amf.Value.{AmfValue, number, date, Properties, Elements, insert_property, push_element}
use rtmp_rs.Amf.Encoder.{write_utf8}
use rtmp_rs.Amf.Reads.{
  fail, nesting_too_deep, Amf0Decoder, give, text_of, read_utf8, read_utf8_long, decode_number,
  decode_date,
}
use rtmp_rs.Amf.Decoder.{
  and_then, end_of_object, leave, max_nesting_depth, entered, decode_within, decode_kind, kind_of,
  decode_properties, decode_elements,
}

-- The reads behind their guards.
pub read_utf8_cons :
    {A : Type 0} (make : Bytes → A) (d : Amf0Decoder) (a b : ℕ) (buf : Bytes)
    → read_utf8 make d (a ∷ b ∷ buf) ≡ text_of make d (a * 256 + b) buf
unfolding read_utf8
read_utf8_cons make d a b buf = rw (le→ltb (length (a ∷ b ∷ buf)) 2 (omega arith)) refl

pub read_utf8_long_cons :
    {A : Type 0} (make : Bytes → A) (d : Amf0Decoder) (a b c e : ℕ) (buf : Bytes)
    → read_utf8_long make d (a ∷ b ∷ c ∷ e ∷ buf) ≡ text_of make d (be32 a b c e) buf
unfolding read_utf8_long
read_utf8_long_cons make d a b c e buf =
    rw (le→ltb (length (a ∷ b ∷ c ∷ e ∷ buf)) 4 (omega arith)) refl

pub text_of_whole :
    {A : Type 0} (make : Bytes → A) (d : Amf0Decoder) (s rest : Bytes)
    → is_utf8 s ≡ true
    → text_of make d (length s) (s ++ rest) ≡ give d rest (make s)
text_of_whole make d s rest text =
    rw
      (
        le→ltb (length (s ++ rest)) (length s) (omega (arith, length-append s rest)),
        take-append_exact (length s) s rest refl,
        drop-append_exact (length s) s rest refl,
        text,
      )
      refl

pub read_utf8-put_u16 :
    {A : Type 0} (make : Bytes → A) (d : Amf0Decoder) (s rest : Bytes)
    → length s < 65536
    → is_utf8 s ≡ true
    → read_utf8 make d (put_u16 (length s) ++ (s ++ rest)) ≡ give d rest (make s)
read_utf8-put_u16 make d s rest short text =
    read_utf8_cons make d _ _ (s ++ rest)
    ∙ ap (λ n. text_of make d n (s ++ rest)) (be16-put_u16 (length s) short)
    ∙ text_of_whole make d s rest text

pub read_utf8_long-put_u32 :
    {A : Type 0} (make : Bytes → A) (d : Amf0Decoder) (s rest : Bytes)
    → length s < 4294967296
    → is_utf8 s ≡ true
    → read_utf8_long make d (put_u32 (length s) ++ (s ++ rest)) ≡ give d rest (make s)
read_utf8_long-put_u32 make d s rest short text =
    read_utf8_long_cons make d _ _ _ _ (s ++ rest)
    ∙ ap (λ n. text_of make d n (s ++ rest)) (be32-put_u32 (length s) short)
    ∙ text_of_whole make d s rest text

pub write_utf8_short : (s : Bytes) → length s < 65536 → write_utf8 s ≡ put_u16 (length s) ++ s
unfolding write_utf8
write_utf8_short s short =
    let n : min (length s) 0xFFFF ≡ length s = omega arith in
    rw (n, take_all (length s) s (omega arith)) refl

-- A string written with its length is read back.
pub read_utf8-write_utf8 :
    {A : Type 0} (make : Bytes → A) (d : Amf0Decoder) (s rest : Bytes)
    → length s < 65536
    → is_utf8 s ≡ true
    → read_utf8 make d (write_utf8 s ++ rest) ≡ give d rest (make s)
read_utf8-write_utf8 make d s rest short text =
    rw (write_utf8_short s short, append_assoc (put_u16 (length s)) s rest)
      (read_utf8-put_u16 make d s rest short text)

pub decode_number-put_f64 :
    (d : Amf0Decoder) (n : ℕ) (rest : Bytes)
    → n < 18446744073709551616
    → decode_number d (put_f64 n ++ rest) ≡ give d rest (number n)
unfolding decode_number
decode_number-put_f64 d n rest h =
    rw (le→ltb (length (put_f64 n ++ rest)) 8 (omega arith))
      (ap (λ k. give d rest (number k)) (be64-put_f64 n h))

pub decode_date-put_f64 :
    (d : Amf0Decoder) (n : ℕ) (rest : Bytes)
    → n < 18446744073709551616
    → decode_date d (put_f64 n ++ (put_u16 0 ++ rest)) ≡ give d rest (date n)
unfolding decode_date
decode_date-put_f64 d n rest h =
    rw (le→ltb (length (put_f64 n ++ (put_u16 0 ++ rest))) 10 (omega arith))
      (ap (λ k. give d rest (date k)) (be64-put_f64 n h))

-- One level of each function.
pub decode_within_cons :
    (f : ℕ) (d : Amf0Decoder) (m : ℕ) (buf : Bytes)
    → decode_within (suc f) d (m ∷ buf) ≡ (
        if ltb max_nesting_depth (d.depth + 1)
        then some (fail (entered d) (m ∷ buf) nesting_too_deep)
        else leave
            (decode_kind (decode_properties f) (decode_elements f) (kind_of m) (entered d) buf))
unfolding decode_within
decode_within_cons f d m buf = refl

-- A value is decoded one level deeper, and the depth is what it was.
pub decode_within_kind :
    (f : ℕ) (d : Amf0Decoder) (m : ℕ) (body rest : Bytes) (refs : List AmfValue) (v : AmfValue)
    → d.depth + 1 ≤ 64
    → decode_kind (decode_properties f) (decode_elements f) (kind_of m) (entered d) body
      ≡ some (give (record (entered d) { references = refs }) rest v)
    → decode_within (suc f) d (m ∷ body) ≡ some (give (record d { references = refs }) rest v)
decode_within_kind f d m body rest refs v deep h =
    let back : d.depth + 1 - 1 ≡ d.depth = omega arith in
    decode_within_cons f d m body ∙ rw (le→ltb max_nesting_depth (d.depth + 1) deep, h, back) refl

pub decode_properties-suc :
    (f : ℕ) (d : Amf0Decoder) (buf : Bytes) (ps : Properties)
    → decode_properties (suc f) d buf ps
      ≡ and_then (some (read_utf8 (λ key. key) d buf)) (λ d₁ buf₁ key.
        if is_empty key
        then some (end_of_object d₁ buf₁ ps)
        else and_then
            (decode_within f d₁ buf₁)
            (λ d₂ buf₂ v. decode_properties f d₂ buf₂ (insert_property ps key v)))
unfolding decode_properties
decode_properties-suc f d buf ps = refl

pub decode_elements-suc :
    (f count : ℕ) (d : Amf0Decoder) (buf : Bytes) (vs : Elements)
    → decode_elements (suc f) (suc count) d buf vs
      ≡ and_then
          (decode_within f d buf)
          (λ d₁ buf₁ v. decode_elements f count d₁ buf₁ (push_element vs v))
unfolding decode_elements
decode_elements-suc f count d buf vs = refl

pub decode_elements_none :
    (f : ℕ) (d : Amf0Decoder) (buf : Bytes) (vs : Elements)
    → decode_elements (suc f) 0 d buf vs ≡ some (give d buf vs)
unfolding decode_elements
decode_elements_none f d buf vs = refl
