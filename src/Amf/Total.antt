-- ===== src/Amf/Total.antt =====
-- The AMF0 decoder ends on every input (amf/amf0.rs).
use rtmp_rs.Prelude.{
  ℕ, zero, suc, ◌+◌, ◌-◌, ◌≤◌, ◌<◌, ◌≡◌, refl, sym, subst, Bool, true, false, Option, some, [], ◌∷◌,
  if◌then◌else◌, ltb, length, is_empty, arith,
}
use rtmp_rs.Bytes.{Bytes}
use rtmp_rs.Amf.Value.{Elements, no_elements, Properties, insert_property, push_element}
use rtmp_rs.Amf.Reads.{Amf0Decoder, Step, read_utf8}
use rtmp_rs.Amf.Decoder.{
  and_then, end_of_object, entered, decode_within, kind_of, decode_properties, decode_elements,
  decode, decode_all_within, decode_all, max_nesting_depth,
}
use rtmp_rs.Amf.Texts.{
  decode_properties-suc, decode_elements-suc, decode_elements_none, decode_within_cons,
}
use rtmp_rs.Amf.Ends.{
  Ends, Returns, Returns-Ends, and_then-Returns, Returns-le, leave-Returns, read_utf8-Returns,
  end_of_object-Returns, decode_kind-Returns,
}

if-Returns :
    {A : Type 0} (t : Bool) (n k : ℕ) (o p : Option (Step A))
    → (t ≡ true → Returns n k o)
    → (t ≡ false → Returns n k p)
    → Returns n k (if t then o else p)
if-Returns true n k o p h l = h refl
if-Returns false n k o p h l = l refl

mutual
  unfolding decode_within

  decode_within-Returns :
      (f : ℕ) (d : Amf0Decoder) (buf : Bytes)
      → length buf < f
      → Returns (length buf) (length d.references) (decode_within f d buf)
  decode_within-Returns zero d buf h = absurd (omega arith)
  decode_within-Returns (suc f) d [] h = tt
  decode_within-Returns (suc f) d (m ∷ buf) h =
      subst (Returns (suc (length buf)) (length d.references)) (sym (decode_within_cons f d m buf))
        (if-Returns (ltb max_nesting_depth (d.depth + 1)) (suc (length buf)) _ _ _ (λ t. tt)
          (λ t. leave-Returns _ (suc (length buf)) _ (
            decode_kind-Returns (decode_properties f) (decode_elements f) (length buf)
              (λ d' b ps le. decode_properties-Returns f d' b ps (omega arith))
              (λ c d' b vs lt. decode_elements-Returns f c d' b vs (omega arith)) (kind_of m)
              (entered d) buf (omega arith))))

  decode_properties-Returns :
      (f : ℕ) (d : Amf0Decoder) (buf : Bytes) (ps : Properties)
      → length buf < f
      → Returns (suc (length buf)) (length d.references) (decode_properties f d buf ps)
  decode_properties-Returns zero d buf ps h = absurd (omega arith)
  decode_properties-Returns (suc f) d buf ps h =
      let n = suc (length buf) in
      let k = length d.references in
      subst (Returns n k) (sym (decode_properties-suc f d buf ps)) (
        and_then-Returns (some (read_utf8 (λ key. key) d buf))
          (λ d₁ b₁ key.
            if is_empty key
            then some (end_of_object d₁ b₁ ps)
            else and_then (decode_within f d₁ b₁)
                (λ d₂ b₂ v. decode_properties f d₂ b₂ (insert_property ps key v)))
          (length buf - 1) k n k (read_utf8-Returns (λ key. key) d buf)
          (λ d₁ b₁ key lt keeps.
            if-Returns (is_empty key) n k (some (end_of_object d₁ b₁ ps))
              (and_then (decode_within f d₁ b₁)
                (λ d₂ b₂ v. decode_properties f d₂ b₂ (insert_property ps key v)))
              (λ t.
                Returns-le (some (end_of_object d₁ b₁ ps)) (suc (length b₁)) (length d₁.references)
                  n k (omega arith) keeps (end_of_object-Returns d₁ b₁ ps))
              (λ t.
                and_then-Returns (decode_within f d₁ b₁) _ (length b₁) (length d₁.references) n k
                  (decode_within-Returns f d₁ b₁ (omega arith))
                  (λ d₂ b₂ v lt₂ keeps₂.
                    Returns-le (decode_properties f d₂ b₂ (insert_property ps key v))
                      (suc (length b₂)) (length d₂.references) n k (omega arith) (omega arith)
                      (decode_properties-Returns f d₂ b₂ (insert_property ps key v)
                        (omega arith))))))

  decode_elements-Returns :
      (f c : ℕ) (d : Amf0Decoder) (buf : Bytes) (vs : Elements)
      → suc (length buf) < f
      → Returns (suc (length buf)) (length d.references) (decode_elements f c d buf vs)
  decode_elements-Returns zero c d buf vs h = absurd (omega arith)
  decode_elements-Returns (suc f) zero d buf vs h =
      subst (Returns (suc (length buf)) (length d.references))
        (sym (decode_elements_none f d buf vs)) (omega arith, omega arith)
  decode_elements-Returns (suc f) (suc c) d buf vs h =
      let n = suc (length buf) in
      let k = length d.references in
      subst (Returns n k) (sym (decode_elements-suc f c d buf vs)) (
        and_then-Returns (decode_within f d buf) _ (length buf) k n k
          (decode_within-Returns f d buf (omega arith))
          (λ d₁ b₁ v lt keeps.
            Returns-le (decode_elements f c d₁ b₁ (push_element vs v)) (suc (length b₁))
              (length d₁.references) n k (omega arith) keeps
              (decode_elements-Returns f c d₁ b₁ (push_element vs v) (omega arith))))

-- On any bytes and with any table of references `decode` ends, and none of its reads is past the
-- end of the buffer and none of its reads and writes of the table out of range, so that it does
-- not panic. Where it returns a value it has taken a byte at least.
pub decode-Ends : (d : Amf0Decoder) (buf : Bytes) → Ends (length buf) (decode d buf)
unfolding decode
decode-Ends d buf =
    Returns-Ends (decode d buf) (length buf) (length d.references)
      (decode_within-Returns (suc (length buf)) d buf (omega arith))

decode_all_within-Returns :
    (f : ℕ) (d : Amf0Decoder) (buf : Bytes) (vs : Elements)
    → length buf ≤ f
    → Returns 1 0 (decode_all_within f d buf vs)
unfolding decode_all_within decode
decode_all_within-Returns f d [] vs h = (omega arith, omega arith)
decode_all_within-Returns zero d (m ∷ buf) vs h = absurd (omega arith)
decode_all_within-Returns (suc f) d (m ∷ buf) vs h =
    and_then-Returns (decode d (m ∷ buf)) (λ d' b v. decode_all_within f d' b (push_element vs v))
      (suc (length buf)) (length d.references) 1 0
      (decode_within-Returns (suc (suc (length buf))) d (m ∷ buf) (omega arith))
      (λ d' b v lt keeps. decode_all_within-Returns f d' b (push_element vs v) (omega arith))

-- On any bytes `decode_all` ends, without a panic, and where it returns values nothing is left.
pub decode_all-Ends : (d : Amf0Decoder) (buf : Bytes) → Ends 1 (decode_all d buf)
unfolding decode_all
decode_all-Ends d buf =
    Returns-Ends (decode_all d buf) 1 0
      (decode_all_within-Returns (length buf) d buf no_elements (omega arith))
