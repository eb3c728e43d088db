-- ===== src/Amf/Ends.antt =====
-- The parts of the AMF0 decoder end on every input, without a read or a write out of bounds (amf/amf0.rs).
use rtmp_rs.Prelude.{
  leb, if◌then◌else◌, Bool-cases, inl, inr, sym, le→ltb, length-append, ℕ, suc, ◌+◌, ◌-◌, ◌*◌, ◌≤◌,
  ◌<◌, zero, ◌≡◌, refl, ap, subst, List, Option, none, some, [], ◌∷◌, length, length-drop, Result,
  ok, err, panic, arith,
}
use rtmp_rs.Bytes.{Bytes, be32}
use rtmp_rs.Amf.Value.{
  AmfValue, null, string, xml, array, object, ecma_array, typed_object, Elements, no_elements,
  Properties, no_properties,
}
use rtmp_rs.Amf.Texts.{read_utf8_cons, read_utf8_long_cons}
use rtmp_rs.Amf.Reads.{
  fail, reference_of, invalid_reference, AmfError, Amf0Decoder, Step, get_reference, text_of,
  read_utf8, read_utf8_long, decode_number, decode_boolean, decode_date, decode_reference,
}
use rtmp_rs.Amf.Decoder.{
  set_reference, in_front, finish, and_then, then_step, leave, reserve, end_of_object,
  decode_unknown, decode_kind, Kind, number_kind, boolean_kind, string_kind, object_kind, null_kind,
  undefined_kind, reference_kind, ecma_kind, strict_kind, date_kind, long_string_kind, xml_kind,
  typed_kind, unknown_kind,
}

-- A result leaves fewer than `n` bytes.
abbrev pub Leaves : {A : Type 0} → ℕ → Bytes → Result AmfError A → Type 0
Leaves n b (ok a) = length b < n
Leaves n b (err e) = Unit
Leaves n b panic = ⊥

-- There is a step, it did not panic, and a result leaves fewer than `n` bytes.
abbrev pub Ends : {A : Type 0} → ℕ → Option (Step A) → Type 0
Ends n none = ⊥
Ends n (some s) = Leaves n s.buf s.result

-- Besides, the table of references has `k` entries at least.
abbrev pub Keeps : {A : Type 0} → ℕ → ℕ → Amf0Decoder → Bytes → Result AmfError A → Type 0
Keeps n k d b (ok a) = (length b < n) × (k ≤ length d.references)
Keeps n k d b (err e) = Unit
Keeps n k d b panic = ⊥

abbrev pub Returns : {A : Type 0} → ℕ → ℕ → Option (Step A) → Type 0
Returns n k none = ⊥
Returns n k (some s) = Keeps n k s.decoder s.buf s.result

pub Returns-Ends : {A : Type 0} (o : Option (Step A)) (n k : ℕ) → Returns n k o → Ends n o
Returns-Ends none n k h = h
Returns-Ends {A = A} (some s) n k h = on s.result h
  where
    on : (r : Result AmfError A) → Keeps n k s.decoder s.buf r → Leaves n s.buf r
    on (ok a) h = h.0
    on (err e) h = tt
    on panic h = h

pub and_then-Returns :
    {A B : Type 0} (o : Option (Step A)) (go : Amf0Decoder → Bytes → A → Option (Step B))
    (n k m l : ℕ)
    → Returns n k o
    → ((d : Amf0Decoder) (b : Bytes) (a : A)
        → length b < n
        → k ≤ length d.references
        → Returns m l (go d b a))
    → Returns m l (and_then o go)
and_then-Returns none go n k m l h step = h
and_then-Returns {A = A} {B = B} (some s) go n k m l h step = on s.result h
  where
    on : (r : Result AmfError A) → Keeps n k s.decoder s.buf r → Returns m l (then_step go s r)
    on (ok a) h = step s.decoder s.buf a h.0 h.1
    on (err e) h = tt
    on panic h = h

pub Keeps-le :
    {A : Type 0} (n k m l : ℕ) (d : Amf0Decoder) (b : Bytes) (r : Result AmfError A)
    → n ≤ m
    → l ≤ k
    → Keeps n k d b r
    → Keeps m l d b r
Keeps-le n k m l d b (ok a) le ge h = (omega (arith, h.0), omega (arith, h.1))
Keeps-le n k m l d b (err e) le ge h = tt
Keeps-le n k m l d b panic le ge h = h

pub Returns-le :
    {A : Type 0} (o : Option (Step A)) (n k m l : ℕ) → n ≤ m → l ≤ k → Returns n k o → Returns m l o
Returns-le none n k m l le ge h = h
Returns-le (some s) n k m l le ge h = Keeps-le n k m l s.decoder s.buf s.result le ge h

pub leave-Returns : (o : Option (Step AmfValue)) (n k : ℕ) → Returns n k o → Returns n k (leave o)
leave-Returns none n k h = h
leave-Returns (some s) n k h = h

pub text_of-Returns :
    {A : Type 0} (make : Bytes → A) (d : Amf0Decoder) (len : ℕ) (buf : Bytes)
    → Returns (suc (length buf)) (length d.references) (some (text_of make d len buf))
text_of-Returns make d len buf = ground (arith, length-drop len buf)

pub read_utf8-Returns :
    {A : Type 0} (make : Bytes → A) (d : Amf0Decoder) (buf : Bytes)
    → Returns (length buf - 1) (length d.references) (some (read_utf8 make d buf))
unfolding read_utf8
read_utf8-Returns make d [] = tt
read_utf8-Returns make d (a ∷ []) = tt
read_utf8-Returns make d (a ∷ b ∷ buf) =
    subst (λ s. Returns (length (a ∷ b ∷ buf) - 1) (length d.references) (some s))
      (sym (read_utf8_cons make d a b buf))
      (Returns-le (some (text_of make d (a * 256 + b) buf)) (suc (length buf)) (length d.references)
        _ _ (omega arith) (omega arith) (text_of-Returns make d (a * 256 + b) buf))

pub read_utf8_long-Returns :
    {A : Type 0} (make : Bytes → A) (d : Amf0Decoder) (buf : Bytes)
    → Returns (suc (length buf)) (length d.references) (some (read_utf8_long make d buf))
unfolding read_utf8_long
read_utf8_long-Returns make d [] = tt
read_utf8_long-Returns make d (a ∷ []) = tt
read_utf8_long-Returns make d (a ∷ b ∷ []) = tt
read_utf8_long-Returns make d (a ∷ b ∷ c ∷ []) = tt
read_utf8_long-Returns make d (a ∷ b ∷ c ∷ e ∷ buf) =
    subst (λ s. Returns (suc (length (a ∷ b ∷ c ∷ e ∷ buf))) (length d.references) (some s))
      (sym (read_utf8_long_cons make d a b c e buf))
      (Returns-le (some (text_of make d _ buf)) (suc (length buf)) (length d.references) _ _
        (omega arith) (omega arith) (text_of-Returns make d _ buf))

-- The values without parts.
pub decode_number-Returns :
    (d : Amf0Decoder) (buf : Bytes)
    → Returns (suc (length buf)) (length d.references) (some (decode_number d buf))
unfolding decode_number
decode_number-Returns d buf = ground arith

pub decode_boolean-Returns :
    (d : Amf0Decoder) (buf : Bytes)
    → Returns (suc (length buf)) (length d.references) (some (decode_boolean d buf))
unfolding decode_boolean
decode_boolean-Returns d buf = ground arith

pub decode_date-Returns :
    (d : Amf0Decoder) (buf : Bytes)
    → Returns (suc (length buf)) (length d.references) (some (decode_date d buf))
unfolding decode_date
decode_date-Returns d buf = ground arith

get_reference-within :
    (refs : List AmfValue) (i : ℕ)
    → i < length refs
    → (v : AmfValue) × (get_reference refs i ≡ some v)
unfolding get_reference
get_reference-within [] i h = absurd (omega arith)
get_reference-within (v ∷ refs) zero h = (v, refl)
get_reference-within (v ∷ refs) (suc i) h = get_reference-within refs i (omega arith)

reference_read :
    (d : Amf0Decoder) (index : ℕ) (buf : Bytes) (n : ℕ)
    → length buf < n
    → Returns n (length d.references) (
        some (
          if leb (length d.references) index
          then fail d buf (invalid_reference index)
          else reference_of d buf (get_reference d.references index)))
reference_read d index buf n le = elim (Bool-cases (leb (length d.references) index)) [
  | inl out ↦ rw out tt
  | inr within ↦
      let (v, e) = get_reference-within d.references index (ground arith) in
      rw (within, e) (le, omega arith)
]

pub decode_reference-Returns :
    (d : Amf0Decoder) (buf : Bytes)
    → Returns (suc (length buf)) (length d.references) (some (decode_reference d buf))
unfolding decode_reference
decode_reference-Returns d [] = tt
decode_reference-Returns d (a ∷ []) = tt
decode_reference-Returns d (a ∷ b ∷ buf) =
    rw (le→ltb (length (a ∷ b ∷ buf)) 2 (omega arith))
      (reference_read d (a * 256 + b) buf _ (omega arith))

pub decode_unknown-Returns :
    (m : ℕ) (d : Amf0Decoder) (buf : Bytes)
    → Returns (suc (length buf)) (length d.references) (some (decode_unknown m d buf))
unfolding decode_unknown
decode_unknown-Returns m d buf = ground arith

pub end_of_object-Returns :
    (d : Amf0Decoder) (buf : Bytes) (ps : Properties)
    → Returns (suc (length buf)) (length d.references) (some (end_of_object d buf ps))
unfolding end_of_object
end_of_object-Returns d buf ps = ground arith

-- A write within the table.
pub set_reference-within :
    (refs : List AmfValue) (i : ℕ) (v : AmfValue)
    → i < length refs
    → (refs' : List AmfValue) × (set_reference refs i v ≡ some refs') × (length refs' ≡ length refs)
unfolding set_reference
set_reference-within [] i v h = absurd (omega arith)
set_reference-within (w ∷ refs) zero v h = (v ∷ refs, refl, refl)
set_reference-within (w ∷ refs) (suc i) v h =
    let (refs', e, same) = set_reference-within refs i v (omega arith) in
    (w ∷ refs', ap (in_front w) e, ap suc same)

pub finish-Returns :
    (i : ℕ) (v : AmfValue) (d : Amf0Decoder) (buf : Bytes) (n k : ℕ)
    → i < length d.references
    → length buf < n
    → k ≤ length d.references
    → Returns n k (finish i v d buf)
finish-Returns i v d buf n k within le keeps =
    let (refs, e, same) = set_reference-within d.references i v within in
    rw e (le, omega (arith, same))

module _ (P : Amf0Decoder → Bytes → Properties → Option (Step Properties))
    (E : ℕ → Amf0Decoder → Bytes → Elements → Option (Step Elements)) (size : ℕ)
    (PE : (d : Amf0Decoder) (b : Bytes) (ps : Properties)
      → length b ≤ size
      → Returns (suc (length b)) (length d.references) (P d b ps))
    (EE : (c : ℕ) (d : Amf0Decoder) (b : Bytes) (vs : Elements)
      → length b < size
      → Returns (suc (length b)) (length d.references) (E c d b vs)) where
  pub object-Returns :
      (d : Amf0Decoder) (b : Bytes) (n k : ℕ) (make : Properties → AmfValue)
      → length b ≤ size
      → length b < n
      → k ≤ length d.references
      → Returns n k (
          and_then
            (P (reserve d) b no_properties)
            (λ d' b' ps. finish (length d.references) (make ps) d' b'))
  object-Returns d b n k make small le keeps =
      and_then-Returns (P (reserve d) b no_properties)
        (λ d' b' ps. finish (length d.references) (make ps) d' b') (suc (length b)) _ n k
        (PE (reserve d) b no_properties small)
        (λ d' b' ps lt more.
          let one = length-append d.references (null ∷ []) in
          finish-Returns (length d.references) (make ps) d' b' n k (omega (arith, one, more))
            (omega arith) (omega (arith, one, more)))

  pub array-Returns :
      (c : ℕ) (d : Amf0Decoder) (b : Bytes) (n k : ℕ)
      → length b < size
      → length b < n
      → k ≤ length d.references
      → Returns n k (
          and_then
            (E c (reserve d) b no_elements)
            (λ d' b' vs. finish (length d.references) (array vs) d' b'))
  array-Returns c d b n k small le keeps =
      and_then-Returns (E c (reserve d) b no_elements)
        (λ d' b' vs. finish (length d.references) (array vs) d' b') (suc (length b)) _ n k
        (EE c (reserve d) b no_elements small)
        (λ d' b' vs lt more.
          let one = length-append d.references (null ∷ []) in
          finish-Returns (length d.references) (array vs) d' b' n k (omega (arith, one, more))
            (omega arith) (omega (arith, one, more)))

  pub decode_kind-Returns :
      (k : Kind) (d : Amf0Decoder) (buf : Bytes)
      → length buf ≤ size
      → Returns (suc (length buf)) (length d.references) (decode_kind P E k d buf)
  unfolding decode_kind
  decode_kind-Returns number_kind d buf small = decode_number-Returns d buf
  decode_kind-Returns boolean_kind d buf small = decode_boolean-Returns d buf
  decode_kind-Returns string_kind d buf small =
      Returns-le (some (read_utf8 string d buf)) (length buf - 1) (length d.references) _ _
        (omega arith) (omega arith) (read_utf8-Returns string d buf)
  decode_kind-Returns object_kind d buf small =
      object-Returns d buf _ _ object small (omega arith) (omega arith)
  decode_kind-Returns null_kind d buf small = (omega arith, omega arith)
  decode_kind-Returns undefined_kind d buf small = (omega arith, omega arith)
  decode_kind-Returns reference_kind d buf small = decode_reference-Returns d buf
  decode_kind-Returns ecma_kind d [] small = tt
  decode_kind-Returns ecma_kind d (a ∷ []) small = tt
  decode_kind-Returns ecma_kind d (a ∷ b ∷ []) small = tt
  decode_kind-Returns ecma_kind d (a ∷ b ∷ c ∷ []) small = tt
  decode_kind-Returns ecma_kind d (a ∷ b ∷ c ∷ e ∷ buf) small =
      rw (le→ltb (length (a ∷ b ∷ c ∷ e ∷ buf)) 4 (omega arith))
        (object-Returns d buf _ _ ecma_array (omega arith) (omega arith) (omega arith))
  decode_kind-Returns strict_kind d [] small = tt
  decode_kind-Returns strict_kind d (a ∷ []) small = tt
  decode_kind-Returns strict_kind d (a ∷ b ∷ []) small = tt
  decode_kind-Returns strict_kind d (a ∷ b ∷ c ∷ []) small = tt
  decode_kind-Returns strict_kind d (a ∷ b ∷ c ∷ e ∷ buf) small =
      rw (le→ltb (length (a ∷ b ∷ c ∷ e ∷ buf)) 4 (omega arith))
        (array-Returns (be32 a b c e) d buf _ _ (omega arith) (omega arith) (omega arith))
  decode_kind-Returns date_kind d buf small = decode_date-Returns d buf
  decode_kind-Returns long_string_kind d buf small = read_utf8_long-Returns string d buf
  decode_kind-Returns xml_kind d buf small = read_utf8_long-Returns xml d buf
  decode_kind-Returns typed_kind d buf small =
      and_then-Returns (some (read_utf8 (λ name. name) d buf)) _ (length buf - 1)
        (length d.references) (suc (length buf)) (length d.references)
        (read_utf8-Returns (λ name. name) d buf)
        (λ d₁ b₁ name lt keeps.
          object-Returns d₁ b₁ _ _ (typed_object name) (omega arith) (omega arith) keeps)
  decode_kind-Returns (unknown_kind m) d buf small = decode_unknown-Returns m d buf
