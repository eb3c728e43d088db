-- ===== src/Amf/Access.antt =====
-- What the handlers read from AMF values (amf/value.rs), and the casts between integers and floats
-- that they make.
use rtmp_rs.Prelude.{
  ℕ, zero, suc, ◌+◌, ◌-◌, ◌/◌, ◌%◌, ◌^◌, Bool, not, ◌&&◌, Option, none, some, if◌then◌else◌, ltb,
  leb, ◌==◌,
}
use rtmp_rs.Bytes.{Bytes}
use rtmp_rs.Registry.Frame.{bytes_beq}
use rtmp_rs.Amf.Value.{
  AmfValue, boolean, number, integer, string, object, ecma_array, typed_object, Elements,
  no_elements, element, Properties, no_properties, property,
}
use rtmp_rs.Amf.Encoder.{f64_shifted, f64_of_i32}

abbrev pub as_str : AmfValue → Option Bytes
as_str (string s) = some s
as_str _ = none

abbrev pub as_number : AmfValue → Option ℕ
as_number (number n) = some n
as_number (integer i) = some (f64_of_i32 i)
as_number _ = none

abbrev pub as_bool : AmfValue → Option Bool
as_bool (boolean b) = some b
as_bool _ = none

abbrev pub as_object : AmfValue → Option Properties
as_object (object ps) = some ps
as_object (ecma_array ps) = some ps
as_object (typed_object name ps) = some ps
as_object _ = none

-- `get` on the map of properties.
unfoldable pub get_property : Properties → Bytes → Option AmfValue
get_property no_properties k = none
get_property (property j v ps) k = if bytes_beq j k then some v else get_property ps k

abbrev get_in : Option Properties → Bytes → Option AmfValue
get_in none k = none
get_in (some ps) k = get_property ps k

-- `AmfValue::get`.
unfoldable pub get : AmfValue → Bytes → Option AmfValue
get v k = get_in (as_object v) k

-- `get` on the vector of elements.
unfoldable pub get_element : Elements → ℕ → Option AmfValue
get_element no_elements i = none
get_element (element v vs) zero = some v
get_element (element v vs) (suc i) = get_element vs i

abbrev pub and_then : {A B : Type 0} → Option A → (A → Option B) → Option B
and_then none f = none
and_then (some a) f = f a

abbrev pub unwrap_or : {A : Type 0} → Option A → A → A
unwrap_or none d = d
unwrap_or (some a) d = a

-- `n as f64`, for a u32.
unfoldable pub f64_of_u32 : ℕ → ℕ
unfolding f64_shifted
f64_of_u32 n = if n == 0 then 0 else f64_shifted 53 1075 n

-- `x as u32`: what is behind the point is cut off, a float out of range becomes the nearest bound,
-- and NaN becomes 0.
unfoldable pub u32_of_f64 : ℕ → ℕ
u32_of_f64 x =
    let negative = leb (2 ^ 63) x in
    let exponent = x / 2 ^ 52 % 2048 in
    let mantissa = x % 2 ^ 52 in
    if exponent == 2047 && not (mantissa == 0)
    then 0
    else if negative
    then 0
    else if ltb exponent 1023
    then 0
    else if leb (1023 + 32) exponent
    then 2 ^ 32 - 1
    else (2 ^ 52 + mantissa) / 2 ^ (1075 - exponent)
