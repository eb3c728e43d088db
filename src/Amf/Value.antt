-- ===== src/Amf/Value.antt =====
-- The values of both AMF formats (amf/value.rs). A `HashMap` is the list of its entries in the order
-- in which it is iterated.
use rtmp_rs.Prelude.{ℕ, suc, Bool, if◌then◌else◌}
use rtmp_rs.Bytes.{Bytes}
use rtmp_rs.Registry.Frame.{bytes_beq}

mutual
  pub data AmfValue : Type 0 where
    null undefined : AmfValue
    boolean : Bool → AmfValue
    number date : ℕ → AmfValue  -- f64
    integer : ℕ → AmfValue  -- i32, in two's complement
    string xml byte_array : Bytes → AmfValue
    array : Elements → AmfValue
    object ecma_array : Properties → AmfValue
    typed_object : Bytes → Properties → AmfValue

  -- `Vec<AmfValue>`.
  pub data Elements : Type 0 where
    no_elements : Elements
    element : AmfValue → Elements → Elements

  -- `HashMap<String, AmfValue>`.
  pub data Properties : Type 0 where
    no_properties : Properties
    property : Bytes → AmfValue → Properties → Properties

-- `insert` on the map of properties.
unfoldable pub insert_property : Properties → Bytes → AmfValue → Properties
insert_property no_properties k v = property k v no_properties
insert_property (property j w ps) k v =
    if bytes_beq j k then property j v ps else property j w (insert_property ps k v)

unfoldable pub insert_all : Properties → Properties → Properties
insert_all ps no_properties = ps
insert_all ps (property k v more) = insert_all (insert_property ps k v) more

-- `push` on the vector of elements.
unfoldable pub push_element : Elements → AmfValue → Elements
push_element no_elements v = element v no_elements
push_element (element w vs) v = element w (push_element vs v)

unfoldable pub count : Elements → ℕ
count no_elements = 0
count (element v vs) = suc (count vs)

unfoldable pub count_properties : Properties → ℕ
count_properties no_properties = 0
count_properties (property k v ps) = suc (count_properties ps)
