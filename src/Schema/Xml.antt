-- ===== src/Schema/Xml.antt =====
-- lib/pc_schema.c: reading a schema from its XML form. Parsing the text and finding the nodes
-- (libxml2) is a parameter, which gives a document; the texts of a node become a dimension here.
use pointcloud.Common.{
  ℕ, ◌+◌, ◌-◌, ◌%◌, ◌^◌, Bool, true, false, ◌||◌, ◌==◌, ltb, if◌then◌else◌, List, [], ◌∷◌, length,
  get_elem?, Option, none, some,
}
use pointcloud.Common.Result.{Result, ok, access, ◌>>=◌}
use pointcloud.Bytes.{interpretation_size, u32}
use pointcloud.Value.{
  Doubles, pc_int8, pc_uint8, pc_int16, pc_uint16, pc_int32, pc_uint32, pc_int64, pc_uint64,
  pc_double, pc_float,
}
use pointcloud.Text.{codes, same_nocase, same_text, char_at, atoi}
use pointcloud.Schema.{
  Dimension, Hashtable, Schema, ndims, dimension_new, schema_new, schema_set_dimension,
  schema_calculate_byteoffsets,
}
use pointcloud.Schema.Compare.{followed}
use pointcloud.Schema.Xyzm.{schema_check_xyzm, schema_is_valid}

-- The numbers of `enum COMPRESSIONS`.
abbrev pub pc_none : ℕ
pc_none = 0

abbrev pub pc_dimensional : ℕ
pc_dimensional = 1

abbrev pub pc_lazperf : ℕ
pc_lazperf = 2

-- The type that the digit after `int` or `uint` tells.
sized_type : ℕ → ℕ → ℕ → ℕ → ℕ → ℕ
sized_type c int8 int16 int32 int64 =
    if c == b'8'
    then int8
    else if c == b'1'
    then int16
    else if c == b'3'
    then int32
    else if c == b'6'
    then int64
    else 0

type_of_letter : List ℕ → ℕ → Result ℕ
unfolding sized_type char_at
type_of_letter str c =
    if c == b'i' || c == b'I'
    then (do digit ← char_at str 3; ok (sized_type digit pc_int8 pc_int16 pc_int32 pc_int64))
    else if c == b'u' || c == b'U'
    then (do digit ← char_at str 4; ok (sized_type digit pc_uint8 pc_uint16 pc_uint32 pc_uint64))
    else if c == b'd' || c == b'D'
    then ok pc_double
    else if c == b'f' || c == b'F'
    then ok pc_float
    else ok 0

unfoldable pub interpretation_number : List ℕ → Result ℕ
unfolding type_of_letter
interpretation_number str = do c ← char_at str 0; type_of_letter str c

-- The first letter is tested as well, which `strcasecmp` makes redundant.
unfoldable pub compression_number : List ℕ → ℕ
unfolding same_nocase
compression_number str =
    if same_nocase str (codes "dimensional")
    then pc_dimensional
    else if same_nocase str (codes "laz")
    then pc_lazperf
    else pc_none

-- The conversion of a number in a text by `atof`, and what libxml2 finds in a schema.
pub record Metadata : Type 0 where
  pub name : Option (List ℕ)
  pub content : List ℕ

-- The elements that the two path expressions select: for a dimension the names of its child
-- elements with their texts. The outer `none` is an expression that could not be evaluated, the
-- inner one a null set of nodes.
pub record Document : Type 0 where
  pub dimensions : Option (Option (List (List (List ℕ × List ℕ))))
  pub metadata : Option (Option (List Metadata))

pub record Parser {ℓ} (D : Type ℓ) : Type ℓ where
  pub parse : List ℕ → Option Document
  pub atof : List ℕ → D

module _ {ℓ} {D : Type ℓ} (parser : Parser D) where
  -- What a child element of a dimension sets. Unknown elements are reported only.
  unfoldable pub read_child : Dimension D → List ℕ → List ℕ → Result (Dimension D)
  unfolding same_text atoi interpretation_number
  read_child d name content =
      if same_text name (codes "name")
      then ok (record d { name = some content })
      else if same_text name (codes "description")
      then ok (record d { description = some content })
      else if same_text name (codes "size")
      then ok (record d { size = atoi content })
      else if same_text name (codes "active")
      then ok (record d { active = atoi content % 256 })
      else if same_text name (codes "position")
      then ok (record d { position = (atoi content + (2 ^ 32 - 1)) % 2 ^ 32 })
      else if same_text name (codes "interpretation")
      then (do
        interpretation ← interpretation_number content
        ok (record d { interpretation = interpretation }))
      else if same_text name (codes "scale")
      then ok (record d { scaling = record d.scaling { scale = parser.atof content } })
      else if same_text name (codes "offset")
      then ok (record d { scaling = record d.scaling { offset = parser.atof content } })
      else ok d

  unfoldable pub read_children : List (List ℕ × List ℕ) → Dimension D → Result (Dimension D)
  unfolding read_child
  read_children [] d = ok d
  read_children ((name, content) ∷ children) d = do
    d' ← read_child d name content
    read_children children d'

module _ {ℓ} {D : Type ℓ} (doubles : Doubles D) (parser : Parser D) where
  -- One element, up to the conversion of its interpretation to a size.
  unfoldable pub read_dimension : List (List ℕ × List ℕ) → Result (Dimension D)
  unfolding read_children dimension_new
  read_dimension element = do
    d ← read_children parser element (dimension_new doubles)
    size ← interpretation_size d.interpretation
    ok (record d { size = u32 size })

-- Rolling forward to the first `<`.
unfoldable pub roll_forward : List ℕ → List ℕ
roll_forward [] = []
roll_forward (c ∷ cs) = elim (c == b'<') [ true ↦ c ∷ cs | false ↦ roll_forward cs ]

module _ {ℓ} {D T : Type ℓ} where
  -- The entries that name a compression set it; the last one counts.
  unfoldable pub read_metadata : List Metadata → Option (Schema D T) → Result (Option (Schema D T))
  unfolding same_text compression_number
  read_metadata [] s = ok s
  read_metadata (entry ∷ entries) s = do
    name ← followed entry.name
    elim (same_text name (codes "compression")) [
      | true ↦ do
        schema ← followed s
        read_metadata entries
            (some (record schema { compression = compression_number entry.content }))
      | false ↦ read_metadata entries s
    ]

  -- The second half of the function, unless the first one jumped to its end.
  unfoldable pub read_entries :
      Option (Option (List Metadata)) → Option (Schema D T) × Bool → Result (Option (Schema D T))
  unfolding read_metadata
  read_entries metadata (s, false) = ok s
  read_entries none (s, true) = ok s
  read_entries (some none) (s, true) = ok s
  read_entries (some (some entries)) (s, true) = read_metadata entries s

  unfoldable pub keep_valid : Option (Schema D T) → Option (Schema D T)
  unfolding schema_is_valid
  keep_valid none = none
  keep_valid (some s) = if schema_is_valid s then some s else none

module _ {ℓ} {D T : Type ℓ} (doubles : Doubles D) (parser : Parser D) (table : Hashtable T) where
  -- The loop over the elements of a schema, and whether it ran to its end: at a position that is
  -- out of range or taken it jumps to the end of the function.
  unfoldable pub store_dimensions :
      List (List (List ℕ × List ℕ)) → Schema D T → Result (Schema D T × Bool)
  unfolding read_dimension schema_set_dimension
  store_dimensions [] s = ok (s, true)
  store_dimensions (element ∷ elements) s = do
    d ← read_dimension doubles parser element
    elim (ltb d.position (ndims s)) [
      | false ↦ ok (s, false)
      | true ↦ do
        slot ← access (get_elem? s.dims d.position)
        elim slot [
          | some old ↦ ok (s, false)
          | none ↦ do s' ← schema_set_dimension table s d; store_dimensions elements s'
        ]
    ]

  -- A set of dimensions as a schema, and whether reading goes on.
  unfoldable pub read_schema : List (List (List ℕ × List ℕ)) → Result (Option (Schema D T) × Bool)
  unfolding store_dimensions schema_new schema_calculate_byteoffsets schema_check_xyzm
  read_schema elements = do
    stored ← store_dimensions elements (schema_new table (length elements))
    elim stored.1 [
      | false ↦ ok (some stored.0, false)
      | true ↦ do
        placed ← schema_calculate_byteoffsets stored.0
        s ← schema_check_xyzm placed
        ok (some s, true)
    ]

  unfoldable pub read_nodes :
      Option (List (List (List ℕ × List ℕ))) → Result (Option (Schema D T) × Bool)
  unfolding read_schema
  read_nodes none = ok (none, true)
  read_nodes (some elements) = read_schema elements

  -- The schema when the function comes to its end.
  unfoldable pub read_document : Document → Result (Option (Schema D T))
  unfolding read_nodes read_entries
  read_document document = elim document.dimensions [
    | none ↦ ok none
    | some nodes ↦ do found ← read_nodes nodes; read_entries document.metadata found
  ]

  unfoldable pub schema_from_xml : List ℕ → Result (Option (Schema D T))
  unfolding read_document keep_valid roll_forward
  schema_from_xml xml_str = elim (parser.parse (roll_forward xml_str)) [
    | none ↦ ok none
    | some document ↦ do s ← read_document document; ok (keep_valid s)
  ]
