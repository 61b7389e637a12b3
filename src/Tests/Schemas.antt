-- ===== src/Tests/Schemas.antt =====
-- The theorems about schemas at schemas of two dimensions.
use pointcloud.Common.{ℕ, ◌≤◌, ◌≡◌, refl, true, inr, List, [], ◌∷◌, set, none, some, arith}
use pointcloud.Common.Result.{ok}
use pointcloud.Samples.{naturals, Names, names_table, x_dim, y_dim, plane, plane-IsLaid}
use pointcloud.Value.{pc_uint16}
use pointcloud.Text.{codes, same_text, same_nocase, char_at, atoi}
use pointcloud.Schema.{
  Dimension, Schema, schema_get_dimension, schema_get_size, schema_set_dimension, schema_clone,
  schema_new, dimension_new, schema_calculate_byteoffsets, place,
}
use pointcloud.Schema.Offsets.{laid_out, width, total_width}
use pointcloud.Schema.Fields.{
  IsLaid, schema_get_dimension-calculate_byteoffsets, schema_set_dimension-IsLaid,
}
use pointcloud.Schema.Clone.{schema_clone-same, enter_names}
use pointcloud.Schema.Compare.{
  SameFields, schema_same_dimensions, schema_same_dimensions-SameFields,
}
use pointcloud.Schema.Xml.{
  Parser, schema_from_xml, store_dimensions, read_dimension, roll_forward, read_document,
  read_nodes, read_schema, read_entries, keep_valid, read_children, read_child,
  interpretation_number,
}
use pointcloud.Schema.Xyzm.{
  schema_check_xyzm, check_xyzm_loop, point_at, point_at_name, is_name, schema_is_valid,
  all_dimensions,
}
use pointcloud.Bytes.{interpretation_size}
use pointcloud.Schema.Accepted.{Accepted, schema_from_xml-Accepted}
use pointcloud.Schema.Rejected.{schema_from_xml-refused}

-- The fields of a plane whose offsets and size are not calculated yet.
abbrev unplaced : Schema ℕ Names
unplaced = record plane {
  size = 0;
  dims =
      some (record x_dim { size = 0; byteoffset = 0 })
      ∷ some (record y_dim { size = 0; byteoffset = 0 })
      ∷ [];
}

schema_get_dimension-calculate_byteoffsets_example :
    (s' : Schema ℕ Names) × (schema_calculate_byteoffsets unplaced ≡ ok s')
    × (schema_get_dimension s' 1 ≡ some y_dim)
    × (schema_get_size s' ≡ 6)
    × ((j : ℕ) → 2 ≤ j → schema_get_dimension s' j ≡ none)
unfolding width total_width
schema_get_dimension-calculate_byteoffsets_example =
    schema_get_dimension-calculate_byteoffsets unplaced 1
      (record y_dim { size = 0; byteoffset = 0 }) plane-IsLaid.known (omega arith) refl

-- A dimension that takes the place of Y.
abbrev short_y : Dimension ℕ
short_y = record y_dim { interpretation = pc_uint16 }

schema_set_dimension-IsLaid_example :
    (s' : Schema ℕ Names) × (schema_set_dimension names_table plane short_y ≡ ok s')
    × (s'.dims ≡ laid_out 0 (set plane.dims 1 (some short_y)))
    × IsLaid s'
schema_set_dimension-IsLaid_example =
    schema_set_dimension-IsLaid names_table plane short_y plane-IsLaid (omega arith) (omega arith)

schema_clone-same_example :
    schema_clone names_table plane
    ≡ ok (record plane { namehash = enter_names names_table plane.dims [] })
schema_clone-same_example =
    schema_clone-same names_table plane plane-IsLaid (refl, (refl, tt)) (x_dim, refl) (y_dim, refl)
      tt tt

schema_same_dimensions-SameFields_example :
    SameFields plane.dims plane.dims × (plane.size ≡ plane.size)
unfolding schema_same_dimensions same_nocase
schema_same_dimensions-SameFields_example =
    schema_same_dimensions-SameFields plane plane plane-IsLaid plane-IsLaid refl

-- The elements of a schema, in the order of the text.
abbrev x_element : List (List ℕ × List ℕ)
x_element =
    (codes "name", codes "X")
    ∷ (codes "position", codes "1")
    ∷ (codes "interpretation", codes "uint16_t")
    ∷ (codes "active", codes "1")
    ∷ []

abbrev y_element : List (List ℕ × List ℕ)
y_element =
    (codes "position", codes "2")
    ∷ (codes "name", codes "Y")
    ∷ (codes "interpretation", codes "uint32_t")
    ∷ (codes "active", codes "1")
    ∷ []

abbrev reading : List (List (List ℕ × List ℕ)) → Parser ℕ
reading elements = record {
  parse = λ text. some (record { dimensions = some (some elements); metadata = some none });
  atof = λ text. 0;
}

abbrev read_plane : Schema ℕ Names
read_plane = record plane { pcid = 0; namehash = (codes "X", 0) ∷ (codes "Y", 1) ∷ [] }

plane_is_read :
    schema_from_xml naturals (reading (y_element ∷ x_element ∷ [])) names_table (codes "<a/>")
    ≡ ok (some read_plane)
unfolding schema_from_xml roll_forward read_document read_nodes read_schema read_entries keep_valid
    schema_new store_dimensions read_dimension read_children read_child dimension_new
    interpretation_number same_text atoi char_at schema_set_dimension schema_calculate_byteoffsets
    place interpretation_size schema_check_xyzm check_xyzm_loop point_at point_at_name is_name
    same_nocase schema_is_valid all_dimensions
plane_is_read = refl

schema_from_xml-Accepted_example : Accepted read_plane
schema_from_xml-Accepted_example =
    schema_from_xml-Accepted naturals (reading (y_element ∷ x_element ∷ [])) names_table
      (codes "<a/>") read_plane plane_is_read (omega arith) (omega arith)

-- The schema when the first of two elements of one position is stored.
abbrev half_plane : Schema ℕ Names
half_plane = record plane {
  pcid = 0;
  size = 2;
  dims = some x_dim ∷ none ∷ [];
  xdim = none;
  ydim = none;
  namehash = (codes "X", 0) ∷ [];
}

x_is_stored :
    store_dimensions naturals
      (reading (x_element ∷ x_element ∷ []))
      names_table
      (x_element ∷ [])
      (schema_new names_table 2)
    ≡ ok (half_plane, true)
unfolding schema_new store_dimensions read_dimension read_children read_child dimension_new
    interpretation_number same_text atoi char_at schema_set_dimension schema_calculate_byteoffsets
    place interpretation_size
x_is_stored = refl

x_is_element : read_dimension naturals (reading (x_element ∷ x_element ∷ [])) x_element ≡ ok x_dim
unfolding read_dimension read_children read_child dimension_new interpretation_number same_text atoi
    char_at interpretation_size
x_is_element = refl

schema_from_xml-refused_example :
    schema_from_xml naturals (reading (x_element ∷ x_element ∷ [])) names_table (codes "<a/>")
    ≡ ok none
unfolding schema_get_dimension
schema_from_xml-refused_example =
    schema_from_xml-refused naturals (reading (x_element ∷ x_element ∷ [])) names_table
      (codes "<a/>")
      (record { dimensions = some (some (x_element ∷ x_element ∷ [])); metadata = some none })
      (x_element ∷ []) [] x_element half_plane x_dim refl refl x_is_stored x_is_element
      (inr (x_dim, refl))
