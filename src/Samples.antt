-- ===== src/Samples.antt =====
-- Sample data for the tests: numbers in place of doubles, and a schema of two dimensions.
use pointcloud.Common.{
  ◌≡◌, sym, ap, ◌∙◌, length, take, take-length, ℕ, ◌+◌, ◌-◌, ◌*◌, ◌/◌, refl, ◌==◌, ltb,
  if◌then◌else◌, List, [], ◌∷◌, Option, none, some, arith, false,
}
use pointcloud.Bytes.Codec.{Zlib, ZlibLaws}
use pointcloud.Bounds.{Bounds}
use pointcloud.Patch.{PatchUncompressed}
use pointcloud.Lazperf.{Lazperf}
use pointcloud.Value.{Doubles, pc_uint16, pc_uint32}
use pointcloud.Text.{codes, same_nocase}
use pointcloud.Schema.{Dimension, Hashtable, Schema}
use pointcloud.Schema.Offsets.{laid_out, width, total_width}
use pointcloud.Schema.Fields.{IsLaid}
use pointcloud.Point.{Point}
use pointcloud.Point.Access.{IsPoint}

abbrev pub naturals : Doubles ℕ
naturals = record {
  less = ltb;
  equal = λ a b. a == b;
  add = λ a b. a + b;
  subtract = λ a b. a - b;
  multiply = λ a b. a * b;
  divide = λ a b. a / b;
  negate = λ a. 0;
  from_nat = λ a. a;
  from_float_bits = λ a. a;
  from_double_bits = λ a. a;
  flt_max = 1000000;
  dbl_max = 1000000;
  lround = λ a. a;
  float_bits = λ a. a;
  double_bits = λ a. a;
}

-- A table of names is the list of its entries.
abbrev pub Names : Type 0
Names = List (List ℕ × ℕ)

unfoldable pub find : Names → List ℕ → Option ℕ
unfolding same_nocase
find [] name = none
find ((key, value) ∷ names) name =
    let rest = find names name in if same_nocase key name then some value else rest

abbrev pub names_table : Hashtable Names
names_table = record {
  create_string_hashtable = [];
  hashtable_insert = λ names key value. (key, value) ∷ names;
  hashtable_search = find;
}

abbrev pub x_dim : Dimension ℕ
x_dim = record {
  name = some (codes "X");
  description = none;
  position = 0;
  size = 2;
  byteoffset = 0;
  interpretation = pc_uint16;
  scaling = record { scale = 1; offset = 0 };
  active = 1;
}

abbrev pub y_dim : Dimension ℕ
y_dim = record {
  name = some (codes "Y");
  description = none;
  position = 1;
  size = 4;
  byteoffset = 2;
  interpretation = pc_uint32;
  scaling = record { scale = 1; offset = 0 };
  active = 1;
}

abbrev pub plane : Schema ℕ Names
plane = record {
  pcid = 1;
  size = 6;
  dims = some x_dim ∷ some y_dim ∷ [];
  srid = 0;
  xdim = some 0;
  ydim = some 1;
  zdim = none;
  mdim = none;
  compression = 0;
  namehash = (codes "Y", 1) ∷ (codes "X", 0) ∷ [];
}

pub plane-IsLaid : IsLaid plane
unfolding laid_out width total_width
plane-IsLaid = record { known = omega arith; few = omega arith; placed = refl; sized = refl }

abbrev pub corner : Point ℕ Names
corner = record { readonly = false; schema = plane; data_bytes = 7 ∷ 0 ∷ 9 ∷ 0 ∷ 0 ∷ 0 ∷ [] }

pub corner-IsPoint : IsPoint corner
corner-IsPoint = record { laid = plane-IsLaid; filled = omega arith }

abbrev pub unit_square : Bounds ℕ
unit_square = record { xmin = 0; xmax = 1; ymin = 0; ymax = 1 }

abbrev pub single : PatchUncompressed ℕ Names
single = record {
  type = 0;
  readonly = false;
  schema = plane;
  npoints = 1;
  bounds = unit_square;
  stats = none;
  maxpoints = 1;
  datasize = 6;
  data_bytes = 1 ∷ 0 ∷ 1 ∷ 0 ∷ 0 ∷ 0 ∷ [];
}

-- A codec that stores its input stands for zlib.
abbrev pub stored : Zlib
stored = record {
  deflate = λ input space. some input;
  inflate = λ input space. some (take space input);
}

pub stored_laws : ZlibLaws stored (λ n. n)
stored_laws = record {
  deflates = λ input space h. (input, refl);
  inflates = λ input out space byte h e.
      ap some (ap (take (length input)) (sym (stored_whole input out e)) ∙ take-length input);
}
  where
    stored_whole : (input out : List ℕ) → some input ≡ some out → input ≡ out
    stored_whole input out e = ap (λ o. elim o [ none ↦ input | some written ↦ written ]) e

-- A build that laz-perf compresses nothing for.
abbrev pub no_laz : Lazperf ℕ Names
no_laz = record { compress_from_uncompressed = λ pa. none; uncompress_from_compressed = λ pa. none }
