-- ===== src/Schema.antt =====
-- lib/pc_schema.c, lib/pc_api.h: the dimensions of a point, where their bytes stand in it, and the
-- schema that holds them. `PCSCHEMA.dims` is a list, as long as `ndims`; a null pointer is `none`,
-- and a pointer to a dimension of the schema is its index in the list. The hash table of names
-- (lib/hashtable.c, copied from another project) is a parameter.
pub mod Offsets
pub mod Fields
pub mod Clone
pub mod Compare
pub mod Xyzm
pub mod Xml
pub mod Kept
pub mod Coordinates
pub mod Accepted
pub mod Rejected
use pointcloud.Common.{
  ℕ, ◌+◌, ◌%◌, ◌^◌, ◌≡◌, Bool, ◌==◌, ltb, if◌then◌else◌, List, [], ◌∷◌, length, replicate,
  get_elem?, set, Option, none, some,
}
use pointcloud.Common.Result.{Result, ok, fail, access, undefined, ◌>>=◌}
use pointcloud.Bytes.{interpretation_size, u32}
use pointcloud.Value.{Doubles, Scaling}
use pointcloud.Text.{same_nocase}

pub record Dimension {ℓ} (D : Type ℓ) : Type ℓ where
  pub name : Option (List ℕ)
  pub description : Option (List ℕ)
  pub position : ℕ
  pub size : ℕ
  pub byteoffset : ℕ
  pub interpretation : ℕ
  pub scaling : Scaling D
  pub active : ℕ

-- lib/hashtable.h: a table from names to dimensions of the schema.
pub record Hashtable {ℓ} (T : Type ℓ) : Type ℓ where
  pub create_string_hashtable : T
  pub hashtable_insert : T → List ℕ → ℕ → T
  pub hashtable_search : T → List ℕ → Option ℕ

pub record Schema {ℓ} (D T : Type ℓ) : Type ℓ where
  pub pcid : ℕ
  pub size : ℕ
  pub dims : List (Option (Dimension D))
  pub srid : ℕ
  pub xdim : Option ℕ
  pub ydim : Option ℕ
  pub zdim : Option ℕ
  pub mdim : Option ℕ
  pub compression : ℕ
  pub namehash : T

abbrev pub ndims {ℓ} : {D T : Type ℓ} → Schema D T → ℕ
ndims s = length s.dims

-- `pcalloc` clears the memory; the scale is set to 1.
unfoldable pub dimension_new {ℓ} : {D : Type ℓ} → Doubles D → Dimension D
dimension_new doubles = record {
  name = none;
  description = none;
  position = 0;
  size = 0;
  byteoffset = 0;
  interpretation = 0;
  scaling = record { scale = doubles.from_nat 1; offset = doubles.from_nat 0 };
  active = 0;
}

-- All fields are copied, the strings into memory of their own.
unfoldable pub dimension_clone {ℓ} : {D : Type ℓ} → Dimension D → Dimension D
dimension_clone dim = dim

module _ {ℓ} {D : Type ℓ} where
  -- The loop of `pc_schema_calculate_byteoffsets`, from `byteoffset` on, and the final offset.
  unfoldable pub place : ℕ → List (Option (Dimension D)) → Result (List (Option (Dimension D)) × ℕ)
  place byteoffset [] = ok ([], byteoffset)
  place byteoffset (none ∷ dims) = do rest ← place byteoffset dims; ok (none ∷ rest.0, rest.1)
  place byteoffset (some d ∷ dims) = do
    size ← interpretation_size d.interpretation
    rest ← place ((byteoffset + u32 size) % 2 ^ 64) dims
    ok (some (record d { byteoffset = u32 byteoffset; size = u32 size }) ∷ rest.0, rest.1)

module _ {ℓ} {D T : Type ℓ} where
  unfoldable pub schema_calculate_byteoffsets : Schema D T → Result (Schema D T)
  unfolding place
  schema_calculate_byteoffsets pcs = do
    placed ← place 0 pcs.dims
    ok (record pcs { dims = placed.0; size = placed.1 })

  unfoldable pub schema_get_dimension : Schema D T → ℕ → Option (Dimension D)
  schema_get_dimension s dim =
      if ltb dim (ndims s) then elim (get_elem? s.dims dim) [ none ↦ none | some d ↦ d ] else none

  unfoldable pub schema_get_size : Schema D T → ℕ
  schema_get_size s = s.size

  -- A pointer to a dimension, followed.
  unfoldable pub dimension_at : Schema D T → Option ℕ → Option (Dimension D)
  unfolding schema_get_dimension
  dimension_at s pointer = elim pointer [ none ↦ none | some i ↦ schema_get_dimension s i ]

module _ {ℓ} {D T : Type ℓ} (table : Hashtable T) where
  unfoldable pub schema_new : ℕ → Schema D T
  schema_new ndims = record {
    pcid = 0;
    size = 0;
    dims = replicate ndims none;
    srid = 0;
    xdim = none;
    ydim = none;
    zdim = none;
    mdim = none;
    compression = 0;
    namehash = table.create_string_hashtable;
  }

  unfoldable pub schema_set_dimension : Schema D T → Dimension D → Result (Schema D T)
  unfolding schema_calculate_byteoffsets
  schema_set_dimension s d = do
    replaced ← access (get_elem? s.dims d.position)
    schema_calculate_byteoffsets (record s {
      dims = set s.dims d.position (some d);
      namehash = elim d.name [
        | none ↦ s.namehash
        | some name ↦ table.hashtable_insert s.namehash name d.position
      ];
    })

  unfoldable pub schema_get_dimension_by_name : Schema D T → List ℕ → Option (Dimension D)
  unfolding dimension_at
  schema_get_dimension_by_name s name = dimension_at s (table.hashtable_search s.namehash name)

  -- The loop of `pc_schema_clone` over the dimensions of the original.
  unfoldable pub clone_dimensions : List (Option (Dimension D)) → Schema D T → Result (Schema D T)
  unfolding dimension_clone schema_set_dimension
  clone_dimensions [] pcs = ok pcs
  clone_dimensions (none ∷ dims) pcs = clone_dimensions dims pcs
  clone_dimensions (some d ∷ dims) pcs = do
    pcs' ← schema_set_dimension pcs (dimension_clone d)
    clone_dimensions dims pcs'

  -- `s->xdim ? pcs->dims[s->xdim->position] : NULL`
  clone_pointer : Schema D T → Schema D T → Option ℕ → Result (Option ℕ)
  clone_pointer s pcs none = ok none
  clone_pointer s pcs (some i) = do
    slot ← access (get_elem? s.dims i)
    d ← elim slot [ none ↦ fail undefined | some d ↦ ok d ]
    copy ← access (get_elem? pcs.dims d.position)
    ok (elim copy [ none ↦ none | some c ↦ some d.position ])

  unfoldable pub schema_clone : Schema D T → Result (Schema D T)
  unfolding schema_new clone_dimensions clone_pointer schema_calculate_byteoffsets
  schema_clone s = do
    let new = schema_new (ndims s)
    pcs ←
        clone_dimensions s.dims
          (record new { pcid = s.pcid; srid = s.srid; compression = s.compression })
    xdim ← clone_pointer s pcs s.xdim
    ydim ← clone_pointer s pcs s.ydim
    zdim ← clone_pointer s pcs s.zdim
    mdim ← clone_pointer s pcs s.mdim
    schema_calculate_byteoffsets (record pcs { xdim = xdim; ydim = ydim; zdim = zdim; mdim = mdim })
