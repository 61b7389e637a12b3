-- ===== src/Point.antt =====
-- lib/pc_point.c: points, which are values of the dimensions of a schema in a row of bytes. `data`
-- is the memory from the pointer on. A call that returns `PC_FAILURE` gives `none`.
pub mod Access
pub mod Flip
pub mod Wkb
use pointcloud.Common.{
  ℕ, zero, suc, ◌+◌, ◌^◌, ◌≡◌, Bool, true, false, ◌==◌, if◌then◌else◌, List, [], ◌∷◌, drop, length,
  replicate, get_elem?, Option, none, some,
}
use pointcloud.Common.Result.{Result, ok, fail, access, pcerror, ◌>>=◌}
use pointcloud.Value.{Doubles, value_from_ptr, value_unscale_unoffset}
use pointcloud.Value.Write.{double_to_ptr}
use pointcloud.Schema.{
  Dimension, Hashtable, Schema, ndims, schema_get_dimension, schema_get_dimension_by_name,
  dimension_at,
}

pub record Point {ℓ} (D T : Type ℓ) : Type ℓ where
  pub readonly : Bool
  pub schema : Schema D T
  pub data_bytes : List ℕ

module _ {ℓ} {D T : Type ℓ} where
  unfoldable pub point_make : Option (Schema D T) → Result (Point D T)
  point_make none = fail pcerror
  point_make (some s) =
      if s.size == 0
      then fail pcerror
      else ok (record { readonly = false; schema = s; data_bytes = replicate s.size 0 })

  unfoldable pub point_from_data : Option (Schema D T) → List ℕ → Result (Point D T)
  point_from_data none bytes = fail pcerror
  point_from_data (some s) bytes = ok (record { readonly = true; schema = s; data_bytes = bytes })

module _ {ℓ} {D T : Type ℓ} (doubles : Doubles D) where
  unfoldable pub point_get_double : Point D T → Option (Dimension D) → Result (Option D)
  point_get_double pt none = ok none
  point_get_double pt (some dim) = do
    d ← value_from_ptr doubles (drop dim.byteoffset pt.data_bytes) dim.interpretation dim.scaling
    ok (some d)

  unfoldable pub point_get_double_by_index : Point D T → ℕ → Result (Option D)
  unfolding point_get_double
  point_get_double_by_index pt idx = point_get_double pt (schema_get_dimension pt.schema idx)

  unfoldable pub point_set_double :
      Point D T → Option (Dimension D) → D → Result (Option (Point D T))
  point_set_double pt none val = ok none
  point_set_double pt (some dim) val = do
    bytes ←
        double_to_ptr doubles pt.data_bytes dim.byteoffset dim.interpretation
          (value_unscale_unoffset doubles val dim.scaling)
    ok (some (record pt { data_bytes = bytes }))

  unfoldable pub point_set_double_by_index : Point D T → ℕ → D → Result (Option (Point D T))
  unfolding point_set_double
  point_set_double_by_index pt idx val =
      point_set_double pt (schema_get_dimension pt.schema idx) val

  -- The dimension of a pointer of the schema.
  unfoldable pub point_get_at : Point D T → Option ℕ → Result (Option D)
  unfolding point_get_double
  point_get_at pt pointer = point_get_double pt (dimension_at pt.schema pointer)

  unfoldable pub point_set_at : Point D T → Option ℕ → D → Result (Option (Point D T))
  unfolding point_set_double
  point_set_at pt pointer val = point_set_double pt (dimension_at pt.schema pointer) val

  unfoldable pub point_get_x : Point D T → Result (Option D)
  unfolding point_get_at
  point_get_x pt = point_get_at pt pt.schema.xdim

  unfoldable pub point_get_y : Point D T → Result (Option D)
  unfolding point_get_at
  point_get_y pt = point_get_at pt pt.schema.ydim

  unfoldable pub point_get_z : Point D T → Result (Option D)
  unfolding point_get_at
  point_get_z pt = point_get_at pt pt.schema.zdim

  unfoldable pub point_get_m : Point D T → Result (Option D)
  unfolding point_get_at
  point_get_m pt = point_get_at pt pt.schema.mdim

  unfoldable pub point_set_x : Point D T → D → Result (Option (Point D T))
  unfolding point_set_at
  point_set_x pt val = point_set_at pt pt.schema.xdim val

  unfoldable pub point_set_y : Point D T → D → Result (Option (Point D T))
  unfolding point_set_at
  point_set_y pt val = point_set_at pt pt.schema.ydim val

  unfoldable pub point_set_z : Point D T → D → Result (Option (Point D T))
  unfolding point_set_at
  point_set_z pt val = point_set_at pt pt.schema.zdim val

  unfoldable pub point_set_m : Point D T → D → Result (Option (Point D T))
  unfolding point_set_at
  point_set_m pt val = point_set_at pt pt.schema.mdim val

  -- The values of an array from `offset` on, written from dimension `i` on.
  unfoldable pub set_values : List D → ℕ → ℕ → ℕ → Point D T → Result (Point D T)
  unfolding point_set_double_by_index
  set_values values offset zero i pt = ok pt
  set_values values offset (suc rounds) i pt = do
    val ← access (get_elem? values (offset + i))
    set ← point_set_double_by_index pt i val
    elim set [ none ↦ fail pcerror | some pt' ↦ set_values values offset rounds (i + 1) pt' ]

  unfoldable pub point_from_double_array : Option (Schema D T) → List D → ℕ → ℕ → Result (Point D T)
  unfolding set_values
  point_from_double_array none values offset stride = fail pcerror
  point_from_double_array (some s) values offset stride =
      if stride == ndims s
      then set_values values offset stride 0
          (record { readonly = false; schema = s; data_bytes = replicate s.size 0 })
      else fail pcerror

  -- The array as far as it is written. An element that is not written stays 0.
  unfoldable pub get_values : ℕ → ℕ → Point D T → Result (List D)
  unfolding point_get_double_by_index
  get_values zero i pt = ok []
  get_values (suc rounds) i pt = do
    value ← point_get_double_by_index pt i
    rest ← get_values rounds (i + 1) pt
    ok (elim value [ none ↦ doubles.from_nat 0 | some v ↦ v ] ∷ rest)

  unfoldable pub point_to_double_array : Point D T → Result (List D)
  unfolding get_values
  point_to_double_array p = get_values (ndims p.schema) 0 p

module _ {ℓ} {D T : Type ℓ} (doubles : Doubles D) (table : Hashtable T) where
  unfoldable pub point_get_double_by_name : Point D T → List ℕ → Result (Option D)
  unfolding point_get_double
  point_get_double_by_name pt name =
      point_get_double doubles pt (schema_get_dimension_by_name table pt.schema name)

  unfoldable pub point_set_double_by_name : Point D T → List ℕ → D → Result (Option (Point D T))
  unfolding point_set_double
  point_set_double_by_name pt name val =
      point_set_double doubles pt (schema_get_dimension_by_name table pt.schema name) val
