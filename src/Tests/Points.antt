-- ===== src/Tests/Points.antt =====
-- The theorems about points at a point of two dimensions.
use pointcloud.Common.{ℕ, ◌+◌, ◌≡◌, refl, List, [], ◌∷◌, ◌++◌, length, map, some, arith}
use pointcloud.Common.Result.{ok, ◌>>=◌}
use pointcloud.Samples.{naturals, Names, y_dim, plane, plane-IsLaid, corner, corner-IsPoint}
use pointcloud.Value.{value_from_ptr, value_unscale_unoffset, double_from_ptr, value_scale_offset}
use pointcloud.Value.Write.{value_bytes, double_to_ptr}
use pointcloud.Bytes.{slice}
use pointcloud.Bytes.Words.{bytes_of, word_of}
use pointcloud.Memory.{put_bytes}
use pointcloud.Schema.{schema_get_dimension, dimension_at}
use pointcloud.Schema.Xyzm.{all_dimensions}
use pointcloud.Point.{
  Point, point_get_double, point_set_double, point_get_double_by_index, point_set_double_by_index,
  point_get_x, point_get_y, point_get_z, point_get_m, point_get_at,
}
use pointcloud.Point.Access.{
  IsPoint, point_get_double_by_index-set, point_get_double_by_index-set_other,
}
use pointcloud.Point.Flip.{
  uncompressed_bytes_flip_endian, flipped, all_flipped, uncompressed_bytes_flip_endian-all_flipped,
}
use pointcloud.Schema.Offsets.{width}
use pointcloud.Wkb.Swap.{reversed}
use pointcloud.Point.Wkb.{
  point_to_wkb, point_from_wkb, point_to_geometry_wkb, geometry_wkb, length-point_to_geometry_wkb,
  point_from_wkb-to_wkb, point_from_wkb_foreign,
}
use pointcloud.Pointlist.{
  pointlist_make-IsList, Pointlist, IsList, pointlist_make, add_points, listed, add_points-listed,
}

point_get_double_by_index-set_example :
    (bytes : List ℕ) × (value_bytes naturals y_dim.interpretation
        (value_unscale_unoffset naturals 12 y_dim.scaling)
      ≡ some bytes)
    × (pt' : Point ℕ Names) × (point_set_double_by_index naturals corner 1 12 ≡ ok (some pt'))
    × (point_get_double_by_index naturals pt' 1
        ≡ (value_from_ptr naturals bytes y_dim.interpretation y_dim.scaling >>= λ d. ok (some d)))
    × (pt'.schema ≡ corner.schema)
    × IsPoint pt'
unfolding schema_get_dimension
point_get_double_by_index-set_example =
    point_get_double_by_index-set naturals corner corner-IsPoint 1 y_dim 12 refl

abbrev moved : Point ℕ Names
moved = record corner { data_bytes = 7 ∷ 0 ∷ 12 ∷ 0 ∷ 0 ∷ 0 ∷ [] }

corner_is_moved : point_set_double_by_index naturals corner 1 12 ≡ ok (some moved)
unfolding point_set_double_by_index point_set_double schema_get_dimension double_to_ptr value_bytes
    value_unscale_unoffset put_bytes bytes_of
corner_is_moved = refl

point_get_double_by_index-set_other_example :
    point_get_double_by_index naturals moved 0 ≡ point_get_double_by_index naturals corner 0
unfolding schema_get_dimension
point_get_double_by_index-set_other_example =
    point_get_double_by_index-set_other naturals corner corner-IsPoint 1 0 y_dim 12 moved refl
      corner_is_moved (λ e. omega arith)

-- X is 7 and Y is 9: the first byte of each is its last one then.
uncompressed_bytes_flip_endian-all_flipped_example :
    uncompressed_bytes_flip_endian corner.data_bytes plane 1 ≡ ok (0 ∷ 7 ∷ 0 ∷ 0 ∷ 0 ∷ 9 ∷ [])
unfolding all_dimensions all_flipped flipped reversed width
uncompressed_bytes_flip_endian-all_flipped_example =
    uncompressed_bytes_flip_endian-all_flipped plane plane-IsLaid refl 1 corner.data_bytes
      (omega arith) (omega arith) (omega arith)

point_from_wkb-to_wkb_example :
    (wkb : List ℕ) × (n : ℕ) × (point_to_wkb corner ≡ ok (wkb, n))
    × (length wkb ≡ n)
    × (point_from_wkb plane wkb n ≡ ok corner)
point_from_wkb-to_wkb_example = point_from_wkb-to_wkb corner refl (omega arith)

point_from_wkb_foreign_example :
    point_from_wkb plane (0 ∷ ((0 ∷ 0 ∷ 0 ∷ 1 ∷ []) ++ (0 ∷ 7 ∷ 0 ∷ 0 ∷ 0 ∷ 9 ∷ []))) 11 ≡ ok corner
unfolding all_dimensions flipped reversed width
point_from_wkb_foreign_example =
    point_from_wkb_foreign corner (0 ∷ 0 ∷ 0 ∷ 1 ∷ []) plane-IsLaid refl refl refl

-- The endianness, the type and two doubles.
abbrev corner_geometry : List ℕ
corner_geometry =
    1 ∷ 1 ∷ 0 ∷ 0 ∷ 0 ∷ 7 ∷ 0 ∷ 0 ∷ 0 ∷ 0 ∷ 0 ∷ 0 ∷ 0 ∷ 9 ∷ 0 ∷ 0 ∷ 0 ∷ 0 ∷ 0 ∷ 0 ∷ 0 ∷ []

corner_is_geometry : point_to_geometry_wkb naturals corner ≡ ok (some (corner_geometry, 21))
unfolding point_to_geometry_wkb geometry_wkb point_get_x point_get_y point_get_z point_get_m
    point_get_at point_get_double dimension_at value_from_ptr double_from_ptr value_scale_offset
    slice word_of bytes_of
corner_is_geometry = refl

length-point_to_geometry_wkb_example : length corner_geometry ≡ 21
length-point_to_geometry_wkb_example =
    length-point_to_geometry_wkb naturals corner corner_geometry 21 corner_is_geometry

add_points-listed_example :
    (pl : Pointlist ℕ) × (add_points (5 ∷ 6 ∷ 7 ∷ []) (pointlist_make 0) ≡ ok pl)
    × IsList pl
    × (pl.npoints ≡ (pointlist_make {P = ℕ} 0).npoints + 3)
    × (listed pl ≡ listed (pointlist_make {P = ℕ} 0) ++ map some (5 ∷ 6 ∷ 7 ∷ []))
unfolding pointlist_make
add_points-listed_example =
    add_points-listed (5 ∷ 6 ∷ 7 ∷ []) (pointlist_make 0) (pointlist_make-IsList 0 (omega arith))
      (omega arith)
