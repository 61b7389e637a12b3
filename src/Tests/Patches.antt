-- ===== src/Tests/Patches.antt =====
-- The theorems about patches at a patch of one point.
use pointcloud.Common.{
  map, ℕ, ◌+◌, ◌*◌, ◌≡◌, refl, ◌==◌, if◌then◌else◌, List, [], ◌∷◌, ◌++◌, length, take, some, arith,
}
use pointcloud.Common.Result.{ok, fail, pcerror, out_of_bounds}
use pointcloud.Samples.{naturals, Names, plane, corner, unit_square, single}
use pointcloud.Value.{value_from_ptr, double_from_ptr, value_scale_offset}
use pointcloud.Bytes.{slice}
use pointcloud.Bytes.Words.{word_of}
use pointcloud.Schema.{schema_get_dimension, dimension_at}
use pointcloud.Point.{Point, point_get_x, point_get_y, point_get_at, point_get_double}
use pointcloud.Bounds.{bounds_add}
use pointcloud.Patch.{PatchUncompressed, patch_uncompressed_add_point}
use pointcloud.Patch.Grow.{
  IsOpen, patch_points, patch_uncompressed_add_point-patch_points,
  patch_uncompressed_add_point-overflows,
}
use pointcloud.Pointlist.{Pointlist, IsList, listed}
use pointcloud.Patch.Listed.{
  pointlist_from_uncompressed, bytes_of_point, pointlist_from_uncompressed-patch_points,
}
use pointcloud.Patch.Wkb.{
  patch_uncompressed_to_wkb, patch_uncompressed_from_wkb, read_back,
  patch_uncompressed_from_wkb-to_wkb,
}

single-IsOpen : IsOpen single
single-IsOpen = record {
  plain = refl;
  writable = refl;
  room = omega arith;
  used = omega arith;
  narrow = omega arith;
  thin = omega arith;
  sized = refl;
  allocated = refl;
}

corner_x : point_get_x naturals corner ≡ ok (some 7)
unfolding point_get_x point_get_at point_get_double dimension_at schema_get_dimension value_from_ptr
    double_from_ptr value_scale_offset slice word_of
corner_x = refl

corner_y : point_get_y naturals corner ≡ ok (some 9)
unfolding point_get_y point_get_at point_get_double dimension_at schema_get_dimension value_from_ptr
    double_from_ptr value_scale_offset slice word_of
corner_y = refl

patch_uncompressed_add_point-patch_points_example :
    (c' : PatchUncompressed ℕ Names) × (patch_uncompressed_add_point naturals single corner ≡ ok c')
    × IsOpen c'
    × (c'.npoints ≡ single.npoints + 1)
    × (c'.bounds ≡ bounds_add naturals unit_square 7 9)
    × (patch_points c' ≡ patch_points single ++ (take 6 corner.data_bytes ∷ []))
patch_uncompressed_add_point-patch_points_example =
    patch_uncompressed_add_point-patch_points naturals single corner 7 9 single-IsOpen (omega arith)
      refl (omega arith) corner_x corner_y

-- A patch made for no points.
abbrev roomless : PatchUncompressed ℕ Names
roomless = record single { npoints = 0; maxpoints = 0; datasize = 0; data_bytes = [] }

patch_uncompressed_add_point-overflows_example :
    patch_uncompressed_add_point naturals roomless corner ≡ fail out_of_bounds
patch_uncompressed_add_point-overflows_example =
    patch_uncompressed_add_point-overflows naturals roomless corner refl refl refl refl refl
      (omega arith) (omega arith)

patch_uncompressed_from_wkb-to_wkb_example :
    (wkb : List ℕ) × (n : ℕ) × (patch_uncompressed_to_wkb single ≡ ok (wkb, n))
    × (length wkb ≡ n)
    × (patch_uncompressed_from_wkb naturals plane wkb n ≡ (
        if single.datasize == single.npoints * plane.size
        then ok (read_back naturals single)
        else fail pcerror))
patch_uncompressed_from_wkb-to_wkb_example =
    patch_uncompressed_from_wkb-to_wkb naturals single refl (omega arith) (omega arith)
      (omega arith) refl

pointlist_from_uncompressed-patch_points_example :
    (pl : Pointlist (Point ℕ Names)) × (pointlist_from_uncompressed single ≡ ok pl)
    × IsList pl
    × (pl.npoints ≡ single.npoints)
    × (map (bytes_of_point single) (listed pl) ≡ map some (patch_points single))
pointlist_from_uncompressed-patch_points_example =
    pointlist_from_uncompressed-patch_points single (omega arith)
