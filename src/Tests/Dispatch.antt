-- ===== src/Tests/Dispatch.antt =====
-- The theorem about the points of a patch at the last of one point.
use pointcloud.Common.{◌≡◌, arith}
use pointcloud.Common.Result.{ok, ◌>>=◌}
use pointcloud.Samples.{single, stored, no_laz}
use pointcloud.Patch.Grow.{patch_points}
use pointcloud.Patch.Listed.{bytes_of_point}
use pointcloud.Dispatch.{uncompressed, negsuc, patch_pointn}
use pointcloud.Dispatch.Pointn.{counted, patch_pointn-counted}

patch_pointn-counted_example :
    (patch_pointn stored no_laz (uncompressed single) (negsuc 0) >>= λ pt.
    ok (bytes_of_point single pt))
    ≡ ok (counted (patch_points single) (negsuc 0))
patch_pointn-counted_example =
    patch_pointn-counted stored no_laz single (negsuc 0) (omega arith) (omega arith)
