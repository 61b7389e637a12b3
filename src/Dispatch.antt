-- ===== src/Dispatch.antt =====
-- lib/pc_patch.c: the operations of a patch of any type. A null pointer that is returned is `none`.
pub mod Pointn
use pointcloud.Common.{
  ℕ, zero, suc, Bool, true, false, not, ◌+◌, ◌-◌, ◌*◌, ◌^◌, ltb, leb, ◌==◌, if◌then◌else◌, List, [],
  ◌∷◌, take, drop, length, replicate, Option, none, some,
}
use pointcloud.Common.Result.{Result, ok, fail, pcerror, assertion, undefined, ◌>>=◌}
use pointcloud.Bytes.{slice, u32}
use pointcloud.Bytes.Codec.{Zlib}
use pointcloud.Memory.{put_bytes}
use pointcloud.Value.{Doubles}
use pointcloud.Schema.{Schema}
use pointcloud.Schema.Compare.{followed}
use pointcloud.Schema.Xml.{pc_none, pc_dimensional, pc_lazperf}
use pointcloud.Point.{Point}
use pointcloud.Bounds.{Bounds, bounds_merge}
use pointcloud.Stats.{stats_clone}
use pointcloud.Patch.{
  PatchUncompressed, u64, patch_uncompressed_make, patch_uncompressed_compute_extent,
  patch_uncompressed_compute_stats, patch_uncompressed_pointn,
}
use pointcloud.Dimensional.{
  PatchDimensional, dimensional_from_uncompressed, uncompressed_from_dimensional,
  dimensional_pointn, dimensional_compute_extent, dimensional_to_wkb, dimensional_from_wkb,
}
use pointcloud.Dimensional.Dimstats.{Dimstats}
use pointcloud.Dimensional.Compress.{dimensional_compress}
use pointcloud.Lazperf.{
  PatchLazperf, Lazperf, lazperf_from_uncompressed, uncompressed_from_lazperf, lazperf_pointn,
  lazperf_compute_extent, lazperf_to_wkb, lazperf_from_wkb,
}
use pointcloud.Wkb.{wkb_get_pcid, wkb_get_compression}
use pointcloud.Patch.Wkb.{patch_uncompressed_to_wkb, patch_uncompressed_from_wkb}

-- A patch, by the type that its header names.
pub data Patch {ℓ} (D T : Type ℓ) : Type ℓ where
  uncompressed : PatchUncompressed D T → Patch D T
  dimensional : PatchDimensional D T → Patch D T
  lazperf : PatchLazperf D T → Patch D T

-- An `int`, by its value.
pub data ℤ : Type 0 where
  pos negsuc : ℕ → ℤ

module _ {ℓ} {D T : Type ℓ} where
  unfoldable pub patch_schema : Patch D T → Schema D T
  patch_schema (uncompressed pa) = pa.schema
  patch_schema (dimensional pa) = pa.schema
  patch_schema (lazperf pa) = pa.schema

  unfoldable pub patch_npoints : Patch D T → ℕ
  patch_npoints (uncompressed pa) = pa.npoints
  patch_npoints (dimensional pa) = pa.npoints
  patch_npoints (lazperf pa) = pa.npoints

  unfoldable pub patch_bounds : Patch D T → Bounds D
  patch_bounds (uncompressed pa) = pa.bounds
  patch_bounds (dimensional pa) = pa.bounds
  patch_bounds (lazperf pa) = pa.bounds

-- 32 bits as an `int`.
unfoldable pub to_int : ℕ → ℤ
to_int w = if ltb w (2 ^ 31) then pos w else negsuc (2 ^ 32 - 1 - w)

-- An `int` in 32 bits.
unfoldable pub from_int : ℤ → ℕ
from_int (pos n) = n
from_int (negsuc k) = 2 ^ 32 - suc k

-- `n - 1`, which overflows for the least `int`.
unfoldable pub before : ℤ → Result ℤ
before (pos zero) = ok (negsuc zero)
before (pos (suc n)) = ok (pos n)
before (negsuc k) = if ltb (suc k) (2 ^ 31) then ok (negsuc (suc k)) else fail undefined

unfoldable pub int_less : ℤ → ℤ → Bool
int_less (pos a) (pos b) = ltb a b
int_less (pos a) (negsuc b) = false
int_less (negsuc a) (pos b) = true
int_less (negsuc a) (negsuc b) = ltb b a

-- The index that a number of `pc_patch_pointn` means; a negative one is added to the `uint32_t`
-- number of points.
unfoldable pub point_index : ℕ → ℤ → ℤ
unfolding to_int
point_index npoints (negsuc k) = to_int (u32 (npoints + (2 ^ 32 - suc k)))
point_index npoints (pos zero) = negsuc zero
point_index npoints (pos (suc k)) = pos k

module _ {ℓ} {D T : Type ℓ} (zlib : Zlib) (laz : Lazperf D T) where
  unfoldable pub pointn : Patch D T → ℕ → Result (Point D T)
  pointn (uncompressed pa) n = patch_uncompressed_pointn pa n
  pointn (dimensional pa) n = dimensional_pointn zlib pa n
  pointn (lazperf pa) n = lazperf_pointn laz pa n

  -- An index within the patch, or no point.
  unfoldable pub pointn_within : Patch D T → ℤ → Result (Option (Point D T))
  unfolding pointn
  pointn_within patch (negsuc k) = ok none
  pointn_within patch (pos n) =
      if ltb n (patch_npoints patch) then (do pt ← pointn patch n; ok (some pt)) else ok none

  unfoldable pub patch_pointn : Patch D T → ℤ → Result (Option (Point D T))
  unfolding point_index pointn_within
  patch_pointn patch n = pointn_within patch (point_index (patch_npoints patch) n)

  unfoldable pub patch_uncompress : Patch D T → Result (PatchUncompressed D T)
  patch_uncompress (uncompressed pa) = ok pa
  patch_uncompress (dimensional pa) = uncompressed_from_dimensional zlib pa
  patch_uncompress (lazperf pa) = uncompressed_from_lazperf laz pa

module _ {ℓ} {D T : Type ℓ} (doubles : Doubles D) (zlib : Zlib) (laz : Lazperf D T) where
  unfoldable pub patch_compute_extent : Patch D T → Result (Patch D T)
  patch_compute_extent (uncompressed pa) = do
    pa' ← patch_uncompressed_compute_extent doubles pa
    ok (uncompressed pa')
  patch_compute_extent (dimensional pa) = do
    pa' ← dimensional_compute_extent doubles zlib pa
    ok (dimensional pa')
  patch_compute_extent (lazperf pa) = do
    pa' ← lazperf_compute_extent doubles laz pa
    ok (lazperf pa')

  unfoldable pub patch_compute_stats : Patch D T → Result (Patch D T)
  patch_compute_stats (uncompressed pa) = do
    pa' ← patch_uncompressed_compute_stats doubles pa
    ok (uncompressed pa')
  patch_compute_stats (dimensional pa) = do
    pu ← uncompressed_from_dimensional zlib pa
    pu' ← patch_uncompressed_compute_stats doubles pu
    ok (dimensional (record pa { stats = pu'.stats }))
  patch_compute_stats (lazperf pa) = do
    pu ← uncompressed_from_lazperf laz pa
    pu' ← patch_uncompressed_compute_stats doubles pu
    stats ← stats_clone pu'.stats
    ok (lazperf (record pa { stats = stats }))

  -- The statistics of the caller, if there are any, are updated.
  kept : Option Dimstats → Dimstats → Option Dimstats
  kept none pds = none
  kept (some given) pds = some pds

  -- The types of compression of the schema, and a patch of each type.
  unfoldable pub compress_dimensional :
      Patch D T → Option Dimstats → Result (Patch D T × Option Dimstats)
  unfolding kept
  compress_dimensional (uncompressed pa) userdata = do
    made ← dimensional_from_uncompressed pa
    pcdu ← elim made [ none ↦ fail pcerror | some pdl ↦ ok pdl ]
    (packed, pds) ← dimensional_compress doubles zlib pcdu userdata
    ok (dimensional packed, kept userdata pds)
  compress_dimensional (dimensional pa) userdata = do
    (packed, pds) ← dimensional_compress doubles zlib pa userdata
    ok (dimensional packed, kept userdata pds)
  compress_dimensional (lazperf pa) userdata = do
    pcu ← uncompressed_from_lazperf laz pa
    made ← dimensional_from_uncompressed pcu
    pal ← elim made [ none ↦ fail assertion | some pdl ↦ ok pdl ]
    (packed, pds) ← dimensional_compress doubles zlib pal none
    ok (dimensional packed, userdata)

  unfoldable pub compress_lazperf : Patch D T → Result (Patch D T)
  compress_lazperf (uncompressed pa) = do pgc ← lazperf_from_uncompressed laz pa; ok (lazperf pgc)
  compress_lazperf (dimensional pa) = do
    pad ← uncompressed_from_dimensional zlib pa
    pal ← lazperf_from_uncompressed laz pad
    ok (lazperf pal)
  compress_lazperf (lazperf pa) = ok (lazperf pa)

  -- The compressed patch, and the statistics as the caller has them afterwards.
  unfoldable pub patch_compress : Patch D T → Option Dimstats → Result (Patch D T × Option Dimstats)
  unfolding compress_dimensional compress_lazperf
  patch_compress patch userdata =
      if (patch_schema patch).compression == pc_dimensional
      then compress_dimensional patch userdata
      else if (patch_schema patch).compression == pc_none
      then (do pa ← patch_uncompress zlib laz patch; ok (uncompressed pa, userdata))
      else if (patch_schema patch).compression == pc_lazperf
      then (do pal ← compress_lazperf patch; ok (pal, userdata))
      else fail pcerror

  read_patch : ℕ → Schema D T → List ℕ → ℕ → Result (Patch D T)
  read_patch compression s wkb wkbsize =
      if compression == pc_none
      then (do pa ← patch_uncompressed_from_wkb doubles s wkb wkbsize; ok (uncompressed pa))
      else if compression == pc_dimensional
      then (do pa ← dimensional_from_wkb doubles s wkb; ok (dimensional pa))
      else if compression == pc_lazperf
      then (do pa ← lazperf_from_wkb doubles s wkb; ok (lazperf pa))
      else fail pcerror

  unfoldable pub patch_from_wkb : Schema D T → List ℕ → ℕ → Result (Patch D T)
  unfolding read_patch
  patch_from_wkb s wkb wkbsize = if wkbsize == 0 then fail pcerror else do
    pcid ← wkb_get_pcid wkb
    compression ← wkb_get_compression wkb
    if not (pcid == s.pcid) then fail pcerror else (do
      patch ← read_patch compression s wkb wkbsize
      bounded ← patch_compute_extent patch
      patch_compute_stats bounded)

  -- The points of a patch, copied into a new one.
  unfoldable pub copy_range : Patch D T → ℕ → ℕ → Result (PatchUncompressed D T)
  copy_range pa first count = do
    made ← patch_uncompressed_make doubles (some (patch_schema pa)) count
    pu ← patch_uncompress zlib laz pa
    let size = (patch_schema pa).size
    points ← slice pu.data_bytes (u64 (size * first)) (u64 (size * count))
    bytes ← put_bytes made.data_bytes 0 points
    bounded ←
        patch_uncompressed_compute_extent doubles
          (record made { npoints = count; data_bytes = bytes })
    patch_uncompressed_compute_stats doubles bounded

  -- With `first` counted from 0 and `count` cut to the points behind it.
  unfoldable pub range_within : Patch D T → ℤ → ℤ → Result (Option (Patch D T))
  unfolding copy_range
  range_within pa (negsuc first) count = ok none
  range_within pa (pos first) (negsuc count) = ok none
  range_within pa (pos first) (pos zero) = ok none
  range_within pa (pos first) (pos (suc count)) =
      if suc count == patch_npoints pa
      then ok (some pa)
      else do paout ← copy_range pa first (suc count); ok (some (uncompressed paout))

  unfoldable pub patch_range : Patch D T → ℤ → ℤ → Result (Option (Patch D T))
  unfolding range_within
  patch_range pa first count = do
    from ← before first
    let countmax = to_int (u32 (patch_npoints pa + (2 ^ 32 - from_int from)))
    range_within pa from (if int_less countmax count then countmax else count)

module _ {ℓ} {D T : Type ℓ} where
  unfoldable pub patch_to_wkb : Patch D T → Result (List ℕ × ℕ)
  patch_to_wkb (uncompressed pa) = patch_uncompressed_to_wkb pa
  patch_to_wkb (dimensional pa) = dimensional_to_wkb pa
  patch_to_wkb (lazperf pa) = lazperf_to_wkb pa
