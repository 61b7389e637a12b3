-- ===== src/Lazperf.antt =====
-- lib/pc_patch_lazperf.c, with HAVE_LAZPERF: patches whose points laz-perf compresses. The two calls
-- of laz-perf, by lib/lazperf_adapter.cpp, are a parameter.
use pointcloud.Common.{
  ℕ, ◌+◌, ◌*◌, Bool, false, not, ◌==◌, if◌then◌else◌, List, ◌++◌, length, get_elem?, drop, Option,
  none, some,
}
use pointcloud.Common.Result.{Result, ok, fail, access, pcerror, ◌>>=◌}
use pointcloud.Bytes.{slice, u32}
use pointcloud.Bytes.Words.{bytes_of}
use pointcloud.Value.{Doubles}
use pointcloud.Wkb.{
  machine_endian, wkb_get_int32, wkb_get_compression, wkb_get_npoints, size_of_int32,
}
use pointcloud.Schema.{Schema}
use pointcloud.Schema.Xml.{pc_none, pc_lazperf}
use pointcloud.Point.{Point, point_make}
use pointcloud.Bounds.{Bounds}
use pointcloud.Stats.{Stats, stats_clone}
use pointcloud.Patch.{PatchUncompressed, u64, patch_uncompressed_compute_extent}
use pointcloud.Patch.Wkb.{patch_header, patch_header_size, bounds_zero}

pub record PatchLazperf {ℓ} (D T : Type ℓ) : Type ℓ where
  pub type : ℕ
  pub readonly : Bool
  pub schema : Schema D T
  pub npoints : ℕ
  pub bounds : Bounds D
  pub stats : Option (Stats D T)
  pub lazperfsize : ℕ
  pub lazperf : List ℕ

-- `lazperf_compress_from_uncompressed` and `lazperf_uncompress_from_compressed`, and the bytes that
-- they give; `none` is the size -1.
pub record Lazperf {ℓ} (D T : Type ℓ) : Type ℓ where
  pub compress_from_uncompressed : PatchUncompressed D T → Option (List ℕ)
  pub uncompress_from_compressed : PatchLazperf D T → Option (List ℕ)

-- What the call returned; the error does not return.
laz_output : Option (List ℕ) → Result (List ℕ)
laz_output none = fail pcerror
laz_output (some bytes) = ok bytes

module _ {ℓ} {D T : Type ℓ} (laz : Lazperf D T) where
  unfoldable pub lazperf_from_uncompressed : PatchUncompressed D T → Result (PatchLazperf D T)
  unfolding laz_output
  lazperf_from_uncompressed pa = do
    compressed ← laz_output (laz.compress_from_uncompressed pa)
    stats ← stats_clone pa.stats
    ok (record {
      type = pc_lazperf;
      readonly = false;
      schema = pa.schema;
      npoints = pa.npoints;
      bounds = pa.bounds;
      stats = stats;
      lazperfsize = length compressed;
      lazperf = compressed;
    })

  unfoldable pub uncompressed_from_lazperf : PatchLazperf D T → Result (PatchUncompressed D T)
  unfolding laz_output
  uncompressed_from_lazperf palaz = do
    decompressed ← laz_output (laz.uncompress_from_compressed palaz)
    stats ← stats_clone palaz.stats
    let datasize = u64 (palaz.schema.size * palaz.npoints)
    bytes ← slice decompressed 0 datasize
    ok (record {
      type = pc_none;
      readonly = false;
      schema = palaz.schema;
      npoints = palaz.npoints;
      bounds = palaz.bounds;
      stats = stats;
      maxpoints = palaz.npoints;
      datasize = datasize;
      data_bytes = bytes;
    })

  unfoldable pub lazperf_pointn : PatchLazperf D T → ℕ → Result (Point D T)
  lazperf_pointn patch n = do
    pt ← point_make (some patch.schema)
    pau ← uncompressed_from_lazperf patch
    bytes ← slice pau.data_bytes (u64 (n * patch.schema.size)) patch.schema.size
    ok (record pt { data_bytes = bytes })

module _ {ℓ} {D T : Type ℓ} where
  -- The bytes and their number.
  unfoldable pub lazperf_to_wkb : PatchLazperf D T → Result (List ℕ × ℕ)
  lazperf_to_wkb patch = do
    bytes ← slice patch.lazperf 0 patch.lazperfsize
    ok (
      patch_header patch.schema.pcid patch.type patch.npoints
          ++ (bytes_of 4 (u32 patch.lazperfsize) ++ bytes),
      u64 (patch_header_size + 4 + patch.lazperfsize),
    )

module _ {ℓ} {D T : Type ℓ} (doubles : Doubles D) where
  unfoldable pub lazperf_from_wkb : Schema D T → List ℕ → Result (PatchLazperf D T)
  lazperf_from_wkb schema wkb = do
    endian ← access (get_elem? wkb 0)
    compression ← wkb_get_compression wkb
    if not (compression == pc_lazperf) then fail pcerror else (do
      npoints ← wkb_get_npoints wkb
      let buf = drop patch_header_size wkb
      int_size ← wkb_get_int32 buf (not (endian == machine_endian))
      let lazperfsize = size_of_int32 int_size
      bytes ← slice buf 4 lazperfsize
      ok (record {
        type = pc_lazperf;
        readonly = false;
        schema = schema;
        npoints = npoints;
        bounds = bounds_zero doubles;
        stats = none;
        lazperfsize = lazperfsize;
        lazperf = bytes;
      }))

module _ {ℓ} {D T : Type ℓ} (doubles : Doubles D) (laz : Lazperf D T) where
  -- The bounds are computed of the uncompressed copy, and the patch stays as it is.
  unfoldable pub lazperf_compute_extent : PatchLazperf D T → Result (PatchLazperf D T)
  lazperf_compute_extent patch = do
    pau ← uncompressed_from_lazperf laz patch
    computed ← patch_uncompressed_compute_extent doubles pau
    ok patch
