-- ===== src/Dimensional.antt =====
-- lib/pc_patch_dimensional.c, lib/pc_dimstats.c: patches with a byte buffer for each dimension, and
-- the statistics that choose the compression of the buffers.
pub mod Dimstats
pub mod Counted
pub mod Compress
pub mod Transpose
pub mod Gather
pub mod Scatter
pub mod Lossless
use pointcloud.Common.{
  ℕ, zero, suc, ◌+◌, ◌*◌, Bool, false, not, ◌==◌, ltb, if◌then◌else◌, List, [], ◌∷◌, map, length,
  replicate, get_elem?, drop, Option, none, some,
}
use pointcloud.Common.Result.{Result, ok, fail, access, pcerror, out_of_bounds, assertion, ◌>>=◌}
use pointcloud.Bytes.{Pcbytes, slice, bytes_make, u32}
use pointcloud.Bytes.Codec.{Zlib, bytes_decode, bytes_to_ptr}
use pointcloud.Bytes.Serial.{serialized_size, bytes_serialize, bytes_deserialize}
use pointcloud.Memory.{put_bytes}
use pointcloud.Value.{Doubles, value_scale_offset}
use pointcloud.Minmax.{bytes_minmax}
use pointcloud.Wkb.{machine_endian, wkb_get_compression, wkb_get_npoints}
use pointcloud.Schema.{Dimension, Schema, dimension_at}
use pointcloud.Schema.Compare.{followed}
use pointcloud.Schema.Xml.{pc_none, pc_dimensional}
use pointcloud.Point.{Point, point_make}
use pointcloud.Bounds.{Bounds}
use pointcloud.Stats.{Stats, stats_clone}
use pointcloud.Patch.{PatchUncompressed, u64}
use pointcloud.Patch.Wkb.{patch_header, patch_header_size, bounds_zero}

pub record PatchDimensional {ℓ} (D T : Type ℓ) : Type ℓ where
  pub type : ℕ
  pub readonly : Bool
  pub schema : Schema D T
  pub npoints : ℕ
  pub bounds : Bounds D
  pub stats : Option (Stats D T)
  pub buffers : List Pcbytes

-- A `PCBYTES` that `pcalloc` has cleared.
abbrev pub cleared : Pcbytes
cleared = record {
  size = 0;
  npoints = 0;
  interpretation = 0;
  compression = 0;
  readonly = false;
  bytes = [];
}

module _ {ℓ} {D : Type ℓ} where
  sum_sizes : List (Option (Dimension D)) → List Pcbytes → ℕ → Result ℕ
  sum_sizes [] buffers size = ok size
  sum_sizes (dim ∷ dims) [] size = fail out_of_bounds
  sum_sizes (dim ∷ dims) (pcb ∷ buffers) size =
      sum_sizes dims buffers (u64 (size + serialized_size pcb))

  -- The loop over the dimensions writes at `offset`.
  unfoldable pub write_buffers :
      List (Option (Dimension D)) → List Pcbytes → ℕ → List ℕ → Result (List ℕ)
  write_buffers [] buffers offset wkb = ok wkb
  write_buffers (dim ∷ dims) [] offset wkb = fail out_of_bounds
  write_buffers (dim ∷ dims) (pcb ∷ buffers) offset wkb = do
    (bytes, bsz) ← bytes_serialize pcb
    wkb' ← put_bytes wkb offset bytes
    write_buffers dims buffers (offset + bsz) wkb'

  -- The loop over the dimensions reads at `buf`. The number of points is set after the buffer is
  -- read.
  unfoldable pub read_buffers :
      List (Option (Dimension D)) → List ℕ → ℕ → Bool → Result (List Pcbytes)
  read_buffers [] buf npoints swap_endian = ok []
  read_buffers (slot ∷ dims) buf npoints swap_endian = do
    dim ← followed slot
    read ← bytes_deserialize buf dim.interpretation cleared false swap_endian
    let pcb : Pcbytes = record read { npoints = npoints }
    buffers ← read_buffers dims (drop (serialized_size pcb) buf) npoints swap_endian
    ok (pcb ∷ buffers)

module _ {ℓ} {D : Type ℓ} (zlib : Zlib) where
  unfoldable pub decode_buffers : List (Option (Dimension D)) → List Pcbytes → Result (List Pcbytes)
  decode_buffers [] buffers = ok []
  decode_buffers (dim ∷ dims) [] = fail out_of_bounds
  decode_buffers (dim ∷ dims) (pcb ∷ buffers) = do
    plain ← bytes_decode zlib pcb
    rest ← decode_buffers dims buffers
    ok (plain ∷ rest)

  -- The loop over the dimensions of one point.
  unfoldable pub point_values :
      List (Option (Dimension D)) → List Pcbytes → ℕ → List ℕ → Result (List ℕ)
  point_values [] buffers n buf = ok buf
  point_values (slot ∷ dims) [] n buf = fail out_of_bounds
  point_values (slot ∷ dims) (pcb ∷ buffers) n buf = do
    dim ← followed slot
    value ← bytes_to_ptr zlib pcb n
    buf' ← put_bytes buf dim.byteoffset value
    point_values dims buffers n buf'

module _ {ℓ} {D : Type ℓ} where
  -- The values of point `i` go into the point at `buf`.
  unfoldable pub scatter :
      List (Option (Dimension D)) → List Pcbytes → ℕ → ℕ → List ℕ → Result (List ℕ)
  scatter [] buffers i buf points = ok points
  scatter (slot ∷ dims) [] i buf points = fail out_of_bounds
  scatter (slot ∷ dims) (pcb ∷ buffers) i buf points = do
    dim ← followed slot
    value ← slice pcb.bytes (u32 (dim.size * i)) dim.size
    points' ← put_bytes points (buf + dim.byteoffset) value
    scatter dims buffers i buf points'

module _ {ℓ} {D T : Type ℓ} where
  -- The loop over the points.
  unfoldable pub scatter_points : Schema D T → List Pcbytes → ℕ → ℕ → ℕ → List ℕ → Result (List ℕ)
  unfolding scatter
  scatter_points schema buffers zero i buf points = ok points
  scatter_points schema buffers (suc rounds) i buf points = do
    points' ← scatter schema.dims buffers i buf points
    scatter_points schema buffers rounds (i + 1) (buf + schema.size) points'

  unfoldable pub dimensional_clone : PatchDimensional D T → PatchDimensional D T
  dimensional_clone patch = record patch {
    npoints = 0;
    stats = none;
    buffers = replicate (length patch.schema.dims) cleared;
  }

  unfoldable pub dimensional_serialized_size : PatchDimensional D T → Result ℕ
  unfolding sum_sizes
  dimensional_serialized_size p = sum_sizes p.schema.dims p.buffers 0

  -- The inner loop: the values of a dimension, of `rounds` points from `j` on, are copied out of the
  -- points.
  unfoldable pub gather : Schema D T → Dimension D → List ℕ → ℕ → ℕ → List ℕ → Result (List ℕ)
  gather schema dim points zero j to = ok to
  gather schema dim points (suc rounds) j to = do
    from ← slice points (u64 (u64 (schema.size * j) + dim.byteoffset)) dim.size
    to' ← put_bytes to (u32 (dim.size * j)) from
    gather schema dim points rounds (j + 1) to'

  -- The outer loop.
  unfoldable pub gather_dimensions :
      Schema D T → List ℕ → ℕ → List (Option (Dimension D)) → Result (List Pcbytes)
  unfolding gather
  gather_dimensions schema points npoints [] = ok []
  gather_dimensions schema points npoints (slot ∷ dims) = do
    dim ← followed slot
    let made = bytes_make dim.size dim.interpretation npoints
    bytes ← gather schema dim points npoints 0 made.bytes
    buffers ← gather_dimensions schema points npoints dims
    ok (record made { bytes = bytes } ∷ buffers)

  -- There is no dimensional patch of no points.
  unfoldable pub dimensional_from_uncompressed :
      PatchUncompressed D T → Result (Option (PatchDimensional D T))
  unfolding gather_dimensions stats_clone
  dimensional_from_uncompressed pa = if pa.npoints == 0 then ok none else do
    stats ← stats_clone pa.stats
    buffers ← gather_dimensions pa.schema pa.data_bytes pa.npoints pa.schema.dims
    ok (
        some (record {
          type = pc_dimensional;
          readonly = false;
          schema = pa.schema;
          npoints = pa.npoints;
          bounds = pa.bounds;
          stats = stats;
          buffers = buffers;
        }))

  -- The bytes and their number.
  unfoldable pub dimensional_to_wkb : PatchDimensional D T → Result (List ℕ × ℕ)
  unfolding dimensional_serialized_size write_buffers
  dimensional_to_wkb patch = do
    data_size ← dimensional_serialized_size patch
    let size = u64 (patch_header_size + data_size)
    headed ←
        put_bytes (replicate size 0) 0 (patch_header patch.schema.pcid patch.type patch.npoints)
    wkb ← write_buffers patch.schema.dims patch.buffers patch_header_size headed
    ok (wkb, size)

module _ {ℓ} {D T : Type ℓ} (doubles : Doubles D) where
  unfoldable pub dimensional_from_wkb : Schema D T → List ℕ → Result (PatchDimensional D T)
  unfolding read_buffers
  dimensional_from_wkb schema wkb = do
    endian ← access (get_elem? wkb 0)
    compression ← wkb_get_compression wkb
    if not (compression == pc_dimensional) then fail pcerror else (do
      npoints ← wkb_get_npoints wkb
      buffers ←
          read_buffers schema.dims (drop patch_header_size wkb) npoints
            (not (endian == machine_endian))
      ok (record {
        type = pc_dimensional;
        readonly = false;
        schema = schema;
        npoints = npoints;
        bounds = bounds_zero doubles;
        stats = none;
        buffers = buffers;
      }))

module _ {ℓ} {D T : Type ℓ} (zlib : Zlib) where
  unfoldable pub dimensional_decompress : PatchDimensional D T → Result (PatchDimensional D T)
  unfolding decode_buffers stats_clone
  dimensional_decompress pdl = do
    stats ← stats_clone pdl.stats
    buffers ← decode_buffers zlib pdl.schema.dims pdl.buffers
    ok (record pdl { stats = stats; buffers = buffers })

  unfoldable pub uncompressed_from_dimensional :
      PatchDimensional D T → Result (PatchUncompressed D T)
  uncompressed_from_dimensional pdl = do
    stats ← stats_clone pdl.stats
    let datasize = u64 (pdl.schema.size * pdl.npoints)
    plain ← dimensional_decompress pdl
    bytes ← scatter_points pdl.schema plain.buffers pdl.npoints 0 0 (replicate datasize 0)
    ok (record {
      type = pc_none;
      readonly = false;
      schema = pdl.schema;
      npoints = pdl.npoints;
      bounds = pdl.bounds;
      stats = stats;
      maxpoints = pdl.npoints;
      datasize = datasize;
      data_bytes = bytes;
    })

  unfoldable pub dimensional_pointn : PatchDimensional D T → ℕ → Result (Point D T)
  unfolding point_make point_values
  dimensional_pointn pdl n = do
    pt ← point_make (some pdl.schema)
    bytes ← point_values zlib pdl.schema.dims pdl.buffers n pt.data_bytes
    ok (record pt { data_bytes = bytes })

module _ {ℓ} {D T : Type ℓ} (doubles : Doubles D) (zlib : Zlib) where
  -- The least and the greatest value of a coordinate. `PC_FAILURE` does not come back, since
  -- `pcerror` does not return.
  unfoldable pub coordinate_range : PatchDimensional D T → Option ℕ → Result (D × D)
  coordinate_range pdl pointer = elim (dimension_at pdl.schema pointer) [
    | none ↦ fail assertion
    | some dim ↦ do
      pcb ← access (get_elem? pdl.buffers dim.position)
      range ← bytes_minmax doubles zlib pcb
      ok (
        value_scale_offset doubles range.min dim.scaling,
        value_scale_offset doubles range.max dim.scaling,
      )
  ]

  unfoldable pub dimensional_compute_extent : PatchDimensional D T → Result (PatchDimensional D T)
  unfolding coordinate_range
  dimensional_compute_extent pdl = do
    (xmin, xmax) ← coordinate_range pdl pdl.schema.xdim
    (ymin, ymax) ← coordinate_range pdl pdl.schema.ydim
    ok (record pdl { bounds = record { xmin = xmin; xmax = xmax; ymin = ymin; ymax = ymax } })
