-- ===== src/Dimensional/Lossless.antt =====
-- lib/pc_patch_dimensional.c, lib/pc_patch_uncompressed.c: a patch that is made dimensional,
-- compressed and made uncompressed again has the points that it had.
use native.Mathlib.Nat.{mul-le-mul_left, mul-le-mul_right, mod-eq_of_lt}
use pointcloud.Common.{
  ℕ, zero, suc, ◌+◌, ◌*◌, ◌^◌, ◌≤◌, ◌<◌, ◌≡◌, refl, ap, ◌∙◌, false, ◌==◌, List, [], ◌∷◌, map,
  length, take, drop, replicate, Option, none, some, arith, length-replicate, All, All-append,
  All-take, All-drop,
}
use pointcloud.Common.Result.{ok}
use pointcloud.Bytes.{u32, bytes_make}
use pointcloud.Bytes.Valid.{IsByte}
use pointcloud.Bytes.Codec.{Zlib, ZlibLaws}
use pointcloud.Bytes.Sigbits.Lossless.{Width, bytes_1, bytes_2, bytes_4, bytes_8, size_of}
use pointcloud.Value.{Doubles}
use pointcloud.Schema.{Dimension, Schema}
use pointcloud.Schema.Offsets.{width, width-le, IsKnown, interpretation_size_known, total_width-le}
use pointcloud.Schema.Fields.{IsLaid}
use pointcloud.Schema.Xml.{pc_none, pc_dimensional}
use pointcloud.Patch.{PatchUncompressed, u64}
use pointcloud.Dimensional.{
  PatchDimensional, dimensional_from_uncompressed, uncompressed_from_dimensional,
}
use pointcloud.Dimensional.Dimstats.{Dimstats}
use pointcloud.Dimensional.Counted.{IsEncodable, IsThere}
use pointcloud.Dimensional.Compress.{
  dimensional_compress, OwnStats, stats_clone-OwnStats, IsFor, released,
  dimensional_decompress-compress,
}
use pointcloud.Dimensional.Transpose.{column, length-column, Row, Row-le, IsLaid-Row}
use pointcloud.Dimensional.Gather.{IsRows, columns, gather_dimensions-columns}
use pointcloud.Dimensional.Scatter.{scatter_points_restored}

width_of : (i : ℕ) → IsKnown i → (w : Width) × (width i ≡ size_of w)
unfolding width
width_of zero h = absurd (omega arith)
width_of (suc zero) h = (bytes_1, refl)
width_of (suc (suc zero)) h = (bytes_1, refl)
width_of (suc (suc (suc zero))) h = (bytes_2, refl)
width_of (suc (suc (suc (suc zero)))) h = (bytes_2, refl)
width_of (suc (suc (suc (suc (suc zero))))) h = (bytes_4, refl)
width_of (suc (suc (suc (suc (suc (suc zero)))))) h = (bytes_4, refl)
width_of (suc (suc (suc (suc (suc (suc (suc zero))))))) h = (bytes_8, refl)
width_of (suc (suc (suc (suc (suc (suc (suc (suc zero)))))))) h = (bytes_8, refl)
width_of (suc (suc (suc (suc (suc (suc (suc (suc (suc zero))))))))) h = (bytes_8, refl)
width_of (suc (suc (suc (suc (suc (suc (suc (suc (suc (suc n)))))))))) h = (bytes_4, refl)

All-column :
    (size offset w n : ℕ) (points : List ℕ)
    → All IsByte points
    → All IsByte (column size offset w n points)
unfolding column
All-column size offset w zero points all = tt
All-column size offset w (suc n) points all =
    All-append IsByte (take w (drop offset points)) (column size offset w n (drop size points))
      (All-take IsByte w (drop offset points) (All-drop IsByte offset points all))
      (All-column size offset w n (drop size points) (All-drop IsByte size points all))

-- What zlib needs for the buffers of a number of points has room in what the code allocates.
abbrev pub HasSpace : (ℕ → ℕ) → ℕ → Type 0
HasSpace bound npoints =
    (width : Width) → bound (npoints * size_of width) ≤ 4 * (npoints * size_of width)

module _ {ℓ} {D T : Type ℓ} (schema : Schema D T) (npoints : ℕ) (points : List ℕ)
    (rows : IsRows schema npoints points) (bound : ℕ → ℕ) where
  columns-IsEncodable :
      (offset : ℕ) (dims : List (Option (Dimension D)))
      → Row schema.size offset dims
      → 1 ≤ npoints
      → All IsByte points
      → HasSpace bound npoints
      → All (IsEncodable bound) (columns schema.size npoints points dims)
  unfolding columns bytes_make
  columns-IsEncodable offset [] row some_points narrow space = tt
  columns-IsEncodable offset (none ∷ dims) row some_points narrow space = absurd row
  columns-IsEncodable offset (some d ∷ dims) (at, known, wide, row) some_points narrow space =
      let (w, is) = width_of d.interpretation known in
      let few_bytes : d.size * npoints ≤ 8 * npoints =
        mul-le-mul_right {m = d.size} {n = 8} npoints
          (omega (arith, wide, width-le d.interpretation)) in
      let sized : u32 (d.size * npoints) ≡ npoints * size_of w =
        mod-eq_of_lt (omega (arith, rows.few, few_bytes)) ∙ swapped d.size (wide ∙ is) in
      (
        record {
          width = w;
          raw = record {
            size_of = interpretation_size_known d.interpretation known ∙ ap ok is;
            wide = at_least w;
            uncompressed = refl;
            filled = sized;
            allocated =
                length-column schema.size d.byteoffset d.size
                  (omega (arith, at, Row-le schema.size (offset + d.size) dims row)) npoints points
                  rows.there
                ∙ swapped d.size (wide ∙ is);
            narrow = All-column schema.size d.byteoffset d.size npoints points narrow;
            small = omega (arith, rows.few);
          };
          nonempty = some_points;
          small = omega (arith, rows.few, few_bytes, ap (λ (t : ℕ). t * npoints) (wide ∙ is));
          space = rw sized (space w);
        },
        columns-IsEncodable (offset + d.size) dims row some_points narrow space,
      )
    where
      swapped : (m : ℕ) {k : ℕ} → m ≡ k → m * npoints ≡ npoints * k
      swapped m e = ap (λ (t : ℕ). t * npoints) e ∙ omega arith

      at_least : (w : Width) → 1 ≤ size_of w
      at_least bytes_1 = omega arith
      at_least bytes_2 = omega arith
      at_least bytes_4 = omega arith
      at_least bytes_8 = omega arith

  length-columns :
      (dims : List (Option (Dimension D)))
      → All IsThere dims
      → length (columns schema.size npoints points dims) ≡ length dims
  unfolding columns
  length-columns [] there = refl
  length-columns (none ∷ dims) ((d, e), there) = cc
  length-columns (some d ∷ dims) there = ap suc (length-columns dims there.1)

  released-columns :
      (dims : List (Option (Dimension D)))
      → map released (columns schema.size npoints points dims)
        ≡ columns schema.size npoints points dims
  unfolding columns bytes_make
  released-columns [] = refl
  released-columns (none ∷ dims) = released-columns dims
  released-columns (some d ∷ dims) = rw (released-columns dims)

module _ {ℓ} {D T : Type ℓ} (doubles : Doubles D) (zlib : Zlib) (bound : ℕ → ℕ)
    (laws : ZlibLaws zlib bound) where
  -- A patch of at least one point and fewer than 2^26, whose schema has its offsets calculated and
  -- no dimension missing, is made dimensional and compressed, with statistics for its schema or with
  -- none, whatever the compressions that they recommend; made uncompressed again it is the patch
  -- that it was, with its points byte for byte, no longer read-only and with no room behind them.
  -- The memory holds all the points, statistics of the patch are in memory of their own and as long
  -- as a point, and zlib's streams fit in four times the size of a buffer.
  pub uncompressed_from_dimensional-compress :
      (pa : PatchUncompressed D T) (pds_in : Option Dimstats)
      → ((pds : Dimstats) → pds_in ≡ some pds → IsFor pa.schema pds)
      → IsLaid pa.schema
      → All IsThere pa.schema.dims
      → 1 ≤ pa.npoints
      → pa.npoints < 2 ^ 26
      → pa.npoints * pa.schema.size ≤ length pa.data_bytes
      → All IsByte pa.data_bytes
      → HasSpace bound pa.npoints
      → OwnStats pa.stats
      → (pdl : PatchDimensional D T) × (packed : PatchDimensional D T) × (pds : Dimstats)
        × (dimensional_from_uncompressed pa ≡ ok (some pdl))
        × (dimensional_compress doubles zlib pdl pds_in ≡ ok (packed, pds))
        × (uncompressed_from_dimensional zlib packed
            ≡ ok (record pa {
              type = pc_none;
              readonly = false;
              maxpoints = pa.npoints;
              datasize = pa.npoints * pa.schema.size;
              data_bytes = take (pa.npoints * pa.schema.size) pa.data_bytes;
            }))
  unfolding dimensional_from_uncompressed uncompressed_from_dimensional
  uncompressed_from_dimensional-compress pa pds_in given laid there some_points few long narrow
        space own =
      let s = pa.schema in
      let rows : IsRows s pa.npoints pa.data_bytes = record {
        thin = omega (arith, laid.sized, laid.few, total_width-le s.dims);
        few = omega arith;
        there = long;
      } in
      let row = IsLaid-Row s laid there in
      let cloned = stats_clone-OwnStats pa.stats own in
      let buffers = columns s.size pa.npoints pa.data_bytes s.dims in
      let pdl : PatchDimensional D T = record {
        type = pc_dimensional;
        readonly = false;
        schema = s;
        npoints = pa.npoints;
        bounds = pa.bounds;
        stats = pa.stats;
        buffers = buffers;
      } in
      let gathered = gather_dimensions-columns s pa.npoints pa.data_bytes rows 0 s.dims row in
      let (packed, pds, compressed, each, known, restored) =
        dimensional_decompress-compress doubles zlib bound laws pdl pds_in given
          (length-columns s pa.npoints pa.data_bytes rows bound s.dims there) there
          (columns-IsEncodable s pa.npoints pa.data_bytes rows bound 0 s.dims row some_points narrow
            space)
          own in
      let sized : u64 (s.size * pa.npoints) ≡ pa.npoints * s.size =
        ap u64 (omega arith)
        ∙ mod-eq_of_lt (
            omega (
              arith,
              rows.thin,
              mul-le-mul_left {m = s.size} {n = 2 ^ 32} pa.npoints (omega (arith, rows.thin)),
            )) in
      let scattered =
        scatter_points_restored s pa.npoints pa.data_bytes rows pa.npoints 0 0 []
          (replicate (pa.npoints * s.size) 0) row (omega arith) (omega arith) refl
          (length-replicate (pa.npoints * s.size) 0) in
      let nonempty : (pa.npoints == 0) ≡ false = ground arith in
      (
        pdl,
        record pdl { buffers = packed },
        pds,
        rw (nonempty, cloned, gathered),
        compressed,
        rw (
          cloned,
          restored,
          released-columns s pa.npoints pa.data_bytes rows bound s.dims,
          sized,
          scattered,
          start,
        ),
      )
    where
      zero_times : (n : ℕ) → 0 * n ≡ 0
      zero_times n = omega arith

      start : drop (0 * pa.schema.size) pa.data_bytes ≡ pa.data_bytes
      start = ap (λ (k : ℕ). drop k pa.data_bytes) (zero_times pa.schema.size)
