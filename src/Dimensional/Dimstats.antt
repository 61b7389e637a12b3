-- ===== src/Dimensional/Dimstats.antt =====
-- lib/pc_dimstats.c: what is counted of the buffers of dimensional patches, and the compression that
-- is recommended for each dimension.
use pointcloud.Common.{
  ℕ, ◌+◌, true, false, ◌*◌, ◌/◌, ◌==◌, if◌then◌else◌, List, [], ◌∷◌, replicate, Option,
}
use pointcloud.Common.Result.{Result, ok, fail, out_of_bounds, undefined, guard, ◌>>=◌}
use pointcloud.Bytes.{Pcbytes, u32, dim_rle, dim_sigbits, dim_zlib, interpretation_double}
use pointcloud.Bytes.Rle.{run_count}
use pointcloud.Bytes.Sigbits.{sigbits_count}
use pointcloud.Value.{Doubles}
use pointcloud.Schema.{Dimension, Schema, ndims}
use pointcloud.Schema.Compare.{followed}

pub record Dimstat : Type 0 where
  pub total_runs : ℕ
  pub total_commonbits : ℕ
  pub recommended_compression : ℕ

pub record Dimstats : Type 0 where
  pub ndims : ℕ
  pub total_points : ℕ
  pub total_patches : ℕ
  pub stats : List Dimstat

unfoldable pub dimstats_make {ℓ} : {D T : Type ℓ} → Schema D T → Dimstats
dimstats_make schema = record {
  ndims = ndims schema;
  total_points = 0;
  total_patches = 0;
  stats =
      replicate (ndims schema)
        (record { total_runs = 0; total_commonbits = 0; recommended_compression = 0 });
}

-- The first loop, over the dimensions.
unfoldable pub count_buffers : List Dimstat → List Pcbytes → Result (List Dimstat)
count_buffers [] buffers = ok []
count_buffers (stat ∷ stats) [] = fail out_of_bounds
count_buffers (stat ∷ stats) (pcb ∷ buffers) = do
  runs ← run_count pcb
  commonbits ← sigbits_count pcb
  rest ← count_buffers stats buffers
  ok (
      record stat {
        total_runs = u32 (stat.total_runs + runs);
        total_commonbits = u32 (stat.total_commonbits + commonbits);
      }
      ∷ rest)

module _ {ℓ} {D : Type ℓ} (doubles : Doubles D) where
  -- The choice for one dimension. The products and the average of the common bits are integers
  -- before they become doubles. The constant 1.6 is the quotient of 16 and 10, rounded.
  unfoldable pub recommended : ℕ → ℕ → Dimension D → Dimstat → ℕ
  recommended total_points total_patches dim stat =
      let raw_size = doubles.from_nat (u32 (total_points * dim.size)) in
      let rle_size = doubles.from_nat (u32 (stat.total_runs * u32 (dim.size + 1))) in
      let avg_commonbits = doubles.from_nat (stat.total_commonbits / total_patches) in
      let avg_uniquebits =
        doubles.subtract (doubles.from_nat (u32 (8 * dim.size))) avg_commonbits in
      let sigbits_size = doubles.add (doubles.from_nat (u32 (u32 (total_patches * 2) * dim.size))) (
        doubles.divide (doubles.multiply (doubles.from_nat total_points) avg_uniquebits)
          (doubles.from_nat 8)) in
      if dim.interpretation == interpretation_double
      then dim_zlib
      else if doubles.less (doubles.from_nat 4) (doubles.divide raw_size rle_size)
      then dim_rle
      else if doubles.less (doubles.divide (doubles.from_nat 16) (doubles.from_nat 10))
          (doubles.divide raw_size sigbits_size)
      then dim_sigbits
      else dim_zlib

  -- The second loop. There is no dimension behind the last one of the schema.
  unfoldable pub recommend :
      ℕ → ℕ → List (Option (Dimension D)) → List Dimstat → Result (List Dimstat)
  unfolding recommended
  recommend total_points total_patches dims [] = ok []
  recommend total_points total_patches [] (stat ∷ stats) = fail undefined
  recommend total_points total_patches (slot ∷ dims) (stat ∷ stats) = do
    dim ← followed slot
    checked ← guard (if total_patches == 0 then false else true) undefined
    rest ← recommend total_points total_patches dims stats
    ok (
        record stat { recommended_compression = recommended total_points total_patches dim stat }
        ∷ rest)

  unfoldable pub dimstats_update :
      {T : Type ℓ} → Dimstats → Schema D T → ℕ → List Pcbytes → Result Dimstats
  unfolding count_buffers recommend
  dimstats_update pds schema npoints buffers = do
    let total_points = u32 (pds.total_points + npoints)
    let total_patches = u32 (pds.total_patches + 1)
    counted ← count_buffers pds.stats buffers
    stats ← recommend total_points total_patches schema.dims counted
    ok (record pds { total_points = total_points; total_patches = total_patches; stats = stats })
