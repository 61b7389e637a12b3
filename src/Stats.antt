-- ===== src/Stats.antt =====
-- lib/pc_stats.c: the least, the greatest and the average value of each dimension of a patch, kept
-- as three points.
use pointcloud.Common.{
  ℕ, zero, suc, ◌*◌, true, false, if◌then◌else◌, List, [], ◌∷◌, drop, replicate, Option, none, some,
}
use pointcloud.Common.Result.{Result, ok, ◌>>=◌}
use pointcloud.Bytes.{slice}
use pointcloud.Value.{Doubles}
use pointcloud.Schema.{Dimension, Schema, ndims}
use pointcloud.Schema.Compare.{followed}
use pointcloud.Point.{Point, point_get_double, point_set_double}

pub record Stats {ℓ} (D T : Type ℓ) : Type ℓ where
  pub min : Point D T
  pub max : Point D T
  pub avg : Point D T

-- `PCDOUBLESTAT`
pub record Dstat {ℓ} (D : Type ℓ) : Type ℓ where
  pub min : D
  pub max : D
  pub sum : D

module _ {ℓ} {D T : Type ℓ} where
  unfoldable pub stats_new_from_data : Schema D T → List ℕ → List ℕ → List ℕ → Stats D T
  stats_new_from_data schema mindata maxdata avgdata = record {
    min = record { readonly = true; schema = schema; data_bytes = mindata };
    max = record { readonly = true; schema = schema; data_bytes = maxdata };
    avg = record { readonly = true; schema = schema; data_bytes = avgdata };
  }

  zero_point : Schema D T → Point D T
  zero_point schema = record {
    readonly = false;
    schema = schema;
    data_bytes = replicate schema.size 0;
  }

  unfoldable pub stats_new : Schema D T → Stats D T
  unfolding zero_point
  stats_new schema = record {
    min = zero_point schema;
    max = zero_point schema;
    avg = zero_point schema;
  }

  clone_point : Point D T → Result (Point D T)
  clone_point pt = do
    bytes ← slice pt.data_bytes 0 pt.schema.size
    ok (record pt { readonly = false; data_bytes = bytes })

  unfoldable pub stats_clone : Option (Stats D T) → Result (Option (Stats D T))
  unfolding clone_point
  stats_clone none = ok none
  stats_clone (some stats) = do
    min ← clone_point stats.min
    max ← clone_point stats.max
    avg ← clone_point stats.avg
    ok (some (record { min = min; max = max; avg = avg }))

  unfoldable pub stats_size : Schema D T → ℕ
  stats_size schema = 3 * schema.size

module _ {ℓ} {D : Type ℓ} (doubles : Doubles D) where
  unfoldable pub dstats_new : ℕ → List (Dstat D)
  dstats_new ndims = replicate ndims (record {
    min = doubles.dbl_max;
    max = doubles.negate doubles.dbl_max;
    sum = doubles.from_nat 0;
  })

  unfoldable pub dstat_add : Dstat D → D → Dstat D
  dstat_add stat val = record {
    min = if doubles.less val stat.min then val else stat.min;
    max = if doubles.less stat.max val then val else stat.max;
    sum = doubles.add stat.sum val;
  }

module _ {ℓ} {D T : Type ℓ} (doubles : Doubles D) where
  -- The values of one point. A value that is not there leaves `val` as it was, not initialized.
  unfoldable pub dstats_add_point :
      Point D T → List (Option (Dimension D)) → List (Dstat D) → Result (List (Dstat D))
  unfolding dstat_add
  dstats_add_point pt [] dstats = ok []
  dstats_add_point pt (dim ∷ dims) [] = ok []
  dstats_add_point pt (dim ∷ dims) (stat ∷ dstats) = do
    got ← point_get_double doubles pt dim
    val ← followed got
    rest ← dstats_add_point pt dims dstats
    ok (dstat_add doubles stat val ∷ rest)

  -- The loop over the points that are left in the data.
  unfoldable pub dstats_add_points :
      Schema D T → ℕ → List ℕ → List (Dstat D) → Result (List (Dstat D))
  unfolding dstats_add_point
  dstats_add_points schema zero bytes dstats = ok dstats
  dstats_add_points schema (suc n) bytes dstats = do
    dstats' ←
        dstats_add_point (record { readonly = true; schema = schema; data_bytes = bytes })
          schema.dims dstats
    dstats_add_points schema n (drop schema.size bytes) dstats'

  -- The point of a statistic that `value` takes from each dimension.
  set_or_keep : Point D T → Option (Dimension D) → D → Result (Point D T)
  set_or_keep pt dim val = do
    set ← point_set_double doubles pt dim val
    ok (elim set [ none ↦ pt | some pt' ↦ pt' ])

  -- The loop of `pc_stats_new_from_dstats`.
  unfoldable pub set_stats :
      List (Option (Dimension D)) → List (Dstat D) → ℕ → Stats D T → Result (Stats D T)
  unfolding set_or_keep
  set_stats [] dstats npoints stats = ok stats
  set_stats (dim ∷ dims) [] npoints stats = ok stats
  set_stats (dim ∷ dims) (stat ∷ dstats) npoints stats = do
    min ← set_or_keep stats.min dim stat.min
    max ← set_or_keep stats.max dim stat.max
    avg ← set_or_keep stats.avg dim (doubles.divide stat.sum (doubles.from_nat npoints))
    set_stats dims dstats npoints (record { min = min; max = max; avg = avg })

  -- The statistics of `npoints` points of a schema.
  unfoldable pub compute_stats : Schema D T → ℕ → List ℕ → Result (Stats D T)
  unfolding dstats_new dstats_add_points set_stats stats_new
  compute_stats schema npoints bytes = do
    dstats ← dstats_add_points schema npoints bytes (dstats_new doubles (ndims schema))
    set_stats schema.dims dstats npoints (stats_new schema)
