-- ===== src/Minmax.antt =====
-- lib/pc_bytes.c: the least and the greatest value of a dimension, and the average.
pub mod Range
use pointcloud.Common.{
  ℕ, zero, suc, ◌+◌, Bool, true, false, ◌==◌, if◌then◌else◌, List, [], ◌∷◌, drop,
}
use pointcloud.Common.Result.{Result, ok, fail, pcerror, out_of_fuel, ◌>>=◌}
use pointcloud.Bytes.{
  Pcbytes, contents, interpretation_size, slice, element, dim_none, dim_rle, dim_sigbits, dim_zlib,
}
use pointcloud.Bytes.Codec.{Zlib, zlib_decode}
use pointcloud.Bytes.Sigbits.Decode.{sigbits_decode}
use pointcloud.Value.{Doubles, double_from_ptr}

-- The variables `mn`, `mx` and `sm`.
pub record Sums {ℓ} (D : Type ℓ) : Type ℓ where
  pub mn : D
  pub mx : D
  pub sm : D

-- What the caller's pointers are set to.
pub record Minmax {ℓ} (D : Type ℓ) : Type ℓ where
  pub min : D
  pub max : D
  pub avg : D

module _ {ℓ} {D : Type ℓ} (doubles : Doubles D) where
  unfoldable pub lower : D → D → D
  lower d mn = if doubles.less d mn then d else mn

  unfoldable pub higher : D → D → D
  higher d mx = if doubles.less mx d then d else mx

  unfoldable pub first_sums : Sums D
  first_sums = record {
    mn = doubles.flt_max;
    mx = doubles.multiply (doubles.negate (doubles.from_nat 1)) doubles.flt_max;
    sm = doubles.from_nat 0;
  }

  unfoldable pub results : ℕ → Sums D → Minmax D
  results npoints sums = record {
    min = sums.mn;
    max = sums.mx;
    avg = doubles.divide sums.sm (doubles.from_nat npoints);
  }

  unfoldable pub uncompressed_minmax_loop : ℕ → ℕ → ℕ → List ℕ → ℕ → Sums D → Result (Sums D)
  unfolding lower higher double_from_ptr
  uncompressed_minmax_loop zero size interp bytes i sums = ok sums
  uncompressed_minmax_loop (suc rounds) size interp bytes i sums = do
    value ← element size bytes i
    d ← double_from_ptr doubles value interp
    uncompressed_minmax_loop rounds size interp bytes (i + 1)
        (record { mn = lower d sums.mn; mx = higher d sums.mx; sm = doubles.add sums.sm d })

  unfoldable pub uncompressed_minmax : Pcbytes → Result (Minmax D)
  unfolding uncompressed_minmax_loop first_sums results
  uncompressed_minmax pcb = do
    size ← interpretation_size pcb.interpretation
    sums ← uncompressed_minmax_loop pcb.npoints size pcb.interpretation pcb.bytes 0 first_sums
    ok (results pcb.npoints sums)

  unfoldable pub run_length_minmax_loop : ℕ → ℕ → ℕ → List ℕ → Sums D → Result (Sums D)
  unfolding lower higher double_from_ptr
  run_length_minmax_loop fuel size interp [] sums = ok sums
  run_length_minmax_loop zero size interp (count ∷ rest) sums = fail out_of_fuel
  run_length_minmax_loop (suc fuel) size interp (count ∷ rest) sums = do
    value ← slice rest 0 size
    d ← double_from_ptr doubles value interp
    run_length_minmax_loop fuel size interp (drop size rest) (record {
      mn = lower d sums.mn;
      mx = higher d sums.mx;
      sm = doubles.add sums.sm (doubles.multiply (doubles.from_nat count) d);
    })

  unfoldable pub run_length_minmax : Pcbytes → Result (Minmax D)
  unfolding run_length_minmax_loop first_sums results
  run_length_minmax pcb = do
    size ← interpretation_size pcb.interpretation
    sums ← run_length_minmax_loop pcb.size size pcb.interpretation (contents pcb) first_sums
    ok (results pcb.npoints sums)

  unfoldable pub zlib_minmax : Zlib → Pcbytes → Result (Minmax D)
  unfolding uncompressed_minmax
  zlib_minmax zlib pcb = do zcb ← zlib_decode zlib pcb; uncompressed_minmax zcb

  unfoldable pub sigbits_minmax : Pcbytes → Result (Minmax D)
  unfolding uncompressed_minmax
  sigbits_minmax pcb = do zcb ← sigbits_decode pcb; uncompressed_minmax zcb

  unfoldable pub bytes_minmax : Zlib → Pcbytes → Result (Minmax D)
  unfolding uncompressed_minmax run_length_minmax zlib_minmax sigbits_minmax
  bytes_minmax zlib pcb =
      if pcb.compression == dim_none
      then uncompressed_minmax pcb
      else if pcb.compression == dim_sigbits
      then sigbits_minmax pcb
      else if pcb.compression == dim_zlib
      then zlib_minmax zlib pcb
      else if pcb.compression == dim_rle
      then run_length_minmax pcb
      else fail pcerror
