-- ===== src/Bytes/Rle.antt =====
-- lib/pc_bytes.c: the run-length encoding. An encoded buffer is a sequence of entries, each a
-- `uint8_t` count and the value of that many points.
pub mod Runs
pub mod Returns
pub mod Encode
pub mod Decode
pub mod RoundTrip
use mathlib.Core.List.{flatten, reverse}
use pointcloud.Common.{
  ℕ, zero, suc, ◌+◌, ◌-◌, ◌*◌, ◌/◌, ◌<◌, ◌≡◌, Bool, true, false, not, ◌&&◌, ◌||◌, ◌==◌, ltb, leb,
  if◌then◌else◌, List, [], ◌∷◌, ◌++◌, length, take, drop,
}
use pointcloud.Common.Result.{
  Result, ok, fail, guard, pcerror, out_of_bounds, out_of_fuel, assertion, ◌>>=◌, ◌>>◌, counts_to,
}
use pointcloud.Bytes.{
  Pcbytes, contents, interpretation_size, slice, element, bytes_eq, u32, dim_none, dim_rle,
}

-- `for (i = 1; i < npoints; i++)`, where `i` ends at `npoints` and does not overflow, with `rounds`
-- left.
run_count_loop : ℕ → List ℕ → ℕ → ℕ → ℕ → Result ℕ
run_count_loop size bytes zero i runcount = ok runcount
run_count_loop size bytes (suc rounds) i runcount = do
  previous ← element size bytes (i - 1)
  this ← element size bytes i
  run_count_loop size bytes rounds (i + 1)
      (if bytes_eq previous this then runcount else u32 (runcount + 1))

pub run_count : Pcbytes → Result ℕ
unfolding run_count_loop
run_count pcb = do
  size ← interpretation_size pcb.interpretation
  counts_to pcb.npoints
  run_count_loop size pcb.bytes (pcb.npoints - 1) 1 1

-- `i < npoints && runlength < 255 && memcmp(runstart, bytesptr, size) == 0`, where the run starts
-- at point `start`.
run_continues : ℕ → ℕ → List ℕ → ℕ → ℕ → ℕ → Result Bool
run_continues size npoints bytes i start runlength =
    if ltb i npoints && ltb runlength 255
    then (do
      first ← element size bytes start
      this ← element size bytes i
      ok (bytes_eq first this))
    else ok false

-- `for (i = 1; i <= npoints; i++)`, where `i` ends at `npoints + 1` and does not overflow, with
-- `rounds` left; what the loop still writes.
run_length_encode_loop : ℕ → ℕ → List ℕ → ℕ → ℕ → ℕ → ℕ → Result (List ℕ)
unfolding run_continues
run_length_encode_loop size npoints bytes zero i start runlength = ok []
run_length_encode_loop size npoints bytes (suc rounds) i start runlength = do
  more ← run_continues size npoints bytes i start runlength
  elim more [
    | true ↦ run_length_encode_loop size npoints bytes rounds (i + 1) start (runlength + 1)
    | false ↦ do
      value ← element size bytes start
      written ← run_length_encode_loop size npoints bytes rounds (i + 1) i 1
      ok (runlength ∷ (value ++ written))
  ]

pub run_length_encode : Pcbytes → Result Pcbytes
unfolding run_length_encode_loop
run_length_encode pcb = do
  size ← interpretation_size pcb.interpretation
  counts_to (pcb.npoints + 1)
  written ← run_length_encode_loop size pcb.npoints pcb.bytes pcb.npoints 1 0 1
  ok (record pcb {
    size = length written;
    compression = dim_rle;
    readonly = false;
    bytes = written;
  })

-- The first `while` of the decoder: the sum of the counts in `uint32_t`. Each round takes a byte
-- at least from the list, which is what the pointer has not passed.
count_points : ℕ → ℕ → List ℕ → ℕ → Result ℕ
count_points fuel size [] npoints = ok npoints
count_points zero size (n ∷ rest) npoints = fail out_of_fuel
count_points (suc fuel) size (n ∷ rest) npoints =
    count_points fuel size (drop size rest) (u32 (npoints + n))

-- `for (i = 0; i < n; i++) memcpy(bytes_ptr, bytes_rle_ptr, size)`
copies : ℕ → ℕ → List ℕ → Result (List ℕ)
copies zero size rest = ok []
copies (suc n) size rest = do
  value ← slice rest 0 size
  more ← copies n size rest
  ok (value ++ more)

-- The second `while`: what it writes.
fill_points : ℕ → ℕ → List ℕ → Result (List ℕ)
unfolding copies
fill_points fuel size [] = ok []
fill_points zero size (n ∷ rest) = fail out_of_fuel
fill_points (suc fuel) size (n ∷ rest) = do
  values ← copies n size rest
  more ← fill_points fuel size (drop size rest)
  ok (values ++ more)

pub run_length_decode : Pcbytes → Result Pcbytes
unfolding count_points fill_points
run_length_decode pcb = do
  size ← interpretation_size pcb.interpretation
  guard (pcb.compression == dim_rle) assertion
  npoints ← count_points pcb.size size (contents pcb) 0
  guard (npoints == pcb.npoints) assertion
  written ← fill_points pcb.size size (contents pcb)
  ok (record pcb {
    compression = dim_none;
    size = size * npoints;
    bytes = written;
    readonly = false;
  })

-- The entry of point `n`, an `int` that is not negative.
run_length_find : ℕ → ℕ → List ℕ → ℕ → Result (List ℕ)
run_length_find fuel size [] n = fail pcerror
run_length_find zero size (run ∷ rest) n = fail out_of_fuel
run_length_find (suc fuel) size (run ∷ rest) n = elim (ltb n run) [
  | true ↦ slice rest 0 size
  | false ↦ run_length_find fuel size (drop size rest) (n - run)
]

pub run_length_to_ptr : Pcbytes → ℕ → Result (List ℕ)
unfolding run_length_find
run_length_to_ptr pcb n = do
  size ← interpretation_size pcb.interpretation
  guard (pcb.compression == dim_rle) assertion
  run_length_find pcb.size size (contents pcb) n
