-- ===== src/Bytes.antt =====
-- lib/pc_bytes.c: the byte buffer of one dimension of a patch (`PCBYTES` of lib/pc_api.h), with
-- its making, copying and reading by element, and `pc_interpretation_size` of lib/pc_schema.c.
-- A buffer is the list of its bytes, as long as its allocation.
pub mod Valid
pub mod Rle
pub mod Words
pub mod Sigbits
pub mod Codec
pub mod Flip
pub mod Serial
use pointcloud.Common.{
  ℕ, zero, suc, ◌+◌, ◌*◌, ◌^◌, ◌-◌, ◌%◌, ◌≤◌, ◌<◌, ◌≡◌, Bool, true, false, ◌&&◌, ◌||◌, ◌==◌, ltb,
  leb, if◌then◌else◌, List, [], ◌∷◌, ◌++◌, length, take, drop, replicate, get_elem?,
}
use pointcloud.Common.Result.{Result, ok, fail, access, pcerror, out_of_bounds, ◌>>=◌}

-- `enum DIMCOMPRESSIONS`
abbrev pub dim_none : ℕ
dim_none = 0

abbrev pub dim_rle : ℕ
dim_rle = 1

abbrev pub dim_sigbits : ℕ
dim_sigbits = 2

abbrev pub dim_zlib : ℕ
dim_zlib = 3

-- `PC_DOUBLE` of `enum INTERPRETATIONS`; the other interpretations are only looked up in the
-- table of sizes below, by their numbers 0 to 10.
abbrev pub interpretation_double : ℕ
interpretation_double = 9

abbrev pub num_interpretations : ℕ
num_interpretations = 11

-- `INTERPRETATION_SIZES`; the size of `PC_UNKNOWN` is `(size_t)-1`.
abbrev pub interpretation_sizes : List ℕ
interpretation_sizes = (2 ^ 64 - 1) ∷ 1 ∷ 1 ∷ 2 ∷ 2 ∷ 4 ∷ 4 ∷ 8 ∷ 8 ∷ 8 ∷ 4 ∷ []

unfoldable pub interpretation_size : ℕ → Result ℕ
interpretation_size interp =
    if ltb interp num_interpretations
    then access (get_elem? interpretation_sizes interp)
    else fail pcerror

-- Arithmetic in `uint32_t`.
abbrev pub u32 : ℕ → ℕ
u32 n = n % 2 ^ 32

pub record Pcbytes : Type 0 where
  pub size : ℕ
  pub npoints : ℕ
  pub interpretation : ℕ
  pub compression : ℕ
  pub readonly : Bool
  pub bytes : List ℕ

-- What lies between `pcb.bytes` and `pcb.bytes + pcb.size`.
abbrev pub contents : Pcbytes → List ℕ
contents pcb = take pcb.size pcb.bytes

-- `n` bytes at `offset`, as `memcpy` and `memcmp` read them.
unfoldable pub slice : List ℕ → ℕ → ℕ → Result (List ℕ)
slice bytes offset n =
    if leb (offset + n) (length bytes) then ok (take n (drop offset bytes)) else fail out_of_bounds

-- The value of point `i`.
unfoldable pub element : ℕ → List ℕ → ℕ → Result (List ℕ)
element size bytes i = slice bytes (i * size) size

-- `memcmp(a, b, n) == 0` for two areas of one length.
unfoldable pub bytes_eq : List ℕ → List ℕ → Bool
bytes_eq [] [] = true
bytes_eq [] (y ∷ ys) = false
bytes_eq (x ∷ xs) [] = false
bytes_eq (x ∷ xs) (y ∷ ys) = x == y && bytes_eq xs ys

-- A null buffer is one of no bytes.
unfoldable pub bytes_empty : Pcbytes → Bool
bytes_empty pcb = pcb.npoints == 0 || length pcb.bytes == 0 || pcb.size == 0

-- The `size` and `interpretation` of the dimension are the arguments.
unfoldable pub bytes_make : ℕ → ℕ → ℕ → Pcbytes
bytes_make dim_size dim_interpretation npoints =
    let size = u32 (dim_size * npoints) in
    record {
      size = size;
      npoints = npoints;
      interpretation = dim_interpretation;
      compression = dim_none;
      readonly = false;
      bytes = replicate size 0;
    }

-- A copy in memory of its own, unless there is nothing to copy.
unfoldable pub bytes_clone : Pcbytes → Result Pcbytes
unfolding bytes_empty
bytes_clone pcb =
    if bytes_empty pcb
    then ok (record pcb { readonly = false })
    else do copy ← slice pcb.bytes 0 pcb.size; ok (record pcb { bytes = copy; readonly = false })

unfoldable pub uncompressed_to_ptr : Pcbytes → ℕ → Result (List ℕ)
uncompressed_to_ptr pcb n = do
  size ← interpretation_size pcb.interpretation
  element size pcb.bytes n
