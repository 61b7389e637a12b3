-- ===== src/Bytes/Codec.antt =====
-- lib/pc_bytes.c: `pc_bytes_zlib_encode`, `pc_bytes_zlib_decode`, and the choice of a compression in
-- `pc_bytes_encode`, `pc_bytes_decode` and `pc_bytes_to_ptr`. The two calls of zlib are a parameter.
pub mod RoundTrip
pub mod ToPtr
use pointcloud.Common.{
  ℕ, ◌+◌, ◌-◌, ◌*◌, ◌^◌, ◌%◌, ◌≤◌, ◌≡◌, Bool, true, false, ◌==◌, if◌then◌else◌, List, ◌++◌, length,
  replicate, Option, none, some, All,
}
use pointcloud.Common.Result.{Result, ok, fail, pcerror, assertion, ◌>>=◌}
use pointcloud.Bytes.{
  Pcbytes, interpretation_size, slice, dim_none, dim_rle, dim_sigbits, dim_zlib, bytes_clone,
  uncompressed_to_ptr,
}
use pointcloud.Bytes.Valid.{IsByte}
use pointcloud.Bytes.Rle.{run_length_encode, run_length_decode, run_length_to_ptr}
use pointcloud.Bytes.Sigbits.{sigbits_encode}
use pointcloud.Bytes.Sigbits.Decode.{sigbits_decode, sigbits_to_ptr}

-- One call with `Z_FINISH` on an input and the space for the output: the bytes written, or none for
-- `Z_STREAM_ERROR`.
pub record Zlib : Type 0 where
  pub deflate : List ℕ → ℕ → Option (List ℕ)
  pub inflate : List ℕ → ℕ → Option (List ℕ)

-- What zlib's manual says: with `bound` bytes of space, `deflate` writes a whole stream into them, and
-- `inflate` gives the input back where there is the space of the input.
pub record ZlibLaws (zlib : Zlib) (bound : ℕ → ℕ) : Type 0 where
  pub deflates :
      (input : List ℕ) (space : ℕ)
      → bound (length input) ≤ space
      → (out : List ℕ) × (zlib.deflate input space ≡ some out)
  pub inflates :
      (input out : List ℕ) (space : ℕ)
      → All IsByte input
      → bound (length input) ≤ space
      → zlib.deflate input space ≡ some out
      → zlib.inflate out (length input) ≡ some input

-- The output of a call of zlib; both callers assert that there was no stream error.
abbrev stream : Option (List ℕ) → Result (List ℕ)
stream none = fail assertion
stream (some out) = ok out

module _ (zlib : Zlib) where
  unfoldable pub zlib_encode : Pcbytes → Result Pcbytes
  zlib_encode pcb = do
    input ← slice pcb.bytes 0 pcb.size
    out ← stream (zlib.deflate input (4 * pcb.size))
    ok (record pcb { size = length out; bytes = out; compression = dim_zlib; readonly = false })

  -- What `inflate` does not write stays zero.
  unfoldable pub zlib_decode : Pcbytes → Result Pcbytes
  zlib_decode pcb = do
    width ← interpretation_size pcb.interpretation
    let size = width * pcb.npoints % 2 ^ 64
    input ← slice pcb.bytes 0 pcb.size
    out ← stream (zlib.inflate input size)
    ok (record pcb {
      size = size;
      bytes = out ++ replicate (size - length out) 0;
      compression = dim_none;
      readonly = false;
    })

  unfoldable pub bytes_encode : Pcbytes → ℕ → Result Pcbytes
  bytes_encode pcb compression =
      if compression == dim_rle
      then run_length_encode pcb
      else if compression == dim_sigbits
      then sigbits_encode pcb
      else if compression == dim_zlib
      then zlib_encode pcb
      else if compression == dim_none
      then bytes_clone pcb
      else fail pcerror

  unfoldable pub bytes_decode : Pcbytes → Result Pcbytes
  bytes_decode epcb =
      if epcb.compression == dim_rle
      then run_length_decode epcb
      else if epcb.compression == dim_sigbits
      then sigbits_decode epcb
      else if epcb.compression == dim_zlib
      then zlib_decode epcb
      else if epcb.compression == dim_none
      then bytes_clone epcb
      else fail pcerror

  unfoldable pub zlib_to_ptr : Pcbytes → ℕ → Result (List ℕ)
  zlib_to_ptr pcb n = do dpcb ← bytes_decode pcb; uncompressed_to_ptr dpcb n

  unfoldable pub bytes_to_ptr : Pcbytes → ℕ → Result (List ℕ)
  bytes_to_ptr pcb n =
      if pcb.compression == dim_rle
      then run_length_to_ptr pcb n
      else if pcb.compression == dim_sigbits
      then sigbits_to_ptr pcb n
      else if pcb.compression == dim_zlib
      then zlib_to_ptr pcb n
      else if pcb.compression == dim_none
      then uncompressed_to_ptr pcb n
      else fail pcerror
