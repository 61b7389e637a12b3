-- ===== src/Bytes/Flip.antt =====
-- lib/pc_bytes.c: changing the byte order of an encoded buffer in place.
pub mod Runs
use pointcloud.Common.{
  ℕ, zero, suc, ◌+◌, ◌-◌, ◌/◌, Bool, true, false, ◌==◌, ltb, if◌then◌else◌, List, length, Option,
  none, some,
}
use pointcloud.Common.Result.{Result, ok, fail, guard, pcerror, assertion, out_of_fuel, ◌>>=◌, ◌>>◌}
use pointcloud.Bytes.{Pcbytes, interpretation_size, slice, dim_none, dim_rle, dim_sigbits, dim_zlib}
use pointcloud.Wkb.{swap_bytes, swap_loop}

-- `while (bytes_ptr < end_ptr)`, where `bytes_ptr` is at `offset`.
unfoldable pub run_length_flip_loop : ℕ → ℕ → ℕ → ℕ → List ℕ → Result (List ℕ)
unfolding swap_loop
run_length_flip_loop zero size end offset bytes =
    if ltb offset end then fail out_of_fuel else ok bytes
run_length_flip_loop (suc fuel) size end offset bytes = elim (ltb offset end) [
  | true ↦ do
    bytes' ← swap_loop (size / 2) size offset 0 bytes
    run_length_flip_loop fuel size end (offset + size + 1) bytes'
  | false ↦ ok bytes
]

-- Memory that is not to be modified is copied first.
writable : Pcbytes → Result Pcbytes
writable pcb =
    if pcb.readonly
    then (do copy ← slice pcb.bytes 0 pcb.size; ok (record pcb { bytes = copy; readonly = false }))
    else ok pcb

-- The buffer that is returned, and what the memory of the caller's buffer holds then. The pointers of
-- the loop are taken before the buffer is copied, so the loop goes over the caller's memory, and a
-- copy is returned as it was made.
unfoldable pub run_length_flip_endian : Pcbytes → Result (Pcbytes × List ℕ)
unfolding run_length_flip_loop writable
run_length_flip_endian pcb = do
  size ← interpretation_size pcb.interpretation
  guard (pcb.compression == dim_rle) assertion
  guard (ltb 0 pcb.npoints) assertion
  if ltb size 2 then ok (pcb, pcb.bytes) else (do
    own ← writable pcb
    flipped ← run_length_flip_loop pcb.size size pcb.size 1 pcb.bytes
    ok (if pcb.readonly then own else record own { bytes = flipped }, flipped))

-- The number of bits and the common bits, in one loop.
unfoldable pub sigbits_flip_loop : ℕ → ℕ → ℕ → List ℕ → Result (List ℕ)
unfolding swap_bytes
sigbits_flip_loop zero size n bytes = ok bytes
sigbits_flip_loop (suc rounds) size n bytes = do
  bytes' ← swap_bytes size 0 n bytes
  bytes'' ← swap_bytes size size n bytes'
  sigbits_flip_loop rounds size (n + 1) bytes''

unfoldable pub sigbits_flip_endian : Pcbytes → Result Pcbytes
unfolding sigbits_flip_loop
sigbits_flip_endian pcb = do
  size ← interpretation_size pcb.interpretation
  if ltb size 2 then ok pcb else (do
    bytes ← sigbits_flip_loop (size / 2) size 0 pcb.bytes
    ok (record pcb { bytes = bytes }))

unfoldable pub bytes_flip_endian : Pcbytes → Result Pcbytes
unfolding sigbits_flip_endian run_length_flip_endian
bytes_flip_endian pcb =
    if pcb.readonly
    then fail pcerror
    else if pcb.compression == dim_none
    then ok pcb
    else if pcb.compression == dim_sigbits
    then sigbits_flip_endian pcb
    else if pcb.compression == dim_zlib
    then ok pcb
    else if pcb.compression == dim_rle
    then (do (flipped, memory) ← run_length_flip_endian pcb; ok flipped)
    else fail pcerror
