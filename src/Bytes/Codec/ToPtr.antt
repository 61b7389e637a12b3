-- ===== src/Bytes/Codec/ToPtr.antt =====
-- lib/pc_bytes.c: `pc_bytes_to_ptr` on the output of `pc_bytes_encode`.
use pointcloud.Common.{ℕ, ◌*◌, ◌^◌, ◌<◌, ◌≤◌, ◌≡◌, refl, arith}
use pointcloud.Common.Result.{◌>>=◌}
use pointcloud.Bytes.{Pcbytes, uncompressed_to_ptr}
use pointcloud.Bytes.Valid.{IsRaw}
use pointcloud.Bytes.Rle.Encode.{run_length_encode_lem}
use pointcloud.Bytes.Rle.RoundTrip.{run_length_to_ptr-encode}
use pointcloud.Bytes.Sigbits.Lossless.{Width, size_of, few_points, sigbits_encode-Undone}
use pointcloud.Bytes.Sigbits.ToPtr.{sigbits_to_ptr-encode}
use pointcloud.Bytes.Codec.{Zlib, ZlibLaws, bytes_encode, bytes_decode, zlib_to_ptr, bytes_to_ptr}
use pointcloud.Bytes.Codec.RoundTrip.{
  Compression, number, none_of, rle, sigbits, zlib_of, bytes_clone-raw, zlib_encode-Undone,
}

-- Whatever the compression, reading a point of the encoded buffer gives what reading it from the
-- buffer does. The buffer is uncompressed, of points of 1, 2, 4 or 8 bytes each and fewer than 2^32
-- bits; the point has fewer bits before it than a word of its size can count; for zlib its stream
-- fits in four times the buffer's size.
pub bytes_to_ptr-encode :
    (zlib : Zlib) (bound : ℕ → ℕ)
    → ZlibLaws zlib bound
    → (width : Width) (pcb : Pcbytes) (compression : Compression) (i : ℕ)
    → IsRaw (size_of width) pcb
    → i < pcb.npoints
    → 8 * size_of width * pcb.npoints < 2 ^ 32
    → i * (8 * size_of width) < 2 ^ (8 * size_of width)
    → bound pcb.size ≤ 4 * pcb.size
    → (bytes_encode zlib pcb (number compression) >>= λ e. bytes_to_ptr zlib e i)
      ≡ uncompressed_to_ptr pcb i
unfolding bytes_encode bytes_decode bytes_to_ptr zlib_to_ptr uncompressed_to_ptr
bytes_to_ptr-encode zlib bound laws width pcb none_of i raw lt small fits space =
    rw (bytes_clone-raw (size_of width) pcb raw, raw.uncompressed) refl
bytes_to_ptr-encode zlib bound laws width pcb rle i raw lt small fits space =
    let few = few_points width pcb.npoints small in
    rw (run_length_encode_lem (size_of width) pcb raw few) (
      rw (run_length_encode_lem (size_of width) pcb raw few) at
        (run_length_to_ptr-encode (size_of width) pcb i raw lt few))
bytes_to_ptr-encode zlib bound laws width pcb sigbits i raw lt small fits space =
    let u = sigbits_encode-Undone width pcb raw (omega arith) small in
    rw (u.encodes, u.form) (rw u.encodes at (sigbits_to_ptr-encode width pcb i raw lt small fits))
bytes_to_ptr-encode zlib bound laws width pcb zlib_of i raw lt small fits space =
    let u = zlib_encode-Undone (size_of width) pcb raw zlib bound laws space (omega arith) in
    rw (u.encodes, u.form, u.decodes) refl
