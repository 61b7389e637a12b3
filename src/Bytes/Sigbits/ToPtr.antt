-- ===== src/Bytes/Sigbits/ToPtr.antt =====
-- lib/pc_bytes.c: `pc_bytes_sigbits_to_ptr` on what `pc_bytes_sigbits_encode` writes.
use pointcloud.Common.{ℕ, ◌*◌, ◌^◌, ◌<◌, ◌≡◌, refl, true, arith}
use pointcloud.Common.Result.{◌>>=◌}
use pointcloud.Bytes.{Pcbytes, uncompressed_to_ptr}
use pointcloud.Bytes.Valid.{IsRaw}
use pointcloud.Bytes.Sigbits.{
  sigbits_count_8, sigbits_count_16, sigbits_count_32, sigbits_count_64, sigbits_encode_8,
  sigbits_encode_16, sigbits_encode_32, sigbits_encode_64, sigbits_encode, size_out_8, size_out_16,
  size_out_32, size_out_64,
}
use pointcloud.Bytes.Sigbits.Decode.{
  sigbits_to_ptr_8, sigbits_to_ptr_16, sigbits_to_ptr_32, sigbits_to_ptr_64, sigbits_to_ptr,
}
use pointcloud.Bytes.Sigbits.Lossless.{
  Width, size_of, bytes_1, bytes_2, bytes_4, bytes_8, restore, room_8, room_16, room_32, room_64,
}

-- Reading point `i` of the encoded buffer gives what reading it from the buffer does, for an
-- uncompressed buffer of points of 1, 2, 4 or 8 bytes each with fewer than 2^32 bits, as long as the
-- point has fewer bits before it than a word of its size can count.
pub sigbits_to_ptr-encode :
    (width : Width) (pcb : Pcbytes) (i : ℕ)
    → IsRaw (size_of width) pcb
    → i < pcb.npoints
    → 8 * size_of width * pcb.npoints < 2 ^ 32
    → i * (8 * size_of width) < 2 ^ (8 * size_of width)
    → (sigbits_encode pcb >>= λ e. sigbits_to_ptr e i) ≡ uncompressed_to_ptr pcb i
unfolding sigbits_encode sigbits_encode_8 sigbits_encode_16 sigbits_encode_32 sigbits_encode_64
    sigbits_count_8 sigbits_count_16 sigbits_count_32 sigbits_count_64 sigbits_to_ptr
    sigbits_to_ptr_8 sigbits_to_ptr_16 sigbits_to_ptr_32 sigbits_to_ptr_64 uncompressed_to_ptr
sigbits_to_ptr-encode bytes_1 pcb i raw lt small fits =
    let r =
      restore 8 1 pcb raw refl true size_out_8 _ refl (omega arith) (omega arith) (omega arith)
        (omega arith) (room_8 pcb.npoints small) in
    rw (raw.size_of, r.counts, r.encodes, r.keeps, raw.size_of)
      (r.reads_at refl (omega arith) i lt fits)
sigbits_to_ptr-encode bytes_2 pcb i raw lt small fits =
    let r =
      restore 16 2 pcb raw refl true size_out_16 _ refl (omega arith) (omega arith) (omega arith)
        (omega arith) (room_16 pcb.npoints small) in
    rw (raw.size_of, r.counts, r.encodes, r.keeps, raw.size_of)
      (r.reads_at refl (omega arith) i lt fits)
sigbits_to_ptr-encode bytes_4 pcb i raw lt small fits =
    let r =
      restore 32 4 pcb raw refl true size_out_32 _ refl (omega arith) (omega arith) (omega arith)
        (omega arith) (room_32 pcb.npoints small) in
    rw (raw.size_of, r.counts, r.encodes, r.keeps, raw.size_of)
      (r.reads_at refl (omega arith) i lt fits)
sigbits_to_ptr-encode bytes_8 pcb i raw lt small fits =
    let r =
      restore 64 8 pcb raw refl true size_out_64 _ refl (omega arith) (omega arith) (omega arith)
        (omega arith) (room_64 pcb.npoints small) in
    rw (raw.size_of, r.counts, r.encodes, r.keeps, raw.size_of)
      (r.reads_at refl (omega arith) i lt fits)
