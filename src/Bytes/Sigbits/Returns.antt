-- ===== src/Bytes/Sigbits/Returns.antt =====
-- lib/pc_bytes.c: `pc_bytes_sigbits_count` reads within the buffer, and its loop ends.
use pointcloud.Common.{ℕ, ◌*◌, ◌^◌, ◌≤◌, ◌<◌, ◌≡◌, refl, true, false, arith}
use pointcloud.Common.Result.{ok}
use pointcloud.Bytes.{Pcbytes}
use pointcloud.Bytes.Valid.{IsRaw}
use pointcloud.Bytes.Sigbits.{
  sigbits_count_8, sigbits_count_16, sigbits_count_32, sigbits_count_64, sigbits_count, size_out_8,
  size_out_16, size_out_32, size_out_64,
}
use pointcloud.Bytes.Sigbits.Lossless.{
  Width, bytes_1, bytes_2, bytes_4, bytes_8, size_of, restore, room_8, room_16, room_32, room_64,
}

pub sigbits_count_returns :
    (width : Width) (pcb : Pcbytes)
    → IsRaw (size_of width) pcb
    → 1 ≤ pcb.npoints
    → 8 * size_of width * pcb.npoints < 2 ^ 32
    → (n : ℕ) × (sigbits_count pcb ≡ ok n)
unfolding sigbits_count sigbits_count_8 sigbits_count_16 sigbits_count_32 sigbits_count_64
sigbits_count_returns bytes_1 pcb raw nonempty small =
    let r =
      restore 8 1 pcb raw refl false size_out_8 _ refl (omega arith) (omega arith) nonempty
        (omega arith) (room_8 pcb.npoints small) in
    (r.commonbits, rw (raw.size_of, r.counts))
sigbits_count_returns bytes_2 pcb raw nonempty small =
    let r =
      restore 16 2 pcb raw refl true size_out_16 _ refl (omega arith) (omega arith) nonempty
        (omega arith) (room_16 pcb.npoints small) in
    (r.commonbits, rw (raw.size_of, r.counts))
sigbits_count_returns bytes_4 pcb raw nonempty small =
    let r =
      restore 32 4 pcb raw refl true size_out_32 _ refl (omega arith) (omega arith) nonempty
        (omega arith) (room_32 pcb.npoints small) in
    (r.commonbits, rw (raw.size_of, r.counts))
sigbits_count_returns bytes_8 pcb raw nonempty small =
    let r =
      restore 64 8 pcb raw refl true size_out_64 _ refl (omega arith) (omega arith) nonempty
        (omega arith) (room_64 pcb.npoints small) in
    (r.commonbits, rw (raw.size_of, r.counts))
