-- ===== src/Bytes/Serial.antt =====
-- lib/pc_bytes.c: one dimension in a serialized patch: a byte for the compression, four for the
-- size, and the contents.
pub mod RoundTrip
use pointcloud.Common.{
  ℕ, ◌+◌, ◌-◌, ◌%◌, ◌^◌, Bool, true, false, ◌&&◌, ltb, if◌then◌else◌, List, ◌∷◌, ◌++◌, length,
  get_elem?, drop,
}
use pointcloud.Common.Result.{Result, ok, fail, access, guard, pcerror, ◌>>=◌, ◌>>◌}
use pointcloud.Bytes.{Pcbytes, slice}
use pointcloud.Bytes.Words.{bytes_of}
use pointcloud.Bytes.Flip.{bytes_flip_endian}
use pointcloud.Wkb.{wkb_get_int32, size_of_int32}

unfoldable pub serialized_size : Pcbytes → ℕ
serialized_size pcb = (1 + 4 + pcb.size) % 2 ^ 64

-- What is written, and the size that is returned, for which `pcb->size` is cut to an `int32_t`.
unfoldable pub bytes_serialize : Pcbytes → Result (List ℕ × ℕ)
bytes_serialize pcb = do
  let pcbsize = pcb.size % 2 ^ 32
  data_of ← slice pcb.bytes 0 pcb.size
  ok (
    pcb.compression % 256 ∷ (bytes_of 4 pcbsize ++ data_of),
    (1 + 4 + size_of_int32 pcbsize) % 2 ^ 64,
  )

-- `pcb` is what the structure holds before. A read-only buffer lies in the input.
unfoldable pub bytes_deserialize : List ℕ → ℕ → Pcbytes → Bool → Bool → Result Pcbytes
bytes_deserialize buf dim_interpretation pcb readonly flip_endian = do
  compression ← access (get_elem? buf 0)
  int_size ← wkb_get_int32 (drop 1 buf) flip_endian
  let size = size_of_int32 int_size
  guard (if readonly && flip_endian then false else true) pcerror
  filled ←
      (if readonly
        then ok (record pcb {
          compression = compression;
          size = size;
          readonly = readonly;
          bytes = drop 5 buf;
        })
        else do
          copy ← slice buf 5 size
          let own : Pcbytes = record pcb {
            compression = compression;
            size = size;
            readonly = readonly;
            bytes = copy;
          }
          if flip_endian then bytes_flip_endian own else ok own)
  ok (record filled { interpretation = dim_interpretation })
