-- ===== src/Value/Write.antt =====
-- lib/pc_val.c: a double as the bytes of a dimension's value.
use pointcloud.Common.{ℕ, ◌-◌, ◌*◌, ◌^◌, ◌==◌, if◌then◌else◌, List, Option, none, some}
use pointcloud.Common.Result.{Result, fail, pcerror}
use pointcloud.Bytes.Words.{bytes_of}
use pointcloud.Memory.{put_bytes}
use pointcloud.Value.{
  Doubles, pc_int8, pc_uint8, pc_int16, pc_uint16, pc_int32, pc_uint32, pc_int64, pc_uint64,
  pc_double, pc_float,
}

module _ {ℓ} {D : Type ℓ} (doubles : Doubles D) where
  -- The macro `CLAMP`; its warnings are not modelled.
  clamp : D → D → D → D
  clamp v least most =
      if doubles.less most v then most else if doubles.less v least then least else v

  -- An unsigned integer of `k` bytes: `lround` cut to its width.
  unsigned_bytes : ℕ → D → List ℕ
  unfolding clamp
  unsigned_bytes k val =
      bytes_of k (doubles.lround (clamp val (doubles.from_nat 0) (doubles.from_nat (256 ^ k - 1))))

  -- A signed one.
  signed_bytes : ℕ → D → List ℕ
  unfolding clamp
  signed_bytes k val = bytes_of k (
      doubles.lround (
        clamp val (doubles.negate (doubles.from_nat (2 ^ (8 * k - 1))))
          (doubles.from_nat (2 ^ (8 * k - 1) - 1))))

  -- What a case of the `switch` copies.
  unfoldable pub value_bytes : ℕ → D → Option (List ℕ)
  unfolding unsigned_bytes signed_bytes
  value_bytes interpretation val =
      if interpretation == pc_uint8
      then some (unsigned_bytes 1 val)
      else if interpretation == pc_uint16
      then some (unsigned_bytes 2 val)
      else if interpretation == pc_uint32
      then some (unsigned_bytes 4 val)
      else if interpretation == pc_uint64
      then some (unsigned_bytes 8 val)
      else if interpretation == pc_int8
      then some (signed_bytes 1 val)
      else if interpretation == pc_int16
      then some (signed_bytes 2 val)
      else if interpretation == pc_int32
      then some (signed_bytes 4 val)
      else if interpretation == pc_int64
      then some (signed_bytes 8 val)
      else if interpretation == pc_float
      then some (bytes_of 4 (doubles.float_bits val))
      else if interpretation == pc_double
      then some (bytes_of 8 (doubles.double_bits val))
      else none

  -- The memory after the write at `offset`.
  unfoldable pub double_to_ptr : List ℕ → ℕ → ℕ → D → Result (List ℕ)
  unfolding value_bytes
  double_to_ptr memory offset interpretation val = elim (value_bytes interpretation val) [
    | none ↦ fail pcerror
    | some bytes ↦ put_bytes memory offset bytes
  ]
