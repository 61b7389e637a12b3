-- ===== src/Wkb.antt =====
-- lib/pc_util.c: integers in serialized data and the order of their bytes. The host is
-- little-endian, so `machine_endian` is 1.
pub mod Swap
pub mod Hex
use pointcloud.Common.{
  ℕ, zero, suc, ◌+◌, ◌-◌, ◌*◌, ◌/◌, ◌%◌, ◌^◌, Bool, true, false, not, ◌==◌, ltb, if◌then◌else◌,
  List, [], ◌∷◌, ◌++◌, length, get_elem?, set, take, drop,
}
use pointcloud.Common.Result.{Result, ok, fail, access, ◌>>=◌}
use pointcloud.Bytes.{slice}
use pointcloud.Bytes.Words.{word_of, bytes_of}

-- `b[n]` and `b[size - n - 1]` change places, where `b` starts at `offset`.
unfoldable pub swap_bytes : ℕ → ℕ → ℕ → List ℕ → Result (List ℕ)
swap_bytes size offset n bytes = do
  tmp ← access (get_elem? bytes (offset + n))
  other ← access (get_elem? bytes (offset + (size - n - 1)))
  ok (set (set bytes (offset + n) other) (offset + (size - n - 1)) tmp)

-- `for (n = 0; n < size / 2; n++)`, with `rounds` left.
unfoldable pub swap_loop : ℕ → ℕ → ℕ → ℕ → List ℕ → Result (List ℕ)
unfolding swap_bytes
swap_loop zero size offset n bytes = ok bytes
swap_loop (suc rounds) size offset n bytes = do
  bytes' ← swap_bytes size offset n bytes
  swap_loop rounds size offset (n + 1) bytes'

unfoldable pub int32_flip_endian : ℕ → Result ℕ
unfolding swap_loop
int32_flip_endian val = do b ← swap_loop 2 4 0 0 (bytes_of 4 val); ok (word_of b)

unfoldable pub int16_flip_endian : ℕ → Result ℕ
unfolding swap_bytes
int16_flip_endian val = do b ← swap_bytes 2 0 0 (bytes_of 2 val); ok (word_of b)

-- The 32 bits of the number.
unfoldable pub wkb_get_int32 : List ℕ → Bool → Result ℕ
unfolding int32_flip_endian
wkb_get_int32 wkb flip_endian = do
  i ← slice wkb 0 4
  if flip_endian then int32_flip_endian (word_of i) else ok (word_of i)

unfoldable pub wkb_get_int16 : List ℕ → Bool → Result ℕ
unfolding int16_flip_endian
wkb_get_int16 wkb flip_endian = do
  i ← slice wkb 0 2
  if flip_endian then int16_flip_endian (word_of i) else ok (word_of i)

abbrev pub machine_endian : ℕ
machine_endian = 1

-- The number at an offset of data that starts with its endianness.
unfoldable pub wkb_get_field : ℕ → List ℕ → Result ℕ
unfolding int32_flip_endian
wkb_get_field offset wkb = do
  field ← slice wkb offset 4
  endian ← access (get_elem? wkb 0)
  if not (endian == machine_endian) then int32_flip_endian (word_of field) else ok (word_of field)

unfoldable pub wkb_get_pcid : List ℕ → Result ℕ
unfolding wkb_get_field
wkb_get_pcid = wkb_get_field 1

unfoldable pub wkb_get_compression : List ℕ → Result ℕ
unfolding wkb_get_field
wkb_get_compression = wkb_get_field (1 + 4)

unfoldable pub wkb_get_npoints : List ℕ → Result ℕ
unfolding wkb_get_field
wkb_get_npoints = wkb_get_field (1 + 4 + 4)

-- An `int32_t` as a `size_t`.
abbrev pub size_of_int32 : ℕ → ℕ
size_of_int32 v = if ltb v (2 ^ 31) then v else v + (2 ^ 64 - 2 ^ 32)
