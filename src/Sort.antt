-- ===== src/Sort.antt =====
-- lib/pc_sort.c: comparing values of a dimension, and whether a byte buffer is sorted.
pub mod Raw
pub mod Runs
use pointcloud.Common.{
  ℕ, zero, suc, ◌+◌, ◌-◌, Bool, true, false, not, ◌&&◌, ◌||◌, ◌==◌, ltb, if◌then◌else◌, List,
  get_elem?,
}
use pointcloud.Common.Result.{Result, ok, fail, access, guard, assertion, out_of_fuel, ◌>>=◌, ◌>>◌}
use pointcloud.Bytes.{Pcbytes, interpretation_size, slice, dim_none, dim_rle, dim_sigbits, dim_zlib}
use pointcloud.Bytes.Codec.{Zlib, bytes_decode}
use pointcloud.Value.{Doubles, double_from_ptr}

-- The `int` -1, 0 or 1 of a comparison.
pub data Compared : Type 0 where
  below same above : Compared

-- `cmp >= strict`, where `strict` is 0 or 1.
unfoldable pub at_least : Compared → Bool → Bool
at_least below strict = false
at_least same strict = not strict
at_least above strict = true

module _ {ℓ} {D : Type ℓ} (doubles : Doubles D) where
  -- `(da > db) - (da < db)`
  unfoldable pub difference : D → D → Compared
  difference da db = elim (doubles.less db da) [
    | true ↦ if doubles.less da db then same else above
    | false ↦ if doubles.less da db then below else same
  ]

  unfoldable pub compare_pcb : List ℕ → List ℕ → ℕ → Result Compared
  unfolding difference double_from_ptr
  compare_pcb a b interpretation = do
    da ← double_from_ptr doubles a interpretation
    db ← double_from_ptr doubles b interpretation
    ok (difference da db)

  -- `while (buf < last)`, where `buf` is at `offset` and `last` is one value before the end.
  unfoldable pub uncompressed_is_sorted_loop : ℕ → ℕ → ℕ → ℕ → List ℕ → Bool → ℕ → Result Bool
  unfolding compare_pcb at_least
  uncompressed_is_sorted_loop zero size interp end bytes strict offset =
      if ltb (offset + size) end then fail out_of_fuel else ok true
  uncompressed_is_sorted_loop (suc fuel) size interp end bytes strict offset =
      elim (ltb (offset + size) end) [
        | true ↦ do
          a ← slice bytes offset size
          b ← slice bytes (offset + size) size
          cmp ← compare_pcb a b interp
          elim (at_least cmp strict) [
            | true ↦ ok false
            | false ↦ uncompressed_is_sorted_loop fuel size interp end bytes strict (offset + size)
          ]
        | false ↦ ok true
      ]

  unfoldable pub uncompressed_is_sorted : Pcbytes → Bool → Result Bool
  unfolding uncompressed_is_sorted_loop
  uncompressed_is_sorted pcb strict = do
    guard (pcb.compression == dim_none) assertion
    size ← interpretation_size pcb.interpretation
    uncompressed_is_sorted_loop pcb.size size pcb.interpretation pcb.size pcb.bytes strict 0

  unfoldable pub sigbits_is_sorted : Zlib → Pcbytes → Bool → Result Bool
  unfolding uncompressed_is_sorted
  sigbits_is_sorted zlib pcb strict = do
    guard (pcb.compression == dim_sigbits) assertion
    dpcb ← bytes_decode zlib pcb
    uncompressed_is_sorted dpcb strict

  unfoldable pub zlib_is_sorted : Zlib → Pcbytes → Bool → Result Bool
  unfolding uncompressed_is_sorted
  zlib_is_sorted zlib pcb strict = do
    guard (pcb.compression == dim_zlib) assertion
    dpcb ← bytes_decode zlib pcb
    uncompressed_is_sorted dpcb strict

  -- `while (bytes_rle_next_val < bytes_rle_end_val)`: the current value is at `curr`, the next one
  -- behind it and its count, and the end value is the last one.
  unfoldable pub run_length_is_sorted_loop : ℕ → ℕ → ℕ → ℕ → List ℕ → Bool → ℕ → Result Bool
  unfolding compare_pcb at_least
  run_length_is_sorted_loop zero size interp end bytes strict curr =
      if ltb (curr + 1 + size + size) end then fail out_of_fuel else ok true
  run_length_is_sorted_loop (suc fuel) size interp end bytes strict curr =
      elim (ltb (curr + 1 + size + size) end) [
        | true ↦ do
          run ← access (get_elem? bytes (curr - 1))
          guard (ltb 0 run) assertion
          a ← slice bytes curr size
          b ← slice bytes (curr + 1 + size) size
          cmp ← compare_pcb a b interp
          elim (at_least cmp strict || (strict && ltb 1 run)) [
            | true ↦ ok false
            | false ↦ run_length_is_sorted_loop fuel size interp end bytes strict (curr + 1 + size)
          ]
        | false ↦ ok true
      ]

  unfoldable pub run_length_is_sorted : Pcbytes → Bool → Result Bool
  unfolding run_length_is_sorted_loop
  run_length_is_sorted pcb strict = do
    guard (pcb.compression == dim_rle) assertion
    size ← interpretation_size pcb.interpretation
    run_length_is_sorted_loop pcb.size size pcb.interpretation pcb.size pcb.bytes strict 1
