-- ===== src/Filter.antt =====
-- lib/pc_filter.c: bitmaps of points; and the part of lib/pc_bytes.c that makes a bitmap from a
-- filter on a dimension and keeps the points of a bitmap.
pub mod Bitmap
pub mod Compressed
pub mod Keep
pub mod Count
pub mod Kept
pub mod Commute
use pointcloud.Common.{
  ℕ, zero, suc, ◌+◌, ◌-◌, ◌*◌, ◌/◌, ◌%◌, ◌^◌, Bool, true, false, not, ◌&&◌, ◌==◌, ltb, leb,
  if◌then◌else◌, List, [], ◌∷◌, ◌++◌, length, get_elem?, set, take, drop, replicate, Option, none,
  some,
}
use pointcloud.Common.Result.{
  Result, ok, fail, access, pcerror, out_of_bounds, out_of_fuel, ◌>>=◌, ◌>>◌, counts_to,
}
use pointcloud.Bytes.{
  Pcbytes, contents, interpretation_size, slice, element, u32, dim_none, dim_rle, dim_sigbits,
  dim_zlib, bytes_clone,
}
use pointcloud.Bytes.Codec.{Zlib, bytes_encode, bytes_decode}
use pointcloud.Value.{Doubles, double_from_ptr}

pub data Filtertype : Type 0 where
  pc_gt pc_lt pc_equal pc_between : Filtertype

pub record Pcbitmap : Type 0 where
  pub nset : ℕ
  pub npoints : ℕ
  pub map : List ℕ

unfoldable pub bitmap_new : ℕ → Pcbitmap
bitmap_new npoints = record { nset = 0; npoints = npoints; map = replicate npoints 0 }

-- `nset` is a `uint32_t`.
unfoldable pub bitmap_set : Pcbitmap → ℕ → Bool → Result Pcbitmap
bitmap_set map i val = do
  curval ← access (get_elem? map.map i)
  let set_more = if val && curval == 0 then u32 (map.nset + 1) else map.nset
  let nset = if not val && not (curval == 0) then u32 (set_more + (2 ^ 32 - 1)) else set_more
  ok (record map { nset = nset; map = set map.map i (if val then 1 else 0) })

-- `pc_bitmap_get`, as a truth value.
unfoldable pub bitmap_get : Pcbitmap → ℕ → Result Bool
bitmap_get map i = do val ← access (get_elem? map.map i); ok (not (val == 0))

pub record Pcdoublestat {ℓ} (D : Type ℓ) : Type ℓ where
  pub min : D
  pub max : D
  pub sum : D

-- `written` at the start of the copy's memory.
unfoldable pub overwrite : Pcbytes → List ℕ → ℕ → Result Pcbytes
overwrite fpcb written npoints =
    if leb (length written) (length fpcb.bytes)
    then ok (record fpcb {
      bytes = written ++ drop (length written) fpcb.bytes;
      size = length written;
      npoints = npoints;
    })
    else fail out_of_bounds

-- `for (j = i; j < i + count; j++)`, with `rounds` left; `fcount` is a `uint8_t`.
unfoldable pub count_kept : ℕ → Pcbitmap → ℕ → ℕ → Result ℕ
unfolding bitmap_get
count_kept zero map j fcount = ok fcount
count_kept (suc rounds) map j fcount = do
  kept ← bitmap_get map j
  count_kept rounds map (j + 1) (if kept then (fcount + 1) % 256 else fcount)

module _ {ℓ} {D : Type ℓ} (doubles : Doubles D) where
  unfoldable pub passes : Filtertype → D → D → D → Bool
  passes pc_gt d val1 val2 = doubles.less val1 d
  passes pc_lt d val1 val2 = doubles.less d val1
  passes pc_equal d val1 val2 = doubles.equal d val1
  passes pc_between d val1 val2 = doubles.less val1 d && doubles.less d val2

  unfoldable pub bitmap_filter : Pcbitmap → Filtertype → ℕ → D → D → D → Result Pcbitmap
  unfolding passes bitmap_set
  bitmap_filter map filter i d val1 val2 = bitmap_set map i (passes filter d val1 val2)

  -- `while (i < run)`, with `rounds` left.
  unfoldable pub filter_run : ℕ → Filtertype → ℕ → D → D → D → Pcbitmap → Result Pcbitmap
  unfolding bitmap_filter
  filter_run zero filter i d val1 val2 map = ok map
  filter_run (suc rounds) filter i d val1 val2 map = do
    map' ← bitmap_filter map filter i d val1 val2
    filter_run rounds filter (i + 1) d val1 val2 map'

  -- `while (ptr < ptr_end)`: the entries of a run-length encoded buffer that are left.
  unfoldable pub run_length_bitmap_loop :
      ℕ → ℕ → ℕ → Filtertype → D → D → List ℕ → ℕ → Pcbitmap → Result Pcbitmap
  unfolding double_from_ptr filter_run
  run_length_bitmap_loop fuel size interp filter val1 val2 [] i map = ok map
  run_length_bitmap_loop zero size interp filter val1 val2 (count ∷ rest) i map = fail out_of_fuel
  run_length_bitmap_loop (suc fuel) size interp filter val1 val2 (count ∷ rest) i map = do
    value ← slice rest 0 size
    d ← double_from_ptr doubles value interp
    map' ← filter_run count filter i d val1 val2 map
    run_length_bitmap_loop fuel size interp filter val1 val2 (drop size rest) (i + count) map'

  unfoldable pub run_length_bitmap : Pcbytes → Filtertype → D → D → Result Pcbitmap
  unfolding run_length_bitmap_loop bitmap_new
  run_length_bitmap pcb filter val1 val2 = do
    size ← interpretation_size pcb.interpretation
    run_length_bitmap_loop pcb.size size pcb.interpretation filter val1 val2 (contents pcb) 0
        (bitmap_new pcb.npoints)

  unfoldable pub uncompressed_bitmap_loop :
      ℕ → ℕ → ℕ → Filtertype → D → D → List ℕ → ℕ → Pcbitmap → Result Pcbitmap
  unfolding double_from_ptr bitmap_filter
  uncompressed_bitmap_loop zero size interp filter val1 val2 bytes i map = ok map
  uncompressed_bitmap_loop (suc rounds) size interp filter val1 val2 bytes i map = do
    value ← element size bytes i
    d ← double_from_ptr doubles value interp
    map' ← bitmap_filter map filter i d val1 val2
    uncompressed_bitmap_loop rounds size interp filter val1 val2 bytes (i + 1) map'

  unfoldable pub uncompressed_bitmap : Pcbytes → Filtertype → D → D → Result Pcbitmap
  unfolding uncompressed_bitmap_loop bitmap_new
  uncompressed_bitmap pcb filter val1 val2 = do
    size ← interpretation_size pcb.interpretation
    uncompressed_bitmap_loop pcb.npoints size pcb.interpretation filter val1 val2 pcb.bytes 0
        (bitmap_new pcb.npoints)

  unfoldable pub bytes_bitmap : Zlib → Pcbytes → Filtertype → D → D → Result Pcbitmap
  unfolding run_length_bitmap uncompressed_bitmap
  bytes_bitmap zlib pcb filter val1 val2 =
      if pcb.compression == dim_none
      then uncompressed_bitmap pcb filter val1 val2
      else if pcb.compression == dim_sigbits
      then (do dpcb ← bytes_decode zlib pcb; uncompressed_bitmap dpcb filter val1 val2)
      else if pcb.compression == dim_zlib
      then (do dpcb ← bytes_decode zlib pcb; uncompressed_bitmap dpcb filter val1 val2)
      else if pcb.compression == dim_rle
      then run_length_bitmap pcb filter val1 val2
      else fail pcerror

  unfoldable pub update_stats : Pcdoublestat D → D → Pcdoublestat D
  update_stats stats d = record {
    min = if doubles.less d stats.min then d else stats.min;
    max = if doubles.less stats.max d then d else stats.max;
    sum = doubles.add stats.sum d;
  }

  -- The statistics are updated unless their pointer is null.
  unfoldable pub update_stats? :
      Option (Pcdoublestat D) → List ℕ → ℕ → Result (Option (Pcdoublestat D))
  unfolding update_stats double_from_ptr
  update_stats? none value interp = ok none
  update_stats? (some stats) value interp = do
    d ← double_from_ptr doubles value interp
    ok (some (update_stats stats d))

  -- What the loop writes, the number of points in it, and the statistics.
  unfoldable pub uncompressed_filter_loop :
      ℕ
      → ℕ
      → ℕ
      → List ℕ
      → Pcbitmap
      → ℕ
      → Option (Pcdoublestat D)
      → Result (List ℕ × ℕ × Option (Pcdoublestat D))
  unfolding bitmap_get update_stats?
  uncompressed_filter_loop zero size interp bytes map i stats = ok ([], 0, stats)
  uncompressed_filter_loop (suc rounds) size interp bytes map i stats = do
    kept ← bitmap_get map i
    elim kept [
      | true ↦ do
        value ← element size bytes i
        stats' ← update_stats? stats value interp
        (written, j, stats'') ← uncompressed_filter_loop rounds size interp bytes map (i + 1) stats'
        ok (value ++ written, j + 1, stats'')
      | false ↦ uncompressed_filter_loop rounds size interp bytes map (i + 1) stats
    ]

  unfoldable pub uncompressed_filter :
      Pcbytes → Pcbitmap → Option (Pcdoublestat D) → Result (Pcbytes × Option (Pcdoublestat D))
  unfolding uncompressed_filter_loop overwrite
  uncompressed_filter pcb map stats = do
    copy ← bytes_clone pcb
    size ← interpretation_size pcb.interpretation
    counts_to pcb.npoints
    (written, j, stats') ←
        uncompressed_filter_loop pcb.npoints size pcb.interpretation pcb.bytes map 0 stats
    fpcb ← overwrite copy written j
    ok (fpcb, stats')

  unfoldable pub run_length_filter_loop :
      ℕ
      → ℕ
      → ℕ
      → List ℕ
      → Pcbitmap
      → ℕ
      → Option (Pcdoublestat D)
      → Result (List ℕ × ℕ × Option (Pcdoublestat D))
  unfolding count_kept update_stats?
  run_length_filter_loop fuel size interp [] map i stats = ok ([], 0, stats)
  run_length_filter_loop zero size interp (count ∷ rest) map i stats = fail out_of_fuel
  run_length_filter_loop (suc fuel) size interp (count ∷ rest) map i stats = do
    counts_to (i + count)
    fcount ← count_kept count map i 0
    elim (fcount == 0) [
      | true ↦ run_length_filter_loop fuel size interp (drop size rest) map (i + count) stats
      | false ↦ do
        value ← slice rest 0 size
        stats' ← update_stats? stats value interp
        (written, npoints, stats'') ←
            run_length_filter_loop fuel size interp (drop size rest) map (i + count) stats'
        ok (fcount ∷ (value ++ written), npoints + fcount, stats'')
    ]

  unfoldable pub run_length_filter :
      Pcbytes → Pcbitmap → Option (Pcdoublestat D) → Result (Pcbytes × Option (Pcdoublestat D))
  unfolding run_length_filter_loop overwrite
  run_length_filter pcb map stats = do
    copy ← bytes_clone pcb
    size ← interpretation_size pcb.interpretation
    (written, npoints, stats') ←
        run_length_filter_loop pcb.size size pcb.interpretation (contents pcb) map 0 stats
    fpcb ← overwrite copy written npoints
    ok (fpcb, stats')

  unfoldable pub bytes_filter :
      Zlib
      → Pcbytes
      → Pcbitmap
      → Option (Pcdoublestat D)
      → Result (Pcbytes × Option (Pcdoublestat D))
  unfolding uncompressed_filter run_length_filter
  bytes_filter zlib pcb map stats =
      let recoded = (do
        dpcb ← bytes_decode zlib pcb
        (fpcb, stats') ← uncompressed_filter dpcb map stats
        efpcb ← bytes_encode zlib fpcb pcb.compression
        ok (efpcb, stats')) in
      if pcb.compression == dim_none
      then uncompressed_filter pcb map stats
      else if pcb.compression == dim_rle
      then run_length_filter pcb map stats
      else if pcb.compression == dim_sigbits
      then recoded
      else if pcb.compression == dim_zlib
      then recoded
      else fail pcerror
