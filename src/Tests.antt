-- ===== src/Tests.antt =====
-- Runs of the definitions for lib/pc_bytes.c, lib/pc_filter.c and lib/pc_util.c on small buffers, and
-- the theorems about them at these buffers.
mod Schemas
mod Points
mod Patches
mod Dimensional
mod Dispatch
use mathlib.Core.List.{flatten}
use pointcloud.Samples.{naturals}
use pointcloud.Common.{set, ◌^◌}
use pointcloud.Common.{
  ℕ, ◌+◌, ◌-◌, ◌*◌, ◌/◌, ◌≤◌, ◌≡◌, refl, sym, ap, ◌∙◌, Bool, true, false, ◌==◌, ltb, List, [], ◌∷◌,
  ◌++◌, length, take, All, arith, some, none, take-length,
}
use pointcloud.Samples.{stored, stored_laws}
use pointcloud.Common.Result.{ok, ◌>>=◌}
use pointcloud.Bytes.{
  Pcbytes, contents, dim_none, dim_rle, interpretation_size, uncompressed_to_ptr,
}
use pointcloud.Bytes.Valid.{IsRaw}
use pointcloud.Bytes.Rle.{run_length_encode, run_length_decode, run_length_to_ptr}
use pointcloud.Bytes.Rle.Runs.{Run, IsRun, entries, expand, total}
use pointcloud.Bytes.Rle.Decode.{IsRle, run_length_decode-IsRle}
use pointcloud.Bytes.Rle.RoundTrip.{
  run_length_decode-encode, run_length_to_ptr-encode, run_length_encode_fits,
}
use pointcloud.Bytes.Words.{words_in}
use pointcloud.Bytes.Sigbits.{sigbits_encode, sigbits_count_word}
use pointcloud.Bytes.Sigbits.Decode.{sigbits_decode}
use pointcloud.Bytes.Sigbits.Count.{IsCommon, sigbits_count_word-IsCommon}
use pointcloud.Bytes.Sigbits.Lossless.{bytes_2, sigbits_decode-encode}
use pointcloud.Bytes.Codec.{bytes_encode, bytes_decode}
use pointcloud.Bytes.Codec.RoundTrip.{number, sigbits, rle, bytes_decode-encode}
use pointcloud.Bytes.Flip.{run_length_flip_endian}
use pointcloud.Bytes.Flip.Runs.{IsFull, flip_runs, run_length_flip_endian-flip_runs}
use pointcloud.Bytes.Serial.{bytes_serialize, bytes_deserialize, serialized_size}
use pointcloud.Bytes.Serial.RoundTrip.{bytes_deserialize-serialize}
use pointcloud.Filter.{
  Pcbitmap, pc_gt, uncompressed_bitmap, bytes_bitmap, uncompressed_filter, run_length_filter,
}
use pointcloud.Filter.Bitmap.{count_true}
use pointcloud.Filter.Compressed.{bytes_bitmap-encode}
use pointcloud.Filter.Commute.{run_length_filter-encode}
use pointcloud.Bytes.Codec.{bytes_to_ptr}
use pointcloud.Bytes.Codec.ToPtr.{bytes_to_ptr-encode}
use pointcloud.Bytes.Rle.Encode.{values}
use pointcloud.Minmax.{bytes_minmax, uncompressed_minmax}
use pointcloud.Minmax.Range.{range, bytes_minmax-encode}
use pointcloud.Sort.{uncompressed_is_sorted, sigbits_is_sorted, run_length_is_sorted}
use pointcloud.Sort.Raw.{
  pairs_sorted, uncompressed_is_sorted-pairs_sorted, sigbits_is_sorted-encode,
}
use pointcloud.Sort.Runs.{runs_sorted, run_length_is_sorted-runs_sorted}
use pointcloud.Wkb.Hex.{bytes_from_hexbytes, hexbytes_from_bytes}
use pointcloud.Wkb.Hex.RoundTrip.{bytes_from_hexbytes-hexbytes}
use pointcloud.Filter.{bitmap_set}
use pointcloud.Filter.Count.{IsBitmap, bitmap_set-IsBitmap}
use pointcloud.Bytes.Sigbits.Decode.{sigbits_to_ptr_word}
use pointcloud.Bytes.{dim_sigbits}
use pointcloud.Bytes.Sigbits.Wrap.{sigbits_to_ptr_word-wraps}
use pointcloud.Wkb.{swap_loop}
use pointcloud.Wkb.Swap.{reversed, swap_loop-reversed}

-- Four points of a `uint16_t` dimension.
abbrev points : Pcbytes
points = record {
  size = 8;
  npoints = 4;
  interpretation = 4;
  compression = dim_none;
  readonly = true;
  bytes = 1 ∷ 2 ∷ 1 ∷ 2 ∷ 5 ∷ 2 ∷ 7 ∷ 3 ∷ [];
}

points-IsRaw : IsRaw 2 points
unfolding interpretation_size
points-IsRaw = record {
  size_of = refl;
  wide = omega arith;
  uncompressed = refl;
  filled = refl;
  allocated = refl;
  narrow = (
    omega arith,
    (
      omega arith,
      (omega arith, (omega arith, (omega arith, (omega arith, (omega arith, (omega arith, tt)))))),
    ),
  );
  small = omega arith;
}

sigbits_decode-encode_example :
    (sigbits_encode points >>= sigbits_decode) ≡ ok (record points { readonly = false })
sigbits_decode-encode_example =
    sigbits_decode-encode bytes_2 points points-IsRaw (omega arith) (omega arith)

run_length_decode-encode_example :
    (run_length_encode points >>= run_length_decode) ≡ ok (record points { readonly = false })
run_length_decode-encode_example = run_length_decode-encode 2 points points-IsRaw (omega arith)

run_length_to_ptr-encode_example :
    (run_length_encode points >>= λ e. run_length_to_ptr e 2) ≡ uncompressed_to_ptr points 2
run_length_to_ptr-encode_example =
    run_length_to_ptr-encode 2 points 2 points-IsRaw (omega arith) (omega arith)

run_length_encode_fits_example :
    (e : Pcbytes) × (rs : List Run) × (run_length_encode points ≡ ok e)
    × (e.bytes ≡ entries rs)
    × (e.size ≡ length e.bytes)
    × All (IsRun 2) rs
    × (total rs ≡ 4)
    × (length e.bytes ≤ 4 * 2 + 4)
run_length_encode_fits_example = run_length_encode_fits 2 points points-IsRaw (omega arith)

-- Two runs: 300 twice and 5 once.
abbrev runs : List Run
runs = (2, 44 ∷ 1 ∷ []) ∷ (1, 5 ∷ 0 ∷ []) ∷ []

abbrev coded : Pcbytes
coded = record {
  size = 6;
  npoints = 3;
  interpretation = 4;
  compression = dim_rle;
  readonly = false;
  bytes = 2 ∷ 44 ∷ 1 ∷ 1 ∷ 5 ∷ 0 ∷ [];
}

coded-IsRle : IsRle 2 runs coded
unfolding interpretation_size entries total
coded-IsRle = record {
  size_of = refl;
  encoded = refl;
  runs = ((omega arith, omega arith, refl), ((omega arith, omega arith, refl), tt));
  holds = refl;
  filled = refl;
  counted = refl;
  small = omega arith;
}

run_length_decode-IsRle_example :
    run_length_decode coded
    ≡ ok (record coded {
      compression = dim_none;
      size = 6;
      bytes = flatten (expand runs);
      readonly = false;
    })
run_length_decode-IsRle_example = run_length_decode-IsRle 2 runs coded coded-IsRle

coded-IsFull : IsFull 2 runs coded
unfolding entries
coded-IsFull = record {
  is_rle = coded-IsRle;
  bytes_of = refl;
  multibyte = omega arith;
  nonempty = omega arith;
}

-- The two bytes of each value change places, and the buffer can be written.
run_length_flip_endian-flip_runs_example :
    run_length_flip_endian coded
    ≡ ok (record coded { bytes = 2 ∷ 1 ∷ 44 ∷ 1 ∷ 0 ∷ 5 ∷ [] }, 2 ∷ 1 ∷ 44 ∷ 1 ∷ 0 ∷ 5 ∷ [])
unfolding entries flip_runs reversed
run_length_flip_endian-flip_runs_example =
    run_length_flip_endian-flip_runs 2 runs coded coded-IsFull

swap_loop-reversed_example :
    swap_loop (4 / 2) 4 1 0 (9 ∷ 1 ∷ 2 ∷ 3 ∷ 4 ∷ 8 ∷ [])
    ≡ ok ((9 ∷ []) ++ (reversed (1 ∷ 2 ∷ 3 ∷ 4 ∷ []) ++ (8 ∷ [])))
swap_loop-reversed_example = swap_loop-reversed (9 ∷ []) (1 ∷ 2 ∷ 3 ∷ 4 ∷ []) (8 ∷ []) 4 refl

sigbits_count_word-IsCommon_example :
    (common : ℕ) × (commonbits : ℕ) × (sigbits_count_word 16 2 points ≡ ok (common, commonbits))
    × IsCommon 16 (513 ∷ 513 ∷ 517 ∷ 775 ∷ []) common commonbits
sigbits_count_word-IsCommon_example =
    sigbits_count_word-IsCommon 16 513 (513 ∷ 517 ∷ 775 ∷ [])
      (omega arith, (omega arith, (omega arith, (omega arith, tt)))) 2 points (omega arith) words_of
      refl (omega arith)
  where
    words_of : words_in 2 points.bytes ≡ 513 ∷ 513 ∷ 517 ∷ 775 ∷ []
    words_of = unfold words_in in refl

bytes_decode-encode_example :
    (bytes_encode stored points (number sigbits) >>= bytes_decode stored)
    ≡ ok (record points { readonly = false })
bytes_decode-encode_example =
    bytes_decode-encode stored (λ n. n) stored_laws bytes_2 points sigbits points-IsRaw
      (omega arith) (omega arith) (omega arith)

-- Natural numbers stand for the doubles.
bytes_bitmap-encode_example :
    (bytes_encode stored points (number rle) >>= λ epcb.
    bytes_bitmap naturals stored epcb pc_gt 514 0)
    ≡ uncompressed_bitmap naturals points pc_gt 514 0
bytes_bitmap-encode_example =
    bytes_bitmap-encode naturals pc_gt 514 0 stored (λ n. n) stored_laws bytes_2 points rle
      points-IsRaw (omega arith) (omega arith) (omega arith)

abbrev picked : List Bool
picked = false ∷ true ∷ false ∷ true ∷ []

abbrev picked_map : Pcbitmap
picked_map = record { nset = 2; npoints = 4; map = 0 ∷ 1 ∷ 0 ∷ 1 ∷ [] }

run_length_filter-encode_example :
    (plain coded decoded : Pcbytes) × (uncompressed_filter naturals points picked_map none
      ≡ ok (plain, none))
    × ((run_length_encode points >>= λ e. run_length_filter naturals e picked_map none)
        ≡ ok (coded, none))
    × (run_length_decode coded ≡ ok decoded)
    × (decoded.bytes ≡ contents plain)
    × (decoded.size ≡ plain.size)
    × (decoded.npoints ≡ plain.npoints)
    × (plain.npoints ≡ count_true picked)
run_length_filter-encode_example =
    run_length_filter-encode naturals 2 points picked_map picked points-IsRaw refl refl
      (omega arith)

bytes_deserialize-serialize_example :
    (written : List ℕ) × (n : ℕ) × (got : Pcbytes) × (bytes_serialize coded ≡ ok (written, n))
    × (n ≡ serialized_size coded)
    × (length written ≡ n)
    × (bytes_deserialize (written ++ (7 ∷ [])) 4 points true false ≡ ok got)
    × (got.compression ≡ dim_rle)
    × (got.size ≡ 6)
    × (contents got ≡ contents coded)
    × (got.interpretation ≡ 4)
    × (got.npoints ≡ 4)
bytes_deserialize-serialize_example =
    bytes_deserialize-serialize coded points (7 ∷ []) 4 (omega arith) (omega arith) (omega arith)
      true

bytes_to_ptr-encode_example :
    (bytes_encode stored points (number sigbits) >>= λ e. bytes_to_ptr stored e 2)
    ≡ uncompressed_to_ptr points 2
bytes_to_ptr-encode_example =
    bytes_to_ptr-encode stored (λ n. n) stored_laws bytes_2 points sigbits 2 points-IsRaw
      (omega arith) (omega arith) (omega arith) (omega arith)

bytes_minmax-encode_example :
    range naturals (bytes_encode stored points (number rle) >>= bytes_minmax naturals stored)
    ≡ range naturals (uncompressed_minmax naturals points)
bytes_minmax-encode_example =
    bytes_minmax-encode naturals stored (λ n. n) stored_laws bytes_2 points rle points-IsRaw
      (omega arith) (omega arith) (omega arith)

uncompressed_is_sorted-pairs_sorted_example :
    uncompressed_is_sorted naturals points false ≡ pairs_sorted naturals 4 false (values 2 points)
uncompressed_is_sorted-pairs_sorted_example =
    uncompressed_is_sorted-pairs_sorted naturals false 2 points points-IsRaw

sigbits_is_sorted-encode_example :
    (sigbits_encode points >>= λ e. sigbits_is_sorted naturals stored e true)
    ≡ uncompressed_is_sorted naturals points true
sigbits_is_sorted-encode_example =
    sigbits_is_sorted-encode naturals true stored bytes_2 points points-IsRaw (omega arith)
      (omega arith)

-- The runs are 300 and 5, and the answer is that they are sorted.
run_length_is_sorted-runs_sorted_example :
    run_length_is_sorted naturals coded false ≡ runs_sorted naturals 4 false runs
run_length_is_sorted-runs_sorted_example =
    run_length_is_sorted-runs_sorted naturals false 2 runs coded coded-IsRle coded_whole
      (omega arith)
  where
    coded_whole : coded.bytes ≡ entries runs
    coded_whole = unfold entries in refl

bytes_from_hexbytes-hexbytes_example :
    (hexbuf : List ℕ) × (hexbytes_from_bytes (0 ∷ 171 ∷ 255 ∷ []) 3 ≡ ok hexbuf)
    × (length hexbuf ≡ 7)
    × (bytes_from_hexbytes hexbuf 6 ≡ ok (0 ∷ 171 ∷ 255 ∷ []))
bytes_from_hexbytes-hexbytes_example =
    bytes_from_hexbytes-hexbytes (0 ∷ 171 ∷ 255 ∷ [])
      (omega arith, (omega arith, (omega arith, tt))) (omega arith)

picked-IsBitmap : IsBitmap picked picked_map
unfolding count_true
picked-IsBitmap = record { bits = refl; counted = refl; covers = refl; small = omega arith }

bitmap_set-IsBitmap_example :
    (pcmap' : Pcbitmap) × (bitmap_set picked_map 2 true ≡ ok pcmap')
    × IsBitmap (set picked 2 true) pcmap'
bitmap_set-IsBitmap_example =
    bitmap_set-IsBitmap picked picked_map 2 picked-IsBitmap true (omega arith)

-- A significant-bit buffer of one-byte values, with 8 bits for each.
abbrev one_byte : Pcbytes
one_byte = record {
  size = 5;
  npoints = 2;
  interpretation = 2;
  compression = dim_sigbits;
  readonly = true;
  bytes = 8 ∷ 0 ∷ 17 ∷ 34 ∷ 0 ∷ [];
}

sigbits_to_ptr_word-wraps_example :
    sigbits_to_ptr_word 8 1 one_byte (1 + 2 ^ 8) ≡ sigbits_to_ptr_word 8 1 one_byte 1
sigbits_to_ptr_word-wraps_example = sigbits_to_ptr_word-wraps 8 1 one_byte 1
