-- ===== src/Tests/Dimensional.antt =====
-- The theorems about dimensional patches at a patch of one point.
use pointcloud.Common.{
  ℕ, ◌*◌, ◌≡◌, refl, false, true, List, [], ◌∷◌, map, length, take, All, none, some, arith,
}
use mathlib.Core.Path.{subst}
use pointcloud.Common.Result.{ok, some_injective}
use pointcloud.Samples.{
  naturals, Names, plane, plane-IsLaid, unit_square, single, stored, stored_laws,
}
use pointcloud.Bytes.{Pcbytes, interpretation_size}
use pointcloud.Bytes.Sigbits.Lossless.{bytes_1, bytes_2, bytes_4, bytes_8}
use pointcloud.Bytes.Codec.RoundTrip.{rle, sigbits}
use pointcloud.Schema.{ndims}
use pointcloud.Dimensional.{
  PatchDimensional, dimensional_from_uncompressed, dimensional_decompress,
  uncompressed_from_dimensional,
}
use pointcloud.Dimensional.Dimstats.{Dimstats}
use pointcloud.Dimensional.Counted.{IsEncodable, HasCompression}
use pointcloud.Dimensional.Compress.{
  dimensional_compress, IsFor, released, dimensional_decompress-compress,
}
use pointcloud.Dimensional.Lossless.{HasSpace, uncompressed_from_dimensional-compress}

-- Statistics of many points, that recommend run lengths and significant bits.
abbrev tuned : Dimstats
tuned = record {
  ndims = 2;
  total_points = 10000;
  total_patches = 5;
  stats =
      record { total_runs = 7; total_commonbits = 9; recommended_compression = 1 }
      ∷ record { total_runs = 7; total_commonbits = 9; recommended_compression = 2 }
      ∷ [];
}

tuned-IsFor : IsFor plane tuned
tuned-IsFor = record {
  each = refl;
  few = omega arith;
  known = λ many. ((rle, refl), ((sigbits, refl), tt));
}

given : (pds : Dimstats) → some tuned ≡ some pds → IsFor plane pds
given pds e = subst (IsFor plane) (some_injective e) tuned-IsFor

no_statistics : (pds : Dimstats) → none ≡ some pds → IsFor plane pds
no_statistics pds e = cc

abbrev x_buffer : Pcbytes
x_buffer = record {
  size = 2;
  npoints = 1;
  interpretation = 4;
  compression = 0;
  readonly = true;
  bytes = 1 ∷ 2 ∷ [];
}

abbrev y_buffer : Pcbytes
y_buffer = record {
  size = 4;
  npoints = 1;
  interpretation = 6;
  compression = 0;
  readonly = true;
  bytes = 1 ∷ 2 ∷ 3 ∷ 4 ∷ [];
}

x_buffer-IsEncodable : IsEncodable (λ n. n) x_buffer
unfolding interpretation_size
x_buffer-IsEncodable = record {
  width = bytes_2;
  raw = record {
    size_of = refl;
    wide = omega arith;
    uncompressed = refl;
    filled = refl;
    allocated = refl;
    narrow = omega arith;
    small = omega arith;
  };
  nonempty = omega arith;
  small = omega arith;
  space = omega arith;
}

y_buffer-IsEncodable : IsEncodable (λ n. n) y_buffer
unfolding interpretation_size
y_buffer-IsEncodable = record {
  width = bytes_4;
  raw = record {
    size_of = refl;
    wide = omega arith;
    uncompressed = refl;
    filled = refl;
    allocated = refl;
    narrow = omega arith;
    small = omega arith;
  };
  nonempty = omega arith;
  small = omega arith;
  space = omega arith;
}

abbrev upright : PatchDimensional ℕ Names
upright = record {
  type = 1;
  readonly = false;
  schema = plane;
  npoints = 1;
  bounds = unit_square;
  stats = none;
  buffers = x_buffer ∷ y_buffer ∷ [];
}

dimensional_decompress-compress_example :
    (packed : List Pcbytes) × (pds : Dimstats) × (dimensional_compress naturals stored upright
        (some tuned)
      ≡ ok (record upright { buffers = packed }, pds))
    × (length pds.stats ≡ ndims plane)
    × All HasCompression pds.stats
    × (dimensional_decompress stored (record upright { buffers = packed })
        ≡ ok (record upright { buffers = map released upright.buffers }))
dimensional_decompress-compress_example =
    dimensional_decompress-compress naturals stored (λ n. n) stored_laws upright (some tuned) given
      refl ((_, refl), ((_, refl), tt)) (x_buffer-IsEncodable, (y_buffer-IsEncodable, tt)) tt

small_space : HasSpace (λ n. n) 1
small_space bytes_1 = omega arith
small_space bytes_2 = omega arith
small_space bytes_4 = omega arith
small_space bytes_8 = omega arith

uncompressed_from_dimensional-compress_example :
    (pdl : PatchDimensional ℕ Names) × (packed : PatchDimensional ℕ Names) × (pds : Dimstats)
    × (dimensional_from_uncompressed single ≡ ok (some pdl))
    × (dimensional_compress naturals stored pdl none ≡ ok (packed, pds))
    × (uncompressed_from_dimensional stored packed
        ≡ ok (record single {
          type = 0;
          readonly = false;
          maxpoints = 1;
          datasize = 1 * plane.size;
          data_bytes = take (1 * plane.size) single.data_bytes;
        }))
uncompressed_from_dimensional-compress_example =
    uncompressed_from_dimensional-compress naturals stored (λ n. n) stored_laws single none
      no_statistics plane-IsLaid ((_, refl), ((_, refl), tt)) (omega arith) (omega arith)
      (omega arith) (omega arith) small_space tt
