-- ===== src/Lib.antt =====
-- pgpointcloud stores point clouds in PostgreSQL. Its core is the C library under lib/: a patch of
-- points is kept one dimension at a time, each dimension a byte buffer (PCBYTES) that is
-- uncompressed, run-length encoded, reduced to its significant bits, or deflated. This development
-- models these buffers and their operations, the schemas that say where the values of a point
-- stand, the points, and the patches: uncompressed ones, whose points stand one after the other, and
-- dimensional ones, with a buffer for each dimension.
--
-- The parts, and the files of the repository they are about:
--   Bytes          lib/pc_bytes.c, lib/pc_api.h, lib/pc_schema.c: PCBYTES is the record Pcbytes;
--                  pc_bytes_empty, _make, _clone and pc_bytes_uncompressed_to_ptr. Valid holds the
--                  well-formedness of uncompressed buffers, Words the view of bytes as words.
--   Bytes/Rle      lib/pc_bytes.c: pc_bytes_run_count, _run_length_encode, _run_length_decode,
--                  _run_length_to_ptr. Runs is the abstract view, a list of counts and values.
--   Bytes/Sigbits  lib/pc_bytes.c: pc_bytes_sigbits_count_N, _sigbits_encode_N, _sigbits_decode_N,
--                  _sigbits_to_ptr_N for N = 8, 16, 32, 64. The four functions of a name differ in
--                  the word only, and are instances of one definition over its width; the decoder of
--                  8 bits leaves a read word later than the others, which is an argument. Pack is
--                  the abstract view: the words that hold given values bit by bit.
--   Bytes/Codec    lib/pc_bytes.c: zlib and the choice of a compression (pc_bytes_encode,
--                  pc_bytes_decode, pc_bytes_to_ptr).
--   Bytes/Flip     lib/pc_bytes.c: pc_bytes_run_length_flip_endian, _sigbits_flip_endian, and
--                  pc_bytes_flip_endian, which chooses between them.
--   Bytes/Serial   lib/pc_bytes.c: pc_bytes_serialize, pc_bytes_deserialize.
--   Value          lib/pc_val.c: pc_double_from_ptr, scaling; Write is pc_double_to_ptr with CLAMP.
--   Schema         lib/pc_schema.c: PCDIMENSION and PCSCHEMA, pc_schema_new, _set_dimension,
--                  _calculate_byteoffsets, _clone, _get_dimension, _get_dimension_by_name. Offsets and
--                  Fields hold the reference layout, Clone the copy; Compare is
--                  pc_schema_same_dimensions and _same_interpretations, Xyzm pc_schema_check_xyzm and
--                  _is_valid, Xml pc_schema_from_xml; Accepted and Rejected say which schemas it gives.
--   Point          lib/pc_point.c: making, reading and writing of values by dimension, index, name and
--                  coordinate, arrays of doubles; Wkb is the binary forms; Flip is
--                  uncompressed_bytes_flip_endian of lib/pc_util.c.
--   Pointlist      lib/pc_pointlist.c: the growing array of points.
--   Bounds         lib/pc_util.c: PCBOUNDS and its diagonal.
--   Stats          lib/pc_stats.c: the statistics of a patch.
--   Patch          lib/pc_patch_uncompressed.c: making, adding a point, bounds, statistics; Grow has
--                  the abstract view, a list of points, Wkb the binary form, and Listed the point
--                  lists that are made of patches and made into them.
--   Dimensional    lib/pc_patch_dimensional.c: making from an uncompressed patch (and, from
--                  lib/pc_patch_uncompressed.c, back), compressing, decompressing, bounds, reading a
--                  point, binary form. Dimstats is lib/pc_dimstats.c, Counted what it returns;
--                  Transpose, Gather and Scatter hold the columns of a patch, Lossless joins them.
--   Lazperf        lib/pc_patch_lazperf.c, built with HAVE_LAZPERF.
--   Dispatch       lib/pc_patch.c: the choice by the type of a patch, ranges, single points.
--   Text, Memory   what the code uses of the C library on strings, and memcpy.
--   Filter         lib/pc_filter.c, lib/pc_bytes.c: bitmaps, pc_bytes_bitmap, pc_bytes_filter.
--                  Keep is the abstract view: the elements of a list that are kept.
--   Minmax         lib/pc_bytes.c: pc_bytes_minmax.
--   Sort           lib/pc_sort.c: pc_compare_pcb, and the is_sorted functions of byte buffers.
--   Wkb            lib/pc_util.c: integers in serialized data, and Hex, bytes as hexadecimal text.
--   Common         tests on numbers, lists, bits, and outcomes of calls.
--
-- How the code is modelled. A buffer is the list of the bytes of its allocation, and the field
-- `size` says how many of them are used. A call gives a Result: a value, or how it does not return:
-- pcerror (whose handler leaves by longjmp or exit), a failed assert, an access outside an
-- allocation, or something else that C leaves undefined. Unsigned arithmetic wraps around where the
-- code can reach the bound: `uint32_t` counts, the `uintN_t` bit offset, the `uint8_t` count of a
-- run. An `int` that counts to a bound of `uint32_t` or `size_t` overflows past 2^31 - 1, which
-- fails as undefined (counts_to): in the run-length encoder, the count of runs and of common bits,
-- the filters of buffers, the change of byte order and the hexadecimal conversions. Other variables
-- of `int` are natural numbers: theorems on them keep the points below 2^31 or their bits below
-- 2^32. An `int` parameter that numbers a point is one from 0 on, but in Dispatch, where it may be
-- negative. A shift by the full width of a word, which C leaves undefined at 32 and 64 bits, gives
-- 0 here. The count of common bits makes one where no bit is common, of a word that is 0 by then,
-- and returns it; the encoder makes one where all bits are common, for a mask that it does not use;
-- the decoder makes them where a buffer has 0 bits for each value, of its mask and of the words
-- that it reads, which are 0 in what the encoder writes. The host is little-endian. Loops over an
-- index are recursions on the number of rounds left; the loops on pointers and the loop that counts
-- common bits have fuel: the number of the bytes, since each round passes at least one, and the
-- width of the word, since each round drops a bit. Fuel that runs out is a failure of its own, and
-- the theorems that say what a call returns exclude it.
--
-- A pointer to a dimension of a schema is its index, since the code keeps no pointer to a dimension
-- that it replaces. The data of a point are the memory from its pointer on. Capacities double in
-- `uint32_t`; the theorems on growing ask for fewer than 2^31 points, and those on offsets for fewer
-- than 2^29 dimensions, so that no offset reaches 2^32.
--
-- Parameters: laz-perf's two calls, by lib/lazperf_adapter.cpp (Lazperf, with no laws), zlib's
-- deflate and inflate (Zlib, with the laws ZlibLaws of its manual), the arithmetic of `double`
-- (Doubles, with no laws), the hash table of names (Hashtable, with no laws), and the parsing of
-- XML by libxml2 and of numbers by atof (Parser).
--
-- Not modelled: unions of patches and changes of their schema, filtering and sorting of patches;
-- the hash table and sort_r, which are copies of other projects; memory
-- handlers; text output; the SQL functions under pgsql/.
pub mod Common
pub mod Bytes
pub mod Value
pub mod Text
pub mod Memory
pub mod Schema
pub mod Point
pub mod Bounds
pub mod Pointlist
pub mod Stats
pub mod Patch
pub mod Dimensional
pub mod Lazperf
pub mod Dispatch
pub mod Filter
pub mod Wkb
pub mod Sort
pub mod Minmax
pub mod Samples
pub mod Tests
