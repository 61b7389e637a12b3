-- ===== src/Wkb/Hex.antt =====
-- lib/pc_util.c: bytes as hexadecimal characters.
pub mod RoundTrip
use pointcloud.Common.{
  ℕ, zero, suc, ◌+◌, ◌-◌, ◌*◌, ◌/◌, ◌%◌, bit_and, bit_or, Bool, true, false, ◌&&◌, ◌==◌, ltb, leb,
  if◌then◌else◌, List, [], ◌∷◌, ◌++◌, get_elem?,
}
use pointcloud.Common.Result.{
  Result, ok, fail, access, guard, pcerror, out_of_bounds, ◌>>=◌, ◌>>◌, counts_to,
}

-- The table `hex2char`, written by its ranges. It is read at a `char`, which is negative from 128 on.
unfoldable pub hex2char : ℕ → Result ℕ
hex2char c =
    if leb 128 c
    then fail out_of_bounds
    else if leb 48 c && leb c 57
    then ok (c - 48)
    else if leb 65 c && leb c 70
    then ok (c - 55)
    else if leb 97 c && leb c 102
    then ok (c - 87)
    else ok 20

-- The string `hexchr`.
abbrev pub hexchr : List ℕ
hexchr = 48 ∷ 49 ∷ 50 ∷ 51 ∷ 52 ∷ 53 ∷ 54 ∷ 55 ∷ 56 ∷ 57 ∷ 65 ∷ 66 ∷ 67 ∷ 68 ∷ 69 ∷ 70 ∷ []

-- `for (i = 0; i < hexsize / 2; i++)`, with `rounds` left. The indices `2 * i` and `2 * i + 1` are of
-- `int`.
unfoldable pub from_hexbytes_loop : ℕ → ℕ → List ℕ → Result (List ℕ)
unfolding hex2char
from_hexbytes_loop zero i hexbuf = ok []
from_hexbytes_loop (suc rounds) i [] = fail out_of_bounds
from_hexbytes_loop (suc rounds) i (c ∷ []) = fail out_of_bounds
from_hexbytes_loop (suc rounds) i (c ∷ d ∷ hexbuf) = do
  counts_to (2 * i + 1)
  h1 ← hex2char c
  h2 ← hex2char d
  guard (leb h1 15) pcerror
  guard (leb h2 15) pcerror
  more ← from_hexbytes_loop rounds (i + 1) hexbuf
  ok (bit_or (bit_and h1 15 * 16 % 256) (bit_and h2 15) ∷ more)

unfoldable pub bytes_from_hexbytes : List ℕ → ℕ → Result (List ℕ)
unfolding from_hexbytes_loop
bytes_from_hexbytes hexbuf hexsize = do
  guard (hexsize % 2 == 0) pcerror
  from_hexbytes_loop (hexsize / 2) 0 hexbuf

-- The characters, without the terminating one. The indices `2 * i` and `2 * i + 1` are of `int`.
unfoldable pub hexbytes_loop : ℕ → ℕ → List ℕ → Result (List ℕ)
hexbytes_loop zero i bytebuf = ok []
hexbytes_loop (suc rounds) i [] = fail out_of_bounds
hexbytes_loop (suc rounds) i (b ∷ bytebuf) = do
  counts_to (2 * i + 1)
  high ← access (get_elem? hexchr (b / 16))
  low ← access (get_elem? hexchr (bit_and b 15))
  more ← hexbytes_loop rounds (i + 1) bytebuf
  ok (high ∷ low ∷ more)

unfoldable pub hexbytes_from_bytes : List ℕ → ℕ → Result (List ℕ)
unfolding hexbytes_loop
hexbytes_from_bytes bytebuf bytesize = do
  chars ← hexbytes_loop bytesize 0 bytebuf
  ok (chars ++ (0 ∷ []))
