-- ===== src/Bytes/Sigbits.antt =====
-- lib/pc_bytes.c: significant-bit removal. The functions exist once for each word width there; here
-- each is one definition over the width `w` in bits and `k` in bytes, and its four instances.
-- A shift by the full width of a word gives 0. C leaves it undefined at 32 and 64 bits: where no bit
-- is common, counting shifts a word that is 0 by then, and returns it; where all bits are, the
-- encoder shifts its mask, which it does not use.
pub mod Count
pub mod Pack
pub mod WriteValue
pub mod Write
pub mod Decode
pub mod ReadValue
pub mod Unpack
pub mod Encoded
pub mod RoundTrip
pub mod Lossless
pub mod Returns
pub mod ToPtr
pub mod Wrap
pub mod At
pub mod Nth
use pointcloud.Common.{
  ℕ, zero, suc, ◌+◌, ◌-◌, ◌*◌, ◌/◌, ◌%◌, ◌^◌, ◌<◌, ◌≡◌, bit_and, bit_or, Bool, true, false, ◌&&◌,
  ◌==◌, ltb, leb, if◌then◌else◌, List, [], ◌∷◌, length, get_elem?, set, replicate,
}
use pointcloud.Common.Result.{
  Result, ok, fail, access, guard, pcerror, out_of_bounds, undefined, out_of_fuel, ◌>>=◌, ◌>>◌,
  counts_to,
}
use pointcloud.Bytes.{Pcbytes, interpretation_size, u32, dim_none, dim_sigbits}
use pointcloud.Bytes.Words.{words_in, bytes_of, bytes_of_words}

-- `for (i = 0; i < npoints; i++)`, where `i` ends at `npoints` and does not overflow: the `&` and the
-- `|` of the words.
pub and_or_loop : ℕ → List ℕ → ℕ → ℕ → Result (ℕ × ℕ)
and_or_loop zero ws elem_and elem_or = ok (elem_and, elem_or)
and_or_loop (suc rounds) [] elem_and elem_or = fail out_of_bounds
and_or_loop (suc rounds) (x ∷ ws) elem_and elem_or =
    and_or_loop rounds ws (bit_and elem_and x) (bit_or elem_or x)

-- `while (elem_and != elem_or)`, on fuel.
pub common_loop : ℕ → ℕ → ℕ → ℕ → Result (ℕ × ℕ)
common_loop zero elem_and elem_or commonbits =
    if elem_and == elem_or then ok (elem_and, commonbits) else fail out_of_fuel
common_loop (suc fuel) elem_and elem_or commonbits = elim (elem_and == elem_or) [
  | true ↦ ok (elem_and, commonbits)
  | false ↦ common_loop fuel (elem_and / 2) (elem_or / 2) (u32 (commonbits + (2 ^ 32 - 1)))
]

-- The common word and the number of its bits; a word has `w` bits, so `w` rounds are enough.
pub sigbits_count_word : ℕ → ℕ → Pcbytes → Result (ℕ × ℕ)
unfolding and_or_loop common_loop
sigbits_count_word w k pcb = do
  let ws = words_in k pcb.bytes
  first ← access (get_elem? ws 0)
  counts_to pcb.npoints
  (all_and, all_or) ← and_or_loop pcb.npoints ws first first
  (elem_and, commonbits) ← common_loop w all_and all_or w
  ok (elem_and * 2 ^ (w - commonbits) % 2 ^ w, commonbits)

pub sigbits_count_8 : Pcbytes → Result (ℕ × ℕ)
unfolding sigbits_count_word
sigbits_count_8 = sigbits_count_word 8 1

pub sigbits_count_16 : Pcbytes → Result (ℕ × ℕ)
unfolding sigbits_count_word
sigbits_count_16 = sigbits_count_word 16 2

pub sigbits_count_32 : Pcbytes → Result (ℕ × ℕ)
unfolding sigbits_count_word
sigbits_count_32 = sigbits_count_word 32 4

pub sigbits_count_64 : Pcbytes → Result (ℕ × ℕ)
unfolding sigbits_count_word
sigbits_count_64 = sigbits_count_word 64 8

pub sigbits_count : Pcbytes → Result ℕ
unfolding sigbits_count_8 sigbits_count_16 sigbits_count_32 sigbits_count_64
sigbits_count pcb = do
  size ← interpretation_size pcb.interpretation
  (common, nbits) ←
      (if size == 1
        then sigbits_count_8 pcb
        else if size == 2
        then sigbits_count_16 pcb
        else if size == 4
        then sigbits_count_32 pcb
        else if size == 8
        then sigbits_count_64 pcb
        else fail pcerror)
  ok nbits

-- The write head: the output words, the word that is written to and its free bits.
pub record Writer : Type 0 where
  pub out : List ℕ
  pub at : ℕ
  pub bit : ℕ

-- One round of the encoder: the unique bits of `x` go into the current word, or are split over it
-- and the next.
pub write_value : ℕ → ℕ → ℕ → Writer → ℕ → Result Writer
write_value w nbits mask st x =
    let val = bit_and x mask in
    if leb nbits st.bit
    then (do
      let shift = st.bit - nbits
      current ← access (get_elem? st.out st.at)
      let out = set st.out st.at (bit_or current (val * 2 ^ shift % 2 ^ w))
      ok (
          if st.bit - nbits == 0
          then record { out = out; at = st.at + 1; bit = w }
          else record { out = out; at = st.at; bit = st.bit - nbits }))
    else (do
      let s = nbits - st.bit
      current ← access (get_elem? st.out st.at)
      let out = set st.out st.at (bit_or current (val / 2 ^ s))
      next ← access (get_elem? out (st.at + 1))
      ok (record {
        out = set out (st.at + 1) (bit_or next (val * 2 ^ (w - s) % 2 ^ w));
        at = st.at + 1;
        bit = w - s;
      }))

pub write_loop : ℕ → ℕ → ℕ → ℕ → List ℕ → Writer → Result Writer
unfolding write_value
write_loop w nbits mask zero ws st = ok st
write_loop w nbits mask (suc rounds) [] st = fail out_of_bounds
write_loop w nbits mask (suc rounds) (x ∷ ws) st = do
  st' ← write_value w nbits mask st x
  write_loop w nbits mask rounds ws st'

-- The zeroed output of `size_out` bytes with its two leading words. It has at least those.
pub encode_start : ℕ → ℕ → ℕ → ℕ → List ℕ
encode_start k size_out nbits commonvalue = nbits ∷ commonvalue ∷ replicate (size_out / k - 2) 0

pub sigbits_encode_word : ℕ → ℕ → ℕ → Pcbytes → ℕ → ℕ → Result Pcbytes
unfolding write_loop encode_start
sigbits_encode_word w k size_out pcb commonvalue commonbits = do
  let nbits = w - commonbits
  let mask = (2 ^ w - 1) / 2 ^ commonbits
  let start : Writer = record { out = encode_start k size_out nbits commonvalue; at = 2; bit = w }
  st ←
      (if w == commonbits
        then ok start
        else write_loop w nbits mask pcb.npoints (words_in k pcb.bytes) start)
  ok (record pcb {
    size = size_out;
    bytes = bytes_of_words k st.out;
    compression = dim_sigbits;
    readonly = false;
  })

-- The sizes of the output: the packed bits, the two words before them and what fills the last word
-- up. `nbits * npoints` is a `uint32_t`.
abbrev size_out_8 : ℕ → ℕ → ℕ
size_out_8 nbits npoints = u32 (nbits * npoints) / 8 + 3

abbrev size_out_16 : ℕ → ℕ → ℕ
size_out_16 nbits npoints = let raw = u32 (nbits * npoints) / 8 + 1 + 4 in raw + raw % 2

abbrev size_out_32 : ℕ → ℕ → ℕ
size_out_32 nbits npoints = let raw = u32 (nbits * npoints) / 8 + 1 + 8 in raw + (4 - raw % 4)

abbrev size_out_64 : ℕ → ℕ → ℕ
size_out_64 nbits npoints = let raw = u32 (nbits * npoints) / 8 + 1 + 16 in raw + (8 - raw % 8)

pub sigbits_encode_8 : Pcbytes → ℕ → ℕ → Result Pcbytes
unfolding sigbits_encode_word
sigbits_encode_8 pcb commonvalue commonbits =
    sigbits_encode_word 8 1 (size_out_8 (8 - commonbits) pcb.npoints) pcb commonvalue commonbits

pub sigbits_encode_16 : Pcbytes → ℕ → ℕ → Result Pcbytes
unfolding sigbits_encode_word
sigbits_encode_16 pcb commonvalue commonbits =
    sigbits_encode_word 16 2 (size_out_16 (16 - commonbits) pcb.npoints) pcb commonvalue commonbits

pub sigbits_encode_32 : Pcbytes → ℕ → ℕ → Result Pcbytes
unfolding sigbits_encode_word
sigbits_encode_32 pcb commonvalue commonbits =
    sigbits_encode_word 32 4 (size_out_32 (32 - commonbits) pcb.npoints) pcb commonvalue commonbits

pub sigbits_encode_64 : Pcbytes → ℕ → ℕ → Result Pcbytes
unfolding sigbits_encode_word
sigbits_encode_64 pcb commonvalue commonbits =
    sigbits_encode_word 64 8 (size_out_64 (64 - commonbits) pcb.npoints) pcb commonvalue commonbits

pub sigbits_encode : Pcbytes → Result Pcbytes
unfolding sigbits_count_8 sigbits_count_16 sigbits_count_32 sigbits_count_64 sigbits_encode_8
    sigbits_encode_16 sigbits_encode_32 sigbits_encode_64
sigbits_encode pcb = do
  size ← interpretation_size pcb.interpretation
  if size == 1
      then (do (common, nbits) ← sigbits_count_8 pcb; sigbits_encode_8 pcb common nbits)
      else if size == 2
      then (do (common, nbits) ← sigbits_count_16 pcb; sigbits_encode_16 pcb common nbits)
      else if size == 4
      then (do (common, nbits) ← sigbits_count_32 pcb; sigbits_encode_32 pcb common nbits)
      else if size == 8
      then (do (common, nbits) ← sigbits_count_64 pcb; sigbits_encode_64 pcb common nbits)
      else fail pcerror
