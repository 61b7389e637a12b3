-- ===== src/Bytes/Sigbits/Decode.antt =====
-- lib/pc_bytes.c: reading significant-bit buffers, whole (`pc_bytes_sigbits_decode`) and at one
-- point (`PC_BYTES_SIGBITS_TO_PTR`).
use pointcloud.Common.{
  ℕ, zero, suc, ◌+◌, ◌-◌, ◌*◌, ◌/◌, ◌%◌, ◌^◌, bit_and, bit_or, Bool, true, false, ◌&&◌, ◌==◌, leb,
  if◌then◌else◌, List, [], ◌∷◌, get_elem?,
}
use pointcloud.Common.Result.{Result, ok, fail, access, guard, pcerror, undefined, ◌>>=◌, ◌>>◌}
use pointcloud.Bytes.{Pcbytes, interpretation_size, dim_none}
use pointcloud.Bytes.Words.{words_in, bytes_of, bytes_of_words}

-- The read head: the current word and its bits that are not read yet.
pub record Reader : Type 0 where
  pub at : ℕ
  pub bit : ℕ

-- One round of a decoder: the value and where the next one starts. The 8-bit decoder is not `eager`:
-- it stays at a word of which all bits are read, and the next value is then split.
unfoldable pub read_value : Bool → ℕ → ℕ → ℕ → ℕ → List ℕ → Reader → Result (ℕ × Reader)
read_value eager w nbits commonvalue mask ws st =
    if leb nbits st.bit
    then (do
      let shift = st.bit - nbits
      val ← access (get_elem? ws st.at)
      ok (
        bit_or (bit_and (val / 2 ^ shift) mask) commonvalue,
        if eager && st.bit - nbits == 0
            then record { at = st.at + 1; bit = w }
            else record { at = st.at; bit = st.bit - nbits },
      ))
    else (do
      let s = nbits - st.bit
      val ← access (get_elem? ws st.at)
      let first = bit_or (bit_and (val * 2 ^ s % 2 ^ w) mask) commonvalue
      next ← access (get_elem? ws (st.at + 1))
      ok (bit_or first (bit_and (next / 2 ^ (w - s)) mask), record { at = st.at + 1; bit = w - s }))

unfoldable pub read_loop : Bool → ℕ → ℕ → ℕ → ℕ → ℕ → List ℕ → Reader → Result (List ℕ)
read_loop eager w nbits commonvalue mask zero ws st = ok []
read_loop eager w nbits commonvalue mask (suc rounds) ws st = do
  (value, st') ← read_value eager w nbits commonvalue mask ws st
  more ← read_loop eager w nbits commonvalue mask rounds ws st'
  ok (value ∷ more)

-- A number of bits above `w` would be a shift by a negative count. One of 0 shifts the mask and the
-- words by their full width, which gives 0 here and is undefined in C at 32 and 64 bits; the word
-- that follows the head is 0 in what the encoder writes then.
unfoldable pub sigbits_decode_word : Bool → ℕ → ℕ → Pcbytes → Result Pcbytes
sigbits_decode_word eager w k pcb = do
  let ws = words_in k pcb.bytes
  nbits ← access (get_elem? ws 0)
  commonvalue ← access (get_elem? ws 1)
  guard (leb nbits w) undefined
  let mask = (2 ^ w - 1) / 2 ^ (w - nbits)
  values ← read_loop eager w nbits commonvalue mask pcb.npoints ws (record { at = 2; bit = w })
  ok (record pcb {
    size = k * pcb.npoints;
    compression = dim_none;
    bytes = bytes_of_words k values;
    readonly = false;
  })

unfoldable pub sigbits_decode_8 : Pcbytes → Result Pcbytes
sigbits_decode_8 = sigbits_decode_word false 8 1

unfoldable pub sigbits_decode_16 : Pcbytes → Result Pcbytes
sigbits_decode_16 = sigbits_decode_word true 16 2

unfoldable pub sigbits_decode_32 : Pcbytes → Result Pcbytes
sigbits_decode_32 = sigbits_decode_word true 32 4

unfoldable pub sigbits_decode_64 : Pcbytes → Result Pcbytes
sigbits_decode_64 = sigbits_decode_word true 64 8

unfoldable pub sigbits_decode : Pcbytes → Result Pcbytes
sigbits_decode pcb = do
  size ← interpretation_size pcb.interpretation
  if size == 1
      then sigbits_decode_8 pcb
      else if size == 2
      then sigbits_decode_16 pcb
      else if size == 4
      then sigbits_decode_32 pcb
      else if size == 8
      then sigbits_decode_64 pcb
      else fail pcerror

-- The value at a bit offset of the words behind the first two.
unfoldable pub read_at : ℕ → ℕ → ℕ → ℕ → List ℕ → ℕ → Result ℕ
read_at w nbits commonvalue mask ws bitoffset = do
  let at = 2 + bitoffset / w
  let used = bitoffset % w + nbits
  val ← access (get_elem? ws at)
  if leb used w then ok (bit_or commonvalue (bit_and (val / 2 ^ (w - used)) mask)) else (do
    let res = bit_or commonvalue (bit_and (val * 2 ^ (used - w) % 2 ^ w) mask)
    next ← access (get_elem? ws (at + 1))
    ok (bit_or res (bit_and (next / 2 ^ (w + w - used)) mask)))

-- `pc_bytes_sigbits_to_ptr_N`: `bitoffset`, like `nbits` and `mask`, is a `uintN_t`, so it wraps.
unfoldable pub sigbits_to_ptr_word : ℕ → ℕ → Pcbytes → ℕ → Result (List ℕ)
sigbits_to_ptr_word w k pcb n = do
  let ws = words_in k pcb.bytes
  nbits ← access (get_elem? ws 0)
  commonvalue ← access (get_elem? ws 1)
  guard (leb nbits 64) undefined
  let mask = (2 ^ 64 - 1) / 2 ^ (64 - nbits) % 2 ^ w
  let bitoffset = n * nbits % 2 ^ w
  res ← read_at w nbits commonvalue mask ws bitoffset
  ok (bytes_of k res)

unfoldable pub sigbits_to_ptr_8 : Pcbytes → ℕ → Result (List ℕ)
sigbits_to_ptr_8 = sigbits_to_ptr_word 8 1

unfoldable pub sigbits_to_ptr_16 : Pcbytes → ℕ → Result (List ℕ)
sigbits_to_ptr_16 = sigbits_to_ptr_word 16 2

unfoldable pub sigbits_to_ptr_32 : Pcbytes → ℕ → Result (List ℕ)
sigbits_to_ptr_32 = sigbits_to_ptr_word 32 4

unfoldable pub sigbits_to_ptr_64 : Pcbytes → ℕ → Result (List ℕ)
sigbits_to_ptr_64 = sigbits_to_ptr_word 64 8

unfoldable pub sigbits_to_ptr : Pcbytes → ℕ → Result (List ℕ)
sigbits_to_ptr pcb n = do
  size ← interpretation_size pcb.interpretation
  if size == 1
      then sigbits_to_ptr_8 pcb n
      else if size == 2
      then sigbits_to_ptr_16 pcb n
      else if size == 4
      then sigbits_to_ptr_32 pcb n
      else if size == 8
      then sigbits_to_ptr_64 pcb n
      else fail pcerror
