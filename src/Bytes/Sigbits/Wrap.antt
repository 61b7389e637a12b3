-- ===== src/Bytes/Sigbits/Wrap.antt =====
-- lib/pc_bytes.c: the bit offset of `pc_bytes_sigbits_to_ptr_N` wraps around.
use pointcloud.Common.{
  ℕ, ◌+◌, ◌*◌, ◌/◌, ◌%◌, ◌^◌, ◌≤◌, ◌≡◌, arith, get_elem?, Option-cases, inl, inr,
}
use pointcloud.Common.Bits.{mod_unique, two_pow_pos}
use pointcloud.Bytes.{Pcbytes}
use pointcloud.Bytes.Words.{words_in}
use pointcloud.Bytes.Sigbits.Decode.{sigbits_to_ptr_word}
use native.Mathlib.Nat.{mod-lt, div-add-mod'}

same_offset : (m n nbits : ℕ) → 1 ≤ m → (n + m) * nbits % m ≡ n * nbits % m
same_offset m n nbits pos =
    mod_unique ((n + m) * nbits) (n * nbits / m + nbits) m (n * nbits % m)
      (omega (arith, div-add-mod' (n * nbits) m)) (mod-lt (n * nbits) pos)

-- Reading point `n + 2^w` of a significant-bit buffer of words of `w` bits gives what reading point
-- `n` does, whatever the buffer holds: with 1-byte values, points 256 apart are taken for one.
pub sigbits_to_ptr_word-wraps :
    (w k : ℕ) (pcb : Pcbytes) (n : ℕ)
    → sigbits_to_ptr_word w k pcb (n + 2 ^ w) ≡ sigbits_to_ptr_word w k pcb n
unfolding sigbits_to_ptr_word
sigbits_to_ptr_word-wraps w k pcb n = elim (Option-cases (get_elem? (words_in k pcb.bytes) 0)) [
  | inl e ↦ rw e
  | inr (nbits, e) ↦ rw (e, same_offset (2 ^ w) n nbits (two_pow_pos w))
]
