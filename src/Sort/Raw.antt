-- ===== src/Sort/Raw.antt =====
-- lib/pc_sort.c: `pc_bytes_uncompressed_is_sorted` and its callers compare the values that follow each other.
use pointcloud.Common.{
  ℕ, zero, suc, ◌+◌, ◌*◌, ◌^◌, ◌<◌, ◌≤◌, ◌≡◌, refl, ap, ◌∙◌, Bool, true, false, List, [], ◌∷◌,
  length, arith, lt→ltb, le→ltb, ==_iff,
}
use pointcloud.Common.Result.{Result, ok, ◌>>=◌}
use pointcloud.Bytes.{Pcbytes, element, slice, dim_none}
use pointcloud.Bytes.Valid.{IsRaw, Elements}
use pointcloud.Bytes.Rle.Encode.{values, values-Elements, length-values}
use pointcloud.Bytes.Sigbits.{sigbits_encode}
use pointcloud.Bytes.Sigbits.Lossless.{Width, size_of, sigbits_encode-Undone}
use pointcloud.Bytes.Codec.{Zlib, bytes_decode}
use pointcloud.Value.{Doubles}
use native.Mathlib.Nat.{mul-le-mul_left}
use pointcloud.Sort.{
  at_least, compare_pcb, uncompressed_is_sorted_loop, uncompressed_is_sorted, sigbits_is_sorted,
}

module _ {ℓ} {D : Type ℓ} (doubles : Doubles D) (interp : ℕ) (strict : Bool) where
  -- Each value is compared with the next, up to the first pair that is out of order.
  unfoldable pub pairs_sorted : List (List ℕ) → Result Bool
  pairs_sorted [] = ok true
  pairs_sorted (v ∷ []) = ok true
  pairs_sorted (v ∷ u ∷ vs) =
      let rest = pairs_sorted (u ∷ vs) in
      do
        cmp ← compare_pcb doubles v u interp
        elim (at_least cmp strict) [ true ↦ ok false | false ↦ rest ]

  module _ (size end : ℕ) (bytes : List ℕ) (pos : 1 ≤ size) where
    loop_end :
        (fuel offset : ℕ)
        → end ≤ offset + size
        → uncompressed_is_sorted_loop doubles fuel size interp end bytes strict offset ≡ ok true
    unfolding uncompressed_is_sorted_loop
    loop_end zero offset h = rw (le→ltb (offset + size) end h)
    loop_end (suc fuel) offset h = rw (uncompressed_is_sorted_loop, le→ltb (offset + size) end h)

    loop_pair :
        (fuel offset : ℕ) (v u : List ℕ)
        → offset + size < end
        → slice bytes offset size ≡ ok v
        → slice bytes (offset + size) size ≡ ok u
        → uncompressed_is_sorted_loop doubles (suc fuel) size interp end bytes strict offset ≡ (
            compare_pcb doubles v u interp >>= λ cmp. elim (at_least cmp strict) [
              | true ↦ ok false
              | false ↦
                  uncompressed_is_sorted_loop doubles fuel size interp end bytes strict
                    (offset + size)
            ])
    unfolding uncompressed_is_sorted_loop
    loop_pair fuel offset v u h ev eu =
        rw (uncompressed_is_sorted_loop, lt→ltb (offset + size) end h, ev, eu)

    loop-pairs_sorted :
        (vs : List (List ℕ)) (fuel i : ℕ)
        → Elements size bytes i vs
        → end ≡ (i + length vs) * size
        → length vs ≤ fuel
        → uncompressed_is_sorted_loop doubles fuel size interp end bytes strict (i * size)
          ≡ pairs_sorted vs
    unfolding pairs_sorted element
    loop-pairs_sorted [] fuel i es e f = loop_end fuel (i * size) (omega arith)
    loop-pairs_sorted (v ∷ []) fuel i es e f = loop_end fuel (i * size) (omega arith)
    loop-pairs_sorted (v ∷ u ∷ vs) zero i es e f = absurd (omega arith)
    loop-pairs_sorted (v ∷ u ∷ vs) (suc fuel) i (ev, (eu, es)) e f =
        loop_pair fuel (i * size) v u (omega (arith, e)) ev
          (ap (λ (t : ℕ). slice bytes t size) next ∙ eu)
        ∙ ap
            (λ rest. compare_pcb doubles v u interp >>= λ cmp. elim (at_least cmp strict) [
              | true ↦ ok false
              | false ↦ rest
            ])
            (ap (uncompressed_is_sorted_loop doubles fuel size interp end bytes strict) next
              ∙ loop-pairs_sorted (u ∷ vs) fuel (i + 1) (eu, es) (omega (arith, e)) (omega arith))
      where
        next : i * size + size ≡ (i + 1) * size
        next = omega arith

module _ {ℓ} {D : Type ℓ} (doubles : Doubles D) (strict : Bool) where
  -- On an uncompressed buffer the answer, or the failure, is that of comparing each value with the
  -- next.
  pub uncompressed_is_sorted-pairs_sorted :
      (size : ℕ) (pcb : Pcbytes)
      → IsRaw size pcb
      → uncompressed_is_sorted doubles pcb strict
        ≡ pairs_sorted doubles pcb.interpretation strict (values size pcb)
  unfolding uncompressed_is_sorted
  uncompressed_is_sorted-pairs_sorted size pcb raw =
      rw ((==_iff pcb.compression dim_none).1 raw.uncompressed, raw.size_of)
        (ap
            (uncompressed_is_sorted_loop doubles pcb.size size pcb.interpretation pcb.size pcb.bytes
              strict)
            at_start
          ∙ loop-pairs_sorted doubles pcb.interpretation strict size pcb.size pcb.bytes raw.wide
              (values size pcb) pcb.size 0 (values-Elements size pcb raw) all enough)
    where
      at_start : 0 ≡ 0 * size
      at_start = omega arith

      all : pcb.size ≡ (0 + length (values size pcb)) * size
      all = raw.filled ∙ ap (λ (t : ℕ). t * size) (omega (arith, length-values size pcb raw))

      enough : length (values size pcb) ≤ pcb.size
      enough = omega (
        arith,
        length-values size pcb raw,
        raw.filled,
        mul-le-mul_left {m = 1} {n = size} pcb.npoints raw.wide,
      )

  -- Asking whether a significant-bit buffer is sorted gives what asking it of the buffer gives that was
  -- encoded: an uncompressed one of 1 point or more of 1, 2, 4 or 8 bytes each and fewer than 2^32 bits.
  pub sigbits_is_sorted-encode :
      (zlib : Zlib) (width : Width) (pcb : Pcbytes)
      → IsRaw (size_of width) pcb
      → 1 ≤ pcb.npoints
      → 8 * size_of width * pcb.npoints < 2 ^ 32
      → (sigbits_encode pcb >>= λ e. sigbits_is_sorted doubles zlib e strict)
        ≡ uncompressed_is_sorted doubles pcb strict
  unfolding sigbits_is_sorted bytes_decode uncompressed_is_sorted
  sigbits_is_sorted-encode zlib width pcb raw nonempty small =
      let u = sigbits_encode-Undone width pcb raw nonempty small in
      rw (u.encodes, u.form, u.decodes) refl
