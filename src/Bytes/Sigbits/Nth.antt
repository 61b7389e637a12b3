-- ===== src/Bytes/Sigbits/Nth.antt =====
-- lib/pc_bytes.c: `pc_bytes_sigbits_to_ptr_N` on what `pc_bytes_sigbits_encode_N` writes.
use pointcloud.Common.{
  ℕ, zero, suc, ◌+◌, ◌-◌, ◌*◌, ◌/◌, ◌%◌, ◌^◌, ◌<◌, ◌≤◌, ◌≡◌, refl, sym, ap, ap₂, ◌∙◌, Bool, true,
  List, ◌∷◌, length, get_elem?, take, drop, arith, some, All, le→leb, All-take, All-drop,
  length-take, length-drop,
}
use pointcloud.Common.Result.{ok}
use pointcloud.Common.Bits.{two_pow_pos, two_pow_mono, ones-shift, div_unique, mod_unique}
use pointcloud.Bytes.{Pcbytes, element}
use pointcloud.Bytes.Valid.{IsByte, slice_ok, drop-drop}
use pointcloud.Bytes.Words.{words, word_of, bytes_of, bytes_of-word_of}
use pointcloud.Bytes.Sigbits.Decode.{read_loop, read_at, sigbits_to_ptr_word}
use pointcloud.Bytes.Sigbits.Encoded.{IsSource, Encoded}
use pointcloud.Bytes.Sigbits.Encoded
use pointcloud.Bytes.Sigbits.RoundTrip.{written}
use pointcloud.Bytes.Sigbits.At.{reader, stand, read_loop-nth}
use mathlib.Core.Path.{subst}
use native.Mathlib.Nat.{mod-eq_of_lt, mul-le-mul_right}

element-drop :
    (k : ℕ) (bytes : List ℕ) (i : ℕ)
    → (i + 1) * k + k ≤ length bytes
    → element k bytes (suc i) ≡ element k (drop k bytes) i
unfolding element
element-drop k bytes i h =
    slice_ok bytes (suc i * k) k (omega arith)
    ∙ ap (λ (t : ℕ). ok (take k (drop t bytes))) from_next
    ∙ ap (λ t. ok (take k t)) (sym (drop-drop k (i * k) bytes))
    ∙ sym (slice_ok (drop k bytes) (i * k) k (omega (arith, length-drop k bytes)))
  where
    from_next : suc i * k ≡ k + i * k
    from_next = omega arith

-- The bytes of a point are those of its word.
pub element-words :
    (k m : ℕ) (bytes : List ℕ) (i : ℕ)
    → All IsByte bytes
    → m * k ≤ length bytes
    → i < m
    → (x : ℕ) × (get_elem? (words k m bytes) i ≡ some x) × (element k bytes i ≡ ok (bytes_of k x))
unfolding words element
element-words k zero bytes i h e lt = absurd (omega arith)
element-words k (suc m) bytes zero h e lt = (
  word_of (take k bytes),
  refl,
  slice_ok bytes (0 * k) k (omega arith)
      ∙ ap (λ (t : ℕ). ok (take k (drop t bytes))) at_start
      ∙ ap ok (
          sym (
            subst (λ (t : ℕ). bytes_of t (word_of (take k bytes)) ≡ take k bytes) wide
              (bytes_of-word_of (take k bytes) (All-take IsByte k bytes h)))),
)
  where
    wide : length (take k bytes) ≡ k
    wide = omega (arith, length-take k bytes)

    at_start : 0 * k ≡ 0
    at_start = omega arith
element-words k (suc m) bytes (suc i) h e lt =
    let (x, g, p) =
      element-words k m (drop k bytes) i (All-drop IsByte k bytes h)
        (omega (arith, length-drop k bytes)) (omega arith) in
    (
      x,
      g,
      element-drop k bytes i (omega (arith, mul-le-mul_right {m = i + 1} {n = m} k (omega arith)))
          ∙ p,
    )

module _ (eager : Bool) (w k size_out : ℕ) (xs : List ℕ) (pcb : Pcbytes) (common commonbits : ℕ)
    (pos : 1 ≤ w) (src : IsSource w k xs pcb common commonbits) (is_eager : eager ≡ true)
    (sized : 2 ^ w ≡ 256 ^ k) (byte : 1 ≤ k) (wide : w ≤ 64)
    (enc : Encoded eager w k size_out xs pcb common commonbits pos src) where
  abbrev n : ℕ
  n = w - commonbits

  abbrev ws : List ℕ
  ws = n ∷ common ∷ enc.body

  start : stand w 0 ≡ record { at = 2; bit = w }
  start = ap₂ reader at_start bit_start
    where
      at_start : 2 + 0 / w ≡ 2
      at_start = ap (λ (t : ℕ). 2 + t) (div_unique 0 0 w 0 (omega arith) pos)

      bit_start : w - 0 % w ≡ w
      bit_start = omega (arith, mod_unique 0 0 w 0 (omega arith) pos)

  eager_reads : read_loop true w n common (2 ^ n - 1) (length xs) ws (stand w 0) ≡ ok xs
  eager_reads =
      ap (read_loop true w n common (2 ^ n - 1) (length xs) ws) start
      ∙ subst
          (λ b.
            read_loop b w n common (2 ^ n - 1) (length xs) ws (record { at = 2; bit = w }) ≡ ok xs)
          is_eager enc.reads

  -- While the offset fits the word, the value at an index is that of the source.
  pub sigbits_to_ptr_word-nth :
      (i x : ℕ)
      → get_elem? xs i ≡ some x
      → i * n < 2 ^ w
      → sigbits_to_ptr_word w k
          (Encoded.out_of eager w k size_out xs pcb common commonbits pos src enc.body)
          i
        ≡ ok (bytes_of k x)
  unfolding sigbits_to_ptr_word
  sigbits_to_ptr_word-nth i x g lt = rw (
    written eager w k size_out xs pcb common commonbits pos src sized byte enc,
    le→leb n 64 (omega arith),
    ones-shift n (64 - n) {j = 64} (omega arith),
    mask_fits,
    mod-eq_of_lt lt,
    found,
  )
    where
      found : read_at w n common (2 ^ n - 1) ws (i * n) ≡ ok x
      found =
          ap (read_at w n common (2 ^ n - 1) ws) (omega arith)
          ∙ read_loop-nth w n common (2 ^ n - 1) ws pos (omega arith) (length xs) 0 xs eager_reads i
              x g

      mask_fits : (2 ^ n - 1) % 2 ^ w ≡ 2 ^ n - 1
      mask_fits = mod-eq_of_lt (omega (arith, two_pow_mono n w (omega arith), two_pow_pos n))
