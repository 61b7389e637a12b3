-- ===== src/Bytes/Sigbits/RoundTrip.antt =====
-- lib/pc_bytes.c: `pc_bytes_sigbits_decode_N` on what `pc_bytes_sigbits_encode_N` writes.
use pointcloud.Common.{
  ℕ, zero, suc, ◌-◌, ◌*◌, ◌/◌, ◌^◌, ◌<◌, ◌≤◌, ◌≡◌, sym, ap, Bool, false, List, [], ◌∷◌, length,
  arith, All, All-map, le→leb, inl, inr, Bool-cases, ◌==◌, ==_iff,
}
use pointcloud.Common.Result.{ok, ◌>>=◌}
use pointcloud.Common.Bits.{two_pow_pos, two_pow-suc, ones-shift, div_unique}
use pointcloud.Bytes.{Pcbytes, dim_none}
use pointcloud.Bytes.Words.{words_in, bytes_of_words, words_in-bytes_of_words}
use pointcloud.Bytes.Sigbits.{sigbits_encode_word}
use pointcloud.Bytes.Sigbits.Decode.{sigbits_decode_word}
use pointcloud.Bytes.Sigbits.Encoded.{IsSource, Encoded, encoded_constant, encoded_packed}
use pointcloud.Bytes.Sigbits.Encoded
use mathlib.Core.Path.{subst}

lt-two_pow : (w : ℕ) → w < 2 ^ w
lt-two_pow zero = omega arith
lt-two_pow (suc w) = omega (arith, lt-two_pow w, two_pow-suc w)

-- What some words share is a multiple of the power that they are cut at.
shared_whole :
    (n common : ℕ) (xs : List ℕ)
    → 1 ≤ length xs
    → All (λ x. x / 2 ^ n * 2 ^ n ≡ common) xs
    → common ≡ common / 2 ^ n * 2 ^ n
shared_whole n common [] h all = absurd (omega arith)
shared_whole n common (x ∷ xs) h (e, all) = omega (
  arith,
  e,
  ap (λ (t : ℕ). t * 2 ^ n)
      (div_unique common (x / 2 ^ n) (2 ^ n) 0 (omega (arith, e)) (two_pow_pos n)),
)

shared_part :
    (n common : ℕ) (xs : List ℕ)
    → All (λ x. x / 2 ^ n * 2 ^ n ≡ common) xs
    → All (λ x. x / 2 ^ n ≡ common / 2 ^ n) xs
shared_part n common xs =
    All-map (λ x. x / 2 ^ n * 2 ^ n ≡ common) (λ x. x / 2 ^ n ≡ common / 2 ^ n)
      (λ x e. sym (div_unique common (x / 2 ^ n) (2 ^ n) 0 (omega (arith, e)) (two_pow_pos n))) xs

all_below : (a b : ℕ) (xs : List ℕ) → a ≡ b → All (λ x. x < a) xs → All (λ x. x < b) xs
all_below a b xs e h = subst (λ (t : ℕ). All (λ x. x < t) xs) e h

module _ (eager : Bool) (w k size_out : ℕ) (xs : List ℕ) (pcb : Pcbytes) (common commonbits : ℕ)
    (pos : 1 ≤ w) (src : IsSource w k xs pcb common commonbits) where
  abbrev pub n : ℕ
  n = w - commonbits

  -- The output has room for the two words, one more and the unique bits.
  abbrev pub HasRoom : Type 0
  HasRoom = (3 ≤ size_out / k) × (n * length xs < w * (size_out / k - 2))

  pub encoded :
      1 ≤ length xs → HasRoom → Encoded eager w k size_out xs pcb common commonbits pos src
  encoded some (room, fits) = elim (Bool-cases (commonbits == w)) [
    | inl e ↦
        encoded_constant eager w k size_out xs pcb common commonbits pos src
          ((==_iff commonbits w).0 e) room
    | inr e ↦
        encoded_packed eager w k size_out xs pcb common commonbits pos src (common / 2 ^ n)
          (bits_left e) (shared_whole n common xs some src.is_common.shared)
          (shared_part n common xs src.is_common.shared) fits
  ]
    where
      bits_left : (commonbits == w) ≡ false → 1 ≤ w - commonbits
      bits_left e = ground (arith, src.is_common.bits)

  same_buffer :
      (size compression : ℕ) (bytes : List ℕ)
      → size ≡ pcb.size
      → compression ≡ pcb.compression
      → bytes ≡ pcb.bytes
      → record pcb { size = size; compression = compression; bytes = bytes; readonly = false }
        ≡ record pcb { readonly = false }
  same_buffer size compression bytes e f g = rw (e, f, g)

  module _ (sized : 2 ^ w ≡ 256 ^ k) (byte : 1 ≤ k)
      (enc : Encoded eager w k size_out xs pcb common commonbits pos src) where
    abbrev ws : List ℕ
    ws = n ∷ common ∷ enc.body

    pub written : words_in k (bytes_of_words k ws) ≡ ws
    written = words_in-bytes_of_words k ws byte (
        all_below (2 ^ w) (256 ^ k) ws sized
          (omega (arith, lt-two_pow w), (src.is_common.fits, enc.body_fits)))

    pub decoded :
        sigbits_decode_word eager w k
          (Encoded.out_of eager w k size_out xs pcb common commonbits pos src enc.body)
        ≡ ok (record pcb { readonly = false })
    unfolding sigbits_decode_word
    decoded =
        rw
          (
            written,
            le→leb n w (omega arith),
            ones-shift n (w - n) {j = w} (omega arith),
            rw (← src.counted) at enc.reads,
          )
          (ap ok (
            same_buffer (k * pcb.npoints) dim_none (bytes_of_words k xs) (sym src.filled)
              (sym src.raw) src.back))

  -- Encoding a buffer of at least one word returns, and decoding the output gives the buffer back.
  pub sigbits_decode_word-encode :
      2 ^ w ≡ 256 ^ k
      → 1 ≤ k
      → 1 ≤ length xs
      → HasRoom
      → (sigbits_encode_word w k size_out pcb common commonbits >>= sigbits_decode_word eager w k)
        ≡ ok (record pcb { readonly = false })
  sigbits_decode_word-encode sized byte some room =
      let enc = encoded some room in rw enc.returns (decoded sized byte enc)
