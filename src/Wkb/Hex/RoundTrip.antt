-- ===== src/Wkb/Hex/RoundTrip.antt =====
-- lib/pc_util.c: `pc_bytes_from_hexbytes` on what `pc_hexbytes_from_bytes` writes.
use pointcloud.Common.{
  ℕ, zero, suc, ◌+◌, ◌*◌, ◌/◌, ◌%◌, ◌^◌, ◌≤◌, ◌<◌, ◌≡◌, refl, ap, ap₂, ◌∙◌, bit_and, bit_or, true,
  ◌==◌, List, [], ◌∷◌, ◌++◌, length, length-append, get_elem?, All, arith, some, le→leb, ==_iff,
}
use pointcloud.Common.Result.{ok, counts_to_ok}
use pointcloud.Common.Bits.{bit_and-mask, bit_or-fields}
use pointcloud.Bytes.Valid.{IsByte}
use pointcloud.Wkb.Hex.{
  hex2char, hexchr, from_hexbytes_loop, bytes_from_hexbytes, hexbytes_loop, hexbytes_from_bytes,
}

-- The character of a digit has the digit's value.
record Digit (n : ℕ) : Type 0 where
  char : ℕ
  shows : get_elem? hexchr n ≡ some char
  value : hex2char char ≡ ok n

digit : (n : ℕ) → n < 16 → Digit n
unfolding hex2char
digit zero h = record { char = 48; shows = refl; value = refl }
digit (suc zero) h = record { char = 49; shows = refl; value = refl }
digit (suc (suc zero)) h = record { char = 50; shows = refl; value = refl }
digit (suc (suc (suc zero))) h = record { char = 51; shows = refl; value = refl }
digit (suc (suc (suc (suc zero)))) h = record { char = 52; shows = refl; value = refl }
digit (suc (suc (suc (suc (suc zero))))) h = record { char = 53; shows = refl; value = refl }
digit (suc (suc (suc (suc (suc (suc zero)))))) h = record { char = 54; shows = refl; value = refl }
digit (suc (suc (suc (suc (suc (suc (suc zero))))))) h = record {
  char = 55;
  shows = refl;
  value = refl;
}
digit (suc (suc (suc (suc (suc (suc (suc (suc zero)))))))) h = record {
  char = 56;
  shows = refl;
  value = refl;
}
digit (suc (suc (suc (suc (suc (suc (suc (suc (suc zero))))))))) h = record {
  char = 57;
  shows = refl;
  value = refl;
}
digit (suc (suc (suc (suc (suc (suc (suc (suc (suc (suc zero)))))))))) h = record {
  char = 65;
  shows = refl;
  value = refl;
}
digit (suc (suc (suc (suc (suc (suc (suc (suc (suc (suc (suc zero))))))))))) h = record {
  char = 66;
  shows = refl;
  value = refl;
}
digit (suc (suc (suc (suc (suc (suc (suc (suc (suc (suc (suc (suc zero)))))))))))) h = record {
  char = 67;
  shows = refl;
  value = refl;
}
digit (suc (suc (suc (suc (suc (suc (suc (suc (suc (suc (suc (suc (suc zero))))))))))))) h =
    record { char = 68; shows = refl; value = refl }
digit (suc (suc (suc (suc (suc (suc (suc (suc (suc (suc (suc (suc (suc (suc zero)))))))))))))) h =
    record { char = 69; shows = refl; value = refl }
digit (suc (suc (suc (suc (suc (suc (suc (suc (suc (suc (suc (suc (suc (suc (suc zero)))))))))))))))
      h =
    record { char = 70; shows = refl; value = refl }
digit
      (suc
        (suc (suc (suc (suc (suc (suc (suc (suc (suc (suc (suc (suc (suc (suc (suc n))))))))))))))))
      h =
    absurd (omega arith)

low_part : (b : ℕ) → bit_and b 15 ≡ b % 16
low_part b = bit_and-mask 4 b

joined : (b : ℕ) → b < 256 → bit_or (bit_and (b / 16) 15 * 16 % 256) (bit_and (b % 16) 15) ≡ b
joined b h =
    ap₂ bit_or (high ∙ whole) (low_part (b % 16) ∙ low)
    ∙ bit_or-fields 4 (b / 16) (b % 16) (omega arith)
    ∙ omega arith
  where
    high : bit_and (b / 16) 15 * 16 % 256 ≡ b / 16 % 16 * 16 % 256
    high = ap (λ (t : ℕ). t * 16 % 256) (low_part (b / 16))

    whole : b / 16 % 16 * 16 % 256 ≡ b / 16 * 16
    whole = omega arith

    low : b % 16 % 16 ≡ b % 16
    low = omega arith

hex_round :
    (i : ℕ) (bytes rest : List ℕ)
    → i + length bytes ≤ 2 ^ 30
    → All IsByte bytes
    → (chars : List ℕ) × (hexbytes_loop (length bytes) i bytes ≡ ok chars)
      × (length chars ≡ 2 * length bytes)
      × (from_hexbytes_loop (length bytes) i (chars ++ rest) ≡ ok bytes)
unfolding hexbytes_loop from_hexbytes_loop
hex_round i [] rest few h = ([], refl, omega arith, refl)
hex_round i (b ∷ bytes) rest few (hb, h) =
    let (chars, out, count, back) = hex_round (i + 1) bytes rest (omega arith) h in
    let counted = counts_to_ok (2 * i + 1) (omega arith) in
    let high = digit (b / 16) (omega arith) in
    let low = digit (b % 16) (omega arith) in
    (
      high.char ∷ low.char ∷ chars,
      rw (counted, low_part b, high.shows, low.shows, out),
      omega (arith, count),
      rw (
        counted,
        high.value,
        low.value,
        le→leb (b / 16) 15 (omega arith),
        le→leb (b % 16) 15 (omega arith),
        back,
        joined b hb,
      ),
    )

-- Writing at most 2^30 bytes in hexadecimal returns two characters for each and a terminating 0, and
-- reading the characters before it gives the bytes back.
pub bytes_from_hexbytes-hexbytes :
    (bytes : List ℕ)
    → All IsByte bytes
    → length bytes ≤ 2 ^ 30
    → (hexbuf : List ℕ) × (hexbytes_from_bytes bytes (length bytes) ≡ ok hexbuf)
      × (length hexbuf ≡ 2 * length bytes + 1)
      × (bytes_from_hexbytes hexbuf (2 * length bytes) ≡ ok bytes)
unfolding hexbytes_from_bytes bytes_from_hexbytes
bytes_from_hexbytes-hexbytes bytes h few =
    let (chars, out, count, back) = hex_round 0 bytes (0 ∷ []) (omega arith) h in
    (
      chars ++ (0 ∷ []),
      rw out,
      omega (arith, length-append chars (0 ∷ []), count),
      rw (even (length bytes), half (length bytes)) back,
    )
  where
    even : (n : ℕ) → (2 * n % 2 == 0) ≡ true
    even n = (==_iff (2 * n % 2) 0).1 (omega arith)

    half : (n : ℕ) → 2 * n / 2 ≡ n
    half n = omega arith
