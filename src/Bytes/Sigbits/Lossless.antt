-- ===== src/Bytes/Sigbits/Lossless.antt =====
-- lib/pc_bytes.c: `pc_bytes_sigbits_encode` and `pc_bytes_sigbits_decode`, which choose among the
-- four word widths.
use pointcloud.Common.{
  ◌+◌, ℕ, ◌-◌, ◌*◌, ◌/◌, ◌^◌, ◌<◌, ◌≤◌, ◌≡◌, refl, sym, ap, ◌∙◌, Bool, true, false, List, [], ◌∷◌,
  length, get_elem?, some, arith, All,
}
use pointcloud.Common.Result.{ok, ◌>>=◌}
use pointcloud.Common.Bits.{div_unique}
use pointcloud.Bytes.{Pcbytes, element, u32, dim_sigbits}
use pointcloud.Bytes.Valid.{IsRaw, Undone, Undone-restores}
use pointcloud.Bytes.Words.{
  words_in, words, bytes_of_words, length-words, bytes_of_words-words, words-lt,
}
use pointcloud.Bytes.Sigbits.{
  sigbits_encode_word, sigbits_count_word, sigbits_count_8, sigbits_count_16, sigbits_count_32,
  sigbits_count_64, sigbits_encode_8, sigbits_encode_16, sigbits_encode_32, sigbits_encode_64,
  sigbits_encode, size_out_8, size_out_16, size_out_32, size_out_64,
}
use pointcloud.Bytes.Sigbits.Decode.{
  sigbits_to_ptr_word, sigbits_decode_word, sigbits_decode_8, sigbits_decode_16, sigbits_decode_32,
  sigbits_decode_64, sigbits_decode,
}
use pointcloud.Bytes.Sigbits.Count.{IsCommon, sigbits_count_word-IsCommon}
use pointcloud.Bytes.Sigbits.Encoded.{IsSource, Encoded}
use pointcloud.Bytes.Sigbits.Encoded
use pointcloud.Bytes.Sigbits.RoundTrip.{encoded, decoded}
use mathlib.Core.Path.{subst}
use native.Mathlib.Nat.{mul-le-mul_right, mul-le-mul_left}
use pointcloud.Bytes.Sigbits.Nth.{element-words, sigbits_to_ptr_word-nth}

-- A size of the output, by the number of unique bits and of points, that has room for them.
abbrev HasRoomFor : ℕ → ℕ → ℕ → (ℕ → ℕ → ℕ) → Type 0
HasRoomFor w k npoints size_out =
    (nbits : ℕ)
    → nbits ≤ w
    → (3 ≤ size_out nbits npoints / k) × (nbits * npoints < w * (size_out nbits npoints / k - 2))

-- The steps of an encoding that the decoder undoes.
pub record Restored (eager : Bool) (w k : ℕ) (size_out : ℕ → ℕ → ℕ) (pcb : Pcbytes) : Type 0 where
  pub common : ℕ
  pub commonbits : ℕ
  pub out : Pcbytes
  pub counts : sigbits_count_word w k pcb ≡ ok (common, commonbits)
  pub encodes :
      sigbits_encode_word w k (size_out (w - commonbits) pcb.npoints) pcb common commonbits ≡ ok out
  pub keeps : out.interpretation ≡ pcb.interpretation
  pub form : out.compression ≡ dim_sigbits
  pub decodes : sigbits_decode_word eager w k out ≡ ok (record pcb { readonly = false })
  pub reads_at :
      eager ≡ true
      → w ≤ 64
      → (i : ℕ) → i < pcb.npoints
      → i * w < 2 ^ w
      → sigbits_to_ptr_word w k out i ≡ element k pcb.bytes i

module _ (w k : ℕ) (pcb : Pcbytes) (raw : IsRaw k pcb) (sized : 2 ^ w ≡ 256 ^ k) where
  words_of_raw : words_in k pcb.bytes ≡ words k pcb.npoints pcb.bytes
  unfolding words_in
  words_of_raw =
      ap (λ (t : ℕ). words k t pcb.bytes)
        (div_unique (length pcb.bytes) pcb.npoints k 0 (omega (arith, raw.allocated))
          (omega (arith, raw.wide)))

  raw-narrow : All (λ x. x < 2 ^ w) (words k pcb.npoints pcb.bytes)
  raw-narrow =
      subst (λ (t : ℕ). All (λ x. x < t) (words k pcb.npoints pcb.bytes)) (sym sized)
        (words-lt k pcb.npoints pcb.bytes raw.narrow raw.allocated)

  raw-IsSource :
      (xs : List ℕ) (common commonbits : ℕ)
      → words k pcb.npoints pcb.bytes ≡ xs
      → IsCommon w xs common commonbits
      → IsSource w k xs pcb common commonbits
  raw-IsSource xs common commonbits e c = record {
    words_of = words_of_raw ∙ e;
    back =
        ap (bytes_of_words k) (sym e)
        ∙ bytes_of_words-words k pcb.npoints pcb.bytes raw.narrow raw.allocated;
    counted = sym (length-words k pcb.npoints pcb.bytes) ∙ ap length e;
    narrow = subst (All (λ x. x < 2 ^ w)) e raw-narrow;
    filled = omega (arith, raw.filled);
    raw = raw.uncompressed;
    is_common = c;
  }

  restore_counted :
      (eager : Bool) (size_out : ℕ → ℕ → ℕ) (xs : List ℕ) (common commonbits : ℕ)
      → words k pcb.npoints pcb.bytes ≡ xs
      → 1 ≤ w
      → 1 ≤ length xs
      → HasRoomFor w k pcb.npoints size_out
      → sigbits_count_word w k pcb ≡ ok (common, commonbits)
      → IsCommon w xs common commonbits
      → Restored eager w k size_out pcb
  restore_counted eager size_out xs common commonbits e pos nonempty room counts c =
      let src = raw-IsSource xs common commonbits e c in
      let size = size_out (w - commonbits) pcb.npoints in
      let enc = encoded eager w k size xs pcb common commonbits pos src nonempty (
        subst (λ (t : ℕ). (3 ≤ size / k) × ((w - commonbits) * t < w * (size / k - 2))) src.counted
          (room (w - commonbits) (omega arith))) in
      record {
        common = common;
        commonbits = commonbits;
        out = Encoded.out_of eager w k size xs pcb common commonbits pos src enc.body;
        counts = counts;
        encodes = enc.returns;
        keeps = refl;
        form = refl;
        decodes = decoded eager w k size xs pcb common commonbits pos src sized raw.wide enc;
        reads_at = λ is_eager wide i lt small.
            let (x, g, p) =
              element-words k pcb.npoints pcb.bytes i raw.narrow (omega (arith, raw.allocated))
                lt in
            sigbits_to_ptr_word-nth eager w k size xs pcb common commonbits pos src is_eager sized
              raw.wide wide enc i x (subst (λ t. get_elem? t i ≡ some x) e g)
              (omega (arith, small, mul-le-mul_left {m = w - commonbits} {n = w} i (omega arith)))
            ∙ sym p;
      }

  pub restore :
      (eager : Bool) (size_out : ℕ → ℕ → ℕ) (xs : List ℕ)
      → words k pcb.npoints pcb.bytes ≡ xs
      → 1 ≤ w
      → w < 2 ^ 32
      → 1 ≤ pcb.npoints
      → pcb.npoints < 2 ^ 31
      → HasRoomFor w k pcb.npoints size_out
      → Restored eager w k size_out pcb
  restore eager size_out [] e pos small nonempty few room =
      absurd (omega (arith, ap length e, length-words k pcb.npoints pcb.bytes))
  restore eager size_out (x ∷ xs) e pos small nonempty few room =
      let (common, commonbits, counts, c) =
        sigbits_count_word-IsCommon w x xs (subst (All (λ x. x < 2 ^ w)) e raw-narrow) k pcb small
          (words_of_raw ∙ e) (sym (length-words k pcb.npoints pcb.bytes) ∙ ap length e) few in
      restore_counted eager size_out (x ∷ xs) common commonbits e pos (omega arith) room counts c

-- `nbits * npoints` does not wrap.
unwrapped :
    (w nbits npoints : ℕ)
    → nbits ≤ w
    → w * npoints < 2 ^ 32
    → u32 (nbits * npoints) ≡ nbits * npoints
unwrapped w nbits npoints h small = omega (arith, mul-le-mul_right {m = nbits} {n = w} npoints h)

module _ (npoints : ℕ) where
  pub room_8 : 8 * npoints < 2 ^ 32 → HasRoomFor 8 1 npoints size_out_8
  room_8 small nbits h = rw (unwrapped 8 nbits npoints h small) (omega arith, omega arith)

  pub room_16 : 16 * npoints < 2 ^ 32 → HasRoomFor 16 2 npoints size_out_16
  room_16 small nbits h = rw (unwrapped 16 nbits npoints h small) (omega arith, omega arith)

  pub room_32 : 32 * npoints < 2 ^ 32 → HasRoomFor 32 4 npoints size_out_32
  room_32 small nbits h = rw (unwrapped 32 nbits npoints h small) (omega arith, omega arith)

  pub room_64 : 64 * npoints < 2 ^ 32 → HasRoomFor 64 8 npoints size_out_64
  room_64 small nbits h = rw (unwrapped 64 nbits npoints h small) (omega arith, omega arith)

-- The sizes of the interpretations.
pub data Width : Type 0 where
  bytes_1 bytes_2 bytes_4 bytes_8 : Width

abbrev pub size_of : Width → ℕ
size_of bytes_1 = 1
size_of bytes_2 = 2
size_of bytes_4 = 4
size_of bytes_8 = 8

-- An `int` counts values of fewer than 2^32 bits.
pub few_points : (width : Width) (n : ℕ) → 8 * size_of width * n < 2 ^ 32 → n + 1 < 2 ^ 31
few_points bytes_1 n h = omega arith
few_points bytes_2 n h = omega arith
few_points bytes_4 n h = omega arith
few_points bytes_8 n h = omega arith

pub sigbits_encode-Undone :
    (width : Width) (pcb : Pcbytes)
    → IsRaw (size_of width) pcb
    → 1 ≤ pcb.npoints
    → 8 * size_of width * pcb.npoints < 2 ^ 32
    → Undone sigbits_encode sigbits_decode dim_sigbits pcb
unfolding sigbits_encode sigbits_encode_8 sigbits_encode_16 sigbits_encode_32 sigbits_encode_64
    sigbits_count_8 sigbits_count_16 sigbits_count_32 sigbits_count_64 sigbits_decode
    sigbits_decode_8 sigbits_decode_16 sigbits_decode_32 sigbits_decode_64
sigbits_encode-Undone bytes_1 pcb raw nonempty small =
    let r =
      restore 8 1 pcb raw refl false size_out_8 _ refl (omega arith) (omega arith) nonempty
        (omega arith) (room_8 pcb.npoints small) in
    record {
      out = r.out;
      encodes = rw (raw.size_of, r.counts, r.encodes);
      form = r.form;
      decodes = rw (r.keeps, raw.size_of) r.decodes;
    }
sigbits_encode-Undone bytes_2 pcb raw nonempty small =
    let r =
      restore 16 2 pcb raw refl true size_out_16 _ refl (omega arith) (omega arith) nonempty
        (omega arith) (room_16 pcb.npoints small) in
    record {
      out = r.out;
      encodes = rw (raw.size_of, r.counts, r.encodes);
      form = r.form;
      decodes = rw (r.keeps, raw.size_of) r.decodes;
    }
sigbits_encode-Undone bytes_4 pcb raw nonempty small =
    let r =
      restore 32 4 pcb raw refl true size_out_32 _ refl (omega arith) (omega arith) nonempty
        (omega arith) (room_32 pcb.npoints small) in
    record {
      out = r.out;
      encodes = rw (raw.size_of, r.counts, r.encodes);
      form = r.form;
      decodes = rw (r.keeps, raw.size_of) r.decodes;
    }
sigbits_encode-Undone bytes_8 pcb raw nonempty small =
    let r =
      restore 64 8 pcb raw refl true size_out_64 _ refl (omega arith) (omega arith) nonempty
        (omega arith) (room_64 pcb.npoints small) in
    record {
      out = r.out;
      encodes = rw (raw.size_of, r.counts, r.encodes);
      form = r.form;
      decodes = rw (r.keeps, raw.size_of) r.decodes;
    }

-- For an uncompressed buffer of 1 point or more of 1, 2, 4 or 8 bytes each, whose bits are fewer
-- than 2^32, significant-bit encoding returns, and decoding the output gives the buffer back, no
-- longer read-only.
pub sigbits_decode-encode :
    (width : Width) (pcb : Pcbytes)
    → IsRaw (size_of width) pcb
    → 1 ≤ pcb.npoints
    → 8 * size_of width * pcb.npoints < 2 ^ 32
    → (sigbits_encode pcb >>= sigbits_decode) ≡ ok (record pcb { readonly = false })
sigbits_decode-encode width pcb raw nonempty small =
    Undone-restores (sigbits_encode-Undone width pcb raw nonempty small)
