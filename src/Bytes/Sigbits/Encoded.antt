-- ===== src/Bytes/Sigbits/Encoded.antt =====
-- The significant-bit encoders of lib/pc_bytes.c against the decoders.
use pointcloud.Common.{
  ℕ, zero, suc, ◌+◌, ◌-◌, ◌*◌, ◌/◌, ◌%◌, ◌^◌, ◌<◌, ◌≤◌, ◌≡◌, refl, sym, ap, ap₂, ◌∙◌, Bool, false,
  ◌==◌, ◌&&◌, List, [], ◌∷◌, ◌++◌, length, get_elem?, replicate, arith, some, map, All, All-append,
  All-map, le→leb, length-map, ==_iff,
}
use pointcloud.Common.Result.{ok}
use pointcloud.Common.Bits.{two_pow_pos, zero-bit_or, ones-shift, zero-bit_and}
use pointcloud.Bytes.{Pcbytes, dim_sigbits, dim_none}
use pointcloud.Bytes.Words.{words_in, bytes_of_words}
use pointcloud.Bytes.Sigbits.{write_loop, encode_start, sigbits_encode_word}
use pointcloud.Bytes.Sigbits.Decode.{read_value, read_loop}
use pointcloud.Bytes.Sigbits.Count.{IsCommon}
use pointcloud.Bytes.Sigbits.Pack.{pack, length-pack, pack-lt}
use pointcloud.Bytes.Sigbits.Write.{Wrote, write_loop-pack}
use pointcloud.Bytes.Sigbits.WriteValue
use pointcloud.Bytes.Sigbits.Unpack.{read_loop-pack}
use mathlib.Core.Path.{subst}
use native.Mathlib.Decide.{dec_le}
use native.Mathlib.Nat.{mod-lt, div-add-mod', mul-le-mul_left}

-- Words that all have the common part are restored from their other bits.
module _ (n K : ℕ) where
  restored_unique :
      (xs : List ℕ)
      → All (λ x. x / 2 ^ n ≡ K) xs
      → map (λ v. K * 2 ^ n + v) (map (λ x. x % 2 ^ n) xs) ≡ xs
  restored_unique [] h = refl
  restored_unique (x ∷ xs) (e, h) =
      ap₂ ◌∷◌ (omega (arith, ap (λ (t : ℕ). t * 2 ^ n) e, div-add-mod' x (2 ^ n)))
        (restored_unique xs h)

  unique-lt : (xs : List ℕ) → All (λ v. v < 2 ^ n) (map (λ x. x % 2 ^ n) xs)
  unique-lt [] = tt
  unique-lt (x ∷ xs) = (mod-lt x (two_pow_pos n), unique-lt xs)

-- With no unique bits every read gives the common word, and the reader stays where it is.
module _ (eager : Bool) (w cv mask : ℕ) (pos : 1 ≤ w) where
  read_loop-constant :
      (rounds : ℕ) (xs ws : List ℕ)
      → length xs ≡ rounds
      → All (λ x. x ≡ cv) xs
      → get_elem? ws 2 ≡ some 0
      → read_loop eager w 0 cv mask rounds ws (record { at = 2; bit = w }) ≡ ok xs
  unfolding read_loop read_value
  read_loop-constant zero [] ws e h g = refl
  read_loop-constant zero (x ∷ xs) ws e h g = absurd (omega arith)
  read_loop-constant (suc rounds) [] ws e h g = absurd (omega arith)
  read_loop-constant (suc rounds) (x ∷ xs) ws e (hx, h) g =
      rw
        (
          le→leb 0 w (omega arith),
          g,
          zero_shift,
          zero-bit_and,
          zero-bit_or,
          stays,
          same,
          read_loop-constant rounds xs ws (omega arith) h g,
        )
        (ap (λ t. ok (t ∷ xs)) (sym hx))
    where
      same : w - 0 ≡ w
      same = omega arith

      zero_shift : 0 / 2 ^ (w - 0) ≡ 0
      zero_shift = omega arith

      stays : (eager && w - 0 == 0) ≡ false
      stays = ground arith

pack_room : (w b l d : ℕ) → w * l + w ≤ w + w + b → b < w * d → l ≤ d
pack_room w b l d h lt = elim (dec_le l d) [
  | yes p ↦ p
  | no p ↦ absurd (omega (arith, mul-le-mul_left {m = d + 1} {n = l} w (omega arith)))
]

-- A buffer of the words `xs`, and what the count says of them.
pub record IsSource (w k : ℕ) (xs : List ℕ) (pcb : Pcbytes) (common commonbits : ℕ) : Type 0 where
  pub words_of : words_in k pcb.bytes ≡ xs
  pub back : bytes_of_words k xs ≡ pcb.bytes
  pub counted : pcb.npoints ≡ length xs
  pub narrow : All (λ x. x < 2 ^ w) xs
  pub filled : pcb.size ≡ k * pcb.npoints
  pub raw : pcb.compression ≡ dim_none
  pub is_common : IsCommon w xs common commonbits

module _ (eager : Bool) (w k size_out : ℕ) (xs : List ℕ) (pcb : Pcbytes) (common commonbits : ℕ)
    (pos : 1 ≤ w) (src : IsSource w k xs pcb common commonbits) where
  abbrev pub n : ℕ
  n = w - commonbits

  abbrev pub out_of : List ℕ → Pcbytes
  out_of body = record pcb {
    size = size_out;
    bytes = bytes_of_words k (n ∷ common ∷ body);
    compression = dim_sigbits;
    readonly = false;
  }

  -- The words behind the two leading ones, and that the decoder's loop reads the source from them.
  pub record Encoded : Type 0 where
    pub body : List ℕ
    pub returns : sigbits_encode_word w k size_out pcb common commonbits ≡ ok (out_of body)
    pub body_fits : All (λ x. x < 2 ^ w) body
    pub reads :
        read_loop eager w n common
          (2 ^ n - 1)
          (length xs)
          (n ∷ common ∷ body)
          (record { at = 2; bit = w })
        ≡ ok xs

  zeros-lt : (z : ℕ) → All (λ x. x < 2 ^ w) (replicate z 0)
  zeros-lt zero = tt
  zeros-lt (suc z) = (two_pow_pos w, zeros-lt z)

  -- All words are the same.
  pub encoded_constant : commonbits ≡ w → 3 ≤ size_out / k → Encoded
  unfolding sigbits_encode_word encode_start
  encoded_constant e room = record {
    body = replicate (size_out / k - 2) 0;
    returns = rw ((==_iff w commonbits).1 (sym e));
    body_fits = zeros-lt _;
    reads =
        subst
          (λ m.
            read_loop eager w m common (2 ^ m - 1) (length xs)
              (m ∷ common ∷ replicate (size_out / k - 2) 0) (record { at = 2; bit = w })
            ≡ ok xs)
          (sym none_unique)
          (read_loop-constant eager w common (2 ^ 0 - 1) pos (length xs) xs _ refl all_common
            first);
  }
    where
      none_unique : w - commonbits ≡ 0
      none_unique = omega arith

      all_common : All (λ x. x ≡ common) xs
      all_common =
          All-map (λ x. x / 2 ^ 0 * 2 ^ 0 ≡ common) (λ x. x ≡ common) (λ x p. omega (arith, p)) xs
            (subst (λ m. All (λ x. x / 2 ^ m * 2 ^ m ≡ common) xs) none_unique src.is_common.shared)

      first : get_elem? (0 ∷ common ∷ replicate (size_out / k - 2) 0) 2 ≡ some 0
      first = ap (λ (t : ℕ). get_elem? (replicate t 0) 0) (room_suc (size_out / k) room)
        where
          room_suc : (d : ℕ) → 3 ≤ d → d - 2 ≡ suc (d - 3)
          room_suc d h = omega arith

  -- Some bits differ: they are packed. `K` is what the words share.
  module _ (K : ℕ) (unique : 1 ≤ n) (common_K : common ≡ K * 2 ^ n)
      (share : All (λ x. x / 2 ^ n ≡ K) xs) (wraps : n * length xs < w * (size_out / k - 2)) where
    abbrev vs : List ℕ
    vs = map (λ x. x % 2 ^ n) xs

    n-le : n ≤ w
    n-le = omega arith

    room : length (pack w n 0 w vs) ≤ size_out / k - 3 + 1
    room = omega (
      arith,
      pack_room w (n * length xs) (length (pack w n 0 w vs)) (size_out / k - 2)
          (rw length-map at (length-pack w n unique n-le vs 0 w pos (omega arith))) wraps,
    )

    wrote :
        Wrote
          (write_loop w n
            (2 ^ n - 1)
            (length xs)
            xs
            (WriteValue.head_at (n ∷ common ∷ []) 0 (replicate (size_out / k - 3) 0) w))
          ((n ∷ common ∷ []) ++ pack w n 0 w vs)
    wrote =
        write_loop-pack w n (2 ^ n - 1) unique n-le refl xs (n ∷ common ∷ []) 0 0 w
          (size_out / k - 3) pos (omega arith) (omega arith) room

    start_eq : replicate {A = ℕ} (size_out / k - 2) 0 ≡ 0 ∷ replicate (size_out / k - 3) 0
    start_eq = ap (λ (t : ℕ). replicate {A = ℕ} t 0) (some_room (size_out / k) wraps)
      where
        some_room : (d : ℕ) → n * length xs < w * (d - 2) → d - 2 ≡ suc (d - 3)
        some_room zero h = absurd (omega arith)
        some_room (suc zero) h = absurd (omega arith)
        some_room (suc (suc zero)) h = absurd (omega arith)
        some_room (suc (suc (suc d))) h = omega arith

    ones_of : (2 ^ w - 1) / 2 ^ commonbits ≡ 2 ^ n - 1
    ones_of = ones-shift n commonbits {j = w} (omega arith)

    some_bits : (w == commonbits) ≡ false
    some_bits = ground arith

    pub encoded_packed : Encoded
    unfolding sigbits_encode_word encode_start
    encoded_packed =
        let (st, z, ran, out) = wrote in
        record {
          body = pack w n 0 w vs ++ replicate z 0;
          returns = rw (some_bits, ones_of, src.words_of, src.counted, start_eq, ran, out) refl;
          body_fits =
              All-append (λ x. x < 2 ^ w) (pack w n 0 w vs) (replicate z 0)
                (pack-lt w n unique n-le vs 0 0 w pos (omega arith) (omega arith)
                  (two_pow_pos (w - w)) (unique-lt n K xs))
                (zeros-lt z);
          reads = rw (← length-map xs (λ x. x % 2 ^ n)) (
              read_loop-pack eager w n K common (2 ^ n - 1) unique n-le common_K refl vs
                (n ∷ common ∷ []) (replicate z 0) 0 0 w pos (omega arith) (omega arith)
                (unique-lt n K xs)
              ∙ ap ok (restored_unique n K xs share));
        }
