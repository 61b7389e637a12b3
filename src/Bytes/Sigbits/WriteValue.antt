-- ===== src/Bytes/Sigbits/WriteValue.antt =====
-- One round of the encoders of lib/pc_bytes.c, by what is left of the current word.
use pointcloud.Common.{
  ℕ, ◌+◌, ◌-◌, ◌*◌, ◌/◌, ◌%◌, ◌^◌, ◌<◌, ◌≤◌, ◌≡◌, ap, bit_and, bit_or, true, false, ◌==◌, List, [],
  ◌∷◌, ◌++◌, length, arith, get_elem?-append, set-append, get_elem?-append_next, set-append_next,
  length-append, append_assoc, le→leb, lt→leb,
}
use pointcloud.Common.Result.{ok}
use pointcloud.Common.Bits.{
  two_pow_pos, two_pow_mono, bit_or-fields, bit_and-mask, fields-lt, div-lt, shift-mod, zero-bit_or,
}
use pointcloud.Bytes.Sigbits.{Writer, write_value}
use native.Mathlib.Nat.{mod-lt, mod-eq_of_lt}

-- The head stands at `cur`, behind the words `done`.
abbrev pub head_at : List ℕ → ℕ → List ℕ → ℕ → Writer
head_at done cur rest bit = record { out = done ++ (cur ∷ rest); at = length done; bit = bit }

module _ (w n mask : ℕ) (fits : n ≤ w) (ones : mask ≡ 2 ^ n - 1) where
  module _ (done rest : List ℕ) (c bit x : ℕ) where
    -- `|=` into the free bits of the current word is a sum.
    or_current : (y : ℕ) → y < 2 ^ bit → bit_or (c * 2 ^ bit) y ≡ c * 2 ^ bit + y
    or_current y h = bit_or-fields bit c y h

    masked : bit_and x mask ≡ x % 2 ^ n
    masked = rw (ones, bit_and-mask n x)

    unique_lt : x % 2 ^ n < 2 ^ n
    unique_lt = mod-lt x (two_pow_pos n)

    below : n ≤ bit → x % 2 ^ n * 2 ^ (bit - n) < 2 ^ bit
    below h = omega (
      arith,
      fields-lt (x % 2 ^ n) n (bit - n) 0 {j = bit} unique_lt (two_pow_pos (bit - n)) (omega arith),
    )

    uncut : n ≤ bit → bit ≤ w → x % 2 ^ n * 2 ^ (bit - n) % 2 ^ w ≡ x % 2 ^ n * 2 ^ (bit - n)
    uncut h hi = mod-eq_of_lt (omega (arith, below h, two_pow_mono bit w hi))

    pub write-more :
        n < bit
        → bit ≤ w
        → write_value w n mask (head_at done (c * 2 ^ bit) rest bit) x
          ≡ ok (head_at done (c * 2 ^ bit + x % 2 ^ n * 2 ^ (bit - n)) rest (bit - n))
    unfolding write_value
    write-more h hi = rw (
      masked,
      le→leb n bit (omega arith),
      get_elem?-append done _,
      uncut (omega arith) hi,
      set-append done _ rest _,
      or_current _ (below (omega arith)),
      no_bits,
    )
      where
        no_bits : (bit - n == 0) ≡ false
        no_bits = ground arith

    pub write-exact :
        n ≡ bit
        → bit ≤ w
        → write_value w n mask (head_at done (c * 2 ^ bit) rest bit) x
          ≡ ok (record {
            out = done ++ ((c * 2 ^ bit + x % 2 ^ n) ∷ rest);
            at = length done + 1;
            bit = w;
          })
    unfolding write_value
    write-exact e hi = rw (
      masked,
      le→leb n bit (omega arith),
      get_elem?-append done _,
      uncut (omega arith) hi,
      set-append done _ rest _,
      or_current _ (below (omega arith)),
      no_bits,
      whole,
    )
      where
        no_bits : (bit - n == 0) ≡ true
        no_bits = ground arith

        none_left : bit - n ≡ 0
        none_left = omega arith

        whole : x % 2 ^ n * 2 ^ (bit - n) ≡ x % 2 ^ n
        whole = omega (arith, ap (λ (t : ℕ). x % 2 ^ n * 2 ^ t) none_left)

    pub write-less :
        1 ≤ bit
        → bit < n
        → write_value w n mask (head_at done (c * 2 ^ bit) (0 ∷ rest) bit) x
          ≡ ok (record {
            out =
                done
                ++ ((c * 2 ^ bit + x % 2 ^ n / 2 ^ (n - bit))
                    ∷ (x % 2 ^ n % 2 ^ (n - bit) * 2 ^ (w - (n - bit)))
                    ∷ rest);
            at = length done + 1;
            bit = w - (n - bit);
          })
    unfolding write_value
    write-less lo h = rw (
      masked,
      lt→leb n bit h,
      get_elem?-append done _,
      set-append done _ (0 ∷ rest) _,
      get_elem?-append_next done _ (0 ∷ rest),
      set-append_next done _ 0 rest _,
      zero-bit_or,
      or_current _ (div-lt (x % 2 ^ n) bit (n - bit) unique_lt (omega arith)),
      shift-mod (x % 2 ^ n) (n - bit) (w - (n - bit)) {j = w} (omega arith),
    )

pub head_at-next :
    (done : List ℕ) (h cur bit : ℕ) (rest : List ℕ)
    → ◌≡◌ {A = Writer}
        (record { out = done ++ (h ∷ cur ∷ rest); at = length done + 1; bit = bit })
        (head_at (done ++ (h ∷ [])) cur rest bit)
head_at-next done h cur bit rest = cc (append_assoc done (h ∷ []) (cur ∷ rest), length-snoc)
  where
    length-snoc : length (done ++ (h ∷ [])) ≡ length done + 1
    length-snoc = length-append done (h ∷ [])
