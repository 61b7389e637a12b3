-- ===== src/Bytes/Sigbits/ReadValue.antt =====
-- One round of the decoders of lib/pc_bytes.c on packed words.
use pointcloud.Common.{
  ℕ, zero, suc, ◌+◌, ◌-◌, ◌*◌, ◌/◌, ◌%◌, ◌^◌, ◌<◌, ◌≤◌, ◌≡◌, refl, ap, ◌∙◌, bit_and, bit_or, Bool,
  false, ◌==◌, ◌&&◌, if◌then◌else◌, List, ◌∷◌, ◌++◌, length, get_elem?, arith, get_elem?-append,
  get_elem?-append_next, le→leb, lt→leb, Option-cases, inl, inr,
}
use pointcloud.Common.Result.{ok}
use pointcloud.Common.Bits.{
  two_pow_pos, two_pow_mono, bit_or-fields, bit_and-mask, mod-mod_le, mul-two_pow, zero-bit_or,
  bit_or_comm, div_unique, mod-fields, div-fields, mod_unique,
}
use pointcloud.Bytes.Sigbits.Decode.{Reader, read_value, read_loop}
use native.Mathlib.Nat.{mod-lt, mod-eq_of_lt, div-add-mod'}

abbrev pub head_at : ℕ → ℕ → Reader
head_at at bit = record { at = at; bit = bit }

-- `cv` is the common word: its low `n` bits are free for the unique part.
module _ (eager : Bool) (w n K cv mask : ℕ) (pos : 1 ≤ n) (fits : n ≤ w) (common : cv ≡ K * 2 ^ n)
    (ones : mask ≡ 2 ^ n - 1) where
  masked : (x : ℕ) → bit_and x mask ≡ x % 2 ^ n
  masked x = rw (ones, bit_and-mask n x)

  or_common : (v : ℕ) → v < 2 ^ n → bit_or v cv ≡ K * 2 ^ n + v
  or_common v h = bit_or_comm v cv ∙ rw common (bit_or-fields n K v h)

  module _ (done rest : List ℕ) (c bit v x : ℕ) (hv : v < 2 ^ n) where
    -- The unique part lies in one word.
    pub read-fit :
        n ≤ bit
        → x < 2 ^ (bit - n)
        → read_value eager w n cv mask
            (done ++ ((c * 2 ^ bit + v * 2 ^ (bit - n) + x) ∷ rest))
            (head_at (length done) bit)
          ≡ ok (
            K * 2 ^ n + v,
            if eager && bit - n == 0
                then head_at (length done + 1) w
                else head_at (length done) (bit - n),
          )
    unfolding read_value
    read-fit h hx = rw (
      le→leb n bit h,
      get_elem?-append done _,
      masked _,
      top,
      mod-fields c (2 ^ n) v hv,
      or_common v hv,
    )
      where
        top : (c * 2 ^ bit + v * 2 ^ (bit - n) + x) / 2 ^ (bit - n) ≡ c * 2 ^ n + v
        top =
            div_unique _ _ (2 ^ (bit - n)) x
              (omega (arith, mul-two_pow c n (bit - n) {j = bit} (omega arith))) hx

    -- The unique part is split over two words.
    pub read-cut :
        1 ≤ bit
        → bit < n
        → x < 2 ^ (w - (n - bit))
        → read_value eager w n cv mask
            (done
              ++ ((c * 2 ^ bit + v / 2 ^ (n - bit))
                  ∷ (v % 2 ^ (n - bit) * 2 ^ (w - (n - bit)) + x)
                  ∷ rest))
            (head_at (length done) bit)
          ≡ ok (K * 2 ^ n + v, head_at (length done + 1) (w - (n - bit)))
    unfolding read_value
    read-cut lo h hx = rw (
      lt→leb n bit h,
      get_elem?-append done _,
      get_elem?-append_next done _ _,
      masked ((c * 2 ^ bit + v / 2 ^ s) * 2 ^ s % 2 ^ w),
      mod-mod_le _ n (w - n) {j = w} (omega arith),
      front,
      or_common (v / 2 ^ s * 2 ^ s) front_lt,
      masked ((v % 2 ^ s * 2 ^ (w - s) + x) / 2 ^ (w - s)),
      div-fields (v % 2 ^ s) (2 ^ (w - s)) x hx,
      mod-eq_of_lt back_lt,
      joined,
    )
      where
        s : ℕ
        s = n - bit

        front_lt : v / 2 ^ s * 2 ^ s < 2 ^ n
        front_lt = omega (arith, div-add-mod' v (2 ^ s))

        front : (c * 2 ^ bit + v / 2 ^ s) * 2 ^ s % 2 ^ n ≡ v / 2 ^ s * 2 ^ s
        front =
            mod_unique _ c (2 ^ n) (v / 2 ^ s * 2 ^ s)
              (omega (arith, mul-two_pow c bit s {j = n} (omega arith))) front_lt

        back_lt : v % 2 ^ s < 2 ^ n
        back_lt = omega (arith, mod-lt v (two_pow_pos s), two_pow_mono s n (omega arith))

        joined : bit_or (K * 2 ^ n + v / 2 ^ s * 2 ^ s) (v % 2 ^ s) ≡ K * 2 ^ n + v
        joined =
            ap (λ (t : ℕ). bit_or t (v % 2 ^ s)) regroup
            ∙ bit_or-fields s (K * 2 ^ bit + v / 2 ^ s) (v % 2 ^ s) (mod-lt v (two_pow_pos s))
            ∙ omega (arith, regroup, div-add-mod' v (2 ^ s))
          where
            regroup : K * 2 ^ n + v / 2 ^ s * 2 ^ s ≡ (K * 2 ^ bit + v / 2 ^ s) * 2 ^ s
            regroup = omega (arith, mul-two_pow K bit s {j = n} (omega arith))

-- The 8-bit decoder at the end of a word reads on as if it stood at the start of the next.
module _ (w n K cv mask : ℕ) (pos : 1 ≤ n) (fits : n ≤ w) (common : cv ≡ K * 2 ^ n)
    (ones : mask ≡ 2 ^ n - 1) where
  lazy_value :
      (done : List ℕ) (h : ℕ) (ws : List ℕ)
      → read_value false w n cv mask (done ++ (h ∷ ws)) (head_at (length done) 0)
        ≡ read_value false w n cv mask (done ++ (h ∷ ws)) (head_at (length done + 1) w)
  unfolding read_value
  lazy_value done h ws =
      rw
        (
          lt→leb n 0 pos,
          le→leb n w fits,
          get_elem?-append done _,
          masked false w n K cv mask pos fits common ones _,
          mod-mod_le _ n (w - n) {j = w} (omega arith),
          all_read,
          zero-bit_or,
        )
        (elim (Option-cases (get_elem? (done ++ (h ∷ ws)) (length done + 1))) [
          | inl e ↦ rw e
          | inr (next, e) ↦ rw (e, whole, bit_or_comm cv)
        ])
    where
      whole : n - 0 ≡ n
      whole = omega arith

      all_read : h * 2 ^ (n - 0) % 2 ^ n ≡ 0
      all_read =
          mod_unique _ h (2 ^ n) 0 (omega (arith, ap (λ (t : ℕ). h * 2 ^ t) whole)) (two_pow_pos n)

  pub lazy_loop :
      (rounds : ℕ) (done : List ℕ) (h : ℕ) (ws : List ℕ)
      → read_loop false w n cv mask rounds (done ++ (h ∷ ws)) (head_at (length done) 0)
        ≡ read_loop false w n cv mask rounds (done ++ (h ∷ ws)) (head_at (length done + 1) w)
  unfolding read_loop
  lazy_loop zero done h ws = refl
  lazy_loop (suc rounds) done h ws = rw (lazy_value done h ws)
