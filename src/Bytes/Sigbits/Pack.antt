-- ===== src/Bytes/Sigbits/Pack.antt =====
-- A packer with no buffer: it appends words. The encoder of lib/pc_bytes.c writes what it appends.
use pointcloud.Common.{
  ℕ, zero, suc, ◌+◌, ◌-◌, ◌*◌, ◌/◌, ◌%◌, ◌^◌, ◌<◌, ◌≤◌, ◌≡◌, refl, ap, ◌∙◌, true, false, ◌==◌, leb,
  if◌then◌else◌, List, [], ◌∷◌, length, arith, All, le→leb, lt→leb,
}
use pointcloud.Common.Bits.{two_pow_pos, fields-lt, div-lt, mul-two_pow}
use native.Mathlib.Nat.{mod-lt}

-- `cur` is the current word, whose low `bit` bits are free.
unfoldable pub pack : ℕ → ℕ → ℕ → ℕ → List ℕ → List ℕ
pack w n cur bit [] = cur ∷ []
pack w n cur bit (v ∷ vs) =
    let s = n - bit in
    let full = (cur + v * 2 ^ (bit - n)) ∷ pack w n 0 w vs in
    let room = pack w n (cur + v * 2 ^ (bit - n)) (bit - n) vs in
    let cut = (cur + v / 2 ^ s) ∷ pack w n (v % 2 ^ s * 2 ^ (w - s)) (w - s) vs in
    if leb n bit then (if bit - n == 0 then full else room) else cut

pub data Room (n bit : ℕ) : Type 0 where
  more : n < bit → Room n bit
  exact : n ≡ bit → Room n bit
  less : bit < n → Room n bit

pub Room-for : (n bit : ℕ) → Room n bit
Room-for zero zero = exact refl
Room-for zero (suc bit) = more (omega arith)
Room-for (suc n) zero = less (omega arith)
Room-for (suc n) (suc bit) = elim (Room-for n bit) [
  | more h ↦ more (omega arith)
  | exact e ↦ exact (ap suc e)
  | less h ↦ less (omega arith)
]

module _ (w n cur bit v : ℕ) (vs : List ℕ) where
  pub pack-more :
      n < bit → pack w n cur bit (v ∷ vs) ≡ pack w n (cur + v * 2 ^ (bit - n)) (bit - n) vs
  unfolding pack
  pack-more h = rw (le→leb n bit (omega arith), no_bits)
    where
      no_bits : (bit - n == 0) ≡ false
      no_bits = ground arith

  pub pack-exact : n ≡ bit → pack w n cur bit (v ∷ vs) ≡ (cur + v) ∷ pack w n 0 w vs
  unfolding pack
  pack-exact e =
      rw (le→leb n bit (omega arith), no_bits) (ap (λ t. (cur + t) ∷ pack w n 0 w vs) whole)
    where
      no_bits : (bit - n == 0) ≡ true
      no_bits = ground arith

      whole : v * 2 ^ (bit - n) ≡ v
      whole = omega (arith, ap (λ (t : ℕ). v * 2 ^ t) none_left)
        where
          none_left : bit - n ≡ 0
          none_left = omega arith

  pub pack-less :
      bit < n
      → pack w n cur bit (v ∷ vs)
        ≡ (cur + v / 2 ^ (n - bit))
          ∷ pack w n (v % 2 ^ (n - bit) * 2 ^ (w - (n - bit))) (w - (n - bit)) vs
  unfolding pack
  pack-less h = rw (lt→leb n bit h)

pub length-pack_pos : (w n cur bit : ℕ) (vs : List ℕ) → 1 ≤ length (pack w n cur bit vs)
unfolding pack
length-pack_pos w n cur bit [] = omega arith
length-pack_pos w n cur bit (v ∷ vs) =
    ground (arith, length-pack_pos w n (cur + v * 2 ^ (bit - n)) (bit - n) vs)

module _ (w n : ℕ) (pos : 1 ≤ n) (fits : n ≤ w) where
  -- The words are as many as the bits need, and one more where these end with a word.
  pub length-pack :
      (vs : List ℕ) (cur bit : ℕ)
      → 1 ≤ bit
      → bit ≤ w
      → w * length (pack w n cur bit vs) + bit ≤ w + w + n * length vs
  length-pack [] cur bit lo hi = unfold pack in omega arith
  length-pack (v ∷ vs) cur bit lo hi = elim (Room-for n bit) [
    | more h ↦ rw (pack-more w n cur bit v vs h) (
        omega
          (arith, length-pack vs (cur + v * 2 ^ (bit - n)) (bit - n) (omega arith) (omega arith)))
    | exact e ↦
        rw (pack-exact w n cur bit v vs e)
          (omega (arith, length-pack vs 0 w (omega arith) (omega arith)))
    | less h ↦ rw (pack-less w n cur bit v vs h) (
        omega (
          arith,
          length-pack vs (v % 2 ^ (n - bit) * 2 ^ (w - (n - bit))) (w - (n - bit)) (omega arith)
              (omega arith),
        ))
  ]

  -- The first word is the current one with some of its free bits set.
  pub pack_head :
      (vs : List ℕ) (cur bit : ℕ)
      → 1 ≤ bit
      → bit ≤ w
      → All (λ v. v < 2 ^ n) vs
      → (x : ℕ) × (rest : List ℕ) × (pack w n cur bit vs ≡ (cur + x) ∷ rest) × (x < 2 ^ bit)
  pack_head [] cur bit lo hi h =
      (0, [], unfold pack in ap (λ (t : ℕ). t ∷ []) (omega arith), two_pow_pos bit)
  pack_head (v ∷ vs) cur bit lo hi (hv, h) = elim (Room-for n bit) [
    | more m ↦
        let (x, rest, e, lt) =
          pack_head vs (cur + v * 2 ^ (bit - n)) (bit - n) (omega arith) (omega arith) h in
        (
          v * 2 ^ (bit - n) + x,
          rest,
          pack-more w n cur bit v vs m ∙ e ∙ ap (λ (t : ℕ). t ∷ rest) (omega arith),
          fields-lt v n (bit - n) x hv lt (omega arith),
        )
    | exact e ↦ (v, _, pack-exact w n cur bit v vs e, rw (← e) hv)
    | less m ↦ (
      v / 2 ^ (n - bit),
      _,
      pack-less w n cur bit v vs m,
      div-lt v bit (n - bit) hv (omega arith),
    )
  ]

  -- Every packed word fits its type.
  pub pack-lt :
      (vs : List ℕ) (cur c bit : ℕ)
      → 1 ≤ bit
      → bit ≤ w
      → cur ≡ c * 2 ^ bit
      → c < 2 ^ (w - bit)
      → All (λ v. v < 2 ^ n) vs
      → All (λ x. x < 2 ^ w) (pack w n cur bit vs)
  pack-lt [] cur c bit lo hi e lt h =
      unfold pack in
      (omega (arith, e, fields-lt c (w - bit) bit 0 {j = w} lt (two_pow_pos bit) (omega arith)), tt)
  pack-lt (v ∷ vs) cur c bit lo hi e lt (hv, h) = elim (Room-for n bit) [
    | more m ↦ rw (pack-more w n cur bit v vs m) (
        pack-lt vs _ (c * 2 ^ n + v) (bit - n) (omega arith) (omega arith)
          (omega (arith, e, mul-two_pow c n (bit - n) {j = bit} (omega arith)))
          (fields-lt c (w - bit) n v {j = w - (bit - n)} lt hv (omega arith)) h)
    | exact m ↦ rw (pack-exact w n cur bit v vs m) (
      omega (arith, e, fields-lt c (w - bit) bit v {j = w} lt (rw (← m) hv) (omega arith)),
      pack-lt vs 0 0 w (omega arith) (omega arith) (omega arith) (two_pow_pos (w - w)) h,
    )
    | less m ↦ rw (pack-less w n cur bit v vs m) (
      omega (
        arith,
        e,
        fields-lt c (w - bit) bit (v / 2 ^ (n - bit)) {j = w} lt
            (div-lt v bit (n - bit) hv (omega arith)) (omega arith),
      ),
      pack-lt vs _ (v % 2 ^ (n - bit)) (w - (n - bit)) (omega arith) (omega arith) refl
          (rw (unused m) (mod-lt v (two_pow_pos (n - bit)))) h,
    )
  ]
    where
      unused : bit < n → w - (w - (n - bit)) ≡ n - bit
      unused m = omega arith
