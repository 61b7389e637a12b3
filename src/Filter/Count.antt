-- ===== src/Filter/Count.antt =====
-- lib/pc_filter.c: `nset` is the number of points that a bitmap holds, after any `pc_bitmap_set`.
use pointcloud.Common.{
  ℕ, zero, suc, ◌+◌, ◌^◌, ◌<◌, ◌≡◌, refl, sym, ap, ◌∙◌, Bool, true, false, List, [], ◌∷◌, length,
  get_elem?, set, map, arith, some, none, length-set,
}
use pointcloud.Common.Result.{ok}
use pointcloud.Filter.{Pcbitmap, bitmap_set}
use pointcloud.Filter.Bitmap.{bit, count_true, count_true-le}

-- The bitmap says `bs` of its points, and counts those it holds.
pub record IsBitmap (bs : List Bool) (pcmap : Pcbitmap) : Type 0 where
  pub bits : pcmap.map ≡ map bit bs
  pub counted : pcmap.nset ≡ count_true bs
  pub covers : pcmap.npoints ≡ length bs
  pub small : length bs < 2 ^ 32

get-some : (bs : List Bool) (i : ℕ) → i < length bs → (c : Bool) × (get_elem? bs i ≡ some c)
get-some [] i h = absurd (omega arith)
get-some (b ∷ bs) zero h = (b, refl)
get-some (b ∷ bs) (suc i) h = get-some bs i (omega arith)

get-bits :
    (bs : List Bool) (i : ℕ) (c : Bool)
    → get_elem? bs i ≡ some c
    → get_elem? (map bit bs) i ≡ some (bit c)
get-bits [] zero c e = cc
get-bits [] (suc i) c e = cc
get-bits (b ∷ bs) zero c e = ap (λ o. elim o [ some x ↦ some (bit x) | none ↦ none ]) e
get-bits (b ∷ bs) (suc i) c e = get-bits bs i c e

set-bits : (bs : List Bool) (i : ℕ) (b : Bool) → set (map bit bs) i (bit b) ≡ map bit (set bs i b)
set-bits [] i b = refl
set-bits (c ∷ bs) zero b = refl
set-bits (c ∷ bs) (suc i) b = ap (λ t. bit c ∷ t) (set-bits bs i b)

-- Replacing one bit changes the count by it.
count_true-set :
    (bs : List Bool) (i : ℕ) (b c : Bool)
    → get_elem? bs i ≡ some c
    → count_true (set bs i b) + bit c ≡ count_true bs + bit b
unfolding count_true
count_true-set [] zero b c e = cc
count_true-set [] (suc i) b c e = cc
count_true-set (d ∷ bs) zero b c e =
    omega (arith, ap {B = ℕ} (λ o. elim o [ some x ↦ bit x | none ↦ 0 ]) e)
count_true-set (d ∷ bs) (suc i) b c e = omega (arith, count_true-set bs i b c e)

module _ (bs : List Bool) (pcmap : Pcbitmap) (i : ℕ) (h : IsBitmap bs pcmap) where
  after : Bool → Pcbitmap
  after b = record pcmap { nset = count_true (set bs i b); map = map bit (set bs i b) }

  length-after : (b : Bool) → length (set bs i b) ≡ length bs
  length-after b = length-set bs i b

  with_count :
      (b : Bool) (n : ℕ)
      → n ≡ count_true (set bs i b)
      → ok (record pcmap { nset = n; map = map bit (set bs i b) }) ≡ ok (after b)
  unfolding after
  with_count b n e = ap (λ (t : ℕ). ok (record pcmap { nset = t; map = map bit (set bs i b) })) e

  few : (b : Bool) → count_true (set bs i b) < 2 ^ 32
  few b = omega (arith, count_true-le (set bs i b), length-after b, h.small)

  set-after : (b c : Bool) → get_elem? bs i ≡ some c → bitmap_set pcmap i b ≡ ok (after b)
  unfolding bitmap_set
  set-after true true e =
      rw (h.bits, get-bits bs i true e, set-bits bs i true, h.counted)
        (with_count true _ (omega (arith, count_true-set bs i true true e)))
  set-after true false e =
      rw (h.bits, get-bits bs i false e, set-bits bs i true, h.counted)
        (with_count true _ (omega (arith, count_true-set bs i true false e, few true)))
  set-after false true e =
      rw (h.bits, get-bits bs i true e, set-bits bs i false, h.counted)
        (with_count false _ (omega (arith, count_true-set bs i false true e, few false)))
  set-after false false e =
      rw (h.bits, get-bits bs i false e, set-bits bs i false, h.counted)
        (with_count false _ (omega (arith, count_true-set bs i false false e)))

  -- Setting a point of a bitmap of fewer than 2^32 points returns, sets that point and no other, and
  -- keeps the count of the points that are set.
  pub bitmap_set-IsBitmap :
      (b : Bool)
      → i < length bs
      → (pcmap' : Pcbitmap) × (bitmap_set pcmap i b ≡ ok pcmap') × IsBitmap (set bs i b) pcmap'
  unfolding after
  bitmap_set-IsBitmap b lt =
      let (c, e) = get-some bs i lt in
      (
        after b,
        set-after b c e,
        record {
          bits = refl;
          counted = refl;
          covers = h.covers ∙ sym (length-after b);
          small = omega (arith, length-after b, h.small);
        },
      )
