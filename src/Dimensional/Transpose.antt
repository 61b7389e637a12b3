-- ===== src/Dimensional/Transpose.antt =====
-- lib/pc_patch_dimensional.c, lib/pc_patch_uncompressed.c: the values of the points go into a buffer
-- for each dimension, and back.
use pointcloud.Common.{
  ℕ, zero, suc, ◌+◌, ◌*◌, ◌≤◌, ◌<◌, ◌≡◌, refl, sym, ap, ◌∙◌, List, [], ◌∷◌, ◌++◌, length, take,
  drop, Option, none, some, arith, length-append, length-take, length-drop, take_all, All,
}
use mathlib.Core.Path.{subst}
use pointcloud.Bytes.Valid.{drop-drop}
use pointcloud.Memory.{take-drop-append, drop-append_beyond}
use pointcloud.Schema.{Dimension, Schema}
use pointcloud.Schema.Offsets.{width, IsKnown, AllKnown, total_width, laid_out}
use pointcloud.Schema.Fields.{IsLaid}
use pointcloud.Dimensional.Counted.{IsThere}

-- The values of `n` points of `size` bytes at an offset in each, one after the other.
unfoldable pub column : ℕ → ℕ → ℕ → ℕ → List ℕ → List ℕ
column size offset w zero points = []
column size offset w (suc n) points =
    take w (drop offset points) ++ column size offset w n (drop size points)

suc-add : (n m : ℕ) → suc n + m ≡ suc (n + m)
suc-add n m = omega arith

pub take-add : (n m : ℕ) (xs : List ℕ) → take (n + m) xs ≡ take n xs ++ take m (drop n xs)
take-add zero m xs = ap (λ (k : ℕ). take k xs) (omega arith)
take-add (suc n) zero [] = ap (λ (k : ℕ). take k []) (suc-add n 0)
take-add (suc n) (suc m) [] = ap (λ (k : ℕ). take k []) (suc-add n (suc m))
take-add (suc n) m (x ∷ xs) =
    ap (λ (k : ℕ). take k (x ∷ xs)) (suc-add n m) ∙ ap (λ t. x ∷ t) (take-add n m xs)

module _ (size offset w : ℕ) (within : offset + w ≤ size) where
  value_wide : (points : List ℕ) → size ≤ length points → length (take w (drop offset points)) ≡ w
  value_wide points h = omega (arith, length-take w (drop offset points), length-drop offset points)

  pub length-column :
      (n : ℕ) (points : List ℕ)
      → n * size ≤ length points
      → length (column size offset w n points) ≡ w * n
  unfolding column
  length-column zero points h = omega arith
  length-column (suc n) points h = omega (
    arith,
    length-append (take w (drop offset points)) (column size offset w n (drop size points)),
    value_wide points (omega arith),
    length-column n (drop size points) (omega (arith, length-drop size points)),
  )

  -- The value of point `i`.
  pub take-drop-column :
      (n i : ℕ) (points : List ℕ)
      → i < n
      → n * size ≤ length points
      → take w (drop (w * i) (column size offset w n points))
        ≡ take w (drop offset (drop (i * size) points))
  unfolding column
  take-drop-column zero i points lt h = absurd (omega arith)
  take-drop-column (suc n) zero points lt h =
      let wide = value_wide points (omega arith) in
      ap (λ (k : ℕ). take w (drop k (column size offset w (suc n) points))) (none_before w)
      ∙ take-drop-append w 0 (take w (drop offset points))
          (column size offset w n (drop size points)) (omega (arith, wide))
      ∙ take_all w (take w (drop offset points)) (omega (arith, wide))
      ∙ ap (λ (k : ℕ). take w (drop offset (drop k points))) (sym (nothing size))
    where
      none_before : (w : ℕ) → w * 0 ≡ 0
      none_before w = omega arith

      nothing : (size : ℕ) → 0 * size ≡ 0
      nothing size = omega arith
  take-drop-column (suc n) (suc i) points lt h =
      ap (take w) (
        drop-append_beyond (w * suc i) (w * i) (take w (drop offset points))
          (column size offset w n (drop size points))
          (omega (arith, value_wide points (omega arith))))
      ∙ take-drop-column n i (drop size points) (omega arith)
          (omega (arith, length-drop size points))
      ∙ ap (λ t. take w (drop offset t))
          (drop-drop size (i * size) points ∙ ap (λ (k : ℕ). drop k points) (omega arith))

-- The fields fill the points of a size from an offset on.
abbrev pub Row {ℓ} : {D : Type ℓ} → ℕ → ℕ → List (Option (Dimension D)) → Type 0
Row size offset [] = offset ≡ size
Row size offset (none ∷ dims) = ⊥
Row size offset (some d ∷ dims) =
    (d.byteoffset ≡ offset)
    × IsKnown d.interpretation
    × (d.size ≡ width d.interpretation)
    × Row size (offset + d.size) dims

module _ {ℓ} {D : Type ℓ} where
  pub Row-le :
      (size offset : ℕ) (dims : List (Option (Dimension D))) → Row size offset dims → offset ≤ size
  Row-le size offset [] row = omega arith
  Row-le size offset (none ∷ dims) row = absurd row
  Row-le size offset (some d ∷ dims) row =
      let (at, known, wide, rest) = row in omega (arith, Row-le size (offset + d.size) dims rest)

  Row-laid_out :
      (offset : ℕ) (dims : List (Option (Dimension D)))
      → AllKnown dims
      → All IsThere dims
      → Row (offset + total_width dims) offset (laid_out offset dims)
  unfolding laid_out total_width
  Row-laid_out offset [] known there = omega arith
  Row-laid_out offset (none ∷ dims) known ((d, e), there) = cc
  Row-laid_out offset (some d ∷ dims) known there = (
    refl,
    known.0,
    refl,
    subst
        (λ (k : ℕ).
          Row k (offset + width d.interpretation) (laid_out (offset + width d.interpretation) dims))
        (omega arith) (Row-laid_out (offset + width d.interpretation) dims known.1 there.1),
  )

pub IsLaid-Row {ℓ} :
    {D T : Type ℓ} (s : Schema D T) → IsLaid s → All IsThere s.dims → Row s.size 0 s.dims
IsLaid-Row s laid there =
    subst (λ (k : ℕ). Row k 0 s.dims) (total ∙ sym laid.sized)
      (subst (λ t. Row (0 + total_width s.dims) 0 t) laid.placed
        (Row-laid_out 0 s.dims laid.known there))
  where
    total : 0 + total_width s.dims ≡ total_width s.dims
    total = omega arith
