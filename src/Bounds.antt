-- ===== src/Bounds.antt =====
-- lib/pc_util.c: the rectangle that a patch covers, and its diagonal as a geometry.
use pointcloud.Common.{
  ℕ, ◌+◌, ◌*◌, ◌^◌, Bool, true, false, ◌||◌, ◌==◌, if◌then◌else◌, List, [], ◌∷◌, ◌++◌, bit_or,
}
use pointcloud.Bytes.Words.{bytes_of}
use pointcloud.Value.{Doubles}
use pointcloud.Wkb.{machine_endian}

pub record Bounds {ℓ} (D : Type ℓ) : Type ℓ where
  pub xmin : D
  pub xmax : D
  pub ymin : D
  pub ymax : D

module _ {ℓ} {D : Type ℓ} (doubles : Doubles D) where
  unfoldable pub bounds_intersects : Bounds D → Bounds D → Bool
  bounds_intersects b1 b2 =
      if doubles.less b2.xmax b1.xmin
        || doubles.less b1.xmax b2.xmin
        || doubles.less b2.ymax b1.ymin
        || doubles.less b1.ymax b2.ymin
      then false
      else true

  unfoldable pub bounds_init : Bounds D
  bounds_init = record {
    xmin = doubles.dbl_max;
    xmax = doubles.negate doubles.dbl_max;
    ymin = doubles.dbl_max;
    ymax = doubles.negate doubles.dbl_max;
  }

  unfoldable pub bounds_merge : Bounds D → Bounds D → Bounds D
  bounds_merge b1 b2 = record {
    xmin = if doubles.less b2.xmin b1.xmin then b2.xmin else b1.xmin;
    xmax = if doubles.less b1.xmax b2.xmax then b2.xmax else b1.xmax;
    ymin = if doubles.less b2.ymin b1.ymin then b2.ymin else b1.ymin;
    ymax = if doubles.less b1.ymax b2.ymax then b2.ymax else b1.ymax;
  }

  -- Growing bounds by a point.
  unfoldable pub bounds_add : Bounds D → D → D → Bounds D
  bounds_add b x y = record {
    xmin = if doubles.less x b.xmin then x else b.xmin;
    xmax = if doubles.less b.xmax x then x else b.xmax;
    ymin = if doubles.less y b.ymin then y else b.ymin;
    ymax = if doubles.less b.ymax y then y else b.ymax;
  }

  double_field : D → List ℕ
  double_field d = bytes_of 8 (doubles.double_bits d)

  unfoldable pub bounding_diagonal_wkb : Bounds D → ℕ → List ℕ × ℕ
  unfolding double_field
  bounding_diagonal_wkb bounds srid = (
    machine_endian
        ∷ (bytes_of 4 (if srid == 0 then 2 else bit_or 2 (2 ^ 29))
            ++ ((if srid == 0 then [] else bytes_of 4 srid)
                ++ (bytes_of 4 2
                    ++ (double_field bounds.xmin
                        ++ (double_field bounds.ymin
                            ++ (double_field bounds.xmax ++ double_field bounds.ymax)))))),
    (1 + 4 + 4 + 2 * 2 * 8) + (if srid == 0 then 0 else 4),
  )
