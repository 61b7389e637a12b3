-- ===== src/Schema/Offsets.antt =====
-- lib/pc_schema.c: the byte offsets that `pc_schema_calculate_byteoffsets` computes.
use pointcloud.Common.{
  ◌∙◌, ℕ, zero, suc, ◌+◌, ◌*◌, ◌%◌, ◌^◌, ◌≤◌, ◌<◌, ◌≡◌, refl, ap, List, [], ◌∷◌, length, set, take,
  get_elem?, Option, none, some, arith,
}
use pointcloud.Common.Result.{ok, some_injective}
use pointcloud.Bytes.{interpretation_size, u32}
use pointcloud.Schema.{Dimension, Schema, ndims, place, schema_calculate_byteoffsets}

-- The bytes of a value.
unfoldable pub width : ℕ → ℕ
width zero = 0
width (suc zero) = 1
width (suc (suc zero)) = 1
width (suc (suc (suc zero))) = 2
width (suc (suc (suc (suc zero)))) = 2
width (suc (suc (suc (suc (suc zero))))) = 4
width (suc (suc (suc (suc (suc (suc zero)))))) = 4
width (suc (suc (suc (suc (suc (suc (suc zero))))))) = 8
width (suc (suc (suc (suc (suc (suc (suc (suc zero)))))))) = 8
width (suc (suc (suc (suc (suc (suc (suc (suc (suc zero))))))))) = 8
width (suc (suc (suc (suc (suc (suc (suc (suc (suc (suc n)))))))))) = 4

-- An interpretation other than `PC_UNKNOWN`.
abbrev pub IsKnown : ℕ → Type 0
IsKnown i = (1 ≤ i) × (i < 11)

pub interpretation_size_known : (i : ℕ) → IsKnown i → interpretation_size i ≡ ok (width i)
unfolding interpretation_size width
interpretation_size_known zero h = absurd (omega arith)
interpretation_size_known (suc zero) h = refl
interpretation_size_known (suc (suc zero)) h = refl
interpretation_size_known (suc (suc (suc zero))) h = refl
interpretation_size_known (suc (suc (suc (suc zero)))) h = refl
interpretation_size_known (suc (suc (suc (suc (suc zero))))) h = refl
interpretation_size_known (suc (suc (suc (suc (suc (suc zero)))))) h = refl
interpretation_size_known (suc (suc (suc (suc (suc (suc (suc zero))))))) h = refl
interpretation_size_known (suc (suc (suc (suc (suc (suc (suc (suc zero)))))))) h = refl
interpretation_size_known (suc (suc (suc (suc (suc (suc (suc (suc (suc zero))))))))) h = refl
interpretation_size_known (suc (suc (suc (suc (suc (suc (suc (suc (suc (suc zero)))))))))) h = refl
interpretation_size_known (suc (suc (suc (suc (suc (suc (suc (suc (suc (suc (suc n))))))))))) h =
    absurd (omega arith)

pub width-le : (i : ℕ) → width i ≤ 8
unfolding width
width-le zero = omega arith
width-le (suc zero) = omega arith
width-le (suc (suc zero)) = omega arith
width-le (suc (suc (suc zero))) = omega arith
width-le (suc (suc (suc (suc zero)))) = omega arith
width-le (suc (suc (suc (suc (suc zero))))) = omega arith
width-le (suc (suc (suc (suc (suc (suc zero)))))) = omega arith
width-le (suc (suc (suc (suc (suc (suc (suc zero))))))) = omega arith
width-le (suc (suc (suc (suc (suc (suc (suc (suc zero)))))))) = omega arith
width-le (suc (suc (suc (suc (suc (suc (suc (suc (suc zero))))))))) = omega arith
width-le (suc (suc (suc (suc (suc (suc (suc (suc (suc (suc n)))))))))) = omega arith

module _ {ℓ} {D : Type ℓ} where
  -- The dimensions that are there have interpretations that are known.
  abbrev pub AllKnown : List (Option (Dimension D)) → Type 0
  AllKnown [] = Unit
  AllKnown (none ∷ dims) = AllKnown dims
  AllKnown (some d ∷ dims) = IsKnown d.interpretation × AllKnown dims

  unfoldable pub total_width : List (Option (Dimension D)) → ℕ
  total_width [] = 0
  total_width (none ∷ dims) = total_width dims
  total_width (some d ∷ dims) = width d.interpretation + total_width dims

  -- Each dimension stands behind the ones before it.
  unfoldable pub laid_out : ℕ → List (Option (Dimension D)) → List (Option (Dimension D))
  laid_out start [] = []
  laid_out start (none ∷ dims) = none ∷ laid_out start dims
  laid_out start (some d ∷ dims) =
      some (record d { byteoffset = start; size = width d.interpretation })
      ∷ laid_out (start + width d.interpretation) dims

  pub total_width-le : (dims : List (Option (Dimension D))) → total_width dims ≤ 8 * length dims
  unfolding total_width
  total_width-le [] = omega arith
  total_width-le (none ∷ dims) = omega (arith, total_width-le dims)
  total_width-le (some d ∷ dims) = omega (arith, width-le d.interpretation, total_width-le dims)

  pub length-laid_out :
      (start : ℕ) (dims : List (Option (Dimension D))) → length (laid_out start dims) ≡ length dims
  unfolding laid_out
  length-laid_out start [] = refl
  length-laid_out start (none ∷ dims) = ap suc (length-laid_out start dims)
  length-laid_out start (some d ∷ dims) =
      ap suc (length-laid_out (start + width d.interpretation) dims)

  pub place-laid_out :
      (start : ℕ) (dims : List (Option (Dimension D)))
      → AllKnown dims
      → start + total_width dims < 2 ^ 32
      → place start dims ≡ ok (laid_out start dims, start + total_width dims)
  unfolding place laid_out total_width
  place-laid_out start [] k h = ap (λ (t : ℕ). ok ([], t)) (omega arith)
  place-laid_out start (none ∷ dims) k h = rw (place-laid_out start dims k h)
  place-laid_out start (some d ∷ dims) k h = rw (
    interpretation_size_known d.interpretation k.0,
    wrap,
    wide,
    narrow,
    place-laid_out (start + width d.interpretation) dims k.1 (omega arith),
    assoc,
  )
    where
      wide : u32 (width d.interpretation) ≡ width d.interpretation
      wide = omega arith

      narrow : u32 start ≡ start
      narrow = omega arith

      wrap : (start + u32 (width d.interpretation)) % 2 ^ 64 ≡ start + width d.interpretation
      wrap = omega arith

      assoc :
          start + width d.interpretation + total_width dims
          ≡ start + (width d.interpretation + total_width dims)
      assoc = omega arith

  -- The dimension at a position stands behind those before it.
  pub get_elem?-laid_out :
      (start : ℕ) (dims : List (Option (Dimension D))) (i : ℕ) (d : Dimension D)
      → get_elem? dims i ≡ some (some d)
      → get_elem? (laid_out start dims) i
        ≡ some (
            some (record d {
              byteoffset = start + total_width (take i dims);
              size = width d.interpretation;
            }))
  unfolding laid_out total_width
  get_elem?-laid_out start [] i d e = cc
  get_elem?-laid_out start (none ∷ dims) zero d e = cc
  get_elem?-laid_out start (none ∷ dims) (suc i) d e = get_elem?-laid_out start dims i d e
  get_elem?-laid_out start (some c ∷ dims) zero d e =
      ap
        (λ (x : Dimension D).
          some (some (record x { byteoffset = start; size = width x.interpretation })))
        (some_injective (some_injective e))
      ∙ ap (λ (k : ℕ). some (some (record d { byteoffset = k; size = width d.interpretation })))
          (omega arith)
  get_elem?-laid_out start (some c ∷ dims) (suc i) d e =
      get_elem?-laid_out (start + width c.interpretation) dims i d e
      ∙ ap (λ (k : ℕ). some (some (record d { byteoffset = k; size = width d.interpretation })))
          (omega arith)

  pub AllKnown-set :
      (dims : List (Option (Dimension D))) (i : ℕ) (d : Dimension D)
      → AllKnown dims
      → IsKnown d.interpretation
      → AllKnown (set dims i (some d))
  AllKnown-set [] i d k h = tt
  AllKnown-set (none ∷ dims) zero d k h = (h, k)
  AllKnown-set (none ∷ dims) (suc i) d k h = AllKnown-set dims i d k h
  AllKnown-set (some e ∷ dims) zero d k h = (h, k.1)
  AllKnown-set (some e ∷ dims) (suc i) d k h = (k.0, AllKnown-set dims i d k.1 h)

module _ {ℓ} {D T : Type ℓ} where
  pub schema_calculate_byteoffsets-laid_out :
      (s : Schema D T)
      → AllKnown s.dims
      → ndims s < 2 ^ 29
      → schema_calculate_byteoffsets s
        ≡ ok (record s { dims = laid_out 0 s.dims; size = total_width s.dims })
  unfolding schema_calculate_byteoffsets
  schema_calculate_byteoffsets-laid_out s k h =
      rw (place-laid_out 0 s.dims k (omega (arith, total_width-le s.dims)), ← zero_add)
    where
      zero_add : total_width s.dims ≡ 0 + total_width s.dims
      zero_add = omega arith
