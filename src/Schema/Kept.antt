-- ===== src/Schema/Kept.antt =====
-- lib/pc_schema.c: what the calculation of offsets leaves alone.
use mathlib.Core.Path.{subst}
use pointcloud.Common.{
  ℕ, zero, suc, ◌+◌, ◌%◌, ◌^◌, ◌≡◌, refl, sym, ap, ◌∙◌, List, [], ◌∷◌, length, set, Option, none,
  some, arith,
}
use pointcloud.Common.Result.{ok, bind_returned, ok_injective}
use pointcloud.Bytes.{interpretation_size, u32}
use pointcloud.Schema.{Dimension, place}
use pointcloud.Schema.Offsets.{AllKnown}
use pointcloud.Schema.Clone.{Positioned}

module _ {ℓ} {D : Type ℓ} where
  -- The same dimensions but for their offsets and sizes.
  abbrev pub Kept : List (Option (Dimension D)) → List (Option (Dimension D)) → Type 0
  Kept [] [] = Unit
  Kept (none ∷ xs) (none ∷ ys) = Kept xs ys
  Kept (some a ∷ xs) (some b ∷ ys) =
      (a.position ≡ b.position) × (a.interpretation ≡ b.interpretation) × Kept xs ys
  Kept xs ys = ⊥

  pub place-Kept :
      (start : ℕ) (dims : List (Option (Dimension D))) {r : List (Option (Dimension D)) × ℕ}
      → place start dims ≡ ok r
      → Kept dims r.0
  unfolding place
  place-Kept start [] e = subst (Kept []) (ap (λ r. r.0) (ok_injective e)) tt
  place-Kept start (none ∷ dims) e =
      let (rest, placed, same) = bind_returned (place start dims) _ e in
      subst (Kept (none ∷ dims)) (ap (λ r. r.0) (ok_injective same)) (place-Kept start dims placed)
  place-Kept start (some d ∷ dims) e =
      let (size, sized, more) = bind_returned (interpretation_size d.interpretation) _ e in
      let (rest, placed, same) = bind_returned (place ((start + u32 size) % 2 ^ 64) dims) _ more in
      subst (Kept (some d ∷ dims)) (ap (λ r. r.0) (ok_injective same))
        (refl, refl, place-Kept ((start + u32 size) % 2 ^ 64) dims placed)

  pub Kept-Positioned :
      (i : ℕ) (xs ys : List (Option (Dimension D))) → Kept xs ys → Positioned i xs → Positioned i ys
  Kept-Positioned i [] [] k h = tt
  Kept-Positioned i [] (y ∷ ys) k h = absurd k
  Kept-Positioned i (none ∷ xs) [] k h = absurd k
  Kept-Positioned i (some a ∷ xs) [] k h = absurd k
  Kept-Positioned i (none ∷ xs) (none ∷ ys) k h = Kept-Positioned (suc i) xs ys k h
  Kept-Positioned i (none ∷ xs) (some b ∷ ys) k h = absurd k
  Kept-Positioned i (some a ∷ xs) (none ∷ ys) k h = absurd k
  Kept-Positioned i (some a ∷ xs) (some b ∷ ys) (p, t, k) (at, h) =
      (sym p ∙ at, Kept-Positioned (suc i) xs ys k h)

  pub Kept-AllKnown : (xs ys : List (Option (Dimension D))) → Kept xs ys → AllKnown ys → AllKnown xs
  Kept-AllKnown [] [] k h = tt
  Kept-AllKnown [] (y ∷ ys) k h = absurd k
  Kept-AllKnown (none ∷ xs) [] k h = absurd k
  Kept-AllKnown (some a ∷ xs) [] k h = absurd k
  Kept-AllKnown (none ∷ xs) (none ∷ ys) k h = Kept-AllKnown xs ys k h
  Kept-AllKnown (none ∷ xs) (some b ∷ ys) k h = absurd k
  Kept-AllKnown (some a ∷ xs) (none ∷ ys) k h = absurd k
  Kept-AllKnown (some a ∷ xs) (some b ∷ ys) (p, t, k) (known, h) =
      ((omega (arith, known.0), omega (arith, known.1)), Kept-AllKnown xs ys k h)

  pub length-Kept : (xs ys : List (Option (Dimension D))) → Kept xs ys → length xs ≡ length ys
  length-Kept [] [] k = refl
  length-Kept [] (y ∷ ys) k = absurd k
  length-Kept (none ∷ xs) [] k = absurd k
  length-Kept (some a ∷ xs) [] k = absurd k
  length-Kept (none ∷ xs) (none ∷ ys) k = ap suc (length-Kept xs ys k)
  length-Kept (none ∷ xs) (some b ∷ ys) k = absurd k
  length-Kept (some a ∷ xs) (none ∷ ys) k = absurd k
  length-Kept (some a ∷ xs) (some b ∷ ys) (p, t, k) = ap suc (length-Kept xs ys k)

  pub Positioned-set :
      (i : ℕ) (dims : List (Option (Dimension D))) (k : ℕ) (d : Dimension D)
      → Positioned i dims
      → d.position ≡ i + k
      → Positioned i (set dims k (some d))
  Positioned-set i [] k d h e = tt
  Positioned-set i (none ∷ dims) zero d h e = (omega arith, h)
  Positioned-set i (some c ∷ dims) zero d h e = (omega arith, h.1)
  Positioned-set i (none ∷ dims) (suc k) d h e = Positioned-set (suc i) dims k d h (omega arith)
  Positioned-set i (some c ∷ dims) (suc k) d h e =
      (h.0, Positioned-set (suc i) dims k d h.1 (omega arith))
