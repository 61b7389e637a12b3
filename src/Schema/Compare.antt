-- ===== src/Schema/Compare.antt =====
-- lib/pc_schema.c: asking whether two schemas place their dimensions alike, and whether they read
-- them alike.
use mathlib.Core.Path.{subst}
use pointcloud.Common.{
  ℕ, ◌+◌, ◌≡◌, refl, ap, ap₂, Bool, true, false, not, ◌&&◌, ◌==◌, if◌then◌else◌, List, [], ◌∷◌,
  length, Option, none, some, arith,
}
use pointcloud.Common.Result.{Result, ok, fail, undefined, out_of_bounds, ◌>>=◌}
use pointcloud.Value.{Doubles}
use pointcloud.Text.{same_nocase}
use pointcloud.Schema.{Dimension, Hashtable, Schema, ndims, schema_get_dimension_by_name}
use pointcloud.Schema.Offsets.{width, total_width, laid_out}
use pointcloud.Schema.Fields.{IsLaid}

-- A pointer that the code follows without asking whether it is null.
abbrev pub followed {ℓ} : {A : Type ℓ} → Option A → Result A
followed none = fail undefined
followed (some a) = ok a

module _ {ℓ} {D : Type ℓ} where
  -- The loop over `i < s1->ndims`, with its two early returns in one.
  unfoldable pub same_dimensions_loop :
      List (Option (Dimension D)) → List (Option (Dimension D)) → Result Bool
  same_dimensions_loop [] dims2 = ok true
  same_dimensions_loop (x ∷ dims1) [] = fail out_of_bounds
  same_dimensions_loop (x ∷ dims1) (y ∷ dims2) = do
    s1dim ← followed x
    s2dim ← followed y
    name1 ← followed s1dim.name
    name2 ← followed s2dim.name
    let rest = same_dimensions_loop dims1 dims2
    if same_nocase name1 name2 && s1dim.interpretation == s2dim.interpretation
        then rest
        else ok false

module _ {ℓ} {D T : Type ℓ} where
  unfoldable pub schema_same_dimensions : Schema D T → Schema D T → Result Bool
  unfolding same_dimensions_loop
  schema_same_dimensions s1 s2 =
      if not (ndims s1 == ndims s2) then ok false else same_dimensions_loop s1.dims s2.dims

module _ {ℓ} {D T : Type ℓ} (doubles : Doubles D) (table : Hashtable T) where
  -- Whether two dimensions of one name are read alike.
  unfoldable pub read_alike : Dimension D → Dimension D → Bool
  read_alike s1dim s2dim =
      if not (s1dim.interpretation == s2dim.interpretation)
      then false
      else if not (doubles.equal s1dim.scaling.scale s2dim.scaling.scale)
      then false
      else if not (doubles.equal s1dim.scaling.offset s2dim.scaling.offset)
      then false
      else true

  -- The loop over the dimensions of `s2`.
  unfoldable pub same_interpretations_loop : Schema D T → List (Option (Dimension D)) → Result Bool
  unfolding schema_get_dimension_by_name read_alike
  same_interpretations_loop s1 [] = ok true
  same_interpretations_loop s1 (x ∷ dims2) = do
    s2dim ← followed x
    name ← followed s2dim.name
    let same = same_interpretations_loop s1 dims2
    elim (schema_get_dimension_by_name table s1 name) [
      | none ↦ same
      | some s1dim ↦ if read_alike s1dim s2dim then same else ok false
    ]

  unfoldable pub schema_same_interpretations : Schema D T → Schema D T → Result Bool
  unfolding same_interpretations_loop
  schema_same_interpretations s1 s2 =
      if not (s1.srid == s2.srid) then ok false else same_interpretations_loop s1 s2.dims

module _ {ℓ} {D : Type ℓ} where
  abbrev SameKinds : List (Option (Dimension D)) → List (Option (Dimension D)) → Type 0
  SameKinds [] [] = Unit
  SameKinds (some a ∷ xs) (some b ∷ ys) = (a.interpretation ≡ b.interpretation) × SameKinds xs ys
  SameKinds xs ys = ⊥

  -- Dimension by dimension, the bytes of a point are the same and are read as the same type.
  abbrev pub SameFields : List (Option (Dimension D)) → List (Option (Dimension D)) → Type 0
  SameFields [] [] = Unit
  SameFields (some a ∷ xs) (some b ∷ ys) =
      (a.byteoffset ≡ b.byteoffset)
      × (a.size ≡ b.size)
      × (a.interpretation ≡ b.interpretation)
      × SameFields xs ys
  SameFields xs ys = ⊥

  SameKinds-loop :
      (dims1 dims2 : List (Option (Dimension D)))
      → length dims1 ≡ length dims2
      → same_dimensions_loop dims1 dims2 ≡ ok true
      → SameKinds dims1 dims2
  unfolding same_dimensions_loop
  SameKinds-loop [] [] n e = tt
  SameKinds-loop [] (y ∷ dims2) n e = absurd (omega arith)
  SameKinds-loop (x ∷ dims1) [] n e = cc
  SameKinds-loop (none ∷ dims1) (y ∷ dims2) n e = cc
  SameKinds-loop (some a ∷ dims1) (none ∷ dims2) n e = cc
  SameKinds-loop (some a ∷ dims1) (some b ∷ dims2) n e = ground (arith, SameKinds-loop dims1 dims2)

  SameFields-laid_out :
      (start1 start2 : ℕ) (dims1 dims2 : List (Option (Dimension D)))
      → start1 ≡ start2
      → SameKinds dims1 dims2
      → SameFields (laid_out start1 dims1) (laid_out start2 dims2)
  unfolding laid_out
  SameFields-laid_out start1 start2 [] [] s h = tt
  SameFields-laid_out start1 start2 [] (y ∷ dims2) s h = absurd h
  SameFields-laid_out start1 start2 (none ∷ dims1) [] s h = absurd h
  SameFields-laid_out start1 start2 (some a ∷ dims1) [] s h = absurd h
  SameFields-laid_out start1 start2 (none ∷ dims1) (y ∷ dims2) s h = absurd h
  SameFields-laid_out start1 start2 (some a ∷ dims1) (none ∷ dims2) s h = absurd h
  SameFields-laid_out start1 start2 (some a ∷ dims1) (some b ∷ dims2) s (e, h) = (
    s,
    ap width e,
    e,
    SameFields-laid_out (start1 + width a.interpretation) (start2 + width b.interpretation) dims1
        dims2 (ap₂ ◌+◌ s (ap width e)) h,
  )

  total_width-SameKinds :
      (dims1 dims2 : List (Option (Dimension D)))
      → SameKinds dims1 dims2
      → total_width dims1 ≡ total_width dims2
  unfolding total_width
  total_width-SameKinds [] [] h = refl
  total_width-SameKinds [] (y ∷ dims2) h = absurd h
  total_width-SameKinds (none ∷ dims1) [] h = absurd h
  total_width-SameKinds (some a ∷ dims1) [] h = absurd h
  total_width-SameKinds (none ∷ dims1) (y ∷ dims2) h = absurd h
  total_width-SameKinds (some a ∷ dims1) (none ∷ dims2) h = absurd h
  total_width-SameKinds (some a ∷ dims1) (some b ∷ dims2) (e, h) =
      omega (arith, ap width e, total_width-SameKinds dims1 dims2 h)

module _ {ℓ} {D T : Type ℓ} where
  -- When two schemas have the same dimensions their points are equally wide and have, dimension by
  -- dimension, the same bytes, read as the same type. The offsets of both are calculated.
  pub schema_same_dimensions-SameFields :
      (s1 s2 : Schema D T)
      → IsLaid s1
      → IsLaid s2
      → schema_same_dimensions s1 s2 ≡ ok true
      → SameFields s1.dims s2.dims × (s1.size ≡ s2.size)
  unfolding schema_same_dimensions
  schema_same_dimensions-SameFields s1 s2 l1 l2 e =
      let same = SameKinds-loop s1.dims s2.dims (ground arith) (ground arith) in
      (
        subst (λ d. SameFields d s2.dims) l1.placed
            (subst (SameFields (laid_out 0 s1.dims)) l2.placed
              (SameFields-laid_out 0 0 s1.dims s2.dims refl same)),
        omega (arith, l1.sized, l2.sized, total_width-SameKinds s1.dims s2.dims same),
      )
