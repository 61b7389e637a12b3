-- ===== src/Schema/Fields.antt =====
-- lib/pc_schema.c: the fields of a point, as `pc_schema_calculate_byteoffsets` and
-- `pc_schema_set_dimension` lay them out and `pc_schema_get_dimension` finds them.
use pointcloud.Common.{
  ℕ, zero, suc, ◌+◌, ◌^◌, ◌≤◌, ◌<◌, ◌≡◌, refl, sym, ap, ◌∙◌, List, [], ◌∷◌, length, get_elem?, set,
  Option, none, some, arith, length-set, lt→ltb, le→ltb, ltb, true, take,
}
use pointcloud.Common.Result.{ok}
use pointcloud.Schema.{
  Dimension, Hashtable, Schema, ndims, schema_set_dimension, schema_get_dimension, schema_get_size,
  schema_calculate_byteoffsets,
}
use pointcloud.Schema.Offsets.{
  width, IsKnown, AllKnown, total_width, laid_out, length-laid_out, AllKnown-set,
  schema_calculate_byteoffsets-laid_out, get_elem?-laid_out,
}

pub get_elem?_within {ℓ} :
    {A : Type ℓ} (xs : List A) (i : ℕ) → i < length xs → (x : A) × (get_elem? xs i ≡ some x)
get_elem?_within [] i h = absurd (omega arith)
get_elem?_within (x ∷ xs) zero h = (x, refl)
get_elem?_within (x ∷ xs) (suc i) h = get_elem?_within xs i (omega arith)

-- Where the dimension at a position begins, and that it is the one given.
module _ {ℓ} {D : Type ℓ} where
  starts_after :
      (start : ℕ) (dims : List (Option (Dimension D))) (j : ℕ) (b : Dimension D)
      → get_elem? (laid_out start dims) j ≡ some (some b)
      → (start ≤ b.byteoffset) × (b.byteoffset + b.size ≤ start + total_width dims)
  unfolding laid_out total_width
  starts_after start [] j b e = cc
  starts_after start (none ∷ dims) zero b e = cc
  starts_after start (none ∷ dims) (suc j) b e = starts_after start dims j b e
  starts_after start (some d ∷ dims) zero b e = ground arith
  starts_after start (some d ∷ dims) (suc j) b e =
      let ih = starts_after (start + width d.interpretation) dims j b e in
      (omega (arith, ih.0), omega (arith, ih.1))

  laid_out_disjoint :
      (start : ℕ) (dims : List (Option (Dimension D))) (i j : ℕ) (a b : Dimension D)
      → i < j
      → get_elem? (laid_out start dims) i ≡ some (some a)
      → get_elem? (laid_out start dims) j ≡ some (some b)
      → a.byteoffset + a.size ≤ b.byteoffset
  unfolding laid_out
  laid_out_disjoint start [] i j a b h e f = cc
  laid_out_disjoint start (x ∷ dims) zero zero a b h e f = absurd (omega arith)
  laid_out_disjoint start (x ∷ dims) (suc i) zero a b h e f = absurd (omega arith)
  laid_out_disjoint start (none ∷ dims) zero (suc j) a b h e f = cc
  laid_out_disjoint start (none ∷ dims) (suc i) (suc j) a b h e f =
      laid_out_disjoint start dims i j a b (omega arith) e f
  laid_out_disjoint start (some d ∷ dims) zero (suc j) a b h e f =
      let after = starts_after (start + width d.interpretation) dims j b f in
      ground (arith, after.0)
  laid_out_disjoint start (some d ∷ dims) (suc i) (suc j) a b h e f =
      laid_out_disjoint (start + width d.interpretation) dims i j a b (omega arith) e f

  laid_out-width :
      (start : ℕ) (dims : List (Option (Dimension D))) (j : ℕ) (b : Dimension D)
      → get_elem? (laid_out start dims) j ≡ some (some b)
      → b.size ≡ width b.interpretation
  unfolding laid_out
  laid_out-width start [] j b e = cc
  laid_out-width start (none ∷ dims) zero b e = cc
  laid_out-width start (none ∷ dims) (suc j) b e = laid_out-width start dims j b e
  laid_out-width start (some d ∷ dims) zero b e =
      ap (λ (o : Option (Option (Dimension D))). elim o [ some (some c) ↦ c.size | _ ↦ 0 ]) (sym e)
      ∙ ap width (
          ap
            (λ (o : Option (Option (Dimension D))). elim o [
              | some (some c) ↦ c.interpretation
              | _ ↦ 0
            ])
            e)
  laid_out-width start (some d ∷ dims) (suc j) b e =
      laid_out-width (start + width d.interpretation) dims j b e

  AllKnown-at :
      (dims : List (Option (Dimension D))) (j : ℕ) (b : Dimension D)
      → AllKnown dims
      → get_elem? dims j ≡ some (some b)
      → IsKnown b.interpretation
  AllKnown-at [] j b k e = cc
  AllKnown-at (none ∷ dims) zero b k e = cc
  AllKnown-at (none ∷ dims) (suc j) b k e = AllKnown-at dims j b k e
  AllKnown-at (some d ∷ dims) zero b k e =
      let same : d.interpretation ≡ b.interpretation =
        ap
          (λ (o : Option (Option (Dimension D))). elim o [
            | some (some c) ↦ c.interpretation
            | _ ↦ 0
          ])
          e in
      (omega (arith, k.0), omega (arith, k.0))
  AllKnown-at (some d ∷ dims) (suc j) b k e = AllKnown-at dims j b k.1 e

  pub laid_out_again :
      (start : ℕ) (dims : List (Option (Dimension D)))
      → laid_out start (laid_out start dims) ≡ laid_out start dims
  unfolding laid_out
  laid_out_again start [] = refl
  laid_out_again start (none ∷ dims) = ap (λ t. none ∷ t) (laid_out_again start dims)
  laid_out_again start (some d ∷ dims) =
      ap (λ t. some (record d { byteoffset = start; size = width d.interpretation }) ∷ t)
        (laid_out_again (start + width d.interpretation) dims)

  total_width-laid_out :
      (start : ℕ) (dims : List (Option (Dimension D)))
      → total_width (laid_out start dims) ≡ total_width dims
  unfolding laid_out total_width
  total_width-laid_out start [] = refl
  total_width-laid_out start (none ∷ dims) = total_width-laid_out start dims
  total_width-laid_out start (some d ∷ dims) =
      ap (λ (t : ℕ). width d.interpretation + t)
        (total_width-laid_out (start + width d.interpretation) dims)

  AllKnown-laid_out :
      (start : ℕ) (dims : List (Option (Dimension D)))
      → AllKnown dims
      → AllKnown (laid_out start dims)
  unfolding laid_out
  AllKnown-laid_out start [] k = tt
  AllKnown-laid_out start (none ∷ dims) k = AllKnown-laid_out start dims k
  AllKnown-laid_out start (some d ∷ dims) k =
      (k.0, AllKnown-laid_out (start + width d.interpretation) dims k.1)

-- A schema as `pc_schema_calculate_byteoffsets` leaves it.
pub record IsLaid {ℓ} {D T : Type ℓ} (s : Schema D T) : Type ℓ where
  pub known : AllKnown s.dims
  pub few : ndims s < 2 ^ 29
  pub placed : laid_out 0 s.dims ≡ s.dims
  pub sized : s.size ≡ total_width s.dims

module _ {ℓ} {D T : Type ℓ} where
  pub get_elem?-schema_get_dimension :
      (s : Schema D T) (i : ℕ) (a : Dimension D)
      → schema_get_dimension s i ≡ some a
      → get_elem? s.dims i ≡ some (some a)
  unfolding schema_get_dimension
  get_elem?-schema_get_dimension s i a e = ground arith

  pub schema_get_dimension_lt :
      (s : Schema D T) (i : ℕ) (a : Dimension D)
      → schema_get_dimension s i ≡ some a
      → ltb i (ndims s) ≡ true
  unfolding schema_get_dimension
  schema_get_dimension_lt s i a e = ground arith

  pub schema_get_dimension_within :
      (s : Schema D T) (i : ℕ) (a : Dimension D)
      → get_elem? s.dims i ≡ some (some a)
      → i < ndims s
      → schema_get_dimension s i ≡ some a
  unfolding schema_get_dimension
  schema_get_dimension_within s i a e h = rw (lt→ltb _ _ h, e)

  get_elem?_placed :
      (s : Schema D T) (i : ℕ) (a : Dimension D)
      → IsLaid s
      → schema_get_dimension s i ≡ some a
      → get_elem? (laid_out 0 s.dims) i ≡ some (some a)
  get_elem?_placed s i a laid e = rw laid.placed (get_elem?-schema_get_dimension s i a e)

  -- In a schema whose offsets are calculated, a dimension lies within a point, and behind every
  -- dimension at a lower position.
  pub schema_get_dimension_disjoint :
      (s : Schema D T) (i j : ℕ) (a b : Dimension D)
      → IsLaid s
      → i < j
      → schema_get_dimension s i ≡ some a
      → schema_get_dimension s j ≡ some b
      → (a.byteoffset + a.size ≤ b.byteoffset) × (b.byteoffset + b.size ≤ schema_get_size s)
  unfolding schema_get_size
  schema_get_dimension_disjoint s i j a b laid h e f = (
    laid_out_disjoint 0 s.dims i j a b h (get_elem?_placed s i a laid e)
        (get_elem?_placed s j b laid f),
    omega (arith, (starts_after 0 s.dims j b (get_elem?_placed s j b laid f)).1, laid.sized),
  )

  pub field_within :
      (s : Schema D T) (i : ℕ) (a : Dimension D)
      → IsLaid s
      → schema_get_dimension s i ≡ some a
      → a.byteoffset + a.size ≤ s.size
  field_within s i a laid e =
      omega (arith, (starts_after 0 s.dims i a (get_elem?_placed s i a laid e)).1, laid.sized)

  pub field-IsKnown :
      (s : Schema D T) (i : ℕ) (a : Dimension D)
      → IsLaid s
      → schema_get_dimension s i ≡ some a
      → IsKnown a.interpretation × (a.size ≡ width a.interpretation)
  field-IsKnown s i a laid e = (
    AllKnown-at s.dims i a laid.known (get_elem?-schema_get_dimension s i a e),
    laid_out-width 0 s.dims i a (get_elem?_placed s i a laid e),
  )

  pub calculated-IsLaid :
      (s : Schema D T)
      → AllKnown s.dims
      → ndims s < 2 ^ 29
      → IsLaid (record s { dims = laid_out 0 s.dims; size = total_width s.dims })
  calculated-IsLaid s k h = record {
    known = AllKnown-laid_out 0 s.dims k;
    few = omega (arith, length-laid_out 0 s.dims);
    placed = laid_out_again 0 s.dims;
    sized = sym (total_width-laid_out 0 s.dims);
  }

get_elem?-lt {ℓ} :
    {A : Type ℓ} (xs : List A) (i : ℕ) {x : A} → get_elem? xs i ≡ some x → i < length xs
get_elem?-lt [] i e = cc
get_elem?-lt (y ∷ xs) zero e = omega arith
get_elem?-lt (y ∷ xs) (suc i) e = omega (arith, get_elem?-lt xs i e)

module _ {ℓ} {D T : Type ℓ} where
  -- Calculating the byte offsets returns. The dimension at a position is then the one that stood
  -- there, of the size that its interpretation has, behind the sizes of the dimensions before it;
  -- the size of a point is the sum of all of them, and there is no dimension beyond the last
  -- position. The schema has fewer than 2^29 positions, and its interpretations are known.
  pub schema_get_dimension-calculate_byteoffsets :
      (s : Schema D T) (i : ℕ) (d : Dimension D)
      → AllKnown s.dims
      → ndims s < 2 ^ 29
      → get_elem? s.dims i ≡ some (some d)
      → (s' : Schema D T) × (schema_calculate_byteoffsets s ≡ ok s')
        × (schema_get_dimension s' i
            ≡ some (record d {
              byteoffset = total_width (take i s.dims);
              size = width d.interpretation;
            }))
        × (schema_get_size s' ≡ total_width s.dims)
        × ((j : ℕ) → ndims s ≤ j → schema_get_dimension s' j ≡ none)
  unfolding schema_get_size
  schema_get_dimension-calculate_byteoffsets s i d known few e =
      let s' : Schema D T = record s { dims = laid_out 0 s.dims; size = total_width s.dims } in
      let long = length-laid_out 0 s.dims in
      (
        s',
        schema_calculate_byteoffsets-laid_out s known few,
        schema_get_dimension_within s' i _
            (get_elem?-laid_out 0 s.dims i d e
              ∙ ap
                  (λ (k : ℕ).
                    some (some (record d { byteoffset = k; size = width d.interpretation })))
                  (zero_plus (total_width (take i s.dims))))
            (omega (arith, long, get_elem?-lt s.dims i e)),
        refl,
        λ j beyond.
            unfold schema_get_dimension in
            rw (le→ltb j (length (laid_out 0 s.dims)) (omega (arith, long))),
      )
    where
      zero_plus : (n : ℕ) → 0 + n ≡ n
      zero_plus n = omega arith

module _ {ℓ} {D T : Type ℓ} (table : Hashtable T) where
  -- Storing a dimension of a known interpretation at a position of the schema returns; in the
  -- schema that results the dimension stands at its position, the others where they were, and the
  -- offsets of all of them and the size of a point are calculated anew. The schema has fewer than
  -- 2^29 positions, its offsets are calculated and its interpretations are known.
  pub schema_set_dimension-IsLaid :
      (s : Schema D T) (d : Dimension D)
      → IsLaid s
      → d.position < ndims s
      → IsKnown d.interpretation
      → (s' : Schema D T) × (schema_set_dimension table s d ≡ ok s')
        × (s'.dims ≡ laid_out 0 (set s.dims d.position (some d)))
        × IsLaid s'
  unfolding schema_set_dimension
  schema_set_dimension-IsLaid s d laid h k =
      let (slot, found) = get_elem?_within s.dims d.position h in
      let all = AllKnown-set s.dims d.position d laid.known k in
      let few : length (set s.dims d.position (some d)) < 2 ^ 29 =
        omega (arith, length-set s.dims d.position (some d), laid.few) in
      let stored : Schema D T = record s {
        dims = set s.dims d.position (some d);
        namehash = elim d.name [
          | none ↦ s.namehash
          | some name ↦ table.hashtable_insert s.namehash name d.position
        ];
      } in
      (
        record stored { dims = laid_out 0 stored.dims; size = total_width stored.dims },
        rw found (schema_calculate_byteoffsets-laid_out stored all few),
        refl,
        calculated-IsLaid stored all few,
      )
