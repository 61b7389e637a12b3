-- ===== src/Schema/Clone.antt =====
-- lib/pc_schema.c: a clone of a schema is the schema.
use pointcloud.Common.{
  ℕ, zero, suc, ◌+◌, ◌^◌, ◌<◌, ◌≡◌, refl, sym, ap, ap₂, ◌∙◌, List, [], ◌∷◌, ◌++◌, length, replicate,
  get_elem?, set, Option, none, some, arith, length-append, append_assoc, append-nil,
  get_elem?-append, set-append, length-replicate,
}
use pointcloud.Common.Result.{ok}
use pointcloud.Schema.{
  Dimension, Hashtable, Schema, ndims, schema_new, schema_set_dimension, clone_dimensions,
  clone_pointer, schema_clone,
}
use pointcloud.Schema.Offsets.{
  width, AllKnown, total_width, total_width-le, laid_out, place-laid_out,
}
use pointcloud.Schema.Fields.{IsLaid}

module _ {ℓ} {D : Type ℓ} where
  -- Every dimension knows the index at which it stands, from `i` on.
  abbrev pub Positioned : ℕ → List (Option (Dimension D)) → Type 0
  Positioned i [] = Unit
  Positioned i (none ∷ dims) = Positioned (suc i) dims
  Positioned i (some d ∷ dims) = (d.position ≡ i) × Positioned (suc i) dims

  abbrev Placed : ℕ → List (Option (Dimension D)) → Type 0
  Placed start [] = Unit
  Placed start (none ∷ dims) = Placed start dims
  Placed start (some d ∷ dims) =
      (d.byteoffset ≡ start)
      × (d.size ≡ width d.interpretation)
      × Placed (start + width d.interpretation) dims

  dimension_of : Dimension D → Option (Dimension D) → Dimension D
  dimension_of e none = e
  dimension_of e (some d) = d

  first_of : Dimension D → List (Option (Dimension D)) → Dimension D
  unfolding dimension_of
  first_of e [] = e
  first_of e (x ∷ xs) = dimension_of e x

  rest_of : List (Option (Dimension D)) → List (Option (Dimension D))
  rest_of [] = []
  rest_of (x ∷ xs) = xs

  Placed-laid_out :
      (start : ℕ) (dims : List (Option (Dimension D)))
      → laid_out start dims ≡ dims
      → Placed start dims
  unfolding laid_out first_of dimension_of rest_of
  Placed-laid_out start [] e = tt
  Placed-laid_out start (none ∷ dims) e = Placed-laid_out start dims (ap rest_of e)
  Placed-laid_out start (some d ∷ dims) e = (
    sym (ap (λ l. (first_of d l).byteoffset) e),
    sym (ap (λ l. (first_of d l).size) e),
    Placed-laid_out (start + width d.interpretation) dims (ap rest_of e),
  )

  laid_out-Placed :
      (start : ℕ) (dims : List (Option (Dimension D)))
      → Placed start dims
      → laid_out start dims ≡ dims
  unfolding laid_out
  laid_out-Placed start [] p = refl
  laid_out-Placed start (none ∷ dims) p = ap (λ t. none ∷ t) (laid_out-Placed start dims p)
  laid_out-Placed start (some d ∷ dims) (o, w, p) =
      ap₂ ◌∷◌ (λ i. some (record d { byteoffset = sym o i; size = sym w i }))
        (laid_out-Placed (start + width d.interpretation) dims p)

  -- Null pointers.
  abbrev nones : ℕ → List (Option (Dimension D))
  nones n = replicate n none

module _ {ℓ} (D : Type ℓ) where
  Placed-nones : (start n : ℕ) → Placed {D = D} start (nones n)
  Placed-nones start zero = tt
  Placed-nones start (suc n) = Placed-nones start n

  AllKnown-nones : (n : ℕ) → AllKnown {D = D} (nones n)
  AllKnown-nones zero = tt
  AllKnown-nones (suc n) = AllKnown-nones n

  total_width-nones : (n : ℕ) → total_width {D = D} (nones n) ≡ 0
  unfolding total_width
  total_width-nones zero = refl
  total_width-nones (suc n) = total_width-nones n

module _ {ℓ} {D : Type ℓ} where
  -- What a clone holds when the dimensions up to `d` are copied.
  Placed-partly :
      (start : ℕ) (pre : List (Option (Dimension D))) (d : Dimension D)
      (rest : List (Option (Dimension D))) (n : ℕ)
      → Placed start (pre ++ (some d ∷ rest))
      → Placed start (pre ++ (some d ∷ nones n))
  Placed-partly start [] d rest n (o, w, p) =
      (o, w, Placed-nones D (start + width d.interpretation) n)
  Placed-partly start (none ∷ pre) d rest n p = Placed-partly start pre d rest n p
  Placed-partly start (some e ∷ pre) d rest n (o, w, p) =
      (o, w, Placed-partly (start + width e.interpretation) pre d rest n p)

  AllKnown-partly :
      (pre : List (Option (Dimension D))) (d : Dimension D) (rest : List (Option (Dimension D)))
      (n : ℕ)
      → AllKnown (pre ++ (some d ∷ rest))
      → AllKnown (pre ++ (some d ∷ nones n))
  AllKnown-partly [] d rest n k = (k.0, AllKnown-nones D n)
  AllKnown-partly (none ∷ pre) d rest n k = AllKnown-partly pre d rest n k
  AllKnown-partly (some e ∷ pre) d rest n k = (k.0, AllKnown-partly pre d rest n k.1)

  total_width-partly :
      (pre : List (Option (Dimension D))) (d : Dimension D) (n : ℕ)
      → total_width (pre ++ (some d ∷ nones n)) ≡ total_width (pre ++ (some d ∷ []))
  unfolding total_width
  total_width-partly [] d n = omega (arith, total_width-nones D n)
  total_width-partly (none ∷ pre) d n = total_width-partly pre d n
  total_width-partly (some e ∷ pre) d n =
      ap (λ (t : ℕ). width e.interpretation + t) (total_width-partly pre d n)

  total_width-none_end :
      (pre : List (Option (Dimension D))) → total_width (pre ++ (none ∷ [])) ≡ total_width pre
  unfolding total_width
  total_width-none_end [] = refl
  total_width-none_end (none ∷ pre) = total_width-none_end pre
  total_width-none_end (some e ∷ pre) =
      ap (λ (t : ℕ). width e.interpretation + t) (total_width-none_end pre)

module _ {ℓ} {D T : Type ℓ} (table : Hashtable T) where
  insert_name : Dimension D → T → T
  insert_name d t = elim d.name [ none ↦ t | some name ↦ table.hashtable_insert t name d.position ]

  -- The names of the dimensions, entered one after the other.
  unfoldable pub enter_names : List (Option (Dimension D)) → T → T
  unfolding insert_name
  enter_names [] t = t
  enter_names (none ∷ dims) t = enter_names dims t
  enter_names (some d ∷ dims) t = enter_names dims (insert_name d t)

  -- One more dimension of the original in the clone.
  set_dimension-partly :
      (s : Schema D T) (pre : List (Option (Dimension D))) (d : Dimension D)
      (rest : List (Option (Dimension D))) (t : T)
      → Placed 0 (pre ++ (some d ∷ rest))
      → AllKnown (pre ++ (some d ∷ rest))
      → length (pre ++ (some d ∷ rest)) < 2 ^ 29
      → d.position ≡ length pre
      → schema_set_dimension table
          (record s {
            dims = pre ++ (none ∷ nones (length rest));
            size = total_width pre;
            namehash = t;
          })
          d
        ≡ ok (record s {
          dims = (pre ++ (some d ∷ [])) ++ nones (length rest);
          size = total_width (pre ++ (some d ∷ []));
          namehash = insert_name d t;
        })
  unfolding schema_set_dimension insert_name
  set_dimension-partly s pre d rest t p k h at = rw (
    found,
    stored,
    place-laid_out 0 (pre ++ (some d ∷ nones (length rest)))
        (AllKnown-partly pre d rest (length rest) k) small,
    laid_out-Placed 0 (pre ++ (some d ∷ nones (length rest)))
        (Placed-partly 0 pre d rest (length rest) p),
    total_width-partly pre d (length rest),
    append_assoc pre (some d ∷ []) (nones (length rest)),
    zero_add,
  )
    where
      found : get_elem? (pre ++ (none ∷ nones (length rest))) d.position ≡ some none
      found =
          ap (get_elem? (pre ++ (none ∷ nones (length rest)))) at
          ∙ get_elem?-append pre (none ∷ nones (length rest))

      stored :
          set (pre ++ (none ∷ nones (length rest))) d.position (some d)
          ≡ pre ++ (some d ∷ nones (length rest))
      stored =
          ap (λ (i : ℕ). set (pre ++ (none ∷ nones (length rest))) i (some d)) at
          ∙ set-append pre none (nones (length rest)) (some d)

      small : 0 + total_width (pre ++ (some d ∷ nones (length rest))) < 2 ^ 32
      small = omega (
        arith,
        total_width-le (pre ++ (some d ∷ nones (length rest))),
        length-append pre (some d ∷ nones (length rest)),
        length-append pre (some d ∷ rest),
        length-replicate {A = Option (Dimension D)} (length rest) none,
      )

      zero_add : 0 + total_width (pre ++ (some d ∷ [])) ≡ total_width (pre ++ (some d ∷ []))
      zero_add = omega arith

  -- `pcs` has the dimensions of the original up to those of `dims`.
  clone_dimensions-partly :
      (s : Schema D T) (pre dims : List (Option (Dimension D))) (t : T)
      → Placed 0 (pre ++ dims)
      → AllKnown (pre ++ dims)
      → length (pre ++ dims) < 2 ^ 29
      → Positioned (length pre) dims
      → clone_dimensions table dims
          (record s { dims = pre ++ nones (length dims); size = total_width pre; namehash = t })
        ≡ ok (record s {
          dims = pre ++ dims;
          size = total_width (pre ++ dims);
          namehash = enter_names dims t;
        })
  unfolding clone_dimensions enter_names
  clone_dimensions-partly s pre [] t p k h at = rw append-nil
  clone_dimensions-partly s pre (none ∷ dims) t p k h at =
      rw (← moved, ← append_assoc pre (none ∷ []) (nones (length dims)), ← total_width-none_end pre)
        (clone_dimensions-partly s (pre ++ (none ∷ [])) dims t (rw moved p) (rw moved k)
          (rw moved h) (rw (length-append pre (none ∷ []), add_one) at))
    where
      moved : (pre ++ (none ∷ [])) ++ dims ≡ pre ++ (none ∷ dims)
      moved = append_assoc pre (none ∷ []) dims

      add_one : length pre + 1 ≡ suc (length pre)
      add_one = omega arith
  clone_dimensions-partly s pre (some d ∷ dims) t p k h at =
      rw (set_dimension-partly s pre d dims t p k h at.0, ← moved)
        (clone_dimensions-partly s (pre ++ (some d ∷ [])) dims (insert_name d t) (rw moved p)
          (rw moved k) (rw moved h) (rw (length-append pre (some d ∷ []), add_one) at.1))
    where
      moved : (pre ++ (some d ∷ [])) ++ dims ≡ pre ++ (some d ∷ dims)
      moved = append_assoc pre (some d ∷ []) dims

      add_one : length pre + 1 ≡ suc (length pre)
      add_one = omega arith

  -- A pointer to a dimension of the schema, or a null pointer.
  abbrev pub PointsInto : List (Option (Dimension D)) → Option ℕ → Type ℓ
  PointsInto dims none = Unit
  PointsInto dims (some i) = (d : Dimension D) × (get_elem? dims i ≡ some (some d))

  get_elem?-Positioned :
      (i j : ℕ) (dims : List (Option (Dimension D))) (d : Dimension D)
      → Positioned i dims
      → get_elem? dims j ≡ some (some d)
      → d.position ≡ i + j
  get_elem?-Positioned i j [] d h e = cc
  get_elem?-Positioned i zero (none ∷ dims) d h e = cc
  get_elem?-Positioned i zero (some c ∷ dims) d h e = ground arith
  get_elem?-Positioned i (suc j) (none ∷ dims) d h e =
      omega (arith, get_elem?-Positioned (suc i) j dims d h e)
  get_elem?-Positioned i (suc j) (some c ∷ dims) d h e =
      omega (arith, get_elem?-Positioned (suc i) j dims d h.1 e)

  clone_pointer-same :
      (s pcs : Schema D T) (pointer : Option ℕ)
      → pcs.dims ≡ s.dims
      → Positioned 0 s.dims
      → PointsInto s.dims pointer
      → clone_pointer table s pcs pointer ≡ ok pointer
  unfolding clone_pointer
  clone_pointer-same s pcs none e h v = refl
  clone_pointer-same s pcs (some i) e h (d, at) = rw (at, copied, there)
    where
      there : d.position ≡ i
      there = omega (arith, get_elem?-Positioned 0 i s.dims d h at)

      copied : get_elem? pcs.dims d.position ≡ some (some d)
      copied = ap₂ get_elem? e there ∙ at

  unpointed : Schema D T → Schema D T
  unpointed s = record s { xdim = none; ydim = none; zdim = none; mdim = none }

  copied : Schema D T → Schema D T
  unfolding unpointed
  copied s = record (unpointed s) {
    size = total_width s.dims;
    namehash = enter_names s.dims table.create_string_hashtable;
  }

  clone_dimensions-copied :
      (s : Schema D T)
      → IsLaid s
      → Positioned 0 s.dims
      → clone_dimensions table s.dims (record (unpointed s) {
        dims = nones (ndims s);
        size = 0;
        namehash = table.create_string_hashtable;
      })
        ≡ ok (copied s)
  unfolding copied total_width
  clone_dimensions-copied s laid at =
      clone_dimensions-partly (unpointed s) [] s.dims table.create_string_hashtable
        (Placed-laid_out 0 s.dims laid.placed) laid.known laid.few at

  -- A schema has a clone, which is equal to it but for its table of names, into which the names of
  -- the dimensions are entered in the order of the positions. The schema has fewer than 2^29
  -- positions, its offsets are calculated and its interpretations known, each dimension states the
  -- position at which it stands, and the pointers to X, Y, Z and M are null or lead to a
  -- dimension.
  pub schema_clone-same :
      (s : Schema D T)
      → IsLaid s
      → Positioned 0 s.dims
      → PointsInto s.dims s.xdim
      → PointsInto s.dims s.ydim
      → PointsInto s.dims s.zdim
      → PointsInto s.dims s.mdim
      → schema_clone table s
        ≡ ok (record s { namehash = enter_names s.dims table.create_string_hashtable })
  unfolding schema_clone schema_new copied unpointed
  schema_clone-same s laid at x y z m = rw (
    clone_dimensions-copied s laid at,
    clone_pointer-same s (copied s) s.xdim refl at x,
    clone_pointer-same s (copied s) s.ydim refl at y,
    clone_pointer-same s (copied s) s.zdim refl at z,
    clone_pointer-same s (copied s) s.mdim refl at m,
    place-laid_out 0 s.dims laid.known small,
    laid.placed,
    zero_add,
    ← laid.sized,
  )
    where
      zero_add : 0 + total_width s.dims ≡ total_width s.dims
      zero_add = omega arith

      small : 0 + total_width s.dims < 2 ^ 32
      small = omega (arith, total_width-le s.dims, laid.few)
