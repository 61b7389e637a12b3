-- ===== src/Point/Access.antt =====
-- lib/pc_point.c: a value that is written is the value that is read, and no other value changes.
use mathlib.Core.Path.{subst}
use pointcloud.Common.{
  ℕ, ◌+◌, ◌≤◌, ◌<◌, ◌≡◌, ◌≢◌, refl, sym, ap, ◌∙◌, List, length, take, drop, some, arith, ◌⊎◌, inl,
  inr, Option-cases, Bool-cases, ltb, ltb→lt, length-drop, take-length,
}
use pointcloud.Common.Result.{ok, ◌>>=◌, ok_injective, some_injective}
use pointcloud.Memory.{
  bytes_put, put_bytes_ok, length-bytes_put, take-drop-bytes_put, take-drop-bytes_put_other,
}
use pointcloud.Value.{Doubles, value_from_ptr, value_unscale_unoffset}
use pointcloud.Value.Write.{value_bytes, double_to_ptr}
use pointcloud.Value.Window.{Written, value_bytes_known, double_from_ptr-window}
use pointcloud.Schema.{Dimension, schema_get_dimension}
use pointcloud.Schema.Offsets.{width}
use pointcloud.Schema.Fields.{IsLaid, field_within, field-IsKnown, schema_get_dimension_disjoint}
use pointcloud.Point.{
  Point, point_get_double, point_set_double, point_get_double_by_index, point_set_double_by_index,
}

-- The offsets of the schema are calculated, and the data are as long as its points.
pub record IsPoint {ℓ} {D T : Type ℓ} (pt : Point D T) : Type ℓ where
  pub laid : IsLaid pt.schema
  pub filled : pt.schema.size ≤ length pt.data_bytes

lt_or_lt : (i j : ℕ) → j ≢ i → (i < j) ⊎ (j < i)
lt_or_lt i j h = elim (Bool-cases (ltb i j)) [
  | inl t ↦ inl (ltb→lt i j t)
  | inr f ↦ inr (ground arith)
]

module _ {ℓ} {D T : Type ℓ} (doubles : Doubles D) (pt : Point D T) (p : IsPoint pt) where
  -- What is written for a value of a dimension.
  abbrev pub Field : Dimension D → D → Type 0
  Field a v = Written doubles a.interpretation (value_unscale_unoffset doubles v a.scaling)

  field_fits :
      (i : ℕ) (a : Dimension D) (bytes : List ℕ)
      → schema_get_dimension pt.schema i ≡ some a
      → length bytes ≡ width a.interpretation
      → a.byteoffset + length bytes ≤ length pt.data_bytes
  field_fits i a bytes e w = omega (
    arith,
    field_within pt.schema i a p.laid e,
    (field-IsKnown pt.schema i a p.laid e).1,
    p.filled,
  )

  -- The point after a write.
  written : Dimension D → List ℕ → Point D T
  written a bytes = record pt { data_bytes = bytes_put pt.data_bytes a.byteoffset bytes }

  written-IsPoint :
      (a : Dimension D) (bytes : List ℕ)
      → a.byteoffset + length bytes ≤ length pt.data_bytes
      → IsPoint (written a bytes)
  unfolding written
  written-IsPoint a bytes fits = record {
    laid = p.laid;
    filled = omega (arith, length-bytes_put pt.data_bytes a.byteoffset bytes fits, p.filled);
  }

  set_written :
      (i : ℕ) (a : Dimension D) (v : D) (bytes : List ℕ)
      → schema_get_dimension pt.schema i ≡ some a
      → value_bytes doubles a.interpretation (value_unscale_unoffset doubles v a.scaling)
        ≡ some bytes
      → length bytes ≡ width a.interpretation
      → point_set_double_by_index doubles pt i v ≡ ok (some (written a bytes))
  unfolding point_set_double_by_index point_set_double double_to_ptr written
  set_written i a v bytes e b w = rw (
    e,
    point_set_double,
    double_to_ptr,
    b,
    put_bytes_ok pt.data_bytes a.byteoffset bytes (field_fits i a bytes e w),
  )

  get_window :
      (q : Point D T) (j : ℕ) (b : Dimension D) (window : List ℕ)
      → q.schema ≡ pt.schema
      → length q.data_bytes ≡ length pt.data_bytes
      → schema_get_dimension pt.schema j ≡ some b
      → take (width b.interpretation) (drop b.byteoffset q.data_bytes)
        ≡ take (width b.interpretation) window
      → width b.interpretation ≤ length window
      → point_get_double_by_index doubles q j
        ≡ (value_from_ptr doubles window b.interpretation b.scaling >>= λ d. ok (some d))
  unfolding point_get_double_by_index point_get_double value_from_ptr
  get_window q j b window s n e t h = rw (
    s,
    e,
    double_from_ptr-window doubles (drop b.byteoffset q.data_bytes) window b.interpretation
        (field-IsKnown pt.schema j b p.laid e).0 t room h,
  )
    where
      room : width b.interpretation ≤ length (drop b.byteoffset q.data_bytes)
      room = omega (
        arith,
        length-drop b.byteoffset q.data_bytes,
        field_within pt.schema j b p.laid e,
        (field-IsKnown pt.schema j b p.laid e).1,
        p.filled,
      )

  -- Writing a value into a dimension of a point returns; what is then read from the dimension is
  -- what the bytes written for the value are read as, wherever they stand. The point has its
  -- schema still, and is as long.
  pub point_get_double_by_index-set :
      (i : ℕ) (a : Dimension D) (v : D)
      → schema_get_dimension pt.schema i ≡ some a
      → (bytes : List ℕ) × (value_bytes doubles a.interpretation
            (value_unscale_unoffset doubles v a.scaling)
          ≡ some bytes)
        × (pt' : Point D T) × (point_set_double_by_index doubles pt i v ≡ ok (some pt'))
        × (point_get_double_by_index doubles pt' i
            ≡ (value_from_ptr doubles bytes a.interpretation a.scaling >>= λ d. ok (some d)))
        × (pt'.schema ≡ pt.schema)
        × IsPoint pt'
  unfolding written
  point_get_double_by_index-set i a v e =
      let (bytes, b, w) =
        value_bytes_known doubles a.interpretation (value_unscale_unoffset doubles v a.scaling)
          (field-IsKnown pt.schema i a p.laid e).0 in
      let fits = field_fits i a bytes e w in
      (
        bytes,
        b,
        written a bytes,
        set_written i a v bytes e b w,
        get_window (written a bytes) i a bytes refl
            (length-bytes_put pt.data_bytes a.byteoffset bytes fits) e
            (ap (λ (n : ℕ). take n (drop a.byteoffset (bytes_put pt.data_bytes a.byteoffset bytes)))
                (sym w)
              ∙ take-drop-bytes_put pt.data_bytes a.byteoffset bytes fits
              ∙ sym (take-length bytes)
              ∙ ap (λ (n : ℕ). take n bytes) w)
            (omega arith),
        refl,
        written-IsPoint a bytes fits,
      )

  apart :
      (i j : ℕ) (a b : Dimension D)
      → schema_get_dimension pt.schema i ≡ some a
      → schema_get_dimension pt.schema j ≡ some b
      → j ≢ i
      → (b.byteoffset + width b.interpretation ≤ a.byteoffset)
        ⊎ (a.byteoffset + width a.interpretation ≤ b.byteoffset)
  apart i j a b e f other = elim (lt_or_lt i j other) [
    | inl before ↦ inr (
        omega (
          arith,
          (schema_get_dimension_disjoint pt.schema i j a b p.laid before e f).0,
          (field-IsKnown pt.schema i a p.laid e).1,
        ))
    | inr after ↦ inl (
        omega (
          arith,
          (schema_get_dimension_disjoint pt.schema j i b a p.laid after f e).0,
          (field-IsKnown pt.schema j b p.laid f).1,
        ))
  ]

  get_written_other :
      (i j : ℕ) (a : Dimension D) (bytes : List ℕ)
      → schema_get_dimension pt.schema i ≡ some a
      → length bytes ≡ width a.interpretation
      → j ≢ i
      → point_get_double_by_index doubles (written a bytes) j
        ≡ point_get_double_by_index doubles pt j
  unfolding point_get_double_by_index point_get_double written
  get_written_other i j a bytes e w other = elim (Option-cases (schema_get_dimension pt.schema j)) [
    | inl missing ↦ rw missing refl
    | inr (b, f) ↦
        let fits = field_fits i a bytes e w in
        let room : width b.interpretation ≤ length (drop b.byteoffset pt.data_bytes) = omega (
          arith,
          length-drop b.byteoffset pt.data_bytes,
          field_within pt.schema j b p.laid f,
          (field-IsKnown pt.schema j b p.laid f).1,
          p.filled,
        ) in
        get_window (written a bytes) j b (drop b.byteoffset pt.data_bytes) refl
          (length-bytes_put pt.data_bytes a.byteoffset bytes fits) f
          (take-drop-bytes_put_other pt.data_bytes a.byteoffset bytes fits b.byteoffset
            (width b.interpretation)
            (subst
              (λ (n : ℕ).
                (b.byteoffset + width b.interpretation ≤ a.byteoffset)
                ⊎ (a.byteoffset + n ≤ b.byteoffset))
              (sym w) (apart i j a b e f other)))
          room
        ∙ sym (get_window pt j b (drop b.byteoffset pt.data_bytes) refl refl f refl room)
  ]

  -- Writing a value into a dimension changes what is read from no other: there is the same value,
  -- or the same failure.
  pub point_get_double_by_index-set_other :
      (i j : ℕ) (a : Dimension D) (v : D) (pt' : Point D T)
      → schema_get_dimension pt.schema i ≡ some a
      → point_set_double_by_index doubles pt i v ≡ ok (some pt')
      → j ≢ i
      → point_get_double_by_index doubles pt' j ≡ point_get_double_by_index doubles pt j
  point_get_double_by_index-set_other i j a v pt' e set other =
      let (bytes, b, w) =
        value_bytes_known doubles a.interpretation (value_unscale_unoffset doubles v a.scaling)
          (field-IsKnown pt.schema i a p.laid e).0 in
      let same : written a bytes ≡ pt' =
        some_injective (ok_injective (sym (set_written i a v bytes e b w) ∙ set)) in
      ap (λ (q : Point D T). point_get_double_by_index doubles q j) (sym same)
      ∙ get_written_other i j a bytes e w other
