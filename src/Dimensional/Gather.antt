-- ===== src/Dimensional/Gather.antt =====
-- lib/pc_patch_dimensional.c: the buffers that the values of the points are copied into hold the
-- columns of the points.
use native.Mathlib.Nat.{mul-le-mul_left, mul-le-mul_right, mod-eq_of_lt}
use pointcloud.Common.{
  ℕ, zero, suc, ◌+◌, ◌*◌, ◌^◌, ◌≤◌, ◌<◌, ◌≡◌, refl, sym, ap, ◌∙◌, List, [], ◌∷◌, ◌++◌, length, take,
  drop, replicate, Option, none, some, arith, length-append, length-take, length-drop,
  length-replicate, append_assoc, take-append-drop,
}
use pointcloud.Common.Result.{ok}
use pointcloud.Bytes.{Pcbytes, slice, bytes_make, u32}
use pointcloud.Bytes.Valid.{slice_ok, drop-drop}
use pointcloud.Memory.{put_bytes, put_bytes-append}
use pointcloud.Schema.{Dimension, Schema}
use pointcloud.Schema.Offsets.{width-le}
use pointcloud.Patch.{u64}
use pointcloud.Dimensional.{gather, gather_dimensions}
use pointcloud.Dimensional.Transpose.{column, Row, Row-le}

-- Points of a schema in memory, not too many for the products of the code.
pub record IsRows {ℓ} {D T : Type ℓ} (schema : Schema D T) (npoints : ℕ) (points : List ℕ)
    : Type 0 where
  pub thin : schema.size < 2 ^ 32
  pub few : 64 * npoints < 2 ^ 32
  pub there : npoints * schema.size ≤ length points

-- The buffers of the columns.
unfoldable pub columns {ℓ} :
    {D : Type ℓ} → ℕ → ℕ → List ℕ → List (Option (Dimension D)) → List Pcbytes
unfolding bytes_make
columns size n points [] = []
columns size n points (none ∷ dims) = columns size n points dims
columns size n points (some d ∷ dims) =
    record (bytes_make d.size d.interpretation n) {
      bytes = column size d.byteoffset d.size n points;
    }
    ∷ columns size n points dims

module _ {ℓ} {D T : Type ℓ} (schema : Schema D T) (npoints : ℕ) (points : List ℕ)
    (rows : IsRows schema npoints points) where
  pub before_end : (j : ℕ) → j < npoints → j * schema.size + schema.size < 2 ^ 63
  before_end j lt = omega (
    arith,
    rows.thin,
    rows.few,
    mul-le-mul_left {m = schema.size} {n = 2 ^ 32} (j + 1) (omega (arith, rows.thin)),
  )

  -- A place in a point in the memory.
  value_place :
      (o j : ℕ)
      → o ≤ schema.size
      → j < npoints
      → u64 (u64 (schema.size * j) + o) ≡ j * schema.size + o
  value_place o j h lt =
      ap (λ (t : ℕ). u64 (t + o))
        (ap u64 (swapped schema.size j) ∙ mod-eq_of_lt (omega (arith, before_end j lt)))
      ∙ mod-eq_of_lt (omega (arith, before_end j lt))
    where
      swapped : (m n : ℕ) → m * n ≡ n * m
      swapped m n = omega arith

  pub buffer_place : (w j : ℕ) → w ≤ 8 → j < npoints → u32 (w * j) ≡ w * j
  buffer_place w j h lt =
      mod-eq_of_lt (omega (arith, rows.few, mul-le-mul_right {m = w} {n = 8} j h))

  pub row_fits : (j : ℕ) → j < npoints → j * schema.size + schema.size ≤ length points
  row_fits j lt =
      omega
        (arith, rows.there, mul-le-mul_right {m = j + 1} {n = npoints} schema.size (omega arith))

  gather-column :
      (d : Dimension D)
      → d.byteoffset + d.size ≤ schema.size
      → d.size ≤ 8
      → (rounds j : ℕ) (pre rest : List ℕ) → j + rounds ≡ npoints
      → length pre ≡ d.size * j
      → length rest ≡ d.size * rounds
      → gather schema d points rounds j (pre ++ rest)
        ≡ ok (pre ++ column schema.size d.byteoffset d.size rounds (drop (j * schema.size) points))
  unfolding gather column
  gather-column d within narrow zero j pre [] n p r = refl
  gather-column d within narrow zero j pre (x ∷ rest) n p r = absurd (omega arith)
  gather-column d within narrow (suc rounds) j pre rest n p r =
      let lt : j < npoints = omega arith in
      let value : List ℕ = take d.size (drop d.byteoffset (drop (j * schema.size) points)) in
      let read : slice points (j * schema.size + d.byteoffset) d.size ≡ ok value =
        slice_ok points (j * schema.size + d.byteoffset) d.size (omega (arith, row_fits j lt))
        ∙ ap (λ t. ok (take d.size t)) (sym (drop-drop (j * schema.size) d.byteoffset points)) in
      let wide : length value ≡ d.size = omega (
        arith,
        length-take d.size (drop d.byteoffset (drop (j * schema.size) points)),
        length-drop d.byteoffset (drop (j * schema.size) points),
        length-drop (j * schema.size) points,
        row_fits j lt,
      ) in
      let written : put_bytes (pre ++ rest) (d.size * j) value
          ≡ ok ((pre ++ value) ++ drop d.size rest) =
        ap (λ t. put_bytes (pre ++ t) (d.size * j) value) (sym (take-append-drop d.size rest))
        ∙ put_bytes-append pre (take d.size rest) (drop d.size rest) value (d.size * j) p
            (omega (arith, length-take d.size rest, wide))
        ∙ ap ok (sym (append_assoc pre value (drop d.size rest))) in
      rw
        (
          value_place d.byteoffset j (omega arith) lt,
          read,
          buffer_place d.size j narrow lt,
          written,
        )
        (gather-column d within narrow rounds (j + 1) (pre ++ value) (drop d.size rest)
            (omega arith) (omega (arith, length-append pre value, wide))
            (omega (arith, length-drop d.size rest))
          ∙ ap (λ t. ok ((pre ++ value) ++ column schema.size d.byteoffset d.size rounds t))
              (ap (λ (k : ℕ). drop k points) (omega arith)
                ∙ sym (drop-drop (j * schema.size) schema.size points))
          ∙ ap ok (append_assoc pre value _))

  -- All dimensions.
  pub gather_dimensions-columns :
      (offset : ℕ) (dims : List (Option (Dimension D)))
      → Row schema.size offset dims
      → gather_dimensions schema points npoints dims ≡ ok (columns schema.size npoints points dims)
  unfolding gather_dimensions columns bytes_make
  gather_dimensions-columns offset [] row = refl
  gather_dimensions-columns offset (none ∷ dims) row = absurd row
  gather_dimensions-columns offset (some d ∷ dims) (at, known, wide, row) =
      let narrow : d.size ≤ 8 = omega (arith, wide, width-le d.interpretation) in
      let sized : u32 (d.size * npoints) ≡ d.size * npoints =
        mod-eq_of_lt
          (omega (arith, rows.few, mul-le-mul_right {m = d.size} {n = 8} npoints narrow)) in
      let copied =
        gather-column d (omega (arith, Row-le schema.size (offset + d.size) dims row)) narrow
          npoints 0 [] (replicate (u32 (d.size * npoints)) 0) (omega arith) (omega arith)
          (length-replicate (u32 (d.size * npoints)) 0 ∙ sized) in
      rw (copied, gather_dimensions-columns (offset + d.size) dims row, start)
    where
      zero_times : (n : ℕ) → 0 * n ≡ 0
      zero_times n = omega arith

      start : drop (0 * schema.size) points ≡ points
      start = ap (λ (k : ℕ). drop k points) (zero_times schema.size)
