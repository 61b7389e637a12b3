-- ===== src/Dimensional/Scatter.antt =====
-- lib/pc_patch_uncompressed.c: the points that are put together from the columns of points are the
-- points.
use native.Mathlib.Nat.{mul-le-mul_left}
use pointcloud.Common.{
  ℕ, zero, suc, ◌+◌, ◌-◌, ◌*◌, ◌≤◌, ◌<◌, ◌≡◌, sym, ap, ap₂, ◌∙◌, List, [], ◌∷◌, ◌++◌, length, take,
  drop, Option, none, some, arith, length-append, length-take, length-drop, append_assoc,
  take-append-drop,
}
use pointcloud.Common.Result.{ok}
use pointcloud.Bytes.{slice, u32}
use pointcloud.Bytes.Valid.{slice_ok, drop-drop}
use pointcloud.Memory.{put_bytes, put_bytes-append}
use pointcloud.Schema.{Dimension, Schema}
use pointcloud.Schema.Offsets.{width-le}
use pointcloud.Dimensional.{scatter, scatter_points}
use pointcloud.Dimensional.Transpose.{
  column, length-column, take-drop-column, take-add, Row, Row-le,
}
use pointcloud.Dimensional.Gather.{IsRows, columns, buffer_place, row_fits}

module _ {ℓ} {D T : Type ℓ} (schema : Schema D T) (npoints : ℕ) (points : List ℕ)
    (rows : IsRows schema npoints points) where
  -- The value of a point in a column.
  slice-column :
      (d : Dimension D) (i : ℕ)
      → d.byteoffset + d.size ≤ schema.size
      → d.size ≤ 8
      → i < npoints
      → slice (column schema.size d.byteoffset d.size npoints points) (u32 (d.size * i)) d.size
        ≡ ok (take d.size (drop d.byteoffset (drop (i * schema.size) points)))
  slice-column d i within narrow lt =
      ap (λ (k : ℕ). slice (column schema.size d.byteoffset d.size npoints points) k d.size)
        (buffer_place schema npoints points rows d.size i narrow lt)
      ∙ slice_ok (column schema.size d.byteoffset d.size npoints points) (d.size * i) d.size (
          omega (
            arith,
            length-column schema.size d.byteoffset d.size within npoints points rows.there,
            mul-le-mul_left {m = i + 1} {n = npoints} d.size (omega arith),
          ))
      ∙ ap ok
          (take-drop-column schema.size d.byteoffset d.size within npoints i points lt rows.there)

  -- The fields of point `i` from an offset on.
  scatter_fields :
      (i buf offset : ℕ) (dims : List (Option (Dimension D))) (pre old post : List ℕ)
      → Row schema.size offset dims
      → i < npoints
      → length pre ≡ buf + offset
      → offset + length old ≡ schema.size
      → scatter dims (columns schema.size npoints points dims) i buf (pre ++ (old ++ post))
        ≡ ok (
            pre
            ++ (take (schema.size - offset) (drop offset (drop (i * schema.size) points)) ++ post))
  unfolding scatter columns
  scatter_fields i buf offset [] pre [] post row lt p o =
      ap (λ (k : ℕ). ok (pre ++ (take k (drop offset (drop (i * schema.size) points)) ++ post)))
        (none_left schema.size offset row)
    where
      none_left : (m n : ℕ) → n ≡ m → 0 ≡ m - n
      none_left m n e = omega arith
  scatter_fields i buf offset [] pre (x ∷ old) post row lt p o = absurd (omega arith)
  scatter_fields i buf offset (none ∷ dims) pre old post row lt p o = absurd row
  scatter_fields i buf offset (some d ∷ dims) pre old post (at, known, wide, row) lt p o =
      let point : List ℕ = drop (i * schema.size) points in
      let value : List ℕ = take d.size (drop d.byteoffset point) in
      let narrow : d.size ≤ 8 = omega (arith, wide, width-le d.interpretation) in
      let fits : offset + d.size ≤ schema.size = Row-le schema.size (offset + d.size) dims row in
      let within : d.byteoffset + d.size ≤ schema.size = omega (arith, at, fits) in
      let long : length value ≡ d.size = omega (
        arith,
        length-take d.size (drop d.byteoffset point),
        length-drop d.byteoffset point,
        length-drop (i * schema.size) points,
        row_fits schema npoints points rows i lt,
      ) in
      let written : put_bytes (pre ++ (old ++ post)) (buf + d.byteoffset) value
          ≡ ok ((pre ++ value) ++ (drop d.size old ++ post)) =
        ap (λ t. put_bytes (pre ++ t) (buf + d.byteoffset) value)
          (ap (λ t. t ++ post) (sym (take-append-drop d.size old))
            ∙ append_assoc (take d.size old) (drop d.size old) post)
        ∙ put_bytes-append pre (take d.size old) (drop d.size old ++ post) value
            (buf + d.byteoffset) (omega (arith, p, at))
            (omega (arith, length-take d.size old, long))
        ∙ ap ok (sym (append_assoc pre value (drop d.size old ++ post))) in
      rw (slice-column d i within narrow lt, written)
        (scatter_fields i buf (offset + d.size) dims (pre ++ value) (drop d.size old) post row lt
            (omega (arith, length-append pre value, long)) (omega (arith, length-drop d.size old))
          ∙ ap ok (
              append_assoc pre value _
              ∙ ap (λ t. pre ++ t)
                  (sym (append_assoc value _ post) ∙ ap (λ t. t ++ post) (joined d point at fits))))
    where
      joined :
          (d : Dimension D) (point : List ℕ)
          → d.byteoffset ≡ offset
          → offset + d.size ≤ schema.size
          → take d.size (drop d.byteoffset point)
              ++ take (schema.size - (offset + d.size)) (drop (offset + d.size) point)
            ≡ take (schema.size - offset) (drop offset point)
      joined d point at fits =
          ap₂ ◌++◌ (ap (λ (k : ℕ). take d.size (drop k point)) at)
            (ap (take (schema.size - (offset + d.size))) (sym (drop-drop offset d.size point)))
          ∙ sym (take-add d.size (schema.size - (offset + d.size)) (drop offset point))
          ∙ ap (λ (k : ℕ). take k (drop offset point)) (omega arith)

  -- The points that are left.
  pub scatter_points_restored :
      (rounds i buf : ℕ) (pre rest : List ℕ)
      → Row schema.size 0 schema.dims
      → i + rounds ≡ npoints
      → buf ≡ i * schema.size
      → length pre ≡ buf
      → length rest ≡ rounds * schema.size
      → scatter_points schema
          (columns schema.size npoints points schema.dims)
          rounds
          i
          buf
          (pre ++ rest)
        ≡ ok (pre ++ take (rounds * schema.size) (drop (i * schema.size) points))
  unfolding scatter_points
  scatter_points_restored zero i buf pre [] row n b p r =
      ap (λ (k : ℕ). ok (pre ++ take k (drop (i * schema.size) points))) (nothing schema.size)
    where
      nothing : (n : ℕ) → 0 ≡ 0 * n
      nothing n = omega arith
  scatter_points_restored zero i buf pre (x ∷ rest) row n b p r = absurd (omega arith)
  scatter_points_restored (suc rounds) i buf pre rest row n b p r =
      let lt : i < npoints = omega arith in
      let point : List ℕ = drop (i * schema.size) points in
      let long : length (take schema.size point) ≡ schema.size = omega (
        arith,
        length-take schema.size point,
        length-drop (i * schema.size) points,
        row_fits schema npoints points rows i lt,
      ) in
      let one : scatter schema.dims (columns schema.size npoints points schema.dims) i buf
            (pre ++ rest)
          ≡ ok ((pre ++ take schema.size point) ++ drop schema.size rest) =
        ap
          (λ t.
            scatter schema.dims (columns schema.size npoints points schema.dims) i buf (pre ++ t))
          (sym (take-append-drop schema.size rest))
        ∙ scatter_fields i buf 0 schema.dims pre (take schema.size rest) (drop schema.size rest) row
            lt (omega (arith, p)) (omega (arith, length-take schema.size rest))
        ∙ ap (λ (k : ℕ). ok (pre ++ (take k point ++ drop schema.size rest))) (whole schema.size)
        ∙ ap ok (sym (append_assoc pre (take schema.size point) (drop schema.size rest))) in
      rw one (
        scatter_points_restored rounds (i + 1) (buf + schema.size) (pre ++ take schema.size point)
          (drop schema.size rest) row (omega arith) (omega (arith, b))
          (omega (arith, length-append pre (take schema.size point), long))
          (omega (arith, length-drop schema.size rest))
        ∙ ap ok (
            append_assoc pre (take schema.size point) _
            ∙ ap (λ t. pre ++ t)
                (ap (λ t. take schema.size point ++ take (rounds * schema.size) t)
                    (ap (λ (k : ℕ). drop k points) (omega arith)
                      ∙ sym (drop-drop (i * schema.size) schema.size points))
                  ∙ sym (take-add schema.size (rounds * schema.size) point)
                  ∙ ap (λ (k : ℕ). take k point) (omega arith))))
    where
      whole : (n : ℕ) → n - 0 ≡ n
      whole n = omega arith
