-- ===== src/Patch/Listed.antt =====
-- lib/pc_pointlist.c, lib/pc_patch_uncompressed.c: the list of the points of a patch, and a patch of
-- the points of a list.
use pointcloud.Common.{
  ℕ, zero, suc, ◌+◌, ◌*◌, ◌^◌, ◌<◌, ◌≡◌, refl, sym, ap, ◌∙◌, false, true, inl, inr, not, ◌==◌,
  if◌then◌else◌, List, [], ◌∷◌, map, length, take, drop, replicate, Option, none, some, arith,
}
use pointcloud.Common.Result.{Result, ok, fail, pcerror, ◌>>=◌, Result-cases}
use pointcloud.Bytes.{slice, u32}
use pointcloud.Bytes.Valid.{chunks, drop-drop}
use pointcloud.Memory.{put_bytes}
use pointcloud.Value.{Doubles}
use pointcloud.Schema.{Schema}
use pointcloud.Schema.Compare.{followed}
use pointcloud.Schema.Xml.{pc_none}
use pointcloud.Point.{Point, point_from_data}
use pointcloud.Bounds.{bounds_init}
use pointcloud.Pointlist.{
  Pointlist, pointlist_make, pointlist_add_point, pointlist_get_point, listed, add_points, IsList,
  add_points-listed, pointlist_make-IsList,
}
use pointcloud.Patch.{
  PatchUncompressed, u64, patch_uncompressed_compute_extent, patch_uncompressed_compute_stats,
}
use pointcloud.Patch.Grow.{patch_points}

module _ {ℓ} {D T : Type ℓ} where
  -- The loop, with `rounds` left.
  unfoldable pub list_loop :
      PatchUncompressed D T → ℕ → ℕ → Pointlist (Point D T) → Result (Pointlist (Point D T))
  list_loop patch zero i pl = ok pl
  list_loop patch (suc rounds) i pl = do
    pt ← point_from_data (some patch.schema) (drop (i * patch.schema.size) patch.data_bytes)
    pl' ← pointlist_add_point pl pt
    list_loop patch rounds (i + 1) pl'

  unfoldable pub pointlist_from_uncompressed :
      PatchUncompressed D T → Result (Pointlist (Point D T))
  pointlist_from_uncompressed patch = list_loop patch patch.npoints 0 (pointlist_make patch.npoints)

  -- A point of the list is copied behind those that are there; a null pointer is passed over with a
  -- warning.
  copy_point :
      Schema D T → PatchUncompressed D T → Option (Point D T) → Result (PatchUncompressed D T)
  copy_point s pch none = ok pch
  copy_point s pch (some pt) = if not (pt.schema.pcid == s.pcid) then fail pcerror else (do
    point ← slice pt.data_bytes 0 s.size
    bytes ← put_bytes pch.data_bytes (s.size * pch.npoints) point
    ok (record pch { npoints = u32 (pch.npoints + 1); data_bytes = bytes }))

  unfoldable pub copy_points :
      Pointlist (Point D T)
      → Schema D T
      → ℕ
      → ℕ
      → PatchUncompressed D T
      → Result (PatchUncompressed D T)
  unfolding copy_point
  copy_points pl s zero i pch = ok pch
  copy_points pl s (suc rounds) i pch = do
    pt ← pointlist_get_point pl i
    pch' ← copy_point s pch pt
    copy_points pl s rounds (i + 1) pch'

  -- The points that the list is of.
  unfoldable pub points_from : PatchUncompressed D T → ℕ → ℕ → List (Point D T)
  points_from patch zero i = []
  points_from patch (suc rounds) i =
      record {
        readonly = true;
        schema = patch.schema;
        data_bytes = drop (i * patch.schema.size) patch.data_bytes;
      }
      ∷ points_from patch rounds (i + 1)

  -- The bytes of a point, of which there are as many as its schema says.
  abbrev pub bytes_of_point : PatchUncompressed D T → Option (Point D T) → Option (List ℕ)
  bytes_of_point pa none = none
  bytes_of_point pa (some pt) = some (take pa.schema.size pt.data_bytes)

  list_loop-points_from :
      (patch : PatchUncompressed D T) (rounds i : ℕ) (pl : Pointlist (Point D T))
      → list_loop patch rounds i pl ≡ add_points (points_from patch rounds i) pl
  unfolding list_loop add_points points_from point_from_data
  list_loop-points_from patch zero i pl = refl
  list_loop-points_from patch (suc rounds) i pl =
      let pt : Point D T = record {
        readonly = true;
        schema = patch.schema;
        data_bytes = drop (i * patch.schema.size) patch.data_bytes;
      } in
      elim (Result-cases (pointlist_add_point pl pt)) [
        | inl (pl', e) ↦ rw e (list_loop-points_from patch rounds (i + 1) pl')
        | inr (f, e) ↦ rw e
      ]

  map-points_from :
      (patch : PatchUncompressed D T) (rounds i : ℕ)
      → map (bytes_of_point patch) (map some (points_from patch rounds i))
        ≡ map some (chunks patch.schema.size rounds (drop (i * patch.schema.size) patch.data_bytes))
  unfolding points_from chunks
  map-points_from patch zero i = refl
  map-points_from patch (suc rounds) i =
      ap (λ t. some (take patch.schema.size (drop (i * patch.schema.size) patch.data_bytes)) ∷ t)
        (map-points_from patch rounds (i + 1)
          ∙ ap (λ t. map some (chunks patch.schema.size rounds t))
              (ap (λ (k : ℕ). drop k patch.data_bytes) (omega arith)
                ∙ sym (drop-drop (i * patch.schema.size) patch.schema.size patch.data_bytes)))

  length-points_from :
      (patch : PatchUncompressed D T) (rounds i : ℕ) → length (points_from patch rounds i) ≡ rounds
  unfolding points_from
  length-points_from patch zero i = refl
  length-points_from patch (suc rounds) i = ap suc (length-points_from patch rounds (i + 1))

  -- The list of the points of a patch of fewer than 2^31 points is made, is well-formed, and has the
  -- points of the patch in their order.
  pub pointlist_from_uncompressed-patch_points :
      (patch : PatchUncompressed D T)
      → patch.npoints < 2 ^ 31
      → (pl : Pointlist (Point D T)) × (pointlist_from_uncompressed patch ≡ ok pl)
        × IsList pl
        × (pl.npoints ≡ patch.npoints)
        × (map (bytes_of_point patch) (listed pl) ≡ map some (patch_points patch))
  unfolding pointlist_from_uncompressed patch_points pointlist_make listed points_from
  pointlist_from_uncompressed-patch_points patch few =
      let long = length-points_from patch patch.npoints 0 in
      let (pl, added, valid, many, all) =
        add_points-listed (points_from patch patch.npoints 0) (pointlist_make patch.npoints)
          (pointlist_make-IsList patch.npoints (omega arith)) (omega (arith, long, few)) in
      (
        pl,
        list_loop-points_from patch patch.npoints 0 (pointlist_make patch.npoints) ∙ added,
        valid,
        many
            ∙ ap (λ (n : ℕ). (pointlist_make {P = Point D T} patch.npoints).npoints + n) long
            ∙ none_before patch.npoints,
        ap (map (bytes_of_point patch)) all
            ∙ map-points_from patch patch.npoints 0
            ∙ ap (λ t. map some (chunks patch.schema.size patch.npoints t))
                (ap (λ (k : ℕ). drop k patch.data_bytes) (zero_times patch.schema.size)),
      )
    where
      none_before : (n : ℕ) → (pointlist_make {P = Point D T} n).npoints + n ≡ n
      none_before n = unfold pointlist_make in omega arith

      zero_times : (n : ℕ) → 0 * n ≡ 0
      zero_times n = omega arith

module _ {ℓ} {D T : Type ℓ} (doubles : Doubles D) where
  unfoldable pub patch_uncompressed_from_pointlist :
      Pointlist (Point D T) → Result (PatchUncompressed D T)
  unfolding copy_points
  patch_uncompressed_from_pointlist pl = if pl.npoints == 0 then fail pcerror else (do
    first ← pointlist_get_point pl 0
    pt ← followed first
    let s = pt.schema
    if s.size == 0 then fail pcerror else (do
      let pch : PatchUncompressed D T = record {
        type = pc_none;
        readonly = false;
        schema = s;
        npoints = 0;
        bounds = bounds_init doubles;
        stats = none;
        maxpoints = pl.npoints;
        datasize = u64 (s.size * pl.npoints);
        data_bytes = replicate (u64 (s.size * pl.npoints)) 0;
      }
      copied ← copy_points pl s pl.npoints 0 pch
      bounded ← patch_uncompressed_compute_extent doubles copied
      patch_uncompressed_compute_stats doubles bounded))
