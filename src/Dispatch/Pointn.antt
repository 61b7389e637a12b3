-- ===== src/Dispatch/Pointn.antt =====
-- lib/pc_patch.c: which point of a patch `pc_patch_pointn` gives.
use pointcloud.Common.{
  ℕ, zero, suc, ◌+◌, ◌-◌, ◌*◌, ◌^◌, ◌≤◌, ◌<◌, ◌≡◌, refl, ap, ◌∙◌, false, ltb, if◌then◌else◌, List,
  take, drop, get_elem?, Option, none, some, arith, Bool-cases, inl, inr, lt→ltb, ltb→lt, length,
}
use pointcloud.Common.Result.{ok, ◌>>=◌}
use pointcloud.Bytes.{u32}
use pointcloud.Bytes.Codec.{Zlib}
use pointcloud.Bytes.Valid.{chunks, length-chunks, drop-drop}
use pointcloud.Point.{point_from_data}
use pointcloud.Patch.{PatchUncompressed, patch_uncompressed_pointn}
use pointcloud.Patch.Grow.{patch_points}
use pointcloud.Patch.Listed.{bytes_of_point}
use pointcloud.Lazperf.{Lazperf}
use pointcloud.Dispatch.{
  uncompressed, ℤ, pos, negsuc, to_int, point_index, patch_npoints, pointn, pointn_within,
  patch_pointn,
}

-- The points counted from 1, or backwards from the end by negative numbers.
unfoldable pub counted {ℓ} : {A : Type ℓ} → List A → ℤ → Option A
counted points (pos zero) = none
counted points (pos (suc k)) = get_elem? points k
counted points (negsuc k) =
    if ltb k (length points) then get_elem? points (length points - suc k) else none

abbrev pub IsInt : ℤ → Type 0
IsInt (pos n) = n < 2 ^ 31
IsInt (negsuc k) = k < 2 ^ 31

get_elem?-chunks :
    (size n i : ℕ) (bytes : List ℕ)
    → i < n
    → get_elem? (chunks size n bytes) i ≡ some (take size (drop (i * size) bytes))
unfolding chunks
get_elem?-chunks size zero i bytes h = absurd (omega arith)
get_elem?-chunks size (suc n) zero bytes h =
    ap (λ (k : ℕ). some (take size (drop k bytes))) (nothing size)
  where
    nothing : (m : ℕ) → 0 ≡ 0 * m
    nothing m = omega arith
get_elem?-chunks size (suc n) (suc i) bytes h =
    get_elem?-chunks size n i (drop size bytes) (omega arith)
    ∙ ap (λ t. some (take size t))
        (drop-drop size (i * size) bytes ∙ ap (λ (k : ℕ). drop k bytes) (omega arith))

get_elem?-chunks_beyond :
    (size n i : ℕ) (bytes : List ℕ) → n ≤ i → get_elem? (chunks size n bytes) i ≡ none
unfolding chunks
get_elem?-chunks_beyond size zero i bytes h = refl
get_elem?-chunks_beyond size (suc n) zero bytes h = absurd (omega arith)
get_elem?-chunks_beyond size (suc n) (suc i) bytes h =
    get_elem?-chunks_beyond size n i (drop size bytes) (omega arith)

-- A negative number within the points, and one that is not.
point_index_back :
    (npoints k : ℕ)
    → npoints < 2 ^ 31
    → k < npoints
    → point_index npoints (negsuc k) ≡ pos (npoints - suc k)
unfolding point_index to_int
point_index_back npoints k few h =
    let back : u32 (npoints + (4294967296 - suc k)) ≡ npoints - suc k = omega arith in
    rw (back, lt→ltb (npoints - suc k) 2147483648 (omega arith))

point_index_outside :
    (npoints k : ℕ)
    → k < 2 ^ 31
    → npoints ≤ k
    → point_index npoints (negsuc k) ≡ negsuc (k - npoints)
unfolding point_index to_int
point_index_outside npoints k small h =
    let back : u32 (npoints + (4294967296 - suc k)) ≡ npoints + (4294967296 - suc k) =
      omega arith in
    let high : ltb (npoints + (4294967296 - suc k)) 2147483648 ≡ false = ground arith in
    let left : 4294967295 - (npoints + (4294967296 - suc k)) ≡ k - npoints = omega arith in
    rw (back, high, left)

module _ {ℓ} {D T : Type ℓ} (zlib : Zlib) (laz : Lazperf D T) (pa : PatchUncompressed D T) where
  within :
      (i : ℕ)
      → (pointn_within zlib laz (uncompressed pa) (pos i) >>= λ pt. ok (bytes_of_point pa pt))
        ≡ ok (get_elem? (patch_points pa) i)
  unfolding pointn_within pointn patch_uncompressed_pointn point_from_data patch_npoints
      patch_points
  within i = elim (Bool-cases (ltb i pa.npoints)) [
    | inl e ↦
        rw (e, get_elem?-chunks pa.schema.size pa.npoints i pa.data_bytes (ltb→lt i pa.npoints e))
          refl
    | inr e ↦
        let beyond : pa.npoints ≤ i = ground arith in
        rw (e, get_elem?-chunks_beyond pa.schema.size pa.npoints i pa.data_bytes beyond)
  ]

  length-patch_points : length (patch_points pa) ≡ pa.npoints
  unfolding patch_points
  length-patch_points = length-chunks pa.schema.size pa.npoints pa.data_bytes

  -- For an uncompressed patch of fewer than 2^31 points and any `int`, `pc_patch_pointn` returns
  -- the point that is counted from 1, or from the end if the number is negative, and NULL if there
  -- is no such point.
  pub patch_pointn-counted :
      (n : ℤ)
      → pa.npoints < 2 ^ 31
      → IsInt n
      → (patch_pointn zlib laz (uncompressed pa) n >>= λ pt. ok (bytes_of_point pa pt))
        ≡ ok (counted (patch_points pa) n)
  unfolding patch_pointn patch_npoints counted
  patch_pointn-counted (pos zero) few int = unfold point_index pointn_within in refl
  patch_pointn-counted (pos (suc k)) few int = unfold point_index in within k
  patch_pointn-counted (negsuc k) few int = elim (Bool-cases (ltb k pa.npoints)) [
    | inl e ↦
        rw (point_index_back pa.npoints k few (ltb→lt k pa.npoints e), length-patch_points, e)
          (within (pa.npoints - suc k))
    | inr e ↦
        let beyond : pa.npoints ≤ k = ground arith in
        rw (point_index_outside pa.npoints k int beyond, length-patch_points, e)
          (unfold pointn_within in refl)
  ]
