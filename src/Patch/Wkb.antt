-- ===== src/Patch/Wkb.antt =====
-- lib/pc_patch_uncompressed.c: uncompressed patches in well-known binary form, and back.
use native.Mathlib.Nat.{mod-eq_of_lt}
use pointcloud.Common.{
  ℕ, suc, ◌+◌, ◌-◌, ◌*◌, ◌^◌, ◌≤◌, ◌<◌, ◌≡◌, refl, sym, ap, ◌∙◌, false, not, ◌==◌, if◌then◌else◌,
  List, ◌∷◌, ◌++◌, length, take, drop, get_elem?, none, some, arith, length-append, take_all,
  take-append, drop-append, append_assoc, Bool-cases, inl, inr,
}
use pointcloud.Common.Result.{Result, ok, fail, access, pcerror, ◌>>=◌}
use pointcloud.Bytes.{slice}
use pointcloud.Bytes.Valid.{slice_ok}
use pointcloud.Bytes.Words.{bytes_of, length-bytes_of, word_of-bytes_of}
use pointcloud.Value.{Doubles}
use pointcloud.Wkb.{machine_endian, wkb_get_field, wkb_get_compression, wkb_get_npoints}
use pointcloud.Schema.{Schema}
use pointcloud.Schema.Xml.{pc_none}
use pointcloud.Point.Flip.{uncompressed_bytes_flip_endian}
use pointcloud.Bounds.{Bounds}
use pointcloud.Patch.{PatchUncompressed, u64}

-- The endianness, the pcid, the compression and the number of points.
abbrev pub patch_header_size : ℕ
patch_header_size = 1 + 4 + 4 + 4

-- What a patch is written behind.
unfoldable pub patch_header : ℕ → ℕ → ℕ → List ℕ
patch_header pcid compression npoints =
    machine_endian ∷ (bytes_of 4 pcid ++ (bytes_of 4 compression ++ bytes_of 4 npoints))

module _ {ℓ} {D T : Type ℓ} where
  -- The bytes and their number.
  unfoldable pub patch_uncompressed_to_wkb : PatchUncompressed D T → Result (List ℕ × ℕ)
  unfolding patch_header
  patch_uncompressed_to_wkb patch = do
    bytes ← slice patch.data_bytes 0 patch.datasize
    ok (
      patch_header patch.schema.pcid patch.type patch.npoints ++ bytes,
      u64 (patch_header_size + patch.datasize),
    )

module _ {ℓ} {D : Type ℓ} (doubles : Doubles D) where
  -- Memory that `pcalloc` has cleared.
  unfoldable pub bounds_zero : Bounds D
  bounds_zero = record {
    xmin = doubles.from_nat 0;
    xmax = doubles.from_nat 0;
    ymin = doubles.from_nat 0;
    ymax = doubles.from_nat 0;
  }

module _ {ℓ} {D T : Type ℓ} (doubles : Doubles D) where
  unfoldable pub patch_uncompressed_from_wkb :
      Schema D T → List ℕ → ℕ → Result (PatchUncompressed D T)
  unfolding bounds_zero
  patch_uncompressed_from_wkb s wkb wkbsize = do
    endian ← access (get_elem? wkb 0)
    compression ← wkb_get_compression wkb
    if not (compression == pc_none) then fail pcerror else (do
      npoints ← wkb_get_npoints wkb
      let datasize = u64 (wkbsize + (2 ^ 64 - patch_header_size))
      if not (datasize == u64 (s.size * npoints)) then fail pcerror else (do
        bytes ←
            if not (endian == machine_endian)
            then uncompressed_bytes_flip_endian (drop patch_header_size wkb) s npoints
            else slice wkb patch_header_size (u64 (npoints * s.size))
        ok (record {
          type = pc_none;
          readonly = false;
          schema = s;
          npoints = npoints;
          bounds = bounds_zero doubles;
          stats = none;
          maxpoints = npoints;
          datasize = datasize;
          data_bytes = bytes;
        })))

-- A word behind other bytes.
wkb_get_field-append :
    (pre : List ℕ) (v : ℕ) (post : List ℕ) (offset : ℕ)
    → v < 2 ^ 32
    → suc (length pre) ≡ offset
    → wkb_get_field offset (machine_endian ∷ (pre ++ (bytes_of 4 v ++ post))) ≡ ok v
unfolding wkb_get_field
wkb_get_field-append pre v post offset small at =
    rw
      (
        ← at,
        slice_ok (machine_endian ∷ (pre ++ (bytes_of 4 v ++ post))) (suc (length pre)) 4 (
            omega (
              arith,
              length-append pre (bytes_of 4 v ++ post),
              length-append (bytes_of 4 v) post,
              length-bytes_of 4 v,
            )),
        drop-append pre (bytes_of 4 v ++ post),
        four,
        word_of-bytes_of 4 v,
      )
      (ap ok (mod-eq_of_lt small))
  where
    four : take 4 (bytes_of 4 v ++ post) ≡ bytes_of 4 v
    four = rw (length-bytes_of 4 v) at (take-append (bytes_of 4 v) post)

module _ (pcid compression npoints : ℕ) (bytes : List ℕ) where
  header-append :
      patch_header pcid compression npoints ++ bytes
      ≡ machine_endian
        ∷ (bytes_of 4 pcid ++ (bytes_of 4 compression ++ (bytes_of 4 npoints ++ bytes)))
  unfolding patch_header
  header-append =
      ap (λ t. machine_endian ∷ t)
        (append_assoc (bytes_of 4 pcid) (bytes_of 4 compression ++ bytes_of 4 npoints) bytes
          ∙ ap (λ t. bytes_of 4 pcid ++ t)
              (append_assoc (bytes_of 4 compression) (bytes_of 4 npoints) bytes))

  pub wkb_get_compression-patch_header :
      compression < 2 ^ 32
      → wkb_get_compression (patch_header pcid compression npoints ++ bytes) ≡ ok compression
  unfolding wkb_get_compression
  wkb_get_compression-patch_header small =
      ap (wkb_get_field 5) header-append
      ∙ wkb_get_field-append (bytes_of 4 pcid) compression (bytes_of 4 npoints ++ bytes) 5 small
          (omega (arith, length-bytes_of 4 pcid))

  pub wkb_get_npoints-patch_header :
      npoints < 2 ^ 32
      → wkb_get_npoints (patch_header pcid compression npoints ++ bytes) ≡ ok npoints
  unfolding wkb_get_npoints
  wkb_get_npoints-patch_header small =
      ap (wkb_get_field 9) (
        header-append
        ∙ ap (λ t. machine_endian ∷ t)
            (sym (
              append_assoc (bytes_of 4 pcid) (bytes_of 4 compression)
                (bytes_of 4 npoints ++ bytes))))
      ∙ wkb_get_field-append (bytes_of 4 pcid ++ bytes_of 4 compression) npoints bytes 9 small (
          omega (
            arith,
            length-append (bytes_of 4 pcid) (bytes_of 4 compression),
            length-bytes_of 4 pcid,
            length-bytes_of 4 compression,
          ))

  pub length-patch_header : length (patch_header pcid compression npoints) ≡ 13
  unfolding patch_header
  length-patch_header = omega (
    arith,
    length-append (bytes_of 4 pcid) (bytes_of 4 compression ++ bytes_of 4 npoints),
    length-append (bytes_of 4 compression) (bytes_of 4 npoints),
    length-bytes_of 4 pcid,
    length-bytes_of 4 compression,
    length-bytes_of 4 npoints,
  )

module _ {ℓ} {D T : Type ℓ} (doubles : Doubles D) (s : Schema D T) (npoints : ℕ)
    (bytes : List ℕ) where
  -- The patch that holds the bytes.
  patch_of : PatchUncompressed D T
  patch_of = record {
    type = pc_none;
    readonly = false;
    schema = s;
    npoints = npoints;
    bounds = bounds_zero doubles;
    stats = none;
    maxpoints = npoints;
    datasize = length bytes;
    data_bytes = bytes;
  }

  from_wkb_parts :
      (wkb : List ℕ)
      → get_elem? wkb 0 ≡ some machine_endian
      → wkb_get_compression wkb ≡ ok pc_none
      → wkb_get_npoints wkb ≡ ok npoints
      → length wkb ≡ 13 + length bytes
      → drop 13 wkb ≡ bytes
      → length bytes < 2 ^ 63
      → npoints * s.size ≤ length bytes
      → patch_uncompressed_from_wkb doubles s wkb (13 + length bytes)
        ≡ (if length bytes == npoints * s.size then ok patch_of else fail pcerror)
  unfolding patch_uncompressed_from_wkb patch_of
  from_wkb_parts wkb endian compression number long behind small fits =
      elim (Bool-cases (length bytes == npoints * s.size)) [
        | inr longer ↦ rw (endian, compression, number, rest, product, longer) refl
        | inl exact ↦
            let same : npoints * s.size ≡ length bytes = ground arith in
            let copied : slice wkb 13 (npoints * s.size) ≡ ok bytes =
              slice_ok wkb 13 (npoints * s.size) (omega (arith, long))
              ∙ ap ok (
                  ap (take (npoints * s.size)) behind
                  ∙ take_all (npoints * s.size) bytes (omega (arith, same))) in
            rw (endian, compression, number, rest, product, product', exact, copied) refl
      ]
    where
      rest : u64 (13 + length bytes + (2 ^ 64 - 13)) ≡ length bytes
      rest = omega arith

      product : u64 (s.size * npoints) ≡ npoints * s.size
      product = omega arith

      product' : u64 (npoints * s.size) ≡ npoints * s.size
      product' = omega arith

module _ {ℓ} {D T : Type ℓ} (doubles : Doubles D) (patch : PatchUncompressed D T) where
  -- What reading makes of a patch that was written.
  abbrev pub read_back : PatchUncompressed D T
  read_back = record patch {
    type = pc_none;
    readonly = false;
    bounds = bounds_zero doubles;
    stats = none;
    maxpoints = patch.npoints;
  }

  -- A patch that is written is read as the patch, without bounds and statistics, where its buffer
  -- is as long as its points; where the buffer is longer, reading fails. The patch is
  -- uncompressed, and takes fewer than 2^63 bytes.
  pub patch_uncompressed_from_wkb-to_wkb :
      patch.type ≡ pc_none
      → patch.npoints < 2 ^ 32
      → patch.datasize < 2 ^ 63
      → patch.npoints * patch.schema.size ≤ patch.datasize
      → length patch.data_bytes ≡ patch.datasize
      → (wkb : List ℕ) × (n : ℕ) × (patch_uncompressed_to_wkb patch ≡ ok (wkb, n))
        × (length wkb ≡ n)
        × (patch_uncompressed_from_wkb doubles patch.schema wkb n ≡ (
            if patch.datasize == patch.npoints * patch.schema.size
            then ok read_back
            else fail pcerror))
  unfolding patch_uncompressed_to_wkb patch_of
  patch_uncompressed_from_wkb-to_wkb plain few small fits filled = (
    header ++ patch.data_bytes,
    13 + length patch.data_bytes,
    rw (read, total, filled),
    omega (arith, length-append header patch.data_bytes, long),
    rw (← filled) (
        from_wkb_parts doubles patch.schema patch.npoints patch.data_bytes
          (header ++ patch.data_bytes) first
          (wkb_get_compression-patch_header patch.schema.pcid patch.type patch.npoints
              patch.data_bytes (omega (arith, plain))
            ∙ ap ok plain)
          (wkb_get_npoints-patch_header patch.schema.pcid patch.type patch.npoints patch.data_bytes
            few)
          (omega (arith, length-append header patch.data_bytes, long))
          (rw long at (drop-append header patch.data_bytes)) (omega (arith, filled))
          (omega (arith, filled))),
  )
    where
      header : List ℕ
      header = patch_header patch.schema.pcid patch.type patch.npoints

      first : get_elem? (header ++ patch.data_bytes) 0 ≡ some machine_endian
      first =
          ap (λ t. get_elem? t 0)
            (header-append patch.schema.pcid patch.type patch.npoints patch.data_bytes)

      long : length header ≡ 13
      long = length-patch_header patch.schema.pcid patch.type patch.npoints patch.data_bytes

      read : slice patch.data_bytes 0 patch.datasize ≡ ok patch.data_bytes
      read =
          slice_ok patch.data_bytes 0 patch.datasize (omega arith)
          ∙ ap ok (take_all patch.datasize patch.data_bytes (omega arith))

      total : u64 (13 + patch.datasize) ≡ 13 + patch.datasize
      total = omega arith
