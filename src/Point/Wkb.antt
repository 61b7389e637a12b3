-- ===== src/Point/Wkb.antt =====
-- lib/pc_point.c: points in well-known binary form, and back.
use mathlib.Core.Path.{subst}
use pointcloud.Common.{
  append-nil, take_all, ℕ, suc, ◌+◌, ◌-◌, ◌%◌, ◌^◌, ◌<◌, ◌≡◌, refl, sym, ap, ◌∙◌, Bool, true, false,
  not, ◌==◌, if◌then◌else◌, List, [], ◌∷◌, ◌++◌, length, take, drop, get_elem?, Option, none, some,
  arith, length-append, take-length, drop-append, ==_refl, bit_or,
}
use pointcloud.Common.Result.{
  Result, ok, fail, access, pcerror, ◌>>=◌, bind_returned, ok_injective, some_injective,
}
use pointcloud.Bytes.{slice}
use pointcloud.Bytes.Valid.{slice_ok}
use pointcloud.Bytes.Words.{bytes_of, length-bytes_of}
use pointcloud.Wkb.{machine_endian}
use pointcloud.Value.{Doubles}
use pointcloud.Schema.{Schema}
use pointcloud.Schema.Offsets.{total_width-le}
use pointcloud.Schema.Fields.{IsLaid}
use pointcloud.Schema.Xyzm.{all_dimensions}
use pointcloud.Point.{Point, point_from_data, point_get_x, point_get_y, point_get_z, point_get_m}
use pointcloud.Point.Flip.{
  uncompressed_bytes_flip_endian, flipped, length-flipped, flipped-flipped, all_flipped,
  uncompressed_bytes_flip_endian-all_flipped,
}

-- The endianness and the pcid.
abbrev header_size : ℕ
header_size = 1 + 4

module _ {ℓ} {D T : Type ℓ} where
  unfoldable pub point_from_wkb : Schema D T → List ℕ → ℕ → Result (Point D T)
  unfolding point_from_data
  point_from_wkb schema wkb wkblen = if wkblen == 0 then fail pcerror else (do
    wkb_endian ← access (get_elem? wkb 0)
    if not ((wkblen + (2 ^ 64 - header_size)) % 2 ^ 64 == schema.size) then fail pcerror else (do
      bytes ←
          if not (wkb_endian == machine_endian)
          then uncompressed_bytes_flip_endian (drop header_size wkb) schema 1
          else slice wkb header_size schema.size
      pt ← point_from_data (some schema) bytes
      ok (record pt { readonly = false })))

  -- The bytes and their number.
  unfoldable pub point_to_wkb : Point D T → Result (List ℕ × ℕ)
  point_to_wkb pt = do
    bytes ← slice pt.data_bytes 0 pt.schema.size
    ok (machine_endian ∷ (bytes_of 4 pt.schema.pcid ++ bytes), (1 + 4 + pt.schema.size) % 2 ^ 64)

abbrev srid_mask : ℕ
srid_mask = 2 ^ 29

abbrev m_mask : ℕ
m_mask = 2 ^ 30

abbrev z_mask : ℕ
z_mask = 2 ^ 31

module _ {ℓ} {D : Type ℓ} (doubles : Doubles D) where
  -- The 8 bytes of a coordinate.
  coordinate_bytes : D → List ℕ
  coordinate_bytes d = bytes_of 8 (doubles.double_bits d)

  optional_bytes : Option D → List ℕ
  unfolding coordinate_bytes
  optional_bytes none = []
  optional_bytes (some d) = coordinate_bytes d

  -- The type and the size grow with an optional coordinate.
  with_mask : ℕ → Option D → ℕ → ℕ
  with_mask mask none wkbtype = wkbtype
  with_mask mask (some d) wkbtype = bit_or wkbtype mask

  with_size : Option D → ℕ → ℕ
  with_size none size = size
  with_size (some d) size = size + 8

  -- A point at `x` and `y`, with `z` and `m` if the schema has them, and the size of the buffer.
  unfoldable pub geometry_wkb : ℕ → D → D → Option D → Option D → List ℕ × ℕ
  unfolding coordinate_bytes optional_bytes with_mask with_size
  geometry_wkb srid x y z m =
      let point : ℕ = 1 in
      let located = if srid == 0 then point else bit_or point srid_mask in
      let wkbtype = with_mask m_mask m (with_mask z_mask z located) in
      let size = with_size m (with_size z ((1 + 4 + 8 + 8) + (if srid == 0 then 0 else 4))) in
      (
        machine_endian
            ∷ (bytes_of 4 wkbtype
                ++ ((if srid == 0 then [] else bytes_of 4 srid)
                    ++ (coordinate_bytes x
                        ++ (coordinate_bytes y ++ (optional_bytes z ++ optional_bytes m))))),
        size,
      )

  -- `NULL` unless there is an X and a Y coordinate.
  geometry_if : ℕ → Option D → Option D → Option D → Option D → Option (List ℕ × ℕ)
  unfolding geometry_wkb
  geometry_if srid none y z m = none
  geometry_if srid (some px) none z m = none
  geometry_if srid (some px) (some py) z m = some (geometry_wkb srid px py z m)

module _ {ℓ} {D T : Type ℓ} (doubles : Doubles D) where
  unfoldable pub point_to_geometry_wkb : Point D T → Result (Option (List ℕ × ℕ))
  unfolding geometry_if
  point_to_geometry_wkb pt = do
    x ← point_get_x doubles pt
    y ← point_get_y doubles pt
    z ← point_get_z doubles pt
    m ← point_get_m doubles pt
    ok (geometry_if doubles pt.schema.srid x y z m)

module _ {ℓ} {D : Type ℓ} (doubles : Doubles D) where
  with_size_lem :
      (o : Option D) (n : ℕ) → with_size doubles o n ≡ n + length (optional_bytes doubles o)
  unfolding with_size optional_bytes coordinate_bytes
  with_size_lem none n = omega arith
  with_size_lem (some d) n = omega (arith, length-bytes_of 8 (doubles.double_bits d))

  length-srid :
      (b : Bool) (srid : ℕ) → length (if b then [] else bytes_of 4 srid) ≡ (if b then 0 else 4)
  length-srid true srid = refl
  length-srid false srid = length-bytes_of 4 srid

  length-tail :
      (wkbtype srid : ℕ) (b : Bool) (x y : D) (z m : Option D)
      → length (
          bytes_of 4 wkbtype
          ++ ((if b then [] else bytes_of 4 srid)
              ++ (coordinate_bytes doubles x
                  ++ (coordinate_bytes doubles y
                      ++ (optional_bytes doubles z ++ optional_bytes doubles m)))))
        ≡ 4
          + (if b then 0 else 4)
          + 8
          + 8
          + length (optional_bytes doubles z)
          + length (optional_bytes doubles m)
  unfolding coordinate_bytes
  length-tail wkbtype srid b x y z m =
      rw
        (
          length-append (bytes_of 4 wkbtype) _,
          length-append (if b then [] else bytes_of 4 srid) _,
          length-append (bytes_of 8 (doubles.double_bits x)) _,
          length-append (bytes_of 8 (doubles.double_bits y)) _,
          length-append (optional_bytes doubles z) _,
          length-bytes_of 4 wkbtype,
          length-srid b srid,
          length-bytes_of 8 (doubles.double_bits x),
          length-bytes_of 8 (doubles.double_bits y),
        )
        (omega arith)

  length-geometry_wkb :
      (srid : ℕ) (x y : D) (z m : Option D)
      → length (geometry_wkb doubles srid x y z m).0 ≡ (geometry_wkb doubles srid x y z m).1
  unfolding geometry_wkb
  length-geometry_wkb srid x y z m =
      ap suc (length-tail _ srid (srid == 0) x y z m)
      ∙ omega (
        arith,
        with_size_lem m (with_size doubles z ((1 + 4 + 8 + 8) + (if srid == 0 then 0 else 4))),
        with_size_lem z ((1 + 4 + 8 + 8) + (if srid == 0 then 0 else 4)),
      )

module _ {ℓ} {D : Type ℓ} (doubles : Doubles D) where
  geometry_cases :
      (srid : ℕ) (x y z m : Option D) (wkb : List ℕ) (wkbsize : ℕ)
      → geometry_if doubles srid x y z m ≡ some (wkb, wkbsize)
      → length wkb ≡ wkbsize
  unfolding geometry_if
  geometry_cases srid none y z m wkb wkbsize e = cc
  geometry_cases srid (some px) none z m wkb wkbsize e = cc
  geometry_cases srid (some px) (some py) z m wkb wkbsize e =
      let same = some_injective e in
      subst (λ (r : List ℕ × ℕ). length r.0 ≡ r.1) same (length-geometry_wkb doubles srid px py z m)

module _ {ℓ} {D T : Type ℓ} (doubles : Doubles D) where
  -- A geometry that is returned takes exactly the bytes that are allocated for it and announced to
  -- the caller.
  pub length-point_to_geometry_wkb :
      (pt : Point D T) (wkb : List ℕ) (wkbsize : ℕ)
      → point_to_geometry_wkb doubles pt ≡ ok (some (wkb, wkbsize))
      → length wkb ≡ wkbsize
  unfolding point_to_geometry_wkb
  length-point_to_geometry_wkb pt wkb wkbsize e =
      let (x, px, e1) = bind_returned (point_get_x doubles pt) _ e in
      let (y, py, e2) = bind_returned (point_get_y doubles pt) _ e1 in
      let (z, pz, e3) = bind_returned (point_get_z doubles pt) _ e2 in
      let (m, pm, e4) = bind_returned (point_get_m doubles pt) _ e3 in
      geometry_cases doubles pt.schema.srid x y z m wkb wkbsize (ok_injective e4)

size_nonzero : (n : ℕ) → (5 + n == 0) ≡ false
size_nonzero n = ground arith

-- The size of the data is what the code finds behind the header.
size_consistent :
    (n : ℕ) → n < 2 ^ 32 → ((5 + n + 18446744073709551611) % 18446744073709551616 == n) ≡ true
size_consistent n h = rw (wrapped n h) (==_refl n)
  where
    wrapped : (n : ℕ) → n < 2 ^ 32 → (5 + n + 18446744073709551611) % 18446744073709551616 ≡ n
    wrapped n h = omega arith

module _ {ℓ} {D T : Type ℓ} (pt : Point D T) where
  -- A point that is written and read is the point, in memory of its own. Its data are as long as
  -- the schema says, which is less than 2^32.
  pub point_from_wkb-to_wkb :
      length pt.data_bytes ≡ pt.schema.size
      → pt.schema.size < 2 ^ 32
      → (wkb : List ℕ) × (n : ℕ) × (point_to_wkb pt ≡ ok (wkb, n))
        × (length wkb ≡ n)
        × (point_from_wkb pt.schema wkb n ≡ ok (record pt { readonly = false }))
  unfolding point_to_wkb point_from_wkb point_from_data
  point_from_wkb-to_wkb filled small = (
    machine_endian ∷ (bytes_of 4 pt.schema.pcid ++ pt.data_bytes),
    5 + pt.schema.size,
    rw (read, total),
    omega (arith, length-append (bytes_of 4 pt.schema.pcid) pt.data_bytes, four),
    rw (size_nonzero pt.schema.size, size_consistent pt.schema.size small, copied),
  )
    where
      four : length (bytes_of 4 pt.schema.pcid) ≡ 4
      four = length-bytes_of 4 pt.schema.pcid

      read : slice pt.data_bytes 0 pt.schema.size ≡ ok pt.data_bytes
      read =
          slice_ok pt.data_bytes 0 pt.schema.size (omega arith)
          ∙ ap ok (ap (λ (k : ℕ). take k pt.data_bytes) (sym filled) ∙ take-length pt.data_bytes)

      total : (1 + 4 + pt.schema.size) % 2 ^ 64 ≡ 5 + pt.schema.size
      total = omega arith

      behind : drop 4 (bytes_of 4 pt.schema.pcid ++ pt.data_bytes) ≡ pt.data_bytes
      behind = rw four at (drop-append (bytes_of 4 pt.schema.pcid) pt.data_bytes)

      copied :
          slice (machine_endian ∷ (bytes_of 4 pt.schema.pcid ++ pt.data_bytes)) 5 pt.schema.size
          ≡ ok pt.data_bytes
      copied =
          slice_ok (machine_endian ∷ (bytes_of 4 pt.schema.pcid ++ pt.data_bytes)) 5 pt.schema.size
            (omega (arith, length-append (bytes_of 4 pt.schema.pcid) pt.data_bytes, four))
          ∙ ap ok (
              ap (take pt.schema.size) behind
              ∙ ap (λ (k : ℕ). take k pt.data_bytes) (sym filled)
              ∙ take-length pt.data_bytes)

  -- A point whose values are written backwards, behind a mark of the other byte order and any four
  -- bytes, is read as the point. The schema has all its dimensions and its offsets are calculated,
  -- and the data are as long as it says.
  pub point_from_wkb_foreign :
      (pcid : List ℕ)
      → IsLaid pt.schema
      → all_dimensions pt.schema.dims ≡ true
      → length pt.data_bytes ≡ pt.schema.size
      → length pcid ≡ 4
      → point_from_wkb pt.schema
          (0 ∷ (pcid ++ flipped pt.schema.dims pt.data_bytes))
          (5 + pt.schema.size)
        ≡ ok (record pt { readonly = false })
  unfolding point_from_wkb point_from_data
  point_from_wkb_foreign pcid laid full filled four =
      rw (size_nonzero pt.schema.size, size_consistent pt.schema.size small, back)
    where
      small : pt.schema.size < 2 ^ 32
      small = omega (arith, laid.sized, total_width-le pt.schema.dims, laid.few)

      other : List ℕ
      other = flipped pt.schema.dims pt.data_bytes

      long : length other ≡ pt.schema.size
      long = length-flipped pt.schema.dims pt.data_bytes ∙ filled

      behind : drop 4 (pcid ++ other) ≡ other
      behind = rw four at (drop-append pcid other)

      one : all_flipped pt.schema 1 other ≡ pt.data_bytes
      one =
          unfold all_flipped in
          append-nil (flipped pt.schema.dims (take pt.schema.size other))
          ∙ ap (flipped pt.schema.dims) (take_all pt.schema.size other (omega (arith, long)))
          ∙ flipped-flipped pt.schema.dims pt.data_bytes (omega (arith, filled, laid.sized))

      back : uncompressed_bytes_flip_endian (drop 4 (pcid ++ other)) pt.schema 1 ≡ ok pt.data_bytes
      back =
          ap (λ t. uncompressed_bytes_flip_endian t pt.schema 1) behind
          ∙ uncompressed_bytes_flip_endian-all_flipped pt.schema laid full 1 other (omega arith)
              (omega (arith, long)) (omega (arith, long, small))
          ∙ ap ok one
