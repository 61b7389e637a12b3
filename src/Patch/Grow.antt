-- ===== src/Patch/Grow.antt =====
-- lib/pc_patch_uncompressed.c: a patch that points are added to holds these points.
use native.Mathlib.Nat.{mul-le-mul_left, mul-le-mul_right, mod-eq_of_lt}
use pointcloud.Common.{
  ℕ, zero, suc, ◌+◌, ◌*◌, ◌-◌, ◌^◌, ◌≤◌, ◌<◌, ◌≡◌, refl, sym, ap, ap₂, ◌∙◌, true, false, ◌==◌, List,
  [], ◌∷◌, ◌++◌, take, drop, length, replicate, some, arith, length-append, length-take,
  length-replicate, length-drop, take-append, take_all, lt→leb, ==_refl, inl, inr, Bool-cases,
}
use pointcloud.Common.Result.{ok, fail, out_of_bounds}
use pointcloud.Bytes.{slice, u32}
use pointcloud.Bytes.Valid.{chunks, slice_ok}
use pointcloud.Memory.{put_bytes, put_bytes-append, parts, take-drop-append}
use pointcloud.Value.{Doubles}
use pointcloud.Schema.Xml.{pc_none}
use pointcloud.Point.{Point, point_get_x, point_get_y}
use pointcloud.Bounds.{bounds_add}
use pointcloud.Patch.{
  PatchUncompressed, u64, enlarged, room_for_point, add_to_bounds, put_point,
  patch_uncompressed_add_point,
}

add_one : (n : ℕ) → n + 1 ≡ suc n
add_one n = omega arith

drop-append_within : (n : ℕ) (xs ys : List ℕ) → n ≤ length xs → drop n (xs ++ ys) ≡ drop n xs ++ ys
drop-append_within zero xs ys h = refl
drop-append_within (suc n) [] ys h = absurd (omega arith)
drop-append_within (suc n) (x ∷ xs) ys h = drop-append_within n xs ys (omega arith)

slice_front : (bytes : List ℕ) (n : ℕ) → n ≤ length bytes → slice bytes 0 n ≡ ok (take n bytes)
slice_front bytes n h = slice_ok bytes 0 n (omega arith)

-- The points of a buffer are those of its front and the one behind them.
chunks-append :
    (size n : ℕ) (pre v post : List ℕ)
    → length pre ≡ n * size
    → length v ≡ size
    → chunks size (suc n) (pre ++ (v ++ post)) ≡ chunks size n pre ++ (v ∷ [])
unfolding chunks
chunks-append size zero [] v post p w =
    ap (λ t. t ∷ []) (ap (λ (k : ℕ). take k (v ++ post)) (sym w) ∙ take-append v post)
chunks-append size zero (x ∷ pre) v post p w = absurd (omega arith)
chunks-append size (suc n) pre v post p w =
    ap₂ ◌∷◌ (take-drop-append size 0 pre (v ++ post) (omega arith)) (
      ap (chunks size (suc n)) (drop-append_within size pre (v ++ post) (omega arith))
      ∙ chunks-append size n (drop size pre) v post (omega (arith, length-drop size pre)) w)

chunks-front :
    (size n : ℕ) (pre post : List ℕ)
    → length pre ≡ n * size
    → chunks size n (pre ++ post) ≡ chunks size n pre
unfolding chunks
chunks-front size zero pre post p = refl
chunks-front size (suc n) pre post p = ap₂ ◌∷◌ (take-drop-append size 0 pre post (omega arith)) (
    ap (chunks size n) (drop-append_within size pre post (omega arith))
    ∙ chunks-front size n (drop size pre) post (omega (arith, length-drop size pre)))

-- A point replaced behind `n` points.
put_bytes-chunks :
    (size n : ℕ) (memory v : List ℕ)
    → length v ≡ size
    → n * size + size ≤ length memory
    → (after : List ℕ) × (put_bytes memory (size * n) v ≡ ok after)
      × (length after ≡ length memory)
      × (chunks size (suc n) after ≡ chunks size n memory ++ (v ∷ []))
put_bytes-chunks size n memory v w h =
    let p = parts memory (size * n) size (omega arith) in
    (
      p.pre ++ (v ++ p.post),
      ap (λ m. put_bytes m (size * n) v) p.whole
          ∙ put_bytes-append p.pre p.old p.post v (size * n) p.before (omega (arith, p.wide)),
      omega (
        arith,
        ap length p.whole,
        length-append p.pre (v ++ p.post),
        length-append v p.post,
        length-append p.pre (p.old ++ p.post),
        length-append p.old p.post,
        p.wide,
      ),
      chunks-append size n p.pre v p.post (omega (arith, p.before)) w
          ∙ ap (λ t. t ++ (v ∷ []))
              (sym (
                ap (chunks size n) p.whole
                ∙ chunks-front size n p.pre (p.old ++ p.post) (omega (arith, p.before)))),
    )

module _ {ℓ} {D T : Type ℓ} where
  -- The points of a patch.
  unfoldable pub patch_points : PatchUncompressed D T → List (List ℕ)
  patch_points c = chunks c.schema.size c.npoints c.data_bytes

-- A patch that can be added to, with room for one point at least.
pub record IsOpen {ℓ} {D T : Type ℓ} (c : PatchUncompressed D T) : Type ℓ where
  pub plain : c.type ≡ pc_none
  pub writable : c.readonly ≡ false
  pub room : 1 ≤ c.maxpoints
  pub used : c.npoints ≤ c.maxpoints
  pub narrow : c.maxpoints < 2 ^ 32
  pub thin : c.schema.size < 2 ^ 32
  pub sized : c.datasize ≡ c.maxpoints * c.schema.size
  pub allocated : length c.data_bytes ≡ c.datasize

enlarged_size : (m size : ℕ) → m < 2 ^ 31 → size < 2 ^ 32 → u64 (u32 (m * 2) * size) ≡ m * 2 * size
enlarged_size m size small thin = ap (λ (t : ℕ). u64 (t * size)) doubles ∙ mod-eq_of_lt bound
  where
    doubles : u32 (m * 2) ≡ m * 2
    doubles = omega arith

    bound : m * 2 * size < 2 ^ 64
    bound = omega (arith, mul-le-mul_left {m = size} {n = 2 ^ 32} (m * 2) (omega arith))

module _ {ℓ} {D T : Type ℓ} (c : PatchUncompressed D T) (h : IsOpen c)
    (few : c.npoints < 2 ^ 31) where
  enlarged-IsOpen :
      c.npoints ≡ c.maxpoints
      → IsOpen (enlarged c)
        × (c.npoints < (enlarged c).maxpoints)
        × (patch_points (enlarged c) ≡ patch_points c)
  unfolding enlarged patch_points
  enlarged-IsOpen full =
      let wide : u64 (u32 (c.maxpoints * 2) * c.schema.size) ≡ c.maxpoints * 2 * c.schema.size =
        enlarged_size c.maxpoints c.schema.size (omega (arith, few)) h.thin in
      let double : u32 (c.maxpoints * 2) ≡ c.maxpoints * 2 = omega (arith, few) in
      let more : c.npoints < u32 (c.maxpoints * 2) = omega (arith, double, h.room) in
      let fits : length c.data_bytes ≤ u64 (u32 (c.maxpoints * 2) * c.schema.size) =
        omega (arith, wide, h.sized, h.allocated) in
      let all = take_all (u64 (u32 (c.maxpoints * 2) * c.schema.size)) c.data_bytes fits in
      (
        record {
          plain = h.plain;
          writable = h.writable;
          room = omega (arith, more);
          used = omega (arith, more);
          narrow = omega (arith, double, few);
          thin = h.thin;
          sized = wide ∙ ap (λ (t : ℕ). t * c.schema.size) (sym double);
          allocated =
              length-append (take (u64 (u32 (c.maxpoints * 2) * c.schema.size)) c.data_bytes) _
              ∙ omega (
                arith,
                ap length all,
                fits,
                length-replicate {A = ℕ}
                    (u64 (u32 (c.maxpoints * 2) * c.schema.size) - length c.data_bytes) 0,
              );
        },
        more,
        ap
              (λ t. chunks c.schema.size c.npoints (
                t
                ++ replicate (u64 (u32 (c.maxpoints * 2) * c.schema.size) - length c.data_bytes) 0))
              all
            ∙ chunks-front c.schema.size c.npoints c.data_bytes _
                (omega (arith, ap (λ (t : ℕ). t * c.schema.size) full, h.sized, h.allocated)),
      )

  room_for_point-IsOpen :
      IsOpen (room_for_point c)
      × ((room_for_point c).npoints < (room_for_point c).maxpoints)
      × ((room_for_point c).npoints ≡ c.npoints)
      × ((room_for_point c).schema ≡ c.schema)
      × ((room_for_point c).bounds ≡ c.bounds)
      × (patch_points (room_for_point c) ≡ patch_points c)
  unfolding room_for_point
  room_for_point-IsOpen = elim (Bool-cases (c.npoints == c.maxpoints)) [
    | inr space ↦
        let lt : c.npoints < c.maxpoints = ground (arith, h.used) in
        rw space (h, lt, refl, refl, refl, refl)
    | inl full ↦
        let same : c.npoints ≡ c.maxpoints = ground arith in
        let (open_still, more, kept) = enlarged-IsOpen same in
        rw full (open_still, more, refl, refl, refl, kept)
  ]

-- Nothing doubled is nothing.
room_empty {ℓ} :
    {D T : Type ℓ} (c : PatchUncompressed D T)
    → c.npoints ≡ 0
    → c.maxpoints ≡ 0
    → (room_for_point c).data_bytes ≡ []
unfolding room_for_point enlarged
room_empty c n m =
    rw (same, none_wide) (ap (λ (k : ℕ). replicate k 0) (minus (length c.data_bytes)))
  where
    same : (c.npoints == c.maxpoints) ≡ true
    same = ground arith

    minus : (k : ℕ) → 0 - k ≡ 0
    minus k = omega arith

    none_wide : u64 (u32 (c.maxpoints * 2) * c.schema.size) ≡ 0
    none_wide = ap (λ (t : ℕ). u64 (u32 (t * 2) * c.schema.size)) m ∙ omega arith

module _ {ℓ} {D T : Type ℓ} (doubles : Doubles D) (c : PatchUncompressed D T) (p : Point D T) where
  -- The tests before the point is copied.
  add_point-put_point :
      c.readonly ≡ false
      → c.type ≡ pc_none
      → c.schema.pcid ≡ p.schema.pcid
      → patch_uncompressed_add_point doubles c p ≡ put_point doubles c (room_for_point c) p
  unfolding patch_uncompressed_add_point
  add_point-put_point r t s = rw (r, t, s, ==_refl p.schema.pcid) refl

  put_point-patch_points :
      (room : PatchUncompressed D T) (x y : D)
      → IsOpen room
      → room.npoints < room.maxpoints
      → room.npoints < 2 ^ 31
      → room.schema ≡ c.schema
      → c.schema.size ≤ length p.data_bytes
      → point_get_x doubles p ≡ ok (some x)
      → point_get_y doubles p ≡ ok (some y)
      → (c' : PatchUncompressed D T) × (put_point doubles c room p ≡ ok c')
        × IsOpen c'
        × (c'.npoints ≡ room.npoints + 1)
        × (c'.bounds ≡ bounds_add doubles room.bounds x y)
        × (patch_points c' ≡ patch_points room ++ (take c.schema.size p.data_bytes ∷ []))
  unfolding put_point add_to_bounds patch_points
  put_point-patch_points room x y h space few same enough gx gy =
      let size_eq : room.schema.size ≡ c.schema.size = ap (λ s. s.size) same in
      let point = take c.schema.size p.data_bytes in
      let next : u32 (room.npoints + 1) ≡ room.npoints + 1 = omega (arith, few) in
      let fits : room.npoints * c.schema.size + c.schema.size ≤ length room.data_bytes = omega (
        arith,
        h.allocated,
        h.sized,
        ap (λ (t : ℕ). room.maxpoints * t) size_eq,
        mul-le-mul_right {m = room.npoints + 1} {n = room.maxpoints} c.schema.size (omega arith),
      ) in
      let (after, written, long, held) =
        put_bytes-chunks c.schema.size room.npoints room.data_bytes point
          (omega (arith, length-take c.schema.size p.data_bytes)) fits in
      (
        record room {
          data_bytes = after;
          npoints = u32 (room.npoints + 1);
          bounds = bounds_add doubles room.bounds x y;
        },
        rw (slice_front p.data_bytes c.schema.size enough, written, gx, gy) refl,
        record {
          plain = h.plain;
          writable = h.writable;
          room = h.room;
          used = omega (arith, next);
          narrow = h.narrow;
          thin = h.thin;
          sized = h.sized;
          allocated = long ∙ h.allocated;
        },
        next,
        refl,
        ap₂ (λ (s n : ℕ). chunks s n after) size_eq (next ∙ add_one room.npoints)
            ∙ held
            ∙ ap (λ (s : ℕ). chunks s room.npoints room.data_bytes ++ (point ∷ [])) (sym size_eq),
      )

  -- Adding a point of the patch's schema to a patch of fewer than 2^31 points returns, whether the
  -- buffer was full or not: the patch has the point's data behind the points that it had, and its
  -- bounds are grown by the point's X and Y. The patch is uncompressed, not read-only, and has room
  -- for one point at least; the point has an X and a Y, and as many bytes as the schema says.
  pub patch_uncompressed_add_point-patch_points :
      (x y : D)
      → IsOpen c
      → c.npoints < 2 ^ 31
      → c.schema.pcid ≡ p.schema.pcid
      → c.schema.size ≤ length p.data_bytes
      → point_get_x doubles p ≡ ok (some x)
      → point_get_y doubles p ≡ ok (some y)
      → (c' : PatchUncompressed D T) × (patch_uncompressed_add_point doubles c p ≡ ok c')
        × IsOpen c'
        × (c'.npoints ≡ c.npoints + 1)
        × (c'.bounds ≡ bounds_add doubles c.bounds x y)
        × (patch_points c' ≡ patch_points c ++ (take c.schema.size p.data_bytes ∷ []))
  patch_uncompressed_add_point-patch_points x y h few same enough gx gy =
      let (valid, space, count, kept_schema, kept_bounds, kept) = room_for_point-IsOpen c h few in
      let (c', put, still, more, bounds_eq, held) =
        put_point-patch_points (room_for_point c) x y valid space (omega (arith, count)) kept_schema
          enough gx gy in
      (
        c',
        add_point-put_point h.writable h.plain same ∙ put,
        still,
        omega (arith, more, count),
        bounds_eq ∙ ap (λ b. bounds_add doubles b x y) kept_bounds,
        held ∙ ap (λ t. t ++ (take c.schema.size p.data_bytes ∷ [])) kept,
      )

  -- A patch that was made without room for points has none either when it is doubled: a point of 1
  -- byte or more that is added to it is written outside the buffer.
  pub patch_uncompressed_add_point-overflows :
      c.npoints ≡ 0
      → c.maxpoints ≡ 0
      → c.readonly ≡ false
      → c.type ≡ pc_none
      → c.schema.pcid ≡ p.schema.pcid
      → 1 ≤ c.schema.size
      → c.schema.size ≤ length p.data_bytes
      → patch_uncompressed_add_point doubles c p ≡ fail out_of_bounds
  unfolding put_point put_bytes
  patch_uncompressed_add_point-overflows n m r t s w e =
      add_point-put_point r t s
      ∙ rw
          (
            slice_front p.data_bytes c.schema.size e,
            room_empty c n m,
            lt→leb
                (c.schema.size * (room_for_point c).npoints
                  + length (take c.schema.size p.data_bytes))
                0 (omega (arith, length-take c.schema.size p.data_bytes)),
          )
          refl
