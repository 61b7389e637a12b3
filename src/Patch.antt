-- ===== src/Patch.antt =====
-- lib/pc_patch_uncompressed.c: patches whose points stand one after the other.
pub mod Grow
pub mod Wkb
pub mod Listed
use pointcloud.Common.{
  ℕ, zero, suc, ◌+◌, ◌*◌, ◌-◌, ◌%◌, ◌^◌, Bool, true, false, not, ◌==◌, if◌then◌else◌, List, [], ◌∷◌,
  ◌++◌, take, drop, length, replicate, get_elem?, Option, none, some,
}
use pointcloud.Common.Result.{Result, ok, fail, access, pcerror, ◌>>=◌}
use pointcloud.Bytes.{slice, u32}
use pointcloud.Bytes.Words.{bytes_of}
use pointcloud.Memory.{put_bytes}
use pointcloud.Value.{Doubles}
use pointcloud.Wkb.{machine_endian, wkb_get_compression, wkb_get_npoints}
use pointcloud.Schema.{Schema}
use pointcloud.Schema.Compare.{followed}
use pointcloud.Schema.Xml.{pc_none}
use pointcloud.Point.{Point, point_from_data, point_get_x, point_get_y}
use pointcloud.Point.Flip.{uncompressed_bytes_flip_endian}
use pointcloud.Pointlist.{Pointlist, pointlist_make, pointlist_add_point, pointlist_get_point}
use pointcloud.Bounds.{Bounds, bounds_init, bounds_add}
use pointcloud.Stats.{Stats, compute_stats}

pub record PatchUncompressed {ℓ} (D T : Type ℓ) : Type ℓ where
  pub type : ℕ
  pub readonly : Bool
  pub schema : Schema D T
  pub npoints : ℕ
  pub bounds : Bounds D
  pub stats : Option (Stats D T)
  pub maxpoints : ℕ
  pub datasize : ℕ
  pub data_bytes : List ℕ

-- Arithmetic in `size_t`.
abbrev pub u64 : ℕ → ℕ
u64 n = n % 2 ^ 64

module _ {ℓ} {D T : Type ℓ} where
  -- The data buffer, doubled; the bytes that are added are not initialized.
  unfoldable pub enlarged : PatchUncompressed D T → PatchUncompressed D T
  enlarged c =
      let maxpoints = u32 (c.maxpoints * 2) in
      let datasize = u64 (maxpoints * c.schema.size) in
      record c {
        maxpoints = maxpoints;
        datasize = datasize;
        data_bytes = take datasize c.data_bytes ++ replicate (datasize - length c.data_bytes) 0;
      }

  unfoldable pub room_for_point : PatchUncompressed D T → PatchUncompressed D T
  unfolding enlarged
  room_for_point c = if c.npoints == c.maxpoints then enlarged c else c

module _ {ℓ} {D T : Type ℓ} (doubles : Doubles D) where
  unfoldable pub patch_uncompressed_make : Option (Schema D T) → ℕ → Result (PatchUncompressed D T)
  unfolding bounds_init
  patch_uncompressed_make none maxpoints = fail pcerror
  patch_uncompressed_make (some s) maxpoints =
      if s.size == 0
      then fail pcerror
      else ok (record {
        type = pc_none;
        readonly = false;
        schema = s;
        npoints = 0;
        bounds = bounds_init doubles;
        stats = none;
        maxpoints = maxpoints;
        datasize = u64 (s.size * maxpoints);
        data_bytes = replicate (u64 (s.size * maxpoints)) 0;
      })

  -- The bounds with a point in them. A coordinate that is not there is a variable that is not
  -- initialized.
  unfoldable pub add_to_bounds : Bounds D → Point D T → Result (Bounds D)
  add_to_bounds b pt = do
    gx ← point_get_x doubles pt
    gy ← point_get_y doubles pt
    x ← followed gx
    y ← followed gy
    ok (bounds_add doubles b x y)

  -- The loop over the points that are left in the data.
  unfoldable pub extent_loop : Schema D T → ℕ → List ℕ → Bounds D → Result (Bounds D)
  unfolding add_to_bounds
  extent_loop schema zero bytes b = ok b
  extent_loop schema (suc n) bytes b = do
    b' ← add_to_bounds b (record { readonly = true; schema = schema; data_bytes = bytes })
    extent_loop schema n (drop schema.size bytes) b'

  unfoldable pub patch_uncompressed_compute_extent :
      PatchUncompressed D T → Result (PatchUncompressed D T)
  unfolding extent_loop bounds_init
  patch_uncompressed_compute_extent patch = do
    b ← extent_loop patch.schema patch.npoints patch.data_bytes (bounds_init doubles)
    ok (record patch { bounds = b })

  unfoldable pub patch_uncompressed_compute_stats :
      PatchUncompressed D T → Result (PatchUncompressed D T)
  unfolding compute_stats
  patch_uncompressed_compute_stats pa = do
    stats ← compute_stats doubles pa.schema pa.npoints pa.data_bytes
    ok (record pa { stats = some stats })

  -- The point is copied into the room that is made for it, and the bounds are updated.
  unfoldable pub put_point :
      PatchUncompressed D T → PatchUncompressed D T → Point D T → Result (PatchUncompressed D T)
  unfolding add_to_bounds
  put_point c room p = do
    point ← slice p.data_bytes 0 c.schema.size
    bytes ← put_bytes room.data_bytes (c.schema.size * room.npoints) point
    b ← add_to_bounds room.bounds p
    ok (record room { data_bytes = bytes; npoints = u32 (room.npoints + 1); bounds = b })

  -- `PC_FAILURE` does not come back, since `pcerror` does not return.
  unfoldable pub patch_uncompressed_add_point :
      PatchUncompressed D T → Point D T → Result (PatchUncompressed D T)
  unfolding room_for_point put_point
  patch_uncompressed_add_point c p =
      if not (c.schema.pcid == p.schema.pcid)
      then fail pcerror
      else if c.readonly
      then fail pcerror
      else if not (c.type == pc_none)
      then fail pcerror
      else put_point c (room_for_point c) p

module _ {ℓ} {D T : Type ℓ} where
  -- The memory from point `n` on, which is not copied.
  unfoldable pub patch_uncompressed_pointn : PatchUncompressed D T → ℕ → Result (Point D T)
  unfolding point_from_data
  patch_uncompressed_pointn patch n =
      point_from_data (some patch.schema) (drop (n * patch.schema.size) patch.data_bytes)
