-- ===== src/Schema/Xyzm.antt =====
-- lib/pc_schema.c: finding the coordinates of a schema by the names of its dimensions, and what
-- makes a schema valid.
use pointcloud.Common.{
  ℕ, ◌+◌, Bool, true, false, ◌||◌, ◌==◌, if◌then◌else◌, List, [], ◌∷◌, Option, none, some,
}
use pointcloud.Common.Result.{Result, ok, ◌>>=◌}
use pointcloud.Text.{codes, same_nocase}
use pointcloud.Schema.{Dimension, Schema, ndims}
use pointcloud.Schema.Compare.{followed}

unfoldable pub is_name : List (List ℕ) → List ℕ → Bool
unfolding same_nocase
is_name [] dimname = false
is_name (name ∷ names) dimname = same_nocase dimname name || is_name names dimname

abbrev pub x_names : List (List ℕ)
x_names = codes "X" ∷ codes "Longitude" ∷ codes "Lon" ∷ []

abbrev pub y_names : List (List ℕ)
y_names = codes "Y" ∷ codes "Latitude" ∷ codes "Lat" ∷ []

abbrev pub z_names : List (List ℕ)
z_names = codes "Z" ∷ codes "H" ∷ codes "Height" ∷ []

abbrev pub m_names : List (List ℕ)
m_names = codes "M" ∷ codes "T" ∷ codes "Time" ∷ codes "GPSTime" ∷ []

module _ {ℓ} {D T : Type ℓ} where
  -- What the name of dimension `i` makes of it.
  unfoldable pub point_at_name : ℕ → List ℕ → Schema D T → Schema D T
  unfolding is_name
  point_at_name i dimname s =
      if is_name x_names dimname
      then record s { xdim = some i }
      else if is_name y_names dimname
      then record s { ydim = some i }
      else if is_name z_names dimname
      then record s { zdim = some i }
      else if is_name m_names dimname
      then record s { mdim = some i }
      else s

  -- What a dimension's name makes of it, if it has one.
  unfoldable pub point_at : ℕ → Option (List ℕ) → Schema D T → Schema D T
  unfolding point_at_name
  point_at i none s = s
  point_at i (some dimname) s = point_at_name i dimname s

  -- The loop, from dimension `i` on.
  unfoldable pub check_xyzm_loop :
      ℕ → List (Option (Dimension D)) → Schema D T → Result (Schema D T)
  unfolding point_at
  check_xyzm_loop i [] s = ok s
  check_xyzm_loop i (x ∷ dims) s = do
    d ← followed x
    check_xyzm_loop (i + 1) dims (point_at i d.name s)

  unfoldable pub schema_check_xyzm : Schema D T → Result (Schema D T)
  unfolding check_xyzm_loop
  schema_check_xyzm s = check_xyzm_loop 0 s.dims s

module _ {ℓ} {D : Type ℓ} where
  unfoldable pub all_dimensions : List (Option (Dimension D)) → Bool
  all_dimensions [] = true
  all_dimensions (none ∷ dims) = false
  all_dimensions (some d ∷ dims) = all_dimensions dims

module _ {ℓ} {D T : Type ℓ} where
  unfoldable pub schema_is_valid : Schema D T → Bool
  unfolding all_dimensions
  schema_is_valid s = elim s.xdim [
    | none ↦ false
    | some x ↦ elim s.ydim [
      | none ↦ false
      | some y ↦ if ndims s == 0 then false else all_dimensions s.dims
    ]
  ]
