-- ===== src/Schema/Coordinates.antt =====
-- lib/pc_schema.c: the pointers to coordinates lead to dimensions of the right names.
use mathlib.Core.Path.{subst}
use pointcloud.Common.{
  ℕ, ◌+◌, ◌≡◌, refl, sym, ap, ◌∙◌, true, List, [], ◌∷◌, ◌++◌, length, get_elem?, Option, none, some,
  arith, inl, inr, Bool-cases, append_assoc, length-append, get_elem?-append,
}
use pointcloud.Common.Result.{ok, ok_injective}
use pointcloud.Schema.{Dimension, Schema}
use pointcloud.Schema.Xyzm.{
  is_name, x_names, y_names, z_names, m_names, point_at_name, point_at, check_xyzm_loop,
}

module _ {ℓ} {D : Type ℓ} where
  -- A pointer is null or leads to a dimension whose name is one of `names`.
  abbrev pub Coordinate : List (List ℕ) → List (Option (Dimension D)) → Option ℕ → Type ℓ
  Coordinate names dims none = Unit
  Coordinate names dims (some i) =
      (d : Dimension D) × (get_elem? dims i ≡ some (some d))
      × (name : List ℕ) × (d.name ≡ some name)
      × (is_name names name ≡ true)

pub record Coordinates {ℓ} {D T : Type ℓ} (s : Schema D T) : Type ℓ where
  pub x : Coordinate x_names s.dims s.xdim
  pub y : Coordinate y_names s.dims s.ydim
  pub z : Coordinate z_names s.dims s.zdim
  pub m : Coordinate m_names s.dims s.mdim

module _ {ℓ} {D T : Type ℓ} where
  point_at_name-Coordinates :
      (i : ℕ) (name : List ℕ) (s : Schema D T) (d : Dimension D)
      → Coordinates s
      → get_elem? s.dims i ≡ some (some d)
      → d.name ≡ some name
      → Coordinates (point_at_name i name s)
  unfolding point_at_name
  point_at_name-Coordinates i name s d c at n = elim (Bool-cases (is_name x_names name)) [
    | inl e ↦ rw e (record { x = (d, at, name, n, e); y = c.y; z = c.z; m = c.m })
    | inr x ↦ elim (Bool-cases (is_name y_names name)) [
      | inl e ↦ rw (x, e) (record { x = c.x; y = (d, at, name, n, e); z = c.z; m = c.m })
      | inr y ↦ elim (Bool-cases (is_name z_names name)) [
        | inl e ↦ rw (x, y, e) (record { x = c.x; y = c.y; z = (d, at, name, n, e); m = c.m })
        | inr z ↦ elim (Bool-cases (is_name m_names name)) [
          | inl e ↦ rw (x, y, z, e) (record { x = c.x; y = c.y; z = c.z; m = (d, at, name, n, e) })
          | inr m ↦ rw (x, y, z, m) c
        ]
      ]
    ]
  ]

  point_at_name-dims :
      (i : ℕ) (name : List ℕ) (s : Schema D T)
      → ((point_at_name i name s).dims ≡ s.dims) × ((point_at_name i name s).size ≡ s.size)
  unfolding point_at_name
  point_at_name-dims i name s = ground arith

  point_at-Coordinates :
      (i : ℕ) (name : Option (List ℕ)) (s : Schema D T) (d : Dimension D)
      → d.name ≡ name
      → Coordinates s
      → get_elem? s.dims i ≡ some (some d)
      → Coordinates (point_at i name s)
        × ((point_at i name s).dims ≡ s.dims)
        × ((point_at i name s).size ≡ s.size)
  unfolding point_at
  point_at-Coordinates i none s d n c at = (c, refl, refl)
  point_at-Coordinates i (some name) s d n c at =
      let (kept, sized) = point_at_name-dims i name s in
      (point_at_name-Coordinates i name s d c at n, kept, sized)

  pub check_xyzm_loop-Coordinates :
      (pre dims : List (Option (Dimension D))) (s : Schema D T) {s' : Schema D T}
      → s.dims ≡ pre ++ dims
      → Coordinates s
      → check_xyzm_loop (length pre) dims s ≡ ok s'
      → Coordinates s' × (s'.dims ≡ s.dims) × (s'.size ≡ s.size)
  unfolding check_xyzm_loop point_at
  check_xyzm_loop-Coordinates pre [] s whole c e =
      subst (λ (r : Schema D T). Coordinates r × (r.dims ≡ s.dims) × (r.size ≡ s.size))
        (ok_injective e) (c, refl, refl)
  check_xyzm_loop-Coordinates pre (none ∷ dims) s whole c e = cc
  check_xyzm_loop-Coordinates pre (some d ∷ dims) s {s'} whole c e =
      let at : get_elem? s.dims (length pre) ≡ some (some d) =
        ap (λ t. get_elem? t (length pre)) whole ∙ get_elem?-append pre (some d ∷ dims) in
      let (c', kept, sized) = point_at-Coordinates (length pre) d.name s d refl c at in
      let next : length pre + 1 ≡ length (pre ++ (some d ∷ [])) =
        sym (length-append pre (some d ∷ [])) in
      let (c'', kept', sized') =
        check_xyzm_loop-Coordinates (pre ++ (some d ∷ [])) dims (point_at (length pre) d.name s)
          (kept ∙ whole ∙ sym (append_assoc pre (some d ∷ []) dims)) c'
          (subst (λ (i : ℕ). check_xyzm_loop i dims (point_at (length pre) d.name s) ≡ ok s') next
            e) in
      (c'', kept' ∙ kept, sized' ∙ sized)
