-- ===== src/Pointlist.antt =====
-- lib/pc_pointlist.c: lists of points in an array that grows. A null pointer is `none`.
use pointcloud.Common.{
  ℕ, zero, suc, ◌+◌, ◌-◌, ◌*◌, ◌^◌, ◌≤◌, ◌<◌, ◌≡◌, refl, sym, ap, ◌∙◌, if◌then◌else◌, ltb, List, [],
  ◌∷◌, ◌++◌, map, length, take, replicate, get_elem?, set, Option, none, some, arith, length-append,
  length-take, length-replicate, length-set, append_assoc, append-nil, take-append, inl, inr,
  Bool-cases, ltb→lt, take_all,
}
use pointcloud.Common.Result.{Result, ok, access, ◌>>=◌}
use pointcloud.Bytes.{u32}
use pointcloud.Schema.Fields.{get_elem?_within}

pub record Pointlist {ℓ} (P : Type ℓ) : Type ℓ where
  pub npoints : ℕ
  pub maxpoints : ℕ
  pub points : List (Option P)

doubled : ℕ → ℕ
doubled maxpoints = u32 ((if ltb maxpoints 1 then 1 else maxpoints) * 2)

module _ {ℓ} {P : Type ℓ} where
  unfoldable pub pointlist_make : ℕ → Pointlist P
  pointlist_make npoints = record {
    npoints = 0;
    maxpoints = npoints;
    points = replicate npoints none;
  }

  -- `pcrealloc` to `n` pointers; what it adds is not initialized.
  resize : List (Option P) → ℕ → List (Option P)
  resize points n = take n points ++ replicate (n - length points) none

  -- The array, doubled if it is full.
  grown : Pointlist P → Pointlist P
  unfolding resize doubled
  grown pl = if ltb pl.npoints pl.maxpoints then pl else record pl {
    maxpoints = doubled pl.maxpoints;
    points = resize pl.points (doubled pl.maxpoints);
  }

  unfoldable pub pointlist_add_point : Pointlist P → P → Result (Pointlist P)
  unfolding grown
  pointlist_add_point pl pt = do
    let room = grown pl
    slot ← access (get_elem? room.points room.npoints)
    ok (record room {
      points = set room.points room.npoints (some pt);
      npoints = u32 (room.npoints + 1);
    })

  unfoldable pub pointlist_get_point : Pointlist P → ℕ → Result (Option P)
  pointlist_get_point pl i = access (get_elem? pl.points i)

  -- The points of the list.
  unfoldable pub listed : Pointlist P → List (Option P)
  listed pl = take pl.npoints pl.points

  -- Adding points one after the other.
  unfoldable pub add_points : List P → Pointlist P → Result (Pointlist P)
  unfolding pointlist_add_point
  add_points [] pl = ok pl
  add_points (pt ∷ pts) pl = do pl' ← pointlist_add_point pl pt; add_points pts pl'

-- The array has `maxpoints` pointers, of which `npoints` are used.
pub record IsList {ℓ} {P : Type ℓ} (pl : Pointlist P) : Type 0 where
  pub used : pl.npoints ≤ pl.maxpoints
  pub allocated : length pl.points ≡ pl.maxpoints
  pub narrow : pl.maxpoints < 2 ^ 32

pub pointlist_make-IsList {ℓ} :
    {P : Type ℓ} (n : ℕ) → n < 2 ^ 32 → IsList (pointlist_make {P = P} n)
unfolding pointlist_make
pointlist_make-IsList {P} n narrow = record {
  used = omega arith;
  allocated = length-replicate {A = Option P} n none;
  narrow = narrow;
}

doubled-lt : (n m : ℕ) → m ≤ n → n ≤ m → n < 2 ^ 31 → (n < doubled m) × (doubled m < 2 ^ 32)
unfolding doubled
doubled-lt n m h k small = elim (Bool-cases (ltb m 1)) [
  | inl e ↦ rw e (let x = ltb→lt m 1 e in (omega arith, omega arith))
  | inr e ↦ rw e (let x : 1 ≤ m = ground arith in (omega arith, omega arith))
]

suc_add_one : (n : ℕ) → suc n + 1 ≡ suc (n + 1)
suc_add_one n = omega arith

module _ {ℓ} {P : Type ℓ} where
  length-resize : (points : List (Option P)) (n : ℕ) → length (resize points n) ≡ n
  unfolding resize
  length-resize points n = omega (
    arith,
    length-append (take n points) (replicate (n - length points) none),
    length-take n points,
    length-replicate {A = Option P} (n - length points) none,
  )

  listed-resize :
      (points : List (Option P)) (n m : ℕ)
      → length points ≡ n
      → n ≤ m
      → take n (resize points m) ≡ take n points
  unfolding resize
  listed-resize points n m e h =
      ap (λ t. take n (t ++ replicate (m - length points) none)) (take_all m points (omega arith))
      ∙ ap (λ (k : ℕ). take k (points ++ replicate (m - length points) none)) (sym e)
      ∙ take-append points (replicate (m - length points) none)
      ∙ sym (take_all n points (omega arith))

  grown-IsList :
      (pl : Pointlist P)
      → IsList pl
      → pl.npoints < 2 ^ 31
      → IsList (grown pl)
        × ((grown pl).npoints < (grown pl).maxpoints)
        × ((grown pl).npoints ≡ pl.npoints)
        × (listed (grown pl) ≡ listed pl)
  unfolding grown listed
  grown-IsList pl h few = elim (Bool-cases (ltb pl.npoints pl.maxpoints)) [
    | inl room ↦ rw room (h, ltb→lt _ _ room, refl, refl)
    | inr full ↦
        let at : pl.maxpoints ≤ pl.npoints = ground arith in
        let (more, narrow) = doubled-lt pl.npoints pl.maxpoints at h.used few in
        rw full (
          record {
            used = omega (arith, more);
            allocated = length-resize pl.points (doubled pl.maxpoints);
            narrow = narrow;
          },
          more,
          refl,
          listed-resize pl.points pl.npoints (doubled pl.maxpoints)
              (omega (arith, h.allocated, h.used)) (omega (arith, more)),
        )
  ]

  take-set_end :
      (xs : List (Option P)) (n : ℕ) (x : Option P)
      → n < length xs
      → take (n + 1) (set xs n x) ≡ take n xs ++ (x ∷ [])
  take-set_end [] n x h = absurd (omega arith)
  take-set_end (y ∷ xs) zero x h = refl
  take-set_end (y ∷ xs) (suc n) x h =
      rw (suc_add_one n) (ap (λ t. y ∷ t) (take-set_end xs n x (omega arith)))

  -- Adding a point to a list of fewer than 2^31 returns, whether the array was full or not, and
  -- the list has the point behind those that it had.
  pub pointlist_add_point-listed :
      (pl : Pointlist P) (pt : P)
      → IsList pl
      → pl.npoints < 2 ^ 31
      → (pl' : Pointlist P) × (pointlist_add_point pl pt ≡ ok pl')
        × IsList pl'
        × (pl'.npoints ≡ pl.npoints + 1)
        × (listed pl' ≡ listed pl ++ (some pt ∷ []))
  unfolding pointlist_add_point listed
  pointlist_add_point-listed pl pt h few =
      let (valid, room, same, kept) = grown-IsList pl h few in
      let there : (grown pl).npoints < length (grown pl).points = omega (arith, valid.allocated) in
      let (slot, found) = get_elem?_within (grown pl).points (grown pl).npoints there in
      let next : u32 ((grown pl).npoints + 1) ≡ (grown pl).npoints + 1 = omega (arith, few) in
      (
        record (grown pl) {
          points = set (grown pl).points (grown pl).npoints (some pt);
          npoints = u32 ((grown pl).npoints + 1);
        },
        rw found,
        record {
          used = omega (arith, next);
          allocated = length-set (grown pl).points (grown pl).npoints (some pt) ∙ valid.allocated;
          narrow = valid.narrow;
        },
        omega (arith, next),
        ap (λ (k : ℕ). take k (set (grown pl).points (grown pl).npoints (some pt))) next
            ∙ take-set_end (grown pl).points (grown pl).npoints (some pt) there
            ∙ ap (λ t. t ++ (some pt ∷ [])) kept,
      )

  -- Points added to a new list, whatever its capacity, are the points of the list, in their order.
  -- There are fewer than 2^31 of them.
  pub add_points-listed :
      (pts : List P) (pl : Pointlist P)
      → IsList pl
      → pl.npoints + length pts < 2 ^ 31
      → (pl' : Pointlist P) × (add_points pts pl ≡ ok pl')
        × IsList pl'
        × (pl'.npoints ≡ pl.npoints + length pts)
        × (listed pl' ≡ listed pl ++ map some pts)
  unfolding add_points
  add_points-listed [] pl h few = (pl, refl, h, omega arith, sym (append-nil (listed pl)))
  add_points-listed (pt ∷ pts) pl h few =
      let (pl', added, valid, one, kept) = pointlist_add_point-listed pl pt h (omega arith) in
      let (pl'', more, valid', many, all) = add_points-listed pts pl' valid (omega (arith, one)) in
      (
        pl'',
        rw added more,
        valid',
        omega (arith, one, many),
        all
            ∙ ap (λ t. t ++ map some pts) kept
            ∙ append_assoc (listed pl) (some pt ∷ []) (map some pts),
      )
