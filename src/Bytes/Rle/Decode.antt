-- ===== src/Bytes/Rle/Decode.antt =====
-- What `run_length_decode` and `run_length_to_ptr` make of entries.
use mathlib.Core.List.{flatten}
use pointcloud.Common.{
  ℕ, zero, suc, ◌+◌, ◌-◌, ◌*◌, ◌^◌, ◌%◌, ◌<◌, ◌≤◌, ◌≡◌, refl, sym, ap, ◌∙◌, true, false, ◌==◌, ltb,
  List, [], ◌∷◌, ◌++◌, length, length-append, drop, take-append, drop-append, replicate, get_elem?,
  All, arith, none, flatten-append, Bool-cases, inl, inr, le→leb, some, Option, ==_iff, ==_refl,
}
use pointcloud.Common.Result.{Result, ok, fail, pcerror}
use pointcloud.Bytes.{Pcbytes, slice, dim_rle, dim_none, contents, interpretation_size, u32}
use pointcloud.Bytes.Rle.{
  count_points, copies, fill_points, run_length_decode, run_length_find, run_length_to_ptr,
}
use pointcloud.Bytes.Rle.Runs.{Run, IsRun, entries, expand, total}

-- Past the count an entry has its value, then the other entries.
module _ (size : ℕ) (v rest : List ℕ) (e : length v ≡ size) where
  pub drop-value : drop size (v ++ rest) ≡ rest
  drop-value = rw (← e) (drop-append v rest)

  pub slice-value : slice (v ++ rest) 0 size ≡ ok v
  unfolding slice
  slice-value =
      rw (le→leb (0 + size) (length (v ++ rest)) (omega (arith, length-append v rest)))
        (ap ok (rw (← e) (take-append v rest)))

  copies-value : (n : ℕ) → copies n size (v ++ rest) ≡ ok (flatten (replicate n v))
  unfolding copies flatten
  copies-value zero = refl
  copies-value (suc n) = rw (slice-value, copies-value n)

module _ (size : ℕ) where
  -- The first pass counts the points, in `uint32_t`.
  count_points-entries :
      (rs : List Run) (fuel acc : ℕ)
      → All (IsRun size) rs
      → length (entries rs) ≤ fuel
      → acc < 2 ^ 32
      → count_points fuel size (entries rs) acc ≡ ok ((acc + total rs) % 2 ^ 32)
  unfolding count_points entries total
  count_points-entries [] fuel acc h f lt = ap ok (omega arith)
  count_points-entries ((n, v) ∷ rs) zero acc (r, h) f lt = absurd (omega arith)
  count_points-entries ((n, v) ∷ rs) (suc fuel) acc (r, h) f lt =
      rw (drop-value size v (entries rs) r.2, count_points)
        (count_points-entries rs fuel (u32 (acc + n)) h
            (omega (arith, length-append v (entries rs))) (omega arith)
          ∙ ap ok (omega arith))

  -- The second pass writes every value as often as its count says.
  fill_points-entries :
      (rs : List Run) (fuel : ℕ)
      → All (IsRun size) rs
      → length (entries rs) ≤ fuel
      → fill_points fuel size (entries rs) ≡ ok (flatten (expand rs))
  unfolding fill_points entries expand flatten
  fill_points-entries [] fuel h f = refl
  fill_points-entries ((n, v) ∷ rs) zero (r, h) f = absurd (omega arith)
  fill_points-entries ((n, v) ∷ rs) (suc fuel) (r, h) f =
      rw
        (
          copies-value size v (entries rs) r.2 n,
          drop-value size v (entries rs) r.2,
          fill_points-entries rs fuel h (omega (arith, length-append v (entries rs))),
        )
        (ap ok (sym (flatten-append (replicate n v) (expand rs))))

  get_elem?-replicate_lt :
      (n i : ℕ) (v : List ℕ) (xs : List (List ℕ))
      → i < n
      → get_elem? (replicate n v ++ xs) i ≡ some v
  get_elem?-replicate_lt zero i v xs h = absurd (omega arith)
  get_elem?-replicate_lt (suc n) zero v xs h = refl
  get_elem?-replicate_lt (suc n) (suc i) v xs h = get_elem?-replicate_lt n i v xs (omega arith)

  get_elem?-replicate_ge :
      (n i : ℕ) (v : List ℕ) (xs : List (List ℕ))
      → n ≤ i
      → get_elem? (replicate n v ++ xs) i ≡ get_elem? xs (i - n)
  get_elem?-replicate_ge zero i v xs h = ap (get_elem? xs) (omega arith)
  get_elem?-replicate_ge (suc n) zero v xs h = absurd (omega arith)
  get_elem?-replicate_ge (suc n) (suc i) v xs h =
      get_elem?-replicate_ge n i v xs (omega arith) ∙ ap (get_elem? xs) (omega arith)

  -- The value of point `n`, or an error past the last point.
  abbrev pub found : Option (List ℕ) → Result (List ℕ)
  found o = elim o [ none ↦ fail pcerror | some v ↦ ok v ]

  run_length_find-entries :
      (rs : List Run) (fuel i : ℕ)
      → All (IsRun size) rs
      → length (entries rs) ≤ fuel
      → run_length_find fuel size (entries rs) i ≡ found (get_elem? (expand rs) i)
  unfolding run_length_find entries expand
  run_length_find-entries [] fuel i h f = refl
  run_length_find-entries ((n, v) ∷ rs) zero i (r, h) f = absurd (omega arith)
  run_length_find-entries ((n, v) ∷ rs) (suc fuel) i (r, h) f = elim (Bool-cases (ltb i n)) [
    | inl t ↦ rw (
      t,
      slice-value size v (entries rs) r.2,
      get_elem?-replicate_lt n i v (expand rs) (ground arith),
      run_length_find,
    )
    | inr t ↦
        rw
          (
            t,
            drop-value size v (entries rs) r.2,
            get_elem?-replicate_ge n i v (expand rs) (ground arith),
            run_length_find,
          )
          (run_length_find-entries rs fuel (i - n) h (omega (arith, length-append v (entries rs))))
  ]

-- An encoded buffer that holds `rs`.
pub record IsRle (size : ℕ) (rs : List Run) (pcb : Pcbytes) : Type 0 where
  pub size_of : interpretation_size pcb.interpretation ≡ ok size
  pub encoded : pcb.compression ≡ dim_rle
  pub runs : All (IsRun size) rs
  pub holds : contents pcb ≡ entries rs
  pub filled : pcb.size ≡ length (entries rs)
  pub counted : pcb.npoints ≡ total rs
  pub small : pcb.npoints < 2 ^ 32

module _ (size : ℕ) (rs : List Run) (pcb : Pcbytes) (h : IsRle size rs pcb) where
  pub contents-IsRle : contents pcb ≡ entries rs
  contents-IsRle = h.holds

  -- The decoder returns the values of the runs.
  pub run_length_decode-IsRle :
      run_length_decode pcb
      ≡ ok (record pcb {
        compression = dim_none;
        size = size * pcb.npoints;
        bytes = flatten (expand rs);
        readonly = false;
      })
  unfolding run_length_decode
  run_length_decode-IsRle = rw (h.size_of, coded, contents-IsRle, count, fill, same)
    where
      coded : (pcb.compression == dim_rle) ≡ true
      coded = (==_iff _ _).1 h.encoded

      count : count_points pcb.size size (entries rs) 0 ≡ ok pcb.npoints
      count =
          count_points-entries size rs pcb.size 0 h.runs (omega (arith, h.filled)) (omega arith)
          ∙ ap ok (omega (arith, h.counted, h.small))

      fill : fill_points pcb.size size (entries rs) ≡ ok (flatten (expand rs))
      fill = fill_points-entries size rs pcb.size h.runs (omega (arith, h.filled))

      same : (pcb.npoints == pcb.npoints) ≡ true
      same = ==_refl pcb.npoints

  -- The value at an index is that of the point, and an index past the last point is an error.
  pub run_length_to_ptr-IsRle :
      (i : ℕ) → run_length_to_ptr pcb i ≡ found size (get_elem? (expand rs) i)
  unfolding run_length_to_ptr
  run_length_to_ptr-IsRle i =
      rw (h.size_of, (==_iff pcb.compression dim_rle).1 h.encoded, contents-IsRle)
        (run_length_find-entries size rs pcb.size i h.runs (omega (arith, h.filled)))
