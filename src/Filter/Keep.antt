-- ===== src/Filter/Keep.antt =====
-- Which points the filters of lib/pc_bytes.c keep, apart from the bytes: of a list, and of runs.
use pointcloud.Common.{
  ℕ, zero, suc, ◌+◌, ◌≤◌, ◌≡◌, refl, sym, ap, ◌∙◌, Bool, true, false, ◌==◌, if◌then◌else◌, List, [],
  ◌∷◌, ◌++◌, length, take, drop, replicate, All, arith, length-append, length-drop, inl, inr,
  Bool-cases, ==_iff,
}
use pointcloud.Bytes.Rle.Runs.{Run, IsRun, entries, expand, total}
use pointcloud.Filter.Bitmap.{count_true, count_true-le}

-- The elements at the places that are true.
unfoldable pub keep {ℓ} : {A : Type ℓ} → List Bool → List A → List A
keep [] xs = []
keep (b ∷ bs) [] = []
keep (true ∷ bs) (x ∷ xs) = x ∷ keep bs xs
keep (false ∷ bs) (x ∷ xs) = keep bs xs

pub length-keep {ℓ} :
    {A : Type ℓ} (bs : List Bool) (xs : List A)
    → length bs ≡ length xs
    → length (keep bs xs) ≡ count_true bs
unfolding keep count_true
length-keep [] xs e = refl
length-keep (b ∷ bs) [] e = absurd (omega arith)
length-keep (true ∷ bs) (x ∷ xs) e = omega (arith, length-keep bs xs (omega arith))
length-keep (false ∷ bs) (x ∷ xs) e = omega (arith, length-keep bs xs (omega arith))

-- Of a run of equal elements those are kept that its part of the places counts.
pub keep-replicate {ℓ} :
    {A : Type ℓ} (m : ℕ) (bs : List Bool) (v : A) (xs : List A)
    → m ≤ length bs
    → keep bs (replicate m v ++ xs) ≡ replicate (count_true (take m bs)) v ++ keep (drop m bs) xs
unfolding keep count_true
keep-replicate zero bs v xs h = refl
keep-replicate (suc m) [] v xs h = absurd (omega arith)
keep-replicate (suc m) (true ∷ bs) v xs h =
    ap (λ t. v ∷ t) (keep-replicate m bs v xs (omega arith)) ∙ rw one_more
  where
    one_more : 1 + count_true (take m bs) ≡ suc (count_true (take m bs))
    one_more = omega arith
keep-replicate (suc m) (false ∷ bs) v xs h = keep-replicate m bs v xs (omega arith) ∙ rw none_more
  where
    none_more : 0 + count_true (take m bs) ≡ count_true (take m bs)
    none_more = omega arith

-- The runs of the kept points. Those of two runs stay two runs.
unfoldable pub keep_runs : List Bool → List Run → List Run
keep_runs bs [] = []
keep_runs bs ((m, v) ∷ rs) =
    let rest = keep_runs (drop m bs) rs in
    let kept = count_true (take m bs) in if kept == 0 then rest else (kept, v) ∷ rest

pub expand-keep_runs :
    (rs : List Run) (bs : List Bool)
    → length bs ≡ total rs
    → expand (keep_runs bs rs) ≡ keep bs (expand rs)
unfolding expand keep_runs total
expand-keep_runs [] [] e = unfold keep in refl
expand-keep_runs [] (b ∷ bs) e = absurd (omega arith)
expand-keep_runs ((m, v) ∷ rs) bs e =
    let ih = expand-keep_runs rs (drop m bs) (omega (arith, length-drop m bs)) in
    elim (Bool-cases (count_true (take m bs) == 0)) [
      | inl t ↦ rw t (ih ∙ sym (rw ((==_iff _ _).0 t) at now))
      | inr t ↦ rw t (ap (λ xs. replicate (count_true (take m bs)) v ++ xs) ih ∙ sym now)
    ]
  where
    now :
        keep bs (replicate m v ++ expand rs)
        ≡ replicate (count_true (take m bs)) v ++ keep (drop m bs) (expand rs)
    now = keep-replicate m bs v (expand rs) (omega arith)

take-le {ℓ} : {A : Type ℓ} (m : ℕ) (xs : List A) → length (take m xs) ≤ m
take-le zero xs = omega arith
take-le (suc m) [] = omega arith
take-le (suc m) (x ∷ xs) = omega (arith, take-le m xs)

pub kept-le : (m : ℕ) (bs : List Bool) → count_true (take m bs) ≤ m
kept-le m bs = omega (arith, count_true-le (take m bs), take-le m bs)

pub keep_runs-IsRun :
    (size : ℕ) (rs : List Run) (bs : List Bool)
    → All (IsRun size) rs
    → All (IsRun size) (keep_runs bs rs)
unfolding keep_runs
keep_runs-IsRun size [] bs all = tt
keep_runs-IsRun size ((m, v) ∷ rs) bs ((lo, hi, e), all) =
    elim (Bool-cases (count_true (take m bs) == 0)) [
      | inl t ↦ rw t (keep_runs-IsRun size rs (drop m bs) all)
      | inr t ↦
          rw t (
            (ground arith, omega (arith, kept-le m bs), e),
            keep_runs-IsRun size rs (drop m bs) all,
          )
    ]

-- The entries of the kept runs take no more bytes.
pub entries-keep_runs-le :
    (rs : List Run) (bs : List Bool) → length (entries (keep_runs bs rs)) ≤ length (entries rs)
unfolding keep_runs entries
entries-keep_runs-le [] bs = omega arith
entries-keep_runs-le ((m, v) ∷ rs) bs = elim (Bool-cases (count_true (take m bs) == 0)) [
  | inl t ↦ rw t (omega (arith, length-append v (entries rs), entries-keep_runs-le rs (drop m bs)))
  | inr t ↦ rw t (
      omega (
        arith,
        length-append v (entries rs),
        length-append v (entries (keep_runs (drop m bs) rs)),
        entries-keep_runs-le rs (drop m bs),
      ))
]
