-- ===== src/Bytes/Rle/Runs.antt =====
-- Runs as values: what a run-length encoded buffer of lib/pc_bytes.c says, apart from its bytes.
use pointcloud.Common.{
  ℕ, zero, suc, ◌+◌, ◌*◌, ◌≤◌, ◌≡◌, refl, ap, ◌∙◌, ◌&&◌, ltb, if◌then◌else◌, List, [], ◌∷◌, ◌++◌,
  length, length-append, replicate, length-replicate, All, arith, Bool-cases, inl, inr,
}
use pointcloud.Bytes.{bytes_eq}
use pointcloud.Bytes.Valid.{bytes_eq→eq}

-- A count and a value.
abbrev pub Run : Type 0
Run = ℕ × List ℕ

unfoldable pub entries : List Run → List ℕ
entries [] = []
entries ((n, v) ∷ rs) = n ∷ (v ++ entries rs)

unfoldable pub expand : List Run → List (List ℕ)
expand [] = []
expand ((n, v) ∷ rs) = replicate n v ++ expand rs

-- The runs of `xs`, where `len` points of value `v` come first. A run ends at 255 points.
unfoldable pub runs_from : List ℕ → ℕ → List (List ℕ) → List Run
runs_from v len [] = (len, v) ∷ []
runs_from v len (x ∷ xs) =
    let longer = runs_from v (len + 1) xs in
    let fresh = runs_from x 1 xs in if ltb len 255 && bytes_eq v x then longer else (len, v) ∷ fresh

unfoldable pub runs_of : List (List ℕ) → List Run
unfolding runs_from
runs_of [] = []
runs_of (v ∷ vs) = runs_from v 1 vs

abbrev pub IsRun : ℕ → Run → Type 0
IsRun size r = (1 ≤ r.0) × (r.0 ≤ 255) × (length r.1 ≡ size)

replicate-snoc :
    (n : ℕ) (v : List ℕ) (xs : List (List ℕ))
    → replicate (n + 1) v ++ xs ≡ replicate n v ++ (v ∷ xs)
replicate-snoc n v xs = rw add_one (shift n)
  where
    add_one : n + 1 ≡ suc n
    add_one = omega arith

    shift : (n : ℕ) → replicate (suc n) v ++ xs ≡ replicate n v ++ (v ∷ xs)
    shift zero = refl
    shift (suc n) = ap (λ t. v ∷ t) (shift n)

expand-runs_from :
    (v : List ℕ) (len : ℕ) (xs : List (List ℕ))
    → expand (runs_from v len xs) ≡ replicate len v ++ xs
unfolding expand runs_from
expand-runs_from v len [] = refl
expand-runs_from v len (x ∷ xs) = elim (Bool-cases (ltb len 255 && bytes_eq v x)) [
  | inl e ↦ rw e (
      expand-runs_from v (len + 1) xs
      ∙ replicate-snoc len v xs
      ∙ ap (λ t. replicate len v ++ (t ∷ xs)) (bytes_eq→eq v x (ground arith)))
  | inr e ↦ rw (e, expand-runs_from x 1 xs)
]

-- Nothing is lost by the grouping.
pub expand-runs_of : (vs : List (List ℕ)) → expand (runs_of vs) ≡ vs
unfolding runs_of expand
expand-runs_of [] = refl
expand-runs_of (v ∷ vs) = expand-runs_from v 1 vs

runs_from-IsRun :
    (size : ℕ) (v : List ℕ) (len : ℕ) (xs : List (List ℕ))
    → 1 ≤ len
    → len ≤ 255
    → length v ≡ size
    → All (λ x. length x ≡ size) xs
    → All (IsRun size) (runs_from v len xs)
unfolding runs_from
runs_from-IsRun size v len [] lo hi e h = ((lo, hi, e), tt)
runs_from-IsRun size v len (x ∷ xs) lo hi e (hx, h) =
    elim (Bool-cases (ltb len 255 && bytes_eq v x)) [
      | inl t ↦ rw t (runs_from-IsRun size v (len + 1) xs (omega arith) (ground arith) e h)
      | inr t ↦ rw t ((lo, hi, e), runs_from-IsRun size x 1 xs (omega arith) (omega arith) hx h)
    ]

-- Every count fits a `uint8_t` and none is 0.
pub runs_of-IsRun :
    (size : ℕ) (vs : List (List ℕ)) → All (λ x. length x ≡ size) vs → All (IsRun size) (runs_of vs)
unfolding runs_of
runs_of-IsRun size [] h = tt
runs_of-IsRun size (v ∷ vs) (hv, h) = runs_from-IsRun size v 1 vs (omega arith) (omega arith) hv h

-- The points that runs stand for.
unfoldable pub total : List Run → ℕ
total [] = 0
total ((n, v) ∷ rs) = n + total rs

pub length-expand : (rs : List Run) → length (expand rs) ≡ total rs
unfolding expand total
length-expand [] = refl
length-expand ((n, v) ∷ rs) =
    omega (arith, length-append (replicate n v) (expand rs), length-replicate n v, length-expand rs)

-- An entry is one byte and a value, and stands for one point at least.
pub length-entries :
    (size : ℕ) (rs : List Run)
    → All (IsRun size) rs
    → (length (entries rs) ≡ length rs * (size + 1)) × (length rs ≤ total rs)
unfolding entries total
length-entries size [] h = omega arith
length-entries size ((n, v) ∷ rs) (r, h) =
    omega (arith, length-append v (entries rs), length-entries size rs h)
