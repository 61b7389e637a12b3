-- ===== src/Filter/Bitmap.antt =====
-- lib/pc_filter.c, lib/pc_bytes.c: the bitmap of a filter on a buffer, whatever its compression.
use pointcloud.Common.{
  ℕ, zero, suc, ◌+◌, ◌-◌, ◌%◌, ◌^◌, ◌<◌, ◌≤◌, ◌≡◌, refl, ap, Bool, true, false, List, [], ◌∷◌, ◌++◌,
  length, get_elem?, set, replicate, map, arith, get_elem?-append, set-append, length-append,
  length-map, some,
}
use pointcloud.Common.Result.{Result, ok, ◌>>=◌}
use pointcloud.Value.{Doubles, double_from_ptr}
use pointcloud.Filter.{Filtertype, Pcbitmap, bitmap_set, passes, bitmap_filter, filter_run}

abbrev pub bit : Bool → ℕ
bit true = 1
bit false = 0

unfoldable pub count_true : List Bool → ℕ
count_true [] = 0
count_true (b ∷ bs) = bit b + count_true bs

count_true-append :
    (bs : List Bool) (b : Bool) → count_true (bs ++ (b ∷ [])) ≡ count_true bs + bit b
unfolding count_true
count_true-append [] b = omega arith
count_true-append (c ∷ bs) b = omega (arith, count_true-append bs b)

pub count_true-le : (bs : List Bool) → count_true bs ≤ length bs
unfolding count_true
count_true-le [] = omega arith
count_true-le (true ∷ bs) = omega (arith, count_true-le bs)
count_true-le (false ∷ bs) = omega (arith, count_true-le bs)

-- A bitmap of `n` points of which those of `bs` are decided, with `r` left.
abbrev pub decided : ℕ → List Bool → ℕ → Pcbitmap
decided n bs r = record { nset = count_true bs; npoints = n; map = map bit bs ++ replicate r 0 }

pub append_one :
    (bs : List Bool) (b : Bool) (zs : List ℕ)
    → map bit (bs ++ (b ∷ [])) ++ zs ≡ map bit bs ++ (bit b ∷ zs)
append_one [] b zs = refl
append_one (c ∷ bs) b zs = ap (λ t. bit c ∷ t) (append_one bs b zs)

module _ (n r : ℕ) (bs : List Bool) where
  pub get-decided : (x : ℕ) (zs : List ℕ) → get_elem? (map bit bs ++ (x ∷ zs)) (length bs) ≡ some x
  get-decided x zs = rw (length-map bs bit) at (get_elem?-append (map bit bs) (x ∷ zs))

  set-decided :
      (x v : ℕ) (zs : List ℕ) → set (map bit bs ++ (x ∷ zs)) (length bs) v ≡ map bit bs ++ (v ∷ zs)
  set-decided x v zs = rw (length-map bs bit) at (set-append (map bit bs) x zs v)

  -- Setting the next point.
  pub bitmap_set-decided :
      (b : Bool)
      → length bs < 2 ^ 32 - 1
      → bitmap_set (decided n bs (suc r)) (length bs) b ≡ ok (decided n (bs ++ (b ∷ [])) r)
  unfolding bitmap_set
  bitmap_set-decided true h = rw (
    get-decided 0 (replicate r 0),
    set-decided 0 1 (replicate r 0),
    append_one bs true (replicate r 0),
    count_true-append bs true,
    one_more,
  )
    where
      one_more : (count_true bs + 1) % 2 ^ 32 ≡ count_true bs + 1
      one_more = omega (arith, count_true-le bs)
  bitmap_set-decided false h = rw (
    get-decided 0 (replicate r 0),
    set-decided 0 0 (replicate r 0),
    append_one bs false (replicate r 0),
    count_true-append bs false,
    no_more,
  )
    where
      no_more : count_true bs + 0 ≡ count_true bs
      no_more = omega arith

  -- Reading a decided point.
  pub length_next : (b : Bool) → length (bs ++ (b ∷ [])) ≡ length bs + 1
  length_next b = length-append bs (b ∷ [])

module _ {ℓ} {D : Type ℓ} (doubles : Doubles D) (interp : ℕ) (filter : Filtertype) (val1 val2 : D)
    (n : ℕ) where
  -- What the filter says of the points with these values, after what it said of those before.
  unfoldable pub judged : List (List ℕ) → List Bool → Result (List Bool)
  judged [] bs = ok bs
  judged (v ∷ vs) bs = do
    d ← double_from_ptr doubles v interp
    judged vs (bs ++ (passes doubles filter d val1 val2 ∷ []))

  abbrev pub done : List Bool → Result Pcbitmap
  done bs = ok (decided n bs 0)

  -- A run of points with one value is judged point by point.
  pub filter_run-judged :
      (m r : ℕ) (v : List ℕ) (d : D) (vs : List (List ℕ)) (bs : List Bool)
      → double_from_ptr doubles v interp ≡ ok d
      → length bs + m < 2 ^ 32
      → (bs' : List Bool) × (filter_run doubles m filter
            (length bs)
            d
            val1
            val2
            (decided n bs (m + r))
          ≡ ok (decided n bs' r))
        × (judged (replicate m v ++ vs) bs ≡ judged vs bs')
        × (length bs' ≡ length bs + m)
  unfolding filter_run bitmap_filter judged
  filter_run-judged zero r v d vs bs e h =
      (bs, ap (λ (t : ℕ). ok (decided n bs t)) (omega arith), refl, omega arith)
  filter_run-judged (suc m) r v d vs bs e h =
      let b = passes doubles filter d val1 val2 in
      let (bs', ran, same, len) =
        filter_run-judged m r v d vs (bs ++ (b ∷ [])) e (omega (arith, length_next n r bs b)) in
      (
        bs',
        rw (suc_add, bitmap_set-decided n (m + r) bs b (omega arith))
            (rw (length_next n r bs b) at ran),
        rw e same,
        omega (arith, len, length_next n r bs b),
      )
    where
      suc_add : suc m + r ≡ suc (m + r)
      suc_add = omega arith
