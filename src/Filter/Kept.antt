-- ===== src/Filter/Kept.antt =====
-- lib/pc_bytes.c: the loops of `pc_bytes_uncompressed_filter` and `pc_bytes_run_length_filter` keep the
-- points of the bitmap.
use mathlib.Core.List.{flatten}
use pointcloud.Common.{
  ◌^◌, ℕ, zero, suc, ◌+◌, ◌%◌, ◌<◌, ◌≤◌, ◌≡◌, refl, sym, ap, ◌∙◌, Bool, true, false, not, ◌==◌,
  List, [], ◌∷◌, ◌++◌, length, take, drop, map, All, arith, length-append, length-drop, inl, inr,
  Bool-cases, none,
}
use pointcloud.Common.Result.{counts_to_ok, ok, ◌>>=◌}
use pointcloud.Bytes.Valid.{Elements}
use pointcloud.Bytes.Rle.Runs.{Run, IsRun, entries, total}
use pointcloud.Bytes.Rle.Decode.{drop-value, slice-value}
use pointcloud.Value.{Doubles}
use pointcloud.Filter.{
  Pcbitmap, bitmap_get, update_stats?, uncompressed_filter_loop, count_kept, run_length_filter_loop,
}
use pointcloud.Filter.Bitmap.{bit, count_true, get-decided, append_one}
use pointcloud.Filter.Keep.{keep, keep_runs}
use mathlib.Core.Path.{subst}

-- The bitmap says `bs` of the points from `i` on.
abbrev pub Bits : Pcbitmap → ℕ → List Bool → Type 0
Bits map i [] = Unit
Bits map i (b ∷ bs) = (bitmap_get map i ≡ ok b) × Bits map (i + 1) bs

Bits-drop :
    (map : Pcbitmap) (m i : ℕ) (bs : List Bool) → Bits map i bs → Bits map (i + m) (drop m bs)
Bits-drop map zero i bs h = subst (λ (t : ℕ). Bits map t bs) (omega arith) h
Bits-drop map (suc m) i [] h = tt
Bits-drop map (suc m) i (b ∷ bs) (e, h) =
    subst (λ (t : ℕ). Bits map t (drop m bs)) (omega arith) (Bits-drop map m (i + 1) bs h)

-- A map of 0 and 1 says what they say.
Bits-after :
    (pcmap : Pcbitmap) (bs cs : List Bool)
    → pcmap.map ≡ map bit bs ++ map bit cs
    → Bits pcmap (length bs) cs
unfolding bitmap_get
Bits-after pcmap bs [] e = tt
Bits-after pcmap bs (c ∷ cs) e = (
  rw (e, get-decided 0 0 bs (bit c) (map bit cs)) (flag c),
  subst (λ (t : ℕ). Bits pcmap t cs) (length-append bs (c ∷ []))
      (Bits-after pcmap (bs ++ (c ∷ [])) cs (e ∙ sym (append_one bs c (map bit cs)))),
)
  where
    flag : (c : Bool) → ok (not (bit c == 0)) ≡ ok c
    flag true = refl
    flag false = refl

pub map-Bits : (pcmap : Pcbitmap) (bs : List Bool) → pcmap.map ≡ map bit bs → Bits pcmap 0 bs
map-Bits pcmap bs e = Bits-after pcmap [] bs e

module _ {ℓ} {D : Type ℓ} (doubles : Doubles D) (size interp : ℕ) (map : Pcbitmap) where
  pub uncompressed_filter_loop-keep :
      (vs : List (List ℕ)) (bs : List Bool) (bytes : List ℕ) (i : ℕ)
      → Elements size bytes i vs
      → Bits map i bs
      → length bs ≡ length vs
      → uncompressed_filter_loop doubles (length vs) size interp bytes map i none
        ≡ ok (flatten (keep bs vs), length (keep bs vs), none)
  unfolding uncompressed_filter_loop update_stats? keep flatten
  uncompressed_filter_loop-keep [] [] bytes i es hs e = refl
  uncompressed_filter_loop-keep [] (b ∷ bs) bytes i es hs e = absurd (omega arith)
  uncompressed_filter_loop-keep (v ∷ vs) [] bytes i es hs e = absurd (omega arith)
  uncompressed_filter_loop-keep (v ∷ vs) (true ∷ bs) bytes i (ev, es) (eb, hs) e =
      rw (eb, ev, uncompressed_filter_loop-keep vs bs bytes (i + 1) es hs (omega arith))
        (ap (λ (t : ℕ). ok (v ++ flatten (keep bs vs), t, none)) (one_more (length (keep bs vs))))
    where
      one_more : (n : ℕ) → n + 1 ≡ suc n
      one_more n = omega arith
  uncompressed_filter_loop-keep (v ∷ vs) (false ∷ bs) bytes i (ev, es) (eb, hs) e = rw (
    eb,
    uncompressed_filter_loop,
    uncompressed_filter_loop-keep vs bs bytes (i + 1) es hs (omega arith),
  )

  count_kept-take :
      (m : ℕ) (bs : List Bool) (j fcount : ℕ)
      → Bits map j bs
      → m ≤ length bs
      → fcount + m < 256
      → count_kept m map j fcount ≡ ok (fcount + count_true (take m bs))
  unfolding count_kept count_true
  count_kept-take zero bs j fcount hs h lt = ap ok (omega arith)
  count_kept-take (suc m) [] j fcount hs h lt = absurd (omega arith)
  count_kept-take (suc m) (true ∷ bs) j fcount (e, hs) h lt =
      rw (e, small, count_kept-take m bs (j + 1) (fcount + 1) hs (omega arith) (omega arith))
        (ap ok (omega arith))
    where
      small : (fcount + 1) % 256 ≡ fcount + 1
      small = omega arith
  count_kept-take (suc m) (false ∷ bs) j fcount (e, hs) h lt =
      rw (e, count_kept-take m bs (j + 1) fcount hs (omega arith) (omega arith))
        (ap ok (omega arith))

  -- One entry, by what is kept of it.
  module _ (fuel m i : ℕ) (v rest written : List ℕ) (j : ℕ) (e : length v ≡ size)
      (rest_of : run_length_filter_loop doubles fuel size interp rest map (i + m) none
        ≡ ok (written, j, none))
      (few : i + m < 2 ^ 31) where
    entry_dropped :
        (kept : ℕ)
        → count_kept m map i 0 ≡ ok kept
        → (kept == 0) ≡ true
        → run_length_filter_loop doubles (suc fuel) size interp (m ∷ (v ++ rest)) map i none
          ≡ ok (written, j, none)
    unfolding run_length_filter_loop
    entry_dropped kept c t =
        rw (counts_to_ok (i + m) few, c, ◌>>=◌) (rw t (rw (drop-value size v rest e) rest_of))

    entry_kept :
        (kept : ℕ)
        → count_kept m map i 0 ≡ ok kept
        → (kept == 0) ≡ false
        → run_length_filter_loop doubles (suc fuel) size interp (m ∷ (v ++ rest)) map i none
          ≡ ok (kept ∷ (v ++ written), j + kept, none)
    unfolding run_length_filter_loop update_stats?
    entry_kept kept c t =
        rw (counts_to_ok (i + m) few, c, ◌>>=◌)
          (rw t (rw (slice-value size v rest e) (rw (drop-value size v rest e) (rw rest_of refl))))

  pub run_length_filter_loop-keep :
      (rs : List Run) (bs : List Bool) (fuel i : ℕ)
      → All (IsRun size) rs
      → Bits map i bs
      → length bs ≡ total rs
      → i + total rs < 2 ^ 31
      → length (entries rs) ≤ fuel
      → run_length_filter_loop doubles fuel size interp (entries rs) map i none
        ≡ ok (entries (keep_runs bs rs), total (keep_runs bs rs), none)
  unfolding run_length_filter_loop entries total keep_runs
  run_length_filter_loop-keep [] bs zero i all hs e few f = refl
  run_length_filter_loop-keep [] bs (suc fuel) i all hs e few f = refl
  run_length_filter_loop-keep ((m, v) ∷ rs) bs zero i all hs e few f = absurd (omega arith)
  run_length_filter_loop-keep ((m, v) ∷ rs) bs (suc fuel) i ((lo, hi, ev), all) hs e few f =
      let ih =
        run_length_filter_loop-keep rs (drop m bs) fuel (i + m) all (Bits-drop map m i bs hs)
          (omega (arith, length-drop m bs)) (omega arith)
          (omega (arith, length-append v (entries rs))) in
      let counted = count_kept-take m bs i 0 hs (omega arith) (omega arith) in
      elim (Bool-cases (count_true (take m bs) == 0)) [
        | inl t ↦ rw t (
            entry_dropped fuel m i v (entries rs) _ _ ev ih (omega arith) (count_true (take m bs))
              (counted ∙ ap ok zero_plus) t)
        | inr t ↦ rw t (
            entry_kept fuel m i v (entries rs) _ _ ev ih (omega arith) (count_true (take m bs))
              (counted ∙ ap ok zero_plus) t
            ∙ ap
                (λ (n : ℕ).
                  ok (count_true (take m bs) ∷ (v ++ entries (keep_runs (drop m bs) rs)), n, none))
                (swap (total (keep_runs (drop m bs) rs)) (count_true (take m bs))))
      ]
    where
      zero_plus : 0 + count_true (take m bs) ≡ count_true (take m bs)
      zero_plus = omega arith

      swap : (a b : ℕ) → a + b ≡ b + a
      swap a b = omega arith
