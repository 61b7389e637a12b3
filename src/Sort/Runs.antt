-- ===== src/Sort/Runs.antt =====
-- lib/pc_sort.c: which runs `pc_bytes_run_length_is_sorted` compares.
use pointcloud.Common.{
  ℕ, zero, suc, ◌+◌, ◌-◌, ◌<◌, ◌≤◌, ◌≡◌, sym, ap, ap₂, ◌∙◌, Bool, true, false, ◌&&◌, ◌||◌, ltb,
  List, [], ◌∷◌, ◌++◌, length, take, get_elem?, All, arith, some, length-append, append_assoc,
  take-append, drop-append, get_elem?-append, lt→ltb, le→ltb, ==_iff,
}
use pointcloud.Common.Result.{Result, ok, ◌>>=◌}
use pointcloud.Bytes.{Pcbytes, slice, dim_rle}
use pointcloud.Bytes.Valid.{slice_ok}
use pointcloud.Bytes.Rle.Runs.{Run, IsRun, entries, length-entries}
use pointcloud.Bytes.Rle.Decode.{IsRle}
use pointcloud.Value.{Doubles}
use native.Mathlib.Nat.{mul-le-mul_left}
use pointcloud.Sort.{at_least, compare_pcb, run_length_is_sorted_loop, run_length_is_sorted}

-- The bytes between two parts of a buffer.
slice-middle :
    (size : ℕ) (p v q : List ℕ) → length v ≡ size → slice (p ++ (v ++ q)) (length p) size ≡ ok v
slice-middle size p v q e =
    slice_ok (p ++ (v ++ q)) (length p) size
      (omega (arith, length-append p (v ++ q), length-append v q))
    ∙ ap (λ t. ok (take size t)) (drop-append p (v ++ q))
    ∙ ap ok (rw e at (take-append v q))

-- The value behind a count.
value-slice :
    (size : ℕ) (p : List ℕ) (n : ℕ) (v q : List ℕ)
    → length v ≡ size
    → slice (p ++ (n ∷ (v ++ q))) (length p + 1) size ≡ ok v
value-slice size p n v q e =
    ap₂ (λ bytes (curr : ℕ). slice bytes curr size) (sym (append_assoc p (n ∷ []) (v ++ q)))
      (sym (length-append p (n ∷ [])))
    ∙ slice-middle size (p ++ (n ∷ [])) v q e

regroup :
    (p : List ℕ) (n : ℕ) (v : List ℕ) (m : ℕ) (u q : List ℕ)
    → p ++ (n ∷ (v ++ (m ∷ (u ++ q)))) ≡ (p ++ (n ∷ v)) ++ (m ∷ (u ++ q))
regroup p n v m u q = sym (append_assoc p (n ∷ v) (m ∷ (u ++ q)))

module _ {ℓ} {D : Type ℓ} (doubles : Doubles D) (interp : ℕ) (strict : Bool) where
  -- Each run but the last two is compared with the next, and if `strict` has to be of 1 point.
  unfoldable pub runs_sorted : List Run → Result Bool
  runs_sorted [] = ok true
  runs_sorted (r ∷ []) = ok true
  runs_sorted (r ∷ s ∷ []) = ok true
  runs_sorted (r ∷ s ∷ t ∷ rs) =
      let rest = runs_sorted (s ∷ t ∷ rs) in
      do
        cmp ← compare_pcb doubles (r.1) (s.1) interp
        elim (at_least cmp strict || (strict && ltb 1 (r.0))) [ true ↦ ok false | false ↦ rest ]

  module _ (size end : ℕ) (bytes : List ℕ) where
    loop_end :
        (fuel curr : ℕ)
        → end ≤ curr + 1 + size + size
        → run_length_is_sorted_loop doubles fuel size interp end bytes strict curr ≡ ok true
    unfolding run_length_is_sorted_loop
    loop_end zero curr h = rw (le→ltb (curr + 1 + size + size) end h)
    loop_end (suc fuel) curr h =
        rw (run_length_is_sorted_loop, le→ltb (curr + 1 + size + size) end h)

    loop_pair :
        (fuel curr n : ℕ) (v u : List ℕ)
        → curr + 1 + size + size < end
        → get_elem? bytes (curr - 1) ≡ some n
        → 1 ≤ n
        → slice bytes curr size ≡ ok v
        → slice bytes (curr + 1 + size) size ≡ ok u
        → run_length_is_sorted_loop doubles (suc fuel) size interp end bytes strict curr ≡ (
            compare_pcb doubles v u interp >>= λ cmp.
            elim (at_least cmp strict || (strict && ltb 1 n)) [
              | true ↦ ok false
              | false ↦
                  run_length_is_sorted_loop doubles fuel size interp end bytes strict
                    (curr + 1 + size)
            ])
    unfolding run_length_is_sorted_loop
    loop_pair fuel curr n v u h en pos ev eu = rw (
      run_length_is_sorted_loop,
      lt→ltb (curr + 1 + size + size) end h,
      en,
      lt→ltb 0 n (omega arith),
      ev,
      eu,
    )

  module _ (size : ℕ) (pos : 1 ≤ size) where
    loop-runs_sorted :
        (rs : List Run) (fuel : ℕ) (pre : List ℕ)
        → All (IsRun size) rs
        → length rs ≤ fuel
        → run_length_is_sorted_loop doubles fuel size interp
            (length (pre ++ entries rs))
            (pre ++ entries rs)
            strict
            (length pre + 1)
          ≡ runs_sorted rs
    unfolding runs_sorted entries
    loop-runs_sorted [] fuel pre all f =
        loop_end size (length (pre ++ [])) (pre ++ []) fuel (length pre + 1)
          (omega (arith, length-append pre []))
    loop-runs_sorted ((n, v) ∷ []) fuel pre ((lo, hi, e), all) f =
        loop_end size _ (pre ++ (n ∷ (v ++ []))) fuel (length pre + 1)
          (omega (arith, length-append pre (n ∷ (v ++ [])), length-append v []))
    loop-runs_sorted ((n, v) ∷ (m, u) ∷ []) fuel pre ((lo, hi, e), ((lo', hi', e'), all)) f =
        loop_end size _ (pre ++ (n ∷ (v ++ (m ∷ (u ++ []))))) fuel (length pre + 1) (
          omega (
            arith,
            length-append pre (n ∷ (v ++ (m ∷ (u ++ [])))),
            length-append v (m ∷ (u ++ [])),
            length-append u [],
          ))
    loop-runs_sorted ((n, v) ∷ (m, u) ∷ r ∷ rs) zero pre all f = absurd (omega arith)
    loop-runs_sorted ((n, v) ∷ (m, u) ∷ r ∷ rs) (suc fuel) pre ((lo, hi, e), ((lo', hi', e'), all))
          f =
        loop_pair size _ (pre ++ (n ∷ (v ++ (m ∷ (u ++ entries (r ∷ rs)))))) fuel (length pre + 1) n
          v u
          (omega (
            arith,
            length-append pre (n ∷ (v ++ (m ∷ (u ++ entries (r ∷ rs))))),
            length-append v (m ∷ (u ++ entries (r ∷ rs))),
            length-append u (entries (r ∷ rs)),
          ))
          (ap (get_elem? (pre ++ (n ∷ (v ++ (m ∷ (u ++ entries (r ∷ rs))))))) one_back
            ∙ get_elem?-append pre _)
          lo (value-slice size pre n v (m ∷ (u ++ entries (r ∷ rs))) e)
          (ap₂ (λ bytes (curr : ℕ). slice bytes curr size) (regroup pre n v m u (entries (r ∷ rs)))
              next
            ∙ value-slice size (pre ++ (n ∷ v)) m u (entries (r ∷ rs)) e')
        ∙ ap
            (λ rest. compare_pcb doubles v u interp >>= λ cmp.
              elim (at_least cmp strict || (strict && ltb 1 n)) [ true ↦ ok false | false ↦ rest ])
            (ap₂
                (λ bytes (curr : ℕ).
                  run_length_is_sorted_loop doubles fuel size interp (length bytes) bytes strict
                    curr)
                (regroup pre n v m u (entries (r ∷ rs))) next
              ∙ loop-runs_sorted ((m, u) ∷ r ∷ rs) fuel (pre ++ (n ∷ v)) ((lo', hi', e'), all)
                  (omega arith))
      where
        one_back : length pre + 1 - 1 ≡ length pre
        one_back = omega arith

        next : length pre + 1 + 1 + size ≡ length (pre ++ (n ∷ v)) + 1
        next = omega (arith, length-append pre (n ∷ v))

-- On a run-length encoded buffer of values of 1 byte or more the answer, or the failure, is that of
-- comparing each run with the next but for the last, which is not compared with the one before it;
-- `strict` further asks that the runs so compared are of 1 point.
pub run_length_is_sorted-runs_sorted {ℓ} :
    {D : Type ℓ} (doubles : Doubles D) (strict : Bool) (size : ℕ) (rs : List Run) (pcb : Pcbytes)
    → IsRle size rs pcb
    → pcb.bytes ≡ entries rs
    → 1 ≤ size
    → run_length_is_sorted doubles pcb strict ≡ runs_sorted doubles pcb.interpretation strict rs
unfolding run_length_is_sorted
run_length_is_sorted-runs_sorted doubles strict size rs pcb h whole pos =
    rw ((==_iff pcb.compression dim_rle).1 h.encoded, h.size_of, whole, h.filled)
      (loop-runs_sorted doubles pcb.interpretation strict size pos rs (length (entries rs)) []
        h.runs
        (omega (
          arith,
          length-entries size rs h.runs,
          mul-le-mul_left {m = 1} {n = size + 1} (length rs) (omega arith),
        )))
