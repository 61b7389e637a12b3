-- ===== src/Filter/Commute.antt =====
-- lib/pc_bytes.c: filtering a run-length encoded buffer is filtering its values.
use mathlib.Core.List.{flatten}
use pointcloud.Common.{
  ℕ, ◌+◌, ◌<◌, ◌^◌, ◌*◌, ◌≡◌, refl, sym, ap, ◌∙◌, Bool, true, false, List, [], ◌∷◌, ◌++◌, length,
  drop, map, All, arith, length-append, take-length, take-append, le→leb, leb, none, inl, inr,
  Bool-cases,
}
use pointcloud.Common.Result.{ok, counts_to_ok, ◌>>=◌}
use pointcloud.Bytes.{Pcbytes, contents, bytes_clone, bytes_empty, dim_none}
use pointcloud.Bytes.Valid.{IsRaw, slice_ok}
use pointcloud.Bytes.Rle.{run_length_encode, run_length_decode}
use pointcloud.Bytes.Rle.Runs.{Run, entries, expand, total, runs_of, expand-runs_of, length-expand}
use pointcloud.Bytes.Rle.Encode.{
  values, values-Elements, values-wide, length-values, encoded, run_length_encode_lem,
}
use pointcloud.Bytes.Rle.Decode.{IsRle, run_length_decode-IsRle}
use pointcloud.Bytes.Rle.RoundTrip.{encoded-IsRle}
use pointcloud.Value.{Doubles}
use pointcloud.Filter.{
  Pcbitmap, uncompressed_filter_loop, run_length_filter_loop, overwrite, uncompressed_filter,
  run_length_filter,
}
use pointcloud.Filter.Bitmap.{bit, count_true, count_true-le}
use pointcloud.Filter.Keep.{
  keep, keep_runs, expand-keep_runs, keep_runs-IsRun, entries-keep_runs-le, length-keep,
}
use pointcloud.Filter.Kept.{map-Bits, uncompressed_filter_loop-keep, run_length_filter_loop-keep}
use mathlib.Core.Path.{subst}
use native.Mathlib.Nat.{mul-le-mul_right}

-- A buffer that fills its memory is copied whole.
bytes_clone-whole :
    (pcb : Pcbytes)
    → pcb.size ≡ length pcb.bytes
    → bytes_clone pcb ≡ ok (record pcb { readonly = false })
unfolding bytes_clone
bytes_clone-whole pcb e = elim (Bool-cases (bytes_empty pcb)) [
  | inl t ↦ rw t
  | inr t ↦ rw (t, slice_ok pcb.bytes 0 pcb.size (omega arith), e, take-length pcb.bytes)
]

keep-All {ℓ κ} :
    {A : Type ℓ} (P : A → Type κ) (bs : List Bool) (xs : List A) → All P xs → All P (keep bs xs)
unfolding keep
keep-All P [] xs h = tt
keep-All P (b ∷ bs) [] h = tt
keep-All P (true ∷ bs) (x ∷ xs) (p, h) = (p, keep-All P bs xs h)
keep-All P (false ∷ bs) (x ∷ xs) (p, h) = keep-All P bs xs h

length-flatten :
    (size : ℕ) (vs : List (List ℕ))
    → All (λ v. length v ≡ size) vs
    → length (flatten vs) ≡ length vs * size
unfolding flatten
length-flatten size [] h = omega arith
length-flatten size (v ∷ vs) (e, h) =
    omega (arith, length-append v (flatten vs), length-flatten size vs h)

overwritten : (fpcb : Pcbytes) → List ℕ → ℕ → Pcbytes
overwritten fpcb written npoints = record fpcb {
  bytes = written ++ drop (length written) fpcb.bytes;
  size = length written;
  npoints = npoints;
}

module _ {ℓ} {D : Type ℓ} (doubles : Doubles D) (size : ℕ) (pcb : Pcbytes) (pcmap : Pcbitmap)
    (bs : List Bool) (raw : IsRaw size pcb) (says : pcmap.map ≡ map bit bs)
    (covers : length bs ≡ pcb.npoints) (few : pcb.npoints + 1 < 2 ^ 31) where
  abbrev vs : List (List ℕ)
  vs = values size pcb

  abbrev rs : List Run
  rs = runs_of vs

  abbrev kept : List (List ℕ)
  kept = keep bs vs

  abbrev kept_runs : List Run
  kept_runs = keep_runs bs rs

  runs-total : length bs ≡ total rs
  runs-total = covers ∙ (encoded-IsRle size pcb raw).counted

  kept-length : length kept ≡ count_true bs
  kept-length = length-keep bs vs (omega (arith, covers, length-values size pcb raw))

  kept-size : length (flatten kept) ≡ count_true bs * size
  kept-size =
      length-flatten size kept (keep-All (λ v. length v ≡ size) bs vs (values-wide size pcb raw))
      ∙ ap (λ (t : ℕ). t * size) kept-length

  kept-expand : expand kept_runs ≡ kept
  kept-expand = expand-keep_runs rs bs runs-total ∙ ap (keep bs) (expand-runs_of vs)

  kept-total : total kept_runs ≡ count_true bs
  kept-total = sym (length-expand kept_runs) ∙ ap length kept-expand ∙ kept-length

  decoded-size : size * total kept_runs ≡ length (flatten kept)
  decoded-size = omega (arith, ap (λ (t : ℕ). size * t) kept-total, kept-size)

  plain : Pcbytes
  plain = overwritten (record pcb { readonly = false }) (flatten kept) (length kept)

  coded : Pcbytes
  coded = overwritten (encoded size pcb) (entries kept_runs) (total kept_runs)

  uncompressed_filter-plain : uncompressed_filter doubles pcb pcmap none ≡ ok (plain, none)
  unfolding uncompressed_filter overwrite plain overwritten
  uncompressed_filter-plain = rw (
    bytes_clone-whole pcb (omega (arith, raw.filled, raw.allocated)),
    raw.size_of,
    counts_to_ok pcb.npoints (omega arith),
    loop,
    fits,
  )
    where
      loop :
          uncompressed_filter_loop doubles pcb.npoints size pcb.interpretation pcb.bytes pcmap 0
            none
          ≡ ok (flatten kept, length kept, none)
      loop =
          subst
            (λ (t : ℕ).
              uncompressed_filter_loop doubles t size pcb.interpretation pcb.bytes pcmap 0 none
              ≡ ok (flatten kept, length kept, none))
            (length-values size pcb raw)
            (uncompressed_filter_loop-keep doubles size pcb.interpretation pcmap vs bs pcb.bytes 0
              (values-Elements size pcb raw) (map-Bits pcmap bs says)
              (omega (arith, covers, length-values size pcb raw)))

      fits : leb (length (flatten kept)) (length pcb.bytes) ≡ true
      fits = le→leb _ _ (
          omega (
            arith,
            kept-size,
            raw.allocated,
            mul-le-mul_right {m = count_true bs} {n = pcb.npoints} size
                (omega (arith, covers, count_true-le bs)),
          ))

  run_length_filter-coded :
      run_length_filter doubles (encoded size pcb) pcmap none ≡ ok (coded, none)
  unfolding run_length_filter overwrite coded overwritten
  run_length_filter-coded =
      rw (
        bytes_clone-whole (encoded size pcb) refl,
        raw.size_of,
        take-length (entries rs),
        loop,
        fits,
      )
    where
      loop :
          run_length_filter_loop doubles
            (length (entries rs))
            size
            pcb.interpretation
            (entries rs)
            pcmap
            0
            none
          ≡ ok (entries kept_runs, total kept_runs, none)
      loop =
          run_length_filter_loop-keep doubles size pcb.interpretation pcmap rs bs
            (length (entries rs)) 0 (encoded-IsRle size pcb raw).runs (map-Bits pcmap bs says)
            runs-total (omega (arith, runs-total, covers)) (omega arith)

      fits : leb (length (entries kept_runs)) (length (entries rs)) ≡ true
      fits = le→leb _ _ (entries-keep_runs-le rs bs)

  coded-IsRle : IsRle size kept_runs coded
  unfolding coded overwritten
  coded-IsRle = record {
    size_of = raw.size_of;
    encoded = refl;
    runs = keep_runs-IsRun size rs bs (encoded-IsRle size pcb raw).runs;
    holds = take-append (entries kept_runs) _;
    filled = refl;
    counted = refl;
    small = omega (arith, kept-total, count_true-le bs, covers, raw.small);
  }

  -- Without statistics, filtering the encoded buffer returns, and decoding what it returns gives as
  -- many points, as many bytes and the values that filtering the buffer itself gives: the
  -- points of the bitmap, which says for each point of an uncompressed buffer of fewer than 2^31 - 1
  -- points whether it is kept.
  pub run_length_filter-encode :
      (plain coded decoded : Pcbytes) × (uncompressed_filter doubles pcb pcmap none
        ≡ ok (plain, none))
      × ((run_length_encode pcb >>= λ e. run_length_filter doubles e pcmap none) ≡ ok (coded, none))
      × (run_length_decode coded ≡ ok decoded)
      × (decoded.bytes ≡ contents plain)
      × (decoded.size ≡ plain.size)
      × (decoded.npoints ≡ plain.npoints)
      × (plain.npoints ≡ count_true bs)
  unfolding plain coded overwritten
  run_length_filter-encode = (
    plain,
    coded,
    record coded {
      compression = dim_none;
      size = size * coded.npoints;
      bytes = flatten (expand kept_runs);
      readonly = false;
    },
    uncompressed_filter-plain,
    rw (run_length_encode_lem size pcb raw few) run_length_filter-coded,
    run_length_decode-IsRle size kept_runs coded coded-IsRle,
    ap flatten kept-expand ∙ sym (take-append (flatten kept) _),
    decoded-size,
    kept-total ∙ sym kept-length,
    kept-length,
  )
