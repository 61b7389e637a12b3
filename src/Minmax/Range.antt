-- ===== src/Minmax/Range.antt =====
-- lib/pc_bytes.c: the least and the greatest value do not depend on the compression.
use pointcloud.Common.{
  ℕ, zero, suc, ◌+◌, ◌*◌, ◌^◌, ◌<◌, ◌≤◌, ◌≡◌, refl, sym, ap, ◌∙◌, List, [], ◌∷◌, ◌++◌, length,
  replicate, All, arith, length-append, Bool-cases, inl, inr,
}
use pointcloud.Common.Result.{Result, ok, fail, Result-cases, ◌>>=◌}
use pointcloud.Bytes.{Pcbytes}
use pointcloud.Bytes.Valid.{IsRaw, Elements}
use pointcloud.Bytes.Rle.Runs.{Run, IsRun, entries, expand, runs_of, expand-runs_of}
use pointcloud.Bytes.Rle.Encode.{
  values, values-Elements, length-values, encoded, run_length_encode_lem,
}
use pointcloud.Bytes.Rle.Decode.{IsRle, contents-IsRle, drop-value, slice-value}
use pointcloud.Bytes.Rle.RoundTrip.{encoded-IsRle}
use pointcloud.Bytes.Sigbits.Lossless.{Width, size_of, few_points, sigbits_encode-Undone}
use pointcloud.Bytes.Codec.{Zlib, ZlibLaws, bytes_encode}
use pointcloud.Bytes.Codec.RoundTrip.{
  Compression, number, none_of, rle, sigbits, zlib_of, bytes_clone-raw, zlib_encode-Undone,
}
use pointcloud.Value.{Doubles, double_from_ptr}
use pointcloud.Minmax.{
  Sums, Minmax, lower, higher, first_sums, results, uncompressed_minmax_loop, uncompressed_minmax,
  run_length_minmax_loop, run_length_minmax, bytes_minmax, sigbits_minmax, zlib_minmax,
}

module _ {ℓ} {D : Type ℓ} (doubles : Doubles D) where
  abbrev ends : Sums D → Result (D × D)
  ends s = ok (s.mn, s.mx)

  -- The outcome without the average.
  abbrev pub range : Result (Minmax D) → Result (D × D)
  range r = r >>= λ m. ok (m.min, m.max)

  -- Taking a value into account twice is taking it once.
  lower-lower : (d mn : D) → lower doubles d (lower doubles d mn) ≡ lower doubles d mn
  unfolding lower
  lower-lower d mn = elim (Bool-cases (doubles.less d mn)) [
    | inl t ↦ elim (Bool-cases (doubles.less d d)) [ inl s ↦ rw (t, s) | inr s ↦ rw (t, s) ]
    | inr t ↦ rw (t, t)
  ]

  higher-higher : (d mx : D) → higher doubles d (higher doubles d mx) ≡ higher doubles d mx
  unfolding higher
  higher-higher d mx = elim (Bool-cases (doubles.less mx d)) [
    | inl t ↦ elim (Bool-cases (doubles.less d d)) [ inl s ↦ rw (t, s) | inr s ↦ rw (t, s) ]
    | inr t ↦ rw (t, t)
  ]

  module _ (interp : ℕ) where
    -- The ends of the range of these values and two bounds.
    unfoldable ranged : List (List ℕ) → D → D → Result (D × D)
    ranged [] mn mx = ok (mn, mx)
    ranged (v ∷ vs) mn mx = do
      d ← double_from_ptr doubles v interp
      ranged vs (lower doubles d mn) (higher doubles d mx)

    ranged-replicate :
        (m : ℕ) (v : List ℕ) (vs : List (List ℕ)) (d mn mx : D)
        → double_from_ptr doubles v interp ≡ ok d
        → ranged (replicate m v ++ vs) (lower doubles d mn) (higher doubles d mx)
          ≡ ranged vs (lower doubles d mn) (higher doubles d mx)
    unfolding ranged
    ranged-replicate zero v vs d mn mx e = refl
    ranged-replicate (suc m) v vs d mn mx e =
        rw (e, lower-lower d mn, higher-higher d mx) (ranged-replicate m v vs d mn mx e)

    uncompressed_minmax_loop-ranged :
        (vs : List (List ℕ)) (size : ℕ) (bytes : List ℕ) (i : ℕ) (sums : Sums D)
        → Elements size bytes i vs
        → (uncompressed_minmax_loop doubles (length vs) size interp bytes i sums >>= ends)
          ≡ ranged vs sums.mn sums.mx
    unfolding uncompressed_minmax_loop ranged
    uncompressed_minmax_loop-ranged [] size bytes i sums es = refl
    uncompressed_minmax_loop-ranged (v ∷ vs) size bytes i sums (e, es) =
        elim (Result-cases (double_from_ptr doubles v interp)) [
          | inr (f, p) ↦ rw (e, p)
          | inl (d, p) ↦
              rw (e, p)
                (uncompressed_minmax_loop-ranged vs size bytes (i + 1)
                  (record {
                    mn = lower doubles d sums.mn;
                    mx = higher doubles d sums.mx;
                    sm = doubles.add sums.sm d;
                  })
                  es)
        ]

    run_length_minmax_loop-ranged :
        (rs : List Run) (size fuel : ℕ) (sums : Sums D)
        → All (IsRun size) rs
        → length (entries rs) ≤ fuel
        → (run_length_minmax_loop doubles fuel size interp (entries rs) sums >>= ends)
          ≡ ranged (expand rs) sums.mn sums.mx
    unfolding run_length_minmax_loop ranged entries expand
    run_length_minmax_loop-ranged [] size zero sums all f = refl
    run_length_minmax_loop-ranged [] size (suc fuel) sums all f = refl
    run_length_minmax_loop-ranged ((m, v) ∷ rs) size zero sums all f = absurd (omega arith)
    run_length_minmax_loop-ranged ((zero, v) ∷ rs) size (suc fuel) sums ((lo, hi, e), all) f =
        absurd (omega arith)
    run_length_minmax_loop-ranged ((suc m, v) ∷ rs) size (suc fuel) sums ((lo, hi, e), all) f =
        elim (Result-cases (double_from_ptr doubles v interp)) [
          | inr (g, p) ↦ rw (slice-value size v (entries rs) e, p)
          | inl (d, p) ↦
              rw
                (
                  slice-value size v (entries rs) e,
                  drop-value size v (entries rs) e,
                  p,
                  ranged-replicate m v (expand rs) d sums.mn sums.mx p,
                )
                (run_length_minmax_loop-ranged rs size fuel
                  (record {
                    mn = lower doubles d sums.mn;
                    mx = higher doubles d sums.mx;
                    sm = doubles.add sums.sm (doubles.multiply (doubles.from_nat (suc m)) d);
                  })
                  all (omega (arith, length-append v (entries rs))))
        ]

  -- Dropping the average from the results is keeping the ends of the sums.
  range-ends :
      (npoints : ℕ) (r : Result (Sums D))
      → range (r >>= λ sums. ok (results doubles npoints sums)) ≡ (r >>= ends)
  unfolding results
  range-ends npoints (ok sums) = refl
  range-ends npoints (fail f) = refl

  uncompressed_minmax-ranged :
      (size : ℕ) (pcb : Pcbytes)
      → IsRaw size pcb
      → range (uncompressed_minmax doubles pcb)
        ≡ ranged pcb.interpretation
            (values size pcb)
            (first_sums doubles).mn
            (first_sums doubles).mx
  unfolding uncompressed_minmax
  uncompressed_minmax-ranged size pcb raw = rw raw.size_of (
      range-ends pcb.npoints _
      ∙ ap
          (λ (t : ℕ).
            uncompressed_minmax_loop doubles t size pcb.interpretation pcb.bytes 0
              (first_sums doubles)
            >>= ends)
          (sym (length-values size pcb raw))
      ∙ uncompressed_minmax_loop-ranged pcb.interpretation (values size pcb) size pcb.bytes 0
          (first_sums doubles) (values-Elements size pcb raw))

  run_length_minmax-ranged :
      (size : ℕ) (rs : List Run) (pcb : Pcbytes)
      → IsRle size rs pcb
      → range (run_length_minmax doubles pcb)
        ≡ ranged pcb.interpretation (expand rs) (first_sums doubles).mn (first_sums doubles).mx
  unfolding run_length_minmax
  run_length_minmax-ranged size rs pcb h =
      rw (h.size_of, contents-IsRle size rs pcb h)
        (range-ends pcb.npoints _
          ∙ run_length_minmax_loop-ranged pcb.interpretation rs size pcb.size (first_sums doubles)
              h.runs (omega (arith, h.filled)))

  -- Whatever the compression, the minimum and the maximum of the encoded buffer are those of the
  -- buffer, or both calls fail alike. The buffer is uncompressed, of 1 point or more of 1, 2, 4 or 8
  -- bytes each and fewer than 2^32 bits; for zlib its stream fits in four times its size.
  pub bytes_minmax-encode :
      (zlib : Zlib) (bound : ℕ → ℕ)
      → ZlibLaws zlib bound
      → (width : Width) (pcb : Pcbytes) (compression : Compression) → IsRaw (size_of width) pcb
      → 1 ≤ pcb.npoints
      → 8 * size_of width * pcb.npoints < 2 ^ 32
      → bound pcb.size ≤ 4 * pcb.size
      → range (bytes_encode zlib pcb (number compression) >>= bytes_minmax doubles zlib)
        ≡ range (uncompressed_minmax doubles pcb)
  unfolding bytes_encode bytes_minmax sigbits_minmax zlib_minmax uncompressed_minmax
  bytes_minmax-encode zlib bound laws width pcb none_of raw nonempty small space =
      rw (bytes_clone-raw (size_of width) pcb raw, raw.uncompressed) refl
  bytes_minmax-encode zlib bound laws width pcb rle raw nonempty small space =
      rw (run_length_encode_lem (size_of width) pcb raw (few_points width pcb.npoints small)) (
        run_length_minmax-ranged (size_of width) (runs_of (values (size_of width) pcb))
          (encoded (size_of width) pcb) (encoded-IsRle (size_of width) pcb raw)
        ∙ ap (λ t. ranged pcb.interpretation t (first_sums doubles).mn (first_sums doubles).mx)
            (expand-runs_of (values (size_of width) pcb))
        ∙ sym (uncompressed_minmax-ranged (size_of width) pcb raw))
  bytes_minmax-encode zlib bound laws width pcb sigbits raw nonempty small space =
      let u = sigbits_encode-Undone width pcb raw nonempty small in
      rw (u.encodes, u.form, u.decodes) refl
  bytes_minmax-encode zlib bound laws width pcb zlib_of raw nonempty small space =
      let u = zlib_encode-Undone (size_of width) pcb raw zlib bound laws space (omega arith) in
      rw (u.encodes, u.form, u.decodes) refl
