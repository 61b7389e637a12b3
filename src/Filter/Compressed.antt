-- ===== src/Filter/Compressed.antt =====
-- lib/pc_bytes.c: `pc_bytes_bitmap` judges the points of a compressed buffer as it judges those of
-- the buffer.
use pointcloud.Common.{
  ℕ, zero, suc, ◌+◌, ◌*◌, ◌^◌, ◌<◌, ◌≤◌, ◌≡◌, refl, sym, ap, ◌∙◌, Bool, List, [], ◌∷◌, ◌++◌, length,
  All, arith, length-append, inl, inr,
}
use pointcloud.Common.Result.{ok, Result-cases, ◌>>=◌}
use pointcloud.Bytes.{Pcbytes}
use pointcloud.Bytes.Valid.{IsRaw, Elements}
use pointcloud.Bytes.Rle.Runs.{Run, IsRun, entries, expand, total, runs_of, expand-runs_of}
use pointcloud.Bytes.Rle.Encode.{
  values, values-Elements, length-values, encoded, run_length_encode_lem,
}
use pointcloud.Bytes.Rle.Decode.{IsRle, contents-IsRle, drop-value, slice-value}
use pointcloud.Bytes.Rle.RoundTrip.{encoded-IsRle}
use pointcloud.Bytes.Sigbits.Lossless.{Width, size_of, few_points, sigbits_encode-Undone}
use pointcloud.Bytes.Codec.{Zlib, ZlibLaws, bytes_encode, bytes_decode}
use pointcloud.Bytes.Codec.RoundTrip.{
  Compression, number, none_of, rle, sigbits, zlib_of, bytes_clone-raw, zlib_encode-Undone,
}
use pointcloud.Value.{Doubles, double_from_ptr}
use pointcloud.Filter.{
  Filtertype, Pcbitmap, bitmap_new, passes, bitmap_filter, filter_run, run_length_bitmap_loop,
  run_length_bitmap, uncompressed_bitmap_loop, uncompressed_bitmap, bytes_bitmap,
}
use mathlib.Core.Path.{subst}
use pointcloud.Filter.Bitmap.{
  count_true, decided, judged, done, filter_run-judged, bitmap_set-decided, length_next,
}

module _ {ℓ} {D : Type ℓ} (doubles : Doubles D) (filter : Filtertype) (val1 val2 : D) where
  module _ (size interp n : ℕ) where
    uncompressed_bitmap_loop-judged :
        (vs : List (List ℕ)) (bytes : List ℕ) (bs : List Bool)
        → Elements size bytes (length bs) vs
        → length bs + length vs < 2 ^ 32
        → uncompressed_bitmap_loop doubles
            (length vs)
            size
            interp
            filter
            val1
            val2
            bytes
            (length bs)
            (decided n bs (length vs))
          ≡ (judged doubles interp filter val1 val2 n vs bs
              >>= done doubles interp filter val1 val2 n)
    unfolding uncompressed_bitmap_loop judged bitmap_filter
    uncompressed_bitmap_loop-judged [] bytes bs es h = refl
    uncompressed_bitmap_loop-judged (v ∷ vs) bytes bs (e, es) h =
        elim (Result-cases (double_from_ptr doubles v interp)) [
          | inr (f, p) ↦ rw (e, p)
          | inl (d, p) ↦
              let b = passes doubles filter d val1 val2 in
              rw (e, p, bitmap_set-decided n (length vs) bs b (omega arith), ← length_next n 0 bs b)
                (uncompressed_bitmap_loop-judged vs bytes (bs ++ (b ∷ []))
                  (rw (length_next n 0 bs b) es) (omega (arith, length_next n 0 bs b)))
        ]

    -- One entry.
    run_length_bitmap_entry :
        (fuel m i : ℕ) (v rest : List ℕ) (d : D) (before after : Pcbitmap)
        → length v ≡ size
        → double_from_ptr doubles v interp ≡ ok d
        → filter_run doubles m filter i d val1 val2 before ≡ ok after
        → run_length_bitmap_loop doubles
            (suc fuel)
            size
            interp
            filter
            val1
            val2
            (m ∷ (v ++ rest))
            i
            before
          ≡ run_length_bitmap_loop doubles fuel size interp filter val1 val2 rest (i + m) after
    unfolding run_length_bitmap_loop
    run_length_bitmap_entry fuel m i v rest d before after e p ran =
        rw (slice-value size v rest e, drop-value size v rest e, p, ran)

    run_length_bitmap_loop-judged :
        (rs : List Run) (fuel : ℕ) (bs : List Bool)
        → All (IsRun size) rs
        → length (entries rs) ≤ fuel
        → length bs + total rs < 2 ^ 32
        → run_length_bitmap_loop doubles fuel size interp filter val1 val2
            (entries rs)
            (length bs)
            (decided n bs (total rs))
          ≡ (judged doubles interp filter val1 val2 n (expand rs) bs
              >>= done doubles interp filter val1 val2 n)
    unfolding run_length_bitmap_loop judged entries total expand
    run_length_bitmap_loop-judged [] zero bs all f h = refl
    run_length_bitmap_loop-judged [] (suc fuel) bs all f h = refl
    run_length_bitmap_loop-judged ((m, v) ∷ rs) zero bs all f h = absurd (omega arith)
    run_length_bitmap_loop-judged ((zero, v) ∷ rs) (suc fuel) bs ((lo, hi, e), all) f h =
        absurd (omega arith)
    run_length_bitmap_loop-judged ((suc m, v) ∷ rs) (suc fuel) bs ((lo, hi, e), all) f h =
        elim (Result-cases (double_from_ptr doubles v interp)) [
          | inr (g, p) ↦ rw (slice-value size v (entries rs) e, p)
          | inl (d, p) ↦
              let (bs', ran, same, len) =
                filter_run-judged doubles interp filter val1 val2 n (suc m) (total rs) v d
                  (expand rs) bs p (omega arith) in
              run_length_bitmap_entry fuel (suc m) (length bs) v (entries rs) d _ _ e p ran
              ∙ ap
                  (λ (t : ℕ).
                    run_length_bitmap_loop doubles fuel size interp filter val1 val2 (entries rs) t
                      (decided n bs' (total rs)))
                  (sym len)
              ∙ run_length_bitmap_loop-judged rs fuel bs' all
                  (omega (arith, length-append v (entries rs))) (omega (arith, len))
              ∙ ap (λ t. t >>= done doubles interp filter val1 val2 n) (sym same)
        ]

  -- On uncompressed values and on runs.
  uncompressed_bitmap-judged :
      (size : ℕ) (pcb : Pcbytes)
      → IsRaw size pcb
      → uncompressed_bitmap doubles pcb filter val1 val2 ≡ (
          judged doubles pcb.interpretation filter val1 val2 pcb.npoints (values size pcb) []
          >>= done doubles pcb.interpretation filter val1 val2 pcb.npoints)
  unfolding uncompressed_bitmap bitmap_new count_true
  uncompressed_bitmap-judged size pcb raw = rw raw.size_of (
      subst
        (λ (t : ℕ).
          uncompressed_bitmap_loop doubles t size pcb.interpretation filter val1 val2 pcb.bytes 0
            (decided pcb.npoints [] t)
          ≡ (judged doubles pcb.interpretation filter val1 val2 pcb.npoints (values size pcb) []
              >>= done doubles pcb.interpretation filter val1 val2 pcb.npoints))
        (length-values size pcb raw)
        (uncompressed_bitmap_loop-judged size pcb.interpretation pcb.npoints (values size pcb)
          pcb.bytes [] (values-Elements size pcb raw)
          (omega (arith, length-values size pcb raw, raw.small))))

  run_length_bitmap-judged :
      (size : ℕ) (rs : List Run) (pcb : Pcbytes)
      → IsRle size rs pcb
      → run_length_bitmap doubles pcb filter val1 val2 ≡ (
          judged doubles pcb.interpretation filter val1 val2 pcb.npoints (expand rs) []
          >>= done doubles pcb.interpretation filter val1 val2 pcb.npoints)
  unfolding run_length_bitmap bitmap_new count_true
  run_length_bitmap-judged size rs pcb h =
      rw (h.size_of, contents-IsRle size rs pcb h)
        (subst
          (λ (t : ℕ).
            run_length_bitmap_loop doubles pcb.size size pcb.interpretation filter val1 val2
              (entries rs) 0 (decided pcb.npoints [] t)
            ≡ (judged doubles pcb.interpretation filter val1 val2 pcb.npoints (expand rs) []
                >>= done doubles pcb.interpretation filter val1 val2 pcb.npoints))
          (sym h.counted)
          (run_length_bitmap_loop-judged size pcb.interpretation pcb.npoints rs pcb.size [] h.runs
            (omega (arith, h.filled)) (omega (arith, h.counted, h.small))))

  -- The bitmap of a run-length encoded buffer is that of the buffer, or both calls fail alike.
  run_length_bitmap-encode :
      (size : ℕ) (pcb : Pcbytes)
      → IsRaw size pcb
      → run_length_bitmap doubles (encoded size pcb) filter val1 val2
        ≡ uncompressed_bitmap doubles pcb filter val1 val2
  run_length_bitmap-encode size pcb raw =
      run_length_bitmap-judged size (runs_of (values size pcb)) (encoded size pcb)
        (encoded-IsRle size pcb raw)
      ∙ ap
          (λ t.
            judged doubles pcb.interpretation filter val1 val2 pcb.npoints t []
            >>= done doubles pcb.interpretation filter val1 val2 pcb.npoints)
          (expand-runs_of (values size pcb))
      ∙ sym (uncompressed_bitmap-judged size pcb raw)

  -- Whatever the compression, the bitmap of a filter on the encoded buffer is the bitmap of the filter
  -- on the buffer, or both calls fail alike. The buffer is uncompressed, of 1 point or more of 1, 2, 4
  -- or 8 bytes each and fewer than 2^32 bits; for zlib its stream fits in four times its size.
  pub bytes_bitmap-encode :
      (zlib : Zlib) (bound : ℕ → ℕ)
      → ZlibLaws zlib bound
      → (width : Width) (pcb : Pcbytes) (compression : Compression) → IsRaw (size_of width) pcb
      → 1 ≤ pcb.npoints
      → 8 * size_of width * pcb.npoints < 2 ^ 32
      → bound pcb.size ≤ 4 * pcb.size
      → (bytes_encode zlib pcb (number compression) >>= λ epcb.
          bytes_bitmap doubles zlib epcb filter val1 val2)
        ≡ uncompressed_bitmap doubles pcb filter val1 val2
  unfolding bytes_encode bytes_decode bytes_bitmap uncompressed_bitmap
  bytes_bitmap-encode zlib bound laws width pcb none_of raw nonempty small space =
      rw (bytes_clone-raw (size_of width) pcb raw, raw.uncompressed) refl
  bytes_bitmap-encode zlib bound laws width pcb rle raw nonempty small space =
      rw (run_length_encode_lem (size_of width) pcb raw (few_points width pcb.npoints small))
        (run_length_bitmap-encode (size_of width) pcb raw)
  bytes_bitmap-encode zlib bound laws width pcb sigbits raw nonempty small space =
      let u = sigbits_encode-Undone width pcb raw nonempty small in
      rw (u.encodes, u.form, u.decodes) refl
  bytes_bitmap-encode zlib bound laws width pcb zlib_of raw nonempty small space =
      let u = zlib_encode-Undone (size_of width) pcb raw zlib bound laws space (omega arith) in
      rw (u.encodes, u.form, u.decodes) refl
