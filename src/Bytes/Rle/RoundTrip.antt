-- ===== src/Bytes/Rle/RoundTrip.antt =====
-- The run-length encoder against its two readers, on every uncompressed buffer.
use mathlib.Core.List.{flatten}
use pointcloud.Common.{
  ℕ, zero, suc, ◌+◌, ◌*◌, ◌^◌, ◌<◌, ◌≤◌, ◌≡◌, refl, sym, ap, ◌∙◌, false, List, [], ◌∷◌, take-length,
  length, get_elem?, All, arith,
}
use pointcloud.Common.Result.{ok, ◌>>=◌}
use pointcloud.Bytes.{Pcbytes, element, uncompressed_to_ptr}
use pointcloud.Bytes.Valid.{IsRaw, Elements, flatten-chunks}
use pointcloud.Bytes.Rle.{run_length_encode, run_length_decode, run_length_to_ptr}
use pointcloud.Bytes.Rle.Runs.{
  Run, IsRun, entries, runs_of, total, runs_of-IsRun, expand-runs_of, length-expand, length-entries,
}
use pointcloud.Bytes.Rle.Encode.{
  values, values-Elements, length-values, values-wide, encoded, run_length_encode_lem,
}
use pointcloud.Bytes.Rle.Decode.{IsRle, run_length_decode-IsRle, run_length_to_ptr-IsRle, found}

Elements-get :
    (size : ℕ) (bytes : List ℕ) (i j : ℕ) (vs : List (List ℕ))
    → Elements size bytes i vs
    → j < length vs
    → found size (get_elem? vs j) ≡ element size bytes (i + j)
Elements-get size bytes i j [] h lt = absurd (omega arith)
Elements-get size bytes i zero (v ∷ vs) (e, h) lt = sym e ∙ ap (element size bytes) (omega arith)
Elements-get size bytes i (suc j) (v ∷ vs) (e, h) lt =
    Elements-get size bytes (i + 1) j vs h (omega arith) ∙ ap (element size bytes) (omega arith)

module _ (size : ℕ) (pcb : Pcbytes) (raw : IsRaw size pcb) where
  total-values : total (runs_of (values size pcb)) ≡ pcb.npoints
  total-values =
      sym (length-expand (runs_of (values size pcb)))
      ∙ ap length (expand-runs_of (values size pcb))
      ∙ length-values size pcb raw

  pub encoded-IsRle : IsRle size (runs_of (values size pcb)) (encoded size pcb)
  encoded-IsRle = record {
    size_of = raw.size_of;
    encoded = refl;
    runs = runs_of-IsRun size (values size pcb) (values-wide size pcb raw);
    holds = take-length _;
    filled = refl;
    counted = sym total-values;
    small = raw.small;
  }

  flatten-values : flatten (values size pcb) ≡ pcb.bytes
  unfolding values
  flatten-values = flatten-chunks size pcb.npoints pcb.bytes raw.allocated

-- Encoding an uncompressed buffer of fewer than 2^31 - 1 points returns, and decoding gives the
-- buffer back, in memory of its own.
pub run_length_decode-encode :
    (size : ℕ) (pcb : Pcbytes)
    → IsRaw size pcb
    → pcb.npoints + 1 < 2 ^ 31
    → (run_length_encode pcb >>= run_length_decode) ≡ ok (record pcb { readonly = false })
run_length_decode-encode size pcb raw few =
    rw
      (
        run_length_encode_lem size pcb raw few,
        run_length_decode-IsRle size _ (encoded size pcb) (encoded-IsRle size pcb raw),
        expand-runs_of (values size pcb),
        flatten-values size pcb raw,
      )
      (ground (arith, raw.uncompressed, raw.filled))

-- Encoding an uncompressed buffer of fewer than 2^31 - 1 points returns, and reading one of its
-- points from the encoded buffer gives what reading it from the buffer does.
pub run_length_to_ptr-encode :
    (size : ℕ) (pcb : Pcbytes) (i : ℕ)
    → IsRaw size pcb
    → i < pcb.npoints
    → pcb.npoints + 1 < 2 ^ 31
    → (run_length_encode pcb >>= λ e. run_length_to_ptr e i) ≡ uncompressed_to_ptr pcb i
unfolding uncompressed_to_ptr
run_length_to_ptr-encode size pcb i raw lt few =
    rw
      (
        run_length_encode_lem size pcb raw few,
        run_length_to_ptr-IsRle size _ (encoded size pcb) (encoded-IsRle size pcb raw) i,
        expand-runs_of (values size pcb),
        raw.size_of,
      )
      (Elements-get size pcb.bytes 0 i (values size pcb) (values-Elements size pcb raw)
          (omega (arith, length-values size pcb raw))
        ∙ ap (element size pcb.bytes) (omega arith))

-- On an uncompressed buffer of fewer than 2^31 - 1 points the encoder returns, its output fits the
-- buffer of `npoints * size + npoints` bytes that it allocates, and it is a sequence of entries with
-- counts from 1 to 255 that add up to `npoints`.
pub run_length_encode_fits :
    (size : ℕ) (pcb : Pcbytes)
    → IsRaw size pcb
    → pcb.npoints + 1 < 2 ^ 31
    → (e : Pcbytes) × (rs : List Run) × (run_length_encode pcb ≡ ok e)
      × (e.bytes ≡ entries rs)
      × (e.size ≡ length e.bytes)
      × All (IsRun size) rs
      × (total rs ≡ pcb.npoints)
      × (length e.bytes ≤ pcb.npoints * size + pcb.npoints)
run_length_encode_fits size pcb raw few =
    let rs = runs_of (values size pcb) in
    let runs = runs_of-IsRun size (values size pcb) (values-wide size pcb raw) in
    (
      encoded size pcb,
      rs,
      run_length_encode_lem size pcb raw few,
      refl,
      refl,
      runs,
      total-values size pcb raw,
      fits rs runs (total-values size pcb raw),
    )
  where
    fits :
        (rs : List Run)
        → All (IsRun size) rs
        → total rs ≡ pcb.npoints
        → length (entries rs) ≤ pcb.npoints * size + pcb.npoints
    fits rs runs t = grind (arith, length-entries size rs runs)
