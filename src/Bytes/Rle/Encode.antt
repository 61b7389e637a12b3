-- ===== src/Bytes/Rle/Encode.antt =====
-- What `run_length_encode` writes.
use pointcloud.Common.{
  ℕ, suc, ◌+◌, ◌*◌, ◌^◌, ◌<◌, ◌≤◌, ◌≡◌, refl, false, ◌&&◌, ltb, List, [], ◌∷◌, length, All, arith,
  Bool-cases, inl, inr, lt→ltb, le→ltb,
}
use pointcloud.Common.Result.{ok, counts_to_ok}
use pointcloud.Bytes.{Pcbytes, bytes_eq, element, dim_rle}
use pointcloud.Bytes.Valid.{IsRaw, Elements, chunks, chunks-Elements, chunks-wide, length-chunks}
use pointcloud.Bytes.Rle.{run_continues, run_length_encode_loop, run_length_encode}
use pointcloud.Bytes.Rle.Runs.{entries, runs_from, runs_of}

module _ (size npoints : ℕ) (bytes : List ℕ) where
  run_continues_lem :
      (i start len : ℕ) (v x : List ℕ)
      → i < npoints
      → element size bytes start ≡ ok v
      → element size bytes i ≡ ok x
      → run_continues size npoints bytes i start len ≡ ok (ltb len 255 && bytes_eq v x)
  unfolding run_continues
  run_continues_lem i start len v x h ev ex = elim (Bool-cases (ltb len 255)) [
    | inl t ↦ rw (lt→ltb i npoints h, t, ev, ex)
    | inr t ↦ rw (lt→ltb i npoints h, t)
  ]

  -- From point `i` on, with `len` points of value `v` pending, the loop writes the runs.
  encode_loop-entries :
      (xs : List (List ℕ)) (i start len : ℕ) (v : List ℕ)
      → i + length xs ≡ npoints
      → element size bytes start ≡ ok v
      → Elements size bytes i xs
      → run_length_encode_loop size npoints bytes (suc (length xs)) i start len
        ≡ ok (entries (runs_from v len xs))
  unfolding run_length_encode_loop entries runs_from
  encode_loop-entries [] i start len v e ev h = rw (stop, ev)
    where
      stop : run_continues size npoints bytes i start len ≡ ok false
      stop = unfold run_continues in rw (le→ltb i npoints (omega arith))
  encode_loop-entries (x ∷ xs) i start len v e ev (ex, h) =
      rw (run_continues_lem i start len v x (omega arith) ev ex)
        (elim (Bool-cases (ltb len 255 && bytes_eq v x)) [
          | inl t ↦ rw t (encode_loop-entries xs (i + 1) start (len + 1) v (omega arith) ev h)
          | inr t ↦ rw (t, ev, encode_loop-entries xs (i + 1) i 1 x (omega arith) ex h)
        ])

encode_all :
    (size n : ℕ) (bytes : List ℕ) (vs : List (List ℕ))
    → length vs ≡ n
    → Elements size bytes 0 vs
    → run_length_encode_loop size n bytes n 1 0 1 ≡ ok (entries (runs_of vs))
unfolding runs_of
encode_all size n bytes [] e h = rw (← e) (unfold run_length_encode_loop entries in refl)
encode_all size n bytes (v ∷ vs) e (ev, h) =
    rw (← e)
      (encode_loop-entries size (suc (length vs)) bytes vs 1 0 1 v (omega arith) ev (rw one at h))
  where
    one : 0 + 1 ≡ 1
    one = refl

-- The values of a buffer.
unfoldable pub values : ℕ → Pcbytes → List (List ℕ)
unfolding chunks
values size pcb = chunks size pcb.npoints pcb.bytes

abbrev pub encoded : ℕ → Pcbytes → Pcbytes
encoded size pcb = record pcb {
  size = length (entries (runs_of (values size pcb)));
  compression = dim_rle;
  readonly = false;
  bytes = entries (runs_of (values size pcb));
}

module _ (size : ℕ) (pcb : Pcbytes) (raw : IsRaw size pcb) where
  pub values-Elements : Elements size pcb.bytes 0 (values size pcb)
  unfolding values
  values-Elements = rw (zero_mul) at (chunks-Elements size pcb.bytes pcb.npoints 0 fits)
    where
      zero_mul : 0 * size ≡ 0
      zero_mul = omega arith

      fits : (0 + pcb.npoints) * size ≤ length pcb.bytes
      fits = omega (arith, raw.allocated)

  pub length-values : length (values size pcb) ≡ pcb.npoints
  unfolding values
  length-values = length-chunks size pcb.npoints pcb.bytes

  pub values-wide : All (λ v. length v ≡ size) (values size pcb)
  unfolding values
  values-wide = chunks-wide size pcb.npoints pcb.bytes (omega (arith, raw.allocated))

  -- The encoder returns the entries of the runs of the values, if its `int` does not overflow.
  pub run_length_encode_lem :
      pcb.npoints + 1 < 2 ^ 31 → run_length_encode pcb ≡ ok (encoded size pcb)
  unfolding run_length_encode
  run_length_encode_lem few = rw (
    raw.size_of,
    counts_to_ok (pcb.npoints + 1) few,
    encode_all size pcb.npoints pcb.bytes (values size pcb) length-values values-Elements,
  )
