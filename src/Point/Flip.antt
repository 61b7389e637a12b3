-- ===== src/Point/Flip.antt =====
-- lib/pc_util.c: changing the byte order of uncompressed points, by `uncompressed_bytes_flip_endian`.
use pointcloud.Common.{
  ℕ, zero, suc, ◌+◌, ◌*◌, ◌/◌, ◌%◌, ◌^◌, ◌≤◌, ◌<◌, ◌≡◌, refl, sym, ap, ap₂, ◌∙◌, true, List, [],
  ◌∷◌, ◌++◌, length, take, drop, Option, none, some, arith, length-append, length-take, length-drop,
  take-append, drop-append, take-append-drop, append_assoc, take-take_le, drop-take,
}
use pointcloud.Common.Result.{Result, ok, ◌>>=◌, ◌>>◌, counts_to, counts_to_ok}
use pointcloud.Bytes.{slice}
use pointcloud.Bytes.Valid.{slice_ok}
use pointcloud.Wkb.{swap_loop}
use pointcloud.Wkb.Swap.{reversed, reversed-reversed, length-reversed, swap_loop-reversed}
use pointcloud.Schema.{Dimension, Schema}
use pointcloud.Schema.Offsets.{width, total_width, laid_out}
use pointcloud.Schema.Fields.{IsLaid}
use pointcloud.Schema.Compare.{followed}
use pointcloud.Schema.Xyzm.{all_dimensions}

module _ {ℓ} {D : Type ℓ} where
  -- The loop over the dimensions of the point at `base`.
  unfoldable pub flip_dimensions : ℕ → List (Option (Dimension D)) → List ℕ → Result (List ℕ)
  flip_dimensions base [] buf = ok buf
  flip_dimensions base (x ∷ dims) buf = do
    dimension ← followed x
    buf' ← swap_loop (dimension.size / 2) dimension.size (base + dimension.byteoffset) 0 buf
    flip_dimensions base dims buf'

module _ {ℓ} {D T : Type ℓ} where
  -- The loop over the points from `i` on. The variable ends at the number of the points, before the
  -- greatest `int`.
  unfoldable pub flip_points : Schema D T → ℕ → ℕ → List ℕ → Result (List ℕ)
  unfolding flip_dimensions
  flip_points schema zero i buf = ok buf
  flip_points schema (suc rounds) i buf = do
    buf' ← flip_dimensions (i * schema.size) schema.dims buf
    flip_points schema rounds (i + 1) buf'

  unfoldable pub uncompressed_bytes_flip_endian : List ℕ → Schema D T → ℕ → Result (List ℕ)
  unfolding flip_points
  uncompressed_bytes_flip_endian bytebuf schema npoints = do
    buf ← slice bytebuf 0 (schema.size * npoints % 2 ^ 64)
    counts_to npoints
    flip_points schema npoints 0 buf

module _ {ℓ} {D : Type ℓ} where
  -- A point with the bytes of each value backwards.
  unfoldable pub flipped : List (Option (Dimension D)) → List ℕ → List ℕ
  flipped [] bytes = bytes
  flipped (none ∷ dims) bytes = flipped dims bytes
  flipped (some d ∷ dims) bytes =
      reversed (take (width d.interpretation) bytes)
      ++ flipped dims (drop (width d.interpretation) bytes)

  pub length-flipped :
      (dims : List (Option (Dimension D))) (bytes : List ℕ)
      → length (flipped dims bytes) ≡ length bytes
  unfolding flipped
  length-flipped [] bytes = refl
  length-flipped (none ∷ dims) bytes = length-flipped dims bytes
  length-flipped (some d ∷ dims) bytes = omega (
    arith,
    length-append (reversed (take (width d.interpretation) bytes))
        (flipped dims (drop (width d.interpretation) bytes)),
    length-reversed (take (width d.interpretation) bytes),
    length-take (width d.interpretation) bytes,
    length-drop (width d.interpretation) bytes,
    length-flipped dims (drop (width d.interpretation) bytes),
  )

  pub flipped-flipped :
      (dims : List (Option (Dimension D))) (bytes : List ℕ)
      → total_width dims ≤ length bytes
      → flipped dims (flipped dims bytes) ≡ bytes
  unfolding flipped total_width
  flipped-flipped [] bytes h = refl
  flipped-flipped (none ∷ dims) bytes h = flipped-flipped dims bytes h
  flipped-flipped (some d ∷ dims) bytes h =
      ap₂ (λ a b. reversed a ++ flipped dims b) first rest
      ∙ ap₂ ◌++◌ (reversed-reversed (take w bytes))
          (flipped-flipped dims (drop w bytes) (omega (arith, length-drop w bytes)))
      ∙ take-append-drop w bytes
    where
      w : ℕ
      w = width d.interpretation

      wide : length (reversed (take w bytes)) ≡ w
      wide = omega (arith, length-reversed (take w bytes), length-take w bytes)

      first :
          take w (reversed (take w bytes) ++ flipped dims (drop w bytes)) ≡ reversed (take w bytes)
      first = rw wide at (take-append (reversed (take w bytes)) (flipped dims (drop w bytes)))

      rest :
          drop w (reversed (take w bytes) ++ flipped dims (drop w bytes))
          ≡ flipped dims (drop w bytes)
      rest = rw wide at (drop-append (reversed (take w bytes)) (flipped dims (drop w bytes)))

  flip_dimensions-flipped :
      (base start : ℕ) (dims : List (Option (Dimension D))) (pre bytes post : List ℕ)
      → all_dimensions dims ≡ true
      → length pre ≡ base + start
      → length bytes ≡ total_width dims
      → flip_dimensions base (laid_out start dims) (pre ++ (bytes ++ post))
        ≡ ok (pre ++ (flipped dims bytes ++ post))
  unfolding flip_dimensions laid_out flipped total_width all_dimensions
  flip_dimensions-flipped base start [] pre bytes post a p b = refl
  flip_dimensions-flipped base start (none ∷ dims) pre bytes post a p b = cc
  flip_dimensions-flipped base start (some d ∷ dims) pre bytes post a p b =
      ap (λ m. m >>= flip_dimensions base (laid_out (start + w) dims)) swapped
      ∙ flip_dimensions-flipped base (start + w) dims (pre ++ reversed (take w bytes))
          (drop w bytes) post a at (omega (arith, length-drop w bytes))
      ∙ ap ok (
          append_assoc pre (reversed (take w bytes)) (flipped dims (drop w bytes) ++ post)
          ∙ ap (λ t. pre ++ t)
              (sym (append_assoc (reversed (take w bytes)) (flipped dims (drop w bytes)) post)))
    where
      w : ℕ
      w = width d.interpretation

      wide : length (take w bytes) ≡ w
      wide = omega (arith, length-take w bytes)

      at : length (pre ++ reversed (take w bytes)) ≡ base + (start + w)
      at =
          omega (
            arith,
            length-append pre (reversed (take w bytes)),
            length-reversed (take w bytes),
            wide,
          )

      split : bytes ++ post ≡ take w bytes ++ (drop w bytes ++ post)
      split =
          ap (λ t. t ++ post) (sym (take-append-drop w bytes))
          ∙ append_assoc (take w bytes) (drop w bytes) post

      swapped :
          swap_loop (w / 2) w (base + start) 0 (pre ++ (bytes ++ post))
          ≡ ok ((pre ++ reversed (take w bytes)) ++ (drop w bytes ++ post))
      swapped =
          ap₂ (λ (o : ℕ) (t : List ℕ). swap_loop (w / 2) w o 0 (pre ++ t)) (sym p) split
          ∙ swap_loop-reversed pre (take w bytes) (drop w bytes ++ post) w wide
          ∙ ap ok (sym (append_assoc pre (reversed (take w bytes)) (drop w bytes ++ post)))

module _ {ℓ} {D T : Type ℓ} (schema : Schema D T) where
  -- As many points, each flipped, and nothing behind them.
  unfoldable pub all_flipped : ℕ → List ℕ → List ℕ
  all_flipped zero bytes = []
  all_flipped (suc n) bytes =
      flipped schema.dims (take schema.size bytes) ++ all_flipped n (drop schema.size bytes)

  -- Only the bytes of the points count.
  all_flipped-take :
      (n : ℕ) (bytes : List ℕ)
      → n * schema.size ≤ length bytes
      → all_flipped n (take (n * schema.size) bytes) ≡ all_flipped n bytes
  unfolding all_flipped
  all_flipped-take zero bytes h = refl
  all_flipped-take (suc n) bytes h =
      ap₂ (λ a b. flipped schema.dims a ++ b)
        (take-take_le schema.size (suc n * schema.size) bytes (omega arith))
        (ap (all_flipped n) (
            ap (λ (k : ℕ). drop schema.size (take k bytes)) (omega arith)
            ∙ drop-take schema.size (n * schema.size) bytes)
          ∙ all_flipped-take n (drop schema.size bytes)
              (omega (arith, length-drop schema.size bytes)))

  module _ (laid : IsLaid schema) (full : all_dimensions schema.dims ≡ true) where
    flip_points-all_flipped :
        (n i : ℕ) (pre bytes : List ℕ)
        → length pre ≡ i * schema.size
        → length bytes ≡ n * schema.size
        → flip_points schema n i (pre ++ bytes) ≡ ok (pre ++ all_flipped n bytes)
    unfolding flip_points all_flipped
    flip_points-all_flipped zero i pre [] p b = refl
    flip_points-all_flipped zero i pre (x ∷ bytes) p b = absurd (omega arith)
    flip_points-all_flipped (suc n) i pre bytes p b =
        ap (λ m. m >>= flip_points schema n (i + 1)) one
        ∙ flip_points-all_flipped n (i + 1) (pre ++ flipped schema.dims head) (drop size bytes)
            (omega (
              arith,
              length-append pre (flipped schema.dims head),
              length-flipped schema.dims head,
              wide,
            ))
            (omega (arith, length-drop size bytes))
        ∙ ap ok (append_assoc pre (flipped schema.dims head) (all_flipped n (drop size bytes)))
      where
        size : ℕ
        size = schema.size

        head : List ℕ
        head = take size bytes

        wide : length head ≡ size
        wide = omega (arith, length-take size bytes)

        one :
            flip_dimensions (i * size) schema.dims (pre ++ bytes)
            ≡ ok ((pre ++ flipped schema.dims head) ++ drop size bytes)
        one =
            ap₂
              (λ (d : List (Option (Dimension D))) (t : List ℕ).
                flip_dimensions (i * size) d (pre ++ t))
              (sym laid.placed) (sym (take-append-drop size bytes))
            ∙ flip_dimensions-flipped (i * size) 0 schema.dims pre head (drop size bytes) full
                (omega arith) (wide ∙ laid.sized)
            ∙ ap ok (sym (append_assoc pre (flipped schema.dims head) (drop size bytes)))

    -- Changing the byte order of points returns as many points, in each of which the bytes of every
    -- value stand backwards where the value stood. The schema has all its dimensions and its offsets
    -- are calculated; there are fewer than 2^31 points, whose bytes are there, fewer than 2^64.
    pub uncompressed_bytes_flip_endian-all_flipped :
        (n : ℕ) (bytes : List ℕ)
        → n < 2 ^ 31
        → n * schema.size ≤ length bytes
        → length bytes < 2 ^ 64
        → uncompressed_bytes_flip_endian bytes schema n ≡ ok (all_flipped n bytes)
    unfolding uncompressed_bytes_flip_endian
    uncompressed_bytes_flip_endian-all_flipped n bytes few h small =
        ap (λ (k : ℕ). slice bytes 0 k >>= λ buf. counts_to n >> flip_points schema n 0 buf) whole
        ∙ ap (λ r. r >>= λ buf. counts_to n >> flip_points schema n 0 buf)
            (slice_ok bytes 0 (n * schema.size) (omega arith))
        ∙ ap (λ r. r >> flip_points schema n 0 (take (n * schema.size) bytes)) (counts_to_ok n few)
        ∙ flip_points-all_flipped n 0 [] (take (n * schema.size) bytes) (omega arith)
            (omega (arith, length-take (n * schema.size) bytes))
        ∙ ap ok (all_flipped-take n bytes h)
      where
        whole : schema.size * n % 2 ^ 64 ≡ n * schema.size
        whole = omega arith
