-- ===== src/Bytes/Flip/Runs.antt =====
-- lib/pc_bytes.c: `pc_bytes_run_length_flip_endian` reverses the bytes of every value.
use pointcloud.Common.{
  ℕ, zero, suc, ◌+◌, ◌/◌, ◌<◌, ◌≤◌, ◌≡◌, ap, ◌∙◌, false, List, [], ◌∷◌, ◌++◌, length, All,
  if◌then◌else◌, arith, length-append, append_assoc, lt→ltb, le→ltb, ==_iff, Bool-cases, inl, inr,
}
use pointcloud.Common.Result.{ok}
use pointcloud.Bytes.{Pcbytes, dim_rle}
use pointcloud.Bytes.Valid.{slice_ok}
use pointcloud.Bytes.Rle.Runs.{Run, IsRun, entries}
use pointcloud.Bytes.Rle.Decode.{IsRle}
use pointcloud.Bytes.Flip.{run_length_flip_loop, writable, run_length_flip_endian}
use pointcloud.Wkb.{swap_loop}
use pointcloud.Wkb.Swap.{reversed, length-reversed, swap_loop-reversed}

-- Every value backwards.
unfoldable pub flip_runs : List Run → List Run
flip_runs [] = []
flip_runs ((n, v) ∷ rs) = (n, reversed v) ∷ flip_runs rs

module _ (size end : ℕ) where
  flip_step :
      (fuel offset : ℕ) (bytes after : List ℕ)
      → offset < end
      → swap_loop (size / 2) size offset 0 bytes ≡ ok after
      → run_length_flip_loop (suc fuel) size end offset bytes
        ≡ run_length_flip_loop fuel size end (offset + size + 1) after
  unfolding run_length_flip_loop
  flip_step fuel offset bytes after h e = rw (run_length_flip_loop, lt→ltb offset end h, e)

  flip_end :
      (fuel offset : ℕ) (bytes : List ℕ)
      → end ≤ offset
      → run_length_flip_loop fuel size end offset bytes ≡ ok bytes
  unfolding run_length_flip_loop
  flip_end zero offset bytes h = rw (le→ltb offset end h)
  flip_end (suc fuel) offset bytes h = rw (run_length_flip_loop, le→ltb offset end h)

  -- The loop, past the entries of `pre`.
  run_length_flip_loop-entries :
      (rs : List Run) (fuel : ℕ) (pre : List ℕ)
      → All (IsRun size) rs
      → 1 ≤ size
      → end ≡ length (pre ++ entries rs)
      → length (entries rs) ≤ fuel
      → run_length_flip_loop fuel size end (length pre + 1) (pre ++ entries rs)
        ≡ ok (pre ++ entries (flip_runs rs))
  unfolding entries flip_runs
  run_length_flip_loop-entries [] fuel pre all pos e f =
      flip_end fuel (length pre + 1) (pre ++ []) (omega (arith, length-append pre []))
  run_length_flip_loop-entries ((m, v) ∷ rs) zero pre all pos e f = absurd (omega arith)
  run_length_flip_loop-entries ((m, v) ∷ rs) (suc fuel) pre ((lo, hi, ev), all) pos e f =
      flip_step fuel (length pre + 1) (pre ++ (m ∷ (v ++ entries rs)))
        ((pre ++ (m ∷ reversed v)) ++ entries rs)
        (omega (arith, length-append pre (m ∷ (v ++ entries rs)), length-append v (entries rs)))
        swapped
      ∙ ap
          (λ (t : ℕ).
            run_length_flip_loop fuel size end t ((pre ++ (m ∷ reversed v)) ++ entries rs))
          (omega (arith, length-append pre (m ∷ reversed v), length-reversed v))
      ∙ run_length_flip_loop-entries rs fuel (pre ++ (m ∷ reversed v)) all pos
          (omega (
            arith,
            length-append pre (m ∷ (v ++ entries rs)),
            length-append v (entries rs),
            length-append (pre ++ (m ∷ reversed v)) (entries rs),
            length-append pre (m ∷ reversed v),
            length-reversed v,
          ))
          (omega (arith, length-append v (entries rs)))
      ∙ ap ok (append_assoc pre (m ∷ reversed v) (entries (flip_runs rs)))
    where
      regroup : (t : List ℕ) → (pre ++ (m ∷ [])) ++ t ≡ pre ++ (m ∷ t)
      regroup t = append_assoc pre (m ∷ []) t

      swapped :
          swap_loop (size / 2) size (length pre + 1) 0 (pre ++ (m ∷ (v ++ entries rs)))
          ≡ ok ((pre ++ (m ∷ reversed v)) ++ entries rs)
      swapped = rw (
        ← length-append pre (m ∷ []),
        ← regroup (v ++ entries rs),
        swap_loop-reversed (pre ++ (m ∷ [])) v (entries rs) size ev,
        regroup (reversed v ++ entries rs),
        append_assoc pre (m ∷ reversed v) (entries rs),
      )

-- A buffer of the entries `rs` and no other bytes, of values of 2 bytes or more.
pub record IsFull (size : ℕ) (rs : List Run) (pcb : Pcbytes) : Type 0 where
  pub is_rle : IsRle size rs pcb
  pub bytes_of : pcb.bytes ≡ entries rs
  pub multibyte : 2 ≤ size
  pub nonempty : 1 ≤ pcb.npoints

writable-IsFull :
    (size : ℕ) (rs : List Run) (pcb : Pcbytes)
    → IsFull size rs pcb
    → writable pcb ≡ ok (record pcb { readonly = false })
unfolding writable
writable-IsFull size rs pcb h = elim (Bool-cases pcb.readonly) [
  | inl t ↦ rw (
    t,
    slice_ok pcb.bytes 0 pcb.size (omega (arith, h.is_rle.filled, ap length h.bytes_of)),
    h.is_rle.holds,
    ← h.bytes_of,
  )
  | inr t ↦ rw t
]

-- Changing the byte order of a run-length encoded buffer of 1 point or more, of 2 bytes or more,
-- returns. The memory of the buffer holds every value backwards then, and the counts as they were. A
-- buffer that is not read-only is returned with that memory; for one that is, the copy that is
-- returned has the bytes as they were.
pub run_length_flip_endian-flip_runs :
    (size : ℕ) (rs : List Run) (pcb : Pcbytes)
    → IsFull size rs pcb
    → run_length_flip_endian pcb
      ≡ ok (
        if pcb.readonly
            then record pcb { readonly = false }
            else record pcb { bytes = entries (flip_runs rs) },
        entries (flip_runs rs),
      )
unfolding run_length_flip_endian
run_length_flip_endian-flip_runs size rs pcb h =
    rw
      (
        h.is_rle.size_of,
        (==_iff pcb.compression dim_rle).1 h.is_rle.encoded,
        lt→ltb 0 pcb.npoints (omega (arith, h.nonempty)),
        le→ltb size 2 h.multibyte,
        writable-IsFull size rs pcb h,
        looped,
      )
      (elim (Bool-cases pcb.readonly) [ inl t ↦ rw t | inr t ↦ rw t ])
  where
    looped : run_length_flip_loop pcb.size size pcb.size 1 pcb.bytes ≡ ok (entries (flip_runs rs))
    looped =
        ap (run_length_flip_loop pcb.size size pcb.size 1) h.bytes_of
        ∙ run_length_flip_loop-entries size pcb.size rs pcb.size [] h.is_rle.runs
            (omega (arith, h.multibyte)) h.is_rle.filled (omega (arith, h.is_rle.filled))
