-- ===== src/Bytes/Rle/Returns.antt =====
-- lib/pc_bytes.c: `pc_bytes_run_count` reads within the buffer.
use native.Mathlib.Nat.{mul-le-mul_right}
use pointcloud.Common.{
  ℕ, zero, suc, ◌+◌, ◌-◌, ◌*◌, ◌^◌, ◌<◌, ◌≤◌, ◌≡◌, refl, ap, if◌then◌else◌, List, length, arith,
}
use pointcloud.Common.Result.{ok, counts_to_ok}
use pointcloud.Bytes.{Pcbytes, element, bytes_eq, u32}
use pointcloud.Bytes.Valid.{IsRaw, slice_ok}
use pointcloud.Bytes.Rle.{run_count_loop, run_count}

element_returns :
    (size i : ℕ) (bytes : List ℕ)
    → (i + 1) * size ≤ length bytes
    → (v : List ℕ) × (element size bytes i ≡ ok v)
unfolding element
element_returns size i bytes h = (_, slice_ok bytes (i * size) size (omega arith))

run_count_loop_returns :
    (size : ℕ) (bytes : List ℕ) (rounds i runcount : ℕ)
    → 1 ≤ i
    → (i + rounds) * size ≤ length bytes
    → (n : ℕ) × (run_count_loop size bytes rounds i runcount ≡ ok n)
unfolding run_count_loop
run_count_loop_returns size bytes zero i runcount pos h = (runcount, refl)
run_count_loop_returns size bytes (suc rounds) i runcount pos h =
    let before : (i - 1 + 1) * size ≤ length bytes =
      omega (arith, mul-le-mul_right {m = i - 1 + 1} {n = i + suc rounds} size (omega arith)) in
    let here : (i + 1) * size ≤ length bytes =
      omega (arith, mul-le-mul_right {m = i + 1} {n = i + suc rounds} size (omega arith)) in
    let (v, read) = element_returns size (i - 1) bytes before in
    let (w, read') = element_returns size i bytes here in
    let (n, rest) =
      run_count_loop_returns size bytes rounds (i + 1)
        (if bytes_eq v w then runcount else u32 (runcount + 1)) (omega arith)
        (omega (arith, ap (λ (t : ℕ). t * size) (shift i rounds))) in
    (n, rw (read, read') rest)
  where
    shift : (i rounds : ℕ) → i + 1 + rounds ≡ i + suc rounds
    shift i rounds = omega arith

module _ (size : ℕ) (pcb : Pcbytes) (raw : IsRaw size pcb) (nonempty : 1 ≤ pcb.npoints)
    (few : pcb.npoints < 2 ^ 31) where
  pub run_count_returns : (n : ℕ) × (run_count pcb ≡ ok n)
  unfolding run_count
  run_count_returns =
      let (n, counted) =
        run_count_loop_returns size pcb.bytes (pcb.npoints - 1) 1 1 (omega arith)
          (omega (arith, raw.allocated, ap (λ (t : ℕ). t * size) (whole pcb.npoints nonempty))) in
      (n, rw (raw.size_of, counts_to_ok pcb.npoints few) counted)
    where
      whole : (n : ℕ) → 1 ≤ n → 1 + (n - 1) ≡ n
      whole n h = omega arith
