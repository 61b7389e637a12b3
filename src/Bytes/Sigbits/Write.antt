-- ===== src/Bytes/Sigbits/Write.antt =====
-- The encoder's loop of lib/pc_bytes.c writes what the packer appends, inside its output.
use pointcloud.Common.{
  ℕ, zero, suc, ◌+◌, ◌-◌, ◌*◌, ◌/◌, ◌%◌, ◌^◌, ◌<◌, ◌≤◌, ◌≡◌, refl, sym, ap, ◌∙◌, List, [], ◌∷◌,
  ◌++◌, length, replicate, arith, append_assoc, map,
}
use pointcloud.Common.Result.{Result, ok}
use pointcloud.Common.Bits.{mul-two_pow}
use pointcloud.Bytes.Sigbits.{Writer, write_value, write_loop}
use pointcloud.Bytes.Sigbits.Pack.{
  pack, pack-more, pack-exact, pack-less, Room-for, more, exact, less, length-pack_pos,
}
use pointcloud.Bytes.Sigbits.WriteValue.{head_at, head_at-next, write-more, write-exact, write-less}

-- A run of the loop that ends with the words `ws` and zeros behind them.
abbrev pub Wrote : Result Writer → List ℕ → Type 0
Wrote r ws = (st : Writer) × (z : ℕ) × (r ≡ ok st) × (st.out ≡ ws ++ replicate z 0)

Wrote-of : (r r' : Result Writer) (ws ws' : List ℕ) → r ≡ r' → ws ≡ ws' → Wrote r' ws' → Wrote r ws
Wrote-of r r' ws ws' e f (st, z, p, q) = (st, z, e ∙ p, rw f q)

module _ (w n mask : ℕ) (pos : 1 ≤ n) (fits : n ≤ w) (ones : mask ≡ 2 ^ n - 1) where
  abbrev unique : List ℕ → List ℕ
  unique xs = map (λ x. x % 2 ^ n) xs

  step :
      (x : ℕ) (xs : List ℕ) (st st' : Writer)
      → write_value w n mask st x ≡ ok st'
      → write_loop w n mask (suc (length xs)) (x ∷ xs) st ≡ write_loop w n mask (length xs) xs st'
  unfolding write_loop
  step x xs st st' e = rw e

  module _ (x : ℕ) (xs done : List ℕ) (cur c bit z : ℕ) (e : cur ≡ c * 2 ^ bit) where
    abbrev v : ℕ
    v = x % 2 ^ n

    abbrev s : ℕ
    s = n - bit

    Wrote-more :
        n < bit
        → bit ≤ w
        → Wrote
            (write_loop w n mask
              (length xs)
              xs
              (head_at done (cur + v * 2 ^ (bit - n)) (replicate z 0) (bit - n)))
            (done ++ pack w n (cur + v * 2 ^ (bit - n)) (bit - n) (unique xs))
        → Wrote
            (write_loop w n mask (suc (length xs)) (x ∷ xs) (head_at done cur (replicate z 0) bit))
            (done ++ pack w n cur bit (v ∷ unique xs))
    Wrote-more h hi =
        Wrote-of _ _ _ _
          (step x xs _ _
            (rw (← e) at (write-more w n mask fits ones done (replicate z 0) c bit x h hi)))
          (ap (λ t. done ++ t) (pack-more w n cur bit v (unique xs) h))

    Wrote-exact :
        n ≡ bit
        → bit ≤ w
        → Wrote
            (write_loop w n mask
              (length xs)
              xs
              (head_at (done ++ ((cur + v) ∷ [])) 0 (replicate z 0) w))
            ((done ++ ((cur + v) ∷ [])) ++ pack w n 0 w (unique xs))
        → Wrote
            (write_loop w n mask
              (suc (length xs))
              (x ∷ xs)
              (head_at done cur (replicate (suc z) 0) bit))
            (done ++ pack w n cur bit (v ∷ unique xs))
    Wrote-exact h hi =
        Wrote-of _ _ _ _
          (step x xs _ _ (
            rw (← e) at (write-exact w n mask fits ones done (replicate (suc z) 0) c bit x h hi)
            ∙ ap ok (head_at-next done (cur + v) 0 w (replicate z 0))))
          (ap (λ t. done ++ t) (pack-exact w n cur bit v (unique xs) h)
            ∙ sym (append_assoc done ((cur + v) ∷ []) (pack w n 0 w (unique xs))))

    Wrote-less :
        1 ≤ bit
        → bit < n
        → Wrote
            (write_loop w n mask (length xs) xs (
              head_at
                (done ++ ((cur + v / 2 ^ s) ∷ []))
                (v % 2 ^ s * 2 ^ (w - s))
                (replicate z 0)
                (w - s)))
            ((done ++ ((cur + v / 2 ^ s) ∷ []))
              ++ pack w n (v % 2 ^ s * 2 ^ (w - s)) (w - s) (unique xs))
        → Wrote
            (write_loop w n mask
              (suc (length xs))
              (x ∷ xs)
              (head_at done cur (replicate (suc z) 0) bit))
            (done ++ pack w n cur bit (v ∷ unique xs))
    Wrote-less lo h =
        Wrote-of _ _ _ _
          (step x xs _ _ (
            rw (← e) at (write-less w n mask fits ones done (replicate z 0) c bit x lo h)
            ∙ ap ok (head_at-next done (cur + v / 2 ^ s) _ (w - s) (replicate z 0))))
          (ap (λ t. done ++ t) (pack-less w n cur bit v (unique xs) h)
            ∙ sym (append_assoc done ((cur + v / 2 ^ s) ∷ []) _))

  next_free :
      (c bit v : ℕ) {cur : ℕ}
      → cur ≡ c * 2 ^ bit
      → n < bit
      → cur + v * 2 ^ (bit - n) ≡ (c * 2 ^ n + v) * 2 ^ (bit - n)
  next_free c bit v e h = omega (arith, e, mul-two_pow c n (bit - n) {j = bit} (omega arith))

  -- With room for the packed words, the loop ends and has written them behind `done`.
  pub write_loop-pack :
      (xs done : List ℕ) (cur c bit z : ℕ)
      → 1 ≤ bit
      → bit ≤ w
      → cur ≡ c * 2 ^ bit
      → length (pack w n cur bit (unique xs)) ≤ z + 1
      → Wrote
          (write_loop w n mask (length xs) xs (head_at done cur (replicate z 0) bit))
          (done ++ pack w n cur bit (unique xs))
  write_loop-pack [] done cur c bit z lo hi e room = (
    head_at done cur (replicate z 0) bit,
    z,
    unfold write_loop in refl,
    unfold pack in sym (append_assoc done (cur ∷ []) (replicate z 0)),
  )
  write_loop-pack (x ∷ xs) done cur c bit zero lo hi e room = elim (Room-for n bit) [
    | more h ↦ Wrote-more x xs done cur c bit zero e h hi (
        write_loop-pack xs done _ (c * 2 ^ n + x % 2 ^ n) (bit - n) zero (omega arith) (omega arith)
          (next_free c bit (x % 2 ^ n) e h)
          (rw (pack-more w n cur bit (x % 2 ^ n) (unique xs) h) at room))
    | exact h ↦ absurd (
        omega (
          arith,
          ap length (pack-exact w n cur bit (x % 2 ^ n) (unique xs) h),
          length-pack_pos w n 0 w (unique xs),
        ))
    | less h ↦ absurd (
        omega (
          arith,
          ap length (pack-less w n cur bit (x % 2 ^ n) (unique xs) h),
          length-pack_pos w n (x % 2 ^ n % 2 ^ (n - bit) * 2 ^ (w - (n - bit))) (w - (n - bit))
              (unique xs),
        ))
  ]
  write_loop-pack (x ∷ xs) done cur c bit (suc z) lo hi e room = elim (Room-for n bit) [
    | more h ↦ Wrote-more x xs done cur c bit (suc z) e h hi (
        write_loop-pack xs done _ (c * 2 ^ n + x % 2 ^ n) (bit - n) (suc z) (omega arith)
          (omega arith) (next_free c bit (x % 2 ^ n) e h)
          (rw (pack-more w n cur bit (x % 2 ^ n) (unique xs) h) at room))
    | exact h ↦ Wrote-exact x xs done cur c bit z e h hi (
        write_loop-pack xs _ 0 0 w z (omega arith) (omega arith) (omega arith)
          (omega (arith, ap length (pack-exact w n cur bit (x % 2 ^ n) (unique xs) h))))
    | less h ↦ Wrote-less x xs done cur c bit z e lo h (
        write_loop-pack xs _ _ (x % 2 ^ n % 2 ^ (n - bit)) (w - (n - bit)) z (omega arith)
          (omega arith) refl
          (omega (arith, ap length (pack-less w n cur bit (x % 2 ^ n) (unique xs) h))))
  ]
