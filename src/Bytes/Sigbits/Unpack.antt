-- ===== src/Bytes/Sigbits/Unpack.antt =====
-- The decoders of lib/pc_bytes.c on packed words.
use pointcloud.Common.{
  ℕ, suc, ◌+◌, ◌-◌, ◌*◌, ◌/◌, ◌%◌, ◌^◌, ◌<◌, ◌≤◌, ◌≡◌, refl, ap, ◌∙◌, Bool, true, false, ◌==◌, ◌&&◌,
  if◌then◌else◌, List, [], ◌∷◌, ◌++◌, length, arith, length-append, append_assoc, map, All,
}
use pointcloud.Common.Result.{ok}
use pointcloud.Common.Bits.{two_pow_pos, mul-two_pow}
use pointcloud.Bytes.Sigbits.Decode.{Reader, read_value, read_loop}
use pointcloud.Bytes.Sigbits.Pack.{
  pack, pack-more, pack-exact, pack-less, Room-for, more, exact, less, pack_head,
}
use pointcloud.Bytes.Sigbits.ReadValue.{head_at, read-fit, read-cut, lazy_loop}

module _ (eager : Bool) (w n K cv mask : ℕ) (pos : 1 ≤ n) (fits : n ≤ w) (common : cv ≡ K * 2 ^ n)
    (ones : mask ≡ 2 ^ n - 1) where
  abbrev restored : List ℕ → List ℕ
  restored vs = map (λ v. K * 2 ^ n + v) vs

  read_step :
      (rounds v : ℕ) (vs ws ws' : List ℕ) (st st' : Reader)
      → ws ≡ ws'
      → read_value eager w n cv mask ws' st ≡ ok (K * 2 ^ n + v, st')
      → read_loop eager w n cv mask rounds ws st' ≡ ok (restored vs)
      → read_loop eager w n cv mask (suc rounds) ws st ≡ ok (restored (v ∷ vs))
  unfolding read_loop
  read_step rounds v vs ws ws' st st' same e ih = rw ((rw (← same) at e), ih)

  -- Behind a full word the reader is at the next, or will go on as if it were.
  next_word :
      (eager : Bool) (rounds : ℕ) (done : List ℕ) (h : ℕ) (ws : List ℕ)
      → read_loop eager w n cv mask rounds
          (done ++ (h ∷ ws))
          (if eager && true then head_at (length done + 1) w else head_at (length done) 0)
        ≡ read_loop eager w n cv mask rounds
            ((done ++ (h ∷ [])) ++ ws)
            (head_at (length (done ++ (h ∷ []))) w)
  next_word true rounds done h ws = rw (length-append done (h ∷ []), append_assoc done (h ∷ []) ws)
  next_word false rounds done h ws =
      rw (length-append done (h ∷ []), append_assoc done (h ∷ []) ws)
        (lazy_loop w n K cv mask pos fits common ones rounds done h ws)

  -- Unpacking what the packer appended gives the words back, each with its common part.
  pub read_loop-pack :
      (vs done zs : List ℕ) (cur c bit : ℕ)
      → 1 ≤ bit
      → bit ≤ w
      → cur ≡ c * 2 ^ bit
      → All (λ v. v < 2 ^ n) vs
      → read_loop eager w n cv mask
          (length vs)
          (done ++ (pack w n cur bit vs ++ zs))
          (head_at (length done) bit)
        ≡ ok (restored vs)
  read_loop-pack [] done zs cur c bit lo hi e h = unfold read_loop in refl
  read_loop-pack (v ∷ vs) done zs cur c bit lo hi e (hv, h) = elim (Room-for n bit) [
    | more m ↦
        let (x, rest, p, lt) =
          pack_head w n pos fits vs (cur + v * 2 ^ (bit - n)) (bit - n) (omega arith) (omega arith)
            h in
        read_step (length vs) v vs _ (done ++ ((cur + v * 2 ^ (bit - n) + x) ∷ (rest ++ zs))) _ _
          (ap (λ t. done ++ (t ++ zs)) (pack-more w n cur bit v vs m ∙ p))
          (rw (no_end m, ← e) at
            (read-fit eager w n K cv mask pos fits common ones done (rest ++ zs) c bit v x hv
              (omega arith) lt))
          (rw (pack-more w n cur bit v vs m) (
            read_loop-pack vs done zs (cur + v * 2 ^ (bit - n)) (c * 2 ^ n + v) (bit - n)
              (omega arith) (omega arith)
              (omega (arith, e, mul-two_pow c n (bit - n) {j = bit} (omega arith))) h))
    | exact m ↦
        read_step (length vs) v vs _ (done ++ ((cur + v) ∷ (pack w n 0 w vs ++ zs))) _ _
          (ap (λ t. done ++ (t ++ zs)) (pack-exact w n cur bit v vs m))
          (rw (full m, at_end m, none_left m) at
            (read-fit eager w n K cv mask pos fits common ones done (pack w n 0 w vs ++ zs) c bit v
              0 hv (omega arith) (two_pow_pos (bit - n))))
          (rw (pack-exact w n cur bit v vs m) (
            next_word eager (length vs) done (cur + v) (pack w n 0 w vs ++ zs)
            ∙ read_loop-pack vs (done ++ ((cur + v) ∷ [])) zs 0 0 w (omega arith) (omega arith)
                (omega arith) h))
    | less m ↦
        let s = n - bit in
        let (x, rest, p, lt) =
          pack_head w n pos fits vs (v % 2 ^ s * 2 ^ (w - s)) (w - s) (omega arith) (omega arith)
            h in
        read_step (length vs) v vs _
          (done ++ ((cur + v / 2 ^ s) ∷ (v % 2 ^ s * 2 ^ (w - s) + x) ∷ (rest ++ zs))) _ _
          (ap (λ t. done ++ (t ++ zs)) (pack-less w n cur bit v vs m)
            ∙ ap (λ t. done ++ ((cur + v / 2 ^ s) ∷ (t ++ zs))) p)
          (rw (← e) at (
            read-cut eager w n K cv mask pos fits common ones done (rest ++ zs) c bit v x hv lo m
              lt))
          (rw (pack-less w n cur bit v vs m) (
            rw
              (
                length-append done ((cur + v / 2 ^ s) ∷ []),
                append_assoc done ((cur + v / 2 ^ s) ∷ []),
              )
              at
              (read_loop-pack vs (done ++ ((cur + v / 2 ^ s) ∷ [])) zs (v % 2 ^ s * 2 ^ (w - s))
                (v % 2 ^ s) (w - s) (omega arith) (omega arith) refl h)))
  ]
    where
      no_end : n < bit → (eager && bit - n == 0) ≡ false
      no_end m = ground arith

      at_end : n ≡ bit → (bit - n == 0) ≡ true
      at_end m = ground arith

      none_left : n ≡ bit → bit - n ≡ 0
      none_left m = omega arith

      full : n ≡ bit → c * 2 ^ bit + v * 2 ^ (bit - n) + 0 ≡ cur + v
      full m = omega (arith, e, ap (λ (t : ℕ). v * 2 ^ t) (none_left m))
