-- ===== src/Bytes/Sigbits/At.antt =====
-- lib/pc_bytes.c: reading a value at its bit offset is reading it in turn.
use pointcloud.Common.{
  ℕ, zero, suc, ◌+◌, ◌-◌, ◌*◌, ◌/◌, ◌%◌, ◌<◌, ◌≤◌, ◌≡◌, refl, sym, ap, ap₂, ◌∙◌, true, false, ◌==◌,
  leb, if◌then◌else◌, List, [], ◌∷◌, get_elem?, arith, some, Option-cases, Bool-cases, inl, inr,
  leb→le,
}
use pointcloud.Common.Result.{ok, Result-cases, ◌>>=◌, ok_injective, some_injective}
use pointcloud.Common.Bits.{bit_or_comm, div_unique, mod_unique}
use pointcloud.Bytes.Sigbits.Decode.{Reader, read_value, read_loop, read_at}
use native.Mathlib.Nat.{div-add-mod', mod-lt}

abbrev pub reader : ℕ → ℕ → Reader
reader at bit = record { at = at; bit = bit }

-- Where the reader stands at a bit offset.
abbrev pub stand : ℕ → ℕ → Reader
stand w off = reader (2 + off / w) (w - off % w)

abbrev next : ℕ → ℕ → Reader → Reader
next w n st =
    if leb n st.bit
    then (if st.bit - n == 0
        then record { at = st.at + 1; bit = w }
        else record { at = st.at; bit = st.bit - n })
    else record { at = st.at + 1; bit = w - (n - st.bit) }

module _ (w n : ℕ) (pos : 1 ≤ w) (fits : n ≤ w) (off : ℕ) where
  cut : off ≡ off / w * w + off % w
  cut = omega (arith, div-add-mod' off w)

  left : off % w < w
  left = mod-lt off pos

  same_word : off % w + n < w → ((off + n) / w ≡ off / w) × ((off + n) % w ≡ off % w + n)
  same_word h = (
    div_unique (off + n) (off / w) w (off % w + n) (omega (arith, cut)) h,
    mod_unique (off + n) (off / w) w (off % w + n) (omega (arith, cut)) h,
  )

  next_one : w ≤ off % w + n → ((off + n) / w ≡ off / w + 1) × ((off + n) % w ≡ off % w + n - w)
  next_one h = (
    div_unique (off + n) (off / w + 1) w (off % w + n - w) (omega (arith, cut))
        (omega (arith, left)),
    mod_unique (off + n) (off / w + 1) w (off % w + n - w) (omega (arith, cut))
        (omega (arith, left)),
  )

  next-stand : next w n (stand w off) ≡ stand w (off + n)
  next-stand = elim (Bool-cases (leb n (w - off % w))) [
    | inl t ↦ elim (Bool-cases (w - off % w - n == 0)) [
      | inl z ↦
          let (q, r) = next_one (ground (arith, left)) in
          rw (t, z) (ap₂ reader (omega (arith, q)) (ground (arith, r, left, fits)))
      | inr z ↦
          let (q, r) = same_word (ground (arith, left)) in
          rw (t, z) (ap₂ reader (omega (arith, q)) (ground (arith, r, left)))
    ]
    | inr t ↦
        let (q, r) = next_one (ground (arith, left)) in
        rw t (ap₂ reader (omega (arith, q)) (ground (arith, r, left, fits)))
  ]

  -- The code's way of reading at an offset.
  pub read_at-read_value :
      (cv mask : ℕ) (ws : List ℕ)
      → read_at w n cv mask ws off
        ≡ (read_value true w n cv mask ws (stand w off) >>= λ r. ok (r.0))
  unfolding read_at read_value
  read_at-read_value cv mask ws = elim (Option-cases (get_elem? ws (2 + off / w))) [
    | inl e ↦ elim (Bool-cases (leb n (w - off % w))) [ inl t ↦ rw (e, t) | inr t ↦ rw (e, t) ]
    | inr (val, e) ↦ elim (Bool-cases (leb n (w - off % w))) [
      | inl t ↦ rw (e, t, used_low t, low (leb→le n (w - off % w) t)) (ap ok (bit_or_comm cv _))
      | inr t ↦
          rw (e, t, used_high t, high_left (above t), bit_or_comm cv)
            (elim (Option-cases (get_elem? ws (2 + off / w + 1))) [
              | inl none_left ↦ rw none_left
              | inr (more, found) ↦ rw (found, high_right (above t))
            ])
    ]
  ]
    where
      above : leb n (w - off % w) ≡ false → w - off % w < n
      above t = ground arith

      used_low : leb n (w - off % w) ≡ true → leb (off % w + n) w ≡ true
      used_low t = ground (arith, left)

      used_high : leb n (w - off % w) ≡ false → leb (off % w + n) w ≡ false
      used_high t = ground (arith, left)

      low : n ≤ w - off % w → w - (off % w + n) ≡ w - off % w - n
      low h = omega (arith, left)

      high_left : w - off % w < n → off % w + n - w ≡ n - (w - off % w)
      high_left h = omega (arith, left)

      high_right : w - off % w < n → w + w - (off % w + n) ≡ w - (n - (w - off % w))
      high_right h = omega (arith, left)

-- The reader moves on by the number of bits.
module _ (w n cv mask : ℕ) (ws : List ℕ) where
  read_value-next :
      (st : Reader)
      → read_value true w n cv mask ws st
        ≡ (read_value true w n cv mask ws st >>= λ r. ok (r.0, next w n st))
  unfolding read_value
  read_value-next st = elim (Option-cases (get_elem? ws st.at)) [
    | inl e ↦ elim (Bool-cases (leb n st.bit)) [ inl t ↦ rw (e, t) | inr t ↦ rw (e, t) ]
    | inr (val, e) ↦ elim (Bool-cases (leb n st.bit)) [
      | inl t ↦ rw (e, t)
      | inr t ↦ elim (Option-cases (get_elem? ws (st.at + 1))) [
        | inl none_left ↦ rw (e, t, none_left)
        | inr (more, found) ↦ rw (e, t, found)
      ]
    ]
  ]

nothing_at {ℓ} : {A : Type ℓ} (i : ℕ) (x : A) → ¬ (get_elem? {A = A} [] i ≡ some x)
nothing_at zero x e = cc
nothing_at (suc i) x e = cc

-- What the loop reads as value `i` stands at the offset of `i` values.
module _ (w n cv mask : ℕ) (ws : List ℕ) (pos : 1 ≤ w) (fits : n ≤ w) where
  nth_step :
      (off v x : ℕ) (more : List ℕ) (i : ℕ)
      → get_elem? (v ∷ more) i ≡ some x
      → read_at w n cv mask ws off ≡ ok v
      → ((j : ℕ) → get_elem? more j ≡ some x → read_at w n cv mask ws (off + n + j * n) ≡ ok x)
      → read_at w n cv mask ws (off + i * n) ≡ ok x
  nth_step off v x more zero g now later =
      ap (read_at w n cv mask ws) (omega arith) ∙ now ∙ ap ok (some_injective g)
  nth_step off v x more (suc i) g now later = ap (read_at w n cv mask ws) (omega arith) ∙ later i g

  pub read_loop-nth :
      (rounds off : ℕ) (xs : List ℕ)
      → read_loop true w n cv mask rounds ws (stand w off) ≡ ok xs
      → (i x : ℕ) → get_elem? xs i ≡ some x
      → read_at w n cv mask ws (off + i * n) ≡ ok x
  unfolding read_loop
  read_loop-nth zero off xs e i x g = absurd (nothing_at i x (rw (← ok_injective e) at g))
  read_loop-nth (suc rounds) off xs e i x g =
      elim (Result-cases (read_value true w n cv mask ws (stand w off))) [
        | inr (f, p) ↦ let fails = rw p at e in cc
        | inl ((v, st), p) ↦ elim (Result-cases (read_loop true w n cv mask rounds ws st)) [
          | inr (f, q) ↦ let fails = rw (p, q) at e in cc
          | inl (more, q) ↦
              nth_step off v x more i (rw (← ok_injective (rw (p, q) at e)) at g)
                (read_at-read_value w n pos fits off cv mask ws ∙ rw p refl)
                (λ j found.
                  read_loop-nth rounds (off + n) more
                    (ap (read_loop true w n cv mask rounds ws) (sym (moved v st p)) ∙ q) j x found)
        ]
      ]
    where
      moved :
          (v : ℕ) (st : Reader)
          → read_value true w n cv mask ws (stand w off) ≡ ok (v, st)
          → st ≡ stand w (off + n)
      moved v st p =
          ap (λ (r : ℕ × Reader). r.1)
            (ok_injective (
              sym p
              ∙ read_value-next w n cv mask ws (stand w off)
              ∙ ap (λ t. t >>= λ r. ok (r.0, next w n (stand w off))) p))
          ∙ next-stand w n pos fits off
