-- ===== src/Bytes/Sigbits/Count.antt =====
-- What `pc_bytes_sigbits_count_N` of lib/pc_bytes.c counts.
use pointcloud.Common.{
  ℕ, zero, suc, ◌+◌, ◌-◌, ◌*◌, ◌/◌, ◌%◌, ◌^◌, ◌<◌, ◌≤◌, ◌≡◌, ◌≢◌, refl, sym, ap, ap₂, ◌∙◌, bit_and,
  bit_or, false, ◌==◌, List, [], ◌∷◌, length, arith, All, All-zip, Bool-cases, inl, inr, ==_iff,
}
use pointcloud.Common.Result.{Result, ok, counts_to_ok}
use pointcloud.Common.Bits.{
  two_pow-suc, bit_and-le, le-bit_or, bit_and-shift, bit_or-shift, bit_and_self, bit_or_self,
  bit_or-lt, div-two_pow-suc, div-two_pow-zero, div_mono,
}
use pointcloud.Bytes.{Pcbytes, u32}
use pointcloud.Bytes.Words.{words_in}
use pointcloud.Bytes.Sigbits.{and_or_loop, common_loop, sigbits_count_word}
use mathlib.Core.Path.{subst}
use native.Mathlib.Nat.{mod-eq_of_lt, div-mul-le_self}

unfoldable pub and_all : ℕ → List ℕ → ℕ
and_all a [] = a
and_all a (x ∷ xs) = and_all (bit_and a x) xs

unfoldable pub or_all : ℕ → List ℕ → ℕ
or_all o [] = o
or_all o (x ∷ xs) = or_all (bit_or o x) xs

and_or_loop_lem :
    (xs : List ℕ) (a o : ℕ) → and_or_loop (length xs) xs a o ≡ ok (and_all a xs, or_all o xs)
unfolding and_or_loop and_all or_all
and_or_loop_lem [] a o = refl
and_or_loop_lem (x ∷ xs) a o = and_or_loop_lem xs (bit_and a x) (bit_or o x)

-- All words lie between the two results.
and_all-le : (xs : List ℕ) (a : ℕ) → (and_all a xs ≤ a) × All (λ x. and_all a xs ≤ x) xs
unfolding and_all
and_all-le [] a = (omega arith, tt)
and_all-le (x ∷ xs) a =
    let (h, hs) = and_all-le xs (bit_and a x) in
    (omega (arith, h, bit_and-le a x), (omega (arith, h, bit_and-le a x), hs))

le-or_all : (xs : List ℕ) (o : ℕ) → (o ≤ or_all o xs) × All (λ x. x ≤ or_all o xs) xs
unfolding or_all
le-or_all [] o = (omega arith, tt)
le-or_all (x ∷ xs) o =
    let (h, hs) = le-or_all xs (bit_or o x) in
    (omega (arith, h, le-bit_or o x), (omega (arith, h, le-bit_or o x), hs))

or_all-lt :
    (w : ℕ) (xs : List ℕ) (o : ℕ) → o < 2 ^ w → All (λ x. x < 2 ^ w) xs → or_all o xs < 2 ^ w
unfolding or_all
or_all-lt w [] o h hs = h
or_all-lt w (x ∷ xs) o h (hx, hs) = or_all-lt w xs (bit_or o x) (bit_or-lt w o x h hx) hs

-- Bits that all words share are bits of both results.
module _ (s q : ℕ) where
  and_all-shared :
      (xs : List ℕ) (a : ℕ) → a / 2 ^ s ≡ q → All (λ x. x / 2 ^ s ≡ q) xs → and_all a xs / 2 ^ s ≡ q
  unfolding and_all
  and_all-shared [] a e h = e
  and_all-shared (x ∷ xs) a e (ex, h) =
      and_all-shared xs (bit_and a x) (bit_and-shift s a x ∙ rw (e, ex) (bit_and_self q)) h

  or_all-shared :
      (xs : List ℕ) (o : ℕ) → o / 2 ^ s ≡ q → All (λ x. x / 2 ^ s ≡ q) xs → or_all o xs / 2 ^ s ≡ q
  unfolding or_all
  or_all-shared [] o e h = e
  or_all-shared (x ∷ xs) o e (ex, h) =
      or_all-shared xs (bit_or o x) (bit_or-shift s o x ∙ rw (e, ex) (bit_or_self q)) h

-- The loop drops the fewest low bits that make the two numbers one.
record Dropped (lo hi commonbits : ℕ) (r : Result (ℕ × ℕ)) (d : ℕ) : Type 0 where
  returns : r ≡ ok (lo / 2 ^ d, commonbits - d)
  agree : lo / 2 ^ d ≡ hi / 2 ^ d
  fewest : (j : ℕ) → j < d → lo / 2 ^ j ≢ hi / 2 ^ j

Dropped-suc :
    (fuel lo hi c d : ℕ)
    → (lo == hi) ≡ false
    → suc fuel ≤ c
    → c < 2 ^ 32
    → d ≤ fuel
    → Dropped
        (lo / 2)
        (hi / 2)
        (u32 (c + (2 ^ 32 - 1)))
        (common_loop fuel (lo / 2) (hi / 2) (u32 (c + (2 ^ 32 - 1))))
        d
    → Dropped lo hi c (common_loop (suc fuel) lo hi c) (suc d)
unfolding common_loop
Dropped-suc fuel lo hi c d e room small dle r = record {
  returns =
      rw (e, common_loop)
        (r.returns ∙ ap ok (ap₂ (λ a b. (a, b)) (sym (div-two_pow-suc lo d)) (omega arith)));
  agree = rw (div-two_pow-suc lo d, div-two_pow-suc hi d) r.agree;
  fewest = below;
}
  where
    below : (j : ℕ) → j < suc d → lo / 2 ^ j ≢ hi / 2 ^ j
    below zero h q = cc (e, (==_iff lo hi).1 (omega (arith, q)))
    below (suc j) h q =
        r.fewest j (omega arith) (rw (div-two_pow-suc lo j, div-two_pow-suc hi j) at q)

common_loop-Dropped :
    (fuel lo hi commonbits : ℕ)
    → lo ≤ hi
    → hi < 2 ^ fuel
    → fuel ≤ commonbits
    → commonbits < 2 ^ 32
    → (d : ℕ) × (d ≤ fuel) × Dropped lo hi commonbits (common_loop fuel lo hi commonbits) d
unfolding common_loop
common_loop-Dropped zero lo hi c le lt room small = (
  0,
  omega arith,
  record {
    returns = ground (arith, div-two_pow-zero lo);
    agree = omega arith;
    fewest = λ j h. absurd (omega arith);
  },
)
common_loop-Dropped (suc fuel) lo hi c le lt room small = elim (Bool-cases (lo == hi)) [
  | inl e ↦ (
    0,
    omega arith,
    record {
      returns = rw (e, common_loop) (ground (arith, div-two_pow-zero lo));
      agree = ap (λ (t : ℕ). t / 2 ^ 0) ((==_iff lo hi).0 e);
      fewest = λ j h. absurd (omega arith);
    },
  )
  | inr e ↦
      let (d, dle, r) =
        common_loop-Dropped fuel (lo / 2) (hi / 2) (u32 (c + (2 ^ 32 - 1))) (omega arith)
          (omega (arith, two_pow-suc fuel)) (omega arith) (omega arith) in
      (suc d, omega arith, Dropped-suc fuel lo hi c d e room small dle r)
]

-- The words agree on their first `commonbits` bits, which are those of `common`, and on no more.
pub record IsCommon (w : ℕ) (xs : List ℕ) (common commonbits : ℕ) : Type 0 where
  pub bits : commonbits ≤ w
  pub fits : common < 2 ^ w
  pub shared : All (λ x. x / 2 ^ (w - commonbits) * 2 ^ (w - commonbits) ≡ common) xs
  pub most : (j : ℕ) → j < w - commonbits → (q : ℕ) → ¬ All (λ x. x / 2 ^ j ≡ q) xs

module _ (w x : ℕ) (xs : List ℕ) (h : All (λ x. x < 2 ^ w) (x ∷ xs)) where
  abbrev lo : ℕ
  lo = and_all x (x ∷ xs)

  abbrev hi : ℕ
  hi = or_all x (x ∷ xs)

  hi-lt : hi < 2 ^ w
  hi-lt = or_all-lt w (x ∷ xs) x h.0 h

  lo-le-hi : lo ≤ hi
  lo-le-hi = omega (arith, and_all-le (x ∷ xs) x, le-or_all (x ∷ xs) x)

  squeezed :
      (d y : ℕ) → lo / 2 ^ d ≡ hi / 2 ^ d → lo ≤ y → y ≤ hi → y / 2 ^ d * 2 ^ d ≡ lo / 2 ^ d * 2 ^ d
  squeezed d y e p q =
      ap (λ (t : ℕ). t * 2 ^ d) (omega (arith, e, div_mono d lo y p, div_mono d y hi q))

  Dropped-IsCommon :
      {r : Result (ℕ × ℕ)} (d : ℕ)
      → d ≤ w
      → Dropped lo hi w r d
      → IsCommon w (x ∷ xs) (lo / 2 ^ d * 2 ^ (w - (w - d)) % 2 ^ w) (w - d)
  Dropped-IsCommon d dle r =
      rw (back, cut)
        (record {
          bits = omega arith;
          fits = omega (arith, hi-lt, lo-le-hi, div-mul-le_self lo (2 ^ d));
          shared =
              subst (λ t. All (λ y. y / 2 ^ t * 2 ^ t ≡ lo / 2 ^ d * 2 ^ d) (x ∷ xs)) (sym back)
                (All-zip (λ y. lo ≤ y) (λ y. y ≤ hi) (λ y. y / 2 ^ d * 2 ^ d ≡ lo / 2 ^ d * 2 ^ d)
                  (λ y p q. squeezed d y r.agree p q) (x ∷ xs) (and_all-le (x ∷ xs) x).1
                  (le-or_all (x ∷ xs) x).1);
          most = λ j jd q all. r.fewest j (omega (arith, jd)) (
              and_all-shared j q (x ∷ xs) x all.0 all
              ∙ sym (or_all-shared j q (x ∷ xs) x all.0 all));
        })
    where
      back : w - (w - d) ≡ d
      back = omega arith

      cut : lo / 2 ^ d * 2 ^ d % 2 ^ w ≡ lo / 2 ^ d * 2 ^ d
      cut = mod-eq_of_lt (omega (arith, hi-lt, lo-le-hi, div-mul-le_self lo (2 ^ d)))

  -- On a buffer of at least one word and fewer than 2^31 the count returns, and finds exactly the
  -- shared bits.
  pub sigbits_count_word-IsCommon :
      (k : ℕ) (pcb : Pcbytes)
      → w < 2 ^ 32
      → words_in k pcb.bytes ≡ x ∷ xs
      → pcb.npoints ≡ length (x ∷ xs)
      → pcb.npoints < 2 ^ 31
      → (common : ℕ) × (commonbits : ℕ) × (sigbits_count_word w k pcb ≡ ok (common, commonbits))
        × IsCommon w (x ∷ xs) common commonbits
  unfolding sigbits_count_word
  sigbits_count_word-IsCommon k pcb small e n few =
      let (d, dle, r) = common_loop-Dropped w lo hi w lo-le-hi hi-lt (omega arith) small in
      (
        lo / 2 ^ d * 2 ^ (w - (w - d)) % 2 ^ w,
        w - d,
        rw (e, counts_to_ok pcb.npoints few, n, and_or_loop_lem (x ∷ xs) x x, r.returns),
        Dropped-IsCommon d dle r,
      )
