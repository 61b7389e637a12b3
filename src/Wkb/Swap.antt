-- ===== src/Wkb/Swap.antt =====
-- lib/pc_util.c, lib/pc_bytes.c: the loop that swaps bytes in place reverses a word.
use pointcloud.Common.{
  ℕ, zero, suc, ◌+◌, ◌-◌, ◌*◌, ◌/◌, ◌≡◌, refl, sym, ap, ◌∙◌, List, [], ◌∷◌, ◌++◌, length, arith,
  length-append, append_assoc, append-nil, get_elem?-append, set-append,
}
use pointcloud.Common.Result.{ok}
use pointcloud.Wkb.{swap_bytes, swap_loop}

-- The list backwards.
unfoldable pub reversed {ℓ} : {A : Type ℓ} → List A → List A
reversed [] = []
reversed (x ∷ xs) = reversed xs ++ (x ∷ [])

pub reversed-append {ℓ} :
    {A : Type ℓ} (xs ys : List A) → reversed (xs ++ ys) ≡ reversed ys ++ reversed xs
unfolding reversed
reversed-append [] ys = sym (append-nil (reversed ys))
reversed-append (x ∷ xs) ys =
    ap (λ t. t ++ (x ∷ [])) (reversed-append xs ys)
    ∙ append_assoc (reversed ys) (reversed xs) (x ∷ [])

pub reversed-reversed {ℓ} : {A : Type ℓ} (xs : List A) → reversed (reversed xs) ≡ xs
unfolding reversed
reversed-reversed [] = refl
reversed-reversed (x ∷ xs) =
    reversed-append (reversed xs) (x ∷ []) ∙ ap (λ t. x ∷ t) (reversed-reversed xs)

pub length-reversed {ℓ} : {A : Type ℓ} (xs : List A) → length (reversed xs) ≡ length xs
unfolding reversed
length-reversed [] = refl
length-reversed (x ∷ xs) = omega (arith, length-append (reversed xs) (x ∷ []), length-reversed xs)

-- A list that is not empty has a last element.
last-cases : (x : ℕ) (xs : List ℕ) → (ys : List ℕ) × (y : ℕ) × (x ∷ xs ≡ ys ++ (y ∷ []))
last-cases x [] = ([], x, refl)
last-cases x (z ∷ xs) = let (ys, y, e) = last-cases z xs in (x ∷ ys, y, ap (λ t. x ∷ t) e)

-- Exchanging the outer two bytes of what is left.
swap_bytes-outer :
    (pre mid post : List ℕ) (x y size offset n : ℕ)
    → length pre ≡ offset + n
    → size ≡ length mid + 2 + 2 * n
    → swap_bytes size offset n (pre ++ (x ∷ (mid ++ (y ∷ post))))
      ≡ ok (pre ++ (y ∷ (mid ++ (x ∷ post))))
unfolding swap_bytes
swap_bytes-outer pre mid post x y size offset n p s = rw (
  ← p,
  get_elem?-append pre (x ∷ (mid ++ (y ∷ post))),
  far,
  at_end x (y ∷ post),
  get_elem?-append (pre ++ (x ∷ mid)) (y ∷ post),
  ← at_end x (y ∷ post),
  set-append pre x (mid ++ (y ∷ post)) y,
  same_length,
  at_end y (y ∷ post),
  set-append (pre ++ (y ∷ mid)) y post x,
  ← at_end y (x ∷ post),
)
  where
    at_end : (a : ℕ) (zs : List ℕ) → pre ++ (a ∷ (mid ++ zs)) ≡ (pre ++ (a ∷ mid)) ++ zs
    at_end a zs = sym (append_assoc pre (a ∷ mid) zs)

    far : offset + (size - n - 1) ≡ length (pre ++ (x ∷ mid))
    far = omega (arith, length-append pre (x ∷ mid))

    same_length : length (pre ++ (x ∷ mid)) ≡ length (pre ++ (y ∷ mid))
    same_length = omega (arith, length-append pre (x ∷ mid), length-append pre (y ∷ mid))

swap_step :
    (rounds size offset n : ℕ) (bytes after : List ℕ)
    → swap_bytes size offset n bytes ≡ ok after
    → swap_loop (suc rounds) size offset n bytes ≡ swap_loop rounds size offset (n + 1) after
unfolding swap_loop
swap_step rounds size offset n bytes after e = rw e refl

-- The loop over what is left in the middle.
swap_loop-middle :
    (rounds : ℕ) (pre mid post : List ℕ) (size offset n : ℕ)
    → length pre ≡ offset + n
    → size ≡ length mid + 2 * n
    → rounds ≡ length mid / 2
    → swap_loop rounds size offset n (pre ++ (mid ++ post)) ≡ ok (pre ++ (reversed mid ++ post))
unfolding swap_loop reversed
swap_loop-middle zero pre [] post size offset n p s r = refl
swap_loop-middle zero pre (x ∷ []) post size offset n p s r = refl
swap_loop-middle zero pre (x ∷ y ∷ mid) post size offset n p s r = absurd (omega arith)
swap_loop-middle (suc rounds) pre [] post size offset n p s r = absurd (omega arith)
swap_loop-middle (suc rounds) pre (x ∷ []) post size offset n p s r = absurd (omega arith)
swap_loop-middle (suc rounds) pre (x ∷ z ∷ mid) post size offset n p s r =
    let (ys, y, e) = last-cases z mid in
    let len_eq : suc (length mid) ≡ length ys + 1 = ap length e ∙ length-append ys (y ∷ []) in
    let same : pre ++ (x ∷ ((z ∷ mid) ++ post)) ≡ pre ++ (x ∷ (ys ++ (y ∷ post))) =
      ap (λ t. pre ++ (x ∷ (t ++ post))) e
      ∙ ap (λ t. pre ++ (x ∷ t)) (append_assoc ys (y ∷ []) post) in
    let swapped = swap_bytes-outer pre ys post x y size offset n p (omega (arith, len_eq)) in
    ap (swap_loop (suc rounds) size offset n) same
    ∙ swap_step rounds size offset n _ _ swapped
    ∙ ap (swap_loop rounds size offset (n + 1)) (sym (append_assoc pre (y ∷ []) (ys ++ (x ∷ post))))
    ∙ swap_loop-middle rounds (pre ++ (y ∷ [])) ys (x ∷ post) size offset (n + 1)
        (omega (arith, length-append pre (y ∷ []))) (omega (arith, len_eq)) (omega (arith, len_eq))
    ∙ ap ok (
        append_assoc pre (y ∷ []) (reversed ys ++ (x ∷ post))
        ∙ ap (λ t. pre ++ t)
            (sym (turned ys y x post) ∙ ap (λ t. (reversed t ++ (x ∷ [])) ++ post) (sym e)))
  where
    turned :
        (ys : List ℕ) (y x : ℕ) (post : List ℕ)
        → (reversed (ys ++ (y ∷ [])) ++ (x ∷ [])) ++ post ≡ y ∷ (reversed ys ++ (x ∷ post))
    turned ys y x post =
        ap (λ t. (t ++ (x ∷ [])) ++ post) (reversed-append ys (y ∷ []))
        ∙ ap (λ t. y ∷ t) (append_assoc (reversed ys) (x ∷ []) post)

-- The word of `size` bytes behind `pre` is reversed, the rest stays.
pub swap_loop-reversed :
    (pre v post : List ℕ) (size : ℕ)
    → length v ≡ size
    → swap_loop (size / 2) size (length pre) 0 (pre ++ (v ++ post))
      ≡ ok (pre ++ (reversed v ++ post))
swap_loop-reversed pre v post size e =
    swap_loop-middle (size / 2) pre v post size (length pre) 0 (omega arith) (omega arith)
      (ap (λ (t : ℕ). t / 2) (sym e))
