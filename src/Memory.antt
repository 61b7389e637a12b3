-- ===== src/Memory.antt =====
-- `memcpy` into memory: the bytes of an allocation with some of them replaced.
use pointcloud.Common.{
  ℕ, zero, suc, ◌+◌, ◌-◌, ◌≤◌, ◌≡◌, refl, sym, ap, ◌∙◌, List, [], ◌∷◌, ◌++◌, length, take, drop,
  leb, if◌then◌else◌, arith, le→leb, length-append, length-take, length-drop, take-append-drop,
  take-append, drop-append, ◌⊎◌, inl, inr,
}
use pointcloud.Common.Result.{Result, ok, fail, out_of_bounds}
use pointcloud.Bytes.Valid.{drop-drop}

unfoldable pub put_bytes : List ℕ → ℕ → List ℕ → Result (List ℕ)
put_bytes memory offset bytes =
    if leb (offset + length bytes) (length memory)
    then ok (take offset memory ++ (bytes ++ drop (offset + length bytes) memory))
    else fail out_of_bounds

pub take-drop-append {ℓ} :
    {A : Type ℓ} (n o : ℕ) (xs ys : List A)
    → o + n ≤ length xs
    → take n (drop o (xs ++ ys)) ≡ take n (drop o xs)
take-drop-append zero o xs ys h = refl
take-drop-append (suc n) o [] ys h = absurd (omega arith)
take-drop-append (suc n) zero (x ∷ xs) ys h =
    ap (λ t. x ∷ t) (take-drop-append n zero xs ys (omega arith))
take-drop-append (suc n) (suc o) (x ∷ xs) ys h = take-drop-append (suc n) o xs ys (omega arith)

pub drop-append_beyond {ℓ} :
    {A : Type ℓ} (o k : ℕ) (xs ys : List A) → o ≡ length xs + k → drop o (xs ++ ys) ≡ drop k ys
drop-append_beyond o k [] ys e = ap (λ (t : ℕ). drop t ys) (omega arith)
drop-append_beyond zero k (x ∷ xs) ys e = absurd (omega arith)
drop-append_beyond (suc o) k (x ∷ xs) ys e = drop-append_beyond o k xs ys (omega arith)

-- The memory in three parts, of which the middle one is replaced.
pub put_bytes-append :
    (pre old post bytes : List ℕ) (offset : ℕ)
    → length pre ≡ offset
    → length old ≡ length bytes
    → put_bytes (pre ++ (old ++ post)) offset bytes ≡ ok (pre ++ (bytes ++ post))
unfolding put_bytes
put_bytes-append pre old post bytes offset p o = rw (
  le→leb (offset + length bytes) (length (pre ++ (old ++ post)))
      (omega (arith, length-append pre (old ++ post), length-append old post)),
  ← p,
  take-append pre (old ++ post),
  drop-append_beyond (length pre + length bytes) (length bytes) pre (old ++ post) refl,
  ← o,
  drop-append old post,
)

-- Where a write fits the memory is such an append.
pub record Parts (memory : List ℕ) (offset n : ℕ) : Type 0 where
  pub pre : List ℕ
  pub old : List ℕ
  pub post : List ℕ
  pub whole : memory ≡ pre ++ (old ++ post)
  pub before : length pre ≡ offset
  pub wide : length old ≡ n

pub parts : (memory : List ℕ) (offset n : ℕ) → offset + n ≤ length memory → Parts memory offset n
parts memory offset n h = record {
  pre = take offset memory;
  old = take n (drop offset memory);
  post = drop n (drop offset memory);
  whole = sym (
      ap (λ t. take offset memory ++ t) (take-append-drop n (drop offset memory))
      ∙ take-append-drop offset memory);
  before = omega (arith, length-take offset memory);
  wide = omega (arith, length-take n (drop offset memory), length-drop offset memory);
}

pub bytes_put : List ℕ → ℕ → List ℕ → List ℕ
bytes_put memory offset bytes = take offset memory ++ (bytes ++ drop (offset + length bytes) memory)

module _ (memory : List ℕ) (offset : ℕ) (bytes : List ℕ)
    (fits : offset + length bytes ≤ length memory) where
  pub put_bytes_ok : put_bytes memory offset bytes ≡ ok (bytes_put memory offset bytes)
  unfolding put_bytes bytes_put
  put_bytes_ok = rw (le→leb _ _ fits)

  pub length-bytes_put : length (bytes_put memory offset bytes) ≡ length memory
  unfolding bytes_put
  length-bytes_put = omega (
    arith,
    length-append (take offset memory) (bytes ++ drop (offset + length bytes) memory),
    length-append bytes (drop (offset + length bytes) memory),
    length-take offset memory,
    length-drop (offset + length bytes) memory,
  )

  before : length (take offset memory) ≡ offset
  before = omega (arith, length-take offset memory)

  -- What was written is read.
  pub take-drop-bytes_put :
      take (length bytes) (drop offset (bytes_put memory offset bytes)) ≡ bytes
  unfolding bytes_put
  take-drop-bytes_put =
      ap (take (length bytes))
        (drop-append_beyond offset 0 (take offset memory) _ (omega (arith, before)))
      ∙ take-append bytes (drop (offset + length bytes) memory)

  -- Bytes before or after the write stay.
  pub take-drop-bytes_put_other :
      (o n : ℕ)
      → (o + n ≤ offset) ⊎ (offset + length bytes ≤ o)
      → take n (drop o (bytes_put memory offset bytes)) ≡ take n (drop o memory)
  unfolding bytes_put
  take-drop-bytes_put_other o n (inl h) =
      take-drop-append n o (take offset memory) _ (omega (arith, before))
      ∙ sym (take-drop-append n o (take offset memory) (drop offset memory) (omega (arith, before)))
      ∙ ap (λ t. take n (drop o t)) (take-append-drop offset memory)
  take-drop-bytes_put_other o n (inr h) = ap (take n) (
      drop-append_beyond o (o - offset) (take offset memory) _ (omega (arith, before))
      ∙ drop-append_beyond (o - offset) (o - offset - length bytes) bytes
          (drop (offset + length bytes) memory) (omega arith)
      ∙ drop-drop (offset + length bytes) (o - offset - length bytes) memory
      ∙ ap (λ (t : ℕ). drop t memory) (omega arith))
