-- ===== src/Bytes/Valid.antt =====
-- The buffers that the encoders are given, and how their elements are read.
use mathlib.Core.List.{flatten}
use pointcloud.Common.{
  ℕ, zero, suc, ◌+◌, ◌*◌, ◌^◌, ◌≤◌, ◌<◌, ◌≡◌, refl, ap, true, false, List, [], ◌∷◌, length, take,
  drop, All, arith, length-take, length-drop, take-append-drop, le→leb,
}
use pointcloud.Common.Result.{Result, ok, ◌>>=◌}
use pointcloud.Bytes.{Pcbytes, interpretation_size, slice, element, bytes_eq, dim_none}

abbrev pub IsByte : ℕ → Type 0
IsByte b = b < 256

-- An uncompressed buffer of `npoints` values of `size` bytes each.
pub record IsRaw (size : ℕ) (pcb : Pcbytes) : Type 0 where
  pub size_of : interpretation_size pcb.interpretation ≡ ok size
  pub wide : 1 ≤ size
  pub uncompressed : pcb.compression ≡ dim_none
  pub filled : pcb.size ≡ pcb.npoints * size
  pub allocated : length pcb.bytes ≡ pcb.npoints * size
  pub narrow : All IsByte pcb.bytes
  pub small : pcb.npoints < 2 ^ 32

-- The values in order.
unfoldable pub chunks : ℕ → ℕ → List ℕ → List (List ℕ)
chunks size zero bytes = []
chunks size (suc n) bytes = take size bytes ∷ chunks size n (drop size bytes)

pub length-chunks : (size n : ℕ) (bytes : List ℕ) → length (chunks size n bytes) ≡ n
unfolding chunks
length-chunks size zero bytes = refl
length-chunks size (suc n) bytes = ap suc (length-chunks size n (drop size bytes))

zero-add : (j : ℕ) → zero + j ≡ j
zero-add j = omega arith

suc-add : (i j : ℕ) → suc i + j ≡ suc (i + j)
suc-add i j = omega arith

pub drop-drop {ℓ} : {A : Type ℓ} (i j : ℕ) (xs : List A) → drop j (drop i xs) ≡ drop (i + j) xs
drop-drop zero j xs = rw zero-add
drop-drop (suc i) zero [] = rw suc-add
drop-drop (suc i) (suc j) [] = rw suc-add
drop-drop (suc i) j (x ∷ xs) = rw suc-add (drop-drop i j xs)

pub slice_ok :
    (bytes : List ℕ) (offset n : ℕ)
    → offset + n ≤ length bytes
    → slice bytes offset n ≡ ok (take n (drop offset bytes))
unfolding slice
slice_ok bytes offset n h = rw (le→leb _ _ h)

-- What a read of `n` bytes gives has `n` bytes.
pub length-slice :
    (bytes : List ℕ) (offset n : ℕ) {v : List ℕ} → slice bytes offset n ≡ ok v → length v ≡ n
unfolding slice
length-slice bytes offset n e =
    ground (arith, length-take n (drop offset bytes), length-drop offset bytes)

-- `bytes` holds the values `vs` from point `i` on.
abbrev pub Elements : ℕ → List ℕ → ℕ → List (List ℕ) → Type 0
Elements size bytes i [] = Unit
Elements size bytes i (v ∷ vs) = (element size bytes i ≡ ok v) × Elements size bytes (i + 1) vs

pub chunks-Elements :
    (size : ℕ) (bytes : List ℕ) (n i : ℕ)
    → (i + n) * size ≤ length bytes
    → Elements size bytes i (chunks size n (drop (i * size) bytes))
unfolding chunks element
chunks-Elements size bytes zero i h = tt
chunks-Elements size bytes (suc n) i h = (
  slice_ok bytes (i * size) size (omega arith),
  rw (drop-drop (i * size) size bytes, next) (chunks-Elements size bytes n (i + 1) (omega arith)),
)
  where
    next : i * size + size ≡ (i + 1) * size
    next = omega arith

pub chunks-wide :
    (size n : ℕ) (bytes : List ℕ)
    → n * size ≤ length bytes
    → All (λ v. length v ≡ size) (chunks size n bytes)
unfolding chunks
chunks-wide size zero bytes h = tt
chunks-wide size (suc n) bytes h = (
  omega (arith, length-take size bytes),
  chunks-wide size n (drop size bytes) (omega (arith, length-drop size bytes)),
)

pub flatten-chunks :
    (size n : ℕ) (bytes : List ℕ) → length bytes ≡ n * size → flatten (chunks size n bytes) ≡ bytes
unfolding chunks flatten
flatten-chunks size zero [] h = refl
flatten-chunks size zero (b ∷ bytes) h = absurd (omega arith)
flatten-chunks size (suc n) bytes h =
    rw (flatten-chunks size n (drop size bytes) (omega (arith, length-drop size bytes)))
      (take-append-drop size bytes)

pub bytes_eq→eq : (xs ys : List ℕ) → bytes_eq xs ys ≡ true → xs ≡ ys
unfolding bytes_eq
bytes_eq→eq [] [] h = refl
bytes_eq→eq [] (y ∷ ys) h = cc
bytes_eq→eq (x ∷ xs) [] h = cc
bytes_eq→eq (x ∷ xs) (y ∷ ys) h = ground (arith, bytes_eq→eq xs ys)

pub bytes_eq_refl : (xs : List ℕ) → bytes_eq xs xs ≡ true
unfolding bytes_eq
bytes_eq_refl [] = refl
bytes_eq_refl (x ∷ xs) = ground (arith, bytes_eq_refl xs)

-- Encoding a buffer returns, and decoding the output gives the buffer back, no longer read-only.
pub record Undone (encode decode : Pcbytes → Result Pcbytes) (compression : ℕ) (pcb : Pcbytes)
    : Type 0 where
  pub out : Pcbytes
  pub encodes : encode pcb ≡ ok out
  pub form : out.compression ≡ compression
  pub decodes : decode out ≡ ok (record pcb { readonly = false })

pub Undone-restores :
    {encode decode : Pcbytes → Result Pcbytes} {compression : ℕ} {pcb : Pcbytes}
    → Undone encode decode compression pcb
    → (encode pcb >>= decode) ≡ ok (record pcb { readonly = false })
Undone-restores u = rw u.encodes u.decodes
