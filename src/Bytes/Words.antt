-- ===== src/Bytes/Words.antt =====
-- A byte buffer seen as an array of `uintN_t`, on a little-endian host: what the casts such as
-- `(uint16_t *)pcb.bytes` of lib/pc_bytes.c do. A word of `k` bytes is a number below 2^(8k).
use pointcloud.Common.{
  ℕ, zero, suc, ◌+◌, ◌*◌, ◌/◌, ◌%◌, ◌^◌, ◌<◌, ◌≤◌, ◌≡◌, refl, sym, ap, ap₂, ◌∙◌, List, [], ◌∷◌,
  ◌++◌, length, take, drop, All, arith, length-take, length-drop, length-append, take-append-drop,
  take-append, drop-append, All-take, All-drop,
}
use pointcloud.Common.Bits.{mod-mul, div_unique}
use pointcloud.Bytes.Valid.{IsByte}
use mathlib.Core.Path.{subst}
use native.Mathlib.Nat.{pow-suc, pow-succ', one-le-pow, mod-eq_of_lt}

unfoldable pub word_of : List ℕ → ℕ
word_of [] = 0
word_of (b ∷ bs) = b + 256 * word_of bs

unfoldable pub bytes_of : ℕ → ℕ → List ℕ
bytes_of zero v = []
bytes_of (suc k) v = v % 256 ∷ bytes_of k (v / 256)

-- The first `n` words.
unfoldable pub words : ℕ → ℕ → List ℕ → List ℕ
unfolding word_of
words k zero bytes = []
words k (suc n) bytes = word_of (take k bytes) ∷ words k n (drop k bytes)

unfoldable pub words_in : ℕ → List ℕ → List ℕ
unfolding words
words_in k bytes = words k (length bytes / k) bytes

unfoldable pub bytes_of_words : ℕ → List ℕ → List ℕ
unfolding bytes_of
bytes_of_words k [] = []
bytes_of_words k (w ∷ ws) = bytes_of k w ++ bytes_of_words k ws

pub length-bytes_of : (k v : ℕ) → length (bytes_of k v) ≡ k
unfolding bytes_of
length-bytes_of zero v = refl
length-bytes_of (suc k) v = ap suc (length-bytes_of k (v / 256))

pub length-bytes_of_words : (k : ℕ) (ws : List ℕ) → length (bytes_of_words k ws) ≡ length ws * k
unfolding bytes_of_words
length-bytes_of_words k [] = omega arith
length-bytes_of_words k (w ∷ ws) = omega (
  arith,
  length-append (bytes_of k w) (bytes_of_words k ws),
  length-bytes_of k w,
  length-bytes_of_words k ws,
)

pub length-words : (k n : ℕ) (bytes : List ℕ) → length (words k n bytes) ≡ n
unfolding words
length-words k zero bytes = refl
length-words k (suc n) bytes = ap suc (length-words k n (drop k bytes))

pub word_of-bytes_of : (k v : ℕ) → word_of (bytes_of k v) ≡ v % 256 ^ k
unfolding word_of bytes_of
word_of-bytes_of zero v = omega arith
word_of-bytes_of (suc k) v = omega (
  arith,
  word_of-bytes_of k (v / 256),
  pow-suc 256 k,
  ap (λ (t : ℕ). v % t) (pow-succ' 256 k),
  mod-mul v 256 (256 ^ k) (omega arith) (one-le-pow k 256 (omega arith)),
)

pub word_of-lt : (bs : List ℕ) → All IsByte bs → word_of bs < 256 ^ length bs
unfolding word_of
word_of-lt [] h = omega arith
word_of-lt (b ∷ bs) (hb, h) = omega (arith, pow-suc 256 (length bs), word_of-lt bs h)

pub bytes_of-word_of : (bs : List ℕ) → All IsByte bs → bytes_of (length bs) (word_of bs) ≡ bs
unfolding word_of bytes_of
bytes_of-word_of [] h = refl
bytes_of-word_of (b ∷ bs) (hb, h) =
    ap₂ ◌∷◌ (omega arith) (ap (bytes_of (length bs)) (omega arith) ∙ bytes_of-word_of bs h)

-- Words written are words read.
pub words-bytes_of_words :
    (k : ℕ) (ws : List ℕ)
    → All (λ w. w < 256 ^ k) ws
    → words k (length ws) (bytes_of_words k ws) ≡ ws
unfolding words bytes_of_words
words-bytes_of_words k [] h = refl
words-bytes_of_words k (w ∷ ws) (hw, h) =
    ap₂ ◌∷◌ (ap word_of taken ∙ word_of-bytes_of k w ∙ mod-eq_of_lt hw)
      (ap (words k (length ws)) dropped ∙ words-bytes_of_words k ws h)
  where
    taken : take k (bytes_of k w ++ bytes_of_words k ws) ≡ bytes_of k w
    taken = rw (length-bytes_of k w) at (take-append (bytes_of k w) (bytes_of_words k ws))

    dropped : drop k (bytes_of k w ++ bytes_of_words k ws) ≡ bytes_of_words k ws
    dropped = rw (length-bytes_of k w) at (drop-append (bytes_of k w) (bytes_of_words k ws))

-- The words of a buffer of `n` words give its bytes.
pub bytes_of_words-words :
    (k n : ℕ) (bytes : List ℕ)
    → All IsByte bytes
    → length bytes ≡ n * k
    → bytes_of_words k (words k n bytes) ≡ bytes
unfolding words bytes_of_words
bytes_of_words-words k zero [] h e = refl
bytes_of_words-words k zero (b ∷ bytes) h e = absurd (omega arith)
bytes_of_words-words k (suc n) bytes h e =
    ap₂ ◌++◌ first (
      bytes_of_words-words k n (drop k bytes) (All-drop IsByte k bytes h)
        (omega (arith, length-drop k bytes)))
    ∙ take-append-drop k bytes
  where
    wide : length (take k bytes) ≡ k
    wide = omega (arith, length-take k bytes)

    first : bytes_of k (word_of (take k bytes)) ≡ take k bytes
    first =
        ap (λ (t : ℕ). bytes_of t (word_of (take k bytes))) (sym wide)
        ∙ bytes_of-word_of (take k bytes) (All-take IsByte k bytes h)

pub words-lt :
    (k n : ℕ) (bytes : List ℕ)
    → All IsByte bytes
    → length bytes ≡ n * k
    → All (λ w. w < 256 ^ k) (words k n bytes)
unfolding words
words-lt k zero bytes h e = tt
words-lt k (suc n) bytes h e = (
  subst (λ t. word_of (take k bytes) < 256 ^ t) wide
      (word_of-lt (take k bytes) (All-take IsByte k bytes h)),
  words-lt k n (drop k bytes) (All-drop IsByte k bytes h) (omega (arith, length-drop k bytes)),
)
  where
    wide : length (take k bytes) ≡ k
    wide = omega (arith, length-take k bytes)

pub words_in-bytes_of_words :
    (k : ℕ) (ws : List ℕ)
    → 1 ≤ k
    → All (λ w. w < 256 ^ k) ws
    → words_in k (bytes_of_words k ws) ≡ ws
unfolding words_in
words_in-bytes_of_words k ws pos h =
    ap (λ (t : ℕ). words k t (bytes_of_words k ws)) count ∙ words-bytes_of_words k ws h
  where
    count : length (bytes_of_words k ws) / k ≡ length ws
    count =
        ap (λ (t : ℕ). t / k) (length-bytes_of_words k ws)
        ∙ div_unique (length ws * k) (length ws) k 0 (omega arith) (omega arith)
