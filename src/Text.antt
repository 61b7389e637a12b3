-- ===== src/Text.antt =====
-- What the code uses of the C library on strings. A string is the list of its characters without
-- the terminating 0.
use Prim.Native.Char.{code}
use Prim.Native.String.{String}
use pointcloud.Common.{
  ℕ, ◌+◌, ◌-◌, ◌*◌, ◌%◌, ◌^◌, Bool, true, false, ◌&&◌, ◌||◌, ◌==◌, leb, if◌then◌else◌, List, [],
  ◌∷◌, ◌++◌, get_elem?,
}
use pointcloud.Common.Result.{Result, access}

-- The characters of a literal.
abbrev pub codes : String → List ℕ
codes String.[] = []
codes (String.◌∷◌ c s) = code c ∷ codes s

abbrev pub between : ℕ → ℕ → ℕ → Bool
between low high c = leb low c && leb c high

-- `tolower` in the C locale
unfoldable pub to_lower : ℕ → ℕ
to_lower c = if between b'A' b'Z' c then c + 32 else c

-- `strcasecmp(a, b) == 0`
unfoldable pub same_nocase : List ℕ → List ℕ → Bool
unfolding to_lower
same_nocase [] [] = true
same_nocase [] (y ∷ ys) = false
same_nocase (x ∷ xs) [] = false
same_nocase (x ∷ xs) (y ∷ ys) = to_lower x == to_lower y && same_nocase xs ys

-- `strcmp(a, b) == 0`
unfoldable pub same_text : List ℕ → List ℕ → Bool
same_text [] [] = true
same_text [] (y ∷ ys) = false
same_text (x ∷ xs) [] = false
same_text (x ∷ xs) (y ∷ ys) = x == y && same_text xs ys

-- `str[i]`; the terminating 0 is the last character that is there.
unfoldable pub char_at : List ℕ → ℕ → Result ℕ
char_at str i = access (get_elem? (str ++ (0 ∷ [])) i)

is_space : ℕ → Bool
is_space c = c == 32 || between 9 13 c

digits : ℕ → List ℕ → ℕ
digits n [] = n
digits n (c ∷ cs) = elim (between b'0' b'9' c) [
  | true ↦ digits (10 * n + (c - b'0')) cs
  | false ↦ n
]

signed_digits : List ℕ → ℕ
unfolding digits
signed_digits [] = 0
signed_digits (c ∷ cs) =
    if c == b'-'
    then (2 ^ 32 - digits 0 cs % 2 ^ 32) % 2 ^ 32
    else if c == b'+'
    then digits 0 cs % 2 ^ 32
    else digits 0 (c ∷ cs) % 2 ^ 32

-- `atoi`, as the 32 bits of the `int`.
unfoldable pub atoi : List ℕ → ℕ
unfolding is_space signed_digits
atoi [] = 0
atoi (c ∷ cs) = elim (is_space c) [ true ↦ atoi cs | false ↦ signed_digits (c ∷ cs) ]
